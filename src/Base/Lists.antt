-- ===== src/Base/Lists.antt =====
-- Lists measured by native numbers, and predicates on lists.
use Prim.Native.Nat.{ℕ, suc, ◌+◌, ◌≤◌}
use mathlib.Core.Path.{◌≡◌, refl}
use mathlib.Core.List.{List, [], ◌∷◌, ◌++◌, map}
use mathlib.Core.Bool.{Bool, true, false, ◌&&◌, ◌||◌}
use mathlib.Core.Option.{Option, none, some}
use mathlib.Core.Logic.{inl, inr}
use native.Mathlib.Omega.{arith}
use lspee.Base.Tests.{if◌then◌else◌, Bool-cases}

module _ {ℓ} {A : Type ℓ} where
  abbrev pub length : List A → ℕ
  length [] = 0
  length (x ∷ xs) = suc (length xs)

  pub length-append : (xs ys : List A) → length (xs ++ ys) ≡ length xs + length ys
  length-append [] ys = omega arith
  length-append (x ∷ xs) ys = omega (arith, length-append xs ys)

  -- `Iterator::filter` by a Boolean test.
  unfoldable pub filter : (A → Bool) → List A → List A
  filter p [] = []
  filter p (x ∷ xs) = let rest = filter p xs in if p x then x ∷ rest else rest

  pub length-filter-le : (p : A → Bool) (xs : List A) → length (filter p xs) ≤ length xs
  unfolding filter
  length-filter-le p [] = omega arith
  length-filter-le p (x ∷ xs) = ground (arith, length-filter-le p xs)

  -- `Iterator::find`
  unfoldable pub find : (A → Bool) → List A → Option A
  find p [] = none
  find p (x ∷ xs) = if p x then some x else find p xs

  -- `Iterator::any`, `Iterator::all`
  unfoldable pub any : (A → Bool) → List A → Bool
  any p [] = false
  any p (x ∷ xs) = p x || any p xs

  unfoldable pub all : (A → Bool) → List A → Bool
  all p [] = true
  all p (x ∷ xs) = p x && all p xs

  abbrev pub All {κ} : (A → Type κ) → List A → Type κ
  All P [] = Unit
  All P (x ∷ xs) = P x × All P xs

  pub All-append {κ} : (P : A → Type κ) (xs ys : List A) → All P xs → All P ys → All P (xs ++ ys)
  All-append P [] ys hx hy = hy
  All-append P (x ∷ xs) ys hx hy = (hx.0, All-append P xs ys hx.1 hy)

  pub All-map {κ μ} :
      (P : A → Type κ) (Q : A → Type μ) (f : (x : A) → P x → Q x) (xs : List A)
      → All P xs
      → All Q xs
  All-map P Q f [] h = tt
  All-map P Q f (x ∷ xs) h = (f x h.0, All-map P Q f xs h.1)

module _ {ℓ κ} {A : Type ℓ} {B : Type ℓ} (p : A → Bool) (f : A → B) where
  -- What follows for `f x` from the test on `x` and from what holds of all `x`.
  pub All-map-filter {μ} :
      (P : A → Type κ) (Q : B → Type μ)
      → ((x : A) → P x → p x ≡ true → Q (f x))
      → (xs : List A) → All P xs
      → All Q (map f (filter p xs))
  unfolding filter
  All-map-filter P Q h [] a = tt
  All-map-filter P Q h (x ∷ xs) a = elim (Bool-cases (p x)) [
    | inl t ↦ rw t (h x a.0 t, All-map-filter P Q h xs a.1)
    | inr t ↦ rw t (All-map-filter P Q h xs a.1)
  ]

module _ {ℓ} {A : Type ℓ} (p : A → Bool) where
  pub filter-append : (xs ys : List A) → filter p (xs ++ ys) ≡ filter p xs ++ filter p ys
  unfolding filter
  filter-append [] ys = refl
  filter-append (x ∷ xs) ys = ground (arith, filter-append xs ys)

  pub filter_none : (xs : List A) → All (λ x. p x ≡ false) xs → filter p xs ≡ []
  unfolding filter
  filter_none [] a = refl
  filter_none (x ∷ xs) a = ground (arith, filter_none xs a.1)

  pub filter_every : (xs : List A) → All (λ x. p x ≡ true) xs → filter p xs ≡ xs
  unfolding filter
  filter_every [] a = refl
  filter_every (x ∷ xs) a = ground (arith, filter_every xs a.1)

  pub filter-All {κ} : (P : A → Type κ) (xs : List A) → All P xs → All P (filter p xs)
  unfolding filter
  filter-All P [] a = tt
  filter-All P (x ∷ xs) a = elim (Bool-cases (p x)) [
    | inl e ↦ rw e (a.0, filter-All P xs a.1)
    | inr e ↦ rw e (filter-All P xs a.1)
  ]

module _ {ℓ κ} {A : Type ℓ} (p : A → Bool) (P : A → Type κ) where
  pub All-filter_intro : (xs : List A) → All (λ x. p x ≡ true → P x) xs → All P (filter p xs)
  unfolding filter
  All-filter_intro [] a = tt
  All-filter_intro (x ∷ xs) a = elim (Bool-cases (p x)) [
    | inl e ↦ rw e (a.0 e, All-filter_intro xs a.1)
    | inr e ↦ rw e (All-filter_intro xs a.1)
  ]

  pub All-filter_elim : (xs : List A) → All P (filter p xs) → All (λ x. p x ≡ true → P x) xs
  unfolding filter
  All-filter_elim [] a = tt
  All-filter_elim (x ∷ xs) a = elim (Bool-cases (p x)) [
    | inl e ↦ let b = rw (e, filter) at a in ((λ t. b.0), All-filter_elim xs b.1)
    | inr e ↦ ((λ t. absurd (cc)), All-filter_elim xs (rw (e, filter) at a))
  ]
