-- ===== src/Base/Map.antt =====
-- Rust's `HashMap` and `BTreeMap` as association lists; `values` and `iter` go through the list in
-- its order, which stands for any order in which the map may be iterated.
use Prim.Native.Nat.{suc, ◌+◌, ◌≤◌}
use mathlib.Core.Path.{◌≡◌, refl, ap, subst}
use mathlib.Core.List.{List, [], ◌∷◌}
use mathlib.Core.Bool.{Bool, true}
use mathlib.Core.Option.{Option, none, some}
use mathlib.Core.Logic.{inl, inr}
use native.Mathlib.Omega.{arith}
use lspee.Base.Tests.{if◌then◌else◌, Bool-cases}
use lspee.Base.Lists.{length, All, All-map}
use lspee.Base.Eq.{Eq, ◌==◌, beq_refl}

abbrev pub Map {ℓ} : Type ℓ → Type ℓ → Type ℓ
Map K V = List (K × V)

module _ {ℓ} {K V : Type ℓ} where
  abbrev pub values : Map K V → List V
  values [] = []
  values ((k, v) ∷ m) = v ∷ values m

  abbrev pub keys : Map K V → List K
  keys [] = []
  keys ((k, v) ∷ m) = k ∷ keys m

  -- `map.retain(|k, v| …)`
  unfoldable pub retain : (K → V → Bool) → Map K V → Map K V
  retain p [] = []
  retain p ((k, v) ∷ m) = let rest = retain p m in if p k v then (k, v) ∷ rest else rest

  -- `for v in map.values_mut() { *v = f(*v) }`
  unfoldable pub map_values : (V → V) → Map K V → Map K V
  map_values f [] = []
  map_values f ((k, v) ∷ m) = (k, f v) ∷ map_values f m

  pub length-map_values : (f : V → V) (m : Map K V) → length (map_values f m) ≡ length m
  unfolding map_values
  length-map_values f [] = refl
  length-map_values f ((k, v) ∷ m) = ap suc (length-map_values f m)

  pub length-retain-le : (p : K → V → Bool) (m : Map K V) → length (retain p m) ≤ length m
  unfolding retain
  length-retain-le p [] = omega arith
  length-retain-le p ((k, v) ∷ m) = ground (arith, length-retain-le p m)

abbrev pub map_if {ℓ} : {V : Type ℓ} → Bool → (V → V) → Option V → Option V
map_if b f none = none
map_if b f (some v) = some (if b then f v else v)

module _ {ℓ} {K V : Type ℓ} ⦃e : Eq K⦄ where
  unfoldable pub get : K → Map K V → Option V
  get k [] = none
  get k ((j, v) ∷ m) = if j == k then some v else get k m

  -- `map.insert(k, v)`
  unfoldable pub insert : K → V → Map K V → Map K V
  insert k v [] = (k, v) ∷ []
  insert k v ((j, w) ∷ m) = let rest = insert k v m in if j == k then (k, v) ∷ m else (j, w) ∷ rest

  -- `map.remove(&k)`
  unfoldable pub remove : K → Map K V → Map K V
  remove k [] = []
  remove k ((j, v) ∷ m) = let rest = remove k m in if j == k then rest else (j, v) ∷ rest

  -- `if let Some(v) = map.get_mut(&k) { *v = f(*v) }`
  unfoldable pub modify : K → (V → V) → Map K V → Map K V
  modify k f [] = []
  modify k f ((j, v) ∷ m) = let rest = modify k f m in (j, if j == k then f v else v) ∷ rest

  -- No key stands twice.
  abbrev pub Unique : Map K V → Type ℓ
  Unique [] = Unit
  Unique ((k, v) ∷ m) = (get k m ≡ none) × Unique m

  pub get-insert :
      (k j : K) (v : V) (m : Map K V) → get j (insert k v m) ≡ (if k == j then some v else get j m)
  unfolding get insert
  get-insert k j v [] = refl
  get-insert k j v ((i, w) ∷ m) =
      ground (arith, e.beq_iff k j, e.beq_iff i k, e.beq_iff i j, get-insert k j v m)

  pub get-remove : (k j : K) (m : Map K V) → get j (remove k m) ≡ (if k == j then none else get j m)
  unfolding get remove
  get-remove k j [] = ground arith
  get-remove k j ((i, w) ∷ m) =
      ground (arith, e.beq_iff k j, e.beq_iff i k, e.beq_iff i j, get-remove k j m)

  pub get-modify :
      (k j : K) (f : V → V) (m : Map K V) → get j (modify k f m) ≡ map_if (k == j) f (get j m)
  unfolding get modify
  get-modify k j f [] = refl
  get-modify k j f ((i, w) ∷ m) =
      ground (arith, e.beq_iff k j, e.beq_iff i k, e.beq_iff i j, get-modify k j f m)

  pub get-map_values :
      (f : V → V) (k : K) (m : Map K V) → get k (map_values f m) ≡ map_if true f (get k m)
  unfolding get map_values
  get-map_values f k [] = refl
  get-map_values f k ((i, w) ∷ m) = ground (arith, get-map_values f k m)

  pub get-retain-none :
      (p : K → V → Bool) (k : K) (m : Map K V) → get k m ≡ none → get k (retain p m) ≡ none
  unfolding get retain
  get-retain-none p k [] h = refl
  get-retain-none p k ((i, w) ∷ m) h = ground (arith, get-retain-none p k m)

  -- Retaining by a test drops exactly the entries that fail it.
  pub get-retain :
      (p : K → V → Bool) (k : K) (m : Map K V)
      → Unique m
      → get k (retain p m)
        ≡ elim (get k m) [ none ↦ none | some v ↦ if p k v then some v else none ]
  unfolding get retain
  get-retain p k [] u = refl
  get-retain p k ((i, w) ∷ m) (new, u) =
      ground (arith, e.beq_iff i k, get-retain p k m u, get-retain-none p k m)

  pub insert-Unique : (k : K) (v : V) (m : Map K V) → Unique m → Unique (insert k v m)
  unfolding get insert
  insert-Unique k v [] u = (refl, tt)
  insert-Unique k v ((i, w) ∷ m) u =
      ground (arith, e.beq_iff i k, e.beq_iff k i, insert-Unique k v m u.1, get-insert k i v m)

  pub remove-Unique : (k : K) (m : Map K V) → Unique m → Unique (remove k m)
  unfolding get remove
  remove-Unique k [] u = tt
  remove-Unique k ((i, w) ∷ m) u =
      ground (arith, e.beq_iff i k, e.beq_iff k i, remove-Unique k m u.1, get-remove k i m)

  pub modify-Unique : (k : K) (f : V → V) (m : Map K V) → Unique m → Unique (modify k f m)
  unfolding get modify
  modify-Unique k f [] u = tt
  modify-Unique k f ((i, w) ∷ m) u = ground (arith, modify-Unique k f m u.1, get-modify k i f m)

  pub map_values-Unique : (f : V → V) (m : Map K V) → Unique m → Unique (map_values f m)
  unfolding map_values
  map_values-Unique f [] u = tt
  map_values-Unique f ((i, w) ∷ m) u =
      ground (arith, map_values-Unique f m u.1, get-map_values f i m)

  pub retain-Unique : (p : K → V → Bool) (m : Map K V) → Unique m → Unique (retain p m)
  unfolding get retain
  retain-Unique p [] u = tt
  retain-Unique p ((i, w) ∷ m) u = ground (arith, retain-Unique p m u.1, get-retain-none p i m)

  -- What holds of every value still does after an insertion of a value of which it holds.
  pub insert-every {κ} :
      (P : V → Type κ) (k : K) (v : V) (m : Map K V)
      → P v
      → ((j : K) (w : V) → get j m ≡ some w → P w)
      → (j : K) (w : V) → get j (insert k v m) ≡ some w
      → P w
  insert-every P k v m pv rest j w h = elim (Bool-cases (k == j)) [
    | inl e ↦ subst P (ground (arith, get-insert k j v m)) pv
    | inr e ↦ rest j w (ground (arith, get-insert k j v m))
  ]

  pub length-insert_fresh :
      (k : K) (v : V) (m : Map K V) → get k m ≡ none → length (insert k v m) ≡ length m + 1
  unfolding get insert
  length-insert_fresh k v [] h = omega arith
  length-insert_fresh k v ((i, w) ∷ m) h = ground (arith, length-insert_fresh k v m)

  pub length-remove-le : (k : K) (m : Map K V) → length (remove k m) ≤ length m
  unfolding remove
  length-remove-le k [] = omega arith
  length-remove-le k ((i, w) ∷ m) = ground (arith, length-remove-le k m)

pub ruleset map_laws = (get-insert, get-remove, get-modify)

module _ {ℓ} {K V : Type ℓ} ⦃e : Eq K⦄ where
  -- The values of a map without double keys are those that its keys have.
  abbrev HasKey : Map K V → V → Type ℓ
  HasKey m v = (k : K) × (get k m ≡ some v)

  HasKey-cons :
      (j : K) (w : V) (m : Map K V) → get j m ≡ none → (v : V) → HasKey m v → HasKey ((j, w) ∷ m) v
  unfolding get
  HasKey-cons j w m new v (k, h) = (k, ground (arith, e.beq_iff j k))

  pub values-HasKey : (m : Map K V) → Unique m → All (λ v. (k : K) × (get k m ≡ some v)) (values m)
  unfolding get
  values-HasKey [] u = tt
  values-HasKey ((j, w) ∷ m) u = (
    (j, ground (arith, beq_refl j)),
    All-map (HasKey m) (HasKey ((j, w) ∷ m)) (HasKey-cons j w m u.0) (values m)
        (values-HasKey m u.1),
  )

  -- What holds of each key with its value holds of each entry.
  pub entries-All {κ} :
      (P : K → V → Type κ) (m : Map K V)
      → Unique m
      → ((k : K) (v : V) → get k m ≡ some v → P k v)
      → All (λ x. P x.0 x.1) m
  unfolding get
  entries-All P [] u h = tt
  entries-All P ((j, w) ∷ m) u h = (
    h j w (ground (arith, beq_refl j)),
    entries-All P m u.1 (λ k v g. h k v (ground (arith, e.beq_iff j k, g))),
  )
