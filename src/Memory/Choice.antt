-- ===== src/Memory/Choice.antt =====
-- What the choice of `select_evictions` guarantees of the sessions that stay.
use mathlib.Core.List.{append-nil, append_assoc}
use lspee.Base.{
  ℕ, ◌-◌, ◌^◌, ◌≤◌, ◌<◌, ◌≡◌, refl, Bool, true, ◌||◌, not, Option, none, some, List, [], ◌∷◌, ◌++◌,
  arith, if◌then◌else◌, filter, any, All, All-map, ltb, leb, Bool-cases, inl, inr, filter-append,
  filter_none, ap, ◌∙◌,
}
use lspee.Base.Eq.{◌==◌, contains, beq_refl}
use lspee.Registry.State.{SessionKey, key_eq, key_beq_iff}
use lspee.Memory.Defs.{
  MemorySample, MemoryBudgetSettings, sort_candidates, total, sum64, without, take_over_limit,
  take_until, over_session_limit, over_total_limit, dedupe, select_evictions,
}
use lspee.Memory.Sort.{total-filter-sort, total-sort}

-- A sample with this key is among these.
abbrev pub has_key : List MemorySample → SessionKey → Bool
has_key ss k = any (λ s. s.key == k) ss

-- The samples whose session is not chosen.
abbrev pub spared : List MemorySample → List MemorySample → List MemorySample
spared chosen ss = filter (λ s. not (has_key chosen s.key)) ss

has_key-append :
    (xs ys : List MemorySample) (k : SessionKey)
    → has_key (xs ++ ys) k ≡ (has_key xs k || has_key ys k)
unfolding any
has_key-append [] ys k = refl
has_key-append (x ∷ xs) ys k = ground (arith, has_key-append xs ys k)

-- The samples that `take_until` chooses are a first part of its list.
pub prefix : ℕ → List MemorySample → ℕ → List MemorySample
prefix max [] bytes = []
prefix max (s ∷ ss) bytes =
    let rest = s ∷ prefix max ss (bytes - s.rss_bytes) in if leb bytes max then [] else rest

take_until-prefix :
    (max : ℕ) (ss : List MemorySample) (bytes : ℕ) (selected remaining : List MemorySample)
    → take_until max ss bytes selected remaining ≡ selected ++ prefix max ss bytes
unfolding take_until prefix
take_until-prefix max [] bytes selected remaining = simp append-nil
take_until-prefix max (s ∷ ss) bytes selected remaining = ground (
  arith,
  take_until-prefix max ss (bytes - s.rss_bytes) (selected ++ s ∷ []) (without s.key remaining),
  append_assoc selected (s ∷ []) (prefix max ss (bytes - s.rss_bytes)),
  append-nil selected,
)

pub spared-nil : (ss : List MemorySample) → spared [] ss ≡ ss
unfolding any filter
spared-nil [] = refl
spared-nil (s ∷ ss) = rw (spared-nil ss)

spared-without :
    (s : MemorySample) (over ss : List MemorySample)
    → spared over (without s.key ss) ≡ spared (s ∷ over) ss
unfolding any filter
spared-without s over [] = refl
spared-without s over (t ∷ ts) =
    ground (arith, spared-without s over ts, key_beq_iff s.key t.key, key_beq_iff t.key s.key)

take_over_limit_lem :
    (over remaining selected : List MemorySample)
    → take_over_limit over remaining selected ≡ (spared over remaining, selected ++ over)
unfolding take_over_limit filter any
take_over_limit_lem [] remaining selected = rw (spared-nil remaining, append-nil)
take_over_limit_lem (s ∷ over) remaining selected = ground (
  arith,
  take_over_limit_lem over (without s.key remaining) (selected ++ s ∷ []),
  spared-without s over remaining,
  append_assoc selected (s ∷ []) over,
)

dedupe-has_key :
    (seen : List SessionKey) (ss : List MemorySample) (k : SessionKey)
    → (contains seen k || has_key (dedupe seen ss) k) ≡ (contains seen k || has_key ss k)
unfolding dedupe contains any
dedupe-has_key seen [] k = refl
dedupe-has_key seen (s ∷ ss) k =
    ground
      (arith, dedupe-has_key seen ss k, dedupe-has_key (s.key ∷ seen) ss k, key_beq_iff s.key k)

spared-both :
    (c a b : List MemorySample)
    → ((k : SessionKey) → has_key c k ≡ (has_key a k || has_key b k))
    → (ss : List MemorySample) → spared c ss ≡ spared b (spared a ss)
unfolding filter
spared-both c a b h [] = refl
spared-both c a b h (s ∷ ss) = ground (arith, h s.key, spared-both c a b h ss)

-- The samples that the budget for one session chooses.
abbrev pub over_budget : Option ℕ → List MemorySample → List MemorySample
over_budget none samples = []
over_budget (some max) samples = sort_candidates (filter (λ s. ltb max s.rss_bytes) samples)

-- The samples that the budget for all chooses of those that are left.
abbrev pub surplus : Option ℕ → List MemorySample → List MemorySample
surplus none left = []
surplus (some max) left = prefix max (sort_candidates left) (sum64 left)

over_session_limit_lem :
    (limit : Option ℕ) (samples : List MemorySample)
    → over_session_limit limit samples
      ≡ (spared (over_budget limit samples) samples, over_budget limit samples)
unfolding over_session_limit
over_session_limit_lem none samples = rw (spared-nil samples)
over_session_limit_lem (some max) samples = take_over_limit_lem _ samples []

pub prefix_within :
    (max : ℕ) (ss : List MemorySample) (bytes : ℕ) → leb bytes max ≡ true → prefix max ss bytes ≡ []
unfolding prefix
prefix_within max [] bytes h = refl
prefix_within max (s ∷ ss) bytes h = ground arith

over_total_limit_lem :
    (limit : Option ℕ) (left selected : List MemorySample)
    → over_total_limit limit (left, selected) ≡ selected ++ surplus limit left
unfolding over_total_limit
over_total_limit_lem none left selected = simp append-nil
over_total_limit_lem (some max) left selected = ground (
  arith,
  take_until-prefix max (sort_candidates left) (sum64 left) selected (sort_candidates left),
  prefix_within max (sort_candidates left) (sum64 left),
  append-nil selected,
)

module _ (samples : List MemorySample) (settings : MemoryBudgetSettings) where
  abbrev pub over : List MemorySample
  over = over_budget settings.max_session_bytes samples

  abbrev pub left : List MemorySample
  left = spared over samples

  abbrev pub extra : List MemorySample
  extra = surplus settings.max_total_bytes left

  pub select_evictions_lem : select_evictions samples settings ≡ dedupe [] (over ++ extra)
  unfolding select_evictions
  select_evictions_lem =
      rw (over_session_limit_lem settings.max_session_bytes samples)
        (rw (over_total_limit_lem settings.max_total_bytes left over) refl)

  has_key-select :
      (k : SessionKey)
      → has_key (select_evictions samples settings) k ≡ (has_key over k || has_key extra k)
  unfolding contains
  has_key-select k =
      rw select_evictions_lem (dedupe-has_key [] (over ++ extra) k ∙ has_key-append over extra k)

  pub spared-select : spared (select_evictions samples settings) samples ≡ spared extra left
  spared-select = spared-both _ over extra has_key-select samples

-- `prefix` splits its list, and what it leaves is within the budget.
abbrev pub Split : ℕ → List MemorySample → ℕ → Type 0
Split max ss bytes =
    (rest : List MemorySample) × (ss ≡ prefix max ss bytes ++ rest) × (total rest ≤ max)

pub prefix-Split :
    (max : ℕ) (ss : List MemorySample) (bytes : ℕ) → bytes ≡ total ss → Split max ss bytes
unfolding prefix total
prefix-Split max [] bytes e = ([], refl, omega arith)
prefix-Split max (s ∷ ss) bytes e = elim (Bool-cases (leb bytes max)) [
  | inl fits ↦ rw fits (s ∷ ss, refl, ground arith)
  | inr more ↦
      let (rest, split, small) = prefix-Split max ss (bytes - s.rss_bytes) (omega arith) in
      rw more (rest, ap (◌∷◌ s) split, small)
]

has_key_self : (ss : List MemorySample) → All (λ s. has_key ss s.key ≡ true) ss
unfolding any
has_key_self [] = tt
has_key_self (s ∷ ss) =
    (ground (arith, beq_refl s.key), All-map _ _ (λ t h. ground arith) ss (has_key_self ss))

-- None of the chosen is spared.
pub spared_self : (ss : List MemorySample) → spared ss ss ≡ []
spared_self ss = filter_none _ ss (All-map _ _ (λ s h. ground (arith, h)) ss (has_key_self ss))

pub total-filter-le :
    (p : MemorySample → Bool) (ss : List MemorySample) → total (filter p ss) ≤ total ss
unfolding total filter
total-filter-le p [] = omega arith
total-filter-le p (s ∷ ss) = ground (arith, total-filter-le p ss)

spared-surplus_fits :
    (max : ℕ) (left : List MemorySample)
    → total left < 2 ^ 64
    → total (spared (surplus (some max) left) left) ≤ max
spared-surplus_fits max left small =
    let sorted = sort_candidates left in
    let chosen = prefix max sorted (sum64 left) in
    let (rest, split, fits) =
      prefix-Split max sorted (sum64 left) (omega (arith, total-sort left)) in
    omega (
      arith,
      total-filter-sort (λ s. not (has_key chosen s.key)) left,
      ap (λ ss. total (spared chosen ss)) split,
      ap total (filter-append (λ s. not (has_key chosen s.key)) chosen rest),
      ap (λ ss. total (ss ++ spared chosen rest)) (spared_self chosen),
      total-filter-le (λ s. not (has_key chosen s.key)) rest,
    )

-- With a budget for all sessions, the sizes of the sessions that are not chosen add up to no more
-- than it, if the sizes add up within 64 bits.
pub spared_fit_total :
    (samples : List MemorySample) (settings : MemoryBudgetSettings) (max : ℕ)
    → settings.max_total_bytes ≡ some max
    → total samples < 2 ^ 64
    → total (spared (select_evictions samples settings) samples) ≤ max
spared_fit_total samples settings max e small =
    rw (spared-select samples settings, e)
      (spared-surplus_fits max (left samples settings)
        (omega (arith, total-filter-le (λ s. not (has_key (over samples settings) s.key)) samples)))
