-- ===== src/Memory/Order.antt =====
-- Who goes first: every chosen session comes before every session that stays, in the order of
-- `sort_candidates`; and the budget for one session.
use lspee.Base.{
  ℕ, ◌≤◌, ◌^◌, ◌<◌, ◌≡◌, Bool, true, not, Option, none, some, List, [], ◌∷◌, ◌++◌, arith, subst,
  filter, any, All, All-map, ltb, Bool-cases, inl, inr, filter-append, filter-All, All-filter_intro,
  All-filter_elim,
}
use lspee.Base.Eq.{◌==◌, contains, beq_refl}
use lspee.Registry.State.{SessionKey, key_eq}
use lspee.Memory.Defs.{
  MemorySample, MemoryBudgetSettings, sample_le, left_editor, sort_candidates, total, sum64, dedupe,
  select_evictions,
}
use lspee.Memory.Sort.{any-sort, total-sort, sort-IsSorted, IsSorted, All-sort, editor-sample_le}
use lspee.Memory.Choice.{
  has_key, spared, surplus, over, left, extra, select_evictions_lem, spared-select, prefix-Split,
  spared_self, total-filter-le,
}

has_key-filter :
    (p : MemorySample → Bool) (ss : List MemorySample)
    → All (λ s. p s ≡ true → has_key (filter p ss) s.key ≡ true) ss
unfolding any filter
has_key-filter p [] = tt
has_key-filter p (s ∷ ss) = (
  (λ h. ground (arith, beq_refl s.key)),
  All-map _ _ (λ t h b. ground (arith, h b)) ss (has_key-filter p ss),
)

-- With a budget for each session, no session that is not chosen is larger than it.
pub spared_fit_each :
    (samples : List MemorySample) (settings : MemoryBudgetSettings) (max : ℕ)
    → settings.max_session_bytes ≡ some max
    → All (λ s. s.rss_bytes ≤ max) (spared (select_evictions samples settings) samples)
spared_fit_each samples settings max e = rw (spared-select samples settings) (
    filter-All _ _ (left samples settings) (
      rw e (
        All-filter_intro _ _ samples (
          All-map _ _
            (λ s h b. ground (
              arith,
              h,
              any-sort (λ t. t.key == s.key) (filter (λ t. ltb max t.rss_bytes) samples),
            ))
            samples (has_key-filter (λ t. ltb max t.rss_bytes) samples)))))

dedupe-All {κ} :
    (P : MemorySample → Type κ) (seen : List SessionKey) (ss : List MemorySample)
    → All P ss
    → All P (dedupe seen ss)
unfolding dedupe
dedupe-All P seen [] a = tt
dedupe-All P seen (s ∷ ss) a = elim (Bool-cases (contains seen s.key)) [
  | inl e ↦ rw e (dedupe-All P seen ss a.1)
  | inr e ↦ rw e (a.0, dedupe-All P (s.key ∷ seen) ss a.1)
]

-- In a sorted list, what stands in a first part is before what stands in the rest.
All-append_right {κ} :
    (P : MemorySample → Type κ) (xs ys : List MemorySample) → All P (xs ++ ys) → All P ys
All-append_right P [] ys a = a
All-append_right P (x ∷ xs) ys a = All-append_right P xs ys a.1

IsSorted-append :
    (xs ys : List MemorySample)
    → IsSorted (xs ++ ys)
    → All (λ s. All (λ u. sample_le s u ≡ true) ys) xs
IsSorted-append [] ys h = tt
IsSorted-append (x ∷ xs) ys h = (All-append_right _ xs ys h.0, IsSorted-append xs ys h.1)

-- The spared of a sorted list are in what its first part leaves.
spared_sorted {κ} :
    (P : MemorySample → Type κ) (chosen rest ss : List MemorySample)
    → sort_candidates ss ≡ chosen ++ rest
    → All P rest
    → All P (spared chosen ss)
spared_sorted P chosen rest ss e a = All-filter_intro _ P ss (
    All-sort _ ss (
      All-filter_elim _ P (sort_candidates ss) (
        rw (e, filter-append (λ s. not (has_key chosen s.key)) chosen rest, spared_self chosen)
          (filter-All _ P rest a))))

surplus_before :
    (limit : Option ℕ) (ss : List MemorySample)
    → total ss < 2 ^ 64
    → All (λ s. All (λ u. sample_le s u ≡ true) (spared (surplus limit ss) ss)) (surplus limit ss)
surplus_before none ss small = tt
surplus_before (some max) ss small =
    let chosen = surplus (some max) ss in
    let (rest, split, fits) =
      prefix-Split max (sort_candidates ss) (sum64 ss) (omega (arith, total-sort ss)) in
    All-map _ _ (λ s a. spared_sorted (λ u. sample_le s u ≡ true) chosen rest ss split a) chosen
      (IsSorted-append chosen rest (subst IsSorted split (sort-IsSorted ss)))

-- With a budget for all sessions only, and sizes that add up within 64 bits, every session that is
-- chosen for eviction comes before every one that stays in the order of sort_candidates.
pub chosen_before_spared :
    (samples : List MemorySample) (settings : MemoryBudgetSettings)
    → settings.max_session_bytes ≡ none
    → total samples < 2 ^ 64
    → All
        (λ s. All (λ u. sample_le s u ≡ true) (spared (select_evictions samples settings) samples))
        (select_evictions samples settings)
chosen_before_spared samples settings e small =
    let rest = left samples settings in
    let before =
      surplus_before settings.max_total_bytes rest (
        omega
          (arith, total-filter-le (λ s. not (has_key (over samples settings) s.key)) samples)) in
    rw (spared-select samples settings) (
      rw (select_evictions_lem samples settings)
        (dedupe-All _ [] (over samples settings ++ extra samples settings) (rw e (rw e at before))))

-- With a budget for all sessions only, and sizes that add up within 64 bits, an editor's session
-- is chosen only if every session that stays is an editor's too.
pub editors_last :
    (samples : List MemorySample) (settings : MemoryBudgetSettings)
    → settings.max_session_bytes ≡ none
    → total samples < 2 ^ 64
    → All
        (λ s.
          left_editor s ≡ true
          → All (λ u. left_editor u ≡ true) (spared (select_evictions samples settings) samples))
        (select_evictions samples settings)
editors_last samples settings e small =
    All-map _ _ (λ s before h. All-map _ _ (λ u le. editor-sample_le s u h le) _ before) _
      (chosen_before_spared samples settings e small)
