-- ===== src/Memory/Sort.antt =====
-- `sort_candidates` sorts, and neither adds nor drops a sample.
use lspee.Base.{
  ◌+◌, ◌≡◌, refl, Bool, true, false, List, [], ◌∷◌, arith, filter, any, All, All-map, Bool-cases,
  inl, inr,
}
use lspee.Protocol.{kind_eq}
use lspee.Memory.Defs.{MemorySample, left_editor, sample_le, place, sort_candidates, total}

pub sample_le-total : (a b : MemorySample) → sample_le a b ≡ false → sample_le b a ≡ true
unfolding sample_le
sample_le-total a b h = ground arith

pub sample_le_trans :
    (a b c : MemorySample) → sample_le a b ≡ true → sample_le b c ≡ true → sample_le a c ≡ true
unfolding sample_le
sample_le_trans a b c h k = ground arith

abbrev pub Below : MemorySample → List MemorySample → Type 0
Below s ss = All (λ t. sample_le s t ≡ true) ss

abbrev pub IsSorted : List MemorySample → Type 0
IsSorted [] = Unit
IsSorted (s ∷ ss) = Below s ss × IsSorted ss

module _ {κ} (P : MemorySample → Type κ) where
  pub place-All : (s : MemorySample) (ss : List MemorySample) → P s → All P ss → All P (place s ss)
  unfolding place
  place-All s [] p a = (p, tt)
  place-All s (t ∷ ts) p a = elim (Bool-cases (sample_le s t)) [
    | inl e ↦ rw e (p, a)
    | inr e ↦ rw e (a.0, place-All s ts p a.1)
  ]

  pub All-place : (s : MemorySample) (ss : List MemorySample) → All P (place s ss) → P s × All P ss
  unfolding place
  All-place s [] a = (a.0, tt)
  All-place s (t ∷ ts) a = elim (Bool-cases (sample_le s t)) [
    | inl e ↦ rw (e, place) at a
    | inr e ↦
        let a' = rw (e, place) at a in let (p, rest) = All-place s ts a'.1 in (p, (a'.0, rest))
  ]

  -- What holds of every sample holds of every sample of the sorted list, and the other way round.
  pub sort-All : (ss : List MemorySample) → All P ss → All P (sort_candidates ss)
  unfolding sort_candidates
  sort-All [] a = tt
  sort-All (s ∷ ss) a = place-All s (sort_candidates ss) a.0 (sort-All ss a.1)

  pub All-sort : (ss : List MemorySample) → All P (sort_candidates ss) → All P ss
  unfolding sort_candidates
  All-sort [] a = tt
  All-sort (s ∷ ss) a = let (p, rest) = All-place s (sort_candidates ss) a in (p, All-sort ss rest)

place-IsSorted : (s : MemorySample) (ss : List MemorySample) → IsSorted ss → IsSorted (place s ss)
unfolding place
place-IsSorted s [] h = (tt, tt)
place-IsSorted s (t ∷ ts) h = elim (Bool-cases (sample_le s t)) [
  | inl e ↦ rw e ((e, All-map _ _ (λ u p. sample_le_trans s t u e p) ts h.0), h)
  | inr e ↦ rw e (place-All _ s ts (sample_le-total s t e) h.0, place-IsSorted s ts h.1)
]

-- The result is sorted.
pub sort-IsSorted : (ss : List MemorySample) → IsSorted (sort_candidates ss)
unfolding sort_candidates
sort-IsSorted [] = tt
sort-IsSorted (s ∷ ss) = place-IsSorted s (sort_candidates ss) (sort-IsSorted ss)

module _ (p : MemorySample → Bool) where
  total-filter-place :
      (s : MemorySample) (ss : List MemorySample)
      → total (filter p (place s ss)) ≡ total (filter p (s ∷ ss))
  unfolding total filter place
  total-filter-place s [] = refl
  total-filter-place s (t ∷ ts) = ground (arith, total-filter-place s ts)

  -- Sorting keeps the total of the samples that pass a test.
  pub total-filter-sort :
      (ss : List MemorySample) → total (filter p (sort_candidates ss)) ≡ total (filter p ss)
  unfolding total filter sort_candidates
  total-filter-sort [] = refl
  total-filter-sort (s ∷ ss) =
      ground (arith, total-filter-place s (sort_candidates ss), total-filter-sort ss)

  any-place : (s : MemorySample) (ss : List MemorySample) → any p (place s ss) ≡ any p (s ∷ ss)
  unfolding any place
  any-place s [] = refl
  any-place s (t ∷ ts) = ground (arith, any-place s ts)

  pub any-sort : (ss : List MemorySample) → any p (sort_candidates ss) ≡ any p ss
  unfolding any sort_candidates
  any-sort [] = refl
  any-sort (s ∷ ss) = ground (arith, any-place s (sort_candidates ss), any-sort ss)

total-place :
    (s : MemorySample) (ss : List MemorySample) → total (place s ss) ≡ s.rss_bytes + total ss
unfolding total place
total-place s [] = refl
total-place s (t ∷ ts) = ground (arith, total-place s ts)

pub total-sort : (ss : List MemorySample) → total (sort_candidates ss) ≡ total ss
unfolding total sort_candidates
total-sort [] = refl
total-sort (s ∷ ss) = ground (arith, total-place s (sort_candidates ss), total-sort ss)

-- A session that an editor uses comes after every session that no editor uses.
pub editor-sample_le :
    (a b : MemorySample) → left_editor a ≡ true → sample_le a b ≡ true → left_editor b ≡ true
unfolding sample_le
editor-sample_le a b e h = ground arith
