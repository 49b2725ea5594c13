-- ===== src/Memory/Defs.antt =====
-- The definitions of memory.rs for the samples and the choice of the sessions to evict.
use Prim.Native.Nat.{compare, Ordering}
use lspee.Base.{
  ℕ, ◌+◌, ◌-◌, ◌%◌, ◌^◌, Bool, true, false, ◌||◌, not, Option, none, some, List, [], ◌∷◌, ◌++◌, map,
  if◌then◌else◌, ltb, leb, filter, Result, ok, err, is_some, unwrap_or,
}
use lspee.Base.Eq.{◌==◌, contains}
use lspee.Base.Text.{Text}
use lspee.Protocol.{ClientKind, editor, kind_eq}
use lspee.Registry.State.{SessionKey, SessionHandle, SessionRegistry, key_eq}
use lspee.Registry.Snapshots.{MemorySessionSnapshot, memory_snapshots}

pub record MemoryBudgetSettings : Type 0 where
  pub max_session_bytes : Option ℕ
  pub max_total_bytes : Option ℕ
  pub check_interval : ℕ

unfoldable pub enabled : MemoryBudgetSettings → Bool
enabled s = is_some s.max_session_bytes || is_some s.max_total_bytes

pub record MemorySample : Type 0 where
  pub key : SessionKey
  pub root : Text
  pub rss_bytes : ℕ
  pub ref_count : ℕ
  pub idle_for : ℕ
  pub client_kinds : List ClientKind
  pub handle : SessionHandle

unfoldable pub memory_sample_from_snapshot : MemorySessionSnapshot → ℕ → MemorySample
memory_sample_from_snapshot s rss = record {
  key = s.handle.key;
  root = s.handle.key.root;
  rss_bytes = rss;
  ref_count = s.ref_count;
  idle_for = s.idle_for;
  client_kinds = s.client_kinds;
  handle = s.handle;
}

-- `rss_bytes().await.unwrap_or(None).unwrap_or(0)`
abbrev pub rss_or_zero : Result (Option ℕ) Text → ℕ
rss_or_zero (ok n) = unwrap_or n 0
rss_or_zero (err e) = 0

-- `rss p` is the answer of `LspRuntime::rss_bytes` for the process `p`.
unfoldable pub collect_samples :
    (ℕ → Result (Option ℕ) Text) → ℕ → SessionRegistry → List MemorySample
unfolding memory_sample_from_snapshot memory_snapshots
collect_samples rss now r =
    map (λ s. memory_sample_from_snapshot s (rss_or_zero (rss s.handle.runtime)))
      (memory_snapshots now r)

-- The sum of the sizes, before it wraps around.
unfoldable pub total : List MemorySample → ℕ
total [] = 0
total (s ∷ ss) = s.rss_bytes + total ss

-- `.sum()` of `u64`, wrapping around as in a release build.
abbrev pub sum64 : List MemorySample → ℕ
sum64 ss = total ss % 2 ^ 64

unfoldable pub total_memory_bytes : (ℕ → Result (Option ℕ) Text) → ℕ → SessionRegistry → ℕ
unfolding collect_samples
total_memory_bytes rss now r = sum64 (collect_samples rss now r)

abbrev pub left_editor : MemorySample → Bool
left_editor s = contains s.client_kinds editor

abbrev pub cmp_bool : Bool → Bool → Ordering
cmp_bool false false = Ordering.eq
cmp_bool false true = Ordering.lt
cmp_bool true false = Ordering.gt
cmp_bool true true = Ordering.eq

-- `Ordering::then`
abbrev pub then_cmp : Ordering → Ordering → Ordering
then_cmp Ordering.lt o = Ordering.lt
then_cmp Ordering.eq o = o
then_cmp Ordering.gt o = Ordering.gt

-- The comparison of `sort_candidates`.
unfoldable pub sample_cmp : MemorySample → MemorySample → Ordering
sample_cmp l r =
    then_cmp
      (then_cmp
        (then_cmp (cmp_bool (left_editor l) (left_editor r))
          (cmp_bool (ltb 0 l.ref_count) (ltb 0 r.ref_count)))
        (compare r.idle_for l.idle_for))
      (compare r.rss_bytes l.rss_bytes)

unfoldable pub sample_le : MemorySample → MemorySample → Bool
unfolding sample_cmp
sample_le l r = elim (sample_cmp l r) [ Ordering.gt ↦ false | _ ↦ true ]

-- A stable sort: an element goes in front of the first that is not before it.
unfoldable pub place : MemorySample → List MemorySample → List MemorySample
place s [] = s ∷ []
place s (t ∷ ts) = let rest = place s ts in if sample_le s t then s ∷ t ∷ ts else t ∷ rest

unfoldable pub sort_candidates : List MemorySample → List MemorySample
unfolding place
sort_candidates [] = []
sort_candidates (s ∷ ss) = place s (sort_candidates ss)

abbrev pub without : SessionKey → List MemorySample → List MemorySample
without key = filter (λ c. not (c.key == key))

-- `for sample in over_limit { remaining.retain(…); selected.push(sample); }`
unfoldable pub take_over_limit :
    List MemorySample
    → List MemorySample
    → List MemorySample
    → List MemorySample × List MemorySample
take_over_limit [] remaining selected = (remaining, selected)
take_over_limit (s ∷ over) remaining selected =
    take_over_limit over (without s.key remaining) (selected ++ s ∷ [])

-- The loop of the total budget, over a clone of the sorted `remaining`.
unfoldable pub take_until :
    ℕ → List MemorySample → ℕ → List MemorySample → List MemorySample → List MemorySample
take_until max [] bytes selected remaining = selected
take_until max (s ∷ ss) bytes selected remaining =
    let rest =
      take_until max ss (bytes - s.rss_bytes) (selected ++ s ∷ []) (without s.key remaining) in
    if leb bytes max then selected else rest

unfoldable pub over_session_limit :
    Option ℕ → List MemorySample → List MemorySample × List MemorySample
unfolding take_over_limit sort_candidates
over_session_limit none samples = (samples, [])
over_session_limit (some max) samples =
    take_over_limit (sort_candidates (filter (λ s. ltb max s.rss_bytes) samples)) samples []

unfoldable pub over_total_limit :
    Option ℕ → List MemorySample × List MemorySample → List MemorySample
unfolding take_until sort_candidates
over_total_limit none (remaining, selected) = selected
over_total_limit (some max) (remaining, selected) =
    if ltb max (sum64 remaining)
    then take_until max (sort_candidates remaining) (sum64 remaining) selected
        (sort_candidates remaining)
    else selected

-- `dedupe_by_key`: `seen` is the `HashSet` of the keys before.
unfoldable pub dedupe : List SessionKey → List MemorySample → List MemorySample
dedupe seen [] = []
dedupe seen (s ∷ ss) =
    let again = dedupe seen ss in
    let first = s ∷ dedupe (s.key ∷ seen) ss in if contains seen s.key then again else first

unfoldable pub select_evictions : List MemorySample → MemoryBudgetSettings → List MemorySample
unfolding over_session_limit over_total_limit dedupe
select_evictions samples settings = dedupe [] (
    over_total_limit settings.max_total_bytes
      (over_session_limit settings.max_session_bytes samples))
