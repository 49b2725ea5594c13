-- ===== src/Memory/Tests.antt =====
-- The theorems on the memory monitor at concrete samples and at a concrete registry.
use lspee.Base.{
  ℕ, ◌≤◌, ◌^◌, ◌≡◌, refl, Bool, true, false, Option, none, some, List, [], ◌∷◌, ok, Result, arith,
  All,
}
use lspee.Base.Text.{Text, codes}
use lspee.Base.Map.{get, insert, modify}
use lspee.Base.Eq.{list_beq, nat_eq, text_eq}
use lspee.Protocol.{ClientKind, editor, agent, kind_eq}
use lspee.Registry.State.{key_eq, key_beq, with_idle_ttl, new_record, held}
use lspee.Registry.Snapshots.{memory_snapshots}
use lspee.Registry.Acquire.{acquire_or_spawn}
use lspee.Registry.Invariant.{WellFormed}
use lspee.Registry.Sample.{handle_a, leased, leased-WellFormed}
use lspee.Memory.Defs.{
  MemoryBudgetSettings, MemorySample, collect_samples, memory_sample_from_snapshot, total,
  left_editor, sample_le, select_evictions,
}
use lspee.Memory.Evict.{monitor_tick}
use lspee.Memory.Choice.{spared, spared_fit_total}
use lspee.Memory.Order.{chosen_before_spared, editors_last}
use lspee.Memory.Round.{monitor_tick-WellFormed, monitor_fits}

abbrev sample : Text → ℕ → ℕ → List ClientKind → MemorySample
sample id rss idle kinds = record {
  key = record { root = codes "/a"; lsp_id = id; config_hash = codes "h" };
  root = codes "/a";
  rss_bytes = rss;
  ref_count = 1;
  idle_for = idle;
  client_kinds = kinds;
  handle = handle_a;
}

abbrev three : List MemorySample
three =
    sample (codes "a") 60 9 (editor ∷ [])
    ∷ sample (codes "b") 50 4 (agent ∷ [])
    ∷ sample (codes "c") 40 7 (agent ∷ [])
    ∷ []

abbrev budget : Option ℕ → Option ℕ → MemoryBudgetSettings
budget session all = record {
  max_session_bytes = session;
  max_total_bytes = all;
  check_interval = 10 ^ 9;
}

spared_fit_total_example :
    total (spared (select_evictions three (budget none (some 100))) three) ≤ 100
unfolding total
spared_fit_total_example = spared_fit_total three (budget none (some 100)) 100 refl (omega arith)

chosen_before_spared_example :
    All
      (λ s.
        All
          (λ u. sample_le s u ≡ true)
          (spared (select_evictions three (budget none (some 100))) three))
      (select_evictions three (budget none (some 100)))
unfolding total
chosen_before_spared_example =
    chosen_before_spared three (budget none (some 100)) refl (omega arith)

editors_last_example :
    All
      (λ s.
        left_editor s ≡ true
        → All
            (λ u. left_editor u ≡ true)
            (spared (select_evictions three (budget none (some 100))) three))
      (select_evictions three (budget none (some 100)))
unfolding total
editors_last_example = editors_last three (budget none (some 100)) refl (omega arith)

-- Each process has 500 bytes, and none of them fails to stop.
abbrev five_hundred : ℕ → Result (Option ℕ) Text
five_hundred p = ok (some 500)

abbrev stops : ℕ → Bool
stops p = false

monitor_tick-WellFormed_example :
    WellFormed (monitor_tick five_hundred stops 9 (budget none (some 100)) leased).0
monitor_tick-WellFormed_example =
    monitor_tick-WellFormed five_hundred stops 9 (budget none (some 100)) leased leased-WellFormed

leased-total : total (collect_samples five_hundred 9 leased) ≡ 500
unfolding total collect_samples memory_sample_from_snapshot memory_snapshots acquire_or_spawn
    with_idle_ttl get insert modify key_beq list_beq new_record held
leased-total = refl

monitor_fits_example :
    total (
      collect_samples five_hundred 9
        (monitor_tick five_hundred stops 9 (budget none (some 100)) leased).0)
    ≤ 100
monitor_fits_example =
    monitor_fits five_hundred stops 9 9 (budget none (some 100)) 100 leased leased-WellFormed refl
      (omega (arith, leased-total))
