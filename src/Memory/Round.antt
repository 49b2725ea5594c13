-- ===== src/Memory/Round.antt =====
-- One round of the monitor: which sessions it leaves, and how much memory they take.
use lspee.Base.{
  ◌-◌, ℕ, ◌+◌, ◌≤◌, ◌<◌, ◌^◌, ◌≡◌, refl, Bool, true, false, ◌&&◌, not, Option, none, some, List, [],
  ◌∷◌, arith, if◌then◌else◌, filter, any, All, Result, Bool-cases, inl, inr, map, ap, sym, ◌∙◌,
}
use lspee.Base.Eq.{◌==◌}
use lspee.Base.Text.{Text}
use lspee.Base.Map.{Map, get, modify, values, get-remove, get-modify, map_if, entries-All, Unique}
use lspee.Base.Map
use lspee.Registry.State.{
  SessionKey, SessionRecord, SessionRegistry, LeaseRecord, key_eq, key_beq_iff,
}
use lspee.Registry.Ops.{marked, increment_memory_eviction}
use lspee.Registry.Snapshots.{lease_client_kinds}
use lspee.Registry.Invariant.{WellFormed, gates-WellFormed}
use lspee.Registry.Invariant.Ops.{mark_terminating-WellFormed, remove-WellFormed}
use lspee.Memory.Defs.{
  MemoryBudgetSettings, MemorySample, enabled, memory_sample_from_snapshot, rss_or_zero,
  collect_samples, total, select_evictions,
}
use lspee.Memory.Evict.{eviction_notice, evict_session, evict_all, monitor_tick}
use lspee.Memory.Choice.{has_key, spared, spared_fit_total}

module _ (fails : ℕ → Bool) (settings : MemoryBudgetSettings) where
  evict_session-WellFormed :
      (s : MemorySample) (r : SessionRegistry)
      → WellFormed r
      → WellFormed (evict_session fails settings s r).0
  unfolding evict_session increment_memory_eviction
  evict_session-WellFormed s r v =
      gates-WellFormed _ _ _ _ _
        (remove-WellFormed s.key _ (mark_terminating-WellFormed s.key _ r v))

  evict_all-WellFormed :
      (ss : List MemorySample) (r : SessionRegistry)
      → WellFormed r
      → WellFormed (evict_all fails settings ss r).0
  unfolding evict_all
  evict_all-WellFormed [] r v = v
  evict_all-WellFormed (s ∷ ss) r v = evict_all-WellFormed ss _ (evict_session-WellFormed s r v)

  get-evict_session :
      (s : MemorySample) (r : SessionRegistry) (k : SessionKey)
      → get k (evict_session fails settings s r).0.sessions
        ≡ (if s.key == k then none else get k r.sessions)
  unfolding evict_session
  get-evict_session s r k =
      let notice = marked (some (eviction_notice s settings)) in
      ground (
        arith,
        get-remove s.key k (modify s.key notice r.sessions),
        get-modify s.key k notice r.sessions,
      )

  get-evict_all :
      (ss : List MemorySample) (r : SessionRegistry) (k : SessionKey)
      → get k (evict_all fails settings ss r).0.sessions
        ≡ (if has_key ss k then none else get k r.sessions)
  unfolding evict_all any
  get-evict_all [] r k = refl
  get-evict_all (s ∷ ss) r k =
      ground
        (arith, get-evict_all ss (evict_session fails settings s r).0 k, get-evict_session s r k)

filter-true : (ss : List MemorySample) → filter (λ s. true) ss ≡ ss
unfolding filter
filter-true [] = refl
filter-true (s ∷ ss) = rw (filter-true ss)

-- The memory of the sessions whose key passes a test.
weight : (ℕ → Result (Option ℕ) Text) → (SessionKey → Bool) → Map SessionKey SessionRecord → ℕ
weight rss q [] = 0
weight rss q ((k, x) ∷ m) =
    (if q x.handle.key then rss_or_zero (rss x.handle.runtime) else 0) + weight rss q m

module _ (rss : ℕ → Result (Option ℕ) Text) where
  weight-samples :
      (q : SessionKey → Bool) (now : ℕ) (leases : Map Text LeaseRecord)
      (m : Map SessionKey SessionRecord)
      → total (
          filter
            (λ s. q s.key)
            (map
              (λ s. memory_sample_from_snapshot s (rss_or_zero (rss s.handle.runtime)))
              (map
                (λ x. record {
                  handle = x.handle;
                  ref_count = x.ref_count;
                  idle_for = now - x.last_used;
                  client_kinds = lease_client_kinds x.handle.key leases;
                })
                (values m))))
        ≡ weight rss q m
  unfolding weight total filter memory_sample_from_snapshot
  weight-samples q now leases [] = refl
  weight-samples q now leases ((k, x) ∷ m) = ground (arith, weight-samples q now leases m)

  weight-remove :
      (q : SessionKey → Bool) (f : SessionRecord → SessionRecord) (key : SessionKey)
      (m : Map SessionKey SessionRecord)
      → ((x : SessionRecord) → (f x).handle ≡ x.handle)
      → All (λ e. e.1.handle.key ≡ e.0) m
      → weight rss q (Map.remove key (modify key f m)) ≡ weight rss (λ j. q j && not (key == j)) m
  unfolding weight Map.remove modify
  weight-remove q f key [] h a = refl
  weight-remove q f key ((k, x) ∷ m) h a =
      ground (arith, weight-remove q f key m h a.1, h x, key_beq_iff k key, key_beq_iff key k)

  weight-ext :
      (q q' : SessionKey → Bool) (m : Map SessionKey SessionRecord)
      → ((k : SessionKey) → q k ≡ q' k)
      → weight rss q m ≡ weight rss q' m
  unfolding weight
  weight-ext q q' [] h = refl
  weight-ext q q' ((k, x) ∷ m) h = ground (arith, h x.handle.key, weight-ext q q' m h)

  weight-evict_session :
      (fails : ℕ → Bool) (settings : MemoryBudgetSettings) (q : SessionKey → Bool)
      (s : MemorySample) (r : SessionRegistry)
      → WellFormed r
      → weight rss q (evict_session fails settings s r).0.sessions
        ≡ weight rss (λ j. q j && not (s.key == j)) r.sessions
  unfolding evict_session
  weight-evict_session fails settings q s r v =
      weight-remove q _ s.key r.sessions (λ x. refl)
        (entries-All (λ k x. x.handle.key ≡ k) r.sessions v.sessions_unique v.keyed)

  weight-evict_all :
      (fails : ℕ → Bool) (settings : MemoryBudgetSettings) (q : SessionKey → Bool)
      (ss : List MemorySample) (r : SessionRegistry)
      → WellFormed r
      → weight rss q (evict_all fails settings ss r).0.sessions
        ≡ weight rss (λ j. q j && not (has_key ss j)) r.sessions
  unfolding evict_all any
  weight-evict_all fails settings q [] r v =
      weight-ext q (λ j. q j && not false) r.sessions (λ k. ground arith)
  weight-evict_all fails settings q (s ∷ ss) r v =
      weight-evict_all fails settings q ss _ (evict_session-WellFormed fails settings s r v)
      ∙ weight-evict_session fails settings (λ j. q j && not (has_key ss j)) s r v
      ∙ weight-ext _ _ r.sessions (λ k. ground arith)

  total-collect :
      (now : ℕ) (r : SessionRegistry)
      → total (collect_samples rss now r) ≡ weight rss (λ _. true) r.sessions
  unfolding collect_samples
  total-collect now r =
      ap total (sym (filter-true _)) ∙ weight-samples (λ _. true) now r.leases r.sessions

  total-spared :
      (chosen : List MemorySample) (now : ℕ) (r : SessionRegistry)
      → total (spared chosen (collect_samples rss now r))
        ≡ weight rss (λ j. not (has_key chosen j)) r.sessions
  unfolding collect_samples
  total-spared chosen now r = weight-samples (λ j. not (has_key chosen j)) now r.leases r.sessions

-- A round of the monitor keeps the registry well formed.
pub monitor_tick-WellFormed :
    (rss : ℕ → Result (Option ℕ) Text) (fails : ℕ → Bool) (now : ℕ)
    (settings : MemoryBudgetSettings) (r : SessionRegistry)
    → WellFormed r
    → WellFormed (monitor_tick rss fails now settings r).0
unfolding monitor_tick
monitor_tick-WellFormed rss fails now settings r v = elim (Bool-cases (enabled settings)) [
  | inl e ↦
      rw (e, monitor_tick)
        (evict_all-WellFormed fails settings (select_evictions (collect_samples rss now r) settings)
          r v)
  | inr e ↦ rw (e, monitor_tick) v
]

-- A round of an enabled monitor removes the sessions that select_evictions chooses and leaves each
-- other session's record as it was.
pub get-monitor_tick :
    (rss : ℕ → Result (Option ℕ) Text) (fails : ℕ → Bool) (now : ℕ)
    (settings : MemoryBudgetSettings) (r : SessionRegistry) (k : SessionKey)
    → enabled settings ≡ true
    → get k (monitor_tick rss fails now settings r).0.sessions ≡ (
        if has_key (select_evictions (collect_samples rss now r) settings) k
        then none
        else get k r.sessions)
unfolding monitor_tick
get-monitor_tick rss fails now settings r k e =
    rw (e, monitor_tick)
      (get-evict_all fails settings (select_evictions (collect_samples rss now r) settings) r k)

-- After a round of the memory monitor the sessions that stay fit the budget for all sessions, if
-- the processes are as large as they were and the sizes add up within 64 bits.
pub monitor_fits :
    (rss : ℕ → Result (Option ℕ) Text) (fails : ℕ → Bool) (now later : ℕ)
    (settings : MemoryBudgetSettings) (max : ℕ) (r : SessionRegistry)
    → WellFormed r
    → settings.max_total_bytes ≡ some max
    → total (collect_samples rss now r) < 2 ^ 64
    → total (collect_samples rss later (monitor_tick rss fails now settings r).0) ≤ max
unfolding monitor_tick enabled
monitor_fits rss fails now later settings max r v e small =
    let chosen = select_evictions (collect_samples rss now r) settings in
    let on : enabled settings ≡ true = ground arith in
    rw (on, monitor_tick)
      (omega (
        arith,
        total-collect rss later (evict_all fails settings chosen r).0,
        weight-evict_all rss fails settings (λ _. true) chosen r v,
        weight-ext rss (λ j. true && not (has_key chosen j)) (λ j. not (has_key chosen j))
            r.sessions (λ k. refl),
        total-spared rss chosen now r,
        spared_fit_total (collect_samples rss now r) settings max e small,
      ))
