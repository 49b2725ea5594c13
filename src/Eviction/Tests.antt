-- ===== src/Eviction/Tests.antt =====
-- The theorems on the eviction loop at concrete states.
use lspee.Base.{ℕ, ◌-◌, ◌≤◌, ◌≡◌, refl, Bool, false, Option, none, some, [], ◌∷◌, arith}
use lspee.Base.Map.{get}
use lspee.Registry.State.{SessionRegistry, key_eq}
use lspee.Registry.Sample.{key_a, leased, leased-WellFormed, get-leased}
use lspee.Eviction.Defs.{Loop, eviction_tick, idle_clock}
use lspee.Eviction.Rounds.{eviction_spares_leased}
use lspee.Eviction.Clock.{Look, clock_after, EmptySince, stop_after_idle}

abbrev stops : ℕ → Bool
stops p = false

abbrev loop_over : SessionRegistry → Option ℕ → Loop
loop_over r since = record { registry = r; daemon_idle_since = since }

eviction_spares_leased_example :
    get key_a (eviction_tick stops (some 5) 99 99 (loop_over leased none)).state.registry.sessions
    ≡ get key_a leased.sessions
eviction_spares_leased_example =
    eviction_spares_leased stops (some 5) 99 99 (loop_over leased none) key_a leased-WellFormed
      (ground (arith, leased-WellFormed.counted key_a, get-leased))

abbrev look : ℕ → Look
look at = record { at = at; sessions = 0 }

stop_after_idle_example : (t : ℕ) × (5 ≤ 20 - t) × EmptySince t (look 20 ∷ look 12 ∷ look 10 ∷ [])
unfolding clock_after idle_clock
stop_after_idle_example = stop_after_idle 5 1 (look 20) (look 12 ∷ look 10 ∷ []) (omega arith) refl
