-- ===== src/Eviction/Defs.antt =====
-- One round of the loop of eviction.rs. `now` is the time of the sweep, `later` that of the clock.
use lspee.Base.{
  ℕ, ◌-◌, Bool, false, Option, none, some, List, [], ◌∷◌, ◌++◌, if◌then◌else◌, nat_beq, leb,
  unwrap_or,
}
use lspee.Registry.State.{SessionHandle, SessionRegistry}
use lspee.Registry.Ops.{idle_candidates, remove, increment_idle_gc}
use lspee.Registry.Snapshots.{session_count}
use lspee.Stopping.{Effect, stop_runtime}

-- `for candidate in candidates { … }`
unfoldable pub evict_idle :
    (ℕ → Bool) → List SessionHandle → SessionRegistry → SessionRegistry × List Effect
unfolding stop_runtime increment_idle_gc
evict_idle fails [] r = (r, [])
evict_idle fails (h ∷ hs) r =
    let (r', more) = evict_idle fails hs (increment_idle_gc (remove h.key r)) in
    (r', stop_runtime fails h.runtime ++ more)

-- The clock after a look at the number of sessions, and whether the daemon stops.
unfoldable pub idle_clock : Option ℕ → ℕ → Option ℕ → ℕ → Option ℕ × Bool
idle_clock none now since sessions = (since, false)
idle_clock (some ttl) now since sessions =
    if nat_beq sessions 0
    then (some (unwrap_or since now), leb ttl (now - unwrap_or since now))
    else (none, false)

pub record Loop : Type 0 where
  pub registry : SessionRegistry
  pub daemon_idle_since : Option ℕ

pub record Round : Type 0 where
  pub state : Loop
  pub effects : List Effect
  pub stopped : Bool

unfoldable pub eviction_tick : (ℕ → Bool) → Option ℕ → ℕ → ℕ → Loop → Round
unfolding evict_idle idle_clock idle_candidates session_count
eviction_tick fails daemon_idle_ttl now later l =
    let (marked, candidates) = idle_candidates now l.registry in
    let (r, effects) = evict_idle fails candidates marked in
    let (since, stop) = idle_clock daemon_idle_ttl later l.daemon_idle_since (session_count r) in
    record {
      state = record { registry = r; daemon_idle_since = since };
      effects = effects;
      stopped = stop;
    }
