-- ===== src/Registry/Ops.antt =====
-- The methods of `SessionRegistry` in registry.rs but `acquire_or_spawn`, each with the registry
-- after it; `now` is the `Instant::now()` that the method reads.
use lspee.Base.{
  ℕ, ◌-◌, Bool, true, ◌&&◌, not, Option, none, some, List, [], ◌∷◌, map, if◌then◌else◌, nat_beq,
  leb, filter, Result, ok, err,
}
use lspee.Base.Eq.{◌==◌, nat_eq, text_eq}
use lspee.Base.Text.{Text, codes}
use lspee.Base.Map.{Map, get, insert, modify, retain, values, map_values}
use lspee.Base.Map
use lspee.Json.{Json}
use lspee.Protocol.{StreamErrorPayload, kind_eq}
use lspee.Registry.State.{
  SessionKey, SessionHandle, SessionRecord, SessionRegistry, inc64, touched, key_eq,
}
use mathlib.Core.List.{◌++◌}

unfoldable pub session_handle : SessionRegistry → SessionKey → Option SessionHandle
session_handle r key = elim (get key r.sessions) [ none ↦ none | some x ↦ some x.handle ]

unfoldable pub handle_for_lease_id : SessionRegistry → Text → Option SessionHandle
unfolding session_handle
handle_for_lease_id r id = elim (get id r.leases) [
  | none ↦ none
  | some lease ↦ session_handle r lease.key
]

-- `if record.ref_count > 0 { record.ref_count -= 1; } record.touch()`
unfoldable pub dropped : ℕ → SessionRecord → SessionRecord
dropped now x = record x { ref_count = x.ref_count - 1; last_used = now }

-- The answer of `release_by_lease_id`: what is left of the count, or 0 with no session.
abbrev pub left_over : Option SessionRecord → ℕ
left_over none = 0
left_over (some x) = x.ref_count - 1

unfoldable pub release_by_lease_id : ℕ → Text → SessionRegistry → SessionRegistry × Option ℕ
unfolding dropped
release_by_lease_id now id r = elim (get id r.leases) [
  | none ↦ (r, none)
  | some lease ↦ (
    record r {
      leases = Map.remove id r.leases;
      sessions = modify lease.key (dropped now) r.sessions;
    },
    some (left_over (get lease.key r.sessions)),
  )
]

unfoldable pub release_many : ℕ → List Text → SessionRegistry → SessionRegistry
release_many now [] r = r
release_many now (id ∷ ids) r = release_many now ids (release_by_lease_id now id r).0

unfoldable pub touch : ℕ → SessionKey → SessionRegistry → SessionRegistry
touch now key r = record r { sessions = modify key (touched now) r.sessions }

-- `anyhow!("{}: {}", notice.code, notice.message)`, or the message with no notice.
unfoldable pub terminating_error : Option StreamErrorPayload → Text
terminating_error none = codes "session is terminating"
terminating_error (some notice) = notice.code ++ codes ": " ++ notice.message

-- The runtime that `call_by_lease_id` and `notify_by_lease_id` get under the lock of the sessions.
unfoldable pub runtime_of : SessionRecord → Result (Option ℕ) Text
unfolding terminating_error
runtime_of x =
    if x.terminating
    then err (terminating_error x.termination_notice)
    else ok (some x.handle.runtime)

unfoldable pub claim_runtime : ℕ → Text → SessionRegistry → SessionRegistry × Result (Option ℕ) Text
unfolding touch runtime_of
claim_runtime now id r = elim (get id r.leases) [
  | none ↦ (r, ok none)
  | some lease ↦ elim (get lease.key r.sessions) [
    | none ↦ (r, ok none)
    | some x ↦ (if x.terminating then r else touch now lease.key r, runtime_of x)
  ]
]

-- `self.touch(&key)` after the call, for the key that the lease had before it.
unfoldable pub touch_lease_of : ℕ → Text → SessionRegistry → SessionRegistry → SessionRegistry
unfolding touch
touch_lease_of later id before r = elim (get id before.leases) [
  | none ↦ r
  | some lease ↦ touch later lease.key r
]

-- The rest of the method, once the runtime is claimed: `call` is the runtime's answer.
unfoldable pub finish_call {ℓ} :
    {A : Type ℓ}
    → ℕ
    → Text
    → (ℕ → Result A Text)
    → SessionRegistry
    → SessionRegistry × Result (Option ℕ) Text
    → SessionRegistry × Result (Option A) Text
unfolding touch_lease_of
finish_call later id call before (r, err e) = (r, err e)
finish_call later id call before (r, ok none) = (r, ok none)
finish_call later id call before (r, ok (some runtime)) = elim (call runtime) [
  | err e ↦ (r, err e)
  | ok a ↦ (touch_lease_of later id before r, ok (some a))
]

-- `call runtime request` is the answer of `LspRuntime::call`.
unfoldable pub call_by_lease_id :
    ℕ
    → ℕ
    → (ℕ → Json → Result Json Text)
    → Text
    → Json
    → SessionRegistry
    → SessionRegistry × Result (Option Json) Text
unfolding claim_runtime finish_call
call_by_lease_id now later call id request r =
    finish_call later id (λ p. call p request) r (claim_runtime now id r)

-- `send runtime message` is the answer of `LspRuntime::send`.
unfoldable pub notify_by_lease_id :
    ℕ
    → ℕ
    → (ℕ → Json → Result (Unit {0}) Text)
    → Text
    → Json
    → SessionRegistry
    → SessionRegistry × Result (Option (Unit {0})) Text
unfolding claim_runtime finish_call
notify_by_lease_id now later send id message r =
    finish_call later id (λ p. send p message) r (claim_runtime now id r)

abbrev pub marked : Option StreamErrorPayload → SessionRecord → SessionRecord
marked notice x = record x { terminating = true; termination_notice = notice }

unfoldable pub mark_terminating_with_notice :
    SessionKey → Option StreamErrorPayload → SessionRegistry → SessionRegistry
mark_terminating_with_notice key notice r = record r {
  sessions = modify key (marked notice) r.sessions;
}

unfoldable pub remove : SessionKey → SessionRegistry → SessionRegistry
remove key r = record r {
  sessions = Map.remove key r.sessions;
  leases = retain (λ _ l. not (l.key == key)) r.leases;
  spawn_gates = Map.remove key r.spawn_gates;
}

-- `now.duration_since(last_used)` is 0 where `last_used` is later.
unfoldable pub is_idle : ℕ → ℕ → SessionRecord → Bool
is_idle now ttl x = not x.terminating && nat_beq x.ref_count 0 && leb ttl (now - x.last_used)

unfoldable pub mark_idle : ℕ → ℕ → SessionRecord → SessionRecord
unfolding is_idle
mark_idle now ttl x = if is_idle now ttl x then record x { terminating = true } else x

unfoldable pub idle_candidates : ℕ → SessionRegistry → SessionRegistry × List SessionHandle
unfolding is_idle mark_idle
idle_candidates now r = (
  record r { sessions = map_values (mark_idle now r.idle_ttl) r.sessions },
  map (λ x. x.handle) (filter (is_idle now r.idle_ttl) (values r.sessions)),
)

unfoldable pub all_handles : SessionRegistry → List SessionHandle
all_handles r = map (λ x. x.handle) (values r.sessions)

unfoldable pub increment_idle_gc : SessionRegistry → SessionRegistry
increment_idle_gc r = record r {
  counters = record (r.counters) {
    sessions_gc_idle_total = inc64 r.counters.sessions_gc_idle_total;
  };
}

unfoldable pub increment_memory_eviction : SessionRegistry → SessionRegistry
increment_memory_eviction r = record r {
  counters = record (r.counters) {
    sessions_evicted_memory_total = inc64 r.counters.sessions_evicted_memory_total;
  };
}

unfoldable pub increment_session_crash : SessionRegistry → SessionRegistry
increment_session_crash r = record r {
  counters = record (r.counters) { session_crashes_total = inc64 r.counters.session_crashes_total };
}
