-- ===== src/Registry/Acquire.antt =====
-- `SessionRegistry::acquire_or_spawn` of registry.rs as a machine: each state of a call stands
-- between two of its lock regions or awaits, and `advance` makes the region that follows.
-- Other calls may run between any two of them.
use lspee.Base.{
  ℕ, zero, suc, ◌+◌, true, false, Option, none, some, if◌then◌else◌, ltb, Result, ok, err,
  unwrap_or,
}
use lspee.Base.Eq.{nat_eq, text_eq}
use lspee.Base.Text.{Text}
use lspee.Base.Map.{Map, get, insert, modify}
use lspee.Base.Map
use lspee.Protocol.{ClientKind}
use lspee.Registry.State.{
  SessionKey, SessionHandle, SessionRecord, SpawnGate, Lease, SessionRegistry, inc64, new_record,
  held, next_lease_id, key_eq,
}

-- The arguments of a call: the key, and the kind of the client.
pub record Request : Type 0 where
  pub key : SessionKey
  pub client_kind : Option ClientKind

-- What the world answers: the time, and the outcome of the `spawn` future.
pub record World : Type 0 where
  pub now : ℕ
  pub outcome : Result SessionHandle Text

pub data Phase : Type 0 where
  entering : Phase
  checking : ℕ → Phase
  gating : ℕ → Phase
  waiting : ℕ → ℕ → Phase
  spawning : ℕ → Phase
  reopening : ℕ → Result SessionHandle Text → Phase
  settling : Result SessionHandle Text → Phase
  returned : Result Lease Text → Phase

abbrev pub closed_gate : SpawnGate
closed_gate = record { notified = 0; started = false }

-- `gates.entry(key).or_insert_with(|| Arc::new(…))`, and the gate.
unfoldable pub gate_for : SessionKey → SessionRegistry → SessionRegistry × ℕ
gate_for key r = elim (get key r.spawn_gates) [
  | some g ↦ (r, g)
  | none ↦ (
    record r {
      spawn_gates = insert key r.gate_seq r.spawn_gates;
      gate_cells = insert r.gate_seq closed_gate r.gate_cells;
      gate_seq = r.gate_seq + 1;
    },
    r.gate_seq,
  )
]

abbrev pub gate_at : ℕ → SessionRegistry → SpawnGate
gate_at g r = unwrap_or (get g r.gate_cells) closed_gate

-- `counters.attach_requests_total += 1`
abbrev pub count_attach : SessionRegistry → SessionRegistry
count_attach r = record r {
  counters = record (r.counters) { attach_requests_total = inc64 r.counters.attach_requests_total };
}

abbrev pub count_reused : SessionRegistry → SessionRegistry
count_reused r = record r {
  counters = record (r.counters) { sessions_reused_total = inc64 r.counters.sessions_reused_total };
}

abbrev pub count_spawned : SessionRegistry → SessionRegistry
count_spawned r = record r {
  counters = record (r.counters) {
    sessions_spawned_total = inc64 r.counters.sessions_spawned_total;
  };
}

-- The end of both branches that lease: a new id, and its entry in `leases`.
unfoldable pub grant : Request → SessionRegistry → SessionRegistry × Phase
unfolding next_lease_id
grant q r =
    let (id, r') = next_lease_id r in
    (
      record r' {
        leases = insert id (record { key = q.key; client_kind = q.client_kind }) r'.leases;
      },
      returned (ok (record { id = id; key = q.key })),
    )

-- The session is there: hold its record and lease it.
unfoldable pub reuse : Request → ℕ → SessionRegistry → SessionRegistry × Phase
unfolding grant
reuse q now r = grant q (count_reused (record r { sessions = modify q.key (held now) r.sessions }))

-- `sessions.entry(key).or_insert_with(|| SessionRecord::new(handle))`
unfoldable pub with_record :
    SessionKey → ℕ → SessionHandle → Map SessionKey SessionRecord → Map SessionKey SessionRecord
unfolding new_record
with_record key now handle sessions = elim (get key sessions) [
  | none ↦ insert key (new_record now handle) sessions
  | some _ ↦ sessions
]

-- The spawn succeeded: install its handle, unless a session is there by now, and lease it.
unfoldable pub install : Request → ℕ → SessionHandle → SessionRegistry → SessionRegistry × Phase
unfolding with_record grant
install q now handle r = grant q (
    count_spawned
      (record r { sessions = modify q.key (held now) (with_record q.key now handle r.sessions) }))

-- Under the lock of the gate: wait for the call that has started, or start.
unfoldable pub pass_gate : ℕ → SessionRegistry → SessionRegistry × Phase
pass_gate g r = if (gate_at g r).started then (r, waiting g (gate_at g r).notified) else (
  record r { gate_cells = insert g (record (gate_at g r) { started = true }) r.gate_cells },
  spawning g,
)

-- `gate_guard.started = false; gate_guard.notify.notify_waiters()`
unfoldable pub reopen : ℕ → SessionRegistry → SessionRegistry
reopen g r = record r {
  gate_cells =
      insert g (record { notified = (gate_at g r).notified + 1; started = false }) r.gate_cells;
}

-- The region that follows each state. A call that waits goes on once it is notified.
unfoldable pub advance : Request → World → SessionRegistry → Phase → SessionRegistry × Phase
unfolding gate_for reuse install pass_gate reopen
advance q w r entering = let (r', g) = gate_for q.key (count_attach r) in (r', checking g)
advance q w r (checking g) = elim (get q.key r.sessions) [
  | some _ ↦ reuse q w.now r
  | none ↦ (r, gating g)
]
advance q w r (gating g) = pass_gate g r
advance q w r (waiting g n) = (r, if ltb n (gate_at g r).notified then checking g else waiting g n)
advance q w r (spawning g) = (r, reopening g w.outcome)
advance q w r (reopening g outcome) = (reopen g r, settling outcome)
advance q w r (settling (ok handle)) = install q w.now handle r
advance q w r (settling (err e)) =
    (record r { spawn_gates = Map.remove q.key r.spawn_gates }, returned (err e))
advance q w r (returned answer) = (r, returned answer)

-- A call that runs with no other call in between. Six regions are the most that it makes.
unfoldable pub advance_many :
    ℕ → Request → World → SessionRegistry × Phase → SessionRegistry × Phase
unfolding advance
advance_many zero q w s = s
advance_many (suc n) q w (r, p) = advance_many n q w (advance q w r p)

unfoldable pub acquire_or_spawn : Request → World → SessionRegistry → SessionRegistry × Phase
unfolding advance_many
acquire_or_spawn q w r = advance_many 6 q w (r, entering)
