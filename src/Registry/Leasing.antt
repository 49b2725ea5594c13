-- ===== src/Registry/Leasing.antt =====
-- What `acquire_or_spawn` answers when it runs alone, and what `release_by_lease_id` undoes.
use lspee.Base.{ℕ, ◌≡◌, Bool, true, not, none, some, arith, ok, err}
use lspee.Base.Eq.{text_eq, nat_eq}
use lspee.Base.Text.{Text}
use lspee.Base.Map.{get, insert, get-insert, get-modify, get-remove}
use lspee.Registry.State.{
  SessionKey, SessionHandle, SessionRecord, SessionRegistry, key_eq, key_beq_iff, held, new_record,
  lease_id,
}
use lspee.Registry.Acquire.{
  Request, World, returned, waiting, gate_at, closed_gate, acquire_or_spawn,
}

-- The key has no gate yet, or one behind which nobody is spawning.
abbrev pub gate_open : SessionKey → SessionRegistry → Bool
gate_open key r = elim (get key r.spawn_gates) [ none ↦ true | some g ↦ not (gate_at g r).started ]

module _ (q : Request) (w : World) (r : SessionRegistry) where
  -- A call for a session that is there leases it again under the next id and holds its record,
  -- whatever a spawn would have answered.
  pub acquire_reuses :
      (x : SessionRecord)
      → get q.key r.sessions ≡ some x
      → let (r', p) = acquire_or_spawn q w r in
        (p ≡ returned (ok (record { id = lease_id r.lease_seq; key = q.key })))
        × (get q.key r'.sessions ≡ some (held w.now x))
        × (r'.leases
            ≡ insert
                (lease_id r.lease_seq)
                (record { key = q.key; client_kind = q.client_kind })
                r.leases)
  unfolding acquire_or_spawn
  acquire_reuses x e =
      ground (arith, key_beq_iff q.key q.key, get-modify q.key q.key (held w.now) r.sessions)

  -- A call for a session that is not there, with its gate open and a spawn that succeeds, installs
  -- the handle held once and leases it under the next id.
  pub acquire_spawns :
      (h : SessionHandle)
      → get q.key r.sessions ≡ none
      → gate_open q.key r ≡ true
      → w.outcome ≡ ok h
      → let (r', p) = acquire_or_spawn q w r in
        (p ≡ returned (ok (record { id = lease_id r.lease_seq; key = q.key })))
        × (get q.key r'.sessions ≡ some (held w.now (new_record w.now h)))
        × (r'.leases
            ≡ insert
                (lease_id r.lease_seq)
                (record { key = q.key; client_kind = q.client_kind })
                r.leases)
  unfolding acquire_or_spawn
  acquire_spawns h e o s = ground (
    arith,
    key_beq_iff q.key q.key,
    get-insert r.gate_seq r.gate_seq closed_gate r.gate_cells,
    get-insert q.key q.key (new_record w.now h) r.sessions,
    get-modify q.key q.key (held w.now) (insert q.key (new_record w.now h) r.sessions),
  )

  -- A call for a session that is not there, with its gate open and a spawn that fails, returns the
  -- error, leaves the sessions, the leases and the ids as they were, and drops the gate.
  pub acquire_fails :
      (m : Text)
      → get q.key r.sessions ≡ none
      → gate_open q.key r ≡ true
      → w.outcome ≡ err m
      → let (r', p) = acquire_or_spawn q w r in
        (p ≡ returned (err m))
        × (r'.sessions ≡ r.sessions)
        × (r'.leases ≡ r.leases)
        × (r'.lease_seq ≡ r.lease_seq)
        × (get q.key r'.spawn_gates ≡ none)
  unfolding acquire_or_spawn
  acquire_fails m e o s = ground (
    arith,
    key_beq_iff q.key q.key,
    get-insert r.gate_seq r.gate_seq closed_gate r.gate_cells,
    get-remove q.key q.key (insert q.key r.gate_seq r.spawn_gates),
    get-remove q.key q.key r.spawn_gates,
  )

  -- A call for a session that is not there, and has a gate, waits at the gate of its key if another
  -- call is spawning behind it.
  pub acquire_waits :
      (g : ℕ)
      → get q.key r.sessions ≡ none
      → get q.key r.spawn_gates ≡ some g
      → (gate_at g r).started ≡ true
      → (acquire_or_spawn q w r).1 ≡ waiting g (gate_at g r).notified
  unfolding acquire_or_spawn
  acquire_waits g e s t = ground arith
