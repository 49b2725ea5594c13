-- ===== src/Registry/Races.antt =====
-- Orders of steps in which the locks of registry.rs do not give what is meant.
use lspee.Base.{ℕ, ◌+◌, ◌≡◌, refl, true, false, not, none, some, arith, ok}
use lspee.Base.Eq.{◌==◌, text_eq, nat_eq, beq_refl}
use lspee.Base.Map.{get, insert, get-insert, get-modify, get-retain, get-map_values, insert-Unique}
use lspee.Registry.State.{
  SessionHandle, SessionRecord, SessionRegistry, LeaseRecord, key_eq, held, new_record, lease_id,
}
use lspee.Registry.Ops.{
  session_handle, handle_for_lease_id, remove, is_idle, mark_idle, idle_candidates,
}
use lspee.Registry.Acquire.{
  Request, World, Phase, checking, spawning, settling, returned, gate_at, reopen, advance,
  advance_many, acquire_or_spawn,
}
use lspee.Registry.Leasing.{acquire_reuses}
use lspee.Registry.Invariant.{WellFormed}

reopen-started : (g : ℕ) (r : SessionRegistry) → (gate_at g (reopen g r)).started ≡ false
unfolding reopen
reopen-started g r = ground (
  arith,
  get-insert g g (record { notified = (gate_at g r).notified + 1; started = false }) r.gate_cells,
)

-- Two calls for one key, of which the second passes the gate after the first has reopened it and
-- before the first has installed its session.
module _ (q : Request) (wa wb : World) (r : SessionRegistry) (g : ℕ) where
  abbrev pub first_reopened : SessionRegistry × Phase
  first_reopened = advance_many 4 q wa (r, checking g)

  abbrev pub second_started : SessionRegistry × Phase
  second_started = advance_many 2 q wb (first_reopened.0, checking g)

  abbrev pub first_done : SessionRegistry × Phase
  first_done = advance q wa second_started.0 first_reopened.1

  abbrev pub second_done : SessionRegistry × Phase
  second_done = advance_many 3 q wb (first_done.0, second_started.1)

  -- The gates after the first call, and after the second has passed.
  abbrev passed : SessionRegistry → SessionRegistry
  passed s = record s {
    gate_cells = insert g (record (gate_at g s) { started = true }) s.gate_cells;
  }

  first_reopened_lem :
      (h : SessionHandle)
      → get q.key r.sessions ≡ none
      → (gate_at g r).started ≡ false
      → wa.outcome ≡ ok h
      → first_reopened ≡ (reopen g (passed r), settling (ok h))
  unfolding advance_many
  first_reopened_lem h e o s = ground arith

  second_started_lem :
      (s : SessionRegistry)
      → get q.key s.sessions ≡ none
      → (gate_at g s).started ≡ false
      → advance_many 2 q wb (s, checking g) ≡ (passed s, spawning g)
  unfolding advance_many
  second_started_lem s e o = ground arith

  first_done_lem :
      (h : SessionHandle) (s : SessionRegistry)
      → get q.key s.sessions ≡ none
      → let (t, p) = advance q wa s (settling (ok h)) in
        (session_handle t q.key ≡ some h)
        × (p ≡ returned (ok (record { id = lease_id s.lease_seq; key = q.key })))
  unfolding advance session_handle held new_record
  first_done_lem h s e = ground (
    arith,
    beq_refl q.key,
    get-insert q.key q.key (new_record wa.now h) s.sessions,
    get-modify q.key q.key (held wa.now) (insert q.key (new_record wa.now h) s.sessions),
  )

  second_done_lem :
      (h h' : SessionHandle) (s : SessionRegistry)
      → session_handle s q.key ≡ some h
      → wb.outcome ≡ ok h'
      → let (t, p) = advance_many 3 q wb (s, spawning g) in
        (session_handle t q.key ≡ some h)
        × (p ≡ returned (ok (record { id = lease_id s.lease_seq; key = q.key })))
  unfolding advance_many session_handle held
  second_done_lem h h' s e o =
      ground (arith, beq_refl q.key, get-modify q.key q.key (held wb.now) s.sessions)

  -- Of two calls for one key, the second of which passes the gate after the first has reopened it
  -- and before it has installed its session, with no session at first and spawns that succeed,
  -- both spawn, and both get leases, the session having the first handle.
  pub double_spawn :
      (ha hb : SessionHandle)
      → get q.key r.sessions ≡ none
      → (gate_at g r).started ≡ false
      → wa.outcome ≡ ok ha
      → wb.outcome ≡ ok hb
      → (first_reopened.1 ≡ settling (ok ha))
        × (second_started.1 ≡ spawning g)
        × (session_handle second_done.0 q.key ≡ some ha)
        × (first_done.1 ≡ returned (ok (record { id = lease_id r.lease_seq; key = q.key })))
        × (second_done.1
            ≡ returned (ok (record { id = lease_id first_done.0.lease_seq; key = q.key })))
  double_spawn ha hb e o sa sb =
      let r₁ = reopen g (passed r) in
      let f = first_reopened_lem ha e o sa in
      let t = second_started_lem r₁ (unfold reopen in e) (reopen-started g (passed r)) in
      let d = first_done_lem ha (passed r₁) (unfold reopen in e) in
      let s = (advance q wa (passed r₁) (settling (ok ha))).0 in
      let l = second_done_lem ha hb s d.0 sb in
      rw f (rw t (refl, refl, l.0, unfold reopen in d.1, l.1))

-- In a well-formed registry, a call that leases an idle session between the sweep that hands it
-- out and its removal gets a lease that has a handle before the removal and none after it.
pub swept_under_lease :
    (q : Request) (w : World) (r : SessionRegistry) (x : SessionRecord) (now : ℕ)
    → WellFormed r
    → get q.key r.sessions ≡ some x
    → is_idle now r.idle_ttl x ≡ true
    → let (r', p) = acquire_or_spawn q w (idle_candidates now r).0 in
      (p ≡ returned (ok (record { id = lease_id r.lease_seq; key = q.key })))
      × (handle_for_lease_id r' (lease_id r.lease_seq) ≡ some x.handle)
      × (handle_for_lease_id (remove q.key r') (lease_id r.lease_seq) ≡ none)
unfolding handle_for_lease_id session_handle remove idle_candidates mark_idle held
swept_under_lease q w r x now v e idle =
    let r₁ = (idle_candidates now r).0 in
    let swept : get q.key r₁.sessions ≡ some (mark_idle now r.idle_ttl x) =
      ground (arith, get-map_values (mark_idle now r.idle_ttl) q.key r.sessions) in
    let leased = acquire_reuses q w r₁ (mark_idle now r.idle_ttl x) swept in
    let r₂ = (acquire_or_spawn q w r₁).0 in
    let id = lease_id r.lease_seq in
    let lease : LeaseRecord = record { key = q.key; client_kind = q.client_kind } in
    let unique = insert-Unique id lease r.leases v.leases_unique in
    ground (
      arith,
      leased,
      beq_refl id,
      beq_refl q.key,
      get-insert id id lease r.leases,
      get-retain (λ _ l. not (l.key == q.key)) id (insert id lease r.leases) unique,
    )
