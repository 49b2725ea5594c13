-- ===== src/Daemon/Attach.antt =====
-- A client that is told that it is attached has a live lease.
use lspee.Base.{
  ℕ, zero, suc, ◌≡◌, Option, none, some, arith, ok, err, Option-cases, Result-cases, inl, inr,
}
use lspee.Base.Eq.{text_eq, beq_refl}
use lspee.Base.Text.{Text}
use lspee.Base.Map.{get, get-insert, modify}
use lspee.Protocol.{StreamMode, dedicated, mux_control, Attach, AttachOk, attach_ok}
use lspee.Registry.State.{held, SessionHandle, SessionRegistry, Lease, key_eq, lease_id}
use lspee.Registry.Ops.{session_handle, handle_for_lease_id}
use lspee.Registry.Acquire.{
  Request, World, Phase, entering, checking, gating, waiting, spawning, reopening, settling,
  returned, grant, count_reused, count_spawned, with_record, reuse, install, advance, advance_many,
  acquire_or_spawn,
}
use lspee.Daemon.Keys.{validate_session_key, preferred_stream_mode}
use lspee.Daemon.Defs.{Outside, DispatchOutcome, key_of, attach_stream, finish_attach, attach_with}

-- The lease that a call has returned is in the registry.
abbrev IsLeased : Request → SessionRegistry → Phase → Type 0
IsLeased q r (returned (ok lease)) =
    get lease.id r.leases ≡ some (record { key = q.key; client_kind = q.client_kind })
IsLeased q r _ = Unit

grant-IsLeased : (q : Request) (r : SessionRegistry) → IsLeased q (grant q r).0 (grant q r).1
unfolding grant
grant-IsLeased q r =
    let id = lease_id r.lease_seq in
    ground (
      arith,
      beq_refl id,
      get-insert id id (record { key = q.key; client_kind = q.client_kind }) r.leases,
    )

reuse-IsLeased :
    (q : Request) (now : ℕ) (r : SessionRegistry) → IsLeased q (reuse q now r).0 (reuse q now r).1
unfolding reuse
reuse-IsLeased q now r =
    grant-IsLeased q (count_reused (record r { sessions = modify q.key (held now) r.sessions }))

install-IsLeased :
    (q : Request) (now : ℕ) (h : SessionHandle) (r : SessionRegistry)
    → IsLeased q (install q now h r).0 (install q now h r).1
unfolding install
install-IsLeased q now h r = grant-IsLeased q (
    count_spawned
      (record r { sessions = modify q.key (held now) (with_record q.key now h r.sessions) }))

advance-IsLeased :
    (q : Request) (w : World) (r : SessionRegistry) (p : Phase)
    → IsLeased q r p
    → IsLeased q (advance q w r p).0 (advance q w r p).1
unfolding advance
advance-IsLeased q w r entering h = tt
advance-IsLeased q w r (checking g) h = elim (Option-cases (get q.key r.sessions)) [
  | inl e ↦ rw (e, advance) tt
  | inr (x, e) ↦ rw (e, advance) (reuse-IsLeased q w.now r)
]
advance-IsLeased q w r (gating g) h = ground arith
advance-IsLeased q w r (waiting g n) h = ground arith
advance-IsLeased q w r (spawning g) h = tt
advance-IsLeased q w r (reopening g a) h = tt
advance-IsLeased q w r (settling (ok x)) h = install-IsLeased q w.now x r
advance-IsLeased q w r (settling (err e)) h = tt
advance-IsLeased q w r (returned a) h = h

advance_many-IsLeased :
    (n : ℕ) (q : Request) (w : World) (r : SessionRegistry) (p : Phase)
    → IsLeased q r p
    → IsLeased q (advance_many n q w (r, p)).0 (advance_many n q w (r, p)).1
unfolding advance_many
advance_many-IsLeased zero q w r p h = h
advance_many-IsLeased (suc n) q w r p h =
    advance_many-IsLeased n q w (advance q w r p).0 (advance q w r p).1 (advance-IsLeased q w r p h)

-- What an answer that says `AttachOk` promises in the registry that goes with it.
abbrev pub IsLive : SessionRegistry → Option DispatchOutcome → Type 0
IsLive r none = Unit
IsLive r (some x) =
    (a : AttachOk)
    → x.response.payload ≡ attach_ok a
    → (h : SessionHandle) × (handle_for_lease_id r a.lease_id ≡ some h)
      × (a.initialize_result ≡ some h.initialize_result)

module _ (o : Outside) (id : Option Text) (q : Request) (mode : StreamMode) where
  attach_stream-IsLive :
      (m : StreamMode) (lease : Lease) (h : SessionHandle) (r : SessionRegistry)
      → handle_for_lease_id r lease.id ≡ some h
      → let (r', x) = attach_stream o id q.key m lease h r in IsLive r' (some x)
  unfolding attach_stream
  attach_stream-IsLive mux_control lease h r e =
      λ a p. (h, rw (let same : a.lease_id ≡ lease.id = ground arith in same) e, ground arith)
  attach_stream-IsLive dedicated lease h r e =
      elim (Result-cases (o.open_stream q.key.root lease.id h)) [
        | inl (path, f) ↦
            rw (f, attach_stream)
              (λ a p.
                (h, rw (let same : a.lease_id ≡ lease.id = ground arith in same) e, ground arith))
        | inr (m, f) ↦ rw (f, attach_stream) (λ a p. absurd (cc))
      ]

  finish_attach-IsLive :
      (r : SessionRegistry) (p : Phase)
      → IsLeased q r p
      → let (r', x) = finish_attach o id q.key mode (r, p) in IsLive r' x
  unfolding finish_attach handle_for_lease_id
  finish_attach-IsLive r (returned (ok lease)) l = elim (Option-cases (session_handle r q.key)) [
    | inl e ↦ rw (e, finish_attach) (λ a p. absurd (cc))
    | inr (h, e) ↦
        rw (e, finish_attach) (attach_stream-IsLive mode lease h r (rw (l, handle_for_lease_id) e))
  ]
  finish_attach-IsLive r (returned (err e)) l = λ a p. absurd (cc)
  finish_attach-IsLive r _ l = tt

-- If the daemon answers an attach request with AttachOk then the lease that it names has a handle
-- in the registry, and the answer carries that handle's result of the initialisation.
pub attach_with-IsLive :
    (o : Outside) (id : Option Text) (a : Attach) (r : SessionRegistry)
    → let (r', x) = attach_with o id a r in IsLive r' x
unfolding attach_with acquire_or_spawn
attach_with-IsLive o id a r = elim (Result-cases (validate_session_key a.session_key)) [
  | inl (u, e) ↦
      let key = key_of a.session_key in
      let q : Request = record { key = key; client_kind = a.client_meta.client_kind } in
      let w : World = record { now = o.now; outcome = o.spawn key } in
      rw (e, attach_with)
        (finish_attach-IsLive o id q (preferred_stream_mode a.capabilities)
          (acquire_or_spawn q w r).0 (acquire_or_spawn q w r).1
          (advance_many-IsLeased 6 q w r entering tt))
  | inr (m, e) ↦ rw (e, attach_with) (λ b p. absurd (cc))
]
