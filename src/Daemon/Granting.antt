-- ===== src/Daemon/Granting.antt =====
-- What an attach request does to the leases, and what its answer says of it.
use lspee.Base.{
  ℕ, zero, suc, ◌≡◌, ◌∙◌, refl, true, is_some, Option, none, some, arith, if◌then◌else◌, Result, ok,
  err, Option-cases, Result-cases, inl, inr,
}
use lspee.Base.Eq.{◌==◌, text_eq}
use lspee.Base.Text.{Text}
use lspee.Base.Map.{get, insert, modify, get-insert, get-modify, get-remove}
use lspee.Json.{Json}
use lspee.Protocol.{mux_control, Attach, AttachOk, Release, attach_ok, type_attach_ok, type_error}
use lspee.Registry.State.{
  SessionHandle, SessionRegistry, LeaseRecord, key_eq, key_beq_iff, held, new_record, next_lease_id,
}
use lspee.Registry.Ops.{
  session_handle, claim_runtime, touch, touch_lease_of, finish_call, call_by_lease_id,
  notify_by_lease_id, release_by_lease_id,
}
use lspee.Registry.Acquire.{
  Request, World, Phase, entering, checking, gating, waiting, spawning, reopening, settling,
  returned, count_reused, count_spawned, gate_for, grant, with_record, reuse, install, pass_gate,
  reopen, advance, advance_many, acquire_or_spawn,
}
use lspee.Registry.Invariant.{WellFormed}
use lspee.Daemon.Keys.{validate_session_key, preferred_stream_mode}
use lspee.Daemon.Defs.{
  Outside, DispatchOutcome, key_of, attach_stream, finish_attach, attach_with, dispatch_attach,
  release_with, dispatch_release,
}
use lspee.Daemon.Requests.{dispatch_call, dispatch_notify}

-- Where a call is, against the registry in which it began: it has one new lease and its session is
-- there, or it has changed neither the leases nor the ids.
abbrev Grown : SessionRegistry → Request → SessionRegistry → Phase → Type 0
Grown r0 q r (returned (ok lease)) =
    (get lease.id r0.leases ≡ none)
    × (r.leases ≡ insert lease.id (record { key = q.key; client_kind = q.client_kind }) r0.leases)
    × (is_some (get q.key r.sessions) ≡ true)
Grown r0 q r _ = (r.leases ≡ r0.leases) × (r.lease_seq ≡ r0.lease_seq)

module _ (r0 : SessionRegistry) (v : WellFormed r0) (q : Request) where
  grant-Grown :
      (r : SessionRegistry)
      → r.leases ≡ r0.leases
      → r.lease_seq ≡ r0.lease_seq
      → is_some (get q.key r.sessions) ≡ true
      → Grown r0 q (grant q r).0 (grant q r).1
  unfolding grant next_lease_id
  grant-Grown r same seq there =
      (rw seq (v.fresh r0.lease_seq (omega arith)), rw (same, seq) refl, there)

  reuse-Grown :
      (now : ℕ) (r : SessionRegistry)
      → r.leases ≡ r0.leases
      → r.lease_seq ≡ r0.lease_seq
      → is_some (get q.key r.sessions) ≡ true
      → Grown r0 q (reuse q now r).0 (reuse q now r).1
  unfolding reuse
  reuse-Grown now r same seq there =
      grant-Grown (count_reused (record r { sessions = modify q.key (held now) r.sessions })) same
        seq (ground (arith, get-modify q.key q.key (held now) r.sessions))

  install-Grown :
      (now : ℕ) (h : SessionHandle) (r : SessionRegistry)
      → r.leases ≡ r0.leases
      → r.lease_seq ≡ r0.lease_seq
      → Grown r0 q (install q now h r).0 (install q now h r).1
  unfolding install with_record
  install-Grown now h r same seq =
      grant-Grown
        (count_spawned
          (record r { sessions = modify q.key (held now) (with_record q.key now h r.sessions) }))
        same seq
        (ground (
          arith,
          get-modify q.key q.key (held now) (with_record q.key now h r.sessions),
          get-insert q.key q.key (new_record now h) r.sessions,
          key_beq_iff q.key q.key,
        ))

  advance-Grown :
      (w : World) (r : SessionRegistry) (p : Phase)
      → Grown r0 q r p
      → Grown r0 q (advance q w r p).0 (advance q w r p).1
  unfolding advance gate_for pass_gate reopen
  advance-Grown w r entering (same, seq) = elim (Option-cases (get q.key r.spawn_gates)) [
    | inl e ↦ rw (e, advance, gate_for) (same, seq)
    | inr (g, e) ↦ rw (e, advance, gate_for) (same, seq)
  ]
  advance-Grown w r (checking g) (same, seq) = elim (Option-cases (get q.key r.sessions)) [
    | inl e ↦ rw (e, advance) (same, seq)
    | inr (x, e) ↦ rw (e, advance) (reuse-Grown w.now r same seq (rw e refl))
  ]
  advance-Grown w r (gating g) (same, seq) = ground arith
  advance-Grown w r (waiting g n) (same, seq) = ground arith
  advance-Grown w r (spawning g) (same, seq) = (same, seq)
  advance-Grown w r (reopening g a) (same, seq) = (same, seq)
  advance-Grown w r (settling (ok h)) (same, seq) = install-Grown w.now h r same seq
  advance-Grown w r (settling (err e)) (same, seq) = (same, seq)
  advance-Grown w r (returned a) g = g

  advance_many-Grown :
      (n : ℕ) (w : World) (r : SessionRegistry) (p : Phase)
      → Grown r0 q r p
      → Grown r0 q (advance_many n q w (r, p)).0 (advance_many n q w (r, p)).1
  unfolding advance_many
  advance_many-Grown zero w r p g = g
  advance_many-Grown (suc n) w r p g =
      advance_many-Grown n w (advance q w r p).0 (advance q w r p).1 (advance-Grown w r p g)

-- What an answer says of the leases before and after: it says AttachOk, and there is one lease more,
-- that of the answer; or it is an error, or there is none, and the leases are the same.
pub data Attached (before after : SessionRegistry) : Option DispatchOutcome → Type 0 where
  silent : after.leases ≡ before.leases → Attached before after none
  refused :
      (x : DispatchOutcome)
      → x.response.message_type ≡ type_error
      → after.leases ≡ before.leases
      → Attached before after (some x)
  granted :
      (x : DispatchOutcome) (a : AttachOk) (l : LeaseRecord)
      → x.response.message_type ≡ type_attach_ok
      → x.response.payload ≡ attach_ok a
      → get a.lease_id before.leases ≡ none
      → after.leases ≡ insert a.lease_id l before.leases
      → Attached before after (some x)

module _ (o : Outside) (id : Option Text) (r0 : SessionRegistry) (v : WellFormed r0) where
  finish_attach-Attached :
      (q : Request) (r : SessionRegistry) (p : Phase)
      → Grown r0 q r p
      → let (r', x) = finish_attach o id q.key mux_control (r, p) in Attached r0 r' x
  unfolding finish_attach attach_stream session_handle
  finish_attach-Attached q r (returned (ok lease)) (new, same, there) =
      elim (Option-cases (get q.key r.sessions)) [
        | inl e ↦ absurd (let none_there = rw e at there in cc)
        | inr (x, e) ↦ rw (e, finish_attach, session_handle) (granted _ _ _ refl refl new same)
      ]
  finish_attach-Attached q r (returned (err e)) (same, seq) = refused _ refl same
  finish_attach-Attached q r entering (same, seq) = silent same
  finish_attach-Attached q r (checking g) (same, seq) = silent same
  finish_attach-Attached q r (gating g) (same, seq) = silent same
  finish_attach-Attached q r (waiting g n) (same, seq) = silent same
  finish_attach-Attached q r (spawning g) (same, seq) = silent same
  finish_attach-Attached q r (reopening g a) (same, seq) = silent same
  finish_attach-Attached q r (settling a) (same, seq) = silent same

  -- An attach request for the control channel's stream adds the lease that it answers, or it
  -- answers an error or nothing and leaves the leases.
  pub dispatch_attach-Attached :
      (payload : Json) (a : Attach)
      → o.attach payload ≡ some a
      → preferred_stream_mode a.capabilities ≡ mux_control
      → let (r', x) = dispatch_attach o id payload r0 in Attached r0 r' x
  unfolding dispatch_attach attach_with acquire_or_spawn
  dispatch_attach-Attached payload a e mux =
      elim (Result-cases (validate_session_key a.session_key)) [
        | inr (m, f) ↦ rw (e, dispatch_attach) (rw (f, attach_with) (refused _ refl refl))
        | inl (u, f) ↦
            let key = key_of a.session_key in
            let q : Request = record { key = key; client_kind = a.client_meta.client_kind } in
            let w : World = record { now = o.now; outcome = o.spawn key } in
            rw (e, dispatch_attach)
              (rw (f, attach_with)
                (rw mux (
                  finish_attach-Attached q (acquire_or_spawn q w r0).0 (acquire_or_spawn q w r0).1
                    (advance_many-Grown r0 v q 6 w r0 entering (refl, refl)))))
      ]

claim_runtime-leases :
    (now : ℕ) (id : Text) (r : SessionRegistry) → (claim_runtime now id r).0.leases ≡ r.leases
unfolding claim_runtime touch
claim_runtime-leases now id r = ground arith

finish_call-leases {ℓ} :
    {A : Type ℓ} (later : ℕ) (id : Text) (call : ℕ → Result A Text) (before r : SessionRegistry)
    (c : Result (Option ℕ) Text)
    → (finish_call later id call before (r, c)).0.leases ≡ r.leases
unfolding finish_call touch_lease_of touch
finish_call-leases later id call before r (err e) = refl
finish_call-leases later id call before r (ok none) = refl
finish_call-leases later id call before r (ok (some runtime)) = elim (Result-cases (call runtime)) [
  | inr (m, e) ↦ rw (e, finish_call) refl
  | inl (a, e) ↦ rw (e, finish_call) (ground arith)
]

module _ (o : Outside) (id : Option Text) (payload : Json) (r : SessionRegistry) where
  -- Calls and notifications leave the leases as they are.
  pub dispatch_call-leases : (dispatch_call o id payload r).0.leases ≡ r.leases
  unfolding dispatch_call call_by_lease_id
  dispatch_call-leases = elim (Option-cases (o.call payload)) [
    | inl e ↦ rw (e, dispatch_call) refl
    | inr (c, e) ↦
        let claimed = claim_runtime o.now c.lease_id r in
        rw (e, dispatch_call)
          (finish_call-leases o.later c.lease_id (λ p. o.call_runtime p c.request) r claimed.0
              claimed.1
            ∙ claim_runtime-leases o.now c.lease_id r)
  ]

  pub dispatch_notify-leases : (dispatch_notify o id payload r).0.leases ≡ r.leases
  unfolding dispatch_notify notify_by_lease_id
  dispatch_notify-leases = elim (Option-cases (o.notify payload)) [
    | inl e ↦ rw (e, dispatch_notify) refl
    | inr (c, e) ↦
        let claimed = claim_runtime o.now c.lease_id r in
        rw (e, dispatch_notify)
          (finish_call-leases o.later c.lease_id (λ p. o.send_runtime p c.message) r claimed.0
              claimed.1
            ∙ claim_runtime-leases o.now c.lease_id r)
  ]

  -- A release drops the lease that it names and no other.
  pub dispatch_release-leases :
      (x : Release) (j : Text)
      → o.release payload ≡ some x
      → get j (dispatch_release o id payload r).0.leases
        ≡ (if x.lease_id == j then none else get j r.leases)
  unfolding dispatch_release release_with release_by_lease_id
  dispatch_release-leases x j e =
      rw (e, dispatch_release)
        (elim (Option-cases (get x.lease_id r.leases)) [
          | inl f ↦
              rw (f, release_with, release_by_lease_id)
                (ground (arith, text_eq.beq_iff x.lease_id j))
          | inr (l, f) ↦
              rw (f, release_with, release_by_lease_id) (get-remove x.lease_id j r.leases)
        ])
