-- ===== src/Daemon/Dispatch.antt =====
-- The dispatcher over all types of requests.
use lspee.Base.{
  ◌+◌, ◌<◌, ◌^◌, ◌≡◌, refl, false, Option, none, some, arith, Result, ok, err, Option-cases,
  Result-cases, inl, inr, Bool-cases,
}
use lspee.Base.Eq.{◌==◌, text_eq}
use lspee.Base.Text.{Text, codes}
use lspee.Json.{Json}
use lspee.Protocol.{
  protocol_version, type_attach, type_release, type_call, type_notify, type_stats, type_shutdown,
  StreamMode, dedicated, mux_control, Attach, ControlEnvelope, error_unknown_type,
}
use lspee.Registry.State.{SessionKey, SessionHandle, SessionRegistry, Lease}
use lspee.Registry.Ops.{session_handle}
use lspee.Registry.Acquire.{Phase, returned, acquire_or_spawn}
use lspee.Registry.Invariant.{WellFormed}
use lspee.Daemon.Keys.{validate_session_key, preferred_stream_mode}
use lspee.Daemon.Defs.{
  Outside, Daemon, refuse, key_of, DispatchOutcome, attach_stream, finish_attach, attach_with,
  dispatch_attach, dispatch_release,
}
use lspee.Daemon.Requests.{
  call_response, notify_response, dispatch_call, dispatch_notify, dispatch_stats, dispatch_shutdown,
  dispatch_control_request,
}
use lspee.Daemon.Handlers.{
  SpawnAnswers, dispatch_attach-WellFormed, dispatch_release-WellFormed, dispatch_call-WellFormed,
  dispatch_notify-WellFormed,
}

-- The dispatcher is one of its handlers: what holds of each of them holds of it.
dispatch_cases {ℓ} :
    (P : Daemon × Option DispatchOutcome → Type ℓ) (o : Outside) (req : ControlEnvelope Json)
    (d : Daemon)
    → (let (r, outcome) = dispatch_attach o req.id req.payload d.registry in
        P (record d { registry = r }, outcome))
    → (let (r, outcome) = dispatch_release o req.id req.payload d.registry in
        P (record d { registry = r }, some outcome))
    → (let (r, outcome) = dispatch_call o req.id req.payload d.registry in
        P (record d { registry = r }, some outcome))
    → (let (r, outcome) = dispatch_notify o req.id req.payload d.registry in
        P (record d { registry = r }, some outcome))
    → P (d, some (dispatch_stats o req.id d))
    → (let (d', outcome) = dispatch_shutdown o req.id req.payload d in P (d', some outcome))
    → P (d, some (refuse req.id error_unknown_type (codes "Unknown control message type") false))
    → P (dispatch_control_request o req d)
unfolding dispatch_control_request
dispatch_cases P o req d attach release call notify stats shutdown other =
    elim (Bool-cases (req.message_type == type_attach)) [
      | inl e ↦ rw e attach
      | inr e ↦ rw e (elim (Bool-cases (req.message_type == type_release)) [
        | inl e ↦ rw e release
        | inr e ↦ rw e (elim (Bool-cases (req.message_type == type_call)) [
          | inl e ↦ rw e call
          | inr e ↦ rw e (elim (Bool-cases (req.message_type == type_notify)) [
            | inl e ↦ rw e notify
            | inr e ↦ rw e (elim (Bool-cases (req.message_type == type_stats)) [
              | inl e ↦ rw e stats
              | inr e ↦ rw e (elim (Bool-cases (req.message_type == type_shutdown)) [
                | inl e ↦ rw e shutdown
                | inr e ↦ rw e other
              ])
            ])
          ])
        ])
      ])
    ]

dispatch_shutdown-registry :
    (o : Outside) (id : Option Text) (payload : Json) (d : Daemon)
    → (dispatch_shutdown o id payload d).0.registry ≡ d.registry
unfolding dispatch_shutdown
dispatch_shutdown-registry o id payload d = ground arith

-- Every request, of a known type or not, keeps the registry well formed, if lease ids are left and
-- a spawned handle has the key that was asked for.
pub dispatch-WellFormed :
    (o : Outside) (req : ControlEnvelope Json) (d : Daemon)
    → SpawnAnswers o
    → d.registry.lease_seq + 1 < 2 ^ 64
    → WellFormed d.registry
    → WellFormed (dispatch_control_request o req d).0.registry
dispatch-WellFormed o req d s room v =
    dispatch_cases (λ x. WellFormed x.0.registry) o req d
      (dispatch_attach-WellFormed o req.id req.payload d.registry s room v)
      (dispatch_release-WellFormed o req.id req.payload d.registry v)
      (dispatch_call-WellFormed o req.id req.payload d.registry v)
      (dispatch_notify-WellFormed o req.id req.payload d.registry v) v
      (rw (dispatch_shutdown-registry o req.id req.payload d) v) v

-- An answer carries the id of its request and the protocol's version.
abbrev pub Echoes : Option Text → Option DispatchOutcome → Type 0
Echoes id none = Unit
Echoes id (some x) = (x.response.id ≡ id) × (x.response.v ≡ protocol_version)

module _ (o : Outside) (id : Option Text) where
  attach_stream-Echoes :
      (key : SessionKey) (mode : StreamMode) (lease : Lease) (h : SessionHandle)
      (r : SessionRegistry)
      → Echoes id (some (attach_stream o id key mode lease h r).1)
  unfolding attach_stream
  attach_stream-Echoes key mux_control lease h r = (refl, refl)
  attach_stream-Echoes key dedicated lease h r = ground arith

  finish_attach-Echoes :
      (key : SessionKey) (mode : StreamMode) (r : SessionRegistry) (p : Phase)
      → Echoes id (finish_attach o id key mode (r, p)).1
  unfolding finish_attach
  finish_attach-Echoes key mode r (returned (ok lease)) =
      elim (Option-cases (session_handle r key)) [
        | inl e ↦ rw (e, finish_attach) (refl, refl)
        | inr (h, e) ↦ rw (e, finish_attach) (attach_stream-Echoes key mode lease h r)
      ]
  finish_attach-Echoes key mode r (returned (err e)) = (refl, refl)
  finish_attach-Echoes key mode r _ = tt

  attach_with-Echoes : (a : Attach) (r : SessionRegistry) → Echoes id (attach_with o id a r).1
  unfolding attach_with
  attach_with-Echoes a r = elim (Result-cases (validate_session_key a.session_key)) [
    | inl (u, e) ↦
        let s =
          acquire_or_spawn
            (record { key = key_of a.session_key; client_kind = a.client_meta.client_kind })
            (record { now = o.now; outcome = o.spawn (key_of a.session_key) }) r in
        rw (e, attach_with)
          (finish_attach-Echoes (key_of a.session_key) (preferred_stream_mode a.capabilities) s.0
            s.1)
    | inr (m, e) ↦ rw (e, attach_with) (refl, refl)
  ]

  dispatch_attach-Echoes :
      (payload : Json) (r : SessionRegistry) → Echoes id (dispatch_attach o id payload r).1
  unfolding dispatch_attach
  dispatch_attach-Echoes payload r = elim (Option-cases (o.attach payload)) [
    | inl e ↦ rw (e, dispatch_attach) (refl, refl)
    | inr (a, e) ↦ rw (e, dispatch_attach) (attach_with-Echoes a r)
  ]

  dispatch_release-Echoes :
      (payload : Json) (r : SessionRegistry) → Echoes id (some (dispatch_release o id payload r).1)
  unfolding dispatch_release
  dispatch_release-Echoes payload r = ground arith

  call_response-Echoes :
      (lease : Text) (x : Result (Option Json) Text) → Echoes id (some (call_response id lease x))
  unfolding call_response
  call_response-Echoes lease (ok (some j)) = (refl, refl)
  call_response-Echoes lease (ok none) = (refl, refl)
  call_response-Echoes lease (err e) = (refl, refl)

  dispatch_call-Echoes :
      (payload : Json) (r : SessionRegistry) → Echoes id (some (dispatch_call o id payload r).1)
  unfolding dispatch_call
  dispatch_call-Echoes payload r = elim (Option-cases (o.call payload)) [
    | inl e ↦ rw (e, dispatch_call) (refl, refl)
    | inr (c, e) ↦ rw (e, dispatch_call) (call_response-Echoes c.lease_id _)
  ]

  notify_response-Echoes :
      (lease : Text) (x : Result (Option (Unit {0})) Text)
      → Echoes id (some (notify_response id lease x))
  unfolding notify_response
  notify_response-Echoes lease (ok (some j)) = (refl, refl)
  notify_response-Echoes lease (ok none) = (refl, refl)
  notify_response-Echoes lease (err e) = (refl, refl)

  dispatch_notify-Echoes :
      (payload : Json) (r : SessionRegistry) → Echoes id (some (dispatch_notify o id payload r).1)
  unfolding dispatch_notify
  dispatch_notify-Echoes payload r = elim (Option-cases (o.notify payload)) [
    | inl e ↦ rw (e, dispatch_notify) (refl, refl)
    | inr (c, e) ↦ rw (e, dispatch_notify) (notify_response-Echoes c.lease_id _)
  ]

  dispatch_shutdown-Echoes :
      (payload : Json) (d : Daemon) → Echoes id (some (dispatch_shutdown o id payload d).1)
  unfolding dispatch_shutdown
  dispatch_shutdown-Echoes payload d = ground arith

-- Whatever the request, an answer of the dispatcher has the request's id and the protocol's
-- version.
pub dispatch-Echoes :
    (o : Outside) (req : ControlEnvelope Json) (d : Daemon)
    → Echoes req.id (dispatch_control_request o req d).1
unfolding dispatch_stats
dispatch-Echoes o req d =
    dispatch_cases (λ x. Echoes req.id x.1) o req d
      (dispatch_attach-Echoes o req.id req.payload d.registry)
      (dispatch_release-Echoes o req.id req.payload d.registry)
      (dispatch_call-Echoes o req.id req.payload d.registry)
      (dispatch_notify-Echoes o req.id req.payload d.registry) (refl, refl)
      (dispatch_shutdown-Echoes o req.id req.payload d) (refl, refl)
