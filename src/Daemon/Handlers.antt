-- ===== src/Daemon/Handlers.antt =====
-- What the handlers keep, answer and leave alone.
use lspee.Base.{◌+◌, ◌<◌, ◌^◌, Option, ok, err, Option-cases, Result-cases, inl, inr}
use lspee.Base.Eq.{text_eq}
use lspee.Base.Text.{Text}
use lspee.Json.{Json}
use lspee.Protocol.{StreamMode, dedicated, mux_control, Attach}
use lspee.Registry.State.{SessionKey, SessionHandle, SessionRegistry, Lease}
use lspee.Registry.Ops.{session_handle}
use lspee.Registry.Acquire.{Request, World, Phase, returned, acquire_or_spawn}
use lspee.Registry.Invariant.{WellFormed}
use lspee.Registry.Invariant.Acquire.{Answers}
use lspee.Registry.Invariant.Alone.{acquire_or_spawn-WellFormed}
use lspee.Registry.Invariant.Ops.{release-WellFormed, call-WellFormed, notify-WellFormed}
use lspee.Daemon.Keys.{validate_session_key, preferred_stream_mode}
use lspee.Daemon.Defs.{
  Outside, key_of, attach_stream, finish_attach, attach_with, dispatch_attach, dispatch_release,
}
use lspee.Daemon.Requests.{dispatch_call, dispatch_notify}

module _ (o : Outside) where
  attach_stream-WellFormed :
      (id : Option Text) (key : SessionKey) (mode : StreamMode) (lease : Lease) (h : SessionHandle)
      (r : SessionRegistry)
      → WellFormed r
      → WellFormed (attach_stream o id key mode lease h r).0
  unfolding attach_stream
  attach_stream-WellFormed id key mux_control lease h r v = v
  attach_stream-WellFormed id key dedicated lease h r v =
      elim (Result-cases (o.open_stream key.root lease.id h)) [
        | inl (p, e) ↦ rw (e, attach_stream) v
        | inr (m, e) ↦ rw (e, attach_stream) (release-WellFormed o.later lease.id r v)
      ]

  finish_attach-WellFormed :
      (id : Option Text) (key : SessionKey) (mode : StreamMode) (r : SessionRegistry) (p : Phase)
      → WellFormed r
      → WellFormed (finish_attach o id key mode (r, p)).0
  unfolding finish_attach
  finish_attach-WellFormed id key mode r (returned (ok lease)) v =
      elim (Option-cases (session_handle r key)) [
        | inl e ↦ rw (e, finish_attach) v
        | inr (h, e) ↦ rw (e, finish_attach) (attach_stream-WellFormed id key mode lease h r v)
      ]
  finish_attach-WellFormed id key mode r (returned (err e)) v = v
  finish_attach-WellFormed id key mode r _ v = v

  -- What is promised of `spawn`: a handle has the key that it was asked for.
  abbrev pub SpawnAnswers : Type 0
  SpawnAnswers = (key : SessionKey) → Answers key (o.spawn key)

  attach_with-WellFormed :
      (id : Option Text) (a : Attach) (r : SessionRegistry)
      → SpawnAnswers
      → r.lease_seq + 1 < 2 ^ 64
      → WellFormed r
      → WellFormed (attach_with o id a r).0
  unfolding attach_with
  attach_with-WellFormed id a r s room v =
      elim (Result-cases (validate_session_key a.session_key)) [
        | inl (u, e) ↦
            let key = key_of a.session_key in
            let q : Request = record { key = key; client_kind = a.client_meta.client_kind } in
            let w : World = record { now = o.now; outcome = o.spawn key } in
            rw (e, attach_with)
              (finish_attach-WellFormed id key (preferred_stream_mode a.capabilities)
                (acquire_or_spawn q w r).0 (acquire_or_spawn q w r).1
                (acquire_or_spawn-WellFormed q w r v room (s key)))
        | inr (m, e) ↦ rw (e, attach_with) v
      ]

  pub dispatch_attach-WellFormed :
      (id : Option Text) (payload : Json) (r : SessionRegistry)
      → SpawnAnswers
      → r.lease_seq + 1 < 2 ^ 64
      → WellFormed r
      → WellFormed (dispatch_attach o id payload r).0
  unfolding dispatch_attach
  dispatch_attach-WellFormed id payload r s room v = elim (Option-cases (o.attach payload)) [
    | inl e ↦ rw (e, dispatch_attach) v
    | inr (a, e) ↦ rw (e, dispatch_attach) (attach_with-WellFormed id a r s room v)
  ]

  pub dispatch_release-WellFormed :
      (id : Option Text) (payload : Json) (r : SessionRegistry)
      → WellFormed r
      → WellFormed (dispatch_release o id payload r).0
  unfolding dispatch_release
  dispatch_release-WellFormed id payload r v = elim (Option-cases (o.release payload)) [
    | inl e ↦ rw (e, dispatch_release) v
    | inr (p, e) ↦ rw (e, dispatch_release) (release-WellFormed o.now p.lease_id r v)
  ]

  pub dispatch_call-WellFormed :
      (id : Option Text) (payload : Json) (r : SessionRegistry)
      → WellFormed r
      → WellFormed (dispatch_call o id payload r).0
  unfolding dispatch_call
  dispatch_call-WellFormed id payload r v = elim (Option-cases (o.call payload)) [
    | inl e ↦ rw (e, dispatch_call) v
    | inr (c, e) ↦
        rw (e, dispatch_call)
          (call-WellFormed o.now o.later o.call_runtime c.lease_id c.request r v)
  ]

  pub dispatch_notify-WellFormed :
      (id : Option Text) (payload : Json) (r : SessionRegistry)
      → WellFormed r
      → WellFormed (dispatch_notify o id payload r).0
  unfolding dispatch_notify
  dispatch_notify-WellFormed id payload r v = elim (Option-cases (o.notify payload)) [
    | inl e ↦ rw (e, dispatch_notify) v
    | inr (n, e) ↦
        rw (e, dispatch_notify)
          (notify-WellFormed o.now o.later o.send_runtime n.lease_id n.message r v)
  ]
