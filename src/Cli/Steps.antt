-- ===== src/Cli/Steps.antt =====
-- crates/lspee_cli/src/commands/do_cmd.rs: what each exchange of a run does to the leases of the
-- daemon that answers it.
use lspee.Base.{
  ℕ, ◌≡◌, refl, sym, subst, ap, List, ◌∙◌, Option, none, some, if◌then◌else◌, Result, ok, err,
  Result-cases, inl, inr,
}
use lspee.Base.Eq.{◌==◌, text_eq, list_beq}
use lspee.Base.Text.{Text, codes}
use lspee.Base.Map.{Map, get}
use lspee.Json.{Json}
use lspee.Protocol.{
  ControlEnvelope, Attach, Release, type_attach, type_notify, type_notify_ok, type_call,
  type_release, type_release_ok, mux_control,
}
use lspee.Registry.State.{LeaseRecord}
use lspee.Registry.Invariant.{WellFormed}
use lspee.Daemon.Keys.{preferred_stream_mode}
use lspee.Daemon.Defs.{Outside, Daemon}
use lspee.Daemon.Requests.{dispatch_control_request}
use lspee.Daemon.Granting.{
  Attached, dispatch_attach-Attached, dispatch_call-leases, dispatch_notify-leases,
  dispatch_release-leases,
}
use lspee.Cli.Args.{DoMethod, RequestMeta, file_path}
use lspee.Cli.Requests.{Files, file_uri, language_id_for_path}
use lspee.Cli.Responses.{Printer}
use lspee.Cli.Client.{Peer, Line, Link, write_frame, read_response_for_id}
use lspee.Cli.Frames.{
  Process, open_id, call_id, close_id, release_id, request_frame, open_frame, call_frame,
  close_frame, release_frame,
}
use lspee.Cli.Run.{
  or_none, exchange, release_lease, send_did_open, send_did_close, open_document, close_document,
  call_and_release, run_attached,
}
use lspee.Cli.Lifecycle.{and_then-link}
use lspee.Daemon.Connection.{go_on}
use lspee.Cli.Served.{
  Control, Wire, reading, serve, connection, Agrees, leases_of, IsOver, Taken, lost, refused_line,
  dispatched, serve-Taken, write_frame-daemon, exchange-daemon, call_and_release-daemon,
}

module _ (o : ℕ → Outside) (wire : Wire) (p : Process) (agrees : Agrees o wire p) where
  abbrev peer : Peer Control
  peer = connection o wire

  -- A frame whose handler leaves the leases leaves them, lost or refused or not.
  Taken-leases :
      (s : Control) (e : ControlEnvelope Json) (y : Control × List Line)
      → Taken o wire s e y
      → (dispatch_control_request (reading o wire s.taken e) e s.daemon).0.registry.leases
        ≡ leases_of s
      → leases_of y.0 ≡ leases_of s
  Taken-leases s e _ (lost over) h = refl
  Taken-leases s e _ refused_line h = refl
  Taken-leases s e _ (dispatched d x n same) h = ap (λ z. z.0.registry.leases) (sym same) ∙ h

  -- A frame after which the connection goes on has been dispatched.
  Taken-go_on :
      (s : Control) (e : ControlEnvelope Json) (y : Control × List Line)
      → Taken o wire s e y
      → y.0.next ≡ go_on
      → y.0.daemon ≡ (dispatch_control_request (reading o wire s.taken e) e s.daemon).0
  Taken-go_on s e _ (lost over) open_yet = absurd (subst IsOver open_yet over)
  Taken-go_on s e _ refused_line open_yet = absurd (cc)
  Taken-go_on s e _ (dispatched d x n same) open_yet = ap (λ z. z.0) (sym same)

  take_notify :
      (id : Text) (payload : Json) (s : Control)
      → leases_of (peer.take s (request_frame id type_notify payload)).0 ≡ leases_of s
  unfolding dispatch_control_request list_beq
  take_notify id payload s =
      let e = request_frame id type_notify payload in
      Taken-leases s e (serve o wire s e) (serve-Taken o wire p agrees s e refl)
        (dispatch_notify-leases (reading o wire s.taken e) (some id) payload s.daemon.registry)

  take_call :
      (id : Text) (payload : Json) (s : Control)
      → leases_of (peer.take s (request_frame id type_call payload)).0 ≡ leases_of s
  unfolding dispatch_control_request list_beq
  take_call id payload s =
      let e = request_frame id type_call payload in
      Taken-leases s e (serve o wire s e) (serve-Taken o wire p agrees s e refl)
        (dispatch_call-leases (reading o wire s.taken e) (some id) payload s.daemon.registry)

  take_release :
      (id : Text) (payload : Json) (s : Control) (x : Release) (j : Text)
      → (o s.taken).release payload ≡ some x
      → (peer.take s (request_frame id type_release payload)).0.next ≡ go_on
      → get j (leases_of (peer.take s (request_frame id type_release payload)).0)
        ≡ (if x.lease_id == j then none else get j (leases_of s))
  unfolding dispatch_control_request list_beq
  take_release id payload s x j read open_yet =
      let e = request_frame id type_release payload in
      ap (λ (d : Daemon). get j d.registry.leases)
        (Taken-go_on s e (serve o wire s e) (serve-Taken o wire p agrees s e refl) open_yet)
      ∙ dispatch_release-leases (reading o wire s.taken e) (some id) payload s.daemon.registry x j
          read

  -- What an attach does to a daemon whose connection goes on.
  pub take_attach :
      (id : Text) (payload : Json) (n : ℕ) (d : Daemon) (a : Attach)
      → WellFormed d.registry
      → (o n).attach payload ≡ some a
      → preferred_stream_mode a.capabilities ≡ mux_control
      → let e = request_frame id type_attach payload in
        let x = dispatch_control_request (reading o wire n e) e d in
        Attached d.registry x.0.registry x.1
  unfolding dispatch_control_request list_beq
  take_attach id payload n d a v e mux =
      dispatch_attach-Attached (reading o wire n (request_frame id type_attach payload)) (some id)
        d.registry v payload a e mux

  write_frame-ok :
      (e : ControlEnvelope Json) (link : Link Control) → (write_frame peer e link).1 ≡ ok tt
  unfolding write_frame
  write_frame-ok e link = refl

  read-leases :
      (id : Text) (link : Link Control)
      → leases_of (read_response_for_id id link).0.daemon ≡ leases_of link.daemon
  unfolding read_response_for_id
  read-leases id link = refl

  or_none-link : {A : Type 0} (x : Link Control × Result A Text) → (or_none x).0 ≡ x.0
  unfolding or_none
  or_none-link (l, ok a) = refl
  or_none-link (l, err e) = refl

  send_did_open-leases :
      (files : Files) (lease_id file : Text) (link : Link Control)
      → leases_of (send_did_open peer p files lease_id file link).0.daemon ≡ leases_of link.daemon
  unfolding send_did_open
  send_did_open-leases files lease_id file link = elim (Result-cases (file_uri files file)) [
    | inr (m, e) ↦ rw (e, send_did_open) refl
    | inl (uri, e) ↦ elim (Result-cases (files.read_to_string file)) [
      | inr (m, f) ↦ rw (e, send_did_open) (rw f refl)
      | inl (text, f) ↦
          let frame = open_frame p lease_id uri (language_id_for_path files file) text in
          let x =
            exchange peer p (open_id p) (codes "Notify (didOpen)") type_notify_ok frame link in
          let there : leases_of x.0.daemon ≡ leases_of link.daemon =
            ap leases_of (
              exchange-daemon peer p (open_id p) (codes "Notify (didOpen)") type_notify_ok frame
                link)
            ∙ take_notify (open_id p) frame.payload link.daemon in
          rw (e, send_did_open)
            (rw f (
              and_then-link (λ l. leases_of l.daemon ≡ leases_of link.daemon) x
                (λ payload l. (l, ok uri)) (λ m g. there) (λ payload g. there)))
    ]
  ]

  open-leases :
      (files : Files) (lease_id : Text) (file : Option Text) (link : Link Control)
      → leases_of (open_document peer p files lease_id file link).0.daemon ≡ leases_of link.daemon
  unfolding open_document
  open-leases files lease_id none link = refl
  open-leases files lease_id (some file) link =
      ap (λ l. leases_of l.daemon) (or_none-link (send_did_open peer p files lease_id file link))
      ∙ send_did_open-leases files lease_id file link

  close-leases :
      (lease_id : Text) (uri : Option Text) (link : Link Control)
      → leases_of (close_document peer p lease_id uri link).daemon ≡ leases_of link.daemon
  unfolding close_document send_did_close
  close-leases lease_id none link = refl
  close-leases lease_id (some uri) link =
      let frame = close_frame p lease_id uri in
      ap leases_of
        (exchange-daemon peer p (close_id p) (codes "Notify (didClose)") type_notify_ok frame link)
      ∙ take_notify (close_id p) frame.payload link.daemon

  release-leases :
      (lease_id j : Text) (link : Link Control)
      → (release_lease peer p lease_id link).0.daemon.next ≡ go_on
      → get j (leases_of (release_lease peer p lease_id link).0.daemon)
        ≡ (if lease_id == j then none else get j (leases_of link.daemon))
  unfolding release_lease
  release-leases lease_id j link open_yet =
      let frame = release_frame p lease_id in
      let x : Release = record { lease_id = lease_id; reason = none } in
      let moved =
        exchange-daemon peer p (release_id p) (codes "Release") type_release_ok frame link in
      ap (λ s. get j (leases_of s)) moved
      ∙ take_release (release_id p) frame.payload link.daemon x j
          (agrees.release_read link.daemon.taken x) (ap Control.next (sym moved) ∙ open_yet)

  call_and_release-leases :
      (lease_id j : Text) (request : Json) (uri : Option Text) (link : Link Control)
      → (call_and_release peer p lease_id request uri link).0.daemon.next ≡ go_on
      → get j (leases_of (call_and_release peer p lease_id request uri link).0.daemon)
        ≡ (if lease_id == j then none else get j (leases_of link.daemon))
  call_and_release-leases lease_id j request uri link open_yet =
      let call = call_frame p lease_id request in
      let left : Map Text LeaseRecord → Option LeaseRecord =
        λ m. if lease_id == j then none else get j m in
      let l = (read_response_for_id (call_id p) (write_frame peer call link).0).0 in
      let moved =
        call_and_release-daemon peer p lease_id request uri link (write_frame-ok call link) in
      ap (λ x. get j (leases_of x.daemon)) moved
      ∙ release-leases lease_id j (close_document peer p lease_id uri l)
          (ap (λ x. x.daemon.next) (sym moved) ∙ open_yet)
      ∙ ap left (
          close-leases lease_id uri l
          ∙ read-leases (call_id p) (write_frame peer call link).0
          ∙ ap leases_of (write_frame-daemon peer p call link)
          ∙ take_call (call_id p) call.payload link.daemon)

  pub run_attached-leases :
      (files : Files) (printer : Printer) (method : DoMethod) (lsp_id : Text) (request : Json)
      (meta : RequestMeta) (lease_id j : Text) (link : Link Control)
      → let l = (run_attached peer p files printer method lsp_id (request, meta) lease_id link).0 in
        l.daemon.next ≡ go_on
        → get j (leases_of l.daemon)
          ≡ (if lease_id == j then none else get j (leases_of link.daemon))
  unfolding run_attached
  run_attached-leases files printer method lsp_id request meta lease_id j link open_yet =
      let x = open_document peer p files lease_id (file_path method) link in
      call_and_release-leases lease_id j request x.1 x.0 open_yet
      ∙ ap (λ m. if lease_id == j then none else get j m)
          (open-leases files lease_id (file_path method) link)
