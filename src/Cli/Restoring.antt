-- ===== src/Cli/Restoring.antt =====
-- A run of `lspee do` and the leases of the daemon that it connects to.
use lspee.Base.{
  ℕ, ◌≡◌, refl, subst, ap, ◌∙◌, Bool, false, Option, none, some, List, [], ◌∷◌, arith, not, any,
  Result, ok, err, Result-cases, Bool-cases, inl, inr,
}
use lspee.Base.Eq.{◌==◌, text_eq, list_beq, beq_refl}
use lspee.Base.Text.{Text, codes}
use lspee.Base.Map.{Map, get, get-insert}
use lspee.Json.{Json}
use lspee.Protocol.{ControlEnvelope, type_attach_ok}
use lspee.Registry.State.{SessionRegistry, LeaseRecord}
use lspee.Registry.Invariant.{WellFormed}
use lspee.Daemon.Keys.{preferred_stream_mode}
use lspee.Daemon.Defs.{Outside, Daemon, DispatchOutcome}
use lspee.Daemon.Requests.{dispatch_control_request}
use lspee.Daemon.Dispatch.{Echoes, dispatch-Echoes}
use lspee.Daemon.Granting.{Attached, silent, refused, granted}
use lspee.Config.Defs.{ResolvedConfig}
use lspee.Cli.Args.{DoMethod, DoCommand, RequestMeta, shared_args, file_path}
use lspee.Cli.Requests.{Files, resolve_lsp_id, build_request}
use lspee.Cli.Responses.{Printer}
use lspee.Cli.Client.{
  Peer, Line, Link, write_frame, next_response, read_response_for_id, ensure_not_error,
}
use lspee.Cli.Frames.{Process, attach_id, attach_frame, expect_type, lease_of}
use lspee.Cli.Run.{and_then, exchange, attach_session, run_attached, run_async}
use lspee.Daemon.Connection.{go_on}
use lspee.Cli.Served.{
  Control, Wire, reading, replies, serve, connection, Agrees, leases_of, Taken, lost, refused_line,
  dispatched, serve-Taken,
}
use lspee.Cli.Steps.{take_attach, run_attached-leases}

module _ (o : ℕ → Outside) (wire : Wire) (p : Process) where
  abbrev peer : Peer Control
  peer = connection o wire

  module _ (agrees : Agrees o wire p) where
    -- What the client makes of an attach: with a lease, that is the one lease more; with an error,
    -- the leases are the same.
    abbrev Leased : Map Text LeaseRecord → Link Control × Result Text Text → Type 0
    Leased before (l, ok lease_id) =
        (get lease_id before ≡ none)
        × ((j : Text) → (lease_id == j) ≡ false → get j (leases_of l.daemon) ≡ get j before)
    Leased before (l, err e) = leases_of l.daemon ≡ before

    -- What the client reads of an answer.
    abbrev read_attach :
        List (ControlEnvelope Json) → Control × List Line → Link Control × Result Text Text
    read_attach written y =
        and_then
          (and_then
            (read_response_for_id (attach_id p)
              (record { daemon = y.0; unread = y.1; written = written }))
            (λ response l. (l, expect_type (codes "Attach") type_attach_ok response)))
          (λ payload l. (l, lease_of payload))

    next_own :
        (x : DispatchOutcome)
        → x.response.id ≡ some (attach_id p)
        → next_response (attach_id p) (replies wire.value (some x)) ≡ (
          [],
          ok (record {
            v = x.response.v;
            id = x.response.id;
            message_type = x.response.message_type;
            payload = wire.value x.response.payload;
          }),
        )
    unfolding next_response
    next_own x e = rw (e, next_response) (rw (beq_refl (attach_id p)) refl)

    read_attach-Leased :
        (written : List (ControlEnvelope Json)) (before : SessionRegistry) (c : Control)
        (x : Option DispatchOutcome)
        → Attached before c.daemon.registry x
        → Echoes (some (attach_id p)) x
        → Leased before.leases (read_attach written (c, replies wire.value x))
    unfolding read_response_for_id and_then expect_type ensure_not_error list_beq lease_of
        next_response
    read_attach-Leased written before c none (silent same) e = same
    read_attach-Leased written before c (some x) (refused _ error same) e =
        rw (next_own x e.0) (rw error same)
    read_attach-Leased written before c (some x) (granted _ a l is has new same) e =
        rw (next_own x e.0) (
          rw (is, has)
            (rw (agrees.lease_shown a, lease_of)
              (new, (λ j h. rw same (get-insert a.lease_id j l before.leases ∙ rw h refl)))))

    -- A daemon that a connection is made to.
    abbrev pub connected : Daemon → Control
    connected d = record { taken = 0; daemon = d; next = go_on }

    read_Taken-Leased :
        (written : List (ControlEnvelope Json)) (d : Daemon) (e : ControlEnvelope Json)
        (y : Control × List Line)
        → Taken o wire (connected d) e y
        → (let x = dispatch_control_request (reading o wire 0 e) e d in
            Attached d.registry x.0.registry x.1 × Echoes (some (attach_id p)) x.1)
        → Leased d.registry.leases (read_attach written y)
    unfolding read_response_for_id and_then next_response
    read_Taken-Leased written d e _ (lost over) (h, i) = absurd over
    read_Taken-Leased written d e _ refused_line (h, i) = refl
    read_Taken-Leased written d e _ (dispatched d' x n same) (h, i) =
        read_attach-Leased written d.registry (record { taken = 1; daemon = d'; next = n }) x
          (subst (λ z. Attached d.registry z.0.registry z.1) same h)
          (subst (λ z. Echoes (some (attach_id p)) z.1) same i)

    attach-Leased :
        (root hash lsp_id : Text) (d : Daemon)
        → WellFormed d.registry
        → Leased d.registry.leases (
            attach_session peer p root hash lsp_id
              (record { daemon = connected d; unread = []; written = [] }))
    unfolding attach_session exchange write_frame and_then preferred_stream_mode any
    attach-Leased root hash lsp_id d v =
        let e = attach_frame p root hash lsp_id in
        let s : Control = connected d in
        read_Taken-Leased (e ∷ []) d e (serve o wire s e) (serve-Taken o wire p agrees s e refl) (
          take_attach o wire p agrees (attach_id p) e.payload 0 d _ v (agrees.attach_read 0 _) refl,
          dispatch-Echoes (reading o wire 0 e) e d,
        )

    finish-Restored :
        (files : Files) (printer : Printer) (method : DoMethod) (lsp_id : Text)
        (built : Json × RequestMeta) (before : Map Text LeaseRecord)
        (x : Link Control × Result Text Text)
        → Leased before x
        → let l = (and_then x (run_attached peer p files printer method lsp_id built)).0 in
          l.daemon.next ≡ go_on → (j : Text) → get j (leases_of l.daemon) ≡ get j before
    unfolding and_then
    finish-Restored files printer method lsp_id (request, meta) before (l, ok id) (new, others)
          open_yet j =
        elim (Bool-cases (id == j)) [
          | inl e ↦
              run_attached-leases o wire p agrees files printer method lsp_id request meta id j l
                open_yet
              ∙ rw e (ground (arith, new, text_eq.beq_iff id j))
          | inr e ↦
              run_attached-leases o wire p agrees files printer method lsp_id request meta id j l
                open_yet
              ∙ rw e (others j e)
        ]
    finish-Restored files printer method lsp_id built before (l, err m) same open_yet j =
        ap (get j) same

    abbrev Restored : Map Text LeaseRecord → Option (Link Control) → Type 0
    Restored before none = Unit
    Restored before (some l) =
        l.daemon.next ≡ go_on → (j : Text) → get j (leases_of l.daemon) ≡ get j before

    run-Restored :
        {V : Type 0} (files : Files) (printer : Printer)
        (resolve : Option Text → Result (ResolvedConfig V) Text)
        (reach : Text → Bool → Result (Unit {0}) Text) (cmd : DoCommand) (d : Daemon)
        → WellFormed d.registry
        → Restored d.registry.leases
            (run_async peer p files printer resolve
              (λ root start. elim (reach root start) [ ok u ↦ ok (connected d) | err e ↦ err e ])
              cmd).0
    unfolding run_async
    run-Restored files printer resolve reach cmd d v =
        elim (Result-cases (resolve (shared_args cmd.method).root)) [
          | inr (m, e) ↦ rw (e, run_async) tt
          | inl (resolved, e) ↦
              elim (Result-cases
                (resolve_lsp_id files (shared_args cmd.method).lsp (file_path cmd.method))) [
                  | inr (m, f) ↦ rw (e, run_async) (rw f tt)
                  | inl (lsp_id, f) ↦ elim (Result-cases (build_request files cmd.method)) [
                    | inr (m, g) ↦ rw (e, run_async) (rw f (rw g tt))
                    | inl (built, g) ↦
                        elim (Result-cases (
                          reach resolved.project_root
                            (not (shared_args cmd.method).no_start_daemon))) [
                              | inr (m, h) ↦ rw (e, run_async) (rw f (rw g (rw h tt)))
                              | inl (u, h) ↦
                                  rw (e, run_async)
                                    (rw f (
                                      rw g (
                                        rw h (
                                          finish-Restored files printer cmd.method lsp_id built
                                            d.registry.leases _
                                            (attach-Leased resolved.project_root
                                              resolved.config_hash lsp_id d v)))))
                            ]
                  ]
                ]
        ]

    -- A run over a connection to a well-formed daemon that serves nobody else meanwhile, and that
    -- reads frames and requests as they were written and shows the id of a lease as a text, leaves
    -- the leases of the daemon as they were, whether the run succeeds or fails, if at its end the
    -- connection still goes on: the daemon has not hung up, as it does on a frame over 1 MiB, and
    -- does not wait in a handler.
    pub run_async-Restored :
        {V : Type 0} (files : Files) (printer : Printer)
        (resolve : Option Text → Result (ResolvedConfig V) Text)
        (reach : Text → Bool → Result (Unit {0}) Text) (cmd : DoCommand) (d : Daemon)
        (l : Link Control)
        → WellFormed d.registry
        → (run_async peer p files printer resolve
            (λ root start. elim (reach root start) [ ok u ↦ ok (connected d) | err e ↦ err e ])
            cmd).0
          ≡ some l
        → l.daemon.next ≡ go_on
        → (j : Text) → get j (leases_of l.daemon) ≡ get j d.registry.leases
    run_async-Restored files printer resolve reach cmd d l v ran =
        subst (Restored d.registry.leases) ran (run-Restored files printer resolve reach cmd d v)
