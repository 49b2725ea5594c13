-- ===== src/Cli/Run.antt =====
-- The run of `lspee do`: attach, open the document, call, close the document, release, print.
use lspee.Base.{Bool, Option, none, some, [], ◌++◌, not, Result, ok, err}
use lspee.Base.Eq.{text_eq}
use lspee.Base.Text.{Text, codes}
use lspee.Json.{Json}
use lspee.Protocol.{type_attach_ok, type_call_ok, type_notify_ok, type_release_ok, ControlEnvelope}
use lspee.Config.Defs.{ResolvedConfig}
use lspee.Cli.Args.{DoMethod, DoCommand, RequestMeta, shared_args, file_path}
use lspee.Cli.Requests.{Files, file_uri, resolve_lsp_id, language_id_for_path, build_request}
use lspee.Cli.Responses.{Printer, format_do_output}
use lspee.Cli.Client.{Peer, Link, write_frame, read_response_for_id}
use lspee.Cli.Frames.{
  Process, attach_id, open_id, call_id, close_id, release_id, attach_frame, call_frame,
  release_frame, open_frame, close_frame, expect_type, lease_of,
}

-- Rust's `?` behind an operation on the connection.
unfoldable pub and_then :
    {S A B : Type 0}
    → Link S × Result A Text
    → (A → Link S → Link S × Result B Text)
    → Link S × Result B Text
and_then (link, ok a) k = k a link
and_then (link, err e) k = (link, err e)

-- A result that is given up.
unfoldable pub or_none : {S A : Type 0} → Link S × Result A Text → Link S × Option A
or_none (link, ok a) = (link, some a)
or_none (link, err e) = (link, none)

module _ {S : Type 0} (peer : Peer S) (p : Process) where
  -- A frame, and the answer that has its id.
  unfoldable pub exchange :
      Text → Text → Text → ControlEnvelope Json → Link S → Link S × Result Json Text
  unfolding and_then write_frame read_response_for_id expect_type
  exchange id what expected envelope link = and_then (write_frame peer envelope link) (λ u l.
      and_then (read_response_for_id id l)
        (λ response l'. (l', expect_type what expected response)))

  unfoldable pub attach_session : Text → Text → Text → Link S → Link S × Result Text Text
  unfolding and_then exchange lease_of
  attach_session project_root config_hash lsp_id link =
      and_then
        (exchange (attach_id p) (codes "Attach") type_attach_ok
          (attach_frame p project_root config_hash lsp_id) link)
        (λ payload l. (l, lease_of payload))

  unfoldable pub release_lease : Text → Link S → Link S × Result Json Text
  unfolding exchange
  release_lease lease_id link =
      exchange (release_id p) (codes "Release") type_release_ok (release_frame p lease_id) link

  unfoldable pub send_did_open : Files → Text → Text → Link S → Link S × Result Text Text
  unfolding and_then exchange file_uri language_id_for_path
  send_did_open files lease_id file link = elim (file_uri files file) [
    | err e ↦ (link, err e)
    | ok uri ↦ elim (files.read_to_string file) [
      | err e ↦ (link, err (codes "cannot read file '" ++ file ++ codes "' for didOpen: " ++ e))
      | ok text ↦
          and_then
            (exchange (open_id p) (codes "Notify (didOpen)") type_notify_ok
              (open_frame p lease_id uri (language_id_for_path files file) text) link)
            (λ payload l. (l, ok uri))
    ]
  ]

  unfoldable pub send_did_close : Text → Text → Link S → Link S × Result Json Text
  unfolding exchange
  send_did_close lease_id uri link =
      exchange (close_id p) (codes "Notify (didClose)") type_notify_ok (close_frame p lease_id uri)
        link

  -- The address of the document, if it could be opened.
  unfoldable pub open_document : Files → Text → Option Text → Link S → Link S × Option Text
  unfolding or_none send_did_open
  open_document files lease_id none link = (link, none)
  open_document files lease_id (some file) link = or_none (send_did_open files lease_id file link)

  unfoldable pub close_document : Text → Option Text → Link S → Link S
  unfolding send_did_close
  close_document lease_id none link = link
  close_document lease_id (some uri) link = (send_did_close lease_id uri link).0

  -- From the call on: the answer is looked at only when the lease is released.
  unfoldable pub call_and_release :
      Text → Json → Option Text → Link S → Link S × Result (ControlEnvelope Json) Text
  unfolding and_then write_frame read_response_for_id close_document release_lease
  call_and_release lease_id request uri link =
      and_then (write_frame peer (call_frame p lease_id request) link) (λ u l.
        let (l', response) = read_response_for_id (call_id p) l in
        ((release_lease lease_id (close_document lease_id uri l')).0, response))

  -- What is printed of the answer.
  unfoldable pub present :
      Files
      → Printer
      → DoMethod
      → Text
      → RequestMeta
      → Result (ControlEnvelope Json) Text
      → Result Text Text
  unfolding expect_type shared_args format_do_output
  present files printer method lsp_id meta (err e) = err e
  present files printer method lsp_id meta (ok response) =
      elim (expect_type (codes "Call") type_call_ok response) [
        | err e ↦ err e
        | ok payload ↦ elim (p.call_ok payload) [
          | err e ↦ err (codes "invalid CallOk payload: " ++ e)
          | ok c ↦
              format_do_output files printer method lsp_id meta c p.elapsed_ms
                (shared_args method).output
        ]
      ]

  unfoldable pub run_attached :
      Files
      → Printer
      → DoMethod
      → Text
      → Json × RequestMeta
      → Text
      → Link S
      → Link S × Result Text Text
  unfolding open_document call_and_release present file_path
  run_attached files printer method lsp_id (request, meta) lease_id link =
      let (l, uri) = open_document files lease_id (file_path method) link in
      let (l', response) = call_and_release lease_id request uri l in
      (l', present files printer method lsp_id meta response)

  -- `connect root auto_start` is the daemon at the other end of a new connection; `none` is a run
  -- that has not connected.
  unfoldable pub run_async :
      {V : Type 0}
      → Files
      → Printer
      → (Option Text → Result (ResolvedConfig V) Text)
      → (Text → Bool → Result S Text)
      → DoCommand
      → Option (Link S) × Result Text Text
  unfolding and_then shared_args resolve_lsp_id file_path build_request attach_session run_attached
  run_async files printer resolve connect cmd =
      let shared = shared_args cmd.method in
      elim (resolve shared.root) [
        | err e ↦ (none, err e)
        | ok resolved ↦ elim (resolve_lsp_id files shared.lsp (file_path cmd.method)) [
          | err e ↦ (none, err e)
          | ok lsp_id ↦ elim (build_request files cmd.method) [
            | err e ↦ (none, err e)
            | ok built ↦ elim (connect resolved.project_root (not shared.no_start_daemon)) [
              | err e ↦ (none, err e)
              | ok daemon ↦
                  let (l, out) =
                    and_then
                      (attach_session resolved.project_root resolved.config_hash lsp_id
                        (record { daemon = daemon; unread = []; written = [] }))
                      (run_attached files printer cmd.method lsp_id built) in
                  (some l, out)
            ]
          ]
        ]
      ]
