-- ===== src/Cli/Leaking.antt =====
-- do_cmd.rs with a source file whose didOpen is over 1 MiB.
use lspee.Base.{
  ℕ, suc, ◌<◌, ◌≡◌, refl, ap, sym, subst, ◌∙◌, true, Option, some, none, Result, ok, err, arith,
  ltb,
}
use lspee.Base.Text.{Text, codes, byte_length}
use lspee.Json.{Json}
use lspee.Protocol.{ControlEnvelope, max_frame_size_bytes, type_notify_ok, type_release_ok}
use lspee.Daemon.Defs.{Outside, Daemon}
use lspee.Daemon.Connection.{Next, go_on, hang_up, waits, handle_line}
use lspee.Cli.Args.{DoMethod, RequestMeta, file_path}
use lspee.Cli.Requests.{Files, file_uri, language_id_for_path}
use lspee.Cli.Responses.{Printer}
use lspee.Cli.Client.{Peer, Link, write_frame, read_response_for_id}
use lspee.Cli.Frames.{
  Process, open_id, call_id, close_id, release_id, open_frame, call_frame, close_frame,
  release_frame,
}
use lspee.Cli.Run.{
  or_none, exchange, release_lease, send_did_open, send_did_close, open_document, close_document,
  call_and_release, run_attached,
}
use lspee.Cli.Lifecycle.{and_then-link}
use lspee.Cli.Served.{
  Control, Wire, serve, connection, IsOver, write_frame-daemon, exchange-daemon,
  call_and_release-daemon,
}

module _ (o : ℕ → Outside) (wire : Wire) (p : Process) where
  abbrev peer : Peer Control
  peer = connection o wire

  served-over :
      (n : ℕ) (d : Daemon) (x : Next) (e : ControlEnvelope Json)
      → IsOver x
      → let s : Control = record { taken = n; daemon = d; next = x } in (peer.take s e).0 ≡ s
  unfolding serve
  served-over n d go_on e over = absurd over
  served-over n d hang_up e over = refl
  served-over n d waits e over = refl

  -- A frame that comes too late leaves the daemon's end as it is.
  take-over : (s : Control) (e : ControlEnvelope Json) → IsOver s.next → (peer.take s e).0 ≡ s
  take-over s e over = served-over s.taken s.daemon s.next e over

  large-served :
      (n : ℕ) (d : Daemon) (x : Next) (e : ControlEnvelope Json)
      → x ≡ go_on
      → max_frame_size_bytes < byte_length (wire.text e)
      → (serve o wire (record { taken = n; daemon = d; next = x }) e).0
        ≡ (record { taken = suc n; daemon = d; next = hang_up })
  unfolding serve handle_line
  large-served n d go_on e open_yet large =
      let long : ltb max_frame_size_bytes (byte_length (wire.text e)) ≡ true = ground arith in
      rw (long, handle_line) refl
  large-served n d hang_up e open_yet large = absurd (cc)
  large-served n d waits e open_yet large = absurd (cc)

  close-over :
      (lease_id : Text) (uri : Option Text) (link : Link Control)
      → IsOver link.daemon.next
      → (close_document peer p lease_id uri link).daemon ≡ link.daemon
  unfolding close_document send_did_close
  close-over lease_id none link over = refl
  close-over lease_id (some uri) link over =
      let e = close_frame p lease_id uri in
      exchange-daemon peer p (close_id p) (codes "Notify (didClose)") type_notify_ok e link
      ∙ take-over link.daemon e over

  release-over :
      (lease_id : Text) (link : Link Control)
      → IsOver link.daemon.next
      → (release_lease peer p lease_id link).0.daemon ≡ link.daemon
  unfolding release_lease
  release-over lease_id link over =
      let e = release_frame p lease_id in
      exchange-daemon peer p (release_id p) (codes "Release") type_release_ok e link
      ∙ take-over link.daemon e over

  read-daemon :
      (id : Text) (link : Link Control) → (read_response_for_id id link).0.daemon ≡ link.daemon
  unfolding read_response_for_id
  read-daemon id link = refl

  write-ok : (e : ControlEnvelope Json) (link : Link Control) → (write_frame peer e link).1 ≡ ok tt
  unfolding write_frame
  write-ok e link = refl

  -- After the daemon has hung up, neither the call nor the release reach it.
  call_and_release-over :
      (lease_id : Text) (request : Json) (uri : Option Text) (link : Link Control)
      → IsOver link.daemon.next
      → (call_and_release peer p lease_id request uri link).0.daemon ≡ link.daemon
  call_and_release-over lease_id request uri link over =
      let call = call_frame p lease_id request in
      let l = (read_response_for_id (call_id p) (write_frame peer call link).0).0 in
      let here : l.daemon ≡ link.daemon =
        read-daemon (call_id p) (write_frame peer call link).0
        ∙ write_frame-daemon peer p call link
        ∙ take-over link.daemon call over in
      let l_over : IsOver l.daemon.next = subst (λ s. IsOver s.next) (sym here) over in
      let closed = close-over lease_id uri l l_over in
      ap (λ x. x.daemon)
        (call_and_release-daemon peer p lease_id request uri link (write-ok call link))
      ∙ release-over lease_id (close_document peer p lease_id uri l)
          (subst (λ s. IsOver s.next) (sym closed) l_over)
      ∙ closed
      ∙ here

  or_none-link : {A : Type 0} (x : Link Control × Result A Text) → (or_none x).0 ≡ x.0
  unfolding or_none
  or_none-link (l, ok a) = refl
  or_none-link (l, err e) = refl

  send_did_open-daemon :
      (files : Files) (lease_id file uri text : Text) (link : Link Control)
      → file_uri files file ≡ ok uri
      → files.read_to_string file ≡ ok text
      → (send_did_open peer p files lease_id file link).0.daemon
        ≡ (peer.take link.daemon
            (open_frame p lease_id uri (language_id_for_path files file) text)).0
  unfolding send_did_open
  send_did_open-daemon files lease_id file uri text link named reads =
      let frame = open_frame p lease_id uri (language_id_for_path files file) text in
      let x = exchange peer p (open_id p) (codes "Notify (didOpen)") type_notify_ok frame link in
      let there =
        exchange-daemon peer p (open_id p) (codes "Notify (didOpen)") type_notify_ok frame link in
      rw (named, send_did_open)
        (rw reads (
          and_then-link (λ l. l.daemon ≡ (peer.take link.daemon frame).0) x
            (λ payload l. (l, ok uri)) (λ m g. there) (λ payload g. there)))

  -- A run on a file whose didOpen is over 1 MiB, once it is attached, leaves the daemon as it is,
  -- with the lease: the daemon hangs up on that frame, and the release never reaches it.
  pub run_attached-large :
      (files : Files) (printer : Printer) (method : DoMethod) (lsp_id : Text) (request : Json)
      (meta : RequestMeta) (lease_id file uri text : Text) (link : Link Control)
      → file_path method ≡ some file
      → file_uri files file ≡ ok uri
      → files.read_to_string file ≡ ok text
      → link.daemon.next ≡ go_on
      → max_frame_size_bytes
        < byte_length (wire.text (open_frame p lease_id uri (language_id_for_path files file) text))
      → (run_attached peer p files printer method lsp_id (request, meta) lease_id link).0.daemon
        ≡ (record { taken = suc link.daemon.taken; daemon = link.daemon.daemon; next = hang_up })
  unfolding run_attached open_document
  run_attached-large files printer method lsp_id request meta lease_id file uri text link has named
        reads open_yet large =
      let frame = open_frame p lease_id uri (language_id_for_path files file) text in
      let x = open_document peer p files lease_id (file_path method) link in
      let opened : x.0.daemon ≡ (record {
        taken = suc link.daemon.taken;
        daemon = link.daemon.daemon;
        next = hang_up;
      }) =
        ap (λ f. (open_document peer p files lease_id f link).0.daemon) has
        ∙ ap (λ l. l.daemon) (or_none-link (send_did_open peer p files lease_id file link))
        ∙ send_did_open-daemon files lease_id file uri text link named reads
        ∙ large-served link.daemon.taken link.daemon.daemon link.daemon.next frame open_yet large in
      call_and_release-over lease_id request x.1 x.0 (subst (λ s. IsOver s.next) (sym opened) tt)
      ∙ opened
