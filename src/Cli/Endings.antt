-- ===== src/Cli/Endings.antt =====
-- The frames that one run of `lspee do` writes, whatever the daemon answers.
use lspee.Base.{
  ◌≡◌, ◌⊎◌, refl, sym, ap, ◌∙◌, Bool, true, Option, none, some, List, [], ◌∷◌, ◌++◌, append_assoc,
  append-nil, not, is_ok, err_ok, Result, ok, err, Result-cases, inl, inr,
}
use lspee.Base.Text.{Text, codes}
use lspee.Json.{Json}
use lspee.Protocol.{type_notify_ok, type_release_ok, ControlEnvelope}
use lspee.Config.Defs.{ResolvedConfig}
use lspee.Cli.Args.{DoMethod, DoCommand, RequestMeta, shared_args, file_path}
use lspee.Cli.Requests.{Files, file_uri, language_id_for_path, resolve_lsp_id, build_request}
use lspee.Cli.Responses.{Printer}
use lspee.Cli.Client.{Peer, Link, write_frame, read_response_for_id}
use lspee.Cli.Frames.{
  Process, open_id, call_id, close_id, release_id, open_frame, call_frame, close_frame,
  release_frame,
}
use lspee.Cli.Run.{
  and_then, or_none, exchange, attach_session, release_lease, send_did_open, send_did_close,
  open_document, close_document, call_and_release, run_attached, run_async,
}
use lspee.Cli.Lifecycle.{Session, and_then-link, bare, refused, opened}

module _ {S : Type 0} (peer : Peer S) (p : Process) where
  pub write_frame-written :
      (e : ControlEnvelope Json) (link : Link S)
      → (write_frame peer e link).0.written ≡ link.written ++ (e ∷ [])
  unfolding write_frame
  write_frame-written e link = elim (Result-cases (peer.take link.daemon e).1) [
    | inl (lines, f) ↦ rw (f, write_frame) refl
    | inr (m, f) ↦ rw (f, write_frame) refl
  ]

  pub exchange-written :
      (id what expected : Text) (e : ControlEnvelope Json) (link : Link S)
      → (exchange peer p id what expected e link).0.written ≡ link.written ++ (e ∷ [])
  unfolding exchange read_response_for_id
  exchange-written id what expected e link =
      and_then-link (λ l. l.written ≡ link.written ++ (e ∷ [])) (write_frame peer e link) _
        (λ m f. write_frame-written e link)
        (λ u f.
          and_then-link (λ l. l.written ≡ link.written ++ (e ∷ []))
            (read_response_for_id id (write_frame peer e link).0) _
            (λ m g. write_frame-written e link) (λ response g. write_frame-written e link))

  -- No write to the socket fails.
  abbrev pub Writable : Type 0
  Writable = (s : S) (e : ControlEnvelope Json) → is_ok (peer.take s e).1 ≡ true

  write_frame-ok :
      (e : ControlEnvelope Json) (link : Link S) → Writable → (write_frame peer e link).1 ≡ ok tt
  unfolding write_frame
  write_frame-ok e link w = elim (Result-cases (peer.take link.daemon e).1) [
    | inl (lines, f) ↦ rw (f, write_frame) refl
    | inr (m, f) ↦ let failed = w link.daemon e in absurd (cc)
  ]

  or_none-and_then :
      {A : Type 0} (x : Link S × Result A Text) (b : Text)
      → let y : Link S × Option Text = or_none (and_then x (λ a l. (l, ok b))) in
        (y.0 ≡ x.0) × ((y.1 ≡ none) ⊎ (y.1 ≡ some b))
  unfolding or_none and_then
  or_none-and_then (link, ok a) b = (refl, inr refl)
  or_none-and_then (link, err e) b = (refl, inl refl)

  -- What opening a document leaves: nothing written and no address, or one frame, and the address
  -- in it if the daemon accepts it.
  abbrev Opening : Text → Link S → Link S × Option Text → Type 0
  Opening lease_id link x =
      ((x.0.written ≡ link.written) × (x.1 ≡ none))
      ⊎ ((uri : Text) × (language : Text) × (text : Text) × (x.0.written
            ≡ link.written ++ (open_frame p lease_id uri language text ∷ []))
          × ((x.1 ≡ none) ⊎ (x.1 ≡ some uri)))

  open_document-Opening :
      (files : Files) (lease_id : Text) (file : Option Text) (link : Link S)
      → Opening lease_id link (open_document peer p files lease_id file link)
  unfolding open_document send_did_open or_none
  open_document-Opening files lease_id none link = inl (refl, refl)
  open_document-Opening files lease_id (some file) link =
      elim (Result-cases (file_uri files file)) [
        | inr (m, e) ↦ rw (e, send_did_open) (inl (refl, refl))
        | inl (uri, e) ↦ elim (Result-cases (files.read_to_string file)) [
          | inr (m, f) ↦ rw (e, send_did_open) (rw f (inl (refl, refl)))
          | inl (text, f) ↦
              let language = language_id_for_path files file in
              let frame = open_frame p lease_id uri language text in
              let x =
                exchange peer p (open_id p) (codes "Notify (didOpen)") type_notify_ok frame link in
              let (same, answer) = or_none-and_then x uri in
              rw (e, send_did_open)
                (rw f (
                  inr (
                    uri,
                    language,
                    text,
                    ap (λ l. l.written) same
                        ∙ exchange-written (open_id p) (codes "Notify (didOpen)") type_notify_ok
                            frame link,
                    answer,
                  )))
        ]
      ]

  release-written :
      (lease_id : Text) (link : Link S)
      → (release_lease peer p lease_id link).0.written
        ≡ link.written ++ (release_frame p lease_id ∷ [])
  unfolding release_lease
  release-written lease_id link =
      exchange-written (release_id p) (codes "Release") type_release_ok (release_frame p lease_id)
        link

  abbrev closing : Text → Option Text → List (ControlEnvelope Json)
  closing lease_id none = []
  closing lease_id (some uri) = close_frame p lease_id uri ∷ []

  close-written :
      (lease_id : Text) (uri : Option Text) (link : Link S)
      → (close_document peer p lease_id uri link).written ≡ link.written ++ closing lease_id uri
  unfolding close_document send_did_close
  close-written lease_id none link = sym (append-nil link.written)
  close-written lease_id (some uri) link =
      exchange-written (close_id p) (codes "Notify (didClose)") type_notify_ok
        (close_frame p lease_id uri) link

  call_and_release-written :
      (lease_id : Text) (request : Json) (uri : Option Text) (link : Link S)
      → Writable
      → (call_and_release peer p lease_id request uri link).0.written
        ≡ link.written
          ++ (call_frame p lease_id request ∷ [])
          ++ closing lease_id uri
          ++ (release_frame p lease_id ∷ [])
  unfolding call_and_release read_response_for_id
  call_and_release-written lease_id request uri link w =
      let call = call_frame p lease_id request in
      and_then-link
        (λ l.
          l.written
          ≡ link.written ++ (call ∷ []) ++ closing lease_id uri ++ (release_frame p lease_id ∷ []))
        (write_frame peer call link) _ (λ m f. absurd (err_ok (sym f ∙ write_frame-ok call link w)))
        (λ u f.
          let l = (read_response_for_id (call_id p) (write_frame peer call link).0).0 in
          release-written lease_id (close_document peer p lease_id uri l)
          ∙ ap (λ xs. xs ++ (release_frame p lease_id ∷ []))
              (close-written lease_id uri l
                ∙ ap (λ xs. xs ++ closing lease_id uri) (write_frame-written call link)))

  -- The frames that follow those of a connection are a session's.
  abbrev pub Serves : Text → Json → Link S → Link S → Type 0
  Serves lease_id request before after =
      (frames : List (ControlEnvelope Json)) × (after.written ≡ before.written ++ frames)
      × Session p lease_id request frames

  run-Serves :
      (lease_id : Text) (request : Json) (link : Link S) (x : Link S × Option Text)
      → Writable
      → Opening lease_id link x
      → Serves lease_id request link (call_and_release peer p lease_id request x.1 x.0).0
  run-Serves lease_id request link (l, uri) w (inl (e, u)) = (
    call_frame p lease_id request ∷ release_frame p lease_id ∷ [],
    call_and_release-written lease_id request uri l w ∙ rw (e, u) (simp (append_assoc, append-nil)),
    bare,
  )
  run-Serves lease_id request link (l, answer) w (inr (uri, language, text, e, inl u)) = (
    open_frame p lease_id uri language text
        ∷ call_frame p lease_id request
        ∷ release_frame p lease_id
        ∷ [],
    call_and_release-written lease_id request answer l w ∙ rw (e, u) (simp append_assoc),
    refused uri language text,
  )
  run-Serves lease_id request link (l, answer) w (inr (uri, language, text, e, inr u)) = (
    open_frame p lease_id uri language text
        ∷ call_frame p lease_id request
        ∷ close_frame p lease_id uri
        ∷ release_frame p lease_id
        ∷ [],
    call_and_release-written lease_id request answer l w ∙ rw (e, u) (simp append_assoc),
    opened uri language text,
  )

  -- Once a run has a lease, and no write fails, it writes the call, then the release of that lease
  -- as its last frame, whatever the daemon answers; around the call it opens and closes the document,
  -- which is closed only if it was opened.
  pub run_attached-Serves :
      (files : Files) (printer : Printer) (method : DoMethod) (lsp_id : Text) (request : Json)
      (meta : RequestMeta) (lease_id : Text) (link : Link S)
      → Writable
      → Serves lease_id request link
          (run_attached peer p files printer method lsp_id (request, meta) lease_id link).0
  unfolding run_attached
  run_attached-Serves files printer method lsp_id request meta lease_id link w =
      run-Serves lease_id request link (open_document peer p files lease_id (file_path method) link)
        w (open_document-Opening files lease_id (file_path method) link)

  -- What a run ends with: it never connected; or the attach failed, and it is the error; or it had
  -- a lease, and the frames after the attach are a session's.
  pub data Ending : Option (Link S) → Result Text Text → Type 0 where
    unconnected : (e : Text) → Ending none (err e)
    unattached :
        (root hash lsp_id : Text) (start after : Link S) (e : Text)
        → attach_session peer p root hash lsp_id start ≡ (after, err e)
        → Ending (some after) (err e)
    served :
        (root hash lsp_id lease_id : Text) (start before after : Link S) (out : Result Text Text)
        (request : Json)
        → attach_session peer p root hash lsp_id start ≡ (before, ok lease_id)
        → Serves lease_id request before after
        → Ending (some after) out

  finish-Ending :
      (files : Files) (printer : Printer) (method : DoMethod) (lsp_id root hash : Text)
      (built : Json × RequestMeta) (start : Link S) (x : Link S × Result Text Text)
      → Writable
      → attach_session peer p root hash lsp_id start ≡ x
      → let y = and_then x (run_attached peer p files printer method lsp_id built) in
        Ending (some y.0) y.1
  unfolding and_then
  finish-Ending files printer method lsp_id root hash (request, meta) start (l, ok lease_id) w e =
      served root hash lsp_id lease_id start l _ _ request e
        (run_attached-Serves files printer method lsp_id request meta lease_id l w)
  finish-Ending files printer method lsp_id root hash built start (l, err m) w e =
      unattached root hash lsp_id start l m e

  -- Every run, if no write fails, ends before it has connected with an error, or with the error of
  -- the attach, or with the frames of a session for the lease that it was given: the call and,
  -- last, the release, around the call the notifications that open and close the document, which
  -- is closed only if it was opened.
  pub run_async-Ending :
      {V : Type 0} (files : Files) (printer : Printer)
      (resolve : Option Text → Result (ResolvedConfig V) Text)
      (connect : Text → Bool → Result S Text) (cmd : DoCommand)
      → Writable
      → let x = run_async peer p files printer resolve connect cmd in Ending x.0 x.1
  unfolding run_async
  run_async-Ending files printer resolve connect cmd w =
      elim (Result-cases (resolve (shared_args cmd.method).root)) [
        | inr (m, e) ↦ rw (e, run_async) (unconnected m)
        | inl (resolved, e) ↦
            elim (Result-cases
              (resolve_lsp_id files (shared_args cmd.method).lsp (file_path cmd.method))) [
                | inr (m, f) ↦ rw (e, run_async) (rw f (unconnected m))
                | inl (lsp_id, f) ↦ elim (Result-cases (build_request files cmd.method)) [
                  | inr (m, g) ↦ rw (e, run_async) (rw f (rw g (unconnected m)))
                  | inl (built, g) ↦
                      elim (Result-cases (
                        connect resolved.project_root
                          (not (shared_args cmd.method).no_start_daemon))) [
                            | inr (m, h) ↦ rw (e, run_async) (rw f (rw g (rw h (unconnected m))))
                            | inl (daemon, h) ↦
                                rw (e, run_async)
                                  (rw f (
                                    rw g (
                                      rw h (
                                        finish-Ending files printer cmd.method lsp_id
                                          resolved.project_root resolved.config_hash built
                                          (record { daemon = daemon; unread = []; written = [] }) _
                                          w refl))))
                          ]
                ]
              ]
      ]
