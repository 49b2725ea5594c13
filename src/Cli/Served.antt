-- ===== src/Cli/Served.antt =====
-- crates/lspee_daemon/src/lib.rs as the other end of a connection of `lspee do`: the loop over the
-- lines, a frame at a time.
use lspee.Base.{
  ℕ, suc, ◌≡◌, refl, sym, ◌∙◌, true, false, Option, none, some, List, [], ◌∷◌, map, ok, ltb,
  Result-cases, Bool-cases, inl, inr, err_ok,
}
use lspee.Base.Eq.{text_eq}
use lspee.Base.Text.{Text, codes, byte_length}
use lspee.Base.Map.{Map}
use lspee.Json
use lspee.Json.{Json, string}
use lspee.Protocol.{
  protocol_version, max_frame_size_bytes, error_frame_too_large, ControlEnvelope, ControlPayload,
  attach_ok, AttachOk, Attach, Release,
}
use lspee.Registry.State.{LeaseRecord}
use lspee.Daemon.Defs.{Outside, Daemon, DispatchOutcome, error_envelope}
use lspee.Daemon.Requests.{dispatch_control_request}
use lspee.Daemon.Connection.{
  Next, go_on, hang_up, waits, settle, version_matches, handle_json, handle_line,
}
use lspee.Cli.Client.{Peer, Line, frame, Link, write_frame, read_response_for_id}
use lspee.Cli.Frames.{Process, call_id, call_frame}
use lspee.Cli.Run.{exchange, release_lease, close_document, call_and_release}
use lspee.Cli.Lifecycle.{and_then-link}

-- The line of an answer.
abbrev pub line_of : (ControlPayload → Json) → ControlEnvelope ControlPayload → Line
line_of value x =
    frame (record { v = x.v; id = x.id; message_type = x.message_type; payload = value x.payload })

-- A handler that still waits has written none.
abbrev pub replies : (ControlPayload → Json) → Option DispatchOutcome → List Line
replies value none = []
replies value (some x) = line_of value x.response ∷ []

-- The daemon's end of a connection: how many lines it has read, the daemon, and whether it goes on.
pub record Control : Type 0 where
  pub taken : ℕ
  pub daemon : Daemon
  pub next : Next

-- What serde makes of a value: the text of a frame and the value that this text reads as, and the
-- value of an answer.
pub record Wire : Type 0 where
  pub text : ControlEnvelope Json → Text
  pub raw : ControlEnvelope Json → Json
  pub value : ControlPayload → Json

-- The world of the n-th line, in which the line reads as the frame's value.
abbrev pub reading : (ℕ → Outside) → Wire → ℕ → ControlEnvelope Json → Outside
reading o wire n e = record (o n) { from_str = λ s. some (wire.raw e) }

-- A frame meets `handle_line` as long as the connection goes on; one that is written after that is
-- lost.
unfoldable pub serve : (ℕ → Outside) → Wire → Control → ControlEnvelope Json → Control × List Line
unfolding handle_line
serve o wire s e = elim s.next [
  | go_on ↦
      let h = handle_line (reading o wire s.taken e) (wire.text e) s.daemon in
      (
        record { taken = suc s.taken; daemon = h.daemon; next = h.next },
        map (line_of wire.value) h.responses,
      )
  | hang_up ↦ (s, [])
  | waits ↦ (s, [])
]

-- The daemon as a peer: the loop of `handle_control_connection`, line by line.
abbrev pub connection : (ℕ → Outside) → Wire → Peer Control
connection o wire = record { take = λ s e. let (s', lines) = serve o wire s e in (s', ok lines) }

-- What serde's derived code is relied on for: a frame of this version and a request are read as
-- they were written, and the answer to an attach has the lease's id as a text.
pub record Agrees (o : ℕ → Outside) (wire : Wire) (p : Process) : Type 0 where
  pub version_read :
      (e : ControlEnvelope Json) → e.v ≡ protocol_version → version_matches (wire.raw e) ≡ true
  pub envelope_read : (n : ℕ) (e : ControlEnvelope Json) → (o n).envelope (wire.raw e) ≡ some e
  pub attach_read : (n : ℕ) (a : Attach) → (o n).attach (p.attach_value a) ≡ some a
  pub release_read : (n : ℕ) (x : Release) → (o n).release (p.release_value x) ≡ some x
  pub lease_shown :
      (a : AttachOk)
      → lspee.Json.get (codes "lease_id") (wire.value (attach_ok a)) ≡ some (string a.lease_id)

abbrev pub leases_of : Control → Map Text LeaseRecord
leases_of s = s.daemon.registry.leases

-- The connection no longer goes on.
abbrev pub IsOver : Next → Type 0
IsOver go_on = ⊥
IsOver _ = Unit

-- What becomes of a frame: it is lost, it is too long, or it is dispatched.
pub data Taken (o : ℕ → Outside) (wire : Wire) (s : Control) (e : ControlEnvelope Json)
    : Control × List Line → Type 0 where
  lost : IsOver s.next → Taken o wire s e (s, [])
  refused_line : Taken o wire s e (
    record { taken = suc s.taken; daemon = s.daemon; next = hang_up },
    line_of wire.value (
          error_envelope none error_frame_too_large
            (codes "Control frame exceeds 1 MiB maximum")
            false
            none)
        ∷ [],
  )
  dispatched :
      (d : Daemon) (x : Option DispatchOutcome) (n : Next)
      → dispatch_control_request (reading o wire s.taken e) e s.daemon ≡ (d, x)
      → Taken o wire s e
          (record { taken = suc s.taken; daemon = d; next = n }, replies wire.value x)

settle-Taken :
    (o : ℕ → Outside) (wire : Wire) (s : Control) (e : ControlEnvelope Json)
    (x : Daemon × Option DispatchOutcome)
    → dispatch_control_request (reading o wire s.taken e) e s.daemon ≡ x
    → let h = settle x in
      Taken o wire s e (
        record { taken = suc s.taken; daemon = h.daemon; next = h.next },
        map (line_of wire.value) h.responses,
      )
settle-Taken o wire s e (d, none) same = dispatched d none waits same
settle-Taken o wire s e (d, some x) same = dispatched d (some x) (settle (d, some x)).next same

served-Taken :
    (o : ℕ → Outside) (wire : Wire) (p : Process)
    → Agrees o wire p
    → (n : ℕ) (d : Daemon) (x : Next) (e : ControlEnvelope Json) → e.v ≡ protocol_version
    → let s : Control = record { taken = n; daemon = d; next = x } in
      Taken o wire s e (serve o wire s e)
unfolding serve handle_line handle_json
served-Taken o wire p agrees n d hang_up e v = lost tt
served-Taken o wire p agrees n d waits e v = lost tt
served-Taken o wire p agrees n d go_on e v =
    let s : Control = record { taken = n; daemon = d; next = go_on } in
    elim (Bool-cases (ltb max_frame_size_bytes (byte_length (wire.text e)))) [
      | inl long ↦ rw (long, handle_line) refused_line
      | inr short ↦
          rw (short, handle_line)
            (rw (agrees.version_read e v, handle_json)
              (rw (agrees.envelope_read n e) (settle-Taken o wire s e _ refl)))
    ]

pub serve-Taken :
    (o : ℕ → Outside) (wire : Wire) (p : Process)
    → Agrees o wire p
    → (s : Control) (e : ControlEnvelope Json) → e.v ≡ protocol_version
    → Taken o wire s e (serve o wire s e)
serve-Taken o wire p agrees s e v = served-Taken o wire p agrees s.taken s.daemon s.next e v

module _ {S : Type 0} (peer : Peer S) (p : Process) where
  pub write_frame-daemon :
      (e : ControlEnvelope Json) (link : Link S)
      → (write_frame peer e link).0.daemon ≡ (peer.take link.daemon e).0
  unfolding write_frame
  write_frame-daemon e link = elim (Result-cases (peer.take link.daemon e).1) [
    | inl (lines, f) ↦ rw (f, write_frame) refl
    | inr (m, f) ↦ rw (f, write_frame) refl
  ]

  -- An exchange moves the daemon by one request, whatever is read.
  pub exchange-daemon :
      (id what expected : Text) (e : ControlEnvelope Json) (link : Link S)
      → (exchange peer p id what expected e link).0.daemon ≡ (peer.take link.daemon e).0
  unfolding exchange read_response_for_id
  exchange-daemon id what expected e link =
      and_then-link (λ l. l.daemon ≡ (peer.take link.daemon e).0) (write_frame peer e link) _
        (λ m f. write_frame-daemon e link)
        (λ u f.
          and_then-link (λ l. l.daemon ≡ (peer.take link.daemon e).0)
            (read_response_for_id id (write_frame peer e link).0) _
            (λ m g. write_frame-daemon e link) (λ response g. write_frame-daemon e link))

  -- The daemon after the last frames: that of the release, behind the call and the close.
  pub call_and_release-daemon :
      (lease_id : Text) (request : Json) (uri : Option Text) (link : Link S)
      → let call = call_frame p lease_id request in
        (write_frame peer call link).1 ≡ ok tt
        → let l = (read_response_for_id (call_id p) (write_frame peer call link).0).0 in
          (call_and_release peer p lease_id request uri link).0
          ≡ (release_lease peer p lease_id (close_document peer p lease_id uri l)).0
  unfolding call_and_release read_response_for_id
  call_and_release-daemon lease_id request uri link w =
      let call = call_frame p lease_id request in
      let l = (read_response_for_id (call_id p) (write_frame peer call link).0).0 in
      and_then-link
        (λ x. x ≡ (release_lease peer p lease_id (close_document peer p lease_id uri l)).0)
        (write_frame peer call link) _ (λ m f. absurd (err_ok (sym f ∙ w))) (λ u f. refl)
