-- ===== src/Cli/Client.antt =====
-- client.rs: the connection to the daemon's control socket. The daemon's end is a parameter
-- (`Peer`): what it does with a frame, and the lines that it then writes; when no line is left to
-- read, the socket is closed.
use lspee.Base.{
  ℕ, zero, suc, Bool, true, false, Option, none, some, List, [], ◌∷◌, ◌++◌, if◌then◌else◌, not,
  unwrap_or, Result, ok, err,
}
use lspee.Base.Eq.{◌==◌, text_eq}
use lspee.Base.Text.{Text, codes}
use lspee.Base.Decimal.{to_string}
use lspee.Json.{Json, get, as_str}
use lspee.Protocol.{ControlEnvelope, type_error}

abbrev pub daemon_connect_attempts : ℕ
daemon_connect_attempts = 40

abbrev pub daemon_connect_backoff_ms : ℕ
daemon_connect_backoff_ms = 100

pub data ErrorKind : Type 0 where
  not_found connection_refused connection_reset other_kind : ErrorKind

pub record IoError : Type 0 where
  pub kind : ErrorKind
  pub message : Text

-- The kinds of error after which a daemon is started.
abbrev pub starts_daemon : ErrorKind → Bool
starts_daemon not_found = true
starts_daemon connection_refused = true
starts_daemon connection_reset = true
starts_daemon other_kind = false

unfoldable pub daemon_socket_path : (Text → Text → Text) → Text → Text
daemon_socket_path join project_root =
    join (join project_root (codes ".lspee")) (codes "daemon.sock")

-- The process that `spawn_daemon` starts: its program, arguments and variables.
pub record DaemonProcess : Type 0 where
  pub program : Text
  pub args : List Text
  pub envs : List (Text × Text)

abbrev pub forwarded : Text → Option Text → List (Text × Text)
forwarded name none = []
forwarded name (some v) = (name, v) ∷ []

unfoldable pub daemon_process :
    (Text → Text → Text) → (Text → Option Text) → Text → Text → DaemonProcess
daemon_process join var current_exe project_root = record {
  program = current_exe;
  args =
      codes "serve"
      ∷ codes "--project-root"
      ∷ project_root
      ∷ codes "--log-file"
      ∷ join (join project_root (codes ".lspee")) (codes "daemon.log")
      ∷ [];
  envs =
      forwarded (codes "LSPEE_LOG") (var (codes "LSPEE_LOG"))
      ++ forwarded (codes "LSPEE_LOG_FORMAT") (var (codes "LSPEE_LOG_FORMAT"));
}

-- `current_exe` and `spawn` are what the system answers; an error of theirs keeps its context.
unfoldable pub spawn_daemon :
    (Text → Text → Text)
    → (Text → Option Text)
    → Result Text Text
    → (DaemonProcess → Result (Unit {0}) Text)
    → Text
    → Result (Unit {0}) Text
unfolding daemon_process
spawn_daemon join var current_exe spawn project_root = elim current_exe [
  | err e ↦ err (codes "failed to resolve current executable")
  | ok exe ↦ elim (spawn (daemon_process join var exe project_root)) [
    | err e ↦ err (codes "failed to spawn background daemon process")
    | ok u ↦ ok tt
  ]
]

module _ {S : Type 0} (attempt : ℕ → Result S IoError) where
  -- The loop over the attempts that are left; the number of the next attempt comes second. After a
  -- failed attempt the source sleeps.
  unfoldable pub retry : ℕ → ℕ → Option S
  retry zero i = none
  retry (suc n) i =
      let rest = retry n (suc i) in elim (attempt i) [ ok stream ↦ some stream | err e ↦ rest ]

  -- `attempt i` is what the i-th connect answers, `started` what `spawn_daemon` does.
  unfoldable pub connect : Result (Unit {0}) Text → Text → Bool → Result S Text
  unfolding retry
  connect started socket_path auto_start =
      let gone : Text → Result S Text =
        λ m. err (codes "failed to connect to daemon socket " ++ socket_path ++ m) in
      elim (attempt 0) [
        | ok stream ↦ ok stream
        | err e ↦
            if not auto_start
            then gone (codes ": " ++ e.message)
            else if not (starts_daemon e.kind)
            then gone (codes ": " ++ e.message)
            else elim started [
              | err m ↦ err m
              | ok u ↦ elim (retry daemon_connect_attempts 1) [
                | some stream ↦ ok stream
                | none ↦ gone (codes " after auto-start")
              ]
            ]
      ]

-- `now` is the time since the epoch, if the clock is not before it.
unfoldable pub new_request_id : Text → Option ℕ → Text
unfolding to_string
new_request_id prefix now = prefix ++ codes "-" ++ to_string (unwrap_or now 0)

-- What a line of the daemon reads as: an envelope, a text that is none, or an error of the socket.
pub data Line : Type 0 where
  frame : ControlEnvelope Json → Line
  bad_json : Text → Line
  broken : Text → Line

pub record Peer (S : Type 0) : Type 0 where
  pub take : S → ControlEnvelope Json → S × Result (List Line) Text

-- A connection: the daemon's state, the lines that are not read yet, and the frames written.
pub record Link (S : Type 0) : Type 0 where
  pub daemon : S
  pub unread : List Line
  pub written : List (ControlEnvelope Json)

abbrev pub has_id : Text → ControlEnvelope Json → Bool
has_id expected response = elim response.id [ none ↦ false | some id ↦ id == expected ]

-- The loop over the lines, and those that it leaves.
unfoldable pub next_response : Text → List Line → List Line × Result (ControlEnvelope Json) Text
next_response expected [] =
    ([], err (codes "daemon socket closed before response for id=" ++ expected))
next_response expected (broken e ∷ ls) = (ls, err e)
next_response expected (bad_json e ∷ ls) = (ls, err (codes "invalid daemon response JSON: " ++ e))
next_response expected (frame response ∷ ls) =
    let rest = next_response expected ls in
    if has_id expected response then (ls, ok response) else rest

module _ {S : Type 0} where
  unfoldable pub write_frame :
      Peer S → ControlEnvelope Json → Link S → Link S × Result (Unit {0}) Text
  write_frame peer envelope link =
      let (s, answer) = peer.take link.daemon envelope in
      let written = link.written ++ (envelope ∷ []) in
      elim answer [
        | err e ↦ (record link { daemon = s; written = written }, err e)
        | ok lines ↦
            (record { daemon = s; unread = link.unread ++ lines; written = written }, ok tt)
      ]

  unfoldable pub read_response_for_id : Text → Link S → Link S × Result (ControlEnvelope Json) Text
  unfolding next_response
  read_response_for_id expected link =
      let (ls, answer) = next_response expected link.unread in (record link { unread = ls }, answer)

unfoldable pub render_error_payload : Json → Text
unfolding get
render_error_payload payload =
    let text_at : Text → Text → Text = λ key default. elim (get key payload) [
      | none ↦ default
      | some j ↦ unwrap_or (as_str j) default
    ] in
    codes "daemon error "
    ++ text_at (codes "code") (codes "E_UNKNOWN")
    ++ codes ": "
    ++ text_at (codes "message") (codes "Unknown daemon error")

unfoldable pub ensure_not_error : ControlEnvelope Json → Result (Unit {0}) Text
unfolding render_error_payload
ensure_not_error response =
    if response.message_type == type_error
    then err (render_error_payload response.payload)
    else ok tt
