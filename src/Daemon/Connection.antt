-- ===== src/Daemon/Connection.antt =====
-- `handle_control_connection` over the lines that a client sends, and `shutdown_all_sessions`.
use lspee.Base.{
  ℕ, ◌%◌, ◌^◌, Bool, false, not, Option, none, some, List, [], ◌∷◌, ◌++◌, if◌then◌else◌, ltb,
  nat_beq,
}
use lspee.Base.Text.{Text, codes, byte_length}
use lspee.Json.{Json, get, as_str, as_u64}
use lspee.Protocol.{
  protocol_version, max_frame_size_bytes, error_unsupported_version, error_bad_message,
  error_frame_too_large, ControlPayload, ControlEnvelope,
}
use lspee.Registry.State.{SessionHandle, SessionRegistry}
use lspee.Registry.Ops.{all_handles, remove}
use lspee.Stopping.{Effect, stop_runtime}
use lspee.Daemon.Defs.{Outside, Daemon, DispatchOutcome, error_envelope}
use lspee.Daemon.Requests.{dispatch_control_request}

-- What becomes of the connection after a line.
pub data Next : Type 0 where
  go_on hang_up waits : Next

pub record Handled : Type 0 where
  pub daemon : Daemon
  pub responses : List (ControlEnvelope ControlPayload)
  pub next : Next

abbrev reject : Daemon → Option Text → Text → Text → Next → Handled
reject d id code message next = record {
  daemon = d;
  responses = error_envelope id code message false none ∷ [];
  next = next;
}

-- `raw.get("id").and_then(Value::as_str)`
abbrev pub id_of : Json → Option Text
id_of raw = elim (get (codes "id") raw) [ none ↦ none | some j ↦ as_str j ]

-- `raw.get("v").and_then(Value::as_u64).map(|v| v as u32) == Some(PROTOCOL_VERSION)`
abbrev pub version_matches : Json → Bool
version_matches raw = elim (get (codes "v") raw) [
  | none ↦ false
  | some j ↦ elim (as_u64 j) [ none ↦ false | some n ↦ nat_beq (n % 2 ^ 32) protocol_version ]
]

abbrev pub settle : Daemon × Option DispatchOutcome → Handled
settle (d, none) = record { daemon = d; responses = []; next = waits }
settle (d, some outcome) = record {
  daemon = d;
  responses = outcome.response ∷ [];
  next = if outcome.shutdown_requested then hang_up else go_on;
}

module _ (o : Outside) where
  unfoldable pub handle_json : Json → Daemon → Handled
  unfolding dispatch_control_request
  handle_json raw d =
      if not (version_matches raw)
      then reject d (id_of raw) error_unsupported_version (codes "Unsupported protocol version")
          hang_up
      else elim (o.envelope raw) [
        | none ↦ reject d none error_bad_message (codes "Malformed control envelope") go_on
        | some req ↦ settle (dispatch_control_request o req d)
      ]

  unfoldable pub handle_line : Text → Daemon → Handled
  unfolding handle_json byte_length
  handle_line line d =
      if ltb max_frame_size_bytes (byte_length line)
      then reject d none error_frame_too_large (codes "Control frame exceeds 1 MiB maximum") hang_up
      else elim (o.from_str line) [
        | none ↦ reject d none error_bad_message (codes "Invalid JSON frame") go_on
        | some raw ↦ handle_json raw d
      ]

abbrev pub after : (Daemon → Handled) → Handled → Handled
after rest h = elim h.next [
  | go_on ↦ let t = rest h.daemon in record t { responses = h.responses ++ t.responses }
  | hang_up ↦ h
  | waits ↦ h
]

-- The loop, with the world of each line; it ends with the input or by `break`.
unfoldable pub handle_control_connection : List (Outside × Text) → Daemon → Handled
unfolding handle_line
handle_control_connection [] d = record { daemon = d; responses = []; next = go_on }
handle_control_connection ((o, line) ∷ lines) d =
    after (handle_control_connection lines) (handle_line o line d)

-- `for handle in handles { … registry.remove(&handle.key).await; }`
unfoldable pub shutdown_each :
    (ℕ → Bool) → List SessionHandle → SessionRegistry → SessionRegistry × List Effect
unfolding stop_runtime
shutdown_each fails [] r = (r, [])
shutdown_each fails (h ∷ hs) r =
    let (r', more) = shutdown_each fails hs (remove h.key r) in
    (r', stop_runtime fails h.runtime ++ more)

unfoldable pub shutdown_all_sessions : (ℕ → Bool) → SessionRegistry → SessionRegistry × List Effect
unfolding shutdown_each all_handles
shutdown_all_sessions fails r = shutdown_each fails (all_handles r) r
