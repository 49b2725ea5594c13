-- ===== src/Protocol.antt =====
-- crates/lspee_protocol/src/lib.rs: the messages of the control channel and their constants.
use lspee.Base.{ℕ, ◌≡◌, Bool, true, false, Option, List, arith, ◌↔◌}
use lspee.Base.Eq.{Eq}
use lspee.Base.Text.{Text, codes}
use lspee.Json.{Json}

abbrev pub protocol_version : ℕ
protocol_version = 1

abbrev pub max_frame_size_bytes : ℕ
max_frame_size_bytes = 1_048_576

abbrev pub type_attach : Text
type_attach = codes "Attach"

abbrev pub type_attach_ok : Text
type_attach_ok = codes "AttachOk"

abbrev pub type_release : Text
type_release = codes "Release"

abbrev pub type_release_ok : Text
type_release_ok = codes "ReleaseOk"

abbrev pub type_call : Text
type_call = codes "Call"

abbrev pub type_call_ok : Text
type_call_ok = codes "CallOk"

abbrev pub type_notify : Text
type_notify = codes "Notify"

abbrev pub type_notify_ok : Text
type_notify_ok = codes "NotifyOk"

abbrev pub type_stats : Text
type_stats = codes "Stats"

abbrev pub type_stats_ok : Text
type_stats_ok = codes "StatsOk"

abbrev pub type_shutdown : Text
type_shutdown = codes "Shutdown"

abbrev pub type_shutdown_ok : Text
type_shutdown_ok = codes "ShutdownOk"

abbrev pub type_error : Text
type_error = codes "Error"

abbrev pub error_unsupported_version : Text
error_unsupported_version = codes "E_UNSUPPORTED_VERSION"

abbrev pub error_bad_message : Text
error_bad_message = codes "E_BAD_MESSAGE"

abbrev pub error_frame_too_large : Text
error_frame_too_large = codes "E_FRAME_TOO_LARGE"

abbrev pub error_unknown_type : Text
error_unknown_type = codes "E_UNKNOWN_TYPE"

abbrev pub error_timeout : Text
error_timeout = codes "E_TIMEOUT"

abbrev pub error_internal : Text
error_internal = codes "E_INTERNAL"

abbrev pub error_invalid_session_key : Text
error_invalid_session_key = codes "E_INVALID_SESSION_KEY"

abbrev pub error_session_spawn_failed : Text
error_session_spawn_failed = codes "E_SESSION_SPAWN_FAILED"

abbrev pub error_session_restarting : Text
error_session_restarting = codes "E_SESSION_RESTARTING"

abbrev pub error_lease_not_found : Text
error_lease_not_found = codes "E_LEASE_NOT_FOUND"

abbrev pub error_session_evicted_memory : Text
error_session_evicted_memory = codes "E_SESSION_EVICTED_MEMORY"

pub data ClientKind : Type 0 where
  editor agent human ci other : ClientKind

pub ClientKind-discrete : Discrete ClientKind
ClientKind-discrete = hlevel

abbrev pub kind_beq : ClientKind → ClientKind → Bool
kind_beq a b = elim (ClientKind-discrete a b) [ yes _ ↦ true | no _ ↦ false ]

pub kind_beq_iff : (a b : ClientKind) → (kind_beq a b ≡ true) ↔ (a ≡ b)
kind_beq_iff a b = ground arith

instance abbrev pub kind_eq : Eq ClientKind
kind_eq = record { beq = kind_beq; beq_iff = kind_beq_iff }

pub data StreamMode : Type 0 where
  dedicated mux_control : StreamMode

pub record AttachCapabilities : Type 0 where
  pub stream_mode : List StreamMode

pub record SessionKeyWire : Type 0 where
  pub project_root : Text
  pub config_hash : Text
  pub lsp_id : Text

pub record ClientMeta : Type 0 where
  pub client_name : Text
  pub client_version : Text
  pub client_kind : Option ClientKind
  pub pid : Option ℕ
  pub cwd : Option Text

pub record Attach : Type 0 where
  pub session_key : SessionKeyWire
  pub client_meta : ClientMeta
  pub capabilities : Option AttachCapabilities

pub record StreamInfo : Type 0 where
  pub mode : StreamMode
  pub endpoint : Option Text

pub record ServerInfo : Type 0 where
  pub state : Text
  pub reused : Bool

pub record AttachOk : Type 0 where
  pub lease_id : Text
  pub session_id : Option Text
  pub stream : StreamInfo
  pub server : Option ServerInfo
  pub initialize_result : Option Json

pub data ReleaseReason : Type 0 where
  client_exit client_disconnect shutdown error : ReleaseReason

pub record Release : Type 0 where
  pub lease_id : Text
  pub reason : Option ReleaseReason

pub record ReleaseOk : Type 0 where
  pub lease_id : Text
  pub ref_count : ℕ

pub record Call : Type 0 where
  pub lease_id : Text
  pub request : Json

pub record CallOk : Type 0 where
  pub lease_id : Text
  pub response : Json

pub record Notify : Type 0 where
  pub lease_id : Text
  pub message : Json

pub record NotifyOk : Type 0 where
  pub lease_id : Text

pub record ShutdownOk : Type 0 where
  pub accepted : Bool

pub record StatsCounters : Type 0 where
  pub sessions_spawned_total : ℕ
  pub sessions_reused_total : ℕ
  pub sessions_gc_idle_total : ℕ
  pub sessions_evicted_memory_total : ℕ
  pub session_crashes_total : ℕ
  pub attach_requests_total : ℕ

pub record MemoryStats : Type 0 where
  pub total_bytes : ℕ
  pub max_total_bytes : Option ℕ
  pub max_session_bytes : Option ℕ

pub record StatsOk : Type 0 where
  pub sessions : ℕ
  pub leases : ℕ
  pub uptime_ms : ℕ
  pub counters : StatsCounters
  pub memory : MemoryStats

pub record ErrorResponse : Type 0 where
  pub code : Text
  pub message : Text
  pub retryable : Bool
  pub details : Option Json

-- The payloads of the answers. The daemon builds these values and serialises them.
pub data ControlPayload : Type 0 where
  attach_ok : AttachOk → ControlPayload
  release_ok : ReleaseOk → ControlPayload
  call_ok : CallOk → ControlPayload
  notify_ok : NotifyOk → ControlPayload
  shutdown_ok : ShutdownOk → ControlPayload
  stats_ok : StatsOk → ControlPayload
  error : ErrorResponse → ControlPayload

pub record ControlEnvelope (T : Type 0) : Type 0 where
  pub v : ℕ
  pub id : Option Text
  pub message_type : Text
  pub payload : T

pub data StreamFrameType : Type 0 where
  lsp_in lsp_out stream_error : StreamFrameType

pub record StreamFrame (T : Type 0) : Type 0 where
  pub v : ℕ
  pub frame_type : StreamFrameType
  pub lease_id : Text
  pub seq : ℕ
  pub payload : T

pub record StreamErrorPayload : Type 0 where
  pub code : Text
  pub message : Text
  pub retryable : Bool
  pub details : Option Json
