-- ===== src/Daemon/Defs.antt =====
-- The handlers of attach and release of lib.rs. What the handlers ask of other crates is the record
-- `Outside`; a handler that waits for another call's spawn has not answered yet.
use lspee.Base.{ℕ, ◌*◌, ◌%◌, ◌^◌, Bool, true, false, Option, none, some, ◌++◌, Result, ok, err}
use lspee.Base.Eq.{text_eq}
use lspee.Base.Text.{Text, codes}
use lspee.Json.{Json}
use lspee.Protocol.{
  protocol_version, type_attach_ok, type_release_ok, type_error, error_bad_message, error_internal,
  error_invalid_session_key, error_session_spawn_failed, error_lease_not_found, StreamMode,
  dedicated, mux_control, Attach, SessionKeyWire, Release, Call, Notify, StreamInfo, ControlPayload,
  attach_ok, release_ok, error, ControlEnvelope,
}
use lspee.Registry.State.{SessionKey, SessionHandle, SessionRegistry, Lease}
use lspee.Registry.Ops.{session_handle, release_by_lease_id}
use lspee.Registry.Acquire.{Phase, returned, acquire_or_spawn}
use lspee.Memory.{MemoryBudgetSettings}
use lspee.Daemon.Keys.{validate_session_key, preferred_stream_mode}

-- `mb * 1024 * 1024` on a `u64`, wrapping around as in a release build.
abbrev pub mb_to_bytes : Option ℕ → Option ℕ
mb_to_bytes none = none
mb_to_bytes (some mb) = some (mb * 1024 * 1024 % 2 ^ 64)

unfoldable pub memory_settings : Option ℕ → Option ℕ → ℕ → MemoryBudgetSettings
memory_settings max_session_mb max_total_mb check_interval_ms = record {
  max_session_bytes = mb_to_bytes max_session_mb;
  max_total_bytes = mb_to_bytes max_total_mb;
  check_interval = check_interval_ms * 10 ^ 6;
}

-- The decoders that serde derives, what the spawn of a server and of a stream endpoint answer, the
-- answers of a runtime, and the times that a handler reads.
pub record Outside : Type 0 where
  pub from_str : Text → Option Json
  pub envelope : Json → Option (ControlEnvelope Json)
  pub attach : Json → Option Attach
  pub release : Json → Option Release
  pub call : Json → Option Call
  pub notify : Json → Option Notify
  pub shutdown : Json → Bool
  pub spawn : SessionKey → Result SessionHandle Text
  pub open_stream : Text → Text → SessionHandle → Result Text Text
  pub call_runtime : ℕ → Json → Result Json Text
  pub send_runtime : ℕ → Json → Result (Unit {0}) Text
  pub rss : ℕ → Result (Option ℕ) Text
  pub now : ℕ
  pub later : ℕ
  pub uptime_ms : ℕ

pub record Daemon : Type 0 where
  pub registry : SessionRegistry
  pub settings : MemoryBudgetSettings
  pub shutdown_signal : Bool

pub record DispatchOutcome : Type 0 where
  pub response : ControlEnvelope ControlPayload
  pub shutdown_requested : Bool

abbrev pub ok_envelope : Option Text → Text → ControlPayload → ControlEnvelope ControlPayload
ok_envelope id message_type payload = record {
  v = protocol_version;
  id = id;
  message_type = message_type;
  payload = payload;
}

abbrev pub error_envelope :
    Option Text → Text → Text → Bool → Option Json → ControlEnvelope ControlPayload
error_envelope id code message retryable details = record {
  v = protocol_version;
  id = id;
  message_type = type_error;
  payload =
      error (record { code = code; message = message; retryable = retryable; details = details });
}

abbrev pub answer : ControlEnvelope ControlPayload → DispatchOutcome
answer response = record { response = response; shutdown_requested = false }

abbrev pub refuse : Option Text → Text → Text → Bool → DispatchOutcome
refuse id code message retryable = answer (error_envelope id code message retryable none)

abbrev pub key_of : SessionKeyWire → SessionKey
key_of k = record { root = k.project_root; lsp_id = k.lsp_id; config_hash = k.config_hash }

-- The body of `AttachOk`. The daemon says `reused: true` of every session.
abbrev pub attached : Option Text → Lease → SessionHandle → StreamInfo → DispatchOutcome
attached id lease handle stream = answer (
    ok_envelope id type_attach_ok (
      attach_ok (record {
        lease_id = lease.id;
        session_id = none;
        stream = stream;
        server = some (record { state = codes "Ready"; reused = true });
        initialize_result = some handle.initialize_result;
      })))

module _ (o : Outside) where
  -- The stream of an attached session: on an error the lease is given back.
  unfoldable pub attach_stream :
      Option Text
      → SessionKey
      → StreamMode
      → Lease
      → SessionHandle
      → SessionRegistry
      → SessionRegistry × DispatchOutcome
  attach_stream id key mux_control lease handle r =
      (r, attached id lease handle (record { mode = mux_control; endpoint = none }))
  attach_stream id key dedicated lease handle r = elim (o.open_stream key.root lease.id handle) [
    | ok endpoint ↦ (
      r,
      attached id lease handle
          (record { mode = dedicated; endpoint = some (codes "unix://" ++ endpoint) }),
    )
    | err e ↦ (
      (release_by_lease_id o.later lease.id r).0,
      refuse id error_internal (codes "failed to create dedicated stream endpoint: " ++ e) true,
    )
  ]

  -- What becomes of the answer of `acquire_or_spawn`.
  unfoldable pub finish_attach :
      Option Text
      → SessionKey
      → StreamMode
      → SessionRegistry × Phase
      → SessionRegistry × Option DispatchOutcome
  unfolding attach_stream session_handle
  finish_attach id key mode (r, returned (ok lease)) = elim (session_handle r key) [
    | none ↦ (r, some (refuse id error_internal (codes "session handle missing after attach") true))
    | some handle ↦
        let (r', outcome) = attach_stream id key mode lease handle r in (r', some outcome)
  ]
  finish_attach id key mode (r, returned (err e)) =
      (r, some (refuse id error_session_spawn_failed e true))
  finish_attach id key mode (r, _) = (r, none)

  unfoldable pub attach_with :
      Option Text → Attach → SessionRegistry → SessionRegistry × Option DispatchOutcome
  unfolding validate_session_key preferred_stream_mode finish_attach acquire_or_spawn
  attach_with id a r = elim (validate_session_key a.session_key) [
    | err message ↦ (r, some (refuse id error_invalid_session_key message false))
    | ok _ ↦
        let key = key_of a.session_key in
        finish_attach id key (preferred_stream_mode a.capabilities) (
          acquire_or_spawn (record { key = key; client_kind = a.client_meta.client_kind })
            (record { now = o.now; outcome = o.spawn key }) r)
  ]

  unfoldable pub dispatch_attach :
      Option Text → Json → SessionRegistry → SessionRegistry × Option DispatchOutcome
  unfolding attach_with
  dispatch_attach id payload r = elim (o.attach payload) [
    | none ↦ (r, some (refuse id error_bad_message (codes "Invalid Attach payload") false))
    | some a ↦ attach_with id a r
  ]

  unfoldable pub release_with :
      Option Text → Release → SessionRegistry → SessionRegistry × DispatchOutcome
  unfolding release_by_lease_id
  release_with id p r =
      let (r', left) = release_by_lease_id o.now p.lease_id r in
      (
        r',
        elim left [
          | none ↦ refuse id error_lease_not_found (codes "Lease not found") false
          | some n ↦ answer (
              ok_envelope id type_release_ok
                (release_ok (record { lease_id = p.lease_id; ref_count = n })))
        ],
      )

  unfoldable pub dispatch_release :
      Option Text → Json → SessionRegistry → SessionRegistry × DispatchOutcome
  unfolding release_with
  dispatch_release id payload r = elim (o.release payload) [
    | none ↦ (r, refuse id error_bad_message (codes "Invalid Release payload") false)
    | some p ↦ release_with id p r
  ]
