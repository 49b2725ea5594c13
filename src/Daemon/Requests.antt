-- ===== src/Daemon/Requests.antt =====
-- The handlers of calls, notifications, statistics and the shutdown, and the dispatcher of lib.rs.
use lspee.Base.{true, false, ◌||◌, Option, none, some, if◌then◌else◌, length, Result, ok, err}
use lspee.Base.Eq.{◌==◌, text_eq}
use lspee.Base.Text.{Text, codes, contains_text}
use lspee.Json.{Json}
use lspee.Protocol.{
  type_attach, type_release, type_call, type_call_ok, type_notify, type_notify_ok, type_stats,
  type_stats_ok, type_shutdown, type_shutdown_ok, error_bad_message, error_unknown_type,
  error_timeout, error_internal, error_session_restarting, error_lease_not_found,
  error_session_evicted_memory, call_ok, notify_ok, shutdown_ok, stats_ok, ControlEnvelope,
}
use lspee.Registry.State.{SessionRegistry}
use lspee.Registry.Ops.{call_by_lease_id, notify_by_lease_id}
use lspee.Registry.Snapshots.{snapshot}
use lspee.Memory.{total_memory_bytes}
use lspee.Daemon.Defs.{
  Outside, Daemon, DispatchOutcome, ok_envelope, answer, refuse, dispatch_attach, dispatch_release,
}

-- The code of an error of a call, from its message.
unfoldable pub call_error_code : Text → Text
unfolding contains_text
call_error_code message =
    if contains_text message error_session_evicted_memory
    then error_session_evicted_memory
    else if contains_text message (codes "terminating")
    then error_session_restarting
    else if contains_text message (codes "timeout") || contains_text message (codes "timed out")
    then error_timeout
    else error_internal

unfoldable pub notify_error_code : Text → Text
unfolding contains_text
notify_error_code message =
    if contains_text message error_session_evicted_memory
    then error_session_evicted_memory
    else if contains_text message (codes "terminating")
    then error_session_restarting
    else error_internal

unfoldable pub call_response : Option Text → Text → Result (Option Json) Text → DispatchOutcome
unfolding call_error_code
call_response id lease_id (ok (some response)) =
    answer
      (ok_envelope id type_call_ok (call_ok (record { lease_id = lease_id; response = response })))
call_response id lease_id (ok none) =
    refuse id error_lease_not_found (codes "Lease not found") false
call_response id lease_id (err e) = refuse id (call_error_code e) e true

unfoldable pub notify_response :
    Option Text → Text → Result (Option (Unit {0})) Text → DispatchOutcome
unfolding notify_error_code
notify_response id lease_id (ok (some _)) =
    answer (ok_envelope id type_notify_ok (notify_ok (record { lease_id = lease_id })))
notify_response id lease_id (ok none) =
    refuse id error_lease_not_found (codes "Lease not found") false
notify_response id lease_id (err e) = refuse id (notify_error_code e) e true

module _ (o : Outside) where
  unfoldable pub dispatch_call :
      Option Text → Json → SessionRegistry → SessionRegistry × DispatchOutcome
  unfolding call_by_lease_id call_response
  dispatch_call id payload r = elim (o.call payload) [
    | none ↦ (r, refuse id error_bad_message (codes "Invalid Call payload") false)
    | some c ↦
        let (r', result) = call_by_lease_id o.now o.later o.call_runtime c.lease_id c.request r in
        (r', call_response id c.lease_id result)
  ]

  unfoldable pub dispatch_notify :
      Option Text → Json → SessionRegistry → SessionRegistry × DispatchOutcome
  unfolding notify_by_lease_id notify_response
  dispatch_notify id payload r = elim (o.notify payload) [
    | none ↦ (r, refuse id error_bad_message (codes "Invalid Notify payload") false)
    | some n ↦
        let (r', result) = notify_by_lease_id o.now o.later o.send_runtime n.lease_id n.message r in
        (r', notify_response id n.lease_id result)
  ]

  unfoldable pub dispatch_stats : Option Text → Daemon → DispatchOutcome
  unfolding snapshot total_memory_bytes
  dispatch_stats id d =
      let s = snapshot o.now d.registry in
      answer (
        ok_envelope id type_stats_ok (
          stats_ok (record {
            sessions = length s.sessions;
            leases = s.lease_count;
            uptime_ms = o.uptime_ms;
            counters = record {
              sessions_spawned_total = s.counters.sessions_spawned_total;
              sessions_reused_total = s.counters.sessions_reused_total;
              sessions_gc_idle_total = s.counters.sessions_gc_idle_total;
              sessions_evicted_memory_total = s.counters.sessions_evicted_memory_total;
              session_crashes_total = s.counters.session_crashes_total;
              attach_requests_total = s.counters.attach_requests_total;
            };
            memory = record {
              total_bytes = total_memory_bytes o.rss o.now d.registry;
              max_total_bytes = d.settings.max_total_bytes;
              max_session_bytes = d.settings.max_session_bytes;
            };
          })))

  unfoldable pub dispatch_shutdown : Option Text → Json → Daemon → Daemon × DispatchOutcome
  dispatch_shutdown id payload d =
      if o.shutdown payload
      then (
        record d { shutdown_signal = true },
        record {
          response = ok_envelope id type_shutdown_ok (shutdown_ok (record { accepted = true }));
          shutdown_requested = true;
        },
      )
      else (d, refuse id error_bad_message (codes "Invalid Shutdown payload") false)

  abbrev with_registry :
      Daemon → SessionRegistry × DispatchOutcome → Daemon × Option DispatchOutcome
  with_registry d (r, outcome) = (record d { registry = r }, some outcome)

  -- The handler of a request, by its type; `none` is the answer that is still waited for.
  unfoldable pub dispatch_control_request :
      ControlEnvelope Json → Daemon → Daemon × Option DispatchOutcome
  unfolding dispatch_attach dispatch_release dispatch_call dispatch_notify dispatch_stats
      dispatch_shutdown
  dispatch_control_request req d =
      if req.message_type == type_attach
      then (let (r, outcome) = dispatch_attach o req.id req.payload d.registry in
          (record d { registry = r }, outcome))
      else if req.message_type == type_release
      then with_registry d (dispatch_release o req.id req.payload d.registry)
      else if req.message_type == type_call
      then with_registry d (dispatch_call req.id req.payload d.registry)
      else if req.message_type == type_notify
      then with_registry d (dispatch_notify req.id req.payload d.registry)
      else if req.message_type == type_stats
      then (d, some (dispatch_stats req.id d))
      else if req.message_type == type_shutdown
      then (let (d', outcome) = dispatch_shutdown req.id req.payload d in (d', some outcome))
      else (d, some (refuse req.id error_unknown_type (codes "Unknown control message type") false))
