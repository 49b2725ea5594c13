-- ===== src/Daemon/Tests.antt =====
-- The theorems on the daemon with a concrete world: its decoders know one attach request.
use lspee.Base.{◌≡◌, ◌↔◌, refl, true, false, none, some, List, [], ◌∷◌, Result, ok, arith}
use lspee.Base.Text.{Text, codes}
use lspee.Json.{Json, null, number, object, field, end}
use lspee.Protocol.{SessionKeyWire, Attach, ControlEnvelope, type_attach, agent}
use lspee.Registry.State.{SessionKey, SessionHandle, SessionRegistry, with_idle_ttl}
use lspee.Registry.Invariant.{WellFormed}
use lspee.Registry.Sample.{handle_a, empty, leased, empty-WellFormed, leased-WellFormed}
use lspee.Daemon.Keys.{validate_session_key, IsValidKey}
use lspee.Daemon.KeyCheck.{validate_session_key_iff}
use lspee.Daemon.Defs.{Outside, Daemon, attach_with}
use lspee.Daemon.Requests.{dispatch_control_request}
use lspee.Daemon.Connection.{handle_control_connection, shutdown_all_sessions}
use lspee.Daemon.Dispatch.{dispatch-WellFormed, dispatch-Echoes, Echoes}
use lspee.Daemon.Attach.{IsLive, attach_with-IsLive}
use lspee.Daemon.Ending.{Conversed, connection-Conversed, shutdown_all_sessions-empty}

abbrev wire_key : SessionKeyWire
wire_key = record { project_root = codes "/a"; config_hash = codes "h"; lsp_id = codes "rust" }

abbrev attach_a : Attach
attach_a = record {
  session_key = wire_key;
  client_meta = record {
    client_name = codes "cli";
    client_version = codes "1";
    client_kind = some agent;
    pid = none;
    cwd = none;
  };
  capabilities = none;
}

abbrev attach_request : ControlEnvelope Json
attach_request = record { v = 1; id = some (codes "7"); message_type = type_attach; payload = null }

abbrev spawn_any : SessionKey → Result SessionHandle Text
spawn_any key = ok (record handle_a { key = key })

abbrev world : Outside
world = record {
  from_str = λ s. some (object (field (codes "v") (number 1) end));
  envelope = λ j. some attach_request;
  attach = λ j. some attach_a;
  release = λ j. none;
  call = λ j. none;
  notify = λ j. none;
  shutdown = λ j. true;
  spawn = spawn_any;
  open_stream = λ root lease h. ok (codes "/a/s.sock");
  call_runtime = λ p j. ok null;
  send_runtime = λ p j. ok tt;
  rss = λ p. ok (some 500);
  now = 5;
  later = 6;
  uptime_ms = 3;
}

abbrev daemon : SessionRegistry → Daemon
daemon r = record {
  registry = r;
  settings = record { max_session_bytes = none; max_total_bytes = none; check_interval = 1 };
  shutdown_signal = false;
}

validate_session_key_example : (validate_session_key wire_key ≡ ok tt) ↔ IsValidKey wire_key
validate_session_key_example = validate_session_key_iff wire_key

dispatch-WellFormed_example :
    WellFormed (dispatch_control_request world attach_request (daemon empty)).0.registry
unfolding with_idle_ttl
dispatch-WellFormed_example =
    dispatch-WellFormed world attach_request (daemon empty) (λ key. refl) (omega arith)
      empty-WellFormed

dispatch-Echoes_example :
    Echoes (some (codes "7")) (dispatch_control_request world attach_request (daemon empty)).1
dispatch-Echoes_example = dispatch-Echoes world attach_request (daemon empty)

attach-IsLive_example :
    let (r', x) = attach_with world (some (codes "7")) attach_a empty in IsLive r' x
attach-IsLive_example = attach_with-IsLive world (some (codes "7")) attach_a empty

abbrev two_lines : List (Outside × Text)
two_lines = (world, codes "{}") ∷ (world, codes "{}") ∷ []

connection-Conversed_example :
    Conversed two_lines (handle_control_connection two_lines (daemon empty))
connection-Conversed_example = connection-Conversed two_lines (daemon empty)

-- A world in which a line reads as an object without a version.
abbrev old_world : Outside
old_world = record world { from_str = λ s. some (object end) }

shutdown_all_sessions_example :
    ((shutdown_all_sessions (λ p. true) leased).0.sessions ≡ [])
    × ((shutdown_all_sessions (λ p. true) leased).0.leases ≡ [])
shutdown_all_sessions_example = shutdown_all_sessions-empty (λ p. true) leased leased-WellFormed
