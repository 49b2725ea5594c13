-- ===== src/Cli/Tests.antt =====
-- The theorems on the command line with a small file system and a daemon that answers null.
use lspee.Base.{
  ℕ, ◌≡◌, refl, Bool, true, false, Option, none, some, [], ◌∷◌, ◌++◌, Result, ok, err, arith, zero,
  suc, ◌↔◌, subst, is_ok, unwrap_or,
}
use lspee.Base.Eq.{text_eq, nat_eq, list_beq, ◌==◌}
use lspee.Base.Text.{Text, codes}
use lspee.Json
use lspee.Json.{Json, null, number, string, object, array, nil, cons, field, end}
use lspee.Base.Map.{get}
use lspee.Protocol.{protocol_version, ControlEnvelope, Call, Notify}
use lspee.Config.Defs.{ResolvedConfig, default_config}
use lspee.Registry.State.{key_eq}
use lspee.Registry.Sample.{handle_a, empty, empty-WellFormed}
use lspee.Daemon.Defs.{Outside, Daemon}
use lspee.Cli.Args.{RequestMeta, SharedArgs, DoMethod, DoCommand, hover, json}
use lspee.Cli.Requests.{Files, built}
use lspee.Cli.Responses.{Printer, enrich_locations}
use lspee.Cli.Client.{Link, IoError, not_found, other_kind, starts_daemon, connect}
use lspee.Cli.Connecting.{Succeeds, connect-Succeeds}
use lspee.Cli.Frames.{Process}
use lspee.Cli.Run.{run_async}
use lspee.Cli.Endings.{Ending, run_async-Ending}
use lspee.Cli.Locating.{at, location_link, item, placed, nth_item, enrich_locations-context}
use lspee.Daemon.Connection.{version_matches, go_on}
use lspee.Cli.Served.{Control, Wire, connection, Agrees, leases_of}
use lspee.Cli.Restoring.{connected, run_async-Restored}
use lspee.Cli.Serde.{
  attach_json, attach_of, release_json, release_of, payload_json, attach_read, release_read,
}

abbrev files : Files
files = record {
  canonicalize = λ p. ok p;
  from_file_path = λ p. some (codes "file://" ++ p);
  parse_url = λ u. some (record { scheme = codes "file"; to_file_path = some u });
  open_lines = λ p. some (some (codes "fn a") ∷ some (codes "fn b") ∷ []);
  read_to_string = λ p. ok (codes "fn a");
  extension = λ p. some (codes "rs");
  lsps_for_file = λ p. ok [];
}

abbrev printer : Printer
printer = record { to_string = λ j. ok (codes "{}"); to_string_pretty = λ j. ok (codes "{ }") }

abbrev shared : SharedArgs
shared = record { lsp = some (codes "rust"); root = none; no_start_daemon = false; output = json }

abbrev hover_a : DoMethod
hover_a = hover (record { shared = shared; file = codes "/a/b.rs"; line = 3; col = 4 })

abbrev command : DoCommand
command = record { method = hover_a }

abbrev process : Process
process = record {
  attach_value = attach_json;
  call_value = λ c. string c.lease_id;
  notify_value = λ n. string n.lease_id;
  release_value = release_json;
  call_ok = λ j. ok (record { lease_id = codes "l"; response = j });
  version = codes "1";
  pid = 9;
  cwd = none;
  attach_now = some 1;
  open_now = some 2;
  call_now = some 3;
  close_now = some 4;
  release_now = none;
  elapsed_ms = 5;
}

abbrev call_of : Json → Option Call
call_of (string l) = some (record { lease_id = l; request = null })
call_of _ = none

abbrev notify_of : Json → Option Notify
notify_of (string l) = some (record { lease_id = l; message = null })
notify_of _ = none

-- The value of a frame, and the frame of a value.
abbrev raw_of : ControlEnvelope Json → Json
raw_of e = object (
    field (codes "v") (number e.v) (
      field (codes "id") (elim e.id [ none ↦ null | some id ↦ string id ])
        (field (codes "type") (string e.message_type) (field (codes "payload") e.payload end))))

envelope_of : Json → Option (ControlEnvelope Json)
envelope_of
      (object (field _ (number v) (field _ (string id) (field _ (string t) (field _ x end))))) =
    some (record { v = v; id = some id; message_type = t; payload = x })
envelope_of (object (field _ (number v) (field _ null (field _ (string t) (field _ x end))))) =
    some (record { v = v; id = none; message_type = t; payload = x })
envelope_of _ = none

abbrev outside : ℕ → Outside
outside n = record {
  from_str = λ s. none;
  envelope = envelope_of;
  attach = attach_of;
  release = release_of;
  call = call_of;
  notify = notify_of;
  shutdown = λ j. true;
  spawn = λ key. ok (record handle_a { key = key });
  open_stream = λ root lease h. ok (codes "/a/s.sock");
  call_runtime = λ p j. ok null;
  send_runtime = λ p j. ok tt;
  rss = λ p. ok none;
  now = n;
  later = n;
  uptime_ms = 3;
}

abbrev daemon : Daemon
daemon = record {
  registry = empty;
  settings = record { max_session_bytes = none; max_total_bytes = none; check_interval = 1 };
  shutdown_signal = false;
}

abbrev resolved : ResolvedConfig (Unit {0})
resolved = record { project_root = codes "/a"; merged = default_config; config_hash = codes "h" }

abbrev wire : Wire
wire = record { text = λ e. e.message_type; raw = raw_of; value = payload_json }

envelope_of-raw_of :
    (v : ℕ) (id : Option Text) (t : Text) (x : Json)
    → let e : ControlEnvelope Json = record { v = v; id = id; message_type = t; payload = x } in
      envelope_of (raw_of e) ≡ some e
unfolding envelope_of
envelope_of-raw_of v none t x = refl
envelope_of-raw_of v (some id) t x = refl

version_of : (e : ControlEnvelope Json) → e.v ≡ protocol_version → version_matches (raw_of e) ≡ true
unfolding lspee.Json.get lspee.Json.get_field list_beq
version_of e v = rw v refl

outside-Agrees : Agrees outside wire process
unfolding lspee.Json.get lspee.Json.get_field list_beq
outside-Agrees = record {
  version_read = version_of;
  envelope_read = λ n e. envelope_of-raw_of e.v e.id e.message_type e.payload;
  attach_read = λ n a. attach_read a;
  release_read = λ n x. release_read x;
  lease_shown = λ a. refl;
}

abbrev reach : Text → Bool → Result (Unit {0}) Text
reach root auto_start = ok tt

-- The whole run, of which the example takes the end.
abbrev ended : Option (Link Control) × Result Text Text
ended =
    run_async (connection outside wire) process files printer (λ root. ok resolved)
      (λ root start. elim (reach root start) as (λ x. Result Control Text) [
        | ok u ↦ ok (connected outside wire process outside-Agrees daemon)
        | err e ↦ err e
      ])
      command

abbrev last_link : Link Control
last_link = unwrap_or ended.0 (record {
  daemon = connected outside wire process outside-Agrees daemon;
  unread = [];
  written = [];
})

last_link-next : last_link.daemon.next ≡ go_on
unfolding run_async lspee.Cli.Served.serve list_beq envelope_of lspee.Base.all get
    lspee.Registry.State.with_idle_ttl lspee.Base.Map.insert lspee.Base.Map.modify
    lspee.Registry.State.key_beq lspee.Base.any lspee.Cli.Frames.attach_id lspee.Cli.Frames.open_id
    lspee.Cli.Frames.call_id lspee.Cli.Frames.close_id lspee.Cli.Frames.release_id
    lspee.Base.Decimal.to_string lspee.Base.Decimal.digits lspee.Registry.State.held
last_link-next = refl

run_async-Restored_example :
    get (codes "lease_1") (leases_of last_link.daemon) ≡ get (codes "lease_1") empty.leases
unfolding run_async
run_async-Restored_example =
    run_async-Restored outside wire process outside-Agrees files printer (λ root. ok resolved) reach
      command daemon last_link empty-WellFormed refl last_link-next (codes "lease_1")

run_async-Ending_example :
    let x =
      run_async
        (connection outside wire)
        process
        files
        printer
        (λ root. ok resolved)
        (λ root start. ok (connected outside wire process outside-Agrees daemon))
        command in
    Ending (connection outside wire) process x.0 x.1
run_async-Ending_example =
    run_async-Ending (connection outside wire) process files printer (λ root. ok resolved)
      (λ root start. ok (connected outside wire process outside-Agrees daemon)) command
      (λ s e. refl)

abbrev location : lspee.Json.Fields
location = field (codes "uri") (string (codes "/a/b.rs")) (
    field (codes "range")
      (object (field (codes "start") (object (field (codes "line") (number 1) end)) end)) end)

-- The same place in the format of a LocationLink.
abbrev link_to : Json
link_to = object (
    field (codes "targetUri") (string (codes "/a/b.rs")) (
      field (codes "targetRange")
        (object (field (codes "start") (object (field (codes "line") (number 1) end)) end)) end))

abbrev results : Json
results = array (cons (object location) (cons link_to nil))

enrich_locations-context_example :
    (y : Json) × (placed (item 1) (enrich_locations files results) ≡ some y)
    × (lspee.Json.get (codes "context_line") y ≡ some (string (codes "fn b")))
    × ((k : Text)
        → (codes "context_line" == k) ≡ false
        → lspee.Json.get k y ≡ lspee.Json.get k link_to)
unfolding lspee.Json.get lspee.Json.get_field list_beq at placed nth_item
enrich_locations-context_example =
    enrich_locations-context files (item 1) results link_to (codes "/a/b.rs") (codes "/a/b.rs")
      (codes "fn b") (record { scheme = codes "file"; to_file_path = some (codes "/a/b.rs") })
      (some (codes "fn a") ∷ []) [] refl (location_link (codes "/a/b.rs") 1 refl refl refl) refl
      refl refl refl (omega arith)

abbrev hover_request : Json × RequestMeta
hover_request =
    built (codes "textDocument/hover")
      (object (
        field (codes "textDocument")
          (object (field (codes "uri") (string (codes "file:///a/b.rs")) end))
          (field (codes "position")
            (object (field (codes "line") (number 3) (field (codes "character") (number 4) end)))
            end)))
      (some (codes "/a/b.rs")) (some (record { line = 3; character = 4 }))

-- The socket is not there at first, and there at the third attempt.
abbrev attempts : ℕ → Result (Unit {0}) IoError
attempts zero = err (record { kind = not_found; message = codes "no such file" })
attempts (suc zero) = err (record { kind = other_kind; message = codes "odd" })
attempts (suc (suc i)) = ok tt

attempts_start : (e : IoError) → attempts 0 ≡ err e → starts_daemon e.kind ≡ true
attempts_start e h =
    let same : (record { kind = not_found; message = codes "no such file" }) ≡ e = cc in
    subst (λ x. starts_daemon x.kind ≡ true) same refl

connect-Succeeds_example :
    (is_ok (connect attempts (ok tt) (codes "/a/.lspee/daemon.sock") true) ≡ true)
    ↔ Succeeds attempts 0 41
connect-Succeeds_example = connect-Succeeds attempts (codes "/a/.lspee/daemon.sock") attempts_start
