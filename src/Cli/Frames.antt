-- ===== src/Cli/Frames.antt =====
-- The frames that `lspee do` writes, and what it takes an answer for.
use lspee.Base.{ℕ, Option, none, some, [], ◌∷◌, ◌++◌, if◌then◌else◌, not, Result, ok, err}
use lspee.Base.Eq.{◌==◌, text_eq}
use lspee.Base.Text.{Text, codes}
use lspee.Json.{Json, number, string, object, end, field, get, as_str}
use lspee.Protocol.{
  protocol_version, type_attach, type_call, type_notify, type_release, agent, mux_control, Attach,
  Call, CallOk, Notify, Release, ControlEnvelope,
}
use lspee.Cli.Requests.{document_json}
use lspee.Cli.Client.{new_request_id, ensure_not_error}

-- The serialisers and the decoder that serde derives, the process, and the readings of the clock.
pub record Process : Type 0 where
  pub attach_value : Attach → Json
  pub call_value : Call → Json
  pub notify_value : Notify → Json
  pub release_value : Release → Json
  pub call_ok : Json → Result CallOk Text
  pub version : Text
  pub pid : ℕ
  pub cwd : Option Text
  pub attach_now : Option ℕ
  pub open_now : Option ℕ
  pub call_now : Option ℕ
  pub close_now : Option ℕ
  pub release_now : Option ℕ
  pub elapsed_ms : ℕ

unfoldable pub attach_id : Process → Text
unfolding new_request_id
attach_id p = new_request_id (codes "attach") p.attach_now

unfoldable pub open_id : Process → Text
unfolding new_request_id
open_id p = new_request_id (codes "notify-open") p.open_now

unfoldable pub call_id : Process → Text
unfolding new_request_id
call_id p = new_request_id (codes "call") p.call_now

unfoldable pub close_id : Process → Text
unfolding new_request_id
close_id p = new_request_id (codes "notify-close") p.close_now

unfoldable pub release_id : Process → Text
unfolding new_request_id
release_id p = new_request_id (codes "release") p.release_now

abbrev pub request_frame : Text → Text → Json → ControlEnvelope Json
request_frame id message_type payload = record {
  v = protocol_version;
  id = some id;
  message_type = message_type;
  payload = payload;
}

abbrev pub attach_frame : Process → Text → Text → Text → ControlEnvelope Json
attach_frame p project_root config_hash lsp_id = request_frame (attach_id p) type_attach (
    p.attach_value (record {
      session_key = record {
        project_root = project_root;
        config_hash = config_hash;
        lsp_id = lsp_id;
      };
      client_meta = record {
        client_name = codes "lspee_cli";
        client_version = p.version;
        client_kind = some agent;
        pid = some p.pid;
        cwd = p.cwd;
      };
      capabilities = some (record { stream_mode = mux_control ∷ [] });
    }))

abbrev pub call_frame : Process → Text → Json → ControlEnvelope Json
call_frame p lease_id request =
    request_frame (call_id p) type_call
      (p.call_value (record { lease_id = lease_id; request = request }))

abbrev pub release_frame : Process → Text → ControlEnvelope Json
release_frame p lease_id =
    request_frame (release_id p) type_release
      (p.release_value (record { lease_id = lease_id; reason = none }))

abbrev pub did_open_message : Text → Text → Text → Json
did_open_message uri language_id text = object (
    field (codes "jsonrpc") (string (codes "2.0")) (
      field (codes "method") (string (codes "textDocument/didOpen")) (
        field (codes "params")
          (object (
            field (codes "textDocument")
              (object (
                field (codes "uri") (string uri) (
                  field (codes "languageId") (string language_id)
                    (field (codes "version") (number 1) (field (codes "text") (string text) end)))))
              end))
          end)))

abbrev pub did_close_message : Text → Json
did_close_message uri = object (
    field (codes "jsonrpc") (string (codes "2.0")) (
      field (codes "method") (string (codes "textDocument/didClose")) (
        field (codes "params") (object (field (codes "textDocument") (document_json uri) end))
          end)))

abbrev pub open_frame : Process → Text → Text → Text → Text → ControlEnvelope Json
open_frame p lease_id uri language_id text = request_frame (open_id p) type_notify (
    p.notify_value
      (record { lease_id = lease_id; message = did_open_message uri language_id text }))

abbrev pub close_frame : Process → Text → Text → ControlEnvelope Json
close_frame p lease_id uri =
    request_frame (close_id p) type_notify
      (p.notify_value (record { lease_id = lease_id; message = did_close_message uri }))

-- An answer that is no error and has the type that the request asks for.
unfoldable pub expect_type : Text → Text → ControlEnvelope Json → Result Json Text
unfolding ensure_not_error
expect_type what expected response = elim (ensure_not_error response) [
  | err e ↦ err e
  | ok u ↦
      if not (response.message_type == expected)
      then err
          (codes "unexpected response type for " ++ what ++ codes ": " ++ response.message_type)
      else ok response.payload
]

unfoldable pub lease_of : Json → Result Text Text
unfolding get
lease_of payload = elim (get (codes "lease_id") payload) [
  | none ↦ err (codes "AttachOk missing lease_id")
  | some j ↦ elim (as_str j) [ none ↦ err (codes "AttachOk missing lease_id") | some id ↦ ok id ]
]
