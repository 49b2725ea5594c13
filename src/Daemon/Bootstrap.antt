-- ===== src/Daemon/Bootstrap.antt =====
-- `bootstrap_lsp_session` of lib.rs: the handshake with a new language server. `request` is what
-- `LspRuntime::call` answers and `notify` what `LspRuntime::send` does.
use lspee.Base.{
  ◌≡◌, refl, sym, ap, ◌∙◌, Option, none, some, List, [], ◌∷◌, Result, ok, err, err_ok, Result-cases,
  inl, inr,
}
use lspee.Base.Text.{Text, codes}
use lspee.Json.{Json, Fields, null, string, object, field, end, set}

abbrev pub initialize_request : Json → Json
initialize_request params = object (
    field (codes "jsonrpc") (string (codes "2.0")) (
      field (codes "id") (string (codes "lspee-initialize"))
        (field (codes "method") (string (codes "initialize")) (field (codes "params") params end))))

abbrev pub initialized_message : Json
initialized_message = object (
    field (codes "jsonrpc") (string (codes "2.0")) (
      field (codes "method") (string (codes "initialized"))
        (field (codes "params") (object end) end)))

abbrev with_root : Option Text → Json → Json
with_root none params = params
with_root (some root_uri) params = set (codes "rootUri") (string root_uri) params

abbrev with_options : Fields → Json → Json
with_options end params = params
with_options options params = set (codes "initializationOptions") (object options) params

-- `root_uri` is what `Url::from_directory_path` makes of the project root.
unfoldable pub initialize_params : Option Text → Fields → Json
initialize_params root_uri options = with_options options (
    with_root root_uri
      (object (field (codes "processId") null (field (codes "capabilities") (object end) end))))

module _ (request : Json → Result Json Text) (notify : Json → Result (Unit {0}) Text) where
  -- The messages that are given to the runtime, and the answer.
  unfoldable pub bootstrap_lsp_session : Option Text → Fields → List Json × Result Json Text
  unfolding initialize_params
  bootstrap_lsp_session root_uri options =
      let first = initialize_request (initialize_params root_uri options) in
      elim (request first) [
        | err e ↦ (first ∷ [], err e)
        | ok result ↦ elim (notify initialized_message) [
          | err e ↦ (first ∷ initialized_message ∷ [], err e)
          | ok u ↦ (first ∷ initialized_message ∷ [], ok result)
        ]
      ]

  -- A handshake that succeeds has sent initialize and then initialized, and answers what the server
  -- answered to the first.
  pub bootstrap-ok :
      (root_uri : Option Text) (options : Fields) (result : Json)
      → (bootstrap_lsp_session root_uri options).1 ≡ ok result
      → let first = initialize_request (initialize_params root_uri options) in
        ((bootstrap_lsp_session root_uri options).0 ≡ first ∷ initialized_message ∷ [])
        × (request first ≡ ok result)
  unfolding bootstrap_lsp_session
  bootstrap-ok root_uri options result e =
      let first = initialize_request (initialize_params root_uri options) in
      elim (Result-cases (request first)) [
        | inr (m, f) ↦ absurd (let failed = rw (f, bootstrap_lsp_session) at e in cc)
        | inl (r, f) ↦ elim (Result-cases (notify initialized_message)) [
          | inr (m, g) ↦
              let failed : (bootstrap_lsp_session root_uri options).1 ≡ err m =
                rw (f, bootstrap_lsp_session) (rw g refl) in
              absurd (err_ok (sym failed ∙ e))
          | inl (u, g) ↦
              let done : bootstrap_lsp_session root_uri options
                  ≡ (first ∷ initialized_message ∷ [], ok r) =
                rw (f, bootstrap_lsp_session) (rw g refl) in
              (ap (λ x. x.0) done, f ∙ sym (ap (λ x. x.1) done) ∙ e)
        ]
      ]
