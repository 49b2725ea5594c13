-- ===== src/Cli/Requests.antt =====
-- How do_cmd.rs chooses a server and builds its JSON-RPC request. What the file system and the
-- crate `url` answer is the record `Files`.
use lspee.Base.{
  ℕ, Bool, Option, none, some, List, [], ◌∷◌, ◌++◌, if◌then◌else◌, unwrap_or, find, Result, ok, err,
}
use lspee.Base.Eq.{◌==◌, text_eq}
use lspee.Base.Text.{Text, codes}
use lspee.Json.{Json, bool, number, string, array, object, nil, end, field}
use lspee.Config.Languages.{LspSelection}
use lspee.Cli.Args.{
  PositionArgs, ReferencesArgs, RenameArgs, CodeActionArgs, FileOnlyArgs, FormattingArgs,
  WorkspaceSymbolArgs, DoMethod, hover, definition, references, implementation, type_definition,
  completion, signature_help, rename, code_action, formatting, symbols, workspace_symbols,
  diagnostics, LspPosition, RequestMeta, lsp_method_name,
}

-- What `Url` keeps of a parsed address: its scheme, and its path if it is a path of a file.
pub record Url : Type 0 where
  pub scheme : Text
  pub to_file_path : Option Text

-- A file that opens is the list of its lines, `none` a line that cannot be read.
pub record Files : Type 0 where
  pub canonicalize : Text → Result Text Text
  pub from_file_path : Text → Option Text
  pub parse_url : Text → Option Url
  pub open_lines : Text → Option (List (Option Text))
  pub read_to_string : Text → Result Text Text
  pub extension : Text → Option Text
  pub lsps_for_file : Text → Result (List LspSelection) Text

unfoldable pub file_uri : Files → Text → Result Text Text
file_uri files path = elim (files.canonicalize path) [
  | err e ↦ err (codes "cannot resolve file path '" ++ path ++ codes "': " ++ e)
  | ok canonical ↦ elim (files.from_file_path canonical) [
    | none ↦ err (codes "cannot convert path to URI: " ++ canonical)
    | some url ↦ ok url
  ]
]

unfoldable pub uri_to_path : Files → Text → Option Text
uri_to_path files uri = elim (files.parse_url uri) [
  | none ↦ none
  | some parsed ↦ if parsed.scheme == codes "file" then parsed.to_file_path else none
]

abbrev pub found : LspSelection → Bool
found m = m.executable_found

unfoldable pub select_from_matches : List LspSelection → Text → Result Text Text
unfolding find
select_from_matches matches file = elim (find found matches) [
  | some healthy ↦ ok healthy.id
  | none ↦ elim matches [
    | m ∷ ms ↦ ok m.id
    | [] ↦ err (
        codes "no LSP server matches file '"
        ++ file
        ++ codes "'; use --lsp to specify one explicitly")
  ]
]

unfoldable pub resolve_lsp_id : Files → Option Text → Option Text → Result Text Text
unfolding select_from_matches
resolve_lsp_id files (some id) file = ok id
resolve_lsp_id files none none =
    err (codes "--lsp is required when no --file is provided (needed for workspace-symbols)")
resolve_lsp_id files none (some file) = elim (files.lsps_for_file file) [
  | err e ↦ err (codes "failed to resolve LSP for file: " ++ e)
  | ok matches ↦ select_from_matches matches file
]

unfoldable pub language_id_for_extension : Text → Text
language_id_for_extension ext =
    if ext == codes "rs"
    then codes "rust"
    else if ext == codes "ts"
    then codes "typescript"
    else if ext == codes "tsx"
    then codes "typescriptreact"
    else if ext == codes "js"
    then codes "javascript"
    else if ext == codes "jsx"
    then codes "javascriptreact"
    else if ext == codes "py"
    then codes "python"
    else if ext == codes "go"
    then codes "go"
    else if ext == codes "toml"
    then codes "toml"
    else if ext == codes "json"
    then codes "json"
    else if ext == codes "md"
    then codes "markdown"
    else if ext == codes "yaml"
    then codes "yaml"
    else if ext == codes "yml"
    then codes "yaml"
    else if ext == codes "html"
    then codes "html"
    else if ext == codes "css"
    then codes "css"
    else codes "plaintext"

unfoldable pub language_id_for_path : Files → Text → Text
unfolding language_id_for_extension
language_id_for_path files path = elim (files.extension path) [
  | none ↦ codes "plaintext"
  | some ext ↦ language_id_for_extension ext
]

-- The `json!` documents, their fields in the order in which the source writes them.
abbrev pub position_json : ℕ → ℕ → Json
position_json line col =
    object (field (codes "line") (number line) (field (codes "character") (number col) end))

abbrev pub document_json : Text → Json
document_json uri = object (field (codes "uri") (string uri) end)

abbrev pub jsonrpc_request : Text → Json → Json
jsonrpc_request method params = object (
    field (codes "jsonrpc") (string (codes "2.0")) (
      field (codes "id") (number 1)
        (field (codes "method") (string method) (field (codes "params") params end))))

abbrev pub position_params : Text → PositionArgs → Json
position_params uri a = object (
    field (codes "textDocument") (document_json uri)
      (field (codes "position") (position_json a.line a.col) end))

abbrev pub references_params : Text → ReferencesArgs → Json
references_params uri a = object (
    field (codes "textDocument") (document_json uri) (
      field (codes "position") (position_json a.position.line a.position.col) (
        field (codes "context")
          (object (field (codes "includeDeclaration") (bool a.include_declaration) end)) end)))

abbrev pub rename_params : Text → RenameArgs → Json
rename_params uri a = object (
    field (codes "textDocument") (document_json uri) (
      field (codes "position") (position_json a.position.line a.position.col)
        (field (codes "newName") (string a.new_name) end)))

abbrev pub code_action_params : Text → CodeActionArgs → Json
code_action_params uri a = object (
    field (codes "textDocument") (document_json uri) (
      field (codes "range")
        (object (
          field (codes "start") (position_json a.position.line a.position.col) (
            field (codes "end")
              (position_json (unwrap_or a.end_line a.position.line)
                (unwrap_or a.end_col a.position.col))
              end)))
        (field (codes "context") (object (field (codes "diagnostics") (array nil) end)) end)))

abbrev pub formatting_params : Text → FormattingArgs → Json
formatting_params uri a = object (
    field (codes "textDocument") (document_json uri) (
      field (codes "options")
        (object (
          field (codes "tabSize") (number a.tab_size)
            (field (codes "insertSpaces") (bool a.insert_spaces) end)))
        end))

abbrev pub file_params : Text → FileOnlyArgs → Json
file_params uri a = object (field (codes "textDocument") (document_json uri) end)

abbrev pub query_params : WorkspaceSymbolArgs → Json
query_params a = object (field (codes "query") (string a.query) end)

-- The end of each case of `build_request`.
abbrev pub built : Text → Json → Option Text → Option LspPosition → Json × RequestMeta
built method params file position = (
  jsonrpc_request method params,
  record { lsp_method = method; file_path = file; position = position },
)

abbrev pub at_position : PositionArgs → Option LspPosition
at_position a = some (record { line = a.line; character = a.col })

-- A case that needs the address of its file first.
unfoldable pub with_uri :
    Files → Text → Text → (Text → Json) → Option LspPosition → Result (Json × RequestMeta) Text
unfolding file_uri
with_uri files method file params position = elim (file_uri files file) [
  | err e ↦ err e
  | ok uri ↦ ok (built method (params uri) (some file) position)
]

unfoldable pub for_position : Files → Text → PositionArgs → Result (Json × RequestMeta) Text
unfolding with_uri
for_position files name a =
    with_uri files name a.file (λ uri. position_params uri a) (at_position a)

unfoldable pub build_request : Files → DoMethod → Result (Json × RequestMeta) Text
unfolding lsp_method_name with_uri for_position
build_request files (hover a) = for_position files (lsp_method_name (hover a)) a
build_request files (definition a) = for_position files (lsp_method_name (definition a)) a
build_request files (completion a) = for_position files (lsp_method_name (completion a)) a
build_request files (implementation a) = for_position files (lsp_method_name (implementation a)) a
build_request files (type_definition a) = for_position files (lsp_method_name (type_definition a)) a
build_request files (signature_help a) = for_position files (lsp_method_name (signature_help a)) a
build_request files (references a) =
    with_uri files (lsp_method_name (references a)) a.position.file (λ uri. references_params uri a)
      (at_position a.position)
build_request files (rename a) =
    with_uri files (lsp_method_name (rename a)) a.position.file (λ uri. rename_params uri a)
      (at_position a.position)
build_request files (code_action a) =
    with_uri files (lsp_method_name (code_action a)) a.position.file
      (λ uri. code_action_params uri a) (at_position a.position)
build_request files (formatting a) =
    with_uri files (lsp_method_name (formatting a)) a.file (λ uri. formatting_params uri a) none
build_request files (symbols a) =
    with_uri files (lsp_method_name (symbols a)) a.file (λ uri. file_params uri a) none
build_request files (diagnostics a) =
    with_uri files (lsp_method_name (diagnostics a)) a.file (λ uri. file_params uri a) none
build_request files (workspace_symbols a) =
    ok (built (lsp_method_name (workspace_symbols a)) (query_params a) none none)
