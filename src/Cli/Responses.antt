-- ===== src/Cli/Responses.antt =====
-- How do_cmd.rs takes an answer apart, adds the lines of source, and wraps it up.
use lspee.Base.{ℕ, zero, suc, ◌%◌, ◌^◌, Option, none, some, List, [], ◌∷◌, if◌then◌else◌, Result}
use lspee.Base.Text.{Text, codes}
use lspee.Json.{
  Json, null, number, string, array, object, Items, nil, cons, end, field, get, set, as_str, as_u64,
}
use lspee.Protocol.{CallOk}
use lspee.Cli.Args.{DoOutput, json, pretty, DoMethod, RequestMeta, needs_location_enrichment}
use lspee.Cli.Requests.{Files, uri_to_path, position_json}

unfoldable pub extract_lsp_result : Json → Json
unfolding get
extract_lsp_result response = elim (get (codes "result") response) [
  | some result ↦ result
  | none ↦ elim (get (codes "error") response) [
    | some error ↦ object (field (codes "error") error end)
    | none ↦ null
  ]
]

-- `Iterator::nth`
unfoldable pub nth {ℓ} : {A : Type ℓ} → ℕ → List A → Option A
nth n [] = none
nth zero (x ∷ xs) = some x
nth (suc n) (x ∷ xs) = nth n xs

unfoldable pub read_context_line : Files → Text → ℕ → Option Text
unfolding nth
read_context_line files path line = elim (files.open_lines path) [
  | none ↦ none
  | some lines ↦ elim (nth line lines) [ none ↦ none | some l ↦ l ]
]

-- `value.get("range").get("start").get("line").as_u64()`, for the names of the two formats.
unfoldable pub start_line : Text → Json → Option ℕ
unfolding get
start_line range location = elim (get range location) [
  | none ↦ none
  | some r ↦ elim (get (codes "start") r) [
    | none ↦ none
    | some s ↦ elim (get (codes "line") s) [ none ↦ none | some n ↦ as_u64 n ]
  ]
]

-- The pair that one of the two formats is recognised by.
unfoldable pub location_of : Text → Text → Json → Option (Text × ℕ)
unfolding get start_line
location_of uri range location = elim (get uri location) [
  | none ↦ none
  | some u ↦ elim (as_str u) [
    | none ↦ none
    | some t ↦ elim (start_line range location) [ none ↦ none | some n ↦ some (t, n) ]
  ]
]

-- `line as u32` keeps the low 32 bits.
unfoldable pub context_of : Files → Text × ℕ → Option Text
unfolding uri_to_path read_context_line
context_of files (uri, line) = elim (uri_to_path files uri) [
  | none ↦ none
  | some path ↦ read_context_line files path (line % 2 ^ 32)
]

unfoldable pub add_context : Option Text → Json → Json
unfolding set
add_context none location = location
add_context (some context) location = set (codes "context_line") (string context) location

unfoldable pub enrich_single_location : Files → Json → Json
unfolding location_of context_of add_context
enrich_single_location files location = elim (location_of (codes "uri") (codes "range") location) [
  | some x ↦ add_context (context_of files x) location
  | none ↦ elim (location_of (codes "targetUri") (codes "targetRange") location) [
    | some x ↦ add_context (context_of files x) location
    | none ↦ location
  ]
]

unfoldable pub enrich_items : Files → Items → Items
unfolding enrich_single_location
enrich_items files nil = nil
enrich_items files (cons j js) = cons (enrich_single_location files j) (enrich_items files js)

unfoldable pub enrich_locations : Files → Json → Json
unfolding enrich_items enrich_single_location
enrich_locations files (array js) = array (enrich_items files js)
enrich_locations files (object fs) = enrich_single_location files (object fs)
enrich_locations files j = j

unfoldable pub wrap_response : Text → RequestMeta → Json → ℕ → Json
unfolding set
wrap_response lsp_id meta result elapsed_ms =
    let obj = object (
      field (codes "lsp_id") (string lsp_id) (
        field (codes "method") (string meta.lsp_method)
          (field (codes "result") result (field (codes "elapsed_ms") (number elapsed_ms) end)))) in
    let with_file : Json = elim meta.file_path [
      | none ↦ obj
      | some file ↦ set (codes "file") (string file) obj
    ] in
    elim meta.position [
      | none ↦ with_file
      | some pos ↦ set (codes "position") (position_json pos.line pos.character) with_file
    ]

-- `serde_json::to_string` and `to_string_pretty`
pub record Printer : Type 0 where
  pub to_string : Json → Result Text Text
  pub to_string_pretty : Json → Result Text Text

unfoldable pub printed : Printer → DoOutput → Json → Result Text Text
printed p json j = p.to_string j
printed p pretty j = p.to_string_pretty j

unfoldable pub format_do_output :
    Files → Printer → DoMethod → Text → RequestMeta → CallOk → ℕ → DoOutput → Result Text Text
unfolding extract_lsp_result needs_location_enrichment enrich_locations wrap_response printed
format_do_output files p method lsp_id meta call_ok elapsed_ms output =
    let extracted = extract_lsp_result call_ok.response in
    let lsp_result =
      if needs_location_enrichment method then enrich_locations files extracted else extracted in
    printed p output (wrap_response lsp_id meta lsp_result elapsed_ms)
