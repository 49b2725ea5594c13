-- ===== src/Cli/Building.antt =====
-- What the request says of the command's arguments.
use lspee.Base.{◌≡◌, ◌⊎◌, Option, none, some, ok}
use lspee.Base.Eq.{text_eq}
use lspee.Base.Text.{Text, codes}
use lspee.Json.{Json, number, string, get}
use lspee.Cli.Args.{DoMethod, LspPosition, RequestMeta, lsp_method_name, file_path}
use lspee.Cli.Requests.{Files, file_uri, position_json}

-- `request["params"][outer][inner]`
abbrev pub param : Text → Text → Json → Option Json
param outer inner request = elim (get (codes "params") request) [
  | none ↦ none
  | some params ↦ elim (get outer params) [ none ↦ none | some j ↦ get inner j ]
]

-- The request says the position: as such, or as the start of a range.
abbrev Says : Json → LspPosition → Type 0
Says request pos =
    (elim (get (codes "params") request) [
      | none ↦ none
      | some params ↦ get (codes "position") params
    ]
      ≡ some (position_json pos.line pos.character))
    ⊎ (param (codes "range") (codes "start") request ≡ some (position_json pos.line pos.character))

-- The request has the address of the file.
abbrev Targets : Files → Json → Option Text → Type 0
Targets files request none = Unit
Targets files request (some file) =
    (uri : Text) × (file_uri files file ≡ ok uri)
    × (param (codes "textDocument") (codes "uri") request ≡ some (string uri))

abbrev SaysIt : Json → Option LspPosition → Type 0
SaysIt request none = Unit
SaysIt request (some pos) = Says request pos

-- What a request must say: the method's name; the address of the file, if the method has one; and
-- the metadata have the same name and the file as it was given.
abbrev pub Describes : Files → DoMethod → Json × RequestMeta → Type 0
Describes files method (request, meta) =
    (get (codes "method") request ≡ some (string (lsp_method_name method)))
    × (get (codes "id") request ≡ some (number 1))
    × (meta.lsp_method ≡ lsp_method_name method)
    × (meta.file_path ≡ file_path method)
    × Targets files request (file_path method)
    × SaysIt request meta.position
