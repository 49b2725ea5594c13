-- ===== src/Config/Languages.antt =====
-- The definitions of crates/lspee_config/src/languages.rs. A registry is a `BTreeMap`; the file
-- system and the decoder are those of `Host`, `Shell` has what else the module asks of the system.
use lspee.Base.{
  Bool, true, false, Option, none, some, List, [], ◌∷◌, map, any, if◌then◌else◌, ltb, nat_beq,
  unwrap_or, Result, ok, err,
}
use lspee.Base.Eq.{◌==◌, text_eq}
use lspee.Base.Text.{Text, codes, is_empty, lower, strip_prefix}
use lspee.Base.Map.{Map, get, insert, keys}
use lspee.Config.Defs.{ConfigError, PartialLspConfig, Host, entry_id, load_partial_if_exists}

pub record LspSelection : Type 0 where
  pub id : Text
  pub command : Text
  pub args : List Text
  pub root_markers : List Text
  pub executable_found : Bool

pub record LspDefinition : Type 0 where
  pub command : Text
  pub args : List Text
  pub file_extensions : List Text
  pub root_markers : List Text

abbrev pub LanguageRegistryFile : Type 0
LanguageRegistryFile = Map Text LspDefinition

abbrev pub no_definition : LspDefinition
no_definition = record { command = []; args = []; file_extensions = []; root_markers = [] }

-- `String`'s order.
unfoldable pub text_lt : Text → Text → Bool
text_lt s [] = false
text_lt [] (d ∷ t) = true
text_lt (c ∷ s) (d ∷ t) = let rest = text_lt s t in if nat_beq c d then rest else ltb c d

-- `BTreeSet::insert`, on the sorted list of its elements.
unfoldable pub set_insert : Text → List Text → List Text
unfolding text_lt
set_insert x [] = x ∷ []
set_insert x (y ∷ ys) =
    let rest = set_insert x ys in
    if x == y then y ∷ ys else if text_lt x y then x ∷ y ∷ ys else y ∷ rest

-- `iter().cloned().collect::<BTreeSet<_>>()`
unfoldable pub set_of : List Text → List Text
unfolding set_insert
set_of [] = []
set_of (x ∷ xs) = set_insert x (set_of xs)

-- The loop over the keys of the options.
unfoldable pub insert_extensions : List Text → List Text → List Text
unfolding set_insert
insert_extensions [] set = set
insert_extensions (key ∷ keys) set =
    insert_extensions keys (elim (strip_prefix (codes "language_extension_") key) [
      | none ↦ set
      | some ext ↦ set_insert ext set
    ])

module _ {V : Type 0} where
  abbrev extended : Option (Map Text V) → List Text → List Text
  extended none extensions = extensions
  extended (some options) extensions = insert_extensions (keys options) (set_of extensions)

  unfoldable pub override_definition : PartialLspConfig V → LspDefinition → LspDefinition
  unfolding insert_extensions set_of
  override_definition p x = record {
    command = unwrap_or p.command x.command;
    args = unwrap_or p.args x.args;
    file_extensions = extended p.initialization_options x.file_extensions;
    root_markers = x.root_markers;
  }

  -- `for partial_lsp in parsed.lsp { … }`
  unfoldable pub override_all :
      List (PartialLspConfig V) → LanguageRegistryFile → LanguageRegistryFile
  unfolding override_definition
  override_all [] registry = registry
  override_all (p ∷ ps) registry = override_all ps (
      insert (entry_id p)
        (override_definition p (unwrap_or (get (entry_id p) registry) no_definition)) registry)

-- `is_file(dir.join(executable))`, the directories of `PATH`, and the extension of a path.
pub record Shell : Type 0 where
  pub search_path : Option (List Text)
  pub is_file_in : Text → Text → Bool
  pub extension : Text → Option Text

unfoldable pub has_executable : Shell → Text → Bool
has_executable shell executable = if is_empty executable then false else elim shell.search_path [
  | none ↦ false
  | some dirs ↦ any (λ dir. shell.is_file_in dir executable) dirs
]

unfoldable pub selection_from_definition : Shell → Text → LspDefinition → LspSelection
unfolding has_executable
selection_from_definition shell id d = record {
  id = id;
  command = d.command;
  args = d.args;
  root_markers = d.root_markers;
  executable_found = has_executable shell d.command;
}

abbrev pub ascii_lower : Text → Text
ascii_lower = map lower

abbrev pub serves : Text → LspDefinition → Bool
serves extension d = any (λ c. ascii_lower c == ascii_lower extension) d.file_extensions

unfoldable pub matches_of : Shell → Text → LanguageRegistryFile → List LspSelection
unfolding selection_from_definition
matches_of shell extension [] = []
matches_of shell extension ((id, d) ∷ registry) =
    let rest = matches_of shell extension registry in
    if serves extension d then selection_from_definition shell id d ∷ rest else rest

module _ {V : Type 0} (host : Host V) where
  unfoldable pub apply_overrides :
      LanguageRegistryFile → Option Text → Result LanguageRegistryFile ConfigError
  unfolding override_all load_partial_if_exists
  apply_overrides registry none = ok registry
  apply_overrides registry (some path) = elim (load_partial_if_exists host path) [
    | err e ↦ err e
    | ok none ↦ ok registry
    | ok (some parsed) ↦ ok (override_all parsed.lsp registry)
  ]

  unfoldable pub load_registry :
      LanguageRegistryFile → Option Text → Option Text → Result LanguageRegistryFile ConfigError
  unfolding apply_overrides
  load_registry default_languages user project = elim (apply_overrides default_languages user) [
    | err e ↦ err e
    | ok registry ↦ apply_overrides registry project
  ]

module _ {V : Type 0} (host : Host V) (shell : Shell)
    (default_languages : LanguageRegistryFile) where
  unfoldable pub lsp_for_id :
      Text → Option Text → Option Text → Result (Option LspSelection) ConfigError
  unfolding load_registry selection_from_definition
  lsp_for_id id user project = elim (load_registry host default_languages user project) [
    | err e ↦ err e
    | ok registry ↦ elim (get id registry) [
      | none ↦ ok none
      | some d ↦ ok (some (selection_from_definition shell id d))
    ]
  ]

  unfoldable pub lsps_for_file :
      Text → Option Text → Option Text → Result (List LspSelection) ConfigError
  unfolding load_registry matches_of
  lsps_for_file path user project = elim (shell.extension path) [
    | none ↦ ok []
    | some extension ↦ elim (load_registry host default_languages user project) [
      | err e ↦ err e
      | ok registry ↦ ok (matches_of shell (ascii_lower extension) registry)
    ]
  ]
