-- ===== src/Config/Tests.antt =====
-- The theorems on the configuration with concrete files.
use lspee.Base.{
  ◌⊎◌, ◌≡◌, refl, true, false, none, some, List, [], ◌∷◌, ◌++◌, All, any, ok, err, arith,
}
use lspee.Base.Eq.{text_eq, list_beq}
use lspee.Base.Text.{Text, codes}
use lspee.Base.Map.{get}
use lspee.Config.Defs.{
  PartialLspConfig, ResolvedConfig, Host, default_config, hash_identity, resolve,
  canonical_project_root, canonical_root_of, apply_file, load_partial_if_exists,
}
use lspee.Config.Layers.{Keyed, IsUtf8, Collision, hash_identity-separates, resolve-Keyed}
use lspee.Config.Languages.{
  LspSelection, LspDefinition, LanguageRegistryFile, Shell, selection_from_definition, lsp_for_id,
  lsps_for_file, load_registry, apply_overrides, matches_of,
}
use lspee.Config.Catalog.{lsps_for_file-lsp_for_id}
use lspee.Config.Server.{command_in, expected_command, choose_server, command-choose_server}

abbrev entry : Text → PartialLspConfig Text
entry command = record {
  id = some (codes "rust");
  command = some command;
  args = none;
  env = none;
  initialization_options = none;
}

abbrev two_entries : List (PartialLspConfig Text)
two_entries = entry (codes "a") ∷ entry (codes "b") ∷ []

-- A host without configuration files, whose hash keeps the text.
abbrev plain_host : Host Text
plain_host = record {
  current_dir = ok (codes "/a");
  realpath = λ p. ok p;
  exists = λ p. false;
  read_to_string = λ p. err (codes "none");
  from_str = λ s. err (codes "none");
  join = λ a b. a ++ b;
  home = none;
  to_string_lossy = λ p. p;
  utf8 = λ s. s;
  to_toml = λ c. c.workspace_mode;
  sha256 = λ s. s;
}

plain_host-IsUtf8 : IsUtf8 plain_host
plain_host-IsUtf8 = record { utf8_injective = λ a b e. e; utf8_zero = λ a h. h }

hash_identity_example :
    ((codes "/a" ≡ codes "/a")
      × (plain_host.to_toml default_config ≡ plain_host.to_toml default_config))
    ⊎ Collision plain_host
hash_identity_example =
    hash_identity-separates plain_host (codes "/a") (codes "/a") default_config default_config
      plain_host-IsUtf8 (ground arith) (ground arith) refl

abbrev resolved : ResolvedConfig Text
resolved = record {
  project_root = codes "/a";
  merged = default_config;
  config_hash = hash_identity plain_host (codes "/a") default_config;
}

resolve-Keyed_example :
    Keyed resolved.merged.lsps
    × (resolved.config_hash ≡ hash_identity plain_host resolved.project_root resolved.merged)
unfolding resolve canonical_project_root canonical_root_of apply_file load_partial_if_exists
resolve-Keyed_example = resolve-Keyed plain_host none resolved refl

abbrev shell : Shell
shell = record {
  search_path = some (codes "/bin" ∷ []);
  is_file_in = λ dir executable. true;
  extension = λ path. some (codes "RS");
}

abbrev rust : LspDefinition
rust = record {
  command = codes "ra";
  args = [];
  file_extensions = codes "rs" ∷ [];
  root_markers = [];
}

abbrev languages : LanguageRegistryFile
languages = (codes "rust", rust) ∷ []

abbrev selection : LspSelection
selection = selection_from_definition shell (codes "rust") rust

lsps_for_file_example :
    All (λ s. lsp_for_id plain_host shell languages s.id none none ≡ ok (some s)) (selection ∷ [])
unfolding lsps_for_file load_registry apply_overrides matches_of get any list_beq
lsps_for_file_example =
    lsps_for_file-lsp_for_id plain_host shell languages (codes "x.RS") none none (selection ∷ [])
      (refl, tt) refl

command-choose_server_example :
    command_in {V = Text} (choose_server (codes "rust") none (some selection))
    ≡ expected_command {V = Text} none (some selection)
command-choose_server_example = command-choose_server (codes "rust") none (some selection)
