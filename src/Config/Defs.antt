-- ===== src/Config/Defs.antt =====
-- The definitions of crates/lspee_config/src/lib.rs. `V` is the type of TOML values; the file
-- system, the TOML decoder and the hash are the parameters `Host`.
use lspee.Base.{
  ℕ, Bool, Option, none, some, List, [], ◌∷◌, ◌++◌, if◌then◌else◌, unwrap_or, Result, ok, err,
}
use lspee.Base.Eq.{text_eq}
use lspee.Base.Text.{Text, codes}
use lspee.Base.Map.{Map, get, insert}

pub data ConfigError : Type 0 where
  read : Text → Text → ConfigError
  parse : Text → Text → ConfigError
  canonicalize : Text → Text → ConfigError

pub record LspConfig (V : Type 0) : Type 0 where
  pub id : Text
  pub command : Text
  pub args : List Text
  pub env : Map Text Text
  pub initialization_options : Map Text V

pub record MemoryConfig : Type 0 where
  pub max_session_mb : Option ℕ
  pub max_total_mb : Option ℕ
  pub check_interval_ms : ℕ

pub record SessionConfig : Type 0 where
  pub idle_ttl_secs : ℕ
  pub daemon_idle_ttl_secs : Option ℕ

pub record EffectiveConfig (V : Type 0) : Type 0 where
  pub lsps : Map Text (LspConfig V)
  pub root_markers : List Text
  pub workspace_mode : Text
  pub transport_flags : Map Text Text
  pub memory : MemoryConfig
  pub session : SessionConfig

pub record PartialMemoryConfig : Type 0 where
  pub max_session_mb : Option ℕ
  pub max_total_mb : Option ℕ
  pub check_interval_ms : Option ℕ

pub record PartialSessionConfig : Type 0 where
  pub idle_ttl_secs : Option ℕ
  pub daemon_idle_ttl_secs : Option ℕ

pub record PartialLspConfig (V : Type 0) : Type 0 where
  pub id : Option Text
  pub command : Option Text
  pub args : Option (List Text)
  pub env : Option (Map Text Text)
  pub initialization_options : Option (Map Text V)

pub record PartialConfig (V : Type 0) : Type 0 where
  pub lsp : List (PartialLspConfig V)
  pub root_markers : Option (List Text)
  pub workspace_mode : Option Text
  pub transport_flags : Option (Map Text Text)
  pub memory : Option PartialMemoryConfig
  pub session : Option PartialSessionConfig

abbrev pub default_memory : MemoryConfig
default_memory = record { max_session_mb = none; max_total_mb = none; check_interval_ms = 1000 }

abbrev pub default_session : SessionConfig
default_session = record { idle_ttl_secs = 300; daemon_idle_ttl_secs = some 1800 }

-- `if let Some(x) = new { field = Some(x) }` on a field that is an option itself.
abbrev pub or_keep {ℓ} : {A : Type ℓ} → Option A → Option A → Option A
or_keep none old = old
or_keep (some x) old = some x

unfoldable pub apply_memory : Option PartialMemoryConfig → MemoryConfig → MemoryConfig
apply_memory none m = m
apply_memory (some p) m = record {
  max_session_mb = or_keep p.max_session_mb m.max_session_mb;
  max_total_mb = or_keep p.max_total_mb m.max_total_mb;
  check_interval_ms = unwrap_or p.check_interval_ms m.check_interval_ms;
}

unfoldable pub apply_session : Option PartialSessionConfig → SessionConfig → SessionConfig
apply_session none s = s
apply_session (some p) s = record {
  idle_ttl_secs = unwrap_or p.idle_ttl_secs s.idle_ttl_secs;
  daemon_idle_ttl_secs = or_keep p.daemon_idle_ttl_secs s.daemon_idle_ttl_secs;
}

module _ {V : Type 0} where
  abbrev pub entry_id : PartialLspConfig V → Text
  entry_id p = unwrap_or p.id (codes "default")

  abbrev pub new_lsp : Text → LspConfig V
  new_lsp id = record { id = id; command = []; args = []; env = []; initialization_options = [] }

  abbrev pub merge_lsp : PartialLspConfig V → LspConfig V → LspConfig V
  merge_lsp p x = record {
    id = x.id;
    command = unwrap_or p.command x.command;
    args = unwrap_or p.args x.args;
    env = unwrap_or p.env x.env;
    initialization_options = unwrap_or p.initialization_options x.initialization_options;
  }

  -- The body of the loop over the servers of a layer.
  unfoldable pub apply_lsp : PartialLspConfig V → Map Text (LspConfig V) → Map Text (LspConfig V)
  apply_lsp p lsps =
      insert (entry_id p) (merge_lsp p (unwrap_or (get (entry_id p) lsps) (new_lsp (entry_id p))))
        lsps

  unfoldable pub apply_lsps :
      List (PartialLspConfig V) → Map Text (LspConfig V) → Map Text (LspConfig V)
  unfolding apply_lsp
  apply_lsps [] lsps = lsps
  apply_lsps (p ∷ ps) lsps = apply_lsps ps (apply_lsp p lsps)

  unfoldable pub apply_partial : PartialConfig V → EffectiveConfig V → EffectiveConfig V
  unfolding apply_lsps apply_memory apply_session
  apply_partial p c = record {
    lsps = apply_lsps p.lsp c.lsps;
    root_markers = unwrap_or p.root_markers c.root_markers;
    workspace_mode = unwrap_or p.workspace_mode c.workspace_mode;
    transport_flags = unwrap_or p.transport_flags c.transport_flags;
    memory = apply_memory p.memory c.memory;
    session = apply_session p.session c.session;
  }

  unfoldable pub default_config : EffectiveConfig V
  default_config = record {
    lsps = [];
    root_markers = codes ".git" ∷ [];
    workspace_mode = codes "single";
    transport_flags = [];
    memory = default_memory;
    session = default_session;
  }

pub record ResolvedConfig (V : Type 0) : Type 0 where
  pub project_root : Text
  pub merged : EffectiveConfig V
  pub config_hash : Text

-- The file system, the environment, the codecs of TOML and UTF-8, and SHA-256 in hexadecimal.
pub record Host (V : Type 0) : Type 0 where
  pub current_dir : Result Text Text
  pub realpath : Text → Result Text Text
  pub exists : Text → Bool
  pub read_to_string : Text → Result Text Text
  pub from_str : Text → Result (PartialConfig V) Text
  pub join : Text → Text → Text
  pub home : Option Text
  pub to_string_lossy : Text → Text
  pub utf8 : Text → List ℕ
  pub to_toml : EffectiveConfig V → Text
  pub sha256 : List ℕ → Text

module _ {V : Type 0} (host : Host V) where
  unfoldable pub load_partial_if_exists : Text → Result (Option (PartialConfig V)) ConfigError
  load_partial_if_exists path =
      if host.exists path
      then elim (host.read_to_string path) [
        | err e ↦ err (read path e)
        | ok raw ↦ elim (host.from_str raw) [ err e ↦ err (parse path e) | ok p ↦ ok (some p) ]
      ]
      else ok none

  abbrev pub user_config_path : Text
  user_config_path =
      host.join (host.join (unwrap_or host.home (codes "~")) (codes ".config/lspee"))
        (codes "config.toml")

  unfoldable pub canonical_root_of : Text → Result Text ConfigError
  canonical_root_of root = elim (host.realpath root) [
    | err e ↦ err (canonicalize root e)
    | ok path ↦ ok path
  ]

  unfoldable pub canonical_project_root : Option Text → Result Text ConfigError
  unfolding canonical_root_of
  canonical_project_root none = elim host.current_dir [
    | err e ↦ err (read (codes ".") e)
    | ok dir ↦ canonical_root_of dir
  ]
  canonical_project_root (some path) = canonical_root_of path

  -- `if let Some(cfg) = load_partial_if_exists(&path)? { apply_partial(&mut merged, cfg); }`
  unfoldable pub apply_file : Text → EffectiveConfig V → Result (EffectiveConfig V) ConfigError
  unfolding load_partial_if_exists apply_partial
  apply_file path c = elim (load_partial_if_exists path) [
    | err e ↦ err e
    | ok none ↦ ok c
    | ok (some p) ↦ ok (apply_partial p c)
  ]

  abbrev pub project_config_path : Text → Text
  project_config_path root = host.join root (codes "lspee.toml")

  unfoldable pub hash_identity : Text → EffectiveConfig V → Text
  hash_identity root c =
      host.sha256 (host.utf8 (host.to_string_lossy root) ++ (0 ∷ host.utf8 (host.to_toml c)))

  unfoldable pub resolve : Option Text → Result (ResolvedConfig V) ConfigError
  unfolding canonical_project_root apply_file default_config hash_identity
  resolve override = elim (canonical_project_root override) [
    | err e ↦ err e
    | ok root ↦ elim (apply_file user_config_path default_config) [
      | err e ↦ err e
      | ok c ↦ elim (apply_file (project_config_path root) c) [
        | err e ↦ err e
        | ok merged ↦ ok (record {
          project_root = root;
          merged = merged;
          config_hash = hash_identity root merged;
        })
      ]
    ]
  ]
