-- ===== src/Config/Server.antt =====
-- `resolve_lsp_config` of crates/lspee_daemon/src/lib.rs: the command of a language server.
use lspee.Base.{◌≡◌, refl, Bool, not, Option, none, some, [], arith, if◌then◌else◌, Result, ok, err}
use lspee.Base.Eq.{text_eq}
use lspee.Base.Text.{Text, codes, is_empty, trim}
use lspee.Base.Map.{get}
use lspee.Config.Defs.{ConfigError, LspConfig, ResolvedConfig, Host, project_config_path}
use lspee.Config.Languages.{LspSelection, LanguageRegistryFile, Shell, lsp_for_id}

pub data ServerError : Type 0 where
  config_error : ConfigError → ServerError
  no_command : Text → ServerError

abbrev pub is_blank : Text → Bool
is_blank s = is_empty (trim s)

module _ {V : Type 0} where
  -- The gaps of a configured server, filled in from the catalog.
  unfoldable pub fill_gaps : Option LspSelection → LspConfig V → LspConfig V
  fill_gaps none x = x
  fill_gaps (some c) x = record x {
    command = if is_blank x.command then c.command else x.command;
    args = if is_empty x.args then c.args else x.args;
  }

  unfoldable pub from_catalog : Text → Option LspSelection → Result (LspConfig V) ServerError
  from_catalog id none = err (no_command id)
  from_catalog id (some c) = ok (record {
    id = id;
    command = c.command;
    args = c.args;
    env = [];
    initialization_options = [];
  })

  unfoldable pub choose_server :
      Text → Option (LspConfig V) → Option LspSelection → Result (LspConfig V) ServerError
  unfolding fill_gaps from_catalog
  choose_server id none catalog = from_catalog id catalog
  choose_server id (some x) catalog =
      let other = from_catalog id catalog in
      if not (is_blank (fill_gaps catalog x).command) then ok (fill_gaps catalog x) else other

  unfoldable pub resolve_lsp_config :
      Host V
      → Shell
      → LanguageRegistryFile
      → ResolvedConfig V
      → Text
      → Text
      → Result (LspConfig V) ServerError
  unfolding lsp_for_id choose_server
  resolve_lsp_config host shell default_languages resolved project_root id =
      let user : Option Text = elim host.home [
        | none ↦ none
        | some home ↦ some (host.join home (codes ".config/lspee/config.toml"))
      ] in
      elim (lsp_for_id host shell default_languages id user
        (some (project_config_path host project_root))) [
          | err e ↦ err (config_error e)
          | ok catalog ↦ choose_server id (get id resolved.merged.lsps) catalog
        ]

  -- The command of an answer.
  abbrev pub command_in : Result (LspConfig V) ServerError → Option Text
  command_in (ok x) = some x.command
  command_in (err e) = none

  -- What the two places say of the command: the configuration's, unless it is blank, or else the
  -- catalog's, if the catalog has the server.
  abbrev pub expected_command : Option (LspConfig V) → Option LspSelection → Option Text
  expected_command none none = none
  expected_command none (some c) = some c.command
  expected_command (some x) none = if is_blank x.command then none else some x.command
  expected_command (some x) (some c) = some (if is_blank x.command then c.command else x.command)

  -- A server's command is the configuration's unless that is blank, and else the catalog's, a
  -- blank one too; there is no answer exactly if the catalog lacks the server and the
  -- configuration has no command for it that is not blank.
  pub command-choose_server :
      (id : Text) (configured : Option (LspConfig V)) (catalog : Option LspSelection)
      → command_in (choose_server id configured catalog) ≡ expected_command configured catalog
  unfolding choose_server fill_gaps from_catalog
  command-choose_server id none none = refl
  command-choose_server id none (some c) = refl
  command-choose_server id (some x) none = ground arith
  command-choose_server id (some x) (some c) = ground arith
