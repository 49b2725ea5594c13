-- ===== src/Cli/Args.antt =====
-- The arguments of do_cmd.rs, a method and what is asked of it. A path is its text.
use lspee.Base.{ℕ, Bool, true, false, Option, none, some}
use lspee.Base.Text.{Text, codes}

pub data DoOutput : Type 0 where
  json pretty : DoOutput

pub record SharedArgs : Type 0 where
  pub lsp : Option Text
  pub root : Option Text
  pub no_start_daemon : Bool
  pub output : DoOutput

pub record PositionArgs : Type 0 where
  pub shared : SharedArgs
  pub file : Text
  pub line : ℕ
  pub col : ℕ

pub record ReferencesArgs : Type 0 where
  pub position : PositionArgs
  pub include_declaration : Bool

pub record RenameArgs : Type 0 where
  pub position : PositionArgs
  pub new_name : Text

pub record CodeActionArgs : Type 0 where
  pub position : PositionArgs
  pub end_line : Option ℕ
  pub end_col : Option ℕ

pub record FileOnlyArgs : Type 0 where
  pub shared : SharedArgs
  pub file : Text

pub record FormattingArgs : Type 0 where
  pub shared : SharedArgs
  pub file : Text
  pub tab_size : ℕ
  pub insert_spaces : Bool

pub record WorkspaceSymbolArgs : Type 0 where
  pub lsp : Text
  pub root : Option Text
  pub no_start_daemon : Bool
  pub output : DoOutput
  pub query : Text

pub data DoMethod : Type 0 where
  hover : PositionArgs → DoMethod
  definition : PositionArgs → DoMethod
  references : ReferencesArgs → DoMethod
  implementation : PositionArgs → DoMethod
  type_definition : PositionArgs → DoMethod
  completion : PositionArgs → DoMethod
  signature_help : PositionArgs → DoMethod
  rename : RenameArgs → DoMethod
  code_action : CodeActionArgs → DoMethod
  formatting : FormattingArgs → DoMethod
  symbols : FileOnlyArgs → DoMethod
  workspace_symbols : WorkspaceSymbolArgs → DoMethod
  diagnostics : FileOnlyArgs → DoMethod

pub record DoCommand : Type 0 where
  pub method : DoMethod

pub record LspPosition : Type 0 where
  pub line : ℕ
  pub character : ℕ

pub record RequestMeta : Type 0 where
  pub lsp_method : Text
  pub file_path : Option Text
  pub position : Option LspPosition

unfoldable pub shared_args : DoMethod → SharedArgs
shared_args (hover a) = a.shared
shared_args (definition a) = a.shared
shared_args (completion a) = a.shared
shared_args (implementation a) = a.shared
shared_args (type_definition a) = a.shared
shared_args (signature_help a) = a.shared
shared_args (references a) = a.position.shared
shared_args (rename a) = a.position.shared
shared_args (code_action a) = a.position.shared
shared_args (formatting a) = a.shared
shared_args (symbols a) = a.shared
shared_args (diagnostics a) = a.shared
shared_args (workspace_symbols a) = record {
  lsp = some a.lsp;
  root = a.root;
  no_start_daemon = a.no_start_daemon;
  output = a.output;
}

unfoldable pub file_path : DoMethod → Option Text
file_path (hover a) = some a.file
file_path (definition a) = some a.file
file_path (completion a) = some a.file
file_path (implementation a) = some a.file
file_path (type_definition a) = some a.file
file_path (signature_help a) = some a.file
file_path (references a) = some a.position.file
file_path (rename a) = some a.position.file
file_path (code_action a) = some a.position.file
file_path (formatting a) = some a.file
file_path (symbols a) = some a.file
file_path (diagnostics a) = some a.file
file_path (workspace_symbols a) = none

unfoldable pub lsp_method_name : DoMethod → Text
lsp_method_name (hover a) = codes "textDocument/hover"
lsp_method_name (definition a) = codes "textDocument/definition"
lsp_method_name (references a) = codes "textDocument/references"
lsp_method_name (implementation a) = codes "textDocument/implementation"
lsp_method_name (type_definition a) = codes "textDocument/typeDefinition"
lsp_method_name (completion a) = codes "textDocument/completion"
lsp_method_name (signature_help a) = codes "textDocument/signatureHelp"
lsp_method_name (rename a) = codes "textDocument/rename"
lsp_method_name (code_action a) = codes "textDocument/codeAction"
lsp_method_name (formatting a) = codes "textDocument/formatting"
lsp_method_name (symbols a) = codes "textDocument/documentSymbol"
lsp_method_name (workspace_symbols a) = codes "workspace/symbol"
lsp_method_name (diagnostics a) = codes "textDocument/diagnostic"

unfoldable pub needs_location_enrichment : DoMethod → Bool
needs_location_enrichment (definition a) = true
needs_location_enrichment (references a) = true
needs_location_enrichment (implementation a) = true
needs_location_enrichment (type_definition a) = true
needs_location_enrichment _ = false
