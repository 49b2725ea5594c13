-- ===== src/Config.antt =====
-- crates/lspee_config: the layers of the configuration (src/lib.rs) and the catalog of language
-- servers (src/languages.rs), and how the daemon finds the command of a server
-- (crates/lspee_daemon/src/lib.rs).
pub mod Defs
pub mod Layers
pub mod Languages
pub mod Catalog
pub mod Server
mod Tests
