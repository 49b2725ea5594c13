-- ===== src/Lsp.antt =====
-- crates/lspee_lsp/src/lib.rs: the frames of the base protocol, the task that reads them, and the
-- call of a language server.
pub mod Defs
pub mod RoundTrip
pub mod Total
pub mod Runtime
mod Tests
