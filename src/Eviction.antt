-- ===== src/Eviction.antt =====
-- crates/lspee_daemon/src/eviction.rs: the loop that stops idle sessions, and the daemon's own
-- clock, by which it stops after a time without sessions.
pub mod Rounds
pub mod Clock
mod Defs
unfoldable pub use Defs.*
mod Tests
