-- ===== src/Memory.antt =====
-- crates/lspee_daemon/src/memory.rs: samples of memory, the choice of the sessions that go, and
-- one round of the monitor. Its children prove what the choice guarantees.
pub mod Sort
pub mod Choice
pub mod Order
pub mod Round
mod Defs
mod Evict
unfoldable pub use Defs.*
mod Tests
