-- ===== src/Stream.antt =====
-- crates/lspee_daemon/src/stream.rs: the dedicated stream of one lease. `Stream/Defs` has its tasks,
-- `Stream/Frames` what they carry, `Stream/Ending` what becomes of the lease.
pub mod Defs
pub mod Frames
pub mod Ending
mod Tests
