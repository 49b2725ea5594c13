-- ===== src/Daemon.antt =====
-- crates/lspee_daemon/src/lib.rs: the control connection and its handlers, the check of session
-- keys, the settings of the memory monitor and the end of the daemon.
pub mod Keys
pub mod KeyCheck
pub mod Defs
pub mod Requests
pub mod Connection
pub mod Handlers
pub mod Dispatch
pub mod Attach
pub mod Ending
pub mod Granting
pub mod Bootstrap
mod Tests
