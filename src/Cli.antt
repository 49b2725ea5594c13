-- ===== src/Cli.antt =====
-- crates/lspee_cli/src/commands/do_cmd.rs and client.rs: the command `lspee do` and its client of
-- the control socket. `Cli/Args` has the arguments, `Cli/Requests` and `Cli/Responses` the two
-- JSON documents, `Cli/Client` the exchanges with the daemon, `Cli/Run` the whole command.
pub mod Args
pub mod Requests
pub mod Responses
pub mod Client
pub mod Connecting
pub mod Frames
pub mod Run
pub mod Lifecycle
pub mod Endings
pub mod Answers
pub mod Enriching
pub mod Locating
pub mod Building
pub mod Served
pub mod Steps
pub mod Restoring
pub mod Leaking
mod Serde
mod Tests
