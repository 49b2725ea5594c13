-- ===== src/Lib.antt =====
-- A verification library for lspee, a local daemon that lets editors and agents share language
-- servers.
--
-- The program. The daemon (crates/lspee_daemon) listens on a socket for control connections. A
-- client sends lines of JSON: it attaches to a session, which is a language server for a
-- project root, a server id and a hash of the configuration, and gets a lease; it calls and
-- notifies the server through the lease, and releases it. Sessions and leases live in a
-- registry that all connections share with two background loops: one evicts sessions that are
-- idle, and stops a daemon without sessions; the other evicts sessions that take too much
-- memory. A session's server is a process that the daemon speaks to in frames of the base
-- protocol (crates/lspee_lsp). The command `lspee do` (crates/lspee_cli) is a client: it
-- attaches, makes one request to the server and releases.
--
-- The parts.
-- - Base: tests, lists, texts, maps and decimal numbers, with the lemmas that the parts share.
-- - Json: the tree of a JSON document.
-- - Protocol: the messages of crates/lspee_protocol/src/lib.rs.
-- - Registry: crates/lspee_daemon/src/registry.rs. Registry/State has its types, Registry/Ops
--   the methods that take a lock and leave (each under its own name), Registry/Snapshots those
--   that only read, Registry/Acquire the method acquire_or_spawn. The latter is a machine: the
--   type Phase names the places between its lock regions and awaits, and advance makes the
--   region that follows. Registry/Regions has the regions of release_by_lease_id and remove,
--   and two schedules. Registry/System lets any number of calls, releases and removals take
--   turns region by region, with the methods that take one lock in between; Registry/Answered
--   and Registry/Issuing are about the ids of leases in it. Registry/Invariant is about the
--   invariant WellFormed of a registry whose releases and removals run alone, and about its
--   part Issues, which does not need that. Registry/Leasing and Registry/Release are about
--   single calls, Registry/Races about two schedules. Registry/Gates and Registry/Waking are
--   about the calls that wait at a gate. Registry/Book is an abstract view, a book of leases
--   that forgets records, times and gates; Registry/Refines, Registry/Stepwise and
--   Registry/Runs compare the registry with it.
-- - Stopping: the requests to processes and clients that the loops make, as values.
-- - Memory: crates/lspee_daemon/src/memory.rs. Memory/Defs has the choice of the sessions to
--   evict, Memory/Evict their eviction and the monitor's round; Memory/Sort, Memory/Choice and
--   Memory/Order are about the choice, Memory/Round about a round on a registry.
-- - Eviction: crates/lspee_daemon/src/eviction.rs, a round of the loop and the daemon's clock.
-- - Daemon: crates/lspee_daemon/src/lib.rs. Daemon/Keys has validate_session_key and
--   preferred_stream_mode, Daemon/Defs the handlers of attach and release, Daemon/Requests the
--   other handlers and the dispatcher, Daemon/Connection the loop of a connection and
--   shutdown_all_sessions, Daemon/Bootstrap the handshake with a new server; the rest are
--   proofs.
-- - Lsp: crates/lspee_lsp/src/lib.rs. Lsp/Defs has the frames, the reader task and the writer
--   task, Lsp/Runtime the methods of LspRuntime; Lsp/RoundTrip and Lsp/Total are proofs.
-- - Stream: crates/lspee_daemon/src/stream.rs, the dedicated stream of a lease. Stream/Defs has
--   its tasks, Stream/Frames is about what they carry, Stream/Ending about the lease.
-- - Config: crates/lspee_config. Config/Defs has the layers and resolve of src/lib.rs,
--   Config/Languages the catalog of src/languages.rs, Config/Server the function
--   resolve_lsp_config of crates/lspee_daemon/src/lib.rs that asks both; Config/Layers and
--   Config/Catalog are proofs.
-- - Cli: crates/lspee_cli/src/commands/do_cmd.rs and client.rs. Cli/Args has the arguments,
--   Cli/Requests the choice of a server and the request, Cli/Responses what becomes of an
--   answer, Cli/Client the functions of client.rs, Cli/Frames the frames that the command
--   writes, Cli/Run its functions over a connection, up to run_async. Cli/Lifecycle and
--   Cli/Endings are about the order of the frames, Cli/Answers about the answers, Cli/Building,
--   Cli/Enriching and Cli/Locating about the two documents, Cli/Served, Cli/Steps and
--   Cli/Restoring about a run over the connection loop of Daemon, Cli/Leaking about one whose
--   source file is too large for it.
--
-- Conventions. A HashMap is an association list, whose order stands for any order of iteration.
-- An Instant and a Duration are numbers of nanoseconds, and a method gets the time that it
-- reads as an argument. A u64 or a usize that grows wraps around, as in a release build. A text
-- is the list of its code points; a stream of a process is the list of its bytes. A runtime is
-- a number, and what it answers is a function of that number. Spawn gates, which calls share by
-- reference, stand in a heap. A path is a text, and is shown as that text (the names of files
-- are taken to be UTF-8) except in hash_identity, where the lossy text is a parameter; in a
-- SessionKey, whose roots are compared by their components, one spelling stands for every
-- spelling of a path. Memory is allocated without fail.
--
-- The methods of Registry/Ops are one step each. Two of them, release_by_lease_id and remove,
-- take several locks one after the other: there they are the methods as a caller runs them
-- alone, and WellFormed, with its count of the leases of each session, is kept by the methods
-- as such and not by every interleaving of their regions, as the schedules of Registry/Regions
-- show.
--
-- Code of other crates is a parameter: the decoders of serde_json, the spawn of a server, the
-- answers of its process (the record Outside of Daemon/Defs), the JSON and UTF-8 codecs of a
-- stream (the record Codec of Lsp/Defs, with the hypotheses IsCodec), and the file system, the
-- environment, TOML and SHA-256 (the records Host of Config/Defs, with the hypotheses IsUtf8,
-- and Shell of Config/Languages). For the command line they are the file system and the crate
-- url (the record Files of Cli/Requests), the printer of serde_json (Printer of Cli/Responses),
-- serde's encoders and the clock (Process of Cli/Frames), and the other end of the connection
-- (Peer of Cli/Client); Agrees of Cli/Served says that frames and requests are read as they
-- were written. A frame that is written after the daemon has hung up is lost. A connection of
-- the command reads the lines that the peer has written; when none is left the socket is
-- closed, so a peer that stays silent for ever is not modelled.
--
-- Fuel. A call of acquire_or_spawn that runs alone makes six regions at most, the number that
-- acquire_or_spawn gives to advance_many; one that has to wait is left waiting. The digits of a
-- number n get n as fuel. A reader of a stream gets the length of the stream and one: each
-- header line takes a byte at least.
--
-- A connection of Daemon/Connection runs alone; what other connections do to the registry in
-- between is the matter of Registry/System. A read or a write on a socket that fails is not
-- modelled.
--
-- Not modelled: the start of a server's process, the proxy and the other commands of the
-- command line, and the MCP server; the queues between the tasks of a stream and its socket;
-- sockets, processes, timers and logging.
pub mod Base
pub mod Json
pub mod Protocol
pub mod Registry
pub mod Stopping
pub mod Memory
pub mod Eviction
pub mod Daemon
pub mod Lsp
pub mod Config
pub mod Stream
pub mod Cli
