-- ===== src/Registry.antt =====
-- crates/lspee_daemon/src/registry.rs: sessions, leases, spawn gates and counters.
-- `Registry/State` has the types, `Registry/Ops` the methods under one lock, `Registry/Acquire`
-- the method `acquire_or_spawn` as a machine of lock regions; the rest are proofs.
pub mod State
pub mod Ops
pub mod Snapshots
pub mod Acquire
pub mod Leases
pub mod Invariant
pub mod System
pub mod Leasing
pub mod Release
pub mod Races
pub mod Regions
pub mod Sample
mod Tests
pub mod Gates
pub mod Answered
pub mod Issuing
pub mod Waking
pub mod Book
pub mod Refines
pub mod Stepwise
pub mod Runs
