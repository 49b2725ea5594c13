-- ===== src/Registry/Invariant.antt =====
-- The invariant of a registry whose methods run alone: the count of each session is the number of
-- its leases, ids and keys are unique, and no id will be given out twice. Its children prove that
-- methods keep it; Issues is the part that is kept region by region, too.
mod Defs
pub mod Acquire
pub mod Issues
pub mod Ops
pub mod Alone
pub use Defs.{WellFormed, gates-WellFormed, lease_id_injective}
