-- ===== src/Registry/Invariant/Defs.antt =====
-- The invariant, and the ids of leases.
use lspee.Base.{false, ℕ, ◌≤◌, ◌<◌, ◌^◌, ◌≡◌, ◌≢◌, none, some, length}
use lspee.Base.Eq.{◌==◌, text_eq, beq_ne}
use lspee.Base.Decimal.{to_string_injective}
use lspee.Base.Map.{Map, Unique, get}
use lspee.Registry.State.{
  SessionKey, SessionRecord, SessionRegistry, SpawnGate, RegistryCounters, key_eq, lease_id,
}
use lspee.Registry.Leases.{count, refs}

pub record WellFormed (r : SessionRegistry) : Type 0 where
  pub sessions_unique : Unique r.sessions
  pub leases_unique : Unique r.leases
  pub counted : (k : SessionKey) → refs (get k r.sessions) ≡ count k r.leases
  pub keyed : (k : SessionKey) (x : SessionRecord) → get k r.sessions ≡ some x → x.handle.key ≡ k
  pub fresh : (n : ℕ) → r.lease_seq ≤ n → get (lease_id n) r.leases ≡ none
  pub few : length r.leases < r.lease_seq
  pub bounded : r.lease_seq < 2 ^ 64

pub lease_id_injective : (n m : ℕ) → lease_id n ≡ lease_id m → n ≡ m
unfolding lease_id
lease_id_injective n m h = to_string_injective n m (cc)

pub lease_id_ne : (n m : ℕ) → n ≢ m → (lease_id n == lease_id m) ≡ false
lease_id_ne n m h = beq_ne (lease_id n) (lease_id m) (λ e. h (lease_id_injective n m e))

-- Gates and counters have no part in it.
pub gates-WellFormed :
    (r : SessionRegistry) (gates : Map SessionKey ℕ) (cells : Map ℕ SpawnGate) (n : ℕ)
    (c : RegistryCounters)
    → WellFormed r
    → WellFormed (record r { spawn_gates = gates; gate_cells = cells; gate_seq = n; counters = c })
gates-WellFormed r gates cells n c v = record {
  sessions_unique = v.sessions_unique;
  leases_unique = v.leases_unique;
  counted = v.counted;
  keyed = v.keyed;
  fresh = v.fresh;
  few = v.few;
  bounded = v.bounded;
}
