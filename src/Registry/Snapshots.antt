-- ===== src/Registry/Snapshots.antt =====
-- The snapshots of registry.rs, with the kinds of the clients of a session, and the counts.
use lspee.Base.{ℕ, ◌-◌, Bool, Option, none, some, List, [], ◌∷◌, map, if◌then◌else◌, length}
use lspee.Base.Eq.{◌==◌, contains, nat_eq, text_eq}
use lspee.Base.Text.{Text}
use lspee.Base.Map.{Map, values}
use lspee.Protocol.{ClientKind, kind_eq}
use lspee.Registry.State.{
  SessionKey, SessionHandle, LeaseRecord, RegistryCounters, SessionRegistry, key_eq,
}

-- `kinds.insert(kind)` on a `HashSet`
abbrev pub add_kind : Option ClientKind → List ClientKind → List ClientKind
add_kind none ks = ks
add_kind (some c) ks = if contains ks c then ks else c ∷ ks

unfoldable pub lease_client_kinds : SessionKey → Map Text LeaseRecord → List ClientKind
lease_client_kinds key [] = []
lease_client_kinds key ((id, l) ∷ m) =
    let rest = lease_client_kinds key m in
    if l.key == key then add_kind l.client_kind rest else rest

pub record MemorySessionSnapshot : Type 0 where
  pub handle : SessionHandle
  pub ref_count : ℕ
  pub idle_for : ℕ
  pub client_kinds : List ClientKind

unfoldable pub memory_snapshots : ℕ → SessionRegistry → List MemorySessionSnapshot
memory_snapshots now r =
    map
      (λ x. record {
        handle = x.handle;
        ref_count = x.ref_count;
        idle_for = now - x.last_used;
        client_kinds = lease_client_kinds x.handle.key r.leases;
      })
      (values r.sessions)

pub record SessionSnapshot : Type 0 where
  pub key : SessionKey
  pub ref_count : ℕ
  pub terminating : Bool
  pub idle_for : ℕ
  pub idle_ttl : ℕ
  pub client_kinds : List ClientKind

pub record RegistrySnapshot : Type 0 where
  pub sessions : List SessionSnapshot
  pub lease_count : ℕ
  pub counters : RegistryCounters

unfoldable pub snapshot : ℕ → SessionRegistry → RegistrySnapshot
snapshot now r = record {
  sessions =
      map
        (λ x. record {
          key = x.handle.key;
          ref_count = x.ref_count;
          terminating = x.terminating;
          idle_for = now - x.last_used;
          idle_ttl = r.idle_ttl;
          client_kinds = lease_client_kinds x.handle.key r.leases;
        })
        (values r.sessions);
  lease_count = length r.leases;
  counters = r.counters;
}

unfoldable pub session_count : SessionRegistry → ℕ
session_count r = length r.sessions

unfoldable pub lease_count : SessionRegistry → ℕ
lease_count r = length r.leases
