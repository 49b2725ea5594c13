-- ===== src/Registry/State.antt =====
-- The types of registry.rs. A `HashMap` is an association list; a `SpawnGate` is shared by
-- reference, so the gates stand in a heap `gate_cells`; an `Instant` and a `Duration` are numbers of
-- nanoseconds; a runtime and an event channel are shared objects, here their identities.
use lspee.Base.{
  ℕ, ◌+◌, ◌%◌, ◌^◌, ◌*◌, ◌≡◌, Bool, true, false, ◌&&◌, Option, none, [], ◌++◌, arith, ◌↔◌,
}
use lspee.Base.Eq.{Eq, list_beq, list_beq_iff, text_eq}
use lspee.Base.Text.{Text, codes}
use lspee.Base.Decimal.{to_string}
use lspee.Base.Map.{Map}
use lspee.Json.{Json}
use lspee.Protocol.{ClientKind, StreamErrorPayload}

abbrev pub default_idle_ttl : ℕ
default_idle_ttl = 300 * 10 ^ 9

-- `root` is a `PathBuf`, whose equality is that of its components: each path stands here in one
-- spelling.
pub record SessionKey : Type 0 where
  pub root : Text
  pub lsp_id : Text
  pub config_hash : Text

unfoldable pub key_beq : SessionKey → SessionKey → Bool
key_beq a b =
    list_beq a.root b.root && list_beq a.lsp_id b.lsp_id && list_beq a.config_hash b.config_hash

pub key_beq_iff : (a b : SessionKey) → (key_beq a b ≡ true) ↔ (a ≡ b)
unfolding key_beq
key_beq_iff a b = ground (
  arith,
  list_beq_iff a.root b.root,
  list_beq_iff a.lsp_id b.lsp_id,
  list_beq_iff a.config_hash b.config_hash,
)

instance abbrev pub key_eq : Eq SessionKey
key_eq = record { beq = key_beq; beq_iff = key_beq_iff }

pub record SessionHandle : Type 0 where
  pub key : SessionKey
  pub transport : Text
  pub runtime : ℕ
  pub initialize_result : Json
  pub events : ℕ

pub record SessionRecord : Type 0 where
  pub handle : SessionHandle
  pub ref_count : ℕ
  pub last_used : ℕ
  pub terminating : Bool
  pub termination_notice : Option StreamErrorPayload

-- `notified` counts the calls of `notify_waiters`: a `Notified` future that was made when the count
-- was `n` is ready as soon as the count is above `n`.
pub record SpawnGate : Type 0 where
  pub notified : ℕ
  pub started : Bool

pub record LeaseRecord : Type 0 where
  pub key : SessionKey
  pub client_kind : Option ClientKind

pub record Lease : Type 0 where
  pub id : Text
  pub key : SessionKey

pub record RegistryCounters : Type 0 where
  pub sessions_spawned_total : ℕ
  pub sessions_reused_total : ℕ
  pub sessions_gc_idle_total : ℕ
  pub sessions_evicted_memory_total : ℕ
  pub session_crashes_total : ℕ
  pub attach_requests_total : ℕ

pub record SessionRegistry : Type 0 where
  pub sessions : Map SessionKey SessionRecord
  pub leases : Map Text LeaseRecord
  pub spawn_gates : Map SessionKey ℕ
  pub gate_cells : Map ℕ SpawnGate
  pub gate_seq : ℕ
  pub counters : RegistryCounters
  pub lease_seq : ℕ
  pub idle_ttl : ℕ

abbrev pub no_counters : RegistryCounters
no_counters = record {
  sessions_spawned_total = 0;
  sessions_reused_total = 0;
  sessions_gc_idle_total = 0;
  sessions_evicted_memory_total = 0;
  session_crashes_total = 0;
  attach_requests_total = 0;
}

unfoldable pub with_idle_ttl : ℕ → SessionRegistry
with_idle_ttl ttl = record {
  sessions = [];
  leases = [];
  spawn_gates = [];
  gate_cells = [];
  gate_seq = 0;
  counters = no_counters;
  lease_seq = 1;
  idle_ttl = ttl;
}

-- `x += 1` on a `u64` or a `usize`, wrapping around as in a release build.
abbrev pub inc64 : ℕ → ℕ
inc64 n = (n + 1) % 2 ^ 64

-- `SessionRecord::new`
unfoldable pub new_record : ℕ → SessionHandle → SessionRecord
new_record now handle = record {
  handle = handle;
  ref_count = 0;
  last_used = now;
  terminating = false;
  termination_notice = none;
}

abbrev pub touched : ℕ → SessionRecord → SessionRecord
touched now r = record r { last_used = now }

-- What both branches of `acquire_or_spawn` do to the record that they lease.
unfoldable pub held : ℕ → SessionRecord → SessionRecord
held now r = record r {
  ref_count = inc64 r.ref_count;
  terminating = false;
  termination_notice = none;
  last_used = now;
}

-- The text of the id that `next_lease_id` makes of the number `n`.
unfoldable pub lease_id : ℕ → Text
lease_id n = codes "lease_" ++ to_string n

-- `next_lease_id`: the id, and the registry after `fetch_add(1)`.
unfoldable pub next_lease_id : SessionRegistry → Text × SessionRegistry
unfolding lease_id
next_lease_id r = (lease_id r.lease_seq, record r { lease_seq = inc64 r.lease_seq })
