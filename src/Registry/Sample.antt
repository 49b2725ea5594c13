-- ===== src/Registry/Sample.antt =====
-- A registry with one session, and its requests, for the tests.
use lspee.Base.{ℕ, ◌≡◌, refl, none, some, ok, arith, false}
use lspee.Base.Text.{codes}
use lspee.Base.Map.{get, insert, modify}
use lspee.Base.Decimal.{to_string, digits}
use lspee.Base.Eq.{list_beq, text_eq, nat_eq}
use lspee.Json.{null}
use lspee.Protocol.{editor}
use lspee.Registry.State.{
  key_eq, SessionKey, SessionHandle, SessionRecord, LeaseRecord, SessionRegistry, key_beq,
  new_record, held, lease_id, with_idle_ttl,
}
use lspee.Registry.Acquire.{Request, World, acquire_or_spawn}
use lspee.Registry.Ops.{release_by_lease_id}
use lspee.Registry.Invariant.{WellFormed}
use lspee.Registry.Invariant.Alone.{acquire_or_spawn-WellFormed}
use lspee.Registry.Invariant.Ops.{with_idle_ttl-WellFormed, release-WellFormed}

abbrev pub key_a : SessionKey
key_a = record { root = codes "/a"; lsp_id = codes "rust"; config_hash = codes "h" }

abbrev pub handle_a : SessionHandle
handle_a = record {
  key = key_a;
  transport = codes "stdio";
  runtime = 7;
  initialize_result = null;
  events = 7;
}

abbrev pub by_editor : Request
by_editor = record { key = key_a; client_kind = some editor }

abbrev pub spawn_a : World
spawn_a = record { now = 5; outcome = ok handle_a }

abbrev pub record_a : ℕ → SessionRecord
record_a n = record {
  handle = handle_a;
  ref_count = n;
  last_used = 5;
  terminating = false;
  termination_notice = none;
}

abbrev pub lease_a : LeaseRecord
lease_a = record { key = key_a; client_kind = some editor }

abbrev pub empty : SessionRegistry
empty = with_idle_ttl 10

-- The registry after one call, and after the release of its lease.
abbrev pub leased : SessionRegistry
leased = (acquire_or_spawn by_editor spawn_a empty).0

abbrev pub released : SessionRegistry
released = (release_by_lease_id 5 (lease_id 1) leased).0

pub empty-WellFormed : WellFormed empty
empty-WellFormed = with_idle_ttl-WellFormed 10

pub leased-WellFormed : WellFormed leased
unfolding with_idle_ttl
leased-WellFormed =
    acquire_or_spawn-WellFormed by_editor spawn_a empty empty-WellFormed (omega arith) refl

pub released-WellFormed : WellFormed released
released-WellFormed = release-WellFormed 5 (lease_id 1) leased leased-WellFormed

pub get-leased : get key_a leased.sessions ≡ some (record_a 1)
unfolding acquire_or_spawn with_idle_ttl get insert modify key_beq list_beq new_record held
get-leased = refl

pub get-leased_lease : get (lease_id 1) leased.leases ≡ some lease_a
unfolding acquire_or_spawn with_idle_ttl get insert list_beq lease_id to_string digits
get-leased_lease = refl

pub leased-seq : leased.lease_seq ≡ 2
unfolding acquire_or_spawn with_idle_ttl get insert
leased-seq = refl

pub leased-ttl : leased.idle_ttl ≡ 10
unfolding acquire_or_spawn with_idle_ttl get insert
leased-ttl = refl

pub get-released : get key_a released.sessions ≡ some (record_a 0)
unfolding release_by_lease_id acquire_or_spawn with_idle_ttl get insert modify key_beq list_beq
    new_record held lease_id to_string digits
get-released = refl

pub released-seq : released.lease_seq ≡ 2
unfolding release_by_lease_id acquire_or_spawn with_idle_ttl get insert list_beq lease_id to_string
    digits
released-seq = refl
