-- ===== src/Registry/Regions.antt =====
-- `release_by_lease_id` and `remove` take their locks one after the other. Their regions, and two
-- schedules in which a call runs between them.
use lspee.Base.{ℕ, ◌≡◌, refl, not, true, Option, none, some, arith, ok}
use lspee.Base.Eq.{◌==◌, text_eq, nat_eq, beq_refl}
use lspee.Base.Text.{Text}
use lspee.Base.Map
use lspee.Base.Map.{
  get, insert, modify, retain, get-insert, get-modify, get-remove, get-retain, insert-Unique,
  retain-Unique, remove-Unique,
}
use lspee.Registry.State.{
  SessionKey, SessionHandle, SessionRegistry, LeaseRecord, key_eq, held, new_record, lease_id,
}
use lspee.Registry.Ops.{
  release_by_lease_id, dropped, left_over, remove, handle_for_lease_id, session_handle,
}
use lspee.Registry.Acquire.{Request, World, returned, acquire_or_spawn}
use lspee.Registry.Leases.{count, refs, count-retain}
use lspee.Registry.Leasing.{gate_open, acquire_spawns}

-- `self.leases.write().await.remove(lease_id)?.key`
unfoldable pub take_lease : Text → SessionRegistry → SessionRegistry × Option SessionKey
take_lease id r = elim (get id r.leases) [
  | none ↦ (r, none)
  | some lease ↦ (record r { leases = Map.remove id r.leases }, some lease.key)
]

-- The region under the lock of the sessions.
unfoldable pub drop_count : ℕ → SessionKey → SessionRegistry → SessionRegistry × ℕ
unfolding dropped
drop_count now key r =
    (record r { sessions = modify key (dropped now) r.sessions }, left_over (get key r.sessions))

unfoldable pub remove_session : SessionKey → SessionRegistry → SessionRegistry
remove_session key r = record r { sessions = Map.remove key r.sessions }

unfoldable pub retain_leases : SessionKey → SessionRegistry → SessionRegistry
retain_leases key r = record r { leases = retain (λ _ l. not (l.key == key)) r.leases }

unfoldable pub remove_gate : SessionKey → SessionRegistry → SessionRegistry
remove_gate key r = record r { spawn_gates = Map.remove key r.spawn_gates }

-- With nothing in between the regions are the method.
pub remove-regions :
    (key : SessionKey) (r : SessionRegistry)
    → remove_gate key (retain_leases key (remove_session key r)) ≡ remove key r
unfolding remove remove_gate retain_leases remove_session
remove-regions key r = refl

pub release-regions :
    (now : ℕ) (id : Text) (r : SessionRegistry)
    → release_by_lease_id now id r ≡ elim (take_lease id r).1 [
      | none ↦ ((take_lease id r).0, none)
      | some key ↦ let (r', n) = drop_count now key (take_lease id r).0 in (r', some n)
    ]
unfolding release_by_lease_id take_lease drop_count
release-regions now id r = ground arith

-- A call that spawns a session anew between the first two regions of its removal, with its gate
-- open and a spawn that succeeds, returns a lease, and after the removal the session counts one
-- lease and no lease is on it.
pub respawned_under_remove :
    (q : Request) (w : World) (h : SessionHandle) (r : SessionRegistry)
    → gate_open q.key r ≡ true
    → w.outcome ≡ ok h
    → let (r₁, p) = acquire_or_spawn q w (remove_session q.key r) in
      let r₂ = remove_gate q.key (retain_leases q.key r₁) in
      (p ≡ returned (ok (record { id = lease_id r.lease_seq; key = q.key })))
      × (refs (get q.key r₂.sessions) ≡ 1)
      × (count q.key r₂.leases ≡ 0)
unfolding remove_session retain_leases remove_gate held new_record
respawned_under_remove q w h r open_gate s =
    let r₀ = remove_session q.key r in
    let gone : get q.key r₀.sessions ≡ none =
      ground (arith, get-remove q.key q.key r.sessions, beq_refl q.key) in
    let (returns, session, leases) = acquire_spawns q w r₀ h gone open_gate s in
    (
      returns,
      rw session refl,
      ground (arith, count-retain q.key q.key (acquire_or_spawn q w r₀).0.leases, beq_refl q.key),
    )

-- If the session of a lease is removed and spawned anew between the two regions of the lease's
-- release, then after the release the new session counts no lease, while the lease of the call
-- that spawned it has its handle.
pub released_late :
    (q : Request) (w : World) (h : SessionHandle) (now : ℕ) (id : Text) (l : LeaseRecord)
    (r : SessionRegistry)
    → get id r.leases ≡ some l
    → l.key ≡ q.key
    → w.outcome ≡ ok h
    → let (r₀, key) = take_lease id r in
      let (r₁, p) = acquire_or_spawn q w (remove q.key r₀) in
      let r₂ = (drop_count now q.key r₁).0 in
      (key ≡ some q.key)
      × (p ≡ returned (ok (record { id = lease_id r.lease_seq; key = q.key })))
      × (refs (get q.key r₂.sessions) ≡ 0)
      × (handle_for_lease_id r₂ (lease_id r.lease_seq) ≡ some h)
unfolding take_lease drop_count dropped remove held new_record handle_for_lease_id session_handle
released_late q w h now id l r e k s =
    let r₀ = remove q.key (record r { leases = Map.remove id r.leases }) in
    let gone : get q.key r₀.sessions ≡ none =
      ground (arith, get-remove q.key q.key r.sessions, beq_refl q.key) in
    let open_gate : gate_open q.key r₀ ≡ true =
      ground (arith, get-remove q.key q.key r.spawn_gates, beq_refl q.key) in
    let (returns, session, leases) = acquire_spawns q w r₀ h gone open_gate s in
    let r₁ = (acquire_or_spawn q w r₀).0 in
    rw (e, take_lease)
      (
        rw k refl,
        returns,
        ground (arith, session, beq_refl q.key, get-modify q.key q.key (dropped now) r₁.sessions),
        ground (
          arith,
          session,
          leases,
          beq_refl q.key,
          beq_refl (lease_id r.lease_seq),
          get-modify q.key q.key (dropped now) r₁.sessions,
          get-insert (lease_id r.lease_seq) (lease_id r.lease_seq)
              (record { key = q.key; client_kind = q.client_kind }) r₀.leases,
        ),
      )
