-- ===== src/Registry/Release.antt =====
-- Releases, live leases and idle sessions.
use lspee.Base.{
  ℕ, ◌+◌, ◌-◌, ◌≤◌, ◌<◌, ◌^◌, ◌≡◌, true, false, not, none, some, arith, if◌then◌else◌, Option-cases,
  inl, inr, [], ◌∷◌, All, All-map-filter,
}
use lspee.Base.Eq.{◌==◌, text_eq, nat_eq, beq_refl}
use lspee.Base.Text.{Text}
use lspee.Base.Map.{
  Map, values, get, get-insert, get-modify, get-remove, get-retain, get-map_values, values-HasKey,
}
use lspee.Registry.State.{
  SessionKey, SessionHandle, SessionRecord, SessionRegistry, LeaseRecord, key_eq, key_beq_iff, held,
  lease_id,
}
use lspee.Registry.Leases.{count, refs, count-le}
use lspee.Registry.Ops.{
  session_handle, handle_for_lease_id, release_by_lease_id, dropped, remove, is_idle, mark_idle,
  idle_candidates,
}
use lspee.Registry.Acquire.{Request, World, acquire_or_spawn}
use lspee.Registry.Leasing.{acquire_reuses}
use lspee.Registry.Invariant.{WellFormed}

pub count_pos :
    (id : Text) (l : LeaseRecord) (m : Map Text LeaseRecord) → get id m ≡ some l → 0 < count l.key m
unfolding count get
count_pos id l [] e = absurd (cc)
count_pos id l ((i, w) ∷ m) e = ground (arith, count_pos id l m, beq_refl l.key)

-- In a well-formed registry a lease has a handle, and the handle's key is the lease's.
pub handle_for_lease_lem :
    (r : SessionRegistry) (id : Text) (l : LeaseRecord)
    → WellFormed r
    → get id r.leases ≡ some l
    → (h : SessionHandle) × (handle_for_lease_id r id ≡ some h) × (h.key ≡ l.key)
unfolding handle_for_lease_id session_handle
handle_for_lease_lem r id l v e = elim (Option-cases (get l.key r.sessions)) [
  | inl n ↦ absurd (ground (arith, v.counted l.key, count_pos id l r.leases e))
  | inr (x, p) ↦ (x.handle, ground arith, v.keyed l.key x p)
]

-- A lease can be released once.
pub release_twice :
    (r : SessionRegistry) (id : Text) (now later : ℕ)
    → (release_by_lease_id later id (release_by_lease_id now id r).0).1 ≡ none
unfolding release_by_lease_id
release_twice r id now later = ground (arith, get-remove id id r.leases, beq_refl id)

-- In a well-formed registry the release of a lease answers the number of leases that are left on
-- its session, the session's count is that number, and the lease is gone.
pub release_counts :
    (r : SessionRegistry) (id : Text) (l : LeaseRecord) (now : ℕ)
    → WellFormed r
    → get id r.leases ≡ some l
    → let (r', answer) = release_by_lease_id now id r in
      (answer ≡ some (count l.key r.leases - 1))
      × (refs (get l.key r'.sessions) ≡ count l.key r.leases - 1)
      × (get id r'.leases ≡ none)
unfolding release_by_lease_id dropped
release_counts r id l now v e = ground (
  arith,
  v.counted l.key,
  get-modify l.key l.key (dropped now) r.sessions,
  key_beq_iff l.key l.key,
  get-remove id id r.leases,
  beq_refl id,
)

-- In a well-formed registry with a lease id left, leasing a session that is there and releasing
-- that lease answers the count that the session had, restores the count, and leaves no such lease.
pub release-acquire :
    (q : Request) (w : World) (r : SessionRegistry) (x : SessionRecord) (now : ℕ)
    → WellFormed r
    → r.lease_seq + 1 < 2 ^ 64
    → get q.key r.sessions ≡ some x
    → let (r', answer) =
        release_by_lease_id now (lease_id r.lease_seq) (acquire_or_spawn q w r).0 in
      (answer ≡ some x.ref_count)
      × (refs (get q.key r'.sessions) ≡ x.ref_count)
      × (get (lease_id r.lease_seq) r'.leases ≡ none)
unfolding release_by_lease_id dropped held
release-acquire q w r x now v room e =
    let leased = acquire_reuses q w r x e in
    let r' = (acquire_or_spawn q w r).0 in
    let id = lease_id r.lease_seq in
    ground (
      arith,
      leased,
      get-insert id id (record { key = q.key; client_kind = q.client_kind }) r.leases,
      beq_refl id,
      key_beq_iff q.key q.key,
      get-modify q.key q.key (dropped now) r'.sessions,
      get-remove id id r'.leases,
      v.counted q.key,
      count-le q.key r.leases,
      v.few,
    )

-- The removal of a session from a well-formed registry leaves no session of the key, drops each
-- lease on it and keeps each other lease.
pub remove_lem :
    (r : SessionRegistry) (key : SessionKey) (id : Text)
    → WellFormed r
    → (get key (remove key r).sessions ≡ none)
      × (get id (remove key r).leases
          ≡ elim (get id r.leases) [ none ↦ none | some l ↦ if l.key == key then none else some l ])
unfolding remove
remove_lem r key id v = ground (
  arith,
  get-remove key key r.sessions,
  beq_refl key,
  get-retain (λ _ l. not (l.key == key)) id r.leases v.leases_unique,
)

-- What a sweep promises of each handle that it hands out.
abbrev pub Swept : ℕ → SessionRegistry → SessionHandle → Type 0
Swept now r h =
    (x : SessionRecord) × (get h.key r.sessions ≡ some x)
    × (x.terminating ≡ false)
    × (r.idle_ttl ≤ now - x.last_used)
    × (count h.key r.leases ≡ 0)
    × (get h.key (idle_candidates now r).0.sessions ≡ some (record x { terminating = true }))

swept :
    (now : ℕ) (r : SessionRegistry)
    → WellFormed r
    → (x : SessionRecord) → (k : SessionKey) × (get k r.sessions ≡ some x)
    → is_idle now r.idle_ttl x ≡ true
    → Swept now r x.handle
unfolding is_idle mark_idle idle_candidates
swept now r v x (k, e) idle = rw (v.keyed k x e) (
  x,
  e,
  ground arith,
  ground arith,
  ground (arith, v.counted k),
  ground (arith, get-map_values (mark_idle now r.idle_ttl) k r.sessions),
)

-- A sweep of a well-formed registry hands out only sessions that no lease holds, that were not
-- terminating and were unused for the idle time, and leaves them marked as terminating.
pub idle_candidates_lem :
    (now : ℕ) (r : SessionRegistry) → WellFormed r → All (Swept now r) (idle_candidates now r).1
unfolding idle_candidates
idle_candidates_lem now r v =
    All-map-filter (is_idle now r.idle_ttl) (λ x. x.handle) _ (Swept now r) (swept now r v)
      (values r.sessions) (values-HasKey r.sessions v.sessions_unique)

-- A sweep of a well-formed registry leaves the record of a session that a lease holds as it was.
pub sweep_spares_leased :
    (now : ℕ) (r : SessionRegistry) (k : SessionKey)
    → WellFormed r
    → 0 < count k r.leases
    → get k (idle_candidates now r).0.sessions ≡ get k r.sessions
unfolding idle_candidates mark_idle is_idle
sweep_spares_leased now r k v used = elim (Option-cases (get k r.sessions)) [
  | inl e ↦ ground (arith, get-map_values (mark_idle now r.idle_ttl) k r.sessions)
  | inr (x, e) ↦ ground (arith, v.counted k, get-map_values (mark_idle now r.idle_ttl) k r.sessions)
]
