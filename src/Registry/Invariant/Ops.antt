-- ===== src/Registry/Invariant/Ops.antt =====
-- The methods under one lock keep the invariant, and a new registry has it.
use lspee.Base.{
  ℕ, ◌≡◌, refl, Option, none, some, List, [], ◌∷◌, arith, Result, ok, err, Option-cases,
  Result-cases, inl, inr, Bool-cases, not,
}
use lspee.Base.Eq.{◌==◌, text_eq}
use lspee.Base.Text.{Text}
use lspee.Base.Map.{
  Map, Unique, get, modify, map_if, get-modify, get-remove, modify-Unique, remove-Unique,
  retain-Unique, get-retain-none, length-retain-le, length-remove-le, map_values, get-map_values,
  map_values-Unique,
}
use lspee.Base.Map
use lspee.Json.{Json}
use lspee.Protocol.{StreamErrorPayload}
use lspee.Registry.State.{
  SessionKey, SessionRecord, SessionRegistry, LeaseRecord, key_eq, key_beq_iff, with_idle_ttl,
  touched, lease_id,
}
use lspee.Registry.Leases.{count, refs, count-remove, count-retain}
use lspee.Registry.Ops.{
  release_by_lease_id, release_many, dropped, touch, claim_runtime, finish_call, call_by_lease_id,
  touch_lease_of, notify_by_lease_id, marked, mark_terminating_with_notice, remove, mark_idle,
  idle_candidates,
}
use lspee.Registry.Invariant.Defs.{WellFormed}

-- A new registry is well formed.
pub with_idle_ttl-WellFormed : (ttl : ℕ) → WellFormed (with_idle_ttl ttl)
unfolding with_idle_ttl count get
with_idle_ttl-WellFormed ttl = record {
  sessions_unique = tt;
  leases_unique = tt;
  counted = λ k. refl;
  keyed = λ k x h. cc;
  fresh = λ n h. refl;
  few = omega arith;
  bounded = omega arith;
}

-- A change of records that keeps their handles and counts keeps the invariant.
module _ (f : SessionRecord → SessionRecord)
    (handle : (x : SessionRecord) → (f x).handle ≡ x.handle)
    (refs_kept : (x : SessionRecord) → (f x).ref_count ≡ x.ref_count) (r : SessionRegistry)
    (v : WellFormed r) where
  pub modify-WellFormed :
      (key : SessionKey) → WellFormed (record r { sessions = modify key f r.sessions })
  modify-WellFormed key = record {
    sessions_unique = modify-Unique key f r.sessions v.sessions_unique;
    leases_unique = v.leases_unique;
    counted = λ k. elim (Option-cases (get k r.sessions)) [
      | inl e ↦ ground (arith, get-modify key k f r.sessions, v.counted k)
      | inr (x, e) ↦ ground (arith, get-modify key k f r.sessions, v.counted k, refs_kept x)
    ];
    keyed = λ k x h. elim (Option-cases (get k r.sessions)) [
      | inl e ↦ ground (arith, get-modify key k f r.sessions)
      | inr (y, e) ↦ ground (arith, get-modify key k f r.sessions, v.keyed k y e, handle y)
    ];
    fresh = v.fresh;
    few = v.few;
    bounded = v.bounded;
  }

  pub map_values-WellFormed : WellFormed (record r { sessions = map_values f r.sessions })
  map_values-WellFormed = record {
    sessions_unique = map_values-Unique f r.sessions v.sessions_unique;
    leases_unique = v.leases_unique;
    counted = λ k. elim (Option-cases (get k r.sessions)) [
      | inl e ↦ ground (arith, get-map_values f k r.sessions, v.counted k)
      | inr (x, e) ↦ ground (arith, get-map_values f k r.sessions, v.counted k, refs_kept x)
    ];
    keyed = λ k x h. elim (Option-cases (get k r.sessions)) [
      | inl e ↦ ground (arith, get-map_values f k r.sessions)
      | inr (y, e) ↦ ground (arith, get-map_values f k r.sessions, v.keyed k y e, handle y)
    ];
    fresh = v.fresh;
    few = v.few;
    bounded = v.bounded;
  }

-- The map of sessions of a release, for a lease that is there.
module _ (now : ℕ) (id : Text) (l : LeaseRecord) (r : SessionRegistry) (v : WellFormed r)
    (e : get id r.leases ≡ some l) where
  released_counted :
      (k : SessionKey)
      → refs (get k (modify l.key (dropped now) r.sessions)) ≡ count k (Map.remove id r.leases)
  unfolding dropped
  released_counted k = ground (
    arith,
    get-modify l.key k (dropped now) r.sessions,
    v.counted k,
    key_beq_iff l.key k,
    count-remove k id l r.leases v.leases_unique e,
  )

  released_keyed :
      (k : SessionKey) (x : SessionRecord)
      → get k (modify l.key (dropped now) r.sessions) ≡ some x
      → x.handle.key ≡ k
  unfolding dropped
  released_keyed k x h = elim (Option-cases (get k r.sessions)) [
    | inl n ↦ ground (arith, get-modify l.key k (dropped now) r.sessions)
    | inr (y, p) ↦ ground (arith, get-modify l.key k (dropped now) r.sessions, v.keyed k y p)
  ]

  released-WellFormed : WellFormed (record r {
    leases = Map.remove id r.leases;
    sessions = modify l.key (dropped now) r.sessions;
  })
  released-WellFormed = record {
    sessions_unique = modify-Unique l.key (dropped now) r.sessions v.sessions_unique;
    leases_unique = remove-Unique id r.leases v.leases_unique;
    counted = released_counted;
    keyed = released_keyed;
    fresh = λ n h. ground (arith, get-remove id (lease_id n) r.leases, v.fresh n h);
    few = omega (arith, length-remove-le id r.leases);
    bounded = v.bounded;
  }

-- A release keeps the invariant, for a lease that is there and for one that is not.
pub release-WellFormed :
    (now : ℕ) (id : Text) (r : SessionRegistry)
    → WellFormed r
    → WellFormed (release_by_lease_id now id r).0
unfolding release_by_lease_id
release-WellFormed now id r v = elim (Option-cases (get id r.leases)) [
  | inl e ↦ rw (e, release_by_lease_id) v
  | inr (l, e) ↦ rw (e, release_by_lease_id) (released-WellFormed now id l r v e)
]

pub release_many-WellFormed :
    (now : ℕ) (ids : List Text) (r : SessionRegistry)
    → WellFormed r
    → WellFormed (release_many now ids r)
unfolding release_many
release_many-WellFormed now [] r v = v
release_many-WellFormed now (id ∷ ids) r v =
    release_many-WellFormed now ids _ (release-WellFormed now id r v)

pub touch-WellFormed :
    (now : ℕ) (key : SessionKey) (r : SessionRegistry) → WellFormed r → WellFormed (touch now key r)
unfolding touch
touch-WellFormed now key r v = modify-WellFormed (touched now) (λ x. refl) (λ x. refl) r v key

pub mark_terminating-WellFormed :
    (key : SessionKey) (notice : Option StreamErrorPayload) (r : SessionRegistry)
    → WellFormed r
    → WellFormed (mark_terminating_with_notice key notice r)
unfolding mark_terminating_with_notice
mark_terminating-WellFormed key notice r v =
    modify-WellFormed (marked notice) (λ x. refl) (λ x. refl) r v key

pub mark_idle-handle : (now ttl : ℕ) (x : SessionRecord) → (mark_idle now ttl x).handle ≡ x.handle
unfolding mark_idle
mark_idle-handle now ttl x = ground arith

mark_idle-ref_count :
    (now ttl : ℕ) (x : SessionRecord) → (mark_idle now ttl x).ref_count ≡ x.ref_count
unfolding mark_idle
mark_idle-ref_count now ttl x = ground arith

pub idle_candidates-WellFormed :
    (now : ℕ) (r : SessionRegistry) → WellFormed r → WellFormed (idle_candidates now r).0
unfolding idle_candidates
idle_candidates-WellFormed now r v =
    map_values-WellFormed (mark_idle now r.idle_ttl) (mark_idle-handle now r.idle_ttl)
      (mark_idle-ref_count now r.idle_ttl) r v

-- Removing a session removes its leases with it.
pub remove-WellFormed :
    (key : SessionKey) (r : SessionRegistry) → WellFormed r → WellFormed (remove key r)
unfolding remove
remove-WellFormed key r v = record {
  sessions_unique = remove-Unique key r.sessions v.sessions_unique;
  leases_unique = retain-Unique _ r.leases v.leases_unique;
  counted = λ k. ground (
    arith,
    get-remove key k r.sessions,
    v.counted k,
    count-retain k key r.leases,
    key_beq_iff key k,
  );
  keyed = λ k x h. ground (arith, get-remove key k r.sessions, v.keyed k x);
  fresh = λ n h. get-retain-none _ (lease_id n) r.leases (v.fresh n h);
  few =
      omega (arith, length-retain-le (λ (i : Text) (l : LeaseRecord). not (l.key == key)) r.leases);
  bounded = v.bounded;
}

claim_runtime-WellFormed :
    (now : ℕ) (id : Text) (r : SessionRegistry)
    → WellFormed r
    → WellFormed (claim_runtime now id r).0
unfolding claim_runtime
claim_runtime-WellFormed now id r v = elim (Option-cases (get id r.leases)) [
  | inl e ↦ rw (e, claim_runtime) v
  | inr (l, e) ↦ elim (Option-cases (get l.key r.sessions)) [
    | inl n ↦ rw (e, claim_runtime) (rw (n, claim_runtime) v)
    | inr (x, p) ↦ elim (Bool-cases x.terminating) [
      | inl t ↦ rw (e, claim_runtime) (rw (p, claim_runtime) (rw t v))
      | inr t ↦
          rw (e, claim_runtime) (rw (p, claim_runtime) (rw t (touch-WellFormed now l.key r v)))
    ]
  ]
]

touch_lease_of-WellFormed :
    (later : ℕ) (id : Text) (before r : SessionRegistry)
    → WellFormed r
    → WellFormed (touch_lease_of later id before r)
unfolding touch_lease_of
touch_lease_of-WellFormed later id before r v = elim (Option-cases (get id before.leases)) [
  | inl e ↦ rw (e, touch_lease_of) v
  | inr (l, e) ↦ rw (e, touch_lease_of) (touch-WellFormed later l.key r v)
]

finish_call-WellFormed :
    {A : Type 0} (later : ℕ) (id : Text) (call : ℕ → Result A Text) (before : SessionRegistry)
    (s : SessionRegistry × Result (Option ℕ) Text)
    → WellFormed s.0
    → WellFormed (finish_call later id call before s).0
unfolding finish_call
finish_call-WellFormed later id call before (r, err e) v = v
finish_call-WellFormed later id call before (r, ok none) v = v
finish_call-WellFormed later id call before (r, ok (some p)) v = elim (Result-cases (call p)) [
  | inl (a, e) ↦ rw (e, finish_call) (touch_lease_of-WellFormed later id before r v)
  | inr (m, e) ↦ rw (e, finish_call) v
]

pub call-WellFormed :
    (now later : ℕ) (call : ℕ → Json → Result Json Text) (id : Text) (request : Json)
    (r : SessionRegistry)
    → WellFormed r
    → WellFormed (call_by_lease_id now later call id request r).0
unfolding call_by_lease_id
call-WellFormed now later call id request r v =
    finish_call-WellFormed later id _ r (claim_runtime now id r)
      (claim_runtime-WellFormed now id r v)

pub notify-WellFormed :
    (now later : ℕ) (send : ℕ → Json → Result (Unit {0}) Text) (id : Text) (message : Json)
    (r : SessionRegistry)
    → WellFormed r
    → WellFormed (notify_by_lease_id now later send id message r).0
unfolding notify_by_lease_id
notify-WellFormed now later send id message r v =
    finish_call-WellFormed later id _ r (claim_runtime now id r)
      (claim_runtime-WellFormed now id r v)
