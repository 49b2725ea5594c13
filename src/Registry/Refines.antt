-- ===== src/Registry/Refines.antt =====
-- The registry, used by one caller after another, is the book.
use lspee.Base.{
  ℕ, zero, suc, ◌+◌, ◌≡◌, ◌^◌, refl, true, false, ◌||◌, none, some, arith, is_some, ok, err,
  Option-cases, Bool-cases, ltb, ◌%◌, inl, inr,
}
use lspee.Base.Eq.{◌==◌, text_eq, nat_eq}
use lspee.Base.Text.{Text}
use lspee.Base.Map
use lspee.Base.Map.{
  Map, get, insert, retain, modify, get-insert, get-modify, get-remove, get-map_values,
}
use lspee.Registry.State.{
  SessionKey, SessionRegistry, SessionHandle, SessionRecord, LeaseRecord, key_eq, key_beq_iff,
  lease_id, held, new_record,
}
use lspee.Registry.Ops.{release_by_lease_id, dropped}
use lspee.Registry.Acquire.{
  Request, World, Phase, entering, checking, gating, waiting, spawning, reopening, settling,
  returned, gate_for, gate_at, closed_gate, grant, reuse, install, pass_gate, reopen, advance,
  advance_many, acquire_or_spawn,
}
use lspee.Registry.Leasing.{gate_open}
use lspee.Registry.Invariant.{WellFormed}
use lspee.Registry.Book.{Book, Answer, holders_of}

-- Nobody is spawning.
abbrev pub AllOpen : SessionRegistry → Type 0
AllOpen r = (g : ℕ) → (gate_at g r).started ≡ false

-- Nobody but the call in this phase is spawning.
abbrev pub OpenBut : Phase → SessionRegistry → Type 0
OpenBut (spawning h) r = (g : ℕ) → (h == g) ≡ false → (gate_at g r).started ≡ false
OpenBut (reopening h a) r = (g : ℕ) → (h == g) ≡ false → (gate_at g r).started ≡ false
OpenBut _ r = AllOpen r

advance-OpenBut :
    (q : Request) (w : World) (r : SessionRegistry) (p : Phase)
    → OpenBut p r
    → OpenBut (advance q w r p).1 (advance q w r p).0
unfolding advance gate_for reuse install grant pass_gate reopen
advance-OpenBut q w r entering o = elim (Option-cases (get q.key r.spawn_gates)) [
  | inl e ↦
      rw (e, advance, gate_for)
        (λ g. ground (arith, get-insert r.gate_seq g closed_gate r.gate_cells, o g))
  | inr (h, e) ↦ rw (e, advance, gate_for) o
]
advance-OpenBut q w r (checking h) o = elim (Option-cases (get q.key r.sessions)) [
  | inl e ↦ rw (e, advance) o
  | inr (x, e) ↦ rw (e, advance) o
]
advance-OpenBut q w r (gating h) o =
    rw (o h, advance, pass_gate)
      (λ g ne.
        ground (arith, get-insert h g (record (gate_at h r) { started = true }) r.gate_cells, o g))
advance-OpenBut q w r (waiting h n) o = elim (Bool-cases (ltb n (gate_at h r).notified)) [
  | inl e ↦ rw (e, advance) o
  | inr e ↦ rw (e, advance) o
]
advance-OpenBut q w r (spawning h) o = o
advance-OpenBut q w r (reopening h a) o = λ g. elim (Bool-cases (h == g)) [
  | inl e ↦ ground (
    arith,
    get-insert h g (record { notified = (gate_at h r).notified + 1; started = false }) r.gate_cells,
  )
  | inr e ↦ ground (
    arith,
    get-insert h g (record { notified = (gate_at h r).notified + 1; started = false }) r.gate_cells,
    o g e,
  )
]
advance-OpenBut q w r (settling (ok h)) o = o
advance-OpenBut q w r (settling (err m)) o = o
advance-OpenBut q w r (returned a) o = o

pub advance_many-OpenBut :
    (n : ℕ) (q : Request) (w : World) (r : SessionRegistry) (p : Phase)
    → OpenBut p r
    → OpenBut (advance_many n q w (r, p)).1 (advance_many n q w (r, p)).0
unfolding advance_many
advance_many-OpenBut zero q w r p o = o
advance_many-OpenBut (suc n) q w r p o =
    advance_many-OpenBut n q w (advance q w r p).0 (advance q w r p).1 (advance-OpenBut q w r p o)

-- The registry has what the book says, and serves one caller.
pub record Implements (b : Book) (r : SessionRegistry) : Type 0 where
  pub valid : WellFormed r
  pub all_open : AllOpen r
  pub same_next : r.lease_seq ≡ b.next
  pub same_holders : holders_of r.leases ≡ b.holders
  pub same_live : (k : SessionKey) → is_some (get k r.sessions) ≡ b.live k

-- What a step is refined by: the answer, and the state behind it.
abbrev pub Refined : Book × Answer → SessionRegistry × Answer → Type 0
Refined (b, x) (r, y) = (y ≡ x) × Implements b r

module _ (q : Request) (w : World) (r : SessionRegistry) where
  -- What a call changes that leases.
  abbrev pub Granted : SessionRegistry × Phase → Type 0
  Granted (r', p) =
      (p ≡ returned (ok (record { id = lease_id r.lease_seq; key = q.key })))
      × (r'.leases
          ≡ insert (lease_id r.lease_seq) (record { key = q.key; client_kind = q.client_kind })
              r.leases)
      × (r'.lease_seq ≡ (r.lease_seq + 1) % 2 ^ 64)
      × ((k : SessionKey)
          → is_some (get k r'.sessions) ≡ (q.key == k || is_some (get k r.sessions)))

  pub live-Granted : is_some (get q.key r.sessions) ≡ true → Granted (acquire_or_spawn q w r)
  unfolding acquire_or_spawn
  live-Granted live = elim (Option-cases (get q.key r.sessions)) [
    | inl e ↦ absurd (let dead = rw e at live in cc)
    | inr (x, e) ↦ (
      ground (arith),
      ground (arith),
      ground (arith),
      (λ k. ground (arith, key_beq_iff q.key k, get-modify q.key k (held w.now) r.sessions)),
    )
  ]

  -- The regions of a call that spawns, one behind the other.
  spawned :
      (h : SessionHandle)
      → get q.key r.sessions ≡ none
      → gate_open q.key r ≡ true
      → w.outcome ≡ ok h
      → let (r', p) = acquire_or_spawn q w r in
        (p ≡ returned (ok (record { id = lease_id r.lease_seq; key = q.key })))
        × (r'.leases
            ≡ insert
                (lease_id r.lease_seq)
                (record { key = q.key; client_kind = q.client_kind })
                r.leases)
        × (r'.lease_seq ≡ (r.lease_seq + 1) % 2 ^ 64)
        × (r'.sessions ≡ modify q.key (held w.now) (insert q.key (new_record w.now h) r.sessions))
  unfolding acquire_or_spawn
  spawned h e o s =
      ground
        (arith, key_beq_iff q.key q.key, get-insert r.gate_seq r.gate_seq closed_gate r.gate_cells)

  pub spawn-Granted :
      (h : SessionHandle)
      → get q.key r.sessions ≡ none
      → gate_open q.key r ≡ true
      → w.outcome ≡ ok h
      → Granted (acquire_or_spawn q w r)
  spawn-Granted h e o s =
      let (returns, leases, seq, sessions) = spawned h e o s in
      (
        returns,
        leases,
        seq,
        (λ k.
            let x = new_record w.now h in
            rw sessions (
              ground (
                arith,
                get-modify q.key k (held w.now) (insert q.key x r.sessions),
                get-insert q.key k x r.sessions,
              ))),
      )

pub is_some-modify :
    (k key : SessionKey) (f : SessionRecord → SessionRecord) (m : Map SessionKey SessionRecord)
    → is_some (get k (modify key f m)) ≡ is_some (get k m)
is_some-modify k key f m = ground (arith, get-modify key k f m)

module _ (now : ℕ) (id : Text) where
  pub release_none :
      (r : SessionRegistry) → get id r.leases ≡ none → release_by_lease_id now id r ≡ (r, none)
  unfolding release_by_lease_id
  release_none r e = rw (e, release_by_lease_id) refl

  pub release_some :
      (l : LeaseRecord) (r : SessionRegistry)
      → get id r.leases ≡ some l
      → let r' = (release_by_lease_id now id r).0 in
        (r'.leases ≡ Map.remove id r.leases)
        × (r'.sessions ≡ modify l.key (dropped now) r.sessions)
        × (r'.lease_seq ≡ r.lease_seq)
        × (r'.gate_cells ≡ r.gate_cells)
  unfolding release_by_lease_id
  release_some l r e = rw (e, release_by_lease_id) (refl, refl, refl, refl)
