-- ===== src/Registry/Invariant/Acquire.antt =====
-- Every region of `acquire_or_spawn` keeps the invariant.
use lspee.Base.{
  ℕ, ◌+◌, ◌≤◌, ◌<◌, ◌^◌, ◌≡◌, refl, true, none, some, arith, is_some, Result, ok, err, Option-cases,
  inl, inr, Bool-cases,
}
use lspee.Base.Eq.{text_eq, nat_eq}
use lspee.Base.Text.{Text}
use lspee.Base.Map.{
  Map, Unique, get, insert, modify, get-insert, get-modify, insert-Unique, modify-Unique,
  length-insert_fresh,
}
use lspee.Registry.State.{
  SessionKey, SessionHandle, SessionRecord, RegistryCounters, SessionRegistry, LeaseRecord, key_eq,
  key_beq_iff, held, new_record, lease_id,
}
use lspee.Registry.Leases.{count, refs, count-le, count-insert}
use lspee.Registry.Acquire.{
  Request, World, Phase, entering, checking, gating, waiting, spawning, reopening, settling,
  returned, gate_for, grant, reuse, with_record, install, pass_gate, advance, count_attach, gate_at,
}
use lspee.Registry.Invariant.Defs.{WellFormed, gates-WellFormed, lease_id_ne}

abbrev Keyed : Map SessionKey SessionRecord → Type 0
Keyed s = (k : SessionKey) (x : SessionRecord) → get k s ≡ some x → x.handle.key ≡ k

-- A lease on a session that is there: `s` is the map of sessions just before it is held.
module _ (q : Request) (now : ℕ) (r : SessionRegistry) (s : Map SessionKey SessionRecord)
    (c : RegistryCounters) (v : WellFormed r) (room : r.lease_seq + 1 < 2 ^ 64)
    (same : (k : SessionKey) → refs (get k s) ≡ refs (get k r.sessions))
    (present : is_some (get q.key s) ≡ true) where
  lease : LeaseRecord
  lease = record { key = q.key; client_kind = q.client_kind }

  granted_counted :
      (k : SessionKey)
      → refs (get k (modify q.key (held now) s))
        ≡ count k (insert (lease_id r.lease_seq) lease r.leases)
  unfolding held lease
  granted_counted k = ground (
    arith,
    get-modify q.key k (held now) s,
    key_beq_iff q.key k,
    same k,
    v.counted k,
    v.few,
    count-le k r.leases,
    count-insert k (lease_id r.lease_seq) lease r.leases,
    v.fresh r.lease_seq,
  )

  granted_fresh :
      (n : ℕ)
      → r.lease_seq + 1 ≤ n
      → get (lease_id n) (insert (lease_id r.lease_seq) lease r.leases) ≡ none
  granted_fresh n h = ground (
    arith,
    get-insert (lease_id r.lease_seq) (lease_id n) lease r.leases,
    lease_id_ne r.lease_seq n,
    v.fresh n,
  )

  granted-Keyed : Keyed s → Keyed (modify q.key (held now) s)
  unfolding held
  granted-Keyed keyed k x h = elim (Option-cases (get k s)) [
    | inl e ↦ ground (arith, get-modify q.key k (held now) s)
    | inr (y, e) ↦ ground (arith, get-modify q.key k (held now) s, keyed k y e)
  ]

  pub grant-WellFormed :
      Unique s
      → Keyed s
      → WellFormed (grant q (record r { sessions = modify q.key (held now) s; counters = c })).0
  unfolding grant lease
  grant-WellFormed u keyed = record {
    sessions_unique = modify-Unique q.key (held now) s u;
    leases_unique = insert-Unique (lease_id r.lease_seq) lease r.leases v.leases_unique;
    counted = granted_counted;
    keyed = granted-Keyed keyed;
    fresh = λ n h. granted_fresh n (omega (arith, h));
    few = ground (
      arith,
      v.few,
      length-insert_fresh (lease_id r.lease_seq) lease r.leases,
      v.fresh r.lease_seq,
    );
    bounded = omega arith;
  }

with_record-same :
    (key : SessionKey) (now : ℕ) (handle : SessionHandle) (s : Map SessionKey SessionRecord)
    (k : SessionKey)
    → refs (get k (with_record key now handle s)) ≡ refs (get k s)
unfolding with_record new_record
with_record-same key now handle s k =
    ground (arith, key_beq_iff key k, get-insert key k (new_record now handle) s)

with_record-present :
    (key : SessionKey) (now : ℕ) (handle : SessionHandle) (s : Map SessionKey SessionRecord)
    → is_some (get key (with_record key now handle s)) ≡ true
unfolding with_record
with_record-present key now handle s =
    ground (arith, key_beq_iff key key, get-insert key key (new_record now handle) s)

with_record-Unique :
    (key : SessionKey) (now : ℕ) (handle : SessionHandle) (s : Map SessionKey SessionRecord)
    → Unique s
    → Unique (with_record key now handle s)
unfolding with_record
with_record-Unique key now handle s u =
    ground (arith, insert-Unique key (new_record now handle) s u)

with_record-Keyed :
    (key : SessionKey) (now : ℕ) (handle : SessionHandle) (s : Map SessionKey SessionRecord)
    → handle.key ≡ key
    → Keyed s
    → Keyed (with_record key now handle s)
unfolding with_record new_record
with_record-Keyed key now handle s e keyed k x h =
    ground (arith, key_beq_iff key k, get-insert key k (new_record now handle) s, keyed k x)

-- What the caller's `spawn` promises: a handle has the key that it was asked for.
abbrev pub Answers : SessionKey → Result SessionHandle Text → Type 0
Answers key (ok handle) = handle.key ≡ key
Answers key (err e) = Unit

abbrev pub PhaseAnswers : SessionKey → Phase → Type 0
PhaseAnswers key (reopening g outcome) = Answers key outcome
PhaseAnswers key (settling outcome) = Answers key outcome
PhaseAnswers key _ = Unit

reuse-WellFormed :
    (q : Request) (now : ℕ) (r : SessionRegistry) (x : SessionRecord)
    → WellFormed r
    → r.lease_seq + 1 < 2 ^ 64
    → get q.key r.sessions ≡ some x
    → WellFormed (reuse q now r).0
unfolding reuse
reuse-WellFormed q now r x v room e =
    grant-WellFormed q now r r.sessions _ v room (λ k. refl) (ground arith) v.sessions_unique
      v.keyed

install-WellFormed :
    (q : Request) (now : ℕ) (handle : SessionHandle) (r : SessionRegistry)
    → WellFormed r
    → r.lease_seq + 1 < 2 ^ 64
    → handle.key ≡ q.key
    → WellFormed (install q now handle r).0
unfolding install
install-WellFormed q now handle r v room e =
    grant-WellFormed q now r (with_record q.key now handle r.sessions) _ v room
      (with_record-same q.key now handle r.sessions) (with_record-present q.key now handle _)
      (with_record-Unique q.key now handle _ v.sessions_unique)
      (with_record-Keyed q.key now handle _ e v.keyed)

gate_for-WellFormed :
    (key : SessionKey) (r : SessionRegistry) → WellFormed r → WellFormed (gate_for key r).0
unfolding gate_for
gate_for-WellFormed key r v = elim (Option-cases (get key r.spawn_gates)) [
  | inl e ↦ rw (e, gate_for) (gates-WellFormed r _ _ _ _ v)
  | inr (g, e) ↦ rw (e, gate_for) v
]

pass_gate-WellFormed : (g : ℕ) (r : SessionRegistry) → WellFormed r → WellFormed (pass_gate g r).0
unfolding pass_gate
pass_gate-WellFormed g r v = elim (Bool-cases (gate_at g r).started) [
  | inl e ↦ rw (e, pass_gate) v
  | inr e ↦ rw (e, pass_gate) (gates-WellFormed r _ _ _ _ v)
]

pass_gate-PhaseAnswers :
    (key : SessionKey) (g : ℕ) (r : SessionRegistry) → PhaseAnswers key (pass_gate g r).1
unfolding pass_gate
pass_gate-PhaseAnswers key g r = ground arith

-- Every region of acquire_or_spawn keeps the registry well formed, as long as a lease id is left,
-- and keeps the promise of the spawn that it carries.
pub advance-WellFormed :
    (q : Request) (w : World) (r : SessionRegistry) (p : Phase)
    → WellFormed r
    → r.lease_seq + 1 < 2 ^ 64
    → Answers q.key w.outcome
    → PhaseAnswers q.key p
    → WellFormed (advance q w r p).0 × PhaseAnswers q.key (advance q w r p).1
unfolding advance
advance-WellFormed q w r entering v room a b =
    (gate_for-WellFormed q.key (count_attach r) (gates-WellFormed r _ _ _ _ v), tt)
advance-WellFormed q w r (checking g) v room a b = elim (Option-cases (get q.key r.sessions)) [
  | inl e ↦ rw (e, advance) (v, tt)
  | inr (x, e) ↦ rw (e, advance) (reuse-WellFormed q w.now r x v room e, tt)
]
advance-WellFormed q w r (gating g) v room a b =
    (pass_gate-WellFormed g r v, pass_gate-PhaseAnswers q.key g r)
advance-WellFormed q w r (waiting g n) v room a b = (v, ground arith)
advance-WellFormed q w r (spawning g) v room a b = (v, a)
advance-WellFormed q w r (reopening g outcome) v room a b = (gates-WellFormed r _ _ _ _ v, b)
advance-WellFormed q w r (settling (ok handle)) v room a b =
    (install-WellFormed q w.now handle r v room b, tt)
advance-WellFormed q w r (settling (err e)) v room a b = (gates-WellFormed r _ _ _ _ v, tt)
advance-WellFormed q w r (returned answer) v room a b = (v, tt)
