-- ===== src/Registry/Invariant/Issues.antt =====
-- The part of the invariant that holds whatever runs between the regions of a release or of a
-- removal: the counts have no part in it. Every region of `acquire_or_spawn` keeps it.
use lspee.Base.{
  ℕ, ◌+◌, ◌≤◌, ◌<◌, ◌^◌, ◌≡◌, ◌⊎◌, refl, ap, Option, none, some, arith, ok, err, Option-cases,
  Bool-cases, inl, inr,
}
use lspee.Base.Eq.{nat_eq, text_eq}
use lspee.Base.Text.{Text}
use lspee.Base.Map.{Map, Unique, get, modify, get-insert, get-modify, insert-Unique}
use lspee.Registry.State.{
  SessionKey, SessionHandle, SessionRecord, SessionRegistry, SpawnGate, RegistryCounters, key_eq,
  key_beq_iff, lease_id, held, new_record, next_lease_id,
}
use lspee.Registry.Acquire.{
  Request, World, Phase, entering, checking, gating, waiting, spawning, reopening, settling,
  returned, gate_for, reuse, grant, install, with_record, pass_gate, reopen, advance, gate_at,
  count_reused, count_spawned,
}
use lspee.Registry.Invariant.Defs.{lease_id_ne}
use lspee.Registry.Invariant.Acquire.{Answers, PhaseAnswers}

abbrev pub Keyed : Map SessionKey SessionRecord → Type 0
Keyed s = (k : SessionKey) (x : SessionRecord) → get k s ≡ some x → x.handle.key ≡ k

pub record Issues (r : SessionRegistry) : Type 0 where
  pub keyed : Keyed r.sessions
  pub leases_unique : Unique r.leases
  pub fresh : (n : ℕ) → r.lease_seq ≤ n → get (lease_id n) r.leases ≡ none
  pub bounded : r.lease_seq < 2 ^ 64

-- The id that a call has been answered with.
unfoldable pub answer_id : Phase → Option Text
answer_id (returned (ok l)) = some l.id
answer_id _ = none

pub gates-Issues :
    (r : SessionRegistry) (gates : Map SessionKey ℕ) (cells : Map ℕ SpawnGate) (n : ℕ)
    (c : RegistryCounters)
    → Issues r
    → Issues (record r { spawn_gates = gates; gate_cells = cells; gate_seq = n; counters = c })
gates-Issues r gates cells n c v = record {
  keyed = v.keyed;
  leases_unique = v.leases_unique;
  fresh = v.fresh;
  bounded = v.bounded;
}

pub sessions-Issues :
    (r : SessionRegistry) (s : Map SessionKey SessionRecord)
    → Keyed s
    → Issues r
    → Issues (record r { sessions = s })
sessions-Issues r s keyed v = record {
  keyed = keyed;
  leases_unique = v.leases_unique;
  fresh = v.fresh;
  bounded = v.bounded;
}

pub modify-Keyed :
    (key : SessionKey) (f : SessionRecord → SessionRecord) (s : Map SessionKey SessionRecord)
    → ((x : SessionRecord) → (f x).handle ≡ x.handle)
    → Keyed s
    → Keyed (modify key f s)
modify-Keyed key f s same keyed k x h = elim (Option-cases (get k s)) [
  | inl e ↦ ground (arith, get-modify key k f s)
  | inr (y, e) ↦ ground (arith, get-modify key k f s, keyed k y e, same y)
]

with_record-Keyed :
    (q : Request) (w : World) (handle : SessionHandle) (s : Map SessionKey SessionRecord)
    → handle.key ≡ q.key
    → Keyed s
    → Keyed (with_record q.key w.now handle s)
unfolding with_record new_record
with_record-Keyed q w handle s e keyed k x h =
    ground (arith, key_beq_iff q.key k, get-insert q.key k (new_record w.now handle) s, keyed k x)

grant-Issues :
    (q : Request) (r : SessionRegistry) → Issues r → r.lease_seq + 1 < 2 ^ 64 → Issues (grant q r).0
unfolding grant next_lease_id
grant-Issues q r v room = record {
  keyed = v.keyed;
  leases_unique = insert-Unique (lease_id r.lease_seq) _ r.leases v.leases_unique;
  fresh = λ n h. ground (
    arith,
    get-insert (lease_id r.lease_seq) (lease_id n)
        (record { key = q.key; client_kind = q.client_kind }) r.leases,
    lease_id_ne r.lease_seq n,
    v.fresh n,
  );
  bounded = omega arith;
}

gate_for-Issues : (key : SessionKey) (r : SessionRegistry) → Issues r → Issues (gate_for key r).0
unfolding gate_for
gate_for-Issues key r v = elim (Option-cases (get key r.spawn_gates)) [
  | inl e ↦ rw (e, gate_for) (gates-Issues r _ _ _ _ v)
  | inr (g, e) ↦ rw (e, gate_for) v
]

pass_gate-Issues : (g : ℕ) (r : SessionRegistry) → Issues r → Issues (pass_gate g r).0
unfolding pass_gate
pass_gate-Issues g r v = elim (Bool-cases (gate_at g r).started) [
  | inl e ↦ rw (e, pass_gate) v
  | inr e ↦ rw (e, pass_gate) (gates-Issues r _ _ _ _ v)
]

pub advance-Issues :
    (q : Request) (w : World) (r : SessionRegistry) (p : Phase)
    → Issues r
    → r.lease_seq + 1 < 2 ^ 64
    → PhaseAnswers q.key p
    → Issues (advance q w r p).0
unfolding advance reuse install held reopen
advance-Issues q w r entering v room b = gate_for-Issues q.key _ (gates-Issues r _ _ _ _ v)
advance-Issues q w r (checking g) v room b = elim (Option-cases (get q.key r.sessions)) [
  | inl e ↦ rw (e, advance) v
  | inr (x, e) ↦
      rw (e, advance)
        (grant-Issues q _
          (gates-Issues _ _ _ _ _ (
            sessions-Issues r _ (modify-Keyed q.key (held w.now) r.sessions (λ x. refl) v.keyed) v))
          room)
]
advance-Issues q w r (gating g) v room b = pass_gate-Issues g r v
advance-Issues q w r (waiting g n) v room b = v
advance-Issues q w r (spawning g) v room b = v
advance-Issues q w r (reopening g outcome) v room b = gates-Issues r _ _ _ _ v
advance-Issues q w r (settling (ok handle)) v room b =
    grant-Issues q _
      (gates-Issues _ _ _ _ _ (
        sessions-Issues r _
          (modify-Keyed q.key (held w.now) _ (λ x. refl)
            (with_record-Keyed q w handle r.sessions b v.keyed))
          v))
      room
advance-Issues q w r (settling (err e)) v room b = gates-Issues r _ _ _ _ v
advance-Issues q w r (returned answer) v room b = v

-- What a region does to the answer of its call: it keeps it, or it answers the next id.
abbrev pub Answering : SessionRegistry → Phase → SessionRegistry × Phase → Type 0
Answering r p (r', p') =
    ((answer_id p' ≡ answer_id p) × (r'.lease_seq ≡ r.lease_seq))
    ⊎ ((answer_id p' ≡ some (lease_id r.lease_seq)) × (r'.lease_seq ≡ r.lease_seq + 1))

grant-Answering :
    (q : Request) (r s : SessionRegistry) (p : Phase)
    → s.lease_seq ≡ r.lease_seq
    → r.lease_seq + 1 < 2 ^ 64
    → Answering r p (grant q s)
unfolding grant next_lease_id answer_id
grant-Answering q r s p e room = inr (ap (λ n. some (lease_id n)) e, omega arith)

gate_for-seq : (key : SessionKey) (r : SessionRegistry) → (gate_for key r).0.lease_seq ≡ r.lease_seq
unfolding gate_for
gate_for-seq key r = ground arith

pass_gate-Answering : (g : ℕ) (r : SessionRegistry) → Answering r (gating g) (pass_gate g r)
unfolding pass_gate answer_id
pass_gate-Answering g r = elim (Bool-cases (gate_at g r).started) [
  | inl e ↦ rw (e, pass_gate) (inl (refl, refl))
  | inr e ↦ rw (e, pass_gate) (inl (refl, refl))
]

pub advance-Answering :
    (q : Request) (w : World) (r : SessionRegistry) (p : Phase)
    → r.lease_seq + 1 < 2 ^ 64
    → Answering r p (advance q w r p)
unfolding advance reuse install reopen answer_id
advance-Answering q w r entering room = inl (refl, gate_for-seq q.key _)
advance-Answering q w r (checking g) room = elim (Option-cases (get q.key r.sessions)) [
  | inl e ↦ rw (e, advance) (inl (refl, refl))
  | inr (x, e) ↦
      rw (e, advance)
        (grant-Answering q r
          (count_reused (record r { sessions = modify q.key (held w.now) r.sessions })) (checking g)
          refl room)
]
advance-Answering q w r (gating g) room = pass_gate-Answering g r
advance-Answering q w r (waiting g n) room = inl (ground arith, refl)
advance-Answering q w r (spawning g) room = inl (refl, refl)
advance-Answering q w r (reopening g outcome) room = inl (refl, refl)
advance-Answering q w r (settling (ok handle)) room =
    grant-Answering q r
      (count_spawned (record r {
        sessions = modify q.key (held w.now) (with_record q.key w.now handle r.sessions);
      }))
      (settling (ok handle)) refl room
advance-Answering q w r (settling (err e)) room = inl (refl, refl)
advance-Answering q w r (returned answer) room = inl (refl, refl)

-- A region keeps the promise of the spawn that its call carries.
pub advance-PhaseAnswers :
    (q : Request) (w : World) (r : SessionRegistry) (p : Phase)
    → Answers q.key w.outcome
    → PhaseAnswers q.key p
    → PhaseAnswers q.key (advance q w r p).1
unfolding advance reuse install grant pass_gate
advance-PhaseAnswers q w r entering a b = tt
advance-PhaseAnswers q w r (checking g) a b = ground arith
advance-PhaseAnswers q w r (gating g) a b = ground arith
advance-PhaseAnswers q w r (waiting g n) a b = ground arith
advance-PhaseAnswers q w r (spawning g) a b = a
advance-PhaseAnswers q w r (reopening g outcome) a b = b
advance-PhaseAnswers q w r (settling (ok handle)) a b = tt
advance-PhaseAnswers q w r (settling (err e)) a b = tt
advance-PhaseAnswers q w r (returned answer) a b = tt
