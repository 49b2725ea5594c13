-- ===== src/Registry/Invariant/Alone.antt =====
-- A call of `acquire_or_spawn` that runs alone keeps the invariant: of its regions, only the last
-- takes an id.
use lspee.Base.{
  ℕ, zero, suc, ◌+◌, ◌<◌, ◌^◌, ◌≡◌, refl, ◌⊎◌, inl, inr, arith, Result, ok, err, Option-cases,
}
use lspee.Base.Text.{Text}
use lspee.Base.Map.{get}
use lspee.Registry.State.{SessionRegistry, Lease, key_eq}
use lspee.Registry.Acquire.{
  Request, World, Phase, entering, checking, gating, waiting, spawning, reopening, settling,
  returned, advance, advance_many, acquire_or_spawn,
}
use lspee.Registry.Invariant.Defs.{WellFormed}
use lspee.Registry.Invariant.Acquire.{Answers, PhaseAnswers, advance-WellFormed}

-- Either ids are left, or the call is over.
abbrev HasRoom : SessionRegistry → Phase → Type 0
HasRoom r p = (r.lease_seq + 1 < 2 ^ 64) ⊎ ((a : Result Lease Text) × (p ≡ returned a))

advance-HasRoom :
    (q : Request) (w : World) (r : SessionRegistry) (p : Phase)
    → HasRoom r p
    → HasRoom (advance q w r p).0 (advance q w r p).1
unfolding advance
advance-HasRoom q w r p (inr (a, e)) = rw e (inr (a, refl))
advance-HasRoom q w r entering (inl h) = inl (ground arith)
advance-HasRoom q w r (checking g) (inl h) = elim (Option-cases (get q.key r.sessions)) [
  | inl e ↦ rw (e, advance) (inl h)
  | inr (x, e) ↦ rw (e, advance) (inr (_, refl))
]
advance-HasRoom q w r (gating g) (inl h) = inl (ground arith)
advance-HasRoom q w r (waiting g n) (inl h) = inl h
advance-HasRoom q w r (spawning g) (inl h) = inl h
advance-HasRoom q w r (reopening g a) (inl h) = inl h
advance-HasRoom q w r (settling (ok x)) (inl h) = inr (_, refl)
advance-HasRoom q w r (settling (err e)) (inl h) = inl h
advance-HasRoom q w r (returned a) (inl h) = inl h

advance_once :
    (q : Request) (w : World) (r : SessionRegistry) (p : Phase)
    → WellFormed r
    → Answers q.key w.outcome
    → PhaseAnswers q.key p
    → HasRoom r p
    → WellFormed (advance q w r p).0 × PhaseAnswers q.key (advance q w r p).1
advance_once q w r p v a b (inl room) = advance-WellFormed q w r p v room a b
advance_once q w r p v a b (inr (l, e)) = rw e (unfold advance in (v, tt))

advance_many-WellFormed :
    (n : ℕ) (q : Request) (w : World) (r : SessionRegistry) (p : Phase)
    → WellFormed r
    → Answers q.key w.outcome
    → PhaseAnswers q.key p
    → HasRoom r p
    → WellFormed (advance_many n q w (r, p)).0
unfolding advance_many
advance_many-WellFormed zero q w r p v a b room = v
advance_many-WellFormed (suc n) q w r p v a b room =
    let (v', b') = advance_once q w r p v a b room in
    advance_many-WellFormed n q w (advance q w r p).0 (advance q w r p).1 v' a b'
      (advance-HasRoom q w r p room)

-- A call that runs alone keeps the invariant, whether it leases, fails or waits.
pub acquire_or_spawn-WellFormed :
    (q : Request) (w : World) (r : SessionRegistry)
    → WellFormed r
    → r.lease_seq + 1 < 2 ^ 64
    → Answers q.key w.outcome
    → WellFormed (acquire_or_spawn q w r).0
unfolding acquire_or_spawn
acquire_or_spawn-WellFormed q w r v room a =
    advance_many-WellFormed 6 q w r entering v a tt (inl room)
