-- ===== src/Registry/Gates.antt =====
-- What the regions of a call do to the gates.
use lspee.Base.{
  ℕ, ◌+◌, ◌≤◌, ◌<◌, ◌≡◌, ◌⊎◌, refl, Bool, true, false, Option, none, some, arith, nat_beq, ok, err,
}
use lspee.Base.Eq.{nat_eq}
use lspee.Base.Map.{get, get-insert, get-remove}
use lspee.Registry.State.{SessionKey, SessionRegistry, key_eq}
use lspee.Registry.Acquire.{
  Request, World, Phase, entering, checking, gating, waiting, spawning, reopening, settling,
  returned, closed_gate, gate_at, advance,
}

-- The gate that a call refers to.
abbrev pub gate_of : Phase → Option ℕ
gate_of (checking g) = some g
gate_of (gating g) = some g
gate_of (waiting g n) = some g
gate_of (spawning g) = some g
gate_of (reopening g a) = some g
gate_of _ = none

-- A call in this phase has closed the gate and is going to open it.
abbrev pub is_spawner : ℕ → Phase → Bool
is_spawner g (spawning h) = nat_beq h g
is_spawner g (reopening h a) = nat_beq h g
is_spawner g _ = false

-- A wait that began at `n` is over, or the gate is still closed since.
abbrev pub Woken : ℕ → ℕ → SessionRegistry → Type 0
Woken g n r =
    (n < (gate_at g r).notified) ⊎ ((n ≡ (gate_at g r).notified) × ((gate_at g r).started ≡ true))

abbrev pub FreshCells : SessionRegistry → Type 0
FreshCells r = (n : ℕ) → r.gate_seq ≤ n → get n r.gate_cells ≡ none

abbrev pub OldGates : SessionRegistry → Type 0
OldGates r = (k : SessionKey) (g : ℕ) → get k r.spawn_gates ≡ some g → g < r.gate_seq

abbrev pub OldGate : Phase → SessionRegistry → Type 0
OldGate p r = (g : ℕ) → gate_of p ≡ some g → g < r.gate_seq

module _ (q : Request) (w : World) (r : SessionRegistry) where
  pub advance-FreshCells : (p : Phase) → FreshCells r → OldGate p r → FreshCells (advance q w r p).0
  unfolding advance
  advance-FreshCells entering h old n l =
      ground (arith, h n, get-insert r.gate_seq n closed_gate r.gate_cells)
  advance-FreshCells (checking g) h old n l = ground (arith, h n)
  advance-FreshCells (gating g) h old n l = ground (
    arith,
    h n,
    old g refl,
    get-insert g n (record (gate_at g r) { started = true }) r.gate_cells,
  )
  advance-FreshCells (waiting g m) h old n l = h n l
  advance-FreshCells (spawning g) h old n l = h n l
  advance-FreshCells (reopening g a) h old n l = ground (
    arith,
    h n,
    old g refl,
    get-insert g n (record { notified = (gate_at g r).notified + 1; started = false }) r.gate_cells,
  )
  advance-FreshCells (settling (ok x)) h old n l = h n l
  advance-FreshCells (settling (err e)) h old n l = h n l
  advance-FreshCells (returned a) h old n l = h n l

  pub advance-OldGates : (p : Phase) → OldGates r → OldGates (advance q w r p).0
  unfolding advance
  advance-OldGates entering h k g e =
      ground (arith, h k g, key_eq.beq_iff q.key k, get-insert q.key k r.gate_seq r.spawn_gates)
  advance-OldGates (checking i) h k g e = ground (arith, h k g)
  advance-OldGates (gating i) h k g e = ground (arith, h k g)
  advance-OldGates (waiting i m) h k g e = h k g e
  advance-OldGates (spawning i) h k g e = h k g e
  advance-OldGates (reopening i a) h k g e = h k g e
  advance-OldGates (settling (ok x)) h k g e = h k g e
  advance-OldGates (settling (err m)) h k g e =
      ground (arith, h k g, get-remove q.key k r.spawn_gates)
  advance-OldGates (returned a) h k g e = h k g e

  pub advance-OldGate :
      (p : Phase) → OldGates r → OldGate p r → OldGate (advance q w r p).1 (advance q w r p).0
  unfolding advance
  advance-OldGate entering gs old g e = ground (arith, gs q.key g)
  advance-OldGate (checking i) gs old g e = ground (arith, old i)
  advance-OldGate (gating i) gs old g e = ground (arith, old i)
  advance-OldGate (waiting i m) gs old g e = ground (arith, old i)
  advance-OldGate (spawning i) gs old g e = old g e
  advance-OldGate (reopening i a) gs old g e = absurd (cc)
  advance-OldGate (settling (ok x)) gs old g e = absurd (ground arith)
  advance-OldGate (settling (err m)) gs old g e = absurd (cc)
  advance-OldGate (returned a) gs old g e = old g e

  pub advance-gate_seq : (p : Phase) → r.gate_seq ≤ (advance q w r p).0.gate_seq
  unfolding advance
  advance-gate_seq entering = ground arith
  advance-gate_seq (checking i) = ground arith
  advance-gate_seq (gating i) = ground arith
  advance-gate_seq (waiting i m) = omega arith
  advance-gate_seq (spawning i) = omega arith
  advance-gate_seq (reopening i a) = omega arith
  advance-gate_seq (settling (ok x)) = omega arith
  advance-gate_seq (settling (err m)) = omega arith
  advance-gate_seq (returned a) = omega arith

  -- A gate that is closed after a region was closed before it, or the call has just closed it.
  pub advance-closed :
      (p : Phase) (g : ℕ)
      → FreshCells r
      → (gate_at g (advance q w r p).0).started ≡ true
      → (is_spawner g (advance q w r p).1 ≡ true)
        ⊎ (((gate_at g r).started ≡ true) × (is_spawner g p ≡ false))
  unfolding advance
  advance-closed entering g h s =
      ground (arith, h r.gate_seq, get-insert r.gate_seq g closed_gate r.gate_cells)
  advance-closed (checking i) g h s = ground arith
  advance-closed (gating i) g h s =
      ground (arith, get-insert i g (record (gate_at i r) { started = true }) r.gate_cells)
  advance-closed (waiting i m) g h s = ground arith
  advance-closed (spawning i) g h s = ground arith
  advance-closed (reopening i a) g h s = ground (
    arith,
    get-insert i g (record { notified = (gate_at i r).notified + 1; started = false }) r.gate_cells,
  )
  advance-closed (settling (ok x)) g h s = ground arith
  advance-closed (settling (err m)) g h s = ground arith
  advance-closed (returned a) g h s = ground arith

  -- No region takes a notification back, or opens a gate without notifying.
  pub advance-Woken :
      (p : Phase) (g n : ℕ) → FreshCells r → Woken g n r → Woken g n (advance q w r p).0
  unfolding advance
  advance-Woken entering g n h v =
      ground (arith, h r.gate_seq, get-insert r.gate_seq g closed_gate r.gate_cells)
  advance-Woken (checking i) g n h v = ground arith
  advance-Woken (gating i) g n h v =
      ground (arith, get-insert i g (record (gate_at i r) { started = true }) r.gate_cells)
  advance-Woken (waiting i m) g n h v = v
  advance-Woken (spawning i) g n h v = v
  advance-Woken (reopening i a) g n h v = ground (
    arith,
    get-insert i g (record { notified = (gate_at i r).notified + 1; started = false }) r.gate_cells,
  )
  advance-Woken (settling (ok x)) g n h v = v
  advance-Woken (settling (err m)) g n h v = v
  advance-Woken (returned a) g n h v = v

  -- A call begins to wait at a gate that is closed.
  pub advance-waiting :
      (p : Phase) (g n : ℕ)
      → (p ≡ waiting g n → Woken g n r)
      → (advance q w r p).1 ≡ waiting g n
      → Woken g n (advance q w r p).0
  unfolding advance
  advance-waiting entering g n h e = absurd (ground arith)
  advance-waiting (checking i) g n h e = absurd (ground arith)
  advance-waiting (gating i) g n h e = ground arith
  advance-waiting (waiting i m) g n h e = ground (arith, h)
  advance-waiting (spawning i) g n h e = absurd (cc)
  advance-waiting (reopening i a) g n h e = absurd (cc)
  advance-waiting (settling (ok x)) g n h e = absurd (ground arith)
  advance-waiting (settling (err m)) g n h e = absurd (cc)
  advance-waiting (returned a) g n h e = absurd (cc)
