-- ===== src/Registry/Waking.antt =====
-- Nobody waits at a gate for ever: in every reachable system a call that waits is either notified
-- already, or another call that will notify it is on its way.
use lspee.Base.{
  ℕ, ◌<◌, ◌≡◌, ◌≢◌, ◌⊎◌, refl, sym, subst, Bool, true, false, none, some, arith, inl, inr, ok, err,
}
use lspee.Base.Eq.{nat_eq, beq_refl}
use lspee.Base.Map.{Map, get, insert, get-insert, get-remove, insert-every}
use lspee.Base.Text.{Text}
use lspee.Registry.State.{SessionKey, SessionRegistry, key_eq, with_idle_ttl}
use lspee.Registry.Ops.{touch, mark_terminating_with_notice, idle_candidates}
use lspee.Registry.Acquire.{
  Request, World, Phase, entering, checking, gating, waiting, spawning, reopening, settling,
  returned, gate_at, advance,
}
use lspee.Registry.System.{
  Flight, System, Step, Reach, launched, flew, touched, marked, swept, start, followed, launch, fly,
  initial, Task, dropping, retaining, ungating, took, retired, worked, work, take, retire,
}
use lspee.Registry.Regions.{take_lease, drop_count, remove_session, retain_leases, remove_gate}
use lspee.Registry.Gates.{
  is_spawner, Woken, FreshCells, OldGates, OldGate, advance-FreshCells, advance-OldGates,
  advance-OldGate, advance-gate_seq, advance-closed, advance-Woken, advance-waiting,
}

abbrev pub Spawner : ℕ → Map ℕ Flight → Type 0
Spawner g m = (c : ℕ) × (f : Flight) × (get c m ≡ some f) × (is_spawner g f.phase ≡ true)

Spawner-insert :
    (g c : ℕ) (f : Flight) (m : Map ℕ Flight)
    → get c m ≡ none
    → Spawner g m
    → Spawner g (insert c f m)
Spawner-insert g c f m e (d, x, h, s) = (d, x, ground (arith, get-insert c d f m), s)

-- What holds of the gates and of the calls that wait, in every reachable system.
pub record IsAwake (s : System) : Type 0 where
  pub fresh_cells : FreshCells s.registry
  pub old_gates : OldGates s.registry
  pub old_gate : (c : ℕ) (f : Flight) → get c s.flights ≡ some f → OldGate f.phase s.registry
  pub guarded : (g : ℕ) → (gate_at g s.registry).started ≡ true → Spawner g s.flights
  pub woken :
      (c : ℕ) (f : Flight)
      → get c s.flights ≡ some f
      → (g n : ℕ) → f.phase ≡ waiting g n
      → Woken g n s.registry

module _ (s : System) (c : ℕ) (f : Flight) (w : World) (a : IsAwake s)
    (here : get c s.flights ≡ some f) where
  abbrev r' : SessionRegistry
  r' = (advance f.request w s.registry f.phase).0

  abbrev f' : Flight
  f' = record { request = f.request; phase = (advance f.request w s.registry f.phase).1 }

  fly-guarded : (g : ℕ) → (gate_at g r').started ≡ true → Spawner g (insert c f' s.flights)
  fly-guarded g closed =
      elim (advance-closed f.request w s.registry f.phase g a.fresh_cells closed) [
        | inl mine ↦ (c, f', ground (arith, get-insert c c f' s.flights, beq_refl c), mine)
        | inr (before, other) ↦
            let (d, x, h, spawner) = a.guarded g before in
            (d, x, ground (arith, get-insert c d f' s.flights, nat_eq.beq_iff c d), spawner)
      ]

  fly-IsAwake : IsAwake (fly s c f w)
  fly-IsAwake = record {
    fresh_cells =
        advance-FreshCells f.request w s.registry f.phase a.fresh_cells (a.old_gate c f here);
    old_gates = advance-OldGates f.request w s.registry f.phase a.old_gates;
    old_gate =
        insert-every (λ x. OldGate x.phase r') c f' s.flights
          (advance-OldGate f.request w s.registry f.phase a.old_gates (a.old_gate c f here))
          (λ d x e g i.
            let grows = advance-gate_seq f.request w s.registry f.phase in
            omega (arith, grows, a.old_gate d x e g i));
    guarded = fly-guarded;
    woken =
        insert-every (λ x. (g n : ℕ) → x.phase ≡ waiting g n → Woken g n r') c f' s.flights
          (λ g n. advance-waiting f.request w s.registry f.phase g n (a.woken c f here g n))
          (λ d x e g n i.
            advance-Woken f.request w s.registry f.phase g n a.fresh_cells (a.woken d x e g n i));
  }

launch-IsAwake :
    (s : System) (c : ℕ) (q : Request) → get c s.flights ≡ none → IsAwake s → IsAwake (launch s c q)
launch-IsAwake s c q new a = record {
  fresh_cells = a.fresh_cells;
  old_gates = a.old_gates;
  old_gate = insert-every (λ x. OldGate x.phase s.registry) c _ s.flights (λ g i. cc) a.old_gate;
  guarded = λ g closed. Spawner-insert g c _ s.flights new (a.guarded g closed);
  woken =
      insert-every (λ x. (g n : ℕ) → x.phase ≡ waiting g n → Woken g n s.registry) c _ s.flights
        (λ g n i. cc) a.woken;
}

-- A method that leaves the gates' cells alone, and makes no gate.
methods-IsAwake :
    (s : System) (r : SessionRegistry)
    → r.gate_cells ≡ s.registry.gate_cells
    → r.gate_seq ≡ s.registry.gate_seq
    → ((k : SessionKey) (g : ℕ)
        → get k r.spawn_gates ≡ some g
        → get k s.registry.spawn_gates ≡ some g)
    → IsAwake s
    → IsAwake (record s { registry = r })
methods-IsAwake s r cells seq gates a = record {
  fresh_cells = λ n l. rw cells (a.fresh_cells n (omega arith));
  old_gates = λ k g e. rw seq (a.old_gates k g (gates k g e));
  old_gate = λ c f e g i. rw seq (a.old_gate c f e g i);
  guarded = λ g closed. a.guarded g (rw cells at closed);
  woken = λ c f e g n i. rw cells (a.woken c f e g n i);
}

-- The tasks of a system have no part in it.
tasks-IsAwake : (s : System) (m : Map ℕ Task) → IsAwake s → IsAwake (record s { tasks = m })
tasks-IsAwake s m a = record {
  fresh_cells = a.fresh_cells;
  old_gates = a.old_gates;
  old_gate = a.old_gate;
  guarded = a.guarded;
  woken = a.woken;
}

take_lease-gates :
    (id : Text) (r : SessionRegistry)
    → let r' = (take_lease id r).0 in
      (r'.gate_cells ≡ r.gate_cells) × (r'.gate_seq ≡ r.gate_seq) × (r'.spawn_gates ≡ r.spawn_gates)
unfolding take_lease
take_lease-gates id r = ground arith

take-IsAwake : (s : System) (c : ℕ) (id : Text) → IsAwake s → IsAwake (take s c id)
take-IsAwake s c id a =
    let (cells, seq, gates) = take_lease-gates id s.registry in
    tasks-IsAwake _ _
      (methods-IsAwake s (take_lease id s.registry).0 cells seq (λ k g e. rw gates at e) a)

work-IsAwake : (s : System) (c now : ℕ) (x : Task) → IsAwake s → IsAwake (work s c now x)
unfolding drop_count retain_leases remove_gate
work-IsAwake s c now (dropping key) a =
    tasks-IsAwake _ _ (methods-IsAwake s (drop_count now key s.registry).0 refl refl (λ k g e. e) a)
work-IsAwake s c now (retaining key) a =
    tasks-IsAwake _ _ (methods-IsAwake s (retain_leases key s.registry) refl refl (λ k g e. e) a)
work-IsAwake s c now (ungating key) a = tasks-IsAwake _ _ (
    methods-IsAwake s (remove_gate key s.registry) refl refl
      (λ k g e. ground (arith, get-remove key k s.registry.spawn_gates)) a)

retire-IsAwake : (s : System) (c : ℕ) (key : SessionKey) → IsAwake s → IsAwake (retire s c key)
unfolding remove_session
retire-IsAwake s c key a =
    tasks-IsAwake _ _ (methods-IsAwake s (remove_session key s.registry) refl refl (λ k g e. e) a)

Step-IsAwake : {s t : System} → Step s t → IsAwake s → IsAwake t
unfolding touch mark_terminating_with_notice idle_candidates
Step-IsAwake {s} (launched c q e t) a = rw t (launch-IsAwake s c q e a)
Step-IsAwake {s} (flew c f w e ans room t) a = rw t (fly-IsAwake s c f w a e)
Step-IsAwake {s} (took c id e t) a = rw t (take-IsAwake s c id a)
Step-IsAwake {s} (retired c key e t) a = rw t (retire-IsAwake s c key a)
Step-IsAwake {s} (worked c now x e t) a = rw t (work-IsAwake s c now x a)
Step-IsAwake {s} (touched now key t) a =
    rw t (methods-IsAwake s (touch now key s.registry) refl refl (λ k g e. e) a)
Step-IsAwake {s} (marked key notice t) a = rw t (
    methods-IsAwake s (mark_terminating_with_notice key notice s.registry) refl refl (λ k g e. e) a)
Step-IsAwake {s} (swept now t) a =
    rw t (methods-IsAwake s (idle_candidates now s.registry).0 refl refl (λ k g e. e) a)

initial-IsAwake : (ttl : ℕ) → IsAwake (initial ttl)
unfolding with_idle_ttl get
initial-IsAwake ttl = record {
  fresh_cells = λ n l. refl;
  old_gates = λ k g e. absurd (cc);
  old_gate = λ c f e. absurd (cc);
  guarded = λ g closed. absurd (cc);
  woken = λ c f e. absurd (cc);
}

pub Reach-IsAwake : {ttl : ℕ} {s : System} → Reach ttl s → IsAwake s
Reach-IsAwake {ttl} start = initial-IsAwake ttl
Reach-IsAwake (followed r st) = Step-IsAwake st (Reach-IsAwake r)

-- The next region of the call changes what it is at, whatever the world answers.
abbrev pub Moves : SessionRegistry → Flight → Type 0
Moves r f = (w : World) → (advance f.request w r f.phase).1 ≢ f.phase

abbrev pub is_returned : Phase → Bool
is_returned (returned a) = true
is_returned _ = false

spawner-Moves :
    (g : ℕ) (q : Request) (r : SessionRegistry) (p : Phase)
    → is_spawner g p ≡ true
    → Moves r (record { request = q; phase = p })
unfolding advance
spawner-Moves g q r (spawning i) e w h = cc
spawner-Moves g q r (reopening i a) e w h = cc
spawner-Moves g q r entering e w h = cc
spawner-Moves g q r _ e w h = absurd (cc)

notified-Moves :
    (q : Request) (r : SessionRegistry) (g n : ℕ)
    → n < (gate_at g r).notified
    → Moves r (record { request = q; phase = waiting g n })
unfolding advance
notified-Moves q r g n l w h = ground arith

-- A call that is not over moves, or it waits at a gate.
moving_lem :
    (q : Request) (r : SessionRegistry) (p : Phase)
    → is_returned p ≡ false
    → Moves r (record { request = q; phase = p }) ⊎ ((g : ℕ) × (n : ℕ) × (p ≡ waiting g n))
unfolding advance
moving_lem q r entering h = inl (λ w e. cc)
moving_lem q r (checking g) h = inl (λ w e. ground arith)
moving_lem q r (gating g) h = inl (λ w e. ground arith)
moving_lem q r (waiting g n) h = inr (g, n, refl)
moving_lem q r (spawning g) h = inl (λ w e. cc)
moving_lem q r (reopening g a) h = inl (λ w e. cc)
moving_lem q r (settling (ok x)) h = inl (λ w e. ground arith)
moving_lem q r (settling (err m)) h = inl (λ w e. cc)
moving_lem q r (returned a) h = absurd (cc)

-- In every reachable system, in which releases and removals go region by region, too, and in which
-- a call is not over, some call moves: its next region changes what it is at, whatever the world
-- answers.
pub no_deadlock :
    {ttl : ℕ} {s : System} (c : ℕ) (f : Flight)
    → Reach ttl s
    → get c s.flights ≡ some f
    → is_returned f.phase ≡ false
    → (d : ℕ) × (x : Flight) × (get d s.flights ≡ some x) × Moves s.registry x
no_deadlock {s} c f r here open_yet =
    let a = Reach-IsAwake r in
    elim (moving_lem f.request s.registry f.phase open_yet) [
      | inl moves ↦ (c, f, here, moves)
      | inr (g, n, e) ↦ elim (a.woken c f here g n e) [
        | inl l ↦ (
          c,
          f,
          here,
          subst (λ p. Moves s.registry (record { request = f.request; phase = p })) (sym e)
              (notified-Moves f.request s.registry g n l),
        )
        | inr (same, closed) ↦
            let (d, x, there, spawner) = a.guarded g closed in
            (d, x, there, spawner-Moves g x.request s.registry x.phase spawner)
      ]
    ]
