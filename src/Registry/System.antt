-- ===== src/Registry/System.antt =====
-- The registry with any number of calls in flight. `acquire_or_spawn`, `release_by_lease_id` and
-- `remove` go region by region, and between their regions others run in any order; the methods
-- that take one lock are one step each.
use lspee.Base.{ℕ, ◌+◌, ◌<◌, ◌^◌, ◌≡◌, Option, none, some, []}
use lspee.Base.Eq.{nat_eq}
use lspee.Base.Text.{Text}
use lspee.Base.Map.{Map, get, insert}
use lspee.Base.Map
use lspee.Protocol.{StreamErrorPayload}
use lspee.Registry.State.{SessionKey, SessionRegistry, with_idle_ttl}
use lspee.Registry.Ops.{touch, mark_terminating_with_notice, idle_candidates}
use lspee.Registry.Acquire.{Request, World, Phase, entering, advance}
use lspee.Registry.Regions.{take_lease, drop_count, remove_session, retain_leases, remove_gate}
use lspee.Registry.Invariant.Acquire.{Answers, PhaseAnswers}

pub record Flight : Type 0 where
  pub request : Request
  pub phase : Phase

abbrev pub FlightAnswers : Flight → Type 0
FlightAnswers f = PhaseAnswers f.request.key f.phase

-- A release or a removal between two of its regions: what it makes next.
pub data Task : Type 0 where
  dropping retaining ungating : SessionKey → Task

pub record System : Type 0 where
  pub registry : SessionRegistry
  pub flights : Map ℕ Flight
  pub tasks : Map ℕ Task

abbrev pub with_registry : System → SessionRegistry → System
with_registry s r = record s { registry = r }

abbrev pub launch : System → ℕ → Request → System
launch s c q = record s { flights = insert c (record { request = q; phase = entering }) s.flights }

abbrev pub fly : System → ℕ → Flight → World → System
fly s c f w =
    let (r, p) = advance f.request w s.registry f.phase in
    record s {
      registry = r;
      flights = insert c (record { request = f.request; phase = p }) s.flights;
    }

-- The first region of a release: a lease that is not there ends it.
abbrev pub take : System → ℕ → Text → System
take s c id =
    let (r, key) = take_lease id s.registry in
    record s {
      registry = r;
      tasks = elim key [ none ↦ s.tasks | some k ↦ insert c (dropping k) s.tasks ];
    }

abbrev pub retire : System → ℕ → SessionKey → System
retire s c key = record s {
  registry = remove_session key s.registry;
  tasks = insert c (retaining key) s.tasks;
}

-- The region of a release or a removal that follows.
abbrev pub work : System → ℕ → ℕ → Task → System
work s c now (dropping key) = record s {
  registry = (drop_count now key s.registry).0;
  tasks = Map.remove c s.tasks;
}
work s c now (retaining key) = record s {
  registry = retain_leases key s.registry;
  tasks = insert c (ungating key) s.tasks;
}
work s c now (ungating key) = record s {
  registry = remove_gate key s.registry;
  tasks = Map.remove c s.tasks;
}

-- A new call; one region of a call, as long as ids are left; the regions of a release and of a
-- removal; a method.
pub data Step (s t : System) : Type 0 where
  launched : (c : ℕ) (q : Request) → get c s.flights ≡ none → t ≡ launch s c q → Step s t
  flew :
      (c : ℕ) (f : Flight) (w : World)
      → get c s.flights ≡ some f
      → Answers f.request.key w.outcome
      → s.registry.lease_seq + 1 < 2 ^ 64
      → t ≡ fly s c f w
      → Step s t
  took : (c : ℕ) (id : Text) → get c s.tasks ≡ none → t ≡ take s c id → Step s t
  retired : (c : ℕ) (key : SessionKey) → get c s.tasks ≡ none → t ≡ retire s c key → Step s t
  worked : (c now : ℕ) (x : Task) → get c s.tasks ≡ some x → t ≡ work s c now x → Step s t
  touched : (now : ℕ) (key : SessionKey) → t ≡ with_registry s (touch now key s.registry) → Step s t
  marked :
      (key : SessionKey) (notice : Option StreamErrorPayload)
      → t ≡ with_registry s (mark_terminating_with_notice key notice s.registry)
      → Step s t
  swept : (now : ℕ) → t ≡ with_registry s (idle_candidates now s.registry).0 → Step s t

abbrev pub initial : ℕ → System
initial ttl = record { registry = with_idle_ttl ttl; flights = []; tasks = [] }

pub data Reach (ttl : ℕ) : System → Type 0 where
  start : Reach ttl (initial ttl)
  followed : {s t : System} → Reach ttl s → Step s t → Reach ttl t
