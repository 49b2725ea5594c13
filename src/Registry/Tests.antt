-- ===== src/Registry/Tests.antt =====
-- The theorems on the registry at concrete registries.
use lspee.Base.{ℕ, ◌+◌, ◌<◌, ◌^◌, List, ◌≡◌, refl, none, some, [], ◌∷◌, true, ok, err, arith, All}
use lspee.Base.Text.{codes}
use lspee.Base.Map.{get, insert}
use lspee.Base.Eq.{list_beq, text_eq, nat_eq}
use lspee.Base.Decimal.{to_string, digits}
use lspee.Registry.State.{key_eq, SessionHandle, SessionRegistry, with_idle_ttl, key_beq, lease_id}
use lspee.Registry.Leases.{count, refs}
use lspee.Registry.Ops.{
  handle_for_lease_id, release_by_lease_id, idle_candidates, remove, is_idle, session_handle,
}
use lspee.Registry.Acquire.{
  World, Phase, gating, gate_for, pass_gate, entering, checking, spawning, settling, reopening,
  waiting, returned, advance, acquire_or_spawn,
}
use lspee.Registry.Invariant.{WellFormed}
use lspee.Registry.Invariant.Acquire.{PhaseAnswers, advance-WellFormed}
use lspee.Registry.System.{
  Flight, System, Reach, start, followed, launched, flew, initial, launch, fly, take, took,
}
use lspee.Registry.Answered.{IsIssuing}
use lspee.Registry.Issuing.{Reach-IsIssuing}
use lspee.Registry.Regions.{
  take_lease, drop_count, remove_session, retain_leases, remove_gate, respawned_under_remove,
  released_late,
}
use lspee.Registry.Waking.{Moves, no_deadlock}
use lspee.Registry.Book.{Op, acquire, release, sweep, removal}
use lspee.Registry.Refines.{Implements}
use lspee.Registry.Runs.{run_book, run_registry, new_book, new_book-Implements, run-Refined}
use lspee.Registry.Leasing.{acquire_fails}
use lspee.Registry.Release.{release-acquire, Swept, idle_candidates_lem}
use lspee.Registry.Races.{
  first_reopened, second_started, first_done, second_done, double_spawn, swept_under_lease,
}
use lspee.Registry.Sample.{
  key_a, handle_a, by_editor, spawn_a, record_a, lease_a, empty, leased, released,
  leased-WellFormed, released-WellFormed, get-leased, get-leased_lease, leased-seq, get-released,
}

abbrev launched_once : System
launched_once = launch (initial 10) 0 by_editor

advance-WellFormed_example :
    WellFormed (advance by_editor spawn_a leased (checking 0)).0
    × PhaseAnswers key_a (advance by_editor spawn_a leased (checking 0)).1
advance-WellFormed_example =
    advance-WellFormed by_editor spawn_a leased (checking 0) leased-WellFormed
      (ground (arith, leased-seq)) refl tt

release-acquire_example :
    let (r', answer) =
      release_by_lease_id 8
        (lease_id leased.lease_seq)
        (acquire_or_spawn by_editor spawn_a leased).0 in
    (answer ≡ some 1)
    × (refs (get key_a r'.sessions) ≡ 1)
    × (get (lease_id leased.lease_seq) r'.leases ≡ none)
release-acquire_example =
    release-acquire by_editor spawn_a leased (record_a 1) 8 leased-WellFormed
      (ground (arith, leased-seq)) get-leased

idle_candidates_example : All (Swept 20 released) (idle_candidates 20 released).1
idle_candidates_example = idle_candidates_lem 20 released released-WellFormed

abbrev no_server : World
no_server = record { now = 5; outcome = err (codes "not found") }

acquire_fails_example :
    let (r', p) = acquire_or_spawn by_editor no_server empty in
    (p ≡ returned (err (codes "not found")))
    × (r'.sessions ≡ empty.sessions)
    × (r'.leases ≡ empty.leases)
    × (r'.lease_seq ≡ empty.lease_seq)
    × (get key_a r'.spawn_gates ≡ none)
unfolding with_idle_ttl get
acquire_fails_example = acquire_fails by_editor no_server empty (codes "not found") refl refl refl

-- A registry in which a call is spawning behind the gate of the key.
abbrev busy : SessionRegistry
busy = record empty {
  spawn_gates = (key_a, 0) ∷ [];
  gate_cells = (0, record { notified = 3; started = true }) ∷ [];
  gate_seq = 1;
}

abbrev handle_b : SessionHandle
handle_b = record handle_a { runtime = 8; events = 8 }

abbrev spawn_b : World
spawn_b = record { now = 6; outcome = ok handle_b }

double_spawn_example :
    ((first_reopened by_editor spawn_a spawn_b empty 0).1 ≡ settling (ok handle_a))
    × ((second_started by_editor spawn_a spawn_b empty 0).1 ≡ spawning 0)
    × (session_handle (second_done by_editor spawn_a spawn_b empty 0).0 key_a ≡ some handle_a)
    × ((first_done by_editor spawn_a spawn_b empty 0).1
        ≡ returned (ok (record { id = lease_id empty.lease_seq; key = key_a })))
    × ((second_done by_editor spawn_a spawn_b empty 0).1
        ≡ returned (
            ok (record {
              id = lease_id (first_done by_editor spawn_a spawn_b empty 0).0.lease_seq;
              key = key_a;
            })))
unfolding with_idle_ttl get
double_spawn_example =
    double_spawn by_editor spawn_a spawn_b empty 0 handle_a handle_b refl refl refl refl

swept_under_lease_example :
    let (r', p) = acquire_or_spawn by_editor spawn_a (idle_candidates 20 released).0 in
    (p ≡ returned (ok (record { id = lease_id released.lease_seq; key = key_a })))
    × (handle_for_lease_id r' (lease_id released.lease_seq) ≡ some handle_a)
    × (handle_for_lease_id (remove key_a r') (lease_id released.lease_seq) ≡ none)
unfolding is_idle release_by_lease_id acquire_or_spawn with_idle_ttl get insert list_beq lease_id
    to_string digits
swept_under_lease_example =
    swept_under_lease by_editor spawn_a released (record_a 0) 20 released-WellFormed get-released
      refl

-- The call c, in the phase p, goes on in a reachable system.
fly_on :
    (s : System) (c : ℕ) (p : Phase)
    → Reach 10 s
    → get c s.flights ≡ some (record { request = by_editor; phase = p })
    → s.registry.lease_seq + 1 < 2 ^ 64
    → Reach 10 (fly s c (record { request = by_editor; phase = p }) spawn_a)
fly_on s c p r e room = followed r (flew c _ spawn_a e refl room refl)

abbrev flying : System → ℕ → Phase → System
flying s c p = fly s c (record { request = by_editor; phase = p }) spawn_a

-- Call 0 goes on until it spawns, and then call 1 until it waits.
abbrev first_spawns : System
first_spawns = flying (flying (flying launched_once 0 entering) 0 (checking 0)) 0 (gating 0)

abbrev second_waits : System
second_waits =
    flying (flying (flying (launch first_spawns 1 by_editor) 1 entering) 1 (checking 0)) 1
      (gating 0)

first_spawns-Reach : Reach 10 first_spawns
unfolding get insert with_idle_ttl advance gate_for
first_spawns-Reach =
    fly_on _ 0 (gating 0)
      (fly_on _ 0 (checking 0)
        (fly_on _ 0 entering (followed start (launched 0 by_editor refl refl)) refl (omega arith))
        refl (omega arith))
      refl (omega arith)

-- Call 0 gets its lease, and then a release of it makes its first region.
abbrev first_leased : System
first_leased =
    flying (flying (flying first_spawns 0 (spawning 0)) 0 (reopening 0 (ok handle_a))) 0
      (settling (ok handle_a))

abbrev releasing : System
releasing = take first_leased 5 (lease_id 1)

releasing-Reach : Reach 10 releasing
unfolding get insert with_idle_ttl advance gate_for pass_gate
releasing-Reach =
    followed
      (fly_on _ 0 (settling (ok handle_a))
        (fly_on _ 0 (reopening 0 (ok handle_a))
          (fly_on _ 0 (spawning 0) first_spawns-Reach refl (omega arith)) refl (omega arith))
        refl (omega arith))
      (took 5 (lease_id 1) refl refl)

Reach-IsIssuing_example : IsIssuing releasing
Reach-IsIssuing_example = Reach-IsIssuing releasing-Reach

second_waits-Reach : Reach 10 second_waits
unfolding get insert with_idle_ttl advance gate_for pass_gate key_beq list_beq
second_waits-Reach =
    fly_on _ 1 (gating 0)
      (fly_on _ 1 (checking 0)
        (fly_on _ 1 entering (followed first_spawns-Reach (launched 1 by_editor refl refl)) refl
          (omega arith))
        refl (omega arith))
      refl (omega arith)

abbrev waiting_flight : Flight
waiting_flight = record { request = by_editor; phase = waiting 0 0 }

no_deadlock_example :
    (d : ℕ) × (x : Flight) × (get d second_waits.flights ≡ some x) × Moves second_waits.registry x
unfolding get insert with_idle_ttl advance gate_for pass_gate key_beq list_beq
no_deadlock_example = no_deadlock 1 waiting_flight second_waits-Reach refl refl

abbrev operations : List Op
operations =
    acquire by_editor spawn_a
    ∷ acquire by_editor (record { now = 6; outcome = err (codes "gone") })
    ∷ release 7 (lease_id 1)
    ∷ sweep 30
    ∷ removal key_a
    ∷ []

run-Refined_example :
    ((run_registry operations empty).1 ≡ (run_book operations new_book).1)
    × Implements (run_book operations new_book).0 (run_registry operations empty).0
run-Refined_example =
    run-Refined operations new_book empty (refl, (tt, (tt, (tt, (tt, tt))))) (omega arith)
      (new_book-Implements 10)

respawned_under_remove_example :
    let (r₁, p) = acquire_or_spawn by_editor spawn_a (remove_session key_a released) in
    let r₂ = remove_gate key_a (retain_leases key_a r₁) in
    (p ≡ returned (ok (record { id = lease_id released.lease_seq; key = key_a })))
    × (refs (get key_a r₂.sessions) ≡ 1)
    × (count key_a r₂.leases ≡ 0)
unfolding get release_by_lease_id acquire_or_spawn with_idle_ttl insert list_beq to_string key_beq
respawned_under_remove_example =
    respawned_under_remove by_editor spawn_a handle_a released refl refl

released_late_example :
    let (r₀, key) = take_lease (lease_id 1) leased in
    let (r₁, p) = acquire_or_spawn by_editor spawn_a (remove key_a r₀) in
    let r₂ = (drop_count 9 key_a r₁).0 in
    (key ≡ some key_a)
    × (p ≡ returned (ok (record { id = lease_id leased.lease_seq; key = key_a })))
    × (refs (get key_a r₂.sessions) ≡ 0)
    × (handle_for_lease_id r₂ (lease_id leased.lease_seq) ≡ some handle_a)
released_late_example =
    released_late by_editor spawn_a handle_a 9 (lease_id 1) lease_a leased get-leased_lease refl
      refl
