-- ===== src/Registry/Issuing.antt =====
-- Leases under every interleaving: whatever runs between the regions of a release or a removal,
-- sessions stand under their keys and no id of a lease is given out twice.
use lspee.Base.{ℕ, ◌≡◌, refl, arith, not, Option-cases, inl, inr}
use lspee.Base.Eq.{◌==◌, nat_eq, text_eq}
use lspee.Base.Text.{Text}
use lspee.Base.Map.{
  Map, Unique, get, insert, get-insert, get-remove, get-retain-none, get-map_values, remove-Unique,
  retain-Unique, insert-every, modify,
}
use lspee.Base.Map
use lspee.Registry.State.{SessionKey, SessionRegistry, key_eq, lease_id, with_idle_ttl, touched}
use lspee.Registry.Ops.{
  touch, marked, dropped, mark_terminating_with_notice, idle_candidates, mark_idle,
}
use lspee.Registry.Regions.{take_lease, drop_count, remove_session, retain_leases, remove_gate}
use lspee.Registry.System.{
  Flight, System, Step, Reach, launched, flew, swept, start, followed, launch, fly, initial, Task,
  dropping, retaining, ungating, took, retired, worked, work, take, retire,
}
use lspee.Registry.System
use lspee.Registry.Invariant.Ops.{mark_idle-handle}
use lspee.Registry.Invariant.Issues.{Issues, gates-Issues, sessions-Issues, modify-Keyed}
use lspee.Registry.Answered.{IsIssuing, same-IsIssuing, fly-IsIssuing, launch-IsIssuing}

take_lease-Issues : (id : Text) (r : SessionRegistry) → Issues r → Issues (take_lease id r).0
unfolding take_lease
take_lease-Issues id r v = elim (Option-cases (get id r.leases)) [
  | inl e ↦ rw (e, take_lease) v
  | inr (l, e) ↦
      rw (e, take_lease)
        (record {
          keyed = v.keyed;
          leases_unique = remove-Unique id r.leases v.leases_unique;
          fresh = λ n h. ground (arith, get-remove id (lease_id n) r.leases, v.fresh n h);
          bounded = v.bounded;
        })
]

take_lease-seq : (id : Text) (r : SessionRegistry) → (take_lease id r).0.lease_seq ≡ r.lease_seq
unfolding take_lease
take_lease-seq id r = ground arith

remove_session-Issues :
    (key : SessionKey) (r : SessionRegistry) → Issues r → Issues (remove_session key r)
unfolding remove_session
remove_session-Issues key r v =
    sessions-Issues r (Map.remove key r.sessions)
      (λ k x h. v.keyed k x (ground (arith, get-remove key k r.sessions))) v

retain_leases-Issues :
    (key : SessionKey) (r : SessionRegistry) → Issues r → Issues (retain_leases key r)
unfolding retain_leases
retain_leases-Issues key r v = record {
  keyed = v.keyed;
  leases_unique = retain-Unique _ r.leases v.leases_unique;
  fresh = λ n h. get-retain-none (λ _ l. not (l.key == key)) (lease_id n) r.leases (v.fresh n h);
  bounded = v.bounded;
}

work-IsIssuing : (s : System) (c now : ℕ) (x : Task) → IsIssuing s → IsIssuing (work s c now x)
unfolding drop_count remove_gate dropped retain_leases
work-IsIssuing s c now (dropping key) a =
    same-IsIssuing s _ _ refl
      (sessions-Issues s.registry _
        (modify-Keyed key (dropped now) s.registry.sessions (λ x. refl) a.issues.keyed) a.issues)
      a
work-IsIssuing s c now (retaining key) a =
    same-IsIssuing s (retain_leases key s.registry) _ refl (retain_leases-Issues key _ a.issues) a
work-IsIssuing s c now (ungating key) a =
    same-IsIssuing s _ _ refl (gates-Issues s.registry _ _ _ _ a.issues) a

swept-Issues : (now : ℕ) (r : SessionRegistry) → Issues r → Issues (idle_candidates now r).0
unfolding idle_candidates
swept-Issues now r v =
    sessions-Issues r _
      (λ k x h. elim (Option-cases (get k r.sessions)) [
        | inl e ↦ ground (arith, get-map_values (mark_idle now r.idle_ttl) k r.sessions)
        | inr (y, e) ↦ ground (
          arith,
          get-map_values (mark_idle now r.idle_ttl) k r.sessions,
          v.keyed k y e,
          mark_idle-handle now r.idle_ttl y,
        )
      ])
      v

Step-IsIssuing : {s t : System} → Step s t → IsIssuing s → IsIssuing t
unfolding touch mark_terminating_with_notice idle_candidates remove_session
Step-IsIssuing {s} (launched c q e t) a = rw t (launch-IsIssuing s c q a)
Step-IsIssuing {s} (flew c f w e ans room t) a = rw t (fly-IsIssuing s c f w a e room ans)
Step-IsIssuing {s} (took c id e t) a = rw t (
    same-IsIssuing s (take_lease id s.registry).0 _ (take_lease-seq id s.registry)
      (take_lease-Issues id s.registry a.issues) a)
Step-IsIssuing {s} (retired c key e t) a = rw t (
    same-IsIssuing s (remove_session key s.registry) _ refl
      (remove_session-Issues key s.registry a.issues) a)
Step-IsIssuing {s} (worked c now x e t) a = rw t (work-IsIssuing s c now x a)
Step-IsIssuing {s} (System.touched now key t) a = rw t (
    same-IsIssuing s _ _ refl
      (sessions-Issues s.registry _
        (modify-Keyed key (touched now) s.registry.sessions (λ x. refl) a.issues.keyed) a.issues)
      a)
Step-IsIssuing {s} (System.marked key notice t) a = rw t (
    same-IsIssuing s _ _ refl
      (sessions-Issues s.registry _
        (modify-Keyed key (marked notice) s.registry.sessions (λ x. refl) a.issues.keyed) a.issues)
      a)
Step-IsIssuing {s} (swept now t) a = rw t (
    same-IsIssuing s (idle_candidates now s.registry).0 _ refl
      (swept-Issues now s.registry a.issues) a)

initial-IsIssuing : (ttl : ℕ) → IsIssuing (initial ttl)
unfolding with_idle_ttl get
initial-IsIssuing ttl = record {
  issues = record {
    keyed = λ k x h. absurd (cc);
    leases_unique = tt;
    fresh = λ n h. refl;
    bounded = omega arith;
  };
  carried = λ c f e. absurd (cc);
  answered = λ c f id e. absurd (cc);
  distinct = λ c d f g id e. absurd (cc);
}

-- However the regions of calls of acquire_or_spawn, of releases and of removals interleave with
-- each other and with touches, marks and sweeps, as long as lease ids are left and spawned handles
-- have the keys asked for, in every system that they reach from a new registry each session stands
-- under its own key, no lease id is in the registry twice, no id that is still to be given out is
-- in it, the id that a call is answered with has been given out, and no two calls are answered
-- with one id. The counts of the sessions have no part in it.
pub Reach-IsIssuing : {ttl : ℕ} {s : System} → Reach ttl s → IsIssuing s
Reach-IsIssuing {ttl} start = initial-IsIssuing ttl
Reach-IsIssuing (followed r st) = Step-IsIssuing st (Reach-IsIssuing r)
