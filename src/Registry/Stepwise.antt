-- ===== src/Registry/Stepwise.antt =====
-- Each operation of the registry does what the book's does.
use lspee.Base.{
  ℕ, ◌+◌, ◌-◌, ◌≡◌, ◌<◌, ◌^◌, refl, sym, ap, ◌∙◌, subst, true, ◌||◌, not, none, some, arith,
  is_some, err, Option-cases, Result-cases, Bool-cases, inl, inr,
}
use lspee.Base.Eq.{◌==◌, text_eq, nat_eq}
use lspee.Base.Text.{Text}
use lspee.Base.Map
use lspee.Base.Map.{
  Map, get, insert, retain, modify, get-insert, get-modify, get-remove, get-map_values,
}
use lspee.Registry.State.{SessionKey, SessionRegistry, key_eq, lease_id}
use lspee.Registry.Ops.{
  touch, mark_terminating_with_notice, idle_candidates, remove, dropped, mark_idle,
}
use lspee.Registry.Acquire.{Request, World, entering, acquire_or_spawn}
use lspee.Registry.Leases.{count}
use lspee.Registry.Leasing.{gate_open, acquire_fails}
use lspee.Registry.Invariant.{WellFormed}
use lspee.Registry.Release.{release_counts}
use lspee.Registry.Invariant.Acquire.{Answers}
use lspee.Registry.Invariant.Alone.{acquire_or_spawn-WellFormed}
use lspee.Registry.Invariant.Ops.{
  release-WellFormed, touch-WellFormed, mark_terminating-WellFormed, idle_candidates-WellFormed,
  remove-WellFormed,
}
use lspee.Registry.Book.{
  Book, Op, enter, acquire, release, removal, touching, marking, sweep, leased, failed, left, done,
  book_step, registry_step, answer_of, holders_of, held_by, get-holders_of, holders_of-insert,
  holders_of-remove, holders_of-retain, held_by-holders_of,
}
use lspee.Registry.Refines.{
  OpenBut, advance_many-OpenBut, Implements, Refined, Granted, live-Granted, spawn-Granted,
  is_some-modify, release_none, release_some,
}

module _ (b : Book) (r : SessionRegistry) (i : Implements b r) where
  open_gate : (key : SessionKey) → gate_open key r ≡ true
  open_gate key = elim (Option-cases (get key r.spawn_gates)) [
    | inl e ↦ rw (e, gate_open) refl
    | inr (g, e) ↦ rw (e, gate_open) (ap not (i.all_open g))
  ]

  opens : (q : Request) (w : World) → OpenBut (acquire_or_spawn q w r).1 (acquire_or_spawn q w r).0
  unfolding acquire_or_spawn
  opens q w = advance_many-OpenBut 6 q w r entering i.all_open

  lease-Refined :
      (q : Request) (w : World)
      → r.lease_seq + 1 < 2 ^ 64
      → Answers q.key w.outcome
      → Granted q w r (acquire_or_spawn q w r)
      → Refined (enter q.key b) (registry_step (acquire q w) r)
  unfolding registry_step
  lease-Refined q w room a (returns, leases, seq, live) = (
    ap answer_of returns ∙ ap (λ n. leased (lease_id n)) i.same_next,
    record {
      valid = acquire_or_spawn-WellFormed q w r i.valid room a;
      all_open = subst (λ p. OpenBut p (acquire_or_spawn q w r).0) returns (opens q w);
      same_next = omega (arith, seq, i.same_next);
      same_holders =
          ap holders_of leases
          ∙ holders_of-insert (lease_id r.lease_seq) _ r.leases
          ∙ rw (i.same_holders, i.same_next) refl;
      same_live = λ k. live k ∙ ap (λ x. q.key == k || x) (i.same_live k);
    },
  )

  fails-Refined :
      (q : Request) (w : World)
      → r.lease_seq + 1 < 2 ^ 64
      → Answers q.key w.outcome
      → (m : Text) → get q.key r.sessions ≡ none
      → w.outcome ≡ err m
      → Refined (b, failed m) (registry_step (acquire q w) r)
  unfolding registry_step
  fails-Refined q w room a m gone e =
      let (returns, sessions, leases, seq, gate) = acquire_fails q w r m gone (open_gate q.key) e in
      (
        ap answer_of returns,
        record {
          valid = acquire_or_spawn-WellFormed q w r i.valid room a;
          all_open = subst (λ p. OpenBut p (acquire_or_spawn q w r).0) returns (opens q w);
          same_next = seq ∙ i.same_next;
          same_holders = ap holders_of leases ∙ i.same_holders;
          same_live = λ k. ap (λ m. is_some (get k m)) sessions ∙ i.same_live k;
        },
      )

  acquire-Refined :
      (q : Request) (w : World)
      → r.lease_seq + 1 < 2 ^ 64
      → Answers q.key w.outcome
      → Refined (book_step (acquire q w) b) (registry_step (acquire q w) r)
  unfolding book_step
  acquire-Refined q w room a = elim (Bool-cases (is_some (get q.key r.sessions))) [
    | inl live ↦
        let entered : book_step (acquire q w) b ≡ enter q.key b =
          ground (arith, i.same_live q.key) in
        subst (λ y. Refined y (registry_step (acquire q w) r)) (sym entered)
          (lease-Refined q w room a (live-Granted q w r live))
    | inr dead ↦
        let gone : get q.key r.sessions ≡ none = ground arith in
        elim (Result-cases w.outcome) [
          | inl (h, e) ↦
              let entered : book_step (acquire q w) b ≡ enter q.key b = rw e refl in
              subst (λ y. Refined y (registry_step (acquire q w) r)) (sym entered)
                (lease-Refined q w room a (spawn-Granted q w r h gone (open_gate q.key) e))
          | inr (m, e) ↦
              let same : book_step (acquire q w) b ≡ (b, failed m) =
                ground (arith, i.same_live q.key) in
              subst (λ y. Refined y (registry_step (acquire q w) r)) (sym same)
                (fails-Refined q w room a m gone e)
        ]
  ]

  release-Refined :
      (now : ℕ) (id : Text)
      → Refined (book_step (release now id) b) (registry_step (release now id) r)
  unfolding book_step registry_step
  release-Refined now id = elim (Option-cases (get id r.leases)) [
    | inl e ↦
        let none_there : get id b.holders ≡ none =
          ap (get id) (sym i.same_holders) ∙ get-holders_of id r.leases ∙ rw e refl in
        rw (none_there, book_step) (rw (release_none now id r e, registry_step) (refl, i))
    | inr (l, e) ↦
        let there : get id b.holders ≡ some l.key =
          ap (get id) (sym i.same_holders) ∙ get-holders_of id r.leases ∙ rw e refl in
        let held : held_by l.key b.holders ≡ count l.key r.leases =
          ap (held_by l.key) (sym i.same_holders) ∙ held_by-holders_of l.key r.leases in
        let (answer, counted, dropped_id) = release_counts r id l now i.valid e in
        let (leases, sessions, seq, cells) = release_some now id l r e in
        rw (there, book_step)
          (
            ap left answer ∙ ap (λ n. left (some (n - 1))) (sym held),
            record {
              valid = release-WellFormed now id r i.valid;
              all_open = λ g. rw cells (i.all_open g);
              same_next = seq ∙ i.same_next;
              same_holders =
                  ap holders_of leases
                  ∙ holders_of-remove id r.leases
                  ∙ ap (Map.remove id) i.same_holders;
              same_live = λ k.
                  ap (λ m. is_some (get k m)) sessions
                  ∙ is_some-modify k l.key (dropped now) r.sessions
                  ∙ i.same_live k;
            },
          )
  ]

  removal-Refined :
      (key : SessionKey) → Refined (book_step (removal key) b) (registry_step (removal key) r)
  unfolding book_step registry_step remove
  removal-Refined key = (
    refl,
    record {
      valid = remove-WellFormed key r i.valid;
      all_open = i.all_open;
      same_next = i.same_next;
      same_holders =
          holders_of-retain key r.leases ∙ ap (retain (λ _ k. not (k == key))) i.same_holders;
      same_live = λ k. ground (arith, get-remove key k r.sessions, i.same_live k);
    },
  )

  -- A step that changes no more than the fields of records.
  quiet-Refined :
      (r' : SessionRegistry)
      → WellFormed r'
      → r'.gate_cells ≡ r.gate_cells
      → r'.lease_seq ≡ r.lease_seq
      → r'.leases ≡ r.leases
      → ((k : SessionKey) → is_some (get k r'.sessions) ≡ is_some (get k r.sessions))
      → Refined (b, done) (r', done)
  quiet-Refined r' v cells seq leases live = (
    refl,
    record {
      valid = v;
      all_open = λ g. rw cells (i.all_open g);
      same_next = seq ∙ i.same_next;
      same_holders = ap holders_of leases ∙ i.same_holders;
      same_live = λ k. live k ∙ i.same_live k;
    },
  )

  -- What a step needs: an id for a lease, and a spawned handle with the key asked for.
  abbrev pub Able : Op → Type 0
  Able (acquire q w) = (r.lease_seq + 1 < 2 ^ 64) × Answers q.key w.outcome
  Able _ = Unit

  -- One step of the registry, by one caller, is the step of the book.
  pub step-Refined : (op : Op) → Able op → Refined (book_step op b) (registry_step op r)
  unfolding book_step registry_step touch mark_terminating_with_notice idle_candidates
  step-Refined (acquire q w) (room, a) = acquire-Refined q w room a
  step-Refined (release now id) u = release-Refined now id
  step-Refined (removal key) u = removal-Refined key
  step-Refined (touching now key) u =
      quiet-Refined (touch now key r) (touch-WellFormed now key r i.valid) refl refl refl
        (λ k. is_some-modify k key _ r.sessions)
  step-Refined (marking key notice) u =
      quiet-Refined (mark_terminating_with_notice key notice r)
        (mark_terminating-WellFormed key notice r i.valid) refl refl refl
        (λ k. is_some-modify k key _ r.sessions)
  step-Refined (sweep now) u =
      quiet-Refined (idle_candidates now r).0 (idle_candidates-WellFormed now r i.valid) refl refl
        refl (λ k. ground (arith, get-map_values (mark_idle now r.idle_ttl) k r.sessions))
