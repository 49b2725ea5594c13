-- ===== src/Registry/Answered.antt =====
-- The calls in flight that have an answer: a new call and a region of a call keep their ids apart.
use lspee.Base.{
  ℕ, ◌+◌, ◌≤◌, ◌<◌, ◌^◌, ◌≡◌, refl, sym, ap, ◌∙◌, none, some, arith, Bool-cases, inl, inr,
}
use lspee.Base.Eq.{◌==◌, nat_eq, text_eq, beq_eq}
use lspee.Base.Text.{Text}
use lspee.Base.Map.{Map, get, insert, get-insert, insert-every}
use lspee.Registry.State.{SessionRegistry, key_eq, lease_id}
use lspee.Registry.Acquire.{Request, World, entering, advance}
use lspee.Registry.System.{Flight, System, launch, fly, Task}
use lspee.Registry.Invariant.{lease_id_injective}
use lspee.Registry.Invariant.Acquire.{Answers, PhaseAnswers}
use lspee.Registry.Invariant.Issues.{
  Issues, answer_id, advance-Issues, Answering, advance-Answering, advance-PhaseAnswers,
}

some_injective {ℓ} : {A : Type ℓ} {a b : A} → some a ≡ some b → a ≡ b
some_injective e = cc

-- What holds in every reachable system. The two about answers: the id of an answer has been given
-- out before, and two calls do not have one.
pub record IsIssuing (s : System) : Type 0 where
  pub issues : Issues s.registry
  pub carried : (c : ℕ) (f : Flight) → get c s.flights ≡ some f → PhaseAnswers f.request.key f.phase
  pub answered :
      (c : ℕ) (f : Flight) (id : Text)
      → get c s.flights ≡ some f
      → answer_id f.phase ≡ some id
      → (n : ℕ) × (n < s.registry.lease_seq) × (id ≡ lease_id n)
  pub distinct :
      (c d : ℕ) (f g : Flight) (id : Text)
      → get c s.flights ≡ some f
      → get d s.flights ≡ some g
      → answer_id f.phase ≡ some id
      → answer_id g.phase ≡ some id
      → c ≡ d

-- A step that leaves the calls and the number of ids alone.
pub same-IsIssuing :
    (s : System) (r : SessionRegistry) (m : Map ℕ Task)
    → r.lease_seq ≡ s.registry.lease_seq
    → Issues r
    → IsIssuing s
    → IsIssuing (record s { registry = r; tasks = m })
same-IsIssuing s r m e v a = record {
  issues = v;
  carried = a.carried;
  answered = λ c f id h i. rw e (a.answered c f id h i);
  distinct = a.distinct;
}

-- The answer of a call that flew is an answer before, or the id that was next.
module _ (s : System) (c : ℕ) (f : Flight) (w : World) (a : IsIssuing s)
    (here : get c s.flights ≡ some f) (room : s.registry.lease_seq + 1 < 2 ^ 64) where
  abbrev r' : SessionRegistry
  r' = (advance f.request w s.registry f.phase).0

  abbrev f' : Flight
  f' = record { request = f.request; phase = (advance f.request w s.registry f.phase).1 }

  abbrev region : Answering s.registry f.phase (r', f'.phase)
  region = advance-Answering f.request w s.registry f.phase room

  later_ids : s.registry.lease_seq ≤ r'.lease_seq
  later_ids = elim region [ inl (e, same) ↦ omega arith | inr (e, next) ↦ omega arith ]

  fly-answered :
      (id : Text) → answer_id f'.phase ≡ some id → (n : ℕ) × (n < r'.lease_seq) × (id ≡ lease_id n)
  fly-answered id h = elim region [
    | inl (e, same) ↦ rw same (a.answered c f id here (sym e ∙ h))
    | inr (e, next) ↦ (s.registry.lease_seq, omega arith, cc)
  ]

  -- Another call has another answer.
  fly-other :
      (d : ℕ) (g : Flight) (id : Text)
      → get d s.flights ≡ some g
      → answer_id f'.phase ≡ some id
      → answer_id g.phase ≡ some id
      → c ≡ d
  fly-other d g id there h i = elim region [
    | inl (e, same) ↦ a.distinct c d f g id here there (sym e ∙ h) i
    | inr (e, next) ↦
        let (n, below, named) = a.answered d g id there i in
        let both : lease_id n ≡ lease_id s.registry.lease_seq = cc in
        let same_number = lease_id_injective n s.registry.lease_seq both in
        absurd (omega (arith, below, same_number))
  ]

  fly-distinct :
      (x y : ℕ) (g h : Flight) (id : Text)
      → get x (insert c f' s.flights) ≡ some g
      → get y (insert c f' s.flights) ≡ some h
      → answer_id g.phase ≡ some id
      → answer_id h.phase ≡ some id
      → x ≡ y
  fly-distinct x y g h id e i j k = elim (Bool-cases (c == x)) [
    | inl u ↦ elim (Bool-cases (c == y)) [
      | inl v ↦ sym (beq_eq c x u) ∙ beq_eq c y v
      | inr v ↦
          let mine : f' ≡ g = some_injective (sym (get-insert c x f' s.flights ∙ rw u refl) ∙ e) in
          let theirs : get y s.flights ≡ some h =
            sym (get-insert c y f' s.flights ∙ rw v refl) ∙ i in
          sym (beq_eq c x u) ∙ fly-other y h id theirs (ap (λ z. answer_id z.phase) mine ∙ j) k
    ]
    | inr u ↦
        let first : get x s.flights ≡ some g = sym (get-insert c x f' s.flights ∙ rw u refl) ∙ e in
        elim (Bool-cases (c == y)) [
          | inl v ↦
              let mine : f' ≡ h =
                some_injective (sym (get-insert c y f' s.flights ∙ rw v refl) ∙ i) in
              sym (fly-other x g id first (ap (λ z. answer_id z.phase) mine ∙ k) j) ∙ beq_eq c y v
          | inr v ↦
              let second : get y s.flights ≡ some h =
                sym (get-insert c y f' s.flights ∙ rw v refl) ∙ i in
              a.distinct x y g h id first second j k
        ]
  ]

  pub fly-IsIssuing : Answers f.request.key w.outcome → IsIssuing (fly s c f w)
  fly-IsIssuing ans = record {
    issues = advance-Issues f.request w s.registry f.phase a.issues room (a.carried c f here);
    carried =
        insert-every (λ x. PhaseAnswers x.request.key x.phase) c f' s.flights
          (advance-PhaseAnswers f.request w s.registry f.phase ans (a.carried c f here)) a.carried;
    answered = λ d x id e i.
        insert-every
          (λ x.
            (id : Text)
            → answer_id x.phase ≡ some id
            → (n : ℕ) × (n < r'.lease_seq) × (id ≡ lease_id n))
          c f' s.flights fly-answered
          (λ d x e id i.
            let (n, below, named) = a.answered d x id e i in
            (n, omega (arith, below, later_ids), named))
          d x e id i;
    distinct = fly-distinct;
  }

pub launch-IsIssuing : (s : System) (c : ℕ) (q : Request) → IsIssuing s → IsIssuing (launch s c q)
unfolding answer_id
launch-IsIssuing s c q a =
    let f : Flight = record { request = q; phase = entering } in
    let silent : (x : ℕ) (g : Flight) (id : Text)
        → get x (insert c f s.flights) ≡ some g
        → answer_id g.phase ≡ some id
        → get x s.flights ≡ some g =
      λ x g id e i. elim (Bool-cases (c == x)) [
        | inl u ↦
            let mine : f ≡ g = some_injective (sym (get-insert c x f s.flights ∙ rw u refl) ∙ e) in
            let none_yet : none ≡ some id = ap (λ z. answer_id z.phase) mine ∙ i in absurd (cc)
        | inr u ↦ sym (get-insert c x f s.flights ∙ rw u refl) ∙ e
      ] in
    record {
      issues = a.issues;
      carried = insert-every (λ x. PhaseAnswers x.request.key x.phase) c f s.flights tt a.carried;
      answered = λ d x id e i. a.answered d x id (silent d x id e i) i;
      distinct =
          λ x y g h id e i j k. a.distinct x y g h id (silent x g id e j) (silent y h id i k) j k;
    }
