-- ===== src/Registry/Runs.antt =====
-- Operations one after another, in the registry and in the book.
use lspee.Base.{ℕ, ◌+◌, ◌≡◌, ◌<◌, ◌≤◌, ◌^◌, refl, false, List, [], ◌∷◌, arith, length, All}
use lspee.Base.Eq.{text_eq, nat_eq}
use lspee.Base.Map.{get}
use lspee.Registry.State.{SessionRegistry, key_eq, with_idle_ttl}
use lspee.Registry.Invariant.Acquire.{Answers}
use lspee.Registry.Invariant.Ops.{with_idle_ttl-WellFormed}
use lspee.Registry.Book.{
  Book, Op, acquire, release, removal, touching, marking, sweep, Answer, book_step, registry_step,
  holders_of,
}
use lspee.Registry.Stepwise.{Able, step-Refined}
use lspee.Registry.Refines.{Implements}
use lspee.Registry.Stepwise.{Able, step-Refined}

-- The spawned handle of a call has the key that is asked for.
abbrev pub Keyed : Op → Type 0
Keyed (acquire q w) = Answers q.key w.outcome
Keyed _ = Unit

-- Operations one after another, and their answers.
unfoldable pub run_book : List Op → Book → Book × List Answer
unfolding book_step
run_book [] b = (b, [])
run_book (op ∷ ops) b =
    let (b', x) = book_step op b in let (end, xs) = run_book ops b' in (end, x ∷ xs)

unfoldable pub run_registry : List Op → SessionRegistry → SessionRegistry × List Answer
unfolding registry_step
run_registry [] r = (r, [])
run_registry (op ∷ ops) r =
    let (r', x) = registry_step op r in let (end, xs) = run_registry ops r' in (end, x ∷ xs)

book_step-next : (op : Op) (b : Book) → (book_step op b).0.next ≤ b.next + 1
unfolding book_step
book_step-next (acquire q w) b = ground arith
book_step-next (release now id) b = ground arith
book_step-next (removal key) b = omega arith
book_step-next (touching now key) b = omega arith
book_step-next (marking key notice) b = omega arith
book_step-next (sweep now) b = omega arith

Keyed-Able :
    (b : Book) (r : SessionRegistry) (i : Implements b r) (op : Op)
    → b.next + 1 < 2 ^ 64
    → Keyed op
    → Able b r i op
Keyed-Able b r i (acquire q w) room a = (omega (arith, i.same_next), a)
Keyed-Able b r i (release now id) room a = tt
Keyed-Able b r i (removal key) room a = tt
Keyed-Able b r i (touching now key) room a = tt
Keyed-Able b r i (marking key notice) room a = tt
Keyed-Able b r i (sweep now) room a = tt

-- Operations that one caller after another makes, each call with a handle for its key, and as long
-- as lease ids are left, have the answers that the book gives, and lead to a registry that
-- implements the book that they lead to.
pub run-Refined :
    (ops : List Op) (b : Book) (r : SessionRegistry)
    → All Keyed ops
    → b.next + length ops < 2 ^ 64
    → Implements b r
    → ((run_registry ops r).1 ≡ (run_book ops b).1)
      × Implements (run_book ops b).0 (run_registry ops r).0
unfolding run_book run_registry
run-Refined [] b r k room i = (refl, i)
run-Refined (op ∷ ops) b r k room i =
    let (answer, next) = step-Refined b r i op (Keyed-Able b r i op (omega arith) k.0) in
    let (answers, last) =
      run-Refined ops (book_step op b).0 (registry_step op r).0 k.1
        (omega (arith, book_step-next op b)) next in
    (rw (answer, answers) refl, last)

-- The book of a new registry.
abbrev pub new_book : Book
new_book = record { next = 1; holders = []; live = λ k. false }

pub new_book-Implements : (ttl : ℕ) → Implements new_book (with_idle_ttl ttl)
unfolding with_idle_ttl get holders_of
new_book-Implements ttl = record {
  valid = with_idle_ttl-WellFormed ttl;
  all_open = λ g. refl;
  same_next = refl;
  same_holders = refl;
  same_live = λ k. refl;
}
