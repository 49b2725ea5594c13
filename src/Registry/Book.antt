-- ===== src/Registry/Book.antt =====
-- What the registry promises to one caller after another: a book of leases. A session is only live
-- or not, a lease is only held on a key; records, times, gates and counters are forgotten.
use lspee.Base.{
  ℕ, ◌+◌, ◌-◌, ◌≡◌, refl, Bool, ◌&&◌, ◌||◌, not, Option, none, some, [], ◌∷◌, arith, if◌then◌else◌,
  ok, err,
}
use lspee.Base.Eq.{◌==◌, text_eq}
use lspee.Base.Text.{Text}
use lspee.Base.Map
use lspee.Base.Map.{Map, get, insert, retain}
use lspee.Protocol.{StreamErrorPayload}
use lspee.Registry.State.{SessionKey, SessionRegistry, LeaseRecord, key_eq, lease_id}
use lspee.Registry.Ops.{
  release_by_lease_id, touch, mark_terminating_with_notice, idle_candidates, remove,
}
use lspee.Registry.Acquire.{Request, World, Phase, returned, acquire_or_spawn}
use lspee.Registry.Leases.{count}

pub record Book : Type 0 where
  pub next : ℕ
  pub holders : Map Text SessionKey
  pub live : SessionKey → Bool

pub data Op : Type 0 where
  acquire : Request → World → Op
  release : ℕ → Text → Op
  removal : SessionKey → Op
  touching : ℕ → SessionKey → Op
  marking : SessionKey → Option StreamErrorPayload → Op
  sweep : ℕ → Op

-- `held_up` is the answer of a call that has not returned.
pub data Answer : Type 0 where
  leased : Text → Answer
  failed : Text → Answer
  held_up : Answer
  left : Option ℕ → Answer
  done : Answer

unfoldable pub held_by : SessionKey → Map Text SessionKey → ℕ
held_by key [] = 0
held_by key ((id, k) ∷ m) = (if k == key then 1 else 0) + held_by key m

abbrev pub enter : SessionKey → Book → Book × Answer
enter key b = (
  record {
    next = b.next + 1;
    holders = insert (lease_id b.next) key b.holders;
    live = λ k. key == k || b.live k;
  },
  leased (lease_id b.next),
)

-- The book's operations: a lease needs a live session or a spawn that succeeds.
unfoldable pub book_step : Op → Book → Book × Answer
unfolding held_by
book_step (acquire q w) b = elim w.outcome [
  | ok h ↦ enter q.key b
  | err m ↦ if b.live q.key then enter q.key b else (b, failed m)
]
book_step (release now id) b = elim (get id b.holders) [
  | none ↦ (b, left none)
  | some key ↦
      (record b { holders = Map.remove id b.holders }, left (some (held_by key b.holders - 1)))
]
book_step (removal key) b = (
  record b {
    holders = retain (λ _ k. not (k == key)) b.holders;
    live = λ k. not (key == k) && b.live k;
  },
  done,
)
book_step (touching now key) b = (b, done)
book_step (marking key notice) b = (b, done)
book_step (sweep now) b = (b, done)

abbrev pub answer_of : Phase → Answer
answer_of (returned (ok lease)) = leased lease.id
answer_of (returned (err m)) = failed m
answer_of _ = held_up

-- The registry's operations, each running alone.
unfoldable pub registry_step : Op → SessionRegistry → SessionRegistry × Answer
unfolding acquire_or_spawn release_by_lease_id touch mark_terminating_with_notice idle_candidates
    remove
registry_step (acquire q w) r = let (r', p) = acquire_or_spawn q w r in (r', answer_of p)
registry_step (release now id) r = let (r', n) = release_by_lease_id now id r in (r', left n)
registry_step (removal key) r = (remove key r, done)
registry_step (touching now key) r = (touch now key r, done)
registry_step (marking key notice) r = (mark_terminating_with_notice key notice r, done)
registry_step (sweep now) r = ((idle_candidates now r).0, done)

-- The keys that leases are held on.
unfoldable pub holders_of : Map Text LeaseRecord → Map Text SessionKey
holders_of [] = []
holders_of ((id, l) ∷ m) = (id, l.key) ∷ holders_of m

pub get-holders_of :
    (id : Text) (m : Map Text LeaseRecord)
    → get id (holders_of m) ≡ elim (get id m) [ none ↦ none | some l ↦ some l.key ]
unfolding get holders_of
get-holders_of id [] = refl
get-holders_of id ((i, l) ∷ m) = ground (arith, get-holders_of id m)

pub holders_of-insert :
    (id : Text) (l : LeaseRecord) (m : Map Text LeaseRecord)
    → holders_of (insert id l m) ≡ insert id l.key (holders_of m)
unfolding insert holders_of
holders_of-insert id l [] = refl
holders_of-insert id l ((i, w) ∷ m) = ground (arith, holders_of-insert id l m)

pub holders_of-remove :
    (id : Text) (m : Map Text LeaseRecord)
    → holders_of (Map.remove id m) ≡ Map.remove id (holders_of m)
unfolding Map.remove holders_of
holders_of-remove id [] = refl
holders_of-remove id ((i, w) ∷ m) = ground (arith, holders_of-remove id m)

pub holders_of-retain :
    (key : SessionKey) (m : Map Text LeaseRecord)
    → holders_of (retain (λ _ l. not (l.key == key)) m)
      ≡ retain (λ _ k. not (k == key)) (holders_of m)
unfolding retain holders_of
holders_of-retain key [] = refl
holders_of-retain key ((i, w) ∷ m) = ground (arith, holders_of-retain key m)

pub held_by-holders_of :
    (key : SessionKey) (m : Map Text LeaseRecord) → held_by key (holders_of m) ≡ count key m
unfolding count held_by holders_of
held_by-holders_of key [] = refl
held_by-holders_of key ((i, w) ∷ m) = ground (arith, held_by-holders_of key m)
