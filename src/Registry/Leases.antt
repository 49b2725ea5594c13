-- ===== src/Registry/Leases.antt =====
-- How many leases hold a session, and how the operations on the map of leases change that number.
use lspee.Base.{
  ℕ, ◌+◌, ◌≤◌, ◌≡◌, refl, not, Option, none, some, [], ◌∷◌, arith, if◌then◌else◌, length,
}
use lspee.Base.Eq.{◌==◌, text_eq}
use lspee.Base.Text.{Text}
use lspee.Base.Map.{Map, Unique, get, insert, remove, retain}
use lspee.Registry.State.{SessionKey, SessionRecord, LeaseRecord, key_eq, key_beq_iff}

-- The leases on the session of a key.
unfoldable pub count : SessionKey → Map Text LeaseRecord → ℕ
count key [] = 0
count key ((id, l) ∷ m) = (if l.key == key then 1 else 0) + count key m

-- The `ref_count` of a session, 0 if there is none.
abbrev pub refs : Option SessionRecord → ℕ
refs none = 0
refs (some x) = x.ref_count

pub count-le : (key : SessionKey) (m : Map Text LeaseRecord) → count key m ≤ length m
unfolding count
count-le key [] = omega arith
count-le key ((id, l) ∷ m) = ground (arith, count-le key m)

pub count-insert :
    (key : SessionKey) (id : Text) (l : LeaseRecord) (m : Map Text LeaseRecord)
    → get id m ≡ none
    → count key (insert id l m) ≡ (if l.key == key then 1 else 0) + count key m
unfolding count get insert
count-insert key id l [] h = refl
count-insert key id l ((i, w) ∷ m) h = ground (arith, count-insert key id l m)

count-remove-none :
    (key : SessionKey) (id : Text) (m : Map Text LeaseRecord)
    → get id m ≡ none
    → count key (remove id m) ≡ count key m
unfolding count get remove
count-remove-none key id [] h = refl
count-remove-none key id ((i, w) ∷ m) h = ground (arith, count-remove-none key id m)

pub count-remove :
    (key : SessionKey) (id : Text) (l : LeaseRecord) (m : Map Text LeaseRecord)
    → Unique m
    → get id m ≡ some l
    → (if l.key == key then 1 else 0) + count key (remove id m) ≡ count key m
unfolding count get remove
count-remove key id l [] u h = cc
count-remove key id l ((i, w) ∷ m) u h =
    ground (arith, text_eq.beq_iff i id, count-remove key id l m u.1, count-remove-none key id m)

-- Retaining the leases of the other keys leaves none of this key, and all of the others.
pub count-retain :
    (key gone : SessionKey) (m : Map Text LeaseRecord)
    → count key (retain (λ _ l. not (l.key == gone)) m) ≡ (if gone == key then 0 else count key m)
unfolding count retain
count-retain key gone [] = ground arith
count-retain key gone ((i, w) ∷ m) = ground (
  arith,
  key_beq_iff w.key gone,
  key_beq_iff w.key key,
  key_beq_iff gone key,
  count-retain key gone m,
)
