-- ===== src/Json.antt =====
-- The tree of a JSON document, as `serde_json::Value` documents it. A number that is no `u64`
-- keeps its text; the text form of a document (`to_vec`, `from_slice`) is not defined here.
use lspee.Base.{ℕ, ◌≡◌, Bool, true, false, Option, none, some, arith, if◌then◌else◌, ◌↔◌}
use lspee.Base.Eq.{Eq, ◌==◌, text_eq}
use lspee.Base.Text.{Text}
use native.Mathlib.Decide.{ℕ_discrete}

mutual
  pub data Json : Type 0 where
    null : Json
    bool : Bool → Json
    number : ℕ → Json
    other_number : Text → Json
    string : Text → Json
    array : Items → Json
    object : Fields → Json

  pub data Items : Type 0 where
    nil : Items
    cons : Json → Items → Items

  pub data Fields : Type 0 where
    end : Fields
    field : Text → Json → Fields → Fields

pub Json-discrete : Discrete Json
Json-discrete = hlevel ℕ_discrete

abbrev pub json_beq : Json → Json → Bool
json_beq a b = elim (Json-discrete a b) [ yes _ ↦ true | no _ ↦ false ]

pub json_beq_iff : (a b : Json) → (json_beq a b ≡ true) ↔ (a ≡ b)
json_beq_iff a b = ground arith

instance abbrev pub json_eq : Eq Json
json_eq = record { beq = json_beq; beq_iff = json_beq_iff }

unfoldable pub get_field : Text → Fields → Option Json
get_field k end = none
get_field k (field j v fs) = if j == k then some v else get_field k fs

unfoldable pub set_field : Text → Json → Fields → Fields
set_field k v end = field k v end
set_field k v (field j w fs) =
    let rest = set_field k v fs in if j == k then field j v fs else field j w rest

-- `value.get(key)`
unfoldable pub get : Text → Json → Option Json
unfolding get_field
get k (object fs) = get_field k fs
get k _ = none

-- `value[key] = v` on an object.
unfoldable pub set : Text → Json → Json → Json
unfolding set_field
set k v (object fs) = object (set_field k v fs)
set k v j = j

-- `Value::as_str`, `Value::as_u64`
abbrev pub as_str : Json → Option Text
as_str (string s) = some s
as_str _ = none

abbrev pub as_u64 : Json → Option ℕ
as_u64 (number n) = some n
as_u64 _ = none

pub get_field-set_field :
    (k j : Text) (v : Json) (fs : Fields)
    → get_field j (set_field k v fs) ≡ (if k == j then some v else get_field j fs)
unfolding get_field set_field
get_field-set_field k j v end = ground arith
get_field-set_field k j v (field i w fs) = ground (
  arith,
  get_field-set_field k j v fs,
  text_eq.beq_iff k j,
  text_eq.beq_iff i k,
  text_eq.beq_iff i j,
)
