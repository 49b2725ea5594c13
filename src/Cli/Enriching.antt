-- ===== src/Cli/Enriching.antt =====
-- What the lines of source change in a result, and what they leave.
use lspee.Base.{
  ◌≡◌, refl, sym, ap, ◌∙◌, false, Option, none, some, arith, ℕ, Option-cases, inl, inr,
}
use lspee.Base.Eq.{◌==◌, text_eq, list_beq, beq_refl}
use lspee.Base.Text.{Text, codes}
use lspee.Json.{
  Json, null, bool, number, other_number, string, array, object, Items, nil, cons, get, set,
  set_field, Fields, end, field, get_field-set_field,
}
use lspee.Cli.Requests.{Files}
use lspee.Cli.Responses.{
  start_line, location_of, context_of, add_context, enrich_single_location, enrich_items,
  enrich_locations,
}

get-set : (k j : Text) (v : Json) (x : Json) → (k == j) ≡ false → get j (set k v x) ≡ get j x
unfolding get set
get-set k j v (object fs) e = get_field-set_field k j v fs ∙ rw e refl
get-set k j v null e = refl
get-set k j v (bool b) e = refl
get-set k j v (number n) e = refl
get-set k j v (other_number n) e = refl
get-set k j v (string s) e = refl
get-set k j v (array a) e = refl

-- The enrichment changes no field but context_line.
pub get-add_context :
    (j : Text) (c : Option Text) (x : Json)
    → (codes "context_line" == j) ≡ false
    → get j (add_context c x) ≡ get j x
unfolding add_context
get-add_context j none x e = refl
get-add_context j (some c) x e = get-set (codes "context_line") j (string c) x e

pub get-enrich_single_location :
    (files : Files) (j : Text) (x : Json)
    → (codes "context_line" == j) ≡ false
    → get j (enrich_single_location files x) ≡ get j x
unfolding enrich_single_location
get-enrich_single_location files j x e =
    elim (Option-cases (location_of (codes "uri") (codes "range") x)) [
      | inr (l, f) ↦ rw (f, enrich_single_location) (get-add_context j (context_of files l) x e)
      | inl f ↦ elim (Option-cases (location_of (codes "targetUri") (codes "targetRange") x)) [
        | inr (l, g) ↦
            rw (f, enrich_single_location) (rw g (get-add_context j (context_of files l) x e))
        | inl g ↦ rw (f, enrich_single_location) (rw g refl)
      ]
    ]

set_field-idempotent :
    (k : Text) (v : Json) (fs : Fields) → set_field k v (set_field k v fs) ≡ set_field k v fs
unfolding set_field
set_field-idempotent k v end = ground (arith, beq_refl k)
set_field-idempotent k v (field j w fs) =
    ground (arith, beq_refl k, beq_refl j, set_field-idempotent k v fs)

set-idempotent : (k : Text) (v : Json) (x : Json) → set k v (set k v x) ≡ set k v x
unfolding set
set-idempotent k v (object fs) = ap object (set_field-idempotent k v fs)
set-idempotent k v null = refl
set-idempotent k v (bool b) = refl
set-idempotent k v (number n) = refl
set-idempotent k v (other_number n) = refl
set-idempotent k v (string s) = refl
set-idempotent k v (array a) = refl

add_context-idempotent :
    (c : Option Text) (x : Json) → add_context c (add_context c x) ≡ add_context c x
unfolding add_context
add_context-idempotent none x = refl
add_context-idempotent (some c) x = set-idempotent (codes "context_line") (string c) x

start_line-add_context :
    (range : Text) (c : Option Text) (x : Json)
    → (codes "context_line" == range) ≡ false
    → start_line range (add_context c x) ≡ start_line range x
unfolding start_line
start_line-add_context range c x f = rw (get-add_context range c x f, start_line) refl

-- A location is read from fields other than context_line.
location_of-add_context :
    (uri range : Text) (c : Option Text) (x : Json)
    → (codes "context_line" == uri) ≡ false
    → (codes "context_line" == range) ≡ false
    → location_of uri range (add_context c x) ≡ location_of uri range x
unfolding location_of
location_of-add_context uri range c x e f =
    ground (arith, get-add_context uri c x e, start_line-add_context range c x f)

pub by_uri :
    (files : Files) (x : Json) (l : Text × ℕ)
    → location_of (codes "uri") (codes "range") x ≡ some l
    → enrich_single_location files x ≡ add_context (context_of files l) x
unfolding enrich_single_location
by_uri files x l f = rw (f, enrich_single_location) refl

pub by_target :
    (files : Files) (x : Json) (l : Text × ℕ)
    → location_of (codes "uri") (codes "range") x ≡ none
    → location_of (codes "targetUri") (codes "targetRange") x ≡ some l
    → enrich_single_location files x ≡ add_context (context_of files l) x
unfolding enrich_single_location
by_target files x l f g = rw (f, enrich_single_location) (rw g refl)

again :
    (files : Files) (x : Json) (c : Option Text)
    → enrich_single_location files x ≡ add_context c x
    → enrich_single_location files (add_context c x) ≡ add_context c (add_context c x)
    → enrich_single_location files (enrich_single_location files x) ≡ enrich_single_location files x
again files x c e f = ap (enrich_single_location files) e ∙ f ∙ add_context-idempotent c x ∙ sym e

enrich_single_location-idempotent :
    (files : Files) (x : Json)
    → enrich_single_location files (enrich_single_location files x) ≡ enrich_single_location files x
unfolding enrich_single_location list_beq
enrich_single_location-idempotent files x =
    elim (Option-cases (location_of (codes "uri") (codes "range") x)) [
      | inr (l, f) ↦
          let c = context_of files l in
          again files x c (by_uri files x l f) (
            by_uri files (add_context c x) l
              (location_of-add_context (codes "uri") (codes "range") c x refl refl ∙ f))
      | inl f ↦ elim (Option-cases (location_of (codes "targetUri") (codes "targetRange") x)) [
        | inr (l, g) ↦
            let c = context_of files l in
            again files x c (by_target files x l f g) (
              by_target files (add_context c x) l
                (location_of-add_context (codes "uri") (codes "range") c x refl refl ∙ f)
                (location_of-add_context (codes "targetUri") (codes "targetRange") c x refl refl
                  ∙ g))
        | inl g ↦
            let same : enrich_single_location files x ≡ x =
              rw (f, enrich_single_location) (rw g refl) in
            ap (enrich_single_location files) same
      ]
    ]

enrich_items-idempotent :
    (files : Files) (js : Items)
    → enrich_items files (enrich_items files js) ≡ enrich_items files js
unfolding enrich_items
enrich_items-idempotent files nil = refl
enrich_items-idempotent files (cons j js) =
    rw (enrich_single_location-idempotent files j, enrich_items-idempotent files js) refl

-- An object stays one.
enrich_locations-single :
    (files : Files) (fs : Fields)
    → enrich_locations files (enrich_single_location files (object fs))
      ≡ enrich_single_location files (enrich_single_location files (object fs))
unfolding enrich_locations enrich_single_location add_context set
enrich_locations-single files fs = ground arith

-- To enrich a result twice is to enrich it once.
pub enrich_locations-idempotent :
    (files : Files) (j : Json)
    → enrich_locations files (enrich_locations files j) ≡ enrich_locations files j
unfolding enrich_locations
enrich_locations-idempotent files (array js) = ap array (enrich_items-idempotent files js)
enrich_locations-idempotent files (object fs) =
    enrich_locations-single files fs ∙ enrich_single_location-idempotent files (object fs)
enrich_locations-idempotent files null = refl
enrich_locations-idempotent files (bool b) = refl
enrich_locations-idempotent files (number n) = refl
enrich_locations-idempotent files (other_number n) = refl
enrich_locations-idempotent files (string s) = refl
