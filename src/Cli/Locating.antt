-- ===== src/Cli/Locating.antt =====
-- What a result gets: the location formats and the lines of a file, described by themselves.
use lspee.Base.{
  ◌≡◌, ◌<◌, ◌%◌, ◌^◌, refl, sym, subst, ap, ◌∙◌, false, Option, none, some, List, [], ◌∷◌, ◌++◌,
  arith, ℕ, zero, suc, length, Option-cases, inl, inr,
}
use lspee.Base.Eq.{◌==◌, text_eq, list_beq}
use lspee.Base.Text.{Text, codes}
use lspee.Json.{
  Json, number, string, array, object, Items, nil, cons, get, set, Fields, get_field-set_field,
}
use lspee.Cli.Requests.{Files, Url, uri_to_path}
use lspee.Cli.Responses.{
  nth, read_context_line, start_line, location_of, context_of, add_context, enrich_single_location,
  enrich_items, enrich_locations,
}
use lspee.Cli.Enriching.{get-enrich_single_location, by_uri, by_target}

-- The value under one key after another.
unfoldable pub at : List Text → Json → Option Json
unfolding get
at [] j = some j
at (k ∷ ks) j = elim (get k j) [ none ↦ none | some x ↦ at ks x ]

-- A Location has `uri` and `range`; a LocationLink has `targetUri` and `targetRange`, and no `uri`.
pub data IsLocated (x : Json) : Text → ℕ → Type 0 where
  location :
      (uri : Text) (line : ℕ)
      → at (codes "uri" ∷ []) x ≡ some (string uri)
      → at (codes "range" ∷ codes "start" ∷ codes "line" ∷ []) x ≡ some (number line)
      → IsLocated x uri line
  location_link :
      (uri : Text) (line : ℕ)
      → at (codes "uri" ∷ []) x ≡ none
      → at (codes "targetUri" ∷ []) x ≡ some (string uri)
      → at (codes "targetRange" ∷ codes "start" ∷ codes "line" ∷ []) x ≡ some (number line)
      → IsLocated x uri line

-- Where a location stands in a result: it is the result, or an item of it.
pub data Place : Type 0 where
  whole : Place
  item : ℕ → Place

unfoldable pub nth_item : ℕ → Items → Option Json
nth_item n nil = none
nth_item zero (cons j js) = some j
nth_item (suc n) (cons j js) = nth_item n js

unfoldable pub placed : Place → Json → Option Json
unfolding nth_item
placed whole (object fs) = some (object fs)
placed (item n) (array js) = nth_item n js
placed _ _ = none

step_in :
    (k : Text) (ks : List Text) (x v : Json)
    → at (k ∷ ks) x ≡ some v
    → (y : Json) × (get k x ≡ some y) × (at ks y ≡ some v)
unfolding at
step_in k ks x v e = elim (Option-cases (get k x)) [
  | inl f ↦ absurd (let gone = rw (f, at) at e in cc)
  | inr (y, f) ↦ (y, f, rw (f, at) at e)
]

location_of-at :
    (uri range u : Text) (n : ℕ) (x : Json)
    → at (uri ∷ []) x ≡ some (string u)
    → at (range ∷ codes "start" ∷ codes "line" ∷ []) x ≡ some (number n)
    → location_of uri range x ≡ some (u, n)
unfolding location_of start_line at
location_of-at uri range u n x e f =
    let (s, has_uri, is_text) = step_in uri [] x (string u) e in
    let (r, has_range, in_range) =
      step_in range (codes "start" ∷ codes "line" ∷ []) x (number n) f in
    let (start, has_start, in_start) =
      step_in (codes "start") (codes "line" ∷ []) r (number n) in_range in
    let (l, has_line, is_number) = step_in (codes "line") [] start (number n) in_start in
    let text : s ≡ string u = cc in
    let line : l ≡ number n = cc in
    rw (has_uri, location_of)
      (rw text (rw (has_range, start_line) (rw has_start (rw has_line (rw line refl)))))

location_of-none :
    (uri range : Text) (x : Json) → at (uri ∷ []) x ≡ none → location_of uri range x ≡ none
unfolding location_of at
location_of-none uri range x e = elim (Option-cases (get uri x)) [
  | inl f ↦ rw (f, location_of) refl
  | inr (y, f) ↦ absurd (let gone = rw (f, at) at e in cc)
]

-- What the enrichment makes of a located value.
enriched :
    (files : Files) (x : Json) (uri : Text) (line : ℕ)
    → IsLocated x uri line
    → enrich_single_location files x ≡ add_context (context_of files (uri, line)) x
enriched files x _ _ (location uri line e f) =
    by_uri files x (uri, line) (location_of-at _ _ uri line x e f)
enriched files x _ _ (location_link uri line lacks e f) =
    by_target files x (uri, line) (location_of-none _ _ x lacks) (location_of-at _ _ uri line x e f)

nth-append {ℓ} :
    {A : Type ℓ} (before after : List A) (x : A)
    → nth (length before) (before ++ (x ∷ after)) ≡ some x
unfolding nth
nth-append [] after x = refl
nth-append (y ∷ before) after x = nth-append before after x

context_of-line :
    (files : Files) (uri path text : Text) (before after : List (Option Text))
    → uri_to_path files uri ≡ some path
    → files.open_lines path ≡ some (before ++ (some text ∷ after))
    → length before < 2 ^ 32
    → context_of files (uri, length before) ≡ some text
unfolding context_of read_context_line
context_of-line files uri path text before after is_path opens small =
    let low : length before % 2 ^ 32 ≡ length before = omega arith in
    let read : read_context_line files path (length before) ≡ some text =
      rw (opens, read_context_line) (rw (nth-append before after (some text)) refl) in
    rw (is_path, context_of) (ap (read_context_line files path) low ∙ read)

got-context :
    (x y : Json) (k text : Text)
    → get k x ≡ some y
    → get (codes "context_line") (add_context (some text) x) ≡ some (string text)
unfolding add_context get set list_beq
got-context (object fs) y k text e =
    get_field-set_field (codes "context_line") (codes "context_line") (string text) fs
got-context _ y k text e = absurd (cc)

has_field :
    (x : Json) (uri : Text) (line : ℕ)
    → IsLocated x uri line
    → (k : Text) × (y : Json) × (get k x ≡ some y)
has_field x _ _ (location uri line e f) =
    let (y, has, is) = step_in _ [] x _ e in (codes "uri", y, has)
has_field x _ _ (location_link uri line lacks e f) =
    let (y, has, is) = step_in _ [] x _ e in (codes "targetUri", y, has)

nth_item-enrich_items :
    (files : Files) (n : ℕ) (js : Items) (x : Json)
    → nth_item n js ≡ some x
    → nth_item n (enrich_items files js) ≡ some (enrich_single_location files x)
unfolding nth_item enrich_items
nth_item-enrich_items files n nil x e = absurd (cc)
nth_item-enrich_items files zero (cons j js) x e =
    ap
      (λ z. elim z as (λ z. Option Json) [
        | none ↦ none
        | some y ↦ some (enrich_single_location files y)
      ])
      e
nth_item-enrich_items files (suc n) (cons j js) x e = nth_item-enrich_items files n js x e

opened_path :
    (files : Files) (uri path : Text) (url : Url)
    → files.parse_url uri ≡ some url
    → url.scheme ≡ codes "file"
    → url.to_file_path ≡ some path
    → uri_to_path files uri ≡ some path
unfolding uri_to_path list_beq
opened_path files uri path url parsed scheme is_path = rw (parsed, uri_to_path) (rw scheme is_path)

some_injective {ℓ} : {A : Type ℓ} {a b : A} → some a ≡ some b → a ≡ b
some_injective e = cc

placed-set :
    (fs : Fields) (e : Text) → let z = add_context (some e) (object fs) in placed whole z ≡ some z
unfolding placed add_context set
placed-set fs e = refl

placed-items :
    (files : Files) (n : ℕ) (js : Items) (x : Json)
    → nth_item n js ≡ some x
    → placed (item n) (enrich_locations files (array js)) ≡ some (enrich_single_location files x)
unfolding placed enrich_locations
placed-items files n js x here = nth_item-enrich_items files n js x here

placed-object :
    (fs : Fields) (e : Text) (z : Json)
    → z ≡ add_context (some e) (object fs)
    → placed whole z ≡ some z
placed-object fs e z is = subst (λ z. placed whole z ≡ some z) (sym is) (placed-set fs e)

enrich_locations-object :
    (files : Files) (fs : Fields)
    → enrich_locations files (object fs) ≡ enrich_single_location files (object fs)
unfolding enrich_locations
enrich_locations-object files fs = refl

placed-enrich :
    (files : Files) (p : Place) (j x : Json) (e : Text)
    → placed p j ≡ some x
    → enrich_single_location files x ≡ add_context (some e) x
    → placed p (enrich_locations files j) ≡ some (enrich_single_location files x)
unfolding placed
placed-enrich files whole (object fs) x e here is =
    let same : object fs ≡ x = some_injective here in
    subst
      (λ x.
        enrich_single_location files x ≡ add_context (some e) x
        → placed whole (enrich_locations files (object fs)) ≡ some (enrich_single_location files x))
      same (λ i. ap (placed whole) (enrich_locations-object files fs) ∙ placed-object fs e _ i) is
placed-enrich files (item n) (array js) x e here is = placed-items files n js x here
placed-enrich files _ _ x e here is = absurd (cc)

-- A Location, or a LocationLink that has no uri, that is the result or stands at some place in a
-- result's array, and whose address is a file's with a line at the start of its range, of a number
-- below 2^32, has in the enriched result, at the same place, that line as context_line, and its
-- other fields as before.
pub enrich_locations-context :
    (files : Files) (p : Place) (j x : Json) (uri path text : Text) (url : Url)
    (before after : List (Option Text))
    → placed p j ≡ some x
    → IsLocated x uri (length before)
    → files.parse_url uri ≡ some url
    → url.scheme ≡ codes "file"
    → url.to_file_path ≡ some path
    → files.open_lines path ≡ some (before ++ (some text ∷ after))
    → length before < 2 ^ 32
    → (y : Json) × (placed p (enrich_locations files j) ≡ some y)
      × (get (codes "context_line") y ≡ some (string text))
      × ((k : Text) → (codes "context_line" == k) ≡ false → get k y ≡ get k x)
enrich_locations-context files p j x uri path text url before after here l parsed scheme is_path
      opens small =
    let c : context_of files (uri, length before) ≡ some text =
      context_of-line files uri path text before after
        (opened_path files uri path url parsed scheme is_path) opens small in
    let is : enrich_single_location files x ≡ add_context (some text) x =
      enriched files x uri (length before) l ∙ ap (λ c. add_context c x) c in
    let (k, v, has) = has_field x uri (length before) l in
    (
      enrich_single_location files x,
      placed-enrich files p j x text here is,
      ap (get (codes "context_line")) is ∙ got-context x v k text has,
      (λ k ne. get-enrich_single_location files k x ne),
    )
