-- ===== src/Config/Catalog.antt =====
-- What the catalog of language servers answers, with the overrides of the configuration.
use lspee.Base.{
  ◌≡◌, refl, sym, ap, ◌∙◌, subst, Bool, true, false, ◌||◌, Option, none, some, List, [], ◌∷◌, arith,
  All, All-map, ok, ok_injective, err_ok, Result-cases, Option-cases, Bool-cases, inl, inr,
}
use lspee.Base.Eq.{◌==◌, text_eq, contains, beq_refl}
use lspee.Base.Text.{Text, codes, strip_prefix}
use lspee.Base.Map.{get, insert-Unique, Unique}
use lspee.Config.Defs.{PartialLspConfig, Host, entry_id, load_partial_if_exists}
use lspee.Config.Languages.{
  LspSelection, LspDefinition, LanguageRegistryFile, set_insert, set_of, insert_extensions,
  override_all, ascii_lower, Shell, selection_from_definition, serves, matches_of, apply_overrides,
  load_registry, lsp_for_id, lsps_for_file,
}

contains-set_insert :
    (x y : Text) (set : List Text) → contains (set_insert x set) y ≡ (x == y || contains set y)
unfolding set_insert contains
contains-set_insert x y [] = refl
contains-set_insert x y (z ∷ set) = ground (
  arith,
  contains-set_insert x y set,
  text_eq.beq_iff x z,
  text_eq.beq_iff z y,
  text_eq.beq_iff x y,
)

contains-set_of : (xs : List Text) (y : Text) → contains (set_of xs) y ≡ contains xs y
unfolding set_of contains
contains-set_of [] y = refl
contains-set_of (x ∷ xs) y = contains-set_insert x y (set_of xs) ∙ rw (contains-set_of xs y) refl

-- The keys of the options name this extension.
unfoldable pub names_extension : List Text → Text → Bool
names_extension [] ext = false
names_extension (key ∷ keys) ext =
    let rest = names_extension keys ext in
    elim (strip_prefix (codes "language_extension_") key) [
      | none ↦ rest
      | some named ↦ named == ext || rest
    ]

contains-insert_extensions :
    (keys set : List Text) (ext : Text)
    → contains (insert_extensions keys set) ext ≡ (names_extension keys ext || contains set ext)
unfolding insert_extensions names_extension
contains-insert_extensions [] set ext = refl
contains-insert_extensions (key ∷ keys) set ext =
    elim (Option-cases (strip_prefix (codes "language_extension_") key)) [
      | inl e ↦ rw (e, insert_extensions, names_extension) (contains-insert_extensions keys set ext)
      | inr (named, e) ↦
          rw (e, insert_extensions, names_extension)
            (ground (
              arith,
              contains-insert_extensions keys (set_insert named set) ext,
              contains-set_insert named ext set,
            ))
    ]

-- After an override with options a server has the extensions that it had and those that the keys
-- language_extension_… name, and no other.
pub contains-overridden :
    (keys exts : List Text) (ext : Text)
    → contains (insert_extensions keys (set_of exts)) ext
      ≡ (names_extension keys ext || contains exts ext)
contains-overridden keys exts ext =
    contains-insert_extensions keys (set_of exts) ext ∙ rw (contains-set_of exts ext) refl

module _ {V : Type 0} where
  override_all-Unique :
      (ps : List (PartialLspConfig V)) (registry : LanguageRegistryFile)
      → Unique registry
      → Unique (override_all ps registry)
  unfolding override_all
  override_all-Unique [] registry u = u
  override_all-Unique (p ∷ ps) registry u =
      override_all-Unique ps _ (insert-Unique (entry_id p) _ registry u)

  module _ (host : Host V) where
    apply_overrides-Unique :
        (registry after : LanguageRegistryFile) (path : Option Text)
        → Unique registry
        → apply_overrides host registry path ≡ ok after
        → Unique after
    unfolding apply_overrides
    apply_overrides-Unique registry after none u e = subst Unique (ok_injective e) u
    apply_overrides-Unique registry after (some path) u e =
        elim (Result-cases (load_partial_if_exists host path)) [
          | inr (m, f) ↦ absurd (err_ok {m = m} (sym (rw (f, apply_overrides) refl) ∙ e))
          | inl (none, f) ↦
              subst Unique (ok_injective {a = registry} (sym (rw (f, apply_overrides) refl) ∙ e)) u
          | inl (some p, f) ↦
              subst Unique
                (ok_injective {a = override_all p.lsp registry}
                  (sym (rw (f, apply_overrides) refl) ∙ e))
                (override_all-Unique p.lsp registry u)
        ]

    load_registry-Unique :
        (start after : LanguageRegistryFile) (user project : Option Text)
        → Unique start
        → load_registry host start user project ≡ ok after
        → Unique after
    unfolding load_registry
    load_registry-Unique start after user project u e =
        elim (Result-cases (apply_overrides host start user)) [
          | inr (m, f) ↦ absurd (err_ok {m = m} (sym (rw (f, load_registry) refl) ∙ e))
          | inl (r, f) ↦
              apply_overrides-Unique r after project (apply_overrides-Unique start r user u f)
                (sym (rw (f, load_registry) refl) ∙ e)
        ]

-- The registry has this selection under its id, and it serves the extension.
abbrev Selected : Shell → Text → LanguageRegistryFile → LspSelection → Type 0
Selected shell ext registry s =
    (d : LspDefinition) × (get s.id registry ≡ some d)
    × (selection_from_definition shell s.id d ≡ s)
    × (serves ext d ≡ true)

Selected-cons :
    (shell : Shell) (ext id : Text) (d : LspDefinition) (registry : LanguageRegistryFile)
    → get id registry ≡ none
    → (s : LspSelection) → Selected shell ext registry s
    → Selected shell ext ((id, d) ∷ registry) s
unfolding get
Selected-cons shell ext id d registry new s (x, e, same, serves) =
    (x, ground (arith, text_eq.beq_iff id s.id), same, serves)

matches_of-Selected :
    (shell : Shell) (ext : Text) (registry : LanguageRegistryFile)
    → Unique registry
    → All (Selected shell ext registry) (matches_of shell ext registry)
unfolding matches_of selection_from_definition get
matches_of-Selected shell ext [] u = tt
matches_of-Selected shell ext ((id, d) ∷ registry) u =
    let rest =
      All-map (Selected shell ext registry) (Selected shell ext ((id, d) ∷ registry))
        (Selected-cons shell ext id d registry u.0) (matches_of shell ext registry)
        (matches_of-Selected shell ext registry u.1) in
    elim (Bool-cases (serves ext d)) [
      | inl e ↦ rw (e, matches_of) ((d, rw (beq_refl id) refl, refl, e), rest)
      | inr e ↦ rw (e, matches_of) rest
    ]

module _ {V : Type 0} (host : Host V) (shell : Shell)
    (default_languages : LanguageRegistryFile) where
  -- Each server that lsps_for_file answers is the one that lsp_for_id answers for its id with the
  -- same configuration files, if the default registry has no id twice.
  pub lsps_for_file-lsp_for_id :
      (path : Text) (user project : Option Text) (answer : List LspSelection)
      → Unique default_languages
      → lsps_for_file host shell default_languages path user project ≡ ok answer
      → All (λ s. lsp_for_id host shell default_languages s.id user project ≡ ok (some s)) answer
  unfolding lsps_for_file lsp_for_id
  lsps_for_file-lsp_for_id path user project answer u e =
      elim (Option-cases (shell.extension path)) [
        | inl f ↦
            let same : [] ≡ answer = ok_injective (sym (rw (f, lsps_for_file) refl) ∙ e) in
            subst (All _) same tt
        | inr (ext, f) ↦ elim (Result-cases (load_registry host default_languages user project)) [
          | inr (m, g) ↦ absurd (err_ok {m = m} (sym (rw (f, lsps_for_file) (rw g refl)) ∙ e))
          | inl (r, g) ↦
              let same : matches_of shell (ascii_lower ext) r ≡ answer =
                ok_injective (sym (rw (f, lsps_for_file) (rw g refl)) ∙ e) in
              subst (All _) same (
                All-map (Selected shell (ascii_lower ext) r) _
                  (λ s (d, found, is, ok_ext).
                    rw (g, lsp_for_id) (rw found (ap (λ x. ok (some x)) is)))
                  (matches_of shell (ascii_lower ext) r)
                  (matches_of-Selected shell (ascii_lower ext) r
                    (load_registry-Unique host default_languages r user project u g)))
        ]
      ]
