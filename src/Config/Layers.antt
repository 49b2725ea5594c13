-- ===== src/Config/Layers.antt =====
-- What the layers of the configuration give, and what the identity tells apart.
use lspee.Base.{
  ℕ, ◌≡◌, ◌≢◌, ◌⊎◌, refl, ap, sym, ◌∙◌, subst, Bool, true, false, Option, none, some, List, [], ◌∷◌,
  ◌++◌, arith, if◌then◌else◌, ok_injective, err_ok, unwrap_or, All, ok, Result-cases, Option-cases,
  Bool-cases, inl, inr,
}
use lspee.Base.Eq.{◌==◌, text_eq, beq_eq, beq_refl}
use lspee.Base.Text.{Text}
use lspee.Base.Map.{Map, get, get-insert}
use lspee.Config.Defs.{
  LspConfig, EffectiveConfig, PartialLspConfig, ResolvedConfig, Host, or_keep, entry_id, new_lsp,
  merge_lsp, apply_lsp, apply_lsps, apply_partial, default_config, load_partial_if_exists,
  user_config_path, canonical_project_root, project_config_path, apply_file, hash_identity, resolve,
}

some_injective {ℓ} : {A : Type ℓ} {a b : A} → some a ≡ some b → a ≡ b
some_injective e = cc

-- An entry in front of others: `here` says whether it names the server, `later` whether they do.
two_layers :
    (here later : Bool) (last command old : Option Text)
    → (later ≡ false → last ≡ none)
    → let first = if here then some (unwrap_or command (unwrap_or old [])) else old in
      (if later then some (unwrap_or last (unwrap_or first [])) else first) ≡ (
        if (if here then true else later)
        then some (unwrap_or (if here then or_keep last command else last) (unwrap_or old []))
        else old)
two_layers true true none command old h = refl
two_layers true true (some c) command old h = refl
two_layers true false last command old h = rw (h refl) refl
two_layers false later last command old h = refl

module _ {V : Type 0} where
  -- A layer has an entry for the server.
  unfoldable pub named : Text → List (PartialLspConfig V) → Bool
  named id [] = false
  named id (p ∷ ps) = if entry_id p == id then true else named id ps

  -- The command of the last entry for the server that has one.
  unfoldable pub last_command : Text → List (PartialLspConfig V) → Option Text
  last_command id [] = none
  last_command id (p ∷ ps) =
      let rest = last_command id ps in if entry_id p == id then or_keep rest p.command else rest

  abbrev pub command_of : Option (LspConfig V) → Option Text
  command_of none = none
  command_of (some x) = some x.command

  command-apply_lsp :
      (id : Text) (p : PartialLspConfig V) (m : Map Text (LspConfig V))
      → command_of (get id (apply_lsp p m)) ≡ (
          if entry_id p == id
          then some (unwrap_or p.command (unwrap_or (command_of (get id m)) []))
          else command_of (get id m))
  unfolding apply_lsp
  command-apply_lsp id p m = ground (
    arith,
    text_eq.beq_iff (entry_id p) id,
    get-insert (entry_id p) id (merge_lsp p (unwrap_or (get (entry_id p) m) (new_lsp (entry_id p))))
        m,
  )

  unnamed :
      (id : Text) (ps : List (PartialLspConfig V)) → named id ps ≡ false → last_command id ps ≡ none
  unfolding named last_command
  unnamed id [] h = refl
  unnamed id (p ∷ ps) h = ground (arith, unnamed id ps)

  -- After a layer, a server that it names has the command of the layer's last entry with one, or
  -- else the command that it had, or else an empty one; each other server keeps its own.
  pub command-apply_lsps :
      (id : Text) (ps : List (PartialLspConfig V)) (m : Map Text (LspConfig V))
      → command_of (get id (apply_lsps ps m)) ≡ (
          if named id ps
          then some (unwrap_or (last_command id ps) (unwrap_or (command_of (get id m)) []))
          else command_of (get id m))
  unfolding apply_lsps named last_command
  command-apply_lsps id [] m = refl
  command-apply_lsps id (p ∷ ps) m =
      command-apply_lsps id ps (apply_lsp p m)
      ∙ rw (command-apply_lsp id p m) (
          two_layers (entry_id p == id) (named id ps) (last_command id ps) p.command
            (command_of (get id m)) (unnamed id ps))

  -- Each server stands under its own id.
  abbrev pub Keyed : Map Text (LspConfig V) → Type 0
  Keyed m = (k : Text) (x : LspConfig V) → get k m ≡ some x → x.id ≡ k

  entry_or_new-Keyed :
      (id : Text) (m : Map Text (LspConfig V))
      → Keyed m
      → (unwrap_or (get id m) (new_lsp id)).id ≡ id
  entry_or_new-Keyed id m h = elim (Option-cases (get id m)) [
    | inl e ↦ rw e refl
    | inr (x, e) ↦ rw e (h id x e)
  ]

  apply_lsp-Keyed :
      (p : PartialLspConfig V) (m : Map Text (LspConfig V)) → Keyed m → Keyed (apply_lsp p m)
  unfolding apply_lsp
  apply_lsp-Keyed p m h k x e = elim (Bool-cases (entry_id p == k)) [
    | inl f ↦
        let new : LspConfig V =
          merge_lsp p (unwrap_or (get (entry_id p) m) (new_lsp (entry_id p))) in
        let found : some new ≡ some x = sym (get-insert (entry_id p) k new m ∙ rw f refl) ∙ e in
        sym (ap LspConfig.id (some_injective found))
        ∙ entry_or_new-Keyed (entry_id p) m h
        ∙ beq_eq (entry_id p) k f
    | inr f ↦ h k x (
        sym (
          get-insert (entry_id p) k
            (merge_lsp p (unwrap_or (get (entry_id p) m) (new_lsp (entry_id p)))) m
          ∙ rw f refl)
        ∙ e)
  ]

  apply_lsps-Keyed :
      (ps : List (PartialLspConfig V)) (m : Map Text (LspConfig V))
      → Keyed m
      → Keyed (apply_lsps ps m)
  unfolding apply_lsps
  apply_lsps-Keyed [] m h = h
  apply_lsps-Keyed (p ∷ ps) m h = apply_lsps-Keyed ps (apply_lsp p m) (apply_lsp-Keyed p m h)

-- A text that has no 0 ends at the first 0.
split_at_zero :
    (a b c d : List ℕ)
    → All (λ x. x ≢ 0) a
    → All (λ x. x ≢ 0) b
    → a ++ (0 ∷ c) ≡ b ++ (0 ∷ d)
    → (a ≡ b) × (c ≡ d)
split_at_zero [] [] c d ha hb e = (refl, cc)
split_at_zero [] (y ∷ b) c d ha hb e = absurd (hb.0 (cc))
split_at_zero (x ∷ a) [] c d ha hb e = absurd (ha.0 (cc))
split_at_zero (x ∷ a) (y ∷ b) c d ha hb e =
    let same : a ++ (0 ∷ c) ≡ b ++ (0 ∷ d) = cc in
    let rest = split_at_zero a b c d ha.1 hb.1 same in (let e' = rest.0 in cc, rest.1)

module _ {V : Type 0} (host : Host V) where
  -- What is documented of UTF-8: it tells texts apart, and encodes no other character as a 0.
  pub record IsUtf8 : Type 0 where
    pub utf8_injective : (a b : Text) → host.utf8 a ≡ host.utf8 b → a ≡ b
    pub utf8_zero : (a : Text) → All (λ x. x ≢ 0) a → All (λ x. x ≢ 0) (host.utf8 a)

  abbrev pub Collision : Type 0
  Collision = (x : List ℕ) × (y : List ℕ) × (x ≢ y) × (host.sha256 x ≡ host.sha256 y)

  -- If two roots and configurations have one identity, then the lossy texts of the roots are equal
  -- and the configurations have one text in TOML, or two different inputs of SHA-256 with one hash
  -- are at hand, for lossy texts without a character 0, if UTF-8 tells texts apart and encodes no
  -- other character as a 0.
  pub hash_identity-separates :
      (a b : Text) (c d : EffectiveConfig V)
      → IsUtf8
      → All (λ x. x ≢ 0) (host.to_string_lossy a)
      → All (λ x. x ≢ 0) (host.to_string_lossy b)
      → hash_identity host a c ≡ hash_identity host b d
      → ((host.to_string_lossy a ≡ host.to_string_lossy b) × (host.to_toml c ≡ host.to_toml d))
        ⊎ Collision
  unfolding hash_identity
  hash_identity-separates a b c d h ha hb e =
      let x = host.utf8 (host.to_string_lossy a) ++ (0 ∷ host.utf8 (host.to_toml c)) in
      let y = host.utf8 (host.to_string_lossy b) ++ (0 ∷ host.utf8 (host.to_toml d)) in
      elim (Bool-cases (x == y)) [
        | inr differ ↦ inr (x, y, (λ same. ground (arith, beq_refl y)), e)
        | inl same ↦
            let (roots, texts) =
              split_at_zero (host.utf8 (host.to_string_lossy a))
                (host.utf8 (host.to_string_lossy b)) (host.utf8 (host.to_toml c))
                (host.utf8 (host.to_toml d)) (h.utf8_zero _ ha) (h.utf8_zero _ hb)
                (beq_eq x y same) in
            inl (h.utf8_injective _ _ roots, h.utf8_injective _ _ texts)
      ]

  apply_file-Keyed :
      (path : Text) (c d : EffectiveConfig V)
      → Keyed c.lsps
      → apply_file host path c ≡ ok d
      → Keyed d.lsps
  unfolding apply_file
  apply_file-Keyed path c d h e = elim (Result-cases (load_partial_if_exists host path)) [
    | inl (none, f) ↦
        let same : c ≡ d = ok_injective (sym (rw (f, apply_file) refl) ∙ e) in
        subst (λ x. Keyed x.lsps) same h
    | inl (some p, f) ↦
        let same : apply_partial p c ≡ d = ok_injective (sym (rw (f, apply_file) refl) ∙ e) in
        subst (λ x. Keyed x.lsps) same (apply_lsps-Keyed p.lsp c.lsps h)
    | inr (m, f) ↦ absurd (err_ok {m = m} (sym (rw (f, apply_file) refl) ∙ e))
  ]

  default-Keyed : Keyed {V = V} default_config.lsps
  unfolding default_config get
  default-Keyed k x e = absurd (cc)

  -- In a configuration that resolve answers each server stands under its own id, and the hash is
  -- the identity of the root and the configuration.
  pub resolve-Keyed :
      (override : Option Text) (r : ResolvedConfig V)
      → resolve host override ≡ ok r
      → Keyed r.merged.lsps × (r.config_hash ≡ hash_identity host r.project_root r.merged)
  unfolding resolve
  resolve-Keyed override r e = elim (Result-cases (canonical_project_root host override)) [
    | inr (m, f) ↦ absurd (err_ok {m = m} (sym (rw (f, resolve) refl) ∙ e))
    | inl (root, f) ↦ elim (Result-cases (apply_file host (user_config_path host) default_config)) [
      | inr (m, g) ↦ absurd (err_ok {m = m} (sym (rw (f, resolve) (rw g refl)) ∙ e))
      | inl (c, g) ↦ elim (Result-cases (apply_file host (project_config_path host root) c)) [
        | inr (m, i) ↦ absurd (err_ok {m = m} (sym (rw (f, resolve) (rw g (rw i refl))) ∙ e))
        | inl (d, i) ↦
            let answer : ResolvedConfig V = record {
              project_root = root;
              merged = d;
              config_hash = hash_identity host root d;
            } in
            let same = ok_injective {a = answer} (sym (rw (f, resolve) (rw g (rw i refl))) ∙ e) in
            subst
              (λ x.
                Keyed x.merged.lsps × (x.config_hash ≡ hash_identity host x.project_root x.merged))
              same
              (
                apply_file-Keyed (project_config_path host root) c d
                    (apply_file-Keyed (user_config_path host) default_config c default-Keyed g) i,
                refl,
              )
      ]
    ]
  ]
