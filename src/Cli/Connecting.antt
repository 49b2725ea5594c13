-- ===== src/Cli/Connecting.antt =====
-- When the client of client.rs gets a connection.
use lspee.Base.{
  ℕ, zero, suc, ◌+◌, ◌≤◌, ◌<◌, ◌≡◌, ◌↔◌, refl, sym, true, is_some, is_ok, arith, Result, ok, err,
  Result-cases, Option-cases, Bool-cases, nat_beq, ◌∙◌, inl, inr,
}
use lspee.Base.Text.{Text}
use lspee.Cli.Client.{IoError, starts_daemon, daemon_connect_attempts, retry, connect}

module _ {S : Type 0} (attempt : ℕ → Result S IoError) where
  -- An attempt from `i` on, and before `m`, succeeds.
  abbrev pub Succeeds : ℕ → ℕ → Type 0
  Succeeds i m = (j : ℕ) × (i ≤ j) × (j < m) × (is_ok (attempt j) ≡ true)

  retry-Succeeds : (n i : ℕ) → is_some (retry attempt n i) ≡ true → Succeeds i (i + n)
  unfolding retry
  retry-Succeeds zero i e = absurd (cc)
  retry-Succeeds (suc n) i e = elim (Result-cases (attempt i)) [
    | inl (s, f) ↦ (i, omega arith, omega arith, rw f refl)
    | inr (m, f) ↦
        let (j, above, below, done) = retry-Succeeds n (suc i) (rw (f, retry) at e) in
        (j, omega arith, omega arith, done)
  ]

  Succeeds-retry : (n i : ℕ) → Succeeds i (i + n) → is_some (retry attempt n i) ≡ true
  unfolding retry
  Succeeds-retry zero i (j, above, below, done) = absurd (omega arith)
  Succeeds-retry (suc n) i (j, above, below, done) = elim (Result-cases (attempt i)) [
    | inl (s, f) ↦ rw (f, retry) refl
    | inr (m, f) ↦ elim (Bool-cases (nat_beq i j)) [
      | inl e ↦ absurd (let same : i ≡ j = ground arith in let bad = rw (sym same, f) at done in cc)
      | inr e ↦ rw (f, retry) (Succeeds-retry n (suc i) (j, ground arith, omega arith, done))
    ]
  ]

  later :
      (m : IoError)
      → attempt 0 ≡ err m
      → (j : ℕ) → j < 41
      → is_ok (attempt j) ≡ true
      → Succeeds 1 41
  later m f zero below done = absurd (let bad = rw f at done in cc)
  later m f (suc j) below done = (suc j, omega arith, below, done)

  -- After a first attempt that fails so, the other attempts decide.
  connect-retry :
      (socket_path : Text) (m : IoError)
      → attempt 0 ≡ err m
      → starts_daemon m.kind ≡ true
      → is_ok (connect attempt (ok tt) socket_path true)
        ≡ is_some (retry attempt daemon_connect_attempts 1)
  unfolding connect
  connect-retry socket_path m f k = elim (Option-cases (retry attempt daemon_connect_attempts 1)) [
    | inl g ↦ rw (f, connect) (rw k (rw g refl))
    | inr (s, g) ↦ rw (f, connect) (rw k (rw g refl))
  ]

  -- With auto-start, a daemon that is started if need be, and a first attempt that fails only in
  -- the ways in which a daemon is started, connect answers a connection exactly if one of the
  -- attempts 0 to 40 succeeds.
  pub connect-Succeeds :
      (socket_path : Text)
      → ((e : IoError) → attempt 0 ≡ err e → starts_daemon e.kind ≡ true)
      → (is_ok (connect attempt (ok tt) socket_path true) ≡ true) ↔ Succeeds 0 41
  unfolding connect
  connect-Succeeds socket_path k = elim (Result-cases (attempt 0)) [
    | inl (s, f) ↦ ((λ e. (0, omega arith, omega arith, rw f refl)), (λ x. rw (f, connect) refl))
    | inr (m, f) ↦
        let same = connect-retry socket_path m f (k m f) in
        (
          (λ e.
              let (j, above, below, done) = retry-Succeeds 40 1 (sym same ∙ e) in
              (j, omega arith, omega arith, done)),
          (λ (j, above, below, done). same ∙ Succeeds-retry 40 1 (later m f j below done)),
        )
  ]
