-- ===== src/Base/Decimal.antt =====
-- Rust's `u64::to_string` and `str::parse::<usize>` on 64-bit numbers.
use Prim.Native.Nat.{ℕ, zero, suc, ◌+◌, ◌-◌, ◌*◌, ◌/◌, ◌%◌, ◌^◌, ◌≤◌, ◌<◌}
use mathlib.Core.Path.{◌≡◌, ap, sym, ◌∙◌}
use mathlib.Core.List.{[], ◌∷◌}
use mathlib.Core.Bool.{Bool, ◌&&◌}
use mathlib.Core.Option.{Option, none, some}
use mathlib.Core.Logic.{inl, inr}
use native.Mathlib.Omega.{arith}
use lspee.Base.Tests.{if◌then◌else◌, leb, ltb, nat_beq, Bool-cases}
use lspee.Base.Lists.{All}
use lspee.Base.Text.{Text}

-- The digits of `n` in front of `out`; as much fuel as `n` is enough, since `n / 10 < n`.
unfoldable pub digits : ℕ → ℕ → Text → Text
digits zero n out = out
digits (suc f) n out =
    let rest = digits f (n / 10) ((b'0' + n % 10) ∷ out) in if nat_beq n 0 then out else rest

unfoldable pub to_string : ℕ → Text
unfolding digits
to_string n = if nat_beq n 0 then b'0' ∷ [] else digits n n []

-- The number that digits spell behind `n`.
value : ℕ → Text → ℕ
value n [] = n
value n (c ∷ s) = value (n * 10 + (c - b'0')) s

value-digits : (f n : ℕ) (out : Text) → n ≤ f → value 0 (digits f n out) ≡ value n out
unfolding digits value
value-digits zero n out h = rw (let e : n ≡ 0 = omega arith in e)
value-digits (suc f) n out h = ground (arith, value-digits f (n / 10) ((b'0' + n % 10) ∷ out))

value-to_string : (n : ℕ) → value 0 (to_string n) ≡ n
unfolding to_string value
value-to_string n = ground (arith, value-digits n n [])

-- Different numbers have different texts.
pub to_string_injective : (n m : ℕ) → to_string n ≡ to_string m → n ≡ m
to_string_injective n m h = sym (value-to_string n) ∙ ap (value 0) h ∙ value-to_string m

abbrev is_digit : ℕ → Bool
is_digit c = leb b'0' c && leb c b'9'

-- The digits of a `usize`, with the check for overflow at each of them.
scan : Text → ℕ → Option ℕ
scan [] n = some n
scan (c ∷ s) n =
    let m = n * 10 + (c - b'0') in
    let rest = scan s m in if is_digit c && ltb m (2 ^ 64) then rest else none

parse_digits : Text → Option ℕ
unfolding scan
parse_digits [] = none
parse_digits (c ∷ s) = scan (c ∷ s) 0

-- A sign `+` may stand in front of the digits.
unfoldable pub parse : Text → Option ℕ
unfolding parse_digits
parse [] = none
parse (c ∷ s) = if nat_beq c b'+' then parse_digits s else parse_digits (c ∷ s)

-- Every character of the text of a number is a digit.
abbrev pub Digit : ℕ → Type 0
Digit c = (b'0' ≤ c) × (c ≤ b'9')

digits-Digit : (f n : ℕ) (out : Text) → All Digit out → All Digit (digits f n out)
unfolding digits
digits-Digit zero n out h = h
digits-Digit (suc f) n out h = elim (Bool-cases (nat_beq n 0)) [
  | inl z ↦ rw (z, digits) h
  | inr p ↦ rw (p, digits) (digits-Digit f (n / 10) _ (omega arith, h))
]

pub to_string-Digit : (n : ℕ) → All Digit (to_string n)
unfolding to_string
to_string-Digit n = elim (Bool-cases (nat_beq n 0)) [
  | inl z ↦ rw (z, to_string) (omega arith, tt)
  | inr p ↦ rw (p, to_string) (digits-Digit n n [] tt)
]

abbrev pub StartsDigit : Text → Type 0
StartsDigit [] = ⊥
StartsDigit (c ∷ s) = (b'0' ≤ c) × (c ≤ b'9')

digits-StartsDigit : (f n : ℕ) (out : Text) → StartsDigit out → StartsDigit (digits f n out)
unfolding digits
digits-StartsDigit zero n out h = h
digits-StartsDigit (suc f) n out h = elim (Bool-cases (nat_beq n 0)) [
  | inl z ↦ rw (z, digits) h
  | inr p ↦ rw (p, digits) (digits-StartsDigit f (n / 10) _ (omega arith))
]

pub to_string-StartsDigit : (n : ℕ) → StartsDigit (to_string n)
unfolding to_string digits
to_string-StartsDigit zero = omega arith
to_string-StartsDigit (suc n) =
    ground (arith, digits-StartsDigit n (suc n / 10) ((b'0' + suc n % 10) ∷ []))

scan-digits : (f n : ℕ) (out : Text) → n ≤ f → n < 2 ^ 64 → scan (digits f n out) 0 ≡ scan out n
unfolding digits scan
scan-digits zero n out h b = rw (let e : n ≡ 0 = omega arith in e)
scan-digits (suc f) n out h b = ground (arith, scan-digits f (n / 10) ((b'0' + n % 10) ∷ out))

parse-scan : (s : Text) → StartsDigit s → parse s ≡ scan s 0
unfolding parse
parse-scan [] h = absurd h
parse-scan (c ∷ s) h = ground arith

scan-to_string : (n : ℕ) → n < 2 ^ 64 → scan (to_string n) 0 ≡ some n
unfolding to_string scan
scan-to_string n h = ground (arith, scan-digits n n [])

-- A 64-bit number is read back from its text.
pub parse-to_string : (n : ℕ) → n < 2 ^ 64 → parse (to_string n) ≡ some n
parse-to_string n h = parse-scan _ (to_string-StartsDigit n) ∙ scan-to_string n h
