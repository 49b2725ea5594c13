-- ===== src/Daemon/KeyCheck.antt =====
-- `validate_session_key` accepts exactly the keys that are valid.
use lspee.Base.{
  ℕ, ◌≡◌, ◌≢◌, refl, Bool, true, false, not, [], ◌∷◌, arith, ◌↔◌, any, all, All, ok, ap, ◌∙◌,
}
use lspee.Base.Text.{Text, is_empty, is_whitespace, trim, trim_start, trim_end}
use lspee.Protocol.{SessionKeyWire}
use lspee.Daemon.Keys.{
  is_absolute, lsp_id_char, validate_session_key, LspIdChar, letter, digit, dash, underscore, dot,
  IsValidKey,
}

abbrev visible : Text → Bool
visible = any (λ c. not (is_whitespace c))

visible-trim_start : (s : Text) → visible (trim_start s) ≡ visible s
unfolding any trim_start
visible-trim_start [] = refl
visible-trim_start (c ∷ s) = ground (arith, visible-trim_start s)

is_empty-trim_end : (s : Text) → is_empty (trim_end s) ≡ not (visible s)
unfolding any trim_end
is_empty-trim_end [] = refl
is_empty-trim_end (c ∷ s) = ground (arith, is_empty-trim_end s)

-- A text is blank exactly when trimming it leaves nothing.
pub is_empty-trim : (s : Text) → is_empty (trim s) ≡ not (visible s)
unfolding trim
is_empty-trim s = is_empty-trim_end (trim_start s) ∙ ap not (visible-trim_start s)

lsp_id_char_lem : (c : ℕ) → LspIdChar c → lsp_id_char c ≡ true
lsp_id_char_lem c (letter a b) = ground arith
lsp_id_char_lem c (digit a b) = ground arith
lsp_id_char_lem c (dash e) = ground arith
lsp_id_char_lem c (underscore e) = ground arith
lsp_id_char_lem c (dot e) = ground arith

LspIdChar_lem : (c : ℕ) → lsp_id_char c ≡ true → LspIdChar c
LspIdChar_lem c h = grind (arith, letter, digit, dash, underscore, dot)

all-lsp_id_char : (s : Text) → All LspIdChar s → all lsp_id_char s ≡ true
unfolding all
all-lsp_id_char [] a = refl
all-lsp_id_char (c ∷ s) a = ground (arith, lsp_id_char_lem c a.0, all-lsp_id_char s a.1)

All-LspIdChar : (s : Text) → all lsp_id_char s ≡ true → All LspIdChar s
unfolding all
All-LspIdChar [] h = tt
All-LspIdChar (c ∷ s) h = (LspIdChar_lem c (ground arith), All-LspIdChar s (ground arith))

is_absolute_lem : (s : Text) → is_absolute s ≡ true → (rest : Text) × (s ≡ b'/' ∷ rest)
is_absolute_lem [] h = absurd (cc)
is_absolute_lem (c ∷ s) h = (s, ground arith)

nonempty : (s : Text) → is_empty s ≡ false → s ≢ []
nonempty [] h = absurd (cc)
nonempty (c ∷ s) h = λ e. cc

not_empty : (s : Text) → s ≢ [] → is_empty s ≡ false
not_empty [] h = absurd (h refl)
not_empty (c ∷ s) h = refl

accepted : (key : SessionKeyWire) → IsValidKey key → validate_session_key key ≡ ok tt
unfolding validate_session_key
accepted key v = ground (
  arith,
  v.absolute.1,
  is_empty-trim key.config_hash,
  v.hash_visible,
  not_empty key.lsp_id v.id_nonempty,
  all-lsp_id_char key.lsp_id v.id_chars,
)

valid : (key : SessionKeyWire) → validate_session_key key ≡ ok tt → IsValidKey key
unfolding validate_session_key
valid key h = record {
  absolute = is_absolute_lem key.project_root (ground arith);
  hash_visible = ground (arith, is_empty-trim key.config_hash);
  id_nonempty = nonempty key.lsp_id (ground arith);
  id_chars = All-LspIdChar key.lsp_id (ground arith);
}

-- A session key is accepted exactly when its root is an absolute path, its hash is not blank, and
-- its id is a nonempty text of lower-case letters, digits, dashes, underscores and dots.
pub validate_session_key_iff :
    (key : SessionKeyWire) → (validate_session_key key ≡ ok tt) ↔ IsValidKey key
validate_session_key_iff key = (valid key, accepted key)
