-- ===== src/Daemon/Keys.antt =====
-- `validate_session_key` and `preferred_stream_mode`.
use lspee.Base.{
  ℕ, ◌≤◌, ◌≡◌, ◌≢◌, Bool, true, false, ◌&&◌, ◌||◌, not, Option, none, some, [], ◌∷◌, if◌then◌else◌,
  nat_beq, leb, any, all, All, Result, ok, err,
}
use lspee.Base.Text.{Text, codes, is_empty, is_whitespace, trim}
use lspee.Protocol.{SessionKeyWire, AttachCapabilities, StreamMode, dedicated, mux_control}

-- `Path::is_absolute` on unix: the first component is the root.
abbrev pub is_absolute : Text → Bool
is_absolute [] = false
is_absolute (c ∷ s) = nat_beq c b'/'

abbrev pub lsp_id_char : ℕ → Bool
lsp_id_char c =
    (leb b'a' c && leb c b'z')
    || (leb b'0' c && leb c b'9')
    || (nat_beq c b'-' || nat_beq c b'_' || nat_beq c b'.')

abbrev pub root_message : Text
root_message = codes "session_key.project_root must be an absolute non-empty path"

abbrev pub hash_message : Text
hash_message = codes "session_key.config_hash must be non-empty"

abbrev pub lsp_id_message : Text
lsp_id_message = codes "session_key.lsp_id must match ^[a-z0-9._-]+$"

unfoldable pub validate_session_key : SessionKeyWire → Result (Unit {0}) Text
unfolding trim
validate_session_key key =
    if is_empty key.project_root || not (is_absolute key.project_root)
    then err root_message
    else if is_empty (trim key.config_hash)
    then err hash_message
    else if is_empty key.lsp_id || not (all lsp_id_char key.lsp_id)
    then err lsp_id_message
    else ok tt

abbrev wants_dedicated : StreamMode → Bool
wants_dedicated dedicated = true
wants_dedicated mux_control = false

unfoldable pub preferred_stream_mode : Option AttachCapabilities → StreamMode
preferred_stream_mode none = mux_control
preferred_stream_mode (some c) =
    if any wants_dedicated c.stream_mode then dedicated else mux_control

-- The characters that an id of a language server is made of.
pub data LspIdChar (c : ℕ) : Type 0 where
  letter : b'a' ≤ c → c ≤ b'z' → LspIdChar c
  digit : b'0' ≤ c → c ≤ b'9' → LspIdChar c
  dash : c ≡ b'-' → LspIdChar c
  underscore : c ≡ b'_' → LspIdChar c
  dot : c ≡ b'.' → LspIdChar c

-- What a session key has to be.
pub record IsValidKey (key : SessionKeyWire) : Type 0 where
  pub absolute : (rest : Text) × (key.project_root ≡ b'/' ∷ rest)
  pub hash_visible : any (λ c. not (is_whitespace c)) key.config_hash ≡ true
  pub id_nonempty : key.lsp_id ≢ []
  pub id_chars : All LspIdChar key.lsp_id
