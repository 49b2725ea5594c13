-- ===== src/Lsp/Defs.antt =====
-- `encode_lsp_frame`, `read_lsp_frame` and the reader task. A stream is the list of the bytes that
-- are still to come; `serde_json` and the UTF-8 decoder are the parameters `Codec`.
use lspee.Base.{
  ℕ, zero, suc, ◌&&◌, ◌||◌, Option, none, some, List, [], ◌∷◌, ◌++◌, if◌then◌else◌, nat_beq, length,
  Result, ok, err,
}
use lspee.Base.Text.{Text, codes, is_empty, strip_prefix, trim}
use lspee.Base.Decimal.{to_string, parse}
use lspee.Json.{Json, get, as_str}

abbrev pub Bytes : Type 0
Bytes = List ℕ

pub record Codec : Type 0 where
  pub to_vec : Json → Option Bytes
  pub from_slice : Bytes → Option Json
  pub from_utf8 : Bytes → Option Text

pub data ReadError : Type 0 where
  bad_header_line bad_content_length missing_content_length short_body bad_json : ReadError

-- What a read ends with: a message and the bytes after it, the end of the stream, or an error.
pub data Read : Type 0 where
  message : Json → Bytes → Read
  ended : Read
  failed : ReadError → Read

pub record LspMessage : Type 0 where
  pub id : Option Json
  pub method : Option Text
  pub payload : Json

unfoldable pub from_json : Json → LspMessage
from_json payload = record {
  id = get (codes "id") payload;
  method = elim (get (codes "method") payload) [ none ↦ none | some j ↦ as_str j ];
  payload = payload;
}

-- `read_line`: the bytes up to and with the first line feed, and the bytes after it.
unfoldable pub read_line : Bytes → Bytes × Bytes
read_line [] = ([], [])
read_line (c ∷ s) =
    let (line, rest) = read_line s in if nat_beq c b'\n' then (c ∷ [], s) else (c ∷ line, rest)

-- `line.trim_end_matches(['\r', '\n'])`
unfoldable pub trim_eol : Text → Text
trim_eol [] = []
trim_eol (c ∷ s) =
    let rest = trim_eol s in
    if is_empty rest && (nat_beq c b'\r' || nat_beq c b'\n') then [] else c ∷ rest

-- `read_exact` of a body: the body and the bytes after it.
unfoldable pub read_exact : ℕ → Bytes → Option (Bytes × Bytes)
read_exact zero s = some ([], s)
read_exact (suc n) [] = none
read_exact (suc n) (c ∷ s) = elim (read_exact n s) [
  | none ↦ none
  | some (body, rest) ↦ some (c ∷ body, rest)
]

unfoldable pub encode_lsp_frame : Codec → Json → Option Bytes
encode_lsp_frame codec m = elim (codec.to_vec m) [
  | none ↦ none
  | some body ↦
      some (codes "Content-Length: " ++ to_string (length body) ++ codes "\r\n\r\n" ++ body)
]

-- What the loop over the header lines ends with.
pub data Headers : Type 0 where
  headers : Option ℕ → Bytes → Headers
  no_more : Headers
  bad : ReadError → Headers

-- The effect of one header line that is not empty.
unfoldable pub read_header : Text → Option ℕ → Result (Option ℕ) ReadError
unfolding strip_prefix trim parse
read_header line n = elim (strip_prefix (codes "Content-Length:") line) [
  | none ↦ ok n
  | some value ↦ elim (parse (trim value)) [
    | none ↦ err bad_content_length
    | some parsed ↦ ok (some parsed)
  ]
]

-- The rest of the loop's body, once the line is read.
unfoldable pub on_line :
    Codec → (Option ℕ → Bytes → Option Headers) → Bytes → Bytes → Option ℕ → Option Headers
unfolding trim_eol read_header
on_line codec loop bytes rest n = elim (codec.from_utf8 bytes) [
  | none ↦ some (bad bad_header_line)
  | some text ↦
      if is_empty (trim_eol text)
      then some (headers n rest)
      else elim (read_header (trim_eol text) n) [ err e ↦ some (bad e) | ok n' ↦ loop n' rest ]
]

-- The loop over the header lines, on fuel: `none` is a run that is out of fuel.
unfoldable pub read_headers : ℕ → Codec → Option ℕ → Bytes → Option Headers
unfolding read_line on_line
read_headers zero codec n s = none
read_headers (suc f) codec n [] = some no_more
read_headers (suc f) codec n (c ∷ s) =
    let (line, rest) = read_line (c ∷ s) in on_line codec (read_headers f codec) line rest n

-- The body, once the headers are read. A length that cannot be allocated makes the source panic;
-- the reader task ends then, too, as it does by an error.
unfoldable pub read_body : Codec → Headers → Read
unfolding read_exact
read_body codec no_more = ended
read_body codec (bad e) = failed e
read_body codec (headers none s) = failed missing_content_length
read_body codec (headers (some n) s) = elim (read_exact n s) [
  | none ↦ failed short_body
  | some (bytes, rest) ↦ elim (codec.from_slice bytes) [
    | none ↦ failed bad_json
    | some m ↦ message m rest
  ]
]

-- Each header line takes a byte at least, so the length of the stream is fuel enough.
unfoldable pub read_lsp_frame : Codec → Bytes → Option Read
unfolding read_headers read_body
read_lsp_frame codec s = elim (read_headers (suc (length s)) codec none s) [
  | none ↦ none
  | some h ↦ some (read_body codec h)
]

-- The reader task: it publishes each message, and stops at the end or at an error. `none` is a run
-- that is out of fuel.
unfoldable pub reader_task : ℕ → Codec → Bytes → Option (List LspMessage)
unfolding read_lsp_frame from_json
reader_task zero codec s = none
reader_task (suc f) codec s = elim (read_lsp_frame codec s) [
  | none ↦ none
  | some ended ↦ some []
  | some (failed e) ↦ some []
  | some (message m rest) ↦ elim (reader_task f codec rest) [
    | none ↦ none
    | some ms ↦ some (from_json m ∷ ms)
  ]
]

-- The bytes that the writer task writes: a message that does not encode is left out.
unfoldable pub writer_task : Codec → List Json → Bytes
unfolding encode_lsp_frame
writer_task codec [] = []
writer_task codec (m ∷ ms) = elim (encode_lsp_frame codec m) [
  | none ↦ writer_task codec ms
  | some frame ↦ frame ++ writer_task codec ms
]
