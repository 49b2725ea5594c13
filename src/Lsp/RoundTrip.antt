-- ===== src/Lsp/RoundTrip.antt =====
-- A frame that is written is read back, and so is a stream of frames.
use lspee.Base.{
  ℕ, zero, suc, ◌≤◌, ◌<◌, ◌^◌, ◌≡◌, refl, sym, ap, subst, is_some, filter, ◌∙◌, false, Option, none,
  some, List, [], ◌∷◌, ◌++◌, arith, if◌then◌else◌, length, ok, err, All, All-append, All-map,
  append_assoc, map, Option-cases, inl, inr,
}
use lspee.Base.Text.{
  Text, codes, is_empty, is_whitespace, strip_prefix, strip_prefix-append, trim, trim_start,
  trim_end, trim_start-words, trim_end-words,
}
use lspee.Base.Decimal.{to_string, parse, parse-to_string, Digit, to_string-Digit}
use lspee.Json.{Json}
use lspee.Lsp.Defs.{
  Bytes, Codec, message, LspMessage, from_json, read_line, trim_eol, read_exact, encode_lsp_frame,
  Headers, headers, bad, read_header, on_line, read_headers, read_body, read_lsp_frame, reader_task,
  writer_task,
}

-- What is documented of the decoders: ASCII is UTF-8, and JSON is read back.
pub record IsCodec (codec : Codec) : Type 0 where
  pub ascii : (s : Bytes) → All (λ c. c < 128) s → codec.from_utf8 s ≡ some s
  pub reads_back :
      (m : Json) (body : Bytes) → codec.to_vec m ≡ some body → codec.from_slice body ≡ some m
  pub fits : (m : Json) (body : Bytes) → codec.to_vec m ≡ some body → length body < 2 ^ 64

-- A character of a header line: ASCII, and no end of a line.
abbrev Plain : ℕ → Type 0
Plain c = (14 ≤ c) × (c < 128)

abbrev eol : Text
eol = codes "\r\n"

read_line-Plain : (l rest : Bytes) → All Plain l → read_line (l ++ eol ++ rest) ≡ (l ++ eol, rest)
unfolding read_line
read_line-Plain [] rest h = refl
read_line-Plain (c ∷ l) rest h = ground (arith, read_line-Plain l rest h.1)

trim_eol-Plain : (l : Text) → All Plain l → trim_eol (l ++ eol) ≡ l
unfolding trim_eol
trim_eol-Plain [] h = refl
trim_eol-Plain (c ∷ l) h = ground (arith, trim_eol-Plain l h.1)

Digit-Plain : (c : ℕ) → Digit c → Plain c
Digit-Plain c d = omega arith

Digit-is_whitespace : (c : ℕ) → Digit c → is_whitespace c ≡ false
unfolding is_whitespace
Digit-is_whitespace c d = ground arith

trim-digits : (s : Text) → All Digit s → trim (b' ' ∷ s) ≡ s
unfolding trim trim_start
trim-digits s h =
    let words = All-map Digit (λ c. is_whitespace c ≡ false) Digit-is_whitespace s h in
    ap trim_end (trim_start-words s words) ∙ trim_end-words s words

read_header-value :
    (line value : Text) (k : ℕ) (n : Option ℕ)
    → strip_prefix (codes "Content-Length:") line ≡ some value
    → parse (trim value) ≡ some k
    → read_header line n ≡ ok (some k)
unfolding read_header
read_header-value line value k n e h = rw (e, read_header) (rw h refl)

read_header-length :
    (k : ℕ) (n : Option ℕ)
    → k < 2 ^ 64
    → read_header (codes "Content-Length: " ++ to_string k) n ≡ ok (some k)
read_header-length k n h =
    read_header-value (codes "Content-Length: " ++ to_string k) (b' ' ∷ to_string k) k n
      (strip_prefix-append (codes "Content-Length:") (b' ' ∷ to_string k))
      (ap parse (trim-digits (to_string k) (to_string-Digit k)) ∙ parse-to_string k h)

read_exact-append : (s rest : Bytes) → read_exact (length s) (s ++ rest) ≡ some (s, rest)
unfolding read_exact
read_exact-append [] rest = refl
read_exact-append (c ∷ s) rest = rw (read_exact-append s rest) refl

-- The text of the header line of a body of `k` bytes.
abbrev header_text : ℕ → Text
header_text k = codes "Content-Length: " ++ to_string k

header_text-Plain : (k : ℕ) → All Plain (header_text k)
header_text-Plain k =
    All-append Plain (codes "Content-Length: ") (to_string k) (omega arith)
      (All-map Digit Plain Digit-Plain (to_string k) (to_string-Digit k))

module _ (codec : Codec) (c : IsCodec codec) where
  Plain-from_utf8 : (l : Text) → All Plain l → codec.from_utf8 (l ++ eol) ≡ some (l ++ eol)
  Plain-from_utf8 l h = c.ascii (l ++ eol) (
      All-append (λ c. c < 128) l eol (All-map Plain (λ c. c < 128) (λ x p. p.1) l h) (omega arith))

  on_line-Plain :
      (loop : Option ℕ → Bytes → Option Headers) (l rest : Bytes) (n : Option ℕ)
      → All Plain l
      → on_line codec loop (l ++ eol) rest n ≡ (
          if is_empty l
          then some (headers n rest)
          else elim (read_header l n) [ err e ↦ some (bad e) | ok n' ↦ loop n' rest ])
  unfolding on_line
  on_line-Plain loop l rest n h = rw (Plain-from_utf8 l h, on_line) (rw (trim_eol-Plain l h) refl)

  on_line-header :
      (loop : Option ℕ → Bytes → Option Headers) (k : ℕ) (rest : Bytes) (n : Option ℕ)
      → k < 2 ^ 64
      → on_line codec loop (header_text k ++ eol) rest n ≡ loop (some k) rest
  on_line-header loop k rest n h =
      on_line-Plain loop (header_text k) rest n (header_text-Plain k)
      ∙ rw (read_header-length k n h) refl

  read_headers-step :
      (f : ℕ) (b : ℕ) (s line rest : Bytes) (n : Option ℕ)
      → read_line (b ∷ s) ≡ (line, rest)
      → read_headers (suc f) codec n (b ∷ s) ≡ on_line codec (read_headers f codec) line rest n
  unfolding read_headers
  read_headers-step f b s line rest n e = rw (e, read_headers) refl

  read_headers-line :
      (f : ℕ) (l rest : Bytes) (n : Option ℕ)
      → All Plain l
      → read_headers (suc f) codec n ((l ++ eol) ++ rest)
        ≡ on_line codec (read_headers f codec) (l ++ eol) rest n
  read_headers-line f [] rest n h =
      read_headers-step f b'\r' (b'\n' ∷ rest) eol rest n (read_line-Plain [] rest tt)
  read_headers-line f (c ∷ l) rest n h =
      read_headers-step f c ((l ++ eol) ++ rest) (c ∷ l ++ eol) rest n
        (read_line-Plain (c ∷ l) rest h)

  read_headers-frame :
      (f k : ℕ) (rest : Bytes)
      → k < 2 ^ 64
      → read_headers (suc (suc f)) codec none ((header_text k ++ eol) ++ (eol ++ rest))
        ≡ some (headers (some k) rest)
  read_headers-frame f k rest h =
      read_headers-line (suc f) (header_text k) (eol ++ rest) none (header_text-Plain k)
      ∙ on_line-header (read_headers (suc f) codec) k (eol ++ rest) none h
      ∙ read_headers-line f [] rest (some k) tt
      ∙ on_line-Plain (read_headers f codec) [] rest (some k) tt

  read_body-frame :
      (m : Json) (bytes rest : Bytes)
      → codec.to_vec m ≡ some bytes
      → read_body codec (headers (some (length bytes)) (bytes ++ rest)) ≡ message m rest
  unfolding read_body
  read_body-frame m bytes rest e =
      rw (read_exact-append bytes rest, read_body) (rw (c.reads_back m bytes e) refl)

  -- The bytes of a frame, with those that follow it.
  frame_bytes :
      (bytes rest : Bytes)
      → let k = length bytes in
        (header_text k ++ codes "\r\n\r\n" ++ bytes) ++ rest
        ≡ (header_text k ++ eol) ++ (eol ++ (bytes ++ rest))
  frame_bytes bytes rest =
      let h = header_text (length bytes) in
      append_assoc (h ++ codes "\r\n\r\n") bytes rest
      ∙ append_assoc h (codes "\r\n\r\n") (bytes ++ rest)
      ∙ sym (append_assoc h eol (eol ++ (bytes ++ rest)))

  read_lsp_frame-headers :
      (s : Bytes) (h : Headers)
      → read_headers (suc (length s)) codec none s ≡ some h
      → read_lsp_frame codec s ≡ some (read_body codec h)
  unfolding read_lsp_frame
  read_lsp_frame-headers s h e = rw (e, read_lsp_frame) refl

  read_lsp_frame-bytes :
      (m : Json) (bytes rest : Bytes)
      → codec.to_vec m ≡ some bytes
      → read_lsp_frame codec ((header_text (length bytes) ++ codes "\r\n\r\n" ++ bytes) ++ rest)
        ≡ some (message m rest)
  read_lsp_frame-bytes m bytes rest e =
      ap (read_lsp_frame codec) (frame_bytes bytes rest)
      ∙ read_lsp_frame-headers _ _
          (read_headers-frame _ (length bytes) (bytes ++ rest) (c.fits m bytes e))
      ∙ ap some (read_body-frame m bytes rest e)

  -- A frame that encode_lsp_frame makes is read back as its message, whatever bytes follow it, and
  -- those are left in the stream, if JSON is read back, ASCII is UTF-8 and the texts are shorter
  -- than 2^64 bytes.
  pub read_lsp_frame-encode_lsp_frame :
      (m : Json) (frame rest : Bytes)
      → encode_lsp_frame codec m ≡ some frame
      → read_lsp_frame codec (frame ++ rest) ≡ some (message m rest)
  unfolding encode_lsp_frame read_lsp_frame
  read_lsp_frame-encode_lsp_frame m frame rest e = elim (Option-cases (codec.to_vec m)) [
    | inl f ↦ absurd (ground arith)
    | inr (bytes, f) ↦
        subst (λ s. read_lsp_frame codec (s ++ rest) ≡ some (message m rest))
          (let same : some (header_text (length bytes) ++ codes "\r\n\r\n" ++ bytes) ≡ some frame =
              sym (rw (f, encode_lsp_frame) refl) ∙ e in
            let same' : header_text (length bytes) ++ codes "\r\n\r\n" ++ bytes ≡ frame = cc in
            same')
          (read_lsp_frame-bytes m bytes rest f)
  ]

  reader_task-message :
      (f : ℕ) (m : Json) (s rest : Bytes) (ms : List LspMessage)
      → read_lsp_frame codec s ≡ some (message m rest)
      → reader_task f codec rest ≡ some ms
      → reader_task (suc f) codec s ≡ some (from_json m ∷ ms)
  unfolding reader_task
  reader_task-message f m s rest ms e g = rw (e, reader_task) (rw g refl)

  -- With more fuel than messages the reader task publishes, in order, exactly the messages of a
  -- list that encode, out of the bytes that the writer task writes of the list, if JSON is read
  -- back, ASCII is UTF-8 and the texts are shorter than 2^64 bytes.
  pub reader_task-writer_task :
      (f : ℕ) (ms : List Json)
      → length ms < f
      → reader_task f codec (writer_task codec ms)
        ≡ some (map from_json (filter (λ m. is_some (encode_lsp_frame codec m)) ms))
  unfolding reader_task writer_task filter read_lsp_frame read_headers read_body
  reader_task-writer_task zero ms h = absurd (omega arith)
  reader_task-writer_task (suc f) [] h = refl
  reader_task-writer_task (suc f) (m ∷ ms) h = elim (Option-cases (encode_lsp_frame codec m)) [
    | inl e ↦ rw (e, writer_task, filter) (reader_task-writer_task (suc f) ms (omega arith))
    | inr (frame, e) ↦
        rw (e, writer_task, filter)
          (reader_task-message f m (frame ++ writer_task codec ms) (writer_task codec ms) _
            (read_lsp_frame-encode_lsp_frame m frame (writer_task codec ms) e)
            (reader_task-writer_task f ms (omega arith)))
  ]
