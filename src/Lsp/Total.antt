-- ===== src/Lsp/Total.antt =====
-- Reading ends on every stream: the fuel of the loops is enough.
use lspee.Base.{
  ℕ, zero, suc, ◌+◌, ◌≤◌, ◌<◌, ◌≡◌, ◌≢◌, refl, Option, none, some, [], ◌∷◌, arith, length,
  Option-cases, Bool-cases, Result-cases, inl, inr, subst,
}
use lspee.Base.Text.{is_empty}
use lspee.Lsp.Defs.{
  Bytes, Codec, Read, message, ended, failed, Headers, headers, no_more, bad, read_line, trim_eol,
  read_exact, read_header, on_line, read_headers, read_body, read_lsp_frame, reader_task,
}

read_line-length : (s : Bytes) → length (read_line s).0 + length (read_line s).1 ≡ length s
unfolding read_line
read_line-length [] = refl
read_line-length (c ∷ s) = ground (arith, read_line-length s)

read_line-shrinks : (c : ℕ) (s : Bytes) → length (read_line (c ∷ s)).1 ≤ length s
unfolding read_line
read_line-shrinks c s = ground (arith, read_line-length s)

-- What the headers leave of a stream is no longer than `n`.
abbrev Left : ℕ → Option Headers → Type 0
Left n none = ⊥
Left n (some (headers k rest)) = length rest ≤ n
Left n (some no_more) = Unit
Left n (some (bad e)) = Unit

on_line-Left :
    (codec : Codec) (loop : Option ℕ → Bytes → Option Headers) (bytes rest : Bytes) (n : Option ℕ)
    (b : ℕ)
    → length rest ≤ b
    → ((n' : Option ℕ) → Left b (loop n' rest))
    → Left b (on_line codec loop bytes rest n)
unfolding on_line
on_line-Left codec loop bytes rest n b h step = elim (Option-cases (codec.from_utf8 bytes)) [
  | inl e ↦ rw (e, on_line) tt
  | inr (t, e) ↦
      rw (e, on_line)
        (elim (Bool-cases (is_empty (trim_eol t))) [
          | inl f ↦ rw f h
          | inr f ↦ rw f (elim (Result-cases (read_header (trim_eol t) n)) [
            | inl (n', g) ↦ rw g (step n')
            | inr (m, g) ↦ rw g tt
          ])
        ])
]

Left-le : (a b : ℕ) (h : Option Headers) → a ≤ b → Left a h → Left b h
Left-le a b none l h = h
Left-le a b (some (headers k rest)) l h = omega arith
Left-le a b (some no_more) l h = h
Left-le a b (some (bad e)) l h = h

-- A loop that reads a head of a stream that is not empty takes a byte at least.
read_headers-cons :
    (f : ℕ) (codec : Codec) (n : Option ℕ) (c : ℕ) (s : Bytes)
    → ((n' : Option ℕ) (rest : Bytes)
        → length rest ≤ length s
        → Left (length rest) (read_headers f codec n' rest))
    → Left (length s) (read_headers (suc f) codec n (c ∷ s))
unfolding read_headers
read_headers-cons f codec n c s loop =
    let x = read_line (c ∷ s) in
    let shorter : length x.1 ≤ length s = read_line-shrinks c s in
    on_line-Left codec (read_headers f codec) x.0 x.1 n (length s) shorter (λ n'.
      Left-le (length x.1) (length s) (read_headers f codec n' x.1) shorter (loop n' x.1 shorter))

-- With more fuel than bytes the loop over the header lines ends.
read_headers-Left :
    (f : ℕ) (codec : Codec) (n : Option ℕ) (s : Bytes)
    → length s < f
    → Left (length s) (read_headers f codec n s)
unfolding read_headers
read_headers-Left zero codec n s h = absurd (omega arith)
read_headers-Left (suc f) codec n [] h = tt
read_headers-Left (suc f) codec n (c ∷ s) h =
    Left-le (length s) (suc (length s)) (read_headers (suc f) codec n (c ∷ s)) (omega arith) (
      read_headers-cons f codec n c s
        (λ n' rest l. read_headers-Left f codec n' rest (omega arith)))

read_exact-length :
    (n : ℕ) (s bytes rest : Bytes) → read_exact n s ≡ some (bytes, rest) → length rest ≤ length s
unfolding read_exact
read_exact-length zero s bytes rest e = ground arith
read_exact-length (suc n) [] bytes rest e = absurd (cc)
read_exact-length (suc n) (c ∷ s) bytes rest e = elim (Option-cases (read_exact n s)) [
  | inl f ↦ absurd (ground arith)
  | inr (x, f) ↦ ground (arith, read_exact-length n s x.0 x.1)
]

-- A message leaves no more than `n` bytes.
abbrev Shorter : ℕ → Option Read → Type 0
Shorter n none = ⊥
Shorter n (some (message m rest)) = length rest ≤ n
Shorter n (some ended) = Unit
Shorter n (some (failed e)) = Unit

read_body-Shorter :
    (codec : Codec) (b : ℕ) (h : Headers) → Left b (some h) → Shorter b (some (read_body codec h))
unfolding read_body
read_body-Shorter codec b no_more l = tt
read_body-Shorter codec b (bad e) l = tt
read_body-Shorter codec b (headers none s) l = tt
read_body-Shorter codec b (headers (some n) s) l = elim (Option-cases (read_exact n s)) [
  | inl e ↦ rw (e, read_body) tt
  | inr ((bytes, rest), e) ↦
      rw (e, read_body)
        (elim (Option-cases (codec.from_slice bytes)) [
          | inl f ↦ rw f tt
          | inr (m, f) ↦ rw f (omega (arith, read_exact-length n s bytes rest e))
        ])
]

read_lsp_frame-cons :
    (codec : Codec) (c : ℕ) (s : Bytes) → Shorter (length s) (read_lsp_frame codec (c ∷ s))
unfolding read_lsp_frame
read_lsp_frame-cons codec c s =
    let left =
      read_headers-cons (suc (length s)) codec none c s
        (λ n' rest l. read_headers-Left (suc (length s)) codec n' rest (omega arith)) in
    elim (Option-cases (read_headers (suc (suc (length s))) codec none (c ∷ s))) [
      | inl e ↦ absurd (subst (Left (length s)) e left)
      | inr (h, e) ↦
          rw (e, read_lsp_frame)
            (read_body-Shorter codec (length s) h (subst (Left (length s)) e left))
    ]

not_none : (n : ℕ) (x : Option Read) → Shorter n x → x ≢ none
not_none n none h = λ e. h
not_none n (some x) h = λ e. cc

-- `read_lsp_frame` ends on every stream: its fuel, the length of the stream and one, is enough.
pub read_lsp_frame-ends : (codec : Codec) (s : Bytes) → read_lsp_frame codec s ≢ none
unfolding read_lsp_frame read_headers
read_lsp_frame-ends codec [] = λ e. cc
read_lsp_frame-ends codec (c ∷ s) =
    not_none (length s) (read_lsp_frame codec (c ∷ s)) (read_lsp_frame-cons codec c s)

-- With more fuel than bytes the reader task ends on every stream.
pub reader_task-ends :
    (codec : Codec) (f : ℕ) (s : Bytes) → length s < f → reader_task f codec s ≢ none
unfolding reader_task read_lsp_frame read_headers read_body
reader_task-ends codec zero s h = absurd (omega arith)
reader_task-ends codec (suc f) [] h = λ e. cc
reader_task-ends codec (suc f) (c ∷ s) h = elim (Option-cases (read_lsp_frame codec (c ∷ s))) [
  | inl e ↦ absurd (read_lsp_frame-ends codec (c ∷ s) e)
  | inr (message m rest, e) ↦
      let less : length rest ≤ length s =
        subst (Shorter (length s)) e (read_lsp_frame-cons codec c s) in
      elim (Option-cases (reader_task f codec rest)) [
        | inl g ↦ absurd (reader_task-ends codec f rest (omega arith) g)
        | inr (ms, g) ↦ rw (e, reader_task) (rw g (λ q. cc))
      ]
  | inr (ended, e) ↦ rw (e, reader_task) (λ q. cc)
  | inr (failed x, e) ↦ rw (e, reader_task) (λ q. cc)
]
