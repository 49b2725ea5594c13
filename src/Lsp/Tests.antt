-- ===== src/Lsp/Tests.antt =====
-- The theorems on frames with a codec of one message.
use lspee.Base.{
  ℕ, ok, ◌<◌, ◌≡◌, ◌≢◌, refl, true, Option, none, some, is_some, [], ◌∷◌, ◌++◌, map, filter, length,
  arith, ◌^◌,
}
use lspee.Base.Eq.{list_beq}
use lspee.Base.Text.{codes}
use lspee.Base.Decimal.{to_string, digits}
use lspee.Json
use lspee.Json.{Json, null, Fields, bool, number, string, object, field, end, json_eq}
use lspee.Lsp.Defs.{
  Bytes, Codec, message, from_json, encode_lsp_frame, read_lsp_frame, reader_task, writer_task,
}
use lspee.Lsp.RoundTrip.{IsCodec, read_lsp_frame-encode_lsp_frame, reader_task-writer_task}
use lspee.Lsp.Runtime.{arrived, call, call-first}
use lspee.Lsp.Total.{reader_task-ends}

-- Only `null` has a text.
abbrev null_to_vec : Json → Option Bytes
null_to_vec null = some (codes "null")
null_to_vec _ = none

abbrev null_from_slice : Bytes → Option Json
null_from_slice s = some null

abbrev null_codec : Codec
null_codec = record { to_vec = null_to_vec; from_slice = null_from_slice; from_utf8 = λ s. some s }

null_reads_back :
    (m : Json) (body : Bytes) → null_to_vec m ≡ some body → null_from_slice body ≡ some m
null_reads_back null body e = refl
null_reads_back _ body e = absurd (cc)

null_fits : (m : Json) (body : Bytes) → null_to_vec m ≡ some body → length body < 2 ^ 64
null_fits null body e = ground arith
null_fits _ body e = absurd (cc)

null_codec-IsCodec : IsCodec null_codec
null_codec-IsCodec = record { ascii = λ s h. refl; reads_back = null_reads_back; fits = null_fits }

abbrev null_frame : Bytes
null_frame = codes "Content-Length: 4\r\n\r\nnull"

read-encode_example :
    read_lsp_frame null_codec (null_frame ++ codes "rest") ≡ some (message null (codes "rest"))
unfolding encode_lsp_frame to_string digits
read-encode_example =
    read_lsp_frame-encode_lsp_frame null_codec null_codec-IsCodec null null_frame (codes "rest")
      refl

reader-writer_example :
    reader_task 4 null_codec (writer_task null_codec (null ∷ bool true ∷ null ∷ []))
    ≡ some (
        map from_json
          (filter (λ m. is_some (encode_lsp_frame null_codec m)) (null ∷ bool true ∷ null ∷ [])))
reader-writer_example =
    reader_task-writer_task null_codec null_codec-IsCodec 4 (null ∷ bool true ∷ null ∷ [])
      (omega arith)

reader_ends_example : reader_task 99 null_codec null_frame ≢ none
reader_ends_example = reader_task-ends null_codec 99 null_frame (omega arith)

abbrev numbered : ℕ → Fields → Json
numbered n more = object (field (codes "id") (number n) more)

-- A request of the server, for its configuration, and its answer to the call.
abbrev asked : Json
asked = numbered 1 (field (codes "method") (string (codes "workspace/configuration")) end)

abbrev answered : Json
answered = numbered 1 (field (codes "result") null end)

call_example :
    call
      (λ j. ok tt)
      (numbered 1 end)
      (map arrived (numbered 2 end ∷ []) ++ (arrived asked ∷ arrived answered ∷ []))
    ≡ some (ok asked)
unfolding lspee.Json.get lspee.Json.get_field list_beq
call_example =
    call-first (λ j. ok tt) (numbered 1 end) (number 1) (numbered 2 end ∷ [])
      (arrived answered ∷ []) asked refl refl ((λ e. cc), tt) refl
