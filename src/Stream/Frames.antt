-- ===== src/Stream/Frames.antt =====
-- What the frames of a dedicated stream carry, both ways.
use lspee.Base.{
  ℕ, ◌+◌, ◌<◌, ◌^◌, ◌≡◌, refl, Bool, true, false, ◌&&◌, Option, some, List, [], ◌∷◌, ◌++◌, arith,
  if◌then◌else◌, Result, ok, length, filter, map, All,
}
use lspee.Base.Eq.{◌==◌, text_eq}
use lspee.Base.Text.{Text}
use lspee.Json.{Json}
use lspee.Protocol.{StreamFrameType, lsp_in, StreamFrame}
use lspee.Lsp.Defs.{LspMessage}
use lspee.Lsp.Runtime.{Received, item, lagged, closed}
use lspee.Stream.Defs.{next_seq, out_frame, runtime_task, Inbound, line, take_frame, inbound}

-- The messages that are received before the channel is closed.
abbrev pub taken : List (Received LspMessage) → List LspMessage
taken [] = []
taken (item m ∷ rs) = m ∷ taken rs
taken (lagged ∷ rs) = taken rs
taken (closed ∷ rs) = []

-- The frames of messages, numbered upwards.
abbrev pub numbered : Text → ℕ → List LspMessage → List (StreamFrame Json)
numbered lease_id seq [] = []
numbered lease_id seq (m ∷ ms) = out_frame lease_id seq m ∷ numbered lease_id (seq + 1) ms

-- As long as the connection takes frames and the numbers stay below 2^64, the runtime task sends
-- the messages that it receives before its channel is closed, in order and none twice, under
-- numbers that go up by one.
pub runtime_task-numbered :
    (writes : StreamFrame Json → Bool) (lease_id : Text) (seq : ℕ) (rs : List (Received LspMessage))
    → ((f : StreamFrame Json) → writes f ≡ true)
    → seq + length (taken rs) < 2 ^ 64
    → runtime_task writes lease_id seq rs ≡ numbered lease_id seq (taken rs)
unfolding runtime_task
runtime_task-numbered writes lease_id seq [] w small = refl
runtime_task-numbered writes lease_id seq (item m ∷ rs) w small =
    let next : next_seq seq ≡ seq + 1 = ground arith in
    let rest = runtime_task-numbered writes lease_id (seq + 1) rs w (omega arith) in
    rw (w (out_frame lease_id seq m), next, rest) refl
runtime_task-numbered writes lease_id seq (lagged ∷ rs) w small =
    runtime_task-numbered writes lease_id seq rs w small
runtime_task-numbered writes lease_id seq (closed ∷ rs) w small = refl

abbrev pub is_in : StreamFrameType → Bool
is_in lsp_in = true
is_in _ = false

-- The frames that are for the runtime of this lease.
abbrev pub wanted : Text → StreamFrame Json → Bool
wanted lease_id f = f.lease_id == lease_id && is_in f.frame_type

module _ (from_str : Text → Option (StreamFrame Json)) (send : Json → Result (Unit {0}) Text)
    (lease_id : Text) where
  -- A line and the frame that it reads as.
  abbrev pub Reads : List (Text × StreamFrame Json) → Type 0
  Reads ls = All (λ x. from_str x.0 ≡ some x.1) ls

  abbrev pub lines : List (Text × StreamFrame Json) → List Inbound
  lines ls = map (λ x. line x.0) ls

  abbrev pub payloads : List (StreamFrame Json) → List Json
  payloads fs = map (λ f. f.payload) fs

  take_frame-wanted :
      (f : StreamFrame Json)
      → ((j : Json) → send j ≡ ok tt)
      → take_frame from_str send lease_id f
        ≡ (if wanted lease_id f then f.payload ∷ [] else [], ok tt)
  unfolding take_frame
  take_frame-wanted f s = ground (arith, s f.payload)

  -- While the runtime takes messages, the lines of a stream that read as frames give it exactly
  -- the payloads of this lease's frames of type LspIn, in order, and the loop goes on behind them.
  pub inbound-lines :
      (reads : List (Text × StreamFrame Json)) (rest : List Inbound)
      → ((j : Json) → send j ≡ ok tt)
      → Reads reads
      → let after = inbound from_str send lease_id rest in
        inbound from_str send lease_id (lines reads ++ rest)
        ≡ (payloads (filter (wanted lease_id) (map (λ x. x.1) reads)) ++ after.0, after.1)
  unfolding inbound filter
  inbound-lines [] rest s a = refl
  inbound-lines ((text, f) ∷ reads) rest s a =
      rw (a.0, inbound)
        (rw (take_frame-wanted f s) (ground (arith, inbound-lines reads rest s a.1)))
