-- ===== src/Stream/Tests.antt =====
-- The theorems on a dedicated stream at a registry with one lease.
use lspee.Base.{
  ◌-◌, ◌≡◌, refl, true, Option, none, some, List, [], ◌∷◌, ◌++◌, arith, ok, Result, filter, map, ℕ,
  if◌then◌else◌,
}
use lspee.Base.Eq.{text_eq, list_beq, ◌==◌}
use lspee.Base.Text.{Text, codes}
use lspee.Base.Map.{get}
use lspee.Json.{Json, null, number}
use lspee.Protocol.{StreamFrame, lsp_in}
use lspee.Registry.State.{key_eq, lease_id}
use lspee.Registry.Ops.{idle_candidates}
use lspee.Registry.Leases.{count, refs}
use lspee.Registry.Sample.{key_a, lease_a, leased, leased-WellFormed, get-leased_lease}
use lspee.Lsp.Defs.{LspMessage}
use lspee.Lsp.Runtime.{Received, item, lagged, closed}
use lspee.Stream.Defs.{line, runtime_task, inbound, run_stream_connection}
use lspee.Stream.Frames.{
  taken, numbered, runtime_task-numbered, lines, payloads, wanted, inbound-lines,
}
use lspee.Stream.Ending.{stream_end-leases}

abbrev message : ℕ → LspMessage
message n = record { id = some (number n); method = none; payload = number n }

abbrev received : List (Received LspMessage)
received = item (message 4) ∷ lagged ∷ item (message 5) ∷ closed ∷ item (message 6) ∷ []

runtime_task-numbered_example :
    runtime_task (λ f. true) (codes "lease_1") 1 received
    ≡ numbered (codes "lease_1") 1 (taken received)
runtime_task-numbered_example =
    runtime_task-numbered (λ f. true) (codes "lease_1") 1 received (λ f. refl) (omega arith)

abbrev own : StreamFrame Json
own = record { v = 1; frame_type = lsp_in; lease_id = codes "lease_1"; seq = 1; payload = number 8 }

abbrev foreign : StreamFrame Json
foreign = record { v = 1; frame_type = lsp_in; lease_id = codes "lease_2"; seq = 1; payload = null }

-- Two texts read as frames, one as the lease's and one as another's.
abbrev from_str : Text → Option (StreamFrame Json)
from_str s = if s == codes "o" then some own else if s == codes "f" then some foreign else none

abbrev send : Json → Result (Unit {0}) Text
send j = ok tt

abbrev reads : List (Text × StreamFrame Json)
reads = (codes "o", own) ∷ (codes "f", foreign) ∷ (codes "o", own) ∷ []

inbound-lines_example :
    let after = inbound from_str send (codes "lease_1") (line (codes "x") ∷ []) in
    inbound from_str send
      (codes "lease_1")
      (lines from_str send (codes "lease_1") reads ++ (line (codes "x") ∷ []))
    ≡ (
      payloads from_str send
            (codes "lease_1")
            (filter (wanted (codes "lease_1")) (map (λ x. x.1) reads))
          ++ after.0,
      after.1,
    )
unfolding list_beq
inbound-lines_example =
    inbound-lines from_str send (codes "lease_1") reads (line (codes "x") ∷ []) (λ j. refl)
      (refl, (refl, (refl, tt)))

stream_end-leases_example :
    let ls = lines from_str send (lease_id 1) reads in
    let clean = (run_stream_connection from_str send (lease_id 1) 9 ls leased).0 in
    let left =
      (run_stream_connection from_str send
        (lease_id 1)
        9
        (ls ++ (line (codes "x") ∷ []))
        leased).0 in
    (get (lease_id 1) clean.leases ≡ none)
    × (refs (get key_a clean.sessions) ≡ count key_a leased.leases - 1)
    × (get (lease_id 1) left.leases ≡ some lease_a)
    × ((later : ℕ) → get key_a (idle_candidates later left).0.sessions ≡ get key_a leased.sessions)
unfolding list_beq
stream_end-leases_example =
    stream_end-leases from_str send (lease_id 1) reads (λ j. refl) (refl, (refl, (refl, tt))) 9
      leased lease_a (codes "x") [] leased-WellFormed get-leased_lease refl
