-- ===== src/Stream/Defs.antt =====
-- The tasks of stream.rs. What a task receives is the list of what its channel answers; where the
-- list ends the task is aborted while it waits.
use lspee.Base.{
  ℕ, ◌+◌, ◌-◌, ◌^◌, Bool, Option, none, some, List, [], ◌∷◌, ◌++◌, if◌then◌else◌, ltb, not, Result,
  ok, err,
}
use lspee.Base.Eq.{◌==◌, text_eq}
use lspee.Base.Text.{Text, codes}
use lspee.Json.{Json}
use lspee.Protocol.{
  protocol_version, lsp_in, lsp_out, stream_error, StreamFrame, StreamErrorPayload,
}
use lspee.Registry.State.{SessionRegistry}
use lspee.Registry.Ops.{release_by_lease_id}
use lspee.Lsp.Defs.{LspMessage}
use lspee.Lsp.Runtime.{Received, item, lagged, closed}

-- `u64::saturating_add(1)`
abbrev pub next_seq : ℕ → ℕ
next_seq seq = if ltb (seq + 1) (2 ^ 64) then seq + 1 else 2 ^ 64 - 1

abbrev pub out_frame : Text → ℕ → LspMessage → StreamFrame Json
out_frame lease_id seq message = record {
  v = protocol_version;
  frame_type = lsp_out;
  lease_id = lease_id;
  seq = seq;
  payload = message.payload;
}

-- The frames that the runtime task sends, from a number on; `writes` says of a frame whether the
-- writer's queue still takes it, and the task ends when it does not.
unfoldable pub runtime_task :
    (StreamFrame Json → Bool) → Text → ℕ → List (Received LspMessage) → List (StreamFrame Json)
runtime_task writes lease_id seq [] = []
runtime_task writes lease_id seq (item message ∷ rs) =
    let rest = runtime_task writes lease_id (next_seq seq) rs in
    let frame = out_frame lease_id seq message in if writes frame then frame ∷ rest else []
runtime_task writes lease_id seq (lagged ∷ rs) = runtime_task writes lease_id seq rs
runtime_task writes lease_id seq (closed ∷ rs) = []

-- The one frame that the event task sends.
unfoldable pub event_task :
    Text → List (Received StreamErrorPayload) → Option (StreamFrame StreamErrorPayload)
event_task lease_id [] = none
event_task lease_id (item payload ∷ rs) = some (record {
  v = protocol_version;
  frame_type = stream_error;
  lease_id = lease_id;
  seq = 1;
  payload = payload;
})
event_task lease_id (lagged ∷ rs) = event_task lease_id rs
event_task lease_id (closed ∷ rs) = none

-- What `next_line` answers before the end of the stream.
pub data Inbound : Type 0 where
  line : Text → Inbound
  broken : Text → Inbound

module _ (from_str : Text → Option (StreamFrame Json)) (send : Json → Result (Unit {0}) Text)
    (lease_id : Text) where
  -- The effect of a frame: what is given to the runtime, and whether the loop goes on.
  unfoldable pub take_frame : StreamFrame Json → List Json × Result (Unit {0}) Text
  take_frame f = if not (f.lease_id == lease_id) then ([], ok tt) else elim f.frame_type [
    | lsp_in ↦ (f.payload ∷ [], send f.payload)
    | lsp_out ↦ ([], ok tt)
    | stream_error ↦ ([], ok tt)
  ]

  -- The loop over the lines: the messages given to the runtime, and how the loop ends.
  unfoldable pub inbound : List Inbound → List Json × Result (Unit {0}) Text
  unfolding take_frame
  inbound [] = ([], ok tt)
  inbound (broken e ∷ ls) = ([], err e)
  inbound (line text ∷ ls) =
      let rest = inbound ls in
      elim (from_str text) [
        | none ↦ ([], err (codes "failed to decode inbound dedicated stream frame"))
        | some f ↦
            let (sent, going) = take_frame f in
            elim going [ err e ↦ (sent, err e) | ok u ↦ (sent ++ rest.0, rest.1) ]
      ]

  -- The connection; on an error the `?` returns before the lease is released.
  unfoldable pub run_stream_connection :
      ℕ → List Inbound → SessionRegistry → SessionRegistry × Result (Unit {0}) Text
  unfolding inbound release_by_lease_id
  run_stream_connection now ls r = elim (inbound ls).1 [
    | err e ↦ (r, err e)
    | ok u ↦ ((release_by_lease_id now lease_id r).0, ok tt)
  ]

  -- The task of an endpoint: `accepted` are the lines of the first connection. Its error is logged.
  unfoldable pub endpoint_task : ℕ → Result (List Inbound) Text → SessionRegistry → SessionRegistry
  unfolding run_stream_connection
  endpoint_task now accepted r = elim accepted [
    | err e ↦ r
    | ok ls ↦ (run_stream_connection now ls r).0
  ]

-- The path of a lease's socket.
abbrev pub stream_endpoint : (Text → Text → Text) → Text → Text → Text
stream_endpoint join project_root lease_id =
    join (join (join project_root (codes ".lspee")) (codes "streams")) (lease_id ++ codes ".sock")

-- `create_dir_all` and `bind` are what the file system answers, an error being the one that the
-- source's context names.
unfoldable pub spawn_dedicated_stream_endpoint :
    (Text → Text → Text)
    → Result (Unit {0}) Text
    → (Text → Result (Unit {0}) Text)
    → Text
    → Text
    → Result Text Text
spawn_dedicated_stream_endpoint join created bind project_root lease_id = elim created [
  | err e ↦ err (codes "failed to create stream socket directory")
  | ok u ↦
      let endpoint = stream_endpoint join project_root lease_id in
      elim (bind endpoint) [
        | err e ↦ err (codes "failed to bind dedicated stream socket " ++ endpoint)
        | ok u' ↦ ok endpoint
      ]
]
