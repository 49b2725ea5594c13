-- ===== src/Lsp/Runtime.antt =====
-- The methods of `LspRuntime`. What a receiver gets is the list of what its channel answers; the
-- operating system's answers about the child process are the record `ChildProcess`.
use lspee.Base.{
  ◌*◌, ◌%◌, ◌^◌, ◌≡◌, ◌≢◌, refl, ap, ◌∙◌, map, Option-cases, inl, inr, ℕ, Bool, true, false, Option,
  none, some, List, [], ◌∷◌, ◌++◌, All, if◌then◌else◌, Result, ok, err,
}
use lspee.Base.Eq.{◌==◌, beq_refl, beq_ne}
use lspee.Base.Text.{Text, codes, trim}
use lspee.Base.Decimal.{parse}
use lspee.Json.{Json, null, string, object, field, end, get, json_eq}
use lspee.Lsp.Defs.{LspMessage, from_json}

-- What `broadcast::Receiver::recv` answers.
pub data Received (A : Type 0) : Type 0 where
  item : A → Received A
  lagged : Received A
  closed : Received A

abbrev pub channel_closed : Text
channel_closed = codes "lsp response channel closed while waiting for call response"

abbrev pub has_id : Json → LspMessage → Bool
has_id expected m = elim m.id [ none ↦ false | some id ↦ id == expected ]

-- The loop of `call`; `none` is a call that still waits. A lag is an error here, too.
unfoldable pub await : Json → List (Received LspMessage) → Option (Result Json Text)
await expected [] = none
await expected (item m ∷ rs) =
    let rest = await expected rs in if has_id expected m then some (ok m.payload) else rest
await expected (lagged ∷ rs) = some (err channel_closed)
await expected (closed ∷ rs) = some (err channel_closed)

-- `send` is what the queue of the writer answers.
unfoldable pub call :
    (Json → Result (Unit {0}) Text) → Json → List (Received LspMessage) → Option (Result Json Text)
unfolding get await
call send request rs = elim (get (codes "id") request) [
  | none ↦ some (err (codes "request message must include id"))
  | some expected ↦ elim (send request) [ err e ↦ some (err e) | ok u ↦ await expected rs ]
]

-- `exited` is `wait` within two seconds, `none` if the time is over; `try_wait` says whether the
-- process has exited; `ps` is the exit status and the output of `ps`.
pub record ChildProcess : Type 0 where
  pub pid : Option ℕ
  pub exited : Option (Result (Unit {0}) Text)
  pub try_wait : Result Bool Text
  pub kill : Result (Unit {0}) Text
  pub ps : ℕ → Result (Bool × Text) Text

-- `kb * 1024` wraps around, as in a release build.
unfoldable pub rss_bytes : ChildProcess → Result (Option ℕ) Text
unfolding trim parse
rss_bytes child = elim child.pid [
  | none ↦ ok none
  | some pid ↦ elim (child.ps pid) [
    | err e ↦ err (codes "failed to sample lsp process memory via ps")
    | ok (success, stdout) ↦
        if success
        then (elim (parse (trim stdout)) [
          | none ↦ ok none
          | some kb ↦ ok (some (kb * 1024 % 2 ^ 64))
        ])
        else ok none
  ]
]

abbrev pub shutdown_message : Json
shutdown_message = object (
    field (codes "jsonrpc") (string (codes "2.0")) (
      field (codes "id") (string (codes "lspee-shutdown"))
        (field (codes "method") (string (codes "shutdown")) (field (codes "params") null end))))

abbrev pub exit_message : Json
exit_message = object (
    field (codes "jsonrpc") (string (codes "2.0"))
      (field (codes "method") (string (codes "exit")) (field (codes "params") null end)))

abbrev killed : Text → Result (Unit {0}) Text → Result (Unit {0}) Text
killed context (ok u) = ok tt
killed context (err e) = err context

-- The messages that `shutdown` queues, an error of the queue being ignored, and its result.
unfoldable pub shutdown : ChildProcess → List Json × Result (Unit {0}) Text
shutdown child = (
  shutdown_message ∷ exit_message ∷ [],
  elim child.exited [
    | some (ok u) ↦ ok tt
    | some (err e) ↦ err (codes "failed waiting for lsp child process to exit")
    | none ↦ killed (codes "failed to kill lsp child after graceful shutdown timeout") child.kill
  ],
)

unfoldable pub force_stop : ChildProcess → Result (Unit {0}) Text
force_stop child = elim child.try_wait [
  | err e ↦ err (codes "failed to query lsp child state")
  | ok already_exited ↦
      if already_exited then ok tt else killed (codes "failed to kill lsp child process") child.kill
]

-- What the reader publishes of a payload, as a receiver gets it.
abbrev pub arrived : Json → Received LspMessage
arrived j = item (from_json j)

abbrev pub HasOtherId : Json → Json → Type 0
HasOtherId id j = get (codes "id") j ≢ some id

has_id-own : (id j : Json) → get (codes "id") j ≡ some id → has_id id (from_json j) ≡ true
unfolding from_json
has_id-own id j e = rw e (beq_refl id)

has_id-other : (id j : Json) → HasOtherId id j → has_id id (from_json j) ≡ false
unfolding from_json
has_id-other id j ne = elim (Option-cases (get (codes "id") j)) [
  | inl e ↦ rw e refl
  | inr (other, e) ↦ rw e (beq_ne other id (λ same. ne (e ∙ ap (λ x. some x) same)))
]

await-first :
    (id : Json) (others : List Json) (rest : List (Received LspMessage)) (j : Json)
    → All (HasOtherId id) others
    → get (codes "id") j ≡ some id
    → await id (map arrived others ++ (arrived j ∷ rest)) ≡ some (ok j)
unfolding await from_json
await-first id [] rest j a e = rw (has_id-own id j e, await) refl
await-first id (o ∷ others) rest j a e =
    rw (has_id-other id o a.0, await) (await-first id others rest j a.1 e)

-- A call that is queued answers, of the payloads that arrive before its receiver lags or is
-- closed, the first whose field id equals that of its request, whether it is the server's response
-- or, with a method, a request of the server.
pub call-first :
    (send : Json → Result (Unit {0}) Text) (request id : Json) (others : List Json)
    (rest : List (Received LspMessage)) (j : Json)
    → get (codes "id") request ≡ some id
    → send request ≡ ok tt
    → All (HasOtherId id) others
    → get (codes "id") j ≡ some id
    → call send request (map arrived others ++ (arrived j ∷ rest)) ≡ some (ok j)
unfolding call
call-first send request id others rest j has sent a e =
    rw (has, call) (rw (sent, call) (await-first id others rest j a e))
