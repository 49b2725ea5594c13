-- ===== src/Daemon/Ending.antt =====
-- How a connection and a daemon end: the answers of a connection, and `shutdown_all_sessions`.
use lspee.Base.{
  ℕ, ◌≤◌, ◌<◌, false, ◌≡◌, refl, Bool, true, Option, none, some, List, [], ◌∷◌, map, arith, length,
  length-append, Option-cases, Bool-cases, inl, inr, ltb, any, All, All-append,
}
use lspee.Base.Text.{Text, codes, byte_length}
use lspee.Base.Eq.{◌==◌, beq_refl, text_eq}
use lspee.Base.Map.{Map, get, get-remove, values}
use lspee.Json.{Json}
use lspee.Protocol.{
  protocol_version, max_frame_size_bytes, error_frame_too_large, error_unsupported_version,
  ControlEnvelope, ControlPayload,
}
use lspee.Registry.State.{
  SessionKey, SessionHandle, SessionRecord, LeaseRecord, SessionRegistry, key_eq, key_beq_iff,
}
use lspee.Registry.Ops.{all_handles, remove}
use lspee.Registry.Leases.{count}
use lspee.Registry.Invariant.{WellFormed}
use lspee.Registry.Invariant.Ops.{remove-WellFormed}
use lspee.Daemon.Defs.{Outside, Daemon, DispatchOutcome, error_envelope}
use lspee.Daemon.Requests.{dispatch_control_request}
use lspee.Daemon.Dispatch.{Echoes, dispatch-Echoes}
use lspee.Daemon.Connection.{
  Next, go_on, hang_up, waits, Handled, handle_json, handle_line, handle_control_connection,
  version_matches, id_of, after, settle, shutdown_each, shutdown_all_sessions,
}

-- The number of answers that a line has, by what becomes of the connection.
abbrev answers_of : Next → ℕ
answers_of go_on = 1
answers_of hang_up = 1
answers_of waits = 0

abbrev Versioned : ControlEnvelope ControlPayload → Type 0
Versioned e = e.v ≡ protocol_version

abbrev Answered : Handled → Type 0
Answered h = (length h.responses ≡ answers_of h.next) × All Versioned h.responses

settle-Answered :
    (id : Option Text) (x : Daemon × Option DispatchOutcome) → Echoes id x.1 → Answered (settle x)
settle-Answered id (d, none) h = (refl, tt)
settle-Answered id (d, some x) h = elim (Bool-cases x.shutdown_requested) [
  | inl e ↦ rw e (refl, (h.1, tt))
  | inr e ↦ rw e (refl, (h.1, tt))
]

handle_json-Answered : (o : Outside) (raw : Json) (d : Daemon) → Answered (handle_json o raw d)
unfolding handle_json
handle_json-Answered o raw d = elim (Bool-cases (version_matches raw)) [
  | inl e ↦ rw e (elim (Option-cases (o.envelope raw)) [
    | inl f ↦ rw f (refl, (refl, tt))
    | inr (req, f) ↦
        rw f (settle-Answered req.id (dispatch_control_request o req d) (dispatch-Echoes o req d))
  ])
  | inr e ↦ rw e (refl, (refl, tt))
]

handle_line-Answered : (o : Outside) (line : Text) (d : Daemon) → Answered (handle_line o line d)
unfolding handle_line
handle_line-Answered o line d = elim (Bool-cases (ltb max_frame_size_bytes (byte_length line))) [
  | inl e ↦ rw e (refl, (refl, tt))
  | inr e ↦ rw e (elim (Option-cases (o.from_str line)) [
    | inl f ↦ rw f (refl, (refl, tt))
    | inr (raw, f) ↦ rw f (handle_json-Answered o raw d)
  ])
]

abbrev pub Conversed : List (Outside × Text) → Handled → Type 0
Conversed ls h =
    (length h.responses ≤ length ls)
    × (h.next ≡ go_on → length h.responses ≡ length ls)
    × All Versioned h.responses

after-Conversed :
    (l : Outside × Text) (ls : List (Outside × Text)) (d : Daemon)
    (rs : List (ControlEnvelope ControlPayload)) (n : Next)
    → let h : Handled = record { daemon = d; responses = rs; next = n } in
      Answered h
      → Conversed ls (handle_control_connection ls d)
      → Conversed (l ∷ ls) (after (handle_control_connection ls) h)
after-Conversed l ls d rs go_on a c =
    let t = handle_control_connection ls d in
    let total = length-append rs t.responses in
    (
      omega (arith, total, a.0, c.0),
      (λ e. omega (arith, total, a.0, c.1 e)),
      All-append Versioned rs t.responses a.1 c.2,
    )
after-Conversed l ls d rs hang_up a c = (omega (arith, a.0), (λ e. absurd (cc)), a.1)
after-Conversed l ls d rs waits a c = (omega (arith, a.0), (λ e. absurd (cc)), a.1)

-- A connection answers each line at most once, and exactly once as long as it stays open, and
-- every answer has the protocol's version.
pub connection-Conversed :
    (ls : List (Outside × Text)) (d : Daemon) → Conversed ls (handle_control_connection ls d)
unfolding handle_control_connection
connection-Conversed [] d = (omega arith, λ e. refl, tt)
connection-Conversed ((o, line) ∷ ls) d =
    let h = handle_line o line d in
    after-Conversed (o, line) ls h.daemon h.responses h.next (handle_line-Answered o line d)
      (connection-Conversed ls h.daemon)

-- A line that ends the connection, and what it is answered: it is too long, or of another version.
pub data Ends (o : Outside) (line : Text) : ControlEnvelope ControlPayload → Type 0 where
  too_large :
      max_frame_size_bytes < byte_length line
      → Ends o line (
          error_envelope none error_frame_too_large
            (codes "Control frame exceeds 1 MiB maximum")
            false
            none)
  other_version :
      (raw : Json)
      → byte_length line ≤ max_frame_size_bytes
      → o.from_str line ≡ some raw
      → version_matches raw ≡ false
      → Ends o line (
          error_envelope
            (id_of raw)
            error_unsupported_version
            (codes "Unsupported protocol version")
            false
            none)

-- `shutdown_all_sessions`.
shutdown_each-WellFormed :
    (fails : ℕ → Bool) (hs : List SessionHandle) (r : SessionRegistry)
    → WellFormed r
    → WellFormed (shutdown_each fails hs r).0
unfolding shutdown_each
shutdown_each-WellFormed fails [] r v = v
shutdown_each-WellFormed fails (h ∷ hs) r v =
    shutdown_each-WellFormed fails hs (remove h.key r) (remove-WellFormed h.key r v)

get-shutdown_each-none :
    (fails : ℕ → Bool) (k : SessionKey) (hs : List SessionHandle) (r : SessionRegistry)
    → get k r.sessions ≡ none
    → get k (shutdown_each fails hs r).0.sessions ≡ none
unfolding shutdown_each remove
get-shutdown_each-none fails k [] r e = e
get-shutdown_each-none fails k (h ∷ hs) r e =
    get-shutdown_each-none fails k hs (remove h.key r)
      (ground (arith, get-remove h.key k r.sessions))

get-shutdown_each :
    (fails : ℕ → Bool) (k : SessionKey) (hs : List SessionHandle) (r : SessionRegistry)
    → any (λ h. h.key == k) hs ≡ true
    → get k (shutdown_each fails hs r).0.sessions ≡ none
unfolding shutdown_each remove any
get-shutdown_each fails k [] r e = absurd (cc)
get-shutdown_each fails k (h ∷ hs) r e = elim (Bool-cases (h.key == k)) [
  | inl f ↦
      get-shutdown_each-none fails k hs (remove h.key r)
        (ground (arith, get-remove h.key k r.sessions))
  | inr f ↦ get-shutdown_each fails k hs (remove h.key r) (ground arith)
]

listed :
    (k : SessionKey) (x : SessionRecord) (m : Map SessionKey SessionRecord)
    → get k m ≡ some x
    → x.handle.key ≡ k
    → any (λ h. h.key == k) (map (λ x. x.handle) (values m)) ≡ true
unfolding get any
listed k x [] e f = absurd (cc)
listed k x ((j, w) ∷ m) e f =
    ground (arith, key_beq_iff j k, key_beq_iff w.handle.key k, listed k x m)

no_entry : (m : Map SessionKey SessionRecord) → ((k : SessionKey) → get k m ≡ none) → m ≡ []
unfolding get
no_entry [] h = refl
no_entry ((j, w) ∷ m) h = absurd (ground (arith, h j, beq_refl j))

no_lease : (m : Map Text LeaseRecord) → ((k : SessionKey) → count k m ≡ 0) → m ≡ []
unfolding count
no_lease [] h = refl
no_lease ((id, l) ∷ m) h = absurd (ground (arith, h l.key, beq_refl l.key))

-- Shutdown_all_sessions leaves a well-formed registry without sessions and without leases.
pub shutdown_all_sessions-empty :
    (fails : ℕ → Bool) (r : SessionRegistry)
    → WellFormed r
    → ((shutdown_all_sessions fails r).0.sessions ≡ [])
      × ((shutdown_all_sessions fails r).0.leases ≡ [])
unfolding shutdown_all_sessions all_handles
shutdown_all_sessions-empty fails r v =
    let hs = map (λ x. x.handle) (values r.sessions) in
    let v' = shutdown_each-WellFormed fails hs r v in
    let gone : (k : SessionKey) → get k (shutdown_each fails hs r).0.sessions ≡ none = λ k.
      elim (Option-cases (get k r.sessions)) [
        | inl e ↦ get-shutdown_each-none fails k hs r e
        | inr (x, e) ↦ get-shutdown_each fails k hs r (listed k x r.sessions e (v.keyed k x e))
      ] in
    (
      no_entry (shutdown_each fails hs r).0.sessions gone,
      no_lease (shutdown_each fails hs r).0.leases (λ k. ground (arith, v'.counted k, gone k)),
    )
