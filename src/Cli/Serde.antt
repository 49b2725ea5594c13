-- ===== src/Cli/Serde.antt =====
-- Encoders and decoders of requests for the tests: a request as an array of its fields.
use lspee.Base.{ℕ, ◌≡◌, refl, true, false, Option, none, some, List, [], ◌∷◌, ap}
use lspee.Base.Text.{Text, codes}
use lspee.Json.{Json, null, number, bool, string, array, object, Items, nil, cons, field, end}
use lspee.Protocol.{
  Attach, AttachCapabilities, ClientKind, editor, agent, human, ci, other, StreamMode, dedicated,
  mux_control, Release, ReleaseReason, client_exit, client_disconnect, shutdown, error,
  ControlPayload, attach_ok,
}

abbrev pub text_json : Option Text → Json
text_json none = null
text_json (some s) = string s

abbrev pub text_of : Json → Option Text
text_of (string s) = some s
text_of _ = none

abbrev pub number_json : Option ℕ → Json
number_json none = null
number_json (some n) = number n

abbrev pub number_of : Json → Option ℕ
number_of (number n) = some n
number_of _ = none

abbrev pub kind_json : Option ClientKind → Json
kind_json none = null
kind_json (some editor) = bool true
kind_json (some agent) = bool false
kind_json (some human) = string []
kind_json (some ci) = array nil
kind_json (some other) = object end

abbrev pub kind_of : Json → Option ClientKind
kind_of (bool true) = some editor
kind_of (bool false) = some agent
kind_of (string []) = some human
kind_of (array nil) = some ci
kind_of (object end) = some other
kind_of _ = none

abbrev pub modes_json : List StreamMode → Items
modes_json [] = nil
modes_json (dedicated ∷ ms) = cons (bool true) (modes_json ms)
modes_json (mux_control ∷ ms) = cons (bool false) (modes_json ms)

abbrev pub modes_of : Items → List StreamMode
modes_of nil = []
modes_of (cons (bool true) js) = dedicated ∷ modes_of js
modes_of (cons _ js) = mux_control ∷ modes_of js

abbrev pub capabilities_json : Option AttachCapabilities → Json
capabilities_json none = null
capabilities_json (some c) = array (modes_json c.stream_mode)

abbrev pub capabilities_of : Json → Option AttachCapabilities
capabilities_of (array js) = some (record { stream_mode = modes_of js })
capabilities_of _ = none

abbrev pub attach_json : Attach → Json
attach_json a = array (
    cons (string a.session_key.project_root) (
      cons (string a.session_key.config_hash) (
        cons (string a.session_key.lsp_id) (
          cons (string a.client_meta.client_name) (
            cons (string a.client_meta.client_version) (
              cons (kind_json a.client_meta.client_kind) (
                cons (number_json a.client_meta.pid) (
                  cons (text_json a.client_meta.cwd)
                    (cons (capabilities_json a.capabilities) nil)))))))))

abbrev pub attach_of : Json → Option Attach
attach_of
      (array (
        cons (string r) (
          cons (string h) (
            cons
              (string l)
              (cons (string n) (cons (string v) (cons k (cons p (cons c (cons m nil)))))))))) =
    some (record {
      session_key = record { project_root = r; config_hash = h; lsp_id = l };
      client_meta = record {
        client_name = n;
        client_version = v;
        client_kind = kind_of k;
        pid = number_of p;
        cwd = text_of c;
      };
      capabilities = capabilities_of m;
    })
attach_of _ = none

abbrev pub reason_json : Option ReleaseReason → Json
reason_json none = null
reason_json (some client_exit) = bool true
reason_json (some client_disconnect) = bool false
reason_json (some shutdown) = array nil
reason_json (some error) = object end

abbrev pub reason_of : Json → Option ReleaseReason
reason_of (bool true) = some client_exit
reason_of (bool false) = some client_disconnect
reason_of (array nil) = some shutdown
reason_of (object end) = some error
reason_of _ = none

abbrev pub release_json : Release → Json
release_json x = array (cons (string x.lease_id) (cons (reason_json x.reason) nil))

abbrev pub release_of : Json → Option Release
release_of (array (cons (string l) (cons r nil))) =
    some (record { lease_id = l; reason = reason_of r })
release_of _ = none

-- The bodies of answers: of `AttachOk` the lease's id, of the others nothing.
abbrev pub payload_json : ControlPayload → Json
payload_json (attach_ok a) = object (field (codes "lease_id") (string a.lease_id) end)
payload_json _ = null

kind_read : (k : Option ClientKind) → kind_of (kind_json k) ≡ k
kind_read none = refl
kind_read (some editor) = refl
kind_read (some agent) = refl
kind_read (some human) = refl
kind_read (some ci) = refl
kind_read (some other) = refl

reason_read : (k : Option ReleaseReason) → reason_of (reason_json k) ≡ k
reason_read none = refl
reason_read (some client_exit) = refl
reason_read (some client_disconnect) = refl
reason_read (some shutdown) = refl
reason_read (some error) = refl

text_read : (s : Option Text) → text_of (text_json s) ≡ s
text_read none = refl
text_read (some s) = refl

number_read : (s : Option ℕ) → number_of (number_json s) ≡ s
number_read none = refl
number_read (some s) = refl

modes_read : (ms : List StreamMode) → modes_of (modes_json ms) ≡ ms
modes_read [] = refl
modes_read (dedicated ∷ ms) = ap (λ xs. dedicated ∷ xs) (modes_read ms)
modes_read (mux_control ∷ ms) = ap (λ xs. mux_control ∷ xs) (modes_read ms)

capabilities_read : (c : Option AttachCapabilities) → capabilities_of (capabilities_json c) ≡ c
capabilities_read none = refl
capabilities_read (some c) =
    ap (λ ms. some (record { stream_mode = ms })) (modes_read c.stream_mode)

pub attach_read : (a : Attach) → attach_of (attach_json a) ≡ some a
attach_read a =
    rw
      (
        kind_read a.client_meta.client_kind,
        number_read a.client_meta.pid,
        text_read a.client_meta.cwd,
        capabilities_read a.capabilities,
      )
      refl

pub release_read : (x : Release) → release_of (release_json x) ≡ some x
release_read x = rw (reason_read x.reason) refl
