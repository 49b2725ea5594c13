-- ===== src/Cli/Answers.antt =====
-- Which line of the daemon a request takes as its answer.
use lspee.Base.{◌≡◌, ◌≢◌, refl, true, false, List, [], ◌∷◌, ◌++◌, arith, All, ok}
use lspee.Base.Eq.{◌==◌, text_eq, list_beq}
use lspee.Base.Text.{Text}
use lspee.Json.{Json}
use lspee.Protocol.{ControlEnvelope}
use lspee.Cli.Client.{Line, frame, bad_json, broken, new_request_id, has_id, next_response}
use lspee.Cli.Frames.{Process, attach_id, open_id, call_id, close_id, release_id}

abbrev pub Distinct {ℓ} : {A : Type ℓ} → List A → Type ℓ
Distinct [] = Unit
Distinct (x ∷ xs) = All (λ y. x ≢ y) xs × Distinct xs

apart : (x y : Text) → (x == y) ≡ false → x ≢ y
apart x y h e = ground (arith, text_eq.beq_iff x y)

-- The five requests of a run have five different ids, whatever the clock says at each of them.
pub request_ids-Distinct :
    (p : Process) → Distinct (attach_id p ∷ open_id p ∷ call_id p ∷ close_id p ∷ release_id p ∷ [])
unfolding new_request_id list_beq attach_id open_id call_id close_id release_id
request_ids-Distinct p = (
  (apart _ _ refl, (apart _ _ refl, (apart _ _ refl, (apart _ _ refl, tt)))),
  (
    (apart _ _ refl, (apart _ _ refl, (apart _ _ refl, tt))),
    ((apart _ _ refl, (apart _ _ refl, tt)), ((apart _ _ refl, tt), (tt, tt))),
  ),
)

-- Lines with the answers to other requests.
abbrev pub Other : Text → Line → Type 0
Other id (frame r) = has_id id r ≡ false
Other id _ = ⊥

-- Behind any number of answers to other requests, the first answer with the id is taken, and the
-- lines after it are left.
pub next_response-skips :
    (id : Text) (others rest : List Line) (r : ControlEnvelope Json)
    → All (Other id) others
    → has_id id r ≡ true
    → next_response id (others ++ (frame r ∷ rest)) ≡ (rest, ok r)
unfolding next_response
next_response-skips id [] rest r a e = rw e refl
next_response-skips id (frame o ∷ others) rest r a e =
    rw (a.0, next_response) (next_response-skips id others rest r a.1 e)
next_response-skips id (bad_json m ∷ others) rest r a e = absurd a.0
next_response-skips id (broken m ∷ others) rest r a e = absurd a.0
