-- ===== src/Cli/Lifecycle.antt =====
-- The frames that one run of `lspee do` writes, and their order.
use lspee.Base.{◌≡◌, refl, List, [], ◌∷◌, Result, ok, err}
use lspee.Base.Text.{Text}
use lspee.Json.{Json}
use lspee.Protocol.{ControlEnvelope}
use lspee.Cli.Client.{Link}
use lspee.Cli.Frames.{Process, open_frame, call_frame, close_frame, release_frame}
use lspee.Cli.Run.{and_then}

-- The frames of a lease: the call and the release, around them the notifications that open and
-- close the document, which is closed only if it was opened.
pub data Session (p : Process) (lease_id : Text) (request : Json)
    : List (ControlEnvelope Json) → Type 0 where
  bare : Session p lease_id request (call_frame p lease_id request ∷ release_frame p lease_id ∷ [])
  refused :
      (uri language text : Text)
      → Session p lease_id request (
          open_frame p lease_id uri language text
          ∷ call_frame p lease_id request
          ∷ release_frame p lease_id
          ∷ [])
  opened :
      (uri language text : Text)
      → Session p lease_id request (
          open_frame p lease_id uri language text
          ∷ call_frame p lease_id request
          ∷ close_frame p lease_id uri
          ∷ release_frame p lease_id
          ∷ [])

module _ {S A B : Type 0} where
  -- What `?` leaves of the connection.
  pub and_then-link {κ} :
      (P : Link S → Type κ) (x : Link S × Result A Text) (k : A → Link S → Link S × Result B Text)
      → ((e : Text) → x.1 ≡ err e → P x.0)
      → ((a : A) → x.1 ≡ ok a → P (k a x.0).0)
      → P (and_then x k).0
  unfolding and_then
  and_then-link P (link, ok a) k failed done = done a refl
  and_then-link P (link, err e) k failed done = failed e refl
