-- ===== src/Endpoint.antt =====
-- The send endpoints that a stored body can be replayed to: `dispatch` and `validate_body` of
-- handlers/schedule.rs. The request types and the sends themselves are parameters.
pub mod Validated
mod Tests
use wa_rs.Common.{ℕ, Bool, String, List, [], ◌∷◌, ◌==◌, Result, ok, err, if◌then◌else◌, any, concat}
use wa_rs.Json.{Value}

-- `MessageResponse` of models/messages.rs, its time in Unix seconds.
pub record MessageResponse : Type 0 where
  pub message_id : String
  pub timestamp : ℕ
  pub to : String

-- The request structs of models/messages.rs behind one type, with serde's readers, and the
-- `execute_*` functions, which reach the network: the answer of the n-th act of the task.
pub record Gateway : Type 1 where
  pub Request : Type 0
  pub from_str : String → String → Result String Request
  pub from_value : String → Value → Result String Request
  pub execute : ℕ → String → Request → Result String MessageResponse

-- The arms of `dispatch`.
unfoldable pub dispatch_arms : List String
dispatch_arms =
    "text" ∷ "image" ∷ "video" ∷ "audio" ∷ "document" ∷ "sticker" ∷ "location" ∷ "contact" ∷ "poll"
    ∷ "buttons" ∷ "list" ∷ "interactive" ∷ "cta-url" ∷ "quick-reply" ∷ "newsletter-admin-invite"
    ∷ "newsletter-follower-invite" ∷ "order" ∷ "invoice" ∷ "payment-invite" ∷ "forward"
    ∷ "poll-update" ∷ "buttons-response" ∷ "list-response" ∷ "interactive-response"
    ∷ "highly-structured" ∷ "template-button-reply" ∷ "comment" ∷ "scheduled-call"
    ∷ "scheduled-call-edit" ∷ "send-payment" ∷ "request-payment" ∷ "cancel-payment"
    ∷ "decline-payment" ∷ "newsletter-forward" ∷ []

-- The arms of `validate_body`.
unfoldable pub validate_arms : List String
validate_arms =
    "text" ∷ "image" ∷ "video" ∷ "audio" ∷ "document" ∷ "sticker" ∷ "location" ∷ "contact" ∷ "poll"
    ∷ "buttons" ∷ "list" ∷ "interactive" ∷ "cta-url" ∷ "quick-reply" ∷ "newsletter-admin-invite"
    ∷ "newsletter-follower-invite" ∷ "order" ∷ "invoice" ∷ "payment-invite" ∷ "forward"
    ∷ "poll-update" ∷ "buttons-response" ∷ "list-response" ∷ "interactive-response"
    ∷ "highly-structured" ∷ "template-button-reply" ∷ "comment" ∷ "scheduled-call"
    ∷ "scheduled-call-edit" ∷ "send-payment" ∷ "request-payment" ∷ "cancel-payment"
    ∷ "decline-payment" ∷ "newsletter-forward" ∷ []

unfoldable pub has_arm : List String → String → Bool
has_arm arms endpoint = any (λ a. a == endpoint) arms

module _ (g : Gateway) where
  run_arm : ℕ → String → Result String g.Request → Result String MessageResponse
  run_arm n session_id (err e) = err (concat ("stored body no longer deserializes: " ∷ e ∷ []))
  run_arm n session_id (ok request) = g.execute n session_id request

  unfoldable pub dispatch : ℕ → String → String → String → Result String MessageResponse
  unfolding run_arm
  dispatch n session_id endpoint body =
      if has_arm dispatch_arms endpoint
      then run_arm n session_id (g.from_str endpoint body)
      else err (concat ("unknown scheduled endpoint: " ∷ endpoint ∷ []))

  check_arm : String → Result String g.Request → Result String (Unit {0})
  check_arm endpoint (ok _) = ok tt
  check_arm endpoint (err e) =
      err (concat ("body does not fit the " ∷ endpoint ∷ " request shape: " ∷ e ∷ []))

  unfoldable pub validate_body : String → Value → Result String (Unit {0})
  unfolding check_arm
  validate_body endpoint body =
      if has_arm validate_arms endpoint
      then check_arm endpoint (g.from_value endpoint body)
      else err (concat ("unknown endpoint: " ∷ endpoint ∷ []))
