-- ===== src/Webhook/Delivery.antt =====
-- The delivery of one webhook: `deliver_webhook` of state.rs, its retries and their delays.
pub mod Attempts
use wa_rs.Common.{
  ℕ, zero, suc, ◌+◌, ◌-◌, ◌*◌, ◌^◌, ◌%◌, Bool, true, false, not, ◌&&◌, String, Option, none, some,
  List, [], ◌∷◌, ◌==◌, leb, ltb, nat_eq, if◌then◌else◌, min, max, concat,
}
use wa_rs.Webhook.Circuit.{
  Circuits, WebhookFailureAction, webhook_record_success, webhook_record_failure,
}
use wa_rs.Webhook.Ring.{Rings, WebhookDlqEntry, webhook_dlq_push}

-- `WebhookRetryConfig`.
pub record WebhookRetryConfig : Type 0 where
  pub max_attempts : ℕ
  pub retry_on_4xx : Bool
  pub dlq_capacity : ℕ

-- A product of 64 bits that stops at the greatest number.
abbrev saturating : ℕ → ℕ
saturating n = min n (2 ^ 64 - 1)

-- Seconds before an attempt; `as u32` keeps the low 32 bits.
unfoldable pub webhook_retry_delay : ℕ → ℕ
webhook_retry_delay attempt =
    if nat_eq attempt 0
    then 0
    else if nat_eq attempt 1
    then 5
    else if nat_eq attempt 2
    then 30
    else min (saturating (60 * saturating (2 ^ ((attempt - 3) % 2 ^ 32)))) 300

-- What comes back from a POST: a status, or a transport error.
pub data Reply : Type 0 where
  status : ℕ → Reply
  failure : String → Reply

-- `is_success` and `is_client_error`.
abbrev pub is_success : ℕ → Bool
is_success code = leb 200 code && ltb code 300

abbrev pub is_client_error : ℕ → Bool
is_client_error code = leb 400 code && ltb code 500

-- A rejection that is not tried again.
unfoldable pub is_final : WebhookRetryConfig → ℕ → Bool
is_final c code =
    not c.retry_on_4xx && is_client_error code && not (nat_eq code 408) && not (nat_eq code 429)

-- How the loop over the attempts ends: `untried` is its end with no error recorded.
pub data Outcome : Type 0 where
  delivered : Outcome
  failed : String → Outcome
  untried : Outcome

-- What an answer means for the loop.
pub data Verdict : Type 0 where
  stop : Outcome → Verdict
  again : String → Verdict

-- A pause before what follows it.
abbrev pub after : ℕ → Outcome × List ℕ → Outcome × List ℕ
after delay (o, delays) = (o, delay ∷ delays)

-- `show` prints a status, `reply` is the answer to an attempt.
module _ (c : WebhookRetryConfig) (show : ℕ → String) (reply : ℕ → Reply) where
  unfoldable pub judge : Reply → Verdict
  judge (status code) =
      if is_success code
      then stop delivered
      else if is_final c code
      then stop (failed (concat ("HTTP " ∷ show code ∷ [])))
      else again (concat ("HTTP " ∷ show code ∷ []))
  judge (failure e) = again e

  -- The rest of the loop: `left` attempts from `attempt` on, after the error `last`; with the
  -- delay before each attempt that is made.
  unfoldable pub try_from : ℕ → ℕ → Outcome → Outcome × List ℕ
  unfolding judge
  try_from zero attempt last = (last, [])
  try_from (suc left) attempt last = elim (judge (reply attempt)) [
    | stop o ↦ (o, webhook_retry_delay attempt ∷ [])
    | again e ↦ after (webhook_retry_delay attempt) (try_from left (suc attempt) (failed e))
  ]

  unfoldable pub attempts : Outcome × List ℕ
  unfolding try_from
  attempts = try_from (max c.max_attempts 1) 0 untried
