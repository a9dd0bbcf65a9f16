-- ===== src/Webhook/Registry/Opened.antt =====
-- How long an open circuit stops the deliveries to its URL.
use wa_rs.Common.{ℕ, ◌≡◌, Bool, true, false, ◌&&◌, String, none, some, List, ◌==◌}
use wa_rs.Webhook.Circuit.{Circuits, find}
use wa_rs.Webhook.Delivery.{WebhookRetryConfig, Outcome, delivered, failed, untried}
use wa_rs.Webhook.Registry.{WebhookState, Delivery}
use wa_rs.Webhook.Registry.History.{Concluded, row, met}

abbrev pub is_delivered : Outcome → Bool
is_delivered delivered = true
is_delivered untried = false
is_delivered (failed _) = false

abbrev pub is_failed : Outcome → Bool
is_failed delivered = false
is_failed untried = false
is_failed (failed _) = true

-- A success, or a failure, of the URL.
abbrev pub succeeds_at : String → Concluded → Bool
succeeds_at url x = (x.delivery.url == url) && is_delivered x.outcome

abbrev pub fails_at : String → Concluded → Bool
fails_at url x = (x.delivery.url == url) && is_failed x.outcome

-- The circuit is open until `until`.
abbrev OpenUntil : ℕ → String → Circuits → Type 0
OpenUntil until url m = (now : ℕ) → (met now url m).opened_until ≡ some until

module _ (c : WebhookRetryConfig) (s : WebhookState) (fails : Bool) (d : Delivery) (t : ℕ)
    (e : String) (earlier : List Concluded) (new : find d.url s.circuits ≡ none)
    (twenty_four : row d.url earlier ≡ 24) where
  abbrev opening : Concluded
  opening = record { fails = fails; delivery = d; at = t; outcome = failed e }
