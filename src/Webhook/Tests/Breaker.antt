-- ===== src/Webhook/Tests/Breaker.antt =====
-- The circuit breaker at concrete deliveries.
use wa_rs.Common.{ℕ, zero, suc, ◌≡◌, refl, false, List, [], ◌∷◌}
use wa_rs.Webhook.Circuit.{WebhookFailureAction, find, put, fail, webhook_record_failure}
use wa_rs.Webhook.Delivery.{Outcome}
use wa_rs.Webhook.Registry.{WebhookState, conclude, react, purge_webhook_by_url}
use wa_rs.Webhook.Registry.History.{Concluded, after}
use wa_rs.Webhook.Tests.{url, config, delivery, failing}

abbrev fresh : WebhookState
fresh = record failing { circuits = [] }

abbrev failed_at : ℕ → Concluded
failed_at t = record {
  fails = false;
  delivery = delivery;
  at = t;
  outcome = Outcome.failed "HTTP 500";
}

-- One failure a second, the newest first.
abbrev failures : ℕ → List Concluded
failures zero = []
failures (suc n) = failed_at n ∷ failures n

run_failure : ℕ → WebhookFailureAction
unfolding conclude react purge_webhook_by_url webhook_record_failure find put fail
run_failure n = (webhook_record_failure url n (after config (failures n) fresh).circuits).0

third_failure : run_failure 2 ≡ WebhookFailureAction.noop
unfolding run_failure
third_failure = refl

twenty_fifth_failure : run_failure 24 ≡ WebhookFailureAction.opens
unfolding run_failure
twenty_fifth_failure = refl

hundredth_failure : run_failure 99 ≡ WebhookFailureAction.hard_disable
unfolding run_failure
hundredth_failure = refl

failure_after_disabling : run_failure 100 ≡ WebhookFailureAction.noop
unfolding run_failure
failure_after_disabling = refl
