-- ===== src/Webhook/Replay.antt =====
-- The replay of a dead-lettered delivery: handlers/webhooks.rs.
pub mod Conserved
use wa_rs.Common.{
  ℕ, Bool, true, false, String, Option, none, some, List, [], ◌∷◌, Result, ok, err, concat,
}
use wa_rs.ApiError.{ApiError, webhook_not_found, bad_request}
use wa_rs.Webhook.Circuit.{webhook_circuit_allows}
use wa_rs.Webhook.Ring.{Rings, WebhookDlqEntry, webhook_dlq_push, webhook_dlq_take}
use wa_rs.Webhook.Registry.{WebhookState}

-- What a request answers, the entries whose deliveries it starts, and the state it leaves.
pub record Replayed : Type 0 where
  pub answer : Result ApiError String
  pub started : List WebhookDlqEntry
  pub state : WebhookState

abbrev pub replay_skipped : String → ApiError
replay_skipped url =
    bad_request
      (concat ("webhook circuit is OPEN for " ∷ url ∷ " — replay skipped, try again later" ∷ []))

-- With the answer of `webhook_circuit_allows`, once the entry is taken out.
unfoldable pub start_or_refuse : ℕ → Bool → WebhookDlqEntry → WebhookState → Replayed
start_or_refuse capacity true e s = record {
  answer = ok "Webhook DLQ entry replay scheduled";
  started = e ∷ [];
  state = s;
}
start_or_refuse capacity false e s = record {
  answer = err (replay_skipped e.webhook_url);
  started = [];
  state = record s { rings = webhook_dlq_push capacity e s.rings };
}

unfoldable pub replay_taken :
    ℕ → ℕ → String → WebhookState → Option WebhookDlqEntry × Rings → Replayed
replay_taken capacity now entry_id s (none, rings) = record {
  answer = err (webhook_not_found entry_id);
  started = [];
  state = record s { rings = rings };
}
replay_taken capacity now entry_id s (some e, rings) =
    start_or_refuse capacity (webhook_circuit_allows e.webhook_url now s.circuits) e
      (record s { rings = rings })

-- The handler, at the time `now`. Taking the entry out and putting it back are one step here; the
-- source locks the rings for each of the two.
unfoldable pub replay_webhook_dlq_entry : ℕ → ℕ → String → String → WebhookState → Replayed
replay_webhook_dlq_entry capacity now session_id entry_id s =
    replay_taken capacity now entry_id s (webhook_dlq_take session_id entry_id s.rings)
