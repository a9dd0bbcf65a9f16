-- ===== src/Webhook/Tests.antt =====
-- The rings, the attempts and the registered webhooks at concrete failures.
mod Breaker
use wa_rs.Common.{◌++◌, true, if◌then◌else◌, concat, nat_eq, ◌↔◌, some, ◌||◌, ◌==◌, any}
use wa_rs.Common.{
  ℕ, zero, suc, ◌≡◌, ◌≤◌, refl, false, String, none, List, [], ◌∷◌, arith, length, keep,
}
use wa_rs.Webhook.Circuit.{
  WebhookFailureAction, find, put, fail, webhook_record_failure, webhook_circuit_allows,
}
use wa_rs.Webhook.Ring.{
  WebhookDlqEntry, ring_of, put_ring, evict, push_ring, webhook_dlq_push, webhook_dlq_take,
  take_entry,
}
use wa_rs.Webhook.Delivery.{
  WebhookRetryConfig, Reply, Outcome, attempts, try_from, judge, webhook_retry_delay, is_final,
}
use wa_rs.Webhook.Delivery.Attempts.{Tries, attempts-Tries}
use wa_rs.Webhook.Event.{WebhookEvent, webhook_event_str, webhook_event_of, matches}
use wa_rs.Webhook.Event.Codec.{webhook_event_of-exact, matches-str}
use wa_rs.Webhook.Registry.{
  Registration, WebhookState, Delivery, get_webhooks, wants, targets, conclude, reenable_webhook,
}
use wa_rs.Webhook.Registry.Purged.{targets-disabled, here, next, reenables}
use mathlib.Core.List.{Perm}
use wa_rs.Webhook.Replay.{start_or_refuse, replay_taken, replay_webhook_dlq_entry}
use wa_rs.Webhook.Replay.Conserved.{replay_webhook_dlq_entry-Conserved}
use wa_rs.Webhook.Ring.Bounded.{newest, push_entries, of_session, ring_of-push_entries}

abbrev url : String
url = "https://example.org/hook"

abbrev entry : String → String → WebhookDlqEntry
entry id session = record {
  id = id;
  session_id = session;
  webhook_url = url;
  event = "message";
  payload = "{}";
  secret = none;
  last_error = "HTTP 500";
  attempts = 3;
  failed_at = 7;
}

abbrev failures : List WebhookDlqEntry
failures = entry "1" "a" ∷ entry "2" "b" ∷ entry "3" "a" ∷ entry "4" "a" ∷ []

run_pushes : String → List WebhookDlqEntry
unfolding webhook_dlq_push put_ring ring_of evict push_ring
run_pushes session = ring_of session (push_entries 2 failures [])

pushed_two : run_pushes "a" ≡ entry "3" "a" ∷ entry "4" "a" ∷ []
unfolding run_pushes
pushed_two = refl

ring_of-push_entries_example :
    (ring_of "a" (push_entries 2 failures []) ≡ newest 2 (keep (of_session "a") failures))
    × (length (ring_of "a" (push_entries 2 failures [])) ≤ 2)
ring_of-push_entries_example = ring_of-push_entries "a" 1 failures

-- Three attempts, all of them answered by 503 but the third.
abbrev config : WebhookRetryConfig
config = record { max_attempts = 3; retry_on_4xx = true; dlq_capacity = 100 }

abbrev recovering : ℕ → Reply
recovering n = if nat_eq n 2 then Reply.status 200 else Reply.status 503

run_attempts : (ℕ → Reply) → Outcome × List ℕ
unfolding attempts try_from judge webhook_retry_delay is_final concat
run_attempts reply = attempts config (λ code. "503") reply

recovered : run_attempts recovering ≡ (Outcome.delivered, 0 ∷ 5 ∷ 30 ∷ [])
unfolding run_attempts
recovered = refl

attempts-Tries_example : Tries 3 (attempts config (λ code. "503") recovering)
attempts-Tries_example = attempts-Tries config (λ code. "503") recovering

webhook_event_of-exact_example :
    (webhook_event_of "message" ≡ some WebhookEvent.message)
    ↔ (webhook_event_str WebhookEvent.message ≡ "message")
webhook_event_of-exact_example = webhook_event_of-exact "message" WebhookEvent.message

matches-str_example :
    matches WebhookEvent.receipt "message"
    ≡ (webhook_event_str WebhookEvent.receipt == "all")
      || ("message" == webhook_event_str WebhookEvent.receipt)
matches-str_example = matches-str WebhookEvent.receipt "message"

-- A webhook of the URL, one failure before it is disabled.
abbrev hook : Registration
hook = record {
  session_id = "a";
  webhook_id = "w";
  config = record { url = url; events = WebhookEvent.all ∷ []; secret = none; enabled = true };
}

abbrev failing : WebhookState
failing = record {
  registry = hook ∷ [];
  circuits = (url, record { failures = 99; opened_until = some 324; last_event = 98 }) ∷ [];
  rings = [];
  rows =
      record { id = "w"; url = url; enabled = true; disabled_at = none; disabled_reason = none }
      ∷ [];
}

abbrev delivery : Delivery
delivery = record {
  id = "1";
  session_id = "a";
  event = "message";
  url = url;
  secret = none;
  payload = "{}";
}

abbrev disabled : WebhookState
disabled = conclude config false delivery 1000 (Outcome.failed "HTTP 500") failing

targets-disabled_example :
    any (λ c. c.url == url) (targets "a" "message" 2000 (reenable_webhook none "w" disabled).1)
    ≡ false
unfolding webhook_record_failure find put fail
targets-disabled_example =
    targets-disabled config false delivery 1000 2000 "HTTP 500" "a" "message" failing
      (reenable_webhook none "w" disabled).1 refl (next here (reenables none "w"))

run_targets : WebhookState → ℕ
unfolding targets get_webhooks wants matches webhook_circuit_allows find
run_targets s = length (targets "a" "message" 2000 s)

reached_before : run_targets failing ≡ 1
unfolding run_targets fail put find webhook_record_failure
reached_before = refl

-- Two entries in the ring of a session whose URL the circuit holds back until second 324.
abbrev stored : WebhookState
stored = record failing { rings = ("a", entry "1" "a" ∷ entry "3" "a" ∷ []) ∷ [] }

replay_webhook_dlq_entry-Conserved_example :
    let r = replay_webhook_dlq_entry 2 100 "a" "1" stored in
    Perm (r.started ++ ring_of "a" r.state.rings) (ring_of "a" stored.rings)
unfolding ring_of
replay_webhook_dlq_entry-Conserved_example =
    replay_webhook_dlq_entry-Conserved 1 100 "a" "1" stored (omega arith) (refl, (refl, tt))

run_replay : ℕ → List WebhookDlqEntry
unfolding replay_webhook_dlq_entry replay_taken start_or_refuse webhook_dlq_take take_entry
    webhook_circuit_allows find put fail webhook_record_failure put_ring ring_of evict push_ring
    webhook_dlq_push
run_replay now = ring_of "a" (replay_webhook_dlq_entry 2 now "a" "1" stored).state.rings

held_back : run_replay 100 ≡ entry "3" "a" ∷ entry "1" "a" ∷ []
unfolding run_replay
held_back = refl

let_through : run_replay 400 ≡ entry "3" "a" ∷ []
unfolding run_replay
let_through = refl
