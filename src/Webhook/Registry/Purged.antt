-- ===== src/Webhook/Registry/Purged.antt =====
-- A webhook URL that was disabled for its failures, and the deliveries after it.
use wa_rs.Common.{
  ℕ, ◌≡◌, refl, Bool, false, not, String, Option, none, some, [], ◌∷◌, ◌==◌, any, keep, map, arith,
}
use wa_rs.Webhook.Circuit.{WebhookFailureAction, webhook_record_failure}
use wa_rs.Webhook.Delivery.{WebhookRetryConfig, Outcome, delivered, failed, untried}
use wa_rs.Webhook.Registry.{
  WebhookConfig, Registration, Registry, WebhookState, Delivery, get_webhooks, remove_webhook,
  purge_webhook_by_url, purge_webhooks_for_session, wants, targets, react, conclude,
  reenable_webhook,
}

abbrev goes_to : String → Registration → Bool
goes_to url r = r.config.url == url

-- No webhook of the URL is registered.
abbrev Absent : String → WebhookState → Type 0
Absent url s = any (goes_to url) s.registry ≡ false

-- What the code does to the state short of a new registration.
pub data Change (s : WebhookState) : WebhookState → Type 0 where
  concludes :
      (c : WebhookRetryConfig) (fails : Bool) (d : Delivery) (now : ℕ) (o : Outcome)
      → Change s (conclude c fails d now o s)
  reenables : (fault : Option String) (id : String) → Change s (reenable_webhook fault id s).1
  removes :
      (session id : String)
      → Change s (record s { registry = (remove_webhook session id s.registry).1 })
  purges : (session : String) → Change s (purge_webhooks_for_session session s)

pub data Changes (s : WebhookState) : WebhookState → Type 0 where
  here : Changes s s
  next : {t u : WebhookState} → Changes s t → Change t u → Changes s u

any-keep : (p q : Registration → Bool) (m : Registry) → any p m ≡ false → any p (keep q m) ≡ false
any-keep p q [] h = refl
any-keep p q (r ∷ m) h = ground (arith, any-keep p q m)

purged :
    (url : String) (m : Registry) → any (goes_to url) (keep (λ r. not (goes_to url r)) m) ≡ false
purged url [] = refl
purged url (r ∷ m) = ground (arith, purged url m)

react-Absent :
    (url : String) (fails : Bool) (other e : String) (now : ℕ) (a : WebhookFailureAction)
    (s : WebhookState)
    → Absent url s
    → Absent url (react fails other e now a s)
unfolding react purge_webhook_by_url
react-Absent url fails other e now WebhookFailureAction.hard_disable s h =
    any-keep (goes_to url) _ s.registry h
react-Absent url fails other e now WebhookFailureAction.opens s h = h
react-Absent url fails other e now WebhookFailureAction.noop s h = h

Change-Absent : (url : String) (s t : WebhookState) → Change s t → Absent url s → Absent url t
unfolding conclude reenable_webhook remove_webhook purge_webhooks_for_session
Change-Absent url s t (concludes c fails d now delivered) h = h
Change-Absent url s t (concludes c fails d now untried) h = h
Change-Absent url s t (concludes c fails d now (failed e)) h =
    react-Absent url fails d.url e now (webhook_record_failure d.url now s.circuits).0
      (record s { circuits = (webhook_record_failure d.url now s.circuits).1 }) h
Change-Absent url s t (reenables none id) h = h
Change-Absent url s t (reenables (some e) id) h = h
Change-Absent url s t (removes session id) h = any-keep (goes_to url) _ s.registry h
Change-Absent url s t (purges session) h = any-keep (goes_to url) _ s.registry h

Changes-Absent : (url : String) (s t : WebhookState) → Changes s t → Absent url s → Absent url t
Changes-Absent url s v here h = h
Changes-Absent url s v (next {t} {u} r c) h = Change-Absent url t u c (Changes-Absent url s t r h)

no_target :
    (url session : String) (p : WebhookConfig → Bool) (m : Registry)
    → any (goes_to url) m ≡ false
    → any (λ c. c.url == url) (keep p (map (λ (_, c). c) (get_webhooks session m))) ≡ false
unfolding get_webhooks
no_target url session p [] h = refl
no_target url session p (r ∷ m) h = ground (arith, no_target url session p m)

-- After a failed delivery that the circuit breaker answers with the disabling of the URL, no event
-- of any session starts a delivery to it: not at once, and not after any deliveries that end, any
-- re-enabling of rows of the table, and any removals. Only a new registration brings it back.
pub targets-disabled :
    (c : WebhookRetryConfig) (fails : Bool) (d : Delivery) (now later : ℕ)
    (last_error session event : String) (s t : WebhookState)
    → (webhook_record_failure d.url now s.circuits).0 ≡ WebhookFailureAction.hard_disable
    → Changes (conclude c fails d now (failed last_error) s) t
    → any (λ config. config.url == d.url) (targets session event later t) ≡ false
unfolding targets conclude react purge_webhook_by_url
targets-disabled c fails d now later last_error session event s t hard changes =
    no_target d.url session (wants event later t.circuits) t.registry
      (Changes-Absent d.url _ t changes (rw hard (purged d.url s.registry)))
