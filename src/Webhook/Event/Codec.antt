-- ===== src/Webhook/Event/Codec.antt =====
-- The text of an event and the filter against it.
use wa_rs.Common.{
  ◌≡◌, ◌↔◌, refl, sym, Bool, true, ◌||◌, ◌&&◌, String, some, List, [], ◌∷◌, ◌==◌, eq_iff,
  Bool-cases, inl, inr, arith,
}
use wa_rs.Webhook.Event.{
  WebhookEvent, webhook_event_str, event_arms, arm_for, webhook_event_of, matches,
}

-- Every arm is the text of its event.
abbrev are_texts : List (String × WebhookEvent) → Bool
are_texts [] = true
are_texts ((name, e) ∷ arms) = (webhook_event_str e == name) && are_texts arms

arm_for-text :
    (s : String) (arms : List (String × WebhookEvent)) (e : WebhookEvent)
    → are_texts arms ≡ true
    → arm_for s arms ≡ some e
    → webhook_event_str e ≡ s
arm_for-text s [] e t h = cc
arm_for-text s ((name, d) ∷ arms) e t h = elim (Bool-cases (s == name)) [
  | inl hit ↦
      same d e name (rw hit at h) ((eq_iff (webhook_event_str d) name).0 (ground arith))
        ((eq_iff s name).0 hit)
  | inr miss ↦ arm_for-text s arms e (ground arith) (rw miss at h)
]
  where
    same :
        (d e : WebhookEvent) (name : String)
        → some d ≡ some e
        → webhook_event_str d ≡ name
        → s ≡ name
        → webhook_event_str e ≡ s
    same d e name i t q = cc

webhook_event_of-str : (e : WebhookEvent) → webhook_event_of (webhook_event_str e) ≡ some e
unfolding webhook_event_of
webhook_event_of-str WebhookEvent.all = refl
webhook_event_of-str WebhookEvent.message = refl
webhook_event_of-str WebhookEvent.receipt = refl
webhook_event_of-str WebhookEvent.presence = refl
webhook_event_of-str WebhookEvent.chat_presence = refl
webhook_event_of-str WebhookEvent.group_update = refl
webhook_event_of-str WebhookEvent.joined_group = refl
webhook_event_of-str WebhookEvent.qr_code = refl
webhook_event_of-str WebhookEvent.pair_code = refl
webhook_event_of-str WebhookEvent.connected = refl
webhook_event_of-str WebhookEvent.disconnected = refl
webhook_event_of-str WebhookEvent.logged_out = refl
webhook_event_of-str WebhookEvent.account_locked = refl
webhook_event_of-str WebhookEvent.picture_update = refl
webhook_event_of-str WebhookEvent.user_about_update = refl
webhook_event_of-str WebhookEvent.push_name_update = refl
webhook_event_of-str WebhookEvent.contact_update = refl
webhook_event_of-str WebhookEvent.device_list_update = refl
webhook_event_of-str WebhookEvent.pin_update = refl
webhook_event_of-str WebhookEvent.mute_update = refl
webhook_event_of-str WebhookEvent.archive_update = refl
webhook_event_of-str WebhookEvent.mark_chat_as_read = refl
webhook_event_of-str WebhookEvent.undecryptable_message = refl
webhook_event_of-str WebhookEvent.client_outdated = refl
webhook_event_of-str WebhookEvent.offline_sync_preview = refl
webhook_event_of-str WebhookEvent.offline_sync_completed = refl
webhook_event_of-str WebhookEvent.scheduled_sent = refl
webhook_event_of-str WebhookEvent.scheduled_failed = refl
webhook_event_of-str WebhookEvent.blast_progress = refl
webhook_event_of-str WebhookEvent.blast_completed = refl
webhook_event_of-str WebhookEvent.call_log_sync = refl
webhook_event_of-str WebhookEvent.stream_error = refl
webhook_event_of-str WebhookEvent.enc_decrypt_failed = refl

-- The text of every event is read back as that event, and no other text is read as it.
pub webhook_event_of-exact :
    (s : String) (e : WebhookEvent) → (webhook_event_of s ≡ some e) ↔ (webhook_event_str e ≡ s)
unfolding webhook_event_of
webhook_event_of-exact s e =
    (λ h. arm_for-text s event_arms e refl h, λ h. rw (sym h) (webhook_event_of-str e))

-- Every filter but `all` lets exactly the event through whose text it has.
pub matches-str :
    (e : WebhookEvent) (event : String)
    → matches e event ≡ (webhook_event_str e == "all") || (event == webhook_event_str e)
unfolding matches
matches-str WebhookEvent.all event = refl
matches-str WebhookEvent.message event = refl
matches-str WebhookEvent.receipt event = refl
matches-str WebhookEvent.presence event = refl
matches-str WebhookEvent.chat_presence event = refl
matches-str WebhookEvent.group_update event = refl
matches-str WebhookEvent.joined_group event = refl
matches-str WebhookEvent.qr_code event = refl
matches-str WebhookEvent.pair_code event = refl
matches-str WebhookEvent.connected event = refl
matches-str WebhookEvent.disconnected event = refl
matches-str WebhookEvent.logged_out event = refl
matches-str WebhookEvent.account_locked event = refl
matches-str WebhookEvent.picture_update event = refl
matches-str WebhookEvent.user_about_update event = refl
matches-str WebhookEvent.push_name_update event = refl
matches-str WebhookEvent.contact_update event = refl
matches-str WebhookEvent.device_list_update event = refl
matches-str WebhookEvent.pin_update event = refl
matches-str WebhookEvent.mute_update event = refl
matches-str WebhookEvent.archive_update event = refl
matches-str WebhookEvent.mark_chat_as_read event = refl
matches-str WebhookEvent.undecryptable_message event = refl
matches-str WebhookEvent.client_outdated event = refl
matches-str WebhookEvent.offline_sync_preview event = refl
matches-str WebhookEvent.offline_sync_completed event = refl
matches-str WebhookEvent.scheduled_sent event = refl
matches-str WebhookEvent.scheduled_failed event = refl
matches-str WebhookEvent.blast_progress event = refl
matches-str WebhookEvent.blast_completed event = refl
matches-str WebhookEvent.call_log_sync event = refl
matches-str WebhookEvent.stream_error event = refl
matches-str WebhookEvent.enc_decrypt_failed event = refl
