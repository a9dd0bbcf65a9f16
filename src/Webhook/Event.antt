-- ===== src/Webhook/Event.antt =====
-- The events that a webhook can ask for, their text, and the filter: models/webhooks.rs.
pub mod Codec
use wa_rs.Common.{Bool, true, String, Option, none, some, List, [], ◌∷◌, ◌==◌, if◌then◌else◌}
use wa_rs.Table.{first_where}

pub data WebhookEvent : Type 0 where
  all message receipt presence chat_presence group_update joined_group qr_code pair_code connected
        disconnected logged_out account_locked picture_update user_about_update push_name_update
        contact_update device_list_update pin_update mute_update archive_update mark_chat_as_read
        undecryptable_message client_outdated offline_sync_preview offline_sync_completed
        scheduled_sent scheduled_failed blast_progress blast_completed call_log_sync stream_error
        enc_decrypt_failed :
      WebhookEvent

-- `WebhookEvent::as_str`.
abbrev pub webhook_event_str : WebhookEvent → String
webhook_event_str WebhookEvent.all = "all"
webhook_event_str WebhookEvent.message = "message"
webhook_event_str WebhookEvent.receipt = "receipt"
webhook_event_str WebhookEvent.presence = "presence"
webhook_event_str WebhookEvent.chat_presence = "chat_presence"
webhook_event_str WebhookEvent.group_update = "group_update"
webhook_event_str WebhookEvent.joined_group = "joined_group"
webhook_event_str WebhookEvent.qr_code = "qr_code"
webhook_event_str WebhookEvent.pair_code = "pair_code"
webhook_event_str WebhookEvent.connected = "connected"
webhook_event_str WebhookEvent.disconnected = "disconnected"
webhook_event_str WebhookEvent.logged_out = "logged_out"
webhook_event_str WebhookEvent.account_locked = "account_locked"
webhook_event_str WebhookEvent.picture_update = "picture_update"
webhook_event_str WebhookEvent.user_about_update = "user_about_update"
webhook_event_str WebhookEvent.push_name_update = "push_name_update"
webhook_event_str WebhookEvent.contact_update = "contact_update"
webhook_event_str WebhookEvent.device_list_update = "device_list_update"
webhook_event_str WebhookEvent.pin_update = "pin_update"
webhook_event_str WebhookEvent.mute_update = "mute_update"
webhook_event_str WebhookEvent.archive_update = "archive_update"
webhook_event_str WebhookEvent.mark_chat_as_read = "mark_chat_as_read"
webhook_event_str WebhookEvent.undecryptable_message = "undecryptable_message"
webhook_event_str WebhookEvent.client_outdated = "client_outdated"
webhook_event_str WebhookEvent.offline_sync_preview = "offline_sync_preview"
webhook_event_str WebhookEvent.offline_sync_completed = "offline_sync_completed"
webhook_event_str WebhookEvent.scheduled_sent = "scheduled_sent"
webhook_event_str WebhookEvent.scheduled_failed = "scheduled_failed"
webhook_event_str WebhookEvent.blast_progress = "blast_progress"
webhook_event_str WebhookEvent.blast_completed = "blast_completed"
webhook_event_str WebhookEvent.call_log_sync = "call_log_sync"
webhook_event_str WebhookEvent.stream_error = "stream_error"
webhook_event_str WebhookEvent.enc_decrypt_failed = "enc_decrypt_failed"

-- The arms of `from_str`.
abbrev pub event_arms : List (String × WebhookEvent)
event_arms =
    ("all", WebhookEvent.all)
    ∷ ("message", WebhookEvent.message)
    ∷ ("receipt", WebhookEvent.receipt)
    ∷ ("presence", WebhookEvent.presence)
    ∷ ("chat_presence", WebhookEvent.chat_presence)
    ∷ ("group_update", WebhookEvent.group_update)
    ∷ ("joined_group", WebhookEvent.joined_group)
    ∷ ("qr_code", WebhookEvent.qr_code)
    ∷ ("pair_code", WebhookEvent.pair_code)
    ∷ ("connected", WebhookEvent.connected)
    ∷ ("disconnected", WebhookEvent.disconnected)
    ∷ ("logged_out", WebhookEvent.logged_out)
    ∷ ("account_locked", WebhookEvent.account_locked)
    ∷ ("picture_update", WebhookEvent.picture_update)
    ∷ ("user_about_update", WebhookEvent.user_about_update)
    ∷ ("push_name_update", WebhookEvent.push_name_update)
    ∷ ("contact_update", WebhookEvent.contact_update)
    ∷ ("device_list_update", WebhookEvent.device_list_update)
    ∷ ("pin_update", WebhookEvent.pin_update)
    ∷ ("mute_update", WebhookEvent.mute_update)
    ∷ ("archive_update", WebhookEvent.archive_update)
    ∷ ("mark_chat_as_read", WebhookEvent.mark_chat_as_read)
    ∷ ("undecryptable_message", WebhookEvent.undecryptable_message)
    ∷ ("client_outdated", WebhookEvent.client_outdated)
    ∷ ("offline_sync_preview", WebhookEvent.offline_sync_preview)
    ∷ ("offline_sync_completed", WebhookEvent.offline_sync_completed)
    ∷ ("scheduled_sent", WebhookEvent.scheduled_sent)
    ∷ ("scheduled_failed", WebhookEvent.scheduled_failed)
    ∷ ("blast_progress", WebhookEvent.blast_progress)
    ∷ ("blast_completed", WebhookEvent.blast_completed)
    ∷ ("call_log_sync", WebhookEvent.call_log_sync)
    ∷ ("stream_error", WebhookEvent.stream_error)
    ∷ ("enc_decrypt_failed", WebhookEvent.enc_decrypt_failed)
    ∷ []

abbrev pub arm_for : String → List (String × WebhookEvent) → Option WebhookEvent
arm_for s [] = none
arm_for s ((name, e) ∷ arms) = let rest = arm_for s arms in if s == name then some e else rest

-- `WebhookEvent::from_str`.
unfoldable pub webhook_event_of : String → Option WebhookEvent
webhook_event_of s = arm_for s event_arms

-- `WebhookEvent::matches`.
unfoldable pub matches : WebhookEvent → String → Bool
matches WebhookEvent.all event = true
matches WebhookEvent.message event = event == "message"
matches WebhookEvent.receipt event = event == "receipt"
matches WebhookEvent.presence event = event == "presence"
matches WebhookEvent.chat_presence event = event == "chat_presence"
matches WebhookEvent.group_update event = event == "group_update"
matches WebhookEvent.joined_group event = event == "joined_group"
matches WebhookEvent.qr_code event = event == "qr_code"
matches WebhookEvent.pair_code event = event == "pair_code"
matches WebhookEvent.connected event = event == "connected"
matches WebhookEvent.disconnected event = event == "disconnected"
matches WebhookEvent.logged_out event = event == "logged_out"
matches WebhookEvent.account_locked event = event == "account_locked"
matches WebhookEvent.picture_update event = event == "picture_update"
matches WebhookEvent.user_about_update event = event == "user_about_update"
matches WebhookEvent.push_name_update event = event == "push_name_update"
matches WebhookEvent.contact_update event = event == "contact_update"
matches WebhookEvent.device_list_update event = event == "device_list_update"
matches WebhookEvent.pin_update event = event == "pin_update"
matches WebhookEvent.mute_update event = event == "mute_update"
matches WebhookEvent.archive_update event = event == "archive_update"
matches WebhookEvent.mark_chat_as_read event = event == "mark_chat_as_read"
matches WebhookEvent.undecryptable_message event = event == "undecryptable_message"
matches WebhookEvent.client_outdated event = event == "client_outdated"
matches WebhookEvent.offline_sync_preview event = event == "offline_sync_preview"
matches WebhookEvent.offline_sync_completed event = event == "offline_sync_completed"
matches WebhookEvent.scheduled_sent event = event == "scheduled_sent"
matches WebhookEvent.scheduled_failed event = event == "scheduled_failed"
matches WebhookEvent.blast_progress event = event == "blast_progress"
matches WebhookEvent.blast_completed event = event == "blast_completed"
matches WebhookEvent.call_log_sync event = event == "call_log_sync"
matches WebhookEvent.stream_error event = event == "stream_error"
matches WebhookEvent.enc_decrypt_failed event = event == "enc_decrypt_failed"
