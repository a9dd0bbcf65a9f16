-- ===== src/Scheduled/Status.antt =====
-- The lifecycle of a parked message and its stored text: models/schedule.rs.
use wa_rs.Common.{String, ◌==◌, if◌then◌else◌}

pub data ScheduledStatus : Type 0 where
  pending sending sent failed cancelled : ScheduledStatus

-- `ScheduledStatus::as_str`, the text of the status column.
abbrev pub scheduled_status_str : ScheduledStatus → String
scheduled_status_str ScheduledStatus.pending = "pending"
scheduled_status_str ScheduledStatus.sending = "sending"
scheduled_status_str ScheduledStatus.sent = "sent"
scheduled_status_str ScheduledStatus.failed = "failed"
scheduled_status_str ScheduledStatus.cancelled = "cancelled"

-- `ScheduledStatus::from_str`; an unknown text is read as `pending`.
unfoldable pub scheduled_status_of : String → ScheduledStatus
scheduled_status_of s =
    if s == "sending"
    then ScheduledStatus.sending
    else if s == "sent"
    then ScheduledStatus.sent
    else if s == "failed"
    then ScheduledStatus.failed
    else if s == "cancelled"
    then ScheduledStatus.cancelled
    else ScheduledStatus.pending
