-- ===== src/Scheduled/Lifecycle.antt =====
-- The documented lifecycle of a parked message, and the table seen as its state.
pub mod Rows
pub mod Refines
pub mod Stuck
use wa_rs.Common.{String, Option, none, some}
use wa_rs.Table.{first_where}
use wa_rs.Scheduled.Status.{ScheduledStatus, scheduled_status_of}
use wa_rs.Scheduled.Store.{Table, ScheduledRow, has_id}

-- The lifecycle in the words of models/schedule.rs, `none` before the message is parked.
pub data Moves (s : Option ScheduledStatus) : Option ScheduledStatus → Type 0 where
  stays : Moves s s
  is_parked : Moves s none → Moves s (some ScheduledStatus.pending)
  is_claimed : Moves s (some ScheduledStatus.pending) → Moves s (some ScheduledStatus.sending)
  is_delivered : Moves s (some ScheduledStatus.sending) → Moves s (some ScheduledStatus.sent)
  is_failed : Moves s (some ScheduledStatus.sending) → Moves s (some ScheduledStatus.failed)
  is_revoked : Moves s (some ScheduledStatus.pending) → Moves s (some ScheduledStatus.cancelled)

-- The status of a row that may be there.
abbrev pub status_of : Option ScheduledRow → Option ScheduledStatus
status_of none = none
status_of (some r) = some (scheduled_status_of r.status)

-- The abstract state of a message in the table.
abbrev pub view : String → Table → Option ScheduledStatus
view id t = status_of (first_where (has_id id) t)
