-- ===== src/Blast/Status.antt =====
-- Lifecycles, their stored text, and the options of a job: models/blast.rs.
pub mod Codec
use wa_rs.Common.{
  ℕ, ◌+◌, ◌^◌, ◌%◌, Bool, true, false, String, Option, none, some, ◌==◌, ltb, if◌then◌else◌,
}

pub data JobStatus : Type 0 where
  pending running completed completed_with_failures cancelled failed : JobStatus

pub data RecipientStatus : Type 0 where
  pending sending sent failed dlq skipped_dup : RecipientStatus

-- `BlastJobStatus::as_str`, the text of a job's status column.
abbrev pub job_status_str : JobStatus → String
job_status_str JobStatus.pending = "pending"
job_status_str JobStatus.running = "running"
job_status_str JobStatus.completed = "completed"
job_status_str JobStatus.completed_with_failures = "completed_with_failures"
job_status_str JobStatus.cancelled = "cancelled"
job_status_str JobStatus.failed = "failed"

-- `BlastJobStatus::from_str`; an unknown text is read as `pending`.
unfoldable pub job_status_of : String → JobStatus
job_status_of s =
    if s == "running"
    then JobStatus.running
    else if s == "completed"
    then JobStatus.completed
    else if s == "completed_with_failures"
    then JobStatus.completed_with_failures
    else if s == "cancelled"
    then JobStatus.cancelled
    else if s == "failed"
    then JobStatus.failed
    else JobStatus.pending

abbrev pub is_terminal : JobStatus → Bool
is_terminal JobStatus.completed = true
is_terminal JobStatus.completed_with_failures = true
is_terminal JobStatus.cancelled = true
is_terminal JobStatus.failed = true
is_terminal _ = false

-- `BlastRecipientStatus::as_str`.
abbrev pub recipient_status_str : RecipientStatus → String
recipient_status_str RecipientStatus.pending = "pending"
recipient_status_str RecipientStatus.sending = "sending"
recipient_status_str RecipientStatus.sent = "sent"
recipient_status_str RecipientStatus.failed = "failed"
recipient_status_str RecipientStatus.dlq = "dlq"
recipient_status_str RecipientStatus.skipped_dup = "skipped_dup"

-- `BlastRecipientStatus::from_str`.
unfoldable pub recipient_status_of : String → RecipientStatus
recipient_status_of s =
    if s == "sending"
    then RecipientStatus.sending
    else if s == "sent"
    then RecipientStatus.sent
    else if s == "failed"
    then RecipientStatus.failed
    else if s == "dlq"
    then RecipientStatus.dlq
    else if s == "skipped_dup"
    then RecipientStatus.skipped_dup
    else RecipientStatus.pending

-- `BlastOptions`: pauses in milliseconds (u64), attempts (u32).
pub record BlastOptions : Type 0 where
  pub delay_ms : ℕ
  pub jitter_ms : ℕ
  pub max_attempts : ℕ
  pub dedup_across_jobs : Bool

abbrev pub default_options : BlastOptions
default_options = record {
  delay_ms = 1000;
  jitter_ms = 0;
  max_attempts = 3;
  dedup_across_jobs = false;
}
