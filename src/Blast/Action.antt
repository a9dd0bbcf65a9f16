-- ===== src/Blast/Action.antt =====
-- What the blast code does to the outside: sends, webhook events, pauses.
use wa_rs.Common.{ℕ, String, Option}
use wa_rs.Blast.Status.{JobStatus}

-- The counters of a webhook payload, `none` where the row could not be read.
pub record Counters : Type 0 where
  pub total : ℕ
  pub sent_count : ℕ
  pub failed_count : ℕ
  pub dlq_count : ℕ
  pub skipped_dup_count : ℕ

pub data Action : Type 0 where
  dispatched : String → String → String → Action
  blast_progress : String → String → Option Counters → Action
  blast_completed : String → String → JobStatus → Option Counters → Action
  slept : ℕ → Action
