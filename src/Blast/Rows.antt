-- ===== src/Blast/Rows.antt =====
-- The two tables behind the feature and the statements that run on them: db/blast.rs. The SQL of
-- the three backends (Postgres, MySQL, SQLite) says the same, and each statement is one function.
-- Timestamps are whole seconds, as the stored text has them.
use wa_rs.Common.{ℕ, Bool, String, Option, List}
use wa_rs.Table.{update_where}

-- `BlastJobRow`.
pub record JobRow : Type 0 where
  pub id : String
  pub session_id : String
  pub endpoint : String
  pub body : String
  pub options : String
  pub status : String
  pub total : ℕ
  pub sent_count : ℕ
  pub failed_count : ℕ
  pub dlq_count : ℕ
  pub skipped_dup_count : ℕ
  pub send_at : Option ℕ
  pub created_at : ℕ
  pub started_at : Option ℕ
  pub finished_at : Option ℕ

-- `BlastRecipientRow`.
pub record RecipientRow : Type 0 where
  pub id : ℕ
  pub job_id : String
  pub session_id : String
  pub recipient : String
  pub status : String
  pub attempts : ℕ
  pub last_error : Option String
  pub message_id : Option String
  pub updated_at : ℕ

-- The tables, in insertion order, and the next key of `blast_recipients`.
pub record Db : Type 0 where
  pub jobs : List JobRow
  pub recipients : List RecipientRow
  pub next_id : ℕ

abbrev pub set_jobs : Db → (JobRow → Bool) → (JobRow → JobRow) → Db
set_jobs d p f = record d { jobs = update_where p f d.jobs }

abbrev pub set_recipients : Db → (RecipientRow → Bool) → (RecipientRow → RecipientRow) → Db
set_recipients d p f = record d { recipients = update_where p f d.recipients }
