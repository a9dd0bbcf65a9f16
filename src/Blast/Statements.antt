-- ===== src/Blast/Statements.antt =====
-- The statements of db/blast.rs on the tables, each with its condition and its assignments.
use wa_rs.Common.{
  ℕ, zero, suc, Bool, true, not, ◌&&◌, ◌||◌, String, Option, none, some, List, [], ◌∷◌, ◌++◌, ◌==◌,
  leb, if◌then◌else◌, any, count, take, drop,
}
use wa_rs.Blast.Rows.{JobRow, RecipientRow, Db, set_jobs, set_recipients}

-- `send_at IS NULL OR send_at <= now`.
abbrev pub is_due : ℕ → Option ℕ → Bool
is_due now none = true
is_due now (some t) = leb t now

-- `WHERE id = ?`.
abbrev pub has_id : String → JobRow → Bool
has_id id j = j.id == id

-- An INSERT into `blast_jobs`. The primary key refuses a second row of the same id.
unfoldable pub insert_row :
    String → String → String → String → String → ℕ → ℕ → Option ℕ → ℕ → Db → Db
insert_row id session_id endpoint body options total skipped_dup send_at now d =
    if any (has_id id) d.jobs then d else record d { jobs = d.jobs ++ row ∷ [] }
  where
    row : JobRow
    row = record {
      id = id;
      session_id = session_id;
      endpoint = endpoint;
      body = body;
      options = options;
      status = "pending";
      total = total;
      sent_count = 0;
      failed_count = 0;
      dlq_count = 0;
      skipped_dup_count = skipped_dup;
      send_at = send_at;
      created_at = now;
      started_at = none;
      finished_at = none;
    }

-- `INSERT … ON CONFLICT (job_id, recipient) DO NOTHING`. A refused insert may still use up a key,
-- which nothing reads; here it does not.
unfoldable pub insert_recipient : String → String → String × String → ℕ → Db → Db
insert_recipient job_id session_id (recipient, status) now d =
    if any (λ r. (r.job_id == job_id) && (r.recipient == recipient)) d.recipients
    then d
    else record d { recipients = d.recipients ++ row ∷ []; next_id = suc d.next_id }
  where
    row : RecipientRow
    row = record {
      id = d.next_id;
      job_id = job_id;
      session_id = session_id;
      recipient = recipient;
      status = status;
      attempts = 0;
      last_error = none;
      message_id = none;
      updated_at = now;
    }

-- `chunks(n)` of a slice; `fuel` is the length of the slice, which is enough where `n` is not 0.
unfoldable pub chunks : ℕ → ℕ → List String → List (List String)
chunks zero n xs = []
chunks (suc fuel) n [] = []
chunks (suc fuel) n (x ∷ xs) = take n (x ∷ xs) ∷ chunks fuel n (drop n (x ∷ xs))

abbrev pub contains : List String → String → Bool
contains xs s = any (λ x. x == s) xs

-- The same with the session's id.
abbrev pub has_scoped_id : String → String → JobRow → Bool
has_scoped_id session_id id j = (j.session_id == session_id) && (j.id == id)

-- `WHERE job_id = ? AND recipient = ?`.
abbrev pub is_recipient : String → String → RecipientRow → Bool
is_recipient job_id recipient r = (r.job_id == job_id) && (r.recipient == recipient)

-- `status = '…'` for the rows of a job.
abbrev pub has_status : String → String → RecipientRow → Bool
has_status job_id status r = (r.job_id == job_id) && (r.status == status)

-- `COALESCE(new, old)`.
abbrev pub coalesce {ℓ} : {A : Type ℓ} → Option A → Option A → Option A
coalesce none old = old
coalesce (some a) old = some a

-- An UPDATE answers with the number of rows that its condition meets.
abbrev pub changing_jobs : (JobRow → Bool) → (JobRow → JobRow) → Db → ℕ × Db
changing_jobs p f d = (count p d.jobs, set_jobs d p f)

abbrev pub changing_recipients : (RecipientRow → Bool) → (RecipientRow → RecipientRow) → Db → ℕ × Db
changing_recipients p f d = (count p d.recipients, set_recipients d p f)

-- The statements that change the tables.
unfoldable pub claim_row : String → ℕ → Db → ℕ × Db
claim_row id now d =
    changing_jobs (λ j. (j.id == id) && (j.status == "pending"))
      (λ j. record j { status = "running"; started_at = some now }) d

unfoldable pub reset_rows : String → ℕ → Db → ℕ × Db
reset_rows job_id now d =
    changing_recipients (has_status job_id "sending")
      (λ r. record r { status = "pending"; updated_at = now }) d

unfoldable pub finish_row : String → String → ℕ → Db → ℕ × Db
finish_row id status now d =
    changing_jobs (has_id id) (λ j. record j { status = status; finished_at = some now }) d

unfoldable pub cancel_row : String → String → ℕ → Db → ℕ × Db
cancel_row session_id id now d =
    changing_jobs
      (λ j. has_scoped_id session_id id j && ((j.status == "pending") || (j.status == "running")))
      (λ j. record j { status = "cancelled"; finished_at = some now }) d

unfoldable pub requeue_rows : String → ℕ → Db → ℕ × Db
requeue_rows job_id now d =
    changing_recipients
      (λ r. (r.job_id == job_id) && ((r.status == "dlq") || (r.status == "failed")))
      (λ r. record r { status = "pending"; attempts = 0; last_error = none; updated_at = now }) d

unfoldable pub reopen_row : String → Db → ℕ × Db
reopen_row job_id d =
    changing_jobs (λ j. (j.id == job_id) && not (j.status == "running"))
      (λ j. record j { status = "pending"; finished_at = none }) d

unfoldable pub set_row :
    String
    → String
    → (RecipientRow → RecipientRow)
    → Option String
    → Option String
    → ℕ
    → Db
    → ℕ × Db
set_row job_id recipient set message_id error now d =
    changing_recipients (is_recipient job_id recipient) update d
  where
    update : RecipientRow → RecipientRow
    update r = record (set r) {
      message_id = coalesce message_id r.message_id;
      last_error = error;
      updated_at = now;
    }
