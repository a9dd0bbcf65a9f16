-- ===== src/Blast/Manage.antt =====
-- The management endpoints of handlers/blast.rs: detail, listing, cancel, retry.
use wa_rs.Common.{
  ℕ, Bool, true, false, String, Option, none, some, List, [], ◌∷◌, ◌==◌, ok_or, ℤ, pos, clamp,
  at_least_zero, nat_eq, if◌then◌else◌, map, length, concat,
}
use wa_rs.ApiError.{ApiError, message_not_found, bad_request}
use wa_rs.Effect.{Env, Task, ◌>>=◌, ◌>>◌, done, throw, lift, mapping}
use wa_rs.Blast.Status.{
  BlastOptions, default_options, JobStatus, RecipientStatus, job_status_str, job_status_of,
  is_terminal, recipient_status_of,
}
use wa_rs.Blast.Rows.{Db, JobRow, RecipientRow}
use wa_rs.Blast.Action.{Action}
use wa_rs.Blast.Create.{internal_db}
use wa_rs.Blast.Store.{
  get_job_scoped, cancel_job, requeue_failed, reopen_job, list_jobs, list_recipients,
}

-- `BlastJob`; the timestamps stay seconds.
pub record BlastJob : Type 0 where
  pub id : String
  pub session_id : String
  pub endpoint : String
  pub status : JobStatus
  pub options : BlastOptions
  pub total : ℕ
  pub sent_count : ℕ
  pub failed_count : ℕ
  pub dlq_count : ℕ
  pub skipped_dup_count : ℕ
  pub send_at : Option ℕ
  pub created_at : ℕ
  pub started_at : Option ℕ
  pub finished_at : Option ℕ

-- `BlastRecipient`.
pub record BlastRecipient : Type 0 where
  pub id : ℕ
  pub recipient : String
  pub status : RecipientStatus
  pub attempts : ℕ
  pub last_error : Option String
  pub message_id : Option String
  pub updated_at : ℕ

-- `unwrap_or_default` on the stored options.
abbrev pub or_default : Option BlastOptions → BlastOptions
or_default none = default_options
or_default (some o) = o

abbrev or_else : Option ℤ → ℤ → ℤ
or_else none d = d
or_else (some n) d = n

-- `not found` of the job of a URL.
abbrev pub no_job : String → ApiError
no_job id = message_not_found (concat ("blast job " ∷ id ∷ []))

unfoldable pub refuse_finished : String → JobRow → ApiError
refuse_finished id row = bad_request (
    concat (
      "blast job " ∷ id ∷ " is " ∷ row.status ∷ ", only pending or running jobs can be cancelled"
      ∷ []))

unfoldable pub after_cancel : String → Bool → Task Db Action ApiError (Unit {0})
after_cancel id true = done tt
after_cancel id false =
    throw (bad_request (concat ("blast job " ∷ id ∷ " changed state concurrently; try again" ∷ [])))

abbrev to_recipient : RecipientRow → BlastRecipient
to_recipient r = record {
  id = r.id;
  recipient = r.recipient;
  status = recipient_status_of r.status;
  attempts = r.attempts;
  last_error = r.last_error;
  message_id = r.message_id;
  updated_at = r.updated_at;
}

-- `parse_options` reads the stored options text.
module _ (parse_options : String → Option BlastOptions) (env : Env Db) where
  unfoldable pub job_to_model : JobRow → BlastJob
  job_to_model row = record {
    id = row.id;
    session_id = row.session_id;
    endpoint = row.endpoint;
    status = job_status_of row.status;
    options = or_default (parse_options row.options);
    total = row.total;
    sent_count = row.sent_count;
    failed_count = row.failed_count;
    dlq_count = row.dlq_count;
    skipped_dup_count = row.skipped_dup_count;
    send_at = row.send_at;
    created_at = row.created_at;
    started_at = row.started_at;
    finished_at = row.finished_at;
  }

  -- The row of the job of a URL, or 404.
  unfoldable pub find_job : String → String → Task Db Action ApiError JobRow
  find_job session_id id = do
    row ← mapping internal_db (get_job_scoped env session_id id)
    lift (ok_or row (no_job id))

  unfoldable pub get_blast : String → String → Task Db Action ApiError BlastJob
  unfolding find_job
  get_blast session_id id = do row ← find_job session_id id; done (job_to_model row)

  -- The cancellation of a job whose row was found.
  unfoldable pub cancel_found : String → String → JobRow → Task Db Action ApiError (Unit {0})
  unfolding after_cancel refuse_finished
  cancel_found session_id id row =
      if is_terminal (job_status_of row.status)
      then throw (refuse_finished id row)
      else (mapping internal_db (cancel_job env session_id id) >>= after_cancel id)

  unfoldable pub cancel_blast : String → String → Task Db Action ApiError BlastJob
  unfolding find_job cancel_found
  cancel_blast session_id id = do
    row ← find_job session_id id
    cancel_found session_id id row
    row' ← find_job session_id id
    done (job_to_model row')

  -- The reopening of a job of which `requeued` recipients were put back.
  unfoldable pub after_requeue : String → ℕ → Task Db Action ApiError (Unit {0})
  after_requeue id requeued =
      if nat_eq requeued 0
      then throw
          (bad_request (concat ("blast job " ∷ id ∷ " has no dlq/failed recipients to retry" ∷ [])))
      else mapping internal_db (reopen_job env id)

  unfoldable pub retry_found : String → JobRow → Task Db Action ApiError (Unit {0})
  unfolding after_requeue
  retry_found id row =
      if row.status == job_status_str JobStatus.running
      then throw
          (bad_request (concat ("blast job " ∷ id ∷ " is still running; cancel it first" ∷ [])))
      else (mapping internal_db (requeue_failed env id) >>= after_requeue id)

  unfoldable pub retry_blast : String → String → Task Db Action ApiError BlastJob
  unfolding find_job retry_found
  retry_blast session_id id = do
    row ← find_job session_id id
    retry_found id row
    row' ← find_job session_id id
    done (job_to_model row')

  -- `jobs_to_response`, after either listing; its count is the length of the list.
  unfoldable pub list_blasts :
      Option String → Option String → Task Db Action ApiError (List BlastJob × ℕ)
  list_blasts session_id status = do
    rows ← mapping internal_db (list_jobs env session_id status)
    let jobs = map job_to_model rows
    done (jobs, length jobs)

  -- A page has 1 to 1000 rows, 100 unless the query says otherwise.
  unfoldable pub list_blast_recipients :
      String
      → String
      → Option String
      → Option ℤ
      → Option ℤ
      → Task Db Action ApiError (List BlastRecipient × ℕ)
  unfolding find_job
  list_blast_recipients session_id id status limit offset = do
    _ ← find_job session_id id
    rows ← mapping internal_db (
        list_recipients env id status (clamp 1 1000 (or_else limit (pos 100)))
          (at_least_zero (or_else offset (pos 0))))
    let recipients = map to_recipient rows
    done (recipients, length recipients)
