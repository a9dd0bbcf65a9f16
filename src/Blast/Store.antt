-- ===== src/Blast/Store.antt =====
-- The functions of db/blast.rs, one query for each statement that they await.
use wa_rs.Common.{
  ℕ, ◌+◌, Bool, ◌&&◌, String, Option, none, some, List, [], ◌∷◌, ◌++◌, ◌==◌, any, nat_eq, ltb, leb,
  if◌then◌else◌, any, keep, take, drop, map, length,
}
use wa_rs.Effect.{Env, Task, DbError, db_error, throw, ◌>>=◌, ◌>>◌, done, query}
use wa_rs.Table.{accepts, first_where, oldest}
use wa_rs.Blast.Rows.{JobRow, RecipientRow, Db, set_jobs}
use wa_rs.Blast.Action.{Action}
use wa_rs.Blast.Statements.{
  is_due, insert_row, insert_recipient, chunks, contains, has_id, has_scoped_id, has_status,
  claim_row, reset_rows, finish_row, cancel_row, requeue_rows, reopen_row, set_row,
}

abbrev Store : Type 0 → Type 0
Store A = Task Db Action DbError A

-- An answer of `()` in place of the number of rows.
abbrev pub ignoring : {A : Type 0} → A × Db → Unit {0} × Db
ignoring (_, d) = (tt, d)

-- The row that `claim_next_due` goes for.
unfoldable pub due_job : ℕ → Db → Option JobRow
due_job now d =
    oldest (λ j. j.created_at) (keep (λ j. (j.status == "pending") && is_due now j.send_at) d.jobs)

-- The row of `running_job`. `ORDER BY started_at ASC`; a running job has a start, and a row without
-- one would come first.
abbrev pub running_row : Db → Option JobRow
running_row d =
    oldest (λ j. elim j.started_at [ none ↦ 0 | some t ↦ t ])
      (keep (λ j. j.status == "running") d.jobs)

insert_newest : JobRow → List JobRow → List JobRow
insert_newest j [] = j ∷ []
insert_newest j (k ∷ ks) =
    if leb k.created_at j.created_at then j ∷ k ∷ ks else k ∷ insert_newest j ks

-- Newest first; rows of one second in table order.
unfoldable pub newest_first : List JobRow → List JobRow
unfolding insert_newest
newest_first [] = []
newest_first (j ∷ js) = insert_newest j (newest_first js)

module _ (env : Env Db) where
  -- A SELECT.
  abbrev pub select : {A : Type 0} → (ℕ → Db → A) → Store A
  select f = query env (λ now d. (f now d, d))

  unfoldable pub insert_job :
      String → String → String → String → String → ℕ → ℕ → Option ℕ → Store (Unit {0})
  insert_job id session_id endpoint body options total skipped_dup send_at =
      query env (λ now d. (
        any (has_id id) d.jobs,
        insert_row id session_id endpoint body options total skipped_dup send_at now d,
      ))
      >>= λ taken. if taken then throw db_error else done tt

  unfoldable pub insert_recipients : String → String → List (String × String) → Store (Unit {0})
  insert_recipients job_id session_id [] = done tt
  insert_recipients job_id session_id (row ∷ rows) =
      query env (λ now d. (tt, insert_recipient job_id session_id row now d))
      >> insert_recipients job_id session_id rows

  unfoldable pub already_sent_from : String → List String → List (List String) → Store (List String)
  already_sent_from session_id out [] = done out
  already_sent_from session_id out (chunk ∷ rest) = do
    found ← select λ now d.
        map (λ r. r.recipient)
          (keep
            (λ r.
              (r.session_id == session_id) && (r.status == "sent") && contains chunk r.recipient)
            d.recipients)
    already_sent_from session_id (out ++ found) rest

  unfoldable pub already_sent : String → List String → Store (List String)
  unfolding already_sent_from
  already_sent session_id candidates =
      already_sent_from session_id [] (chunks (length candidates) 500 candidates)

  unfoldable pub get_job : String → Store (Option JobRow)
  get_job id = select (λ now d. first_where (has_id id) d.jobs)

  unfoldable pub get_job_scoped : String → String → Store (Option JobRow)
  get_job_scoped session_id id = select (λ now d. first_where (has_scoped_id session_id id) d.jobs)

  unfoldable pub claim_candidate : Option JobRow → Store (Option JobRow)
  unfolding get_job
  claim_candidate none = done none
  claim_candidate (some job) = do
    changed ← query env (claim_row job.id)
    if nat_eq changed 0 then done none else get_job job.id

  unfoldable pub claim_next_due : Store (Option JobRow)
  unfolding claim_candidate
  claim_next_due = do candidate ← select due_job; claim_candidate candidate

  unfoldable pub running_job : Store (Option JobRow)
  running_job = select (λ now d. running_row d)

  unfoldable pub reset_sending_recipients : String → Store (Unit {0})
  reset_sending_recipients job_id = query env (λ now d. ignoring (reset_rows job_id now d))

  -- `ORDER BY id ASC LIMIT ?`: the table is kept in the order of its keys.
  unfoldable pub pending_recipients : String → ℕ → Store (List RecipientRow)
  pending_recipients job_id limit =
      select λ now d. take limit (keep (has_status job_id "pending") d.recipients)

  unfoldable pub update_recipient :
      String
      → String
      → (RecipientRow → RecipientRow)
      → Option String
      → Option String
      → Store (Unit {0})
  update_recipient job_id recipient set message_id error =
      query env (λ now d. ignoring (set_row job_id recipient set message_id error now d))

  unfoldable pub mark_recipient_sending : String → String → Store (Unit {0})
  unfolding update_recipient
  mark_recipient_sending job_id recipient =
      update_recipient job_id recipient (λ r. record r { status = "sending" }) none none

  unfoldable pub mark_recipient_sent : String → String → String → Store (Unit {0})
  unfolding update_recipient
  mark_recipient_sent job_id recipient message_id =
      update_recipient job_id recipient (λ r. record r { status = "sent" }) (some message_id) none

  unfoldable pub mark_recipient_retry : String → String → String → Store (Unit {0})
  unfolding update_recipient
  mark_recipient_retry job_id recipient error =
      update_recipient job_id recipient
        (λ r. record r { status = "pending"; attempts = r.attempts + 1 }) none (some error)

  unfoldable pub mark_recipient_dlq : String → String → String → Store (Unit {0})
  unfolding update_recipient
  mark_recipient_dlq job_id recipient error =
      update_recipient job_id recipient
        (λ r. record r { status = "dlq"; attempts = r.attempts + 1 }) none (some error)

  unfoldable pub bump_counter : String → (JobRow → JobRow) → Store (Unit {0})
  bump_counter job_id set = query env (λ now d. (tt, set_jobs d (has_id job_id) set))

  unfoldable pub incr_sent : String → Store (Unit {0})
  unfolding bump_counter
  incr_sent job_id = bump_counter job_id (λ j. record j { sent_count = j.sent_count + 1 })

  unfoldable pub incr_failed : String → Store (Unit {0})
  unfolding bump_counter
  incr_failed job_id = bump_counter job_id (λ j. record j { failed_count = j.failed_count + 1 })

  unfoldable pub incr_dlq : String → Store (Unit {0})
  unfolding bump_counter
  incr_dlq job_id = bump_counter job_id (λ j. record j { dlq_count = j.dlq_count + 1 })

  unfoldable pub job_status : String → Store (Option String)
  job_status id =
      select λ now d. elim (first_where (has_id id) d.jobs) [ none ↦ none | some j ↦ some j.status ]

  unfoldable pub finish_job : String → String → Store (Unit {0})
  finish_job id status = query env (λ now d. ignoring (finish_row id status now d))

  unfoldable pub cancel_job : String → String → Store Bool
  cancel_job session_id id = do changed ← query env (cancel_row session_id id); done (ltb 0 changed)

  unfoldable pub requeue_failed : String → Store ℕ
  requeue_failed job_id = query env (requeue_rows job_id)

  unfoldable pub reopen_job : String → Store (Unit {0})
  reopen_job job_id = query env (λ now d. ignoring (reopen_row job_id d))

  unfoldable pub list_jobs : Option String → Option String → Store (List JobRow)
  unfolding newest_first
  list_jobs session_id status = select λ now d.
      newest_first (keep (λ j. accepts session_id j.session_id && accepts status j.status) d.jobs)

  unfoldable pub list_recipients : String → Option String → ℕ → ℕ → Store (List RecipientRow)
  list_recipients job_id status limit offset = select λ now d.
      take limit
        (drop offset (keep (λ r. (r.job_id == job_id) && accepts status r.status) d.recipients))
