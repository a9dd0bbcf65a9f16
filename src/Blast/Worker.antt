-- ===== src/Blast/Worker.antt =====
-- The background worker of handlers/blast.rs, one tick of it.
use wa_rs.Common.{
  ℕ, zero, suc, ◌+◌, ◌^◌, ◌%◌, Bool, true, false, String, Option, none, some, List, [], ◌∷◌, ◌==◌,
  Result, ok, err, ltb, leb, if◌then◌else◌, length, max,
}
use wa_rs.Json.{Value, null, string, object, insert}
use wa_rs.Json
use wa_rs.Endpoint.{Gateway, MessageResponse, dispatch}
use wa_rs.Effect.{Env, Task, DbError, db_error, ◌>>=◌, ◌>>◌, done, lift, catch, emit}
use wa_rs.Blast.Status.{BlastOptions, JobStatus, job_status_str}
use wa_rs.Blast.Rows.{Db, JobRow, RecipientRow}
use wa_rs.Blast.Action.{Action, Counters, dispatched, blast_progress, blast_completed, slept}
use wa_rs.Blast.Manage.{or_default}
use wa_rs.Blast.Store.{
  get_job, job_status, running_job, claim_next_due, reset_sending_recipients, pending_recipients,
  mark_recipient_sending, mark_recipient_sent, mark_recipient_retry, mark_recipient_dlq, incr_sent,
  incr_failed, incr_dlq, finish_job,
}

abbrev pub batch_size : ℕ
batch_size = 50

abbrev pub progress_every : ℕ
progress_every = 25

-- What the worker calls that is not in its file: the JSON library, the sends, the random draw of
-- `0..=jitter_ms` at the n-th act.
pub record Services : Type 1 where
  pub gateway : Gateway
  pub parse : String → Option Value
  pub print : Value → String
  pub parse_options : String → Option BlastOptions
  pub roll : ℕ → ℕ → ℕ

abbrev pub Work : Type 0 → Type 0
Work A = Task Db Action DbError A

abbrev pub is_some {ℓ} : {A : Type ℓ} → Option A → Bool
is_some none = false
is_some (some _) = true

-- `to` and `send_at` of an object; any other value is left alone.
unfoldable pub rewrite_body : String → Value → Value
rewrite_body recipient (object fields) =
    object (Json.insert "send_at" null (Json.insert "to" (string recipient) fields))
rewrite_body recipient v = v

unfoldable pub to_counters : Option JobRow → Option Counters
to_counters none = none
to_counters (some row) = some (record {
  total = row.total;
  sent_count = row.sent_count;
  failed_count = row.failed_count;
  dlq_count = row.dlq_count;
  skipped_dup_count = row.skipped_dup_count;
})

unfoldable pub read_counters : Result DbError (Option JobRow) → Option Counters
unfolding to_counters
read_counters (ok row) = to_counters row
read_counters (err _) = none

-- The status that a job with an empty `pending` set is closed with.
unfoldable pub final_status : Option JobRow → JobStatus
final_status none = JobStatus.completed
final_status (some row) =
    if ltb 0 row.dlq_count then JobStatus.completed_with_failures else JobStatus.completed

-- What the worker reads of the answer of a send.
abbrev pub message_id_of : Result String MessageResponse → Result String String
message_id_of (ok resp) = ok resp.message_id
message_id_of (err e) = err e

abbrev pub is_running : Option String → Bool
is_running none = false
is_running (some status) = status == job_status_str JobStatus.running

module _ (s : Services) where
  -- `serde_json::from_str(&job.options).unwrap_or_default()`, and its cap on the attempts.
  unfoldable pub job_options : JobRow → BlastOptions
  job_options job = or_default (s.parse_options job.options)

  unfoldable pub max_attempts_of : JobRow → ℕ
  unfolding job_options
  max_attempts_of job = max (job_options job).max_attempts 1

  unfoldable pub build_recipient_body : String → String → Result DbError String
  build_recipient_body body recipient = elim (s.parse body) [
    | none ↦ err db_error
    | some v ↦ ok (s.print (rewrite_body recipient v))
  ]

  -- Milliseconds, in 64 bits: a release build wraps.
  unfoldable pub send_delay : BlastOptions → ℕ → ℕ
  send_delay options n =
      (options.delay_ms + (if ltb 0 options.jitter_ms then s.roll n options.jitter_ms else 0))
      % 2 ^ 64

  module _ (env : Env Db) where
    -- A failed read gives an empty object, and no error.
    unfoldable pub counters_payload : String → Work (Option Counters)
    unfolding read_counters
    counters_payload job_id = do row ← catch (get_job env job_id); done (read_counters row)

    unfoldable pub broadcast_progress : String → String → Work (Unit {0})
    unfolding counters_payload
    broadcast_progress job_id session_id = do
      counters ← counters_payload job_id
      emit (blast_progress job_id session_id counters)

    unfoldable pub broadcast_completed : String → String → JobStatus → Work (Unit {0})
    unfolding counters_payload
    broadcast_completed job_id session_id status = do
      counters ← counters_payload job_id
      emit (blast_completed job_id session_id status counters)

    unfoldable pub finalize_job : String → String → Work (Unit {0})
    unfolding broadcast_completed
    finalize_job job_id session_id = do
      row ← get_job env job_id
      finish_job env job_id (job_status_str (final_status row))
      broadcast_completed job_id session_id (final_status row)

    -- The send itself: the answer of the gateway at this point of the log.
    unfoldable pub send : JobRow → String → Work (Result String String)
    send job body w = (
      ok (message_id_of (dispatch s.gateway (length w.log) job.session_id job.endpoint body)),
      record w { log = dispatched job.session_id job.endpoint body ∷ w.log },
    )

    -- The progress event after a send that is the `progress_every`-th since the last event.
    unfoldable pub note_progress : JobRow → ℕ → Work ℕ
    unfolding broadcast_progress
    note_progress job sends =
        if leb progress_every sends
        then (broadcast_progress job.id job.session_id >> done 0)
        else done sends

    -- What follows the answer of a send; gives the sends since the last progress event.
    unfoldable pub settle : JobRow → RecipientRow → ℕ → Result String String → Work ℕ
    unfolding note_progress
    settle job r sends (ok message_id) = do
      mark_recipient_sent env job.id r.recipient message_id
      incr_sent env job.id
      note_progress job (sends + 1)
    settle job r sends (err e) =
        incr_failed env job.id
        >> (if ltb (r.attempts + 1) (max_attempts_of job)
            then (mark_recipient_retry env job.id r.recipient e >> done sends)
            else (mark_recipient_dlq env job.id r.recipient e
                >> (incr_dlq env job.id >> done sends)))

    unfoldable pub pause : JobRow → Work (Unit {0})
    pause job w =
        (ok tt, record w { log = slept (send_delay (job_options job) (length w.log)) ∷ w.log })

    -- One recipient of a batch.
    unfoldable pub process_recipient : JobRow → RecipientRow → ℕ → Work ℕ
    unfolding pause
    process_recipient job r sends = do
      mark_recipient_sending env job.id r.recipient
      body ← lift (build_recipient_body job.body r.recipient)
      reply ← send job body
      sends' ← settle job r sends reply
      pause job
      done sends'

    unfoldable pub process_batch : JobRow → List RecipientRow → ℕ → Work ℕ
    process_batch job [] sends = done sends
    process_batch job (r ∷ rs) sends = do
      sends' ← process_recipient job r sends
      process_batch job rs sends'

    -- What a turn of the loop does with its batch; `rest` is the turns that follow.
    unfoldable pub turn : JobRow → ℕ → (ℕ → Work Bool) → List RecipientRow → Work Bool
    turn job sends rest [] = finalize_job job.id job.session_id >> done true
    turn job sends rest (r ∷ rs) = process_batch job (r ∷ rs) sends >>= rest

    -- A turn of a job whose status was just read as running, or not.
    unfoldable pub turn_if : JobRow → ℕ → (ℕ → Work Bool) → Bool → Work Bool
    turn_if job sends rest false = done true
    turn_if job sends rest true = pending_recipients env job.id batch_size >>= turn job sends rest

    -- The loop, `fuel` turns of it at most; `false` says that the fuel ran out.
    unfoldable pub drain : ℕ → JobRow → ℕ → Work Bool
    drain zero job sends = done false
    drain (suc fuel) job sends = job_status env job.id >>= λ status.
        turn_if job sends (λ sends'. drain fuel job sends') (is_running status)

    unfoldable pub process_job : ℕ → JobRow → Work Bool
    process_job fuel job =
        if is_some (s.parse job.body)
        then drain fuel job 0
        else (finish_job env job.id (job_status_str JobStatus.failed)
            >> (broadcast_completed job.id job.session_id JobStatus.failed >> done true))

    unfoldable pub start_claimed : ℕ → Option JobRow → Work Bool
    start_claimed fuel none = done true
    start_claimed fuel (some job) = reset_sending_recipients env job.id >> process_job fuel job

    unfoldable pub continue_or_claim : ℕ → Option JobRow → Work Bool
    unfolding start_claimed
    continue_or_claim fuel (some job) = process_job fuel job
    continue_or_claim fuel none = claim_next_due env >>= start_claimed fuel

    unfoldable pub tick_once : ℕ → Work Bool
    unfolding continue_or_claim
    tick_once fuel = do running ← running_job env; continue_or_claim fuel running
