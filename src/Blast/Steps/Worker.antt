-- ===== src/Blast/Steps/Worker.antt =====
-- A tick of the worker of handlers/blast.rs as a sequence of steps.
use wa_rs.Common.{
  ℕ, zero, suc, ◌≡◌, refl, ◌+◌, Bool, true, false, String, Option, none, some, List, [], ◌∷◌,
  Result, ok, err, ltb, leb, arith,
}
use wa_rs.Effect.{Env}
use wa_rs.Effect.Keeps.{
  Keeps, done-Keeps, lift-Keeps, emit-Keeps, catch-Keeps, >>=-Keeps, >>-Keeps, if-Keeps,
}
use wa_rs.Blast.Status.{JobStatus, is_terminal}
use wa_rs.Blast.Rows.{Db, JobRow, RecipientRow}
use wa_rs.Blast.Action.{blast_progress, blast_completed}
use wa_rs.Blast.Store.{pending_recipients, job_status, running_job}
use wa_rs.Blast.Worker.{
  Services, Work, read_counters, counters_payload, broadcast_progress, broadcast_completed,
  final_status, finalize_job, send, note_progress, settle, pause, process_recipient, process_batch,
  is_running, turn, turn_if, drain, process_job, start_claimed, continue_or_claim, tick_once,
  max_attempts_of, progress_every, is_some,
}
use wa_rs.Blast.Steps.{Reach, IsHonest, honest, here}
use wa_rs.Blast.Steps.Queries.{
  select-Keeps, get_job-Keeps, claim_next_due-Keeps, sending-Keeps, sent-Keeps, retry-Keeps,
  dlq-Keeps, incr_sent-Keeps, incr_failed-Keeps, incr_dlq-Keeps, reset-Keeps, finish-Keeps,
}

final_status-terminal : (row : Option JobRow) → is_terminal (final_status row) ≡ true
unfolding final_status
final_status-terminal none = refl
final_status-terminal (some row) = ground arith

module _ (s : Services) {c : Bool} {env : Env Db} (h : IsHonest c env) where
  counters-Keeps : (id : String) → Keeps (Reach c) (counters_payload s env id)
  unfolding counters_payload
  counters-Keeps id =
      >>=-Keeps (honest h) _ _ (catch-Keeps (honest h) _ _ (get_job-Keeps h id))
        (λ row. done-Keeps (honest h) (read_counters row))

  progress-Keeps : (id session : String) → Keeps (Reach c) (broadcast_progress s env id session)
  unfolding broadcast_progress
  progress-Keeps id session =
      >>=-Keeps (honest h) _ _ (counters-Keeps id)
        (λ k. emit-Keeps (honest h) (blast_progress id session k))

  completed-Keeps :
      (id session : String) (t : JobStatus)
      → Keeps (Reach c) (broadcast_completed s env id session t)
  unfolding broadcast_completed
  completed-Keeps id session t =
      >>=-Keeps (honest h) _ _ (counters-Keeps id)
        (λ k. emit-Keeps (honest h) (blast_completed id session t k))

  finalize-Keeps : (id session : String) → Keeps (Reach c) (finalize_job s env id session)
  unfolding finalize_job
  finalize-Keeps id session = >>=-Keeps (honest h) _ _ (get_job-Keeps h id) λ row.
      >>-Keeps (honest h) _ _ (finish-Keeps h id (final_status row) (final_status-terminal row))
        (completed-Keeps id session (final_status row))

  send-Keeps : (job : JobRow) (body : String) → Keeps (Reach c) (send s env job body)
  unfolding send
  send-Keeps job body = record { at = λ w. here }

  pause-Keeps : (job : JobRow) → Keeps (Reach c) (pause s env job)
  unfolding pause
  pause-Keeps job = record { at = λ w. here }

  note-Keeps : (job : JobRow) (sends : ℕ) → Keeps (Reach c) (note_progress s env job sends)
  unfolding note_progress
  note-Keeps job sends =
      if-Keeps (honest h) (leb progress_every sends) _ _
        (>>-Keeps (honest h) _ _ (progress-Keeps job.id job.session_id) (done-Keeps (honest h) 0))
        (done-Keeps (honest h) sends)

  settle-Keeps :
      (job : JobRow) (r : RecipientRow) (sends : ℕ) (reply : Result String String)
      → Keeps (Reach c) (settle s env job r sends reply)
  unfolding settle
  settle-Keeps job r sends (ok m) =
      >>-Keeps (honest h) _ _ (sent-Keeps h job.id r.recipient m)
        (>>-Keeps (honest h) _ _ (incr_sent-Keeps h job.id) (note-Keeps job (sends + 1)))
  settle-Keeps job r sends (err e) = >>-Keeps (honest h) _ _ (incr_failed-Keeps h job.id) (
      if-Keeps (honest h) (ltb (r.attempts + 1) (max_attempts_of s job)) _ _
        (>>-Keeps (honest h) _ _ (retry-Keeps h job.id r.recipient e) (done-Keeps (honest h) sends))
        (>>-Keeps (honest h) _ _ (dlq-Keeps h job.id r.recipient e)
          (>>-Keeps (honest h) _ _ (incr_dlq-Keeps h job.id) (done-Keeps (honest h) sends))))

  recipient-Keeps :
      (job : JobRow) (r : RecipientRow) (sends : ℕ)
      → Keeps (Reach c) (process_recipient s env job r sends)
  unfolding process_recipient
  recipient-Keeps job r sends = >>-Keeps (honest h) _ _ (sending-Keeps h job.id r.recipient) (
      >>=-Keeps (honest h) _ _ (lift-Keeps (honest h) _) λ body.
        >>=-Keeps (honest h) _ _ (send-Keeps job body) λ reply.
          >>=-Keeps (honest h) _ _ (settle-Keeps job r sends reply)
            λ n. >>-Keeps (honest h) _ _ (pause-Keeps job) (done-Keeps (honest h) n))

  batch-Keeps :
      (job : JobRow) (rs : List RecipientRow) (sends : ℕ)
      → Keeps (Reach c) (process_batch s env job rs sends)
  unfolding process_batch
  batch-Keeps job [] sends = done-Keeps (honest h) sends
  batch-Keeps job (r ∷ rs) sends =
      >>=-Keeps (honest h) _ _ (recipient-Keeps job r sends) (batch-Keeps job rs)

  turn-Keeps :
      (job : JobRow) (sends : ℕ) (rest : ℕ → Work Bool) (rs : List RecipientRow)
      → ((n : ℕ) → Keeps (Reach c) (rest n))
      → Keeps (Reach c) (turn s env job sends rest rs)
  unfolding turn
  turn-Keeps job sends rest [] k =
      >>-Keeps (honest h) _ _ (finalize-Keeps job.id job.session_id) (done-Keeps (honest h) true)
  turn-Keeps job sends rest (r ∷ rs) k = >>=-Keeps (honest h) _ _ (batch-Keeps job (r ∷ rs) sends) k

  turn_if-Keeps :
      (job : JobRow) (sends : ℕ) (rest : ℕ → Work Bool) (b : Bool)
      → ((n : ℕ) → Keeps (Reach c) (rest n))
      → Keeps (Reach c) (turn_if s env job sends rest b)
  unfolding turn_if pending_recipients
  turn_if-Keeps job sends rest false k = done-Keeps (honest h) true
  turn_if-Keeps job sends rest true k =
      >>=-Keeps (honest h) _ _ (select-Keeps h _) λ rs. turn-Keeps job sends rest rs k

  pub drain-Keeps :
      (fuel : ℕ) (job : JobRow) (sends : ℕ) → Keeps (Reach c) (drain s env fuel job sends)
  unfolding drain job_status
  drain-Keeps zero job sends = done-Keeps (honest h) false
  drain-Keeps (suc fuel) job sends =
      >>=-Keeps (honest h) _ _ (select-Keeps h _)
        λ status. turn_if-Keeps job sends _ (is_running status) (drain-Keeps fuel job)

  pub job-Keeps : (fuel : ℕ) (job : JobRow) → Keeps (Reach c) (process_job s env fuel job)
  unfolding process_job
  job-Keeps fuel job =
      if-Keeps (honest h) (is_some (s.parse job.body)) _ _ (drain-Keeps fuel job 0) (
        >>-Keeps (honest h) _ _ (finish-Keeps h job.id JobStatus.failed refl) (
          >>-Keeps (honest h) _ _ (completed-Keeps job.id job.session_id JobStatus.failed)
            (done-Keeps (honest h) true)))

  pub start-Keeps : (fuel : ℕ) (o : Option JobRow) → Keeps (Reach c) (start_claimed s env fuel o)
  unfolding start_claimed
  start-Keeps fuel none = done-Keeps (honest h) true
  start-Keeps fuel (some job) = >>-Keeps (honest h) _ _ (reset-Keeps h job.id) (job-Keeps fuel job)

  continue-Keeps :
      c ≡ true → (fuel : ℕ) (o : Option JobRow) → Keeps (Reach c) (continue_or_claim s env fuel o)
  unfolding continue_or_claim
  continue-Keeps allowed fuel (some job) = job-Keeps fuel job
  continue-Keeps allowed fuel none =
      >>=-Keeps (honest h) _ _ (claim_next_due-Keeps h allowed) (start-Keeps fuel)

  pub tick_once-Keeps : c ≡ true → (fuel : ℕ) → Keeps (Reach c) (tick_once s env fuel)
  unfolding tick_once running_job
  tick_once-Keeps allowed fuel =
      >>=-Keeps (honest h) _ _ (select-Keeps h _) (continue-Keeps allowed fuel)
