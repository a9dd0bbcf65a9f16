-- ===== src/Blast/Steps/Queries.antt =====
-- The functions of db/blast.rs that the worker calls, as sequences of steps.
use wa_rs.Common.{ℕ, ◌≡◌, Bool, true, String, Option, none, some, nat_eq}
use wa_rs.Effect.{Env, query}
use wa_rs.Effect.Keeps.{Keeps, done-Keeps, >>=-Keeps, if-Keeps, query-Keeps}
use wa_rs.Blast.Status.{JobStatus, job_status_str, is_terminal}
use wa_rs.Blast.Rows.{Db, JobRow}
use wa_rs.Blast.Action.{Action}
use wa_rs.Blast.Store.{
  get_job, claim_next_due, reset_sending_recipients, mark_recipient_sending, mark_recipient_sent,
  mark_recipient_retry, mark_recipient_dlq, incr_sent, incr_failed, incr_dlq, finish_job, due_job,
  claim_candidate,
}
use wa_rs.Blast.Steps.{
  Step, Reach, IsHonest, honest, one-Step, here, claims, resets, finishes, marks, bumps, as_sending,
  as_sent, as_retry, as_dlq, of_sent, of_failed, of_dlq,
}

module _ {c : Bool} {env : Env Db} (h : IsHonest c env) where
  -- A SELECT changes nothing.
  pub select-Keeps :
      {A : Type 0} (f : ℕ → Db → A)
      → Keeps (Reach c) (query {Act = Action} env (λ now d. (f now d, d)))
  select-Keeps f = query-Keeps (honest h) _ (λ now d. here)

  pub get_job-Keeps : (id : String) → Keeps (Reach c) (get_job env id)
  unfolding get_job
  get_job-Keeps id = select-Keeps _

  pub claim_next_due-Keeps : c ≡ true → Keeps (Reach c) (claim_next_due env)
  unfolding claim_next_due
  claim_next_due-Keeps allowed = >>=-Keeps (honest h) _ _ (select-Keeps due_job) candidate
    where
      candidate : (o : Option JobRow) → Keeps (Reach c) (claim_candidate env o)
      candidate none = done-Keeps (honest h) none
      candidate (some job) =
          >>=-Keeps (honest h) _ _
            (query-Keeps (honest h) _ (λ now d. one-Step (claims job.id now allowed)))
            (λ n.
              if-Keeps (honest h) (nat_eq n 0) _ _ (done-Keeps (honest h) none)
                (get_job-Keeps job.id))

  pub update-Keeps :
      (f : ℕ → Db → Db)
      → ((now : ℕ) (d : Db) → Step c d (f now d))
      → Keeps (Reach c) (query {Act = Action} env (λ now d. (tt, f now d)))
  update-Keeps f step = query-Keeps (honest h) _ (λ now d. one-Step (step now d))

  pub sending-Keeps : (id r : String) → Keeps (Reach c) (mark_recipient_sending env id r)
  unfolding mark_recipient_sending
  sending-Keeps id r = update-Keeps _ (λ now d. marks id r as_sending now)

  pub sent-Keeps : (id r m : String) → Keeps (Reach c) (mark_recipient_sent env id r m)
  unfolding mark_recipient_sent
  sent-Keeps id r m = update-Keeps _ (λ now d. marks id r (as_sent m) now)

  pub retry-Keeps : (id r e : String) → Keeps (Reach c) (mark_recipient_retry env id r e)
  unfolding mark_recipient_retry
  retry-Keeps id r e = update-Keeps _ (λ now d. marks id r (as_retry e) now)

  pub dlq-Keeps : (id r e : String) → Keeps (Reach c) (mark_recipient_dlq env id r e)
  unfolding mark_recipient_dlq
  dlq-Keeps id r e = update-Keeps _ (λ now d. marks id r (as_dlq e) now)

  pub incr_sent-Keeps : (id : String) → Keeps (Reach c) (incr_sent env id)
  unfolding incr_sent
  incr_sent-Keeps id = update-Keeps _ (λ now d. bumps id of_sent)

  pub incr_failed-Keeps : (id : String) → Keeps (Reach c) (incr_failed env id)
  unfolding incr_failed
  incr_failed-Keeps id = update-Keeps _ (λ now d. bumps id of_failed)

  pub incr_dlq-Keeps : (id : String) → Keeps (Reach c) (incr_dlq env id)
  unfolding incr_dlq
  incr_dlq-Keeps id = update-Keeps _ (λ now d. bumps id of_dlq)

  pub reset-Keeps : (id : String) → Keeps (Reach c) (reset_sending_recipients env id)
  unfolding reset_sending_recipients
  reset-Keeps id = update-Keeps _ (λ now d. resets id now)

  pub finish-Keeps :
      (id : String) (s : JobStatus)
      → is_terminal s ≡ true
      → Keeps (Reach c) (finish_job env id (job_status_str s))
  unfolding finish_job
  finish-Keeps id s t = update-Keeps _ (λ now d. finishes id s now t)
