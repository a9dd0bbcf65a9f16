-- ===== src/Blast/Resume.antt =====
-- What becomes of a job after a crash and after a cancellation.
use wa_rs.Common.{
  ℕ, suc, ◌≡◌, refl, Bool, true, false, String, some, List, [], ◌∷◌, arith, ◌==◌, ◌&&◌, ◌||◌,
  eq_iff, Result, ok, keep,
}
use wa_rs.Effect.{Env, World, DbError, query, >>=-ok}
use wa_rs.Blast.Status.{job_status_str}
use wa_rs.Table.{first_where, update_where}
use wa_rs.Blast.Rows.{Db, JobRow, RecipientRow}
use wa_rs.Blast.Action.{Action}
use wa_rs.Blast.Statements.{has_id, has_status, has_scoped_id, finish_row, cancel_row}
use wa_rs.Blast.Store.{
  running_job, running_row, job_status, pending_recipients, get_job, finish_job,
}
use wa_rs.Blast.Worker.{
  Services, tick_once, continue_or_claim, process_job, drain, turn_if, turn, finalize_job,
  final_status, is_some, broadcast_completed, counters_payload, is_running,
}
use wa_rs.Effect.{calm}

-- The status of a job after it is closed.
first_where-finish :
    (id status : String) (now : ℕ) (js : List JobRow) (j : JobRow)
    → first_where (has_id id) js ≡ some j
    → first_where
        (has_id id)
        (update_where (has_id id) (λ k. record k { status = status; finished_at = some now }) js)
      ≡ some (record j { status = status; finished_at = some now })
unfolding first_where update_where
first_where-finish id status now [] j e = cc
first_where-finish id status now (k ∷ ks) j e =
    ground (arith, first_where-finish id status now ks j)

-- That a run of the worker closed the job, whose row was `j`, and left the recipients alone.
pub record Closes (id : String) (j : JobRow) (rows : List RecipientRow)
    (x : Result DbError Bool × World Db Action) : Type 0 where
  pub answer : x.0 ≡ ok true
  pub recipients : x.1.store.recipients ≡ rows
  pub row : JobRow
  pub found : first_where (has_id id) x.1.store.jobs ≡ some row
  pub closed : row.status ≡ job_status_str (final_status (some j))

module _ (s : Services) (clock : ℕ → ℕ) where
  -- A row of the job's key that was read as running, and no pending recipient.
  pub drain-Closes :
      (fuel : ℕ) (job j : JobRow) (sends : ℕ) (w : World Db Action)
      → first_where (has_id job.id) w.store.jobs ≡ some j
      → j.status ≡ "running"
      → keep (has_status job.id "pending") w.store.recipients ≡ []
      → Closes job.id j w.store.recipients (drain s (calm clock) (suc fuel) job sends w)
  unfolding drain turn_if turn job_status pending_recipients finalize_job broadcast_completed
      counters_payload get_job finish_job query finish_row final_status
  drain-Closes fuel job j sends w e r none_pending = rw e (
      rw r (
        rw none_pending (
          rw e (record {
            answer = refl;
            recipients = refl;
            row = _;
            found = first_where-finish job.id _ _ w.store.jobs j e;
            closed = refl;
          }))))

-- A tick that goes on with a running job of which no recipient is pending closes the job and leaves
-- every recipient as it is, those in `sending` included: a recipient that was in flight when an
-- earlier tick stopped is never settled by this one.
pub tick_once-Closes :
    (s : Services) (clock : ℕ → ℕ) (fuel : ℕ) (job : JobRow) (w : World Db Action)
    → running_row w.store ≡ some job
    → first_where (has_id job.id) w.store.jobs ≡ some job
    → job.status ≡ "running"
    → is_some (s.parse job.body) ≡ true
    → keep (has_status job.id "pending") w.store.recipients ≡ []
    → Closes job.id job w.store.recipients (tick_once s (calm clock) (suc fuel) w)
unfolding tick_once continue_or_claim process_job running_job query
tick_once-Closes s clock fuel job w o e r body none_pending = rw o (
    rw body
      (drain-Closes s clock fuel job job 0 (record w { queries = suc w.queries }) e r none_pending))

-- The status of a job after its cancellation.
first_where-cancel :
    (session id : String) (now : ℕ) (js : List JobRow) (j : JobRow)
    → first_where (has_id id) js ≡ some j
    → j.session_id ≡ session
    → ((j.status == "pending") || (j.status == "running")) ≡ true
    → first_where (has_id id) (
        update_where
          (λ k. has_scoped_id session id k && ((k.status == "pending") || (k.status == "running")))
          (λ k. record k { status = "cancelled"; finished_at = some now })
          js)
      ≡ some (record j { status = "cancelled"; finished_at = some now })
unfolding first_where update_where
first_where-cancel session id now [] j e own live = cc
first_where-cancel session id now (k ∷ ks) j e own live =
    ground (arith, first_where-cancel session id now ks j, eq_iff j.session_id session)

job_status-cancelled :
    (env : Env Db) (id : String) (now : ℕ) (w : World Db Action) (j : JobRow)
    → first_where (has_id id) w.store.jobs ≡ some j
    → ((j.status == "pending") || (j.status == "running")) ≡ true
    → env.meanwhile w.queries w.store ≡ (cancel_row j.session_id id now w.store).1
    → env.fails w.queries ≡ false
    → job_status env id w ≡ (
      ok (some "cancelled"),
      record w { store = (cancel_row j.session_id id now w.store).1; queries = suc w.queries },
    )
unfolding job_status query cancel_row
job_status-cancelled env id now w j e live cancelled fine =
    rw (cancelled, fine, first_where-cancel j.session_id id now w.store.jobs j e refl live) refl

-- If a pending or running job is cancelled while the worker is between two turns of its loop, the
-- worker reads the status once more and stops: it sends nothing and writes nothing.
pub drain-Stops :
    (s : Services) (env : Env Db) (fuel : ℕ) (job j : JobRow) (sends now : ℕ) (w : World Db Action)
    → first_where (has_id job.id) w.store.jobs ≡ some j
    → ((j.status == "pending") || (j.status == "running")) ≡ true
    → env.meanwhile w.queries w.store ≡ (cancel_row j.session_id job.id now w.store).1
    → env.fails w.queries ≡ false
    → drain s env (suc fuel) job sends w ≡ (
      ok true,
      record w { store = (cancel_row j.session_id job.id now w.store).1; queries = suc w.queries },
    )
unfolding drain turn_if
drain-Stops s env fuel job j sends now w e live cancelled fine =
    >>=-ok (job_status env job.id)
      (λ x. turn_if s env job sends (λ sends'. drain s env fuel job sends') (is_running x)) w
      (job_status-cancelled env job.id now w j e live cancelled fine)
