-- ===== src/Blast/Drain/Ends.antt =====
-- The loop of the worker of handlers/blast.rs with no other task and no fault.
use wa_rs.Common.{
  ℕ, zero, suc, ◌≤◌, ◌≡◌, refl, Bool, true, false, String, some, List, [], ◌∷◌, arith, Result, ok,
  err, keep, take, ap,
}
use wa_rs.Json.{Value}
use wa_rs.Effect.{World, DbError, query, ◌>>=◌, done}
use wa_rs.Effect.Triple.{Triple}
use wa_rs.Blast.Status.{job_status_str}
use wa_rs.Table.{first_where}
use wa_rs.Blast.Rows.{JobRow, RecipientRow, Db}
use wa_rs.Blast.Action.{Action}
use wa_rs.Effect.{calm}
use wa_rs.Blast.Statements.{has_id, has_status, finish_row}
use wa_rs.Blast.Store.{job_status, pending_recipients, get_job, finish_job}
use wa_rs.Blast.Worker.{
  Services, Work, max_attempts_of, batch_size, process_batch, drain, turn, turn_if, finalize_job,
  is_running, broadcast_completed, counters_payload, final_status,
}
use wa_rs.Blast.Drain.Weight.{weight, Keyed}
use wa_rs.Blast.Drain.Rules.{first_where-update, Running, Yields, then-Triple, calm-Triple}
use wa_rs.Blast.Drain.Work.{Working, first_batch, read_batch, none_left}

take_none : (rows : List RecipientRow) → [] ≡ take batch_size rows → rows ≡ []
take_none [] e = refl
take_none (x ∷ rows) e = cc

-- The job is closed as its counters say, and none of its recipients is pending.
pub record Ended (id : String) (d : Db) : Type 0 where
  pub nothing_pending : keep (has_status id "pending") d.recipients ≡ []
  pub row : JobRow
  pub found : first_where (has_id id) d.jobs ≡ some row
  pub closed : row.status ≡ job_status_str (final_status (some row))

answered :
    (id : String) (x : Result DbError Bool) (d : Db)
    → Yields (λ b d. (b ≡ true) × Ended id d) x d
    → (x ≡ ok true) × Ended id d
answered id (ok b) d (e, ended) = (ap ok e, ended)
answered id (err e) d y = absurd y

module _ (s : Services) (clock : ℕ → ℕ) (job : JobRow) where
  -- The tables before the closing of the job.
  record Closing (d : Db) : Type 0 where
    nothing_pending : keep (has_status job.id "pending") d.recipients ≡ []
    running : Running job.id d.jobs

  finalize-Triple :
      Triple Closing
        (finalize_job s (calm clock) job.id job.session_id)
        (Yields (λ _. Ended job.id))
  unfolding finalize_job get_job finish_job broadcast_completed counters_payload query finish_row
      final_status
  finalize-Triple = record {
    at = λ w c. record {
      nothing_pending = c.nothing_pending;
      row = record c.running.row {
        status = job_status_str (final_status (some c.running.row));
        finished_at = some (clock (suc w.queries));
      };
      found =
          rw c.running.found
            (first_where-update job.id _ w.store.jobs c.running.row (λ k. refl) c.running.found);
      closed = refl;
    };
  }

  batch-Triple :
      (v : Value) (n : ℕ) (b : RecipientRow) (bs : List RecipientRow) (sends : ℕ)
      (rest : ℕ → Work Bool)
      → s.parse job.body ≡ some v
      → ((m k : ℕ)
          → suc m ≤ n
          → Triple (Working s clock job m) (rest k) (Yields (λ b d. (b ≡ true) × Ended job.id d)))
      → Triple
          (λ d.
            Working s clock job n d
            × (b ∷ bs ≡ take batch_size (keep (has_status job.id "pending") d.recipients)))
          (process_batch s (calm clock) job (b ∷ bs) sends >>= rest)
          (Yields (λ b d. (b ≡ true) × Ended job.id d))
  batch-Triple v zero b bs sends rest e k = record {
    at = λ w (p, taken).
        absurd
          (none_left s clock job b bs w.store (read_batch s clock job 0 (b ∷ bs) w.store p taken));
  }
  batch-Triple v (suc m) b bs sends rest e k =
      then-Triple (λ _. Working s clock job m) (process_batch s (calm clock) job (b ∷ bs) sends)
        rest
        (record {
          at = λ w (p, taken).
              (first_batch s clock job v m b bs sends e).at w
                (read_batch s clock job (suc m) (b ∷ bs) w.store p taken);
        })
        (λ j. k m j (omega arith))

  turn-Triple :
      (v : Value) (n sends : ℕ) (rest : ℕ → Work Bool) (bs : List RecipientRow)
      → s.parse job.body ≡ some v
      → ((m k : ℕ)
          → suc m ≤ n
          → Triple (Working s clock job m) (rest k) (Yields (λ b d. (b ≡ true) × Ended job.id d)))
      → Triple
          (λ d.
            Working s clock job n d
            × (bs ≡ take batch_size (keep (has_status job.id "pending") d.recipients)))
          (turn s (calm clock) job sends rest bs)
          (Yields (λ b d. (b ≡ true) × Ended job.id d))
  unfolding turn
  turn-Triple v n sends rest [] e k =
      then-Triple (λ _. Ended job.id) _ (λ _. done true)
        (record {
          at = λ w (p, none_taken).
              finalize-Triple.at w
                (record { nothing_pending = take_none _ none_taken; running = p.running });
        })
        (λ _. record { at = λ w c. (refl, c) })
  turn-Triple v n sends rest (b ∷ bs) e k = batch-Triple v n b bs sends rest e k

  running-Triple :
      (v : Value) (n sends : ℕ) (rest : ℕ → Work Bool) (running : Bool)
      → s.parse job.body ≡ some v
      → ((m k : ℕ)
          → suc m ≤ n
          → Triple (Working s clock job m) (rest k) (Yields (λ b d. (b ≡ true) × Ended job.id d)))
      → Triple
          (λ d. Working s clock job n d × (running ≡ true))
          (turn_if s (calm clock) job sends rest running)
          (Yields (λ b d. (b ≡ true) × Ended job.id d))
  unfolding turn_if pending_recipients
  running-Triple v n sends rest false e k = record { at = λ w (p, r). cc }
  running-Triple v n sends rest true e k =
      then-Triple
        (λ bs d.
          Working s clock job n d
          × (bs ≡ take batch_size (keep (has_status job.id "pending") d.recipients)))
        (pending_recipients (calm clock) job.id batch_size) (turn s (calm clock) job sends rest)
        (calm-Triple clock _ (λ now d (p, r). (p, refl))) (λ bs. turn-Triple v n sends rest bs e k)

  status-Triple :
      (n : ℕ)
      → Triple
          (Working s clock job n)
          (job_status (calm clock) job.id)
          (Yields (λ status d. Working s clock job n d × (is_running status ≡ true)))
  unfolding job_status
  status-Triple n =
      calm-Triple clock _ (λ now d p. (p, rw p.running.found (rw p.running.runs refl)))

  drain-Triple :
      (v : Value) (n fuel sends : ℕ)
      → s.parse job.body ≡ some v
      → suc n ≤ fuel
      → Triple
          (Working s clock job n)
          (drain s (calm clock) fuel job sends)
          (Yields (λ b d. (b ≡ true) × Ended job.id d))
  unfolding drain
  drain-Triple v n zero sends e enough = absurd (omega (arith, enough))
  drain-Triple v n (suc fuel) sends e enough =
      then-Triple (λ status d. Working s clock job n d × (is_running status ≡ true))
        (job_status (calm clock) job.id)
        (λ status.
          turn_if s (calm clock) job sends (λ k. drain s (calm clock) fuel job k)
            (is_running status))
        (status-Triple n)
        (λ status.
          running-Triple v n sends _ (is_running status) e
            (λ m k less. drain-Triple v m fuel k e (omega (arith, less, enough))))

-- With no other task and no fault, and on tables that respect the UNIQUE constraint: the loop of the
-- worker on a running job whose body is JSON ends, whatever the gateway answers, if it has more
-- turns than the weight of the pending rows, which is the attempts left of each and one more. Then
-- no recipient of the job is pending, and the job is closed as its counters say.
pub drain-Ended :
    (s : Services) (clock : ℕ → ℕ) (job row : JobRow) (v : Value) (fuel sends : ℕ)
    (w : World Db Action)
    → s.parse job.body ≡ some v
    → Keyed w.store.recipients
    → first_where (has_id job.id) w.store.jobs ≡ some row
    → row.status ≡ "running"
    → suc (weight job.id (max_attempts_of s job) w.store.recipients) ≤ fuel
    → ((drain s (calm clock) fuel job sends w).0 ≡ ok true)
      × Ended job.id (drain s (calm clock) fuel job sends w).1.store
drain-Ended s clock job row v fuel sends w e k found runs enough =
    answered job.id (drain s (calm clock) fuel job sends w).0
      (drain s (calm clock) fuel job sends w).1.store
      ((drain-Triple s clock job v (weight job.id (max_attempts_of s job) w.store.recipients) fuel
          sends e enough).at
        w
        (record {
          keyed = k;
          running = record { row = row; found = found; runs = runs };
          left = omega arith;
        }))
