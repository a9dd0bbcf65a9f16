-- ===== src/Blast/Retried.antt =====
-- What a recipient in the dead letters makes of the closing of its job, after any retry.
use wa_rs.Common.{
  ℕ, suc, ◌≤◌, ◌<◌, ◌≡◌, refl, Bool, true, false, String, Option, none, some, List, [], ◌∷◌, arith,
  ◌==◌, ok, if◌then◌else◌, keep,
}
use wa_rs.Json.{Value}
use wa_rs.Effect.{World, calm}
use wa_rs.Table.{first_where}
use wa_rs.Blast.Rows.{Db, JobRow}
use wa_rs.Blast.Status.{job_status_str}
use wa_rs.Blast.Action.{Action}
use wa_rs.Blast.Statements.{has_id, has_status}
use wa_rs.Blast.Worker.{Services, drain, final_status, max_attempts_of}
use wa_rs.Blast.Drain.Weight.{weight, Keyed}
use wa_rs.Blast.Drain.Ends.{Ended, drain-Ended}
use wa_rs.Blast.Steps.{Reach, Reach-trans, IsHonest, here}
use wa_rs.Blast.Steps.Worker.{drain-Keeps}
use wa_rs.Blast.Steps.History.{Reach-History, Grows, SameJob}

-- A job that has counted a recipient in the dead letters.
abbrev pub HasDead : Option JobRow → Type 0
HasDead none = ⊥
HasDead (some j) = 0 < j.dlq_count

-- The row of a key goes on as the row of that key.
first_where-Grows :
    (id : String) (js ks : List JobRow)
    → Grows SameJob js ks
    → HasDead (first_where (has_id id) js)
    → HasDead (first_where (has_id id) ks)
unfolding first_where
first_where-Grows id [] ks g p = absurd p
first_where-Grows id (j ∷ js) [] g p = absurd g
first_where-Grows id (j ∷ js) (k ∷ ks) (same, g) p =
    found (j.id == id) (rw same.id refl) p (first_where-Grows id js ks g)
  where
    found :
        (b : Bool)
        → (k.id == id) ≡ b
        → HasDead (if b then some j else first_where (has_id id) js)
        → (HasDead (first_where (has_id id) js) → HasDead (first_where (has_id id) ks))
        → HasDead (if k.id == id then some k else first_where (has_id id) ks)
    found true e p rest = rw e (omega (arith, p, same.dlq_count))
    found false e p rest = rw e (rest p)

final_status-HasDead :
    (j : JobRow)
    → 0 < j.dlq_count
    → job_status_str (final_status (some j)) ≡ "completed_with_failures"
unfolding final_status
final_status-HasDead j p = ground (arith, p)

-- That the job is closed as completed with failures, with no recipient left to send to.
pub record ClosedWithFailures (id : String) (d : Db) : Type 0 where
  pub nothing_pending : keep (has_status id "pending") d.recipients ≡ []
  pub row : JobRow
  pub found : first_where (has_id id) d.jobs ≡ some row
  pub closed : row.status ≡ "completed_with_failures"

closed_with :
    (id : String) (d : Db)
    → HasDead (first_where (has_id id) d.jobs)
    → Ended id d
    → ClosedWithFailures id d
closed_with id d p e = record {
  nothing_pending = e.nothing_pending;
  row = e.row;
  found = e.found;
  closed = rw e.closed (final_status-HasDead e.row (rw e.found at p));
}

-- A job with a JSON body that ever counted a recipient in the dead letters, and that later
-- statements, a retry among them or not, left running: with no other task and no fault from then
-- on, on tables that respect the UNIQUE constraint, and with as much fuel as the pending rows need,
-- the loop of the worker ends and closes it as completed with failures, whatever the gateway
-- answers, so also if it delivers to every recipient that was put back.
pub drain-completed_with_failures :
    {c : Bool} (s : Services) (clock : ℕ → ℕ) (job row : JobRow) (v : Value) (fuel sends : ℕ)
    (d : Db) (w : World Db Action)
    → HasDead (first_where (has_id job.id) d.jobs)
    → Reach c d w.store
    → s.parse job.body ≡ some v
    → Keyed w.store.recipients
    → first_where (has_id job.id) w.store.jobs ≡ some row
    → row.status ≡ "running"
    → suc (weight job.id (max_attempts_of s job) w.store.recipients) ≤ fuel
    → ((drain s (calm clock) fuel job sends w).0 ≡ ok true)
      × ClosedWithFailures job.id (drain s (calm clock) fuel job sends w).1.store
drain-completed_with_failures {c} s clock job row v fuel sends d w dead r e k found runs enough = (
  ended.0,
  closed_with job.id after (first_where-Grows job.id d.jobs after.jobs grown dead) ended.1,
)
  where
    after : Db
    after = (drain s (calm clock) fuel job sends w).1.store

    calm-IsHonest : IsHonest c (calm clock)
    calm-IsHonest = record { steps = λ n d. here }

    ended : ((drain s (calm clock) fuel job sends w).0 ≡ ok true) × Ended job.id after
    ended = drain-Ended s clock job row v fuel sends w e k found runs enough

    grown : Grows SameJob d.jobs after.jobs
    grown = (Reach-History (Reach-trans r ((drain-Keeps s calm-IsHonest fuel job sends).at w))).jobs
