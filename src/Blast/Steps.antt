-- ===== src/Blast/Steps.antt =====
-- The statements of db/blast.rs as a step relation on the tables.
pub mod Queries
pub mod History
pub mod Lifecycle
pub mod Single
pub mod Sequential
pub mod Worker
pub mod Handlers
use wa_rs.Common.{ℕ, ◌+◌, ◌≡◌, refl, Bool, true, false, String, Option}
use wa_rs.Effect.{Env}
use wa_rs.Effect.Keeps.{IsRespected}
use wa_rs.Blast.Status.{JobStatus, job_status_str, is_terminal}
use wa_rs.Blast.Rows.{JobRow, RecipientRow, Db, set_jobs}
use wa_rs.Blast.Statements.{
  has_id, insert_row, insert_recipient, claim_row, reset_rows, finish_row, cancel_row, requeue_rows,
  reopen_row, set_row,
}

-- The four ways that a recipient's row is marked.
pub data Mark : Type 0 where
  as_sending : Mark
  as_sent as_retry as_dlq : String → Mark

-- The assignments of a mark, its message id and its error.
abbrev pub set_of : Mark → RecipientRow → RecipientRow
set_of as_sending r = record r { status = "sending" }
set_of (as_sent _) r = record r { status = "sent" }
set_of (as_retry _) r = record r { status = "pending"; attempts = r.attempts + 1 }
set_of (as_dlq _) r = record r { status = "dlq"; attempts = r.attempts + 1 }

abbrev pub message_of : Mark → Option String
message_of as_sending = Option.none
message_of (as_sent m) = Option.some m
message_of (as_retry _) = Option.none
message_of (as_dlq _) = Option.none

abbrev pub error_of : Mark → Option String
error_of as_sending = Option.none
error_of (as_sent _) = Option.none
error_of (as_retry e) = Option.some e
error_of (as_dlq e) = Option.some e

pub data Counter : Type 0 where
  of_sent of_failed of_dlq : Counter

abbrev pub bump_of : Counter → JobRow → JobRow
bump_of of_sent j = record j { sent_count = j.sent_count + 1 }
bump_of of_failed j = record j { failed_count = j.failed_count + 1 }
bump_of of_dlq j = record j { dlq_count = j.dlq_count + 1 }

-- `c` says whether the claim of a job is among the steps: only the worker makes it.
pub data Step (c : Bool) (d : Db) : Db → Type 0 where
  inserts_job :
      (id session_id endpoint body options : String) (total skipped : ℕ) (at : Option ℕ) (now : ℕ)
      → Step c d (insert_row id session_id endpoint body options total skipped at now d)
  inserts_recipient :
      (job_id session_id : String) (row : String × String) (now : ℕ)
      → Step c d (insert_recipient job_id session_id row now d)
  claims : (id : String) (now : ℕ) → c ≡ true → Step c d (claim_row id now d).1
  resets : (id : String) (now : ℕ) → Step c d (reset_rows id now d).1
  finishes :
      (id : String) (s : JobStatus) (now : ℕ)
      → is_terminal s ≡ true
      → Step c d (finish_row id (job_status_str s) now d).1
  cancels : (session_id id : String) (now : ℕ) → Step c d (cancel_row session_id id now d).1
  requeues : (id : String) (now : ℕ) → Step c d (requeue_rows id now d).1
  reopens : (id : String) → Step c d (reopen_row id d).1
  marks :
      (id recipient : String) (m : Mark) (now : ℕ)
      → Step c d (set_row id recipient (set_of m) (message_of m) (error_of m) now d).1
  bumps : (id : String) (k : Counter) → Step c d (set_jobs d (has_id id) (bump_of k))

pub data Reach (c : Bool) (d : Db) : Db → Type 0 where
  here : Reach c d d
  next : {e f : Db} → Reach c d e → Step c e f → Reach c d f

pub Reach-trans : {c : Bool} {d e f : Db} → Reach c d e → Reach c e f → Reach c d f
Reach-trans r here = r
Reach-trans r (next q s) = next (Reach-trans r q) s

pub one-Step : {c : Bool} {d e : Db} → Step c d e → Reach c d e
one-Step s = next here s

-- The other tasks change the tables by steps, too.
pub record IsHonest (c : Bool) (env : Env Db) : Type 0 where
  pub steps : (n : ℕ) (d : Db) → Reach c d (env.meanwhile n d)

pub honest : {c : Bool} {env : Env Db} → IsHonest c env → IsRespected (Reach c) env
honest h = record { reflexive = λ d. here; transitive = λ d e f. Reach-trans; others = h.steps }

-- What every step keeps is kept all the way.
pub Reach-keeps :
    {c : Bool} (P : Db → Type 0)
    → ((d e : Db) → Step c d e → P d → P e)
    → {d e : Db} → Reach c d e
    → P d
    → P e
Reach-keeps P keep here p = p
Reach-keeps P keep (next {e} {f} r s) p = keep e f s (Reach-keeps P keep r p)
