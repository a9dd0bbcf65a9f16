-- ===== src/Blast/Steps/Lifecycle.antt =====
-- The lifecycle of a job row: its status is one of the six, and its stamps fit it.
use wa_rs.Common.{
  ℕ, ◌≡◌, refl, Bool, true, false, Option, none, some, List, [], ◌∷◌, ◌++◌, if◌then◌else◌, All,
  ◌==◌, ◌&&◌,
}
use wa_rs.Blast.Status.{JobStatus, job_status_str, is_terminal}
use wa_rs.Blast.Status.Codec.{job_status-eq}
use wa_rs.Table.{update_where}
use wa_rs.Blast.Rows.{JobRow, RecipientRow, Db}
use wa_rs.Blast.Statements.{
  insert_row, insert_recipient, claim_row, reset_rows, finish_row, cancel_row, requeue_rows,
  reopen_row, set_row,
}
use wa_rs.Blast.Steps.{
  Step, Reach, Reach-keeps, inserts_job, inserts_recipient, claims, resets, finishes, cancels,
  requeues, reopens, marks, bumps, of_sent, of_failed, of_dlq, bump_of, Counter,
}

-- The stamps that a status asks for.
abbrev pub Stamps : JobStatus → Option ℕ → Option ℕ → Type 0
Stamps JobStatus.pending started finished = finished ≡ none
Stamps JobStatus.running started finished = ((t : ℕ) × (started ≡ some t)) × (finished ≡ none)
Stamps _ started finished = (t : ℕ) × (finished ≡ some t)

pub record IsLifecycle (j : JobRow) : Type 0 where
  pub state : JobStatus
  pub named : j.status ≡ job_status_str state
  pub stamped : Stamps state j.started_at j.finished_at

abbrev pub AreLifecycles : Db → Type 0
AreLifecycles d = All IsLifecycle d.jobs

All-append_one :
    {A : Type 0} (P : A → Type 0) (xs : List A) (y : A) → All P xs → P y → All P (xs ++ y ∷ [])
All-append_one P [] y h p = (p, tt)
All-append_one P (x ∷ xs) y (q, h) p = (q, All-append_one P xs y h p)

All-update :
    {A : Type 0} (P : A → Type 0) (p : A → Bool) (f : A → A)
    → ((x : A) → p x ≡ true → P x → P (f x))
    → (xs : List A) → All P xs
    → All P (update_where p f xs)
unfolding update_where
All-update P p f h [] a = tt
All-update P p f h (x ∷ xs) (q, a) = (one (p x) refl, All-update P p f h xs a)
  where
    one : (b : Bool) → p x ≡ b → P (if b then f x else x)
    one true e = h x e q
    one false e = q

claimed :
    (now : ℕ) (j : JobRow)
    → (j.status == "pending") ≡ true
    → IsLifecycle j
    → IsLifecycle (record j { status = "running"; started_at = some now })
claimed now j hit l = record {
  state = JobStatus.running;
  named = refl;
  stamped = (
    (now, refl),
    unfinished l.state (job_status-eq j.status l.state JobStatus.pending l.named hit) l.stamped,
  );
}
  where
    unfinished :
        (s : JobStatus)
        → s ≡ JobStatus.pending
        → Stamps s j.started_at j.finished_at
        → j.finished_at ≡ none
    unfinished JobStatus.pending e h = h
    unfinished JobStatus.running e h = cc
    unfinished JobStatus.completed e h = cc
    unfinished JobStatus.completed_with_failures e h = cc
    unfinished JobStatus.cancelled e h = cc
    unfinished JobStatus.failed e h = cc

finished :
    (now : ℕ) (s : JobStatus) (j : JobRow)
    → is_terminal s ≡ true
    → IsLifecycle (record j { status = job_status_str s; finished_at = some now })
finished now s j t = record { state = s; named = refl; stamped = terminal s t }
  where
    terminal : (s : JobStatus) → is_terminal s ≡ true → Stamps s j.started_at (some now)
    terminal JobStatus.pending e = cc
    terminal JobStatus.running e = cc
    terminal JobStatus.completed e = (now, refl)
    terminal JobStatus.completed_with_failures e = (now, refl)
    terminal JobStatus.cancelled e = (now, refl)
    terminal JobStatus.failed e = (now, refl)

bumped : (c : Counter) (j : JobRow) → IsLifecycle j → IsLifecycle (bump_of c j)
bumped of_sent j l = record { state = l.state; named = l.named; stamped = l.stamped }
bumped of_failed j l = record { state = l.state; named = l.named; stamped = l.stamped }
bumped of_dlq j l = record { state = l.state; named = l.named; stamped = l.stamped }

and_right : (a b : Bool) → (a && b) ≡ true → b ≡ true
and_right true b h = h
and_right false b h = cc

job_added :
    (d : Db) (b : Bool) (row : JobRow)
    → IsLifecycle row
    → AreLifecycles d
    → AreLifecycles (if b then d else record d { jobs = d.jobs ++ row ∷ [] })
job_added d true row l a = a
job_added d false row l a = All-append_one IsLifecycle d.jobs row a l

jobs_kept :
    (d : Db) (b : Bool) (rs : List RecipientRow) (n : ℕ)
    → AreLifecycles d
    → AreLifecycles (if b then d else record d { recipients = rs; next_id = n })
jobs_kept d true rs n a = a
jobs_kept d false rs n a = a

-- Every step keeps the rows of the jobs in a lifecycle.
Step-AreLifecycles : {c : Bool} (d e : Db) → Step c d e → AreLifecycles d → AreLifecycles e
unfolding insert_row insert_recipient claim_row reset_rows finish_row cancel_row requeue_rows
    reopen_row set_row
Step-AreLifecycles d e (inserts_job id session endpoint body options total skipped at now) a =
    job_added d _ _ (record { state = JobStatus.pending; named = refl; stamped = refl }) a
Step-AreLifecycles d e (inserts_recipient job session row now) a = jobs_kept d _ _ _ a
Step-AreLifecycles d e (claims id now allowed) a =
    All-update IsLifecycle _ _ (λ j hit l. claimed now j (and_right _ _ hit) l) d.jobs a
Step-AreLifecycles d e (resets id now) a = a
Step-AreLifecycles d e (finishes id s now t) a =
    All-update IsLifecycle _ _ (λ j hit l. finished now s j t) d.jobs a
Step-AreLifecycles d e (cancels session id now) a =
    All-update IsLifecycle _ _ (λ j hit l. finished now JobStatus.cancelled j refl) d.jobs a
Step-AreLifecycles d e (requeues id now) a = a
Step-AreLifecycles d e (reopens id) a =
    All-update IsLifecycle _ _
      (λ j hit l. record { state = JobStatus.pending; named = refl; stamped = refl }) d.jobs a
Step-AreLifecycles d e (marks id recipient m now) a = a
Step-AreLifecycles d e (bumps id c) a =
    All-update IsLifecycle _ _ (λ j hit l. bumped c j l) d.jobs a

pub Reach-AreLifecycles : {c : Bool} {d e : Db} → Reach c d e → AreLifecycles d → AreLifecycles e
Reach-AreLifecycles r = Reach-keeps AreLifecycles Step-AreLifecycles r
