-- ===== src/Blast/Steps/Single.antt =====
-- The number of running jobs and the uniqueness of keys over the steps.
use wa_rs.Common.{
  ℕ, ◌+◌, ◌≤◌, ◌≡◌, refl, ◌∙◌, Bool, true, false, String, some, List, [], ◌∷◌, ◌++◌, arith,
  if◌then◌else◌, any, count, ◌==◌, ◌&&◌, eq_iff, Bool-cases, inl, inr,
}
use wa_rs.Blast.Status.{JobStatus, job_status_str, is_terminal}
use wa_rs.Table.{update_where}
use wa_rs.Blast.Rows.{JobRow, RecipientRow, Db}
use wa_rs.Blast.Statements.{
  has_id, insert_row, insert_recipient, claim_row, reset_rows, finish_row, cancel_row, requeue_rows,
  reopen_row, set_row,
}
use wa_rs.Blast.Steps.{
  Step, Reach, Reach-keeps, inserts_job, inserts_recipient, claims, resets, finishes, cancels,
  requeues, reopens, marks, bumps, of_sent, of_failed, of_dlq, bump_of, Counter,
}

-- The primary key: no two rows share an id.
abbrev pub UniqueIds : List JobRow → Type 0
UniqueIds [] = Unit
UniqueIds (j ∷ js) = (any (has_id j.id) js ≡ false) × UniqueIds js

abbrev pub runs : JobRow → Bool
runs j = j.status == "running"

abbrev pub running_count : Db → ℕ
running_count d = count runs d.jobs

any-update :
    (id : String) (p : JobRow → Bool) (f : JobRow → JobRow)
    → ((j : JobRow) → (f j).id ≡ j.id)
    → (js : List JobRow) → any (has_id id) (update_where p f js) ≡ any (has_id id) js
unfolding update_where
any-update id p f same [] = refl
any-update id p f same (j ∷ js) = ground (arith, any-update id p f same js, same j)

UniqueIds-update :
    (p : JobRow → Bool) (f : JobRow → JobRow)
    → ((j : JobRow) → (f j).id ≡ j.id)
    → (js : List JobRow) → UniqueIds js
    → UniqueIds (update_where p f js)
unfolding update_where
UniqueIds-update p f same [] u = tt
UniqueIds-update p f same (j ∷ js) (fresh, u) = (head (p j), UniqueIds-update p f same js u)
  where
    head : (b : Bool) → any (has_id (if b then f j else j).id) (update_where p f js) ≡ false
    head true = rw (same j) (any-update j.id p f same js ∙ fresh)
    head false = any-update j.id p f same js ∙ fresh

any-append_one :
    (id : String) (js : List JobRow) (k : JobRow)
    → any (has_id id) js ≡ false
    → (k.id == id) ≡ false
    → any (has_id id) (js ++ k ∷ []) ≡ false
any-append_one id [] k h e = ground arith
any-append_one id (j ∷ js) k h e = ground (arith, any-append_one id js k)

UniqueIds-append :
    (js : List JobRow) (k : JobRow)
    → any (has_id k.id) js ≡ false
    → UniqueIds js
    → UniqueIds (js ++ k ∷ [])
UniqueIds-append [] k h u = (refl, tt)
UniqueIds-append (j ∷ js) k h (fresh, u) = (
  any-append_one j.id js k fresh (ground (arith, eq_iff k.id j.id, eq_iff j.id k.id)),
  UniqueIds-append js k (ground arith) u,
)

count-update_le :
    (q p : JobRow → Bool) (f : JobRow → JobRow)
    → ((j : JobRow) → p j ≡ true → q (f j) ≡ true → q j ≡ true)
    → (js : List JobRow) → count q (update_where p f js) ≤ count q js
unfolding update_where
count-update_le q p f h [] = omega arith
count-update_le q p f h (j ∷ js) = ground (arith, count-update_le q p f h js, h j)

count-update_add :
    (q p : JobRow → Bool) (f : JobRow → JobRow) (js : List JobRow)
    → count q (update_where p f js) ≤ count q js + count p js
unfolding update_where
count-update_add q p f [] = omega arith
count-update_add q p f (j ∷ js) = ground (arith, count-update_add q p f js)

count_of_any :
    (id : String) (q : JobRow → Bool) (js : List JobRow)
    → any (has_id id) js ≡ false
    → count (λ j. (j.id == id) && q j) js ≡ 0
count_of_any id q [] h = refl
count_of_any id q (j ∷ js) h = ground (arith, count_of_any id q js)

count_unique :
    (id : String) (q : JobRow → Bool) (js : List JobRow)
    → UniqueIds js
    → count (λ j. (j.id == id) && q j) js ≤ 1
count_unique id q [] u = omega arith
count_unique id q (j ∷ js) (fresh, u) = elim (Bool-cases (j.id == id)) [
  | inl hit ↦
      let e : j.id ≡ id = (eq_iff j.id id).0 hit in
      ground (arith, count_of_any id q js (rw e at fresh))
  | inr miss ↦ ground (arith, count_unique id q js u)
]

count-append_one :
    (q : JobRow → Bool) (js : List JobRow) (k : JobRow)
    → q k ≡ false
    → count q (js ++ k ∷ []) ≡ count q js
count-append_one q [] k e = ground arith
count-append_one q (j ∷ js) k e = ground (arith, count-append_one q js k e)

terminal_not_running :
    (s : JobStatus) → is_terminal s ≡ true → (job_status_str s == "running") ≡ false
terminal_not_running JobStatus.pending e = cc
terminal_not_running JobStatus.running e = cc
terminal_not_running JobStatus.completed e = refl
terminal_not_running JobStatus.completed_with_failures e = refl
terminal_not_running JobStatus.cancelled e = refl
terminal_not_running JobStatus.failed e = refl

-- Keys stay unique, and `n` bounds the running jobs.
pub record AtMost (n : ℕ) (d : Db) : Type 0 where
  pub unique : UniqueIds d.jobs
  pub bound : running_count d ≤ n

updated :
    (n : ℕ) (d : Db) (p : JobRow → Bool) (f : JobRow → JobRow)
    → ((j : JobRow) → (f j).id ≡ j.id)
    → ((j : JobRow) → p j ≡ true → runs (f j) ≡ true → runs j ≡ true)
    → AtMost n d
    → AtMost n (record d { jobs = update_where p f d.jobs })
updated n d p f same quiet a = record {
  unique = UniqueIds-update p f same d.jobs a.unique;
  bound = omega (arith, count-update_le runs p f quiet d.jobs, a.bound);
}

added :
    (n : ℕ) (d : Db) (b : Bool) (row : JobRow)
    → any (has_id row.id) d.jobs ≡ b
    → runs row ≡ false
    → AtMost n d
    → AtMost n (if b then d else record d { jobs = d.jobs ++ row ∷ [] })
added n d true row e q a = a
added n d false row e q a = record {
  unique = UniqueIds-append d.jobs row e a.unique;
  bound = omega (arith, count-append_one runs d.jobs row q, a.bound);
}

untouched :
    (n : ℕ) (d : Db) (b : Bool) (rs : List RecipientRow) (m : ℕ)
    → AtMost n d
    → AtMost n (if b then d else record d { recipients = rs; next_id = m })
untouched n d true rs m a = a
untouched n d false rs m a = record { unique = a.unique; bound = a.bound }

bump_id : (k : Counter) (j : JobRow) → (bump_of k j).id ≡ j.id
bump_id of_sent j = refl
bump_id of_failed j = refl
bump_id of_dlq j = refl

bump_runs : (k : Counter) (j : JobRow) → runs (bump_of k j) ≡ true → runs j ≡ true
bump_runs of_sent j h = h
bump_runs of_failed j h = h
bump_runs of_dlq j h = h

Step-AtMost : (n : ℕ) (d e : Db) → Step false d e → AtMost n d → AtMost n e
unfolding insert_row insert_recipient claim_row reset_rows finish_row cancel_row requeue_rows
    reopen_row set_row
Step-AtMost n d e (inserts_job id session endpoint body options total skipped at now) a =
    added n d _ _ refl refl a
Step-AtMost n d e (inserts_recipient job session row now) a = untouched n d _ _ _ a
Step-AtMost n d e (claims id now allowed) a = cc
Step-AtMost n d e (resets id now) a = record { unique = a.unique; bound = a.bound }
Step-AtMost n d e (finishes id s now t) a =
    updated n d _ _ (λ j. refl) (λ j hit run. ground (arith, terminal_not_running s t)) a
Step-AtMost n d e (cancels session id now) a = updated n d _ _ (λ j. refl) (λ j hit run. cc) a
Step-AtMost n d e (requeues id now) a = record { unique = a.unique; bound = a.bound }
Step-AtMost n d e (reopens id) a = updated n d _ _ (λ j. refl) (λ j hit run. cc) a
Step-AtMost n d e (marks id recipient m now) a = record { unique = a.unique; bound = a.bound }
Step-AtMost n d e (bumps id k) a = updated n d _ _ (bump_id k) (λ j hit run. bump_runs k j run) a

pub Reach-AtMost : (n : ℕ) (d e : Db) → Reach false d e → AtMost n d → AtMost n e
Reach-AtMost n d e r = Reach-keeps (AtMost n) (Step-AtMost n) r

pub claim_row-AtMost :
    (id : String) (now : ℕ) (d : Db) → AtMost 0 d → AtMost 1 (claim_row id now d).1
unfolding claim_row
claim_row-AtMost id now d a = record {
  unique = UniqueIds-update _ _ (λ j. refl) d.jobs a.unique;
  bound = omega (
    arith,
    count-update_add runs (λ j. (j.id == id) && (j.status == "pending"))
        (λ j. record j { status = "running"; started_at = some now }) d.jobs,
    count_unique id (λ j. j.status == "pending") d.jobs a.unique,
    a.bound,
  );
}
