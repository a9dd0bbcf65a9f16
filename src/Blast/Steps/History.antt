-- ===== src/Blast/Steps/History.antt =====
-- The history of the rows of db/blast.rs: identity, payload, counters and message ids over the
-- steps.
use wa_rs.Common.{
  ℕ, ◌≤◌, ◌≡◌, ◌∙◌, Bool, true, false, String, Option, none, some, List, [], ◌∷◌, ◌++◌, arith,
  if◌then◌else◌,
}
use wa_rs.Table.{update_where}
use wa_rs.Blast.Rows.{JobRow, RecipientRow, Db}
use wa_rs.Blast.Statements.{
  insert_row, insert_recipient, claim_row, reset_rows, finish_row, cancel_row, requeue_rows,
  reopen_row, set_row, coalesce,
}
use wa_rs.Blast.Steps.{
  Step, Reach, here, next, inserts_job, inserts_recipient, claims, resets, finishes, cancels,
  requeues, reopens, marks, bumps, as_sending, as_sent, as_retry, as_dlq, of_sent, of_failed,
  of_dlq, set_of, bump_of, Counter, Mark, message_of, error_of,
}

-- The rows of a table go on in the same places, each related to what it was; rows may be added.
abbrev pub Grows {ℓ} : {A : Type ℓ} → (A → A → Type 0) → List A → List A → Type 0
Grows Q [] ys = Unit
Grows Q (x ∷ xs) [] = ⊥
Grows Q (x ∷ xs) (y ∷ ys) = Q x y × Grows Q xs ys

module _ {A : Type 0} (Q : A → A → Type 0) (same : (x : A) → Q x x) where
  Grows-append : (xs ys : List A) → Grows Q xs (xs ++ ys)
  Grows-append [] ys = tt
  Grows-append (x ∷ xs) ys = (same x, Grows-append xs ys)

  Grows-refl : (xs : List A) → Grows Q xs xs
  Grows-refl [] = tt
  Grows-refl (x ∷ xs) = (same x, Grows-refl xs)

  Grows-update :
      (p : A → Bool) (f : A → A)
      → ((x : A) → Q x (f x))
      → (xs : List A) → Grows Q xs (update_where p f xs)
  unfolding update_where
  Grows-update p f h [] = tt
  Grows-update p f h (x ∷ xs) = (one (p x), Grows-update p f h xs)
    where
      one : (b : Bool) → Q x (if b then f x else x)
      one true = h x
      one false = same x

Grows-trans :
    {A : Type 0} (Q : A → A → Type 0)
    → ((x y z : A) → Q x y → Q y z → Q x z)
    → (xs ys zs : List A) → Grows Q xs ys
    → Grows Q ys zs
    → Grows Q xs zs
Grows-trans Q t [] ys zs g h = tt
Grows-trans Q t (x ∷ xs) [] zs g h = absurd g
Grows-trans Q t (x ∷ xs) (y ∷ ys) [] g h = absurd h
Grows-trans Q t (x ∷ xs) (y ∷ ys) (z ∷ zs) (q, g) (q', h) =
    (t x y z q q', Grows-trans Q t xs ys zs g h)

pub record SameJob (j k : JobRow) : Type 0 where
  pub id : k.id ≡ j.id
  pub session_id : k.session_id ≡ j.session_id
  pub endpoint : k.endpoint ≡ j.endpoint
  pub body : k.body ≡ j.body
  pub options : k.options ≡ j.options
  pub total : k.total ≡ j.total
  pub skipped_dup_count : k.skipped_dup_count ≡ j.skipped_dup_count
  pub send_at : k.send_at ≡ j.send_at
  pub created_at : k.created_at ≡ j.created_at
  pub sent_count : j.sent_count ≤ k.sent_count
  pub failed_count : j.failed_count ≤ k.failed_count
  pub dlq_count : j.dlq_count ≤ k.dlq_count

pub record SameRecipient (r q : RecipientRow) : Type 0 where
  pub id : q.id ≡ r.id
  pub job_id : q.job_id ≡ r.job_id
  pub session_id : q.session_id ≡ r.session_id
  pub recipient : q.recipient ≡ r.recipient
  pub message_id : q.message_id ≡ none → r.message_id ≡ none

pub record History (d e : Db) : Type 0 where
  pub jobs : Grows SameJob d.jobs e.jobs
  pub recipients : Grows SameRecipient d.recipients e.recipients

SameJob-refl : (j : JobRow) → SameJob j j
SameJob-refl j = ground arith

SameJob-trans : (i j k : JobRow) → SameJob i j → SameJob j k → SameJob i k
SameJob-trans i j k a b = ground arith

SameRecipient-refl : (r : RecipientRow) → SameRecipient r r
SameRecipient-refl r = ground arith

SameRecipient-trans :
    (p q r : RecipientRow) → SameRecipient p q → SameRecipient q r → SameRecipient p r
SameRecipient-trans p q r a b = record {
  id = b.id ∙ a.id;
  job_id = b.job_id ∙ a.job_id;
  session_id = b.session_id ∙ a.session_id;
  recipient = b.recipient ∙ a.recipient;
  message_id = λ e. a.message_id (b.message_id e);
}

History-refl : (d : Db) → History d d
History-refl d = record {
  jobs = Grows-refl SameJob SameJob-refl d.jobs;
  recipients = Grows-refl SameRecipient SameRecipient-refl d.recipients;
}

History-trans : (d e f : Db) → History d e → History e f → History d f
History-trans d e f a b = record {
  jobs = Grows-trans SameJob SameJob-trans d.jobs e.jobs f.jobs a.jobs b.jobs;
  recipients =
      Grows-trans SameRecipient SameRecipient-trans d.recipients e.recipients f.recipients
        a.recipients b.recipients;
}

jobs_changed :
    (d : Db) (p : JobRow → Bool) (f : JobRow → JobRow)
    → ((j : JobRow) → SameJob j (f j))
    → History d (record d { jobs = update_where p f d.jobs })
jobs_changed d p f h = record {
  jobs = Grows-update SameJob SameJob-refl p f h d.jobs;
  recipients = Grows-refl SameRecipient SameRecipient-refl d.recipients;
}

recipients_changed :
    (d : Db) (p : RecipientRow → Bool) (f : RecipientRow → RecipientRow)
    → ((r : RecipientRow) → SameRecipient r (f r))
    → History d (record d { recipients = update_where p f d.recipients })
recipients_changed d p f h = record {
  jobs = Grows-refl SameJob SameJob-refl d.jobs;
  recipients = Grows-update SameRecipient SameRecipient-refl p f h d.recipients;
}

bump-SameJob : (c : Counter) (j : JobRow) → SameJob j (bump_of c j)
bump-SameJob of_sent j = ground arith
bump-SameJob of_failed j = ground arith
bump-SameJob of_dlq j = ground arith

coalesce-eq-none : (o p : Option String) → coalesce o p ≡ none → p ≡ none
coalesce-eq-none none p e = e
coalesce-eq-none (some a) p e = cc

mark-SameRecipient :
    (m : Mark) (now : ℕ) (r : RecipientRow)
    → SameRecipient r (record (set_of m r) {
      message_id = coalesce (message_of m) r.message_id;
      last_error = error_of m;
      updated_at = now;
    })
mark-SameRecipient as_sending now r = ground arith
mark-SameRecipient (as_sent x) now r = ground (arith, coalesce-eq-none (some x) r.message_id)
mark-SameRecipient (as_retry e) now r = ground arith
mark-SameRecipient (as_dlq e) now r = ground arith

job_inserted :
    (d : Db) (b : Bool) (row : JobRow)
    → History d (if b then d else record d { jobs = d.jobs ++ row ∷ [] })
job_inserted d true row = History-refl d
job_inserted d false row = record {
  jobs = Grows-append SameJob SameJob-refl d.jobs (row ∷ []);
  recipients = Grows-refl SameRecipient SameRecipient-refl d.recipients;
}

inserted :
    (d e : Db) (b : Bool) (row : RecipientRow) (n : ℕ)
    → History d (if b then d else record d { recipients = d.recipients ++ row ∷ []; next_id = n })
inserted d e true row n = History-refl d
inserted d e false row n = record {
  jobs = Grows-refl SameJob SameJob-refl d.jobs;
  recipients = Grows-append SameRecipient SameRecipient-refl d.recipients (row ∷ []);
}

Step-History : {c : Bool} (d e : Db) → Step c d e → History d e
unfolding insert_row insert_recipient claim_row reset_rows finish_row cancel_row requeue_rows
    reopen_row set_row
Step-History d e (inserts_job id session endpoint body options total skipped at now) =
    job_inserted d _ _
Step-History d e (inserts_recipient job session row now) = inserted d d _ _ _
Step-History d e (claims id now allowed) = jobs_changed d _ _ (λ j. ground arith)
Step-History d e (resets id now) = recipients_changed d _ _ (λ r. ground arith)
Step-History d e (finishes id s now t) = jobs_changed d _ _ (λ j. ground arith)
Step-History d e (cancels session id now) = jobs_changed d _ _ (λ j. ground arith)
Step-History d e (requeues id now) = recipients_changed d _ _ (λ r. ground arith)
Step-History d e (reopens id) = jobs_changed d _ _ (λ j. ground arith)
Step-History d e (marks id recipient m now) = recipients_changed d _ _ (mark-SameRecipient m now)
Step-History d e (bumps id c) = jobs_changed d _ _ (bump-SameJob c)

pub Reach-History : {c : Bool} {d e : Db} → Reach c d e → History d e
Reach-History {d} here = History-refl d
Reach-History {d} (next {e} {f} r s) = History-trans d e f (Reach-History r) (Step-History e f s)
