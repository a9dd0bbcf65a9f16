-- ===== src/Blast/Drain/Rules.antt =====
-- What the statements of the worker do to the recipient that it is at, with no other task and no
-- fault.
use wa_rs.Common.{
  ℕ, ◌≡◌, ◌∙◌, refl, Bool, String, Option, some, List, [], ◌∷◌, arith, Bool-cases, inl, inr, ap,
  Result, ok, err,
}
use wa_rs.Effect.{DbError, query, ◌>>=◌}
use wa_rs.Effect.Triple.{Triple, >>=-Triple}
use wa_rs.Table.{update_where, first_where}
use wa_rs.Blast.Rows.{JobRow, RecipientRow, Db}
use wa_rs.Blast.Action.{Action}
use wa_rs.Effect.{calm}
use wa_rs.Blast.Statements.{has_id, is_recipient, set_row, coalesce}
use wa_rs.Blast.Store.{update_recipient, bump_counter}
use wa_rs.Blast.Worker.{Work}
use wa_rs.Blast.Drain.Weight.{KeepsKey}

-- A statement about the answer of a task that makes no error.
abbrev pub Yields : {A : Type 0} → (A → Db → Type 0) → Result DbError A → Db → Type 0
Yields Q (ok a) d = Q a d
Yields Q (err e) d = ⊥

pub Yields-map :
    {A : Type 0} (P Q : A → Db → Type 0) (x : Result DbError A) (d : Db)
    → ((a : A) → P a d → Q a d)
    → Yields P x d
    → Yields Q x d
Yields-map P Q (ok a) d h p = h a p
Yields-map P Q (err e) d h p = p

pub then-Triple :
    {A B : Type 0} {P : Db → Type 0} {R : Result DbError B → Db → Type 0} (Q : A → Db → Type 0)
    (m : Work A) (f : A → Work B)
    → Triple P m (Yields Q)
    → ((a : A) → Triple (Q a) (f a) R)
    → Triple P (m >>= f) R
then-Triple Q m f hm hf = >>=-Triple (Yields Q) m f hm hf (λ e d q. absurd q)

pub calm-Triple :
    {A : Type 0} {P : Db → Type 0} {Q : A → Db → Type 0} (clock : ℕ → ℕ)
    (statement : ℕ → Db → A × Db)
    → ((now : ℕ) (d : Db) → P d → Q (statement now d).0 (statement now d).1)
    → Triple {Act = Action} P (query (calm clock) statement) (Yields Q)
unfolding query
calm-Triple clock statement h = record { at = λ w p. h (clock w.queries) w.store p }

-- The row of the job, as the worker reads it: running.
pub record Running (id : String) (jobs : List JobRow) : Type 0 where
  pub row : JobRow
  pub found : first_where (has_id id) jobs ≡ some row
  pub runs : row.status ≡ "running"

pub first_where-update :
    (id : String) (f : JobRow → JobRow) (js : List JobRow) (j : JobRow)
    → ((k : JobRow) → (f k).id ≡ k.id)
    → first_where (has_id id) js ≡ some j
    → first_where (has_id id) (update_where (has_id id) f js) ≡ some (f j)
unfolding first_where update_where
first_where-update id f [] j same e = cc
first_where-update id f (k ∷ ks) j same e =
    ground (arith, same k, first_where-update id f ks j same)

update-update :
    (job recipient : String) (f g : RecipientRow → RecipientRow) (rs : List RecipientRow)
    → KeepsKey f
    → update_where (is_recipient job recipient) g (update_where (is_recipient job recipient) f rs)
      ≡ update_where (is_recipient job recipient) (λ x. g (f x)) rs
unfolding update_where
update-update job recipient f g [] k = refl
update-update job recipient f g (x ∷ rs) k =
    let (a, b) = k x in
    elim (Bool-cases (is_recipient job recipient x)) [
      | inl hit ↦ rw hit (rw a (rw b (rw hit (rw (update-update job recipient f g rs k) refl))))
      | inr miss ↦ rw miss (rw miss (rw (update-update job recipient f g rs k) refl))
    ]

-- The recipients after the row of `r` was changed by `h`, the job still running.
pub record Changed (P : (RecipientRow → RecipientRow) → Type 0) (job : JobRow) (r : RecipientRow)
    (rs : List RecipientRow) (d : Db) : Type 0 where
  pub h : RecipientRow → RecipientRow
  pub rows : d.recipients ≡ update_where (is_recipient job.id r.recipient) h rs
  pub keeps : KeepsKey h
  pub good : P h
  pub running : Running job.id d.jobs

-- What marking a row as `sending` does to it.
abbrev pub KeepsAttempts : (RecipientRow → RecipientRow) → Type 0
KeepsAttempts h = (x : RecipientRow) → (h x).attempts ≡ x.attempts

pub update-nothing :
    (p : RecipientRow → Bool) (rs : List RecipientRow) → rs ≡ update_where p (λ x. x) rs
unfolding update_where
update-nothing p [] = refl
update-nothing p (x ∷ rs) = ground (arith, update-nothing p rs)

-- The statement of `update_recipient` on a row.
abbrev pub updated :
    (RecipientRow → RecipientRow) → Option String → Option String → ℕ → RecipientRow → RecipientRow
updated set message_id error now x = record (set x) {
  message_id = coalesce message_id x.message_id;
  last_error = error;
  updated_at = now;
}

module _ (clock : ℕ → ℕ) (job : JobRow) (r : RecipientRow) (rs : List RecipientRow) where
  pub update-Triple :
      {P Q : (RecipientRow → RecipientRow) → Type 0} (set : RecipientRow → RecipientRow)
      (message_id error : Option String)
      → KeepsKey set
      → ((h : RecipientRow → RecipientRow) (now : ℕ)
          → KeepsKey h
          → P h
          → Q (λ x. updated set message_id error now (h x)))
      → Triple {Act = Action}
          (Changed P job r rs)
          (update_recipient (calm clock) job.id r.recipient set message_id error)
          (Yields (λ _. Changed Q job r rs))
  unfolding update_recipient set_row
  update-Triple set message_id error k good = calm-Triple clock _ λ now d c. record {
    h = λ x. updated set message_id error now (c.h x);
    rows =
        ap (update_where (is_recipient job.id r.recipient) (updated set message_id error now))
          c.rows
        ∙ update-update job.id r.recipient c.h (updated set message_id error now) rs c.keeps;
    keeps = λ x. ((k (c.h x)).0 ∙ (c.keeps x).0, (k (c.h x)).1 ∙ (c.keeps x).1);
    good = good c.h now c.keeps c.good;
    running = c.running;
  }

  pub bump-Triple :
      {P : (RecipientRow → RecipientRow) → Type 0} (f : JobRow → JobRow)
      → ((j : JobRow) → ((f j).id ≡ j.id) × ((f j).status ≡ j.status))
      → Triple {Act = Action}
          (Changed P job r rs)
          (bump_counter (calm clock) job.id f)
          (Yields (λ _. Changed P job r rs))
  unfolding bump_counter
  bump-Triple f same = calm-Triple clock _ λ now d c. record {
    h = c.h;
    rows = c.rows;
    keeps = c.keeps;
    good = c.good;
    running = record {
      row = f c.running.row;
      found = first_where-update job.id f d.jobs c.running.row (λ k. (same k).0) c.running.found;
      runs = (same c.running.row).1 ∙ c.running.runs;
    };
  }
