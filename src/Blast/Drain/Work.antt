-- ===== src/Blast/Drain/Work.antt =====
-- A batch of handlers/blast.rs with no other task and no fault, and the work left after it.
use wa_rs.Common.{ℕ, suc, ◌≤◌, ◌≡◌, refl, some, List, [], ◌∷◌, arith, keep, take}
use wa_rs.Json.{Value}
use wa_rs.Effect.Triple.{Triple}
use wa_rs.Blast.Rows.{JobRow, RecipientRow, Db}
use wa_rs.Effect.{calm}
use wa_rs.Blast.Statements.{has_status, is_recipient}
use wa_rs.Blast.Worker.{Services, max_attempts_of, batch_size, process_recipient, process_batch}
use wa_rs.Blast.Drain.Weight.{
  weight, Keyed, Ready, update_where-weight, update_where-Keyed, update_where-Ready,
}
use wa_rs.Blast.Drain.Batch.{batch-Ready}
use wa_rs.Blast.Drain.Rules.{Running, Yields, Yields-map, then-Triple}
use wa_rs.Blast.Drain.Send.{Settled, recipient-Triple, as_sent, settled_weighs}

module _ (s : Services) (clock : ℕ → ℕ) (job : JobRow) where
  abbrev pub work_left : Db → ℕ
  work_left d = weight job.id (max_attempts_of s job) d.recipients

  -- The tables in the loop, with at most `n` of work left.
  pub record Working (n : ℕ) (d : Db) : Type 0 where
    pub keyed : Keyed d.recipients
    pub running : Running job.id d.jobs
    pub left : work_left d ≤ n

  -- The tables within a batch.
  pub record Batching (n : ℕ) (bs : List RecipientRow) (d : Db) : Type 0 where
    pub working : Working n d
    pub ready : Ready job.id bs d.recipients

  next_recipient :
      (m n : ℕ) (b : RecipientRow) (bs rs : List RecipientRow) (d : Db)
      → m ≤ suc n
      → Keyed rs
      → weight job.id (max_attempts_of s job) rs ≤ m
      → Ready job.id (b ∷ bs) rs
      → Settled s clock job b rs d
      → Batching n bs d
  next_recipient m n b bs rs d room k left r c = record {
    working = record {
      keyed =
          rw c.rows (update_where-Keyed job.id (is_recipient job.id b.recipient) c.h rs c.keeps k);
      running = c.running;
      left = rw c.rows (
          omega (
            arith,
            left,
            room,
            update_where-weight job.id (max_attempts_of s job) b bs c.h rs c.good r,
          ));
    };
    ready = rw c.rows (update_where-Ready job.id b bs c.h rs c.keeps r);
  }

  recipient-Batching :
      (v : Value) (m n sends : ℕ) (b : RecipientRow) (bs : List RecipientRow)
      → s.parse job.body ≡ some v
      → m ≤ suc n
      → Triple
          (Batching m (b ∷ bs))
          (process_recipient s (calm clock) job b sends)
          (Yields (λ _. Batching n bs))
  recipient-Batching v m n sends b bs e room = record {
    at = λ w p.
        Yields-map (λ _. Settled s clock job b w.store.recipients) (λ _. Batching n bs)
          (process_recipient s (calm clock) job b sends w).0
          (process_recipient s (calm clock) job b sends w).1.store
          (λ a.
            next_recipient m n b bs w.store.recipients
              (process_recipient s (calm clock) job b sends w).1.store room p.working.keyed
              p.working.left p.ready)
          ((recipient-Triple s clock job b w.store.recipients v sends e).at w
            (refl, p.working.running));
  }

  batch-Working :
      (v : Value) (n : ℕ) (bs : List RecipientRow) (sends : ℕ)
      → s.parse job.body ≡ some v
      → Triple (Batching n bs) (process_batch s (calm clock) job bs sends) (Yields (λ _. Working n))
  unfolding process_batch
  batch-Working v n [] sends e = record { at = λ w p. p.working }
  batch-Working v n (b ∷ bs) sends e =
      then-Triple (λ _. Batching n bs) _ (λ k. process_batch s (calm clock) job bs k)
        (recipient-Batching v n n sends b bs e (omega arith)) (λ k. batch-Working v n bs k e)

  pub first_batch :
      (v : Value) (n : ℕ) (b : RecipientRow) (bs : List RecipientRow) (sends : ℕ)
      → s.parse job.body ≡ some v
      → Triple
          (Batching (suc n) (b ∷ bs))
          (process_batch s (calm clock) job (b ∷ bs) sends)
          (Yields (λ _. Working n))
  unfolding process_batch
  first_batch v n b bs sends e =
      then-Triple (λ _. Batching n bs) _ (λ k. process_batch s (calm clock) job bs k)
        (recipient-Batching v (suc n) n sends b bs e (omega arith)) (λ k. batch-Working v n bs k e)

  -- A batch that was just read.
  pub read_batch :
      (n : ℕ) (bs : List RecipientRow) (d : Db)
      → Working n d
      → bs ≡ take batch_size (keep (has_status job.id "pending") d.recipients)
      → Batching n bs d
  read_batch n bs d p e = record {
    working = p;
    ready = rw e (batch-Ready job.id batch_size d.recipients p.keyed);
  }

  -- A batch that is not empty weighs something.
  pub none_left : (b : RecipientRow) (bs : List RecipientRow) (d : Db) → Batching 0 (b ∷ bs) d → ⊥
  none_left b bs d p =
      let most = max_attempts_of s job in
      omega (
        arith,
        p.working.left,
        update_where-weight job.id most b bs as_sent d.recipients
            (λ x pending a own. settled_weighs job.id most x (as_sent x) refl pending own) p.ready,
      )
