-- ===== src/Blast/Steps/Sequential.antt =====
-- The number of running jobs over a tick of the worker.
use wa_rs.Common.{
  ℕ, ◌≡◌, refl, false, String, Option, none, some, List, [], ◌∷◌, arith, Result, ok, err,
  if◌then◌else◌, count, keep, Bool-cases, inl, inr, nat_eq,
}
use wa_rs.Effect.{Env, World, Task, DbError, query, done}
use wa_rs.Effect.Keeps.{Keeps, if-Keeps, done-Keeps}
use wa_rs.Effect.Triple.{Triple, >>=-Triple, Keeps-Triple, query-Triple}
use wa_rs.Table.{oldest}
use wa_rs.Blast.Rows.{JobRow, Db}
use wa_rs.Blast.Action.{Action}
use wa_rs.Blast.Store.{running_job, claim_next_due, claim_candidate, get_job, due_job}
use wa_rs.Blast.Worker.{Services, tick_once, continue_or_claim}
use wa_rs.Blast.Steps.{Reach, IsHonest, honest}
use wa_rs.Blast.Steps.Queries.{get_job-Keeps}
use wa_rs.Blast.Steps.Worker.{job-Keeps, start-Keeps}
use wa_rs.Blast.Steps.Single.{AtMost, runs, running_count, Reach-AtMost, claim_row-AtMost}

oldest-ne-none : {A : Type 0} (key : A → ℕ) (x : A) (xs : List A) → oldest key (x ∷ xs) ≡ none → ⊥
unfolding oldest
oldest-ne-none key x xs e = ground arith

none-runs :
    (key : JobRow → ℕ) (js : List JobRow) → oldest key (keep runs js) ≡ none → count runs js ≡ 0
none-runs key [] e = refl
none-runs key (j ∷ js) e = elim (Bool-cases (runs j)) [
  | inl run ↦ absurd (oldest-ne-none key j (keep runs js) (rw run at e))
  | inr idle ↦ ground (arith, none-runs key js (rw idle at e))
]

AtMost-mono : (d : Db) → AtMost 0 d → AtMost 1 d
AtMost-mono d a = record { unique = a.unique; bound = omega (arith, a.bound) }

-- What the first read of a tick tells.
abbrev Seen : Result DbError (Option JobRow) → Db → Type 0
Seen (ok none) = AtMost 0
Seen (ok (some _)) = AtMost 1
Seen (err _) = AtMost 1

seen : (d : Db) (o : Option JobRow) → (o ≡ none → running_count d ≡ 0) → AtMost 1 d → Seen (ok o) d
seen d none h a = record { unique = a.unique; bound = omega (arith, h refl) }
seen d (some j) h a = a

module _ (s : Services) {env : Env Db} (h : IsHonest false env) where
  meanwhile-AtMost : (n k : ℕ) (d : Db) → AtMost n d → AtMost n (env.meanwhile k d)
  meanwhile-AtMost n k d = Reach-AtMost n d (env.meanwhile k d) (h.steps k d)

  still :
      {E A : Type 0} (n : ℕ) (m : Task Db Action E A)
      → Keeps (Reach false) m
      → Triple (AtMost n) m (λ _. AtMost n)
  still n m k = Keeps-Triple (AtMost n) (AtMost n) m k (λ d e. Reach-AtMost n d e)

  running-Triple : Triple (AtMost 1) (running_job env) Seen
  unfolding running_job
  running-Triple =
      query-Triple env (AtMost 1) _ (meanwhile-AtMost 1) (λ d a. a)
        (λ now d a. seen d _ (none-runs _ d.jobs) a)

  due-Triple :
      (P : Result DbError (Option JobRow) → Db → Type 0)
      → ((r : Result DbError (Option JobRow)) (d : Db) → AtMost 0 d → P r d)
      → Triple (AtMost 0) (query {Act = Action} env (λ now d. (due_job now d, d))) P
  due-Triple P p =
      query-Triple env (AtMost 0) _ (meanwhile-AtMost 0) (λ d a. p _ d a) (λ now d a. p _ d a)

  after_claim :
      (id : String) (changed : ℕ)
      → Triple (AtMost 1) (if nat_eq changed 0 then done none else get_job env id) (λ _. AtMost 1)
  after_claim id changed =
      still 1 _ (
        if-Keeps (honest h) (nat_eq changed 0) _ _ (done-Keeps (honest h) none)
          (get_job-Keeps h id))

  candidate-Triple : (o : Option JobRow) → Triple (AtMost 0) (claim_candidate env o) (λ _. AtMost 1)
  unfolding claim_candidate
  candidate-Triple none = record { at = λ w a. AtMost-mono w.store a }
  candidate-Triple (some job) =
      >>=-Triple (λ _. AtMost 1) _ _
        (query-Triple env (AtMost 0) _ (meanwhile-AtMost 0) AtMost-mono
          (λ now d a. claim_row-AtMost job.id now d a))
        (after_claim job.id) (λ e d a. a)

  claim-Triple : Triple (AtMost 0) (claim_next_due env) (λ _. AtMost 1)
  unfolding claim_next_due
  claim-Triple =
      >>=-Triple (λ _. AtMost 0) _ _ (due-Triple _ (λ r d a. a)) candidate-Triple
        (λ e d a. AtMost-mono d a)

  continue-Triple :
      (fuel : ℕ) (o : Option JobRow)
      → Triple (Seen (ok o)) (continue_or_claim s env fuel o) (λ _. AtMost 1)
  unfolding continue_or_claim
  continue-Triple fuel none =
      >>=-Triple (λ _. AtMost 1) _ _ claim-Triple (λ o. still 1 _ (start-Keeps s h fuel o))
        (λ e d a. a)
  continue-Triple fuel (some job) = still 1 _ (job-Keeps s h fuel job)

  tick-Triple : (fuel : ℕ) → Triple (AtMost 1) (tick_once s env fuel) (λ _. AtMost 1)
  unfolding tick_once
  tick-Triple fuel = >>=-Triple Seen _ _ running-Triple (continue-Triple fuel) (λ e d a. a)

-- If the keys of the jobs are unique and at most one job runs, then so it is after a tick, whatever
-- the tick reads, wherever it stops on a fault, and whatever steps other than a claim the other
-- tasks take between its queries.
pub tick_once-AtMost :
    (s : Services) (env : Env Db) (fuel : ℕ) (w : World Db Action)
    → IsHonest false env
    → AtMost 1 w.store
    → AtMost 1 (tick_once s env fuel w).1.store
tick_once-AtMost s env fuel w h a = (tick-Triple s h fuel).at w a
