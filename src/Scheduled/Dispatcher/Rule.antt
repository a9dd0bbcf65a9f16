-- ===== src/Scheduled/Dispatcher/Rule.antt =====
-- What the dispatcher keeps of the table and the log, reduced to its statements: an assertion
-- between rows, one for a row that is claimed and not sent, one for a row that is sent and not
-- settled.
use wa_rs.Common.{
  ℕ, zero, suc, ◌≡◌, refl, Bool, true, false, String, List, [], ◌∷◌, Result, ok, err, count, ltb,
}
use wa_rs.Endpoint.{Gateway, MessageResponse}
use wa_rs.Effect.{Env, DbError, ◌>>=◌}
use wa_rs.Effect.Hoare.{
  Ensures, Always, >>=-Ensures, done-Ensures, catch-Ensures, emit-Ensures, query-Ensures,
}
use wa_rs.Scheduled.Store.{
  Table, Act, ScheduledRow, dispatched, scheduled_sent, scheduled_failed, is_pending, due_pending,
  claim, mark_sent, mark_failed, claim_rows, sent_rows, failed_rows,
}
use wa_rs.Scheduled.Dispatcher.{
  send_parked, settle_parked, send_claimed, process_rows, process_due, run_scheduler,
}
use wa_rs.Scheduled.Steps.{Step, Reach-keeps, IsHonest}

pub record Rule (c : Bool) (Idle : Table → List Act → Type 0)
    (Claimed Unsettled : String → Table → List Act → Type 0) : Type 0 where
  pub step : (t u : Table) (l : List Act) → Step c t u → Idle t l → Idle u l
  pub step_unsettled :
      (key : String) (t u : Table) (l : List Act)
      → Step c t u
      → Unsettled key t l
      → Unsettled key u l
  pub hit :
      (key : String) (now : ℕ) (t : Table) (l : List Act)
      → ltb 0 (count (is_pending key) t) ≡ true
      → Idle t l
      → Claimed key (claim_rows key now t) l
  pub missed :
      (key : String) (now : ℕ) (t : Table) (l : List Act)
      → ltb 0 (count (is_pending key) t) ≡ false
      → Idle t l
      → Idle (claim_rows key now t) l
  pub sends :
      (row : ScheduledRow) (t : Table) (l : List Act)
      → Claimed row.id t l
      → Unsettled row.id t (dispatched row.id row.session_id row.endpoint row.body ∷ l)
  pub sent :
      (key m : String) (now : ℕ) (t : Table) (l : List Act)
      → Unsettled key t l
      → Idle (sent_rows key m now t) l
  pub failed :
      (key e : String) (now : ℕ) (t : Table) (l : List Act)
      → Unsettled key t l
      → Idle (failed_rows key e now t) l
  pub unsettled : (key : String) (t : Table) (l : List Act) → Unsettled key t l → Idle t l
  pub told_sent :
      (row : ScheduledRow) (resp : MessageResponse) (t : Table) (l : List Act)
      → Idle t l
      → Idle t (scheduled_sent row resp ∷ l)
  pub told_failed :
      (row : ScheduledRow) (e : String) (t : Table) (l : List Act)
      → Idle t l
      → Idle t (scheduled_failed row e ∷ l)

module _ {c : Bool} {Idle : Table → List Act → Type 0}
    {Claimed Unsettled : String → Table → List Act → Type 0} (rule : Rule c Idle Claimed Unsettled)
    (g : Gateway) {env : Env Table} (h : IsHonest c env) where
  others_idle : (n : ℕ) (t : Table) (l : List Act) → Idle t l → Idle (env.meanwhile n t) l
  others_idle n t l = Reach-keeps (λ u. Idle u l) (λ u v. rule.step u v l) (h.steps n t)

  others_unsettled :
      (key : String) (n : ℕ) (t : Table) (l : List Act)
      → Unsettled key t l
      → Unsettled key (env.meanwhile n t) l
  others_unsettled key n t l =
      Reach-keeps (λ u. Unsettled key u l) (λ u v. rule.step_unsettled key u v l) (h.steps n t)

  settle-Idle :
      (row : ScheduledRow) (r : Result String MessageResponse)
      → Ensures (Unsettled row.id) (settle_parked g env row r) (Always Idle)
  unfolding settle_parked mark_sent mark_failed
  settle-Idle row (ok resp) =
      >>=-Ensures (Always Idle) _ _
        (catch-Ensures DbError _ (
          query-Ensures env (Unsettled row.id) _ (others_unsettled row.id) (rule.unsettled row.id)
            (rule.sent row.id resp.message_id)))
        (λ _. emit-Ensures (scheduled_sent row resp) (rule.told_sent row resp)) (λ e t l o. o)
  settle-Idle row (err e) =
      >>=-Ensures (Always Idle) _ _
        (catch-Ensures DbError _ (
          query-Ensures env (Unsettled row.id) _ (others_unsettled row.id) (rule.unsettled row.id)
            (rule.failed row.id e)))
        (λ _. emit-Ensures (scheduled_failed row e) (rule.told_failed row e)) (λ e t l o. o)

  send-Unsettled :
      (row : ScheduledRow)
      → Ensures (Claimed row.id) (send_parked g env row) (Always (Unsettled row.id))
  unfolding send_parked
  send-Unsettled row = record { at = λ w o. rule.sends row w.store w.log o }

  abbrev Answered : String → Result DbError Bool → Table → List Act → Type 0
  Answered key (ok true) = Claimed key
  Answered key (ok false) = Idle
  Answered key (err e) = Idle

  claim-Answered : (key : String) → Ensures Idle (claim env key) (Answered key)
  unfolding claim
  claim-Answered key =
      query-Ensures env Idle _ others_idle (λ t l o. o)
        (λ now t l o. go now t l (ltb 0 (count (is_pending key) t)) refl o)
    where
      go :
          (now : ℕ) (t : Table) (l : List Act) (b : Bool)
          → ltb 0 (count (is_pending key) t) ≡ b
          → Idle t l
          → Answered key (ok b) (claim_rows key now t) l
      go now t l true e o = rule.hit key now t l e o
      go now t l false e o = rule.missed key now t l e o

  claimed-Idle :
      (row : ScheduledRow) (b : Bool)
      → Ensures (Answered row.id (ok b)) (send_claimed g env row b) (Always Idle)
  unfolding send_claimed
  claimed-Idle row false = done-Ensures Idle tt
  claimed-Idle row true =
      >>=-Ensures (Always (Unsettled row.id)) _ _ (send-Unsettled row) (settle-Idle row)
        (λ e. rule.unsettled row.id)

  rows-Idle : (rows : List ScheduledRow) → Ensures Idle (process_rows g env rows) (Always Idle)
  unfolding process_rows
  rows-Idle [] = done-Ensures Idle tt
  rows-Idle (row ∷ rows) =
      >>=-Ensures (Always Idle) (claim env row.id >>= send_claimed g env row)
        (λ _. process_rows g env rows)
        (>>=-Ensures (Answered row.id) _ _ (claim-Answered row.id) (claimed-Idle row)
          (λ e t l o. o))
        (λ _. rows-Idle rows) (λ e t l o. o)

  pub process_due-Idle : Ensures Idle (process_due g env) (Always Idle)
  unfolding process_due due_pending
  process_due-Idle =
      >>=-Ensures (Always Idle) _ _
        (query-Ensures env Idle _ others_idle (λ t l o. o) (λ now t l o. o)) rows-Idle
        (λ e t l o. o)

  pub run_scheduler-Idle : (n : ℕ) → Ensures Idle (run_scheduler g env n) (Always Idle)
  unfolding run_scheduler
  run_scheduler-Idle zero = done-Ensures Idle tt
  run_scheduler-Idle (suc n) =
      >>=-Ensures (Always Idle) _ _ (catch-Ensures DbError _ process_due-Idle)
        (λ _. run_scheduler-Idle n) (λ e t l o. o)
