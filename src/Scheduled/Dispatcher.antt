-- ===== src/Scheduled/Dispatcher.antt =====
-- The background half of handlers/schedule.rs: `process_due` and the loop around it.
pub mod Rule
use wa_rs.Common.{
  ℕ, zero, suc, Bool, true, false, String, List, [], ◌∷◌, Result, ok, err, length, if◌then◌else◌,
}
use wa_rs.Endpoint.{Gateway, MessageResponse, dispatch}
use wa_rs.Effect.{Env, DbError, ◌>>=◌, ◌>>◌, done, catch, emit}
use wa_rs.Scheduled.Store.{
  Table, Act, ScheduledRow, Stored, dispatched, scheduled_sent, scheduled_failed, due_pending,
  claim, mark_sent, mark_failed,
}

abbrev pub due_batch_limit : ℕ
due_batch_limit = 50

module _ (g : Gateway) (env : Env Table) where
  -- The send: the answer of the gateway at this point of the log.
  unfoldable pub send_parked : ScheduledRow → Stored (Result String MessageResponse)
  send_parked row w = (
    ok (dispatch g (length w.log) row.session_id row.endpoint row.body),
    record w { log = dispatched row.id row.session_id row.endpoint row.body ∷ w.log },
  )

  -- The row is settled as far as the database allows; the webhook event follows either way.
  unfoldable pub settle_parked : ScheduledRow → Result String MessageResponse → Stored (Unit {0})
  settle_parked row (ok resp) = catch {F = DbError} (mark_sent env row.id resp.message_id) >>= λ _.
      emit (scheduled_sent row resp)
  settle_parked row (err e) =
      catch {F = DbError} (mark_failed env row.id e) >>= λ _. emit (scheduled_failed row e)

  -- One row of the batch, once its claim has answered.
  unfoldable pub send_claimed : ScheduledRow → Bool → Stored (Unit {0})
  send_claimed row false = done tt
  send_claimed row true = send_parked row >>= settle_parked row

  unfoldable pub process_rows : List ScheduledRow → Stored (Unit {0})
  process_rows [] = done tt
  process_rows (row ∷ rows) = (claim env row.id >>= send_claimed row) >> process_rows rows

  unfoldable pub process_due : Stored (Unit {0})
  process_due = due_pending env due_batch_limit >>= process_rows

  -- The first `n` ticks of the loop: a failed tick is logged, and the loop goes on.
  unfoldable pub run_scheduler : ℕ → Stored (Unit {0})
  run_scheduler zero = done tt
  run_scheduler (suc n) = catch {F = DbError} process_due >>= λ _. run_scheduler n
