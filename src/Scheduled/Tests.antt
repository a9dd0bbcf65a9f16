-- ===== src/Scheduled/Tests.antt =====
-- Runs of the scheduled sends at concrete tables, and the theorems at inputs that meet their
-- hypotheses.
use wa_rs.Common.{
  ℕ, ◌+◌, ◌≤◌, ◌≡◌, refl, Bool, true, false, String, Option, none, some, List, [], ◌∷◌, ◌==◌, ◌*◌,
  Result, ok, err, count, min, map, arith, eq_iff, concat, Bool-cases, inl, inr, sym, if◌then◌else◌,
}
use wa_rs.ApiError.{ApiError}
use wa_rs.Endpoint.{Gateway, MessageResponse, dispatch, dispatch_arms, has_arm}
use wa_rs.Effect.{Env, World, calm, query}
use wa_rs.Table.{update_where, first_where}
use wa_rs.Scheduled.Status.{ScheduledStatus, scheduled_status_of}
use wa_rs.Scheduled.Store.{
  Table, Act, ScheduledRow, has_id, is_due, park_row, claim_rows, sent_rows, failed_rows,
  cancel_rows, due_rows, due_pending, claim, mark_sent, mark_failed, insert_scheduled,
  get_scheduled, cancel_pending,
}
use wa_rs.Scheduled.Park.{
  SendResponse, should_schedule, scheduled_response, maybe_schedule, park, serialized, second,
}
use wa_rs.Scheduled.Manage.{
  ScheduledMessage, row_to_model, cancel_scheduled, find_scheduled, cancel_row_found,
  reread_cancelled,
}
use wa_rs.Scheduled.Dispatcher.{
  run_scheduler, process_due, process_rows, send_claimed, send_parked, settle_parked,
  due_batch_limit,
}
use wa_rs.Scheduled.Steps.{IsHonest, here}
use wa_rs.Scheduled.Steps.Once.{dispatches}
use wa_rs.Scheduled.Sends.{run_scheduler-Once}
use wa_rs.Scheduled.Revoked.{cancel_scheduled-unsent}
use wa_rs.Scheduled.Lifecycle.{Moves, view}
use wa_rs.Scheduled.Lifecycle.Refines.{run_scheduler-Moves}
use wa_rs.Scheduled.Lifecycle.Rows.{Holds}
use wa_rs.Scheduled.Lifecycle.Stuck.{run_scheduler-Stuck}
use wa_rs.Scheduled.Progress.{process_due-settles}
use wa_rs.Scheduled.Progress.Rows.{waits, is_settled}
use wa_rs.Scheduled.Cancel.{cancel_scheduled-expected, expected}
use wa_rs.Scheduled.Replay.{maybe_schedule-Parked, Parked}

-- A gateway that sends every text but "bad".
abbrev reply_to : Bool → Result String MessageResponse
reply_to true = err "refused"
reply_to false = ok (record { message_id = "m"; timestamp = 7; to = "r@s.whatsapp.net" })

abbrev gateway : Gateway
gateway = record {
  Request = String;
  from_str = λ endpoint text. ok text;
  from_value = λ endpoint v. ok "body";
  execute = λ n session request. reply_to (request == "bad");
}

abbrev parked : String → String → ℕ → ScheduledRow
parked id body send_at = record {
  id = id;
  session_id = "s";
  endpoint = "text";
  body = body;
  send_at = send_at;
  status = "pending";
  error = none;
  message_id = none;
  created_at = 1;
  updated_at = 1;
}

abbrev start : World Table Act
start = record {
  store = parked "a" "hello" 50 ∷ parked "b" "bad" 40 ∷ parked "c" "later" 500 ∷ [];
  queries = 0;
  log = [];
}

abbrev alone : Env Table
alone = calm (λ n. 100)

alone-IsHonest : {c : Bool} → IsHonest c alone
alone-IsHonest = record { steps = λ n t. here }

keys : (id : String) → count (has_id id) start.store ≤ 1
keys id = elim (Bool-cases ("a" == id)) [
  | inl hit ↦ rw (sym ((eq_iff "a" id).0 hit)) (omega arith)
  | inr a ↦ elim (Bool-cases ("b" == id)) [
    | inl hit ↦ rw (sym ((eq_iff "b" id).0 hit)) (omega arith)
    | inr b ↦ rw (a, b) (one_more ("c" == id))
  ]
]
  where
    one_more : (b : Bool) → 0 + (0 + ((if b then 1 else 0) + 0)) ≤ 1
    one_more true = omega arith
    one_more false = omega arith

run_ticks : ℕ → List String
unfolding run_scheduler process_due process_rows send_claimed send_parked settle_parked due_pending
    due_rows claim mark_sent mark_failed claim_rows sent_rows failed_rows update_where query
    dispatch dispatch_arms has_arm concat
run_ticks n = map (λ r. r.status) (run_scheduler gateway alone n start).1.store

two_settled : run_ticks 1 ≡ "sent" ∷ "failed" ∷ "pending" ∷ []
unfolding run_ticks
two_settled = refl

run_scheduler-Once_example : dispatches "a" (run_scheduler gateway alone 2 start).1.log ≤ 1
run_scheduler-Once_example =
    run_scheduler-Once gateway alone "a" 2 start alone-IsHonest (keys "a") refl

run_scheduler-Moves_example :
    Moves (view "a" start.store) (view "a" (run_scheduler gateway alone 2 start).1.store)
run_scheduler-Moves_example =
    run_scheduler-Moves gateway alone "a" 2 start alone-IsHonest (keys "a")

process_due-settles_example :
    ((process_due gateway alone start).0 ≡ ok tt)
    × (count waits (process_due gateway alone start).1.store
          + min due_batch_limit (count (is_due 100) start.store)
        ≡ count waits start.store)
    × (count is_settled (process_due gateway alone start).1.store
        ≡ count is_settled start.store + min due_batch_limit (count (is_due 100) start.store))
process_due-settles_example = process_due-settles gateway (λ n. 100) start keys

run_cancel : Result ApiError ScheduledMessage
unfolding run_scheduler process_due process_rows send_claimed send_parked settle_parked due_pending
    due_rows claim mark_sent mark_failed claim_rows sent_rows failed_rows update_where query
    dispatch dispatch_arms has_arm concat first_where cancel_scheduled find_scheduled
    cancel_row_found reread_cancelled get_scheduled cancel_pending cancel_rows row_to_model
    scheduled_status_of
run_cancel = (cancel_scheduled alone "s" "c" (run_scheduler gateway alone 1 start).1).0

abbrev revoked : ScheduledMessage
revoked = record {
  id = "c";
  session_id = "s";
  endpoint = "text";
  send_at = 500;
  status = ScheduledStatus.cancelled;
  error = none;
  message_id = none;
  created_at = 1;
  updated_at = 100;
}

cancelled_after_a_tick : run_cancel ≡ ok revoked
unfolding run_cancel
cancelled_after_a_tick = refl

cancel_scheduled-unsent_example :
    dispatches "c"
      (run_scheduler gateway alone 3
        (cancel_scheduled alone "s" "c" (run_scheduler gateway alone 1 start).1).1).1.log
    ≡ 0
unfolding run_cancel
cancel_scheduled-unsent_example =
    cancel_scheduled-unsent gateway alone "s" "c" 1 3 start revoked alone-IsHonest (keys "c") refl
      cancelled_after_a_tick

cancel_scheduled-expected_example :
    (cancel_scheduled alone "s" "c" start).0 ≡ expected "c" 100 (some (parked "c" "later" 500))
unfolding first_where
cancel_scheduled-expected_example = cancel_scheduled-expected (λ n. 100) "s" "c" start

-- Now is 100 s; the message is for 500 s.
run_park : Result ApiError (Option SendResponse)
unfolding maybe_schedule should_schedule park serialized insert_scheduled park_row query
    scheduled_response
run_park =
    (maybe_schedule (λ s. true) alone "d" "s" "text" (ok "hello") (some (500 * second))
      (100 * second) start).0

parked_for_later : run_park ≡ ok (some (scheduled_response "d" (500 * second)))
unfolding run_park
parked_for_later = refl

maybe_schedule-Parked_example :
    (scheduled_response "d" (500 * second) ≡ scheduled_response "d" (500 * second))
    × Parked gateway "d" "s" "hello"
        (500 * second)
        (maybe_schedule
          (λ s. true)
          alone
          "d"
          "s"
          "text"
          (ok "hello")
          (some (500 * second))
          (100 * second)
          start).1.store
unfolding run_park has_arm dispatch_arms
maybe_schedule-Parked_example =
    maybe_schedule-Parked gateway (λ s. true) alone "d" "s" "text" "hello" "hello" (500 * second)
      (100 * second) (scheduled_response "d" (500 * second)) start refl refl parked_for_later

-- The row "a" was claimed before a crash.
abbrev crashed : World Table Act
crashed = record {
  store = record (parked "a" "hello" 50) { status = "sending" } ∷ parked "b" "bad" 40 ∷ [];
  queries = 0;
  log = [];
}

run_scheduler-Stuck_example :
    Holds "a" "sending" (run_scheduler gateway alone 3 crashed).1.store
    × (dispatches "a" (run_scheduler gateway alone 3 crashed).1.log ≡ 0)
unfolding first_where
run_scheduler-Stuck_example =
    run_scheduler-Stuck gateway alone "a" 3 crashed alone-IsHonest (omega arith)
      (record { row = _; found = refl; stands = refl })
