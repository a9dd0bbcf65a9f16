-- ===== src/Blast/Tests.antt =====
-- Runs of the blast code at concrete tables, and the theorems at inputs that meet their hypotheses.
mod Draining
use wa_rs.Common.{
  ℕ, ◌≡◌, refl, Bool, true, false, String, ◌+◌, none, some, List, [], ◌∷◌, Result, ok, arith,
  length,
}
use wa_rs.Json.{object, field, end, string}
use wa_rs.Endpoint.{Gateway}
use wa_rs.Jid.{JidLibrary}
use wa_rs.Common.{concat}
use wa_rs.Json.{insert}
use wa_rs.Endpoint.{dispatch, dispatch_arms, has_arm}
use wa_rs.Effect.{Env, World, DbError, query}
use wa_rs.Table.{oldest, first_where, update_where}
use wa_rs.Blast.Statements.{
  has_id, cancel_row, requeue_rows, claim_row, reset_rows, finish_row, set_row,
}
use wa_rs.Blast.Store.{
  running_job, claim_next_due, due_job, reset_sending_recipients, job_status, pending_recipients,
  bump_counter, claim_candidate, finish_job, get_job, incr_dlq, incr_failed, incr_sent,
  mark_recipient_dlq, mark_recipient_retry, mark_recipient_sending, mark_recipient_sent,
  update_recipient,
}
use wa_rs.Blast.Rows.{Db, JobRow, RecipientRow}
use wa_rs.Blast.Action.{Action}
use wa_rs.Blast.Create.{CreateBlastRequest, create_blast}
use wa_rs.Blast.Create
use wa_rs.Blast.Manage.{cancel_blast, retry_blast}
use wa_rs.Blast.Worker.{tick_once, drain, final_status}
use wa_rs.Blast.Worker
use wa_rs.Blast.Steps.{IsHonest, here}
use wa_rs.Effect.{calm}
use wa_rs.Blast.Resume.{Closes, tick_once-Closes, drain-Stops}
use wa_rs.Blast.Steps.Single.{AtMost}
use wa_rs.Blast.Steps.Sequential.{tick_once-AtMost}
use wa_rs.ApiError.{ApiError}
use wa_rs.Jid.{parse_jid}
use wa_rs.Endpoint.{validate_body, validate_arms}
use wa_rs.Blast.Statements.{insert_row, insert_recipient}
use wa_rs.Blast.Store.{insert_job, insert_recipients, already_sent}
use wa_rs.Blast.Create.{CreateBlastResponse}
use wa_rs.Blast.Create.Accounts.{create_blast_accounts}
use wa_rs.Blast.Interleaving.{IsSound, tick_once-IsSound, handlers-IsSound, handlers-AtMost}

-- A gateway that sends every body, and numbers the messages by the length of the log.
abbrev gateway : Gateway
gateway = record {
  Request = String;
  from_str = λ endpoint body. ok body;
  from_value = λ endpoint v. ok "body";
  execute = λ n session request.
      ok (record { message_id = "message"; timestamp = 7; to = "r@s.whatsapp.net" });
}

abbrev worker : Worker.Services
worker = record {
  gateway = gateway;
  parse = λ s. some (object (field "text" (string s) end));
  print = λ v. "printed";
  parse_options = λ s. none;
  roll = λ n most. 0;
}

abbrev jids : JidLibrary
jids = record { Jid = String; parse = λ s. some s; pn = λ s. s; to_string = λ s. s }

abbrev services : Create.Services
services = record {
  jids = jids;
  gateway = gateway;
  has_session = λ s. true;
  to_text = λ v. "printed";
  options_text = λ o. ok "options";
}

-- No other task, no fault, the clock at 100.
abbrev alone : Env Db
alone = record { meanwhile = λ n d. d; fails = λ n. false; clock = λ n. 100 }

alone-IsHonest : {c : Bool} → IsHonest c alone
alone-IsHonest = record { steps = λ n d. here }

abbrev job : JobRow
job = record {
  id = "j";
  session_id = "s";
  endpoint = "text";
  body = "hello";
  options = "";
  status = "pending";
  total = 2;
  sent_count = 0;
  failed_count = 0;
  dlq_count = 0;
  skipped_dup_count = 0;
  send_at = none;
  created_at = 7;
  started_at = none;
  finished_at = none;
}

abbrev recipient_row : ℕ → String → String → RecipientRow
recipient_row id jid status = record {
  id = id;
  job_id = "j";
  session_id = "s";
  recipient = jid;
  status = status;
  attempts = 0;
  last_error = none;
  message_id = none;
  updated_at = 7;
}

abbrev tables : Db
tables = record {
  jobs = job ∷ [];
  recipients = recipient_row 1 "a" "pending" ∷ recipient_row 2 "b" "pending" ∷ [];
  next_id = 3;
}

abbrev world : World Db Action
world = record { store = tables; queries = 0; log = [] }

abbrev request : CreateBlastRequest
request = record {
  endpoint = "text";
  body = string "hello";
  recipients = "1" ∷ "1" ∷ "2" ∷ [];
  delay_ms = none;
  jitter_ms = none;
  max_attempts = none;
  dedup_across_jobs = none;
  send_at = none;
}

abbrev statuses : Db → List String
statuses d = map_status d.recipients
  where
    map_status : List RecipientRow → List String
    map_status [] = []
    map_status (r ∷ rs) = r.status ∷ map_status rs

-- A tick with all that it calls, for running.
run_tick : ℕ → World Db Action → Result DbError Bool × World Db Action
unfolding tick_once Worker.continue_or_claim Worker.start_claimed Worker.process_job Worker.drain
    Worker.turn_if Worker.turn Worker.process_batch Worker.process_recipient Worker.pause
    Worker.settle Worker.send Worker.note_progress Worker.finalize_job Worker.final_status
    Worker.broadcast_completed Worker.broadcast_progress Worker.counters_payload
    Worker.read_counters Worker.to_counters Worker.build_recipient_body Worker.rewrite_body
    Worker.send_delay Worker.max_attempts_of Worker.job_options query running_job oldest
    claim_next_due due_job claim_row first_where update_where reset_sending_recipients job_status
    reset_rows pending_recipients finish_row set_row bump_counter claim_candidate finish_job get_job
    incr_dlq incr_failed incr_sent mark_recipient_dlq mark_recipient_retry mark_recipient_sending
    mark_recipient_sent update_recipient concat dispatch dispatch_arms has_arm insert
run_tick fuel w = tick_once worker alone fuel w

tick_once_sends : statuses (run_tick 2 world).1.store ≡ "sent" ∷ "sent" ∷ []
unfolding run_tick
tick_once_sends = refl

tick_once-AtMost_example : AtMost 1 (tick_once worker alone 2 world).1.store
tick_once-AtMost_example =
    tick_once-AtMost worker alone 2 world alone-IsHonest
      (record { unique = (refl, tt); bound = omega arith })

tick_once-IsSound_example : IsSound tables (tick_once worker alone 2 world).1.store
tick_once-IsSound_example = tick_once-IsSound worker alone 2 world alone-IsHonest

handlers-IsSound_example :
    IsSound tables (create_blast services alone "k" "s" request world).1.store
    × IsSound tables (cancel_blast (λ s. none) alone "s" "k" world).1.store
    × IsSound tables (retry_blast (λ s. none) alone "s" "k" world).1.store
handlers-IsSound_example =
    handlers-IsSound services (λ s. none) alone "k" "s" request world alone-IsHonest

handlers-AtMost_example :
    AtMost 0 (create_blast services alone "k" "s" request world).1.store
    × AtMost 0 (cancel_blast (λ s. none) alone "s" "k" world).1.store
    × AtMost 0 (retry_blast (λ s. none) alone "s" "k" world).1.store
handlers-AtMost_example =
    handlers-AtMost services (λ s. none) alone "k" "s" request 0 world alone-IsHonest
      (record { unique = (refl, tt); bound = omega arith })

-- The creation of a job with all that it calls, for running.
run_create :
    CreateBlastRequest → World Db Action → Result ApiError CreateBlastResponse × World Db Action
unfolding create_blast Create.admit Create.check_recipients Create.take_in_all Create.take_in
    Create.canonical Create.dedup Create.drop_sent Create.options_of Create.rows_of parse_jid
    validate_body validate_arms has_arm query insert_job insert_row insert_recipients
    insert_recipient already_sent concat
run_create r w = create_blast services alone "k" "s" r w

abbrev response : CreateBlastResponse
response = record { job_id = "k"; total = 2; skipped_dup = 1; status = "pending" }

created : (run_create request world).0 ≡ ok response
unfolding run_create
created = refl

create_blast_accounts_example :
    (response.total + response.skipped_dup ≡ length request.recipients)
    × (response.job_id ≡ "k")
    × (response.status ≡ "pending")
unfolding run_create
create_blast_accounts_example =
    create_blast_accounts services alone "k" "s" request world response refl

-- A running job with one recipient dead, one in flight and none pending.
abbrev stuck_job : JobRow
stuck_job = record job { status = "running"; dlq_count = 1; started_at = some 9 }

abbrev stuck : World Db Action
stuck = record world {
  store = record tables {
    jobs = stuck_job ∷ [];
    recipients = recipient_row 1 "a" "dlq" ∷ recipient_row 2 "b" "sending" ∷ [];
  };
}

tick_once-Closes_example :
    Closes "j" stuck_job stuck.store.recipients (tick_once worker (calm (λ n. 100)) 1 stuck)
unfolding first_where oldest
tick_once-Closes_example =
    tick_once-Closes worker (λ n. 100) 0 stuck_job stuck refl refl refl refl refl

-- Another task cancels the job before each query.
abbrev cancelling : Env Db
cancelling = record alone { meanwhile = λ n d. (cancel_row "s" "j" 50 d).1 }

drain-Stops_example :
    drain worker cancelling 3 stuck_job 0 stuck
    ≡ (ok true, record stuck { store = (cancel_row "s" "j" 50 stuck.store).1; queries = 1 })
unfolding first_where
drain-Stops_example =
    drain-Stops worker cancelling 2 stuck_job stuck_job 0 50 stuck refl refl refl refl
