-- ===== src/Blast/Tests/Draining.antt =====
-- The loop of the worker at concrete tables, to its end.
use wa_rs.Common.{true, ◌≡◌, refl, [], ◌∷◌, ok, err, arith, String, some, none, List, map}
use wa_rs.Json.{object, field, end, string}
use wa_rs.Effect.{World}
use wa_rs.Table.{first_where}
use wa_rs.Blast.Rows.{Db, JobRow}
use wa_rs.Blast.Action.{Action}
use wa_rs.Blast.Worker.{
  drain, max_attempts_of, job_options, turn_if, turn, process_batch, process_recipient, send,
  settle, note_progress, pause, finalize_job, broadcast_completed, counters_payload, final_status,
  build_recipient_body,
}
use wa_rs.Endpoint.{dispatch, has_arm, dispatch_arms}
use wa_rs.Blast.Store.{
  mark_recipient_sending, mark_recipient_sent, incr_sent, job_status, pending_recipients, get_job,
  finish_job,
}
use wa_rs.Effect.{query}
use wa_rs.Blast.Worker
use wa_rs.Effect.{calm}
use wa_rs.Table.{update_where}
use wa_rs.Blast.Statements.{set_row, finish_row, requeue_rows, reopen_row, claim_row}
use wa_rs.Blast.Steps.{here, next, requeues, reopens, claims}
use wa_rs.Blast.Retried.{ClosedWithFailures, drain-completed_with_failures}
use wa_rs.Blast.Drain.Ends.{Ended, drain-Ended}
use wa_rs.Blast.Tests.{worker, tables, world, job, recipient_row}

abbrev running : JobRow
running = record job { status = "running"; started_at = some 9 }

abbrev started : World Db Action
started = record world { store = record tables { jobs = running ∷ [] } }

-- A gateway that refuses every body.
abbrev refusing : Worker.Services
refusing = record worker {
  gateway = record {
    Request = String;
    from_str = λ endpoint body. ok body;
    from_value = λ endpoint v. ok "body";
    execute = λ n session request. err "refused";
  };
}

drain-Ended_example :
    ((drain refusing (calm (λ n. 100)) 9 running 0 started).0 ≡ ok true)
    × Ended "j" (drain refusing (calm (λ n. 100)) 9 running 0 started).1.store
unfolding first_where max_attempts_of job_options
drain-Ended_example =
    drain-Ended refusing (λ n. 100) running running (object (field "text" (string "hello") end)) 9 0
      started refl (refl, (refl, tt)) refl refl (omega arith)

-- A job with one recipient in the dead letters, closed, and then put back for another try.
abbrev closed_job : JobRow
closed_job = record job {
  status = "completed_with_failures";
  dlq_count = 1;
  started_at = some 9;
  finished_at = some 20;
}

abbrev closed : Db
closed = record tables { jobs = closed_job ∷ []; recipients = recipient_row 1 "a" "dlq" ∷ [] }

abbrev retried : Db
retried = (claim_row "j" 60 (reopen_row "j" (requeue_rows "j" 50 closed).1).1).1

abbrev retried_job : JobRow
retried_job = record closed_job { status = "running"; started_at = some 60; finished_at = none }

abbrev retrying : World Db Action
retrying = record world { store = retried }

drain-completed_with_failures_example :
    ((drain worker (calm (λ n. 100)) 9 retried_job 0 retrying).0 ≡ ok true)
    × ClosedWithFailures "j" (drain worker (calm (λ n. 100)) 9 retried_job 0 retrying).1.store
unfolding first_where max_attempts_of job_options requeue_rows reopen_row claim_row update_where
drain-completed_with_failures_example =
    drain-completed_with_failures {c = true} worker (λ n. 100) retried_job retried_job
      (object (field "text" (string "hello") end)) 9 0 closed retrying (omega arith)
      (next (next (next here (requeues "j" 50)) (reopens "j")) (claims "j" 60 refl)) refl (refl, tt)
      refl refl (omega arith)

-- The statuses of the recipients and of the job, once the retry is over.
run_retry : List String × List String
unfolding drain turn_if turn process_batch process_recipient send settle note_progress pause
    job_status pending_recipients finalize_job broadcast_completed counters_payload get_job
    finish_job query finish_row final_status first_where update_where max_attempts_of job_options
    requeue_rows reopen_row claim_row
run_retry =
    let d = (drain worker (calm (λ n. 100)) 9 retried_job 0 retrying).1.store in
    (map (λ r. r.status) d.recipients, map (λ j. j.status) d.jobs)

delivered_and_failed : run_retry ≡ ("sent" ∷ [], "completed_with_failures" ∷ [])
unfolding run_retry mark_recipient_sending build_recipient_body dispatch has_arm dispatch_arms
    mark_recipient_sent incr_sent set_row
delivered_and_failed = refl
