-- ===== src/Blast/Steps/Handlers.antt =====
-- The handlers of handlers/blast.rs as sequences of steps.
use wa_rs.Common.{
  ℕ, Bool, true, false, not, ◌&&◌, ◌==◌, String, Option, List, [], ◌∷◌, nat_eq, length,
}
use wa_rs.Effect.{Env, db_error}
use wa_rs.Effect.Keeps.{
  Keeps, done-Keeps, throw-Keeps, lift-Keeps, mapping-Keeps, >>=-Keeps, >>-Keeps, if-Keeps,
  query-Keeps,
}
use wa_rs.Blast.Status.{BlastOptions, JobStatus, job_status_str, job_status_of, is_terminal}
use wa_rs.Blast.Rows.{Db, JobRow}
use wa_rs.Blast.Store.{
  get_job_scoped, cancel_job, requeue_failed, reopen_job, insert_job, insert_recipients,
  already_sent, already_sent_from,
}
use wa_rs.Blast.Create.{
  Services, CreateBlastRequest, Intake, create_blast, dedup, options_of, is_empty_list, rows_of,
  admit, internal_db,
}
use wa_rs.Blast.Manage.{
  find_job, cancel_found, after_cancel, cancel_blast, retry_found, after_requeue, retry_blast,
}
use wa_rs.Blast.Steps.{
  Reach, IsHonest, honest, one-Step, inserts_job, inserts_recipient, cancels, requeues, reopens,
}
use wa_rs.Blast.Steps.Queries.{select-Keeps, update-Keeps}

module _ {c : Bool} {env : Env Db} (h : IsHonest c env) where
  inserting-Keeps :
      (job session : String) (rows : List (String × String))
      → Keeps (Reach c) (insert_recipients env job session rows)
  unfolding insert_recipients
  inserting-Keeps job session [] = done-Keeps (honest h) tt
  inserting-Keeps job session (row ∷ rows) =
      >>-Keeps (honest h) _ _ (update-Keeps h _ (λ now d. inserts_recipient job session row now))
        (inserting-Keeps job session rows)

  sent_from-Keeps :
      (session : String) (out : List String) (cs : List (List String))
      → Keeps (Reach c) (already_sent_from env session out cs)
  unfolding already_sent_from
  sent_from-Keeps session out [] = done-Keeps (honest h) out
  sent_from-Keeps session out (chunk ∷ cs) =
      >>=-Keeps (honest h) _ _ (select-Keeps h _) λ found. sent_from-Keeps session _ cs

  already_sent-Keeps :
      (session : String) (cs : List String) → Keeps (Reach c) (already_sent env session cs)
  unfolding already_sent
  already_sent-Keeps session cs = sent_from-Keeps session [] _

  dedup-Keeps :
      (s : Services) (session : String) (o : BlastOptions) (i : Intake)
      → Keeps (Reach c) (dedup s env session o i)
  unfolding dedup
  dedup-Keeps s session o i =
      if-Keeps (honest h) (o.dedup_across_jobs && not (is_empty_list i.accepted)) _ _
        (>>=-Keeps (honest h) _ _
          (mapping-Keeps (honest h) internal_db _ (already_sent-Keeps session i.accepted))
          (λ sent. done-Keeps (honest h) _))
        (done-Keeps (honest h) i)

  insert_job-Keeps :
      (id session endpoint body options : String) (total skipped : ℕ) (at : Option ℕ)
      → Keeps (Reach c) (insert_job env id session endpoint body options total skipped at)
  unfolding insert_job
  insert_job-Keeps id session endpoint body options total skipped at =
      >>=-Keeps (honest h) _ _
        (query-Keeps (honest h) _
          (λ now d. one-Step (inserts_job id session endpoint body options total skipped at now)))
        (λ taken.
          if-Keeps (honest h) taken _ _ (throw-Keeps (honest h) db_error)
            (done-Keeps (honest h) tt))

  pub create_blast-Keeps :
      (s : Services) (id session : String) (r : CreateBlastRequest)
      → Keeps (Reach c) (create_blast s env id session r)
  unfolding create_blast
  create_blast-Keeps s id session r =
      >>=-Keeps (honest h) _ _ (lift-Keeps (honest h) (admit s session r)) λ i₀.
        >>=-Keeps (honest h) _ _ (dedup-Keeps s session (options_of r) i₀) λ i.
          >>=-Keeps (honest h) _ _ (lift-Keeps (honest h) _) λ options.
            >>-Keeps (honest h) _ _
              (mapping-Keeps (honest h) internal_db _ (
                insert_job-Keeps id session r.endpoint _ options (length i.accepted) i.skipped_dup
                  r.send_at))
              (>>-Keeps (honest h) _ _
                (mapping-Keeps (honest h) internal_db _ (inserting-Keeps id session (rows_of i)))
                (done-Keeps (honest h) _))

  module _ (parse : String → Option BlastOptions) where
    find-Keeps : (session id : String) → Keeps (Reach c) (find_job parse env session id)
    unfolding find_job get_job_scoped
    find-Keeps session id =
        >>=-Keeps (honest h) _ _ (mapping-Keeps (honest h) internal_db _ (select-Keeps h _))
          (λ row. lift-Keeps (honest h) _)

    cancelled-Keeps : (id : String) (b : Bool) → Keeps (Reach c) (after_cancel id b)
    unfolding after_cancel
    cancelled-Keeps id true = done-Keeps (honest h) tt
    cancelled-Keeps id false = throw-Keeps (honest h) _

    cancel_job-Keeps : (session id : String) → Keeps (Reach c) (cancel_job env session id)
    unfolding cancel_job
    cancel_job-Keeps session id =
        >>=-Keeps (honest h) _ _
          (query-Keeps (honest h) _ (λ now d. one-Step (cancels session id now)))
          (λ n. done-Keeps (honest h) _)

    cancel_found-Keeps :
        (session id : String) (row : JobRow)
        → Keeps (Reach c) (cancel_found parse env session id row)
    unfolding cancel_found
    cancel_found-Keeps session id row =
        if-Keeps (honest h) (is_terminal (job_status_of row.status)) _ _ (throw-Keeps (honest h) _)
          (>>=-Keeps (honest h) _ _
            (mapping-Keeps (honest h) internal_db _ (cancel_job-Keeps session id))
            (cancelled-Keeps id))

    pub cancel_blast-Keeps :
        (session id : String) → Keeps (Reach c) (cancel_blast parse env session id)
    unfolding cancel_blast
    cancel_blast-Keeps session id = >>=-Keeps (honest h) _ _ (find-Keeps session id) λ row.
        >>-Keeps (honest h) _ _ (cancel_found-Keeps session id row)
          (>>=-Keeps (honest h) _ _ (find-Keeps session id) λ row'. done-Keeps (honest h) _)

    requeued-Keeps : (id : String) (n : ℕ) → Keeps (Reach c) (after_requeue parse env id n)
    unfolding after_requeue reopen_job
    requeued-Keeps id n =
        if-Keeps (honest h) (nat_eq n 0) _ _ (throw-Keeps (honest h) _)
          (mapping-Keeps (honest h) internal_db _ (update-Keeps h _ (λ now d. reopens id)))

    retry_found-Keeps :
        (id : String) (row : JobRow) → Keeps (Reach c) (retry_found parse env id row)
    unfolding retry_found requeue_failed
    retry_found-Keeps id row =
        if-Keeps (honest h) (row.status == job_status_str JobStatus.running) _ _
          (throw-Keeps (honest h) _)
          (>>=-Keeps (honest h) _ _
            (mapping-Keeps (honest h) internal_db _
              (query-Keeps (honest h) _ (λ now d. one-Step (requeues id now))))
            (requeued-Keeps id))

    pub retry_blast-Keeps :
        (session id : String) → Keeps (Reach c) (retry_blast parse env session id)
    unfolding retry_blast
    retry_blast-Keeps session id = >>=-Keeps (honest h) _ _ (find-Keeps session id) λ row.
        >>-Keeps (honest h) _ _ (retry_found-Keeps id row)
          (>>=-Keeps (honest h) _ _ (find-Keeps session id) λ row'. done-Keeps (honest h) _)
