-- ===== src/Blast/Create.antt =====
-- `create_blast` of handlers/blast.rs.
pub mod Admission
pub mod Accounts
use wa_rs.Common.{
  ℕ, suc, ◌+◌, ◌-◌, Bool, true, false, not, ◌&&◌, String, Option, none, some, List, [], ◌∷◌, ◌++◌,
  ◌==◌, Result, ok, err, map_err, ltb, if◌then◌else◌, any, keep, length, map, concat, join,
}
use wa_rs.ApiError.{ApiError, session_not_found, bad_request, internal}
use wa_rs.Jid.{JidLibrary, parse_jid}
use wa_rs.Json.{Value}
use wa_rs.Endpoint.{Gateway, validate_body}
use wa_rs.Effect.{Env, Task, DbError, ◌>>=◌, ◌>>◌, done, throw, lift, mapping}
use wa_rs.Blast.Status.{
  BlastOptions, default_options, JobStatus, RecipientStatus, job_status_str, recipient_status_str,
}
use wa_rs.Blast.Rows.{Db}
use wa_rs.Blast.Action.{Action}
use wa_rs.Blast.Store.{already_sent, insert_job, insert_recipients}
use wa_rs.Blast.Statements.{contains}

-- `CreateBlastRequest`.
pub record CreateBlastRequest : Type 0 where
  pub endpoint : String
  pub body : Value
  pub recipients : List String
  pub delay_ms : Option ℕ
  pub jitter_ms : Option ℕ
  pub max_attempts : Option ℕ
  pub dedup_across_jobs : Option Bool
  pub send_at : Option ℕ

abbrev unwrap_or {ℓ} : {A : Type ℓ} → Option A → A → A
unwrap_or none d = d
unwrap_or (some a) d = a

-- `CreateBlastRequest::options`.
unfoldable pub options_of : CreateBlastRequest → BlastOptions
options_of r = record {
  delay_ms = unwrap_or r.delay_ms default_options.delay_ms;
  jitter_ms = unwrap_or r.jitter_ms default_options.jitter_ms;
  max_attempts = unwrap_or r.max_attempts default_options.max_attempts;
  dedup_across_jobs = unwrap_or r.dedup_across_jobs default_options.dedup_across_jobs;
}

-- `CreateBlastResponse`.
pub record CreateBlastResponse : Type 0 where
  pub job_id : String
  pub total : ℕ
  pub skipped_dup : ℕ
  pub status : String

-- The variables of the loop over the recipients; `seen` is in order of insertion.
pub record Intake : Type 0 where
  pub bad : List String
  pub seen : List String
  pub accepted : List String
  pub skipped_dup : ℕ

abbrev pub no_intake : Intake
no_intake = record { bad = []; seen = []; accepted = []; skipped_dup = 0 }

-- What the handler calls that is not in its file.
pub record Services : Type 1 where
  pub jids : JidLibrary
  pub gateway : Gateway
  pub has_session : String → Bool
  pub to_text : Value → String
  pub options_text : BlastOptions → Result String String

abbrev pub internal_db : DbError → ApiError
internal_db e = internal "database error"

abbrev pub is_empty_list : List String → Bool
is_empty_list [] = true
is_empty_list (_ ∷ _) = false

-- What `retain` leaves of the accepted recipients, and the new count of the skipped.
unfoldable pub drop_sent : Intake → List String → Intake
drop_sent i sent =
    let kept = keep (λ r. not (contains sent r)) i.accepted in
    record i { accepted = kept; skipped_dup = i.skipped_dup + (length i.accepted - length kept) }

-- The rows of the job's recipients: the accepted as pending, the other seen ones as skipped.
unfoldable pub rows_of : Intake → List (String × String)
rows_of i =
    map (λ r. (r, recipient_status_str RecipientStatus.pending)) i.accepted
    ++ map (λ r. (r, recipient_status_str RecipientStatus.skipped_dup))
        (keep (λ r. not (contains i.accepted r)) i.seen)

-- The recipients taken in, if none of them is bad.
unfoldable pub check_recipients : Intake → Result ApiError Intake
check_recipients i =
    if is_empty_list i.bad
    then ok i
    else err (bad_request (concat ("invalid recipients: " ∷ join ", " i.bad ∷ [])))

module _ (s : Services) where
  -- The canonical text of one recipient.
  unfoldable pub canonical : String → Result ApiError String
  canonical raw = elim (parse_jid s.jids raw) [ ok jid ↦ ok (s.jids.to_string jid) | err e ↦ err e ]

  -- One round of the loop.
  unfoldable pub take_in : Intake → String → Intake
  take_in i raw = elim (canonical raw) [
    | err _ ↦ record i { bad = i.bad ++ raw ∷ [] }
    | ok c ↦
        if contains i.seen c
        then record i { skipped_dup = i.skipped_dup + 1 }
        else record i { seen = i.seen ++ c ∷ []; accepted = i.accepted ++ c ∷ [] }
  ]

  unfoldable pub take_in_all : Intake → List String → Intake
  take_in_all i [] = i
  take_in_all i (raw ∷ rest) = take_in_all (take_in i raw) rest

  -- The checks before anything is read or written.
  unfoldable pub admit : String → CreateBlastRequest → Result ApiError Intake
  unfolding check_recipients
  admit session_id r =
      if not (s.has_session session_id)
      then err (session_not_found session_id)
      else (elim (validate_body s.gateway r.endpoint r.body) [
        | err e ↦ err (bad_request e)
        | ok _ ↦
            if is_empty_list r.recipients
            then err (bad_request "recipients must not be empty")
            else check_recipients (take_in_all no_intake r.recipients)
      ])

  module _ (env : Env Db) where
    -- Cross-job dedup, where the job asks for it.
    unfoldable pub dedup : String → BlastOptions → Intake → Task Db Action ApiError Intake
    dedup session_id options i =
        if options.dedup_across_jobs && not (is_empty_list i.accepted)
        then (mapping internal_db (already_sent env session_id i.accepted) >>= λ sent.
            done (drop_sent i sent))
        else done i

    -- `id` is the fresh UUID of the job.
    unfoldable pub create_blast :
        String → String → CreateBlastRequest → Task Db Action ApiError CreateBlastResponse
    create_blast id session_id r = do
      admitted ← lift (admit session_id r)
      i ← dedup session_id (options_of r) admitted
      options ← lift (map_err internal (s.options_text (options_of r)))
      mapping internal_db (
          insert_job env id session_id r.endpoint (s.to_text r.body) options (length i.accepted)
            i.skipped_dup r.send_at)
      mapping internal_db (insert_recipients env id session_id (rows_of i))
      done (record {
        job_id = id;
        total = length i.accepted;
        skipped_dup = i.skipped_dup;
        status = job_status_str JobStatus.pending;
      })
