-- ===== src/Scheduled/Manage.antt =====
-- The management endpoints of handlers/schedule.rs: listings and cancellation.
use wa_rs.Common.{
  ℕ, Bool, true, false, String, Option, some, List, [], ◌∷◌, ◌==◌, ok_or, map, length, concat,
  if◌then◌else◌,
}
use wa_rs.ApiError.{ApiError, message_not_found, bad_request}
use wa_rs.Effect.{Env, ◌>>=◌, done, throw, lift, mapping}
use wa_rs.Blast.Create.{internal_db}
use wa_rs.Scheduled.Status.{ScheduledStatus, scheduled_status_str, scheduled_status_of}
use wa_rs.Scheduled.Store.{Table, ScheduledRow, get_scheduled, cancel_pending, list_scheduled}
use wa_rs.Scheduled.Park.{Handler}

-- `ScheduledMessage`; the timestamps stay seconds.
pub record ScheduledMessage : Type 0 where
  pub id : String
  pub session_id : String
  pub endpoint : String
  pub send_at : ℕ
  pub status : ScheduledStatus
  pub error : Option String
  pub message_id : Option String
  pub created_at : ℕ
  pub updated_at : ℕ

pub record ScheduledListResponse : Type 0 where
  pub messages : List ScheduledMessage
  pub total : ℕ

unfoldable pub row_to_model : ScheduledRow → ScheduledMessage
row_to_model row = record {
  id = row.id;
  session_id = row.session_id;
  endpoint = row.endpoint;
  send_at = row.send_at;
  status = scheduled_status_of row.status;
  error = row.error;
  message_id = row.message_id;
  created_at = row.created_at;
  updated_at = row.updated_at;
}

-- `ScheduledListResponse`, its field `count` named `total`.
unfoldable pub rows_to_response : List ScheduledRow → ScheduledListResponse
rows_to_response rows = record {
  messages = map row_to_model rows;
  total = length (map row_to_model rows);
}

abbrev pub no_schedule : String → ApiError
no_schedule id = message_not_found (concat ("scheduled message " ∷ id ∷ []))

unfoldable pub refuse_settled : String → ScheduledRow → ApiError
refuse_settled id row = bad_request (
    concat (
      "scheduled message " ∷ id ∷ " is " ∷ row.status ∷ ", only pending messages can be cancelled"
      ∷ []))

unfoldable pub refuse_claimed : String → ApiError
refuse_claimed id =
    bad_request
      (concat ("scheduled message " ∷ id ∷ " was claimed by the scheduler; try again" ∷ []))

module _ (env : Env Table) where
  -- The row of a URL.
  unfoldable pub find_scheduled : String → String → Handler ScheduledRow
  find_scheduled session_id id = mapping internal_db (get_scheduled env session_id id) >>= λ row.
      lift (ok_or row (no_schedule id))

  -- After the UPDATE, which did or did not hit a pending row.
  unfoldable pub reread_cancelled : String → String → Bool → Handler ScheduledMessage
  reread_cancelled session_id id false = throw (refuse_claimed id)
  reread_cancelled session_id id true =
      find_scheduled session_id id >>= λ row. done (row_to_model row)

  unfoldable pub cancel_row_found : String → String → ScheduledRow → Handler ScheduledMessage
  cancel_row_found session_id id row =
      if row.status == scheduled_status_str ScheduledStatus.pending
      then (mapping internal_db (cancel_pending env session_id id)
          >>= reread_cancelled session_id id)
      else throw (refuse_settled id row)

  unfoldable pub cancel_scheduled : String → String → Handler ScheduledMessage
  cancel_scheduled session_id id = find_scheduled session_id id >>= cancel_row_found session_id id

  unfoldable pub list_session_scheduled : String → Option String → Handler ScheduledListResponse
  list_session_scheduled session_id status =
      mapping internal_db (list_scheduled env (some session_id) status) >>= λ rows.
      done (rows_to_response rows)

  unfoldable pub list_all_scheduled : Option String → Option String → Handler ScheduledListResponse
  list_all_scheduled session status =
      mapping internal_db (list_scheduled env session status) >>= λ rows.
      done (rows_to_response rows)
