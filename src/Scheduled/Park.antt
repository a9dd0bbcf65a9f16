-- ===== src/Scheduled/Park.antt =====
-- The guard of the send endpoints, `maybe_schedule` of handlers/schedule.rs, and a send handler of
-- handlers/messages.rs around it. Instants of the requests are nanoseconds.
use wa_rs.Common.{
  ℕ, ◌+◌, ◌/◌, ◌*◌, ◌^◌, Bool, String, Option, none, some, [], ◌∷◌, Result, ok, err, ltb, concat,
  if◌then◌else◌,
}
use wa_rs.ApiError.{ApiError, session_not_found, internal}
use wa_rs.Endpoint.{MessageResponse}
use wa_rs.Effect.{Env, Task, DbError, ◌>>=◌, ◌>>◌, done, throw, lift, mapping}
use wa_rs.Scheduled.Store.{Table, Act, insert_scheduled}

abbrev pub second : ℕ
second = 10 ^ 9

-- `SCHEDULE_GRACE`.
abbrev pub schedule_grace : ℕ
schedule_grace = 2 * second

unfoldable pub should_schedule : ℕ → ℕ → Bool
should_schedule send_at now = ltb (now + schedule_grace) send_at

-- `SendResponse` of models/schedule.rs.
pub record SendResponse : Type 0 where
  pub status : String
  pub message_id : Option String
  pub timestamp : Option ℕ
  pub to : Option String
  pub schedule_id : Option String
  pub send_at : Option ℕ

-- `SendResponse::sent`.
unfoldable pub sent_response : MessageResponse → SendResponse
sent_response resp = record {
  status = "sent";
  message_id = some resp.message_id;
  timestamp = some resp.timestamp;
  to = some resp.to;
  schedule_id = none;
  send_at = none;
}

-- `SendResponse::scheduled`.
unfoldable pub scheduled_response : String → ℕ → SendResponse
scheduled_response schedule_id send_at = record {
  status = "pending";
  message_id = none;
  timestamp = none;
  to = none;
  schedule_id = some schedule_id;
  send_at = some send_at;
}

abbrev pub Handler : Type 0 → Type 0
Handler A = Task Table Act ApiError A

abbrev pub not_stored : DbError → ApiError
not_stored e = internal "failed to store scheduled message"

abbrev pub not_serialized : String → ApiError
not_serialized e = internal (concat ("failed to serialize scheduled body: " ∷ e ∷ []))

-- The body as text.
unfoldable pub serialized : Result String String → Result ApiError String
serialized (ok body) = ok body
serialized (err e) = err (not_serialized e)

module _ (has_session : String → Bool) (env : Env Table) where
  -- `id` is the fresh UUID, `body` what serde makes of the request, `now` the clock of the call.
  unfoldable pub park :
      String → String → String → Result String String → ℕ → Handler (Option SendResponse)
  park id session_id endpoint body send_at =
      if has_session session_id
      then (lift (serialized body) >>= λ text.
          mapping not_stored (insert_scheduled env id session_id endpoint text (send_at / second))
          >> done (some (scheduled_response id send_at)))
      else throw (session_not_found session_id)

  unfoldable pub maybe_schedule :
      String → String → String → Result String String → Option ℕ → ℕ → Handler (Option SendResponse)
  maybe_schedule id session_id endpoint body none now = done none
  maybe_schedule id session_id endpoint body (some send_at) now =
      if should_schedule send_at now then park id session_id endpoint body send_at else done none

  -- The rest of a send handler after its guard; `execute` is its `execute_*` function.
  unfoldable pub reply : Handler MessageResponse → Option SendResponse → Handler SendResponse
  reply execute (some parked) = done parked
  reply execute none = execute >>= λ resp. done (sent_response resp)

  -- `send_text`; the handlers of the other endpoints differ in their key and their `execute_*`.
  unfoldable pub send_handler :
      String
      → String
      → String
      → Result String String
      → Option ℕ
      → ℕ
      → Handler MessageResponse
      → Handler SendResponse
  send_handler id session_id endpoint body send_at now execute =
      maybe_schedule id session_id endpoint body send_at now >>= reply execute
