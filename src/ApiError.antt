-- ===== src/ApiError.antt =====
-- The error type of the handlers and the status code of each variant: error.rs.
use wa_rs.Common.{ℕ, String}

pub data ApiError : Type 0 where
  not_authenticated not_connected already_connected : ApiError
  session_not_found invalid_jid message_not_found contact_not_found : String → ApiError
  group_not_found media_upload_failed media_download_failed : String → ApiError
  webhook_already_exists webhook_not_found token_not_found : String → ApiError
  rate_limited : ApiError
  temporary_ban internal bad_request session_error nats_error : String → ApiError

-- The status code that `into_response` picks.
unfoldable pub status_code : ApiError → ℕ
status_code not_authenticated = 401
status_code not_connected = 503
status_code already_connected = 409
status_code (session_not_found _) = 404
status_code (invalid_jid _) = 400
status_code (message_not_found _) = 404
status_code (contact_not_found _) = 404
status_code (group_not_found _) = 404
status_code (media_upload_failed _) = 500
status_code (media_download_failed _) = 500
status_code (webhook_already_exists _) = 409
status_code (webhook_not_found _) = 404
status_code (token_not_found _) = 404
status_code rate_limited = 429
status_code (temporary_ban _) = 429
status_code (internal _) = 500
status_code (bad_request _) = 400
status_code (session_error _) = 500
status_code (nats_error _) = 500
