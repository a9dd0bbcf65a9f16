-- ===== src/Endpoint/Tests.antt =====
-- The send endpoints at a concrete gateway.
use wa_rs.Common.{◌≡◌, refl, String, ok}
use wa_rs.Json.{string}
use wa_rs.Endpoint.{MessageResponse, Gateway, dispatch, validate_body, has_arm, validate_arms}
use wa_rs.Endpoint.Validated.{dispatch-validate_body}

abbrev sent_as : String → MessageResponse
sent_as id = record { message_id = id; timestamp = 7; to = "r@s.whatsapp.net" }

abbrev gateway : Gateway
gateway = record {
  Request = String;
  from_str = λ endpoint text. ok text;
  from_value = λ endpoint v. ok "body";
  execute = λ n session request. ok (sent_as request);
}

dispatch-validate_body_example : dispatch gateway 0 "s" "poll" "stored" ≡ ok (sent_as "stored")
unfolding validate_body has_arm validate_arms
dispatch-validate_body_example =
    dispatch-validate_body gateway 0 "s" "poll" "stored" (string "hello") "stored" refl refl
