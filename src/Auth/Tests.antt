-- ===== src/Auth/Tests.antt =====
-- Runs of the token endpoints and the middleware, and the theorems at inputs that meet their
-- hypotheses.
use wa_rs.Common.{
  ℕ, ◌≡◌, ◌↔◌, refl, true, false, String, Option, none, some, List, [], ◌∷◌, Result, ok, arith, pos,
}
use wa_rs.ApiError.{ApiError}
use wa_rs.Effect.{World, calm, query}
use wa_rs.Table.{update_where}
use wa_rs.Auth.Segments.{strip_prefix, starts_with, first_segment, split_on}
use wa_rs.Auth.Paths.{is_open_path, is_console_path, session_id_from_path, as_session}
use wa_rs.Auth.Store.{
  Db, revoke, revoked_rows, token_rows, scope_rows, refuses_scope, bind_session, bind_sessions,
  create_token,
}
use wa_rs.Auth.Tokens.{
  Claims, MintTokenRequest, MintTokenResponse, claims_for, hours_of, revoke_token, mint_token,
  mint_sessions, issue, signed, check_sessions,
}
use wa_rs.Auth.Middleware.{
  Request, Setup, grants, presented, cookie_token, cookie_in, is_superadmin_token, in_scope,
  jwt_auth_middleware,
}
use wa_rs.Auth.Middleware.Bytes.{as_bytes, constant_time_eq, differences, utf8}
use wa_rs.Auth.Middleware.Compare.{constant_time_eq-equal}
use wa_rs.Auth.Access.{may_pass, jwt_auth_middleware-may_pass}
use wa_rs.Auth.Steps.{IsHonest, here}
use wa_rs.Auth.Revoked.{jwt_auth_middleware-Revoked}
use wa_rs.Auth.Minted.{mint_token-access}

abbrev tables : World Db (Unit {0})
tables = record {
  store = record {
    tokens =
        record { id = "t"; name = none; created_at = 1; expires_at = none; revoked_at = none } ∷ [];
    scopes = record { token_id = "t"; session_id = "a" } ∷ [];
    sessions = "a" ∷ "b" ∷ [];
  };
  queries = 0;
  log = [];
}

abbrev minting : MintTokenRequest
minting = record { name = none; session_ids = "a" ∷ []; expires_in_hours = some (pos 2) }

-- The claims of token "t" and of a token minted as "u".
abbrev claims : String → Claims
claims id = record { sub = id; role = "superadmin"; exp = 7205; iat = 5; jti = some id }

abbrev setup : String → Setup
setup id = record { superadmin_token = some "operator"; decode = λ token. ok (claims id) }

abbrev request : Request
request = record {
  path = "/api/v1/sessions/a/messages/text";
  authorization = some "Bearer jwt";
  cookie = none;
}

run_session : String → Option String
unfolding session_id_from_path strip_prefix first_segment as_session
run_session path = session_id_from_path path

sessions_of_paths :
    (run_session "/api/v1/sessions/a/messages/text" ≡ some "a")
    × (run_session "/api/v1/sessions/purge" ≡ none)
    × (run_session "/api/v1/tokens" ≡ none)
unfolding run_session
sessions_of_paths = (refl, refl, refl)

-- A cookie in place of the header.
run_presented : Request → Option String
unfolding presented cookie_token cookie_in split_on strip_prefix wa_rs.Jid.trim
run_presented r = presented r

console_cookie :
    run_presented
      (record request { authorization = some "Basic x"; cookie = some "x=1; waxum_console=jwt" })
    ≡ some "jwt"
unfolding run_presented
console_cookie = refl

run_revoke : Result ApiError String
unfolding revoke_token revoke revoked_rows update_where query
run_revoke = (revoke_token (calm (λ n. 9)) "t" tables).0

revoked_once : run_revoke ≡ ok "Token revoked"
unfolding run_revoke
revoked_once = refl

alone-IsHonest : IsHonest (calm (λ n. 9))
alone-IsHonest = record { steps = λ n d. here }

jwt_auth_middleware-Revoked_example :
    grants
      (jwt_auth_middleware
        (calm (λ n. 9))
        (setup "t")
        request
        (revoke_token (calm (λ n. 9)) "t" tables).1).0
    ≡ false
unfolding run_revoke presented strip_prefix is_open_path is_console_path starts_with
    is_superadmin_token constant_time_eq as_bytes utf8 differences
jwt_auth_middleware-Revoked_example =
    jwt_auth_middleware-Revoked (calm (λ n. 9)) (setup "t") "t" "jwt" "Token revoked" (claims "t")
      request tables (revoke_token (calm (λ n. 9)) "t" tables).1 alone-IsHonest revoked_once here
      refl refl refl refl refl refl

jwt_auth_middleware-may_pass_example :
    grants (jwt_auth_middleware (calm (λ n. 9)) (setup "t") request tables).0
    ≡ may_pass (setup "t") request tables.store
jwt_auth_middleware-may_pass_example =
    jwt_auth_middleware-may_pass (λ n. 9) (setup "t") request tables

abbrev encode : Claims → Result String String
encode c = ok "jwt"

abbrev minted : MintTokenResponse
minted = record { id = "u"; token = "jwt"; name = none; session_ids = "a" ∷ []; expires_at = 7205 }

run_mint : Result ApiError MintTokenResponse
unfolding mint_token mint_sessions check_sessions issue signed hours_of create_token token_rows
    bind_session bind_sessions scope_rows refuses_scope claims_for query
run_mint = (mint_token encode (calm (λ n. 9)) "u" minting 5 tables).0

minted_once : run_mint ≡ ok minted
unfolding run_mint
minted_once = refl

mint_token-access_example :
    grants
      (jwt_auth_middleware
        (calm (λ n. 9))
        (setup "u")
        request
        (mint_token encode (calm (λ n. 9)) "u" minting 5 tables).1).0
    ≡ in_scope (session_id_from_path request.path) ("a" ∷ [])
unfolding run_mint presented strip_prefix is_open_path is_console_path starts_with
    is_superadmin_token constant_time_eq as_bytes utf8 differences
mint_token-access_example =
    mint_token-access (λ n. 9) (setup "u") encode "u" minting 5 minted request tables refl refl
      (λ token e. refl) minted_once refl refl refl refl

constant_time_eq-equal_example :
    (constant_time_eq (97 ∷ 98 ∷ []) (97 ∷ 99 ∷ []) ≡ true)
    ↔ (◌≡◌ {A = List ℕ} (97 ∷ 98 ∷ []) (97 ∷ 99 ∷ []))
constant_time_eq-equal_example =
    constant_time_eq-equal (97 ∷ 98 ∷ []) (97 ∷ 99 ∷ []) (omega arith, (omega arith, tt))
      (omega arith, (omega arith, tt))
