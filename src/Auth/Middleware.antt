-- ===== src/Auth/Middleware.antt =====
-- `jwt_auth_middleware` of middleware/jwt.rs.
pub mod Bytes
pub mod Compare
use wa_rs.Common.{
  ℕ, Bool, true, false, not, ◌&&◌, ◌||◌, String, Option, none, some, List, [], ◌∷◌, ◌==◌, Result,
  ok, err, any, if◌then◌else◌,
}
use wa_rs.Jid.{trim}
use wa_rs.Effect.{Env, Task, DbError, ◌>>=◌, done, catch}
use wa_rs.Auth.Segments.{strip_prefix, split_on}
use wa_rs.Auth.Paths.{is_open_path, is_console_path, session_id_from_path}
use wa_rs.Auth.Middleware.Bytes.{as_bytes, constant_time_eq}
use wa_rs.Auth.Store.{Db, TokenStatus, token_status}
use wa_rs.Auth.Tokens.{Claims}

-- What becomes of the request: it goes on to its handler, or one of the two refusals.
pub data Verdict : Type 0 where
  granted : Verdict
  unauthorized forbidden : String → Verdict

-- Whether the request goes on.
abbrev pub grants : {E : Type 0} → Result E Verdict → Bool
grants (ok granted) = true
grants (ok (unauthorized m)) = false
grants (ok (forbidden m)) = false
grants (err e) = false

-- The path and the two headers that are read, each `none` if absent or no text.
pub record Request : Type 0 where
  pub path : String
  pub authorization : Option String
  pub cookie : Option String

-- The kinds of error of the JWT library that the code tells apart.
pub data JwtError : Type 0 where
  expired_signature invalid_token invalid_signature other_error : JwtError

-- The environment's SUPERADMIN_TOKEN, and the JWT library's check of a token under the secret.
pub record Setup : Type 0 where
  pub superadmin_token : Option String
  pub decode : String → Result JwtError Claims

-- The first part of the cookie header that is the console's.
unfoldable pub cookie_in : List String → Option String
cookie_in [] = none
cookie_in (part ∷ parts) = elim (strip_prefix "waxum_console=" (trim part)) [
  | some rest ↦ some rest
  | none ↦ cookie_in parts
]

unfoldable pub cookie_token : Option String → Option String
cookie_token none = none
cookie_token (some raw) = cookie_in (split_on 59 raw)

abbrev or_cookie : Option String → Option String → Option String
or_cookie none cookie = cookie
or_cookie (some token) cookie = some token

abbrev bearer : Option String → Option String
bearer none = none
bearer (some header) = strip_prefix "Bearer " header

-- The token that a request presents.
unfoldable pub presented : Request → Option String
presented r = or_cookie (bearer r.authorization) (cookie_token r.cookie)

unfoldable pub is_superadmin_token : Option String → String → Bool
is_superadmin_token none token = false
is_superadmin_token (some s) token = not (s == "") && constant_time_eq (as_bytes token) (as_bytes s)

unfoldable pub is_superadmin : Claims → Bool
is_superadmin claims = claims.role == "superadmin"

unfoldable pub rejection : JwtError → Verdict
rejection expired_signature = unauthorized "Token has expired"
rejection invalid_token = unauthorized "Invalid token format"
rejection invalid_signature = unauthorized "Invalid token signature"
rejection other_error = unauthorized "Token validation failed"

-- The session of the path against the sessions of the token.
unfoldable pub in_scope : Option String → List String → Bool
in_scope none session_ids = false
in_scope (some requested) session_ids = any (λ s. s == requested) session_ids

-- The answer to a request for `path` with a token whose status was looked up.
unfoldable pub judge_status : String → Result DbError (Option TokenStatus) → Verdict
judge_status path (err e) = unauthorized "Token status lookup failed"
judge_status path (ok none) = forbidden "Token is no longer valid"
judge_status path (ok (some status)) =
    if status.revoked
    then forbidden "Token has been revoked"
    else if in_scope (session_id_from_path path) status.session_ids
    then granted
    else forbidden "Token is not authorized for this session"

abbrev pub Guard : Type 0
Guard = Task Db (Unit {0}) DbError Verdict

module _ (env : Env Db) where
  unfoldable pub check_jti : String → Option String → Guard
  check_jti path none = done granted
  check_jti path (some jti) =
      catch {F = DbError} (token_status env jti) >>= λ status. done (judge_status path status)

  unfoldable pub check_claims : String → Claims → Guard
  check_claims path claims =
      if is_superadmin claims
      then check_jti path claims.jti
      else done (forbidden "Superadmin role required")

  unfoldable pub check_decoded : String → Result JwtError Claims → Guard
  check_decoded path (ok claims) = check_claims path claims
  check_decoded path (err e) = done (rejection e)

  unfoldable pub check_token : Setup → String → Option String → Guard
  check_token s path none =
      done (unauthorized "Missing or invalid Authorization header. Use: Bearer <token>")
  check_token s path (some token) =
      if is_superadmin_token s.superadmin_token token
      then done granted
      else check_decoded path (s.decode token)

  unfoldable pub jwt_auth_middleware : Setup → Request → Guard
  jwt_auth_middleware s r =
      if is_open_path r.path
      then done granted
      else (if is_console_path r.path then done granted else check_token s r.path (presented r))
