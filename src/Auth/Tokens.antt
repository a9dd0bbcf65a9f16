-- ===== src/Auth/Tokens.antt =====
-- The endpoints that mint, list and revoke session-scoped tokens: handlers/tokens.rs.
use wa_rs.Common.{
  ℕ, ◌+◌, ◌*◌, Bool, true, false, String, Option, none, some, List, [], ◌∷◌, map, length, max, ℤ,
  pos, negsuc, Result, ok, err, any, ◌==◌, concat,
}
use wa_rs.ApiError.{ApiError, session_not_found, bad_request, internal, token_not_found}
use wa_rs.Effect.{Env, Task, ◌>>=◌, ◌>>◌, done, throw, lift, mapping, query}
use wa_rs.Blast.Create.{internal_db}
use wa_rs.Auth.Store.{Db, TokenRecord, is_set, create_token, list_token_records, revoke}

-- `Claims`, times in Unix seconds.
pub record Claims : Type 0 where
  pub sub : String
  pub role : String
  pub exp : ℕ
  pub iat : ℕ
  pub jti : Option String

pub record MintTokenRequest : Type 0 where
  pub name : Option String
  pub session_ids : List String
  pub expires_in_hours : Option ℤ

pub record MintTokenResponse : Type 0 where
  pub id : String
  pub token : String
  pub name : Option String
  pub session_ids : List String
  pub expires_at : ℕ

pub record TokenSummary : Type 0 where
  pub id : String
  pub name : Option String
  pub session_ids : List String
  pub created_at : ℕ
  pub expires_at : Option ℕ
  pub revoked : Bool

abbrev pub Handler : Type 0 → Type 0
Handler A = Task Db (Unit {0}) ApiError A

-- `unwrap_or(24 * 30).max(1)`.
unfoldable pub hours_of : Option ℤ → ℕ
hours_of none = 720
hours_of (some (pos n)) = max n 1
hours_of (some (negsuc n)) = 1

-- The claims of `generate_token`.
unfoldable pub claims_for : String → String → ℕ → ℕ → Option String → Claims
claims_for subject role hours now jti = record {
  sub = subject;
  role = role;
  exp = now + hours * 3600;
  iat = now;
  jti = jti;
}

unfoldable pub to_summary : TokenRecord → TokenSummary
to_summary r = record {
  id = r.id;
  name = r.name;
  session_ids = r.session_ids;
  created_at = r.created_at;
  expires_at = r.expires_at;
  revoked = is_set r.revoked_at;
}

abbrev pub found_session : String → Bool → Result ApiError (Unit {0})
found_session id true = ok tt
found_session id false = err (session_not_found id)

-- The answer of the JWT library as the handler passes it on.
unfoldable pub signed : Result String String → Result ApiError String
signed (ok token) = ok token
signed (err e) = err (internal (concat ("failed to generate token: " ∷ e ∷ [])))

-- `encode` signs the claims: the JWT library under the secret of the process.
module _ (encode : Claims → Result String String) (env : Env Db) where
  -- Every session of the request exists.
  unfoldable pub check_sessions : List String → Handler (Unit {0})
  check_sessions [] = done tt
  check_sessions (s ∷ ss) =
      (mapping internal_db (query env (λ now d. (any (λ x. x == s) d.sessions, d))) >>= λ found.
      lift (found_session s found))
      >> check_sessions ss

  -- After the checks. `id` is the fresh UUID, `now` the clock of the call in seconds.
  unfoldable pub issue : String → MintTokenRequest → ℕ → Handler MintTokenResponse
  issue id request now =
      let hours = hours_of request.expires_in_hours in
      mapping internal_db
        (create_token env id request.name (some (now + hours * 3600)) request.session_ids)
      >> (lift (signed (encode (claims_for id "superadmin" hours now (some id)))) >>= λ token.
          done (record {
            id = id;
            token = token;
            name = request.name;
            session_ids = request.session_ids;
            expires_at = now + hours * 3600;
          }))

  unfoldable pub mint_sessions :
      String → MintTokenRequest → ℕ → List String → Handler MintTokenResponse
  mint_sessions id request now [] = throw (bad_request "session_ids must not be empty")
  mint_sessions id request now (s ∷ ss) = check_sessions (s ∷ ss) >> issue id request now

  unfoldable pub mint_token : String → MintTokenRequest → ℕ → Handler MintTokenResponse
  mint_token id request now = mint_sessions id request now request.session_ids

module _ (env : Env Db) where
  unfoldable pub list_tokens : Handler (List TokenSummary × ℕ)
  list_tokens = mapping internal_db (list_token_records env 1000 0) >>= λ records.
      done (map to_summary records, length records)

  abbrev pub revoke_answer : String → Bool → Result ApiError String
  revoke_answer id true = ok "Token revoked"
  revoke_answer id false = err (token_not_found id)

  -- Answers with the message of the `SuccessResponse`.
  unfoldable pub revoke_token : String → Handler String
  revoke_token id =
      mapping internal_db (revoke env id) >>= λ revoked. lift (revoke_answer id revoked)
