-- ===== src/Auth/Access.antt =====
-- Who passes the middleware, as one description of the request and the tables.
use wa_rs.Common.{
  ℕ, suc, ◌≡◌, refl, sym, Bool, true, false, not, ◌&&◌, ◌||◌, String, Option, none, some, List, [],
  ◌∷◌, Result, ok, err, any, if◌then◌else◌, Bool-cases, inl, inr, arith,
}
use wa_rs.Effect.{calm, World, DbError, done, query}
use wa_rs.Table.{first_where}
use wa_rs.Auth.Store.{
  Db, Scope, TokenRow, TokenStatus, has_id, is_set, same_scope, sessions_of, token_status,
  status_of_row,
}
use wa_rs.Auth.Tokens.{Claims}
use wa_rs.Auth.Paths.{is_open_path, is_console_path, session_id_from_path}
use wa_rs.Auth.Middleware.{
  granted, forbidden, grants, Request, Setup, JwtError, presented, is_superadmin_token,
  is_superadmin, judge_status, in_scope, check_jti, check_claims, check_decoded, check_token,
  rejection, jwt_auth_middleware,
}

-- The table has the token, and it was not revoked.
abbrev pub is_valid : Option TokenRow → Bool
is_valid none = false
is_valid (some row) = not (is_set row.revoked_at)

-- The path is inside a session that the token is bound to.
abbrev pub is_bound : String → Option String → List Scope → Bool
is_bound id none scopes = false
is_bound id (some session) scopes = any (same_scope id session) scopes

abbrev pub id_may_pass : Option String → String → Db → Bool
id_may_pass none path d = true
id_may_pass (some id) path d =
    is_valid (first_where (has_id id) d.tokens) && is_bound id (session_id_from_path path) d.scopes

abbrev pub claims_may_pass : Result JwtError Claims → String → Db → Bool
claims_may_pass (err e) path d = false
claims_may_pass (ok claims) path d = is_superadmin claims && id_may_pass claims.jti path d

abbrev pub token_may_pass : Setup → Option String → String → Db → Bool
token_may_pass s none path d = false
token_may_pass s (some token) path d =
    is_superadmin_token s.superadmin_token token || claims_may_pass (s.decode token) path d

-- A request passes if its path needs no credentials, or if it carries the SUPERADMIN_TOKEN, or a
-- token of the role with no id, or one with the id of a valid token that is bound to its session.
abbrev pub may_pass : Setup → Request → Db → Bool
may_pass s r d =
    is_open_path r.path || is_console_path r.path || token_may_pass s (presented r) r.path d

pub in_scope-sessions_of :
    (id : String) (o : Option String) (scopes : List Scope)
    → in_scope o (sessions_of id scopes) ≡ is_bound id o scopes
unfolding in_scope
in_scope-sessions_of id none scopes = refl
in_scope-sessions_of id (some sid) [] = refl
in_scope-sessions_of id (some sid) (s ∷ ss) = ground (arith, in_scope-sessions_of id (some sid) ss)

-- The status that a row stands for.
abbrev status_for : String → List Scope → Option TokenRow → Option TokenStatus
status_for id scopes none = none
status_for id scopes (some row) =
    some (record { revoked = is_set row.revoked_at; session_ids = sessions_of id scopes })

judge_status-valid :
    (id path : String) (scopes : List Scope) (o : Option TokenRow)
    → grants {E = DbError} (ok (judge_status path (ok (status_for id scopes o))))
      ≡ is_valid o && is_bound id (session_id_from_path path) scopes
unfolding judge_status
judge_status-valid id path scopes none = refl
judge_status-valid id path scopes (some row) =
    rw (sym (in_scope-sessions_of id (session_id_from_path path) scopes))
      (go (is_set row.revoked_at) (in_scope (session_id_from_path path) (sessions_of id scopes)))
  where
    go :
        (b c : Bool)
        → grants {E = DbError} (
            ok (
              if b
              then forbidden "Token has been revoked"
              else if c
              then granted
              else forbidden "Token is not authorized for this session"))
          ≡ not b && c
    go true c = refl
    go false true = refl
    go false false = refl

module _ (clock : ℕ → ℕ) where
  status_of_row-calm :
      (id : String) (o : Option TokenRow) (w : World Db (Unit {0}))
      → (status_of_row (calm clock) id o w).0 ≡ ok (status_for id w.store.scopes o)
  unfolding status_of_row query
  status_of_row-calm id none w = refl
  status_of_row-calm id (some row) w = refl

  check_jti-calm :
      (path : String) (jti : Option String) (w : World Db (Unit {0}))
      → grants (check_jti (calm clock) path jti w).0 ≡ id_may_pass jti path w.store
  unfolding check_jti token_status query
  check_jti-calm path none w = refl
  check_jti-calm path (some id) w =
      rw
        (status_of_row-calm id (first_where (has_id id) w.store.tokens)
          (record w { queries = suc w.queries }))
        (judge_status-valid id path w.store.scopes (first_where (has_id id) w.store.tokens))

  check_decoded-calm :
      (path : String) (x : Result JwtError Claims) (w : World Db (Unit {0}))
      → grants (check_decoded (calm clock) path x w).0 ≡ claims_may_pass x path w.store
  unfolding check_decoded check_claims rejection
  check_decoded-calm path (err JwtError.expired_signature) w = refl
  check_decoded-calm path (err JwtError.invalid_token) w = refl
  check_decoded-calm path (err JwtError.invalid_signature) w = refl
  check_decoded-calm path (err JwtError.other_error) w = refl
  check_decoded-calm path (ok claims) w = elim (Bool-cases (is_superadmin claims)) [
    | inl role ↦ rw role (check_jti-calm path claims.jti w)
    | inr other ↦ rw other refl
  ]

  check_token-calm :
      (s : Setup) (path : String) (o : Option String) (w : World Db (Unit {0}))
      → grants (check_token (calm clock) s path o w).0 ≡ token_may_pass s o path w.store
  unfolding check_token
  check_token-calm s path none w = refl
  check_token-calm s path (some token) w =
      elim (Bool-cases (is_superadmin_token s.superadmin_token token)) [
        | inl operator ↦ rw operator refl
        | inr other ↦ rw other (check_decoded-calm path (s.decode token) w)
      ]

-- With no other task and no fault, the middleware lets a request pass exactly if the description
-- `may_pass` allows it: an open or a console path, the SUPERADMIN_TOKEN, a decodable token of the
-- role without an id, or one with the id of a token that is in the table, not revoked, and bound to
-- the session of the path.
pub jwt_auth_middleware-may_pass :
    (clock : ℕ → ℕ) (s : Setup) (r : Request) (w : World Db (Unit {0}))
    → grants (jwt_auth_middleware (calm clock) s r w).0 ≡ may_pass s r w.store
unfolding jwt_auth_middleware
jwt_auth_middleware-may_pass clock s r w = go (is_open_path r.path) (is_console_path r.path)
  where
    go :
        (a b : Bool)
        → grants
            ((if a
                then done granted
                else (if b then done granted else check_token (calm clock) s r.path (presented r)))
              w).0
          ≡ a || b || token_may_pass s (presented r) r.path w.store
    go true b = refl
    go false true = refl
    go false false = check_token-calm clock s r.path (presented r) w
