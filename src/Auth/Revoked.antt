-- ===== src/Auth/Revoked.antt =====
-- A token that was revoked, at the middleware.
use wa_rs.Common.{
  ℕ, ◌≤◌, ◌≡◌, refl, Bool, true, false, ◌&&◌, String, Option, none, some, List, [], ◌∷◌, ◌++◌, ◌==◌,
  Result, ok, err, any, count, ltb, ltb→lt, arith, if◌then◌else◌, Bool-cases, inl, inr, eq_iff,
}
use wa_rs.ApiError.{ApiError}
use wa_rs.Effect.{Env, World, DbError, done, lift, query}
use wa_rs.Effect.Hoare.{
  Ensures, >>=-Ensures, mapping-Ensures, query-Ensures, if-Ensures, catching-Ensures, then-Ensures,
}
use wa_rs.Table.{first_where}
use wa_rs.Table.Counts.{
  count-update_same, count-update_lost, count-append_one, count-any, count_implied,
}
use wa_rs.Blast.Create.{internal_db}
use wa_rs.Auth.Store.{
  Db, TokenRow, TokenStatus, has_id, is_live, is_set, token_rows, revoked_rows, revoke,
  token_status, status_of_row, sessions_of,
}
use wa_rs.Auth.Tokens.{Claims, revoke_token, revoke_answer}
use wa_rs.Auth.Paths.{is_open_path, is_console_path}
use wa_rs.Auth.Middleware.{
  grants, Request, Setup, presented, is_superadmin_token, is_superadmin, judge_status, check_jti,
  check_claims, check_decoded, check_token, jwt_auth_middleware,
}
use wa_rs.Auth.Steps.{Step, Reach, Reach-keeps, IsHonest, mints, revokes, rebinds}

-- The token is known, and no row of it is live.
pub record Gone (id : String) (d : Db) : Type 0 where
  pub known : 1 ≤ count (has_id id) d.tokens
  pub none_live : count (is_live id) d.tokens ≡ 0

minted :
    (id : String) (d : Db) (b : Bool) (row : TokenRow)
    → any (has_id row.id) d.tokens ≡ b
    → Gone id d
    → Gone id (record d { tokens = if b then d.tokens else d.tokens ++ row ∷ [] })
minted id d true row e g = record { known = g.known; none_live = g.none_live }
minted id d false row e g = record {
  known = ground (arith, count-append_one (has_id id) d.tokens row, g.known);
  none_live = elim (Bool-cases (row.id == id)) [
    | inl hit ↦ absurd (
        omega (arith, count-any (has_id id) d.tokens (rw ((eq_iff row.id id).0 hit) at e), g.known))
    | inr miss ↦ ground (arith, count-append_one (is_live id) d.tokens row, g.none_live)
  ];
}

Step-Gone : (id : String) (d e : Db) → Step d e → Gone id d → Gone id e
unfolding token_rows revoked_rows
Step-Gone id d e (mints key name expires now) g = minted id d _ _ refl g
Step-Gone id d e (revokes key now) g = record {
  known = omega (
    arith,
    count-update_same (has_id id) (is_live key) (λ r. record r { revoked_at = some now })
        (λ r q. refl) d.tokens,
    g.known,
  );
  none_live = omega (
    arith,
    count-update_lost (is_live id) (is_live key) (λ r. record r { revoked_at = some now })
        (λ r q. ground arith) d.tokens,
    g.none_live,
  );
}
Step-Gone id d e (rebinds scopes sessions) g = record { known = g.known; none_live = g.none_live }

-- The row that a lookup finds is revoked.
found-Gone :
    (id : String) (t : List TokenRow) (row : TokenRow)
    → first_where (has_id id) t ≡ some row
    → count (is_live id) t ≡ 0
    → is_set row.revoked_at ≡ true
unfolding first_where
found-Gone id [] row e g = cc
found-Gone id (r ∷ t) row e g = ground (arith, found-Gone id t row)

module _ {env : Env Db} (h : IsHonest env) (id : String) where
  others : (n : ℕ) (d : Db) (l : List (Unit {0})) → Gone id d → Gone id (env.meanwhile n d)
  others n d l = Reach-keeps (Gone id) (Step-Gone id) (h.steps n d)

  -- The answer of `revoke` and of the endpoint.
  abbrev Done : {E A : Type 0} → (A → Bool) → Result E A → Db → List (Unit {0}) → Type 0
  Done p (ok a) d l = if p a then Gone id d else Unit
  Done p (err e) d l = Unit

  gone_now :
      (now : ℕ) (d : Db) (b : Bool)
      → ltb 0 (count (is_live id) d.tokens) ≡ b
      → if b then Gone id (record d { tokens = revoked_rows id now d.tokens }) else Unit
  unfolding revoked_rows
  gone_now now d false e = tt
  gone_now now d true e = record {
    known = omega (
      arith,
      count-update_same (has_id id) (is_live id) (λ r. record r { revoked_at = some now })
          (λ r q. refl) d.tokens,
      count_implied (is_live id) (has_id id) (λ r q. ground arith) d.tokens,
      ltb→lt _ _ e,
    );
    none_live = omega (
      arith,
      count-update_lost (is_live id) (is_live id) (λ r. record r { revoked_at = some now })
          (λ r q. ground arith) d.tokens,
      count_implied (is_live id) (λ r. is_live id r && is_live id r) (λ r q. ground arith) d.tokens,
    );
  }

  revoking : Ensures (λ d l. Unit) (revoke_token env id) (Done (λ m. true))
  unfolding revoke_token revoke
  revoking =
      >>=-Ensures (Done (λ b. b)) _ (λ b. lift (revoke_answer env id b))
        (mapping-Ensures (Done (λ b. b)) internal_db _ (
          query-Ensures env (λ d l. Unit) _ (λ n d l u. tt) (λ d l u. tt)
            (λ now d l u. gone_now now d _ refl)))
        answer (λ e d l u. tt)
    where
      answer :
          (b : Bool)
          → Ensures
              (λ d l. if b then Gone id d else Unit)
              (lift (revoke_answer env id b))
              (Done (λ m. true))
      answer false = record { at = λ w u. tt }
      answer true = record { at = λ w g. g }

  -- A status that was read of a revoked token.
  abbrev Looked : Result DbError (Option TokenStatus) → Db → List (Unit {0}) → Type 0
  Looked (ok none) d l = Unit
  Looked (ok (some status)) d l = status.revoked ≡ true
  Looked (err e) d l = Unit

  abbrev Row : Result DbError (Option TokenRow) → Db → List (Unit {0}) → Type 0
  Row (ok none) d l = Unit
  Row (ok (some row)) d l = is_set row.revoked_at ≡ true
  Row (err e) d l = Unit

  looking : Ensures (λ d l. Gone id d) (token_status env id) Looked
  unfolding token_status status_of_row
  looking =
      >>=-Ensures Row _ (status_of_row env id)
        (query-Ensures env (λ d l. Gone id d) _ others (λ d l g. tt)
          (λ now d l g. found d l _ refl g))
        sessions (λ e d l u. tt)
    where
      found :
          (d : Db) (l : List (Unit {0})) (o : Option TokenRow)
          → first_where (has_id id) d.tokens ≡ o
          → Gone id d
          → Row (ok o) d l
      found d l none e g = tt
      found d l (some row) e g = found-Gone id d.tokens row e g.none_live

      sessions : (o : Option TokenRow) → Ensures (Row (ok o)) (status_of_row env id o) Looked
      sessions none = record { at = λ w u. tt }
      sessions (some row) =
          >>=-Ensures (λ r d l. is_set row.revoked_at ≡ true)
            (query env (λ now d. (sessions_of id d.scopes, d)))
            (λ ids. done (some (record { revoked = is_set row.revoked_at; session_ids = ids })))
            (query-Ensures env (λ d l. is_set row.revoked_at ≡ true) _ (λ n d l e. e) (λ d l e. e)
              (λ now d l e. e))
            (λ ids. record { at = λ w e. e }) (λ e d l u. tt)

  -- No answer that the middleware makes of such a status lets the request pass.
  refusing :
      (path : String)
      → Ensures (λ d l. Gone id d) (check_jti env path (some id)) (λ v d l. grants v ≡ false)
  unfolding check_jti judge_status
  refusing path =
      then-Ensures Looked _ (λ x. done (judge_status path x))
        (catching-Ensures DbError Looked (token_status env id) looking)
        (λ x. record { at = λ w q. judged x w.store w.log q })
    where
      judged :
          (x : Result DbError (Option TokenStatus)) (d : Db) (l : List (Unit {0}))
          → Looked x d l
          → grants {E = DbError} (ok (judge_status path x)) ≡ false
      judged (ok none) d l q = refl
      judged (ok (some status)) d l q = rw q refl
      judged (err e) d l q = refl

  claiming :
      (path : String) (claims : Claims)
      → claims.jti ≡ some id
      → Ensures (λ d l. Gone id d) (check_claims env path claims) (λ v d l. grants v ≡ false)
  unfolding check_claims
  claiming path claims names =
      if-Ensures (is_superadmin claims) _ _ (rw names (refusing path)) (record { at = λ w g. refl })

-- Once `revoke_token` has answered that a token is revoked, the middleware grants no request with it
-- that needs credentials: not at once, and not after anything that the code does to the tables of
-- the tokens later, whatever other tasks do during the two calls and whichever queries fail. The
-- token is any bearer or cookie token that decodes to claims with the id, and is not the
-- SUPERADMIN_TOKEN.
pub jwt_auth_middleware-Revoked :
    (env : Env Db) (setup : Setup) (id token message : String) (claims : Claims) (r : Request)
    (w v : World Db (Unit {0}))
    → IsHonest env
    → (revoke_token env id w).0 ≡ ok message
    → Reach (revoke_token env id w).1.store v.store
    → is_open_path r.path ≡ false
    → is_console_path r.path ≡ false
    → presented r ≡ some token
    → is_superadmin_token setup.superadmin_token token ≡ false
    → setup.decode token ≡ ok claims
    → claims.jti ≡ some id
    → grants (jwt_auth_middleware env setup r v).0 ≡ false
unfolding jwt_auth_middleware check_token check_decoded check_claims
jwt_auth_middleware-Revoked env setup id token message claims r w v h revoked later shut private
      carries other decodes names =
    rw (shut, private, carries, other, decodes)
      ((claiming h id r.path claims names).at v (
        Reach-keeps (Gone id) (Step-Gone id) later
          (go (revoke_token env id w) revoked ((revoking h id).at w tt))))
  where
    go :
        (x : Result ApiError String × World Db (Unit {0}))
        → x.0 ≡ ok message
        → Done h id (λ m. true) x.0 x.1.store x.1.log
        → Gone id x.1.store
    go (ok m, u) e g = g
    go (err k, u) e g = cc
