-- ===== src/Auth/Minted.antt =====
-- A token from `mint_token` at the middleware.
use wa_rs.Common.{
  ℕ, ◌+◌, ◌*◌, ◌≡◌, refl, sym, ◌∙◌, ap, Bool, true, false, String, Option, none, some, List, [],
  ◌∷◌, ◌++◌, ◌==◌, Result, ok, err, map_err, any, if◌then◌else◌, eq_refl, arith,
}
use wa_rs.ApiError.{ApiError}
use wa_rs.Effect.{calm, World, DbError, db_error, ◌>>=◌, done, throw, lift, mapping, query}
use wa_rs.Effect.Hoare.{
  Ensures, Always, >>=-Ensures, done-Ensures, lift-Ensures, calm-Ensures, then-Ensures,
}
use wa_rs.Table.{first_where}
use wa_rs.Blast.Create.{internal_db}
use wa_rs.Auth.Store.{
  Db, Stored, Scope, TokenRow, has_id, token_rows, scope_rows, refuses_scope, sessions_of,
  bind_session, bind_sessions, create_token,
}
use wa_rs.Auth.Tokens.{
  Handler, Claims, MintTokenRequest, MintTokenResponse, hours_of, claims_for, check_sessions,
  found_session, signed, issue, mint_sessions, mint_token,
}
use wa_rs.Auth.Paths.{is_open_path, is_console_path, session_id_from_path}
use wa_rs.Auth.Middleware.{
  grants, Request, Setup, presented, is_superadmin_token, is_superadmin, in_scope,
  jwt_auth_middleware,
}
use wa_rs.Auth.Access.{is_valid, jwt_auth_middleware-may_pass, in_scope-sessions_of}

sessions_of-append :
    (id session : String) (scopes : List Scope)
    → sessions_of id (scopes ++ record { token_id = id; session_id = session } ∷ [])
      ≡ sessions_of id scopes ++ session ∷ []
sessions_of-append id session [] = rw (eq_refl id) refl
sessions_of-append id session (s ∷ ss) = ground (arith, sessions_of-append id session ss)

append_assoc : (xs ys zs : List String) → (xs ++ ys) ++ zs ≡ xs ++ (ys ++ zs)
append_assoc [] ys zs = refl
append_assoc (x ∷ xs) ys zs = ap (λ l. x ∷ l) (append_assoc xs ys zs)

found_new :
    (t : List TokenRow) (row : TokenRow)
    → any (has_id row.id) t ≡ false
    → first_where (has_id row.id) (t ++ row ∷ []) ≡ some row
unfolding first_where
found_new [] row e = rw (eq_refl row.id) refl
found_new (r ∷ t) row e = ground (arith, found_new t row)

module _ (clock : ℕ → ℕ) (id : String) where
  -- The token is valid, and bound to these sessions.
  record Bound (ids : List String) (d : Db) : Type 0 where
    pub valid : is_valid (first_where (has_id id) d.tokens) ≡ true
    pub bound : sessions_of id d.scopes ≡ ids

  -- The id is not in use.
  record Fresh (d : Db) : Type 0 where
    pub absent : any (has_id id) d.tokens ≡ false
    pub unbound : sessions_of id d.scopes ≡ []

  -- A result after which the token is bound.
  abbrev Binds : {E A : Type 0} → List String → Result E A → Db → List (Unit {0}) → Type 0
  Binds ids (ok a) d l = Bound ids d
  Binds ids (err e) d l = Unit

  one_more :
      (ids : List String) (s : String) (d : Db) (b : Bool)
      → refuses_scope id s d ≡ b
      → Bound ids d
      → if b then Unit else Bound (ids ++ s ∷ []) (record d { scopes = scope_rows id s d })
  unfolding scope_rows
  one_more ids s d true e o = tt
  one_more ids s d false e o = record {
    valid = o.valid;
    bound = rw e (sessions_of-append id s d.scopes ∙ ap (λ l. l ++ s ∷ []) o.bound);
  }

  bind-Binds :
      (ids : List String) (s : String)
      → Ensures (λ d l. Bound ids d) (bind_session (calm clock) id s) (Binds (ids ++ s ∷ []))
  unfolding bind_session
  bind-Binds ids s =
      then-Ensures (λ b d l. if b then Unit else Bound (ids ++ s ∷ []) d) _
        (λ refused. if refused then throw db_error else done tt)
        (calm-Ensures clock _ _ (λ now d l o. one_more ids s d _ refl o)) answer
    where
      answer :
          (b : Bool)
          → Ensures
              (λ d l. if b then Unit else Bound (ids ++ s ∷ []) d)
              (if b then throw db_error else done tt)
              (Binds (ids ++ s ∷ []))
      answer true = record { at = λ w o. tt }
      answer false = record { at = λ w o. o }

  sessions-Binds :
      (ids ss : List String)
      → Ensures (λ d l. Bound ids d) (bind_sessions (calm clock) id ss) (Binds (ids ++ ss))
  unfolding bind_sessions
  sessions-Binds ids [] = record {
    at = λ w o. record { valid = o.valid; bound = o.bound ∙ sym (append_nil ids) };
  }
    where
      append_nil : (xs : List String) → xs ++ [] ≡ xs
      append_nil [] = refl
      append_nil (x ∷ xs) = ap (λ l. x ∷ l) (append_nil xs)
  sessions-Binds ids (s ∷ ss) =
      >>=-Ensures (Binds (ids ++ s ∷ [])) (bind_session (calm clock) id s)
        (λ _. bind_sessions (calm clock) id ss) (bind-Binds ids s)
        (λ u. rw (sym (append_assoc ids (s ∷ []) ss)) (sessions-Binds (ids ++ s ∷ []) ss))
        (λ e d l o. tt)

  inserted :
      (name : Option String) (expires : Option ℕ) (now : ℕ) (d : Db)
      → Fresh d
      → Bound [] (record d { tokens = token_rows id name expires now d.tokens })
  unfolding token_rows
  inserted name expires now d f = rw f.absent (record {
    valid = rw (found_new d.tokens (row name expires now) f.absent) refl;
    bound = f.unbound;
  })
    where
      row : Option String → Option ℕ → ℕ → TokenRow
      row name expires now = record {
        id = id;
        name = name;
        created_at = now;
        expires_at = expires;
        revoked_at = none;
      }

  create-Binds :
      (name : Option String) (expires : Option ℕ) (ss : List String)
      → Ensures (λ d l. Fresh d) (create_token (calm clock) id name expires ss) (Binds ss)
  unfolding create_token
  create-Binds name expires ss =
      then-Ensures (λ b d l. if b then Unit else Bound [] d) _
        (λ taken. if taken then throw db_error else bind_sessions (calm clock) id ss)
        (calm-Ensures clock _ _ (λ now d l f. rw f.absent (inserted name expires now d f))) answer
    where
      answer :
          (b : Bool)
          → Ensures
              (λ d l. if b then Unit else Bound [] d)
              (if b then throw db_error else bind_sessions (calm clock) id ss)
              (Binds ss)
      answer true = record { at = λ w o. tt }
      answer false = sessions-Binds [] ss

  mapped-Binds :
      (ids : List String) (m : Stored (Unit {0}))
      → Ensures (λ d l. Fresh d) m (Binds ids)
      → Ensures (λ d l. Fresh d) (mapping internal_db m) (Binds ids)
  mapped-Binds ids m h = record { at = λ w f. go (m w).0 (m w).1.store (m w).1.log (h.at w f) }
    where
      go :
          (x : Result DbError (Unit {0})) (d : Db) (l : List (Unit {0}))
          → Binds ids x d l
          → Binds ids (map_err internal_db x) d l
      go (ok u) d l o = o
      go (err e) d l o = tt

  module _ (encode : Claims → Result String String) where
    checks-Fresh :
        (ss : List String)
        → Ensures (λ d l. Fresh d) (check_sessions encode (calm clock) ss) (Always (λ d l. Fresh d))
    unfolding check_sessions query
    checks-Fresh [] = done-Ensures (λ d l. Fresh d) tt
    checks-Fresh (s ∷ ss) =
        >>=-Ensures (Always (λ d l. Fresh d))
          (mapping internal_db (query (calm clock) (λ now d. (any (λ x. x == s) d.sessions, d)))
            >>= λ found. lift (found_session s found))
          (λ _. check_sessions encode (calm clock) ss)
          (>>=-Ensures (Always (λ d l. Fresh d))
            (mapping internal_db (query (calm clock) (λ now d. (any (λ x. x == s) d.sessions, d))))
            (λ found. lift (found_session s found)) (record { at = λ w f. f })
            (λ b. lift-Ensures (λ d l. Fresh d) (found_session s b)) (λ e d l f. f))
          (λ u. checks-Fresh ss) (λ e d l f. f)

    -- What an answer says of the tables and of its token.
    abbrev Issues :
        MintTokenRequest → ℕ → Result ApiError MintTokenResponse → Db → List (Unit {0}) → Type 0
    Issues request now (ok resp) d l =
        Bound request.session_ids d
        × (encode (claims_for id "superadmin" (hours_of request.expires_in_hours) now (some id))
            ≡ ok resp.token)
    Issues request now (err e) d l = Unit

    issue-Issues :
        (request : MintTokenRequest) (now : ℕ)
        → Ensures (λ d l. Fresh d) (issue encode (calm clock) id request now) (Issues request now)
    unfolding issue signed
    issue-Issues request now =
        >>=-Ensures (Binds request.session_ids) _
          (λ _.
            lift (
              signed (
                encode
                  (claims_for id "superadmin" (hours_of request.expires_in_hours) now (some id))))
            >>= λ token. done (response token))
          (mapped-Binds request.session_ids _ (
            create-Binds request.name (some (now + hours_of request.expires_in_hours * 3600))
              request.session_ids))
          (λ u. record { at = λ w o. go _ refl w o }) (λ e d l f. tt)
      where
        response : String → MintTokenResponse
        response token = record {
          id = id;
          token = token;
          name = request.name;
          session_ids = request.session_ids;
          expires_at = now + hours_of request.expires_in_hours * 3600;
        }

        answered : Result String String → Handler MintTokenResponse
        answered x = lift (signed x) >>= λ token. done (response token)

        go :
            (x : Result String String)
            → encode (claims_for id "superadmin" (hours_of request.expires_in_hours) now (some id))
              ≡ x
            → (w : World Db (Unit {0})) → Bound request.session_ids w.store
            → Issues request now (answered x w).0 (answered x w).1.store (answered x w).1.log
        go (ok token) e w o = (o, e)
        go (err k) e w o = tt

    mint-Issues :
        (request : MintTokenRequest) (now : ℕ) (ss : List String)
        → Ensures
            (λ d l. Fresh d)
            (mint_sessions encode (calm clock) id request now ss)
            (Issues request now)
    unfolding mint_sessions
    mint-Issues request now [] = record { at = λ w f. tt }
    mint-Issues request now (s ∷ ss) =
        >>=-Ensures (Always (λ d l. Fresh d)) (check_sessions encode (calm clock) (s ∷ ss))
          (λ _. issue encode (calm clock) id request now) (checks-Fresh (s ∷ ss))
          (λ u. issue-Issues request now) (λ e d l f. tt)

-- With no other task and no fault, a token that `mint_token` answers under an unused id is at once
-- good for the sessions of the request, and for nothing else that needs credentials: the middleware
-- lets a request with it pass exactly if the path is inside one of those sessions. The JWT library
-- has to read back the claims that it signed, and the token is not the SUPERADMIN_TOKEN.
pub mint_token-access :
    (clock : ℕ → ℕ) (setup : Setup) (encode : Claims → Result String String) (id : String)
    (request : MintTokenRequest) (now : ℕ) (resp : MintTokenResponse) (r : Request)
    (w : World Db (Unit {0}))
    → any (has_id id) w.store.tokens ≡ false
    → sessions_of id w.store.scopes ≡ []
    → ((token : String)
        → encode (claims_for id "superadmin" (hours_of request.expires_in_hours) now (some id))
          ≡ ok token
        → setup.decode token
          ≡ ok (claims_for id "superadmin" (hours_of request.expires_in_hours) now (some id)))
    → (mint_token encode (calm clock) id request now w).0 ≡ ok resp
    → is_open_path r.path ≡ false
    → is_console_path r.path ≡ false
    → presented r ≡ some resp.token
    → is_superadmin_token setup.superadmin_token resp.token ≡ false
    → grants
        (jwt_auth_middleware
          (calm clock)
          setup
          r
          (mint_token encode (calm clock) id request now w).1).0
      ≡ in_scope (session_id_from_path r.path) request.session_ids
unfolding mint_token is_superadmin claims_for
mint_token-access clock setup encode id request now resp r w absent unbound reads minted shut
      private carries other =
    go (mint_token encode (calm clock) id request now w) minted (
      (mint-Issues clock id encode request now request.session_ids).at w
        (record { absent = absent; unbound = unbound }))
  where
    same :
        (k m : MintTokenResponse)
        → Path (Result ApiError MintTokenResponse) (ok k) (ok m)
        → encode (claims_for id "superadmin" (hours_of request.expires_in_hours) now (some id))
          ≡ ok k.token
        → encode (claims_for id "superadmin" (hours_of request.expires_in_hours) now (some id))
          ≡ ok m.token
    same k m e signs = cc

    go :
        (x : Result ApiError MintTokenResponse × World Db (Unit {0}))
        → x.0 ≡ ok resp
        → Issues clock id encode request now x.0 x.1.store x.1.log
        → grants (jwt_auth_middleware (calm clock) setup r x.1).0
          ≡ in_scope (session_id_from_path r.path) request.session_ids
    go (ok k, v) e (o, signs) =
        jwt_auth_middleware-may_pass clock setup r v
        ∙ rw (shut, private, carries, other, reads resp.token (same k resp e signs), o.valid)
            (sym (in_scope-sessions_of id (session_id_from_path r.path) v.store.scopes)
              ∙ ap (in_scope (session_id_from_path r.path)) o.bound)
    go (err k, v) e q = cc
