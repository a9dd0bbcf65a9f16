-- ===== src/Auth/Store.antt =====
-- The tables `tokens` and `token_sessions` and the functions of db/tokens.rs. The SQL of the three
-- backends says the same; no statement of `create` is in a transaction with another.
use wa_rs.Common.{
  ℕ, Bool, true, false, not, ◌&&◌, ◌||◌, String, Option, none, some, List, [], ◌∷◌, ◌++◌, ◌==◌, any,
  count, keep, map, take, drop, ltb, if◌then◌else◌,
}
use wa_rs.Effect.{Env, Task, DbError, db_error, ◌>>=◌, ◌>>◌, done, throw, query}
use wa_rs.Table.{update_where, first_where, newest_by}

pub record TokenRow : Type 0 where
  pub id : String
  pub name : Option String
  pub created_at : ℕ
  pub expires_at : Option ℕ
  pub revoked_at : Option ℕ

-- A row of `token_sessions`.
pub record Scope : Type 0 where
  pub token_id : String
  pub session_id : String

-- The two tables, and the ids in `sessions`, which a scope has to name.
pub record Db : Type 0 where
  pub tokens : List TokenRow
  pub scopes : List Scope
  pub sessions : List String

-- Nothing that this code does to the outside is of interest here.
abbrev pub Stored : Type 0 → Type 0
Stored A = Task Db (Unit {0}) DbError A

pub record TokenRecord : Type 0 where
  pub id : String
  pub name : Option String
  pub session_ids : List String
  pub created_at : ℕ
  pub expires_at : Option ℕ
  pub revoked_at : Option ℕ

pub record TokenStatus : Type 0 where
  pub revoked : Bool
  pub session_ids : List String

abbrev pub has_id : String → TokenRow → Bool
has_id id r = r.id == id

abbrev pub is_set : Option ℕ → Bool
is_set none = false
is_set (some t) = true

-- `WHERE id = ? AND revoked_at IS NULL`.
abbrev pub is_live : String → TokenRow → Bool
is_live id r = (r.id == id) && not (is_set r.revoked_at)

abbrev pub same_scope : String → String → Scope → Bool
same_scope token_id session_id s = (s.token_id == token_id) && (s.session_id == session_id)

-- The INSERT into `tokens`; the primary key refuses a second row of the same id.
unfoldable pub token_rows : String → Option String → Option ℕ → ℕ → List TokenRow → List TokenRow
token_rows id name expires_at now rows = if any (has_id id) rows then rows else rows ++ row ∷ []
  where
    row : TokenRow
    row = record {
      id = id;
      name = name;
      created_at = now;
      expires_at = expires_at;
      revoked_at = none;
    }

-- What the keys of `token_sessions` refuse: a pair that is there, a session that is not.
unfoldable pub refuses_scope : String → String → Db → Bool
refuses_scope token_id session_id d =
    any (same_scope token_id session_id) d.scopes || not (any (λ s. s == session_id) d.sessions)

-- The INSERT into `token_sessions`.
unfoldable pub scope_rows : String → String → Db → List Scope
scope_rows token_id session_id d =
    if refuses_scope token_id session_id d
    then d.scopes
    else d.scopes ++ record { token_id = token_id; session_id = session_id } ∷ []

-- The UPDATE of `revoke`.
unfoldable pub revoked_rows : String → ℕ → List TokenRow → List TokenRow
revoked_rows id now = update_where (is_live id) λ r. record r { revoked_at = some now }

abbrev pub sessions_of : String → List Scope → List String
sessions_of id scopes = map (λ s. s.session_id) (keep (λ s. s.token_id == id) scopes)

module _ (env : Env Db) where
  unfoldable pub bind_session : String → String → Stored (Unit {0})
  bind_session id session_id =
      query env
        (λ now d. (refuses_scope id session_id d, record d { scopes = scope_rows id session_id d }))
      >>= λ refused. if refused then throw db_error else done tt

  unfoldable pub bind_sessions : String → List String → Stored (Unit {0})
  bind_sessions id [] = done tt
  bind_sessions id (s ∷ ss) = bind_session id s >> bind_sessions id ss

  unfoldable pub create_token : String → Option String → Option ℕ → List String → Stored (Unit {0})
  create_token id name expires_at session_ids =
      query env (λ now d. (
        any (has_id id) d.tokens,
        record d { tokens = token_rows id name expires_at now d.tokens },
      ))
      >>= λ taken. if taken then throw db_error else bind_sessions id session_ids

  -- The second SELECT of `status`, for a row that the first one found.
  unfoldable pub status_of_row : String → Option TokenRow → Stored (Option TokenStatus)
  status_of_row id none = done none
  status_of_row id (some row) = query env (λ now d. (sessions_of id d.scopes, d)) >>= λ session_ids.
      done (some (record { revoked = is_set row.revoked_at; session_ids = session_ids }))

  unfoldable pub token_status : String → Stored (Option TokenStatus)
  token_status id = query env (λ now d. (first_where (has_id id) d.tokens, d)) >>= status_of_row id

  -- The sessions of a listed token, looked up one by one.
  unfoldable pub fill_sessions : List TokenRow → Stored (List TokenRecord)
  fill_sessions [] = done []
  fill_sessions (r ∷ rs) = token_status r.id >>= λ status.
      fill_sessions rs >>= λ records. done (to_record r status ∷ records)
    where
      sessions : Option TokenStatus → List String
      sessions none = []
      sessions (some s) = s.session_ids

      to_record : TokenRow → Option TokenStatus → TokenRecord
      to_record row status = record {
        id = row.id;
        name = row.name;
        session_ids = sessions status;
        created_at = row.created_at;
        expires_at = row.expires_at;
        revoked_at = row.revoked_at;
      }

  unfoldable pub list_token_records : ℕ → ℕ → Stored (List TokenRecord)
  list_token_records limit offset =
      query env (λ now d. (take limit (drop offset (newest_by (λ r. r.created_at) d.tokens)), d))
      >>= fill_sessions

  unfoldable pub revoke : String → Stored Bool
  revoke id = query env (λ now d.
      (ltb 0 (count (is_live id) d.tokens), record d { tokens = revoked_rows id now d.tokens }))
