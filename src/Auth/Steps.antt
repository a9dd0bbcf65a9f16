-- ===== src/Auth/Steps.antt =====
-- What the code does to the two tables of the tokens, as a step relation.
use wa_rs.Common.{ℕ, String, Option, List}
use wa_rs.Effect.{Env}
use wa_rs.Auth.Store.{Db, Scope, token_rows, revoked_rows}

-- No code deletes a token. Scopes and sessions come and go: a token that is minted is bound to
-- sessions, and a session that is deleted takes its scopes along.
pub data Step (d : Db) : Db → Type 0 where
  mints :
      (id : String) (name : Option String) (expires_at : Option ℕ) (now : ℕ)
      → Step d (record d { tokens = token_rows id name expires_at now d.tokens })
  revokes : (id : String) (now : ℕ) → Step d (record d { tokens = revoked_rows id now d.tokens })
  rebinds :
      (scopes : List Scope) (sessions : List String)
      → Step d (record d { scopes = scopes; sessions = sessions })

pub data Reach (d : Db) : Db → Type 0 where
  here : Reach d d
  next : {e f : Db} → Reach d e → Step e f → Reach d f

-- The other tasks change the tables by steps.
pub record IsHonest (env : Env Db) : Type 0 where
  pub steps : (n : ℕ) (d : Db) → Reach d (env.meanwhile n d)

-- What every step keeps is kept all the way.
pub Reach-keeps :
    (P : Db → Type 0) → ((d e : Db) → Step d e → P d → P e) → {d e : Db} → Reach d e → P d → P e
Reach-keeps P keep here p = p
Reach-keeps P keep (next {e} {f} r s) p = keep e f s (Reach-keeps P keep r p)
