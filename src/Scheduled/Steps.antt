-- ===== src/Scheduled/Steps.antt =====
-- The statements of db/scheduled.rs as a step relation on the table.
pub mod Once
pub mod Retired
use wa_rs.Common.{ℕ, ◌≡◌, Bool, true, String}
use wa_rs.Effect.{Env}
use wa_rs.Scheduled.Store.{Table, park_row, claim_rows, sent_rows, failed_rows, cancel_rows}

-- `c` says whether the statements of a dispatcher are among the steps, or the handlers' alone.
pub data Step (c : Bool) (t : Table) : Table → Type 0 where
  parks :
      (id session_id endpoint body : String) (send_at now : ℕ)
      → Step c t (park_row id session_id endpoint body send_at now t)
  cancels : (session_id id : String) (now : ℕ) → Step c t (cancel_rows session_id id now t)
  claims : (id : String) (now : ℕ) → c ≡ true → Step c t (claim_rows id now t)
  settles_sent : (id m : String) (now : ℕ) → c ≡ true → Step c t (sent_rows id m now t)
  settles_failed : (id e : String) (now : ℕ) → c ≡ true → Step c t (failed_rows id e now t)

pub data Reach (c : Bool) (t : Table) : Table → Type 0 where
  here : Reach c t t
  next : {u v : Table} → Reach c t u → Step c u v → Reach c t v

-- The other tasks change the table by steps, too.
pub record IsHonest (c : Bool) (env : Env Table) : Type 0 where
  pub steps : (n : ℕ) (t : Table) → Reach c t (env.meanwhile n t)

-- What every step keeps is kept all the way.
pub Reach-keeps :
    {c : Bool} (P : Table → Type 0)
    → ((t u : Table) → Step c t u → P t → P u)
    → {t u : Table} → Reach c t u
    → P t
    → P u
Reach-keeps P keep here p = p
Reach-keeps P keep (next {u} {v} r s) p = keep u v s (Reach-keeps P keep r p)
