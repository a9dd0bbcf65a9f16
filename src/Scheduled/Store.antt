-- ===== src/Scheduled/Store.antt =====
-- The table `scheduled_messages` and the functions of db/scheduled.rs, each one atomic statement.
-- The SQL of the three backends says the same. Stored timestamps are whole seconds, as their text.
use wa_rs.Common.{
  ℕ, Bool, ◌&&◌, String, Option, none, some, List, [], ◌∷◌, ◌++◌, ◌==◌, any, count, keep, take, ltb,
  leb, if◌then◌else◌,
}
use wa_rs.Effect.{Env, Task, DbError, db_error, ◌>>=◌, done, throw, query}
use wa_rs.Endpoint.{MessageResponse}
use wa_rs.Table.{update_where, first_where, sort_by, accepts}

pub record ScheduledRow : Type 0 where
  pub id : String
  pub session_id : String
  pub endpoint : String
  pub body : String
  pub send_at : ℕ
  pub status : String
  pub error : Option String
  pub message_id : Option String
  pub created_at : ℕ
  pub updated_at : ℕ

-- The table, in insertion order.
abbrev pub Table : Type 0
Table = List ScheduledRow

-- What the scheduler does to the outside. A send shows the id of its row, which the request that
-- goes out does not carry.
pub data Act : Type 0 where
  dispatched : String → String → String → String → Act
  scheduled_sent : ScheduledRow → MessageResponse → Act
  scheduled_failed : ScheduledRow → String → Act

abbrev pub Stored : Type 0 → Type 0
Stored A = Task Table Act DbError A

-- `WHERE id = ?`.
abbrev pub has_id : String → ScheduledRow → Bool
has_id id r = r.id == id

-- `WHERE id = ? AND status = 'pending'`.
abbrev pub is_pending : String → ScheduledRow → Bool
is_pending id r = (r.id == id) && (r.status == "pending")

-- `WHERE session_id = ? AND id = ? AND status = 'pending'`.
abbrev pub is_cancellable : String → String → ScheduledRow → Bool
is_cancellable session_id id r =
    (r.session_id == session_id) && ((r.id == id) && (r.status == "pending"))

-- `WHERE status = 'pending' AND send_at <= ?`.
abbrev pub is_due : ℕ → ScheduledRow → Bool
is_due now r = (r.status == "pending") && leb r.send_at now

-- The INSERT. The primary key refuses a second row of the same id.
unfoldable pub park_row : String → String → String → String → ℕ → ℕ → Table → Table
park_row id session_id endpoint body send_at now t = if any (has_id id) t then t else t ++ row ∷ []
  where
    row : ScheduledRow
    row = record {
      id = id;
      session_id = session_id;
      endpoint = endpoint;
      body = body;
      send_at = send_at;
      status = "pending";
      error = none;
      message_id = none;
      created_at = now;
      updated_at = now;
    }

-- The UPDATE of a claim.
unfoldable pub claim_rows : String → ℕ → Table → Table
claim_rows id now =
    update_where (is_pending id) λ r. record r { status = "sending"; updated_at = now }

-- The UPDATE of `mark_sent`.
unfoldable pub sent_rows : String → String → ℕ → Table → Table
sent_rows id message_id now =
    update_where (has_id id) λ r. record r {
      status = "sent";
      message_id = some message_id;
      error = none;
      updated_at = now;
    }

-- The UPDATE of `mark_failed`.
unfoldable pub failed_rows : String → String → ℕ → Table → Table
failed_rows id error now =
    update_where (has_id id)
      λ r. record r { status = "failed"; error = some error; updated_at = now }

-- The UPDATE of `cancel_pending`.
unfoldable pub cancel_rows : String → String → ℕ → Table → Table
cancel_rows session_id id now =
    update_where (is_cancellable session_id id)
      λ r. record r { status = "cancelled"; updated_at = now }

-- The rows due at `now`, the oldest first.
unfoldable pub due_rows : ℕ → ℕ → Table → List ScheduledRow
due_rows limit now t = take limit (sort_by (λ r. r.send_at) (keep (is_due now) t))

module _ (env : Env Table) where
  -- `send_at` in seconds, the text that the row stores.
  unfoldable pub insert_scheduled : String → String → String → String → ℕ → Stored (Unit {0})
  insert_scheduled id session_id endpoint body send_at =
      query env (λ now t. (any (has_id id) t, park_row id session_id endpoint body send_at now t))
      >>= λ taken. if taken then throw db_error else done tt

  unfoldable pub due_pending : ℕ → Stored (List ScheduledRow)
  due_pending limit = query env (λ now t. (due_rows limit now t, t))

  unfoldable pub claim : String → Stored Bool
  claim id = query env (λ now t. (ltb 0 (count (is_pending id) t), claim_rows id now t))

  unfoldable pub mark_sent : String → String → Stored (Unit {0})
  mark_sent id message_id = query env (λ now t. (tt, sent_rows id message_id now t))

  unfoldable pub mark_failed : String → String → Stored (Unit {0})
  mark_failed id error = query env (λ now t. (tt, failed_rows id error now t))

  unfoldable pub get_scheduled : String → String → Stored (Option ScheduledRow)
  get_scheduled session_id id =
      query env (λ now t. (first_where (λ r. (r.session_id == session_id) && (r.id == id)) t, t))

  unfoldable pub cancel_pending : String → String → Stored Bool
  cancel_pending session_id id =
      query env
        (λ now t. (ltb 0 (count (is_cancellable session_id id) t), cancel_rows session_id id now t))

  unfoldable pub list_scheduled : Option String → Option String → Stored (List ScheduledRow)
  list_scheduled session_id status = query env (λ now t. (
    sort_by (λ r. r.send_at)
        (keep (λ r. accepts session_id r.session_id && accepts status r.status) t),
    t,
  ))
