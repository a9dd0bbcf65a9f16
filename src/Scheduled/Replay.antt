-- ===== src/Scheduled/Replay.antt =====
-- A message parked by a send handler, and the row that the dispatcher reads later.
use wa_rs.Common.{
  ℕ, ◌/◌, ◌≡◌, refl, ◌∙◌, Bool, true, false, String, Option, none, some, List, [], ◌∷◌, Result, ok,
  err, map_err, any, arith, if◌then◌else◌, eq_refl,
}
use wa_rs.ApiError.{ApiError}
use wa_rs.Endpoint.{Gateway, dispatch, dispatch_arms, has_arm}
use wa_rs.Effect.{Env, World, DbError, db_error, throw, done, mapping}
use wa_rs.Effect.Hoare.{Ensures, >>=-Ensures, mapping-Ensures, query-Ensures, if-Ensures}
use wa_rs.Table.{first_where}
use wa_rs.Scheduled.Store.{Table, Act, ScheduledRow, has_id, park_row, insert_scheduled}
use wa_rs.Scheduled.Park.{
  second, should_schedule, SendResponse, scheduled_response, not_stored, serialized, park,
  maybe_schedule,
}
use wa_rs.Scheduled.Lifecycle.Rows.{first_where-append}

-- The row of `id` waits for its time, and its replay is the send of the request.
pub record Parked (g : Gateway) (id session : String) (request : g.Request) (send_at : ℕ)
    (t : Table) : Type 0 where
  pub row : ScheduledRow
  pub found : first_where (has_id id) t ≡ some row
  pub waits : row.status ≡ "pending"
  pub due : row.send_at ≡ send_at / second
  pub replays :
      (n : ℕ) → dispatch g n row.session_id row.endpoint row.body ≡ g.execute n session request

absent : (id : String) (t : Table) → any (has_id id) t ≡ false → first_where (has_id id) t ≡ none
unfolding first_where
absent id [] e = refl
absent id (r ∷ t) e = ground (arith, absent id t)

module _ (g : Gateway) (has_session : String → Bool) (env : Env Table)
    (id session endpoint text : String) (request : g.Request) (send_at : ℕ)
    (known : has_arm dispatch_arms endpoint ≡ true)
    (reads : g.from_str endpoint text ≡ ok request) where
  new_row : ℕ → ScheduledRow
  new_row now = record {
    id = id;
    session_id = session;
    endpoint = endpoint;
    body = text;
    send_at = send_at / second;
    status = "pending";
    error = none;
    message_id = none;
    created_at = now;
    updated_at = now;
  }

  inserted :
      (now : ℕ) (t : Table)
      → any (has_id id) t ≡ false
      → Parked g id session request send_at
          (park_row id session endpoint text (send_at / second) now t)
  unfolding park_row dispatch new_row
  inserted now t e = rw e (record {
    row = new_row now;
    found = first_where-append id t (new_row now) ∙ rw (absent id t e, eq_refl id) refl;
    waits = refl;
    due = refl;
    replays = λ n. rw known (rw reads refl);
  })

  -- What an answer says of the table.
  abbrev Answers : Result ApiError (Option SendResponse) → Table → List Act → Type 0
  Answers (ok (some resp)) t l =
      (resp ≡ scheduled_response id send_at) × Parked g id session request send_at t
  Answers (ok none) t l = Unit
  Answers (err e) t l = Unit

  abbrev Stored : {E : Type 0} → Result E (Unit {0}) → Table → List Act → Type 0
  Stored (ok u) t l = Parked g id session request send_at t
  Stored (err e) t l = Unit

  abbrev Taken : Result DbError Bool → Table → Type 0
  Taken (ok b) t = b ≡ false → Parked g id session request send_at t
  Taken (err e) t = Unit

  storing :
      Ensures
        (λ t l. Unit)
        (mapping not_stored (insert_scheduled env id session endpoint text (send_at / second)))
        Stored
  unfolding insert_scheduled
  storing = mapping-Ensures Stored not_stored _ (
      >>=-Ensures (λ r t l. Taken r t) _ _
        (query-Ensures env (λ t l. Unit) _ (λ n t l u. tt) (λ t l u. tt)
          (λ now t l u e. inserted now t e))
        answer (λ e t l u. tt))
    where
      answer :
          (b : Bool)
          → Ensures
              (λ t l. Taken (ok b) t)
              (if b then throw db_error else done tt)
              (λ r. Stored (map_err not_stored r))
      answer true = record { at = λ w h. tt }
      answer false = record { at = λ w h. h refl }

  parking :
      Ensures (λ t l. Unit) (park has_session env id session endpoint (ok text) send_at) Answers
  unfolding park serialized
  parking =
      if-Ensures (has_session session) _ _
        (>>=-Ensures Stored _ (λ _. done (some (scheduled_response id send_at))) storing
          (λ u. record { at = λ w h. (refl, h) }) (λ e t l u. tt))
        (record { at = λ w h. tt })

  scheduling :
      (now : ℕ)
      → Ensures
          (λ t l. Unit)
          (maybe_schedule has_session env id session endpoint (ok text) (some send_at) now)
          Answers
  unfolding maybe_schedule
  scheduling now = if-Ensures (should_schedule send_at now) _ _ parking (record { at = λ w h. tt })

-- If a send handler of an endpoint that the dispatcher knows answers that a message is parked, then
-- the answer carries the id and the time, and the table holds a row of that id: it waits, it is due
-- at the second of the requested time, and its replay by the dispatcher is the send of the request.
-- Serde has to read the request back from the text it wrote. Other tasks may do anything to the
-- table before the statement of the handler, and queries may fail.
pub maybe_schedule-Parked :
    (g : Gateway) (has_session : String → Bool) (env : Env Table)
    (id session endpoint text : String) (request : g.Request) (send_at now : ℕ)
    (resp : SendResponse) (w : World Table Act)
    → has_arm dispatch_arms endpoint ≡ true
    → g.from_str endpoint text ≡ ok request
    → (maybe_schedule has_session env id session endpoint (ok text) (some send_at) now w).0
      ≡ ok (some resp)
    → (resp ≡ scheduled_response id send_at)
      × Parked g id session request send_at
          (maybe_schedule has_session env id session endpoint
            (ok text)
            (some send_at)
            now
            w).1.store
maybe_schedule-Parked g has_session env id session endpoint text request send_at now resp w known
      reads answered =
    go (maybe_schedule has_session env id session endpoint (ok text) (some send_at) now w) answered
      ((scheduling g has_session env id session endpoint text request send_at known reads now).at w
        tt)
  where
    go :
        (x : Result ApiError (Option SendResponse) × World Table Act)
        → x.0 ≡ ok (some resp)
        → Answers g has_session env id session endpoint text request send_at known reads x.0
            x.1.store x.1.log
        → (resp ≡ scheduled_response id send_at) × Parked g id session request send_at x.1.store
    go (ok (some r), v) e (a, p) = (same r resp e ∙ a, p)
      where
        Answer : Type 0
        Answer = Result ApiError (Option SendResponse)

        same : (r q : SendResponse) → Path Answer (ok (some r)) (ok (some q)) → q ≡ r
        same r q e = cc
    go (ok none, v) e a = cc
    go (err k, v) e a = cc
