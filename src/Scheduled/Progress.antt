-- ===== src/Scheduled/Progress.antt =====
-- A tick of the dispatcher alone with the table: no other task, no fault.
pub mod Rows
use wa_rs.Common.{
  ℕ, suc, ◌+◌, ◌-◌, ◌≤◌, ◌≡◌, refl, Bool, true, false, ◌&&◌, ◌||◌, String, List, [], ◌∷◌, ◌==◌,
  Result, ok, err, count, length, keep, take, min, arith, ltb, lt→ltb, if◌then◌else◌, eq_refl,
  length-take, length-keep,
}
use wa_rs.Endpoint.{Gateway, MessageResponse}
use wa_rs.Effect.{calm, World, DbError, ◌>>=◌, query}
use wa_rs.Effect.Hoare.{
  Ensures, Always, Succeeds, >>=-Ensures, then-Ensures, calm-Ensures, catch-Ensures, emit-Ensures,
}
use wa_rs.Table.{sort_by}
use wa_rs.Table.Counts.{count-keep, count-take, count-sort_by, length-sort_by, count_implied}
use wa_rs.Scheduled.Store.{
  Table, Act, ScheduledRow, has_id, is_pending, is_due, scheduled_sent, scheduled_failed, claim,
  mark_sent, mark_failed, claim_rows, sent_rows, failed_rows, due_rows, due_pending,
}
use wa_rs.Scheduled.Dispatcher.{
  send_parked, settle_parked, send_claimed, process_rows, process_due, due_batch_limit,
}
use wa_rs.Scheduled.Progress.Rows.{
  waits, is_settled, Left, InHand, first_hit, claimed-InHand, settled-Left,
}

module _ (g : Gateway) (clock : ℕ → ℕ) (n m : ℕ) where
  -- `Left` and `InHand` say nothing of the log.
  Remaining : List ScheduledRow → Table → List Act → Type 0
  Remaining rs t l = Left n m rs t

  claiming :
      (r : ScheduledRow) (rs : List ScheduledRow)
      → Ensures
          (Remaining (r ∷ rs))
          (claim (calm clock) r.id)
          (Succeeds (λ b t l. (b ≡ true) × InHand n m r.id rs t))
  unfolding claim Remaining
  claiming r rs = calm-Ensures clock _ _ λ now t l a.
      (lt→ltb _ _ (omega (arith, first_hit n m r rs t a)), claimed-InHand now n m r rs t a)

  settling :
      (r : ScheduledRow) (rs : List ScheduledRow) (x : Result String MessageResponse)
      → Ensures
          (λ t l. InHand n m r.id rs t)
          (settle_parked g (calm clock) r x)
          (Succeeds (λ _. Remaining rs))
  unfolding settle_parked mark_sent mark_failed sent_rows failed_rows Remaining query
  settling r rs (ok resp) = record {
    at = λ w a. settled-Left n m r.id rs w.store _ (λ x. refl) (λ x. refl) (λ x. refl) a;
  }
  settling r rs (err e) = record {
    at = λ w a. settled-Left n m r.id rs w.store _ (λ x. refl) (λ x. refl) (λ x. refl) a;
  }

  sending :
      (r : ScheduledRow) (rs : List ScheduledRow) (b : Bool)
      → Ensures
          (λ t l. (b ≡ true) × InHand n m r.id rs t)
          (send_claimed g (calm clock) r b)
          (Succeeds (λ _. Remaining rs))
  unfolding send_claimed send_parked
  sending r rs false = record { at = λ w (e, a). cc }
  sending r rs true =
      then-Ensures (λ _ t l. InHand n m r.id rs t) (send_parked g (calm clock) r)
        (settle_parked g (calm clock) r) (record { at = λ w (e, a). a }) (settling r rs)

  rows-Left :
      (rs : List ScheduledRow)
      → Ensures (Remaining rs) (process_rows g (calm clock) rs) (Succeeds (λ _. Remaining []))
  unfolding process_rows
  rows-Left [] = record { at = λ w a. a }
  rows-Left (r ∷ rs) =
      then-Ensures (λ _. Remaining rs) (claim (calm clock) r.id >>= send_claimed g (calm clock) r)
        (λ _. process_rows g (calm clock) rs)
        (then-Ensures (λ b t l. (b ≡ true) × InHand n m r.id rs t) _ _ (claiming r rs)
          (sending r rs))
        (λ _. rows-Left rs)

length-due_rows :
    (now : ℕ) (t : Table)
    → length (due_rows due_batch_limit now t) ≡ min due_batch_limit (count (is_due now) t)
unfolding due_rows
length-due_rows now t = omega (
  arith,
  length-take due_batch_limit (sort_by (λ r. r.send_at) (keep (is_due now) t)),
  length-sort_by (λ r. r.send_at) (keep (is_due now) t),
  length-keep (is_due now) t,
)

due_rows-covered :
    (now : ℕ) (id : String) (t : Table)
    → count (has_id id) (due_rows due_batch_limit now t) ≤ count (is_pending id) t
unfolding due_rows
due_rows-covered now id t = omega (
  arith,
  count-take (has_id id) due_batch_limit (sort_by (λ r. r.send_at) (keep (is_due now) t)),
  count-sort_by (has_id id) (λ r. r.send_at) (keep (is_due now) t),
  count-keep (has_id id) (is_due now) t,
  count_implied (λ r. is_due now r && has_id id r) (is_pending id) (λ r q. ground arith) t,
)

batch_waits : (now : ℕ) (t : Table) → length (due_rows due_batch_limit now t) ≤ count waits t
batch_waits now t =
    omega (arith, length-due_rows now t, count_implied (is_due now) waits (λ r q. ground arith) t)

due-Left :
    (now : ℕ) (t : Table)
    → ((id : String) → count (has_id id) t ≤ 1)
    → Left
        (count waits t - length (due_rows due_batch_limit now t))
        (count is_settled t + length (due_rows due_batch_limit now t))
        (due_rows due_batch_limit now t)
        t
due-Left now t unique = record {
  covers = λ id. due_rows-covered now id t;
  unique = unique;
  waiting = omega (arith, batch_waits now t);
  settled = refl;
}

-- With unique keys, no other task and no fault, a tick settles as many waiting messages as were due
-- when it began, up to the batch limit: so many fewer messages wait after it, and so many more are
-- sent or failed. It makes no error, and the sends may answer anything.
pub process_due-settles :
    (g : Gateway) (clock : ℕ → ℕ) (w : World Table Act)
    → ((id : String) → count (has_id id) w.store ≤ 1)
    → ((process_due g (calm clock) w).0 ≡ ok tt)
      × (count waits (process_due g (calm clock) w).1.store
            + min due_batch_limit (count (is_due (clock w.queries)) w.store)
          ≡ count waits w.store)
      × (count is_settled (process_due g (calm clock) w).1.store
          ≡ count is_settled w.store
            + min due_batch_limit (count (is_due (clock w.queries)) w.store))
unfolding process_due due_pending query Remaining
process_due-settles g clock w unique =
    go (process_rows g (calm clock) batch (record w { queries = suc w.queries })) (
      (rows-Left g clock _ _ batch).at (record w { queries = suc w.queries })
        (due-Left (clock w.queries) w.store unique))
  where
    batch : List ScheduledRow
    batch = due_rows due_batch_limit (clock w.queries) w.store

    go :
        (x : Result DbError (Unit {0}) × World Table Act)
        → Succeeds
            (λ _ t l.
              Left
                (count waits w.store - length batch)
                (count is_settled w.store + length batch)
                []
                t)
            x.0
            x.1.store
            x.1.log
        → (x.0 ≡ ok tt)
          × (count waits x.1.store + min due_batch_limit (count (is_due (clock w.queries)) w.store)
              ≡ count waits w.store)
          × (count is_settled x.1.store
              ≡ count is_settled w.store
                + min due_batch_limit (count (is_due (clock w.queries)) w.store))
    go (ok u, v) a = (
      refl,
      omega (
        arith,
        a.waiting,
        length-due_rows (clock w.queries) w.store,
        batch_waits (clock w.queries) w.store,
      ),
      omega (arith, a.settled, length-due_rows (clock w.queries) w.store),
    )
    go (err e, v) a = absurd a
