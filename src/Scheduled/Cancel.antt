-- ===== src/Scheduled/Cancel.antt =====
-- The answers of `cancel_scheduled`.
use wa_rs.Common.{
  ℕ, suc, ◌≡◌, refl, ◌∙◌, ap, Bool, true, ◌&&◌, String, Option, none, some, [], ◌∷◌, ◌==◌, Result,
  ok_or, ok, err, any, count, ltb, arith, if◌then◌else◌, Bool-cases, inl, inr,
}
use wa_rs.ApiError.{ApiError}
use wa_rs.Effect.{calm, World, done, ◌>>=◌, mapping, query}
use wa_rs.Blast.Create.{internal_db}
use wa_rs.Table.{first_where}
use wa_rs.Table.First.{first_where-update, first_where-passes, first_where-any}
use wa_rs.Scheduled.Store.{
  Table, Act, ScheduledRow, is_cancellable, cancel_rows, get_scheduled, cancel_pending,
}
use wa_rs.Scheduled.Manage.{
  ScheduledMessage, row_to_model, no_schedule, refuse_settled, find_scheduled, reread_cancelled,
  cancel_row_found, cancel_scheduled,
}

abbrev scoped : String → String → ScheduledRow → Bool
scoped session id r = (r.session_id == session) && (r.id == id)

-- The answer to a cancellation at `now` of the row that the URL names.
abbrev pub expected : String → ℕ → Option ScheduledRow → Result ApiError ScheduledMessage
expected id now none = err (no_schedule id)
expected id now (some row) =
    if row.status == "pending"
    then ok (row_to_model (record row { status = "cancelled"; updated_at = now }))
    else err (refuse_settled id row)

any_counts : (p : ScheduledRow → Bool) (t : Table) → any p t ≡ true → ltb 0 (count p t) ≡ true
any_counts p [] h = cc
any_counts p (r ∷ t) h = ground (arith, any_counts p t)

module _ (clock : ℕ → ℕ) (session id : String) where
  here :
      (row : ScheduledRow) (t : Table)
      → first_where (scoped session id) t ≡ some row
      → (row.status == "pending") ≡ true
      → is_cancellable session id row ≡ true
  here row t e p = ground (arith, first_where-passes (scoped session id) t row e)

  hits :
      (row : ScheduledRow) (t : Table)
      → first_where (scoped session id) t ≡ some row
      → (row.status == "pending") ≡ true
      → ltb 0 (count (is_cancellable session id) t) ≡ true
  hits row t e p =
      any_counts (is_cancellable session id) t
        (first_where-any (scoped session id) (is_cancellable session id) t row e (here row t e p))

  read_again :
      (row : ScheduledRow) (w : World Table Act)
      → first_where (scoped session id) w.store ≡ some row
      → (reread_cancelled (calm clock) session id true w).0 ≡ ok (row_to_model row)
  unfolding reread_cancelled find_scheduled get_scheduled query
  read_again row w e =
      ap
        (λ o.
          (◌>>=◌ {S = Table} {Act = Act} {E = ApiError} (λ v. (ok_or o (no_schedule id), v))
            (λ r. done (row_to_model r)) (record w { queries = suc w.queries })).0)
        e

  -- A pending row is cancelled and read again.
  reread :
      (row : ScheduledRow) (w : World Table Act)
      → first_where (scoped session id) w.store ≡ some row
      → (row.status == "pending") ≡ true
      → ((mapping internal_db (cancel_pending (calm clock) session id)
            >>= reread_cancelled (calm clock) session id)
          w).0
        ≡ ok (row_to_model (record row { status = "cancelled"; updated_at = clock w.queries }))
  unfolding cancel_pending cancel_rows query
  reread row w e p = rw (hits row w.store e p) (
      read_again (record row { status = "cancelled"; updated_at = clock w.queries }) _
        (first_where-update (scoped session id) (is_cancellable session id)
            (λ r. record r { status = "cancelled"; updated_at = clock w.queries }) (λ r. refl)
            w.store
          ∙ rw (e, here row w.store e p) refl))

  found :
      (w : World Table Act) (o : Option ScheduledRow)
      → first_where (scoped session id) w.store ≡ o
      → (◌>>=◌ {S = Table} {Act = Act}
          (λ _. (ok_or o (no_schedule id), w))
          (cancel_row_found (calm clock) session id)
          w).0
        ≡ expected id (clock w.queries) o
  unfolding cancel_row_found
  found w none e = refl
  found w (some row) e = elim (Bool-cases (row.status == "pending")) [
    | inl hit ↦ rw hit (reread row w e hit)
    | inr miss ↦ rw miss refl
  ]

-- With no other task and no fault, the answer of a cancellation is decided by the row that it finds
-- alone: no row of the session and the id is not found, a row that is not pending is refused with
-- its status, and a pending row is answered as it stands afterwards, cancelled.
pub cancel_scheduled-expected :
    (clock : ℕ → ℕ) (session id : String) (w : World Table Act)
    → (cancel_scheduled (calm clock) session id w).0
      ≡ expected id (clock (suc w.queries)) (first_where (scoped session id) w.store)
unfolding cancel_scheduled find_scheduled get_scheduled query
cancel_scheduled-expected clock session id w =
    found clock session id (record w { queries = suc w.queries })
      (first_where (scoped session id) w.store) refl
