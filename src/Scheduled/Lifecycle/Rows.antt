-- ===== src/Scheduled/Lifecycle/Rows.antt =====
-- The row of an id under an UPDATE and an INSERT.
use wa_rs.Common.{
  ◌≤◌, ◌≡◌, refl, true, Option, none, some, String, [], ◌∷◌, ◌++◌, ◌==◌, count, arith, ltb,
  if◌then◌else◌, eq_iff, Bool-cases, inl, inr,
}
use wa_rs.Table.{first_where}
use wa_rs.Table.Counts.{count_implied}
use wa_rs.Scheduled.Store.{Table, ScheduledRow, has_id, is_pending}

abbrev pub or_row : Option ScheduledRow → Option ScheduledRow → Option ScheduledRow
or_row none o = o
or_row (some r) o = some r

pub first_where-append :
    (id : String) (t : Table) (row : ScheduledRow)
    → first_where (has_id id) (t ++ row ∷ [])
      ≡ or_row (first_where (has_id id) t) (if row.id == id then some row else none)
unfolding first_where
first_where-append id [] row = refl
first_where-append id (r ∷ t) row = ground (arith, first_where-append id t row)

pub first_where-id :
    (id : String) (t : Table) (r : ScheduledRow) → first_where (has_id id) t ≡ some r → r.id ≡ id
unfolding first_where
first_where-id id [] r e = cc
first_where-id id (x ∷ t) r e = ground (arith, first_where-id id t r, eq_iff x.id id)

-- A row of the id and the status.
pub record Holds (id status : String) (t : Table) : Type 0 where
  pub row : ScheduledRow
  pub found : first_where (has_id id) t ≡ some row
  pub stands : row.status ≡ status

-- With unique keys, a claim that hits is a claim of the one row.
pub pending_row :
    (id : String) (t : Table)
    → count (has_id id) t ≤ 1
    → ltb 0 (count (is_pending id) t) ≡ true
    → Holds id "pending" t
unfolding first_where
pending_row id [] u e = cc
pending_row id (r ∷ t) u e = elim (Bool-cases (r.id == id)) [
  | inl hit ↦ record {
    row = r;
    found = rw hit refl;
    stands = ground (
      arith,
      count_implied (is_pending id) (has_id id) (λ x q. ground arith) t,
      eq_iff r.status "pending",
    );
  }
  | inr miss ↦
      let rest = pending_row id t (ground arith) (ground arith) in
      record { row = rest.row; found = rw miss rest.found; stands = rest.stands }
]
