-- ===== src/Scheduled/Steps/Once.antt =====
-- The messages of one id: how often it was sent, and how often it still can be.
use wa_rs.Common.{
  ℕ, ◌+◌, ◌≤◌, ◌≡◌, refl, Bool, true, false, String, List, [], ◌∷◌, ◌++◌, ◌==◌, any, count, arith,
  if◌then◌else◌, eq_iff, ltb, Bool-cases, inl, inr,
}
use wa_rs.Table.{update_where}
use wa_rs.Table.Counts.{
  count-update_same, count-update_le, count-update_out, count-append_one, count-any,
}
use wa_rs.Scheduled.Store.{
  Table, ScheduledRow, Act, dispatched, has_id, is_pending, park_row, claim_rows, sent_rows,
  failed_rows, cancel_rows,
}
use wa_rs.Scheduled.Steps.{
  Step, Reach, Reach-keeps, parks, cancels, claims, settles_sent, settles_failed,
}

abbrev pub is_dispatch : String → Act → Bool
is_dispatch id (dispatched key session endpoint body) = key == id
is_dispatch id _ = false

-- How often the message of an id was sent.
abbrev pub dispatches : String → List Act → ℕ
dispatches id log = count (is_dispatch id) log

-- At most one row has the id. The sends so far, the rows that can still be claimed and the `claimed`
-- ones that are not sent yet are no more than the rows.
pub record Once (id : String) (claimed : ℕ) (t : Table) (log : List Act) : Type 0 where
  pub bound : dispatches id log + count (is_pending id) t + claimed ≤ count (has_id id) t
  pub unique : count (has_id id) t ≤ 1

parked :
    (id : String) (k : ℕ) (log : List Act) (t : Table) (b : Bool) (row : ScheduledRow)
    → any (has_id row.id) t ≡ b
    → Once id k t log
    → Once id k (if b then t else t ++ row ∷ []) log
parked id k log t true row e o = o
parked id k log t false row e o = elim (Bool-cases (row.id == id)) [
  | inl hit ↦
      let same : row.id ≡ id = (eq_iff row.id id).0 hit in
      record {
        bound = ground (
          arith,
          count-append_one (is_pending id) t row,
          count-append_one (has_id id) t row,
          o.bound,
        );
        unique =
            ground
              (arith, count-append_one (has_id id) t row, count-any (has_id id) t (rw same at e));
      }
  | inr miss ↦ record {
    bound = ground (
      arith,
      count-append_one (is_pending id) t row,
      count-append_one (has_id id) t row,
      o.bound,
    );
    unique = ground (arith, count-append_one (has_id id) t row, o.unique);
  }
]

-- An UPDATE that keeps the keys and makes no row pending.
updated :
    (id : String) (k : ℕ) (log : List Act) (t : Table) (p : ScheduledRow → Bool)
    (f : ScheduledRow → ScheduledRow)
    → ((r : ScheduledRow) → (f r).id ≡ r.id)
    → ((r : ScheduledRow) → ((f r).status == "pending") ≡ false)
    → Once id k t log
    → Once id k (update_where p f t) log
updated id k log t p f same quiet o = record {
  bound = omega (
    arith,
    count-update_same (has_id id) p f (λ r hit. rw (same r) refl) t,
    count-update_le (is_pending id) p f (λ r hit e. ground (arith, quiet r)) t,
    o.bound,
  );
  unique = omega (arith, count-update_same (has_id id) p f (λ r hit. rw (same r) refl) t, o.unique);
}

pub Step-Once :
    {c : Bool} (id : String) (k : ℕ) (log : List Act) (t u : Table)
    → Step c t u
    → Once id k t log
    → Once id k u log
unfolding park_row claim_rows sent_rows failed_rows cancel_rows
Step-Once id k log t u (parks key session endpoint body at now) o = parked id k log t _ _ refl o
Step-Once id k log t u (cancels session key now) o =
    updated id k log t _ _ (λ r. refl) (λ r. refl) o
Step-Once id k log t u (claims key now allowed) o = updated id k log t _ _ (λ r. refl) (λ r. refl) o
Step-Once id k log t u (settles_sent key m now allowed) o =
    updated id k log t _ _ (λ r. refl) (λ r. refl) o
Step-Once id k log t u (settles_failed key e now allowed) o =
    updated id k log t _ _ (λ r. refl) (λ r. refl) o

pub Reach-Once :
    {c : Bool} (id : String) (k : ℕ) (log : List Act) {t u : Table}
    → Reach c t u
    → Once id k t log
    → Once id k u log
Reach-Once id k log r = Reach-keeps (λ t. Once id k t log) (Step-Once id k log) r

-- Whether the claim of the row `key` is a claim of the row `id`.
abbrev pub claims_of : String → String → ℕ
claims_of id key = if key == id then 1 else 0

own_claim :
    (id : String) (now : ℕ) (t : Table) (log : List Act)
    → ltb 0 (count (is_pending id) t) ≡ true
    → Once id 0 t log
    → Once id 1 (claim_rows id now t) log
unfolding claim_rows
own_claim id now t log hit o = record {
  bound = ground (
    arith,
    count-update_same (has_id id) (is_pending id)
        (λ r. record r { status = "sending"; updated_at = now }) (λ r e. refl) t,
    count-update_out (is_pending id) (is_pending id)
        (λ r. record r { status = "sending"; updated_at = now }) (λ r e. e) (λ r e. ground arith) t,
    o.bound,
  );
  unique = (updated id 0 log t (is_pending id) _ (λ r. refl) (λ r. refl) o).unique;
}

-- A claim that hit a pending row leaves one send of it to make.
pub claim_rows-Once :
    (id key : String) (now : ℕ) (t : Table) (log : List Act)
    → ltb 0 (count (is_pending key) t) ≡ true
    → Once id 0 t log
    → Once id (claims_of id key) (claim_rows key now t) log
unfolding claim_rows
claim_rows-Once id key now t log hit o = elim (Bool-cases (key == id)) [
  | inl same ↦
      rw (same, (eq_iff key id).0 same)
        (own_claim id now t log (rw ((eq_iff key id).0 same) at hit) o)
  | inr other ↦ rw other (updated id 0 log t (is_pending key) _ (λ r. refl) (λ r. refl) o)
]
