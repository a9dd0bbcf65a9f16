-- ===== src/Scheduled/Progress/Rows.antt =====
-- How many messages wait and how many are settled while a batch is worked off.
use wa_rs.Common.{
  ℕ, ◌+◌, ◌≤◌, ◌≡◌, refl, Bool, true, false, ◌&&◌, ◌||◌, String, List, ◌∷◌, ◌==◌, count, length,
  arith, eq_refl, eq_iff, Bool-cases, inl, inr,
}
use wa_rs.Table.{update_where}
use wa_rs.Table.Counts.{
  count-update_same, count-update_le, count-update_lost, count-update_won, count_disjoint,
  count_implied,
}
use wa_rs.Scheduled.Store.{Table, ScheduledRow, has_id, is_pending, claim_rows}

abbrev pub waits : ScheduledRow → Bool
waits r = r.status == "pending"

abbrev pub is_settled : ScheduledRow → Bool
is_settled r = (r.status == "sent") || (r.status == "failed")

abbrev settled_of : String → ScheduledRow → Bool
settled_of key r = (r.id == key) && is_settled r

-- The batch `rs` is still to be worked off, each row of it pending. The messages that wait are `n`
-- and the batch, and the settled ones and the batch are `m`.
pub record Left (n m : ℕ) (rs : List ScheduledRow) (t : Table) : Type 0 where
  pub covers : (id : String) → count (has_id id) rs ≤ count (is_pending id) t
  pub unique : (id : String) → count (has_id id) t ≤ 1
  pub waiting : count waits t ≡ n + length rs
  pub settled : count is_settled t + length rs ≡ m

-- The same with the row of `key` claimed.
pub record InHand (n m : ℕ) (key : String) (rs : List ScheduledRow) (t : Table) : Type 0 where
  pub covers : (id : String) → count (has_id id) rs ≤ count (is_pending id) t
  pub unique : (id : String) → count (has_id id) t ≤ 1
  pub waiting : count waits t ≡ n + length rs
  pub settled : count is_settled t + length rs + 1 ≡ m
  pub there : count (has_id key) t ≡ 1
  pub not_pending : count (is_pending key) t ≡ 0
  pub not_settled : count (settled_of key) t ≡ 0

pending_unsettled : (r : ScheduledRow) → waits r ≡ true → is_settled r ≡ false
pending_unsettled r h = rw ((eq_iff r.status "pending").0 h) refl

pub first_hit :
    (n m : ℕ) (r : ScheduledRow) (rs : List ScheduledRow) (t : Table)
    → Left n m (r ∷ rs) t
    → count (is_pending r.id) t ≡ 1
first_hit n m r rs t a = ground (
  arith,
  a.covers r.id,
  a.unique r.id,
  eq_refl r.id,
  count_implied (is_pending r.id) (has_id r.id) (λ x q. ground arith) t,
)

module _ (now : ℕ) where
  pub claimed-InHand :
      (n m : ℕ) (r : ScheduledRow) (rs : List ScheduledRow) (t : Table)
      → Left n m (r ∷ rs) t
      → InHand n m r.id rs (claim_rows r.id now t)
  unfolding claim_rows
  claimed-InHand n m r rs t a = record {
    covers = λ id. elim (Bool-cases (r.id == id)) [
      | inl hit ↦ ground (
        arith,
        a.covers id,
        a.unique id,
        count_implied (is_pending id) (has_id id) (λ x q. ground arith) t,
      )
      | inr miss ↦ ground (
        arith,
        a.covers id,
        count-update_same (is_pending id) p f (λ x q. ground (arith, eq_iff x.id r.id)) t,
      )
    ];
    unique = λ id. omega (arith, count-update_same (has_id id) p f (λ x q. refl) t, a.unique id);
    waiting = omega (
      arith,
      count-update_lost waits p f (λ x q. refl) t,
      count_implied (λ x. p x && waits x) p (λ x q. ground arith) t,
      count_implied p (λ x. p x && waits x) (λ x q. ground arith) t,
      one,
      a.waiting,
    );
    settled = omega (
      arith,
      count-update_same is_settled p f (λ x q. rw (pending_unsettled x (ground arith)) refl) t,
      a.settled,
    );
    there = omega (
      arith,
      count-update_same (has_id r.id) p f (λ x q. refl) t,
      count_implied p (has_id r.id) (λ x q. ground arith) t,
      one,
      a.unique r.id,
    );
    not_pending = omega (
      arith,
      count-update_lost p p f (λ x q. ground arith) t,
      count_implied p (λ x. p x && p x) (λ x q. ground arith) t,
      one,
      a.unique r.id,
    );
    not_settled = omega (
      arith,
      count-update_le (settled_of r.id) p f (λ x q h. ground arith) t,
      count_disjoint p (settled_of r.id) (has_id r.id) (λ x q. ground arith) (λ x q. ground arith)
          (λ x q. ground (arith, pending_unsettled x)) t,
      one,
      a.unique r.id,
    );
  }
    where
      p : ScheduledRow → Bool
      p = is_pending r.id

      f : ScheduledRow → ScheduledRow
      f x = record x { status = "sending"; updated_at = now }

      one : count p t ≡ 1
      one = first_hit n m r rs t a

-- An UPDATE by key that settles the row in hand.
pub settled-Left :
    (n m : ℕ) (key : String) (rs : List ScheduledRow) (t : Table) (f : ScheduledRow → ScheduledRow)
    → ((x : ScheduledRow) → (f x).id ≡ x.id)
    → ((x : ScheduledRow) → waits (f x) ≡ false)
    → ((x : ScheduledRow) → is_settled (f x) ≡ true)
    → InHand n m key rs t
    → Left n m rs (update_where (has_id key) f t)
settled-Left n m key rs t f same gone done a = record {
  covers = λ id. omega (
    arith,
    count-update_lost (is_pending id) (has_id key) f (λ x q. ground (arith, gone x)) t,
    count_implied (λ x. has_id key x && is_pending id x) (is_pending key) (λ x q. ground arith) t,
    a.not_pending,
    a.covers id,
  );
  unique = λ id. omega (
    arith,
    count-update_same (has_id id) (has_id key) f (λ x q. rw (same x) refl) t,
    a.unique id,
  );
  waiting =
      omega
        (arith, count-update_lost waits (has_id key) f (λ x q. gone x) t, a.not_pending, a.waiting);
  settled = omega (
    arith,
    count-update_won is_settled (has_id key) f (λ x q. done x) t,
    a.not_settled,
    a.there,
    a.settled,
  );
}
