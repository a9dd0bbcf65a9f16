-- ===== src/Scheduled/Steps/Retired.antt =====
-- A row that is not pending, with its message not sent, under the statements and the dispatcher.
use wa_rs.Common.{
  ◌≡◌, refl, Bool, true, false, String, List, [], ◌∷◌, ◌++◌, ◌==◌, any, count, arith, ltb,
  if◌then◌else◌, eq_iff, Bool-cases, inl, inr,
}
use wa_rs.Table.{update_where}
use wa_rs.Table.Counts.{count-update_same, count-update_le, count-append_one, count-any}
use wa_rs.Scheduled.Store.{
  Table, Act, ScheduledRow, has_id, is_pending, park_row, claim_rows, sent_rows, failed_rows,
  cancel_rows,
}
use wa_rs.Scheduled.Dispatcher.Rule.{Rule}
use wa_rs.Scheduled.Steps.{
  Step, Reach, Reach-keeps, parks, cancels, claims, settles_sent, settles_failed,
}
use wa_rs.Scheduled.Steps.Once.{dispatches}

-- The row is there, not pending, and its message was not sent.
pub record Retired (id : String) (t : Table) (log : List Act) : Type 0 where
  pub unsent : dispatches id log ≡ 0
  pub none_pending : count (is_pending id) t ≡ 0
  pub known : count (has_id id) t ≡ 1

parked :
    (id : String) (log : List Act) (t : Table) (b : Bool) (row : ScheduledRow)
    → any (has_id row.id) t ≡ b
    → Retired id t log
    → Retired id (if b then t else t ++ row ∷ []) log
parked id log t true row e o = o
parked id log t false row e o = elim (Bool-cases (row.id == id)) [
  | inl hit ↦
      absurd (omega (arith, count-any (has_id id) t (rw ((eq_iff row.id id).0 hit) at e), o.known))
  | inr miss ↦ record {
    unsent = o.unsent;
    none_pending = ground (arith, count-append_one (is_pending id) t row, o.none_pending);
    known = ground (arith, count-append_one (has_id id) t row, o.known);
  }
]

updated :
    (id : String) (log : List Act) (t : Table) (p : ScheduledRow → Bool)
    (f : ScheduledRow → ScheduledRow)
    → ((r : ScheduledRow) → (f r).id ≡ r.id)
    → ((r : ScheduledRow) → ((f r).status == "pending") ≡ false)
    → Retired id t log
    → Retired id (update_where p f t) log
updated id log t p f same quiet o = record {
  unsent = o.unsent;
  none_pending = omega (
    arith,
    count-update_le (is_pending id) p f (λ r hit e. ground (arith, quiet r)) t,
    o.none_pending,
  );
  known = omega (arith, count-update_same (has_id id) p f (λ r hit. rw (same r) refl) t, o.known);
}

pub Step-Retired :
    {c : Bool} (id : String) (t u : Table) (log : List Act)
    → Step c t u
    → Retired id t log
    → Retired id u log
unfolding park_row claim_rows sent_rows failed_rows cancel_rows
Step-Retired id t u log (parks key session endpoint body at now) o = parked id log t _ _ refl o
Step-Retired id t u log (cancels session key now) o = updated id log t _ _ (λ r. refl) (λ r. refl) o
Step-Retired id t u log (claims key now allowed) o = updated id log t _ _ (λ r. refl) (λ r. refl) o
Step-Retired id t u log (settles_sent key m now allowed) o =
    updated id log t _ _ (λ r. refl) (λ r. refl) o
Step-Retired id t u log (settles_failed key e now allowed) o =
    updated id log t _ _ (λ r. refl) (λ r. refl) o

pub Reach-Retired :
    {c : Bool} (id : String) (log : List Act) {t u : Table}
    → Reach c t u
    → Retired id t log
    → Retired id u log
Reach-Retired id log r = Reach-keeps (λ t. Retired id t log) (λ t u. Step-Retired id t u log) r

-- A row that the dispatcher has in hand is another one.
abbrev Other : String → String → Table → List Act → Type 0
Other id key t l = Retired id t l × ((key == id) ≡ false)

other_row :
    (id key : String) (t : Table) (l : List Act)
    → ltb 0 (count (is_pending key) t) ≡ true
    → Retired id t l
    → (key == id) ≡ false
other_row id key t l e o = elim (Bool-cases (key == id)) [
  | inl same ↦ absurd (ground (arith, rw ((eq_iff key id).0 same) at e, o.none_pending))
  | inr miss ↦ miss
]

pub retired : (id : String) → Rule true (Retired id) (Other id) (Other id)
retired id = record {
  step = λ t u l. Step-Retired id t u l;
  step_unsettled = λ key t u l s (o, other). (Step-Retired id t u l s o, other);
  hit =
      λ key now t l e o. (Step-Retired id t _ l (claims key now refl) o, other_row id key t l e o);
  missed = λ key now t l e. Step-Retired id t _ l (claims key now refl);
  sends = λ row t l (o, other). (
    record { unsent = ground (arith, o.unsent); none_pending = o.none_pending; known = o.known },
    other,
  );
  sent = λ key m now t l (o, other). Step-Retired id t _ l (settles_sent key m now refl) o;
  failed = λ key e now t l (o, other). Step-Retired id t _ l (settles_failed key e now refl) o;
  unsettled = λ key t l (o, other). o;
  told_sent = λ row resp t l o. record {
    unsent = omega (arith, o.unsent);
    none_pending = o.none_pending;
    known = o.known;
  };
  told_failed = λ row e t l o. record {
    unsent = omega (arith, o.unsent);
    none_pending = o.none_pending;
    known = o.known;
  };
}
