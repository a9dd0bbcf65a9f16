-- ===== src/Scheduled/Lifecycle/Stuck.antt =====
-- A row that was claimed and not settled: a crash between the two, or a settlement that failed.
use wa_rs.Common.{
  ℕ, ◌≤◌, ◌≡◌, refl, sym, ◌∙◌, Bool, true, false, String, some, List, ◌==◌, count, arith, ltb,
  eq_iff, eq_refl, Bool-cases, inl, inr,
}
use wa_rs.Endpoint.{Gateway}
use wa_rs.Effect.{Env, World}
use wa_rs.Table.{update_where}
use wa_rs.Table.Counts.{count-update_same}
use wa_rs.Table.First.{first_where-update}
use wa_rs.Scheduled.Store.{
  Table, Act, ScheduledRow, has_id, is_pending, claim_rows, sent_rows, failed_rows,
}
use wa_rs.Scheduled.Dispatcher.{run_scheduler}
use wa_rs.Scheduled.Dispatcher.Rule.{Rule, run_scheduler-Idle}
use wa_rs.Scheduled.Steps.{Step, IsHonest}
use wa_rs.Scheduled.Steps.Once.{dispatches}
use wa_rs.Scheduled.Lifecycle.{view, stays}
use wa_rs.Scheduled.Lifecycle.Rows.{Holds, first_where-id, pending_row}
use wa_rs.Scheduled.Lifecycle.Refines.{Step-Holds, Step-Along}

-- The row of `id` is claimed, and its message was sent `n` times.
record Stuck (id : String) (n : ℕ) (t : Table) (l : List Act) : Type 0 where
  pub held : Holds id "sending" t
  pub unique : count (has_id id) t ≤ 1
  pub sends : dispatches id l ≡ n

-- An UPDATE that the row of the id does not meet.
missed-Holds :
    (id : String) (p : ScheduledRow → Bool) (f : ScheduledRow → ScheduledRow) (t : Table)
    (h : Holds id "sending" t)
    → ((r : ScheduledRow) → (f r).id ≡ r.id)
    → p h.row ≡ false
    → Holds id "sending" (update_where p f t)
missed-Holds id p f t h same e = record {
  row = h.row;
  found = first_where-update (has_id id) p f (λ r. rw (same r) refl) t ∙ rw (h.found, e) refl;
  stands = h.stands;
}

missed-Stuck :
    (id : String) (n : ℕ) (p : ScheduledRow → Bool) (f : ScheduledRow → ScheduledRow) (t : Table)
    (l : List Act) (s : Stuck id n t l)
    → ((r : ScheduledRow) → (f r).id ≡ r.id)
    → p s.held.row ≡ false
    → Stuck id n (update_where p f t) l
missed-Stuck id n p f t l s same e = record {
  held = missed-Holds id p f t s.held same e;
  unique = omega (arith, count-update_same (has_id id) p f (λ r hit. rw (same r) refl) t, s.unique);
  sends = s.sends;
}

not_pending :
    (id key : String) (t : Table) (h : Holds id "sending" t) → is_pending key h.row ≡ false
not_pending id key t h = rw h.stands (ground arith)

claim-Stuck :
    (id key : String) (n now : ℕ) (t : Table) (l : List Act)
    → Stuck id n t l
    → Stuck id n (claim_rows key now t) l
unfolding claim_rows
claim-Stuck id key n now t l s =
    missed-Stuck id n (is_pending key) _ t l s (λ r. refl) (not_pending id key t s.held)

-- The dispatcher has another row in hand.
other_row :
    (id key : String) (n : ℕ) (t : Table) (l : List Act)
    → ltb 0 (count (is_pending key) t) ≡ true
    → Stuck id n t l
    → (key == id) ≡ false
other_row id key n t l hit s = elim (Bool-cases (key == id)) [
  | inl same ↦
      let p = pending_row id t s.unique (rw ((eq_iff key id).0 same) at hit) in
      absurd (two p.row s.held.row (sym p.found ∙ s.held.found) p.stands s.held.stands)
  | inr miss ↦ miss
]
  where
    same : (q r : ScheduledRow) → some q ≡ some r → q.status ≡ "pending" → r.status ≡ "pending"
    same q r e a = cc

    two : (q r : ScheduledRow) → some q ≡ some r → q.status ≡ "pending" → r.status ≡ "sending" → ⊥
    two q r e a b = ground (arith, eq_iff "sending" "pending", sym b ∙ same q r e a)

settle-Stuck :
    (id key : String) (n : ℕ) (f : ScheduledRow → ScheduledRow) (t : Table) (l : List Act)
    → ((r : ScheduledRow) → (f r).id ≡ r.id)
    → Stuck id n t l
    → (key == id) ≡ false
    → Stuck id n (update_where (has_id key) f t) l
settle-Stuck id key n f t l same s other = missed-Stuck id n (has_id key) f t l s same (
    rw (first_where-id id t s.held.row s.held.found)
      (ground (arith, eq_iff id key, eq_iff key id, eq_refl id)))

Step-Stuck :
    (id : String) (n : ℕ) (t u : Table) (l : List Act)
    → Step false t u
    → Stuck id n t l
    → Stuck id n u l
Step-Stuck id n t u l r s = record {
  held = Step-Holds id t u r s.held;
  unique = (Step-Along (view id t) id t u r (record { moves = stays; unique = s.unique })).unique;
  sends = s.sends;
}

abbrev Other : String → ℕ → String → Table → List Act → Type 0
Other id n key t l = Stuck id n t l × ((key == id) ≡ false)

stuck : (id : String) (n : ℕ) → Rule false (Stuck id n) (Other id n) (Other id n)
unfolding sent_rows failed_rows
stuck id n = record {
  step = λ t u l. Step-Stuck id n t u l;
  step_unsettled = λ key t u l r (s, other). (Step-Stuck id n t u l r s, other);
  hit = λ key now t l e s. (claim-Stuck id key n now t l s, other_row id key n t l e s);
  missed = λ key now t l e. claim-Stuck id key n now t l;
  sends = λ row t l (s, other).
      (record { held = s.held; unique = s.unique; sends = ground (arith, s.sends) }, other);
  sent = λ key m now t l (s, other). settle-Stuck id key n _ t l (λ r. refl) s other;
  failed = λ key e now t l (s, other). settle-Stuck id key n _ t l (λ r. refl) s other;
  unsettled = λ key t l (s, other). s;
  told_sent =
      λ row resp t l s. record { held = s.held; unique = s.unique; sends = omega (arith, s.sends) };
  told_failed =
      λ row e t l s. record { held = s.held; unique = s.unique; sends = omega (arith, s.sends) };
}

-- With the handlers as the only other writers and unique keys, a row that is `sending` before a tick,
-- as a crash or a failed settlement leaves it, is `sending` after any number of ticks, and its
-- message is not sent in them.
pub run_scheduler-Stuck :
    (g : Gateway) (env : Env Table) (id : String) (n : ℕ) (w : World Table Act)
    → IsHonest false env
    → count (has_id id) w.store ≤ 1
    → Holds id "sending" w.store
    → Holds id "sending" (run_scheduler g env n w).1.store
      × (dispatches id (run_scheduler g env n w).1.log ≡ dispatches id w.log)
run_scheduler-Stuck g env id n w h unique held =
    let after =
      (run_scheduler-Idle (stuck id (dispatches id w.log)) g h n).at w
        (record { held = held; unique = unique; sends = refl }) in
    (after.held, after.sends)
