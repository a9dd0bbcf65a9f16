-- ===== src/Scheduled/Lifecycle/Refines.antt =====
-- The dispatcher and the handlers against the lifecycle.
use wa_rs.Common.{
  ℕ, ◌≤◌, ◌≡◌, refl, sym, ◌∙◌, Bool, true, false, String, Option, none, some, List, [], ◌∷◌, ◌++◌,
  ◌==◌, any, count, arith, ltb, if◌then◌else◌, eq_iff, eq_refl, Bool-cases, inl, inr,
}
use wa_rs.Endpoint.{Gateway}
use wa_rs.Effect.{Env, World}
use wa_rs.Table.{update_where, first_where}
use wa_rs.Table.Counts.{count-update_same, count-append_one, count-any}
use wa_rs.Table.First.{changed, first_where-update}
use wa_rs.Scheduled.Status.{ScheduledStatus, scheduled_status_of}
use wa_rs.Scheduled.Store.{
  Table, Act, ScheduledRow, has_id, is_pending, is_cancellable, park_row, claim_rows, sent_rows,
  failed_rows, cancel_rows,
}
use wa_rs.Scheduled.Dispatcher.{run_scheduler}
use wa_rs.Scheduled.Dispatcher.Rule.{Rule, run_scheduler-Idle}
use wa_rs.Scheduled.Steps.{Step, IsHonest, parks, cancels, claims, settles_sent, settles_failed}
use wa_rs.Scheduled.Lifecycle.{
  Moves, stays, is_parked, is_claimed, is_delivered, is_failed, is_revoked, view, status_of,
}
use wa_rs.Scheduled.Lifecycle.Rows.{or_row, first_where-append, first_where-id, Holds, pending_row}

-- The status got here along the lifecycle, and the id is a key.
pub record Along (s : Option ScheduledStatus) (id : String) (t : Table) : Type 0 where
  pub moves : Moves s (view id t)
  pub unique : count (has_id id) t ≤ 1

unique_parked :
    (id : String) (t : Table) (row : ScheduledRow)
    → any (has_id row.id) t ≡ false
    → count (has_id id) t ≤ 1
    → count (has_id id) (t ++ row ∷ []) ≤ 1
unique_parked id t row e u = elim (Bool-cases (row.id == id)) [
  | inl hit ↦ ground (
    arith,
    count-append_one (has_id id) t row,
    count-any (has_id id) t (rw ((eq_iff row.id id).0 hit) at e),
  )
  | inr miss ↦ ground (arith, count-append_one (has_id id) t row, u)
]

parked-Moves :
    (s : Option ScheduledStatus) (o : Option ScheduledRow) (b : Bool) (row : ScheduledRow)
    → row.status ≡ "pending"
    → Moves s (status_of o)
    → Moves s (status_of (or_row o (if b then some row else none)))
unfolding scheduled_status_of
parked-Moves s none false row e m = m
parked-Moves s none true row e m = rw e (is_parked m)
parked-Moves s (some r) b row e m = m

park-Along :
    (s : Option ScheduledStatus) (id : String) (t : Table) (b : Bool) (row : ScheduledRow)
    → any (has_id row.id) t ≡ b
    → row.status ≡ "pending"
    → Along s id t
    → Along s id (if b then t else t ++ row ∷ [])
park-Along s id t true row e p a = a
park-Along s id t false row e p a = record {
  moves =
      rw (first_where-append id t row)
        (parked-Moves s (first_where (has_id id) t) (row.id == id) row p a.moves);
  unique = unique_parked id t row e a.unique;
}

-- An UPDATE is along the lifecycle if it is so on the row of the id.
update-Along :
    (s : Option ScheduledStatus) (id : String) (p : ScheduledRow → Bool)
    (f : ScheduledRow → ScheduledRow) (t : Table)
    → ((r : ScheduledRow) → (f r).id ≡ r.id)
    → ((r : ScheduledRow)
        → first_where (has_id id) t ≡ some r
        → p r ≡ true
        → Moves s (status_of (some r))
        → Moves s (status_of (some (f r))))
    → Along s id t
    → Along s id (update_where p f t)
update-Along s id p f t same good a = record {
  moves =
      rw (first_where-update (has_id id) p f (λ r. rw (same r) refl) t)
        (go (first_where (has_id id) t) refl a.moves);
  unique = omega (arith, count-update_same (has_id id) p f (λ r hit. rw (same r) refl) t, a.unique);
}
  where
    go :
        (o : Option ScheduledRow)
        → first_where (has_id id) t ≡ o
        → Moves s (status_of o)
        → Moves s (status_of (changed p f o))
    go none e m = m
    go (some r) e m = pick (p r) refl
      where
        pick : (b : Bool) → p r ≡ b → Moves s (status_of (some (if b then f r else r)))
        pick true hit = good r e hit m
        pick false miss = m

-- What the text of a status column stands for.
as_pending :
    (s : Option ScheduledStatus) (r : ScheduledRow)
    → r.status ≡ "pending"
    → Moves s (status_of (some r))
    → Moves s (some ScheduledStatus.pending)
unfolding scheduled_status_of
as_pending s r e m = rw e at m

as_sending :
    (s : Option ScheduledStatus) (r : ScheduledRow)
    → r.status ≡ "sending"
    → Moves s (status_of (some r))
    → Moves s (some ScheduledStatus.sending)
unfolding scheduled_status_of
as_sending s r e m = rw e at m

pub Step-Along :
    (s : Option ScheduledStatus) (id : String) (t u : Table)
    → Step false t u
    → Along s id t
    → Along s id u
unfolding park_row cancel_rows scheduled_status_of
Step-Along s id t u (parks key session endpoint body at now) a = park-Along s id t _ _ refl refl a
Step-Along s id t u (cancels session key now) a =
    update-Along s id _ _ t (λ r. refl)
      (λ r e hit m. is_revoked (as_pending s r ((eq_iff r.status "pending").0 (ground arith)) m)) a
Step-Along s id t u (claims key now allowed) a = cc
Step-Along s id t u (settles_sent key m now allowed) a = cc
Step-Along s id t u (settles_failed key e now allowed) a = cc

claim-Along :
    (s : Option ScheduledStatus) (id key : String) (now : ℕ) (t : Table)
    → Along s id t
    → Along s id (claim_rows key now t)
unfolding claim_rows scheduled_status_of
claim-Along s id key now t a =
    update-Along s id _ _ t (λ r. refl)
      (λ r e hit m. is_claimed (as_pending s r ((eq_iff r.status "pending").0 (ground arith)) m)) a

-- The row that the dispatcher has in hand stays claimed while the handlers run.
pub Step-Holds :
    (id : String) (t u : Table) → Step false t u → Holds id "sending" t → Holds id "sending" u
unfolding park_row cancel_rows
Step-Holds id t u (parks key session endpoint body at now) h = go (any (has_id key) t) _
  where
    go : (b : Bool) (row : ScheduledRow) → Holds id "sending" (if b then t else t ++ row ∷ [])
    go true row = h
    go false row = record {
      row = h.row;
      found = rw (first_where-append id t row, h.found) refl;
      stands = h.stands;
    }
Step-Holds id t u (cancels session key now) h = record {
  row = h.row;
  found =
      rw
        (
          first_where-update (has_id id) (is_cancellable session key)
              (λ r. record r { status = "cancelled"; updated_at = now }) (λ r. refl) t,
          h.found,
          h.stands,
        )
        (ground arith);
  stands = h.stands;
}
Step-Holds id t u (claims key now allowed) h = cc
Step-Holds id t u (settles_sent key m now allowed) h = cc
Step-Holds id t u (settles_failed key e now allowed) h = cc

hits : (id : String) (r : ScheduledRow) → r.id ≡ id → r.status ≡ "pending" → is_pending id r ≡ true
hits id r e p = ground (arith, eq_iff r.id id, eq_iff r.status "pending")

claimed-Holds :
    (id : String) (now : ℕ) (t : Table)
    → count (has_id id) t ≤ 1
    → ltb 0 (count (is_pending id) t) ≡ true
    → Holds id "sending" (claim_rows id now t)
unfolding claim_rows
claimed-Holds id now t u hit =
    let h = pending_row id t u hit in
    let f : ScheduledRow → ScheduledRow = λ r. record r { status = "sending"; updated_at = now } in
    record {
      row = f h.row;
      found =
          rw (first_where-update (has_id id) (is_pending id) f (λ r. refl) t, h.found)
            (rw (hits id h.row (first_where-id id t h.row h.found) h.stands) refl);
      stands = refl;
    }

-- The dispatcher has the row `key` in hand.
InHand : Option ScheduledStatus → String → String → Table → List Act → Type 0
InHand s id key t l = Along s id t × ((key == id) ≡ true → Holds id "sending" t)

-- An UPDATE by key of the row in hand.
same_row : (q r : ScheduledRow) → some q ≡ some r → q.status ≡ "sending" → r.status ≡ "sending"
same_row q r e h = cc

settled-Along :
    (s : Option ScheduledStatus) (id key : String) (f : ScheduledRow → ScheduledRow) (t : Table)
    → ((r : ScheduledRow) → (f r).id ≡ r.id)
    → ((r : ScheduledRow)
        → Moves s (some ScheduledStatus.sending)
        → Moves s (status_of (some (f r))))
    → InHand s id key t []
    → Along s id (update_where (has_id key) f t)
unfolding InHand
settled-Along s id key f t same good (a, held) =
    update-Along s id (has_id key) f t same
      (λ r e hit m.
        let h = held (rw (sym ((eq_iff r.id key).0 hit), first_where-id id t r e) (eq_refl id)) in
        good r (as_sending s r (same_row h.row r (sym h.found ∙ e) h.stands) m))
      a

along :
    (s : Option ScheduledStatus) (id : String)
    → Rule false (λ t l. Along s id t) (InHand s id) (InHand s id)
unfolding InHand sent_rows failed_rows scheduled_status_of
along s id = record {
  step = λ t u l. Step-Along s id t u;
  step_unsettled =
      λ key t u l r (a, held). (Step-Along s id t u r a, λ same. Step-Holds id t u r (held same));
  hit = λ key now t l hit a. (
    claim-Along s id key now t a,
    λ same.
        rw ((eq_iff key id).0 same)
          (claimed-Holds id now t a.unique (rw ((eq_iff key id).0 same) at hit)),
  );
  missed = λ key now t l miss. claim-Along s id key now t;
  sends = λ row t l x. x;
  sent = λ key m now t l. settled-Along s id key _ t (λ r. refl) (λ r. is_delivered);
  failed = λ key e now t l. settled-Along s id key _ t (λ r. refl) (λ r. is_failed);
  unsettled = λ key t l (a, held). a;
  told_sent = λ row resp t l a. a;
  told_failed = λ row e t l a. a;
}

-- With the handlers as the only other writers and unique keys, any number of ticks moves the status
-- of a message along the documented lifecycle only, whichever queries fail and whatever the sends
-- answer. Nothing leads out of `sent`, `failed` and `cancelled`, and out of `sending` only the
-- settlement.
pub run_scheduler-Moves :
    (g : Gateway) (env : Env Table) (id : String) (n : ℕ) (w : World Table Act)
    → IsHonest false env
    → count (has_id id) w.store ≤ 1
    → Moves (view id w.store) (view id (run_scheduler g env n w).1.store)
run_scheduler-Moves g env id n w h unique =
    ((run_scheduler-Idle (along (view id w.store) id) g h n).at w
      (record { moves = stays; unique = unique })).moves
