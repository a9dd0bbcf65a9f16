-- ===== src/Scheduled/Revoked.antt =====
-- A parked message whose cancellation succeeded, and the ticks of the dispatcher around it.
use wa_rs.Common.{
  ℕ, ◌+◌, ◌≤◌, ◌≡◌, refl, Bool, true, false, String, List, [], ok_or, ◌==◌, Result, ok, err, count,
  arith, ltb, ltb→lt, if◌then◌else◌,
}
use wa_rs.ApiError.{ApiError}
use wa_rs.Endpoint.{Gateway}
use wa_rs.Effect.{Env, World, done, lift, mapping}
use wa_rs.Effect.Hoare.{
  Ensures, Always, >>=-Ensures, lift-Ensures, mapping-Ensures, query-Ensures, if-Ensures,
}
use wa_rs.Table.{update_where}
use wa_rs.Table.Counts.{count-update_same, count-update_out, count_implied}
use wa_rs.Scheduled.Store.{
  Table, Act, ScheduledRow, has_id, is_pending, is_cancellable, cancel_rows, get_scheduled,
  cancel_pending,
}
use wa_rs.Blast.Create.{internal_db}
use wa_rs.Scheduled.Manage.{
  no_schedule, row_to_model, ScheduledMessage, find_scheduled, reread_cancelled, cancel_row_found,
  cancel_scheduled,
}
use wa_rs.Scheduled.Dispatcher.{run_scheduler}
use wa_rs.Scheduled.Dispatcher.Rule.{run_scheduler-Idle}
use wa_rs.Scheduled.Sends.{run_scheduler-keeps}
use wa_rs.Scheduled.Steps.{Reach, IsHonest}
use wa_rs.Scheduled.Steps.Once.{Once, Reach-Once, dispatches}
use wa_rs.Scheduled.Steps.Retired.{Retired, retired, Reach-Retired}

module _ {env : Env Table} (h : IsHonest true env) (id : String) where
  -- A SELECT keeps what the steps of the others keep.
  finding-Keeps :
      (session : String) (P : Table → List Act → Type 0)
      → ((t u : Table) (l : List Act) → Reach true t u → P t l → P u l)
      → Ensures P (find_scheduled env session id) (Always P)
  unfolding find_scheduled get_scheduled
  finding-Keeps session P keep =
      >>=-Ensures (Always P) _ (λ row. lift (ok_or row (no_schedule id)))
        (mapping-Ensures (Always P) internal_db _
          (query-Ensures env P _ (λ n t l. keep t _ l (h.steps n t)) (λ t l o. o) (λ now t l o. o)))
        (λ row. lift-Ensures P _) (λ e t l o. o)

  -- Only a cancellation that succeeds says something.
  abbrev Cancelled : {E A : Type 0} → (A → Bool) → Result E A → Table → List Act → Type 0
  Cancelled p (ok a) t l = if p a then Retired id t l else Unit
  Cancelled p (err e) t l = Unit

  pending_left :
      (session : String) (now : ℕ) (t : Table) (l : List Act) (b : Bool)
      → ltb 0 (count (is_cancellable session id) t) ≡ b
      → Once id 0 t l
      → if b then Retired id (cancel_rows session id now t) l else Unit
  unfolding cancel_rows
  pending_left session now t l false e o = tt
  pending_left session now t l true e o = record {
    unsent = omega (arith, (ltb→lt _ _ e), inside, o.bound, o.unique);
    none_pending = omega (arith, (ltb→lt _ _ e), gone, inside, o.bound, o.unique);
    known = omega (
      arith,
      count-update_same (has_id id) (is_cancellable session id)
          (λ r. record r { status = "cancelled"; updated_at = now }) (λ r q. refl) t,
      count_implied (is_pending id) (has_id id) (λ r q. ground arith) t,
      ltb→lt _ _ e,
      inside,
      o.unique,
    );
  }
    where
      inside : count (is_cancellable session id) t ≤ count (is_pending id) t
      inside = count_implied (is_cancellable session id) (is_pending id) (λ r q. ground arith) t

      gone :
          count (is_pending id) (
              update_where
                (is_cancellable session id)
                (λ r. record r { status = "cancelled"; updated_at = now })
                t)
            + count (is_cancellable session id) t
          ≡ count (is_pending id) t
      gone = count-update_out (is_pending id) _ _ (λ r q. ground arith) (λ r q. ground arith) t

  cancelling :
      (session : String)
      → Ensures
          (Once id 0)
          (mapping internal_db (cancel_pending env session id))
          (Cancelled (λ b. b))
  unfolding cancel_pending
  cancelling session = mapping-Ensures (Cancelled (λ b. b)) internal_db _ (
      query-Ensures env (Once id 0) _ (λ n t l. Reach-Once id 0 l (h.steps n t)) (λ t l o. tt)
        (λ now t l o. pending_left session now t l _ refl o))

  reread :
      (session : String) (b : Bool)
      → Ensures
          (λ t l. if b then Retired id t l else Unit)
          (reread_cancelled env session id b)
          (Cancelled (λ m. true))
  unfolding reread_cancelled
  reread session false = record { at = λ w o. tt }
  reread session true =
      >>=-Ensures (Always (Retired id)) _ (λ row. done (row_to_model row))
        (finding-Keeps session (Retired id) (λ t u l. Reach-Retired id l))
        (λ row. record { at = λ w o. o }) (λ e t l o. tt)

  cancel_found :
      (session : String) (row : ScheduledRow)
      → Ensures (Once id 0) (cancel_row_found env session id row) (Cancelled (λ m. true))
  unfolding cancel_row_found
  cancel_found session row =
      if-Ensures (row.status == "pending") _ _
        (>>=-Ensures (Cancelled (λ b. b)) _ _ (cancelling session) (reread session) (λ e t l o. tt))
        (record { at = λ w o. tt })

  cancel-Cancelled :
      (session : String)
      → Ensures (Once id 0) (cancel_scheduled env session id) (Cancelled (λ m. true))
  unfolding cancel_scheduled
  cancel-Cancelled session =
      >>=-Ensures (Always (Once id 0)) _ _
        (finding-Keeps session (Once id 0) (λ t u l. Reach-Once id 0 l)) (cancel_found session)
        (λ e t l o. tt)

-- With unique keys and nothing sent yet, a message whose cancellation succeeds is never sent: not by
-- the ticks of the dispatcher before the cancellation, and not by those after it. Another
-- dispatcher and the handlers may run any statements in between, queries may fail, and sends may
-- answer anything.
pub cancel_scheduled-unsent :
    (g : Gateway) (env : Env Table) (session id : String) (a b : ℕ) (w : World Table Act)
    (m : ScheduledMessage)
    → IsHonest true env
    → count (has_id id) w.store ≤ 1
    → w.log ≡ []
    → (cancel_scheduled env session id (run_scheduler g env a w).1).0 ≡ ok m
    → dispatches id
        (run_scheduler g env b
          (cancel_scheduled env session id (run_scheduler g env a w).1).1).1.log
      ≡ 0
cancel_scheduled-unsent g env session id a b w m h unique fresh answered =
    go (cancel_scheduled env session id (run_scheduler g env a w).1) answered (
      (cancel-Cancelled h id session).at (run_scheduler g env a w).1
        (run_scheduler-keeps g env id a w h unique fresh))
  where
    go :
        (x : Result ApiError ScheduledMessage × World Table Act)
        → x.0 ≡ ok m
        → Cancelled h id (λ m. true) x.0 x.1.store x.1.log
        → dispatches id (run_scheduler g env b x.1).1.log ≡ 0
    go (ok k, v) e c = ((run_scheduler-Idle (retired id) g h b).at v c).unsent
    go (err k, v) e c = cc
