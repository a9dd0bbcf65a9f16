-- ===== src/Scheduled/Sends.antt =====
-- How often the dispatcher of handlers/schedule.rs sends a parked message.
use wa_rs.Common.{ℕ, ◌≤◌, ◌≡◌, refl, true, String, [], count, arith}
use wa_rs.Endpoint.{Gateway}
use wa_rs.Effect.{Env, World}
use wa_rs.Table.Counts.{count_implied}
use wa_rs.Scheduled.Store.{Table, Act, has_id, is_pending}
use wa_rs.Scheduled.Dispatcher.{run_scheduler}
use wa_rs.Scheduled.Dispatcher.Rule.{Rule, run_scheduler-Idle}
use wa_rs.Scheduled.Steps.{IsHonest, claims, settles_sent, settles_failed}
use wa_rs.Scheduled.Steps.Once.{Once, Step-Once, claims_of, claim_rows-Once, dispatches}

once : (id : String) → Rule true (Once id 0) (λ key. Once id (claims_of id key)) (λ key. Once id 0)
once id = record {
  step = λ t u l. Step-Once id 0 l t u;
  step_unsettled = λ key t u l. Step-Once id 0 l t u;
  hit = claim_rows-Once id;
  missed = λ key now t l e. Step-Once id 0 l t _ (claims key now refl);
  sends = λ row t l o. record { bound = ground (arith, o.bound); unique = o.unique };
  sent = λ key m now t l. Step-Once id 0 l t _ (settles_sent key m now refl);
  failed = λ key e now t l. Step-Once id 0 l t _ (settles_failed key e now refl);
  unsettled = λ key t l o. o;
  told_sent = λ row resp t l o. record { bound = omega (arith, o.bound); unique = o.unique };
  told_failed = λ row e t l o. record { bound = omega (arith, o.bound); unique = o.unique };
}

pub run_scheduler-keeps :
    (g : Gateway) (env : Env Table) (id : String) (n : ℕ) (w : World Table Act)
    → IsHonest true env
    → count (has_id id) w.store ≤ 1
    → w.log ≡ []
    → Once id 0 (run_scheduler g env n w).1.store (run_scheduler g env n w).1.log
run_scheduler-keeps g env id n w h unique fresh =
    (run_scheduler-Idle (once id) g h n).at w (record {
      bound =
          rw fresh (
            omega (arith, count_implied (is_pending id) (has_id id) (λ r e. ground arith) w.store));
      unique = unique;
    })

-- With unique keys and nothing sent yet, any number of ticks of the dispatcher sends the message of
-- an id at most once: whatever statements another dispatcher and the handlers run in between,
-- whichever queries fail, and whatever the sends answer.
pub run_scheduler-Once :
    (g : Gateway) (env : Env Table) (id : String) (n : ℕ) (w : World Table Act)
    → IsHonest true env
    → count (has_id id) w.store ≤ 1
    → w.log ≡ []
    → dispatches id (run_scheduler g env n w).1.log ≤ 1
run_scheduler-Once g env id n w h unique fresh =
    let after = run_scheduler-keeps g env id n w h unique fresh in
    omega (arith, after.bound, after.unique)
