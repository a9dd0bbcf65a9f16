-- ===== src/Blast/Interleaving.antt =====
-- What holds of the tables under every interleaving of the worker, the handlers and faults.
use wa_rs.Common.{ℕ, Bool, true, false, String, Option, refl}
use wa_rs.Effect.{Env, World}
use wa_rs.Blast.Status.{BlastOptions}
use wa_rs.Blast.Rows.{Db}
use wa_rs.Blast.Action.{Action}
use wa_rs.Blast.Create.{CreateBlastRequest, create_blast}
use wa_rs.Blast.Create
use wa_rs.Blast.Manage.{cancel_blast, retry_blast}
use wa_rs.Blast.Worker.{tick_once}
use wa_rs.Blast.Worker
use wa_rs.Blast.Steps.{Reach, IsHonest}
use wa_rs.Blast.Steps.Worker.{tick_once-Keeps}
use wa_rs.Blast.Steps.Handlers.{create_blast-Keeps, cancel_blast-Keeps, retry_blast-Keeps}
use wa_rs.Blast.Steps.History.{History, Reach-History}
use wa_rs.Blast.Steps.Lifecycle.{AreLifecycles, Reach-AreLifecycles}
use wa_rs.Blast.Steps.Single.{AtMost, Reach-AtMost}

-- A change of the tables that loses nothing and keeps the lifecycles.
pub record IsSound (d e : Db) : Type 0 where
  pub history : History d e
  pub lifecycles : AreLifecycles d → AreLifecycles e

Reach-IsSound : {c : Bool} (d e : Db) → Reach c d e → IsSound d e
Reach-IsSound d e r = record { history = Reach-History r; lifecycles = Reach-AreLifecycles r }

-- Whatever a tick of the worker reads and wherever it stops on a fault, and whatever steps the
-- other tasks take between its queries: no row is lost, the identity and the payload of a job and
-- of a recipient stay, the counters do not fall, a recorded message id is not erased, and if every
-- job's status was one of the six with the stamps that it asks for, it is so again.
pub tick_once-IsSound :
    (s : Worker.Services) (env : Env Db) (fuel : ℕ) (w : World Db Action)
    → IsHonest true env
    → IsSound w.store (tick_once s env fuel w).1.store
tick_once-IsSound s env fuel w h = Reach-IsSound w.store _ ((tick_once-Keeps s h refl fuel).at w)

-- Whatever the handlers that create, cancel and retry a job answer and wherever they stop on a
-- fault, and whatever steps the other tasks take between their queries: no row is lost, the
-- identity and the payload of a job and of a recipient stay, the counters do not fall, a recorded
-- message id is not erased, and if every job's status was one of the six with the stamps that it
-- asks for, it is so again.
pub handlers-IsSound :
    (s : Create.Services) (parse : String → Option BlastOptions) (env : Env Db)
    (id session : String) (r : CreateBlastRequest) (w : World Db Action)
    → IsHonest true env
    → IsSound w.store (create_blast s env id session r w).1.store
      × IsSound w.store (cancel_blast parse env session id w).1.store
      × IsSound w.store (retry_blast parse env session id w).1.store
handlers-IsSound s parse env id session r w h = (
  Reach-IsSound w.store _ ((create_blast-Keeps h s id session r).at w),
  Reach-IsSound w.store _ ((cancel_blast-Keeps h parse session id).at w),
  Reach-IsSound w.store _ ((retry_blast-Keeps h parse session id).at w),
)

-- The handlers that create, cancel and retry a job never make a job run, and keep the keys of the
-- jobs unique: a bound on the running jobs that holds before holds after, on all of their branches,
-- if the other tasks claim no job meanwhile.
pub handlers-AtMost :
    (s : Create.Services) (parse : String → Option BlastOptions) (env : Env Db)
    (id session : String) (r : CreateBlastRequest) (n : ℕ) (w : World Db Action)
    → IsHonest false env
    → AtMost n w.store
    → AtMost n (create_blast s env id session r w).1.store
      × AtMost n (cancel_blast parse env session id w).1.store
      × AtMost n (retry_blast parse env session id w).1.store
handlers-AtMost s parse env id session r n w h a = (
  Reach-AtMost n w.store _ ((create_blast-Keeps h s id session r).at w) a,
  Reach-AtMost n w.store _ ((cancel_blast-Keeps h parse session id).at w) a,
  Reach-AtMost n w.store _ ((retry_blast-Keeps h parse session id).at w) a,
)
