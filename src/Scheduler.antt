-- ===== src/Scheduler.antt =====
-- catalog-service/src/modules/order/order-scheduler.service.ts: each minute the orders that were not
-- paid in time are cancelled. A job is found under its order, which is unique to it.
pub mod Sweep
pub mod Settled
mod Tests
use meal_delivery.Prelude.{
  ℕ, zero, suc, Bool, true, false, ◌&&◌, Option, none, some, List, [], ◌∷◌, leb, ◌==◌,
  if◌then◌else◌,
}
use meal_delivery.Entities.{
  Order, ScheduledJob, ScheduledJobStatus, ScheduledJobType, cancel_unpaid_order,
}
use meal_delivery.World.{
  Env, World, Db, Exec, Result, ok, err, pure, read, transaction, save_job, ◌>>=◌, ◌>>◌,
}
use meal_delivery.Fulfilment.{is_paid, same_job_type, cancel_order}

pub is_pending : ScheduledJobStatus → Bool
is_pending ScheduledJobStatus.pending = true
is_pending _ = false

pub is_due : Env → ScheduledJob → Bool
is_due env j =
    leb j.run_at env.now && (is_pending j.status && same_job_type j.job_type cancel_unpaid_order)

-- The first rows that are due, at most so many.
unfoldable pub due_jobs : Env → ℕ → List ScheduledJob → List ScheduledJob
due_jobs env zero rows = []
due_jobs env (suc n) [] = []
due_jobs env (suc n) (j ∷ rows) =
    if is_due env j then j ∷ due_jobs env n rows else due_jobs env (suc n) rows

abbrev pub set_job_status : ScheduledJob → ScheduledJobStatus → ScheduledJob
set_job_status j s = record j { status = s }

-- `try { await m } catch`, and which of the two it was.
abbrev outcome : Exec (Unit {0}) → Exec Bool
outcome m w = elim (m w).0 [ ok u ↦ (ok true, (m w).1) | err e ↦ (ok false, (m w).1) ]

-- Cancelling is a transaction of its own, for the customer of the order.
cancel_unpaid : Env → ScheduledJob → Order → Exec (Unit {0})
cancel_unpaid env j o = do
  done ← outcome (cancel_order env o.customer_id o.id)
  save_job
      (set_job_status j (if done then ScheduledJobStatus.processed else ScheduledJobStatus.failed))

run_job : Env → ScheduledJob → Option Order → Exec (Unit {0})
unfolding cancel_unpaid
run_job env j none = save_job (set_job_status j ScheduledJobStatus.failed)
run_job env j (some o) =
    if is_paid o.payment_status
    then save_job (set_job_status j ScheduledJobStatus.processed)
    else cancel_unpaid env j o

-- The row as it is once it is locked, if it is still this pending job.
run_locked : Env → ScheduledJob → Option ScheduledJob → Exec (Unit {0})
unfolding run_job
run_locked env job none = pure tt
run_locked env job (some j) =
    if j.id == job.id && is_pending j.status
    then (do o ← read (λ db. db.orders j.order_id); run_job env j o)
    else pure tt

unfoldable pub process_cancellation_job : Env → ScheduledJob → Exec (Unit {0})
unfolding run_locked
process_cancellation_job env job =
    transaction (do found ← read (λ db. db.jobs job.order_id); run_locked env job found)

unfoldable pub process_jobs : Env → List ScheduledJob → Exec (Unit {0})
process_jobs env [] = pure tt
process_jobs env (j ∷ jobs) = do process_cancellation_job env j; process_jobs env jobs

-- `rows` are the rows of the job table in the order in which the query reads them.
unfoldable pub handle_unpaid_order_cancellations : Env → List ScheduledJob → Exec (Unit {0})
handle_unpaid_order_cancellations env rows = process_jobs env (due_jobs env 50 rows)
