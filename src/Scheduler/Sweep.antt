-- ===== src/Scheduler/Sweep.antt =====
-- order-scheduler.service.ts: what the sweep over unpaid orders does.
use meal_delivery.Prelude.{
  ℕ, ◌≡◌, ap, ◌∙◌, inl, inr, true, false, some, List, [], ◌∷◌, arith, Option-cases,
}
use meal_delivery.Entities.{Order, OrderStatus, ScheduledJob, ScheduledJobStatus}
use meal_delivery.World.{Env, World, ok}
use meal_delivery.Fulfilment.{cancel_order, is_cancellable, is_paid, set_status}
use meal_delivery.Fulfilment.Edges.{OrdersKeyed}
use meal_delivery.Scheduler.{
  is_pending, set_job_status, process_cancellation_job, process_jobs, due_jobs,
  handle_unpaid_order_cancellations,
}

-- A pending job whose order is found under its own id settles: it is processed if the order was
-- paid, and the order stays as it is; it is processed if the order could still be cancelled, which
-- it then is; else it has failed and the order stays as it is.
pub job_settles :
    (env : Env) (job : ScheduledJob) (o : Order) (w : World)
    → w.db.jobs job.order_id ≡ some job
    → is_pending job.status ≡ true
    → w.db.orders job.order_id ≡ some o
    → o.id ≡ job.order_id
    → let w' = (process_cancellation_job env job w).1 in
      (is_paid o.payment_status ≡ true
        → (w'.db.orders job.order_id ≡ some o)
          × (w'.db.jobs job.order_id ≡ some (set_job_status job ScheduledJobStatus.processed)))
      × (is_paid o.payment_status ≡ false
          → is_cancellable o.status ≡ true
          → (w'.db.orders job.order_id ≡ some (set_status o OrderStatus.cancelled))
            × (w'.db.jobs job.order_id ≡ some (set_job_status job ScheduledJobStatus.processed)))
      × (is_paid o.payment_status ≡ false
          → is_cancellable o.status ≡ false
          → (w'.db.orders job.order_id ≡ some o)
            × (w'.db.jobs job.order_id ≡ some (set_job_status job ScheduledJobStatus.failed)))
unfolding process_cancellation_job cancel_order
job_settles env job o w found open_job ordered own = (
  λ paid. (ground arith, ground arith),
  λ unpaid able. (ground arith, ground arith),
  λ unpaid stuck. (ground arith, ground arith),
)

job_keeps :
    (env : Env) (job : ScheduledJob) (w : World)
    → OrdersKeyed w.db
    → OrdersKeyed (process_cancellation_job env job w).1.db
unfolding process_cancellation_job cancel_order
job_keeps env job w keyed k = elim (Option-cases (w.db.jobs job.order_id)) [
  | inl e ↦ ground (arith, keyed k)
  | inr (j, e) ↦ ground (arith, keyed k, keyed j.order_id)
]

job_spares_paid :
    (env : Env) (job : ScheduledJob) (k : ℕ) (o : Order) (w : World)
    → OrdersKeyed w.db
    → w.db.orders k ≡ some o
    → is_paid o.payment_status ≡ true
    → (process_cancellation_job env job w).1.db.orders k ≡ some o
unfolding process_cancellation_job cancel_order
job_spares_paid env job k o w keyed found paid = elim (Option-cases (w.db.jobs job.order_id)) [
  | inl e ↦ ground arith
  | inr (j, e) ↦ ground (arith, keyed j.order_id)
]

job_returns :
    (env : Env) (job : ScheduledJob) (w : World) → (process_cancellation_job env job w).0 ≡ ok tt
unfolding process_cancellation_job
job_returns env job w = ground arith

-- One failed job does not stop the sweep.
pub process_jobs_cons :
    (env : Env) (job : ScheduledJob) (jobs : List ScheduledJob) (w : World)
    → process_jobs env (job ∷ jobs) w ≡ process_jobs env jobs (process_cancellation_job env job w).1
unfolding process_jobs
process_jobs_cons env job jobs w = ground (arith, job_returns env job w)

jobs_spare_paid :
    (env : Env) (jobs : List ScheduledJob) (k : ℕ) (o : Order) (w : World)
    → OrdersKeyed w.db
    → w.db.orders k ≡ some o
    → is_paid o.payment_status ≡ true
    → (process_jobs env jobs w).1.db.orders k ≡ some o
unfolding process_jobs
jobs_spare_paid env [] k o w keyed found paid = found
jobs_spare_paid env (j ∷ jobs) k o w keyed found paid =
    ap (λ r. r.1.db.orders k) (process_jobs_cons env j jobs w)
    ∙ jobs_spare_paid env jobs k o (process_cancellation_job env j w).1 (job_keeps env j w keyed)
        (job_spares_paid env j k o w keyed found paid) paid

-- Where each order is found under its own id, a paid order is not touched by the sweep, however
-- many jobs are due.
pub sweep_spares_paid :
    (env : Env) (rows : List ScheduledJob) (k : ℕ) (o : Order) (w : World)
    → OrdersKeyed w.db
    → w.db.orders k ≡ some o
    → is_paid o.payment_status ≡ true
    → (handle_unpaid_order_cancellations env rows w).1.db.orders k ≡ some o
unfolding handle_unpaid_order_cancellations
sweep_spares_paid env rows k o w keyed found paid =
    jobs_spare_paid env (due_jobs env 50 rows) k o w keyed found paid
