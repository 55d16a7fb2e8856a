-- ===== src/Scheduler/Tests.antt =====
-- Concrete sweeps.
use meal_delivery.Prelude.{◌≡◌, refl, true, false, some, [], ◌∷◌, arith, All}
use meal_delivery.Entities.{OrderStatus, ScheduledJobStatus}
use meal_delivery.Fulfilment.{is_paid, is_cancellable, has_status, cancel_order, set_status}
use meal_delivery.Fulfilment.Edges.{OrdersKeyed}
use meal_delivery.Scheduler.{
  is_due, is_pending, due_jobs, set_job_status, process_cancellation_job, process_jobs,
  handle_unpaid_order_cancellations,
}
use meal_delivery.Scheduler.Sweep.{job_settles}
use meal_delivery.Scheduler.Settled.{JobsKeyed, IsSettled, sweep_settles}
use meal_delivery.Fixtures.{env, new_order, paid_order, cancel_job, world_with}

job_settles_example :
    let w' = (process_cancellation_job env cancel_job (world_with new_order)).1 in
    (is_paid new_order.payment_status ≡ true
      → (w'.db.orders 1 ≡ some new_order)
        × (w'.db.jobs 1 ≡ some (set_job_status cancel_job ScheduledJobStatus.processed)))
    × (is_paid new_order.payment_status ≡ false
        → is_cancellable new_order.status ≡ true
        → (w'.db.orders 1 ≡ some (set_status new_order OrderStatus.cancelled))
          × (w'.db.jobs 1 ≡ some (set_job_status cancel_job ScheduledJobStatus.processed)))
    × (is_paid new_order.payment_status ≡ false
        → is_cancellable new_order.status ≡ false
        → (w'.db.orders 1 ≡ some new_order)
          × (w'.db.jobs 1 ≡ some (set_job_status cancel_job ScheduledJobStatus.failed)))
unfolding is_pending
job_settles_example =
    job_settles env cancel_job new_order (world_with new_order) refl refl refl refl

paid_order-OrdersKeyed : OrdersKeyed (world_with paid_order).db
paid_order-OrdersKeyed k = ground arith

cancel_job-JobsKeyed : JobsKeyed (world_with new_order).db
cancel_job-JobsKeyed k = ground arith

sweep_settles_example :
    All
      (λ job.
        IsSettled job
          ((process_jobs env (cancel_job ∷ []) (world_with new_order)).1.db.jobs job.order_id))
      (cancel_job ∷ [])
sweep_settles_example =
    sweep_settles env (cancel_job ∷ []) (world_with new_order) cancel_job-JobsKeyed

-- The job of an unpaid order is due, and the sweep cancels the order.
unpaid_order_is_swept :
    (handle_unpaid_order_cancellations env (cancel_job ∷ []) (world_with new_order)).1.db.orders 1
    ≡ some (set_status new_order OrderStatus.cancelled)
unfolding handle_unpaid_order_cancellations due_jobs is_due is_pending process_jobs
    process_cancellation_job cancel_order is_paid is_cancellable has_status
unpaid_order_is_swept = refl
