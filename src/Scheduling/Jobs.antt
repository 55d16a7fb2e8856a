-- ===== src/Scheduling/Jobs.antt =====
-- order.service.ts: the order for a future time and the job that stands for it.
use meal_delivery.Prelude.{ℕ, ◌≡◌, ◌≢◌, true, none, some, Text, arith}
use meal_delivery.Entities.{Order, OrderStatus, ScheduledJob}
use meal_delivery.World.{Env, World, ok}
use meal_delivery.Fulfilment.{has_status}
use meal_delivery.Scheduling.{
  Zone, at_time, immediate, reschedule_order, unschedule_order, validate_scheduling_time,
}

-- An order that is rescheduled, found under its own id as its job is under the order's, and its job
-- get the same new time, which was found to be valid; nothing else about them changes, and no other
-- order or job does.
pub reschedule_moves_both :
    (env : Env) (zone : Zone) (customer_id order_id : ℕ) (local_time : Text) (w : World)
    (o result : Order) (j : ScheduledJob)
    → w.db.orders order_id ≡ some o
    → o.id ≡ order_id
    → w.db.jobs order_id ≡ some j
    → j.order_id ≡ order_id
    → (reschedule_order env zone customer_id order_id local_time w).0 ≡ ok result
    → let w' = (reschedule_order env zone customer_id order_id local_time w).1 in
      let t = zone.from_zoned local_time in
      ((validate_scheduling_time env zone o.restaurant_id local_time w).0 ≡ ok t)
      × (w'.db.orders order_id ≡ some (at_time o (some t)))
      × (w'.db.jobs order_id ≡ some (record j { run_at = t }))
      × ((k : ℕ) → k ≢ order_id → w'.db.orders k ≡ w.db.orders k)
      × ((k : ℕ) → k ≢ order_id → w'.db.jobs k ≡ w.db.jobs k)
unfolding reschedule_order
reschedule_moves_both env zone customer_id order_id local_time w o result j fo own fj mine h =
    (ground arith, ground arith, ground arith, λ k other. ground arith, λ k other. ground arith)

-- An order, found under its own id, that is taken off the schedule stays in the status SCHEDULED
-- and is left without any job, so that no job cancels it while it is unpaid.
pub unscheduled_has_no_job :
    (customer_id order_id : ℕ) (w : World) (o result : Order)
    → w.db.orders order_id ≡ some o
    → o.id ≡ order_id
    → (unschedule_order customer_id order_id w).0 ≡ ok result
    → let w' = (unschedule_order customer_id order_id w).1 in
      (w'.db.orders order_id ≡ some (immediate o))
      × (has_status o.status OrderStatus.scheduled ≡ true)
      × (w'.db.jobs order_id ≡ none)
unfolding unschedule_order
unscheduled_has_no_job customer_id order_id w o result fo own h =
    (ground arith, ground arith, ground arith)
