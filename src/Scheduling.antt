-- ===== src/Scheduling.antt =====
-- catalog-service/src/modules/order/order.service.ts: orders for a time in the future. The date-fns-tz
-- package is the parameter `Zone`; times of day are seconds since midnight, where the code compares
-- texts of the form HH:mm:ss.
pub mod Window
pub mod Jobs
mod Tests
use meal_delivery.Prelude.{
  ℕ, ◌+◌, ◌*◌, ◌%◌, Bool, true, false, not, ◌&&◌, Option, none, some, Text, ltb, ◌==◌,
  if◌then◌else◌,
}
use meal_delivery.Entities.{Order, OrderStatus, ScheduledJob, Restaurant, Hours, Action}
use meal_delivery.World.{
  Env, World, Error, Exec, Result, ok, err, pure, throw, or_throw, read, require, transaction,
  save_order, save_job, save_event, delete_job, ◌>>=◌, ◌>>◌,
}
use meal_delivery.Fulfilment.{has_status, event, find_order}

-- Local text to UTC, and a UTC time's ISO day of the week and time of day in the zone.
pub record Zone : Type 0 where
  pub from_zoned : Text → ℕ
  pub iso_day : ℕ → ℕ
  pub time_of_day : ℕ → ℕ

-- The hours of the day, if both ends are set.
within_hours : Option ℕ → Option ℕ → ℕ → Exec (Unit {0})
within_hours none closes t = throw Error.closed_that_day
within_hours (some o) none t = throw Error.closed_that_day
within_hours (some o) (some c) t =
    if ltb t o
    then throw Error.outside_hours
    else if ltb c t
    then throw Error.outside_hours
    else pure tt

abbrev pub minute : ℕ
minute = 60000

abbrev pub week : ℕ
week = 7 * 24 * 60 * 60 * 1000

abbrev pub hours_at : Zone → Restaurant → ℕ → Hours
hours_at zone r t = r.hours (zone.iso_day t % 7)

pub validate_time : Env → Zone → Restaurant → ℕ → Exec ℕ
unfolding within_hours
validate_time env zone r t = do
  require (not (ltb t (env.now + r.minimum_scheduling_lead_time_minutes * minute))) Error.too_soon
  require (not (ltb (env.now + week) t)) Error.too_late
  within_hours (hours_at zone r t).open_time (hours_at zone r t).close_time (zone.time_of_day t)
  pure t

unfoldable pub validate_scheduling_time : Env → Zone → ℕ → Text → Exec ℕ
unfolding validate_time
validate_scheduling_time env zone restaurant_id local_time = do
  found ← read (λ db. db.restaurants restaurant_id)
  r ← or_throw found Error.restaurant_not_found
  validate_time env zone r (zone.from_zoned local_time)

-- `findOne({ id, customer_id })`, and the check that the order is one for the future.
find_scheduled : ℕ → ℕ → Exec Order
find_scheduled customer_id order_id = do
  order ← find_order order_id
  require (order.customer_id == customer_id) Error.order_not_found
  require (has_status order.status OrderStatus.scheduled && order.is_scheduled) Error.wrong_status
  pure order

abbrev pub at_time : Order → Option ℕ → Order
at_time o t = record o { scheduled_delivery_time = t }

move_order : ℕ → ℕ → ℕ → Exec Order
unfolding find_scheduled
move_order customer_id order_id t = transaction (do
  order ← find_scheduled customer_id order_id
  found ← read (λ db. db.jobs order.id)
  job ← or_throw found Error.job_not_found
  save_order (at_time order (some t))
  save_job (record job { run_at = t })
  save_event (event order.id customer_id Action.order_rescheduled)
  pure (at_time order (some t)))

-- The time is checked before the transaction, against the order whoever placed it.
unfoldable pub reschedule_order : Env → Zone → ℕ → ℕ → Text → Exec Order
unfolding move_order validate_scheduling_time
reschedule_order env zone customer_id order_id local_time = do
  order ← find_order order_id
  t ← validate_scheduling_time env zone order.restaurant_id local_time
  move_order customer_id order_id t

abbrev pub immediate : Order → Order
immediate o = record o { is_scheduled = false; scheduled_delivery_time = none }

unfoldable pub unschedule_order : ℕ → ℕ → Exec Order
unfolding find_scheduled
unschedule_order customer_id order_id = transaction (do
  order ← find_scheduled customer_id order_id
  save_order (immediate order)
  delete_job order.id
  save_event (event order.id customer_id Action.order_unscheduled)
  pure (immediate order))
