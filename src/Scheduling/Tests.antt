-- ===== src/Scheduling/Tests.antt =====
-- Concrete orders for a future time.
use meal_delivery.Prelude.{◌≡◌, ◌≤◌, ◌+◌, ◌*◌, ◌↔◌, refl, true, some, [], ◌∷◌, Text}
use meal_delivery.Entities.{Order}
use meal_delivery.World.{World, ok}
use meal_delivery.Fulfilment.{has_status}
use meal_delivery.Scheduling.{
  minute, week, hours_at, at_time, immediate, validate_scheduling_time, reschedule_order,
  unschedule_order,
}
use meal_delivery.Scheduling.Window.{IsOpen, accepted_times}
use meal_delivery.Fixtures.{env, zone, diner, new_order, world_with}

abbrev later_order : Order
later_order = record new_order { is_scheduled = true; scheduled_delivery_time = some 9000000 }

abbrev planned : World
planned = world_with later_order

-- Half past two in the morning, within the diner's hours.
abbrev half_past_two : Text
half_past_two = 9000000 ∷ []

accepted_times_example :
    ((validate_scheduling_time env zone 7 half_past_two planned).0 ≡ ok 9000000) ↔ (
      (env.now + diner.minimum_scheduling_lead_time_minutes * minute ≤ 9000000)
      × (9000000 ≤ env.now + week)
      × IsOpen (hours_at zone diner 9000000) (zone.time_of_day 9000000))
accepted_times_example = accepted_times env zone 7 half_past_two planned diner refl

abbrev moved_order : Order
moved_order = at_time later_order (some 9000000)

moved : (reschedule_order env zone 10 1 half_past_two planned).0 ≡ ok moved_order
unfolding reschedule_order has_status
moved = refl

unscheduled : (unschedule_order 10 1 planned).0 ≡ ok (immediate later_order)
unfolding unschedule_order has_status
unscheduled = refl
