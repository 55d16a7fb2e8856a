-- ===== src/Scheduling/Window.antt =====
-- order.service.ts: which times a customer may choose.
use meal_delivery.Prelude.{ℕ, ◌+◌, ◌*◌, ◌≤◌, ◌≡◌, some, Text, arith, ◌↔◌}
use meal_delivery.Entities.{Restaurant, Hours}
use meal_delivery.World.{Env, World, ok}
use meal_delivery.Scheduling.{Zone, minute, week, hours_at, validate_scheduling_time}

-- The time of day lies between the ends of opening, both of which are set.
abbrev pub IsOpen : Hours → ℕ → Type 0
IsOpen h t =
    (o : ℕ) × (c : ℕ) × (h.open_time ≡ some o) × (h.close_time ≡ some c) × (o ≤ t) × (t ≤ c)

-- For a restaurant that is there, a local time is accepted exactly if it is at least the
-- restaurant's lead time and at most a week ahead, and falls into the opening hours of its day;
-- then the result is that time.
pub accepted_times :
    (env : Env) (zone : Zone) (restaurant_id : ℕ) (local_time : Text) (w : World) (r : Restaurant)
    → w.db.restaurants restaurant_id ≡ some r
    → let t = zone.from_zoned local_time in
      ((validate_scheduling_time env zone restaurant_id local_time w).0 ≡ ok t) ↔ (
        (env.now + r.minimum_scheduling_lead_time_minutes * minute ≤ t)
        × (t ≤ env.now + week)
        × IsOpen (hours_at zone r t) (zone.time_of_day t))
unfolding validate_scheduling_time
accepted_times env zone restaurant_id local_time w r found =
    (λ good. ground arith, λ h. ground arith)
