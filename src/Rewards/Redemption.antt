-- ===== src/Rewards/Redemption.antt =====
-- rewards.service.ts: what points are worth.
use meal_delivery.Prelude.{ℕ, ◌*◌, ◌≤◌, ◌≡◌, ◌≢◌, ◌⊎◌, some, arith}
use meal_delivery.Prelude.Int.{pos, ◌-ℤ◌, ◌≤ℤ◌}
use meal_delivery.Entities.{RewardPointsBalance, RewardRule, redemption}
use meal_delivery.World.{Env, World, ok}
use meal_delivery.Rewards.{get_active_rule, process_redemption}

-- With a rule in force, a discount from points is worth at most the points at their rate, at most
-- the rule's percentage of the order, and at most the order itself; it is one of the three.
pub redemption_bounds :
    (env : Env) (customer_id points total : ℕ) (w : World) (rule : RewardRule) (d : ℕ)
    → (get_active_rule env redemption w).0 ≡ ok (some rule)
    → (process_redemption env customer_id points total w).0 ≡ ok d
    → (d ≤ points * rule.conversion_rate)
      × (d ≤ total * rule.max_redeem_percentage)
      × (d ≤ total * 100)
      × ((d ≡ points * rule.conversion_rate)
          ⊎ (d ≡ total * rule.max_redeem_percentage)
          ⊎ (d ≡ total * 100))
unfolding process_redemption get_active_rule
redemption_bounds env customer_id points total w rule d active h = ground arith

-- Points of a balance that is found under its customer are redeemed only if it covers them, and
-- then exactly those points leave it and no other customer's balance moves.
pub redemption_takes_points :
    (env : Env) (customer_id points total : ℕ) (w : World) (d : ℕ) (b : RewardPointsBalance)
    → w.db.balances customer_id ≡ some b
    → b.customer_id ≡ customer_id
    → (process_redemption env customer_id points total w).0 ≡ ok d
    → let w' = (process_redemption env customer_id points total w).1 in
      (pos points ≤ℤ b.total_points)
      × (w'.db.balances customer_id
          ≡ some (record b { total_points = b.total_points -ℤ pos points }))
      × ((c : ℕ) → c ≢ customer_id → w'.db.balances c ≡ w.db.balances c)
unfolding process_redemption get_active_rule
redemption_takes_points env customer_id points total w d b found own h =
    (ground arith, ground arith, λ c other. ground arith)
