-- ===== src/Rewards/Balances.antt =====
-- rewards.service.ts: balances against the ledger.
use meal_delivery.Prelude.{
  ℕ, ◌≡◌, ◌≢◌, refl, Option, none, some, List, [], ◌∷◌, arith, ◌==◌, if◌then◌else◌,
}
use meal_delivery.Prelude.Int.{ℤ, pos, ◌+ℤ◌, ◌≤ℤ◌, int_laws}
use meal_delivery.Entities.{Order, RewardPointsBalance, RewardPointsLedger}
use meal_delivery.World.{Env, World, Db}
use meal_delivery.Rewards.{
  get_active_rule, add_points_for_completed_order, process_redemption, admin_adjust_points,
}

-- The calls that move points.
pub data PointsCall : Type 0 where
  complete : Order → PointsCall
  redeem : (customer_id points total : ℕ) → PointsCall
  adjust : ℕ → ℤ → PointsCall

pub perform : Env → PointsCall → World → World
perform env (complete o) w = (add_points_for_completed_order env o w).1
perform env (redeem customer_id points total) w =
    (process_redemption env customer_id points total w).1
perform env (adjust customer_id points) w = (admin_adjust_points customer_id points w).1

pub perform_all : Env → List PointsCall → World → World
perform_all env [] w = w
perform_all env (c ∷ cs) w = perform_all env cs (perform env c w)

abbrev pub points_of : Option RewardPointsBalance → ℤ
points_of none = pos 0
points_of (some b) = b.total_points

abbrev pub NonNegative : Db → Type 0
NonNegative db = (c : ℕ) → pos 0 ≤ℤ points_of (db.balances c)

abbrev IsOwn : ℕ → Option RewardPointsBalance → Type 0
IsOwn c none = Unit
IsOwn c (some b) = b.customer_id ≡ c

abbrev AreOwn : Db → Type 0
AreOwn db = (c : ℕ) → IsOwn c (db.balances c)

perform-NonNegative :
    (env : Env) (call : PointsCall) (w : World)
    → NonNegative w.db
    → NonNegative (perform env call w).db
unfolding perform add_points_for_completed_order process_redemption admin_adjust_points
    get_active_rule
perform-NonNegative env (complete o) w h = λ c. ground (arith, h c, h o.customer_id)
perform-NonNegative env (redeem k points total) w h = λ c. ground (arith, h c, h k)
perform-NonNegative env (adjust k points) w h = λ c. ground (arith, h c, h k)

-- If no balance of points is negative, none is after any calls, failing ones included.
pub perform_all-NonNegative :
    (env : Env) (calls : List PointsCall) (w : World)
    → NonNegative w.db
    → NonNegative (perform_all env calls w).db
unfolding perform_all
perform_all-NonNegative env [] w h = h
perform_all-NonNegative env (c ∷ cs) w h =
    perform_all-NonNegative env cs (perform env c w) (perform-NonNegative env c w h)

-- The points that the ledger records for a customer.
unfoldable pub ledger_sum : ℕ → List RewardPointsLedger → ℤ
ledger_sum c [] = pos 0
ledger_sum c (l ∷ ls) = if l.customer_id == c then l.points +ℤ ledger_sum c ls else ledger_sum c ls

-- Each customer's balance is the sum of the ledger's entries.
pub record IsBalanced (db : Db) : Type 0 where
  pub own : AreOwn db
  pub sums : (c : ℕ) → points_of (db.balances c) ≡ ledger_sum c db.ledger

+ℤ_comm : (a b : ℤ) → a +ℤ b ≡ b +ℤ a
+ℤ_comm a b = omega int_laws

-- Awarding points for a completed order keeps balance and ledger in step.
award-IsBalanced :
    (env : Env) (o : Order) (w : World)
    → IsBalanced w.db
    → IsBalanced (add_points_for_completed_order env o w).1.db
unfolding add_points_for_completed_order get_active_rule ledger_sum
award-IsBalanced env o w h = record {
  own = λ c. ground (arith, h.own c, h.own o.customer_id);
  sums = λ c. ground (arith, h.sums c, h.own o.customer_id, h.sums o.customer_id);
}

adjust-IsBalanced :
    (k : ℕ) (points : ℤ) (w : World)
    → IsBalanced w.db
    → IsBalanced (admin_adjust_points k points w).1.db
unfolding admin_adjust_points ledger_sum
adjust-IsBalanced k points w h = record {
  own = λ c. ground (arith, h.own c, h.own k);
  sums = λ c.
      ground (arith, h.sums c, h.own k, h.sums k, +ℤ_comm (points_of (w.db.balances k)) points);
}

-- If every balance is the sum of its customer's ledger entries, it still is after either way of
-- granting points, the award for a completed order and the adjustment by an administrator, whether
-- it succeeds or fails.
pub grants-IsBalanced :
    (env : Env) (call : PointsCall) (w : World)
    → ((k points total : ℕ) → call ≢ redeem k points total)
    → IsBalanced w.db
    → IsBalanced (perform env call w).db
unfolding perform
grants-IsBalanced env (complete o) w n h = award-IsBalanced env o w h
grants-IsBalanced env (adjust k points) w n h = adjust-IsBalanced k points w h
grants-IsBalanced env (redeem k points total) w n h = absurd (n k points total refl)
