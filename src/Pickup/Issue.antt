-- ===== src/Pickup/Issue.antt =====
-- order-pickup.service.ts: issuing a pickup, once and again.
use meal_delivery.Prelude.{
  ℕ, ◌+◌, ◌*◌, ◌≤◌, ◌<◌, ◌≡◌, true, false, none, some, ◌∷◌, Text, text_eq_refl, arith,
}
use meal_delivery.Entities.{Order, OrderPickup, PaymentStatus}
use meal_delivery.World.{Env, World, ok}
use meal_delivery.Pickup.{
  Tokens, matches, is_active, new_pickup, issue_pickup_for_order, verify_pickup_as_owner,
  mark_verified,
}

-- Asking again while the issued pickup is alive gives the same pickup and changes nothing.
pub issue_again :
    (tokens : Tokens) (env later : Env) (order_id minutes more most : ℕ) (code other : Text)
    (w : World) (p : OrderPickup)
    → (issue_pickup_for_order tokens env order_id code minutes most w).0 ≡ ok p
    → is_active later.now p ≡ true
    → let w' = (issue_pickup_for_order tokens env order_id code minutes most w).1 in
      issue_pickup_for_order tokens later order_id other more most w' ≡ (ok p, w')
unfolding issue_pickup_for_order
issue_again tokens env later order_id minutes more most code other w p h alive = ground arith

-- Once a pickup of a paid order exists that has expired or has been used, issuing never makes a new
-- one: the dead pickup is returned, and nothing changes.
pub dead_pickup_is_returned :
    (tokens : Tokens) (env : Env) (order_id minutes most : ℕ) (code : Text) (w : World)
    (p : OrderPickup) (o : Order)
    → w.db.orders order_id ≡ some o
    → o.payment_status ≡ PaymentStatus.paid
    → w.db.pickups order_id ≡ some p
    → is_active env.now p ≡ false
    → issue_pickup_for_order tokens env order_id code minutes most w ≡ (ok p, w)
unfolding issue_pickup_for_order
dead_pickup_is_returned tokens env order_id minutes most code w p o fo paid fp dead = ground arith

matches_refl : (x : ℕ) (xs : Text) → matches (x ∷ xs) (x ∷ xs) ≡ true
unfolding matches
matches_refl x xs = text_eq_refl (x ∷ xs)

-- The first pickup of a paid order can be collected with its code until it expires, by the
-- restaurant of the order.
pub issued_code_opens :
    (tokens : Tokens) (env later : Env) (order_id actor_id minutes most x : ℕ) (xs : Text)
    (w : World) (o : Order)
    → w.db.orders order_id ≡ some o
    → o.payment_status ≡ PaymentStatus.paid
    → w.db.pickups order_id ≡ none
    → 0 < most
    → later.now ≤ env.now + minutes * 60 * 1000
    → let w' = (issue_pickup_for_order tokens env order_id (x ∷ xs) minutes most w).1 in
      (verify_pickup_as_owner tokens later order_id actor_id o.restaurant_id
        (record { code = some (x ∷ xs); token = none })
        w').0
      ≡ ok (mark_verified later actor_id (new_pickup tokens env order_id (x ∷ xs) minutes most))
unfolding issue_pickup_for_order verify_pickup_as_owner
issued_code_opens tokens env later order_id actor_id minutes most x xs w o fo paid fp pos time =
    ground (arith, matches_refl x xs)
