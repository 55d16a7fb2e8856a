-- ===== src/Checkout/Frames.antt =====
-- order.service.ts: what the stages of `createOrder` leave alone.
use meal_delivery.Prelude.{
  ℕ, zero, suc, ◌*◌, ◌≤◌, ◌≡◌, refl, Option, none, some, [], ◌∷◌, Text, arith,
}
use meal_delivery.World.{Env, World, ok}
use meal_delivery.Promo.{apply_promo}
use meal_delivery.Rewards.{process_redemption, get_active_rule}
use meal_delivery.Checkout.{redeem}

-- Only the balances differ, and the cache.
pub redeem_frame :
    (env : Env) (customer_id : ℕ) (points : Option ℕ) (gross : ℕ) (w : World)
    → let w' = (redeem env customer_id points gross w).1 in
      w'.db ≡ record w.db { balances = w'.db.balances }
unfolding redeem process_redemption get_active_rule
redeem_frame env customer_id none gross w = refl
redeem_frame env customer_id (some zero) gross w = refl
redeem_frame env customer_id (some (suc n)) gross w = ground arith

-- Only the promos differ.
pub apply_promo_frame :
    (env : Env) (code : Option Text) (g restaurant_id rate : ℕ) (w : World)
    → let w' = (apply_promo env code g restaurant_id rate w).1 in
      w'.db ≡ record w.db { promos = w'.db.promos }
unfolding apply_promo
apply_promo_frame env none g restaurant_id rate w = refl
apply_promo_frame env (some []) g restaurant_id rate w = refl
apply_promo_frame env (some (c ∷ cs)) g restaurant_id rate w = ground arith

-- Points never give more than the order costs.
pub redeem-le :
    (env : Env) (customer_id : ℕ) (points : Option ℕ) (gross d : ℕ) (w : World)
    → (redeem env customer_id points gross w).0 ≡ ok d
    → d ≤ gross * 100
unfolding redeem process_redemption get_active_rule
redeem-le env customer_id none gross d w h = ground arith
redeem-le env customer_id (some zero) gross d w h = ground arith
redeem-le env customer_id (some (suc n)) gross d w h = ground arith
