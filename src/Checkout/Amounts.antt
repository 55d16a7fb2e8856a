-- ===== src/Checkout/Amounts.antt =====
-- order.service.ts: what a new order costs.
use meal_delivery.Prelude.{ℕ, ◌-◌, ◌*◌, ◌≤◌, ◌≡◌, Option, none, some, [], ◌∷◌, Text, arith}
use meal_delivery.Prelude.Int.{pos, ◌+ℤ◌, ◌-ℤ◌}
use meal_delivery.Entities.{Order}
use meal_delivery.World.{Env, World, ok}
use meal_delivery.Promo.{PromoResult, apply_promo, compute_shared_promo, without_promo}
use meal_delivery.Scheduling.{Zone}
use meal_delivery.Checkout.{CreateOrder, Ids, redeem, create_order, to_cents}
use meal_delivery.Checkout.Frames.{redeem-le}
use meal_delivery.Checkout.Parts.{create_order-Created}

pub apply_promo_price :
    (env : Env) (code : Option Text) (g restaurant_id rate : ℕ) (w : World) (r : PromoResult)
    → (apply_promo env code g restaurant_id rate w).0 ≡ ok r
    → (r.gross ≡ g) × (r.customer_pays ≡ g - r.discount) × (code ≡ none → r.discount ≡ 0)
unfolding apply_promo compute_shared_promo without_promo
apply_promo_price env none g restaurant_id rate w r h = ground arith
apply_promo_price env (some []) g restaurant_id rate w r h = ground arith
apply_promo_price env (some (c ∷ cs)) g restaurant_id rate w r h = ground arith

-- Without a promo code the customer never pays less than nothing: points are worth at most the gross.
pub plain_order_total :
    (env : Env) (zone : Zone) (ids : Ids) (customer_id : ℕ) (dto : CreateOrder) (rate : ℕ)
    (w : World) (o : Order)
    → (create_order env zone ids customer_id dto none rate w).0 ≡ ok o
    → (points : ℕ) × (o.total_amount ≡ pos (to_cents (o.gross_amount * 100 - points)))
      × (o.discount_amount ≡ to_cents points)
      × (points ≤ o.gross_amount * 100)
unfolding ◌+ℤ◌ ◌-ℤ◌
plain_order_total env zone ids customer_id dto rate w o h =
    let c = create_order-Created env zone ids customer_id dto none rate w o h in
    let p = c.parts in
    let price =
      apply_promo_price env none p.gross dto.restaurant_id rate
        (redeem env customer_id dto.points_to_redeem p.gross w).1 p.promo p.charges in
    let most = redeem-le env customer_id dto.points_to_redeem p.gross p.discount w p.redeems in
    (p.discount, ground (arith, p.row), ground (arith, p.row), ground (arith, p.row))
