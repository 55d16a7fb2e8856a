-- ===== src/Promo/Shares.antt =====
-- promo.service.ts: who bears a discount.
use native.Mathlib.Nat.{mul-le-mul, le_refl}
use meal_delivery.Prelude.{ℕ, ◌+◌, ◌*◌, ◌≤◌, ◌≡◌, min, arith}
use meal_delivery.Prelude.Int.{ℤ, pos, negsuc}
use meal_delivery.Entities.{PromoCode, restaurant, platform}
use meal_delivery.Promo.{
  round_div, clamp_percent, compute_shared_promo, discount_of, restaurant_share, price_under,
}

pub clamp_percent-le : (share : ℤ) → clamp_percent share ≤ 100
clamp_percent-le (pos n) = omega arith
clamp_percent-le (negsuc n) = omega arith

pub round_div-percent-le : (d p : ℕ) → p ≤ 100 → round_div (d * p) 100 ≤ d
unfolding round_div
round_div-percent-le d p h = omega (arith, mul-le-mul (le_refl d) h)

-- The parts make up the discount.
shares_add_up :
    (g d : ℕ) (share : ℤ) (rate : ℕ)
    → let s = compute_shared_promo g d share rate in
      (s.restaurant_discount + s.platform_discount ≡ d)
      × (s.customer_pays + min d g ≡ g)
      × (s.platform_topup_needed ≡ s.platform_discount)
unfolding compute_shared_promo
shares_add_up g d share rate =
    omega (arith, round_div-percent-le d (clamp_percent share) (clamp_percent-le share))

-- The restaurant's part is the whole number of cents nearest to its percentage of the discount.
pub restaurant_discount_nearest :
    (g d : ℕ) (share : ℤ) (rate : ℕ)
    → let s = compute_shared_promo g d share rate in
      (100 * s.restaurant_discount ≤ d * clamp_percent share + 50)
      × (d * clamp_percent share ≤ 100 * s.restaurant_discount + 50)
unfolding compute_shared_promo round_div
restaurant_discount_nearest g d share rate = omega arith

-- A promo of a restaurant costs the platform nothing, and one of the platform costs the restaurant
-- nothing.
pub issuer_bears_discount :
    (p : PromoCode) (g rate : ℕ)
    → (p.issuer_type ≡ restaurant → (price_under p g rate).platform_topup_needed ≡ 0)
      × (p.issuer_type ≡ platform → (price_under p g rate).restaurant_discount ≡ 0)
unfolding compute_shared_promo restaurant_share round_div
issuer_bears_discount p g rate = ground arith

-- Restaurant and platform bear the whole discount of a promo between them. The restaurant's part is
-- the whole number of cents nearest to its share, a percentage from 0 to 100: all of it for a promo of
-- the restaurant, none for one of the platform. The platform's part, the rest, is what it owes later.
-- The customer pays the gross less the discount, never less than nothing.
pub discount_is_shared :
    (p : PromoCode) (g rate : ℕ)
    → let s = price_under p g rate in
      let d = discount_of p.discount_type p.discount_value g in
      let percent = clamp_percent (restaurant_share p) in
      (s.restaurant_discount + s.platform_discount ≡ d)
      × (percent ≤ 100)
      × (100 * s.restaurant_discount ≤ d * percent + 50)
      × (d * percent ≤ 100 * s.restaurant_discount + 50)
      × (p.issuer_type ≡ restaurant → s.restaurant_discount ≡ d)
      × (p.issuer_type ≡ platform → s.platform_discount ≡ d)
      × (s.customer_pays + min d g ≡ g)
      × (s.platform_topup_needed ≡ s.platform_discount)
discount_is_shared p g rate =
    let d = discount_of p.discount_type p.discount_value g in
    let share = restaurant_share p in
    let whole = shares_add_up g d share rate in
    let near = restaurant_discount_nearest g d share rate in
    let bears = issuer_bears_discount p g rate in
    (
      whole.0,
      clamp_percent-le share,
      near.0,
      near.1,
      λ e. omega (arith, whole.0, whole.2, bears.0 e),
      λ e. omega (arith, whole.0, bears.1 e),
      whole.1,
      whole.2,
    )
