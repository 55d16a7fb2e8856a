-- ===== src/Promo/Splits.antt =====
-- promo.service.ts: how the payment is divided between platform and restaurant.
use meal_delivery.Prelude.{ℕ, ◌≤◌, ◌<◌, ◌≡◌, ◌⊎◌, arith}
use meal_delivery.Prelude.Int.{ℤ, pos, ◌+ℤ◌}
use meal_delivery.Promo.{round_div, restaurant_part, platform_part, cap_split, compute_shared_promo}

-- The splits of a payment are fractions: they are zero if nothing is paid; otherwise they make up
-- the whole payment, or the fee takes it all and the platform's split is capped at 0.999999.
pub splits_divide_payment :
    (g d : ℕ) (share : ℤ) (rate : ℕ)
    → let s = compute_shared_promo g d share rate in
      (s.platform_split ≤ 999999)
      × (s.customer_pays ≡ 0 → (s.platform_split ≡ 0) × (s.restaurant_split ≡ pos 0))
      × (0 < s.customer_pays
          → (s.restaurant_split +ℤ pos s.platform_split ≡ pos 1000000)
            ⊎ ((s.restaurant_split ≡ pos 0) × (s.platform_split ≡ 999999)))
unfolding compute_shared_promo restaurant_part cap_split platform_part round_div ◌+ℤ◌
splits_divide_payment g d share rate = ground arith
