-- ===== src/Promo/Tests.antt =====
-- Concrete prices and codes.
use meal_delivery.Prelude.{
  ◌≡◌, ◌≤◌, ◌+◌, ◌*◌, refl, min, true, none, some, [], ◌∷◌, text_eq, arith, if◌then◌else◌,
}
use meal_delivery.Prelude.Int.{pos}
use meal_delivery.Entities.{PromoCode, percentage, shared, platform, restaurant}
use meal_delivery.World.{World}
use meal_delivery.Promo.{price_under, discount_of, clamp_percent, restaurant_share}
use meal_delivery.Promo.Codes.{normalize, ensure_unique_code}
use meal_delivery.Promo.Shares.{discount_is_shared}
use meal_delivery.Promo.Uses.{WithinLimits}
use meal_delivery.Fixtures.{empty_db, world_of}

-- 10 % off, borne in halves, with one use left.
abbrev ten_off : PromoCode
ten_off = record {
  id = 9;
  code = b'A' ∷ b'B' ∷ [];
  discount_type = percentage;
  discount_value = pos 1000;
  issuer_type = shared;
  applicable_restaurant_id = none;
  restaurant_share_percent = none;
  max_uses = some 3;
  uses_count = 2;
  expiry_date = none;
  active = true;
}

abbrev shop : World
shop =
    world_of (record empty_db {
      promos = λ c. if text_eq (b'A' ∷ b'B' ∷ []) c then some ten_off else none;
    })

found : shop.db.promos (normalize (b'a' ∷ b'B' ∷ [])) ≡ some ten_off
unfolding normalize
found = refl

own : ten_off.code ≡ normalize (b'a' ∷ b'B' ∷ [])
unfolding normalize
own = refl

discount_is_shared_example :
    let s = price_under ten_off 1999 500 in
    let d = discount_of percentage (pos 1000) 1999 in
    let percent = clamp_percent (restaurant_share ten_off) in
    (s.restaurant_discount + s.platform_discount ≡ d)
    × (percent ≤ 100)
    × (100 * s.restaurant_discount ≤ d * percent + 50)
    × (d * percent ≤ 100 * s.restaurant_discount + 50)
    × (shared ≡ restaurant → s.restaurant_discount ≡ d)
    × (shared ≡ platform → s.platform_discount ≡ d)
    × (s.customer_pays + min d 1999 ≡ 1999)
    × (s.platform_topup_needed ≡ s.platform_discount)
discount_is_shared_example = discount_is_shared ten_off 1999 500

abbrev platform_promo : PromoCode
platform_promo = record ten_off { issuer_type = platform }

shop-WithinLimits : WithinLimits shop.db
shop-WithinLimits c p m here limited = ground arith

drawn :
    ensure_unique_code shop.db.promos (b'a' ∷ b'b' ∷ []) (b'Z' ∷ []) (123 ∷ 456 ∷ [])
    ≡ b'A' ∷ b'B' ∷ b'1' ∷ b'2' ∷ b'3' ∷ []
unfolding ensure_unique_code
drawn = refl
