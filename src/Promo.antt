-- ===== src/Promo.antt =====
-- catalog-service/src/modules/promos/promo.service.ts: the price of an order under a promo code.
-- Amounts are cents. A quotient that the code rounds by `round2` is rounded half up exactly, where
-- the code computes with doubles. The rate of the platform's fee is counted in ten-thousandths, and
-- the splits in millionths.
pub mod Codes
pub mod Shares
pub mod Splits
pub mod Uses
mod Tests
use meal_delivery.Prelude.{
  ℕ, zero, suc, ◌+◌, ◌-◌, ◌*◌, ◌/◌, min, Bool, true, false, not, ◌&&◌, Option, none, some, [], ◌∷◌,
  Text, ltb, leb, ◌==◌, get_or, if◌then◌else◌,
}
use meal_delivery.Prelude.Int.{ℤ, pos, negsuc, sub_ℕ}
use meal_delivery.Entities.{
  PromoCode, DiscountType, percentage, fixed, IssuerType, restaurant, platform, shared,
}
use meal_delivery.World.{Env, Error, Exec, pure, or_throw, read, require, save_promo, ◌>>=◌, ◌>>◌}
use Codes.{normalize}

-- `Math.round` of the quotient `n / d`.
pub round_div : ℕ → ℕ → ℕ
round_div n d = (2 * n + d) / (2 * d)

pub record SharedPromo : Type 0 where
  pub gross : ℕ
  pub discount : ℕ
  pub restaurant_discount : ℕ
  pub platform_discount : ℕ
  pub customer_pays : ℕ
  pub platform_fee_amount : ℕ
  pub restaurant_split : ℤ
  pub platform_split : ℕ
  pub platform_topup_needed : ℕ

-- `Math.min(100, Math.max(0, share))`
abbrev pub clamp_percent : ℤ → ℕ
clamp_percent (pos n) = min 100 n
clamp_percent (negsuc n) = 0

-- `round2(1 - split)`, where `split` has two decimals or is 0.999999
pub restaurant_part : ℕ → ℤ
unfolding round_div
restaurant_part split =
    if leb split 1000000
    then pos (round_div (1000000 - split) 10000 * 10000)
    else sub_ℕ 1000000 split

-- `round2(fee / paid)`
pub platform_part : ℕ → ℕ → ℕ
unfolding round_div
platform_part fee paid = round_div (fee * 100) paid * 10000

pub cap_split : ℕ → ℕ
cap_split split = if ltb 999999 split then 999999 else split

unfoldable pub compute_shared_promo : ℕ → ℕ → ℤ → ℕ → SharedPromo
unfolding round_div platform_part restaurant_part cap_split
compute_shared_promo g d share rate =
    let customer_pays = g - d in
    let fee = round_div (g * rate) 10000 in
    let restaurant_discount = round_div (d * clamp_percent share) 100 in
    let platform_discount = d - restaurant_discount in
    let split = cap_split (platform_part fee customer_pays) in
    record {
      gross = g;
      discount = d;
      restaurant_discount = restaurant_discount;
      platform_discount = platform_discount;
      customer_pays = customer_pays;
      platform_fee_amount = fee;
      restaurant_split = if customer_pays == 0 then pos 0 else restaurant_part split;
      platform_split = if customer_pays == 0 then 0 else split;
      platform_topup_needed = platform_discount;
    }

pub record PromoSummary : Type 0 where
  pub id : ℕ
  pub code : Text
  pub issuer_type : IssuerType
  pub discount_type : DiscountType
  pub discount_value : ℤ
  pub restaurant_share_percent : Option ℤ

pub record PromoResult : Type 0 where
  pub price : SharedPromo
  pub open price use *
  pub applied : Bool
  pub promo : Option PromoSummary

unfoldable pub without_promo : ℕ → ℕ → PromoResult
unfolding round_div platform_part restaurant_part
without_promo g rate =
    let fee = round_div (g * rate) 10000 in
    let split = if ltb 0 g then platform_part fee g else 0 in
    record {
      price = record {
        gross = g;
        discount = 0;
        restaurant_discount = 0;
        platform_discount = 0;
        customer_pays = g;
        platform_fee_amount = fee;
        restaurant_split = restaurant_part split;
        platform_split = split;
        platform_topup_needed = 0;
      };
      applied = false;
      promo = none;
    }

abbrev pub is_expired : Env → PromoCode → Bool
is_expired env p = elim p.expiry_date [ none ↦ false | some t ↦ ltb t env.now ]

-- `a && a !== b` on the restaurant of the promo
abbrev pub is_elsewhere : PromoCode → ℕ → Bool
is_elsewhere p restaurant_id = elim p.applicable_restaurant_id [
  | none ↦ false
  | some r ↦ not (r == restaurant_id)
]

-- A limit of 0 is falsy in the code, and so no limit.
abbrev pub reached : ℕ → Option ℕ → Bool
reached uses none = false
reached uses (some zero) = false
reached uses (some (suc m)) = leb (suc m) uses

-- `Math.max(0, round2(…))`: a negative value gives no discount.
unfoldable pub discount_of : DiscountType → ℤ → ℕ → ℕ
unfolding round_div
discount_of percentage (pos v) g = round_div (g * v) 10000
discount_of fixed (pos v) g = v
discount_of _ (negsuc v) g = 0

unfoldable pub restaurant_share : PromoCode → ℤ
restaurant_share p = elim p.issuer_type [
  | restaurant ↦ pos 100
  | platform ↦ pos 0
  | shared ↦ get_or p.restaurant_share_percent (pos 50)
]

abbrev pub summary : PromoCode → PromoSummary
summary p = record {
  id = p.id;
  code = p.code;
  issuer_type = p.issuer_type;
  discount_type = p.discount_type;
  discount_value = p.discount_value;
  restaurant_share_percent = p.restaurant_share_percent;
}

abbrev pub price_under : PromoCode → ℕ → ℕ → SharedPromo
price_under p g rate =
    compute_shared_promo g (discount_of p.discount_type p.discount_value g) (restaurant_share p)
      rate

use_code : Env → Text → ℕ → ℕ → ℕ → Exec PromoResult
use_code env code g restaurant_id rate = do
  found ← read (λ db. db.promos (normalize code))
  p ← or_throw found Error.promo_not_found
  require p.active Error.promo_inactive
  require (not (is_expired env p)) Error.promo_expired
  require (not (is_elsewhere p restaurant_id)) Error.promo_other_restaurant
  require (not (reached p.uses_count p.max_uses)) Error.promo_used_up
  save_promo (record p { uses_count = p.uses_count + 1 })
  pure (record { price = price_under p g rate; applied = true; promo = some (summary p) })

-- `!codeStr` holds of a missing and of an empty code.
unfoldable pub apply_promo : Env → Option Text → ℕ → ℕ → ℕ → Exec PromoResult
unfolding use_code
apply_promo env none g restaurant_id rate = pure (without_promo g rate)
apply_promo env (some []) g restaurant_id rate = pure (without_promo g rate)
apply_promo env (some (c ∷ cs)) g restaurant_id rate = use_code env (c ∷ cs) g restaurant_id rate
