-- ===== src/Checkout.antt =====
-- catalog-service/src/modules/order/order.service.ts: `createOrder`. The ids of the new rows are an
-- argument. Prices and subtotals are cents; what the customer pays and the discounts of the order are
-- counted in ten-thousandths, as points are worth fractions of a cent, and rounded to cents when the
-- order is stored. The order that is returned is read back.
pub mod Items
pub mod Frames
pub mod Parts
pub mod Amounts
pub mod Placed
pub mod Menu
mod Tests
use meal_delivery.Prelude.{
  ℕ, zero, suc, ◌+◌, ◌*◌, ◌/◌, Bool, true, false, not, ◌&&◌, Option, none, some, List, [], ◌∷◌,
  ◌++◌, Text, ltb, ◌==◌, get_or, is_some, if◌then◌else◌,
}
use meal_delivery.Prelude.Int.{ℤ, pos, negsuc, sub_ℕ, ◌-ℤ◌, pos_part, neg_part}
use meal_delivery.Entities.{
  Order, OrderStatus, PaymentStatus, ScheduledJob, ScheduledJobStatus, ScheduledJobType, OrderItem,
  RewardType, MenuItem, Action, Message, process_scheduled_order, cancel_unpaid_order,
}
use meal_delivery.World.{
  Env, World, Db, Error, Exec, Result, ok, err, pure, throw, or_throw, read, require, transaction,
  attempt, notify, emit, save_order, save_job, save_item, save_ledger, save_event, ◌>>=◌, ◌>>◌,
}
use meal_delivery.Promo.{PromoResult, PromoSummary, apply_promo}
use meal_delivery.Rewards.{process_redemption}
use meal_delivery.Scheduling.{Zone, minute, validate_scheduling_time}
use meal_delivery.Fulfilment.{event}

pub record CreateOrderItem : Type 0 where
  pub menu_item_id : ℕ
  pub quantity : Option ℕ

pub record CreateOrder : Type 0 where
  pub items : List CreateOrderItem
  pub restaurant_id : ℕ
  pub is_delivery : Bool
  pub points_to_redeem : Option ℕ
  pub scheduled_delivery_time : Option Text

pub record Ids : Type 0 where
  pub order : ℕ
  pub job : ℕ

pub record Prepared : Type 0 where
  pub menu_id : ℕ
  pub unit_price : ℕ
  pub qty : ℕ
  pub subtotal : ℕ

abbrev pub priced : MenuItem → CreateOrderItem → Prepared
priced m it =
    let qty = get_or it.quantity 1 in
    record { menu_id = m.id; unit_price = m.price; qty = qty; subtotal = m.price * qty }

-- The loop over the items: the gross so far and what is prepared.
pub prepare_items : List CreateOrderItem → ℕ → List Prepared → Exec (ℕ × List Prepared)
prepare_items [] gross prepared = pure (gross, prepared)
prepare_items (it ∷ its) gross prepared = do
  found ← read (λ db. db.menu_items it.menu_item_id)
  m ← or_throw found Error.menu_item_not_found
  require m.is_available Error.item_not_available
  prepare_items its (gross + (priced m it).subtotal) (prepared ++ priced m it ∷ [])

-- `pointsToRedeem && pointsToRedeem > 0`
pub redeem : Env → ℕ → Option ℕ → ℕ → Exec ℕ
redeem env customer_id none gross = pure 0
redeem env customer_id (some zero) gross = pure 0
redeem env customer_id (some (suc n)) gross = process_redemption env customer_id (suc n) gross

-- A column of two decimals: halves are rounded away from 0.
abbrev pub to_cents : ℕ → ℕ
to_cents n = (n + 50) / 100 * 100

abbrev pub to_cents_ℤ : ℤ → ℤ
to_cents_ℤ z = sub_ℕ (to_cents (pos_part z)) (to_cents (neg_part z))

abbrev pub order_row : Ids → ℕ → CreateOrder → PromoResult → ℕ → Option ℕ → Order
order_row ids customer_id dto promo points_discount delivery = record {
  id = ids.order;
  customer_id = customer_id;
  restaurant_id = dto.restaurant_id;
  status = OrderStatus.scheduled;
  payment_status = PaymentStatus.none;
  total_amount = to_cents_ℤ (pos (promo.customer_pays * 100) -ℤ pos points_discount);
  gross_amount = promo.gross;
  discount_amount = to_cents (promo.discount * 100 + points_discount);
  platform_topup_needed = promo.platform_topup_needed;
  promo_code = elim promo.promo [ none ↦ none | some p ↦ some p.code ];
  is_delivery = dto.is_delivery;
  tx_ref = none;
  checkout_url = none;
  payment_expires_at = none;
  payment_reference = none;
  paid_at = none;
  is_scheduled = is_some delivery;
  scheduled_delivery_time = delivery;
}

-- A job to process the order at its time, or to cancel it if it is unpaid after five minutes.
abbrev pub job_row : Env → Ids → Option ℕ → ScheduledJob
job_row env ids delivery = record {
  id = ids.job;
  order_id = ids.order;
  run_at = get_or delivery (env.now + 5 * minute);
  status = ScheduledJobStatus.pending;
  job_type = if is_some delivery then process_scheduled_order else cancel_unpaid_order;
}

-- `-Math.abs(points)`, for points that are not negative
abbrev pub negated : ℕ → ℤ
negated n = sub_ℕ 0 n

-- `discountFromPoints > 0 && pointsToRedeem`
pub record_redemption : Ids → ℕ → Option ℕ → ℕ → Exec (Unit {0})
record_redemption ids customer_id points discount =
    if ltb 0 discount && is_some points
    then save_ledger (record {
      customer_id = customer_id;
      order_id = some ids.order;
      points = negated (get_or points 0);
      type = RewardType.redeemed;
    })
    else pure tt

abbrev pub item_row : Ids → Prepared → OrderItem
item_row ids p = record {
  order_id = ids.order;
  menu_item_id = p.menu_id;
  unit_price = p.unit_price;
  quantity = p.qty;
  subtotal = p.subtotal;
}

pub save_items : Ids → List Prepared → Exec (Unit {0})
save_items ids [] = pure tt
save_items ids (p ∷ ps) = do save_item (item_row ids p); save_items ids ps

-- What is written once all amounts are known, and what is announced.
pub place : Env → Ids → ℕ → CreateOrder → Option ℕ → List Prepared → ℕ → PromoResult → Exec Order
unfolding record_redemption ◌-ℤ◌
place env ids customer_id dto delivery prepared points_discount promo = do
  save_order (order_row ids customer_id dto promo points_discount delivery)
  save_job (job_row env ids delivery)
  record_redemption ids customer_id dto.points_to_redeem points_discount
  save_items ids prepared
  save_event (event ids.order customer_id Action.order_created)
  notify (Message.socket_order_created ids.order)
  attempt (emit env (Message.order_created ids.order))
  pure (order_row ids customer_id dto promo points_discount delivery)

pub place_order : Env → Ids → ℕ → CreateOrder → Option ℕ → Option Text → ℕ → Exec Order
unfolding redeem
place_order env ids customer_id dto delivery code rate = do
  found ← read (λ db. db.restaurants dto.restaurant_id)
  or_throw found Error.restaurant_not_found
  prepared ← prepare_items dto.items 0 []
  discount ← redeem env customer_id dto.points_to_redeem prepared.0
  promo ← apply_promo env code prepared.0 dto.restaurant_id rate
  place env ids customer_id dto delivery prepared.1 discount promo

pub delivery_time : Env → Zone → CreateOrder → Exec (Option ℕ)
delivery_time env zone dto = elim dto.scheduled_delivery_time [
  | none ↦ pure none
  | some t ↦ elim t [
    | [] ↦ pure none
    | ◌∷◌ c s ↦ (do
      utc ← validate_scheduling_time env zone dto.restaurant_id (c ∷ s)
      pure (some utc))
  ]
]

abbrev is_empty : List CreateOrderItem → Bool
is_empty [] = true
is_empty (it ∷ its) = false

unfoldable pub create_order : Env → Zone → Ids → ℕ → CreateOrder → Option Text → ℕ → Exec Order
create_order env zone ids customer_id dto code rate = do
  require (not (is_empty dto.items)) Error.no_items
  delivery ← delivery_time env zone dto
  transaction (place_order env ids customer_id dto delivery code rate)
