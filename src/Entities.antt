-- ===== src/Entities.antt =====
-- The rows of the catalog service (catalog-service/src/entities) and its messages. Identifiers
-- (uuids) are numbers; times are milliseconds; an amount is counted in ten-thousandths of the
-- currency unit, and one that the code rounds to two decimals in cents.
use meal_delivery.Prelude.{ℕ, Bool, Option, Text}
use meal_delivery.Prelude.Int.{ℤ}

pub data OrderStatus : Type 0 where
  pending declined accepted awaiting_payment paid preparing ready customer_coming : OrderStatus
  out_for_delivery delivered cancelled completed scheduled : OrderStatus

pub data PaymentStatus : Type 0 where
  none pending initiated paid failed refunded expired : PaymentStatus

pub data ScheduledJobStatus : Type 0 where
  pending processed failed : ScheduledJobStatus

pub data ScheduledJobType : Type 0 where
  process_scheduled_order cancel_unpaid_order : ScheduledJobType

pub data RewardType : Type 0 where
  earned redeemed adjusted expired : RewardType

pub data RuleType : Type 0 where
  earning redemption : RuleType

pub record Order : Type 0 where
  pub id : ℕ
  pub customer_id : ℕ
  pub restaurant_id : ℕ
  pub status : OrderStatus
  pub payment_status : PaymentStatus
  pub total_amount : ℤ
  pub gross_amount : ℕ
  pub discount_amount : ℕ
  pub platform_topup_needed : ℕ
  pub promo_code : Option Text
  pub is_delivery : Bool
  pub tx_ref : Option Text
  pub checkout_url : Option Text
  pub payment_expires_at : Option ℕ
  pub payment_reference : Option Text
  pub paid_at : Option ℕ
  pub is_scheduled : Bool
  pub scheduled_delivery_time : Option ℕ

pub record ScheduledJob : Type 0 where
  pub id : ℕ
  pub order_id : ℕ
  pub run_at : ℕ
  pub status : ScheduledJobStatus
  pub job_type : ScheduledJobType

pub record OrderItem : Type 0 where
  pub order_id : ℕ
  pub menu_item_id : ℕ
  pub unit_price : ℕ
  pub quantity : ℕ
  pub subtotal : ℕ

pub data Action : Type 0 where
  order_rescheduled order_unscheduled order_created owner_accepted owner_declined : Action
  payment_initiated payment_confirmed payment_failed customer_coming : Action
  menu_availability_updated owner_preparing customer_cancelled owner_marked_ready : Action
  order_completed : Action

-- `order_id` and `actor_id` are nullable columns.
pub record OrderEvent : Type 0 where
  pub order_id : Option ℕ
  pub actor_id : Option ℕ
  pub action : Action

pub record OrderPickup : Type 0 where
  pub order_id : ℕ
  pub pickup_code_hash : Text
  pub pickup_token : Option Text
  pub expires_at : Option ℕ
  pub verified : Bool
  pub verified_by : Option ℕ
  pub verified_at : Option ℕ
  pub attempts_count : ℕ
  pub max_attempts : ℕ
  pub last_attempt_at : Option ℕ

pub record RewardPointsBalance : Type 0 where
  pub customer_id : ℕ
  pub total_points : ℤ

pub record RewardPointsLedger : Type 0 where
  pub customer_id : ℕ
  pub order_id : Option ℕ
  pub points : ℤ
  pub type : RewardType

-- `conversion_rate` in ten-thousandths, `min_order_value` in cents.
pub record RewardRule : Type 0 where
  pub id : ℕ
  pub rule_name : Text
  pub type : RuleType
  pub conversion_rate : ℕ
  pub min_order_value : ℕ
  pub max_redeem_percentage : ℕ
  pub is_active : Bool
  pub start_date : Option ℕ
  pub end_date : Option ℕ

pub data DiscountType : Type 0 where
  percentage fixed : DiscountType

pub data IssuerType : Type 0 where
  restaurant platform shared : IssuerType

-- `discount_value` is a decimal with two places, in hundredths.
pub record PromoCode : Type 0 where
  pub id : ℕ
  pub code : Text
  pub discount_type : DiscountType
  pub discount_value : ℤ
  pub issuer_type : IssuerType
  pub applicable_restaurant_id : Option ℕ
  pub restaurant_share_percent : Option ℤ
  pub max_uses : Option ℕ
  pub uses_count : ℕ
  pub expiry_date : Option ℕ
  pub active : Bool

-- Opening hours are seconds since midnight in the restaurant's time zone, Sunday first.
pub record Hours : Type 0 where
  pub open_time : Option ℕ
  pub close_time : Option ℕ

pub record Restaurant : Type 0 where
  pub id : ℕ
  pub owner_id : ℕ
  pub minimum_scheduling_lead_time_minutes : ℕ
  pub hours : ℕ → Hours

-- `price` in cents; `restaurant_id` is that of the item's category, if it has one.
pub record MenuItem : Type 0 where
  pub id : ℕ
  pub price : ℕ
  pub is_available : Bool
  pub restaurant_id : Option ℕ

-- Messages to Kafka topics, and (`socket_…`) to web sockets.
pub data Message : Type 0 where
  order_created order_confirmed order_preparing order_cancelled order_ready : ℕ → Message
  order_completed order_paid order_pickup_created order_paid_with_pickup : ℕ → Message
  order_awaiting_payment : ℕ → ℤ → Message
  reward_points_earned : ℕ → ℕ → ℕ → Message
  socket_order_created socket_pickup_created : ℕ → Message
  socket_order_updated : ℕ → OrderStatus → Message
