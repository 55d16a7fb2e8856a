-- ===== src/Fixtures.antt =====
-- The rows that the tests share: a restaurant, two dishes, and an order in a given state.
use meal_delivery.Prelude.{
  ℕ, ◌+◌, ◌%◌, ◌/◌, true, false, Option, none, some, [], ◌∷◌, Text, ◌==◌, if◌then◌else◌,
}
use meal_delivery.Prelude.Int.{pos}
use meal_delivery.Entities.{
  Order, OrderStatus, PaymentStatus, ScheduledJob, ScheduledJobStatus, OrderPickup, Restaurant,
  MenuItem, cancel_unpaid_order,
}
use meal_delivery.World.{Db, World, Env}
use meal_delivery.Pickup.{Tokens}
use meal_delivery.Payments.{PaymentReport}
use meal_delivery.Scheduling.{Zone}

abbrev pub one_row : {A : Type 0} → A → ℕ → ℕ → Option A
one_row a k j = if k == j then some a else none

abbrev pub env : Env
env = record { now = 1000000; accepts = λ m. true }

-- Signing writes the order into the token; checking reads it back.
abbrev pub tokens : Tokens
tokens = record {
  sign = λ now order_id code ttl. order_id ∷ code;
  check = λ now t. elim t [ [] ↦ none | ◌∷◌ x xs ↦ some x ];
}

abbrev read_number : Text → ℕ
read_number [] = 0
read_number (c ∷ s) = c

abbrev pub zone : Zone
zone = record {
  from_zoned = read_number;
  iso_day = λ t. t / 86400000 % 7 + 1;
  time_of_day = λ t. t / 1000 % 86400;
}

abbrev pub diner : Restaurant
diner = record {
  id = 7;
  owner_id = 70;
  minimum_scheduling_lead_time_minutes = 30;
  hours = λ d. record { open_time = some 0; close_time = some 80000 };
}

abbrev pub soup : MenuItem
soup = record { id = 5; price = 1000; is_available = true; restaurant_id = some 7 }

abbrev pub order_in : OrderStatus → PaymentStatus → Order
order_in s p = record {
  id = 1;
  customer_id = 10;
  restaurant_id = 7;
  status = s;
  payment_status = p;
  total_amount = pos 200000;
  gross_amount = 2000;
  discount_amount = 0;
  platform_topup_needed = 0;
  promo_code = none;
  is_delivery = false;
  tx_ref = none;
  checkout_url = none;
  payment_expires_at = none;
  payment_reference = none;
  paid_at = none;
  is_scheduled = false;
  scheduled_delivery_time = none;
}

abbrev pub new_order : Order
new_order = order_in OrderStatus.scheduled PaymentStatus.none

abbrev pub paid_order : Order
paid_order = order_in OrderStatus.paid PaymentStatus.paid

abbrev pub cancel_job : ScheduledJob
cancel_job = record {
  id = 3;
  order_id = 1;
  run_at = 900000;
  status = ScheduledJobStatus.pending;
  job_type = cancel_unpaid_order;
}

abbrev pub pickup : OrderPickup
pickup = record {
  order_id = 1;
  pickup_code_hash = b'4' ∷ b'2' ∷ [];
  pickup_token = none;
  expires_at = some 2000000;
  verified = false;
  verified_by = none;
  verified_at = none;
  attempts_count = 4;
  max_attempts = 5;
  last_attempt_at = none;
}

abbrev pub empty_db : Db
empty_db = record {
  orders = λ k. none;
  jobs = λ k. none;
  pickups = λ k. none;
  promos = λ c. none;
  balances = λ k. none;
  ledger = [];
  rules = [];
  items = [];
  events = [];
  restaurants = one_row diner 7;
  menu_items = one_row soup 5;
}

abbrev pub world_of : Db → World
world_of db = record { db = db; sent = []; cached_rules = λ t. none }

-- The order with its job and its pickup, and nothing else.
abbrev pub world_with : Order → World
world_with o = world_of (record empty_db {
  orders = one_row o 1;
  jobs = one_row cancel_job 1;
  pickups = one_row pickup 1;
})

abbrev report_of : Text → PaymentReport
report_of text = record {
  order_id = 1;
  verified_status = some text;
  data_status = none;
  status = none;
  payment_status = none;
  verified_reference = none;
  transaction_reference = none;
  payment_reference = none;
  reference = none;
  verified_paid_at = none;
  data_created_at = none;
}

abbrev pub success_report : PaymentReport
success_report = report_of (b'p' ∷ b'a' ∷ b'i' ∷ b'd' ∷ [])

abbrev pub failure_report : PaymentReport
failure_report = report_of (b'f' ∷ b'a' ∷ b'i' ∷ b'l' ∷ [])
