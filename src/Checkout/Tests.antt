-- ===== src/Checkout/Tests.antt =====
-- Concrete orders.
use meal_delivery.Prelude.{
  if◌then◌else◌, ◌==◌, ℕ, ◌≡◌, ◌≢◌, refl, true, false, Option, none, some, List, [], ◌∷◌, Text,
}
use meal_delivery.Prelude.Int.{pos, negsuc}
use meal_delivery.Entities.{
  MenuItem, ScheduledJob, Order, OrderStatus, PaymentStatus, fixed, platform, redemption,
}
use meal_delivery.World.{World, ok}
use meal_delivery.Promo.{apply_promo, without_promo, compute_shared_promo, discount_of}
use meal_delivery.Rewards.{process_redemption, get_active_rule, find_active_rule}
use meal_delivery.Checkout.{
  CreateOrder, Ids, Prepared, delivery_time, prepare_items, redeem, place, place_order, save_items,
  record_redemption, create_order,
}
use meal_delivery.Checkout.Items.{subtotals, gross_of, item_rows, rows_for}
use meal_delivery.Fulfilment.{toggle_menu_availability}
use meal_delivery.Checkout.Placed.{IsJobOf, order_is_placed}
use meal_delivery.Fixtures.{soup, env, zone, empty_db, world_of, one_row}

abbrev ids : Ids
ids = record { order = 1; job = 2 }

abbrev basket : CreateOrder
basket = record {
  items =
      record { menu_item_id = 5; quantity = some 2 }
      ∷ record { menu_item_id = 5; quantity = none }
      ∷ [];
  restaurant_id = 7;
  is_delivery = true;
  points_to_redeem = some 4;
  scheduled_delivery_time = none;
}

-- A point is worth 1 currency unit; the code takes 25 off.
abbrev town : World
town = world_of (record empty_db {
  balances = one_row (record { customer_id = 10; total_points = pos 50 }) 10;
  rules =
      record {
        id = 1;
        rule_name = [];
        type = redemption;
        conversion_rate = 10000;
        min_order_value = 0;
        max_redeem_percentage = 100;
        is_active = true;
        start_date = none;
        end_date = none;
      }
      ∷ [];
  promos = λ c. some (record {
    id = 9;
    code = b'X' ∷ [];
    discount_type = fixed;
    discount_value = pos 2500;
    issuer_type = platform;
    applicable_restaurant_id = none;
    restaurant_share_percent = none;
    max_uses = none;
    uses_count = 0;
    expiry_date = none;
    active = true;
  });
})

abbrev no_code : Option Text
no_code = none

abbrev expected : Order
expected = record {
  id = 1;
  customer_id = 10;
  restaurant_id = 7;
  status = OrderStatus.scheduled;
  payment_status = PaymentStatus.none;
  total_amount = pos 260000;
  gross_amount = 3000;
  discount_amount = 40000;
  platform_topup_needed = 0;
  promo_code = none;
  is_delivery = true;
  tx_ref = none;
  checkout_url = none;
  payment_expires_at = none;
  payment_reference = none;
  paid_at = none;
  is_scheduled = false;
  scheduled_delivery_time = none;
}

created : (create_order env zone ids 10 basket none 500 town).0 ≡ ok expected
unfolding create_order delivery_time place_order prepare_items redeem process_redemption
    get_active_rule find_active_rule apply_promo without_promo place record_redemption save_items
created = refl

-- A promo and points together may exceed the gross: the total is then negative, here 30 - 25 - 8.
total_below_zero :
    (o : Order) × ((create_order env zone ids 10
        (record basket { points_to_redeem = some 8 })
        (some (b'X' ∷ []))
        500
        town).0
      ≡ ok o)
    × (o.total_amount ≡ negsuc 29999)
unfolding create_order delivery_time place_order prepare_items redeem process_redemption
    get_active_rule find_active_rule apply_promo discount_of compute_shared_promo place
    record_redemption save_items
total_below_zero = (_, refl, refl)

order_is_placed_example :
    let w' = (create_order env zone ids 10 basket none 500 town).1 in
    (delivery : Option ℕ) × (ps : List Prepared) × ((delivery_time env zone basket town).0
      ≡ ok delivery)
    × (w'.db.orders 1 ≡ some expected)
    × (expected.status ≡ OrderStatus.scheduled)
    × (expected.payment_status ≡ PaymentStatus.none)
    × (expected.scheduled_delivery_time ≡ delivery)
    × (j : ScheduledJob) × (w'.db.jobs 1 ≡ some j)
    × IsJobOf env expected j
    × (w'.db.items ≡ item_rows ids ps town.db.items)
    × (w'.db.items ≡ rows_for 1 town.db.menu_items basket.items town.db.items)
    × (subtotals ps ≡ expected.gross_amount)
    × (expected.gross_amount ≡ gross_of town.db.menu_items basket.items)
    × ((k : ℕ) → k ≢ 1 → w'.db.orders k ≡ town.db.orders k)
    × ((k : ℕ) → k ≢ 1 → w'.db.jobs k ≡ town.db.jobs k)
order_is_placed_example = order_is_placed env zone ids 10 basket none 500 town expected created

-- The owner takes the bread off; soup can still be ordered.
abbrev bread : MenuItem
bread = record { id = 6; price = 250; is_available = true; restaurant_id = some 7 }

abbrev two_dishes : World
two_dishes = record town {
  db = record town.db { menu_items = λ k. if k == 6 then some bread else one_row soup 5 k };
}

bread_off : (toggle_menu_availability 70 7 6 false two_dishes).0 ≡ ok false
unfolding toggle_menu_availability
bread_off = refl

soup_ordered :
    (create_order env zone ids 10 basket none 500
      (toggle_menu_availability 70 7 6 false two_dishes).1).0
    ≡ ok expected
unfolding create_order delivery_time place_order prepare_items redeem process_redemption
    get_active_rule find_active_rule apply_promo without_promo place record_redemption save_items
    toggle_menu_availability
soup_ordered = refl
