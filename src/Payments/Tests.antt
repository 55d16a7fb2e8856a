-- ===== src/Payments/Tests.antt =====
-- Concrete payment messages and masks.
use meal_delivery.Prelude.{
  ℕ, ◌≡◌, ◌≢◌, refl, true, false, Option, none, some, [], ◌∷◌, Text, is_some,
}
use meal_delivery.Entities.{Order, OrderStatus, PaymentStatus, cancel_unpaid_order}
use meal_delivery.Fulfilment.{keep_unless}
use meal_delivery.Payments.{Initiated, is_success, confirm, handle_payment_result, mask_pickup_code}
use meal_delivery.Payments.Results.{success_pays}
use meal_delivery.Fixtures.{env, tokens, new_order, world_with, success_report, failure_report}

good_report : is_success success_report ≡ true
unfolding is_success
good_report = refl

bad_report : is_success failure_report ≡ false
unfolding is_success
bad_report = refl

success_pays_example :
    let w' =
      (handle_payment_result tokens env (b'7' ∷ []) success_report (world_with new_order)).1 in
    (w'.db.orders 1 ≡ some (confirm env success_report new_order))
    × ((confirm env success_report new_order).status ≡ OrderStatus.paid)
    × ((confirm env success_report new_order).payment_status ≡ PaymentStatus.paid)
    × (w'.db.jobs 1 ≡ keep_unless cancel_unpaid_order ((world_with new_order).db.jobs 1))
    × (is_some (w'.db.pickups 1) ≡ true)
    × ((k : ℕ) → k ≢ 1 → w'.db.orders k ≡ (world_with new_order).db.orders k)
success_pays_example =
    success_pays tokens env (b'7' ∷ []) success_report (world_with new_order) new_order refl refl
      good_report

abbrev checkout : Initiated
checkout = record {
  order_id = some 1;
  tx_ref = some (b't' ∷ []);
  checkout_url = none;
  expires_at = some 5000000;
}

abbrev first_order : (ℕ → Option Order) → Option Order
first_order orders = orders 0

abbrev three : Text
three = b'1' ∷ b'2' ∷ b'3' ∷ []

masked :
    mask_pickup_code (b'1' ∷ b'2' ∷ b'3' ∷ b'4' ∷ b'5' ∷ b'6' ∷ [])
    ≡ b'*' ∷ b'*' ∷ b'*' ∷ b'*' ∷ b'5' ∷ b'6' ∷ []
unfolding mask_pickup_code
masked = refl
