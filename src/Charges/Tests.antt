-- ===== src/Charges/Tests.antt =====
-- Concrete payments of an order with a top-up.
use meal_delivery.Prelude.{
  ℕ, ◌+◌, ◌<◌, ◌≡◌, ◌++◌, refl, Bool, true, false, Option, none, some, [], ◌∷◌, Text, member, any,
  find_row, arith, Distinct,
}
use meal_delivery.Payments.{PaymentReport, to_lower, refuse, handle_payment_result}
use meal_delivery.Payouts.{is_one_of, settled_words}
use meal_delivery.Payouts.Money.{owed}
use meal_delivery.Charges.{Payment, PaymentStatus, Verified, begun, Report, Ledger, of_tx_ref}
use meal_delivery.Charges.Subaccounts.{refused}
use meal_delivery.Charges.Gate.{Gate, Request, init_done}
use meal_delivery.Charges.Checkout.{handle_order_awaiting_payment}
use meal_delivery.Charges.Webhook.{
  Hook, settled_by, topup_of, restaurant_of, is_topup_of, look_up, handle_payment_hook, two_words,
}
use meal_delivery.Charges.Settled.{Succeeds, topup_row, hook_pays_once, hook_owes_topup}
use meal_delivery.Charges.Orders.{Carries, paid_order_is_declined}
use meal_delivery.Charges.Once.{orders_of, one_payment_each}
use meal_delivery.Fixtures.{env, tokens, new_order, world_with}

abbrev takes : Report → Bool
takes r = true

abbrev reference : Text
reference = b't' ∷ b'1' ∷ []

abbrev payment : Payment
payment = record {
  id = 3;
  order_id = 1;
  tx_ref = reference;
  chapa_tx_id = none;
  amount = 2000;
  status = PaymentStatus.initiated;
  payment_data = begun (record {
    checkout_url = none;
    expires_at = 5000;
    platform_topup_needed = some 400;
    restaurant_id = 7;
  });
}

abbrev ledger : Ledger
ledger = record {
  payments = payment ∷ [];
  payouts = record {
    children = [];
    aggregates = [];
    batches = λ k. none;
    subaccounts = λ r. none;
    next_id = 10;
    requested = [];
    sent = [];
  };
  reports = [];
}

abbrev hook : Hook
hook = record { tx_ref = some reference; status = none }

abbrev completed_word : Text
completed_word = b'C' ∷ b'o' ∷ b'm' ∷ b'p' ∷ b'l' ∷ b'e' ∷ b't' ∷ b'e' ∷ b'd' ∷ []

abbrev completed_answer : Verified
completed_answer = record {
  data_status = some completed_word;
  status = none;
  data_id = none;
  data_meta_topup = some 400;
  meta_topup = none;
  init_meta_topup = none;
  topup = none;
  data_meta_restaurant = some 7;
  meta_restaurant = none;
  init_meta_restaurant = none;
}

abbrev provider : Text → Option Verified
provider t = some completed_answer

completed_is_settled : is_one_of settled_words completed_word ≡ true
unfolding is_one_of to_lower
completed_is_settled = refl

payment-Succeeds : Succeeds hook provider payment completed_answer ledger
unfolding find_row
payment-Succeeds = record {
  finds = refl;
  unpaid = refl;
  answers = refl;
  good = completed_is_settled;
}

hook_pays_once_example :
    let l1 = handle_payment_hook takes 50 hook provider ledger in
    (look_up hook.tx_ref l1 ≡ some (settled_by completed_answer payment))
    × ((later : ℕ) (verify' : Text → Option Verified)
        → handle_payment_hook takes later hook verify' l1 ≡ l1)
hook_pays_once_example =
    hook_pays_once takes 50 hook provider payment completed_answer ledger payment-Succeeds

topup_400 : 0 < topup_of completed_answer (settled_by completed_answer payment)
unfolding topup_of
topup_400 = omega arith

for_7 : restaurant_of completed_answer (settled_by completed_answer payment) ≡ some 7
unfolding restaurant_of
for_7 = refl

hook_owes_topup_example :
    let l1 = handle_payment_hook takes 50 hook provider ledger in
    (any (is_topup_of 1) l1.payouts.children ≡ true)
    × (any (is_topup_of 1) ledger.payouts.children ≡ true → l1.payouts ≡ ledger.payouts)
    × (any (is_topup_of 1) ledger.payouts.children ≡ false
        → (owed l1.payouts
            ≡ owed ledger.payouts + topup_of completed_answer (settled_by completed_answer payment))
          × (l1.payouts.children
              ≡ topup_row 50 ledger.payouts.next_id payment 7
                  (topup_of completed_answer (settled_by completed_answer payment))
                ∷ ledger.payouts.children))
hook_owes_topup_example =
    hook_owes_topup takes 50 hook provider payment completed_answer ledger payment-Succeeds 7 for_7
      topup_400

abbrev heard : PaymentReport
heard = record {
  order_id = 1;
  verified_status = some completed_word;
  data_status = none;
  status = none;
  payment_status = none;
  verified_reference = none;
  transaction_reference = none;
  payment_reference = none;
  reference = none;
  verified_paid_at = none;
  data_created_at = none;
}

not_among_two : is_one_of two_words completed_word ≡ false
unfolding is_one_of to_lower
not_among_two = refl

heard-Carries : Carries completed_answer payment.order_id heard
heard-Carries = record {
  order = refl;
  data_status = refl;
  status = refl;
  no_status = refl;
  no_payment_status = refl;
}

paid_order_is_declined_example :
    (look_up hook.tx_ref (handle_payment_hook takes 50 hook provider ledger)
      ≡ some (settled_by completed_answer payment))
    × ((handle_payment_result tokens env [] heard (world_with new_order)).1.db.orders 1
        ≡ some (refuse new_order))
paid_order_is_declined_example =
    paid_order_is_declined takes 50 hook provider payment completed_answer ledger completed_word
      tokens env [] heard (world_with new_order) new_order payment-Succeeds refl not_among_two
      heard-Carries refl refl

-- The provider takes a checkout at once, while another order's payment is stored.
abbrev gate : Gate
gate = record {
  now = 100;
  fee = 500;
  platform_account = none;
  new_tx_ref = b't' ∷ b'2' ∷ [];
  answers = λ n ss. init_done none none none;
  recreated = refused [];
  listed = none;
  meanwhile = record payment { id = 4; order_id = 5; tx_ref = b't' ∷ b'5' ∷ [] } ∷ [];
  accepts = takes;
}

abbrev request : Request
request = record {
  order_id = some 2;
  amount = some 900;
  customer_id = some 10;
  restaurant_id = some 7;
  desired_splits = some (94, 5);
  platform_topup_needed = none;
}

distinct_orders : Distinct (orders_of (gate.meanwhile ++ ledger.payments))
unfolding member
distinct_orders = (refl, (refl, tt))

one_payment_each_example :
    Distinct (orders_of (handle_order_awaiting_payment gate request ledger).1.payments)
one_payment_each_example = one_payment_each gate request ledger distinct_orders

found_first : of_tx_ref reference ledger ≡ some payment
unfolding find_row
found_first = refl
