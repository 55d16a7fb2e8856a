-- ===== src/Charges/Checkout.antt =====
-- payment.service.ts: `handleOrderAwaitingPayment`, the checkout of an order. Other calls may store
-- payments while the provider is asked.
use meal_delivery.Prelude.{
  ℕ, ◌+◌, Bool, ◌||◌, Option, none, some, List, ◌∷◌, ◌++◌, Text, text_eq, ◌==◌, any, if◌then◌else◌,
}
use meal_delivery.Charges.{
  Payment, PaymentStatus, PaymentData, begun, verified, Report, payment_initiated, payment_success,
  payment_failed, invalid_payload, previous_attempt_failed, chapa_init_error, db_save_failed,
  Ledger, report, of_order,
}
use meal_delivery.Charges.Gate.{Gate, Request, Init, init_failed, init_done, shares, retry}

abbrev quarter_hour : ℕ
quarter_hour = 900000

abbrev checkout_url_of : PaymentData → Option Text
checkout_url_of (begun b) = b.checkout_url
checkout_url_of (verified v) = none

abbrev expires_at_of : PaymentData → Option ℕ
expires_at_of (begun b) = some b.expires_at
expires_at_of (verified v) = none

abbrev pub tell_initiated : Gate → Payment → Ledger → Ledger
tell_initiated g p l =
    report g.accepts
      (payment_initiated p.order_id p.tx_ref (checkout_url_of p.payment_data)
        (expires_at_of p.payment_data))
      l

abbrev pub repeated : Payment → PaymentStatus → Report
repeated p PaymentStatus.initiated =
    payment_initiated p.order_id p.tx_ref (checkout_url_of p.payment_data)
      (expires_at_of p.payment_data)
repeated p PaymentStatus.paid = payment_success p.order_id p.tx_ref p.payment_data
repeated p _ = payment_failed (some p.order_id) previous_attempt_failed

abbrev expiry : Gate → Option ℕ → ℕ
expiry g none = g.now + quarter_hour
expiry g (some t) = t

abbrev pub new_payment :
    Gate → Request → ℕ → ℕ → ℕ → ℕ → Option Text → Option ℕ → Option Text → Payment
new_payment g r id o amount restaurant url expires chapa_id = record {
  id = id;
  order_id = o;
  tx_ref = g.new_tx_ref;
  chapa_tx_id = chapa_id;
  amount = amount;
  status = PaymentStatus.initiated;
  payment_data = begun (record {
    checkout_url = url;
    expires_at = expiry g expires;
    platform_topup_needed = r.platform_topup_needed;
    restaurant_id = restaurant;
  });
}

-- The unique indexes of the table.
abbrev pub clashes : Payment → Payment → Bool
clashes p q = (q.order_id == p.order_id) || text_eq q.tx_ref p.tx_ref

abbrev pub add_payment : Payment → Ledger → Ledger
add_payment p l = record l {
  payments = p ∷ l.payments;
  payouts = record l.payouts { next_id = l.payouts.next_id + 1 };
}

abbrev pub found_after_clash : Gate → ℕ → Option Payment → Ledger → Option Payment × Ledger
found_after_clash g o none l = (none, report g.accepts (payment_failed (some o) db_save_failed) l)
found_after_clash g o (some p) l = (some p, tell_initiated g p l)

unfoldable pub store_payment : Gate → Payment → Ledger → Option Payment × Ledger
store_payment g p l =
    if any (clashes p) l.payments
    then found_after_clash g p.order_id (of_order p.order_id l) l
    else (some p, tell_initiated g p (add_payment p l))

unfoldable pub conclude : Gate → Request → ℕ → ℕ → ℕ → Init → Ledger → Option Payment × Ledger
unfolding store_payment
conclude g r o amount restaurant (init_failed e) l =
    (none, report g.accepts (payment_failed (some o) chapa_init_error) l)
conclude g r o amount restaurant (init_done url expires chapa_id) l =
    store_payment g (new_payment g r l.payouts.next_id o amount restaurant url expires chapa_id) l

abbrev joined_by : List Payment → Ledger → Ledger
joined_by ps l = record l { payments = ps ++ l.payments }

unfoldable pub begin : Gate → Request → ℕ → ℕ → ℕ → Ledger → Option Payment × Ledger
unfolding retry conclude
begin g r o amount restaurant l =
    let sub = l.payouts.subaccounts restaurant in
    let ss = shares g r sub in
    let (init, payouts) = retry g restaurant sub ss (g.answers 0 ss) l.payouts in
    conclude g r o amount restaurant init (joined_by g.meanwhile (record l { payouts = payouts }))

-- A payment that the order already has is reported again as it stands.
unfoldable pub checkout_for :
    Gate → Request → ℕ → ℕ → ℕ → Option Payment → Ledger → Option Payment × Ledger
unfolding begin
checkout_for g r o amount restaurant none l = begin g r o amount restaurant l
checkout_for g r o amount restaurant (some p) l = (some p, report g.accepts (repeated p p.status) l)

-- The fields that must be there; an amount of zero counts as missing.
abbrev pub required : Request → Option (ℕ × ℕ × ℕ)
required r = elim r.order_id [
  | none ↦ none
  | some o ↦ elim r.amount [
    | none ↦ none
    | some amount ↦ elim r.customer_id [
      | none ↦ none
      | some c ↦ elim r.restaurant_id [
        | none ↦ none
        | some rest ↦ if amount == 0 then none else some (o, amount, rest)
      ]
    ]
  ]
]

unfoldable pub handle_order_awaiting_payment : Gate → Request → Ledger → Option Payment × Ledger
unfolding checkout_for
handle_order_awaiting_payment g r l = elim (required r) [
  | none ↦ (none, report g.accepts (payment_failed r.order_id invalid_payload) l)
  | some (o, amount, rest) ↦ checkout_for g r o amount rest (of_order o l) l
]
