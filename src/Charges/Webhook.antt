-- ===== src/Charges/Webhook.antt =====
-- payment.service.ts: `handleChapaWebhook`, the results of payments, and `verifyTxRef`. The message's
-- signature is checked before, and the provider's word on the transaction is an argument.
use meal_delivery.Prelude.{
  ℕ, ◌+◌, Bool, true, false, ◌&&◌, Option, none, some, List, [], ◌∷◌, Text, ◌==◌, or_else, any, ltb,
  if◌then◌else◌,
}
use meal_delivery.Payouts.{
  Store, PayoutChild, ChildStatus, promo_platform_topup, is_one_of, settled_words,
}
use meal_delivery.Payouts.Create.{is_topup}
use meal_delivery.Charges.{
  Payment, PaymentStatus, PaymentData, Verified, begun, verified, Report, payment_success,
  payment_failed, chapa_status_not_success, Ledger, report, of_tx_ref, save_payment,
}

-- `tx_ref` is the first of three fields of the message.
pub record Hook : Type 0 where
  pub tx_ref : Option Text
  pub status : Option Text

abbrev pub text_of : Option Text → Text
text_of none = []
text_of (some t) = t

-- What the transaction's status is taken to be.
abbrev pub status_of : Hook → Verified → Text
status_of h v = text_of (or_else v.data_status (or_else v.status h.status))

abbrev pub topup_in : PaymentData → Option ℕ
topup_in (begun b) = b.platform_topup_needed
topup_in (verified v) = or_else v.init_meta_topup v.topup

abbrev pub restaurant_in : PaymentData → Option ℕ
restaurant_in (begun b) = none
restaurant_in (verified v) = or_else v.init_meta_restaurant v.meta_restaurant

abbrev or_zero : Option ℕ → ℕ
or_zero none = 0
or_zero (some n) = n

-- Both are read from the payment as it is then.
unfoldable pub topup_of : Verified → Payment → ℕ
topup_of v p = or_zero (or_else v.data_meta_topup (or_else v.meta_topup (topup_in p.payment_data)))

unfoldable pub restaurant_of : Verified → Payment → Option ℕ
restaurant_of v p =
    or_else v.data_meta_restaurant (or_else v.meta_restaurant (restaurant_in p.payment_data))

abbrev pub settled_by : Verified → Payment → Payment
settled_by v p = record p {
  status = PaymentStatus.paid;
  chapa_tx_id = or_else v.data_id p.chapa_tx_id;
  payment_data = verified v;
}

abbrev pub lost_by : Verified → Payment → Payment
lost_by v p = record p { status = PaymentStatus.failed; payment_data = verified v }

-- `{ order_id, reason: 'promo_platform_topup' }`
abbrev pub is_topup_of : ℕ → PayoutChild → Bool
is_topup_of o c = elim c.order_id [ none ↦ false | some k ↦ k == o ] && is_topup c.reason

abbrev pub new_child : ℕ → ℕ → Payment → ℕ → ℕ → PayoutChild
new_child now id p restaurant amount = record {
  id = id;
  order_id = some p.order_id;
  payment_id = some p.id;
  restaurant_id = restaurant;
  amount = amount;
  status = ChildStatus.pending;
  parent_aggregate_id = none;
  reason = some promo_platform_topup;
  created_at = now;
}

-- What the platform owes for the order is written down once.
unfoldable pub owe : ℕ → Payment → ℕ → ℕ → Store → Store
owe now p restaurant amount s = if any (is_topup_of p.order_id) s.children then s else record s {
  children = new_child now s.next_id p restaurant amount ∷ s.children;
  next_id = s.next_id + 1;
}

abbrev owe_at : ℕ → Payment → ℕ → Option ℕ → Store → Store
owe_at now p amount none s = s
owe_at now p amount (some restaurant) s = owe now p restaurant amount s

unfoldable pub owe_topup : ℕ → Verified → Payment → Store → Store
owe_topup now v p s =
    let amount = topup_of v p in
    if ltb 0 amount then owe_at now p amount (restaurant_of v p) s else s

abbrev tell_paid : (Report → Bool) → Payment → Ledger → Ledger
tell_paid accepts p l = report accepts (payment_success p.order_id p.tx_ref p.payment_data) l

unfoldable pub settle_payment : (Report → Bool) → ℕ → Verified → Payment → Ledger → Ledger
settle_payment accepts now v p l =
    let told = tell_paid accepts (settled_by v p) (save_payment (settled_by v p) l) in
    record told { payouts = owe_topup now v (settled_by v p) told.payouts }

unfoldable pub lose_payment : (Report → Bool) → Verified → Payment → Ledger → Ledger
lose_payment accepts v p l =
    report accepts (payment_failed (some p.order_id) chapa_status_not_success)
      (save_payment (lost_by v p) l)

abbrev pub is_paid : PaymentStatus → Bool
is_paid PaymentStatus.paid = true
is_paid _ = false

-- The provider may not answer.
unfoldable pub judge : (Report → Bool) → ℕ → Hook → Option Verified → Payment → Ledger → Ledger
judge accepts now h none p l = l
judge accepts now h (some v) p l =
    if is_one_of settled_words (status_of h v)
    then settle_payment accepts now v p l
    else lose_payment accepts v p l

abbrev pub look_up : Option Text → Ledger → Option Payment
look_up none l = none
look_up (some []) l = none
look_up (some (c ∷ t)) l = of_tx_ref (c ∷ t) l

-- A payment that is paid is left alone.
unfoldable pub handle_payment_hook :
    (Report → Bool) → ℕ → Hook → (Text → Option Verified) → Ledger → Ledger
handle_payment_hook accepts now h verify l = elim (look_up h.tx_ref l) [
  | none ↦ l
  | some p ↦ if is_paid p.status then l else judge accepts now h (verify p.tx_ref) p l
]

abbrev pub two_words : List Text
two_words =
    (b's' ∷ b'u' ∷ b'c' ∷ b'c' ∷ b'e' ∷ b's' ∷ b's' ∷ []) ∷ (b'p' ∷ b'a' ∷ b'i' ∷ b'd' ∷ []) ∷ []

-- `verifyTxRef`, whatever the payment was before; an absent status is the text `null`.
unfoldable pub verify_tx_ref : Text → Verified → Ledger → Ledger
verify_tx_ref t v l = elim (of_tx_ref t l) [
  | none ↦ l
  | some p ↦
      if is_one_of two_words (text_of (or_else v.data_status v.status))
      then save_payment (settled_by v p) l
      else save_payment (lost_by v p) l
]
