-- ===== src/Charges.antt =====
-- payment-service/src/modules/payment/payment.service.ts: the payments of orders. Here are the rows
-- and the state, which holds that of the payouts. The amount is in cents, and the currency is left
-- out. Tables are lists of rows; what is added comes first.
pub mod Splits
pub mod Subaccounts
pub mod Gate
pub mod Checkout
pub mod Webhook
pub mod Settled
pub mod Orders
pub mod Once
mod Tests
use meal_delivery.Prelude.{
  ℕ, ◌+◌, Bool, true, false, Option, none, some, List, [], ◌∷◌, ◌++◌, Text, ◌==◌, ◌&&◌, text_eq,
  find_row, update_where, or_else, if◌then◌else◌,
}
use meal_delivery.Payouts.{Store, PayoutChild}

pub data PaymentStatus : Type 0 where
  initiated paid failed refunded : PaymentStatus

-- What the provider says of a transaction. The fields are those that the code looks at: `data_` are
-- those of its `data`, `meta_` those of a `meta`, `init_` those of an `initResp`.
pub record Verified : Type 0 where
  pub data_status : Option Text
  pub status : Option Text
  pub data_id : Option Text
  pub data_meta_topup : Option ℕ
  pub meta_topup : Option ℕ
  pub init_meta_topup : Option ℕ
  pub topup : Option ℕ
  pub data_meta_restaurant : Option ℕ
  pub meta_restaurant : Option ℕ
  pub init_meta_restaurant : Option ℕ

-- What a checkout leaves in the payment.
pub record Begun : Type 0 where
  pub checkout_url : Option Text
  pub expires_at : ℕ
  pub platform_topup_needed : Option ℕ
  pub restaurant_id : ℕ

-- `payment_data`
pub data PaymentData : Type 0 where
  begun : Begun → PaymentData
  verified : Verified → PaymentData

pub record Payment : Type 0 where
  pub id : ℕ
  pub order_id : ℕ
  pub tx_ref : Text
  pub chapa_tx_id : Option Text
  pub amount : ℕ
  pub status : PaymentStatus
  pub payment_data : PaymentData

pub data FailReason : Type 0 where
  invalid_payload previous_attempt_failed chapa_init_error : FailReason
  db_save_failed chapa_status_not_success : FailReason

-- Messages to the catalog service; a success brings what was stored.
pub data Report : Type 0 where
  payment_initiated : ℕ → Text → Option Text → Option ℕ → Report
  payment_success : ℕ → Text → PaymentData → Report
  payment_failed : Option ℕ → FailReason → Report

pub record Ledger : Type 0 where
  pub payments : List Payment
  pub payouts : Store
  pub reports : List Report

-- `try { await this.kafka.emit(…) } catch`
abbrev pub report : (Report → Bool) → Report → Ledger → Ledger
report accepts r l = if accepts r then record l { reports = l.reports ++ r ∷ [] } else l

abbrev pub of_order : ℕ → Ledger → Option Payment
of_order o l = find_row (λ p. p.order_id == o) l.payments

abbrev pub of_tx_ref : Text → Ledger → Option Payment
of_tx_ref t l = find_row (λ p. text_eq p.tx_ref t) l.payments

-- `paymentRepo.save` of a payment that is stored.
abbrev pub save_payment : Payment → Ledger → Ledger
save_payment p l = record l { payments = update_where (λ q. q.id == p.id) (λ q. p) l.payments }
