-- ===== src/Payments/Results.antt =====
-- order.service.ts: what a payment message does to an order.
use meal_delivery.Prelude.{ℕ, ◌≡◌, ◌≢◌, refl, true, false, Option, some, Text, arith, is_some}
use meal_delivery.Entities.{Order, OrderStatus, PaymentStatus, cancel_unpaid_order}
use meal_delivery.World.{Env, World}
use meal_delivery.Pickup.{Tokens}
use meal_delivery.Fulfilment.{keep_unless}
use meal_delivery.Payments.{
  Initiated, PaymentReport, has_open_checkout, initiate, handle_payment_initiated, is_success,
  confirm, refuse, handle_payment_result,
}

-- For an order that is found under its own id, a report of success makes it paid whatever it was
-- before, removes the job that would have cancelled it, leaves it with a pickup, and touches no
-- other order.
pub success_pays :
    (tokens : Tokens) (env : Env) (code : Text) (p : PaymentReport) (w : World) (o : Order)
    → w.db.orders p.order_id ≡ some o
    → o.id ≡ p.order_id
    → is_success p ≡ true
    → let w' = (handle_payment_result tokens env code p w).1 in
      (w'.db.orders p.order_id ≡ some (confirm env p o))
      × ((confirm env p o).status ≡ OrderStatus.paid)
      × ((confirm env p o).payment_status ≡ PaymentStatus.paid)
      × (w'.db.jobs p.order_id ≡ keep_unless cancel_unpaid_order (w.db.jobs p.order_id))
      × (is_some (w'.db.pickups p.order_id) ≡ true)
      × ((k : ℕ) → k ≢ p.order_id → w'.db.orders k ≡ w.db.orders k)
unfolding handle_payment_result
success_pays tokens env code p w o found own good =
    (ground arith, refl, refl, ground arith, ground arith, λ k other. ground arith)

-- For an order that is found under its own id, any other report declines it and marks its payment
-- as failed, whatever it was before, and touches no other order and no job.
pub other_report_declines :
    (tokens : Tokens) (env : Env) (code : Text) (p : PaymentReport) (w : World) (o : Order)
    → w.db.orders p.order_id ≡ some o
    → o.id ≡ p.order_id
    → is_success p ≡ false
    → let w' = (handle_payment_result tokens env code p w).1 in
      (w'.db.orders p.order_id ≡ some (refuse o))
      × ((refuse o).status ≡ OrderStatus.declined)
      × ((refuse o).payment_status ≡ PaymentStatus.failed)
      × (w'.db.jobs ≡ w.db.jobs)
      × ((k : ℕ) → k ≢ p.order_id → w'.db.orders k ≡ w.db.orders k)
unfolding handle_payment_result
other_report_declines tokens env code p w o found own bad =
    (ground arith, refl, refl, ground arith, λ k other. ground arith)

-- A message of a new checkout, for an order that is found under its own id, leaves the order alone
-- if its checkout is still open; otherwise it marks the payment as initiated. It touches no other
-- order.
pub open_checkout_is_kept :
    (env : Env) (any : (ℕ → Option Order) → Option Order) (p : Initiated) (w : World) (k : ℕ)
    (o : Order)
    → p.order_id ≡ some k
    → w.db.orders k ≡ some o
    → o.id ≡ k
    → let w' = (handle_payment_initiated env any p w).1 in
      (has_open_checkout env o ≡ true → w'.db.orders k ≡ some o)
      × (has_open_checkout env o ≡ false → w'.db.orders k ≡ some (initiate p o))
      × ((j : ℕ) → j ≢ k → w'.db.orders j ≡ w.db.orders j)
unfolding handle_payment_initiated
open_checkout_is_kept env any p w k o named found own =
    (λ open_now. ground arith, λ closed. ground arith, λ j other. ground arith)
