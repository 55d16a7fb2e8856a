-- ===== src/Checkout/Placed.antt =====
-- order.service.ts: what a new order leaves in the database.
use meal_delivery.Prelude.{ℕ, ◌≡◌, ◌≢◌, refl, ◌+◌, Option, none, some, [], List, Text, arith}
use meal_delivery.Entities.{
  Order, OrderStatus, PaymentStatus, ScheduledJob, ScheduledJobStatus, process_scheduled_order,
  cancel_unpaid_order,
}
use meal_delivery.World.{Env, World, ok}
use meal_delivery.Scheduling.{Zone}
use meal_delivery.Checkout.{
  CreateOrder, Ids, Prepared, redeem, job_row, delivery_time, create_order,
}
use meal_delivery.Checkout.Items.{
  subtotals, gross_of, item_rows, rows_for, prepare_items_sums, prepared_rows,
}
use meal_delivery.Checkout.Amounts.{apply_promo_price}
use meal_delivery.Checkout.Frames.{redeem_frame, apply_promo_frame}
use meal_delivery.Checkout.Parts.{create_order-Created}

-- The pending job of an order: to process it at its time, if it has one, and else to cancel it after
-- five minutes.
abbrev pub IsJobOf : Env → Order → ScheduledJob → Type 0
IsJobOf env o j =
    (j.order_id ≡ o.id)
    × (j.status ≡ ScheduledJobStatus.pending)
    × (o.scheduled_delivery_time ≡ none
        → (j.job_type ≡ cancel_unpaid_order) × (j.run_at ≡ env.now + 300000))
    × ((t : ℕ)
        → o.scheduled_delivery_time ≡ some t
        → (j.job_type ≡ process_scheduled_order) × (j.run_at ≡ t))

job_row-IsJobOf :
    (env : Env) (ids : Ids) (delivery : Option ℕ) (o : Order)
    → o.id ≡ ids.order
    → o.scheduled_delivery_time ≡ delivery
    → IsJobOf env o (job_row env ids delivery)
job_row-IsJobOf env ids delivery o own planned =
    (ground arith, refl, λ now. ground arith, λ t later. ground arith)

-- A new order is stored, starts as scheduled and unpaid, and has one pending job: to process it at
-- the time that was checked, or to cancel it after five minutes. Its items are stored before those
-- that were there, each with the order's id and the dish and price of the menu, its quantity (1 if
-- none is given) and the product as its subtotal; the subtotals add up to the order's gross, which is
-- the sum of these products. No other order and no other job is touched.
pub order_is_placed :
    (env : Env) (zone : Zone) (ids : Ids) (customer_id : ℕ) (dto : CreateOrder) (code : Option Text)
    (rate : ℕ) (w : World) (o : Order)
    → (create_order env zone ids customer_id dto code rate w).0 ≡ ok o
    → let w' = (create_order env zone ids customer_id dto code rate w).1 in
      (delivery : Option ℕ) × (ps : List Prepared) × ((delivery_time env zone dto w).0
        ≡ ok delivery)
      × (w'.db.orders ids.order ≡ some o)
      × (o.status ≡ OrderStatus.scheduled)
      × (o.payment_status ≡ PaymentStatus.none)
      × (o.scheduled_delivery_time ≡ delivery)
      × (j : ScheduledJob) × (w'.db.jobs ids.order ≡ some j)
      × IsJobOf env o j
      × (w'.db.items ≡ item_rows ids ps w.db.items)
      × (w'.db.items ≡ rows_for ids.order w.db.menu_items dto.items w.db.items)
      × (subtotals ps ≡ o.gross_amount)
      × (o.gross_amount ≡ gross_of w.db.menu_items dto.items)
      × ((k : ℕ) → k ≢ ids.order → w'.db.orders k ≡ w.db.orders k)
      × ((k : ℕ) → k ≢ ids.order → w'.db.jobs k ≡ w.db.jobs k)
unfolding subtotals item_rows
order_is_placed env zone ids customer_id dto code rate w o h =
    let c = create_order-Created env zone ids customer_id dto code rate w o h in
    let p = c.parts in
    let w1 : World = (redeem env customer_id dto.points_to_redeem p.gross w).1 in
    let sums = prepare_items_sums dto.items 0 p.gross [] p.prepared w p.prepares in
    let f1 = redeem_frame env customer_id dto.points_to_redeem p.gross w in
    let rows = prepared_rows ids dto.items 0 p.gross [] p.prepared w.db.items w p.prepares in
    let price = apply_promo_price env code p.gross dto.restaurant_id rate w1 p.promo p.charges in
    let f2 = apply_promo_frame env code p.gross dto.restaurant_id rate w1 in
    (
      c.delivery,
      p.prepared,
      c.chosen,
      ground (arith, p.row, c.commits, p.places),
      ground (arith, p.row),
      ground (arith, p.row),
      ground (arith, p.row),
      job_row env ids c.delivery,
      ground (arith, c.commits, p.places),
      job_row-IsJobOf env ids c.delivery o (ground (arith, p.row)) (ground (arith, p.row)),
      ground (arith, c.commits, p.places, f1, f2),
      ground (arith, c.commits, p.places, f1, f2, rows),
      ground (arith, sums.0, sums.1, price.0, p.row),
      ground (arith, sums.0, price.0, p.row),
      λ k other. ground (arith, c.commits, p.places, f1, f2),
      λ k other. ground (arith, c.commits, p.places, f1, f2),
    )
