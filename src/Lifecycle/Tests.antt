-- ===== src/Lifecycle/Tests.antt =====
-- A concrete run.
use meal_delivery.Prelude.{true, none, some, List, [], ◌∷◌, refl, arith}
use meal_delivery.Fulfilment.Edges.{respond, prepare, cancel}
use meal_delivery.Payments.{Initiated}
use meal_delivery.Lifecycle.{
  IsSound, Step, call, report, begin, sweep, Any, FindsRows, is_backed, run, in_work,
  only_paid_orders_are_worked_on,
}
use meal_delivery.Fixtures.{env, tokens, success_report, new_order, cancel_job, world_with}

abbrev busy_day : List Step
busy_day =
    call env (respond true) 70 1
    ∷ report env (b'4' ∷ b'2' ∷ []) success_report
    ∷ sweep env cancel_job
    ∷ call env prepare 70 1
    ∷ call env cancel 10 1
    ∷ []

-- A query that finds the first order.
abbrev finds_first : Any
finds_first orders = orders 1

finds_first-FindsRows : FindsRows finds_first
finds_first-FindsRows orders o h = (1, h)

-- The customer opens a new checkout for the order that was paid.
abbrev checkout_again : Initiated
checkout_again = record {
  order_id = some 1;
  tx_ref = some (b't' ∷ []);
  checkout_url = none;
  expires_at = none;
}

abbrev day_with_checkout : List Step
day_with_checkout = begin env checkout_again ∷ busy_day

new_order-IsSound : IsSound true (world_with new_order).db
unfolding in_work is_backed
new_order-IsSound k = ground arith

only_paid_orders_are_worked_on_example :
    IsSound true (run tokens finds_first day_with_checkout (world_with new_order)).db
only_paid_orders_are_worked_on_example =
    only_paid_orders_are_worked_on true tokens finds_first day_with_checkout (world_with new_order)
      finds_first-FindsRows (refl, (refl, (refl, (refl, (refl, (refl, tt)))))) new_order-IsSound
