-- ===== src/Fulfilment/Tests.antt =====
-- Concrete runs of the calls on an order.
use meal_delivery.Prelude.{◌≡◌, refl, true, some, arith}
use meal_delivery.Entities.{Order}
use meal_delivery.World.{Error, ok, err}
use meal_delivery.Fulfilment.{owner_response, mark_as_ready, set_status, has_status}
use meal_delivery.Fulfilment.Edges.{
  OrdersKeyed, Moves, respond, finish, cancel, perform, starts, ends, calls_follow_the_lifecycle,
}
use meal_delivery.Fulfilment.Guards.{refused_call_changes_nothing, may_call, accepted_call}
use meal_delivery.Fixtures.{env, new_order, world_with}

new_order-OrdersKeyed : OrdersKeyed (world_with new_order).db
new_order-OrdersKeyed k = ground arith

accepted_run : (perform env (respond true) 70 1 (world_with new_order)).0 ≡ ok tt
unfolding perform owner_response has_status
accepted_run = refl

refused_run : (perform env finish 70 1 (world_with new_order)).0 ≡ err Error.wrong_status
unfolding perform mark_as_ready has_status
refused_run = refl

calls_follow_the_lifecycle_example :
    Moves
      (starts cancel)
      (ends cancel)
      ((world_with new_order).db.orders 1)
      ((perform env cancel 10 1 (world_with new_order)).1.db.orders 1)
calls_follow_the_lifecycle_example =
    calls_follow_the_lifecycle env cancel 10 1 1 (world_with new_order) new_order-OrdersKeyed

accepted_call_example :
    let w' = (perform env (respond true) 70 1 (world_with new_order)).1 in
    (o : Order) × ((world_with new_order).db.orders 1 ≡ some o)
    × (may_call (world_with new_order).db (respond true) 70 o ≡ true)
    × (starts (respond true) o.status ≡ true)
    × (w'.db.orders 1 ≡ some (set_status o (ends (respond true))))
accepted_call_example =
    accepted_call env (respond true) 70 1 (world_with new_order) new_order-OrdersKeyed accepted_run

refused_call_changes_nothing_example :
    (perform env finish 70 1 (world_with new_order)).1.db ≡ (world_with new_order).db
refused_call_changes_nothing_example =
    refused_call_changes_nothing env finish 70 1 Error.wrong_status (world_with new_order)
      refused_run
