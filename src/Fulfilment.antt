-- ===== src/Fulfilment.antt =====
-- catalog-service/src/modules/order/order.service.ts: the steps of an order that its restaurant and
-- its customer take.
pub mod Guards
pub mod Edges
mod Tests
use meal_delivery.Prelude.{
  ℕ, Bool, true, false, not, ◌&&◌, ◌||◌, Option, none, some, ltb, ◌==◌, if◌then◌else◌,
}
use meal_delivery.Entities.{
  Order, OrderStatus, PaymentStatus, ScheduledJob, ScheduledJobType, OrderEvent, Action, Message,
  Restaurant, process_scheduled_order, cancel_unpaid_order,
}
use meal_delivery.World.{
  Env, World, Db, Error, Exec, Result, ok, err, pure, or_throw, read, require, write, transaction,
  attempt, notify, emit, save_order, save_event, save_menu_item, delete_job, update, ◌>>=◌, ◌>>◌,
}
use meal_delivery.Rewards.{add_points_for_completed_order}

unfoldable pub code_of : OrderStatus → ℕ
code_of OrderStatus.pending = 0
code_of OrderStatus.declined = 1
code_of OrderStatus.accepted = 2
code_of OrderStatus.awaiting_payment = 3
code_of OrderStatus.paid = 4
code_of OrderStatus.preparing = 5
code_of OrderStatus.ready = 6
code_of OrderStatus.customer_coming = 7
code_of OrderStatus.out_for_delivery = 8
code_of OrderStatus.delivered = 9
code_of OrderStatus.cancelled = 10
code_of OrderStatus.completed = 11
code_of OrderStatus.scheduled = 12

unfoldable pub has_status : OrderStatus → OrderStatus → Bool
unfolding code_of
has_status s t = code_of s == code_of t

unfoldable pub is_paid : PaymentStatus → Bool
is_paid PaymentStatus.paid = true
is_paid _ = false

-- `order.restaurant` is the row that the order names, if it is there.
abbrev pub owned_by : ℕ → Option Restaurant → Bool
owned_by owner_id none = false
owned_by owner_id (some r) = r.owner_id == owner_id

abbrev pub event : ℕ → ℕ → Action → OrderEvent
event order_id actor_id action = record {
  order_id = some order_id;
  actor_id = some actor_id;
  action = action;
}

abbrev pub find_order : ℕ → Exec Order
find_order order_id = do
  found ← read (λ db. db.orders order_id)
  or_throw found Error.order_not_found

-- The order, for the owner of its restaurant.
abbrev pub find_owned : ℕ → ℕ → Exec Order
find_owned owner_id order_id = do
  order ← find_order order_id
  r ← read (λ db. db.restaurants order.restaurant_id)
  require (owned_by owner_id r) Error.not_authorized
  pure order

abbrev pub set_status : Order → OrderStatus → Order
set_status order s = record order { status = s }

-- `jobRepo.delete({ order, jobType })`
abbrev pub same_job_type : ScheduledJobType → ScheduledJobType → Bool
same_job_type process_scheduled_order process_scheduled_order = true
same_job_type cancel_unpaid_order cancel_unpaid_order = true
same_job_type _ _ = false

abbrev pub keep_unless : ScheduledJobType → Option ScheduledJob → Option ScheduledJob
keep_unless t none = none
keep_unless t (some j) = if same_job_type j.job_type t then none else some j

abbrev pub delete_job_of_type : ℕ → ScheduledJobType → Exec (Unit {0})
delete_job_of_type order_id t =
    write λ db. record db { jobs = update db.jobs order_id (keep_unless t (db.jobs order_id)) }

request_payment : Env → Order → Exec (Unit {0})
request_payment env order = do
  emit env (Message.order_confirmed order.id)
  emit env (Message.order_awaiting_payment order.id order.total_amount)
  save_order (set_status order OrderStatus.awaiting_payment)
  notify (Message.socket_order_updated order.id OrderStatus.awaiting_payment)

accept_order : Env → ℕ → Order → Exec (Unit {0})
unfolding request_payment
accept_order env owner_id order = do
  save_order (set_status order OrderStatus.accepted)
  save_event (event order.id owner_id Action.owner_accepted)
  notify (Message.socket_order_updated order.id OrderStatus.accepted)
  request_payment env order

decline_order : ℕ → Order → Exec (Unit {0})
decline_order owner_id order = do
  save_order (set_status order OrderStatus.declined)
  save_event (event order.id owner_id Action.owner_declined)
  notify (Message.socket_order_updated order.id OrderStatus.declined)

unfoldable pub owner_response : Env → ℕ → ℕ → Bool → Exec (Unit {0})
unfolding accept_order decline_order
owner_response env owner_id order_id is_accepted = transaction (do
  order ← find_owned owner_id order_id
  require (has_status order.status OrderStatus.scheduled) Error.wrong_status
  delete_job_of_type order.id process_scheduled_order
  if is_accepted then accept_order env owner_id order else decline_order owner_id order)

-- A step of the owner from one status to the next, with its event, in a transaction.
advance : ℕ → ℕ → OrderStatus → OrderStatus → Action → Exec Order
advance owner_id order_id from to action = transaction (do
  order ← find_owned owner_id order_id
  require (has_status order.status from) Error.wrong_status
  save_order (set_status order to)
  save_event (event order.id owner_id action)
  pure (set_status order to))

unfoldable pub mark_order_preparing : Env → ℕ → ℕ → Exec (Unit {0})
unfolding advance
mark_order_preparing env owner_id order_id = do
  order ← advance owner_id order_id OrderStatus.paid OrderStatus.preparing Action.owner_preparing
  notify (Message.socket_order_updated order.id order.status)
  attempt (emit env (Message.order_preparing order.id))

unfoldable pub mark_as_ready : Env → ℕ → ℕ → Exec (Unit {0})
unfolding advance
mark_as_ready env owner_id order_id = do
  order ←
      advance owner_id order_id OrderStatus.preparing OrderStatus.ready Action.owner_marked_ready
  notify (Message.socket_order_updated order.id order.status)
  attempt (emit env (Message.order_ready order.id))

-- The order is saved as completed before its points are awarded, in one transaction.
complete_order : Env → ℕ → ℕ → Exec (Order × ℕ)
complete_order env owner_id order_id = transaction (do
  order ← find_owned owner_id order_id
  require (has_status order.status OrderStatus.ready) Error.wrong_status
  save_order (set_status order OrderStatus.completed)
  save_event (event order.id owner_id Action.order_completed)
  points ← add_points_for_completed_order env (set_status order OrderStatus.completed)
  pure (set_status order OrderStatus.completed, points))

announce_points : Env → Order → ℕ → Exec (Unit {0})
announce_points env order points =
    if ltb 0 points
    then attempt (emit env (Message.reward_points_earned order.customer_id points order.id))
    else pure tt

unfoldable pub mark_as_complete : Env → ℕ → ℕ → Exec (Unit {0})
unfolding complete_order announce_points
mark_as_complete env owner_id order_id = do
  result ← complete_order env owner_id order_id
  notify (Message.socket_order_updated result.0.id result.0.status)
  attempt (emit env (Message.order_completed result.0.id))
  announce_points env result.0 result.1

unfoldable pub mark_customer_coming : ℕ → ℕ → Exec (Unit {0})
mark_customer_coming customer_id order_id = do
  order ← find_order order_id
  require (order.customer_id == customer_id) Error.not_your_order
  save_order (set_status order OrderStatus.customer_coming)
  save_event (event order.id customer_id Action.customer_coming)
  notify (Message.socket_order_updated order.id OrderStatus.customer_coming)

unfoldable pub is_cancellable : OrderStatus → Bool
unfolding has_status
is_cancellable s =
    has_status s OrderStatus.pending
    || has_status s OrderStatus.awaiting_payment
    || has_status s OrderStatus.accepted
    || has_status s OrderStatus.scheduled

cancel_in_transaction : ℕ → ℕ → Exec Order
cancel_in_transaction customer_id order_id = transaction (do
  order ← find_order order_id
  require (order.customer_id == customer_id) Error.not_your_order
  require (not (is_paid order.payment_status)) Error.already_paid
  require (is_cancellable order.status) Error.wrong_status
  save_order (set_status order OrderStatus.cancelled)
  if order.is_scheduled then delete_job order.id else pure tt
  save_event (event order.id customer_id Action.customer_cancelled)
  pure (set_status order OrderStatus.cancelled))

unfoldable pub cancel_order : Env → ℕ → ℕ → Exec (Unit {0})
unfolding cancel_in_transaction
cancel_order env customer_id order_id = do
  order ← cancel_in_transaction customer_id order_id
  notify (Message.socket_order_updated order.id order.status)
  attempt (emit env (Message.order_cancelled order.id))

abbrev belongs_to : ℕ → Option ℕ → Bool
belongs_to restaurant_id none = false
belongs_to restaurant_id (some r) = r == restaurant_id

unfoldable pub toggle_menu_availability : ℕ → ℕ → ℕ → Bool → Exec Bool
toggle_menu_availability owner_id restaurant_id menu_item_id is_available = do
  found ← read (λ db. db.restaurants restaurant_id)
  r ← or_throw found Error.restaurant_not_found
  require (r.owner_id == owner_id) Error.not_authorized
  item_found ← read (λ db. db.menu_items menu_item_id)
  menu ← or_throw item_found Error.menu_item_not_found
  require (belongs_to restaurant_id menu.restaurant_id) Error.menu_item_not_found
  save_menu_item (record menu { is_available = is_available })
  save_event (record {
    order_id = none;
    actor_id = some owner_id;
    action = Action.menu_availability_updated;
  })
  pure is_available
