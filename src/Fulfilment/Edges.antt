-- ===== src/Fulfilment/Edges.antt =====
-- order.service.ts: the transitions between statuses that the restaurant and the customer make.
use meal_delivery.Prelude.{ℕ, ◌≡◌, ◌⊎◌, Bool, true, false, Option, none, some, arith}
use meal_delivery.Entities.{Order, OrderStatus}
use meal_delivery.World.{Env, World, Db, Exec}
use meal_delivery.Rewards.{get_active_rule, add_points_for_completed_order}
use meal_delivery.Fulfilment.{
  owner_response, mark_order_preparing, mark_as_ready, mark_as_complete, mark_customer_coming,
  cancel_order, set_status, has_status, is_cancellable,
}

abbrev pub IsKeyed : ℕ → Option Order → Type 0
IsKeyed k none = Unit
IsKeyed k (some o) = o.id ≡ k

-- Each order is found under its own id.
abbrev pub OrdersKeyed : Db → Type 0
OrdersKeyed db = (k : ℕ) → IsKeyed k (db.orders k)

-- What an operation has done to one order: nothing, or a step from one of the statuses `from` to the
-- status `to`, and nothing else.
abbrev pub Moves : (OrderStatus → Bool) → OrderStatus → Option Order → Option Order → Type 0
Moves from to none q = q ≡ none
Moves from to (some o) q = (q ≡ some o) ⊎ ((from o.status ≡ true) × (q ≡ some (set_status o to)))

cancel-Moves :
    (env : Env) (customer_id order_id j : ℕ) (w : World)
    → OrdersKeyed w.db
    → Moves is_cancellable OrderStatus.cancelled
        (w.db.orders j)
        ((cancel_order env customer_id order_id w).1.db.orders j)
unfolding cancel_order
cancel-Moves env customer_id order_id j w h = ground (arith, h order_id)

prepare-Moves :
    (env : Env) (owner_id order_id j : ℕ) (w : World)
    → OrdersKeyed w.db
    → Moves
        (λ s. has_status s OrderStatus.paid)
        OrderStatus.preparing
        (w.db.orders j)
        ((mark_order_preparing env owner_id order_id w).1.db.orders j)
unfolding mark_order_preparing
prepare-Moves env owner_id order_id j w h = ground (arith, h order_id)

ready-Moves :
    (env : Env) (owner_id order_id j : ℕ) (w : World)
    → OrdersKeyed w.db
    → Moves
        (λ s. has_status s OrderStatus.preparing)
        OrderStatus.ready
        (w.db.orders j)
        ((mark_as_ready env owner_id order_id w).1.db.orders j)
unfolding mark_as_ready
ready-Moves env owner_id order_id j w h = ground (arith, h order_id)

complete-Moves :
    (env : Env) (owner_id order_id j : ℕ) (w : World)
    → OrdersKeyed w.db
    → Moves
        (λ s. has_status s OrderStatus.ready)
        OrderStatus.completed
        (w.db.orders j)
        ((mark_as_complete env owner_id order_id w).1.db.orders j)
unfolding mark_as_complete add_points_for_completed_order get_active_rule
complete-Moves env owner_id order_id j w h = ground (arith, h order_id)

decline-Moves :
    (env : Env) (owner_id order_id j : ℕ) (w : World)
    → OrdersKeyed w.db
    → Moves
        (λ s. has_status s OrderStatus.scheduled)
        OrderStatus.declined
        (w.db.orders j)
        ((owner_response env owner_id order_id false w).1.db.orders j)
unfolding owner_response
decline-Moves env owner_id order_id j w h = ground (arith, h order_id)

accept-Moves :
    (env : Env) (owner_id order_id j : ℕ) (w : World)
    → OrdersKeyed w.db
    → Moves
        (λ s. has_status s OrderStatus.scheduled)
        OrderStatus.awaiting_payment
        (w.db.orders j)
        ((owner_response env owner_id order_id true w).1.db.orders j)
unfolding owner_response
accept-Moves env owner_id order_id j w h = ground (arith, h order_id)

come-Moves :
    (customer_id order_id j : ℕ) (w : World)
    → OrdersKeyed w.db
    → Moves
        (λ s. true)
        OrderStatus.customer_coming
        (w.db.orders j)
        ((mark_customer_coming customer_id order_id w).1.db.orders j)
unfolding mark_customer_coming
come-Moves customer_id order_id j w h = ground (arith, h order_id)

-- A call that asks for a step of an order: the owner's answer, the owner's next step, or what the
-- customer does.
pub data Call : Type 0 where
  respond : Bool → Call
  prepare finish complete cancel come : Call

unfoldable pub perform : Env → Call → ℕ → ℕ → Exec (Unit {0})
perform env (respond b) actor order_id = owner_response env actor order_id b
perform env prepare actor order_id = mark_order_preparing env actor order_id
perform env finish actor order_id = mark_as_ready env actor order_id
perform env complete actor order_id = mark_as_complete env actor order_id
perform env cancel actor order_id = cancel_order env actor order_id
perform env come actor order_id = mark_customer_coming actor order_id

-- The statuses from which a call takes an order.
unfoldable pub starts : Call → OrderStatus → Bool
starts (respond b) s = has_status s OrderStatus.scheduled
starts prepare s = has_status s OrderStatus.paid
starts finish s = has_status s OrderStatus.preparing
starts complete s = has_status s OrderStatus.ready
starts cancel s = is_cancellable s
starts come s = true

-- The status to which it takes it.
unfoldable pub ends : Call → OrderStatus
ends (respond true) = OrderStatus.awaiting_payment
ends (respond false) = OrderStatus.declined
ends prepare = OrderStatus.preparing
ends finish = OrderStatus.ready
ends complete = OrderStatus.completed
ends cancel = OrderStatus.cancelled
ends come = OrderStatus.customer_coming

-- Where each order is found under its own id: whatever the call, its caller and its order, no order
-- is made or lost, and one that is not as it was differs only in its status, which has taken the
-- step of that call.
pub calls_follow_the_lifecycle :
    (env : Env) (c : Call) (actor order_id j : ℕ) (w : World)
    → OrdersKeyed w.db
    → Moves (starts c) (ends c) (w.db.orders j) ((perform env c actor order_id w).1.db.orders j)
unfolding perform starts ends
calls_follow_the_lifecycle env (respond true) = accept-Moves env
calls_follow_the_lifecycle env (respond false) = decline-Moves env
calls_follow_the_lifecycle env prepare = prepare-Moves env
calls_follow_the_lifecycle env finish = ready-Moves env
calls_follow_the_lifecycle env complete = complete-Moves env
calls_follow_the_lifecycle env cancel = cancel-Moves env
calls_follow_the_lifecycle env come = λ actor order_id. come-Moves actor order_id
