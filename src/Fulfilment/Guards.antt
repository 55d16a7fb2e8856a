-- ===== src/Fulfilment/Guards.antt =====
-- order.service.ts: who may change an order, and what a refused call leaves behind.
use meal_delivery.Prelude.{
  ℕ, ◌≡◌, Bool, true, false, none, some, arith, ◌==◌, Option-cases, inl, inr, if◌then◌else◌,
}
use meal_delivery.Entities.{Order}
use meal_delivery.World.{Env, World, Db, Error, ok, err}
use meal_delivery.Rewards.{get_active_rule, add_points_for_completed_order}
use meal_delivery.Fulfilment.{
  owner_response, mark_order_preparing, mark_as_ready, mark_as_complete, mark_customer_coming,
  cancel_order, is_paid, owned_by, set_status,
}
use meal_delivery.Fulfilment.Edges.{
  OrdersKeyed, Call, respond, prepare, finish, complete, cancel, come, perform, starts, ends,
}

-- A paid order cannot be cancelled, by anyone: the call is refused, and nothing is written or sent.
pub paid_order_is_not_cancelled :
    (env : Env) (customer_id order_id : ℕ) (w : World) (o : Order)
    → w.db.orders order_id ≡ some o
    → is_paid o.payment_status ≡ true
    → cancel_order env customer_id order_id w
      ≡ (err (if o.customer_id == customer_id then Error.already_paid else Error.not_your_order), w)
unfolding cancel_order
paid_order_is_not_cancelled env customer_id order_id w o found paid = ground arith

-- A call that is refused leaves the database as it was.
pub refused_call_changes_nothing :
    (env : Env) (c : Call) (actor order_id : ℕ) (e : Error) (w : World)
    → (perform env c actor order_id w).0 ≡ err e
    → (perform env c actor order_id w).1.db ≡ w.db
unfolding perform owner_response mark_order_preparing mark_as_ready mark_as_complete
    mark_customer_coming cancel_order
refused_call_changes_nothing env (respond true) actor order_id e w h = ground arith
refused_call_changes_nothing env (respond false) actor order_id e w h = ground arith
refused_call_changes_nothing env prepare actor order_id e w h = ground arith
refused_call_changes_nothing env finish actor order_id e w h = ground arith
refused_call_changes_nothing env complete actor order_id e w h = ground arith
refused_call_changes_nothing env cancel actor order_id e w h = ground arith
refused_call_changes_nothing env come actor order_id e w h = ground arith

-- Who may make a call for an order: its customer may cancel it or come for it, and the owner of its
-- restaurant makes the others.
unfoldable pub may_call : Db → Call → ℕ → Order → Bool
may_call db cancel actor o = o.customer_id == actor
may_call db come actor o = o.customer_id == actor
may_call db _ actor o = owned_by actor (db.restaurants o.restaurant_id)

abbrev IsAccepted : World → World → Call → ℕ → ℕ → Order → Type 0
IsAccepted w w' c actor order_id o =
    (may_call w.db c actor o ≡ true)
    × (starts c o.status ≡ true)
    × (w'.db.orders order_id ≡ some (set_status o (ends c)))

call_on_order :
    (env : Env) (c : Call) (actor order_id : ℕ) (o : Order) (w : World)
    → w.db.orders order_id ≡ some o
    → o.id ≡ order_id
    → (perform env c actor order_id w).0 ≡ ok tt
    → IsAccepted w (perform env c actor order_id w).1 c actor order_id o
unfolding perform owner_response mark_order_preparing mark_as_ready mark_as_complete
    mark_customer_coming cancel_order add_points_for_completed_order get_active_rule may_call starts
    ends
call_on_order env (respond true) actor order_id o w found own h = ground arith
call_on_order env (respond false) actor order_id o w found own h = ground arith
call_on_order env prepare actor order_id o w found own h = ground arith
call_on_order env finish actor order_id o w found own h = ground arith
call_on_order env complete actor order_id o w found own h = ground arith
call_on_order env cancel actor order_id o w found own h = ground arith
call_on_order env come actor order_id o w found own h = ground arith

no_order :
    (env : Env) (c : Call) (actor order_id : ℕ) (w : World)
    → w.db.orders order_id ≡ none
    → (perform env c actor order_id w).0 ≡ err Error.order_not_found
unfolding perform owner_response mark_order_preparing mark_as_ready mark_as_complete
    mark_customer_coming cancel_order
no_order env (respond b) actor order_id w h = ground arith
no_order env prepare actor order_id w h = ground arith
no_order env finish actor order_id w h = ground arith
no_order env complete actor order_id w h = ground arith
no_order env cancel actor order_id w h = ground arith
no_order env come actor order_id w h = ground arith

-- Where each order is found under its own id, a call succeeds for its order only if the order is
-- there, its caller is the one who may make it and the order has a status that it starts from; the
-- order then has the status that it ends in, and is otherwise as it was.
pub accepted_call :
    (env : Env) (c : Call) (actor order_id : ℕ) (w : World)
    → OrdersKeyed w.db
    → (perform env c actor order_id w).0 ≡ ok tt
    → let w' = (perform env c actor order_id w).1 in
      (o : Order) × (w.db.orders order_id ≡ some o)
      × (may_call w.db c actor o ≡ true)
      × (starts c o.status ≡ true)
      × (w'.db.orders order_id ≡ some (set_status o (ends c)))
accepted_call env c actor order_id w keyed h = elim (Option-cases (w.db.orders order_id)) [
  | inl e ↦ ground (arith, no_order env c actor order_id w e)
  | inr (o, e) ↦
      let own : o.id ≡ order_id = ground (arith, keyed order_id) in
      let (may, start, moved) = call_on_order env c actor order_id o w e own h in
      (o, e, may, start, moved)
]
