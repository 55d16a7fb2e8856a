-- ===== src/Payments.antt =====
-- catalog-service/src/modules/order/order.service.ts: what the payment service reports about an
-- order. A report is a message of several shapes; its fields are those that the code looks at, and a
-- status that is no string is the empty text.
pub mod Results
pub mod Masks
mod Tests
use meal_delivery.Prelude.{
  ℕ, ◌+◌, ◌≤◌, Bool, true, false, not, ◌&&◌, ◌||◌, Option, none, some, List, [], ◌∷◌, ◌++◌, Text,
  text_eq, map, length, ltb, leb, ◌==◌, or_else, if◌then◌else◌,
}
use meal_delivery.Entities.{
  Order, OrderStatus, PaymentStatus, OrderEvent, OrderPickup, Action, Message, cancel_unpaid_order,
}
use meal_delivery.World.{
  Env, World, Error, Exec, Result, ok, err, pure, read, attempt, notify, emit, save_order,
  save_event, ◌>>=◌, ◌>>◌,
}
use meal_delivery.Pickup.{Tokens, issue_pickup_for_order}
use meal_delivery.Fulfilment.{delete_job_of_type}

pub record Initiated : Type 0 where
  pub order_id : Option ℕ
  pub tx_ref : Option Text
  pub checkout_url : Option Text
  pub expires_at : Option ℕ

abbrev truthy : Option Text → Bool
truthy (some (c ∷ s)) = true
truthy _ = false

abbrev still_open : ℕ → Option ℕ → Bool
still_open now none = false
still_open now (some t) = ltb now t

-- A checkout of the order is under way.
pub has_open_checkout : Env → Order → Bool
has_open_checkout env o = truthy o.tx_ref && still_open env.now o.payment_expires_at

abbrev pub initiate : Initiated → Order → Order
initiate p o = record o {
  payment_status = PaymentStatus.initiated;
  tx_ref = or_else p.tx_ref o.tx_ref;
  checkout_url = or_else p.checkout_url o.checkout_url;
  payment_expires_at = or_else p.expires_at o.payment_expires_at;
}

abbrev pub system_event : ℕ → Action → OrderEvent
system_event order_id action = record { order_id = some order_id; actor_id = none; action = action }

begin_payment : Env → Initiated → Order → Exec (Unit {0})
begin_payment env p o =
    if has_open_checkout env o
    then pure tt
    else (do save_order (initiate p o); save_event (system_event o.id Action.payment_initiated))

initiated_order : Env → Initiated → Option Order → Exec (Unit {0})
unfolding begin_payment
initiated_order env p none = pure tt
initiated_order env p (some o) = do
  begin_payment env p o
  notify (Message.socket_order_updated o.id o.status)

abbrev pub find_by_id :
    ((ℕ → Option Order) → Option Order) → (ℕ → Option Order) → Option ℕ → Option Order
find_by_id unconditioned orders none = unconditioned orders
find_by_id unconditioned orders (some id) = orders id

-- With no `order_id` in the message, the query has no condition: what it finds then is the argument
-- `unconditioned`.
unfoldable pub handle_payment_initiated :
    Env → ((ℕ → Option Order) → Option Order) → Initiated → Exec (Unit {0})
unfolding initiated_order
handle_payment_initiated env unconditioned p = do
  found ← read (λ db. find_by_id unconditioned db.orders p.order_id)
  initiated_order env p found

pub record PaymentReport : Type 0 where
  pub order_id : ℕ
  pub verified_status : Option Text
  pub data_status : Option Text
  pub status : Option Text
  pub payment_status : Option Text
  pub verified_reference : Option Text
  pub transaction_reference : Option Text
  pub payment_reference : Option Text
  pub reference : Option Text
  pub verified_paid_at : Option ℕ
  pub data_created_at : Option ℕ

-- `toLowerCase`, in ASCII.
unfoldable pub to_lower : ℕ → ℕ
to_lower c = if leb b'A' c && leb c b'Z' then c + 32 else c

abbrev success_text : Text
success_text = b's' ∷ b'u' ∷ b'c' ∷ b'c' ∷ b'e' ∷ b's' ∷ b's' ∷ []

abbrev paid_text : Text
paid_text = b'p' ∷ b'a' ∷ b'i' ∷ b'd' ∷ []

-- The list of the code also has `PAID` and `SUCCESS`, which no lower-case text equals.
names_success : Text → Bool
unfolding to_lower
names_success s = text_eq (map to_lower s) success_text || text_eq (map to_lower s) paid_text

succeeds : Option Text → Bool
unfolding names_success
succeeds none = false
succeeds (some s) = names_success s

unfoldable pub is_success : PaymentReport → Bool
unfolding succeeds
is_success p =
    succeeds (or_else p.verified_status (or_else p.data_status (or_else p.status p.payment_status)))

abbrev pub confirm : Env → PaymentReport → Order → Order
confirm env p o = record o {
  status = OrderStatus.paid;
  payment_status = PaymentStatus.paid;
  payment_reference =
      or_else p.verified_reference
        (or_else p.transaction_reference (or_else p.payment_reference p.reference));
  paid_at = or_else p.verified_paid_at (or_else p.data_created_at (some env.now));
}

abbrev pub refuse : Order → Order
refuse o = record o { status = OrderStatus.declined; payment_status = PaymentStatus.failed }

announce_code : Env → ℕ → Text → Exec (Unit {0})
announce_code env order_id [] = pure tt
announce_code env order_id (c ∷ s) = attempt (emit env (Message.order_paid_with_pickup order_id))

issue_and_announce : Tokens → Env → Text → Order → Exec (Unit {0})
unfolding announce_code issue_pickup_for_order
issue_and_announce tokens env code o = do
  p ← issue_pickup_for_order tokens env o.id code 30 5
  notify (Message.socket_pickup_created o.id)
  attempt (emit env (Message.order_pickup_created o.id))
  announce_code env o.id p.pickup_code_hash

confirm_payment : Tokens → Env → Text → PaymentReport → Order → Exec (Unit {0})
unfolding issue_and_announce
confirm_payment tokens env code p o = do
  delete_job_of_type o.id cancel_unpaid_order
  save_order (confirm env p o)
  save_event (system_event o.id Action.payment_confirmed)
  attempt (emit env (Message.order_paid o.id))
  notify (Message.socket_order_updated o.id OrderStatus.paid)
  attempt (issue_and_announce tokens env code (confirm env p o))

refuse_payment : Order → Exec (Unit {0})
refuse_payment o = do
  save_order (refuse o)
  save_event (system_event o.id Action.payment_failed)
  notify (Message.socket_order_updated o.id OrderStatus.declined)

reported_order : Tokens → Env → Text → PaymentReport → Option Order → Exec (Unit {0})
unfolding confirm_payment refuse_payment
reported_order tokens env code p none = pure tt
reported_order tokens env code p (some o) =
    if is_success p then confirm_payment tokens env code p o else refuse_payment o

-- `code` is the random pickup code, should one be needed.
unfoldable pub handle_payment_result : Tokens → Env → Text → PaymentReport → Exec (Unit {0})
unfolding reported_order
handle_payment_result tokens env code p = do
  found ← read (λ db. db.orders p.order_id)
  reported_order tokens env code p found

pub is_digit : ℕ → Bool
is_digit c = leb b'0' c && leb c b'9'

-- `s.replace(/\d(?=\d{2})/g, '*')`
pub mask_digits : Text → Text
unfolding is_digit
mask_digits (a ∷ b ∷ c ∷ s) =
    (if is_digit a && (is_digit b && is_digit c) then b'*' else a) ∷ mask_digits (b ∷ c ∷ s)
mask_digits s = s

-- `'*'.repeat(length - 1) + last`
pub mask_short : Text → Text
mask_short (a ∷ b ∷ s) = b'*' ∷ mask_short (b ∷ s)
mask_short s = s

pub mask_pickup_code : Text → Text
unfolding mask_digits mask_short
mask_pickup_code s = if leb (length s) 4 then mask_short s else mask_digits s
