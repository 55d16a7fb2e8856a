-- ===== src/Pickup.antt =====
-- catalog-service/src/modules/order/order-pickup.service.ts: the code and token that a customer
-- shows to collect an order. The random code is an argument. Signing and checking of tokens, by the
-- jsonwebtoken package under the secret of the service, is the parameter `Tokens`.
pub mod Attempts
pub mod Issue
mod Tests
use meal_delivery.Prelude.{
  ℕ, ◌+◌, ◌*◌, Bool, true, false, not, ◌&&◌, Option, none, some, [], ◌∷◌, Text, text_eq, ltb, leb,
  ◌==◌, if◌then◌else◌,
}
use meal_delivery.Entities.{Order, OrderPickup, PaymentStatus}
use meal_delivery.World.{
  Env, World, Error, Exec, Result, ok, err, pure, throw, or_throw, read, require, save_pickup,
  ◌>>=◌, ◌>>◌,
}

-- `sign order code ttl` at a time in seconds, and `check now token` with the order of the payload.
pub record Tokens : Type 0 where
  pub sign : ℕ → ℕ → Text → ℕ → Text
  pub check : ℕ → Text → Option ℕ

abbrev is_paid : PaymentStatus → Bool
is_paid PaymentStatus.paid = true
is_paid _ = false

-- `rec.expires_at && rec.expires_at > now`
abbrev lives_at : ℕ → Option ℕ → Bool
lives_at now none = false
lives_at now (some t) = ltb now t

pub is_active : ℕ → OrderPickup → Bool
is_active now p = not p.verified && lives_at now p.expires_at

abbrev pub new_pickup : Tokens → Env → ℕ → Text → ℕ → ℕ → OrderPickup
new_pickup tokens env order_id code expiry_minutes max_attempts = record {
  order_id = order_id;
  pickup_code_hash = code;
  pickup_token = some (tokens.sign env.now order_id code (expiry_minutes * 60));
  expires_at = some (env.now + expiry_minutes * 60 * 1000);
  verified = false;
  verified_by = none;
  verified_at = none;
  attempts_count = 0;
  max_attempts = max_attempts;
  last_attempt_at = none;
}

-- The insert meets the unique index on `order_id`; the row that is there is returned then.
insert_or_existing : OrderPickup → Option OrderPickup → Exec OrderPickup
insert_or_existing new none = do save_pickup new; pure new
insert_or_existing new (some existing) = pure existing

unfoldable pub reuse_or_insert : Env → OrderPickup → Option OrderPickup → Exec OrderPickup
unfolding insert_or_existing
reuse_or_insert env new none = insert_or_existing new none
reuse_or_insert env new (some p) =
    if is_active env.now p then pure p else insert_or_existing new (some p)

unfoldable pub issue_pickup_for_order : Tokens → Env → ℕ → Text → ℕ → ℕ → Exec OrderPickup
unfolding reuse_or_insert
issue_pickup_for_order tokens env order_id code expiry_minutes max_attempts = do
  found ← read (λ db. db.orders order_id)
  order ← or_throw found Error.order_not_found
  require (is_paid order.payment_status) Error.order_not_paid
  existing ← read (λ db. db.pickups order_id)
  reuse_or_insert env (new_pickup tokens env order_id code expiry_minutes max_attempts) existing

unfoldable pub get_or_issue_pickup_for_customer :
    Tokens → Env → ℕ → ℕ → Text → ℕ → ℕ → Exec OrderPickup
unfolding issue_pickup_for_order
get_or_issue_pickup_for_customer tokens env order_id customer_id code expiry_minutes max_attempts =
    do
      found ← read (λ db. db.orders order_id)
      order ← or_throw found Error.order_not_found
      require (order.customer_id == customer_id) Error.not_your_order
      issue_pickup_for_order tokens env order_id code expiry_minutes max_attempts

-- What the owner types in. An empty text is falsy, as is a missing one.
pub record Opts : Type 0 where
  pub code : Option Text
  pub token : Option Text

pub data Shown : Type 0 where
  by_token by_code : Text → Shown
  nothing : Shown

code_shown : Option Text → Shown
code_shown (some (c ∷ s)) = by_code (c ∷ s)
code_shown _ = nothing

pub shown : Option Text → Option Text → Shown
unfolding code_shown
shown (some (c ∷ s)) code = by_token (c ∷ s)
shown _ code = code_shown code

abbrev pub bump : Env → OrderPickup → OrderPickup
bump env p = record p { attempts_count = p.attempts_count + 1; last_attempt_at = some env.now }

pub fail_attempt : Env → OrderPickup → Error → Exec (Unit {0})
fail_attempt env p e = do save_pickup (bump env p); throw e

check_token : Env → ℕ → OrderPickup → Option ℕ → Exec (Unit {0})
unfolding fail_attempt
check_token env order_id p none = fail_attempt env p Error.invalid_token
check_token env order_id p (some o) =
    if o == order_id then pure tt else fail_attempt env p Error.token_of_other_order

-- `stored && stored === code`
pub matches : Text → Text → Bool
matches [] code = false
matches (c ∷ s) code = text_eq (c ∷ s) code

check_code : Env → OrderPickup → Text → Exec (Unit {0})
unfolding fail_attempt
check_code env p code =
    if matches p.pickup_code_hash code
    then pure tt
    else fail_attempt env p (
        if leb p.max_attempts (p.attempts_count + 1)
        then Error.too_many_attempts
        else Error.invalid_code)

check_shown : Tokens → Env → ℕ → OrderPickup → Shown → Exec (Unit {0})
unfolding check_token check_code
check_shown tokens env order_id p (by_token t) = check_token env order_id p (tokens.check env.now t)
check_shown tokens env order_id p (by_code c) = check_code env p c
check_shown tokens env order_id p nothing = throw Error.code_or_token_required

abbrev pub is_past : ℕ → Option ℕ → Bool
is_past now none = false
is_past now (some t) = ltb t now

abbrev pub mark_verified : Env → ℕ → OrderPickup → OrderPickup
mark_verified env actor_id p = record p {
  verified = true;
  verified_by = some actor_id;
  verified_at = some env.now;
  last_attempt_at = some env.now;
}

pub verify_shown : Tokens → Env → ℕ → ℕ → ℕ → Shown → Exec OrderPickup
unfolding check_shown
verify_shown tokens env order_id actor_id restaurant_id proof = do
  found ← read (λ db. db.orders order_id)
  order ← or_throw found Error.order_not_found
  require (order.restaurant_id == restaurant_id) Error.forbidden
  record_found ← read (λ db. db.pickups order_id)
  p ← or_throw record_found Error.pickup_not_found
  require (not p.verified) Error.already_verified
  require (not (is_past env.now p.expires_at)) Error.pickup_expired
  require (ltb p.attempts_count p.max_attempts) Error.too_many_attempts
  check_shown tokens env order_id p proof
  save_pickup (mark_verified env actor_id p)
  pure (mark_verified env actor_id p)

unfoldable pub verify_pickup_as_owner : Tokens → Env → ℕ → ℕ → ℕ → Opts → Exec OrderPickup
unfolding verify_shown shown
verify_pickup_as_owner tokens env order_id actor_id restaurant_id opts =
    verify_shown tokens env order_id actor_id restaurant_id (shown opts.token opts.code)
