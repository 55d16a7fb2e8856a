-- ===== src/Pickup/Tests.antt =====
-- Concrete pickups.
use meal_delivery.Prelude.{◌≡◌, ◌≢◌, refl, true, false, none, some, [], ◌∷◌, Text, arith}
use meal_delivery.Entities.{OrderPickup}
use meal_delivery.World.{Env, World, ok}
use meal_delivery.Pickup.{
  Opts, by_code, matches, is_active, new_pickup, mark_verified, verify_shown,
  verify_pickup_as_owner, issue_pickup_for_order,
}
use meal_delivery.Pickup.Attempts.{WithinAttempts, guess_all, guessing_is_limited}
use meal_delivery.Fixtures.{
  env, tokens, paid_order, pickup, empty_db, world_of, world_with, one_row,
}

abbrev waiting : World
waiting = world_with paid_order

-- The paid order before it has a pickup.
abbrev unissued : World
unissued = world_of (record empty_db { orders = one_row paid_order 1 })

abbrev code : Text
code = b'4' ∷ b'2' ∷ []

abbrev typed : Opts
typed = record { code = some code; token = none }

abbrev taken : OrderPickup
taken = mark_verified env 70 pickup

opened : (verify_pickup_as_owner tokens env 1 70 7 typed waiting).0 ≡ ok taken
unfolding verify_pickup_as_owner matches
opened = refl

pickup-WithinAttempts : WithinAttempts waiting.db
pickup-WithinAttempts k = ground arith

guessing_is_limited_example :
    (verify_shown tokens env 1 70 paid_order.restaurant_id
      (by_code code)
      (guess_all tokens env 1 70 paid_order.restaurant_id ((b'9' ∷ []) ∷ []) waiting)).0
    ≢ ok taken
guessing_is_limited_example =
    guessing_is_limited tokens env 1 70 ((b'9' ∷ []) ∷ []) code waiting paid_order pickup taken refl
      refl refl refl (ground arith, tt) (omega arith)

abbrev issued : OrderPickup
issued = new_pickup tokens env 1 code 30 5

issued_now : (issue_pickup_for_order tokens env 1 code 30 5 unissued).0 ≡ ok issued
unfolding issue_pickup_for_order
issued_now = refl

still_active : is_active env.now issued ≡ true
unfolding is_active
still_active = refl

-- After the pickup has expired.
abbrev next_day : Env
next_day = record env { now = 90000000 }

expired_by_then : is_active next_day.now pickup ≡ false
unfolding is_active
expired_by_then = refl
