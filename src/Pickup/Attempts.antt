-- ===== src/Pickup/Attempts.antt =====
-- order-pickup.service.ts: who gets an order, and how often a code may be guessed.
use meal_delivery.Prelude.{
  ℕ, suc, ◌+◌, ◌≤◌, ◌<◌, ◌≡◌, ◌≢◌, ◌⊎◌, refl, true, false, Option, none, some, List, [], ◌∷◌, Text,
  text_eq_sound, length, ltb, if◌then◌else◌, arith, inr,
}
use meal_delivery.Entities.{Order, OrderPickup}
use meal_delivery.World.{Env, World, Db, Error, ok, err}
use meal_delivery.Pickup.{
  Tokens, Opts, Shown, by_token, by_code, nothing, shown, matches, is_past, bump, verify_shown,
  issue_pickup_for_order, verify_pickup_as_owner,
}

abbrev HasRoom : Option OrderPickup → Type 0
HasRoom none = Unit
HasRoom (some p) = p.attempts_count ≤ p.max_attempts

-- No pickup has been tried more often than it may be.
abbrev pub WithinAttempts : Db → Type 0
WithinAttempts db = (o : ℕ) → HasRoom (db.pickups o)

-- If no pickup has been tried more often than it may be, then none has after issuing a pickup or
-- trying to verify one, successfully or not.
pub attempts_stay_within_limit :
    (tokens : Tokens) (env : Env) (order_id actor_id restaurant_id minutes most : ℕ) (code : Text)
    (opts : Opts) (w : World)
    → WithinAttempts w.db
    → WithinAttempts (verify_pickup_as_owner tokens env order_id actor_id restaurant_id opts w).1.db
      × WithinAttempts (issue_pickup_for_order tokens env order_id code minutes most w).1.db
unfolding verify_pickup_as_owner issue_pickup_for_order
attempts_stay_within_limit tokens env order_id actor_id restaurant_id minutes most code opts w h =
    (λ o. ground (arith, h o, h order_id), λ o. ground (arith, h o, h order_id))

-- The proof that is shown opens the pickup.
abbrev pub Opens : Tokens → Env → ℕ → OrderPickup → Shown → Type 0
Opens tokens env order_id p (by_token t) = tokens.check env.now t ≡ some order_id
Opens tokens env order_id p (by_code c) = p.pickup_code_hash ≡ c
Opens tokens env order_id p nothing = ⊥

matches_sound : (stored code : Text) → matches stored code ≡ true → stored ≡ code
unfolding matches
matches_sound [] code h = cc
matches_sound (c ∷ s) code h = text_eq_sound (c ∷ s) code h

verify_shown-Opens :
    (tokens : Tokens) (env : Env) (order_id actor_id restaurant_id : ℕ) (proof : Shown) (w : World)
    (p q : OrderPickup) (o : Order)
    → w.db.pickups order_id ≡ some p
    → w.db.orders order_id ≡ some o
    → (verify_shown tokens env order_id actor_id restaurant_id proof w).0 ≡ ok q
    → (p.verified ≡ false)
      × (p.attempts_count < p.max_attempts)
      × (o.restaurant_id ≡ restaurant_id)
      × Opens tokens env order_id p proof
unfolding verify_shown
verify_shown-Opens tokens env order_id actor_id restaurant_id (by_token t) w p q o fp fo h =
    ground arith
verify_shown-Opens tokens env order_id actor_id restaurant_id (by_code c) w p q o fp fo h =
    ground (arith, matches_sound p.pickup_code_hash c)
verify_shown-Opens tokens env order_id actor_id restaurant_id nothing w p q o fp fo h = ground arith

-- A pickup that is there, of an order that is there, is verified only while it is unverified and
-- below its limit of attempts, for an order of the restaurant that asks, and by a token for that
-- very order or by the stored code.
pub verified_only_by_proof :
    (tokens : Tokens) (env : Env) (order_id actor_id restaurant_id : ℕ) (opts : Opts) (w : World)
    (p q : OrderPickup) (o : Order)
    → w.db.pickups order_id ≡ some p
    → w.db.orders order_id ≡ some o
    → (verify_pickup_as_owner tokens env order_id actor_id restaurant_id opts w).0 ≡ ok q
    → (p.verified ≡ false)
      × (p.attempts_count < p.max_attempts)
      × (o.restaurant_id ≡ restaurant_id)
      × Opens tokens env order_id p (shown opts.token opts.code)
unfolding verify_pickup_as_owner
verified_only_by_proof tokens env order_id actor_id restaurant_id opts w p q o fp fo h =
    verify_shown-Opens tokens env order_id actor_id restaurant_id _ w p q o fp fo h

-- A pickup, found under its order, is good for one collection: once it is verified, every later
-- attempt fails and changes nothing.
pub verified_once :
    (tokens : Tokens) (env later : Env) (order_id actor_id restaurant_id : ℕ) (opts again : Opts)
    (w : World) (p q : OrderPickup)
    → w.db.pickups order_id ≡ some p
    → p.order_id ≡ order_id
    → (verify_pickup_as_owner tokens env order_id actor_id restaurant_id opts w).0 ≡ ok q
    → let w' = (verify_pickup_as_owner tokens env order_id actor_id restaurant_id opts w).1 in
      verify_pickup_as_owner tokens later order_id actor_id restaurant_id again w'
      ≡ (err Error.already_verified, w')
unfolding verify_pickup_as_owner
verified_once tokens env later order_id actor_id restaurant_id opts again w p q fp own h =
    ground arith

-- Wrong guesses of a code, one after the other.
pub guess_all : Tokens → Env → ℕ → ℕ → ℕ → List Text → World → World
guess_all tokens env order_id actor_id restaurant_id [] w = w
guess_all tokens env order_id actor_id restaurant_id (g ∷ gs) w =
    guess_all tokens env order_id actor_id restaurant_id gs
      (verify_shown tokens env order_id actor_id restaurant_id (by_code g) w).1

abbrev pub AllWrong : Text → List Text → Type 0
AllWrong code [] = Unit
AllWrong code (g ∷ gs) = (code ≢ g) × AllWrong code gs

module _ (tokens : Tokens) (env : Env) (order_id actor_id restaurant_id : ℕ) (code : Text) where
  abbrev after_guess : OrderPickup → OrderPickup
  after_guess p =
      if is_past env.now p.expires_at
      then p
      else if ltb p.attempts_count p.max_attempts
      then bump env p
      else p

  -- The pickup has the code, and has expired or leaves at most `k` attempts.
  record Guarded (k : ℕ) (w : World) (o : Order) (p : OrderPickup) : Type 0 where
    order_here : w.db.orders order_id ≡ some o
    pickup_here : w.db.pickups order_id ≡ some p
    own : p.order_id ≡ order_id
    same_code : p.pickup_code_hash ≡ code
    unverified : p.verified ≡ false
    few : (is_past env.now p.expires_at ≡ true) ⊎ (p.max_attempts ≤ p.attempts_count + k)

  guess-Guarded :
      (k : ℕ) (g : Text) (w : World) (o : Order) (p : OrderPickup)
      → code ≢ g
      → o.restaurant_id ≡ restaurant_id
      → Guarded (suc k) w o p
      → Guarded k
          (verify_shown tokens env order_id actor_id restaurant_id (by_code g) w).1
          o
          (after_guess p)
  unfolding verify_shown
  guess-Guarded k g w o p wrong ours h = ground (arith, matches_sound p.pickup_code_hash g)

  guess_all-Guarded :
      (gs : List Text) (w : World) (o : Order) (p : OrderPickup)
      → AllWrong code gs
      → o.restaurant_id ≡ restaurant_id
      → Guarded (length gs) w o p
      → (q : OrderPickup) × Guarded 0
          (guess_all tokens env order_id actor_id restaurant_id gs w)
          o
          q
  unfolding guess_all
  guess_all-Guarded [] w o p wrong ours h = (p, h)
  guess_all-Guarded (g ∷ gs) w o p wrong ours h =
      guess_all-Guarded gs _ o _ wrong.1 ours (guess-Guarded (length gs) g w o p wrong.0 ours h)

-- Guessing the code of an unverified pickup stops: after as many wrong guesses by the restaurant of
-- the order as attempts were left, no code opens the pickup any more, not even the right one.
pub guessing_is_limited :
    (tokens : Tokens) (env : Env) (order_id actor_id : ℕ) (gs : List Text) (last : Text) (w : World)
    (o : Order) (p q : OrderPickup)
    → w.db.orders order_id ≡ some o
    → w.db.pickups order_id ≡ some p
    → p.order_id ≡ order_id
    → p.verified ≡ false
    → AllWrong p.pickup_code_hash gs
    → p.max_attempts ≤ p.attempts_count + length gs
    → (verify_shown tokens env order_id actor_id o.restaurant_id
        (by_code last)
        (guess_all tokens env order_id actor_id o.restaurant_id gs w)).0
      ≢ ok q
unfolding verify_shown
guessing_is_limited tokens env order_id actor_id gs last w o p q fo fp own fresh wrong few =
    let (r, left) =
      guess_all-Guarded tokens env order_id actor_id o.restaurant_id p.pickup_code_hash gs w o p
        wrong refl
        (record {
          order_here = fo;
          pickup_here = fp;
          own = own;
          same_code = refl;
          unverified = fresh;
          few = inr few;
        }) in
    λ opened. ground arith
