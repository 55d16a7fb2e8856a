-- ===== src/Rewards/Tests.antt =====
-- Concrete points.
use meal_delivery.Prelude.{ℕ, ◌≡◌, ◌≢◌, refl, true, false, none, some, List, [], ◌∷◌, arith}
use meal_delivery.Prelude.Int.{pos, negsuc}
use meal_delivery.Entities.{RewardPointsBalance, RewardRule, redemption}
use meal_delivery.World.{World, ok}
use meal_delivery.Rewards.{
  get_active_rule, find_active_rule, process_redemption, find_rule, has_id, delete_rule,
  UpdateRewardRule,
}
use meal_delivery.Rewards.Balances.{
  PointsCall, complete, redeem, adjust, perform_all, NonNegative, IsBalanced,
  perform_all-NonNegative, ledger_sum,
}
use meal_delivery.Fixtures.{env, paid_order, empty_db, world_of, one_row}

-- A point is worth two cents, for at most half of the order.
abbrev two_cents : RewardRule
two_cents = record {
  id = 1;
  rule_name = b'r' ∷ [];
  type = redemption;
  conversion_rate = 200;
  min_order_value = 0;
  max_redeem_percentage = 50;
  is_active = true;
  start_date = none;
  end_date = none;
}

abbrev same_again : RewardRule
same_again = record two_cents { id = 2 }

abbrev purse : RewardPointsBalance
purse = record { customer_id = 10; total_points = pos 30 }

abbrev saved : World
saved =
    world_of (record empty_db { balances = one_row purse 10; rules = two_cents ∷ same_again ∷ [] })

active : (get_active_rule env redemption saved).0 ≡ ok (some two_cents)
unfolding get_active_rule find_active_rule
active = refl

redeemed : (process_redemption env 10 20 1000 saved).0 ≡ ok 4000
unfolding process_redemption get_active_rule find_active_rule
redeemed = refl

saved-NonNegative : NonNegative saved.db
saved-NonNegative c = ground arith

abbrev moves : List PointsCall
moves = complete paid_order ∷ redeem 10 20 1000 ∷ adjust 10 (negsuc 99) ∷ []

perform_all-NonNegative_example : NonNegative (perform_all env moves saved).db
perform_all-NonNegative_example = perform_all-NonNegative env moves saved saved-NonNegative

abbrev fresh : World
fresh = world_of empty_db

fresh-IsBalanced : IsBalanced fresh.db
unfolding ledger_sum
fresh-IsBalanced = record { own = λ c. tt; sums = λ c. refl }

abbrev gift : PointsCall
gift = adjust 10 (pos 5)

gift_is_no_redemption : (k points total : ℕ) → gift ≢ redeem k points total
gift_is_no_redemption k points total h = ground arith

first_found : find_rule (has_id 1) saved.db.rules ≡ some two_cents
unfolding find_rule
first_found = refl

next_served : (get_active_rule env redemption (delete_rule 1 saved).1).0 ≡ ok (some same_again)
unfolding get_active_rule find_active_rule delete_rule
next_served = refl

abbrev warm : World
warm = record saved { cached_rules = λ t. some two_cents }

abbrev switch_off : UpdateRewardRule
switch_off = record {
  rule_name = none;
  type = none;
  conversion_rate = none;
  min_order_value = none;
  max_redeem_percentage = none;
  is_active = some false;
  start_date = none;
  end_date = none;
}
