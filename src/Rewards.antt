-- ===== src/Rewards.antt =====
-- catalog-service/src/modules/rewards/rewards.service.ts: reward points. Rates are counted in
-- ten-thousandths, and so are the discounts that points give.
pub mod Redemption
pub mod Balances
pub mod Rules
mod Tests
use meal_delivery.Prelude.{
  ℕ, ◌+◌, ◌*◌, ◌/◌, ◌^◌, min, Bool, true, false, not, ◌&&◌, ◌||◌, Option, none, some, List, [], ◌∷◌,
  Text, text_eq, ltb, leb, ◌==◌, get_or, or_else, is_some, if◌then◌else◌,
}
use meal_delivery.Prelude.Int.{ℤ, pos, pos_part, ltb_ℤ, ◌+ℤ◌, ◌-ℤ◌}
use meal_delivery.Entities.{
  Order, RewardPointsBalance, RewardPointsLedger, RewardRule, RuleType, RewardType, earning,
  redemption,
}
use meal_delivery.World.{
  Env, World, Error, Exec, ok, pure, throw, or_throw, read, require, write, save_balance,
  save_ledger, transaction, ◌>>=◌, ◌>>◌,
}

pub same_type : RuleType → RuleType → Bool
same_type earning earning = true
same_type redemption redemption = true
same_type _ _ = false

abbrev started : ℕ → Option ℕ → Bool
started now none = true
started now (some t) = leb t now

abbrev not_ended : ℕ → Option ℕ → Bool
not_ended now none = true
not_ended now (some t) = leb now t

pub is_in_force : ℕ → RuleType → RewardRule → Bool
unfolding same_type
is_in_force now t r =
    same_type r.type t && r.is_active && started now r.start_date && not_ended now r.end_date

-- The query of `getActiveRule`: the newest rule comes first.
pub first_in_force : ℕ → RuleType → List RewardRule → Option RewardRule
unfolding is_in_force
first_in_force now t [] = none
first_in_force now t (r ∷ rs) = if is_in_force now t r then some r else first_in_force now t rs

set_cached :
    RuleType → Option RewardRule → (RuleType → Option RewardRule) → RuleType → Option RewardRule
unfolding same_type
set_cached t o cache s = if same_type t s then o else cache s

unfoldable pub find_active_rule : Env → RuleType → World → Option RewardRule
unfolding first_in_force
find_active_rule env t w = or_else (w.cached_rules t) (first_in_force env.now t w.db.rules)

-- Only a rule that the query found goes into the cache.
pub cache_after : Env → RuleType → World → RuleType → Option RewardRule
unfolding set_cached first_in_force
cache_after env t w = elim (w.cached_rules t) [
  | some r ↦ w.cached_rules
  | none ↦ elim (first_in_force env.now t w.db.rules) [
    | none ↦ w.cached_rules
    | some r ↦ set_cached t (some r) w.cached_rules
  ]
]

unfoldable pub get_active_rule : Env → RuleType → Exec (Option RewardRule)
get_active_rule env t w =
    (ok (find_active_rule env t w), record w { cached_rules = cache_after env t w })

-- `Math.floor(total * rate)`; a negative total earns nothing.
abbrev pub points_earned : ℤ → ℕ → ℕ
points_earned total rate = pos_part total * rate / 10 ^ 8

abbrev pub below_minimum : RewardRule → ℤ → Bool
below_minimum r total = ltb 0 r.min_order_value && ltb_ℤ total (pos (r.min_order_value * 100))

abbrev pub zero_balance : ℕ → RewardPointsBalance
zero_balance customer_id = record { customer_id = customer_id; total_points = pos 0 }

-- The balance is raised and the ledger gets its entry.
add_points : ℕ → Option ℕ → ℤ → RewardType → Exec RewardPointsBalance
unfolding ◌+ℤ◌
add_points customer_id order_id points type = do
  found ← read (λ db. db.balances customer_id)
  let old = get_or found (zero_balance customer_id)
  let new = record old { total_points = old.total_points +ℤ points }
  save_balance new
  save_ledger
      (record { customer_id = customer_id; order_id = order_id; points = points; type = type })
  pure new

award : Order → Option RewardRule → Exec ℕ
unfolding add_points
award order none = pure 0
award order (some rule) =
    let points = points_earned order.total_amount rule.conversion_rate in
    if below_minimum rule order.total_amount then pure 0 else if leb points 0 then pure 0 else (do
      add_points order.customer_id (some order.id) (pos points) RewardType.earned
      pure points)

unfoldable pub add_points_for_completed_order : Env → Order → Exec ℕ
unfolding award
add_points_for_completed_order env order = do rule ← get_active_rule env earning; award order rule

abbrev pub covers : Option RewardPointsBalance → ℕ → Bool
covers none points = false
covers (some b) points = not (ltb_ℤ b.total_points (pos points))

-- `min(points * rate, total * percentage / 100, total)`, for a total in cents.
abbrev pub redeemed_discount : RewardRule → ℕ → ℕ → ℕ
redeemed_discount r points total =
    min (min (points * r.conversion_rate) (total * r.max_redeem_percentage)) (total * 100)

unfoldable pub process_redemption : Env → ℕ → ℕ → ℕ → Exec ℕ
unfolding ◌-ℤ◌
process_redemption env customer_id points order_total = do
  found ← read (λ db. db.balances customer_id)
  require (covers found points) Error.insufficient_points
  balance ← or_throw found Error.insufficient_points
  active ← get_active_rule env redemption
  rule ← or_throw active Error.redemption_unavailable
  save_balance (record balance { total_points = balance.total_points -ℤ pos points })
  pure (redeemed_discount rule points order_total)

unfoldable pub admin_adjust_points : ℕ → ℤ → Exec RewardPointsBalance
unfolding add_points
admin_adjust_points customer_id points = transaction (do
  found ← read (λ db. db.balances customer_id)
  let old = get_or found (zero_balance customer_id)
  require (not (ltb_ℤ (old.total_points +ℤ points) (pos 0))) Error.negative_balance
  add_points customer_id none points RewardType.adjusted)

pub find_rule : (RewardRule → Bool) → List RewardRule → Option RewardRule
find_rule p [] = none
find_rule p (r ∷ rs) = if p r then some r else find_rule p rs

abbrev named : Text → RewardRule → Bool
named name r = text_eq r.rule_name name

abbrev has_id : ℕ → RewardRule → Bool
has_id id r = r.id == id

-- A new rule is the newest.
unfoldable pub create_rule : RewardRule → Exec RewardRule
unfolding find_rule
create_rule rule = do
  existing ← read (λ db. find_rule (named rule.rule_name) db.rules)
  require (not (is_some existing)) Error.name_taken
  write (λ db. record db { rules = rule ∷ db.rules })
  pure rule

drop_rule : ℕ → List RewardRule → List RewardRule
drop_rule id [] = []
drop_rule id (r ∷ rs) = let rest = drop_rule id rs in if r.id == id then rest else r ∷ rest

-- `cacheManager.del(cacheKey)`
abbrev forget : RuleType → Exec (Unit {0})
forget t w = (ok tt, record w { cached_rules = set_cached t none w.cached_rules })

unfoldable pub delete_rule : ℕ → Exec (Unit {0})
unfolding find_rule drop_rule set_cached
delete_rule id = do
  found ← read (λ db. find_rule (has_id id) db.rules)
  rule ← or_throw found Error.rule_not_found
  write (λ db. record db { rules = drop_rule id db.rules })
  forget rule.type

-- The fields that an update gives; the others stay.
pub record UpdateRewardRule : Type 0 where
  pub rule_name : Option Text
  pub type : Option RuleType
  pub conversion_rate : Option ℕ
  pub min_order_value : Option ℕ
  pub max_redeem_percentage : Option ℕ
  pub is_active : Option Bool
  pub start_date : Option ℕ
  pub end_date : Option ℕ

abbrev pub assign : UpdateRewardRule → RewardRule → RewardRule
assign dto r = record r {
  rule_name = get_or dto.rule_name r.rule_name;
  type = get_or dto.type r.type;
  conversion_rate = get_or dto.conversion_rate r.conversion_rate;
  min_order_value = get_or dto.min_order_value r.min_order_value;
  max_redeem_percentage = get_or dto.max_redeem_percentage r.max_redeem_percentage;
  is_active = get_or dto.is_active r.is_active;
  start_date = or_else dto.start_date r.start_date;
  end_date = or_else dto.end_date r.end_date;
}

replace_rule : RewardRule → List RewardRule → List RewardRule
replace_rule rule [] = []
replace_rule rule (r ∷ rs) =
    let rest = replace_rule rule rs in if r.id == rule.id then rule ∷ rest else r ∷ rest

-- `dto.rule_name && …`: an empty name is not checked.
name_free : Option Text → RewardRule → List RewardRule → Bool
unfolding find_rule
name_free (some (c ∷ s)) rule rules =
    text_eq (c ∷ s) rule.rule_name || not (is_some (find_rule (named (c ∷ s)) rules))
name_free _ rule rules = true

unfoldable pub update_rule : ℕ → UpdateRewardRule → Exec RewardRule
unfolding find_rule replace_rule name_free
update_rule id dto = do
  found ← read (λ db. find_rule (has_id id) db.rules)
  rule ← or_throw found Error.rule_not_found
  rules ← read (λ db. db.rules)
  require (name_free dto.rule_name rule rules) Error.name_taken
  write (λ db. record db { rules = replace_rule (assign dto rule) db.rules })
  pure (assign dto rule)
