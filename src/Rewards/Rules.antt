-- ===== src/Rewards/Rules.antt =====
-- rewards.service.ts: which rule is in force, and the cache in front of the query.
use meal_delivery.Prelude.{ℕ, ◌≡◌, ◌≢◌, refl, true, some, List, [], ◌∷◌, arith}
use meal_delivery.Entities.{RewardRule, RuleType, earning, redemption}
use meal_delivery.World.{Env, World, ok}
use meal_delivery.Rewards.{
  same_type, first_in_force, get_active_rule, find_active_rule, drop_rule, delete_rule, find_rule,
  UpdateRewardRule, update_rule, has_id,
}

same_type_refl : (t : RuleType) → same_type t t ≡ true
unfolding same_type
same_type_refl earning = refl
same_type_refl redemption = refl

first_in_force-drop_rule :
    (now id : ℕ) (t : RuleType) (rs : List RewardRule) (r : RewardRule)
    → first_in_force now t (drop_rule id rs) ≡ some r
    → r.id ≢ id
unfolding first_in_force drop_rule
first_in_force-drop_rule now id t [] r e = cc
first_in_force-drop_rule now id t (x ∷ xs) r e =
    ground (arith, first_in_force-drop_rule now id t xs r)

-- A rule that has been deleted is not served for its type afterwards, from the cache or otherwise.
pub deleted_rule_not_served :
    (env : Env) (id : ℕ) (w : World) (rule r : RewardRule)
    → find_rule (has_id id) w.db.rules ≡ some rule
    → (get_active_rule env rule.type (delete_rule id w).1).0 ≡ ok (some r)
    → r.id ≢ id
unfolding get_active_rule find_active_rule delete_rule
deleted_rule_not_served env id w rule r found e =
    ground
      (arith, same_type_refl rule.type, first_in_force-drop_rule env.now id rule.type w.db.rules r)

-- The cache is not told of an update: while a rule of some type is cached, it is served as it was
-- before the update, whatever the update changed and whichever rule it was.
pub updated_rule_still_served :
    (env : Env) (id : ℕ) (dto : UpdateRewardRule) (w : World) (t : RuleType) (old : RewardRule)
    → w.cached_rules t ≡ some old
    → (get_active_rule env t (update_rule id dto w).1).0 ≡ ok (some old)
unfolding get_active_rule find_active_rule update_rule
updated_rule_still_served env id dto w t old cached = ground arith
