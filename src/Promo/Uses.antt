-- ===== src/Promo/Uses.antt =====
-- promo.service.ts: when a code is taken, and how its uses are counted.
use meal_delivery.Prelude.{
  ℕ, suc, ◌+◌, ◌≤◌, ◌≡◌, true, false, Option, none, some, [], ◌∷◌, Text, text_eq, text_eq_refl,
  arith, Option-cases, inl, inr,
}
use meal_delivery.Entities.{PromoCode}
use meal_delivery.World.{Env, World, Db, Error, ok, err}
use meal_delivery.Promo.{
  PromoResult, is_expired, is_elsewhere, reached, summary, price_under, apply_promo,
}
use meal_delivery.Promo.Codes.{normalize}

-- A promo that may be used now for this restaurant.
abbrev pub IsUsable : Env → PromoCode → ℕ → Type 0
IsUsable env p restaurant_id =
    (p.active ≡ true)
    × (is_expired env p ≡ false)
    × (is_elsewhere p restaurant_id ≡ false)
    × (reached p.uses_count p.max_uses ≡ false)

-- A code that names a promo is accepted exactly if that promo is active, has not expired, is meant
-- for the restaurant and has uses left; the order is then priced under it.
pub code_accepted_iff :
    (env : Env) (c : ℕ) (cs : Text) (g restaurant_id rate : ℕ) (w : World) (p : PromoCode)
    → w.db.promos (normalize (c ∷ cs)) ≡ some p
    → (IsUsable env p restaurant_id
        → (apply_promo env (some (c ∷ cs)) g restaurant_id rate w).0
          ≡ ok (record { price = price_under p g rate; applied = true; promo = some (summary p) }))
      × ((r : PromoResult)
          → (apply_promo env (some (c ∷ cs)) g restaurant_id rate w).0 ≡ ok r
          → IsUsable env p restaurant_id)
unfolding apply_promo
code_accepted_iff env c cs g restaurant_id rate w p e = (ground arith, λ r h. ground arith)

-- No promo with a limit has been used more often than the limit allows.
abbrev pub WithinLimits : Db → Type 0
WithinLimits db =
    (c : Text) (p : PromoCode) (m : ℕ)
    → db.promos c ≡ some p
    → p.max_uses ≡ some (suc m)
    → p.uses_count ≤ suc m

-- If every promo is within its limit, it still is after pricing an order, whether that succeeds or
-- fails.
pub apply_promo-WithinLimits :
    (env : Env) (code : Option Text) (g restaurant_id rate : ℕ) (w : World)
    → WithinLimits w.db
    → WithinLimits (apply_promo env code g restaurant_id rate w).1.db
unfolding apply_promo
apply_promo-WithinLimits env none g restaurant_id rate w h = h
apply_promo-WithinLimits env (some []) g restaurant_id rate w h = h
apply_promo-WithinLimits env (some (x ∷ xs)) g restaurant_id rate w h = λ c p m e l.
    elim (Option-cases (w.db.promos (normalize (x ∷ xs)))) [
      | inl missing ↦ ground (arith, h c p m)
      | inr (q, found) ↦ ground (arith, h c p m, h (normalize (x ∷ xs)) q m)
    ]

-- An order that is priced with a code that names a promo counts one use of that promo and leaves
-- every other code alone; a code that is refused changes nothing.
pub one_use_counted :
    (env : Env) (c : ℕ) (cs : Text) (g restaurant_id rate : ℕ) (w : World) (p : PromoCode)
    → w.db.promos (normalize (c ∷ cs)) ≡ some p
    → p.code ≡ normalize (c ∷ cs)
    → let (r, w') = apply_promo env (some (c ∷ cs)) g restaurant_id rate w in
      ((x : PromoResult)
        → r ≡ ok x
        → (w'.db.promos (normalize (c ∷ cs)) ≡ some (record p { uses_count = p.uses_count + 1 }))
          × ((j : Text) → text_eq (normalize (c ∷ cs)) j ≡ false → w'.db.promos j ≡ w.db.promos j))
      × ((e : Error) → r ≡ err e → w' ≡ w)
unfolding apply_promo
one_use_counted env c cs g restaurant_id rate w p found own = (
  λ x h. (ground (arith, text_eq_refl (normalize (c ∷ cs))), λ j other. ground arith),
  λ e h. ground arith,
)
