-- ===== src/Inventory/Calls.antt =====
-- inventory.service.ts: the log of a dish over any calls.
use meal_delivery.Prelude.{ℕ, ◌⊎◌, inl, inr, List, [], ◌∷◌, arith}
use meal_delivery.Inventory.{
  ParLevel, Room, Line, Error, Outcome, refused, done, commit, ChangeType, deduct, deduct_all,
  deduct_stock_for_order, add_stock, update_stock_manually, replenish_all, replenish_stock,
  reset_one, reset_all, handle_daily_stock_reset, restaurant_for,
}
use meal_delivery.Inventory.Levels.{
  sync_availability, set_par_level, bulk_set_par_levels, remove_par_level, set_par, set_pars,
  upsert_par,
}
use meal_delivery.Inventory.Stock.{
  IsLogged, Holds, deduct-IsLogged, add_stock-IsLogged, reset_one-IsLogged,
}

committed : (r : Room) (o : Outcome) → IsLogged r → Holds IsLogged o → IsLogged (commit r o).1
committed r (refused e) h done_h = h
committed r (done r') h done_h = done_h

and_then :
    (o : Outcome) (f : Room → Outcome)
    → Holds IsLogged o
    → ((r : Room) → IsLogged r → Holds IsLogged (f r))
    → Holds IsLogged (elim o [ refused e ↦ refused e | done r ↦ f r ])
and_then (refused e) f h k = tt
and_then (done r) f h k = k r h

deduct_all-IsLogged : (ls : List Line) (r : Room) → IsLogged r → Holds IsLogged (deduct_all ls r)
unfolding deduct_all
deduct_all-IsLogged [] r h = h
deduct_all-IsLogged (l ∷ ls) r h =
    and_then (deduct l r) (deduct_all ls) (deduct-IsLogged l r h) (deduct_all-IsLogged ls)

replenish_all-IsLogged :
    (user : ℕ) (ls : List Line) (r : Room) → IsLogged r → Holds IsLogged (replenish_all user ls r)
unfolding replenish_all
replenish_all-IsLogged user [] r h = h
replenish_all-IsLogged user (l ∷ ls) r h =
    and_then (add_stock ChangeType.restock user l r) (replenish_all user ls)
      (add_stock-IsLogged ChangeType.restock user l r h) (replenish_all-IsLogged user ls)

reset_all-IsLogged : (ps : List ParLevel) (r : Room) → IsLogged r → Holds IsLogged (reset_all ps r)
unfolding reset_all
reset_all-IsLogged [] r h = h
reset_all-IsLogged (p ∷ ps) r h =
    and_then (reset_one p r) (reset_all ps) (reset_one-IsLogged p r h) (reset_all-IsLogged ps)

par_found-IsLogged :
    (l : Line) (r : Room) (found : Error ⊎ ℕ)
    → IsLogged r
    → Holds IsLogged (elim found [
      | inl e ↦ refused e
      | inr restaurant ↦ done (upsert_par l.menu_item_id restaurant l.quantity r)
    ])
par_found-IsLogged l r (inl e) h = tt
par_found-IsLogged l r (inr restaurant) h = h

set_par-IsLogged : (user : ℕ) (l : Line) (r : Room) → IsLogged r → Holds IsLogged (set_par user l r)
unfolding set_par
set_par-IsLogged user l r h = par_found-IsLogged l r (restaurant_for l.menu_item_id user r) h

set_pars-IsLogged :
    (user : ℕ) (ls : List Line) (r : Room) → IsLogged r → Holds IsLogged (set_pars user ls r)
unfolding set_pars
set_pars-IsLogged user [] r h = h
set_pars-IsLogged user (l ∷ ls) r h =
    and_then (set_par user l r) (set_pars user ls) (set_par-IsLogged user l r h)
      (set_pars-IsLogged user ls)

remove_par_level-IsLogged :
    (k user : ℕ) (r : Room) → IsLogged r → IsLogged (remove_par_level k user r).1
unfolding remove_par_level
remove_par_level-IsLogged k user r h = ground (arith, h)

-- The calls of the service that write.
pub data Call : Type 0 where
  order : List Line → Call
  update : ℕ → ℕ → ℕ → Call
  replenish : List Line → ℕ → Call
  daily_reset sync : Call
  set_level : Line → ℕ → Call
  set_levels : List Line → ℕ → Call
  remove_level : ℕ → ℕ → Call

unfoldable pub perform : Call → Room → Room
perform (order ls) r = (deduct_stock_for_order ls r).1
perform (update k quantity user) r = (update_stock_manually k quantity user r).1
perform (replenish ls user) r = (replenish_stock ls user r).1
perform daily_reset r = handle_daily_stock_reset r
perform sync r = sync_availability r
perform (set_level l user) r = (set_par_level l user r).1
perform (set_levels ls user) r = (bulk_set_par_levels ls user r).1
perform (remove_level k user) r = (remove_par_level k user r).1

-- If inventories stand under their own keys and the stock of each dish is the sum of its log, it
-- is so after any call, whether it succeeds or fails.
pub perform-IsLogged : (c : Call) (r : Room) → IsLogged r → IsLogged (perform c r)
unfolding perform deduct_stock_for_order update_stock_manually replenish_stock
    handle_daily_stock_reset sync_availability set_par_level bulk_set_par_levels
perform-IsLogged (order ls) r h = committed r (deduct_all ls r) h (deduct_all-IsLogged ls r h)
perform-IsLogged (update k quantity user) r h =
    committed r _ h (add_stock-IsLogged ChangeType.manual_update user _ r h)
perform-IsLogged (replenish ls user) r h = committed r _ h (replenish_all-IsLogged user ls r h)
perform-IsLogged daily_reset r h = committed r _ h (reset_all-IsLogged r.par_levels r h)
perform-IsLogged sync r h = h
perform-IsLogged (set_level l user) r h = committed r _ h (set_par-IsLogged user l r h)
perform-IsLogged (set_levels ls user) r h = committed r _ h (set_pars-IsLogged user ls r h)
perform-IsLogged (remove_level k user) r h = remove_par_level-IsLogged k user r h
