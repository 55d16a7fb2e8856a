-- ===== src/Inventory/Levels.antt =====
-- inventory.service.ts: par levels (`setParLevel`, `bulkSetParLevels`, `removeParLevel`) and the sync of
-- the dishes with their stock (`syncAvailability`).
use meal_delivery.Prelude.{
  ℕ, Bool, true, false, not, ◌&&◌, Option, none, some, List, [], ◌∷◌, ltb, ◌==◌, select,
  update_where, if◌then◌else◌, any, find_row, inl, inr,
}
use meal_delivery.Inventory.{
  Inventory, ParLevel, Dish, Room, Line, Error, Outcome, refused, done, commit, owner_check,
  restaurant_for,
}

abbrev is_for : ℕ → ParLevel → Bool
is_for k p = p.menu_item_id == k

-- The level is changed, or a row is made.
abbrev pub upsert_par : ℕ → ℕ → ℕ → Room → Room
upsert_par k restaurant level r = record r {
  par_levels =
      if any (is_for k) r.par_levels
      then update_where (is_for k) (λ p. record p { par_level = level }) r.par_levels
      else record { menu_item_id = k; restaurant_id = restaurant; par_level = level }
        ∷ r.par_levels;
}

unfoldable pub set_par : ℕ → Line → Room → Outcome
set_par user l r = elim (restaurant_for l.menu_item_id user r) [
  | inl e ↦ refused e
  | inr restaurant ↦ done (upsert_par l.menu_item_id restaurant l.quantity r)
]

unfoldable pub set_par_level : Line → ℕ → Room → Option Error × Room
set_par_level l user r = commit r (set_par user l r)

unfoldable pub set_pars : ℕ → List Line → Room → Outcome
set_pars user [] r = done r
set_pars user (l ∷ ls) r = elim (set_par user l r) [
  | refused e ↦ refused e
  | done r' ↦ set_pars user ls r'
]

unfoldable pub bulk_set_par_levels : List Line → ℕ → Room → Option Error × Room
bulk_set_par_levels ls user r = commit r (set_pars user ls r)

unfoldable pub remove_par_level : ℕ → ℕ → Room → Option Error × Room
remove_par_level k user r = elim (find_row (is_for k) r.par_levels) [
  | none ↦ (some Error.par_level_not_found, r)
  | some p ↦ elim (owner_check p.restaurant_id user r) [
    | some e ↦ (some e, r)
    | none ↦ (none, record r { par_levels = select (λ q. not (is_for k q)) r.par_levels })
  ]
]

abbrev pub open_dish : Option Inventory → Dish → Dish
open_dish none d = d
open_dish (some v) d =
    if not d.is_available && ltb 0 v.stock_quantity then record d { is_available = true } else d

abbrev pub close_dish : Option Inventory → Dish → Dish
close_dish none d = d
close_dish (some v) d =
    if d.is_available && (v.stock_quantity == 0) then record d { is_available = false } else d

abbrev each_dish : (Option Inventory → Dish → Dish) → Room → Room
each_dish f r = record r {
  dishes = λ k. elim (r.dishes k) [ none ↦ none | some d ↦ some (f (r.inventories k) d) ];
}

-- The dishes to open are updated, then those to close; the counts are left out.
unfoldable pub sync_availability : Room → Room
sync_availability r = each_dish close_dish (each_dish open_dish r)
