-- ===== src/Inventory.antt =====
-- catalog-service/src/modules/inventory/inventory.service.ts: the stock of the dishes. Quantities are
-- natural numbers, as the DTOs demand. Inventories have one row for a dish, and so have par levels.
pub mod Levels
pub mod Stock
pub mod Calls
pub mod Demand
pub mod Resets
mod Tests
use meal_delivery.Prelude.{
  ℕ, ◌+◌, ◌-◌, Bool, true, false, not, ◌&&◌, ◌||◌, Option, none, some, List, [], ◌∷◌, ltb, ◌==◌,
  select, update_where, if◌then◌else◌, any, find_row, ◌⊎◌, inl, inr,
}
use meal_delivery.Prelude.Int.{ℤ, pos, ◌-ℤ◌}

pub data ChangeType : Type 0 where
  order_deduction manual_update restock cancel_rollback : ChangeType

pub record Inventory : Type 0 where
  pub menu_item_id : ℕ
  pub restaurant_id : ℕ
  pub stock_quantity : ℕ

-- The inventory of a log is told by its dish.
pub record InventoryLog : Type 0 where
  pub menu_item_id : ℕ
  pub change_type : ChangeType
  pub quantity_change : ℤ

pub record ParLevel : Type 0 where
  pub menu_item_id : ℕ
  pub restaurant_id : ℕ
  pub par_level : ℕ

-- A dish, with the restaurant of its category.
pub record Dish : Type 0 where
  pub id : ℕ
  pub is_available : Bool
  pub restaurant_id : Option ℕ

-- `owners` has the owner of each restaurant.
pub record Room : Type 0 where
  pub inventories : ℕ → Option Inventory
  pub logs : List InventoryLog
  pub dishes : ℕ → Option Dish
  pub par_levels : List ParLevel
  pub owners : ℕ → Option ℕ

pub data Error : Type 0 where
  inventory_not_found insufficient_stock item_not_found : Error
  restaurant_not_found par_level_not_found forbidden log_refused : Error

pub data Outcome : Type 0 where
  refused : Error → Outcome
  done : Room → Outcome

-- `commitTransaction`, or `rollbackTransaction` and `throw`
abbrev pub commit : Room → Outcome → Option Error × Room
commit r (refused e) = (some e, r)
commit r (done r') = (none, r')

-- An item of an order, or of a delivery.
pub record Line : Type 0 where
  pub menu_item_id : ℕ
  pub quantity : ℕ

abbrev pub save_inventory : Inventory → Room → Room
save_inventory v r = record r {
  inventories = λ k. if v.menu_item_id == k then some v else r.inventories k;
}

abbrev pub write_log : ℕ → ChangeType → ℤ → Room → Room
write_log k type change r = record r {
  logs = record { menu_item_id = k; change_type = type; quantity_change = change } ∷ r.logs;
}

abbrev switch : Bool → Option Dish → Option Dish
switch b none = none
switch b (some d) = some (record d { is_available = b })

abbrev pub set_available : ℕ → Bool → Room → Room
set_available k b r = record r {
  dishes = λ j. if k == j then switch b (r.dishes j) else r.dishes j;
}

abbrev pub close_if_empty : ℕ → ℕ → Room → Room
close_if_empty k left r = if left == 0 then set_available k false r else r

abbrev pub with_stock : ℕ → Inventory → Inventory
with_stock n v = record v { stock_quantity = n }

abbrev pub take_out : Line → Inventory → Room → Room
take_out l v r =
    let left = v.stock_quantity - l.quantity in
    save_inventory (with_stock left v) (
      close_if_empty l.menu_item_id left
        (write_log l.menu_item_id ChangeType.order_deduction (pos 0 -ℤ pos l.quantity) r))

-- `findOne` by the dish; the row is found under its own key.
unfoldable pub deduct : Line → Room → Outcome
deduct l r = elim (r.inventories l.menu_item_id) [
  | none ↦ refused Error.inventory_not_found
  | some v ↦
      if ltb v.stock_quantity l.quantity
      then refused Error.insufficient_stock
      else done (take_out l v r)
]

unfoldable pub deduct_all : List Line → Room → Outcome
deduct_all [] r = done r
deduct_all (l ∷ ls) r = elim (deduct l r) [ refused e ↦ refused e | done r' ↦ deduct_all ls r' ]

unfoldable pub deduct_stock_for_order : List Line → Room → Option Error × Room
deduct_stock_for_order ls r = commit r (deduct_all ls r)

abbrev pub owner_check : ℕ → ℕ → Room → Option Error
owner_check restaurant user r = elim (r.owners restaurant) [
  | none ↦ some Error.restaurant_not_found
  | some o ↦ if o == user then none else some Error.forbidden
]

-- The restaurant of a dish, if its owner asks.
unfoldable pub restaurant_for : ℕ → ℕ → Room → Error ⊎ ℕ
restaurant_for k user r = elim (r.dishes k) [
  | none ↦ inl Error.item_not_found
  | some d ↦ elim d.restaurant_id [
    | none ↦ inl Error.restaurant_not_found
    | some restaurant ↦ elim (owner_check restaurant user r) [
      | none ↦ inr restaurant
      | some e ↦ inl e
    ]
  ]
]

-- The inventory of a dish, which is made if there is none.
unfoldable pub inventory_for : ℕ → ℕ → Room → Error ⊎ Inventory
inventory_for k user r = elim (r.inventories k) [
  | none ↦ elim (restaurant_for k user r) [
    | inl e ↦ inl e
    | inr restaurant ↦
        inr (record { menu_item_id = k; restaurant_id = restaurant; stock_quantity = 0 })
  ]
  | some v ↦ elim (owner_check v.restaurant_id user r) [ none ↦ inr v | some e ↦ inl e ]
]

abbrev pub open_if_filled : ℕ → ℕ → ℕ → Room → Room
open_if_filled k old new r = if (old == 0) && ltb 0 new then set_available k true r else r

abbrev pub put_in : ChangeType → Line → Inventory → Room → Room
put_in type l v r =
    let new = v.stock_quantity + l.quantity in
    save_inventory (with_stock new v) (
      open_if_filled l.menu_item_id v.stock_quantity new
        (write_log l.menu_item_id type (pos l.quantity) r))

unfoldable pub add_stock : ChangeType → ℕ → Line → Room → Outcome
add_stock type user l r = elim (inventory_for l.menu_item_id user r) [
  | inl e ↦ refused e
  | inr v ↦ done (put_in type l v r)
]

unfoldable pub update_stock_manually : ℕ → ℕ → ℕ → Room → Option Error × Room
update_stock_manually k quantity user r =
    commit r
      (add_stock ChangeType.manual_update user (record { menu_item_id = k; quantity = quantity }) r)

unfoldable pub replenish_all : ℕ → List Line → Room → Outcome
replenish_all user [] r = done r
replenish_all user (l ∷ ls) r = elim (add_stock ChangeType.restock user l r) [
  | refused e ↦ refused e
  | done r' ↦ replenish_all user ls r'
]

unfoldable pub replenish_stock : List Line → ℕ → Room → Option Error × Room
replenish_stock ls user r = commit r (replenish_all user ls r)

abbrev pub follow : ℕ → ℕ → ℕ → Room → Room
follow k old new r =
    if (old == 0) && ltb 0 new
    then set_available k true r
    else if ltb 0 old && (new == 0)
    then set_available k false r
    else r

abbrev pub reset_from : ParLevel → Inventory → Room → Room
reset_from p v r = save_inventory (with_stock p.par_level v) (
    follow p.menu_item_id v.stock_quantity p.par_level (
      write_log p.menu_item_id ChangeType.manual_update (pos p.par_level -ℤ pos v.stock_quantity)
        r))

-- Nothing is written if the stock is at its level. The log is saved first, and a log of an inventory
-- that is not stored is refused.
unfoldable pub reset_one : ParLevel → Room → Outcome
reset_one p r = elim (r.inventories p.menu_item_id) [
  | none ↦ if p.par_level == 0 then done r else refused Error.log_refused
  | some v ↦ if v.stock_quantity == p.par_level then done r else done (reset_from p v r)
]

unfoldable pub reset_all : List ParLevel → Room → Outcome
reset_all [] r = done r
reset_all (p ∷ ps) r = elim (reset_one p r) [ refused e ↦ refused e | done r' ↦ reset_all ps r' ]

-- The error is only logged.
unfoldable pub handle_daily_stock_reset : Room → Room
handle_daily_stock_reset r = (commit r (reset_all r.par_levels r)).1
