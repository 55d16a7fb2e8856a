-- ===== src/Inventory/Tests.antt =====
-- A concrete store room: one dish with stock, and an order that asks for it twice.
use meal_delivery.Prelude.{
  ℕ, ◌+◌, ◌≡◌, refl, ◌⊎◌, true, false, none, some, List, [], ◌∷◌, ◌==◌, is_some, if◌then◌else◌,
  Bool-cases, arith, inl, inr, ltb, any,
}
use meal_delivery.Prelude.Int.{pos, ◌+ℤ◌}
use meal_delivery.Inventory.{
  Inventory, ChangeType, Dish, Room, Line, deduct_stock_for_order, handle_daily_stock_reset,
}
use meal_delivery.Inventory.Levels.{sync_availability}
use meal_delivery.Inventory.Stock.{stock_of, IsLogged, logged, own_key}
use meal_delivery.Inventory.Calls.{order, perform, perform-IsLogged}
use meal_delivery.Inventory.Resets.{asks_for, one_missing_stops_reset}
use meal_delivery.Inventory.Demand.{OwnKeys, demanded, order_is_taken_or_refused, sync_shows_stock}

abbrev beans : Inventory
beans = record { menu_item_id = 5; restaurant_id = 7; stock_quantity = 9 }

abbrev dish : Dish
dish = record { id = 5; is_available = false; restaurant_id = some 7 }

abbrev room : Room
room = record {
  inventories = λ k. if 5 == k then some beans else none;
  logs =
      record { menu_item_id = 5; change_type = ChangeType.restock; quantity_change = pos 9 } ∷ [];
  dishes = λ k. if 5 == k then some dish else none;
  par_levels = [];
  owners = λ k. some 70;
}

abbrev twice : List Line
twice = record { menu_item_id = 5; quantity = 4 } ∷ record { menu_item_id = 5; quantity = 3 } ∷ []

room-OwnKeys : OwnKeys room.inventories
room-OwnKeys k v e = own_key 9 k beans v none (λ no. ground (arith, no)) e

room-IsLogged : IsLogged room
unfolding logged ◌+ℤ◌
room-IsLogged = record {
  own = room-OwnKeys;
  sums = λ k. elim (Bool-cases (5 == k)) [ inl e ↦ rw e refl | inr e ↦ rw e refl ];
}

perform-IsLogged_example : IsLogged (perform (order twice) room)
perform-IsLogged_example = perform-IsLogged (order twice) room room-IsLogged

order_is_taken_or_refused_example :
    let (e, r') = deduct_stock_for_order twice room in
    ((is_some e ≡ true) × (r' ≡ room))
    ⊎ ((e ≡ none)
        × ((k : ℕ)
            → stock_of (r'.inventories k) + demanded k twice ≡ stock_of (room.inventories k)))
order_is_taken_or_refused_example = order_is_taken_or_refused twice room room-OwnKeys

sync_shows_stock_example :
    ((v : Inventory)
      → room.inventories 5 ≡ some v
      → (sync_availability room).dishes 5
        ≡ some (record dish { is_available = ltb 0 v.stock_quantity }))
    × (room.inventories 5 ≡ none → (sync_availability room).dishes 5 ≡ some dish)
sync_shows_stock_example = sync_shows_stock room 5 dish refl

-- A level for a dish that has no inventory yet.
abbrev waiting_room : Room
waiting_room = record room {
  par_levels = record { menu_item_id = 6; restaurant_id = 7; par_level = 10 } ∷ [];
}

dish_6_asked_for : any (asks_for 6) waiting_room.par_levels ≡ true
unfolding any
dish_6_asked_for = refl

one_missing_stops_reset_example : handle_daily_stock_reset waiting_room ≡ waiting_room
one_missing_stops_reset_example =
    one_missing_stops_reset 6 waiting_room room-IsLogged refl dish_6_asked_for
