-- ===== src/Checkout/Menu.antt =====
-- order.service.ts: only dishes that are on sale can be ordered.
use meal_delivery.Prelude.{
  ℕ, ◌≡◌, ◌≢◌, ◌+◌, refl, Bool, true, false, Option, some, List, [], ◌∷◌, ◌++◌, Text, All, arith,
  inl, inr, Option-cases,
}
use meal_delivery.Entities.{MenuItem, Order}
use meal_delivery.World.{Env, World, ok}
use meal_delivery.Scheduling.{Zone}
use meal_delivery.Fulfilment.{toggle_menu_availability}
use meal_delivery.Checkout.{
  CreateOrderItem, CreateOrder, Ids, Prepared, priced, prepare_items, create_order,
}
use meal_delivery.Checkout.Parts.{create_order-Created}

-- The item is on the menu and available.
abbrev IsOnSale : (ℕ → Option MenuItem) → CreateOrderItem → Type 0
IsOnSale menu it = (m : MenuItem) × (menu it.menu_item_id ≡ some m) × (m.is_available ≡ true)

item_had :
    (it : CreateOrderItem) (its : List CreateOrderItem) (gross : ℕ) (ps : List Prepared) (w : World)
    (m : MenuItem) (r : ℕ × List Prepared)
    → w.db.menu_items it.menu_item_id ≡ some m
    → (prepare_items (it ∷ its) gross ps w).0 ≡ ok r
    → (m.is_available ≡ true)
      × ((prepare_items its (gross + (priced m it).subtotal) (ps ++ priced m it ∷ []) w).0 ≡ ok r)
unfolding prepare_items
item_had it its gross ps w m r found h = ground arith

prepare_items-IsOnSale :
    (its : List CreateOrderItem) (gross : ℕ) (ps : List Prepared) (w : World)
    (r : ℕ × List Prepared)
    → (prepare_items its gross ps w).0 ≡ ok r
    → All (IsOnSale w.db.menu_items) its
unfolding prepare_items
prepare_items-IsOnSale [] gross ps w r h = tt
prepare_items-IsOnSale (it ∷ its) gross ps w r h =
    elim (Option-cases (w.db.menu_items it.menu_item_id)) [
      | inl e ↦ ground arith
      | inr (m, e) ↦
          let (on_sale, rest) = item_had it its gross ps w m r e h in
          ((m, e, on_sale), prepare_items-IsOnSale its _ _ w r rest)
    ]

others_only :
    (menu : ℕ → Option MenuItem) (item : ℕ) (m : MenuItem) (its : List CreateOrderItem)
    → menu item ≡ some m
    → m.is_available ≡ false
    → All (IsOnSale menu) its
    → All (λ it. it.menu_item_id ≢ item) its
others_only menu item m [] found off h = tt
others_only menu item m (it ∷ its) found off h =
    (λ same. ground (arith, h.0.2), others_only menu item m its found off h.1)

taken_off :
    (owner_id restaurant_id item : ℕ) (w : World) (m : MenuItem) (b : Bool)
    → w.db.menu_items item ≡ some m
    → m.id ≡ item
    → (toggle_menu_availability owner_id restaurant_id item false w).0 ≡ ok b
    → (toggle_menu_availability owner_id restaurant_id item false w).1.db.menu_items item
      ≡ some (record m { is_available = false })
unfolding toggle_menu_availability
taken_off owner_id restaurant_id item w m b found own off = ground arith

-- Once the owner has taken a dish, found under its own id, off the menu, no order that is created
-- next contains it.
pub disabled_item_is_not_sold :
    (env : Env) (zone : Zone) (ids : Ids) (owner_id restaurant_id item customer_id rate : ℕ)
    (dto : CreateOrder) (code : Option Text) (w : World) (m : MenuItem) (b : Bool) (o : Order)
    → w.db.menu_items item ≡ some m
    → m.id ≡ item
    → (toggle_menu_availability owner_id restaurant_id item false w).0 ≡ ok b
    → (create_order env zone ids customer_id dto code rate
        (toggle_menu_availability owner_id restaurant_id item false w).1).0
      ≡ ok o
    → All (λ it. it.menu_item_id ≢ item) dto.items
disabled_item_is_not_sold env zone ids owner_id restaurant_id item customer_id rate dto code w m b o
      found own off h =
    let w1 : World = (toggle_menu_availability owner_id restaurant_id item false w).1 in
    let c = create_order-Created env zone ids customer_id dto code rate w1 o h in
    others_only w1.db.menu_items item (record m { is_available = false }) dto.items
      (taken_off owner_id restaurant_id item w m b found own off) refl
      (prepare_items-IsOnSale dto.items 0 [] w1 (c.parts.gross, c.parts.prepared) c.parts.prepares)
