-- ===== src/Checkout/Items.antt =====
-- order.service.ts: the items of a new order and its gross amount.
use meal_delivery.Prelude.{
  ℕ, ◌+◌, ◌*◌, ◌≡◌, refl, Option, none, some, List, [], ◌∷◌, ◌++◌, get_or, arith, inl, inr,
  Option-cases,
}
use meal_delivery.Entities.{MenuItem, OrderItem}
use meal_delivery.World.{World, ok}
use meal_delivery.Checkout.{
  CreateOrderItem, Ids, Prepared, priced, prepare_items, item_row, save_items,
}

unfoldable pub subtotals : List Prepared → ℕ
subtotals [] = 0
subtotals (p ∷ ps) = p.subtotal + subtotals ps

-- The items can all be had, at these prices.
pub gross_of : (ℕ → Option MenuItem) → List CreateOrderItem → ℕ
gross_of menu [] = 0
gross_of menu (it ∷ its) =
    elim (menu it.menu_item_id) [ none ↦ 0 | some m ↦ m.price * get_or it.quantity 1 ]
    + gross_of menu its

subtotals-append : (ps qs : List Prepared) → subtotals (ps ++ qs) ≡ subtotals ps + subtotals qs
unfolding subtotals
subtotals-append [] qs = omega arith
subtotals-append (p ∷ ps) qs = omega (arith, subtotals-append ps qs)

pub prepare_items_reads :
    (its : List CreateOrderItem) (gross : ℕ) (ps : List Prepared) (w : World)
    → (prepare_items its gross ps w).1 ≡ w
unfolding prepare_items
prepare_items_reads [] gross ps w = refl
prepare_items_reads (it ∷ its) gross ps w = elim (Option-cases (w.db.menu_items it.menu_item_id)) [
  | inl e ↦ ground arith
  | inr (m, e) ↦
      ground
        (arith, prepare_items_reads its (gross + (priced m it).subtotal) (ps ++ priced m it ∷ []) w)
]

-- The rows that the items of an order come to, by the menu, the last one first, before `rows`.
unfoldable pub rows_for :
    ℕ → (ℕ → Option MenuItem) → List CreateOrderItem → List OrderItem → List OrderItem
rows_for order menu [] rows = rows
rows_for order menu (it ∷ its) rows = rows_for order menu its (elim (menu it.menu_item_id) [
  | none ↦ rows
  | some m ↦
      record {
        order_id = order;
        menu_item_id = m.id;
        unit_price = m.price;
        quantity = get_or it.quantity 1;
        subtotal = m.price * get_or it.quantity 1;
      }
      ∷ rows
])

-- The rows of the items, the last one first, before those that were there.
unfoldable pub item_rows : Ids → List Prepared → List OrderItem → List OrderItem
item_rows ids [] rows = rows
item_rows ids (p ∷ ps) rows = item_rows ids ps (item_row ids p ∷ rows)

item_rows-append :
    (ids : Ids) (ps : List Prepared) (p : Prepared) (rows : List OrderItem)
    → item_rows ids (ps ++ p ∷ []) rows ≡ item_row ids p ∷ item_rows ids ps rows
unfolding item_rows
item_rows-append ids [] p rows = refl
item_rows-append ids (q ∷ ps) p rows = item_rows-append ids ps p (item_row ids q ∷ rows)

pub prepared_rows :
    (ids : Ids) (its : List CreateOrderItem) (gross n : ℕ) (ps qs : List Prepared)
    (rows : List OrderItem) (w : World)
    → (prepare_items its gross ps w).0 ≡ ok (n, qs)
    → item_rows ids qs rows ≡ rows_for ids.order w.db.menu_items its (item_rows ids ps rows)
unfolding prepare_items rows_for
prepared_rows ids [] gross n ps qs rows w h = ground arith
prepared_rows ids (it ∷ its) gross n ps qs rows w h =
    elim (Option-cases (w.db.menu_items it.menu_item_id)) [
      | inl e ↦ ground arith
      | inr (m, e) ↦ ground (
        arith,
        item_rows-append ids ps (priced m it) rows,
        prepared_rows ids its (gross + (priced m it).subtotal) n (ps ++ priced m it ∷ []) qs rows w,
      )
    ]

pub prepare_items_sums :
    (its : List CreateOrderItem) (gross n : ℕ) (ps qs : List Prepared) (w : World)
    → (prepare_items its gross ps w).0 ≡ ok (n, qs)
    → (n ≡ gross + gross_of w.db.menu_items its)
      × (subtotals qs ≡ subtotals ps + gross_of w.db.menu_items its)
unfolding prepare_items gross_of subtotals
prepare_items_sums [] gross n ps qs w h = ground arith
prepare_items_sums (it ∷ its) gross n ps qs w h =
    elim (Option-cases (w.db.menu_items it.menu_item_id)) [
      | inl e ↦ ground arith
      | inr (m, e) ↦ ground (
        arith,
        subtotals-append ps (priced m it ∷ []),
        prepare_items_sums its (gross + (priced m it).subtotal) n (ps ++ priced m it ∷ []) qs w,
      )
    ]

pub save_items_lem :
    (ids : Ids) (ps : List Prepared) (w : World)
    → save_items ids ps w
      ≡ (ok tt, record w { db = record w.db { items = item_rows ids ps w.db.items } })
unfolding save_items item_rows
save_items_lem ids [] w = refl
save_items_lem ids (p ∷ ps) w = save_items_lem ids ps _
