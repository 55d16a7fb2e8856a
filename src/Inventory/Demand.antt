-- ===== src/Inventory/Demand.antt =====
-- inventory.service.ts: what an order takes out of the stock, and what a sync shows of it.
use meal_delivery.Prelude.{
  ℕ, ◌+◌, ◌-◌, ◌≤◌, ◌≡◌, refl, ap, ==_iff, ◌⊎◌, inl, inr, Bool, true, false, not, ◌&&◌, Option,
  none, some, List, [], ◌∷◌, ltb, ◌==◌, arith, is_some, if◌then◌else◌, Option-cases, Bool-cases,
}
use meal_delivery.Inventory.{
  Inventory, Dish, Room, Line, Outcome, refused, done, commit, deduct, take_out, with_stock,
  deduct_all, deduct_stock_for_order,
}
use meal_delivery.Inventory.Levels.{close_dish, open_dish, sync_availability}
use meal_delivery.Inventory.Stock.{stock_of, Holds, own_key}

abbrev pub OwnKeys : (ℕ → Option Inventory) → Type 0
OwnKeys inventories = (k : ℕ) (v : Inventory) → inventories k ≡ some v → v.menu_item_id ≡ k

abbrev part_for : ℕ → Line → ℕ
part_for k l = if l.menu_item_id == k then l.quantity else 0

-- What an order asks for of a dish, in all its lines.
unfoldable pub demanded : ℕ → List Line → ℕ
demanded k [] = 0
demanded k (l ∷ ls) = part_for k l + demanded k ls

record Took (r : Room) (took : ℕ → ℕ) (r' : Room) : Type 0 where
  keys : OwnKeys r'.inventories
  left : (k : ℕ) → stock_of (r'.inventories k) + took k ≡ stock_of (r.inventories k)

took_at :
    (l : Line) (v : Inventory) (r : Room) (j : ℕ)
    → v.menu_item_id ≡ l.menu_item_id
    → r.inventories l.menu_item_id ≡ some v
    → l.quantity ≤ v.stock_quantity
    → stock_of (
          if v.menu_item_id == j
          then some (with_stock (v.stock_quantity - l.quantity) v)
          else r.inventories j)
        + part_for j l
      ≡ stock_of (r.inventories j)
took_at l v r j named found fits = elim (Bool-cases (l.menu_item_id == j)) [
  | inl e ↦
      let here : l.menu_item_id ≡ j = (==_iff l.menu_item_id j).0 e in
      let found_here : r.inventories j ≡ some v = rw here at found in
      rw (named, e, found_here) (omega (arith, fits))
  | inr e ↦ rw (named, e) (omega arith)
]

line-Took :
    (l : Line) (v : Inventory) (r : Room)
    → OwnKeys r.inventories
    → r.inventories l.menu_item_id ≡ some v
    → ltb v.stock_quantity l.quantity ≡ false
    → Took r (λ k. part_for k l) (take_out l v r)
line-Took l v r keys found enough =
    let left = v.stock_quantity - l.quantity in
    let named : v.menu_item_id ≡ l.menu_item_id = keys l.menu_item_id v found in
    let fits : l.quantity ≤ v.stock_quantity = ground (arith, enough) in
    elim (Bool-cases (left == 0)) [
      | inl e ↦ rw e (record {
        keys = λ j w s. own_key left j v w (r.inventories j) (keys j w) s;
        left = λ j. took_at l v r j named found fits;
      })
      | inr e ↦ rw e (record {
        keys = λ j w s. own_key left j v w (r.inventories j) (keys j w) s;
        left = λ j. took_at l v r j named found fits;
      })
    ]

deduct-Took :
    (l : Line) (r : Room) → OwnKeys r.inventories → Holds (Took r (λ k. part_for k l)) (deduct l r)
unfolding deduct
deduct-Took l r keys = elim (Option-cases (r.inventories l.menu_item_id)) [
  | inl c ↦ rw (c, deduct) tt
  | inr (v, c) ↦ elim (Bool-cases (ltb v.stock_quantity l.quantity)) [
    | inl short ↦ rw (c, deduct, short) tt
    | inr enough ↦ rw (c, deduct, enough) (line-Took l v r keys c enough)
  ]
]

joined :
    (l : Line) (ls : List Line) (r r1 : Room) (o : Outcome)
    → Took r (λ k. part_for k l) r1
    → Holds (Took r1 (λ k. demanded k ls)) o
    → Holds (Took r (λ k. demanded k (l ∷ ls))) o
unfolding demanded
joined l ls r r1 (refused e) first rest = tt
joined l ls r r1 (done r2) first rest = record {
  keys = rest.keys;
  left = λ k. omega (arith, first.left k, rest.left k);
}

then_Took :
    (l : Line) (ls : List Line) (r : Room) (o : Outcome)
    → Holds (Took r (λ k. part_for k l)) o
    → ((r1 : Room)
        → OwnKeys r1.inventories
        → Holds (Took r1 (λ k. demanded k ls)) (deduct_all ls r1))
    → Holds
        (Took r (λ k. demanded k (l ∷ ls)))
        (elim o [ refused e ↦ refused e | done r1 ↦ deduct_all ls r1 ])
then_Took l ls r (refused e) first rest = tt
then_Took l ls r (done r1) first rest =
    joined l ls r r1 (deduct_all ls r1) first (rest r1 first.keys)

deduct_all-Took :
    (ls : List Line) (r : Room)
    → OwnKeys r.inventories
    → Holds (Took r (λ k. demanded k ls)) (deduct_all ls r)
unfolding deduct_all demanded
deduct_all-Took [] r keys = record { keys = keys; left = λ k. omega arith }
deduct_all-Took (l ∷ ls) r keys =
    then_Took l ls r (deduct l r) (deduct-Took l r keys) (deduct_all-Took ls)

settled_order :
    (ls : List Line) (r : Room) (o : Outcome)
    → Holds (Took r (λ k. demanded k ls)) o
    → ((is_some (commit r o).0 ≡ true) × ((commit r o).1 ≡ r))
      ⊎ (((commit r o).0 ≡ none)
          × ((k : ℕ)
              → stock_of ((commit r o).1.inventories k) + demanded k ls
                ≡ stock_of (r.inventories k)))
settled_order ls r (refused e) h = inl (refl, refl)
settled_order ls r (done r') h = inr (refl, h.left)

-- An order is taken out of the stock, each dish by what all the lines ask of it, or an error leaves
-- everything as it was. Inventories stand under their own keys.
pub order_is_taken_or_refused :
    (ls : List Line) (r : Room)
    → OwnKeys r.inventories
    → let (e, r') = deduct_stock_for_order ls r in
      ((is_some e ≡ true) × (r' ≡ r))
      ⊎ ((e ≡ none)
          × ((k : ℕ) → stock_of (r'.inventories k) + demanded k ls ≡ stock_of (r.inventories k)))
unfolding deduct_stock_for_order
order_is_taken_or_refused ls r keys =
    settled_order ls r (deduct_all ls r) (deduct_all-Took ls r keys)

shown_at :
    (d : Dish) (stocked empty : Bool)
    → empty ≡ not stocked
    → (let opened : Dish =
          if not d.is_available && stocked then record d { is_available = true } else d in
        if opened.is_available && empty then record opened { is_available = false } else opened)
      ≡ record d { is_available = stocked }
shown_at d true empty e = elim (Bool-cases d.is_available) [
  | inl a ↦ rw (e, a) refl
  | inr a ↦ rw (e, a) refl
]
shown_at d false empty e = elim (Bool-cases d.is_available) [
  | inl a ↦ rw (e, a) refl
  | inr a ↦ rw (e, a) refl
]

shown :
    (d : Dish) (v : Inventory)
    → some (close_dish (some v) (open_dish (some v) d))
      ≡ some (record d { is_available = ltb 0 v.stock_quantity })
shown d v = ap some (shown_at d (ltb 0 v.stock_quantity) (v.stock_quantity == 0) (ground arith))

-- After a sync a dish that has an inventory is available exactly if there is stock, and other dishes
-- are as they were.
pub sync_shows_stock :
    (r : Room) (k : ℕ) (d : Dish)
    → r.dishes k ≡ some d
    → ((v : Inventory)
        → r.inventories k ≡ some v
        → (sync_availability r).dishes k
          ≡ some (record d { is_available = ltb 0 v.stock_quantity }))
      × (r.inventories k ≡ none → (sync_availability r).dishes k ≡ some d)
unfolding sync_availability
sync_shows_stock r k d found =
    (λ v stocked. rw (found, stocked) (shown d v), λ unstocked. rw (found, unstocked) refl)
