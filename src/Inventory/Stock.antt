-- ===== src/Inventory/Stock.antt =====
-- inventory.service.ts: the stock of a dish and the log of its changes.
use meal_delivery.Prelude.{
  ℕ, ◌+◌, ◌-◌, ◌≤◌, ◌≡◌, refl, sym, ap, ◌∙◌, ==_iff, ◌⊎◌, inl, inr, ◌&&◌, Option, none, some, List,
  [], ◌∷◌, ltb, ◌==◌, arith, if◌then◌else◌, Option-cases, Bool-cases,
}
use meal_delivery.Prelude.Int.{ℤ, pos, ◌+ℤ◌, ◌-ℤ◌, int_laws}
use meal_delivery.Inventory.{
  Inventory, InventoryLog, ParLevel, Room, Line, Error, Outcome, refused, done, ChangeType, deduct,
  add_stock, inventory_for, reset_one, with_stock, save_inventory, write_log, restaurant_for,
  owner_check, put_in, reset_from,
}

abbrev pub stock_of : Option Inventory → ℕ
stock_of none = 0
stock_of (some v) = v.stock_quantity

abbrev change_for : ℕ → InventoryLog → ℤ
change_for k x = if x.menu_item_id == k then x.quantity_change else pos 0

abbrev id_of : Option Inventory → ℕ
id_of none = 0
id_of (some v) = v.menu_item_id

-- The sum of the changes that are logged for a dish.
unfoldable pub logged : ℕ → List InventoryLog → ℤ
logged k [] = pos 0
logged k (x ∷ xs) = change_for k x +ℤ logged k xs

-- Inventories stand under their own keys, and the stock of each dish is the sum of its log.
pub record Logged (inventories : ℕ → Option Inventory) (logs : List InventoryLog) : Type 0 where
  pub own : (k : ℕ) (v : Inventory) → inventories k ≡ some v → v.menu_item_id ≡ k
  pub sums : (k : ℕ) → pos (stock_of (inventories k)) ≡ logged k logs

abbrev pub IsLogged : Room → Type 0
IsLogged r = Logged r.inventories r.logs

pub own_key :
    (n k : ℕ) (v w : Inventory) (found : Option Inventory)
    → (found ≡ some w → w.menu_item_id ≡ k)
    → (if v.menu_item_id == k then some (with_stock n v) else found) ≡ some w
    → w.menu_item_id ≡ k
own_key n k v w found h e = elim (Bool-cases (v.menu_item_id == k)) [
  | inl c ↦
      let saved : some (with_stock n v) ≡ some w = rw c at e in
      let same : v.menu_item_id ≡ w.menu_item_id = ap id_of saved in
      sym same ∙ (==_iff v.menu_item_id k).0 c
  | inr c ↦ h (rw c at e)
]

zero_plus : (a : ℤ) → pos 0 +ℤ a ≡ a
zero_plus a = omega int_laws

-- What is taken leads down, and what is put in leads up.
down : (s q : ℕ) → q ≤ s → pos (s - q) ≡ (pos 0 -ℤ pos q) +ℤ pos s
down s q fits = omega (int_laws, fits)

up : (s q : ℕ) → pos (s + q) ≡ pos q +ℤ pos s
up s q = omega int_laws

across : (s n : ℕ) → pos n ≡ (pos n -ℤ pos s) +ℤ pos s
across s n = omega int_laws

-- A new stock with the change that leads to it.
moved :
    (k n : ℕ) (type : ChangeType) (c : ℤ) (v : Inventory) (r : Room)
    → IsLogged r
    → v.menu_item_id ≡ k
    → pos n ≡ c +ℤ pos (stock_of (r.inventories k))
    → IsLogged (save_inventory (with_stock n v) (write_log k type c r))
unfolding logged
moved k n type c v r h named leads = record {
  own = λ j w e. own_key n j v w (r.inventories j) (h.own j w) e;
  sums = λ j. elim (Bool-cases (k == j)) [
    | inl s ↦
        let here : k ≡ j = (==_iff k j).0 s in
        rw (named, s) (rw here at leads ∙ ap (λ z. c +ℤ z) (h.sums j))
    | inr s ↦ rw (named, s) (h.sums j ∙ sym (zero_plus (logged j r.logs)))
  ];
}

-- What holds of the room that is left, if the operation is done.
abbrev pub Holds : (Room → Type 0) → Outcome → Type 0
Holds P (refused e) = Unit
Holds P (done r) = P r

pub deduct-IsLogged : (l : Line) (r : Room) → IsLogged r → Holds IsLogged (deduct l r)
unfolding deduct
deduct-IsLogged l r h = elim (Option-cases (r.inventories l.menu_item_id)) [
  | inl c ↦ rw (c, deduct) tt
  | inr (v, c) ↦ elim (Bool-cases (ltb v.stock_quantity l.quantity)) [
    | inl short ↦ rw (c, deduct, short) tt
    | inr enough ↦
        let left = v.stock_quantity - l.quantity in
        let change = pos 0 -ℤ pos l.quantity in
        let leads : pos left ≡ change +ℤ pos v.stock_quantity =
          down v.stock_quantity l.quantity (ground (arith, enough)) in
        let next =
          moved l.menu_item_id left ChangeType.order_deduction change v r h
            (h.own l.menu_item_id v c) (rw c leads) in
        rw (c, deduct, enough)
          (elim (Bool-cases (left == 0)) [ inl e ↦ rw e next | inr e ↦ rw e next ])
  ]
]

-- Of an inventory that is found or made: it stands under its own key, with the stock of the dish.
abbrev FitsAt : ℕ → Room → Error ⊎ Inventory → Type 0
FitsAt k r (inl e) = Unit
FitsAt k r (inr v) = (v.menu_item_id ≡ k) × (stock_of (r.inventories k) ≡ v.stock_quantity)

made-FitsAt :
    (k : ℕ) (r : Room) (found : Error ⊎ ℕ)
    → r.inventories k ≡ none
    → FitsAt k r (elim found [
      | inl e ↦ inl e
      | inr restaurant ↦
          inr (record { menu_item_id = k; restaurant_id = restaurant; stock_quantity = 0 })
    ])
made-FitsAt k r (inl e) c = tt
made-FitsAt k r (inr restaurant) c = (refl, rw c refl)

held-FitsAt :
    (k : ℕ) (r : Room) (v : Inventory) (e : Option Error)
    → v.menu_item_id ≡ k
    → stock_of (r.inventories k) ≡ v.stock_quantity
    → FitsAt k r (elim e [ none ↦ inr v | some x ↦ inl x ])
held-FitsAt k r v none named same = (named, same)
held-FitsAt k r v (some x) named same = tt

inventory_for-FitsAt : (k user : ℕ) (r : Room) → IsLogged r → FitsAt k r (inventory_for k user r)
unfolding inventory_for
inventory_for-FitsAt k user r h = elim (Option-cases (r.inventories k)) [
  | inl c ↦ rw (c, inventory_for) (made-FitsAt k r (restaurant_for k user r) c)
  | inr (v, c) ↦
      rw (c, inventory_for)
        (held-FitsAt k r v (owner_check v.restaurant_id user r) (h.own k v c) (rw c refl))
]

put_in-IsLogged :
    (type : ChangeType) (l : Line) (v : Inventory) (r : Room)
    → IsLogged r
    → v.menu_item_id ≡ l.menu_item_id
    → stock_of (r.inventories l.menu_item_id) ≡ v.stock_quantity
    → IsLogged (put_in type l v r)
put_in-IsLogged type l v r h named same =
    let new = v.stock_quantity + l.quantity in
    let next =
      moved l.menu_item_id new type (pos l.quantity) v r h named
        (rw same (up v.stock_quantity l.quantity)) in
    elim (Bool-cases ((v.stock_quantity == 0) && ltb 0 new)) [
      | inl e ↦ rw e next
      | inr e ↦ rw e next
    ]

add_found-IsLogged :
    (type : ChangeType) (l : Line) (r : Room) (found : Error ⊎ Inventory)
    → IsLogged r
    → FitsAt l.menu_item_id r found
    → Holds IsLogged (elim found [ inl e ↦ refused e | inr v ↦ done (put_in type l v r) ])
add_found-IsLogged type l r (inl e) h fits = tt
add_found-IsLogged type l r (inr v) h fits = put_in-IsLogged type l v r h fits.0 fits.1

pub add_stock-IsLogged :
    (type : ChangeType) (user : ℕ) (l : Line) (r : Room)
    → IsLogged r
    → Holds IsLogged (add_stock type user l r)
unfolding add_stock
add_stock-IsLogged type user l r h =
    add_found-IsLogged type l r (inventory_for l.menu_item_id user r) h
      (inventory_for-FitsAt l.menu_item_id user r h)

reset_from-IsLogged :
    (p : ParLevel) (v : Inventory) (r : Room)
    → IsLogged r
    → FitsAt p.menu_item_id r (inr v)
    → IsLogged (reset_from p v r)
reset_from-IsLogged p v r h fits =
    let next =
      moved p.menu_item_id p.par_level ChangeType.manual_update
        (pos p.par_level -ℤ pos v.stock_quantity) v r h fits.0
        (rw fits.1 (across v.stock_quantity p.par_level)) in
    elim (Bool-cases ((v.stock_quantity == 0) && ltb 0 p.par_level)) [
      | inl e ↦ rw e next
      | inr e ↦ elim (Bool-cases (ltb 0 v.stock_quantity && (p.par_level == 0))) [
        | inl c ↦ rw (e, c) next
        | inr c ↦ rw (e, c) next
      ]
    ]

pub reset_one-IsLogged : (p : ParLevel) (r : Room) → IsLogged r → Holds IsLogged (reset_one p r)
unfolding reset_one
reset_one-IsLogged p r h = elim (Option-cases (r.inventories p.menu_item_id)) [
  | inl c ↦ elim (Bool-cases (p.par_level == 0)) [
    | inl e ↦ rw (c, reset_one, e) h
    | inr e ↦ rw (c, reset_one, e) tt
  ]
  | inr (v, c) ↦ elim (Bool-cases (v.stock_quantity == p.par_level)) [
    | inl e ↦ rw (c, reset_one, e) h
    | inr e ↦
        rw (c, reset_one, e) (reset_from-IsLogged p v r h (h.own p.menu_item_id v c, rw c refl))
  ]
]
