-- ===== src/Inventory/Resets.antt =====
-- inventory.service.ts: a par level of a dish without an inventory.
use meal_delivery.Prelude.{
  ℕ, ◌≡◌, refl, sym, ◌∙◌, ==_iff, inl, inr, Bool, true, false, ◌&&◌, Option, none, some, List, [],
  ◌∷◌, ltb, ◌==◌, arith, any, Option-cases, Bool-cases,
}
use meal_delivery.Prelude.Int.{pos, ◌-ℤ◌}
use meal_delivery.Inventory.{
  Inventory, ParLevel, Room, Outcome, refused, done, commit, reset_one, reset_from, follow,
  write_log, ChangeType, reset_all, handle_daily_stock_reset,
}
use meal_delivery.Inventory.Stock.{IsLogged, Holds, reset_one-IsLogged}

-- Nothing is done.
abbrev IsRefused : Outcome → Type 0
IsRefused (refused e) = Unit
IsRefused (done r) = ⊥

-- The par level of this dish, which is not zero.
abbrev pub asks_for : ℕ → ParLevel → Bool
asks_for k p = (p.menu_item_id == k) && ltb 0 p.par_level

follow_keeps : (k old new : ℕ) (r : Room) → (follow k old new r).inventories ≡ r.inventories
follow_keeps k old new r = elim (Bool-cases ((old == 0) && ltb 0 new)) [
  | inl e ↦ rw e refl
  | inr e ↦ elim (Bool-cases (ltb 0 old && (new == 0))) [
    | inl c ↦ rw (e, c) refl
    | inr c ↦ rw (e, c) refl
  ]
]

not_both : (o : Option Inventory) (v : Inventory) → o ≡ none → o ≡ some v → ⊥
not_both o v e s = cc (e, s)

still_missing :
    (k : ℕ) (p : ParLevel) (v : Inventory) (r : Room)
    → r.inventories k ≡ none
    → r.inventories p.menu_item_id ≡ some v
    → v.menu_item_id ≡ p.menu_item_id
    → (reset_from p v r).inventories k ≡ none
still_missing k p v r missing found named = elim (Bool-cases (v.menu_item_id == k)) [
  | inl e ↦
      let here : p.menu_item_id ≡ k = sym named ∙ (==_iff v.menu_item_id k).0 e in
      elim (not_both (r.inventories k) v missing (rw here at found)) [ ]
  | inr e ↦
      rw
        (
          e,
          follow_keeps p.menu_item_id v.stock_quantity p.par_level (
              write_log p.menu_item_id ChangeType.manual_update
                (pos p.par_level -ℤ pos v.stock_quantity) r),
        )
        missing
]

-- A room in which a dish has no inventory.
record Lacks (k : ℕ) (r : Room) : Type 0 where
  logged : IsLogged r
  missing : r.inventories k ≡ none

reset_one-Lacks : (k : ℕ) (p : ParLevel) (r : Room) → Lacks k r → Holds (Lacks k) (reset_one p r)
unfolding reset_one
reset_one-Lacks k p r h = elim (Option-cases (r.inventories p.menu_item_id)) [
  | inl c ↦ elim (Bool-cases (p.par_level == 0)) [
    | inl e ↦ rw (c, reset_one, e) h
    | inr e ↦ rw (c, reset_one, e) tt
  ]
  | inr (v, c) ↦ elim (Bool-cases (v.stock_quantity == p.par_level)) [
    | inl e ↦ rw (c, reset_one, e) h
    | inr e ↦
        let named = h.logged.own p.menu_item_id v c in
        rw (c, reset_one, e)
          (record {
            logged = rw (c, reset_one, e) at (reset_one-IsLogged p r h.logged);
            missing = still_missing k p v r h.missing c named;
          })
  ]
]

reset_one-IsRefused :
    (k : ℕ) (p : ParLevel) (r : Room) → asks_for k p ≡ true → Lacks k r → IsRefused (reset_one p r)
unfolding reset_one
reset_one-IsRefused k p r asks h =
    let here : p.menu_item_id ≡ k = ground (arith, asks) in
    let more : (p.par_level == 0) ≡ false = ground (arith, asks) in
    let gone : r.inventories p.menu_item_id ≡ none = rw here h.missing in
    rw (gone, reset_one, more) tt

then_refused :
    (k : ℕ) (o : Outcome) (f : Room → Outcome)
    → Holds (Lacks k) o
    → ((r : Room) → Lacks k r → IsRefused (f r))
    → IsRefused (elim o [ refused e ↦ refused e | done r ↦ f r ])
then_refused k (refused e) f h g = tt
then_refused k (done r) f h g = g r h

stays_refused :
    (o : Outcome) (f : Room → Outcome)
    → IsRefused o
    → IsRefused (elim o [ refused e ↦ refused e | done r ↦ f r ])
stays_refused (refused e) f h = tt
stays_refused (done r) f h = elim h [ ]

reset_all-IsRefused :
    (k : ℕ) (ps : List ParLevel) (r : Room)
    → any (asks_for k) ps ≡ true
    → Lacks k r
    → IsRefused (reset_all ps r)
unfolding reset_all any
reset_all-IsRefused k [] r asks h = ground (arith, asks)
reset_all-IsRefused k (p ∷ ps) r asks h = elim (Bool-cases (asks_for k p)) [
  | inl e ↦ stays_refused (reset_one p r) (reset_all ps) (reset_one-IsRefused k p r e h)
  | inr e ↦
      then_refused k (reset_one p r) (reset_all ps) (reset_one-Lacks k p r h)
        (λ r1. reset_all-IsRefused k ps r1 (ground (arith, asks, e)))
]

refused_changes_nothing : (o : Outcome) (r : Room) → IsRefused o → (commit r o).1 ≡ r
refused_changes_nothing (refused e) r h = refl
refused_changes_nothing (done r') r h = elim h [ ]

-- As long as one dish with a par level above zero has no inventory, the daily reset changes nothing,
-- for no restaurant. Inventories stand under their own keys, and stocks are the sums of their logs.
pub one_missing_stops_reset :
    (k : ℕ) (r : Room)
    → IsLogged r
    → r.inventories k ≡ none
    → any (asks_for k) r.par_levels ≡ true
    → handle_daily_stock_reset r ≡ r
unfolding handle_daily_stock_reset
one_missing_stops_reset k r h missing asks =
    refused_changes_nothing (reset_all r.par_levels r) r
      (reset_all-IsRefused k r.par_levels r asks (record { logged = h; missing = missing }))
