-- ===== src/Reviews/Changes.antt =====
-- reviews.service.ts: which reviews of other dishes a change of a review leaves alone: all of them.
use meal_delivery.Prelude.{
  ℕ, ◌≡◌, refl, ap, ==_iff, inl, inr, Bool, true, false, some, List, [], ◌∷◌, ◌==◌, arith, map,
  select, update_where, find_row, member, Distinct, All, All-map, apart, some_injective, Bool-cases,
}
use meal_delivery.Reviews.{Review, live_reviews}
use meal_delivery.Reviews.Calls.{by_id}

-- The live reviews of dishes other than this one stay as they are.
abbrev pub Untouched : ℕ → List Review → List Review → Type 0
Untouched k rs rs' =
    (picks : ℕ → Bool) → picks k ≡ false → live_reviews picks rs' ≡ live_reviews picks rs

pub added-Untouched : (r : Review) (rs : List Review) → Untouched r.menu_item_id rs (r ∷ rs)
unfolding select
added-Untouched r rs picks h = ground (arith, h)

-- Whatever review has this id is of this dish.
abbrev pub OnlyOf : ℕ → ℕ → Review → Type 0
OnlyOf n k x = (x.id == n) ≡ true → x.menu_item_id ≡ k

pub rewritten-Untouched :
    (f : Review → Review) (n k : ℕ) (rs : List Review)
    → ((x : Review) → (f x).menu_item_id ≡ x.menu_item_id)
    → All (OnlyOf n k) rs
    → Untouched k rs (update_where (λ x. x.id == n) f rs)
unfolding select update_where
rewritten-Untouched f n k [] keeps own picks h = refl
rewritten-Untouched f n k (x ∷ xs) keeps own picks h = elim (Bool-cases (x.id == n)) [
  | inl e ↦
      let here : picks x.menu_item_id ≡ false = rw (own.0 e) h in
      let there : picks (f x).menu_item_id ≡ false = rw (keeps x) here in
      rw e (ground (arith, here, there, rewritten-Untouched f n k xs keeps own.1 picks h))
  | inr e ↦ rw e (ground (arith, rewritten-Untouched f n k xs keeps own.1 picks h))
]

found_is_member :
    (p : Review → Bool) (r : Review) (rs : List Review)
    → find_row p rs ≡ some r
    → member r.id (map (λ x. x.id) rs) ≡ true
unfolding find_row member
found_is_member p r [] found = ground (arith, found)
found_is_member p r (x ∷ xs) found = elim (Bool-cases (p x)) [
  | inl e ↦
      let here : x.id ≡ r.id = ap (λ (y : Review). y.id) (some_injective (rw e at found)) in
      ground (arith, here)
  | inr e ↦ ground (arith, found_is_member p r xs (rw e at found))
]

pub found-OnlyOf :
    (n : ℕ) (r : Review) (rs : List Review)
    → Distinct (map (λ x. x.id) rs)
    → find_row (by_id n) rs ≡ some r
    → All (OnlyOf r.id r.menu_item_id) rs
unfolding find_row
found-OnlyOf n r [] d found = tt
found-OnlyOf n r (x ∷ xs) d found = elim (Bool-cases (by_id n x)) [
  | inl e ↦
      let here : x ≡ r = some_injective (rw e at found) in
      rw (← here) (
        λ same. refl,
        All-map _ _ xs (λ y other same. ground (arith, other, same))
            (apart (λ (y : Review). y.id) x.id xs d.0),
      )
  | inr e ↦
      let rest : find_row (by_id n) xs ≡ some r = rw e at found in
      (
        λ same.
            let key : x.id ≡ r.id = (==_iff x.id r.id).0 same in
            let clash : member x.id (map (λ y. y.id) xs) ≡ true =
              rw key (found_is_member (by_id n) r xs rest) in
            ground (arith, clash, d.0),
        found-OnlyOf n r xs d.1 rest,
      )
]
