-- ===== src/Reviews/Single.antt =====
-- reviews.service.ts: a customer's reviews of one dish.
use meal_delivery.Prelude.{
  ℕ, ◌≤◌, ◌≡◌, refl, inl, inr, Bool, true, false, none, some, List, [], ◌∷◌, arith, length, select,
  update_where, find_row, All, All-map, All-update_where, Bool-cases,
}
use meal_delivery.Reviews.{Review}
use meal_delivery.Reviews.Calls.{written_by}

-- No older live review is by the same customer on the same dish.
abbrev NoTwinIn : List Review → Review → Type 0
NoTwinIn rs r = r.deleted ≡ false → All (λ x. written_by r.customer_id r.menu_item_id x ≡ false) rs

abbrev pub NoTwins : List Review → Type 0
NoTwins [] = Unit
NoTwins (r ∷ rs) = NoTwinIn rs r × NoTwins rs

-- What an edit leaves as it is; a deleted review stays deleted.
pub record IsEdit (f : Review → Review) : Type 0 where
  pub id : (r : Review) → (f r).id ≡ r.id
  pub customer : (r : Review) → (f r).customer_id ≡ r.customer_id
  pub dish : (r : Review) → (f r).menu_item_id ≡ r.menu_item_id
  pub gone : (r : Review) → r.deleted ≡ true → (f r).deleted ≡ true

pub none_found :
    (p : Review → Bool) (rs : List Review) → find_row p rs ≡ none → All (λ x. p x ≡ false) rs
unfolding find_row
none_found p [] h = tt
none_found p (x ∷ xs) h = elim (Bool-cases (p x)) [
  | inl e ↦ elim (found_some x (rw e at h)) [ ]
  | inr e ↦ (e, none_found p xs (rw e at h))
]
  where
    found_some : (x : Review) → some x ≡ none → ⊥
    found_some x e = cc e

still_not_by :
    (f : Review → Review) (customer k : ℕ) (x : Review)
    → IsEdit f
    → written_by customer k x ≡ false
    → written_by customer k (f x) ≡ false
still_not_by f customer k x e h = elim (Bool-cases x.deleted) [
  | inl d ↦ ground (arith, e.gone x d)
  | inr d ↦ ground (arith, e.customer x, e.dish x, h, d)
]

NoTwinIn-update_where :
    (f : Review → Review) (p : Review → Bool) (r : Review) (rs : List Review)
    → IsEdit f
    → NoTwinIn rs r
    → NoTwinIn (update_where p f rs) r
NoTwinIn-update_where f p r rs e h alive =
    All-update_where _ p f rs (λ x. still_not_by f r.customer_id r.menu_item_id x e) (h alive)

edited-NoTwinIn :
    (f : Review → Review) (r : Review) (rs : List Review)
    → IsEdit f
    → NoTwinIn rs r
    → NoTwinIn rs (f r)
edited-NoTwinIn f r rs e h alive = elim (Bool-cases r.deleted) [
  | inl d ↦ elim (both (f r).deleted (e.gone r d) alive) [ ]
  | inr d ↦ rw (e.customer r, e.dish r) (h d)
]
  where
    both : (b : Bool) → b ≡ true → b ≡ false → ⊥
    both b p q = cc (p, q)

pub NoTwins-update_where :
    (f : Review → Review) (p : Review → Bool) (rs : List Review)
    → IsEdit f
    → NoTwins rs
    → NoTwins (update_where p f rs)
unfolding update_where
NoTwins-update_where f p [] e h = tt
NoTwins-update_where f p (r ∷ rs) e h = elim (Bool-cases (p r)) [
  | inl c ↦ rw c (
    NoTwinIn-update_where f p (f r) rs e (edited-NoTwinIn f r rs e h.0),
    NoTwins-update_where f p rs e h.1,
  )
  | inr c ↦ rw c (NoTwinIn-update_where f p r rs e h.0, NoTwins-update_where f p rs e h.1)
]

none_counted :
    (p : Review → Bool) (rs : List Review) → All (λ x. p x ≡ false) rs → length (select p rs) ≡ 0
unfolding select
none_counted p [] h = refl
none_counted p (x ∷ xs) h = rw h.0 (none_counted p xs h.1)

pub at_most_one_review :
    (customer k : ℕ) (rs : List Review)
    → NoTwins rs
    → length (select (written_by customer k) rs) ≤ 1
unfolding select
at_most_one_review customer k [] h = omega arith
at_most_one_review customer k (r ∷ rs) h = elim (Bool-cases (written_by customer k r)) [
  | inl c ↦
      let older : All (λ x. written_by r.customer_id r.menu_item_id x ≡ false) rs =
        h.0 (ground arith) in
      let others : All (λ x. written_by customer k x ≡ false) rs =
        All-map _ _ rs (λ x o. ground (arith, c, o)) older in
      rw c (omega (arith, none_counted (written_by customer k) rs others))
  | inr c ↦ rw c (at_most_one_review customer k rs h.1)
]
