-- ===== src/Reviews/Edits.antt =====
-- reviews.service.ts: each call that writes keeps the tables sound.
use meal_delivery.Prelude.{
  ℕ, ◌<◌, ◌≡◌, refl, inl, inr, ◌⊎◌, Bool, false, none, some, List, [], ◌∷◌, ◌==◌, Text, arith, map,
  map-update_where, find_row, member, Distinct, All, All-map, All-update_where, Bool-cases,
  Option-cases,
}
use meal_delivery.Reviews.{
  Review, Store, Error, update_ratings, update_menu_item_rating, update_restaurant_rating,
  restaurant_of, is_dish,
}
use meal_delivery.Reviews.Calls.{
  CreateReviewDto, UpdateReviewDto, Message, create, update, delete, save_review, review_order,
  add_review, new_review, rewrite, edit, soft_remove, by_id, written_by,
}
use meal_delivery.Reviews.Changes.{Untouched, added-Untouched, rewritten-Untouched, found-OnlyOf}
use meal_delivery.Reviews.Ratings.{AreRated, update_ratings-AreRated}
use meal_delivery.Reviews.Single.{NoTwins, IsEdit, none_found, NoTwins-update_where}

-- Reviews and dishes have one row each, ids of reviews were given out, no customer has two live reviews
-- of a dish, and the ratings that are kept are right.
pub record IsSound (s : Store) : Type 0 where
  pub rated : AreRated s.reviews s.dishes s.restaurants
  pub ids : Distinct (map (λ r. r.id) s.reviews)
  pub old : All (λ r. r.id < s.next) s.reviews
  pub single : NoTwins s.reviews

pub reviews_kept :
    (k : ℕ) (s : Store)
    → ((update_ratings k s).reviews ≡ s.reviews) × ((update_ratings k s).next ≡ s.next)
unfolding update_restaurant_rating update_menu_item_rating
reviews_kept k s =
    let s1 : Store = update_menu_item_rating k s in
    elim (Option-cases (restaurant_of (find_row (is_dish k) s1.dishes))) [
      | inl e ↦ rw (e, update_restaurant_rating) (refl, refl)
      | inr (restaurant, e) ↦ rw (e, update_restaurant_rating) (refl, refl)
    ]

-- A change of reviews that is followed by the ratings.
followed :
    (k : ℕ) (rs : List Review) (s : Store)
    → Untouched k rs s.reviews
    → AreRated rs s.dishes s.restaurants
    → Distinct (map (λ r. r.id) s.reviews)
    → All (λ r. r.id < s.next) s.reviews
    → NoTwins s.reviews
    → IsSound (update_ratings k s)
followed k rs s u rated ids old single =
    let kept = reviews_kept k s in
    record {
      rated = rw kept.0 (update_ratings-AreRated k rs s u rated);
      ids = rw kept.0 ids;
      old = rw (kept.0, kept.1) old;
      single = rw kept.0 single;
    }

fresh_review :
    (n : ℕ) (rs : List Review) → All (λ r. r.id < n) rs → member n (map (λ r. r.id) rs) ≡ false
unfolding member
fresh_review n [] h = refl
fresh_review n (r ∷ rs) h = ground (arith, h.0, fresh_review n rs h.1)

allowed_has_none :
    (customer : ℕ) (d : CreateReviewDto) (s : Store) (o : ℕ)
    → review_order customer d s ≡ inr o
    → find_row (written_by customer d.menu_item_id) s.reviews ≡ none
unfolding review_order
allowed_has_none customer d s o ok =
    elim (Option-cases (find_row (written_by customer d.menu_item_id) s.reviews)) [
      | inl e ↦ e
      | inr (r, e) ↦ elim (Option-cases (find_row (is_dish d.menu_item_id) s.dishes)) [
        | inl m ↦ elim (wrong Error.item_not_found (rw (m, review_order) at ok)) [ ]
        | inr (x, m) ↦ elim (wrong Error.already_reviewed (rw (m, review_order, e) at ok)) [ ]
      ]
    ]
  where
    wrong : (e : Error) → inl e ≡ inr o → ⊥
    wrong e p = cc p

order_cases : (r : Error ⊎ ℕ) → ((o : ℕ) × (r ≡ inr o)) ⊎ ((e : Error) × (r ≡ inl e))
order_cases (inl e) = inr (e, refl)
order_cases (inr o) = inl (o, refl)

pub create-IsSound :
    (accepts : Message → Bool) (customer : ℕ) (name : Text) (d : CreateReviewDto) (s : Store)
    → IsSound s
    → IsSound (create accepts customer name d s).1
unfolding create save_review
create-IsSound accepts customer name d s h = elim (order_cases (review_order customer d s)) [
  | inr (x, e) ↦ rw (e, save_review) h
  | inl (o, e) ↦
      let r : Review = new_review customer name d o s.next in
      rw (e, save_review)
        (followed d.menu_item_id s.reviews (add_review r s) (added-Untouched r s.reviews) h.rated
          (fresh_review s.next s.reviews h.old, h.ids)
          (omega arith, All-map _ _ s.reviews (λ x b. omega (arith, b)) h.old)
          (λ alive. none_found _ s.reviews (allowed_has_none customer d s o e), h.single))
]

rewrite-IsSound :
    (f : Review → Review) (n : ℕ) (r : Review) (s : Store)
    → IsEdit f
    → find_row (by_id n) s.reviews ≡ some r
    → IsSound s
    → IsSound (update_ratings r.menu_item_id (rewrite f r s))
rewrite-IsSound f n r s e found h =
    let q : Review → Bool = λ x. x.id == r.id in
    let same_ids = map-update_where (λ x. x.id) q f s.reviews e.id in
    followed r.menu_item_id s.reviews (rewrite f r s)
      (rewritten-Untouched f r.id r.menu_item_id s.reviews e.dish
        (found-OnlyOf n r s.reviews h.ids found))
      h.rated (rw same_ids h.ids)
      (All-update_where _ q f s.reviews (λ x b. omega (arith, b, e.id x)) h.old)
      (NoTwins-update_where f q s.reviews e h.single)

edit-IsEdit : (d : UpdateReviewDto) → IsEdit (edit d)
edit-IsEdit d = record { id = λ r. refl; customer = λ r. refl; dish = λ r. refl; gone = λ r h. h }

remove-IsEdit : IsEdit soft_remove
remove-IsEdit = record {
  id = λ r. refl;
  customer = λ r. refl;
  dish = λ r. refl;
  gone = λ r h. refl;
}

pub update-IsSound :
    (accepts : Message → Bool) (customer k : ℕ) (d : UpdateReviewDto) (s : Store)
    → IsSound s
    → IsSound (update accepts customer k d s).1
unfolding update
update-IsSound accepts customer k d s h = elim (Option-cases (find_row (by_id k) s.reviews)) [
  | inl e ↦ rw (e, update) h
  | inr (r, e) ↦ elim (Bool-cases (r.customer_id == customer)) [
    | inr c ↦ rw (e, update, c) h
    | inl c ↦ elim (Bool-cases r.deleted) [
      | inl g ↦ rw (e, update, c, g) h
      | inr g ↦ rw (e, update, c, g) (rewrite-IsSound (edit d) k r s (edit-IsEdit d) e h)
    ]
  ]
]

pub delete-IsSound :
    (accepts : Message → Bool) (customer k : ℕ) (s : Store)
    → IsSound s
    → IsSound (delete accepts customer k s).1
unfolding delete
delete-IsSound accepts customer k s h = elim (Option-cases (find_row (by_id k) s.reviews)) [
  | inl e ↦ rw (e, delete) h
  | inr (r, e) ↦ elim (Bool-cases (r.customer_id == customer)) [
    | inr c ↦ rw (e, delete, c) h
    | inl c ↦ rw (e, delete, c) (rewrite-IsSound soft_remove k r s remove-IsEdit e h)
  ]
]
