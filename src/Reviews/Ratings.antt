-- ===== src/Reviews/Ratings.antt =====
-- reviews.service.ts: the ratings that are kept with dishes and restaurants follow the reviews.
use meal_delivery.Prelude.{
  ℕ, ◌≡◌, refl, sym, ap, ◌∙◌, ==_iff, inl, inr, Bool, false, Option, none, some, List, [], ◌∷◌,
  ◌==◌, arith, map, map-update_where, select, update_where, find_row, member, not_key-select,
  Distinct, All, All-map, Bool-cases, Option-cases,
}
use meal_delivery.Reviews.{
  Review, MenuItem, Restaurant, Store, calculate_stats, live_reviews, cached_average, of_dish,
  on_menu, menu_of, served_by, is_dish, rate_dish, rate_restaurant, restaurant_of,
  update_menu_item_rating, update_restaurant_rating, update_ratings,
}
use meal_delivery.Reviews.Changes.{Untouched}

-- What is kept is the statistics of the live reviews.
abbrev pub Kept : List Review → Option ℕ → ℕ → Type 0
Kept live average total =
    (average ≡ cached_average live) × (total ≡ (calculate_stats live).total_reviews)

abbrev pub IsRatedDish : List Review → MenuItem → Type 0
IsRatedDish rs m = Kept (live_reviews (of_dish m.id) rs) m.average_rating m.total_reviews

abbrev pub IsRatedRestaurant : List MenuItem → List Review → Restaurant → Type 0
IsRatedRestaurant ms rs r =
    Kept (live_reviews (on_menu r.id ms) rs) r.average_rating r.total_reviews

dishes_rated :
    (k : ℕ) (rs rs' : List Review) (ms : List MenuItem)
    → Untouched k rs rs'
    → All (IsRatedDish rs) ms
    → All (IsRatedDish rs') (update_where (is_dish k) (rate_dish (live_reviews (of_dish k) rs')) ms)
unfolding update_where
dishes_rated k rs rs' [] u h = tt
dishes_rated k rs rs' (m ∷ ms) u h = elim (Bool-cases (m.id == k)) [
  | inl e ↦
      let key : k ≡ m.id = sym ((==_iff m.id k).0 e) in
      let own : IsRatedDish rs' (rate_dish (live_reviews (of_dish k) rs') m) = (
        ap (λ j. cached_average (live_reviews (of_dish j) rs')) key,
        ap (λ j. (calculate_stats (live_reviews (of_dish j) rs')).total_reviews) key,
      ) in
      rw e (own, dishes_rated k rs rs' ms u h.1)
  | inr e ↦
      let other : of_dish m.id k ≡ false = ground arith in
      let same = u (of_dish m.id) other in
      let own : IsRatedDish rs' m = (
        h.0.0 ∙ ap cached_average (sym same),
        h.0.1 ∙ ap (λ l. (calculate_stats l).total_reviews) (sym same),
      ) in
      rw e (own, dishes_rated k rs rs' ms u h.1)
]

menu_kept :
    (restaurant : ℕ) (q : MenuItem → Bool) (live : List Review) (ms : List MenuItem)
    → menu_of restaurant (update_where q (rate_dish live) ms) ≡ menu_of restaurant ms
unfolding select update_where
menu_kept restaurant q live [] = refl
menu_kept restaurant q live (m ∷ ms) =
    ground (arith, Bool-cases (q m), menu_kept restaurant q live ms)

place_kept :
    (k : ℕ) (q : MenuItem → Bool) (live : List Review) (ms : List MenuItem)
    → restaurant_of (find_row (is_dish k) (update_where q (rate_dish live) ms))
      ≡ restaurant_of (find_row (is_dish k) ms)
unfolding find_row update_where
place_kept k q live [] = refl
place_kept k q live (m ∷ ms) = elim (Bool-cases (q m)) [
  | inl e ↦ elim (Bool-cases (m.id == k)) [
    | inl c ↦ rw (e, c) refl
    | inr c ↦ rw (e, c) (place_kept k q live ms)
  ]
  | inr e ↦ elim (Bool-cases (m.id == k)) [
    | inl c ↦ rw (e, c) refl
    | inr c ↦ rw (e, c) (place_kept k q live ms)
  ]
]

abbrev at_restaurant : ℕ → Option ℕ → Bool
at_restaurant restaurant o = elim o [ none ↦ false | some j ↦ j == restaurant ]

-- A dish is on no menu but that of its restaurant.
not_on_menu :
    (k restaurant : ℕ) (ms : List MenuItem)
    → Distinct (map (λ m. m.id) ms)
    → at_restaurant restaurant (restaurant_of (find_row (is_dish k) ms)) ≡ false
    → on_menu restaurant ms k ≡ false
unfolding find_row select member
not_on_menu k restaurant [] d h = refl
not_on_menu k restaurant (m ∷ ms) d h = elim (Bool-cases (m.id == k)) [
  | inl e ↦
      let key : m.id ≡ k = (==_iff m.id k).0 e in
      let away : served_by restaurant m ≡ false = rw e at h in
      rw away (not_key-select (λ (x : MenuItem). x.id) (served_by restaurant) k ms (rw key at d.0))
  | inr e ↦
      let rest = not_on_menu k restaurant ms d.1 (rw e at h) in
      elim (Bool-cases (served_by restaurant m)) [ inl c ↦ rw (c, e) rest | inr c ↦ rw c rest ]
]

other_restaurant :
    (k : ℕ) (rs rs' live : List Review) (q : MenuItem → Bool) (ms : List MenuItem) (r : Restaurant)
    → Untouched k rs rs'
    → on_menu r.id ms k ≡ false
    → IsRatedRestaurant ms rs r
    → IsRatedRestaurant (update_where q (rate_dish live) ms) rs' r
other_restaurant k rs rs' live q ms r u away h =
    let menus : live_reviews (on_menu r.id (update_where q (rate_dish live) ms)) rs'
        ≡ live_reviews (on_menu r.id ms) rs =
      ap (λ l. live_reviews (λ j. member j l) rs') (menu_kept r.id q live ms)
      ∙ u (on_menu r.id ms) away in
    (
      h.0 ∙ ap cached_average (sym menus),
      h.1 ∙ ap (λ l. (calculate_stats l).total_reviews) (sym menus),
    )

-- What is kept with the dishes and restaurants is right, and a dish has one row.
pub record AreRated (rs : List Review) (ms : List MenuItem) (ts : List Restaurant) : Type 0 where
  pub ids : Distinct (map (λ m. m.id) ms)
  pub dishes : All (IsRatedDish rs) ms
  pub restaurants : All (IsRatedRestaurant ms rs) ts

restaurants_rated :
    (k restaurant : ℕ) (rs rs' live : List Review) (q : MenuItem → Bool) (ms : List MenuItem)
    (ts : List Restaurant)
    → Untouched k rs rs'
    → Distinct (map (λ m. m.id) ms)
    → restaurant_of (find_row (is_dish k) ms) ≡ some restaurant
    → All (IsRatedRestaurant ms rs) ts
    → All (IsRatedRestaurant (update_where q (rate_dish live) ms) rs') (
        update_where
          (λ r. r.id == restaurant)
          (rate_restaurant
            (live_reviews (on_menu restaurant (update_where q (rate_dish live) ms)) rs'))
          ts)
unfolding update_where
restaurants_rated k restaurant rs rs' live q ms [] u d at h = tt
restaurants_rated k restaurant rs rs' live q ms (r ∷ ts) u d at h =
    elim (Bool-cases (r.id == restaurant)) [
      | inl e ↦
          let key : restaurant ≡ r.id = sym ((==_iff r.id restaurant).0 e) in
          let ms' : List MenuItem = update_where q (rate_dish live) ms in
          let own : IsRatedRestaurant ms' rs'
              (rate_restaurant (live_reviews (on_menu restaurant ms') rs') r) =
            (
              ap (λ j. cached_average (live_reviews (on_menu j ms') rs')) key,
              ap (λ j. (calculate_stats (live_reviews (on_menu j ms') rs')).total_reviews) key,
            ) in
          rw e (own, restaurants_rated k restaurant rs rs' live q ms ts u d at h.1)
      | inr e ↦
          let away : on_menu r.id ms k ≡ false = not_on_menu k r.id ms d (rw at (ground arith)) in
          rw e (
            other_restaurant k rs rs' live q ms r u away h.0,
            restaurants_rated k restaurant rs rs' live q ms ts u d at h.1,
          )
    ]

other_restaurants :
    (k : ℕ) (rs rs' live : List Review) (q : MenuItem → Bool) (ms : List MenuItem)
    (ts : List Restaurant)
    → Untouched k rs rs'
    → Distinct (map (λ m. m.id) ms)
    → restaurant_of (find_row (is_dish k) ms) ≡ none
    → All (IsRatedRestaurant ms rs) ts
    → All (IsRatedRestaurant (update_where q (rate_dish live) ms) rs') ts
other_restaurants k rs rs' live q ms ts u d at h =
    All-map _ _ ts
      (λ r. other_restaurant k rs rs' live q ms r u (not_on_menu k r.id ms d (rw at refl))) h

pub update_ratings-AreRated :
    (k : ℕ) (rs : List Review) (s : Store)
    → Untouched k rs s.reviews
    → AreRated rs s.dishes s.restaurants
    → AreRated s.reviews (update_ratings k s).dishes (update_ratings k s).restaurants
unfolding update_menu_item_rating update_restaurant_rating
update_ratings-AreRated k rs s u h =
    let live : List Review = live_reviews (of_dish k) s.reviews in
    let same_ids : map (λ (m : MenuItem). m.id) (update_where (is_dish k) (rate_dish live) s.dishes)
        ≡ map (λ m. m.id) s.dishes =
      map-update_where (λ m. m.id) (is_dish k) (rate_dish live) s.dishes (λ m. refl) in
    let place = place_kept k (is_dish k) live s.dishes in
    elim (Option-cases (restaurant_of (find_row (is_dish k) s.dishes))) [
      | inl e ↦
          rw (place ∙ e, update_restaurant_rating)
            (record {
              ids = rw same_ids h.ids;
              dishes = dishes_rated k rs s.reviews s.dishes u h.dishes;
              restaurants =
                  other_restaurants k rs s.reviews live (is_dish k) s.dishes s.restaurants u h.ids e
                    h.restaurants;
            })
      | inr (restaurant, e) ↦
          rw (place ∙ e, update_restaurant_rating)
            (record {
              ids = rw same_ids h.ids;
              dishes = dishes_rated k rs s.reviews s.dishes u h.dishes;
              restaurants =
                  restaurants_rated k restaurant rs s.reviews live (is_dish k) s.dishes
                    s.restaurants u h.ids e h.restaurants;
            })
    ]
