-- ===== src/Reviews.antt =====
-- catalog-service/src/modules/reviews/reviews.service.ts: reviews of dishes, and the ratings that are
-- kept with the dishes and restaurants. `find` leaves soft-deleted reviews out. A dish is told with the
-- restaurant of its category; averages are in tenths of a star.
pub mod Calls
pub mod Averages
pub mod Changes
pub mod Ratings
pub mod Single
pub mod Edits
pub mod Runs
pub mod Allowed
mod Tests
use meal_delivery.Prelude.{
  ℕ, ◌+◌, ◌*◌, ◌/◌, Bool, true, false, not, ◌&&◌, Option, none, some, List, [], ◌∷◌, ◌==◌, Text,
  length, map, select, update_where, find_row, sum_of, any, member, if◌then◌else◌, ◌⊎◌, inl, inr,
  get_or, is_some,
}
use meal_delivery.Entities.{Order, OrderItem, OrderStatus}

pub record Review : Type 0 where
  pub id : ℕ
  pub menu_item_id : ℕ
  pub customer_id : ℕ
  pub order_id : ℕ
  pub rating : ℕ
  pub comment : Option Text
  pub customer_name : Text
  pub is_verified_purchase : Bool
  pub deleted : Bool

pub record MenuItem : Type 0 where
  pub id : ℕ
  pub restaurant_id : Option ℕ
  pub average_rating : Option ℕ
  pub total_reviews : ℕ

pub record Restaurant : Type 0 where
  pub id : ℕ
  pub average_rating : Option ℕ
  pub total_reviews : ℕ

pub record Store : Type 0 where
  pub reviews : List Review
  pub dishes : List MenuItem
  pub restaurants : List Restaurant
  pub orders : List Order
  pub items : List OrderItem
  pub next : ℕ

pub data Error : Type 0 where
  item_not_found already_reviewed not_ordered order_not_found not_your_order : Error
  not_in_order bad_status review_not_found not_your_review deleted_review : Error
  broker_failed : Error

pub record Distribution : Type 0 where
  pub one : ℕ
  pub two : ℕ
  pub three : ℕ
  pub four : ℕ
  pub five : ℕ

pub record Stats : Type 0 where
  pub average_rating : ℕ
  pub total_reviews : ℕ
  pub rating_distribution : Distribution

abbrev pub of_rating : ℕ → List Review → ℕ
of_rating k rs = length (select (λ r. r.rating == k) rs)

-- `Math.round(average * 10)`, a half going up
abbrev pub in_tenths : ℕ → ℕ → ℕ
in_tenths total n = if n == 0 then 0 else (20 * total + n) / (2 * n)

unfoldable pub calculate_stats : List Review → Stats
calculate_stats rs = record {
  average_rating = in_tenths (sum_of (λ r. r.rating) rs) (length rs);
  total_reviews = length rs;
  rating_distribution = record {
    one = of_rating 1 rs;
    two = of_rating 2 rs;
    three = of_rating 3 rs;
    four = of_rating 4 rs;
    five = of_rating 5 rs;
  };
}

-- The reviews that are not deleted, of the dishes that a test picks.
abbrev pub is_live : (ℕ → Bool) → Review → Bool
is_live picks r = not r.deleted && picks r.menu_item_id

abbrev pub live_reviews : (ℕ → Bool) → List Review → List Review
live_reviews picks rs = select (is_live picks) rs

-- `totalReviews > 0 ? averageRating : null`
abbrev pub cached_average : List Review → Option ℕ
cached_average rs =
    let st = calculate_stats rs in if st.total_reviews == 0 then none else some st.average_rating

abbrev pub of_dish : ℕ → ℕ → Bool
of_dish k j = j == k

abbrev pub is_dish : ℕ → MenuItem → Bool
is_dish k m = m.id == k

abbrev pub rate_dish : List Review → MenuItem → MenuItem
rate_dish rs m = record m {
  average_rating = cached_average rs;
  total_reviews = (calculate_stats rs).total_reviews;
}

unfoldable pub update_menu_item_rating : ℕ → Store → Store
update_menu_item_rating k s = record s {
  dishes = update_where (is_dish k) (rate_dish (live_reviews (of_dish k) s.reviews)) s.dishes;
}

abbrev pub served_by : ℕ → MenuItem → Bool
served_by restaurant m = elim m.restaurant_id [ none ↦ false | some j ↦ j == restaurant ]

abbrev pub menu_of : ℕ → List MenuItem → List ℕ
menu_of restaurant ms = map (λ m. m.id) (select (served_by restaurant) ms)

abbrev pub on_menu : ℕ → List MenuItem → ℕ → Bool
on_menu restaurant ms j = member j (menu_of restaurant ms)

abbrev pub rate_restaurant : List Review → Restaurant → Restaurant
rate_restaurant rs r = record r {
  average_rating = cached_average rs;
  total_reviews = (calculate_stats rs).total_reviews;
}

abbrev pub rate_at : ℕ → Store → Store
rate_at restaurant s = record s {
  restaurants =
      update_where (λ r. r.id == restaurant)
        (rate_restaurant (live_reviews (on_menu restaurant s.dishes) s.reviews)) s.restaurants;
}

abbrev pub restaurant_of : Option MenuItem → Option ℕ
restaurant_of none = none
restaurant_of (some m) = m.restaurant_id

-- The dish itself is on the menu, so the list of the menu's dishes is not empty.
unfoldable pub update_restaurant_rating : ℕ → Store → Store
update_restaurant_rating k s = elim (restaurant_of (find_row (is_dish k) s.dishes)) [
  | none ↦ s
  | some restaurant ↦ rate_at restaurant s
]

abbrev pub update_ratings : ℕ → Store → Store
update_ratings k s = update_restaurant_rating k (update_menu_item_rating k s)
