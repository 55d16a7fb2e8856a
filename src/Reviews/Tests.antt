-- ===== src/Reviews/Tests.antt =====
-- Two dishes of a restaurant, an order of the first, and one review.
use meal_delivery.Prelude.{
  Bool, ◌≤◌, ◌≡◌, refl, true, false, none, some, List, [], ◌∷◌, arith, length, select, All, sum_of,
  member, any, find_row,
}
use meal_delivery.Entities.{OrderItem}
use meal_delivery.Fixtures.{paid_order}
use meal_delivery.Reviews.{Review, MenuItem, Restaurant, Store, calculate_stats}
use meal_delivery.Reviews.Calls.{CreateReviewDto, Message, create, can_review, written_by}
use meal_delivery.Reviews.Averages.{sum_of_counts, IsNearest, stats_in_range}
use meal_delivery.Reviews.Ratings.{IsRatedDish, IsRatedRestaurant}
use meal_delivery.Reviews.Edits.{IsSound}
use meal_delivery.Reviews.Runs.{Call, perform_all, ratings_follow_reviews, one_live_review}
use meal_delivery.Reviews.Allowed.{Follows, says_yes, create_as_told}

abbrev soup : MenuItem
soup = record { id = 5; restaurant_id = some 7; average_rating = some 40; total_reviews = 1 }

abbrev tea : MenuItem
tea = record { id = 6; restaurant_id = some 7; average_rating = none; total_reviews = 0 }

abbrev diner : Restaurant
diner = record { id = 7; average_rating = some 40; total_reviews = 1 }

abbrev praise : Review
praise = record {
  id = 2;
  menu_item_id = 5;
  customer_id = 11;
  order_id = 3;
  rating = 4;
  comment = none;
  customer_name = b'a' ∷ [];
  is_verified_purchase = true;
  deleted = false;
}

abbrev bowl : OrderItem
bowl = record { order_id = 1; menu_item_id = 5; unit_price = 1000; quantity = 2; subtotal = 2000 }

abbrev store : Store
store = record {
  reviews = praise ∷ [];
  dishes = soup ∷ tea ∷ [];
  restaurants = diner ∷ [];
  orders = paid_order ∷ [];
  items = bowl ∷ [];
  next = 9;
}

abbrev opinion : CreateReviewDto
opinion = record { menu_item_id = 5; rating = 5; comment = none; order_id = none }

abbrev takes : Message → Bool
takes m = true

-- A broker that is away.
abbrev drops : Message → Bool
drops m = false

-- Two attempts at a review, a change of it, and the removal of the older review.
abbrev calls : List Call
calls =
    Call.write drops 10 (b'b' ∷ []) opinion
    ∷ Call.write takes 10 (b'b' ∷ []) opinion
    ∷ Call.change takes 10 9 (record { rating = some 2; comment = none })
    ∷ Call.remove takes 11 2
    ∷ []

store-IsSound : IsSound store
unfolding calculate_stats select sum_of member
store-IsSound = record {
  rated = record {
    ids = (refl, (refl, tt));
    dishes = ((refl, refl), ((refl, refl), tt));
    restaurants = ((refl, refl), tt);
  };
  ids = (refl, tt);
  old = (omega arith, tt);
  single = (λ alive. tt, tt);
}

ratings_follow_reviews_example :
    All (IsRatedDish (perform_all calls store).reviews) (perform_all calls store).dishes
    × All
        (IsRatedRestaurant (perform_all calls store).dishes (perform_all calls store).reviews)
        (perform_all calls store).restaurants
ratings_follow_reviews_example = ratings_follow_reviews calls store store-IsSound

one_live_review_example : length (select (written_by 10 5) (perform_all calls store).reviews) ≤ 1
one_live_review_example = one_live_review calls store 10 5 store-IsSound

stats_in_range_example :
    (sum_of_counts (calculate_stats (praise ∷ [])).rating_distribution
      ≡ (calculate_stats (praise ∷ [])).total_reviews)
    × (10 ≤ (calculate_stats (praise ∷ [])).average_rating)
    × ((calculate_stats (praise ∷ [])).average_rating ≤ 50)
    × IsNearest
        (sum_of (λ r. r.rating) (praise ∷ []))
        1
        (calculate_stats (praise ∷ [])).average_rating
stats_in_range_example = stats_in_range (praise ∷ []) ((omega arith, omega arith), tt) (omega arith)

create_as_told_example :
    let (r, s') = create takes 10 (b'b' ∷ []) opinion store in
    Follows takes 10 opinion store (says_yes (can_review 10 5 store)) r s'
create_as_told_example = create_as_told takes 10 (b'b' ∷ []) opinion store refl

told_yes : says_yes (can_review 10 5 store) ≡ true
unfolding can_review find_row any
told_yes = refl
