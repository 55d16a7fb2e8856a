-- ===== src/Reviews/Runs.antt =====
-- reviews.service.ts: the calls that write, and runs of them.
use meal_delivery.Prelude.{ℕ, Bool, ◌≤◌, List, [], ◌∷◌, Text, length, select, All}
use meal_delivery.Reviews.{Store}
use meal_delivery.Reviews.Calls.{
  CreateReviewDto, UpdateReviewDto, Message, create, update, delete, written_by,
}
use meal_delivery.Reviews.Ratings.{IsRatedDish, IsRatedRestaurant}
use meal_delivery.Reviews.Single.{at_most_one_review}
use meal_delivery.Reviews.Edits.{IsSound, create-IsSound, update-IsSound, delete-IsSound}

pub data Call : Type 0 where
  write : (Message → Bool) → ℕ → Text → CreateReviewDto → Call
  change : (Message → Bool) → ℕ → ℕ → UpdateReviewDto → Call
  remove : (Message → Bool) → ℕ → ℕ → Call

unfoldable pub perform : Call → Store → Store
perform (write accepts customer name d) s = (create accepts customer name d s).1
perform (change accepts customer k d) s = (update accepts customer k d s).1
perform (remove accepts customer k) s = (delete accepts customer k s).1

unfoldable pub perform_all : List Call → Store → Store
perform_all [] s = s
perform_all (c ∷ cs) s = perform_all cs (perform c s)

perform_all-IsSound : (cs : List Call) (s : Store) → IsSound s → IsSound (perform_all cs s)
unfolding perform_all perform
perform_all-IsSound [] s h = h
perform_all-IsSound (write accepts customer name d ∷ cs) s h =
    perform_all-IsSound cs _ (create-IsSound accepts customer name d s h)
perform_all-IsSound (change accepts customer k d ∷ cs) s h =
    perform_all-IsSound cs _ (update-IsSound accepts customer k d s h)
perform_all-IsSound (remove accepts customer k ∷ cs) s h =
    perform_all-IsSound cs _ (delete-IsSound accepts customer k s h)

-- Where reviews and dishes have one row each and the ratings that are kept are right to begin with, they
-- are right after any calls: those of a dish are the statistics of its live reviews, and those of a
-- restaurant the statistics of the live reviews of the dishes on its menu.
pub ratings_follow_reviews :
    (cs : List Call) (s : Store)
    → IsSound s
    → All (IsRatedDish (perform_all cs s).reviews) (perform_all cs s).dishes
      × All
          (IsRatedRestaurant (perform_all cs s).dishes (perform_all cs s).reviews)
          (perform_all cs s).restaurants
ratings_follow_reviews cs s h =
    let after = perform_all-IsSound cs s h in (after.rated.dishes, after.rated.restaurants)

-- If no customer has two live reviews of one dish to begin with, none has after any calls, where
-- reviews and dishes have one row each and the ratings that are kept are right.
pub one_live_review :
    (cs : List Call) (s : Store) (customer k : ℕ)
    → IsSound s
    → length (select (written_by customer k) (perform_all cs s).reviews) ≤ 1
one_live_review cs s customer k h =
    at_most_one_review customer k (perform_all cs s).reviews (perform_all-IsSound cs s h).single
