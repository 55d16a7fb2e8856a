-- ===== src/Reviews/Averages.antt =====
-- reviews.service.ts: the statistics of ratings from 1 to 5.
use native.Mathlib.Nat.{mul-div-le, lt-mul-div-succ, le-div_iff_mul-le, div-lt_iff_lt-mul}
use meal_delivery.Prelude.{
  ℕ, ◌+◌, ◌*◌, ◌/◌, ◌≤◌, ◌<◌, ◌≡◌, false, List, [], ◌∷◌, ◌==◌, arith, length, select, sum_of, All,
}
use meal_delivery.Reviews.{Review, Distribution, calculate_stats, in_tenths, of_rating}

-- What the DTOs let through.
abbrev pub IsRating : Review → Type 0
IsRating r = (1 ≤ r.rating) × (r.rating ≤ 5)

sum_in_range :
    (rs : List Review)
    → All IsRating rs
    → (length rs ≤ sum_of (λ r. r.rating) rs) × (sum_of (λ r. r.rating) rs ≤ 5 * length rs)
unfolding sum_of
sum_in_range [] h = omega arith
sum_in_range (r ∷ rs) h =
    let rest = sum_in_range rs h.1 in (omega (arith, h.0, rest), omega (arith, h.0, rest))

in_tenths_range :
    (total n : ℕ)
    → 0 < n
    → n ≤ total
    → total ≤ 5 * n
    → (10 ≤ in_tenths total n) × (in_tenths total n ≤ 50)
in_tenths_range total n pos low high =
    let nonzero : (n == 0) ≡ false = ground arith in
    let twice : 0 < 2 * n = omega arith in
    let above : 10 * (2 * n) ≤ 20 * total + n = omega arith in
    let below : 20 * total + n < 51 * (2 * n) = omega arith in
    let under : (20 * total + n) / (2 * n) < 51 = (div-lt_iff_lt-mul twice).1 below in
    rw nonzero ((le-div_iff_mul-le twice).1 above, omega (arith, under))

counts_add_up :
    (rs : List Review)
    → All IsRating rs
    → of_rating 1 rs + of_rating 2 rs + of_rating 3 rs + of_rating 4 rs + of_rating 5 rs ≡ length rs
unfolding select
counts_add_up [] h = omega arith
counts_add_up (r ∷ rs) h = ground (arith, counts_add_up rs h.1, h.0)

abbrev pub sum_of_counts : Distribution → ℕ
sum_of_counts d = d.one + d.two + d.three + d.four + d.five

-- The tenth nearest to a quotient, a half going up.
abbrev pub IsNearest : ℕ → ℕ → ℕ → Type 0
IsNearest total n tenths =
    (2 * n * tenths ≤ 20 * total + n) × (20 * total + n < 2 * n * (tenths + 1))

in_tenths-IsNearest : (total n : ℕ) → 0 < n → IsNearest total n (in_tenths total n)
in_tenths-IsNearest total n pos =
    let nonzero : (n == 0) ≡ false = ground arith in
    let twice : 0 < 2 * n = omega arith in
    rw nonzero (mul-div-le (20 * total + n) (2 * n), lt-mul-div-succ (20 * total + n) twice)

-- If every rating lies between 1 and 5 and there is a review, the counts of the ratings add up to the
-- number of reviews, the average lies between one and five stars, and it is the sum of the ratings over
-- their number, rounded to the nearest tenth, a half going up.
pub stats_in_range :
    (rs : List Review)
    → All IsRating rs
    → 0 < length rs
    → (sum_of_counts (calculate_stats rs).rating_distribution ≡ (calculate_stats rs).total_reviews)
      × (10 ≤ (calculate_stats rs).average_rating)
      × ((calculate_stats rs).average_rating ≤ 50)
      × IsNearest (sum_of (λ r. r.rating) rs) (length rs) (calculate_stats rs).average_rating
unfolding calculate_stats
stats_in_range rs h some_review =
    let range = sum_in_range rs h in
    let total : ℕ = sum_of (λ r. r.rating) rs in
    let average = in_tenths_range total (length rs) some_review range.0 range.1 in
    (counts_add_up rs h, average.0, average.1, in_tenths-IsNearest total (length rs) some_review)
