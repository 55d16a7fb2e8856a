-- ===== src/Prelude/Rows.antt =====
-- Tables as lists of rows: selecting, updating and summing them.
use Prim.Native.Nat.{ℕ, ◌+◌}
use mathlib.Core.Path.{◌≡◌, refl, ap}
use mathlib.Core.Logic.{inl, inr}
use mathlib.Core.Bool.{Bool, true, false, ◌&&◌, ◌||◌}
use mathlib.Core.Option.{Option, none, some}
use mathlib.Core.List.{List, [], ◌∷◌, map}
use native.Mathlib.Omega.{arith}
use meal_delivery.Prelude.Tests.{◌==◌, if◌then◌else◌, Bool-cases}
use meal_delivery.Prelude.Lists.{All}

unfoldable pub member : ℕ → List ℕ → Bool
member n [] = false
member n (m ∷ ms) = (m == n) || member n ms

module _ {ℓ} {A : Type ℓ} where
  -- The rows of a query's WHERE.
  unfoldable pub select : (A → Bool) → List A → List A
  select p [] = []
  select p (x ∷ xs) = let rest = select p xs in if p x then x ∷ rest else rest

  -- `UPDATE … SET f WHERE p`
  unfoldable pub update_where : (A → Bool) → (A → A) → List A → List A
  update_where p f [] = []
  update_where p f (x ∷ xs) = (if p x then f x else x) ∷ update_where p f xs

  -- `findOne`: the first row.
  unfoldable pub find_row : (A → Bool) → List A → Option A
  find_row p [] = none
  find_row p (x ∷ xs) = if p x then some x else find_row p xs

  unfoldable pub sum_of : (A → ℕ) → List A → ℕ
  sum_of f [] = 0
  sum_of f (x ∷ xs) = f x + sum_of f xs

  unfoldable pub every : (A → Bool) → List A → Bool
  every p [] = true
  every p (x ∷ xs) = p x && every p xs

  unfoldable pub any : (A → Bool) → List A → Bool
  any p [] = false
  any p (x ∷ xs) = p x || any p xs

  pub sum_of-update_where :
      (g : A → ℕ) (p : A → Bool) (f : A → A) (xs : List A)
      → ((x : A) → g (f x) ≡ g x)
      → sum_of g (update_where p f xs) ≡ sum_of g xs
  unfolding sum_of update_where
  sum_of-update_where g p f [] same = refl
  sum_of-update_where g p f (x ∷ xs) same =
      ground (arith, same x, sum_of-update_where g p f xs same)

  pub map-update_where {κ} :
      {B : Type κ} (g : A → B) (p : A → Bool) (f : A → A) (xs : List A)
      → ((x : A) → g (f x) ≡ g x)
      → map g (update_where p f xs) ≡ map g xs
  unfolding update_where
  map-update_where g p f [] same = refl
  map-update_where g p f (x ∷ xs) same = ground (arith, same x, map-update_where g p f xs same)

  pub All-update_where {κ} :
      (P : A → Type κ) (p : A → Bool) (f : A → A) (xs : List A)
      → ((x : A) → P x → P (f x))
      → All P xs
      → All P (update_where p f xs)
  unfolding update_where
  All-update_where P p f [] keep h = tt
  All-update_where P p f (x ∷ xs) keep h =
      elim (p x) as (λ b. P (if b then f x else x) × All P (update_where p f xs)) [
        | true ↦ (keep x h.0, All-update_where P p f xs keep h.1)
        | false ↦ (h.0, All-update_where P p f xs keep h.1)
      ]

  pub All-map {κ μ} :
      (P : A → Type κ) (Q : A → Type μ) (xs : List A) → ((x : A) → P x → Q x) → All P xs → All Q xs
  All-map P Q [] k h = tt
  All-map P Q (x ∷ xs) k h = (k x h.0, All-map P Q xs k h.1)

  pub All-select {κ} :
      (P : A → Type κ) (p : A → Bool) (xs : List A) → All P xs → All P (select p xs)
  unfolding select
  All-select P p [] h = tt
  All-select P p (x ∷ xs) h =
      elim (p x) as (λ b. All P (if b then x ∷ select p xs else select p xs)) [
        | true ↦ (h.0, All-select P p xs h.1)
        | false ↦ All-select P p xs h.1
      ]

  none_some : (x : A) → none ≡ some x → ⊥
  none_some x e = cc e

  pub some_injective : {x y : A} → some x ≡ some y → x ≡ y
  some_injective e = cc e

  -- The row that is found passes the test, and has what every row has.
  pub found_passes : (p : A → Bool) (x : A) (xs : List A) → find_row p xs ≡ some x → p x ≡ true
  unfolding find_row
  found_passes p x [] found = ground (arith, found)
  found_passes p x (y ∷ ys) found = elim (Bool-cases (p y)) [
    | inl c ↦ rw (← some_injective (rw c at found)) c
    | inr c ↦ found_passes p x ys (rw c at found)
  ]

  pub found_has {κ} :
      (P : A → Type κ) (p : A → Bool) (x : A) (xs : List A)
      → find_row p xs ≡ some x
      → All P xs
      → P x
  unfolding find_row
  found_has P p x [] found h = elim (none_some x found) [ ]
  found_has P p x (y ∷ ys) found h = elim (Bool-cases (p y)) [
    | inl c ↦ rw (← some_injective (rw c at found)) h.0
    | inr c ↦ found_has P p x ys (rw c at found) h.1
  ]

  -- A row that is found by another column than its key, and saved, is found again.
  pub saved_is_found :
      (key : A → ℕ) (p : A → Bool) (x y : A) (xs : List A)
      → find_row p xs ≡ some x
      → key y ≡ key x
      → p y ≡ true
      → find_row p (update_where (λ z. key z == key y) (λ z. y) xs) ≡ some y
  unfolding find_row update_where
  saved_is_found key p x y [] found same named = ground (arith, found)
  saved_is_found key p x y (z ∷ zs) found same named = elim (Bool-cases (key z == key y)) [
    | inl e ↦ rw (e, named) refl
    | inr e ↦ elim (Bool-cases (p z)) [
      | inl c ↦ ground (arith, ap key (some_injective (rw c at found)), e, same)
      | inr c ↦ rw (e, c) (saved_is_found key p x y zs (rw c at found) same named)
    ]
  ]
