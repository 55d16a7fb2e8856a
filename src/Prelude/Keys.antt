-- ===== src/Prelude/Keys.antt =====
-- Rows under distinct keys: updating by the keys of a selection is updating the selection.
use Prim.Native.Nat.{ℕ, ◌<◌}
use mathlib.Core.Path.{◌≡◌, refl}
use mathlib.Core.Logic.{inl, inr}
use mathlib.Core.Bool.{Bool, true, false, not, ◌||◌}
use mathlib.Core.List.{List, [], ◌∷◌, ◌++◌, map}
use native.Mathlib.Omega.{arith}
use meal_delivery.Prelude.Tests.{◌==◌, if◌then◌else◌, Bool-cases}
use meal_delivery.Prelude.Lists.{All}
use meal_delivery.Prelude.Rows.{member, select, update_where}

abbrev pub Distinct : List ℕ → Type 0
Distinct [] = Unit
Distinct (n ∷ ns) = (member n ns ≡ false) × Distinct ns

pub not_member-select :
    (p : ℕ → Bool) (n : ℕ) (ns : List ℕ) → member n ns ≡ false → member n (select p ns) ≡ false
unfolding member select
not_member-select p n [] h = refl
not_member-select p n (m ∷ ms) h = ground (arith, not_member-select p n ms)

pub Distinct-select : (p : ℕ → Bool) (ns : List ℕ) → Distinct ns → Distinct (select p ns)
unfolding select
Distinct-select p [] h = tt
Distinct-select p (n ∷ ns) h =
    elim (p n) as (λ b. Distinct (if b then n ∷ select p ns else select p ns)) [
      | true ↦ (not_member-select p n ns h.0, Distinct-select p ns h.1)
      | false ↦ Distinct-select p ns h.1
    ]

pub removed : (n : ℕ) (ns : List ℕ) → member n (select (λ r. not (r == n)) ns) ≡ false
unfolding member select
removed n [] = refl
removed n (m ∷ ms) = ground (arith, removed n ms)

module _ {ℓ} {A : Type ℓ} (key : A → ℕ) where
  pub not_key-select :
      (p : A → Bool) (n : ℕ) (xs : List A)
      → member n (map key xs) ≡ false
      → member n (map key (select p xs)) ≡ false
  unfolding member select
  not_key-select p n [] h = refl
  not_key-select p n (x ∷ xs) h = ground (arith, not_key-select p n xs)

  -- Keys that are not among some keys differ from each of them.
  pub apart :
      (n : ℕ) (xs : List A) → member n (map key xs) ≡ false → All (λ x. (n == key x) ≡ false) xs
  unfolding member
  apart n [] h = tt
  apart n (x ∷ xs) h = (ground arith, apart n xs (ground arith))

  member-more :
      (p : A → Bool) (x : A) (ys zs : List A)
      → All (λ y. (key x == key y) ≡ false) ys
      → All (λ y. member (key y) (map key (select p zs)) ≡ p y) ys
      → All (λ y. member (key y) (map key (select p (x ∷ zs))) ≡ p y) ys
  unfolding member select
  member-more p x [] zs a h = tt
  member-more p x (y ∷ ys) zs a h = (ground (arith, a.0, h.0), member-more p x ys zs a.1 h.1)

  -- A row's key is among those of a selection exactly if the row is selected.
  pub member-keys :
      (p : A → Bool) (xs : List A)
      → Distinct (map key xs)
      → All (λ x. member (key x) (map key (select p xs)) ≡ p x) xs
  unfolding member select
  member-keys p [] h = tt
  member-keys p (x ∷ xs) h = (
    ground (arith, not_key-select p (key x) xs),
    member-more p x xs xs (apart (key x) xs h.0) (member-keys p xs h.1),
  )

pub member-append : (n : ℕ) (ms ns : List ℕ) → member n (ms ++ ns) ≡ (member n ms || member n ns)
unfolding member
member-append n [] ns = refl
member-append n (m ∷ ms) ns = ground (arith, member-append n ms ns)

pub Distinct-append :
    (ms ns : List ℕ)
    → Distinct ms
    → Distinct ns
    → All (λ m. member m ns ≡ false) ms
    → Distinct (ms ++ ns)
Distinct-append [] ns hm hn apart_all = hn
Distinct-append (m ∷ ms) ns hm hn apart_all = (
  ground (arith, hm.0, member-append m ms ns, apart_all.0),
  Distinct-append ms ns hm.1 hn apart_all.1,
)

pub not_member_above : (n : ℕ) (ns : List ℕ) → All (λ m. m < n) ns → member n ns ≡ false
unfolding member
not_member_above n [] h = refl
not_member_above n (m ∷ ms) h = ground (arith, h.0, not_member_above n ms h.1)

module _ {ℓ} {A : Type ℓ} where
  pub Distinct-keys :
      (key : A → ℕ) (p : A → Bool) (xs : List A)
      → Distinct (map key xs)
      → Distinct (map key (select p xs))
  unfolding select
  Distinct-keys key p [] h = tt
  Distinct-keys key p (x ∷ xs) h =
      elim (p x) as (λ b. Distinct (map key (if b then x ∷ select p xs else select p xs))) [
        | true ↦ (not_key-select key p (key x) xs h.0, Distinct-keys key p xs h.1)
        | false ↦ Distinct-keys key p xs h.1
      ]

  -- What holds of the keys of the rows that are selected.
  pub All-keys {κ} :
      (P : ℕ → Type κ) (key : A → ℕ) (p : A → Bool) (xs : List A)
      → All (λ x. p x ≡ true → P (key x)) xs
      → All P (map key (select p xs))
  unfolding select
  All-keys P key p [] h = tt
  All-keys P key p (x ∷ xs) h =
      elim (p x)
          as (λ b. (p x ≡ b) → All P (map key (if b then x ∷ select p xs else select p xs))) [
            | true ↦ λ e. (h.0 e, All-keys P key p xs h.1)
            | false ↦ λ e. All-keys P key p xs h.1
          ]
        refl

  pub update_where_cong :
      (p q : A → Bool) (f : A → A) (xs : List A)
      → All (λ x. p x ≡ q x) xs
      → update_where p f xs ≡ update_where q f xs
  unfolding update_where
  update_where_cong p q f [] h = refl
  update_where_cong p q f (x ∷ xs) h = ground (arith, h.0, update_where_cong p q f xs h.1)

  -- An update of rows that another query does not find before or after does not change its result.
  pub select-update_where :
      (p q : A → Bool) (f : A → A) (xs : List A)
      → ((x : A) → p x ≡ true → (q x ≡ false) × (q (f x) ≡ false))
      → select q (update_where p f xs) ≡ select q xs
  unfolding update_where select
  select-update_where p q f [] h = refl
  select-update_where p q f (x ∷ xs) h = elim (Bool-cases (p x)) [
    | inl e ↦ ground (arith, h x e, select-update_where p q f xs h)
    | inr e ↦ ground (arith, select-update_where p q f xs h)
  ]
