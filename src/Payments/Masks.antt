-- ===== src/Payments/Masks.antt =====
-- order.service.ts: `maskPickupCode`.
use meal_delivery.Prelude.{
  ℕ, zero, suc, ◌≤◌, ◌≡◌, refl, true, ◌∷◌, [], Text, ◌++◌, All, length, length-append, arith,
}
use meal_delivery.Payments.{is_digit, mask_digits, mask_short, mask_pickup_code}

abbrev pub stars : ℕ → Text
stars zero = []
stars (suc n) = b'*' ∷ stars n

abbrev pub AllDigits : Text → Type 0
AllDigits = All (λ c. is_digit c ≡ true)

mask_digits_lem :
    (s : Text) (a b : ℕ)
    → AllDigits s
    → is_digit a ≡ true
    → is_digit b ≡ true
    → mask_digits (s ++ a ∷ b ∷ []) ≡ stars (length s) ++ a ∷ b ∷ []
unfolding mask_digits
mask_digits_lem [] a b h ha hb = refl
mask_digits_lem (x ∷ []) a b h ha hb = ground (arith, h.0)
mask_digits_lem (x ∷ y ∷ []) a b h ha hb = ground (arith, h.0, h.1.0)
mask_digits_lem (x ∷ y ∷ z ∷ s) a b h ha hb =
    ground (arith, h.0, h.1.0, h.1.1.0, mask_digits_lem (y ∷ z ∷ s) a b h.1 ha hb)

mask_short_lem : (s : Text) (a : ℕ) → mask_short (s ++ a ∷ []) ≡ stars (length s) ++ a ∷ []
unfolding mask_short
mask_short_lem [] a = refl
mask_short_lem (x ∷ []) a = refl
mask_short_lem (x ∷ y ∷ s) a = cc (mask_short_lem (y ∷ s) a)

-- Of a code of five digits or more the mask shows the last two, and of a shorter text the last
-- character; every other place is a star.
pub mask_shows_the_end :
    (s : Text) (a b : ℕ)
    → (AllDigits s
        → is_digit a ≡ true
        → is_digit b ≡ true
        → 3 ≤ length s
        → mask_pickup_code (s ++ a ∷ b ∷ []) ≡ stars (length s) ++ a ∷ b ∷ [])
      × (length s ≤ 3 → mask_pickup_code (s ++ a ∷ []) ≡ stars (length s) ++ a ∷ [])
unfolding mask_pickup_code
mask_shows_the_end s a b = (
  λ hs ha hb long. ground (arith, length-append s (a ∷ b ∷ []), mask_digits_lem s a b hs ha hb),
  λ short. ground (arith, length-append s (a ∷ []), mask_short_lem s a),
)
