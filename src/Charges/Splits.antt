-- ===== src/Charges/Splits.antt =====
-- payment.service.ts: `handleOrderAwaitingPayment`, how a payment is split between the restaurant and
-- the platform. Shares are fractions of natural numbers, and those of the message are given in ten
-- thousandths; the rounding of floating point numbers is not modelled.
use meal_delivery.Prelude.{
  ℕ, ◌+◌, ◌-◌, ◌*◌, ◌≤◌, ◌<◌, ◌≡◌, inl, inr, Bool, false, ◌||◌, Option, none, some, ltb, ◌==◌,
  arith, if◌then◌else◌, Bool-cases,
}

-- The shares are `restaurant / whole` and `platform / whole`.
pub record Split : Type 0 where
  pub restaurant : ℕ
  pub platform : ℕ
  pub whole : ℕ

-- `1 - PLATFORM_FEE_RATE` and `PLATFORM_FEE_RATE`
abbrev pub by_fee : ℕ → Split
by_fee fee = record { restaurant = 10000 - fee; platform = fee; whole = 10000 }

-- Shares above one are percentages.
unfoldable pub as_fraction : ℕ → ℕ → Split
as_fraction r p =
    if ltb 10000 r || ltb 10000 p
    then record { restaurant = r; platform = p; whole = 1000000 }
    else record { restaurant = r; platform = p; whole = 10000 }

-- `Math.abs(sum - 1) > 0.0001`
abbrev far_from_one : Split → Bool
far_from_one s =
    let sum = s.restaurant + s.platform in
    ltb (s.whole + 10000 * s.whole) (10000 * sum) || ltb (10000 * sum + s.whole) (10000 * s.whole)

unfoldable pub normalized : ℕ → Split → Split
normalized fee s =
    if s.restaurant + s.platform == 0
    then by_fee fee
    else if far_from_one s
    then record {
      restaurant = s.restaurant;
      platform = s.platform;
      whole = s.restaurant + s.platform;
    }
    else s

unfoldable pub split_values : ℕ → Option (ℕ × ℕ) → Split
split_values fee none = by_fee fee
split_values fee (some (r, p)) = normalized fee (as_fraction r p)

-- The shares add up to one, but for a ten thousandth at most.
pub record MakesOne (s : Split) : Type 0 where
  pub some_whole : 0 < s.whole
  pub not_above : 10000 * (s.restaurant + s.platform) ≤ 10001 * s.whole
  pub not_below : 9999 * s.whole ≤ 10000 * (s.restaurant + s.platform)

by_fee-MakesOne : (fee : ℕ) → fee ≤ 10000 → MakesOne (by_fee fee)
by_fee-MakesOne fee small = record {
  some_whole = omega arith;
  not_above = omega arith;
  not_below = omega arith;
}

near-MakesOne : (s : Split) → 0 < s.whole → far_from_one s ≡ false → MakesOne s
near-MakesOne s whole near = record {
  some_whole = whole;
  not_above = ground (arith, near);
  not_below = ground (arith, near);
}

normalized-MakesOne :
    (fee : ℕ) (s : Split) → fee ≤ 10000 → 0 < s.whole → MakesOne (normalized fee s)
unfolding normalized
normalized-MakesOne fee s small whole = elim (Bool-cases (s.restaurant + s.platform == 0)) [
  | inl e ↦ rw e (by_fee-MakesOne fee small)
  | inr e ↦ elim (Bool-cases (far_from_one s)) [
    | inl far ↦
        rw (e, far)
          (record {
            some_whole = ground (arith, e);
            not_above = omega arith;
            not_below = omega arith;
          })
    | inr near ↦ rw (e, near) (near-MakesOne s whole near)
  ]
]

some_whole : (r p : ℕ) → 0 < (as_fraction r p).whole
unfolding as_fraction
some_whole r p = ground arith

-- For a fee of at most the whole, the two shares add up to one, but for a ten thousandth at most,
-- whatever the message asks for.
pub split_values-MakesOne :
    (fee : ℕ) (desired : Option (ℕ × ℕ)) → fee ≤ 10000 → MakesOne (split_values fee desired)
unfolding split_values
split_values-MakesOne fee none small = by_fee-MakesOne fee small
split_values-MakesOne fee (some (r, p)) small =
    normalized-MakesOne fee (as_fraction r p) small (some_whole r p)
