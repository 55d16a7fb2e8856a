-- ===== src/Promo/Codes.antt =====
-- catalog-service/src/modules/promos/promo.service.ts: how a code is normalised and made unique.
use mathlib.Core.List.{reverse}
use meal_delivery.Prelude.{
  ℕ, ◌+◌, ◌-◌, ◌/◌, ◌%◌, Bool, ◌&&◌, ◌||◌, Option, List, [], ◌∷◌, ◌++◌, Text, map, is_some, leb,
  ◌==◌, if◌then◌else◌, ◌≡◌, refl, ◌⊎◌, inr, false, arith,
}

-- White space of `trim`, in ASCII.
pub is_space : ℕ → Bool
is_space c = c == 32 || leb 9 c && leb c 13

drop_spaces : Text → Text
drop_spaces [] = []
drop_spaces (c ∷ s) = if is_space c then drop_spaces s else c ∷ s

pub trim : Text → Text
unfolding drop_spaces is_space
trim s = reverse (drop_spaces (reverse (drop_spaces s)))

-- `toUpperCase`, in ASCII.
pub to_upper : ℕ → ℕ
to_upper c = if leb b'a' c && leb c b'z' then c - 32 else c

unfoldable pub normalize : Text → Text
unfolding trim to_upper
normalize s = map to_upper (trim s)

-- A number from 100 to 999 in decimal.
digits : ℕ → Text
digits n = (48 + n / 100) ∷ (48 + n / 10 % 10) ∷ (48 + n % 10) ∷ []

-- The loop of `ensureUniqueCode`: `draws` are the random numbers of the rounds that are left, and
-- `taken` is the look-up of a code.
ensure_from : {A : Type 0} → (Text → Option A) → Text → Text → Text → List ℕ → Text
unfolding to_upper digits
ensure_from taken proposed stamp code [] = map to_upper (proposed ++ b'-' ∷ stamp)
ensure_from taken proposed stamp code (n ∷ draws) =
    let rest = ensure_from taken proposed stamp (map to_upper (proposed ++ digits n)) draws in
    if is_some (taken code) then rest else code

-- `stamp` is the end of the clock in base 36.
unfoldable pub ensure_unique_code : {A : Type 0} → (Text → Option A) → Text → Text → List ℕ → Text
unfolding ensure_from
ensure_unique_code taken proposed stamp draws =
    ensure_from taken proposed stamp (map to_upper proposed) draws

ensure_from_lem :
    {A : Type 0} (taken : Text → Option A) (proposed stamp code : Text) (draws : List ℕ)
    → let c = ensure_from taken proposed stamp code draws in
      (is_some (taken c) ≡ false) ⊎ (c ≡ map to_upper (proposed ++ b'-' ∷ stamp))
unfolding ensure_from
ensure_from_lem taken proposed stamp code [] = inr refl
ensure_from_lem taken proposed stamp code (n ∷ draws) =
    ground (arith, ensure_from_lem taken proposed stamp (map to_upper (proposed ++ digits n)) draws)

-- The code that is made up for a promo is not in use, unless every round of the loop met a code in
-- use: then it is the proposed one with the time stamp. A proposed code that is free is kept.
pub made_up_code_is_free :
    {A : Type 0} (taken : Text → Option A) (proposed stamp : Text) (n : ℕ) (draws : List ℕ)
    → let c = ensure_unique_code taken proposed stamp (n ∷ draws) in
      ((is_some (taken c) ≡ false) ⊎ (c ≡ map to_upper (proposed ++ b'-' ∷ stamp)))
      × (is_some (taken (map to_upper proposed)) ≡ false → c ≡ map to_upper proposed)
unfolding ensure_unique_code
made_up_code_is_free taken proposed stamp n draws =
    (ensure_from_lem taken proposed stamp (map to_upper proposed) (n ∷ draws), λ free. ground arith)
