-- ===== src/Charges/Gate.antt =====
-- payment.service.ts: `handleOrderAwaitingPayment`, the calls of the provider for a checkout. The
-- provider's answers are arguments; the new reference of a transaction, which is made of the clock, is
-- one as well.
use meal_delivery.Prelude.{
  ℕ, Bool, true, false, ◌&&◌, ◌||◌, Option, none, some, List, [], ◌∷◌, ◌++◌, Text, map, ◌==◌,
  is_some, every, if◌then◌else◌,
}
use meal_delivery.Payments.{to_lower, is_digit}
use meal_delivery.Payouts.{Store, RestaurantSubaccount}
use meal_delivery.Charges.{Payment, Report}
use meal_delivery.Charges.Splits.{Split, split_values}
use meal_delivery.Charges.Subaccounts.{includes, exist_word, Created, Listed, create_subaccount}

-- `order.awaiting_payment`
pub record Request : Type 0 where
  pub order_id : Option ℕ
  pub amount : Option ℕ
  pub customer_id : Option ℕ
  pub restaurant_id : Option ℕ
  pub desired_splits : Option (ℕ × ℕ)
  pub platform_topup_needed : Option ℕ

-- A share of the payment for an account: its numerator and denominator.
pub record Share : Type 0 where
  pub account : Text
  pub part : ℕ
  pub whole : ℕ

pub data Init : Type 0 where
  init_failed : Text → Init
  init_done : Option Text → Option ℕ → Option Text → Init

-- The provider: its answer to each of the calls in turn, and about subaccounts; and what else the
-- handler asks of its surroundings.
pub record Gate : Type 0 where
  pub now : ℕ
  pub fee : ℕ
  pub platform_account : Option Text
  pub new_tx_ref : Text
  pub answers : ℕ → List Share → Init
  pub recreated : Created
  pub listed : Option (List Listed)
  pub meanwhile : List Payment
  pub accepts : Report → Bool

abbrev share : Text → ℕ → ℕ → Share
share account part whole = record { account = account; part = part; whole = whole }

abbrev restaurant_share : Split → Option RestaurantSubaccount → List Share
restaurant_share s none = []
restaurant_share s (some sub) = elim sub.chapa_subaccount_id [
  | [] ↦ []
  | ◌∷◌ c t ↦ share (c ∷ t) s.restaurant s.whole ∷ []
]

abbrev platform_share : Split → Option Text → List Share
platform_share s (some (c ∷ t)) = share (c ∷ t) s.platform s.whole ∷ []
platform_share s _ = []

abbrev pub shares : Gate → Request → Option RestaurantSubaccount → List Share
shares g r sub =
    let s = split_values g.fee r.desired_splits in
    restaurant_share s sub ++ platform_share s g.platform_account

abbrev subaccount_word : Text
subaccount_word = b's' ∷ b'u' ∷ b'b' ∷ b'a' ∷ b'c' ∷ b'c' ∷ b'o' ∷ b'u' ∷ b'n' ∷ b't' ∷ []

abbrev split_word : Text
split_word = b's' ∷ b'p' ∷ b'l' ∷ b'i' ∷ b't' ∷ []

abbrev invalid_word : Text
invalid_word = b'i' ∷ b'n' ∷ b'v' ∷ b'a' ∷ b'l' ∷ b'i' ∷ b'd' ∷ []

abbrev found_word : Text
found_word = b'f' ∷ b'o' ∷ b'u' ∷ b'n' ∷ b'd' ∷ []

-- An account that the provider does not know is tried again.
pub may_recover : Text → Bool
may_recover e =
    includes subaccount_word e
    && (includes invalid_word e || (includes found_word e || includes exist_word e))

pub may_fall_back : Text → Bool
may_fall_back e = includes subaccount_word e || includes split_word e

abbrev given : Text → Bool
given [] = false
given _ = true

abbrev default_name : Text
default_name =
    b'R' ∷ b'e' ∷ b's' ∷ b't' ∷ b'a' ∷ b'u' ∷ b'r' ∷ b'a' ∷ b'n' ∷ b't' ∷ b' ' ∷ b'A' ∷ b'c' ∷ b'c'
    ∷ b'o' ∷ b'u' ∷ b'n' ∷ b't' ∷ []

abbrev name_of : Option Text → Text
name_of none = default_name
name_of (some t) = t

abbrev strip_zeros : Text → Text
strip_zeros [] = []
strip_zeros (c ∷ t) = if c == b'0' then strip_zeros t else c ∷ t

-- `String(Number(code))` of a code of digits; a code with another character, or of the value zero, is
-- refused later on, as the empty text is.
abbrev number_text : Text → Text
number_text t = if every is_digit t then strip_zeros t else []

-- The account is made anew from what is stored; `none` if that is an error.
recreate : Gate → ℕ → Option RestaurantSubaccount → Store → Bool × Store
unfolding create_subaccount
recreate g r none s = (true, s)
recreate g r (some sub) s = elim sub.account_number [
  | none ↦ (true, s)
  | some number ↦ elim sub.bank_code [
    | none ↦ (true, s)
    | some bank ↦
        if given number && given bank
        then (let (id, s1) =
              create_subaccount g.recreated g.listed r
                (record {
                  account_name = name_of sub.account_name;
                  account_number = number;
                  bank_code = number_text bank;
                })
                s in
            (is_some id, s1))
        else (true, s)
  ]
]

-- The second call has the same shares as the first.
recover : Gate → ℕ → Option RestaurantSubaccount → List Share → Text → Store → Init × Store
unfolding recreate may_recover
recover g r sub ss e s =
    if may_recover e
    then (let (ok, s1) = recreate g r sub s in (if ok then g.answers 1 ss else init_failed e, s1))
    else (init_failed e, s)

abbrev or_without_shares : Gate → Text → Init → Init
or_without_shares g e (init_done url at id) = init_done url at id
or_without_shares g e (init_failed e2) = if may_fall_back e then g.answers 2 [] else init_failed e

unfoldable pub retry :
    Gate → ℕ → Option RestaurantSubaccount → List Share → Init → Store → Init × Store
unfolding recover may_fall_back
retry g r sub ss (init_done url at id) s = (init_done url at id, s)
retry g r sub ss (init_failed e) s =
    let (again, s1) = recover g r sub ss (map to_lower e) s in
    (or_without_shares g (map to_lower e) again, s1)
