-- ===== src/Charges/Subaccounts.antt =====
-- payment.service.ts: `createSubaccountInternal`, the account of a restaurant at the provider. The
-- provider's answers are arguments, and so is the text of an error.
use meal_delivery.Prelude.{
  ℕ, Bool, true, false, not, ◌&&◌, ◌||◌, Option, none, some, List, [], ◌∷◌, Text, text_eq, map,
  ◌==◌, find_row, or_else, if◌then◌else◌,
}
use meal_delivery.Payments.{to_lower}
use meal_delivery.Payouts.{Store, RestaurantSubaccount}

abbrev starts_with : Text → Text → Bool
starts_with [] t = true
starts_with (c ∷ s) [] = false
starts_with (c ∷ s) (d ∷ t) = (c == d) && starts_with s t

-- `text.includes(word)`
unfoldable pub includes : Text → Text → Bool
includes w [] = starts_with w []
includes w (c ∷ t) = starts_with w (c ∷ t) || includes w t

abbrev pub exist_word : Text
exist_word = b'e' ∷ b'x' ∷ b'i' ∷ b's' ∷ b't' ∷ []

abbrev duplicate_word : Text
duplicate_word = b'd' ∷ b'u' ∷ b'p' ∷ b'l' ∷ b'i' ∷ b'c' ∷ b'a' ∷ b't' ∷ b'e' ∷ []

pub record Details : Type 0 where
  pub account_name : Text
  pub account_number : Text
  pub bank_code : Text

-- An account in the provider's list.
pub record Listed : Type 0 where
  pub account_number : Text
  pub bank_code : Text
  pub subaccount_id : Option Text

-- What the provider answers: the call fails with a text, or brings `data.subaccount_id` and `id`.
pub data Created : Type 0 where
  refused : Text → Created
  created : Option Text → Option Text → Created

abbrev is_empty : Text → Bool
is_empty [] = true
is_empty _ = false

-- An account that exists is looked for by its number and its bank.
abbrev same_account : Details → Listed → Bool
same_account d x = text_eq x.account_number d.account_number && text_eq x.bank_code d.bank_code

abbrev says_exists : Text → Bool
says_exists message =
    includes exist_word (map to_lower message) || includes duplicate_word (map to_lower message)

abbrev found_id : Option Listed → Option Text
found_id none = none
found_id (some x) = x.subaccount_id

-- The id of the subaccount, if there is one. `listed` is the provider's list, if it brings one.
unfoldable pub subaccount_id : Created → Option (List Listed) → Details → Option Text
subaccount_id (created data_id id) listed d = or_else data_id id
subaccount_id (refused message) none d = none
subaccount_id (refused message) (some xs) d =
    if says_exists message then found_id (find_row (same_account d) xs) else none

abbrev is_given : Option Text → Bool
is_given (some (c ∷ t)) = true
is_given _ = false

abbrev pub with_account : ℕ → Text → Details → RestaurantSubaccount
with_account r id d = record {
  restaurant_id = r;
  chapa_subaccount_id = id;
  account_number = some d.account_number;
  account_name = some d.account_name;
  bank_code = some d.bank_code;
}

abbrev upsert : ℕ → RestaurantSubaccount → Store → Store
upsert r x s = record s { subaccounts = λ k. if r == k then some x else s.subaccounts k }

abbrev complete : Details → Bool
complete d =
    not (is_empty d.account_name) && (not (is_empty d.account_number) && not (is_empty d.bank_code))

store_id : ℕ → Details → Option Text → Store → Option Text × Store
store_id r d (some (c ∷ t)) s = (some (c ∷ t), upsert r (with_account r (c ∷ t) d) s)
store_id r d _ s = (none, s)

-- No id is an error, after which nothing is stored.
unfoldable pub create_subaccount :
    Created → Option (List Listed) → ℕ → Details → Store → Option Text × Store
unfolding store_id
create_subaccount answer listed r d s =
    if complete d then store_id r d (subaccount_id answer listed d) s else (none, s)
