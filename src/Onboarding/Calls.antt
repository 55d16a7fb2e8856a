-- ===== src/Onboarding/Calls.antt =====
-- restaurants.service.ts: register, addDocument, updateProfile, updateAddress, updateHours and
-- upsertBankDetails. `save` of a restaurant fails on a name or email that is taken.
use meal_delivery.Prelude.{
  ℕ, ◌+◌, Bool, false, not, ◌&&◌, ◌||◌, Option, none, some, List, [], ◌∷◌, ◌++◌, ◌==◌, Text,
  text_eq, map, select, update_where, find_row, any, if◌then◌else◌, get_or,
}
use meal_delivery.Onboarding.{
  Restaurant, RestaurantStatus, Address, RestaurantHour, RestaurantBankDetail, RestaurantDocument,
  Times, Store, Error, has_id, save_restaurant, emit_restaurant_update,
}

pub record AddressDto : Type 0 where
  pub street : Text
  pub city : Text
  pub region : Text

-- `is_closed` is false if it is not given.
pub record RestaurantHourDto : Type 0 where
  pub weekday : ℕ
  pub times : Times
  pub is_closed : Bool

pub record BankDetailsDto : Type 0 where
  pub account_name : Text
  pub account_number : Text
  pub bank_name : Text

pub record RegisterRestaurantDto : Type 0 where
  pub name : Text
  pub description : Text
  pub email : Text
  pub phone : Text
  pub address : AddressDto
  pub hours : List RestaurantHourDto

abbrev pub new_restaurant : RegisterRestaurantDto → ℕ → ℕ → Restaurant
new_restaurant d owner id = record {
  id = id;
  owner_id = owner;
  name = d.name;
  description = d.description;
  email = d.email;
  phone = d.phone;
  status = RestaurantStatus.pending;
  is_active = false;
  rejection_reason = [];
}

abbrev pub address_of : ℕ → AddressDto → Address
address_of k d = record { restaurant_id = k; street = d.street; city = d.city; region = d.region }

abbrev pub hour_of : ℕ → RestaurantHourDto → RestaurantHour
hour_of k d = record {
  restaurant_id = k;
  weekday = d.weekday;
  times = d.times;
  is_closed = d.is_closed;
}

abbrev pub add_restaurant : RegisterRestaurantDto → ℕ → Store → Store
add_restaurant d owner s = record s {
  restaurants = s.restaurants ++ (new_restaurant d owner s.next ∷ []);
  addresses = s.addresses ++ (address_of s.next d.address ∷ []);
  hours = s.hours ++ map (hour_of s.next) d.hours;
  next = s.next + 1;
}

unfoldable pub register : RegisterRestaurantDto → ℕ → Store → Option Error × Store
register d owner s =
    if any (λ r. text_eq r.name d.name) s.restaurants
    then (some Error.name_exists, s)
    else if any (λ r. text_eq r.email d.email) s.restaurants
    then (some Error.server_error, s)
    else (none, add_restaurant d owner s)

-- The restaurant, if the caller owns it.
abbrev pub checked :
    ℕ → Restaurant → Store → (Restaurant → Option Error × Store) → Option Error × Store
checked owner r s k = if r.owner_id == owner then k r else (some Error.not_the_owner, s)

unfoldable pub for_owner :
    ℕ → ℕ → Store → (Restaurant → Option Error × Store) → Option Error × Store
for_owner owner id s k = elim (find_row (has_id id) s.restaurants) [
  | none ↦ (some Error.restaurant_not_found, s)
  | some r ↦ checked owner r s k
]

abbrev pub under_review : Restaurant → Restaurant
under_review r = record r { status = RestaurantStatus.under_review }

abbrev pub add_row : RestaurantDocument → Store → Store
add_row d s = record s { documents = s.documents ++ (d ∷ []) }

unfoldable pub add_document : ℕ → ℕ → Text → Store → Option Error × Store
add_document owner id type s = for_owner owner id s (λ r. (
  none,
  save_restaurant (under_review r)
      (add_row (record { restaurant_id = id; document_type = type }) s),
))

pub record UpdateRestaurantDto : Type 0 where
  pub name : Option Text
  pub description : Option Text
  pub email : Option Text
  pub phone : Option Text

-- `Object.assign`
abbrev pub assigned : UpdateRestaurantDto → Restaurant → Restaurant
assigned d r = record r {
  name = get_or d.name r.name;
  description = get_or d.description r.description;
  email = get_or d.email r.email;
  phone = get_or d.phone r.phone;
}

abbrev pub collides : Restaurant → Restaurant → Bool
collides r x = not (x.id == r.id) && (text_eq x.name r.name || text_eq x.email r.email)

abbrev pub save_checked : ℕ → Restaurant → Store → Option Error × Store
save_checked id r s =
    if any (collides r) s.restaurants
    then (some Error.server_error, s)
    else (none, emit_restaurant_update id (save_restaurant r s))

unfoldable pub update_profile : ℕ → ℕ → UpdateRestaurantDto → Store → Option Error × Store
update_profile owner id d s = for_owner owner id s (λ r. save_checked id (assigned d r) s)

abbrev pub has_address : ℕ → Store → Bool
has_address id s = any (λ a. a.restaurant_id == id) s.addresses

-- A restaurant has at most one address.
abbrev pub put_address : ℕ → AddressDto → Store → Store
put_address id d s = record s {
  addresses =
      if has_address id s
      then update_where (λ a. a.restaurant_id == id) (λ a. address_of id d) s.addresses
      else s.addresses ++ (address_of id d ∷ []);
}

unfoldable pub update_address : ℕ → ℕ → AddressDto → Store → Option Error × Store
update_address owner id d s =
    for_owner owner id s (λ r. (none, emit_restaurant_update id (put_address id d s)))

-- The old rows are deleted, and the new ones inserted.
abbrev pub put_hours : ℕ → List RestaurantHourDto → Store → Store
put_hours id hs s = record s {
  hours = select (λ h. not (h.restaurant_id == id)) s.hours ++ map (hour_of id) hs;
}

unfoldable pub update_hours : ℕ → ℕ → List RestaurantHourDto → Store → Option Error × Store
update_hours owner id hs s =
    for_owner owner id s (λ r. (none, emit_restaurant_update id (put_hours id hs s)))

abbrev pub bank_detail : ℕ → BankDetailsDto → RestaurantBankDetail
bank_detail id d = record {
  restaurant_id = id;
  account_name = d.account_name;
  account_number = d.account_number;
  bank_name = d.bank_name;
}

-- A restaurant has at most one row of bank details.
abbrev pub put_bank : ℕ → BankDetailsDto → Store → Store
put_bank id d s = record s {
  bank_details =
      if any (λ b. b.restaurant_id == id) s.bank_details
      then update_where (λ b. b.restaurant_id == id) (λ b. bank_detail id d) s.bank_details
      else s.bank_details ++ (bank_detail id d ∷ []);
}

unfoldable pub upsert_bank_details : ℕ → ℕ → BankDetailsDto → Store → Option Error × Store
upsert_bank_details owner id d s = for_owner owner id s (λ r. (none, put_bank id d s))
