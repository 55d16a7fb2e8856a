-- ===== src/Onboarding.antt =====
-- auth-service/src/modules/restaurants/restaurants.service.ts: restaurants that apply, are reviewed and
-- keep their profile. Users and roles are those of Auth. Left out: the files of documents, the columns of
-- an address beyond these, and mails, whose failures are only logged.
pub mod Calls
pub mod Review
pub mod Status
pub mod Hours
pub mod Accepted
pub mod Roles
pub mod Catalog
mod Tests
use meal_delivery.Prelude.{
  ℕ, ◌+◌, Bool, true, false, not, ◌&&◌, Option, none, some, List, [], ◌∷◌, ◌==◌, ltb, Text, text_eq,
  select, update_where, find_row, any, if◌then◌else◌,
}
use meal_delivery.Auth

pub data RestaurantStatus : Type 0 where
  pending under_review approved rejected : RestaurantStatus

pub record Restaurant : Type 0 where
  pub id : ℕ
  pub owner_id : ℕ
  pub name : Text
  pub description : Text
  pub email : Text
  pub phone : Text
  pub status : RestaurantStatus
  pub is_active : Bool
  pub rejection_reason : Text

pub record Address : Type 0 where
  pub restaurant_id : ℕ
  pub street : Text
  pub city : Text
  pub region : Text

pub record Times : Type 0 where
  pub open_time : ℕ
  pub close_time : ℕ

pub record RestaurantHour : Type 0 where
  pub restaurant_id : ℕ
  pub weekday : ℕ
  pub times : Times
  pub is_closed : Bool

pub record RestaurantBankDetail : Type 0 where
  pub restaurant_id : ℕ
  pub account_name : Text
  pub account_number : Text
  pub bank_name : Text

pub record RestaurantDocument : Type 0 where
  pub restaurant_id : ℕ
  pub document_type : Text

-- What is told about a restaurant; `hours` has those of a weekday.
pub record Published : Type 0 where
  pub id : ℕ
  pub name : Text
  pub description : Text
  pub owner_id : ℕ
  pub is_active : Bool
  pub address : Option Address
  pub hours : ℕ → Option Times

pub data Event : Type 0 where
  profile_updated restaurant_approved : Published → Event
  restaurant_rejected : ℕ → Text → Event

-- Rows come in the order in which they were inserted. `broker` says which events get through: none if
-- the producer is not connected, and not those whose sending fails, which nobody waits for.
pub record Store : Type 0 where
  pub restaurants : List Restaurant
  pub addresses : List Address
  pub hours : List RestaurantHour
  pub bank_details : List RestaurantBankDetail
  pub documents : List RestaurantDocument
  pub accounts : Auth.Store
  pub broker : Event → Bool
  pub outbox : List Event
  pub next : ℕ

pub data Error : Type 0 where
  name_exists server_error restaurant_not_found not_the_owner : Error
  reason_required owner_not_found role_not_found : Error

abbrev pub has_id : ℕ → Restaurant → Bool
has_id k r = r.id == k

abbrev pub save_restaurant : Restaurant → Store → Store
save_restaurant r s = record s { restaurants = update_where (has_id r.id) (λ x. r) s.restaurants }

abbrev pub hours_of : ℕ → List RestaurantHour → List RestaurantHour
hours_of k hs = select (λ h. h.restaurant_id == k) hs

-- A row sets its day, unless it is closed or the day has no name.
abbrev pub set_day : RestaurantHour → (ℕ → Option Times) → ℕ → Option Times
set_day h days w =
    if ltb h.weekday 7 && not h.is_closed
    then if h.weekday == w then some h.times else days w
    else days w

unfoldable pub flatten_from : List RestaurantHour → (ℕ → Option Times) → ℕ → Option Times
flatten_from [] days w = days w
flatten_from (h ∷ hs) days w = flatten_from hs (set_day h days) w

abbrev pub flattened_hours : List RestaurantHour → ℕ → Option Times
flattened_hours hs w = flatten_from hs (λ d. none) w

abbrev pub first_address : ℕ → Store → Option Address
first_address k s = find_row (λ a. a.restaurant_id == k) s.addresses

abbrev pub published : Restaurant → Store → Published
published r s = record {
  id = r.id;
  name = r.name;
  description = r.description;
  owner_id = r.owner_id;
  is_active = r.is_active;
  address = first_address r.id s;
  hours = flattened_hours (hours_of r.id s.hours);
}

abbrev pub tell : Event → Store → Store
tell e s = record s { outbox = if s.broker e then e ∷ s.outbox else s.outbox }

unfoldable pub emit_restaurant_update : ℕ → Store → Store
emit_restaurant_update k s = elim (find_row (has_id k) s.restaurants) [
  | none ↦ s
  | some r ↦ tell (Event.profile_updated (published r s)) s
]
