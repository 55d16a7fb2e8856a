-- ===== src/Onboarding/Tests.antt =====
-- A restaurant that waits for its review, with an owner who has no role yet.
use meal_delivery.Prelude.{
  Bool, Option, Text, ◌≡◌, refl, true, false, none, some, List, [], ◌∷◌, arith, any, find_row,
  member, Text,
}
use meal_delivery.Auth
use meal_delivery.Auth.Members.{is_pair}
use meal_delivery.Onboarding.{has_id, Restaurant, RestaurantStatus, Times, Store, Event, Published}
use meal_delivery.Onboarding.Calls.{RestaurantHourDto, update_hours, for_owner}
use meal_delivery.Onboarding.Review.{AdminUpdateStatus, update_status, decide, owner_role_name}
use meal_delivery.Onboarding.Status.{Call, AllFit, perform_all, approved_are_live}
use meal_delivery.Onboarding.Hours.{meant, asked_for, after_event, updated_hours_are_told}
use meal_delivery.Onboarding.Catalog.{
  copy_of, is_copy, catalog_of, approved_is_listed, rejected_stays_listed,
}
use meal_delivery.Onboarding.Roles.{role_after, decision_moves_role}

abbrev diner : Restaurant
diner = record {
  id = 7;
  owner_id = 70;
  name = b'd' ∷ [];
  description = [];
  email = b'e' ∷ [];
  phone = [];
  status = RestaurantStatus.under_review;
  is_active = false;
  rejection_reason = [];
}

abbrev owner : Auth.User
owner = record {
  user_id = 70;
  username = none;
  email = b'e' ∷ [];
  password_hash = [];
  phone = none;
  is_verified = true;
  verified_at = none;
  provider = none;
  provider_id = none;
}

abbrev owner_role : Auth.Role
owner_role = record { role_id = 3; name = owner_role_name }

abbrev accounts : Auth.Store
accounts = record {
  users = owner ∷ [];
  tokens = [];
  otps = [];
  roles = owner_role ∷ [];
  user_roles = record { user_id = 70; role_id = 4 } ∷ [];
  outbox = [];
  next = 80;
}

abbrev morning : Times
morning = record { open_time = 28800; close_time = 43200 }

abbrev store : Store
store = record {
  restaurants = diner ∷ [];
  addresses = [];
  hours = record { restaurant_id = 7; weekday = 1; times = morning; is_closed = false } ∷ [];
  bank_details = [];
  documents = [];
  accounts = accounts;
  broker = λ e. true;
  outbox = [];
  next = 8;
}

abbrev new_hours : List RestaurantHourDto
new_hours =
    record { weekday = 1; times = morning; is_closed = true }
    ∷ record { weekday = 2; times = morning; is_closed = false }
    ∷ []

abbrev calls : List Call
calls =
    Call.decision 7 AdminUpdateStatus.approved none
    ∷ Call.upload 70 7 (b'l' ∷ [])
    ∷ Call.decision 7 AdminUpdateStatus.rejected (some (b'x' ∷ []))
    ∷ []

approved_are_live_example : AllFit (perform_all calls store)
approved_are_live_example = approved_are_live calls store (tt, tt)

accepted : (update_hours 70 7 new_hours store).0 ≡ none
unfolding update_hours for_owner find_row
accepted = refl

updated_hours_are_told_example :
    (p : Published) × ((update_hours 70 7 new_hours store).1.outbox
      ≡ after_event (Event.profile_updated p) store)
    × (p.hours 2 ≡ meant (asked_for 2 new_hours) none)
unfolding member find_row
updated_hours_are_told_example =
    updated_hours_are_told 70 7 new_hours store diner 2 (refl, (refl, tt))
      (omega arith, (omega arith, tt)) refl refl accepted

approved : (update_status 7 AdminUpdateStatus.approved none store).0 ≡ none
unfolding update_status decide find_row
approved = refl

decision_moves_role_example :
    any (is_pair 70 3) (update_status 7 AdminUpdateStatus.approved none store).1.accounts.user_roles
    ≡ role_after AdminUpdateStatus.approved RestaurantStatus.under_review
        (any (is_pair 70 3) accounts.user_roles)
unfolding find_row
decision_moves_role_example =
    decision_moves_role 7 AdminUpdateStatus.approved none store diner owner_role refl refl refl refl
      approved

abbrev live_store : Store
live_store = record store {
  restaurants = record diner { status = RestaurantStatus.approved; is_active = true } ∷ [];
}

abbrev reason : Option Text
reason = some (b'x' ∷ [])

rejected : (update_status 7 AdminUpdateStatus.rejected reason live_store).0 ≡ none
unfolding update_status decide find_row
rejected = refl

-- The consumer of the upper pattern alone.
abbrev approvals_only : Event → Bool
approvals_only (Event.profile_updated p) = false
approvals_only (Event.restaurant_approved p) = true
approvals_only (Event.restaurant_rejected k t) = true

approved_is_listed_example :
    let after = (update_status 7 AdminUpdateStatus.approved none store).1 in
    (p : Published) × (p.id ≡ 7)
    × (p.is_active ≡ true)
    × (p.owner_id ≡ 70)
    × (after.outbox ≡ after_event (Event.restaurant_approved p) store)
    × (true ≡ true
        → approvals_only (Event.restaurant_approved p) ≡ true
        → find_row (is_copy 7) (catalog_of approvals_only after.outbox) ≡ some (copy_of p))
    × (true ≡ false → catalog_of approvals_only after.outbox ≡ catalog_of approvals_only [])
unfolding find_row
approved_is_listed_example = approved_is_listed approvals_only 7 none store diner refl refl approved

rejected_stays_listed_example :
    (catalog_of approvals_only
        (update_status 7 AdminUpdateStatus.rejected reason live_store).1.outbox
      ≡ catalog_of approvals_only live_store.outbox)
    × ((r' : Restaurant) × (find_row
            (has_id 7)
            (update_status 7 AdminUpdateStatus.rejected reason live_store).1.restaurants
          ≡ some r')
        × (r'.is_active ≡ false))
unfolding find_row
rejected_stays_listed_example =
    rejected_stays_listed approvals_only 7 reason live_store
      (record diner { status = RestaurantStatus.approved; is_active = true }) refl refl rejected
