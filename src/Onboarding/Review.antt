-- ===== src/Onboarding/Review.antt =====
-- restaurants.service.ts: updateStatus, the decision of an administrator. It is one transaction, which
-- a refusal rolls back.
use meal_delivery.Prelude.{
  ℕ, Bool, true, false, Option, none, some, [], ◌∷◌, Text, text_eq, find_row, if◌then◌else◌, get_or,
}
use meal_delivery.Auth
use meal_delivery.Auth.{given}
use meal_delivery.Auth.Members.{assign_role, remove_role}
use meal_delivery.Onboarding.{
  Restaurant, RestaurantStatus, Store, Error, Event, has_id, save_restaurant, published, tell,
}

pub data AdminUpdateStatus : Type 0 where
  approved rejected : AdminUpdateStatus

abbrev pub status_for : AdminUpdateStatus → RestaurantStatus
status_for AdminUpdateStatus.approved = RestaurantStatus.approved
status_for AdminUpdateStatus.rejected = RestaurantStatus.rejected

abbrev pub same_status : RestaurantStatus → RestaurantStatus → Bool
same_status RestaurantStatus.pending RestaurantStatus.pending = true
same_status RestaurantStatus.under_review RestaurantStatus.under_review = true
same_status RestaurantStatus.approved RestaurantStatus.approved = true
same_status RestaurantStatus.rejected RestaurantStatus.rejected = true
same_status _ _ = false

abbrev pub is_approval : AdminUpdateStatus → Bool
is_approval AdminUpdateStatus.approved = true
is_approval AdminUpdateStatus.rejected = false

abbrev pub lacks_reason : AdminUpdateStatus → Option Text → Bool
lacks_reason AdminUpdateStatus.approved reason = false
lacks_reason AdminUpdateStatus.rejected reason = elim (given reason) [
  | none ↦ true
  | some t ↦ false
]

-- 'restaurant_owner'
abbrev pub owner_role_name : Text
owner_role_name =
    b'r' ∷ b'e' ∷ b's' ∷ b't' ∷ b'a' ∷ b'u' ∷ b'r' ∷ b'a' ∷ b'n' ∷ b't' ∷ b'_' ∷ b'o' ∷ b'w' ∷ b'n'
    ∷ b'e' ∷ b'r' ∷ []

abbrev pub is_owner_role : Auth.Role → Bool
is_owner_role r = text_eq r.name owner_role_name

-- The role is given on approval, and taken if the restaurant was approved before.
abbrev pub with_role : AdminUpdateStatus → RestaurantStatus → ℕ → ℕ → Auth.Store → Auth.Store
with_role AdminUpdateStatus.approved previous owner role a = (assign_role owner role a).1
with_role AdminUpdateStatus.rejected previous owner role a =
    if same_status previous RestaurantStatus.approved then remove_role owner role a else a

abbrev pub decided : AdminUpdateStatus → Option Text → Restaurant → Restaurant
decided new reason r = record r {
  status = status_for new;
  is_active = is_approval new;
  rejection_reason = get_or reason [];
}

abbrev pub news : AdminUpdateStatus → Option Text → Restaurant → Store → Event
news AdminUpdateStatus.approved reason r s = Event.restaurant_approved (published r s)
news AdminUpdateStatus.rejected reason r s = Event.restaurant_rejected r.id (get_or reason [])

abbrev pub settle : AdminUpdateStatus → Option Text → Restaurant → ℕ → Store → Store
settle new reason r role s =
    let r' : Restaurant = decided new reason r in
    let s1 : Store = record s { accounts = with_role new r.status r.owner_id role s.accounts } in
    tell (news new reason r' s1) (save_restaurant r' s1)

unfoldable pub decide : AdminUpdateStatus → Option Text → Restaurant → Store → Option Error × Store
decide new reason r s =
    if lacks_reason new reason
    then (some Error.reason_required, s)
    else elim (find_row (Auth.by_id r.owner_id) s.accounts.users) [
      | none ↦ (some Error.owner_not_found, s)
      | some u ↦ elim (find_row is_owner_role s.accounts.roles) [
        | none ↦ (some Error.role_not_found, s)
        | some role ↦ (none, settle new reason r role.role_id s)
      ]
    ]

unfoldable pub update_status : ℕ → AdminUpdateStatus → Option Text → Store → Option Error × Store
update_status id new reason s = elim (find_row (has_id id) s.restaurants) [
  | none ↦ (some Error.restaurant_not_found, s)
  | some r ↦ if same_status r.status (status_for new) then (none, s) else decide new reason r s
]
