-- ===== src/Onboarding/Status.antt =====
-- restaurants.service.ts: a restaurant's status against whether it is live, over any calls.
use meal_delivery.Prelude.{
  ℕ, ◌≡◌, refl, inl, inr, Bool, true, false, Option, List, [], ◌∷◌, ◌==◌, Text, text_eq, All,
  All-append, All-update_where, find_row, found_has, any, Bool-cases, Option-cases,
}
use meal_delivery.Auth
use meal_delivery.Onboarding.{
  Restaurant, RestaurantStatus, Store, Error, has_id, emit_restaurant_update, save_restaurant,
}
use meal_delivery.Onboarding.Calls.{
  RegisterRestaurantDto, UpdateRestaurantDto, AddressDto, RestaurantHourDto, BankDetailsDto,
  register, add_document, update_profile, update_address, update_hours, upsert_bank_details,
  for_owner, save_checked, assigned, collides, put_address, put_hours,
}
use meal_delivery.Onboarding.Review.{
  AdminUpdateStatus, update_status, decide, decided, same_status, status_for, lacks_reason,
  is_owner_role,
}

-- The restaurant is live if it is approved, and not if it is pending or rejected.
abbrev pub FitsStatus : RestaurantStatus → Bool → Type 0
FitsStatus RestaurantStatus.approved live = live ≡ true
FitsStatus RestaurantStatus.under_review live = Unit
FitsStatus RestaurantStatus.pending live = live ≡ false
FitsStatus RestaurantStatus.rejected live = live ≡ false

abbrev pub HasFit : Restaurant → Type 0
HasFit r = FitsStatus r.status r.is_active

abbrev pub AllFit : Store → Type 0
AllFit s = All HasFit s.restaurants

saved-AllFit : (r : Restaurant) (s : Store) → HasFit r → AllFit s → AllFit (save_restaurant r s)
saved-AllFit r s own h = All-update_where HasFit (has_id r.id) (λ x. r) s.restaurants (λ x k. own) h

pub emitted : (k : ℕ) (s : Store) → (emit_restaurant_update k s).restaurants ≡ s.restaurants
unfolding emit_restaurant_update
emitted k s = elim (Option-cases (find_row (has_id k) s.restaurants)) [
  | inl e ↦ rw (e, emit_restaurant_update) refl
  | inr (r, e) ↦ rw (e, emit_restaurant_update) refl
]

owned-AllFit :
    (owner id : ℕ) (s : Store) (k : Restaurant → Option Error × Store)
    → ((r : Restaurant) → HasFit r → AllFit (k r).1)
    → AllFit s
    → AllFit (for_owner owner id s k).1
unfolding for_owner
owned-AllFit owner id s k step h = elim (Option-cases (find_row (has_id id) s.restaurants)) [
  | inl e ↦ rw (e, for_owner) h
  | inr (r, e) ↦ elim (Bool-cases (r.owner_id == owner)) [
    | inl o ↦ rw (e, for_owner, o) (step r (found_has HasFit (has_id id) r s.restaurants e h))
    | inr o ↦ rw (e, for_owner, o) h
  ]
]

register-AllFit :
    (d : RegisterRestaurantDto) (owner : ℕ) (s : Store) → AllFit s → AllFit (register d owner s).1
unfolding register
register-AllFit d owner s h =
    elim (Bool-cases (any (λ (r : Restaurant). text_eq r.name d.name) s.restaurants)) [
      | inl n ↦ rw n h
      | inr n ↦
          elim (Bool-cases (any (λ (r : Restaurant). text_eq r.email d.email) s.restaurants)) [
            | inl m ↦ rw (n, m) h
            | inr m ↦ rw (n, m) (All-append HasFit s.restaurants _ h (refl, tt))
          ]
    ]

save_checked-AllFit :
    (id : ℕ) (r : Restaurant) (s : Store) → HasFit r → AllFit s → AllFit (save_checked id r s).1
save_checked-AllFit id r s own h = elim (Bool-cases (any (collides r) s.restaurants)) [
  | inl c ↦ rw c h
  | inr c ↦ rw (c, emitted id (save_restaurant r s)) (saved-AllFit r s own h)
]

decided-HasFit :
    (new : AdminUpdateStatus) (reason : Option Text) (r : Restaurant)
    → HasFit (decided new reason r)
decided-HasFit AdminUpdateStatus.approved reason r = refl
decided-HasFit AdminUpdateStatus.rejected reason r = refl

decide-AllFit :
    (new : AdminUpdateStatus) (reason : Option Text) (r : Restaurant) (s : Store)
    → AllFit s
    → AllFit (decide new reason r s).1
unfolding decide
decide-AllFit new reason r s h = elim (Bool-cases (lacks_reason new reason)) [
  | inl l ↦ rw l h
  | inr l ↦ elim (Option-cases (find_row (Auth.by_id r.owner_id) s.accounts.users)) [
    | inl e ↦ rw (l, e, decide) h
    | inr (u, e) ↦ elim (Option-cases (find_row is_owner_role s.accounts.roles)) [
      | inl f ↦ rw (l, e, decide, f) h
      | inr (role, f) ↦
          rw (l, e, decide, f)
            (All-update_where HasFit (has_id r.id) (λ x. decided new reason r) s.restaurants
              (λ x k. decided-HasFit new reason r) h)
    ]
  ]
]

update_status-AllFit :
    (id : ℕ) (new : AdminUpdateStatus) (reason : Option Text) (s : Store)
    → AllFit s
    → AllFit (update_status id new reason s).1
unfolding update_status
update_status-AllFit id new reason s h = elim (Option-cases (find_row (has_id id) s.restaurants)) [
  | inl e ↦ rw (e, update_status) h
  | inr (r, e) ↦ elim (Bool-cases (same_status r.status (status_for new))) [
    | inl c ↦ rw (e, update_status, c) h
    | inr c ↦ rw (e, update_status, c) (decide-AllFit new reason r s h)
  ]
]

-- The calls that write. An upload and a change come from a user, a decision from an administrator.
pub data Call : Type 0 where
  apply : RegisterRestaurantDto → ℕ → Call
  upload : ℕ → ℕ → Text → Call
  decision : ℕ → AdminUpdateStatus → Option Text → Call
  profile : ℕ → ℕ → UpdateRestaurantDto → Call
  address : ℕ → ℕ → AddressDto → Call
  opening : ℕ → ℕ → List RestaurantHourDto → Call
  bank : ℕ → ℕ → BankDetailsDto → Call

unfoldable pub perform : Call → Store → Store
perform (apply d owner) s = (register d owner s).1
perform (upload owner id type) s = (add_document owner id type s).1
perform (decision id new reason) s = (update_status id new reason s).1
perform (profile owner id d) s = (update_profile owner id d s).1
perform (address owner id d) s = (update_address owner id d s).1
perform (opening owner id hs) s = (update_hours owner id hs s).1
perform (bank owner id d) s = (upsert_bank_details owner id d s).1

unfoldable pub perform_all : List Call → Store → Store
perform_all [] s = s
perform_all (c ∷ cs) s = perform_all cs (perform c s)

perform-AllFit : (c : Call) (s : Store) → AllFit s → AllFit (perform c s)
unfolding perform add_document update_profile update_address update_hours upsert_bank_details
perform-AllFit (apply d owner) s h = register-AllFit d owner s h
perform-AllFit (upload owner id type) s h =
    owned-AllFit owner id s _
      (λ r own. All-update_where HasFit (has_id r.id) _ s.restaurants (λ x k. tt) h) h
perform-AllFit (decision id new reason) s h = update_status-AllFit id new reason s h
perform-AllFit (profile owner id d) s h =
    owned-AllFit owner id s _ (λ r own. save_checked-AllFit id (assigned d r) s own h) h
perform-AllFit (address owner id d) s h =
    owned-AllFit owner id s _ (λ r own. rw (emitted id (put_address id d s)) h) h
perform-AllFit (opening owner id hs) s h =
    owned-AllFit owner id s _ (λ r own. rw (emitted id (put_hours id hs s)) h) h
perform-AllFit (bank owner id d) s h = owned-AllFit owner id s _ (λ r own. h) h

-- If every approved restaurant is live and no pending or rejected one is, this is so after any calls.
pub approved_are_live : (cs : List Call) (s : Store) → AllFit s → AllFit (perform_all cs s)
unfolding perform_all
approved_are_live [] s h = h
approved_are_live (c ∷ cs) s h = approved_are_live cs (perform c s) (perform-AllFit c s h)
