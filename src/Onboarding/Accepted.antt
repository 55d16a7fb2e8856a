-- ===== src/Onboarding/Accepted.antt =====
-- restaurants.service.ts: a decision that updateStatus accepts.
use meal_delivery.Prelude.{
  ◌≡◌, refl, inl, inr, false, ℕ, Option, none, some, Text, find_row, Bool-cases, Option-cases,
}
use meal_delivery.Auth
use meal_delivery.Onboarding.{Restaurant, Store, Error, has_id}
use meal_delivery.Onboarding.Review.{
  AdminUpdateStatus, update_status, decide, settle, same_status, status_for, lacks_reason,
  is_owner_role,
}

refused : (e : Error) → some e ≡ none → ⊥
refused e p = cc p

-- A decision that is accepted and changes the status is carried out, with the owner and the role found.
pub accepted_settles :
    (id : ℕ) (new : AdminUpdateStatus) (reason : Option Text) (s : Store) (r : Restaurant)
    → find_row (has_id id) s.restaurants ≡ some r
    → same_status r.status (status_for new) ≡ false
    → (update_status id new reason s).0 ≡ none
    → (role : Auth.Role) × (u : Auth.User) × (find_row is_owner_role s.accounts.roles ≡ some role)
      × (find_row (Auth.by_id r.owner_id) s.accounts.users ≡ some u)
      × ((update_status id new reason s).1 ≡ settle new reason r role.role_id s)
unfolding update_status decide
accepted_settles id new reason s r found changes ok = elim (Bool-cases (lacks_reason new reason)) [
  | inl l ↦
      elim (refused Error.reason_required (rw (found, update_status, changes, decide, l) at ok)) [ ]
  | inr l ↦ elim (Option-cases (find_row (Auth.by_id r.owner_id) s.accounts.users)) [
    | inl e ↦
        elim (refused Error.owner_not_found
          (rw (found, update_status, changes, decide, l, e) at ok)) [ ]
    | inr (u, e) ↦ elim (Option-cases (find_row is_owner_role s.accounts.roles)) [
      | inl f ↦
          elim (refused Error.role_not_found
            (rw (found, update_status, changes, decide, l, e, f) at ok)) [ ]
      | inr (role, f) ↦ (role, u, f, e, rw (found, update_status, changes, decide, l, e, f) refl)
    ]
  ]
]
