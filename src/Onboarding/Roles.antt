-- ===== src/Onboarding/Roles.antt =====
-- restaurants.service.ts: what a decision does to the owner's role.
use meal_delivery.Prelude.{
  ℕ, ◌≡◌, refl, inl, inr, Bool, true, false, not, Option, none, some, List, [], ◌∷◌, ◌==◌, Text,
  arith, find_row, found_passes, saved_is_found, select, any, Bool-cases, Option-cases,
  if◌then◌else◌, ==_iff, some_injective, sym, ◌∙◌,
}
use meal_delivery.Auth
use meal_delivery.Auth.Members.{is_pair, assign_role, remove_role}
use meal_delivery.Onboarding.{Restaurant, RestaurantStatus, Store, has_id, save_restaurant}
use meal_delivery.Onboarding.Calls.{add_document, add_row, for_owner, under_review}
use meal_delivery.Onboarding.Accepted.{accepted_settles}
use meal_delivery.Onboarding.Review.{
  AdminUpdateStatus, update_status, decide, same_status, status_for, lacks_reason, is_owner_role,
  with_role,
}

any_found :
    (p q : Auth.UserRole → Bool) (x : Auth.UserRole) (xs : List Auth.UserRole)
    → find_row p xs ≡ some x
    → q x ≡ true
    → any q xs ≡ true
unfolding find_row any
any_found p q x [] found h = ground (arith, found)
any_found p q x (y ∷ ys) found h = elim (Bool-cases (p y)) [
  | inl e ↦ ground (arith, rw e at found, h)
  | inr e ↦ ground (arith, any_found p q x ys (rw e at found) h)
]

none_after :
    (p : Auth.UserRole → Bool) (xs : List Auth.UserRole)
    → any p (select (λ x. not (p x)) xs) ≡ false
unfolding any select
none_after p [] = refl
none_after p (x ∷ xs) = ground (arith, none_after p xs)

given_role :
    (user role : ℕ) (u : Auth.User) (r : Auth.Role) (a : Auth.Store)
    → find_row (Auth.by_id user) a.users ≡ some u
    → find_row (λ x. x.role_id == role) a.roles ≡ some r
    → any (is_pair user role) (assign_role user role a).1.user_roles ≡ true
unfolding assign_role any
given_role user role u r a known there =
    elim (Option-cases (find_row (λ ur. ur.user_id == user) a.user_roles)) [
      | inl e ↦ rw (known, assign_role, there, e) (ground arith)
      | inr (ur, e) ↦ elim (Bool-cases (ur.role_id == role)) [
        | inl c ↦
            let his = found_passes (λ x. x.user_id == user) ur a.user_roles e in
            rw (known, assign_role, there, e, c)
              (any_found (λ x. x.user_id == user) (is_pair user role) ur a.user_roles e
                (ground (arith, his, c)))
        | inr c ↦ elim (Bool-cases (any (is_pair user role) a.user_roles)) [
          | inl b ↦ rw (known, assign_role, there, e, c, b) b
          | inr b ↦ rw (known, assign_role, there, e, c, b) (ground arith)
        ]
      ]
    ]

-- Whether the owner has the role after a decision, if `before` says whether it was so before.
abbrev pub role_after : AdminUpdateStatus → RestaurantStatus → Bool → Bool
role_after AdminUpdateStatus.approved previous before = true
role_after AdminUpdateStatus.rejected previous before =
    if same_status previous RestaurantStatus.approved then false else before

role_moved :
    (new : AdminUpdateStatus) (previous : RestaurantStatus) (user role : ℕ) (u : Auth.User)
    (r : Auth.Role) (a : Auth.Store)
    → find_row (Auth.by_id user) a.users ≡ some u
    → find_row (λ x. x.role_id == role) a.roles ≡ some r
    → any (is_pair user role) (with_role new previous user role a).user_roles
      ≡ role_after new previous (any (is_pair user role) a.user_roles)
unfolding remove_role
role_moved AdminUpdateStatus.approved previous user role u r a known there =
    given_role user role u r a known there
role_moved AdminUpdateStatus.rejected previous user role u r a known there =
    elim (Bool-cases (same_status previous RestaurantStatus.approved)) [
      | inl e ↦ rw e (none_after (is_pair user role) a.user_roles)
      | inr e ↦ rw e refl
    ]

-- Where the role of restaurant owners is the row of its id: a decision that is accepted and changes the
-- restaurant's status gives its owner that role if it is an approval, takes it if it rejects a restaurant
-- whose status was approved, and else leaves it.
pub decision_moves_role :
    (id : ℕ) (new : AdminUpdateStatus) (reason : Option Text) (s : Store) (r : Restaurant)
    (role : Auth.Role)
    → find_row (has_id id) s.restaurants ≡ some r
    → same_status r.status (status_for new) ≡ false
    → find_row is_owner_role s.accounts.roles ≡ some role
    → find_row (λ x. x.role_id == role.role_id) s.accounts.roles ≡ some role
    → (update_status id new reason s).0 ≡ none
    → any (is_pair r.owner_id role.role_id) (update_status id new reason s).1.accounts.user_roles
      ≡ role_after new r.status (any (is_pair r.owner_id role.role_id) s.accounts.user_roles)
decision_moves_role id new reason s r role found changes named own ok =
    let (role', u, named', known, e) = accepted_settles id new reason s r found changes ok in
    let same : role' ≡ role = some_injective (sym named' ∙ named) in
    rw (e, same) (role_moved new r.status r.owner_id role.role_id u role s.accounts known own)

reviewed_rejection :
    (reason : Option Text) (r : Restaurant) (s : Store)
    → r.status ≡ RestaurantStatus.under_review
    → (decide AdminUpdateStatus.rejected reason r s).1.accounts ≡ s.accounts
unfolding decide
reviewed_rejection reason r s waits =
    elim (Bool-cases (lacks_reason AdminUpdateStatus.rejected reason)) [
      | inl l ↦ rw l refl
      | inr l ↦ elim (Option-cases (find_row (Auth.by_id r.owner_id) s.accounts.users)) [
        | inl e ↦ rw (l, e, decide) refl
        | inr (u, e) ↦ elim (Option-cases (find_row is_owner_role s.accounts.roles)) [
          | inl f ↦ rw (l, e, decide, f) refl
          | inr (role, f) ↦ rw (l, e, decide, f, waits) refl
        ]
      ]
    ]

abbrev with_document : ℕ → Text → Restaurant → Store → Store
with_document id type r s =
    save_restaurant (under_review r)
      (add_row (record { restaurant_id = id; document_type = type }) s)

uploaded :
    (owner id : ℕ) (type : Text) (s : Store) (r : Restaurant)
    → find_row (has_id id) s.restaurants ≡ some r
    → r.owner_id ≡ owner
    → (add_document owner id type s).1 ≡ with_document id type r s
unfolding add_document for_owner
uploaded owner id type s r found mine =
    let his : (r.owner_id == owner) ≡ true = (==_iff r.owner_id owner).1 mine in
    rw (found, for_owner, his) refl

rejected_after_upload :
    (id : ℕ) (type : Text) (reason : Option Text) (s : Store) (r : Restaurant)
    → find_row (has_id id) s.restaurants ≡ some r
    → (update_status id AdminUpdateStatus.rejected reason (with_document id type r s)).1.accounts
      ≡ s.accounts
unfolding update_status
rejected_after_upload id type reason s r found =
    let s1 : Store = with_document id type r s in
    let again : find_row (has_id id) s1.restaurants ≡ some (under_review r) =
      saved_is_found (λ x. x.id) (has_id id) r (under_review r) s.restaurants found refl
        (found_passes (has_id id) r s.restaurants found) in
    rw (again, update_status) (reviewed_rejection reason (under_review r) s1 refl)

-- Once the owner of a restaurant has uploaded a document, a rejection leaves all roles as they are, also
-- if the restaurant was approved before the upload.
pub upload_saves_role :
    (owner id : ℕ) (type : Text) (reason : Option Text) (s : Store) (r : Restaurant)
    → find_row (has_id id) s.restaurants ≡ some r
    → r.owner_id ≡ owner
    → (update_status id AdminUpdateStatus.rejected reason
        (add_document owner id type s).1).1.accounts
      ≡ s.accounts
upload_saves_role owner id type reason s r found mine =
    rw (uploaded owner id type s r found mine) (rejected_after_upload id type reason s r found)
