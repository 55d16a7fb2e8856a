-- ===== src/Auth/Members.antt =====
-- auth-service/src/modules/UserModule/user.service.ts: passwords, profiles and roles of users. The
-- audit log is not kept. `save` of a role whose key was changed adds a row and leaves the old one, as
-- TypeORM finds the row to update by the key.
use meal_delivery.Prelude.{
  ℕ, Bool, false, not, ◌&&◌, Option, none, some, List, ◌==◌, Text, find_row, if◌then◌else◌, any,
  or_else, select,
}
use meal_delivery.Auth.{given, User, UserRole, Store, Env, Error, by_id, save_user, opt_eq, assign}
use meal_delivery.Auth.Codes.{with_password}

unfoldable pub change_password : Env → ℕ → ℕ → Text → Text → Store → Option Error × Store
change_password env salt user old new s = elim (find_row (by_id user) s.users) [
  | none ↦ (some Error.user_not_found, s)
  | some u ↦
      if env.matches old u.password_hash
      then (none, save_user (with_password env salt new u) s)
      else (some Error.wrong_password, s)
]

abbrev pub is_new : Option Text → Option Text → Bool
is_new none old = false
is_new (some t) old = not (opt_eq (some t) old)

abbrev pub name_taken : ℕ → Option Text → List User → Bool
name_taken user name us = any (λ x. opt_eq x.username name && not (x.user_id == user)) us

abbrev pub phone_taken : ℕ → Option Text → List User → Bool
phone_taken user phone us = any (λ x. opt_eq x.phone phone && not (x.user_id == user)) us

abbrev pub with_profile : Option Text → Option Text → User → User
with_profile name phone u = record u {
  username = or_else name u.username;
  phone = or_else phone u.phone;
}

-- The username and the phone number, where they are given.
unfoldable pub update_profile : ℕ → Option Text → Option Text → Store → Option Error × Store
update_profile user name phone s = elim (find_row (by_id user) s.users) [
  | none ↦ (some Error.user_not_found, s)
  | some u ↦
      if is_new (given name) u.username && name_taken user name s.users
      then (some Error.already_in_use, s)
      else if is_new (given phone) u.phone && phone_taken user phone s.users
      then (some Error.phone_in_use, s)
      else (none, save_user (with_profile (given name) (given phone) u) s)
]

abbrev pub is_pair : ℕ → ℕ → UserRole → Bool
is_pair user role ur = (ur.user_id == user) && (ur.role_id == role)

-- `save` by the key of user and role
abbrev pub save_user_role : ℕ → ℕ → Store → Store
save_user_role user role s = if any (is_pair user role) s.user_roles then s else assign user role s

unfoldable pub assign_role : ℕ → ℕ → Store → Option Error × Store
assign_role user role s = elim (find_row (by_id user) s.users) [
  | none ↦ (some Error.user_not_found, s)
  | some u ↦ elim (find_row (λ r. r.role_id == role) s.roles) [
    | none ↦ (some Error.role_not_found, s)
    | some r ↦ elim (find_row (λ ur. ur.user_id == user) s.user_roles) [
      | none ↦ (none, assign user role s)
      | some ur ↦ (none, if ur.role_id == role then s else save_user_role user role s)
    ]
  ]
]

unfoldable pub remove_role : ℕ → ℕ → Store → Store
remove_role user role s = record s {
  user_roles = select (λ ur. not (is_pair user role ur)) s.user_roles;
}
