-- ===== src/Permissions.antt =====
-- auth-service/src/modules/RolesModule/roles.service.ts: roles and the permissions that they grant.
pub mod Sound
pub mod Grants
mod Tests
use meal_delivery.Prelude.{
  ℕ, ◌+◌, Bool, true, false, not, ◌&&◌, ◌||◌, Option, none, some, List, [], ◌∷◌, ◌++◌, ◌==◌, Text,
  text_eq, map, select, find_row, any, every, member, length, if◌then◌else◌, ◌⊎◌, inl, inr,
}
use meal_delivery.Auth.{Role}

pub record Permission : Type 0 where
  pub permission_id : ℕ
  pub name : Text

pub record RolePermission : Type 0 where
  pub role_id : ℕ
  pub permission_id : ℕ

pub record Store : Type 0 where
  pub roles : List Role
  pub permissions : List Permission
  pub role_permissions : List RolePermission
  pub next : ℕ

pub data Error : Type 0 where
  name_exists role_not_found permissions_not_found already_assigned : Error

abbrev pub is_role : ℕ → Role → Bool
is_role k r = r.role_id == k

-- The name is a unique column.
unfoldable pub create_role : Text → Store → (Error ⊎ ℕ) × Store
create_role name s =
    if any (λ (r : Role). text_eq r.name name) s.roles then (inl Error.name_exists, s) else (
      inr s.next,
      record s { roles = record { role_id = s.next; name = name } ∷ s.roles; next = s.next + 1 },
    )

abbrev pub is_grant : ℕ → ℕ → RolePermission → Bool
is_grant role k rp = (rp.role_id == role) && (rp.permission_id == k)

abbrev pub has_permission : ℕ → ℕ → List RolePermission → Bool
has_permission role k rps = any (is_grant role k) rps

abbrev pub known_permission : List Permission → ℕ → Bool
known_permission ps k = any (λ (p : Permission). p.permission_id == k) ps

abbrev pub to_create : ℕ → List ℕ → Store → List ℕ
to_create role ks s = select (λ k. not (has_permission role k s.role_permissions)) ks

abbrev pub grant : ℕ → ℕ → RolePermission
grant role k = record { role_id = role; permission_id = k }

abbrev pub add_grants : ℕ → List ℕ → Store → Store
add_grants role ks s = record s { role_permissions = map (grant role) ks ++ s.role_permissions }

abbrev pub repeats : List ℕ → Bool
repeats [] = false
repeats (k ∷ ks) = member k ks || repeats ks

-- An id that is given twice violates the key of the new rows, and nothing is saved.
unfoldable pub assign_permissions : ℕ → List ℕ → Store → Option Error × Store
assign_permissions role ks s = elim (find_row (is_role role) s.roles) [
  | none ↦ (some Error.role_not_found, s)
  | some r ↦
      if not (every (known_permission s.permissions) ks)
      then (some Error.permissions_not_found, s)
      else if repeats (to_create role ks s)
      then (some Error.already_assigned, s)
      else (none, add_grants role (to_create role ks s) s)
]

-- The permissions of the role go with it (`onDelete: 'CASCADE'`).
abbrev pub without_role : ℕ → Store → Store
without_role role s = record s {
  roles = select (λ r. not (is_role role r)) s.roles;
  role_permissions = select (λ rp. not (rp.role_id == role)) s.role_permissions;
}

abbrev pub is_granted : List RolePermission → Permission → Bool
is_granted rps p = any (λ (rp : RolePermission). rp.permission_id == p.permission_id) rps

abbrev pub orphans : Store → List Permission
orphans s = select (λ p. not (is_granted s.role_permissions p)) s.permissions

abbrev pub purged : Store → Store
purged s = record s { permissions = select (is_granted s.role_permissions) s.permissions }

-- The number of permissions that were purged.
unfoldable pub delete_role : ℕ → Bool → Store → (Error ⊎ ℕ) × Store
delete_role role purge s = elim (find_row (is_role role) s.roles) [
  | none ↦ (inl Error.role_not_found, s)
  | some r ↦
      let s1 : Store = without_role role s in
      if purge then (inr (length (orphans s1)), purged s1) else (inr 0, s1)
]
