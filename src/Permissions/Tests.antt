-- ===== src/Permissions/Tests.antt =====
-- Two roles, and three permissions, of which one is granted to the first role.
use meal_delivery.Prelude.{
  ◌≡◌, refl, ◌||◌, ◌&&◌, true, none, [], ◌∷◌, ◌==◌, member, find_row, every, any, select,
}
use meal_delivery.Permissions.{Store, has_permission, assign_permissions}
use meal_delivery.Permissions.Sound.{Call, perform, AreBacked, perform-AreBacked}
use meal_delivery.Permissions.Grants.{assignment_grants}

abbrev store : Store
store = record {
  roles = record { role_id = 1; name = b'a' ∷ [] } ∷ record { role_id = 2; name = b'b' ∷ [] } ∷ [];
  permissions =
      record { permission_id = 4; name = b'r' ∷ [] }
      ∷ record { permission_id = 5; name = b's' ∷ [] }
      ∷ record { permission_id = 6; name = b't' ∷ [] }
      ∷ [];
  role_permissions = record { role_id = 1; permission_id = 4 } ∷ [];
  next = 7;
}

perform-AreBacked_example : AreBacked (perform (Call.drop_role 2 true) store)
unfolding any
perform-AreBacked_example = perform-AreBacked (Call.drop_role 2 true) store ((refl, refl), tt)

accepted : (assign_permissions 2 (4 ∷ 5 ∷ []) store).0 ≡ none
unfolding assign_permissions find_row every any select member
accepted = refl

assignment_grants_example :
    has_permission 2 5 (assign_permissions 2 (4 ∷ 5 ∷ []) store).1.role_permissions
    ≡ (has_permission 2 5 store.role_permissions || ((2 == 2) && member 5 (4 ∷ 5 ∷ [])))
assignment_grants_example = assignment_grants 2 (4 ∷ 5 ∷ []) store 2 5 accepted
