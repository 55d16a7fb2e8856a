-- ===== src/Permissions/Grants.antt =====
-- roles.service.ts: what an assignment grants.
use meal_delivery.Prelude.{
  ℕ, ◌≡◌, refl, inl, inr, Bool, true, false, not, ◌&&◌, ◌||◌, none, some, List, [], ◌∷◌, ◌++◌, ◌==◌,
  ==_iff, arith, map, select, find_row, any, every, member, Bool-cases, Option-cases,
}
use meal_delivery.Permissions.{
  RolePermission, Store, Error, is_role, is_grant, has_permission, known_permission, to_create,
  grant, repeats, assign_permissions,
}

any-append :
    (p : RolePermission → Bool) (xs ys : List RolePermission)
    → any p (xs ++ ys) ≡ (any p xs || any p ys)
unfolding any
any-append p [] ys = refl
any-append p (x ∷ xs) ys = ground (arith, any-append p xs ys)

any-grant :
    (role j k : ℕ) (ks : List ℕ)
    → has_permission j k (map (grant role) ks) ≡ ((role == j) && member k ks)
unfolding any member
any-grant role j k [] = ground arith
any-grant role j k (x ∷ xs) = ground (arith, any-grant role j k xs)

member-select : (p : ℕ → Bool) (k : ℕ) (ks : List ℕ) → member k (select p ks) ≡ (member k ks && p k)
unfolding member select
member-select p k [] = refl
member-select p k (x ∷ xs) = elim (Bool-cases (x == k)) [
  | inl e ↦
      let key : x ≡ k = (==_iff x k).0 e in
      elim (Bool-cases (p k)) [
        | inl c ↦
            let here : p x ≡ true = rw key c in rw here (ground (arith, e, c, member-select p k xs))
        | inr c ↦
            let here : p x ≡ false = rw key c in
            rw here (ground (arith, e, c, member-select p k xs))
      ]
  | inr e ↦ elim (Bool-cases (p x)) [
    | inl c ↦ rw c (ground (arith, e, member-select p k xs))
    | inr c ↦ rw c (ground (arith, e, member-select p k xs))
  ]
]

refused : (e : Error) → some e ≡ none → ⊥
refused e p = cc p

granted_after :
    (role j k : ℕ) (ks : List ℕ) (s : Store)
    → has_permission j k (map (grant role) (to_create role ks s) ++ s.role_permissions)
      ≡ (has_permission j k s.role_permissions || ((role == j) && member k ks))
granted_after role j k ks s =
    let fresh : ℕ → Bool = λ i. not (has_permission role i s.role_permissions) in
    let sum = any-append (is_grant j k) (map (grant role) (select fresh ks)) s.role_permissions in
    let new = any-grant role j k (select fresh ks) in
    let picked = member-select fresh k ks in
    elim (Bool-cases (role == j)) [
      | inr e ↦ rw (sum, new, e) (ground arith)
      | inl e ↦
          let key : role ≡ j = (==_iff role j).0 e in rw (sum, new, e, picked, key) (ground arith)
    ]

-- After an assignment that succeeds, a role has a permission exactly if it had it before, or it is the
-- role of the assignment and the permission is among those assigned.
pub assignment_grants :
    (role : ℕ) (ks : List ℕ) (s : Store) (j k : ℕ)
    → (assign_permissions role ks s).0 ≡ none
    → has_permission j k (assign_permissions role ks s).1.role_permissions
      ≡ (has_permission j k s.role_permissions || ((role == j) && member k ks))
unfolding assign_permissions
assignment_grants role ks s j k ok = elim (Option-cases (find_row (is_role role) s.roles)) [
  | inl e ↦ elim (refused Error.role_not_found (rw (e, assign_permissions) at ok)) [ ]
  | inr (r, e) ↦ elim (Bool-cases (every (known_permission s.permissions) ks)) [
    | inr c ↦ elim (refused Error.permissions_not_found (rw (e, assign_permissions, c) at ok)) [ ]
    | inl c ↦ elim (Bool-cases (repeats (to_create role ks s))) [
      | inl d ↦ elim (refused Error.already_assigned (rw (e, assign_permissions, c, d) at ok)) [ ]
      | inr d ↦ rw (e, assign_permissions, c, d) (granted_after role j k ks s)
    ]
  ]
]
