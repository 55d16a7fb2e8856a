-- ===== src/Permissions/Sound.antt =====
-- roles.service.ts: grants name roles and permissions that exist.
use meal_delivery.Prelude.{
  ℕ, ◌+◌, ◌≡◌, inl, inr, Bool, true, false, not, some, List, [], ◌∷◌, ◌==◌, Text, text_eq, arith,
  map, select, find_row, any, every, All, All-map, All-append, Bool-cases, Option-cases,
}
use meal_delivery.Auth.{Role}
use meal_delivery.Permissions.{
  Permission, RolePermission, Store, is_role, create_role, known_permission, to_create, grant,
  assign_permissions, without_role, is_granted, purged, delete_role, repeats,
}

abbrev pub knows : List Role → ℕ → Bool
knows rs k = any (is_role k) rs

-- The role and the permission of a grant have rows.
abbrev pub IsBacked : Store → RolePermission → Type 0
IsBacked s rp =
    (knows s.roles rp.role_id ≡ true) × (known_permission s.permissions rp.permission_id ≡ true)

abbrev pub AreBacked : Store → Type 0
AreBacked s = All (IsBacked s) s.role_permissions

found_known :
    (k : ℕ) (r : Role) (rs : List Role) → find_row (is_role k) rs ≡ some r → knows rs k ≡ true
unfolding find_row any
found_known k r [] found = ground (arith, found)
found_known k r (x ∷ xs) found = elim (Bool-cases (x.role_id == k)) [
  | inl e ↦ ground (arith, e)
  | inr e ↦ ground (arith, found_known k r xs (rw e at found))
]

every_selected :
    (p q : ℕ → Bool) (ks : List ℕ) → every p ks ≡ true → All (λ k. p k ≡ true) (select q ks)
unfolding every select
every_selected p q [] h = tt
every_selected p q (k ∷ ks) h = elim (Bool-cases (q k)) [
  | inr e ↦ rw e (every_selected p q ks (ground (arith, h)))
  | inl e ↦ rw e (ground (arith, h), every_selected p q ks (ground (arith, h)))
]

granted-IsBacked :
    (s : Store) (role : ℕ) (ks : List ℕ)
    → knows s.roles role ≡ true
    → All (λ k. known_permission s.permissions k ≡ true) ks
    → All (IsBacked s) (map (grant role) ks)
granted-IsBacked s role [] known h = tt
granted-IsBacked s role (k ∷ ks) known h = ((known, h.0), granted-IsBacked s role ks known h.1)

other_role :
    (role k : ℕ) (rs : List Role)
    → (k == role) ≡ false
    → knows rs k ≡ true
    → knows (select (λ r. not (is_role role r)) rs) k ≡ true
unfolding any select
other_role role k [] apart h = ground (arith, h)
other_role role k (r ∷ rs) apart h = ground (arith, apart, h, other_role role k rs apart)

still-IsBacked :
    (role : ℕ) (s : Store) (rps : List RolePermission)
    → All (IsBacked s) rps
    → All (IsBacked (without_role role s)) (select (λ rp. not (rp.role_id == role)) rps)
unfolding select
still-IsBacked role s [] h = tt
still-IsBacked role s (rp ∷ rps) h = elim (Bool-cases (rp.role_id == role)) [
  | inl e ↦ rw e (still-IsBacked role s rps h.1)
  | inr e ↦
      rw e ((other_role role rp.role_id s.roles e h.0.0, h.0.1), still-IsBacked role s rps h.1)
]

-- A permission that is granted is not purged.
kept_permission :
    (k : ℕ) (rps : List RolePermission) (ps : List Permission)
    → any (λ (rp : RolePermission). rp.permission_id == k) rps ≡ true
    → known_permission ps k ≡ true
    → known_permission (select (is_granted rps) ps) k ≡ true
unfolding any select
kept_permission k rps [] used h = ground (arith, h)
kept_permission k rps (p ∷ ps) used h = elim (Bool-cases (p.permission_id == k)) [
  | inl e ↦
      let key : p.permission_id ≡ k = ground (arith, e) in
      let stays : is_granted rps p ≡ true = rw key used in rw stays (ground (arith, e))
  | inr e ↦
      let rest = kept_permission k rps ps used (ground (arith, h, e)) in
      elim (Bool-cases (is_granted rps p)) [
        | inl g ↦ rw g (ground (arith, rest))
        | inr g ↦ rw g rest
      ]
]

more_roles :
    (r : Role) (s : Store) (n : ℕ) (rps : List RolePermission)
    → All (IsBacked s) rps
    → All (IsBacked (record s { roles = r ∷ s.roles; next = n })) rps
unfolding any
more_roles r s n rps h = All-map _ _ rps (λ rp b. (ground (arith, b.0), b.1)) h

create_role-AreBacked : (name : Text) (s : Store) → AreBacked s → AreBacked (create_role name s).1
unfolding create_role
create_role-AreBacked name s h =
    elim (Bool-cases (any (λ (r : Role). text_eq r.name name) s.roles)) [
      | inl e ↦ rw e h
      | inr e ↦ rw e (more_roles _ s (s.next + 1) s.role_permissions h)
    ]

assign_permissions-AreBacked :
    (role : ℕ) (ks : List ℕ) (s : Store) → AreBacked s → AreBacked (assign_permissions role ks s).1
unfolding assign_permissions
assign_permissions-AreBacked role ks s h = elim (Option-cases (find_row (is_role role) s.roles)) [
  | inl e ↦ rw (e, assign_permissions) h
  | inr (r, e) ↦ elim (Bool-cases (every (known_permission s.permissions) ks)) [
    | inr c ↦ rw (e, assign_permissions, c) h
    | inl c ↦ elim (Bool-cases (repeats (to_create role ks s))) [
      | inl d ↦ rw (e, assign_permissions, c, d) h
      | inr d ↦
          rw (e, assign_permissions, c, d)
            (All-append (IsBacked s) (map (grant role) (to_create role ks s)) s.role_permissions
              (granted-IsBacked s role (to_create role ks s) (found_known role r s.roles e)
                (every_selected (known_permission s.permissions) _ ks c))
              h)
    ]
  ]
]

each_is_used :
    (rps all : List RolePermission)
    → ((k : ℕ)
        → any (λ (rp : RolePermission). rp.permission_id == k) rps ≡ true
        → any (λ (rp : RolePermission). rp.permission_id == k) all ≡ true)
    → All (λ rp. any (λ (x : RolePermission). x.permission_id == rp.permission_id) all ≡ true) rps
unfolding any
each_is_used [] all within = tt
each_is_used (rp ∷ rps) all within = (
  within rp.permission_id (ground arith),
  each_is_used rps all (λ k u. within k (ground (arith, u))),
)

purged-IsBacked :
    (s : Store) (rps : List RolePermission)
    → All
        (λ rp.
          any (λ (x : RolePermission). x.permission_id == rp.permission_id) s.role_permissions
          ≡ true)
        rps
    → All (IsBacked s) rps
    → All (IsBacked (purged s)) rps
purged-IsBacked s [] used h = tt
purged-IsBacked s (rp ∷ rps) used h = (
  (h.0.0, kept_permission rp.permission_id s.role_permissions s.permissions used.0 h.0.1),
  purged-IsBacked s rps used.1 h.1,
)

delete_role-AreBacked :
    (role : ℕ) (purge : Bool) (s : Store) → AreBacked s → AreBacked (delete_role role purge s).1
unfolding delete_role
delete_role-AreBacked role purge s h = elim (Option-cases (find_row (is_role role) s.roles)) [
  | inl e ↦ rw (e, delete_role) h
  | inr (r, e) ↦
      let s1 : Store = without_role role s in
      let backed : AreBacked s1 = still-IsBacked role s s.role_permissions h in
      elim (Bool-cases purge) [
        | inr p ↦ rw (e, delete_role, p) backed
        | inl p ↦
            rw (e, delete_role, p)
              (purged-IsBacked s1 s1.role_permissions
                (each_is_used s1.role_permissions s1.role_permissions (λ k u. u)) backed)
      ]
]

-- The calls that write.
pub data Call : Type 0 where
  new_role : Text → Call
  assign : ℕ → List ℕ → Call
  drop_role : ℕ → Bool → Call

unfoldable pub perform : Call → Store → Store
perform (new_role name) s = (create_role name s).1
perform (assign role ks) s = (assign_permissions role ks s).1
perform (drop_role role purge) s = (delete_role role purge s).1

-- If the role and the permission of every grant exist, they do after any call, also one that deletes a
-- role and purges the permissions that no role has.
pub perform-AreBacked : (c : Call) (s : Store) → AreBacked s → AreBacked (perform c s)
unfolding perform
perform-AreBacked (new_role name) s h = create_role-AreBacked name s h
perform-AreBacked (assign role ks) s h = assign_permissions-AreBacked role ks s h
perform-AreBacked (drop_role role purge) s h = delete_role-AreBacked role purge s h
