-- ===== src/Auth/MemberSteps.antt =====
-- user.service.ts: each call changes the tables of sessions and codes as Evolution and Sent say.
use meal_delivery.Prelude.{
  ◌==◌, ℕ, refl, ◌&&◌, Option, Text, find_row, arith, Option-cases, Bool-cases, inl, inr, any,
}
use meal_delivery.Auth.{given, Store, Env, by_id}
use meal_delivery.Auth.Codes.{with_password}
use meal_delivery.Auth.Members.{
  change_password, update_profile, assign_role, is_new, name_taken, phone_taken, with_profile,
  is_pair,
}
use meal_delivery.Auth.Sent.{Sends, same, saved, unchanged}
use meal_delivery.Auth.Evolution.{Evolves, keep}

module _ (env : Env) where
  pub change_password-Evolves :
      (salt user : ℕ) (old new : Text) (s : Store)
      → Evolves env s (change_password env salt user old new s).1
  unfolding change_password
  change_password-Evolves salt user old new s =
      elim (Option-cases (find_row (by_id user) s.users)) [
        | inl e ↦ rw (e, change_password) (keep refl (omega arith))
        | inr (u, e) ↦ elim (Bool-cases (env.matches old u.password_hash)) [
          | inl m ↦ rw (e, change_password, m) (keep refl (omega arith))
          | inr m ↦ rw (e, change_password, m) (keep refl (omega arith))
        ]
      ]

  pub update_profile-Evolves :
      (user : ℕ) (name phone : Option Text) (s : Store)
      → Evolves env s (update_profile user name phone s).1
  unfolding update_profile
  update_profile-Evolves user name phone s = elim (Option-cases (find_row (by_id user) s.users)) [
    | inl e ↦ rw (e, update_profile) (keep refl (omega arith))
    | inr (u, e) ↦
        elim (Bool-cases (is_new (given name) u.username && name_taken user name s.users)) [
          | inl m ↦ rw (e, update_profile, m) (keep refl (omega arith))
          | inr m ↦
              elim (Bool-cases (is_new (given phone) u.phone && phone_taken user phone s.users)) [
                | inl n ↦ rw (e, update_profile, m, n) (keep refl (omega arith))
                | inr n ↦ rw (e, update_profile, m, n) (keep refl (omega arith))
              ]
        ]
  ]

  pub assign_role-Evolves : (user role : ℕ) (s : Store) → Evolves env s (assign_role user role s).1
  unfolding assign_role
  assign_role-Evolves user role s = elim (Option-cases (find_row (by_id user) s.users)) [
    | inl e ↦ rw (e, assign_role) (keep refl (omega arith))
    | inr (u, e) ↦ elim (Option-cases (find_row (λ r. r.role_id == role) s.roles)) [
      | inl c ↦ rw (e, assign_role, c) (keep refl (omega arith))
      | inr (r, c) ↦ elim (Option-cases (find_row (λ ur. ur.user_id == user) s.user_roles)) [
        | inl d ↦ rw (e, assign_role, c, d) (keep refl (omega arith))
        | inr (ur, d) ↦ elim (Bool-cases (ur.role_id == role)) [
          | inl b ↦ rw (e, assign_role, c, d, b) (keep refl (omega arith))
          | inr b ↦ elim (Bool-cases (any (is_pair user role) s.user_roles)) [
            | inl a ↦ rw (e, assign_role, c, d, b, a) (keep refl (omega arith))
            | inr a ↦ rw (e, assign_role, c, d, b, a) (keep refl (omega arith))
          ]
        ]
      ]
    ]
  ]

module _ (env : Env) (now : ℕ) where
  pub change_password-Sends :
      (salt user : ℕ) (old new : Text) (s : Store)
      → Sends now s (change_password env salt user old new s).1
  unfolding change_password
  change_password-Sends salt user old new s = elim (Option-cases (find_row (by_id user) s.users)) [
    | inl e ↦ rw (e, change_password) (unchanged env now s)
    | inr (u, e) ↦ elim (Bool-cases (env.matches old u.password_hash)) [
      | inl m ↦
          rw (e, change_password, m)
            (same refl (omega arith) (
              saved s.next (by_id user) (by_id u.user_id) u (with_password env salt new u) s.users e
                refl))
      | inr m ↦ rw (e, change_password, m) (unchanged env now s)
    ]
  ]

  pub update_profile-Sends :
      (user : ℕ) (name phone : Option Text) (s : Store)
      → Sends now s (update_profile user name phone s).1
  unfolding update_profile
  update_profile-Sends user name phone s = elim (Option-cases (find_row (by_id user) s.users)) [
    | inl e ↦ rw (e, update_profile) (unchanged env now s)
    | inr (u, e) ↦
        elim (Bool-cases (is_new (given name) u.username && name_taken user name s.users)) [
          | inl m ↦ rw (e, update_profile, m) (unchanged env now s)
          | inr m ↦
              elim (Bool-cases (is_new (given phone) u.phone && phone_taken user phone s.users)) [
                | inl n ↦ rw (e, update_profile, m, n) (unchanged env now s)
                | inr n ↦
                    rw (e, update_profile, m, n)
                      (same refl (omega arith) (
                        saved s.next (by_id user) (by_id u.user_id) u
                          (with_profile (given name) (given phone) u) s.users e refl))
              ]
        ]
  ]

  pub assign_role-Sends : (user role : ℕ) (s : Store) → Sends now s (assign_role user role s).1
  unfolding assign_role
  assign_role-Sends user role s = elim (Option-cases (find_row (by_id user) s.users)) [
    | inl e ↦ rw (e, assign_role) (unchanged env now s)
    | inr (u, e) ↦ elim (Option-cases (find_row (λ r. r.role_id == role) s.roles)) [
      | inl c ↦ rw (e, assign_role, c) (unchanged env now s)
      | inr (r, c) ↦ elim (Option-cases (find_row (λ ur. ur.user_id == user) s.user_roles)) [
        | inl d ↦ rw (e, assign_role, c, d) (same refl (omega arith) (λ h. h))
        | inr (ur, d) ↦ elim (Bool-cases (ur.role_id == role)) [
          | inl b ↦ rw (e, assign_role, c, d, b) (unchanged env now s)
          | inr b ↦ elim (Bool-cases (any (is_pair user role) s.user_roles)) [
            | inl a ↦ rw (e, assign_role, c, d, b, a) (unchanged env now s)
            | inr a ↦ rw (e, assign_role, c, d, b, a) (same refl (omega arith) (λ h. h))
          ]
        ]
      ]
    ]
  ]
