-- ===== src/Auth/Steps.antt =====
-- auth.service.ts: each call changes the table of sessions as Evolution says.
use meal_delivery.Prelude.{
  ℕ, refl, Bool, false, ◌||◌, Text, ltb, find_row, arith, Option-cases, Bool-cases, inl, inr, any,
  is_some,
}
use meal_delivery.Auth.{
  Store, Env, Profile, Purpose, by_email, by_id, is_customer, has_role, customer,
}
use meal_delivery.Auth.Sessions.{owned_by, login_with, refresh}
use meal_delivery.Auth.Codes.{
  verify_otp, resend_otp, forgot_password, reset_password, unused_code, unused_reset, open_one,
  last_for,
}
use meal_delivery.Auth.Accounts.{
  RegisterDto, register, ensure_customer, assign_if_known, taken_by, is_blank, sso_account,
  sso_login, sso_login_from_passport, known_as, sso_user, same_columns, delete_user_if_customer,
  delete_all_customers,
}
use meal_delivery.Auth.Members.{remove_role}
use meal_delivery.Auth.MemberSteps.{
  change_password-Evolves, update_profile-Evolves, assign_role-Evolves,
}
use meal_delivery.Auth.Calls.{Call, perform}
use meal_delivery.Auth.Evolution.{
  Evolves, keep, revoke_some, drop, chain, start_session-Evolves, refresh_by-Evolves,
  revoke-Evolves, logout-Evolves,
}

module _ (env : Env) where
  -- A user is added, or a customer role, a code or an assignment: sessions stay.
  register-Evolves :
      (salt now : ℕ) (d : RegisterDto) (otp : Text) (s : Store)
      → Evolves env s (register env salt now d otp s).1
  unfolding register ensure_customer
  register-Evolves salt now d otp s = elim (Bool-cases (is_blank d.email || is_blank d.password)) [
    | inl b ↦ rw b (keep refl (omega arith))
    | inr b ↦ elim (Option-cases (find_row (taken_by d) s.users)) [
      | inr (u, e) ↦ rw (b, e, register) (keep refl (omega arith))
      | inl e ↦ elim (Option-cases (find_row is_customer s.roles)) [
        | inl c ↦ rw (b, e, register, c, ensure_customer) (keep refl (omega arith))
        | inr (r, c) ↦ rw (b, e, register, c, ensure_customer) (keep refl (omega arith))
      ]
    ]
  ]

  sso_account-Evolves :
      (provider : Text) (p : Profile) (s : Store) → Evolves env s (sso_account provider p s).1
  unfolding sso_account
  sso_account-Evolves provider p s = elim (Option-cases (find_row (known_as provider p) s.users)) [
    | inr (u, e) ↦ elim (Bool-cases (is_some u.provider)) [
      | inl b ↦ rw (e, sso_account, b) (keep refl (omega arith))
      | inr b ↦ rw (e, sso_account, b) (keep refl (omega arith))
    ]
    | inl e ↦ elim (Option-cases p.email) [
      | inl m ↦ rw (e, sso_account, m) (keep refl (omega arith))
      | inr (a, m) ↦ elim (Bool-cases (any (same_columns (sso_user provider p a s.next)) s.users)) [
        | inl b ↦ rw (e, sso_account, m, b) (keep refl (omega arith))
        | inr b ↦ elim (Option-cases (find_row is_customer s.roles)) [
          | inl c ↦ rw (e, sso_account, m, b, c, assign_if_known) (keep refl (omega arith))
          | inr (r, c) ↦ rw (e, sso_account, m, b, c, assign_if_known) (keep refl (omega arith))
        ]
      ]
    ]
  ]

  sso_login-Evolves :
      (salt now : ℕ) (supported : Bool) (provider token : Text) (s : Store)
      → Evolves env s (sso_login env salt now supported provider token s).1
  unfolding sso_login
  sso_login-Evolves salt now supported provider token s = elim (Bool-cases supported) [
    | inr b ↦ rw b (keep refl (omega arith))
    | inl b ↦ elim (Option-cases (env.profile_of provider token)) [
      | inl e ↦ rw (b, e, sso_login) (keep refl (omega arith))
      | inr (p, e) ↦
          rw (b, e, sso_login)
            (chain (sso_account-Evolves provider p s) (
              start_session-Evolves env salt false now (sso_account provider p s).0
                (sso_account provider p s).1))
    ]
  ]

  delete_user-Evolves : (user : ℕ) (s : Store) → Evolves env s (delete_user_if_customer user s).1
  unfolding delete_user_if_customer
  delete_user-Evolves user s = elim (Option-cases (find_row (by_id user) s.users)) [
    | inl e ↦ rw (e, delete_user_if_customer) (keep refl (omega arith))
    | inr (u, e) ↦ elim (Bool-cases (has_role customer user s)) [
      | inl b ↦ rw (e, delete_user_if_customer, b) (drop _ refl (omega arith))
      | inr b ↦ rw (e, delete_user_if_customer, b) (keep refl (omega arith))
    ]
  ]

  delete_all-Evolves : (s : Store) → Evolves env s (delete_all_customers s).1
  unfolding delete_all_customers
  delete_all-Evolves s = elim (Option-cases (find_row is_customer s.roles)) [
    | inl e ↦ rw (e, delete_all_customers) (keep refl (omega arith))
    | inr (r, e) ↦ rw (e, delete_all_customers) (drop _ refl (omega arith))
  ]

  verify_otp-Evolves :
      (now : ℕ) (email otp : Text) (s : Store) → Evolves env s (verify_otp env now email otp s).1
  unfolding verify_otp
  verify_otp-Evolves now email otp s = elim (Option-cases (find_row (by_email email) s.users)) [
    | inl e ↦ rw (e, verify_otp) (keep refl (omega arith))
    | inr (u, e) ↦ elim (Option-cases (find_row (unused_code u.user_id (env.sha256 otp)) s.otps)) [
      | inl c ↦ rw (e, verify_otp, c) (keep refl (omega arith))
      | inr (o, c) ↦ elim (Bool-cases (ltb o.expires_at now)) [
        | inl l ↦ rw (e, verify_otp, c, l) (keep refl (omega arith))
        | inr l ↦ rw (e, verify_otp, c, l) (keep refl (omega arith))
      ]
    ]
  ]

  reset_password-Evolves :
      (salt now : ℕ) (email otp password : Text) (s : Store)
      → Evolves env s (reset_password env salt now email otp password s).1
  unfolding reset_password
  reset_password-Evolves salt now email otp password s =
      elim (Option-cases (find_row (by_email email) s.users)) [
        | inl e ↦ rw (e, reset_password) (keep refl (omega arith))
        | inr (u, e) ↦
            elim (Option-cases (find_row (unused_reset u.user_id (env.sha256 otp)) s.otps)) [
              | inl c ↦ rw (e, reset_password, c) (keep refl (omega arith))
              | inr (o, c) ↦ elim (Bool-cases (ltb o.expires_at now)) [
                | inl l ↦ rw (e, reset_password, c, l) (keep refl (omega arith))
                | inr l ↦
                    rw (e, reset_password, c, l)
                      (revoke_some (owned_by u.user_id) refl (omega arith))
              ]
            ]
      ]

  resend_otp-Evolves :
      (now : ℕ) (email : Text) (p : Purpose) (otp : Text) (s : Store)
      → Evolves env s (resend_otp env now email p otp s).1
  unfolding resend_otp
  resend_otp-Evolves now email p otp s = elim (Option-cases (find_row (by_email email) s.users)) [
    | inl e ↦ rw (e, resend_otp) (keep refl (omega arith))
    | inr (u, e) ↦ elim (Option-cases (open_one now (last_for u.user_id p s))) [
      | inl c ↦ rw (e, resend_otp, c) (keep refl (omega arith))
      | inr (o, c) ↦ rw (e, resend_otp, c) (keep refl (omega arith))
    ]
  ]

  forgot_password-Evolves :
      (now : ℕ) (email otp : Text) (s : Store)
      → Evolves env s (forgot_password env now email otp s).1
  unfolding forgot_password
  forgot_password-Evolves now email otp s =
      elim (Option-cases (find_row (by_email email) s.users)) [
        | inl e ↦ rw (e, forgot_password) (keep refl (omega arith))
        | inr (u, e) ↦
            elim (Option-cases (open_one now (last_for u.user_id Purpose.password_reset s))) [
              | inl c ↦ rw (e, forgot_password, c) (keep refl (omega arith))
              | inr (o, c) ↦ rw (e, forgot_password, c) (keep refl (omega arith))
            ]
      ]

  pub perform-Evolves : (now : ℕ) (c : Call) (s : Store) → Evolves env s (perform env now c s)
  unfolding perform login_with refresh sso_login_from_passport remove_role
  perform-Evolves now (Call.register_user salt d otp) s = register-Evolves salt now d otp s
  perform-Evolves now (Call.verify_code email otp) s = verify_otp-Evolves now email otp s
  perform-Evolves now (Call.log_in salt remember email password) s =
      start_session-Evolves env salt remember now _ s
  perform-Evolves now (Call.log_in_by salt supported provider token) s =
      sso_login-Evolves salt now supported provider token s
  perform-Evolves now (Call.use_refresh salt presented) s =
      refresh_by-Evolves env salt now presented _ s
  perform-Evolves now (Call.revoke_it plain) s = revoke-Evolves env plain s
  perform-Evolves now (Call.log_out user plain) s = logout-Evolves env user plain s
  perform-Evolves now (Call.resend email p otp) s = resend_otp-Evolves now email p otp s
  perform-Evolves now (Call.forget email otp) s = forgot_password-Evolves now email otp s
  perform-Evolves now (Call.reset salt email otp password) s =
      reset_password-Evolves salt now email otp password s
  perform-Evolves now (Call.delete_one user) s = delete_user-Evolves user s
  perform-Evolves now Call.delete_customers s = delete_all-Evolves s
  perform-Evolves now (Call.log_in_as salt p provider) s =
      chain (sso_account-Evolves provider p s) (
        start_session-Evolves env salt false now (sso_account provider p s).0
          (sso_account provider p s).1)
  perform-Evolves now (Call.new_password salt user old new) s =
      change_password-Evolves env salt user old new s
  perform-Evolves now (Call.new_profile user name phone) s =
      update_profile-Evolves env user name phone s
  perform-Evolves now (Call.give_role user role) s = assign_role-Evolves env user role s
  perform-Evolves now (Call.take_role user role) s = keep refl (omega arith)
