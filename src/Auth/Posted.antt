-- ===== src/Auth/Posted.antt =====
-- auth.service.ts: each call changes the table of codes as Sent says.
use meal_delivery.Prelude.{
  ℕ, ◌+◌, refl, false, Text, ltb, find_row, arith, Option-cases, Bool-cases, inl, inr, All-select,
}
use meal_delivery.Auth.{Store, Env, Purpose, by_email, by_id, is_customer, has_role, customer}
use meal_delivery.Auth.Sessions.{login_with, refresh}
use meal_delivery.Auth.Codes.{
  verify_otp, resend_otp, forgot_password, reset_password, unused_code, unused_reset, open_one,
  last_for, with_password, verified,
}
use meal_delivery.Auth.Accounts.{
  sso_account, sso_login_from_passport, delete_user_if_customer, delete_all_customers,
}
use meal_delivery.Auth.Members.{remove_role}
use meal_delivery.Auth.MemberSteps.{change_password-Sends, update_profile-Sends, assign_role-Sends}
use meal_delivery.Auth.Calls.{Call, perform}
use meal_delivery.Auth.Sent.{
  Sends, same, spent, dropped, next_code, grow, saved, start_session-Sends, refresh_by-Sends,
  revoke-Sends, logout-Sends, sso_account-Sends, after, register-Sends, sso_login-Sends, unchanged,
}

module _ (env : Env) (now : ℕ) where
  delete_user-Sends : (user : ℕ) (s : Store) → Sends now s (delete_user_if_customer user s).1
  unfolding delete_user_if_customer
  delete_user-Sends user s = elim (Option-cases (find_row (by_id user) s.users)) [
    | inl e ↦ rw (e, delete_user_if_customer) (unchanged env now s)
    | inr (u, e) ↦ elim (Bool-cases (has_role customer user s)) [
      | inl b ↦
          rw (e, delete_user_if_customer, b) (dropped _ refl (omega arith) (All-select _ _ s.users))
      | inr b ↦ rw (e, delete_user_if_customer, b) (unchanged env now s)
    ]
  ]

  delete_all-Sends : (s : Store) → Sends now s (delete_all_customers s).1
  unfolding delete_all_customers
  delete_all-Sends s = elim (Option-cases (find_row is_customer s.roles)) [
    | inl e ↦ rw (e, delete_all_customers) (unchanged env now s)
    | inr (r, e) ↦
        rw (e, delete_all_customers) (dropped _ refl (omega arith) (All-select _ _ s.users))
  ]

  verify_otp-Sends : (email otp : Text) (s : Store) → Sends now s (verify_otp env now email otp s).1
  unfolding verify_otp
  verify_otp-Sends email otp s = elim (Option-cases (find_row (by_email email) s.users)) [
    | inl e ↦ rw (e, verify_otp) (unchanged env now s)
    | inr (u, e) ↦ elim (Option-cases (find_row (unused_code u.user_id (env.sha256 otp)) s.otps)) [
      | inl c ↦ rw (e, verify_otp, c) (unchanged env now s)
      | inr (o, c) ↦ elim (Bool-cases (ltb o.expires_at now)) [
        | inl l ↦ rw (e, verify_otp, c, l) (unchanged env now s)
        | inr l ↦
            rw (e, verify_otp, c, l)
              (spent _ refl (omega arith)
                (saved s.next (by_email email) (by_id u.user_id) u (verified now u) s.users e refl))
      ]
    ]
  ]

  reset_password-Sends :
      (salt : ℕ) (email otp password : Text) (s : Store)
      → Sends now s (reset_password env salt now email otp password s).1
  unfolding reset_password
  reset_password-Sends salt email otp password s =
      elim (Option-cases (find_row (by_email email) s.users)) [
        | inl e ↦ rw (e, reset_password) (unchanged env now s)
        | inr (u, e) ↦
            elim (Option-cases (find_row (unused_reset u.user_id (env.sha256 otp)) s.otps)) [
              | inl c ↦ rw (e, reset_password, c) (unchanged env now s)
              | inr (o, c) ↦ elim (Bool-cases (ltb o.expires_at now)) [
                | inl l ↦ rw (e, reset_password, c, l) (unchanged env now s)
                | inr l ↦
                    rw (e, reset_password, c, l)
                      (spent _ refl (omega arith) (
                        saved s.next (by_email email) (by_id u.user_id) u
                          (with_password env salt password u) s.users e refl))
              ]
            ]
      ]

  resend_otp-Sends :
      (email : Text) (p : Purpose) (otp : Text) (s : Store)
      → Sends now s (resend_otp env now email p otp s).1
  unfolding resend_otp
  resend_otp-Sends email p otp s = elim (Option-cases (find_row (by_email email) s.users)) [
    | inl e ↦ rw (e, resend_otp) (unchanged env now s)
    | inr (u, e) ↦ elim (Option-cases (open_one now (last_for u.user_id p s))) [
      | inl c ↦
          rw (e, resend_otp, c)
            (next_code _ u (by_email email) refl (omega arith) e refl c
              (grow s.next (s.next + 1) s.users (omega arith)))
      | inr (o, c) ↦ rw (e, resend_otp, c) (unchanged env now s)
    ]
  ]

  forgot_password-Sends :
      (email otp : Text) (s : Store) → Sends now s (forgot_password env now email otp s).1
  unfolding forgot_password
  forgot_password-Sends email otp s = elim (Option-cases (find_row (by_email email) s.users)) [
    | inl e ↦ rw (e, forgot_password) (unchanged env now s)
    | inr (u, e) ↦
        elim (Option-cases (open_one now (last_for u.user_id Purpose.password_reset s))) [
          | inl c ↦
              rw (e, forgot_password, c)
                (next_code _ u (by_email email) refl (omega arith) e refl c
                  (grow s.next (s.next + 1) s.users (omega arith)))
          | inr (o, c) ↦ rw (e, forgot_password, c) (unchanged env now s)
        ]
  ]

  pub perform-Sends : (c : Call) (s : Store) → Sends now s (perform env now c s)
  unfolding perform login_with refresh sso_login_from_passport remove_role
  perform-Sends (Call.register_user salt d otp) s = register-Sends env now salt d otp s
  perform-Sends (Call.verify_code email otp) s = verify_otp-Sends email otp s
  perform-Sends (Call.log_in salt remember email password) s =
      start_session-Sends env now salt remember _ s
  perform-Sends (Call.log_in_by salt supported provider token) s =
      sso_login-Sends env now salt supported provider token s
  perform-Sends (Call.use_refresh salt presented) s = refresh_by-Sends env now salt presented _ s
  perform-Sends (Call.revoke_it plain) s = revoke-Sends env now plain s
  perform-Sends (Call.log_out user plain) s = logout-Sends env now user plain s
  perform-Sends (Call.resend email p otp) s = resend_otp-Sends email p otp s
  perform-Sends (Call.forget email otp) s = forgot_password-Sends email otp s
  perform-Sends (Call.reset salt email otp password) s =
      reset_password-Sends salt email otp password s
  perform-Sends (Call.delete_one user) s = delete_user-Sends user s
  perform-Sends Call.delete_customers s = delete_all-Sends s
  perform-Sends (Call.log_in_as salt p provider) s =
      after (sso_account-Sends env now provider p s) (
        start_session-Sends env now salt false (sso_account provider p s).0
          (sso_account provider p s).1)
  perform-Sends (Call.new_password salt user old new) s =
      change_password-Sends env now salt user old new s
  perform-Sends (Call.new_profile user name phone) s =
      update_profile-Sends env now user name phone s
  perform-Sends (Call.give_role user role) s = assign_role-Sends env now user role s
  perform-Sends (Call.take_role user role) s = same refl (omega arith) (λ h. h)
