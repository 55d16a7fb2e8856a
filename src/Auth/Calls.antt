-- ===== src/Auth/Calls.antt =====
-- auth.service.ts and user.service.ts: the calls that write, and runs of them. Each call comes some time after the last.
use meal_delivery.Prelude.{ℕ, ◌+◌, Bool, Option, List, [], ◌∷◌, Text}
use meal_delivery.Auth.{Purpose, Store, Env, Profile}
use meal_delivery.Auth.Members.{change_password, update_profile, assign_role, remove_role}
use meal_delivery.Auth.Sessions.{login_with, refresh, revoke, logout}
use meal_delivery.Auth.Codes.{verify_otp, resend_otp, forgot_password, reset_password}
use meal_delivery.Auth.Accounts.{
  RegisterDto, register, sso_login, sso_login_from_passport, delete_user_if_customer,
  delete_all_customers,
}

-- With the salts and codes that are drawn.
pub data Call : Type 0 where
  register_user : ℕ → RegisterDto → Text → Call
  verify_code : Text → Text → Call
  log_in : ℕ → Bool → Text → Text → Call
  log_in_by : ℕ → Bool → Text → Text → Call
  use_refresh : ℕ → Text → Call
  revoke_it : Text → Call
  log_out : ℕ → Text → Call
  resend : Text → Purpose → Text → Call
  forget : Text → Text → Call
  reset : ℕ → Text → Text → Text → Call
  log_in_as : ℕ → Profile → Text → Call
  new_password : ℕ → ℕ → Text → Text → Call
  new_profile : ℕ → Option Text → Option Text → Call
  give_role take_role : ℕ → ℕ → Call
  delete_one : ℕ → Call
  delete_customers : Call

unfoldable pub perform : Env → ℕ → Call → Store → Store
perform env now (register_user salt d otp) s = (register env salt now d otp s).1
perform env now (verify_code email otp) s = (verify_otp env now email otp s).1
perform env now (log_in salt remember email password) s =
    (login_with env salt remember now email password s).1
perform env now (log_in_by salt supported provider token) s =
    (sso_login env salt now supported provider token s).1
perform env now (use_refresh salt presented) s = (refresh env salt now presented s).1
perform env now (revoke_it plain) s = (revoke env plain s).1
perform env now (log_out user plain) s = (logout env user plain s).1
perform env now (resend email p otp) s = (resend_otp env now email p otp s).1
perform env now (forget email otp) s = (forgot_password env now email otp s).1
perform env now (reset salt email otp password) s =
    (reset_password env salt now email otp password s).1
perform env now (log_in_as salt p provider) s =
    (sso_login_from_passport env salt now p provider s).1
perform env now (new_password salt user old new) s = (change_password env salt user old new s).1
perform env now (new_profile user name phone) s = (update_profile user name phone s).1
perform env now (give_role user role) s = (assign_role user role s).1
perform env now (take_role user role) s = remove_role user role s
perform env now (delete_one user) s = (delete_user_if_customer user s).1
perform env now delete_customers s = (delete_all_customers s).1

-- A call, and the milliseconds that pass before it.
pub record Timed : Type 0 where
  pub delay : ℕ
  pub call : Call

unfoldable pub perform_all : Env → ℕ → List Timed → Store → Store
perform_all env now [] s = s
perform_all env now (t ∷ ts) s =
    perform_all env (now + t.delay) ts (perform env (now + t.delay) t.call s)

unfoldable pub time_after : ℕ → List Timed → ℕ
time_after now [] = now
time_after now (t ∷ ts) = time_after (now + t.delay) ts
