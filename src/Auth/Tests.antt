-- ===== src/Auth/Tests.antt =====
-- A concrete service with two users: texts stand for their own hashes, and a token is its claims.
use meal_delivery.Prelude.{
  ◌+◌, ℕ, zero, suc, find_row, member, ◌≤◌, ◌≡◌, refl, ◌&&◌, true, false, Option, none, some, List,
  [], ◌∷◌, Text, text_eq, arith, length, select, inr,
}
use meal_delivery.Auth.{User, RefreshToken, OtpVerification, Purpose, Store, Env, Claims}
use meal_delivery.Auth.Sessions.{Session, refresh, refresh_by, rotate}
use meal_delivery.Auth.Codes.{reset_password, sent_for, is_open}
use meal_delivery.Auth.Calls.{Timed, Call, perform_all, time_after}
use meal_delivery.Auth.Open.{one_open_code}
use meal_delivery.Auth.Reset.{IsStable, IsRefused, rotated_token_is_dead, reset_ends_sessions}

abbrev read_claims : Text → Option Claims
read_claims (user ∷ zero ∷ t) = some (record { sub = user; tid = none })
read_claims (user ∷ suc k ∷ t) = some (record { sub = user; tid = some k })
read_claims t = none

abbrev written : Option ℕ → ℕ
written none = 0
written (some k) = suc k

abbrev env : Env
env = record {
  sha256 = λ t. t;
  hash = λ salt t. t;
  matches = text_eq;
  sign = λ now signed c. c.sub ∷ written c.tid ∷ now ∷ [];
  verify = λ now t. read_claims t;
  profile_of = λ provider t. none;
  db_time = λ now. now + 3;
  refresh_days = 7;
  remember_days = 30;
}

env-IsStable : IsStable env
env-IsStable t m n a b h k = cc (h, k)

abbrev ada : User
ada = record {
  user_id = 1;
  username = none;
  email = b'a' ∷ [];
  password_hash = b'p' ∷ [];
  phone = none;
  is_verified = true;
  verified_at = none;
  provider = none;
  provider_id = none;
}

abbrev token : Text
token = 1 ∷ 6 ∷ 0 ∷ []

abbrev session : RefreshToken
session = record {
  id = 5;
  user_id = 1;
  token_hash = token;
  expires_at = 604800000;
  revoked = false;
  created_at = 0;
}

abbrev code : OtpVerification
code = record {
  otp_id = 6;
  user_id = 1;
  otp_hash = b'7' ∷ [];
  purpose = Purpose.password_reset;
  used = false;
  expires_at = 60000;
}

abbrev store : Store
store = record {
  users = ada ∷ [];
  tokens = session ∷ [];
  otps = code ∷ [];
  roles = [];
  user_roles = [];
  outbox = [];
  next = 7;
}

-- The token is shown again, and then a login and a code are asked for.
abbrev calls : List Timed
calls =
    record { delay = 1000; call = Call.use_refresh 0 token }
    ∷ record { delay = 1000; call = Call.log_in 0 true (b'a' ∷ []) (b'p' ∷ []) }
    ∷ record { delay = 90000; call = Call.resend (b'a' ∷ []) Purpose.password_reset (b'8' ∷ []) }
    ∷ []

abbrev renewed : Session
renewed = record { refresh_token = 1 ∷ 8 ∷ 500 ∷ []; token_id = 7; expires_at = 604800500 }

refreshes : (refresh env 0 500 token store).0 ≡ inr renewed
unfolding refresh refresh_by rotate find_row
refreshes = refl

rotated_token_is_dead_example :
    IsRefused
      (refresh env 0 9000 token (perform_all env 500 calls (refresh env 0 500 token store).1)).0
rotated_token_is_dead_example =
    rotated_token_is_dead env env-IsStable 0 500 token renewed store calls 0 9000 (omega arith, tt)
      refreshes

resets : (reset_password env 0 500 (b'a' ∷ []) (b'7' ∷ []) (b'q' ∷ []) store).0 ≡ none
unfolding reset_password find_row
resets = refl

reset_ends_sessions_example :
    IsRefused
      (refresh env 0 9000 token (
        perform_all env 500 calls
          (reset_password env 0 500 (b'a' ∷ []) (b'7' ∷ []) (b'q' ∷ []) store).1)).0
unfolding member find_row
reset_ends_sessions_example =
    reset_ends_sessions env env-IsStable 0 500 (b'a' ∷ []) (b'7' ∷ []) (b'q' ∷ []) ada 5 session
      store calls token 400 0 9000 (omega arith, tt) (refl, tt) refl refl refl refl resets

one_open_code_example :
    length (
      select
        (λ o. sent_for 1 Purpose.password_reset o && is_open (time_after 500 calls) o)
        (perform_all env 500 calls store).otps)
    ≤ 1
one_open_code_example =
    one_open_code env 500 calls store 1 Purpose.password_reset
      (record { users = (omega arith, tt); known = (omega arith, tt); exclusive = (tt, tt) })
