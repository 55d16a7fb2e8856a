-- ===== src/Auth.antt =====
-- auth-service/src/modules/AuthModule/auth.service.ts: accounts, their sessions and one-time codes,
-- with the rows of auth-service/src/entities. Identifiers come from one counter; times are
-- milliseconds. Sessions are created by the clock of the database, codes in the order of their rows.
pub mod Sessions
pub mod Codes
pub mod Accounts
pub mod Members
pub mod Calls
pub mod Evolution
pub mod MemberSteps
pub mod Steps
pub mod Dead
pub mod Lifetimes
pub mod Sent
pub mod Posted
pub mod Open
pub mod Reset
mod Tests
use meal_delivery.Prelude.{
  ℕ, ◌+◌, ◌*◌, ◌<◌, ◌≡◌, Bool, true, false, not, ◌&&◌, ◌||◌, Option, none, some, List, [], ◌∷◌,
  ◌==◌, ltb, text_eq, Text, map, select, update_where, find_row, if◌then◌else◌, any,
}

pub data Purpose : Type 0 where
  registration password_reset : Purpose

pub record User : Type 0 where
  pub user_id : ℕ
  pub username : Option Text
  pub email : Text
  pub password_hash : Text
  pub phone : Option Text
  pub is_verified : Bool
  pub verified_at : Option ℕ
  pub provider : Option Text
  pub provider_id : Option Text

pub record RefreshToken : Type 0 where
  pub id : ℕ
  pub user_id : ℕ
  pub token_hash : Text
  pub expires_at : ℕ
  pub revoked : Bool
  pub created_at : ℕ

-- `channel` is always email, and `attempts` stays 0.
pub record OtpVerification : Type 0 where
  pub otp_id : ℕ
  pub user_id : ℕ
  pub otp_hash : Text
  pub purpose : Purpose
  pub used : Bool
  pub expires_at : ℕ

pub record Role : Type 0 where
  pub role_id : ℕ
  pub name : Text

pub record UserRole : Type 0 where
  pub user_id : ℕ
  pub role_id : ℕ

-- The mails of the mailer and the events of Kafka.
pub data Message : Type 0 where
  otp_email reset_email : Text → Text → Message
  user_registered user_verified password_was_reset : ℕ → Message
  logged_out : ℕ → ℕ → Message

-- The tables, newest rows first.
pub record Store : Type 0 where
  pub users : List User
  pub tokens : List RefreshToken
  pub otps : List OtpVerification
  pub roles : List Role
  pub user_roles : List UserRole
  pub outbox : List Message
  pub next : ℕ

-- The claims of a refresh token that the code reads.
pub record Claims : Type 0 where
  pub sub : ℕ
  pub tid : Option ℕ

-- What an identity provider says of a token. `email` may be missing.
pub record Profile : Type 0 where
  pub id : Text
  pub email : Option Text

-- The libraries, providers and settings that the service is given. `hash` takes the salt; `sign` takes
-- the time and the lifetime in milliseconds; `verify` takes the time. `db_time` is what the clock of the
-- database says when a row is inserted, by the time that the service read on its own clock before.
pub record Env : Type 0 where
  pub sha256 : Text → Text
  pub hash : ℕ → Text → Text
  pub matches : Text → Text → Bool
  pub sign : ℕ → ℕ → Claims → Text
  pub verify : ℕ → Text → Option Claims
  pub profile_of : Text → Text → Option Profile
  pub db_time : ℕ → ℕ
  pub refresh_days : ℕ
  pub remember_days : ℕ

pub data Error : Type 0 where
  required email_in_use phone_in_use already_in_use server_error user_not_found : Error
  invalid_otp otp_expired invalid_credentials not_verified unknown_provider bad_identity : Error
  invalid_token no_tid token_not_found token_revoked token_expired stolen_token not_customer : Error
  wrong_password role_not_found : Error

abbrev pub by_email : Text → User → Bool
by_email e u = text_eq u.email e

abbrev pub opt_eq : Option Text → Option Text → Bool
opt_eq (some a) (some b) = text_eq a b
opt_eq _ _ = false

-- A value that is neither missing nor empty.
abbrev pub given : Option Text → Option Text
given (some []) = none
given o = o

abbrev pub by_id : ℕ → User → Bool
by_id k u = u.user_id == k

-- `save` of a row that is there
abbrev pub save_user : User → Store → Store
save_user u s = record s { users = update_where (by_id u.user_id) (λ x. u) s.users }

abbrev pub post : Message → Store → Store
post m s = record s { outbox = m ∷ s.outbox }

-- 'customer'
abbrev pub customer : Text
customer = b'c' ∷ b'u' ∷ b's' ∷ b't' ∷ b'o' ∷ b'm' ∷ b'e' ∷ b'r' ∷ []

abbrev pub is_customer : Role → Bool
is_customer r = text_eq r.name customer

-- The user has a role of that name.
unfoldable pub has_role : Text → ℕ → Store → Bool
has_role name k s =
    any
      (λ ur.
        (ur.user_id == k) && any (λ r. (r.role_id == ur.role_id) && text_eq r.name name) s.roles)
      s.user_roles

abbrev pub assign : ℕ → ℕ → Store → Store
assign user role s = record s {
  user_roles = record { user_id = user; role_id = role } ∷ s.user_roles;
}
