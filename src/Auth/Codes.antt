-- ===== src/Auth/Codes.antt =====
-- auth.service.ts: the one-time codes of verifyOtp, createAndSendOtp, resendOtp, forgotPassword and
-- resetPassword. The code that is drawn is an argument; a failed mail is logged only.
use meal_delivery.Prelude.{
  ℕ, ◌+◌, ◌-◌, ◌/◌, Bool, true, false, not, ◌&&◌, Option, none, some, ◌∷◌, ◌==◌, ltb, Text, text_eq,
  update_where, find_row, if◌then◌else◌, ◌⊎◌, inl, inr,
}
use meal_delivery.Auth.{
  User, OtpVerification, Purpose, Store, Env, Error, Message, post, by_email, save_user,
}
use meal_delivery.Auth.Sessions.{revoke_all}

abbrev pub purpose_eq : Purpose → Purpose → Bool
purpose_eq Purpose.registration Purpose.registration = true
purpose_eq Purpose.password_reset Purpose.password_reset = true
purpose_eq _ _ = false

abbrev pub sent_for : ℕ → Purpose → OtpVerification → Bool
sent_for user p o = (o.user_id == user) && purpose_eq o.purpose p

-- `!last.used && last.expires_at > new Date()`
abbrev pub is_open : ℕ → OtpVerification → Bool
is_open now o = not o.used && ltb now o.expires_at

-- The query of verifyOtp, which does not ask for the purpose.
abbrev pub unused_code : ℕ → Text → OtpVerification → Bool
unused_code user hashed o = (o.user_id == user) && text_eq o.otp_hash hashed && not o.used

abbrev pub unused_reset : ℕ → Text → OtpVerification → Bool
unused_reset user hashed o =
    unused_code user hashed o && purpose_eq o.purpose Purpose.password_reset

abbrev pub spend : OtpVerification → OtpVerification
spend o = record o { used = true }

abbrev pub spend_code : OtpVerification → Store → Store
spend_code o s = record s { otps = update_where (λ x. x.otp_id == o.otp_id) spend s.otps }

abbrev pub verified : ℕ → User → User
verified now u = record u { is_verified = true; verified_at = some now }

unfoldable pub verify_otp : Env → ℕ → Text → Text → Store → Option Error × Store
verify_otp env now email otp s = elim (find_row (by_email email) s.users) [
  | none ↦ (some Error.user_not_found, s)
  | some u ↦ elim (find_row (unused_code u.user_id (env.sha256 otp)) s.otps) [
    | none ↦ (some Error.invalid_otp, s)
    | some o ↦ if ltb o.expires_at now then (some Error.otp_expired, s) else (
      none,
      post (Message.user_verified u.user_id) (save_user (verified now u) (spend_code o s)),
    )
  ]
]

abbrev pub minute_ms : ℕ
minute_ms = 60000

abbrev pub new_code : Env → ℕ → Purpose → Text → ℕ → ℕ → ℕ → OtpVerification
new_code env lifetime p otp user now id = record {
  otp_id = id;
  user_id = user;
  otp_hash = env.sha256 otp;
  purpose = p;
  used = false;
  expires_at = now + lifetime;
}

abbrev pub add_code : OtpVerification → Store → Store
add_code o s = record s { otps = o ∷ s.otps; next = s.next + 1 }

abbrev pub mail_for : Purpose → Text → Text → Message
mail_for Purpose.registration to otp = Message.otp_email to otp
mail_for Purpose.password_reset to otp = Message.reset_email to otp

abbrev pub create_and_send_otp : Env → ℕ → User → Purpose → Text → Store → Store
create_and_send_otp env now u p otp s =
    post (mail_for p u.email otp) (add_code (new_code env minute_ms p otp u.user_id now s.next) s)

pub data Sent : Type 0 where
  still_valid : ℕ → Sent
  otp_sent : ℕ → ℕ → Sent
  already_sent sent_if_user_exists reset_sent : Sent

-- `last && !last.used && last.expires_at > new Date()`
abbrev pub open_one : ℕ → Option OtpVerification → Option OtpVerification
open_one now none = none
open_one now (some o) = if is_open now o then some o else none

abbrev pub last_for : ℕ → Purpose → Store → Option OtpVerification
last_for user p s = find_row (sent_for user p) s.otps

unfoldable pub resend_otp : Env → ℕ → Text → Purpose → Text → Store → (Error ⊎ Sent) × Store
resend_otp env now email p otp s = elim (find_row (by_email email) s.users) [
  | none ↦ (inl Error.user_not_found, s)
  | some u ↦ elim (open_one now (last_for u.user_id p s)) [
    | some o ↦ (inr (Sent.still_valid ((o.expires_at - now + 59999) / 60000)), s)
    | none ↦ (inr (Sent.otp_sent s.next (now + minute_ms)), create_and_send_otp env now u p otp s)
  ]
]

unfoldable pub forgot_password : Env → ℕ → Text → Text → Store → Sent × Store
forgot_password env now email otp s = elim (find_row (by_email email) s.users) [
  | none ↦ (Sent.sent_if_user_exists, s)
  | some u ↦ elim (open_one now (last_for u.user_id Purpose.password_reset s)) [
    | some o ↦ (Sent.already_sent, s)
    | none ↦ (Sent.reset_sent, create_and_send_otp env now u Purpose.password_reset otp s)
  ]
]

abbrev pub with_password : Env → ℕ → Text → User → User
with_password env salt password u = record u { password_hash = env.hash salt password }

unfoldable pub reset_password : Env → ℕ → ℕ → Text → Text → Text → Store → Option Error × Store
reset_password env salt now email otp password s = elim (find_row (by_email email) s.users) [
  | none ↦ (some Error.invalid_credentials, s)
  | some u ↦ elim (find_row (unused_reset u.user_id (env.sha256 otp)) s.otps) [
    | none ↦ (some Error.invalid_otp, s)
    | some o ↦ if ltb o.expires_at now then (some Error.otp_expired, s) else (
      none,
      post (Message.password_was_reset u.user_id)
          (revoke_all u.user_id (save_user (with_password env salt password u) (spend_code o s))),
    )
  ]
]
