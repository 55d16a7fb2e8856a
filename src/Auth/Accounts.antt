-- ===== src/Auth/Accounts.antt =====
-- auth.service.ts: register, ssoLogin and the deletion of customers. A user's sessions, codes and roles
-- go with the user (`onDelete: 'CASCADE'`). `save` of a user fails on a unique column that is taken.
use meal_delivery.Prelude.{
  ℕ, ◌+◌, Bool, true, false, not, ◌&&◌, ◌||◌, Option, none, some, List, [], ◌∷◌, ◌==◌, Text,
  find_row, if◌then◌else◌, ◌⊎◌, inl, inr, member, select, map, any, length, is_some,
}
use meal_delivery.Auth.{
  given, User, Purpose, Store, Env, Error, Message, Profile, post, by_email, by_id, save_user,
  opt_eq, customer, is_customer, has_role, assign,
}
use meal_delivery.Auth.Sessions.{Session, start_session}
use meal_delivery.Auth.Codes.{new_code, add_code}

pub record RegisterDto : Type 0 where
  pub username : Option Text
  pub email : Text
  pub password : Text
  pub phone : Option Text

-- The query of the uniqueness check; TypeORM leaves out an alternative without a value.
abbrev pub taken_by : RegisterDto → User → Bool
taken_by d u = by_email d.email u || opt_eq u.username d.username || opt_eq u.phone d.phone

abbrev pub clash_of : RegisterDto → User → Error
clash_of d u =
    if by_email d.email u
    then Error.email_in_use
    else if opt_eq u.phone (given d.phone)
    then Error.phone_in_use
    else Error.already_in_use

-- `@Column({ unique: true })` of email, username and phone
abbrev pub same_columns : User → User → Bool
same_columns u x = by_email u.email x || opt_eq x.username u.username || opt_eq x.phone u.phone

abbrev pub add_user : User → Store → Store
add_user u s = record s { users = u ∷ s.users; next = s.next + 1 }

unfoldable pub ensure_customer : Store → ℕ × Store
ensure_customer s = elim (find_row is_customer s.roles) [
  | none ↦ (
    s.next,
    record s { roles = record { role_id = s.next; name = customer } ∷ s.roles; next = s.next + 1 },
  )
  | some r ↦ (r.role_id, s)
]

abbrev pub new_user : Env → ℕ → RegisterDto → ℕ → User
new_user env salt d id = record {
  user_id = id;
  username = d.username;
  email = d.email;
  password_hash = env.hash salt d.password;
  phone = d.phone;
  is_verified = false;
  verified_at = none;
  provider = none;
  provider_id = none;
}

abbrev pub ten_minutes : ℕ
ten_minutes = 600000

-- The transaction, then the mail and the event.
abbrev pub enrol : Env → ℕ → ℕ → RegisterDto → Text → Store → Store
enrol env salt now d otp s =
    let id = s.next in
    let s1 = add_user (new_user env salt d id) s in
    let s2 = assign id ((ensure_customer s1).0) ((ensure_customer s1).1) in
    let s3 = add_code (new_code env ten_minutes Purpose.registration otp id now s2.next) s2 in
    post (Message.user_registered id) (post (Message.otp_email d.email otp) s3)

abbrev pub is_blank : Text → Bool
is_blank [] = true
is_blank (c ∷ t) = false

unfoldable pub register : Env → ℕ → ℕ → RegisterDto → Text → Store → (Error ⊎ ℕ) × Store
register env salt now d otp s =
    if is_blank d.email || is_blank d.password
    then (inl Error.required, s)
    else elim (find_row (taken_by d) s.users) [
      | some u ↦ (inl (clash_of d u), s)
      | none ↦ (inr s.next, enrol env salt now d otp s)
    ]

-- `split('@')[0]`
abbrev pub before_at : Text → Text
before_at [] = []
before_at (c ∷ t) = if c == b'@' then [] else c ∷ before_at t

abbrev pub sso_user : Text → Profile → Text → ℕ → User
sso_user provider p email id = record {
  user_id = id;
  username = some (before_at email);
  email = email;
  password_hash = [];
  phone = none;
  is_verified = true;
  verified_at = none;
  provider = some provider;
  provider_id = some p.id;
}

abbrev pub known_as : Text → Profile → User → Bool
known_as provider p u =
    opt_eq (some u.email) p.email
    || (opt_eq u.provider (some provider) && opt_eq u.provider_id (some p.id))

abbrev pub linked : Text → Profile → User → User
linked provider p u = record u { provider = some provider; provider_id = some p.id }

abbrev pub assign_if_known : ℕ → Store → Store
assign_if_known user s = elim (find_row is_customer s.roles) [
  | none ↦ s
  | some r ↦ assign user r.role_id s
]

-- Without an email, `profile.email.split` throws.
unfoldable pub sso_account : Text → Profile → Store → (Error ⊎ ℕ) × Store
sso_account provider p s = elim (find_row (known_as provider p) s.users) [
  | some u ↦ (inr u.user_id, if is_some u.provider then s else save_user (linked provider p u) s)
  | none ↦ elim p.email [
    | none ↦ (inl Error.server_error, s)
    | some e ↦
        if any (same_columns (sso_user provider p e s.next)) s.users
        then (inl Error.server_error, s)
        else (inr s.next, assign_if_known s.next (add_user (sso_user provider p e s.next) s))
  ]
]

unfoldable pub sso_login_from_passport :
    Env → ℕ → ℕ → Profile → Text → Store → (Error ⊎ Session) × Store
sso_login_from_passport env salt now p provider s =
    start_session env salt false now ((sso_account provider p s).0) (sso_account provider p s).1

unfoldable pub sso_login : Env → ℕ → ℕ → Bool → Text → Text → Store → (Error ⊎ Session) × Store
sso_login env salt now supported provider token s =
    if not supported
    then (inl Error.unknown_provider, s)
    else elim (env.profile_of provider token) [
      | none ↦ (inl Error.bad_identity, s)
      | some p ↦
          start_session env salt false now ((sso_account provider p s).0)
            (sso_account provider p s).1
    ]

-- The rows that go with the users.
abbrev pub delete_users : (ℕ → Bool) → Store → Store
delete_users p s = record s {
  users = select (λ u. not (p u.user_id)) s.users;
  tokens = select (λ t. not (p t.user_id)) s.tokens;
  otps = select (λ o. not (p o.user_id)) s.otps;
  user_roles = select (λ ur. not (p ur.user_id)) s.user_roles;
}

unfoldable pub delete_user_if_customer : ℕ → Store → Option Error × Store
delete_user_if_customer user s = elim (find_row (by_id user) s.users) [
  | none ↦ (some Error.user_not_found, s)
  | some u ↦
      if has_role customer user s
      then (none, delete_users (λ k. k == user) s)
      else (some Error.not_customer, s)
]

-- `userRoleRepo.find({ where: { role_id } })`
abbrev pub customer_ids : ℕ → Store → List ℕ
customer_ids role s = map (λ ur. ur.user_id) (select (λ ur. ur.role_id == role) s.user_roles)

unfoldable pub delete_all_customers : Store → ℕ × Store
delete_all_customers s = elim (find_row is_customer s.roles) [
  | none ↦ (0, s)
  | some r ↦
      let p : ℕ → Bool = λ k. member k (customer_ids r.role_id s) in
      (length (select (λ u. p u.user_id) s.users), delete_users p s)
]
