-- ===== src/Auth/Sent.antt =====
-- auth.service.ts: how a call may change the table of codes.
use meal_delivery.Prelude.{
  ℕ, ◌+◌, ◌≤◌, ◌<◌, ◌≡◌, refl, Bool, false, ◌||◌, none, some, List, ◌∷◌, Text, ltb, select,
  update_where, find_row, found_has, arith, Option-cases, Bool-cases, inl, inr, ◌⊎◌, any, is_some,
  All, All-map, All-update_where,
}
use meal_delivery.Auth.{
  User, RefreshToken, OtpVerification, Store, Env, Error, Profile, by_id, is_customer,
}
use meal_delivery.Auth.Sessions.{
  has_id, login, start_session, rotate, refresh_by, revoke, logout, live_match,
}
use meal_delivery.Auth.Codes.{spend, open_one, sent_for}
use meal_delivery.Auth.Accounts.{
  RegisterDto, register, ensure_customer, assign_if_known, taken_by, is_blank, sso_account,
  sso_login, known_as, sso_user, same_columns, linked,
}

abbrev pub UsersBelow : ℕ → List User → Type 0
UsersBelow n us = All (λ u. u.user_id < n) us

-- The ids of users were given out.
abbrev pub UsersKept : Store → Store → Type 0
UsersKept s u = UsersBelow s.next s.users → UsersBelow u.next u.users

pub data Sends (now : ℕ) : Store → Store → Type 0 where
  same : {s u : Store} → u.otps ≡ s.otps → s.next ≤ u.next → UsersKept s u → Sends now s u
  spent :
      {s u : Store} (p : OtpVerification → Bool)
      → u.otps ≡ update_where p spend s.otps
      → s.next ≤ u.next
      → UsersKept s u
      → Sends now s u
  dropped :
      {s u : Store} (p : OtpVerification → Bool)
      → u.otps ≡ select p s.otps
      → s.next ≤ u.next
      → UsersKept s u
      → Sends now s u
  first_code :
      {s u : Store} (o : OtpVerification)
      → u.otps ≡ o ∷ s.otps
      → s.next + 1 ≤ u.next
      → o.user_id ≡ s.next
      → UsersKept s u
      → Sends now s u
  next_code :
      {s u : Store} (o : OtpVerification) (x : User) (p : User → Bool)
      → u.otps ≡ o ∷ s.otps
      → s.next ≤ u.next
      → find_row p s.users ≡ some x
      → o.user_id ≡ x.user_id
      → open_one now (find_row (sent_for o.user_id o.purpose) s.otps) ≡ none
      → UsersKept s u
      → Sends now s u
  after : {s t u : Store} → Sends now s t → Sends now t u → Sends now s u

pub grow : (n m : ℕ) (us : List User) → n ≤ m → UsersBelow n us → UsersBelow m us
grow n m us le h = All-map _ _ us (λ u b. omega (arith, b, le)) h

pub saved :
    (n : ℕ) (p q : User → Bool) (u v : User) (us : List User)
    → find_row p us ≡ some u
    → v.user_id ≡ u.user_id
    → UsersBelow n us
    → UsersBelow n (update_where q (λ x. v) us)
saved n p q u v us found id h =
    let own : u.user_id < n = found_has _ p u us found h in
    All-update_where (λ x. x.user_id < n) q (λ x. v) us (λ x b. omega (arith, own, id)) h

module _ (env : Env) (now : ℕ) where
  pub unchanged : (s : Store) → Sends now s s
  unchanged s = same refl (omega arith) (λ h. h)

  pub start_session-Sends :
      (salt : ℕ) (remember : Bool) (k : Error ⊎ ℕ) (s : Store)
      → Sends now s (start_session env salt remember now k s).1
  unfolding start_session login
  start_session-Sends salt remember (inl e) s = unchanged s
  start_session-Sends salt remember (inr k) s =
      same refl (omega arith) (grow s.next (s.next + 1) s.users (omega arith))

  rotate-Sends :
      (salt : ℕ) (presented : Text) (t : RefreshToken) (s : Store)
      → Sends now s (rotate env salt now presented t s).1
  unfolding rotate
  rotate-Sends salt presented t s = elim (Bool-cases t.revoked) [
    | inl e ↦ rw e (same refl (omega arith) (λ h. h))
    | inr e ↦ elim (Bool-cases (ltb t.expires_at now)) [
      | inl l ↦ rw (e, l) (unchanged s)
      | inr l ↦ elim (Bool-cases (env.matches presented t.token_hash)) [
        | inl m ↦
            rw (e, l, m) (same refl (omega arith) (grow s.next (s.next + 1) s.users (omega arith)))
        | inr m ↦ rw (e, l, m) (same refl (omega arith) (λ h. h))
      ]
    ]
  ]

  pub refresh_by-Sends :
      (salt : ℕ) (presented : Text) (k : Error ⊎ ℕ) (s : Store)
      → Sends now s (refresh_by env salt now presented k s).1
  unfolding refresh_by
  refresh_by-Sends salt presented (inl e) s = unchanged s
  refresh_by-Sends salt presented (inr k) s = elim (Option-cases (find_row (has_id k) s.tokens)) [
    | inl e ↦ rw (e, refresh_by) (unchanged s)
    | inr (t, e) ↦ rw (e, refresh_by) (rotate-Sends salt presented t s)
  ]

  pub revoke-Sends : (plain : Text) (s : Store) → Sends now s (revoke env plain s).1
  unfolding revoke
  revoke-Sends plain s =
      elim (Option-cases (find_row (λ t. env.matches plain t.token_hash) s.tokens)) [
        | inl e ↦ rw (e, revoke) (unchanged s)
        | inr (t, e) ↦ rw (e, revoke) (same refl (omega arith) (λ h. h))
      ]

  pub logout-Sends : (user : ℕ) (plain : Text) (s : Store) → Sends now s (logout env user plain s).1
  unfolding logout
  logout-Sends user plain s = elim (Option-cases (find_row (live_match env user plain) s.tokens)) [
    | inl e ↦ rw (e, logout) (unchanged s)
    | inr (t, e) ↦ rw (e, logout) (same refl (omega arith) (λ h. h))
  ]

  pub register-Sends :
      (salt : ℕ) (d : RegisterDto) (otp : Text) (s : Store)
      → Sends now s (register env salt now d otp s).1
  unfolding register ensure_customer
  register-Sends salt d otp s = elim (Bool-cases (is_blank d.email || is_blank d.password)) [
    | inl b ↦ rw b (unchanged s)
    | inr b ↦ elim (Option-cases (find_row (taken_by d) s.users)) [
      | inr (u, e) ↦ rw (b, e, register) (unchanged s)
      | inl e ↦ elim (Option-cases (find_row is_customer s.roles)) [
        | inl c ↦
            rw (b, e, register, c, ensure_customer)
              (first_code _ refl (omega arith) refl
                (λ h. (omega arith, grow s.next _ s.users (omega arith) h)))
        | inr (r, c) ↦
            rw (b, e, register, c, ensure_customer)
              (first_code _ refl (omega arith) refl
                (λ h. (omega arith, grow s.next _ s.users (omega arith) h)))
      ]
    ]
  ]

  pub sso_account-Sends :
      (provider : Text) (p : Profile) (s : Store) → Sends now s (sso_account provider p s).1
  unfolding sso_account
  sso_account-Sends provider p s = elim (Option-cases (find_row (known_as provider p) s.users)) [
    | inr (u, e) ↦ elim (Bool-cases (is_some u.provider)) [
      | inl b ↦ rw (e, sso_account, b) (unchanged s)
      | inr b ↦
          rw (e, sso_account, b)
            (same refl (omega arith) (
              saved s.next (known_as provider p) (by_id u.user_id) u (linked provider p u) s.users e
                refl))
    ]
    | inl e ↦ elim (Option-cases p.email) [
      | inl m ↦ rw (e, sso_account, m) (unchanged s)
      | inr (a, m) ↦ elim (Bool-cases (any (same_columns (sso_user provider p a s.next)) s.users)) [
        | inl b ↦ rw (e, sso_account, m, b) (unchanged s)
        | inr b ↦ elim (Option-cases (find_row is_customer s.roles)) [
          | inl c ↦
              rw (e, sso_account, m, b, c, assign_if_known)
                (same refl (omega arith)
                  (λ h. (omega arith, grow s.next _ s.users (omega arith) h)))
          | inr (r, c) ↦
              rw (e, sso_account, m, b, c, assign_if_known)
                (same refl (omega arith)
                  (λ h. (omega arith, grow s.next _ s.users (omega arith) h)))
        ]
      ]
    ]
  ]

  pub sso_login-Sends :
      (salt : ℕ) (supported : Bool) (provider token : Text) (s : Store)
      → Sends now s (sso_login env salt now supported provider token s).1
  unfolding sso_login
  sso_login-Sends salt supported provider token s = elim (Bool-cases supported) [
    | inr b ↦ rw b (unchanged s)
    | inl b ↦ elim (Option-cases (env.profile_of provider token)) [
      | inl e ↦ rw (b, e, sso_login) (unchanged s)
      | inr (p, e) ↦
          rw (b, e, sso_login)
            (after (sso_account-Sends provider p s) (
              start_session-Sends salt false (sso_account provider p s).0
                (sso_account provider p s).1))
    ]
  ]
