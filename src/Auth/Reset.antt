-- ===== src/Auth/Reset.antt =====
-- auth.service.ts: what ends the sessions of a user for good.
use meal_delivery.Prelude.{
  ℕ, ◌<◌, ◌≡◌, refl, inl, inr, Bool, true, false, none, some, List, [], ◌∷◌, Text, map, ◌==◌,
  ==_iff, ltb, arith, All, Distinct, member, find_row, update_where, Bool-cases, Option-cases, ◌⊎◌,
  found_has, found_passes, saved_is_found, some_injective, ap, ◌∙◌,
}
use meal_delivery.Auth.{User, RefreshToken, Store, Env, Error, Claims, by_email, by_id}
use meal_delivery.Auth.Sessions.{
  Session, has_id, owned_by, revoke_token, tid_of, refresh, refresh_by, validate_user_credentials,
}
use meal_delivery.Auth.Codes.{reset_password, unused_reset, with_password}
use meal_delivery.Auth.Dead.{
  IsFresh, RevokedAt, Closed, perform_all-Closed, dead_session_fails, rotated-Closed,
}
use meal_delivery.Auth.Calls.{Timed, perform_all}

-- Whenever a token is accepted, its claims are those that it was signed with.
abbrev pub IsStable : Env → Type 0
IsStable env =
    (t : Text) (m n : ℕ) (a b : Claims) → env.verify m t ≡ some a → env.verify n t ≡ some b → a ≡ b

abbrev pub IsRefused : {A : Type 0} → Error ⊎ A → Type 0
IsRefused r = (e : Error) × (r ≡ inl e)

left_is_refused : {A : Type 0} (e : Error) (r : A) → inl e ≡ inr r → ⊥
left_is_refused e r p = cc p

-- Where a token leads is where it led before, or nowhere.
same_tid :
    (env : Env) (stable : IsStable env) (t : Text) (m n k : ℕ)
    → tid_of (env.verify m t) ≡ inr k
    → (tid_of (env.verify n t) ≡ inr k) ⊎ ((e : Error) × (tid_of (env.verify n t) ≡ inl e))
same_tid env stable t m n k h = elim (Option-cases (env.verify m t)) [
  | inl a ↦ elim (left_is_refused Error.invalid_token k (rw a at h)) [ ]
  | inr (c, a) ↦ elim (Option-cases (env.verify n t)) [
    | inl b ↦ inr (Error.invalid_token, rw b refl)
    | inr (d, b) ↦ let same : c ≡ d = stable t m n c d a b in inl (rw (b, ← same) (rw a at h))
  ]
]

-- A token whose session is closed is refused.
Closed-IsRefused :
    (env : Env) (salt now : ℕ) (presented : Text) (k : ℕ) (s : Store)
    → (tid_of (env.verify now presented) ≡ inr k)
      ⊎ ((e : Error) × (tid_of (env.verify now presented) ≡ inl e))
    → Closed k s
    → IsRefused (refresh env salt now presented s).0
unfolding refresh refresh_by
Closed-IsRefused env salt now presented k s (inl e) h =
    rw e (dead_session_fails env salt now presented k s h)
Closed-IsRefused env salt now presented k s (inr (x, e)) h = (x, rw (e, refresh_by) refl)

tid_cases : (r : Error ⊎ ℕ) → ((k : ℕ) × (r ≡ inr k)) ⊎ ((e : Error) × (r ≡ inl e))
tid_cases (inl e) = inr (e, refl)
tid_cases (inr k) = inl (k, refl)

no_such_id :
    (k : ℕ) (p : RefreshToken → Bool) (ts : List RefreshToken)
    → member k (map (λ t. t.id) ts) ≡ false
    → All (RevokedAt k) (update_where p revoke_token ts)
unfolding member update_where
no_such_id k p [] h = tt
no_such_id k p (x ∷ xs) h = elim (Bool-cases (p x)) [
  | inl c ↦ rw c (λ same. refl, no_such_id k p xs (ground arith))
  | inr c ↦ rw c (λ same. ground (arith, same, h), no_such_id k p xs (ground arith))
]

owners_revoked :
    (k user : ℕ) (t : RefreshToken) (ts : List RefreshToken)
    → Distinct (map (λ t. t.id) ts)
    → find_row (has_id k) ts ≡ some t
    → t.user_id ≡ user
    → All (RevokedAt k) (update_where (owned_by user) revoke_token ts)
unfolding find_row update_where
owners_revoked k user t [] d found mine = tt
owners_revoked k user t (x ∷ xs) d found mine = elim (Bool-cases (x.id == k)) [
  | inl c ↦
      let here : x ≡ t = some_injective (rw c at found) in
      let his : (x.user_id == user) ≡ true =
        (==_iff x.user_id user).1 (ap (λ y. y.user_id) here ∙ mine) in
      let key : x.id ≡ k = (==_iff x.id k).0 c in
      rw his (λ same. refl, no_such_id k (owned_by user) xs (rw key at d.0))
  | inr c ↦ elim (Bool-cases (x.user_id == user)) [
    | inl b ↦ rw b (λ same. refl, owners_revoked k user t xs d.1 (rw c at found) mine)
    | inr b ↦
        rw b (λ same. ground (arith, same, c), owners_revoked k user t xs d.1 (rw c at found) mine)
  ]
]

-- What a successful reset has done.
record HasReset (env : Env) (salt : ℕ) (password : Text) (u : User) (s s' : Store) : Type 0 where
  tokens : s'.tokens ≡ update_where (owned_by u.user_id) revoke_token s.tokens
  next : s'.next ≡ s.next
  users : s'.users ≡ update_where (by_id u.user_id) (λ x. with_password env salt password u) s.users

module _ (env : Env) where
  failed : (e : Error) → some e ≡ none → ⊥
  failed e p = cc p

  reset-HasReset :
      (salt now : ℕ) (email otp password : Text) (u : User) (s : Store)
      → find_row (by_email email) s.users ≡ some u
      → (reset_password env salt now email otp password s).0 ≡ none
      → HasReset env salt password u s (reset_password env salt now email otp password s).1
  unfolding reset_password
  reset-HasReset salt now email otp password u s found ok =
      elim (Option-cases (find_row (unused_reset u.user_id (env.sha256 otp)) s.otps)) [
        | inl c ↦ elim (failed Error.invalid_otp (rw (found, reset_password, c) at ok)) [ ]
        | inr (o, c) ↦ elim (Bool-cases (ltb o.expires_at now)) [
          | inl l ↦ elim (failed Error.otp_expired (rw (found, reset_password, c, l) at ok)) [ ]
          | inr l ↦
              rw (found, reset_password, c, l) (record { tokens = refl; next = refl; users = refl })
        ]
      ]

  -- Where a hash matches the text that it was made of: if a verified user resets the password, the new
  -- one is accepted with the same email, as that user's with the new hash.
  pub reset_then_accepted :
      (salt now : ℕ) (email otp password : Text) (u : User) (s : Store)
      → ((n : ℕ) (t : Text) → env.matches t (env.hash n t) ≡ true)
      → find_row (by_email email) s.users ≡ some u
      → u.is_verified ≡ true
      → (reset_password env salt now email otp password s).0 ≡ none
      → validate_user_credentials env email password
          (reset_password env salt now email otp password s).1
        ≡ inr (with_password env salt password u)
  unfolding validate_user_credentials
  reset_then_accepted salt now email otp password u s own found known ok =
      let done = reset-HasReset salt now email otp password u s found ok in
      let again : find_row (by_email email)
            (reset_password env salt now email otp password s).1.users
          ≡ some (with_password env salt password u) =
        rw done.users (
          saved_is_found (λ x. x.user_id) (by_email email) u (with_password env salt password u)
            s.users found refl (found_passes (by_email email) u s.users found)) in
      rw (again, validate_user_credentials, own salt password, known) refl

  module _ (stable : IsStable env) where
    -- The ids of the sessions having been given out before, and tokens being read the same whenever they
    -- are accepted: a refresh token that was exchanged for a new one is never exchanged again, whatever
    -- calls of the service follow.
    pub rotated_token_is_dead :
        (salt now : ℕ) (presented : Text) (r : Session) (s : Store) (cs : List Timed)
        (salt' later : ℕ)
        → IsFresh s
        → (refresh env salt now presented s).0 ≡ inr r
        → IsRefused
            (refresh env salt' later presented
              (perform_all env now cs (refresh env salt now presented s).1)).0
    unfolding refresh refresh_by
    rotated_token_is_dead salt now presented r s cs salt' later fresh ok =
        elim (tid_cases (tid_of (env.verify now presented))) [
          | inr (e, h) ↦ elim (left_is_refused e r (rw (h, refresh_by) at ok)) [ ]
          | inl (k, h) ↦
              Closed-IsRefused env salt' later presented k _
                (same_tid env stable presented now later k h)
                (perform_all-Closed env k now cs _
                  (rw h (rotated-Closed env salt now presented k r s fresh (rw h at ok))))
        ]

    -- The ids of the sessions having been given out before, once each, and tokens being read the same
    -- whenever they are accepted: after a user's password was reset, every refresh token of a session
    -- that the user had before is refused, whatever calls of the service follow.
    pub reset_ends_sessions :
        (salt now : ℕ) (email otp password : Text) (u : User) (k : ℕ) (t : RefreshToken) (s : Store)
        (cs : List Timed) (presented : Text) (earlier salt' later : ℕ)
        → IsFresh s
        → Distinct (map (λ x. x.id) s.tokens)
        → find_row (by_email email) s.users ≡ some u
        → find_row (has_id k) s.tokens ≡ some t
        → t.user_id ≡ u.user_id
        → tid_of (env.verify earlier presented) ≡ inr k
        → (reset_password env salt now email otp password s).0 ≡ none
        → IsRefused
            (refresh env salt' later presented
              (perform_all env now cs (reset_password env salt now email otp password s).1)).0
    reset_ends_sessions salt now email otp password u k t s cs presented earlier salt' later fresh d
          found session mine names ok =
        let done = reset-HasReset salt now email otp password u s found ok in
        let given : t.id < s.next = found_has _ (has_id k) t s.tokens session fresh in
        let key : t.id ≡ k = (==_iff t.id k).0 (found_passes (has_id k) t s.tokens session) in
        Closed-IsRefused env salt' later presented k _
          (same_tid env stable presented earlier later k names)
          (perform_all-Closed env k now cs _ (record {
            old = omega (arith, given, key, done.next);
            all_revoked = rw done.tokens (owners_revoked k u.user_id t s.tokens d session mine);
          }))
