-- ===== src/Auth/Sessions.antt =====
-- auth.service.ts: login, refresh, revoke and logout. Access tokens are not kept, and so not modelled;
-- the record of a session is saved with an empty hash first and with its hash at once after.
use meal_delivery.Prelude.{
  ℕ, ◌+◌, ◌-◌, ◌*◌, ◌/◌, Bool, true, false, not, ◌&&◌, Option, none, some, ◌∷◌, ◌==◌, ltb, Text,
  update_where, find_row, if◌then◌else◌, ◌⊎◌, inl, inr,
}
use meal_delivery.Auth.{User, RefreshToken, Store, Claims, Env, Error, Message, post, by_email}

-- What a login or a refresh returns.
pub record Session : Type 0 where
  pub refresh_token : Text
  pub token_id : ℕ
  pub expires_at : ℕ

abbrev pub has_id : ℕ → RefreshToken → Bool
has_id k t = t.id == k

abbrev pub owned_by : ℕ → RefreshToken → Bool
owned_by user t = t.user_id == user

abbrev pub revoke_token : RefreshToken → RefreshToken
revoke_token t = record t { revoked = true }

abbrev pub revoke_where : (RefreshToken → Bool) → Store → Store
revoke_where p s = record s { tokens = update_where p revoke_token s.tokens }

-- `update({ user }, { revoked: true })`
abbrev pub revoke_all : ℕ → Store → Store
revoke_all user s = revoke_where (owned_by user) s

abbrev pub day_ms : ℕ
day_ms = 86400000

-- The plain token, which is signed for `signed` milliseconds.
abbrev pub plain_token : Env → ℕ → ℕ → ℕ → ℕ → Text
plain_token env signed now user id = env.sign now signed (record { sub = user; tid = some id })

abbrev pub new_token : Env → ℕ → ℕ → ℕ → ℕ → ℕ → ℕ → RefreshToken
new_token env salt lifetime signed now user id = record {
  id = id;
  user_id = user;
  token_hash = env.hash salt (plain_token env signed now user id);
  expires_at = now + lifetime;
  revoked = false;
  created_at = env.db_time now;
}

abbrev pub add_token : RefreshToken → Store → Store
add_token t s = record s { tokens = t ∷ s.tokens; next = s.next + 1 }

abbrev pub session_of : Env → ℕ → ℕ → ℕ → ℕ → ℕ → Session
session_of env lifetime signed now user id = record {
  refresh_token = plain_token env signed now user id;
  token_id = id;
  expires_at = now + lifetime;
}

abbrev pub days_for : Env → Bool → ℕ
days_for env remember = if remember then env.remember_days else env.refresh_days

unfoldable pub login : Env → ℕ → Bool → ℕ → ℕ → Store → Session × Store
login env salt remember now user s =
    let lifetime = days_for env remember * day_ms in
    (
      session_of env lifetime lifetime now user s.next,
      add_token (new_token env salt lifetime lifetime now user s.next) s,
    )

unfoldable pub validate_user_credentials : Env → Text → Text → Store → Error ⊎ User
validate_user_credentials env email password s = elim (find_row (by_email email) s.users) [
  | none ↦ inl Error.invalid_credentials
  | some u ↦
      if not (env.matches password u.password_hash)
      then inl Error.invalid_credentials
      else if u.is_verified
      then inr u
      else inl Error.not_verified
]

unfoldable pub start_session : Env → ℕ → Bool → ℕ → Error ⊎ ℕ → Store → (Error ⊎ Session) × Store
start_session env salt remember now (inl e) s = (inl e, s)
start_session env salt remember now (inr k) s =
    (inr ((login env salt remember now k s).0), (login env salt remember now k s).1)

abbrev pub id_of : Error ⊎ User → Error ⊎ ℕ
id_of (inl e) = inl e
id_of (inr u) = inr u.user_id

-- `POST login`: the credentials, then the session.
unfoldable pub login_with : Env → ℕ → Bool → ℕ → Text → Text → Store → (Error ⊎ Session) × Store
login_with env salt remember now email password s =
    start_session env salt remember now (id_of (validate_user_credentials env email password s)) s

-- The difference of two clocks; it is not negative as long as the database's is ahead of the service's
-- by no more than the session lasts.
abbrev pub lifetime_of : RefreshToken → ℕ
lifetime_of t = t.expires_at - t.created_at

-- `Math.ceil(ms / 1000) + 's'`
abbrev pub whole_seconds : ℕ → ℕ
whole_seconds ms = (ms + 999) / 1000 * 1000

abbrev pub replace_token : Env → ℕ → ℕ → RefreshToken → Store → Store
replace_token env salt now t s =
    let lifetime = lifetime_of t in
    add_token (new_token env salt lifetime (whole_seconds lifetime) now t.user_id s.next)
      (revoke_where (has_id t.id) s)

unfoldable pub rotate : Env → ℕ → ℕ → Text → RefreshToken → Store → (Error ⊎ Session) × Store
rotate env salt now presented t s =
    if t.revoked
    then (inl Error.token_revoked, revoke_all t.user_id s)
    else if ltb t.expires_at now
    then (inl Error.token_expired, s)
    else if not (env.matches presented t.token_hash)
    then (inl Error.stolen_token, revoke_all t.user_id s)
    else (
      inr (session_of env (lifetime_of t) (whole_seconds (lifetime_of t)) now t.user_id s.next),
      replace_token env salt now t s,
    )

abbrev pub tid_of : Option Claims → Error ⊎ ℕ
tid_of none = inl Error.invalid_token
tid_of (some c) = elim c.tid [ none ↦ inl Error.no_tid | some k ↦ inr k ]

unfoldable pub refresh_by : Env → ℕ → ℕ → Text → Error ⊎ ℕ → Store → (Error ⊎ Session) × Store
refresh_by env salt now presented (inl e) s = (inl e, s)
refresh_by env salt now presented (inr k) s = elim (find_row (has_id k) s.tokens) [
  | none ↦ (inl Error.token_not_found, s)
  | some t ↦ rotate env salt now presented t s
]

unfoldable pub refresh : Env → ℕ → ℕ → Text → Store → (Error ⊎ Session) × Store
refresh env salt now presented s =
    refresh_by env salt now presented (tid_of (env.verify now presented)) s

unfoldable pub revoke : Env → Text → Store → Option Error × Store
revoke env plain s = elim (find_row (λ t. env.matches plain t.token_hash) s.tokens) [
  | none ↦ (some Error.token_not_found, s)
  | some t ↦ (none, revoke_where (has_id t.id) s)
]

abbrev pub live_match : Env → ℕ → Text → RefreshToken → Bool
live_match env user plain t = owned_by user t && not t.revoked && env.matches plain t.token_hash

unfoldable pub logout : Env → ℕ → Text → Store → Option Error × Store
logout env user plain s = elim (find_row (live_match env user plain) s.tokens) [
  | none ↦ (some Error.token_not_found, s)
  | some t ↦ (none, post (Message.logged_out user t.id) (revoke_where (has_id t.id) s))
]
