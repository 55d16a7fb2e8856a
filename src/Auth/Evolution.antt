-- ===== src/Auth/Evolution.antt =====
-- auth.service.ts: how a call may change the table of sessions.
use meal_delivery.Prelude.{
  ℕ, ◌+◌, ◌*◌, ◌≤◌, ◌≡◌, refl, Bool, some, ◌∷◌, Text, ltb, select, update_where, find_row, arith,
  Option-cases, Bool-cases, inl, inr, ◌⊎◌,
}
use meal_delivery.Auth.{RefreshToken, Store, Env, Error}
use meal_delivery.Auth.Sessions.{
  has_id, owned_by, revoke_token, lifetime_of, days_for, day_ms, login, start_session, rotate,
  refresh_by, revoke, logout, live_match,
}

pub data Evolves (env : Env) : Store → Store → Type 0 where
  keep : {s u : Store} → u.tokens ≡ s.tokens → s.next ≤ u.next → Evolves env s u
  revoke_some :
      {s u : Store} (p : RefreshToken → Bool)
      → u.tokens ≡ update_where p revoke_token s.tokens
      → s.next ≤ u.next
      → Evolves env s u
  drop :
      {s u : Store} (p : RefreshToken → Bool)
      → u.tokens ≡ select p s.tokens
      → s.next ≤ u.next
      → Evolves env s u
  issue :
      {s u : Store} (t : RefreshToken) (remember : Bool)
      → u.tokens ≡ t ∷ s.tokens
      → t.id ≡ s.next
      → s.next + 1 ≤ u.next
      → (now : ℕ) → t.created_at ≡ env.db_time now
      → t.expires_at ≡ now + days_for env remember * day_ms
      → Evolves env s u
  replace :
      {s u : Store} (k : ℕ) (old t : RefreshToken)
      → find_row (has_id k) s.tokens ≡ some old
      → u.tokens ≡ t ∷ update_where (has_id old.id) revoke_token s.tokens
      → t.id ≡ s.next
      → s.next + 1 ≤ u.next
      → (now : ℕ) → t.created_at ≡ env.db_time now
      → t.expires_at ≡ now + lifetime_of old
      → Evolves env s u
  chain : {s t u : Store} → Evolves env s t → Evolves env t u → Evolves env s u

module _ (env : Env) where
  pub login-Evolves :
      (salt : ℕ) (remember : Bool) (now user : ℕ) (s : Store)
      → Evolves env s (login env salt remember now user s).1
  unfolding login
  login-Evolves salt remember now user s = issue _ remember refl refl (omega arith) now refl refl

  pub start_session-Evolves :
      (salt : ℕ) (remember : Bool) (now : ℕ) (k : Error ⊎ ℕ) (s : Store)
      → Evolves env s (start_session env salt remember now k s).1
  unfolding start_session
  start_session-Evolves salt remember now (inl e) s = keep refl (omega arith)
  start_session-Evolves salt remember now (inr k) s = login-Evolves salt remember now k s

  rotate-Evolves :
      (salt now : ℕ) (presented : Text) (k : ℕ) (t : RefreshToken) (s : Store)
      → find_row (has_id k) s.tokens ≡ some t
      → Evolves env s (rotate env salt now presented t s).1
  unfolding rotate
  rotate-Evolves salt now presented k t s found = elim (Bool-cases t.revoked) [
    | inl e ↦ rw e (revoke_some (owned_by t.user_id) refl (omega arith))
    | inr e ↦ elim (Bool-cases (ltb t.expires_at now)) [
      | inl l ↦ rw (e, l) (keep refl (omega arith))
      | inr l ↦ elim (Bool-cases (env.matches presented t.token_hash)) [
        | inl m ↦ rw (e, l, m) (replace k t _ found refl refl (omega arith) now refl refl)
        | inr m ↦ rw (e, l, m) (revoke_some (owned_by t.user_id) refl (omega arith))
      ]
    ]
  ]

  pub refresh_by-Evolves :
      (salt now : ℕ) (presented : Text) (k : Error ⊎ ℕ) (s : Store)
      → Evolves env s (refresh_by env salt now presented k s).1
  unfolding refresh_by
  refresh_by-Evolves salt now presented (inl e) s = keep refl (omega arith)
  refresh_by-Evolves salt now presented (inr k) s =
      elim (Option-cases (find_row (has_id k) s.tokens)) [
        | inl e ↦ rw (e, refresh_by) (keep refl (omega arith))
        | inr (t, e) ↦ rw (e, refresh_by) (rotate-Evolves salt now presented k t s e)
      ]

  pub revoke-Evolves : (plain : Text) (s : Store) → Evolves env s (revoke env plain s).1
  unfolding revoke
  revoke-Evolves plain s =
      elim (Option-cases (find_row (λ t. env.matches plain t.token_hash) s.tokens)) [
        | inl e ↦ rw (e, revoke) (keep refl (omega arith))
        | inr (t, e) ↦ rw (e, revoke) (revoke_some (has_id t.id) refl (omega arith))
      ]

  pub logout-Evolves :
      (user : ℕ) (plain : Text) (s : Store) → Evolves env s (logout env user plain s).1
  unfolding logout
  logout-Evolves user plain s =
      elim (Option-cases (find_row (live_match env user plain) s.tokens)) [
        | inl e ↦ rw (e, logout) (keep refl (omega arith))
        | inr (t, e) ↦ rw (e, logout) (revoke_some (has_id t.id) refl (omega arith))
      ]
