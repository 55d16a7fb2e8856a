-- ===== src/Auth/Dead.antt =====
-- auth.service.ts: sessions that have ended stay ended.
use meal_delivery.Prelude.{
  ℕ, ◌+◌, ◌<◌, ◌≡◌, refl, inl, inr, Bool, true, some, List, [], ◌∷◌, Text, ◌==◌, ltb, arith, All,
  All-select, All-update_where, find_row, found_has, found_passes, update_where, Bool-cases,
  Option-cases, ==_iff,
}
use meal_delivery.Auth.{RefreshToken, Store, Env, Error}
use meal_delivery.Auth.Sessions.{Session, has_id, revoke_token, refresh_by, rotate}
use meal_delivery.Auth.Evolution.{Evolves, keep, revoke_some, drop, issue, replace, chain}
use meal_delivery.Auth.Steps.{perform-Evolves}
use meal_delivery.Auth.Calls.{Timed, perform, perform_all}

-- Whatever session has this id is revoked, and no later one gets it.
abbrev pub RevokedAt : ℕ → RefreshToken → Type 0
RevokedAt k t = (t.id == k) ≡ true → t.revoked ≡ true

pub record Closed (k : ℕ) (s : Store) : Type 0 where
  pub old : k < s.next
  pub all_revoked : All (RevokedAt k) s.tokens

-- The ids of the sessions were given out.
abbrev pub IsFresh : Store → Type 0
IsFresh s = All (λ t. t.id < s.next) s.tokens

revoke_more :
    (k : ℕ) (p : RefreshToken → Bool) (ts : List RefreshToken)
    → All (RevokedAt k) ts
    → All (RevokedAt k) (update_where p revoke_token ts)
revoke_more k p ts h = All-update_where (RevokedAt k) p revoke_token ts (λ x hx e. refl) h

later_id : (k n : ℕ) (t : RefreshToken) → k < n → t.id ≡ n → RevokedAt k t
later_id k n t h e same = ground (arith, same)

Evolves-Closed : {env : Env} {s u : Store} (k : ℕ) → Evolves env s u → Closed k s → Closed k u
Evolves-Closed k (keep e n) h = record {
  old = omega (arith, h.old);
  all_revoked = rw e h.all_revoked;
}
Evolves-Closed k (revoke_some {s} p e n) h = record {
  old = omega (arith, h.old);
  all_revoked = rw e (revoke_more k p s.tokens h.all_revoked);
}
Evolves-Closed k (drop {s} p e n) h = record {
  old = omega (arith, h.old);
  all_revoked = rw e (All-select (RevokedAt k) p s.tokens h.all_revoked);
}
Evolves-Closed k (issue {s} t b e i n now c l) h = record {
  old = omega (arith, h.old);
  all_revoked = rw e (later_id k s.next t h.old i, h.all_revoked);
}
Evolves-Closed k (replace {s} j old t f e i n now c l) h = record {
  old = omega (arith, h.old);
  all_revoked =
      rw e (later_id k s.next t h.old i, revoke_more k (has_id old.id) s.tokens h.all_revoked);
}
Evolves-Closed k (chain a b) h = Evolves-Closed k b (Evolves-Closed k a h)

pub perform_all-Closed :
    (env : Env) (k now : ℕ) (cs : List Timed) (s : Store)
    → Closed k s
    → Closed k (perform_all env now cs s)
unfolding perform_all
perform_all-Closed env k now [] s h = h
perform_all-Closed env k now (t ∷ ts) s h =
    perform_all-Closed env k (now + t.delay) ts (perform env (now + t.delay) t.call s)
      (Evolves-Closed k (perform-Evolves env (now + t.delay) t.call s) h)

pub dead_session_fails :
    (env : Env) (salt now : ℕ) (presented : Text) (k : ℕ) (s : Store)
    → Closed k s
    → (e : Error) × ((refresh_by env salt now presented (inr k) s).0 ≡ inl e)
unfolding refresh_by rotate
dead_session_fails env salt now presented k s h =
    elim (Option-cases (find_row (has_id k) s.tokens)) [
      | inl e ↦ (Error.token_not_found, rw (e, refresh_by) refl)
      | inr (t, e) ↦
          let r : t.revoked ≡ true =
            found_has (RevokedAt k) (has_id k) t s.tokens e h.all_revoked
              (found_passes (has_id k) t s.tokens e) in
          (Error.token_revoked, rw (e, refresh_by, r) refl)
    ]

revoked_at :
    (k : ℕ) (t : RefreshToken) (ts : List RefreshToken)
    → t.id ≡ k
    → All (RevokedAt k) (update_where (has_id t.id) revoke_token ts)
unfolding update_where
revoked_at k t [] e = tt
revoked_at k t (x ∷ xs) e = elim (Bool-cases (x.id == t.id)) [
  | inl c ↦ rw c (λ same. refl, revoked_at k t xs e)
  | inr c ↦ rw c (λ same. ground (arith, same), revoked_at k t xs e)
]

pub rotated-Closed :
    (env : Env) (salt now : ℕ) (presented : Text) (k : ℕ) (r : Session) (s : Store)
    → IsFresh s
    → (refresh_by env salt now presented (inr k) s).0 ≡ inr r
    → Closed k (refresh_by env salt now presented (inr k) s).1
unfolding refresh_by rotate
rotated-Closed env salt now presented k r s fresh ok =
    elim (Option-cases (find_row (has_id k) s.tokens)) [
      | inl e ↦ elim (not_both (rw (e, refresh_by) at ok)) [ ]
      | inr (t, e) ↦ rw (e, refresh_by) (success t e (rw (e, refresh_by) at ok))
    ]
  where
    not_both : inl Error.token_not_found ≡ inr r → ⊥
    not_both e = cc e

    success :
        (t : RefreshToken)
        → find_row (has_id k) s.tokens ≡ some t
        → (rotate env salt now presented t s).0 ≡ inr r
        → Closed k (rotate env salt now presented t s).1
    success t found done = elim (Bool-cases t.revoked) [
      | inl e ↦ elim (wrong Error.token_revoked (rw e at done)) [ ]
      | inr e ↦ elim (Bool-cases (ltb t.expires_at now)) [
        | inl l ↦ elim (wrong Error.token_expired (rw (e, l) at done)) [ ]
        | inr l ↦ elim (Bool-cases (env.matches presented t.token_hash)) [
          | inr m ↦ elim (wrong Error.stolen_token (rw (e, l, m) at done)) [ ]
          | inl m ↦
              let named : (t.id == k) ≡ true = found_passes (has_id k) t s.tokens found in
              let given : t.id < s.next = found_has _ (has_id k) t s.tokens found fresh in
              rw (e, l, m)
                (record {
                  old = ground arith;
                  all_revoked = (
                    λ same. ground (arith, same),
                    revoked_at k t s.tokens ((==_iff t.id k).0 named),
                  );
                })
        ]
      ]
    ]
      where
        wrong : (e : Error) → inl e ≡ inr r → ⊥
        wrong e p = cc p
