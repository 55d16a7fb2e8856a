-- ===== src/Auth/Open.antt =====
-- auth.service.ts: how many codes a user holds that can still be used.
use meal_delivery.Prelude.{
  ℕ, ◌+◌, ◌≤◌, ◌<◌, ◌≡◌, refl, Bool, true, false, ◌&&◌, none, List, [], ◌∷◌, length, select,
  update_where, find_row, found_has, arith, Bool-cases, inl, inr, All, All-map, All-select,
  All-update_where,
}
use meal_delivery.Auth.{OtpVerification, Store, Env, Purpose}
use meal_delivery.Auth.Codes.{spend, is_open, sent_for, open_one, purpose_eq}
use meal_delivery.Auth.Sent.{Sends, same, spent, dropped, first_code, next_code, after, UsersBelow}
use meal_delivery.Auth.Posted.{perform-Sends}
use meal_delivery.Auth.Calls.{Timed, perform, perform_all, time_after}

-- The code is for another user or purpose, or cannot be used.
abbrev ClosedFor : ℕ → ℕ → Purpose → OtpVerification → Type 0
ClosedFor now user p o = sent_for user p o ≡ true → is_open now o ≡ false

-- Of the codes of a user for a purpose, only the latest can be open.
abbrev pub Exclusive : ℕ → List OtpVerification → Type 0
Exclusive now [] = Unit
Exclusive now (o ∷ os) = All (ClosedFor now o.user_id o.purpose) os × Exclusive now os

-- Codes and users have ids that were given out, and of each user's codes for a purpose only the
-- latest can be open.
pub record IsSound (now : ℕ) (s : Store) : Type 0 where
  pub users : UsersBelow s.next s.users
  pub known : All (λ o. o.user_id < s.next) s.otps
  pub exclusive : Exclusive now s.otps

purpose_joined :
    (p q r : Purpose) → purpose_eq q p ≡ true → purpose_eq r p ≡ true → purpose_eq r q ≡ true
purpose_joined Purpose.registration Purpose.registration r h k = k
purpose_joined Purpose.registration Purpose.password_reset r h k = ground (arith, h)
purpose_joined Purpose.password_reset Purpose.registration r h k = ground (arith, h)
purpose_joined Purpose.password_reset Purpose.password_reset r h k = k

same_recipient :
    (user : ℕ) (p : Purpose) (y x : OtpVerification)
    → sent_for user p y ≡ true
    → sent_for user p x ≡ true
    → sent_for y.user_id y.purpose x ≡ true
same_recipient user p y x h k =
    ground (arith, purpose_joined p y.purpose x.purpose (ground (arith, h)) (ground (arith, k)))

if_latest_closed :
    (now user : ℕ) (p : Purpose) (os : List OtpVerification)
    → open_one now (find_row (sent_for user p) os) ≡ none
    → Exclusive now os
    → All (ClosedFor now user p) os
unfolding find_row
if_latest_closed now user p [] h e = tt
if_latest_closed now user p (y ∷ ys) h e = elim (Bool-cases (sent_for user p y)) [
  | inl c ↦ (
    λ r. ground (arith, rw c at h),
    All-map _ _ ys (λ x k r. k (same_recipient user p y x c r)) e.0,
  )
  | inr c ↦ (λ r. ground (arith, r, c), if_latest_closed now user p ys (rw c at h) e.1)
]

new_user_closed :
    (now n user : ℕ) (p : Purpose) (os : List OtpVerification)
    → user ≡ n
    → All (λ o. o.user_id < n) os
    → All (ClosedFor now user p) os
new_user_closed now n user p os e h = All-map _ _ os (λ o b r. ground (arith, b, r, e)) h

spend_keeps :
    (now user : ℕ) (p : Purpose) (q : OtpVerification → Bool) (os : List OtpVerification)
    → All (ClosedFor now user p) os
    → All (ClosedFor now user p) (update_where q spend os)
spend_keeps now user p q os h = All-update_where (ClosedFor now user p) q spend os (λ o k r. refl) h

Exclusive-update_where :
    (now : ℕ) (q : OtpVerification → Bool) (os : List OtpVerification)
    → Exclusive now os
    → Exclusive now (update_where q spend os)
unfolding update_where
Exclusive-update_where now q [] h = tt
Exclusive-update_where now q (o ∷ os) h = elim (Bool-cases (q o)) [
  | inl c ↦ rw c (spend_keeps now o.user_id o.purpose q os h.0, Exclusive-update_where now q os h.1)
  | inr c ↦ rw c (spend_keeps now o.user_id o.purpose q os h.0, Exclusive-update_where now q os h.1)
]

Exclusive-select :
    (now : ℕ) (q : OtpVerification → Bool) (os : List OtpVerification)
    → Exclusive now os
    → Exclusive now (select q os)
unfolding select
Exclusive-select now q [] h = tt
Exclusive-select now q (o ∷ os) h = elim (Bool-cases (q o)) [
  | inl c ↦
      rw c (All-select (ClosedFor now o.user_id o.purpose) q os h.0, Exclusive-select now q os h.1)
  | inr c ↦ rw c (Exclusive-select now q os h.1)
]

known_more :
    (n m : ℕ) (os : List OtpVerification)
    → n ≤ m
    → All (λ o. o.user_id < n) os
    → All (λ o. o.user_id < m) os
known_more n m os le h = All-map _ _ os (λ o b. omega (arith, b, le)) h

Sends-IsSound : {now : ℕ} {s u : Store} → Sends now s u → IsSound now s → IsSound now u
Sends-IsSound (same {s} e n k) h = record {
  users = k h.users;
  known = rw e (known_more s.next _ s.otps n h.known);
  exclusive = rw e h.exclusive;
}
Sends-IsSound {now} (spent {s} p e n k) h = record {
  users = k h.users;
  known =
      rw e (All-update_where _ p spend s.otps (λ o b. b) (known_more s.next _ s.otps n h.known));
  exclusive = rw e (Exclusive-update_where now p s.otps h.exclusive);
}
Sends-IsSound {now} (dropped {s} p e n k) h = record {
  users = k h.users;
  known = rw e (All-select _ p s.otps (known_more s.next _ s.otps n h.known));
  exclusive = rw e (Exclusive-select now p s.otps h.exclusive);
}
Sends-IsSound {now} (first_code {s} o e n i k) h = record {
  users = k h.users;
  known = rw e (omega (arith, i, n), known_more s.next _ s.otps (omega (arith, n)) h.known);
  exclusive = rw e (new_user_closed now s.next o.user_id o.purpose s.otps i h.known, h.exclusive);
}
Sends-IsSound {now} (next_code {s} o x p e n found i closed k) h =
    let own : x.user_id < s.next = found_has _ p x s.users found h.users in
    record {
      users = k h.users;
      known = rw e (omega (arith, own, i, n), known_more s.next _ s.otps n h.known);
      exclusive =
          rw e (if_latest_closed now o.user_id o.purpose s.otps closed h.exclusive, h.exclusive);
    }
Sends-IsSound (after a b) h = Sends-IsSound b (Sends-IsSound a h)

Exclusive-later :
    (now d : ℕ) (os : List OtpVerification) → Exclusive now os → Exclusive (now + d) os
Exclusive-later now d [] h = tt
Exclusive-later now d (o ∷ os) h =
    (All-map _ _ os (λ x k r. ground (arith, k r)) h.0, Exclusive-later now d os h.1)

none_left :
    (now user : ℕ) (p : Purpose) (o : OtpVerification) (xs : List OtpVerification)
    → sent_for user p o ≡ true
    → All (ClosedFor now o.user_id o.purpose) xs
    → length (select (λ x. sent_for user p x && is_open now x) xs) ≡ 0
unfolding select
none_left now user p o [] c k = refl
none_left now user p o (x ∷ xs) c k = elim (Bool-cases (sent_for user p x)) [
  | inl e ↦
      let closed : is_open now x ≡ false = k.0 (same_recipient user p o x c e) in
      rw (e, closed) (none_left now user p o xs c k.1)
  | inr e ↦ rw e (none_left now user p o xs c k.1)
]

at_most_one :
    (now user : ℕ) (p : Purpose) (os : List OtpVerification)
    → Exclusive now os
    → length (select (λ o. sent_for user p o && is_open now o) os) ≤ 1
unfolding select
at_most_one now user p [] h = omega arith
at_most_one now user p (o ∷ os) h = elim (Bool-cases (sent_for user p o && is_open now o)) [
  | inl c ↦ rw c (omega (arith, none_left now user p o os (ground arith) h.0))
  | inr c ↦ rw c (at_most_one now user p os h.1)
]

module _ (env : Env) where
  run-IsSound :
      (now : ℕ) (cs : List Timed) (s : Store)
      → IsSound now s
      → IsSound (time_after now cs) (perform_all env now cs s)
  unfolding perform_all time_after
  run-IsSound now [] s h = h
  run-IsSound now (t ∷ ts) s h =
      run-IsSound (now + t.delay) ts (perform env (now + t.delay) t.call s) (
        Sends-IsSound (perform-Sends env (now + t.delay) t.call s) (record {
          users = h.users;
          known = h.known;
          exclusive = Exclusive-later now t.delay s.otps h.exclusive;
        }))

  -- If users and codes have ids that were given out and, of each user's codes for a purpose, only the
  -- latest is open, that is unused and not yet ended, a user has at most one open code for a purpose
  -- after any calls, however often codes are asked for.
  pub one_open_code :
      (now : ℕ) (cs : List Timed) (s : Store) (user : ℕ) (p : Purpose)
      → IsSound now s
      → length (
          select
            (λ o. sent_for user p o && is_open (time_after now cs) o)
            (perform_all env now cs s).otps)
        ≤ 1
  one_open_code now cs s user p h =
      at_most_one (time_after now cs) user p (perform_all env now cs s).otps
        (run-IsSound now cs s h).exclusive
