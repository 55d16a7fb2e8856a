-- ===== src/Charges/Settled.antt =====
-- payment.service.ts: what the provider's word on a transaction does to its payment, and to what the
-- platform owes.
use meal_delivery.Prelude.{
  ℕ, ◌+◌, ◌<◌, ◌≡◌, refl, ◌∙◌, inl, inr, Bool, true, false, Option, none, some, List, [], ◌∷◌, Text,
  text_eq, map, any, ltb, arith, All, All-map, member, sum_of, found_passes, saved_is_found,
  Bool-cases,
}
use meal_delivery.Payouts.{
  Store, PayoutChild, ChildStatus, promo_platform_topup, is_one_of, settled_words,
}
use meal_delivery.Payouts.Money.{owed, IsSound}
use meal_delivery.Charges.{
  Payment, Verified, begun, Begun, Report, Ledger, report, of_tx_ref, save_payment,
}
use meal_delivery.Charges.Webhook.{
  Hook, status_of, topup_of, restaurant_of, settled_by, is_topup_of, owe, owe_topup, settle_payment,
  is_paid, judge, look_up, handle_payment_hook,
}

-- The children have distinct ids that were given out before, and wait if they are pending.
pub record IsLedger (s : Store) : Type 0 where
  pub sound : IsSound s.children
  pub old : All (λ c. c.id < s.next_id) s.children

fresh_child :
    (n : ℕ) (cs : List PayoutChild) → All (λ c. c.id < n) cs → member n (map (λ c. c.id) cs) ≡ false
unfolding member
fresh_child n [] h = refl
fresh_child n (c ∷ cs) h = ground (arith, h.0, fresh_child n cs h.1)

older : (n : ℕ) (cs : List PayoutChild) → All (λ c. c.id < n) cs → All (λ c. c.id < n + 1) cs
older n cs h = All-map (λ c. c.id < n) (λ c. c.id < n + 1) cs (λ c below. omega arith) h

owe-IsLedger :
    (now : ℕ) (p : Payment) (restaurant amount : ℕ) (s : Store)
    → IsLedger s
    → IsLedger (owe now p restaurant amount s)
unfolding owe
owe-IsLedger now p restaurant amount s h =
    elim (Bool-cases (any (is_topup_of p.order_id) s.children)) [
      | inl e ↦ rw e h
      | inr e ↦ rw e (record {
        sound = record {
          distinct = (fresh_child s.next_id s.children h.old, h.sound.distinct);
          waits = (λ e. refl, h.sound.waits);
        };
        old = (omega arith, older s.next_id s.children h.old);
      })
    ]

pub report-payments :
    (accepts : Report → Bool) (r : Report) (l : Ledger) → (report accepts r l).payments ≡ l.payments
report-payments accepts r l = elim (Bool-cases (accepts r)) [
  | inl e ↦ rw e refl
  | inr e ↦ rw e refl
]

pub report-payouts :
    (accepts : Report → Bool) (r : Report) (l : Ledger) → (report accepts r l).payouts ≡ l.payouts
report-payouts accepts r l = elim (Bool-cases (accepts r)) [ inl e ↦ rw e refl | inr e ↦ rw e refl ]

settled_is_found :
    (accepts : Report → Bool) (now : ℕ) (v : Verified) (t : Text) (p : Payment) (l : Ledger)
    → of_tx_ref t l ≡ some p
    → of_tx_ref t (settle_payment accepts now v p l) ≡ some (settled_by v p)
unfolding settle_payment
settled_is_found accepts now v t p l found =
    rw (report-payments accepts _ (save_payment (settled_by v p) l)) (
      saved_is_found (λ x. x.id) (λ x. text_eq x.tx_ref t) p (settled_by v p) l.payments found refl
        (found_passes (λ x. text_eq x.tx_ref t) p l.payments found))

looked_up_again :
    (accepts : Report → Bool) (now : ℕ) (v : Verified) (r : Option Text) (p : Payment) (l : Ledger)
    → look_up r l ≡ some p
    → look_up r (settle_payment accepts now v p l) ≡ some (settled_by v p)
looked_up_again accepts now v none p l found = ground (arith, found)
looked_up_again accepts now v (some []) p l found = ground (arith, found)
looked_up_again accepts now v (some (c ∷ u)) p l found =
    settled_is_found accepts now v (c ∷ u) p l found

owe_topup_positive :
    (now : ℕ) (v : Verified) (p : Payment) (s : Store) (restaurant : ℕ)
    → restaurant_of v p ≡ some restaurant
    → 0 < topup_of v p
    → owe_topup now v p s ≡ owe now p restaurant (topup_of v p) s
unfolding owe_topup
owe_topup_positive now v p s restaurant known positive =
    let yes : ltb 0 (topup_of v p) ≡ true = ground (arith, positive) in rw (yes, known) refl

owe_topup_zero :
    (now : ℕ) (v : Verified) (p : Payment) (s : Store) → topup_of v p ≡ 0 → owe_topup now v p s ≡ s
unfolding owe_topup
owe_topup_zero now v p s zero_topup = rw zero_topup refl

no_topup :
    (v : Verified) (p : Payment)
    → v.data_meta_topup ≡ none
    → v.meta_topup ≡ none
    → v.init_meta_topup ≡ none
    → v.topup ≡ none
    → topup_of v (settled_by v p) ≡ 0
unfolding topup_of
no_topup v p no_data no_meta no_init no_own = rw (no_data, no_meta, no_init, no_own) refl

-- The row of a top-up that is owed to a restaurant for the order of a payment.
abbrev pub topup_row : ℕ → ℕ → Payment → ℕ → ℕ → PayoutChild
topup_row now id p restaurant amount = record {
  id = id;
  order_id = some p.order_id;
  payment_id = some p.id;
  restaurant_id = restaurant;
  amount = amount;
  status = ChildStatus.pending;
  parent_aggregate_id = none;
  reason = some promo_platform_topup;
  created_at = now;
}

-- What is owed for an order is written down, once.
owe_once :
    (now : ℕ) (p : Payment) (restaurant amount : ℕ) (s : Store)
    → let s1 = owe now p restaurant amount s in
      (any (is_topup_of p.order_id) s1.children ≡ true)
      × (any (is_topup_of p.order_id) s.children ≡ true → s1 ≡ s)
      × (any (is_topup_of p.order_id) s.children ≡ false
          → (owed s1 ≡ owed s + amount)
            × (s1.children ≡ topup_row now s.next_id p restaurant amount ∷ s.children))
unfolding owe any sum_of
owe_once now p restaurant amount s = elim (Bool-cases (any (is_topup_of p.order_id) s.children)) [
  | inl e ↦ rw e (e, λ yes. refl, λ no. cc no)
  | inr e ↦ rw e (ground arith, λ yes. cc yes, λ no. (omega arith, refl))
]

-- The payment that a message leads to, which is not yet paid, and of which the provider says that it
-- has succeeded.
pub record Succeeds (h : Hook) (verify : Text → Option Verified) (p : Payment) (v : Verified)
    (l : Ledger) : Type 0 where
  pub finds : look_up h.tx_ref l ≡ some p
  pub unpaid : is_paid p.status ≡ false
  pub answers : verify p.tx_ref ≡ some v
  pub good : is_one_of settled_words (status_of h v) ≡ true

module _ (accepts : Report → Bool) (now : ℕ) (h : Hook) (verify : Text → Option Verified)
    (p : Payment) (v : Verified) (l : Ledger) (c : Succeeds h verify p v l) where
  pub hook_settles : handle_payment_hook accepts now h verify l ≡ settle_payment accepts now v p l
  unfolding handle_payment_hook judge
  hook_settles = rw (c.finds, handle_payment_hook, c.unpaid, c.answers, judge, c.good) refl

  hook_payouts :
      (handle_payment_hook accepts now h verify l).payouts
      ≡ owe_topup now v (settled_by v p) l.payouts
  unfolding settle_payment
  hook_payouts =
      rw hook_settles (rw (report-payouts accepts _ (save_payment (settled_by v p) l)) refl)

  -- A message that leads to a payment that is not yet paid, and of which the provider says that it
  -- has succeeded, marks it as paid. When the message comes again it changes nothing, whatever the
  -- provider says then.
  pub hook_pays_once :
      let l1 = handle_payment_hook accepts now h verify l in
      (look_up h.tx_ref l1 ≡ some (settled_by v p))
      × ((later : ℕ) (verify' : Text → Option Verified)
          → handle_payment_hook accepts later h verify' l1 ≡ l1)
  unfolding handle_payment_hook
  hook_pays_once =
      let again = looked_up_again accepts now v h.tx_ref p l c.finds in
      rw hook_settles (again, λ later verify'. rw (again, handle_payment_hook) refl)

  -- After a message of a successful payment, for which the provider mentions a restaurant and a
  -- positive top-up, a top-up of the order is written down. If one was before, nothing changes in
  -- what is owed. If none was, one row is added, for this restaurant, payment and order, which is
  -- pending and in no payout, and what is owed grows by the top-up.
  pub hook_owes_topup :
      (restaurant : ℕ)
      → restaurant_of v (settled_by v p) ≡ some restaurant
      → 0 < topup_of v (settled_by v p)
      → let l1 = handle_payment_hook accepts now h verify l in
        (any (is_topup_of p.order_id) l1.payouts.children ≡ true)
        × (any (is_topup_of p.order_id) l.payouts.children ≡ true → l1.payouts ≡ l.payouts)
        × (any (is_topup_of p.order_id) l.payouts.children ≡ false
            → (owed l1.payouts ≡ owed l.payouts + topup_of v (settled_by v p))
              × (l1.payouts.children
                  ≡ topup_row now l.payouts.next_id p restaurant (topup_of v (settled_by v p))
                    ∷ l.payouts.children))
  hook_owes_topup restaurant known positive =
      rw
        (
          hook_payouts,
          owe_topup_positive now v (settled_by v p) l.payouts restaurant known positive,
        )
        (owe_once now (settled_by v p) restaurant (topup_of v (settled_by v p)) l.payouts)

  -- If the provider mentions no top-up, nothing more is owed, also if one was noted at the checkout.
  pub unmentioned_topup_is_lost :
      (b : Begun) (n : ℕ)
      → p.payment_data ≡ begun b
      → b.platform_topup_needed ≡ some n
      → v.data_meta_topup ≡ none
      → v.meta_topup ≡ none
      → v.init_meta_topup ≡ none
      → v.topup ≡ none
      → let l1 = handle_payment_hook accepts now h verify l in
        (look_up h.tx_ref l1 ≡ some (settled_by v p)) × (l1.payouts ≡ l.payouts)
  unmentioned_topup_is_lost b n stored noted no_data no_meta no_init no_own = (
    hook_pays_once.0,
    hook_payouts
        ∙ owe_topup_zero now v (settled_by v p) l.payouts
            (no_topup v p no_data no_meta no_init no_own),
  )
