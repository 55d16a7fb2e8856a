-- ===== src/Charges/Once.antt =====
-- payment.service.ts: an order is charged by one payment.
use meal_delivery.Prelude.{
  found_passes, saved_is_found, text_eq, ℕ, ◌≡◌, refl, ap, or_else, inl, inr, false, Option, none,
  some, List, [], ◌∷◌, ◌++◌, Text, map, member, any, arith, Distinct, Bool-cases, Option-cases,
  if◌then◌else◌,
}
use meal_delivery.Payouts.{is_one_of}
use meal_delivery.Charges.{
  Payment, Verified, payment_failed, invalid_payload, Ledger, of_order, of_tx_ref,
}
use meal_delivery.Charges.Gate.{Gate, Request, Init, init_failed, init_done}
use meal_delivery.Charges.Checkout.{
  clashes, store_payment, found_after_clash, add_payment, conclude, checkout_for, required,
  handle_order_awaiting_payment, repeated,
}
use meal_delivery.Charges.Webhook.{settled_by, lost_by, text_of, two_words, verify_tx_ref}
use meal_delivery.Charges.Settled.{report-payments, report-payouts}

abbrev pub orders_of : List Payment → List ℕ
orders_of ps = map (λ p. p.order_id) ps

no_clash :
    (p : Payment) (ps : List Payment)
    → any (clashes p) ps ≡ false
    → member p.order_id (orders_of ps) ≡ false
unfolding any member
no_clash p [] h = refl
no_clash p (q ∷ ps) h = ground (arith, no_clash p ps)

after_clash :
    (g : Gate) (o : ℕ) (found : Option Payment) (l : Ledger)
    → Distinct (orders_of l.payments)
    → Distinct (orders_of (found_after_clash g o found l).1.payments)
after_clash g o none l h = rw (report-payments g.accepts _ l) h
after_clash g o (some p) l h = rw (report-payments g.accepts _ l) h

store_payment-Distinct :
    (g : Gate) (p : Payment) (l : Ledger)
    → Distinct (orders_of l.payments)
    → Distinct (orders_of (store_payment g p l).1.payments)
unfolding store_payment
store_payment-Distinct g p l h = elim (Bool-cases (any (clashes p) l.payments)) [
  | inl e ↦ rw e (after_clash g p.order_id (of_order p.order_id l) l h)
  | inr e ↦ rw e (rw (report-payments g.accepts _ (add_payment p l)) (no_clash p l.payments e, h))
]

conclude-Distinct :
    (g : Gate) (r : Request) (o amount restaurant : ℕ) (i : Init) (l : Ledger)
    → Distinct (orders_of l.payments)
    → Distinct (orders_of (conclude g r o amount restaurant i l).1.payments)
unfolding conclude
conclude-Distinct g r o amount restaurant (init_failed e) l h = rw (report-payments g.accepts _ l) h
conclude-Distinct g r o amount restaurant (init_done url at id) l h = store_payment-Distinct g _ l h

later_ones : (ms ns : List ℕ) → Distinct (ms ++ ns) → Distinct ns
later_ones [] ns h = h
later_ones (m ∷ ms) ns h = later_ones ms ns h.1

orders_of-append : (ps qs : List Payment) → orders_of (ps ++ qs) ≡ orders_of ps ++ orders_of qs
orders_of-append [] qs = refl
orders_of-append (p ∷ ps) qs = ap (λ ms. p.order_id ∷ ms) (orders_of-append ps qs)

checkout_for-Distinct :
    (g : Gate) (r : Request) (o amount restaurant : ℕ) (found : Option Payment) (l : Ledger)
    → Distinct (orders_of (g.meanwhile ++ l.payments))
    → Distinct (orders_of (checkout_for g r o amount restaurant found l).1.payments)
unfolding checkout_for
checkout_for-Distinct g r o amount restaurant none l h =
    conclude-Distinct g r o amount restaurant _ _ h
checkout_for-Distinct g r o amount restaurant (some p) l h =
    rw (report-payments g.accepts (repeated p p.status) l) (
      later_ones (orders_of g.meanwhile) (orders_of l.payments)
        (rw (orders_of-append g.meanwhile l.payments) at h))

-- No order gets a second payment, also if other calls store payments while the provider is asked:
-- if the orders of all those payments are distinct, they are distinct afterwards.
pub one_payment_each :
    (g : Gate) (r : Request) (l : Ledger)
    → Distinct (orders_of (g.meanwhile ++ l.payments))
    → Distinct (orders_of (handle_order_awaiting_payment g r l).1.payments)
unfolding handle_order_awaiting_payment
one_payment_each g r l h = elim (Option-cases (required r)) [
  | inl e ↦
      rw
        (
          e,
          handle_order_awaiting_payment,
          report-payments g.accepts (payment_failed r.order_id invalid_payload) l,
        )
        (later_ones (orders_of g.meanwhile) (orders_of l.payments)
          (rw (orders_of-append g.meanwhile l.payments) at h))
  | inr ((o, amount, rest), e) ↦
      rw (e, handle_order_awaiting_payment)
        (checkout_for-Distinct g r o amount rest (of_order o l) l h)
]

-- An order that has a payment is not charged again: that payment is returned, and no payment, payout or
-- account changes, whatever the provider would answer.
pub known_payment_is_returned :
    (g : Gate) (r : Request) (l : Ledger) (o amount rest : ℕ) (p : Payment)
    → required r ≡ some (o, amount, rest)
    → of_order o l ≡ some p
    → let (found, l1) = handle_order_awaiting_payment g r l in
      (found ≡ some p) × (l1.payments ≡ l.payments) × (l1.payouts ≡ l.payouts)
unfolding handle_order_awaiting_payment checkout_for
known_payment_is_returned g r l o amount rest p given found =
    rw (given, handle_order_awaiting_payment, found, checkout_for)
      (refl, report-payments g.accepts _ l, report-payouts g.accepts _ l)

-- Asking the provider about a transaction overrules what its payment was before: it is paid if the
-- status is one of two words, and failed otherwise, also if it was paid. Nothing is owed by it, and no
-- message is sent.
pub verification_overrules :
    (t : Text) (v : Verified) (p : Payment) (l : Ledger)
    → of_tx_ref t l ≡ some p
    → let l1 = verify_tx_ref t v l in
      (of_tx_ref t l1
        ≡ some (
            if is_one_of two_words (text_of (or_else v.data_status v.status))
            then settled_by v p
            else lost_by v p))
      × (l1.payouts ≡ l.payouts)
      × (l1.reports ≡ l.reports)
unfolding verify_tx_ref
verification_overrules t v p l found =
    elim (Bool-cases (is_one_of two_words (text_of (or_else v.data_status v.status)))) [
      | inl e ↦
          rw (found, verify_tx_ref, e)
            (
              saved_is_found (λ x. x.id) (λ x. text_eq x.tx_ref t) p (settled_by v p) l.payments
                  found refl (found_passes (λ x. text_eq x.tx_ref t) p l.payments found),
              refl,
              refl,
            )
      | inr e ↦
          rw (found, verify_tx_ref, e)
            (
              saved_is_found (λ x. x.id) (λ x. text_eq x.tx_ref t) p (lost_by v p) l.payments found
                  refl (found_passes (λ x. text_eq x.tx_ref t) p l.payments found),
              refl,
              refl,
            )
    ]
