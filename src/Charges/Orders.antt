-- ===== src/Charges/Orders.antt =====
-- payment.service.ts and catalog-service/src/modules/order/order.service.ts: whether the two services
-- agree on which payments have succeeded.
use meal_delivery.Prelude.{
  ℕ, ◌≡◌, refl, ◌∙◌, Bool, true, false, Option, none, some, Text, or_else, arith,
}
use meal_delivery.Entities.{Order}
use meal_delivery.World.{Env, World}
use meal_delivery.Pickup.{Tokens}
use meal_delivery.Payments.{PaymentReport, is_success, refuse, confirm, handle_payment_result}
use meal_delivery.Payments.Results.{other_report_declines, success_pays}
use meal_delivery.Payouts.{is_one_of, settled_words}
use meal_delivery.Charges.{Payment, Verified, Report, Ledger}
use meal_delivery.Charges.Webhook.{
  Hook, status_of, text_of, two_words, settled_by, look_up, handle_payment_hook,
}
use meal_delivery.Charges.Settled.{Succeeds, hook_pays_once}

-- The message of a payment as the catalog service reads it: its `payment_data` is what the provider
-- said, and it has no status of its own.
pub record Carries (v : Verified) (order_id : ℕ) (p : PaymentReport) : Type 0 where
  pub order : p.order_id ≡ order_id
  pub data_status : p.verified_status ≡ v.data_status
  pub status : p.data_status ≡ v.status
  pub no_status : p.status ≡ none
  pub no_payment_status : p.payment_status ≡ none

absent : (x y : Option Text) → or_else x (or_else y (or_else none none)) ≡ or_else x y
absent none none = refl
absent none (some t) = refl
absent (some s) y = refl

text_given :
    (x y z : Option Text) (w : Text) → or_else x y ≡ some w → text_of (or_else x (or_else y z)) ≡ w
text_given none none z w e = ground (arith, e)
text_given none (some t) z w e = cc e
text_given (some s) y z w e = cc e

status_given :
    (h : Hook) (v : Verified) (w : Text)
    → or_else v.data_status v.status ≡ some w
    → status_of h v ≡ w
status_given h v w e = text_given v.data_status v.status h.status w e

same_word :
    (v : Verified) (o : ℕ) (p : PaymentReport)
    → Carries v o p
    → or_else p.verified_status (or_else p.data_status (or_else p.status p.payment_status))
      ≡ or_else v.data_status v.status
same_word v o p c =
    rw (c.data_status, c.status, c.no_status, c.no_payment_status) (absent v.data_status v.status)

-- If the provider gives a status, the catalog service takes it for a success if it is one of two
-- words, `success` and `paid`, and then the payment service does too.
pub words_of_success :
    (h : Hook) (v : Verified) (o : ℕ) (p : PaymentReport) (w : Text)
    → Carries v o p
    → or_else v.data_status v.status ≡ some w
    → (is_success p ≡ is_one_of two_words w)
      × (is_success p ≡ true → is_one_of settled_words (status_of h v) ≡ true)
unfolding is_success is_one_of
words_of_success h v o p w c given =
    let read = same_word v o p c ∙ given in
    let here = status_given h v w given in rw (read, here) (ground arith, λ e. ground (arith, e))

-- If the provider says that an unpaid payment has succeeded, but by another word than `success` and
-- `paid`, the message marks the payment as paid; the catalog service, when it hears of it, declines
-- the order, which was found under its own id.
pub paid_order_is_declined :
    (accepts : Report → Bool) (now : ℕ) (h : Hook) (verify : Text → Option Verified) (p : Payment)
    (v : Verified) (l : Ledger) (t : Text) (tokens : Tokens) (env : Env) (code : Text)
    (r : PaymentReport) (w : World) (o : Order)
    → Succeeds h verify p v l
    → or_else v.data_status v.status ≡ some t
    → is_one_of two_words t ≡ false
    → Carries v p.order_id r
    → w.db.orders r.order_id ≡ some o
    → o.id ≡ r.order_id
    → (look_up h.tx_ref (handle_payment_hook accepts now h verify l) ≡ some (settled_by v p))
      × ((handle_payment_result tokens env code r w).1.db.orders r.order_id ≡ some (refuse o))
paid_order_is_declined accepts now h verify p v l t tokens env code r w o c given other carried
      found own =
    let read = words_of_success h v p.order_id r t carried given in
    (
      (hook_pays_once accepts now h verify p v l c).0,
      (other_report_declines tokens env code r w o found own (read.0 ∙ other)).0,
    )

-- If it says so by one of those two words, the order is paid as well.
pub paid_order_is_confirmed :
    (accepts : Report → Bool) (now : ℕ) (h : Hook) (verify : Text → Option Verified) (p : Payment)
    (v : Verified) (l : Ledger) (t : Text) (tokens : Tokens) (env : Env) (code : Text)
    (r : PaymentReport) (w : World) (o : Order)
    → Succeeds h verify p v l
    → or_else v.data_status v.status ≡ some t
    → is_one_of two_words t ≡ true
    → Carries v p.order_id r
    → w.db.orders r.order_id ≡ some o
    → o.id ≡ r.order_id
    → (look_up h.tx_ref (handle_payment_hook accepts now h verify l) ≡ some (settled_by v p))
      × ((handle_payment_result tokens env code r w).1.db.orders r.order_id
          ≡ some (confirm env r o))
paid_order_is_confirmed accepts now h verify p v l t tokens env code r w o c given good carried
      found own =
    let read = words_of_success h v p.order_id r t carried given in
    (
      (hook_pays_once accepts now h verify p v l c).0,
      (success_pays tokens env code r w o found own (read.0 ∙ good)).0,
    )
