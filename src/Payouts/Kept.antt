-- ===== src/Payouts/Kept.antt =====
-- payment.service.ts: paying out, and hearing of it, moves no money between what is owed and
-- payouts, and asks for no transfer twice.
use meal_delivery.Prelude.{
  ℕ, ◌≡◌, refl, ◌∙◌, inl, inr, Bool, false, Option, none, some, List, [], ◌∷◌, All-update_where,
  arith, ◌==◌, member, update_where, any, ◌&&◌, map-update_where, sum_of-update_where, Option-cases,
  Bool-cases,
}
use meal_delivery.Payouts.{
  PayoutChild, ChildStatus, AggregatedPayout, PayoutBatch, Store, Context, Notice, is_pending,
  is_batched, is_active, is_paid, of_batch, announce, can_mark, mark_children,
}
use meal_delivery.Payouts.Process.{
  Reply, refused, answered, Transfer, TransferResult, settle, pass_on, finish, reconcile, result_of,
  after_reply, process_rows, close_idle, process_aggregated_batch, pay, fail, start, ids_of,
  says_success, claimable, claim, open_rows,
}
use meal_delivery.Payouts.Transfers.{
  TransferNotice, Verdict, success, failure, undecided, verdict_of, told, status_after, is_success,
  tell_children, sum_up, refresh_batch, carry_out, can_tell, deliver, locate, apply_result,
  handle_transfer_results,
}
use meal_delivery.Payouts.Asked.{IsAsked, asked_for, update-IsAsked, start-IsAsked}
use meal_delivery.Payouts.Money.{owed, in_payouts, waiting, WaitsIfPending, IsSound}

-- Nothing moved, and transfers were asked for once if they were before.
pub record Kept (s s' : Store) : Type 0 where
  pub sound : IsSound s.children → IsSound s'.children
  pub same_owed : owed s' ≡ owed s
  pub same_payouts : in_payouts s' ≡ in_payouts s
  pub asked : IsAsked s → IsAsked s'

Kept-refl : {s : Store} → Kept s s
Kept-refl = record { sound = λ h. h; same_owed = refl; same_payouts = refl; asked = λ h. h }

Kept-trans : {s t u : Store} → Kept s t → Kept t u → Kept s u
Kept-trans a b = record {
  sound = λ h. b.sound (a.sound h);
  same_owed = b.same_owed ∙ a.same_owed;
  same_payouts = b.same_payouts ∙ a.same_payouts;
  asked = λ h. b.asked (a.asked h);
}

announce-Kept : (ctx : Context) (n : Notice) (s : Store) → Kept s (announce ctx n s)
announce-Kept ctx n s = elim (Bool-cases (ctx.accepts n)) [
  | inl e ↦ rw e (record { sound = λ h. h; same_owed = refl; same_payouts = refl; asked = λ h. h })
  | inr e ↦ rw e Kept-refl
]

-- As when a batch is saved.
batches-Kept : (f : ℕ → Option PayoutBatch) (s : Store) → Kept s (record s { batches = f })
batches-Kept f s = record { sound = λ h. h; same_owed = refl; same_payouts = refl; asked = λ h. h }

set_status-waits :
    (st : ChildStatus) (c : PayoutChild)
    → is_pending st ≡ false
    → WaitsIfPending (record c { status = st })
set_status-waits st c h e = ground arith

mark_children-Kept :
    (ids : List ℕ) (st : ChildStatus) (s : Store)
    → is_pending st ≡ false
    → Kept s (mark_children ids st s)
mark_children-Kept ids st s settled = record {
  sound = λ h. record {
    distinct =
        rw
          (map-update_where (λ c. c.id) (λ c. member c.id ids) (λ c. record c { status = st })
            s.children (λ c. refl))
          h.distinct;
    waits =
        All-update_where WaitsIfPending (λ c. member c.id ids) (λ c. record c { status = st })
          s.children (λ c w. set_status-waits st c settled) h.waits;
  };
  same_owed =
      sum_of-update_where waiting (λ c. member c.id ids) (λ c. record c { status = st }) s.children
        (λ c. refl);
  same_payouts = refl;
  asked = λ h. h;
}

-- Changes of payouts that leave their ids and amounts, after which they are batched no more.
update-Kept :
    (p : AggregatedPayout → Bool) (f : AggregatedPayout → AggregatedPayout) (s : Store)
    → ((a : AggregatedPayout) → (f a).amount ≡ a.amount)
    → ((a : AggregatedPayout) → (f a).id ≡ a.id)
    → ((a : AggregatedPayout) → is_batched (f a).status ≡ false)
    → Kept s (record s { aggregates = update_where p f s.aggregates })
update-Kept p f s same ids done = record {
  sound = λ h. h;
  same_owed = refl;
  same_payouts = sum_of-update_where (λ a. a.amount) p f s.aggregates same;
  asked = update-IsAsked p f s ids done;
}

start_rows-IsAsked :
    (b : ℕ) (rows : List AggregatedPayout) (s : Store)
    → rows ≡ open_rows b s
    → IsAsked s
    → IsAsked (asked_for rows s)
start_rows-IsAsked b rows s e h = rw (← e) at (start-IsAsked b s h)

start-Kept :
    (b : ℕ) (rows : List AggregatedPayout) (s : Store)
    → rows ≡ open_rows b s
    → Kept s (asked_for rows s)
start-Kept b rows s e = record {
  sound = λ h. h;
  same_owed = refl;
  same_payouts =
      sum_of-update_where (λ a. a.amount) (λ a. member a.id (ids_of rows)) start s.aggregates
        (λ a. refl);
  asked = start_rows-IsAsked b rows s e;
}

pass_on-Kept :
    (ctx : Context) (n : Notice) (ids : List ℕ) (st : ChildStatus) (s : Store)
    → is_pending st ≡ false
    → Kept s (pass_on ctx n ids st s).1
pass_on-Kept ctx n ids st s settled = elim (Bool-cases (can_mark ctx ids)) [
  | inl e ↦ rw e (Kept-trans (mark_children-Kept ids st s settled) (announce-Kept ctx _ _))
  | inr e ↦ rw e Kept-refl
]

settle-Kept :
    (ctx : Context) (a : AggregatedPayout) (r : Option TransferResult) (s : Store)
    → Kept s (settle ctx a r s).1
unfolding settle is_pending is_batched
settle-Kept ctx a none s = Kept-refl
settle-Kept ctx a (some r) s = elim (Bool-cases (says_success r.status)) [
  | inl e ↦ rw e (
      Kept-trans
        (update-Kept (λ x. x.id == a.id) (pay r.transfer_id) s (λ x. refl) (λ x. refl) (λ x. refl))
        (pass_on-Kept ctx _ a.child_ids ChildStatus.paid _ refl))
  | inr e ↦ rw e (
      Kept-trans (update-Kept (λ x. x.id == a.id) fail s (λ x. refl) (λ x. refl) (λ x. refl))
        (pass_on-Kept ctx _ a.child_ids ChildStatus.failed _ refl))
]

reconcile-Kept :
    (ctx : Context) (rows : List AggregatedPayout) (results : List TransferResult) (s : Store)
    → Kept s (reconcile ctx rows results s).1
unfolding reconcile
reconcile-Kept ctx [] results s = Kept-refl
reconcile-Kept ctx (a ∷ rows) results s =
    let first = settle-Kept ctx a (result_of a.id results) s in
    elim (Bool-cases (settle ctx a (result_of a.id results) s).0) [
      | inl e ↦ rw e (Kept-trans first (reconcile-Kept ctx rows results _))
      | inr e ↦ rw e first
    ]

finish-Kept : (ctx : Context) (b : PayoutBatch) (r : Bool × Store) → Kept r.1 (finish ctx b r).1
finish-Kept ctx b r = elim (Bool-cases r.0) [
  | inl e ↦ rw e (Kept-trans (batches-Kept _ _) (announce-Kept ctx _ _))
  | inr e ↦ rw e Kept-refl
]

after_reply-Kept :
    (ctx : Context) (b : PayoutBatch) (rows : List AggregatedPayout) (r : Reply) (s : Store)
    → Kept s (after_reply ctx b rows r s).1
unfolding after_reply is_batched
after_reply-Kept ctx b rows refused s =
    Kept-trans
      (update-Kept (λ a. member a.id (ids_of rows)) fail s (λ a. refl) (λ a. refl) (λ a. refl))
      (batches-Kept _ _)
after_reply-Kept ctx b rows (answered batch_id results) s =
    Kept-trans (reconcile-Kept ctx rows results s)
      (finish-Kept ctx (record b { provider_batch_id = batch_id }) _)

process_rows-Kept :
    (ctx : Context) (provider : List Transfer → Reply) (b : PayoutBatch) (id : ℕ)
    (rows : List AggregatedPayout) (s : Store)
    → rows ≡ open_rows id s
    → Kept s (process_rows ctx provider b rows s).1
unfolding process_rows
process_rows-Kept ctx provider b id [] s e = batches-Kept _ _
process_rows-Kept ctx provider b id (a ∷ rows) s e =
    Kept-trans (start-Kept id (a ∷ rows) s e) (after_reply-Kept ctx b (a ∷ rows) _ _)

close_idle-Kept : (ctx : Context) (b : PayoutBatch) (s : Store) → Kept s (close_idle ctx b s).1
unfolding close_idle
close_idle-Kept ctx b s = elim (Bool-cases (any (λ a. is_active a.status) (of_batch b.id s))) [
  | inl e ↦ rw e Kept-refl
  | inr e ↦ rw e (batches-Kept _ s)
]

-- Processing a batch moves no money between what is owed and payouts, whatever the provider answers.
pub process-Kept :
    (ctx : Context) (provider : List Transfer → Reply) (force : Bool) (id : ℕ) (s : Store)
    → Kept s (process_aggregated_batch ctx provider force id s).1
unfolding process_aggregated_batch
process-Kept ctx provider force id s = elim (Option-cases (s.batches id)) [
  | inl e ↦ rw (e, process_aggregated_batch) Kept-refl
  | inr (b, e) ↦ elim (Bool-cases (claimable ctx force b)) [
    | inl c ↦
        rw (e, process_aggregated_batch, c)
          (Kept-trans (batches-Kept _ s)
            (process_rows-Kept ctx provider (claim b) id (open_rows id s) _ refl))
    | inr c ↦ rw (e, process_aggregated_batch, c) (close_idle-Kept ctx b s)
  ]
]

tell_children-Kept : (v : Verdict) (ids : List ℕ) (s : Store) → Kept s (tell_children v ids s)
unfolding is_pending
tell_children-Kept success ids s = mark_children-Kept ids ChildStatus.paid s refl
tell_children-Kept failure ids s = mark_children-Kept ids ChildStatus.failed s refl
tell_children-Kept undecided ids s = Kept-refl

refresh_batch-Kept : (ctx : Context) (k : Option ℕ) (s : Store) → Kept s (refresh_batch ctx k s)
unfolding refresh_batch sum_up
refresh_batch-Kept ctx none s = Kept-refl
refresh_batch-Kept ctx (some k) s = elim (Option-cases (s.batches k)) [
  | inl e ↦ rw (e, refresh_batch) Kept-refl
  | inr (b, e) ↦ rw (e, refresh_batch) (Kept-trans (batches-Kept _ s) (announce-Kept ctx _ _))
]

told-batched : (v : Verdict) → is_batched (status_after v) ≡ false
unfolding is_batched
told-batched success = refl
told-batched failure = refl
told-batched undecided = refl

carry_out-Kept :
    (ctx : Context) (r : TransferNotice) (a : AggregatedPayout) (s : Store)
    → Kept s (carry_out ctx r a s)
unfolding carry_out
carry_out-Kept ctx r a s =
    Kept-trans
      (update-Kept (λ x. x.id == a.id) (told r) s (λ x. refl) (λ x. refl)
        (λ x. told-batched (verdict_of r.status)))
      (Kept-trans (tell_children-Kept (verdict_of r.status) a.child_ids _)
        (Kept-trans (refresh_batch-Kept ctx a.payout_batch_id _) (announce-Kept ctx _ _)))

deliver-Kept :
    (ctx : Context) (r : TransferNotice) (a : AggregatedPayout) (s : Store)
    → Kept s (deliver ctx r a s)
unfolding deliver
deliver-Kept ctx r a s = elim (Bool-cases (can_tell ctx (verdict_of r.status) a.child_ids)) [
  | inl e ↦ rw e (carry_out-Kept ctx r a s)
  | inr e ↦ rw e Kept-refl
]

apply_result-Kept : (ctx : Context) (r : TransferNotice) (s : Store) → Kept s (apply_result ctx r s)
unfolding apply_result
apply_result-Kept ctx r s = elim (Option-cases (locate r s)) [
  | inl e ↦ rw (e, apply_result) Kept-refl
  | inr (a, e) ↦ elim (Bool-cases (is_paid a.status && is_success (verdict_of r.status))) [
    | inl c ↦ rw (e, apply_result, c) Kept-refl
    | inr c ↦ rw (e, apply_result, c) (deliver-Kept ctx r a s)
  ]
]

-- No more do the results of transfers.
pub results-Kept :
    (ctx : Context) (rs : List TransferNotice) (s : Store)
    → Kept s (handle_transfer_results ctx rs s)
unfolding handle_transfer_results
results-Kept ctx [] s = Kept-refl
results-Kept ctx (r ∷ rs) s = Kept-trans (apply_result-Kept ctx r s) (results-Kept ctx rs _)
