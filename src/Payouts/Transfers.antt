-- ===== src/Payouts/Transfers.antt =====
-- payment.service.ts: `handleChapaWebhook`, the results of transfers.
use meal_delivery.Prelude.{
  ℕ, Bool, true, false, ◌&&◌, ◌||◌, Option, none, some, List, [], ◌∷◌, Text, ◌==◌, text_eq, or_else,
  find_row, update_where, every, any, if◌then◌else◌,
}
use meal_delivery.Payouts.{
  AggregatedPayout, AggregateStatus, PayoutBatch, ChildStatus, Store, Context, Notice, item_paid,
  item_failed, item_updated, batch_updated, is_paid, is_failed, announce, save_batch, can_mark,
  mark_children, is_one_of, settled_words, of_batch, summary_status, total_of,
}

-- What the status of a result says; any other word is neither.
pub data Verdict : Type 0 where
  success failure undecided : Verdict

abbrev failure_words : List Text
failure_words =
    (b'f' ∷ b'a' ∷ b'i' ∷ b'l' ∷ b'e' ∷ b'd' ∷ [])
    ∷ (b'e' ∷ b'r' ∷ b'r' ∷ b'o' ∷ b'r' ∷ [])
    ∷ (b'r' ∷ b'e' ∷ b'j' ∷ b'e' ∷ b'c' ∷ b't' ∷ b'e' ∷ b'd' ∷ [])
    ∷ (b'c' ∷ b'a' ∷ b'n' ∷ b'c' ∷ b'e' ∷ b'l' ∷ b'l' ∷ b'e' ∷ b'd' ∷ [])
    ∷ []

unfoldable pub verdict_of : Text → Verdict
verdict_of s =
    if is_one_of settled_words s
    then success
    else if is_one_of failure_words s
    then failure
    else undecided

-- One result: the provider's id of the transfer, and the ids that lead to the aggregate.
pub record TransferNotice : Type 0 where
  pub transfer_id : Option Text
  pub reference : Option ℕ
  pub payout_item_id : Option ℕ
  pub status : Text

abbrev with_transfer : Text → AggregatedPayout → Bool
with_transfer t a = elim a.provider_transfer_id [ none ↦ false | some u ↦ text_eq u t ]

abbrev by_transfer : Option Text → Store → Option AggregatedPayout
by_transfer none s = none
by_transfer (some t) s = find_row (with_transfer t) s.aggregates

abbrev by_id : Option ℕ → Store → Option AggregatedPayout
by_id none s = none
by_id (some k) s = find_row (λ a. a.id == k) s.aggregates

unfoldable pub locate : TransferNotice → Store → Option AggregatedPayout
locate r s =
    or_else (by_transfer r.transfer_id s)
      (or_else (by_id (or_else r.reference r.payout_item_id) s) (by_id r.payout_item_id s))

abbrev pub status_after : Verdict → AggregateStatus
status_after success = AggregateStatus.paid
status_after failure = AggregateStatus.failed
status_after undecided = AggregateStatus.processing

abbrev pub told : TransferNotice → AggregatedPayout → AggregatedPayout
told r a = record a {
  status = status_after (verdict_of r.status);
  provider_transfer_id = or_else r.transfer_id a.provider_transfer_id;
}

abbrev pub tell_children : Verdict → List ℕ → Store → Store
tell_children success ids s = mark_children ids ChildStatus.paid s
tell_children failure ids s = mark_children ids ChildStatus.failed s
tell_children undecided ids s = s

abbrev note : Verdict → ℕ → Notice
note success id = item_paid id
note failure id = item_failed id
note undecided id = item_updated id

-- `allPaid || anyFailed ? new Date() : batch.processed_at`
abbrev pub processed_by : Context → List AggregatedPayout → Option ℕ → Option ℕ
processed_by ctx rows old =
    if every (λ a. is_paid a.status) rows || any (λ a. is_failed a.status) rows
    then some ctx.now
    else old

unfoldable pub sum_up : Context → PayoutBatch → Store → Store
sum_up ctx b s =
    let rows = of_batch b.id s in
    let st = summary_status rows in
    announce ctx (batch_updated b.id st) (
      save_batch ctx
        (record b {
          status = st;
          total_amount = total_of rows;
          processed_at = processed_by ctx rows b.processed_at;
        })
        s)

unfoldable pub refresh_batch : Context → Option ℕ → Store → Store
refresh_batch ctx none s = s
refresh_batch ctx (some k) s = elim (s.batches k) [ none ↦ s | some b ↦ sum_up ctx b s ]

abbrev pub is_success : Verdict → Bool
is_success success = true
is_success _ = false

abbrev pub can_tell : Context → Verdict → List ℕ → Bool
can_tell ctx success ids = can_mark ctx ids
can_tell ctx failure ids = can_mark ctx ids
can_tell ctx undecided ids = true

unfoldable pub carry_out : Context → TransferNotice → AggregatedPayout → Store → Store
carry_out ctx r a s =
    let s1 : Store = record s {
      aggregates = update_where (λ x. x.id == a.id) (told r) s.aggregates;
    } in
    announce ctx (note (verdict_of r.status) a.id)
      (refresh_batch ctx a.payout_batch_id (tell_children (verdict_of r.status) a.child_ids s1))

-- The transaction is rolled back, and the error only logged, if the children cannot be updated.
unfoldable pub deliver : Context → TransferNotice → AggregatedPayout → Store → Store
deliver ctx r a s =
    if can_tell ctx (verdict_of r.status) a.child_ids then carry_out ctx r a s else s

-- A result for an aggregate that is already paid is skipped if it reports success again.
unfoldable pub apply_result : Context → TransferNotice → Store → Store
apply_result ctx r s = elim (locate r s) [
  | none ↦ s
  | some a ↦ if is_paid a.status && is_success (verdict_of r.status) then s else deliver ctx r a s
]

-- Each result is a transaction of its own.
unfoldable pub handle_transfer_results : Context → List TransferNotice → Store → Store
handle_transfer_results ctx [] s = s
handle_transfer_results ctx (r ∷ rs) s = handle_transfer_results ctx rs (apply_result ctx r s)
