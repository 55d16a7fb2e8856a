-- ===== src/Payouts/Process.antt =====
-- payment.service.ts: `processAggregatedBatch`. The provider's bulk transfer is an argument: what it
-- answers to a list of transfers.
use meal_delivery.Prelude.{
  ℕ, ◌+◌, Bool, true, false, not, ◌&&◌, ◌||◌, Option, none, some, List, [], ◌∷◌, ◌++◌, Text, ltb,
  ◌==◌, map, member, select, update_where, any, or_else, text_eq, if◌then◌else◌,
}
use meal_delivery.Payouts.{
  AggregatedPayout, AggregateStatus, PayoutBatch, BatchStatus, ChildStatus, Store, Context,
  item_paid, item_failed, batch_processed, is_batched, is_active, is_failed, announce, save_batch,
  can_mark, Notice, mark_children, in_batch, of_batch, summary_status, total_of, is_one_of,
  settled_words,
}
use meal_delivery.Payments.{to_lower}

-- `reference` is the aggregate's id.
pub record Transfer : Type 0 where
  pub payout_item_id : ℕ
  pub account_number : Option Text
  pub bank_code : Option Text
  pub amount : ℕ

pub record TransferResult : Type 0 where
  pub payout_item_id : Option ℕ
  pub reference : Option ℕ
  pub status : Text
  pub transfer_id : Option Text

-- The call fails, or is answered with the provider's id and some results.
pub data Reply : Type 0 where
  refused : Reply
  answered : Option Text → List TransferResult → Reply

abbrev pub to_transfer : AggregatedPayout → Transfer
to_transfer a = record {
  payout_item_id = a.id;
  account_number = a.account_number;
  bank_code = a.bank_code;
  amount = a.amount;
}

-- Here `ok` is a success too.
unfoldable pub says_success : Text → Bool
says_success s = is_one_of settled_words s || text_eq (map to_lower s) (b'o' ∷ b'k' ∷ [])

-- The last result with this key: a later one replaces an earlier one in the map.
unfoldable pub result_of : ℕ → List TransferResult → Option TransferResult
result_of id [] = none
result_of id (r ∷ rs) =
    let later = result_of id rs in
    or_else later (elim (or_else r.payout_item_id r.reference) [
      | none ↦ none
      | some k ↦ if k == id then some r else none
    ])

abbrev is_processing : BatchStatus → Bool
is_processing BatchStatus.processing = true
is_processing _ = false

-- The condition of the claiming update.
unfoldable pub claimable : Context → Bool → PayoutBatch → Bool
claimable ctx force b =
    not (is_processing b.status) || (force || ltb (b.updated_at + ctx.stale_after) ctx.now)

abbrev pub finished : Context → BatchStatus → PayoutBatch → PayoutBatch
finished ctx st b = record b { status = st; processed_at = some ctx.now }

abbrev pub is_open : ℕ → AggregatedPayout → Bool
is_open b a = in_batch b a && is_batched a.status

abbrev pub start : AggregatedPayout → AggregatedPayout
start a = record a { status = AggregateStatus.processing; attempt_count = a.attempt_count + 1 }

abbrev pub fail : AggregatedPayout → AggregatedPayout
fail a = record a { status = AggregateStatus.failed }

abbrev pub pay : Option Text → AggregatedPayout → AggregatedPayout
pay transfer_id a = record a { status = AggregateStatus.paid; provider_transfer_id = transfer_id }

abbrev pub ids_of : List AggregatedPayout → List ℕ
ids_of rows = map (λ a. a.id) rows

-- The update of the children, and the message; `false` if the update is refused, which is thrown.
abbrev pub pass_on : Context → Notice → List ℕ → ChildStatus → Store → Bool × Store
pass_on ctx n ids st s =
    if can_mark ctx ids then (true, announce ctx n (mark_children ids st s)) else (false, s)

-- One aggregate after the answer: no result leaves it under way.
unfoldable pub settle : Context → AggregatedPayout → Option TransferResult → Store → Bool × Store
settle ctx a none s = (true, s)
settle ctx a (some r) s =
    if says_success r.status
    then pass_on ctx (item_paid a.id) a.child_ids ChildStatus.paid (record s {
      aggregates = update_where (λ x. x.id == a.id) (pay r.transfer_id) s.aggregates;
    })
    else pass_on ctx (item_failed a.id) a.child_ids ChildStatus.failed
        (record s { aggregates = update_where (λ x. x.id == a.id) fail s.aggregates })

-- An error ends the loop; what was written before stays.
unfoldable pub reconcile :
    Context → List AggregatedPayout → List TransferResult → Store → Bool × Store
reconcile ctx [] results s = (true, s)
reconcile ctx (a ∷ rows) results s =
    let (on, s1) = settle ctx a (result_of a.id results) s in
    let rest = reconcile ctx rows results s1 in if on then rest else (false, s1)

-- The batch as its rows are now.
abbrev pub close : Context → PayoutBatch → Store → PayoutBatch × Store
close ctx b s =
    let rows = of_batch b.id s in
    let st = summary_status rows in
    let closed = record (finished ctx st b) { total_amount = total_of rows } in
    (closed, announce ctx (batch_processed b.id st) (save_batch ctx closed s))

abbrev pub mark_started : List ℕ → Store → Store
mark_started ids s = record s {
  aggregates = update_where (λ a. member a.id ids) start s.aggregates;
}

-- The call of the provider, who notes what it is asked for.
abbrev pub ask : (List Transfer → Reply) → List Transfer → Store → Reply × Store
ask provider ts s =
    (provider ts, record s { requested = map (λ t. t.payout_item_id) ts ++ s.requested })

-- An error leaves the batch under way.
abbrev pub finish : Context → PayoutBatch → Bool × Store → Option PayoutBatch × Store
finish ctx b r = if r.0 then (some ((close ctx b r.1).0), (close ctx b r.1).1) else (none, r.1)

unfoldable pub after_reply :
    Context → PayoutBatch → List AggregatedPayout → Reply → Store → Option PayoutBatch × Store
after_reply ctx b rows refused s =
    let failed_batch = finished ctx BatchStatus.failed b in
    (
      some failed_batch,
      save_batch ctx failed_batch (record s {
        aggregates = update_where (λ a. member a.id (ids_of rows)) fail s.aggregates;
      }),
    )
after_reply ctx b rows (answered batch_id results) s =
    finish ctx (record b { provider_batch_id = batch_id }) (reconcile ctx rows results s)

-- The transfers that a run asks for.
abbrev pub open_rows : ℕ → Store → List AggregatedPayout
open_rows b s = select (is_open b) s.aggregates

unfoldable pub process_rows :
    Context
    → (List Transfer → Reply)
    → PayoutBatch
    → List AggregatedPayout
    → Store
    → Option PayoutBatch × Store
process_rows ctx provider b [] s =
    let done = finished ctx BatchStatus.completed b in (some done, save_batch ctx done s)
process_rows ctx provider b (a ∷ rows) s =
    let (r, s1) = ask provider (map to_transfer (a ∷ rows)) (mark_started (ids_of (a ∷ rows)) s) in
    after_reply ctx b (a ∷ rows) r s1

-- A batch that another worker has: it is closed if none of its rows is active any more.
unfoldable pub close_idle : Context → PayoutBatch → Store → PayoutBatch × Store
close_idle ctx b s =
    let rows = of_batch b.id s in
    let st =
      if any (λ a. is_failed a.status) rows then BatchStatus.failed else BatchStatus.completed in
    let closed = record (finished ctx st b) { total_amount = total_of rows } in
    if any (λ a. is_active a.status) rows then (b, s) else (closed, save_batch ctx closed s)

abbrev pub claim : PayoutBatch → PayoutBatch
claim b = record b { status = BatchStatus.processing; attempt_count = b.attempt_count + 1 }

-- No result is an error: `Batch not found`, or one of the database.
unfoldable pub process_aggregated_batch :
    Context → (List Transfer → Reply) → Bool → ℕ → Store → Option PayoutBatch × Store
process_aggregated_batch ctx provider force id s = elim (s.batches id) [
  | none ↦ (none, s)
  | some b ↦
      if claimable ctx force b
      then process_rows ctx provider (claim b) (open_rows id s) (save_batch ctx (claim b) s)
      else (let (r, s1) = close_idle ctx b s in (some r, s1))
]
