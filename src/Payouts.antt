-- ===== src/Payouts.antt =====
-- payment-service/src/modules/payment/payment.service.ts: what the platform owes to restaurants for
-- promo codes, and how it is paid out. Here are the rows (payment-service/src/entities) and the state;
-- amounts are cents. Identifiers of new rows are the numbers from `next_id` on.
pub mod Create
pub mod Process
pub mod Transfers
pub mod Money
pub mod Asked
pub mod Kept
pub mod Runs
pub mod Totals
pub mod Batches
pub mod Retries
pub mod Summary
pub mod Provider
mod Tests
use meal_delivery.Prelude.{
  ℕ, ◌+◌, Bool, true, false, ◌&&◌, Option, none, some, List, [], ◌∷◌, ◌++◌, Text, ◌==◌, member,
  select, update_where, find_row, text_eq, map, ◌||◌, sum_of, every, any, if◌then◌else◌,
}
use meal_delivery.Payments.{to_lower}

pub data ChildStatus : Type 0 where
  pending batched paid failed cancelled : ChildStatus

pub data AggregateStatus : Type 0 where
  batched processing paid failed cancelled : AggregateStatus

pub data BatchStatus : Type 0 where
  pending created processing completed failed : BatchStatus

-- Why something is owed: the reason of this code, or another one.
pub data Reason : Type 0 where
  promo_platform_topup : Reason
  other : Text → Reason

-- `words.includes(status.toLowerCase())`
unfoldable pub is_one_of : List Text → Text → Bool
is_one_of [] s = false
is_one_of (t ∷ ts) s = text_eq (map to_lower s) t || is_one_of ts s

-- The words by which a transfer, or a payment, has succeeded.
abbrev pub settled_words : List Text
settled_words =
    (b's' ∷ b'u' ∷ b'c' ∷ b'c' ∷ b'e' ∷ b's' ∷ b's' ∷ [])
    ∷ (b'p' ∷ b'a' ∷ b'i' ∷ b'd' ∷ [])
    ∷ (b'c' ∷ b'o' ∷ b'm' ∷ b'p' ∷ b'l' ∷ b'e' ∷ b't' ∷ b'e' ∷ b'd' ∷ [])
    ∷ []

-- What is owed for one order.
pub record PayoutChild : Type 0 where
  pub id : ℕ
  pub order_id : Option ℕ
  pub payment_id : Option ℕ
  pub restaurant_id : ℕ
  pub amount : ℕ
  pub status : ChildStatus
  pub parent_aggregate_id : Option ℕ
  pub reason : Option Reason
  pub created_at : ℕ

-- What is paid to one restaurant at once. `child_ids` is a field of its `meta`.
pub record AggregatedPayout : Type 0 where
  pub id : ℕ
  pub payout_batch_id : Option ℕ
  pub restaurant_id : ℕ
  pub amount : ℕ
  pub account_number : Option Text
  pub account_name : Option Text
  pub bank_code : Option Text
  pub provider_transfer_id : Option Text
  pub status : AggregateStatus
  pub attempt_count : ℕ
  pub child_ids : List ℕ

pub record PayoutBatch : Type 0 where
  pub id : ℕ
  pub status : BatchStatus
  pub total_amount : ℕ
  pub provider_batch_id : Option Text
  pub attempt_count : ℕ
  pub processed_at : Option ℕ
  pub updated_at : ℕ

pub record RestaurantSubaccount : Type 0 where
  pub restaurant_id : ℕ
  pub chapa_subaccount_id : Text
  pub account_number : Option Text
  pub account_name : Option Text
  pub bank_code : Option Text

-- Messages to Kafka topics about payouts.
pub data Notice : Type 0 where
  item_paid item_failed item_updated : ℕ → Notice
  batch_processed batch_updated : ℕ → BatchStatus → Notice

-- `requested` lists the aggregates whose transfer was asked of the provider, the last one first.
pub record Store : Type 0 where
  pub children : List PayoutChild
  pub aggregates : List AggregatedPayout
  pub batches : ℕ → Option PayoutBatch
  pub subaccounts : ℕ → Option RestaurantSubaccount
  pub next_id : ℕ
  pub requested : List ℕ
  pub sent : List Notice

-- The clock, how long a batch may be under way, whether the broker takes a message, and whether the
-- database carries out the update of children, which has `to_jsonb` of a literal with no type.
pub record Context : Type 0 where
  pub now : ℕ
  pub stale_after : ℕ
  pub accepts : Notice → Bool
  pub updates_children : Bool

unfoldable pub is_pending : ChildStatus → Bool
is_pending ChildStatus.pending = true
is_pending _ = false

unfoldable pub is_batched : AggregateStatus → Bool
is_batched AggregateStatus.batched = true
is_batched _ = false

unfoldable pub is_active : AggregateStatus → Bool
is_active AggregateStatus.batched = true
is_active AggregateStatus.processing = true
is_active _ = false

unfoldable pub is_paid : AggregateStatus → Bool
is_paid AggregateStatus.paid = true
is_paid _ = false

unfoldable pub is_failed : AggregateStatus → Bool
is_failed AggregateStatus.failed = true
is_failed _ = false

-- `try { await kafka.emit(…) } catch`
abbrev pub announce : Context → Notice → Store → Store
announce ctx n s = if ctx.accepts n then record s { sent = s.sent ++ n ∷ [] } else s

abbrev pub save_batch : Context → PayoutBatch → Store → Store
save_batch ctx b s = record s {
  batches = λ k. if b.id == k then some (record b { updated_at = ctx.now }) else s.batches k;
}

-- `UPDATE … WHERE id = ANY(ids)` on the status of children
abbrev pub mark_children : List ℕ → ChildStatus → Store → Store
mark_children ids st s = record s {
  children = update_where (λ c. member c.id ids) (λ c. record c { status = st }) s.children;
}

-- The update is not made for no children.
abbrev pub can_mark : Context → List ℕ → Bool
can_mark ctx [] = true
can_mark ctx (k ∷ ks) = ctx.updates_children

abbrev pub in_batch : ℕ → AggregatedPayout → Bool
in_batch b a = elim a.payout_batch_id [ none ↦ false | some k ↦ k == b ]

abbrev pub of_batch : ℕ → Store → List AggregatedPayout
of_batch b s = select (in_batch b) s.aggregates

-- `allPaid ? 'completed' : anyFailed ? 'failed' : 'processing'`
unfoldable pub summary_status : List AggregatedPayout → BatchStatus
summary_status rows =
    if every (λ a. is_paid a.status) rows
    then BatchStatus.completed
    else if any (λ a. is_failed a.status) rows
    then BatchStatus.failed
    else BatchStatus.processing

abbrev pub total_of : List AggregatedPayout → ℕ
total_of rows = sum_of (λ a. a.amount) rows
