-- ===== src/Payouts/Provider.antt =====
-- payment-service/src/modules/payment/chapa.service.ts: `bulkTransfer`. The HTTP request is an
-- argument: what is answered to each attempt, if it is.
pub mod Queued
use meal_delivery.Prelude.{
  ℕ, suc, zero, ◌⊎◌, ◌+◌, ◌≡◌, refl, inl, inr, Bool, true, false, ◌||◌, Option, none, some, List,
  [], ◌∷◌, ◌++◌, Text, map, All, All-map, All-update_where, ◌==◌, ==_iff, or_else, arith,
  if◌then◌else◌, member, update_where, Option-cases, Bool-cases, text_eq,
}
use meal_delivery.Payments.{to_lower}
use meal_delivery.Payouts.{
  AggregatedPayout, AggregateStatus, ChildStatus, Store, Context, PayoutBatch, Notice, announce,
  save_batch, mark_children, settled_words, is_one_of,
}
use meal_delivery.Payouts.Process.{
  Transfer, TransferResult, Reply, refused, answered, reconcile, settle, result_of, says_success,
  fail, to_transfer, ids_of, after_reply, process_rows, mark_started, process_aggregated_batch,
  claimable, claim, open_rows,
}

-- One transfer as the provider reports it, under the names it may use.
pub record Item : Type 0 where
  pub reference : Option ℕ
  pub ref : Option ℕ
  pub payout_reference : Option ℕ
  pub transfer_id : Option Text
  pub id : Option Text
  pub transaction_id : Option Text
  pub txn_id : Option Text
  pub status : Option Text
  pub state : Option Text
  pub result : Option Text

-- The answer's body; the `data_` fields are those of its `data`.
pub record Answer : Type 0 where
  pub data_id : Option Text
  pub data_bulk_transfer_id : Option Text
  pub id : Option Text
  pub bulk_transfer_id : Option Text
  pub reference : Option Text
  pub data_bulk_data : Option (List Item)
  pub data_items : Option (List Item)
  pub data_transfers : Option (List Item)
  pub items : Option (List Item)
  pub bulk_data : Option (List Item)
  pub transfers : Option (List Item)

abbrev provider_batch_id : Answer → Option Text
provider_batch_id a =
    or_else a.data_id
      (or_else a.data_bulk_transfer_id (or_else a.id (or_else a.bulk_transfer_id a.reference)))

abbrev pub raw_items : Answer → Option (List Item)
raw_items a = or_else a.data_bulk_data (
    or_else a.data_items
      (or_else a.data_transfers (or_else a.items (or_else a.bulk_data a.transfers))))

abbrev lower_text : Option Text → Text
lower_text none = []
lower_text (some t) = map to_lower t

-- No status is the empty text, as the caller reads it.
abbrev from_item : Item → TransferResult
from_item it =
    let key = or_else it.reference (or_else it.ref it.payout_reference) in
    record {
      payout_item_id = key;
      reference = key;
      status = lower_text (or_else it.status (or_else it.state it.result));
      transfer_id = or_else it.transfer_id (or_else it.id (or_else it.transaction_id it.txn_id));
    }

abbrev pub queued : Text
queued = b'q' ∷ b'u' ∷ b'e' ∷ b'u' ∷ b'e' ∷ b'd' ∷ []

-- The placeholder for a transfer that was sent.
abbrev pub placeholder : Transfer → TransferResult
placeholder t = record {
  payout_item_id = some t.payout_item_id;
  reference = some t.payout_item_id;
  status = queued;
  transfer_id = none;
}

abbrev results_of : List Transfer → Option (List Item) → List TransferResult
results_of ts none = map placeholder ts
results_of ts (some items) = map from_item items

abbrev pub normalize : List Transfer → Answer → Reply
normalize ts a = answered (provider_batch_id a) (results_of ts (raw_items a))

-- The attempts that are left, from this one on.
unfoldable pub attempts : ℕ → ℕ → (ℕ → Option Answer) → Option Answer
attempts zero n post = none
attempts (suc left) n post = elim (post n) [ none ↦ attempts left (n + 1) post | some a ↦ some a ]

unfoldable pub bulk_transfer : (ℕ → List Transfer → Option Answer) → List Transfer → Reply
bulk_transfer post ts = elim (attempts 3 0 (λ n. post n ts)) [
  | none ↦ refused
  | some a ↦ normalize ts a
]

-- The first of three attempts that is answered is what counts, and the call fails exactly if all
-- three do.
pub first_answer_counts :
    (post : ℕ → List Transfer → Option Answer) (ts : List Transfer)
    → bulk_transfer post ts ≡ elim (or_else (post 0 ts) (or_else (post 1 ts) (post 2 ts))) [
      | none ↦ refused
      | some a ↦ normalize ts a
    ]
unfolding bulk_transfer attempts
first_answer_counts post ts = elim (Option-cases (post 0 ts)) [
  | inr (a, e) ↦ rw (e, bulk_transfer, attempts) refl
  | inl e ↦ elim (Option-cases (post 1 ts)) [
    | inr (a, e1) ↦ rw (e, e1, bulk_transfer, attempts) refl
    | inl e1 ↦ elim (Option-cases (post 2 ts)) [
      | inr (a, e2) ↦ rw (e, e1, e2, bulk_transfer, attempts) refl
      | inl e2 ↦ rw (e, e1, e2, bulk_transfer, attempts) refl
    ]
  ]
]
