-- ===== src/Payouts/Retries.antt =====
-- payment.service.ts: a batch whose transfers the provider refused, processed again.
use meal_delivery.Prelude.{
  ℕ, ◌≡◌, refl, Bool, true, Option, none, some, List, [], ◌∷◌, map, member, update_where, arith,
}
use meal_delivery.Payouts.{AggregatedPayout, PayoutBatch, BatchStatus, Store, Context, save_batch}
use meal_delivery.Payouts.Process.{
  Reply, refused, Transfer, after_reply, process_rows, process_aggregated_batch, finished,
  claimable, claim, open_rows, ids_of, fail, to_transfer,
}
use meal_delivery.Payouts.Asked.{IsAsked, asked_for}
use meal_delivery.Payouts.Batches.{run_asks_for_all}

abbrev pub status_of : Option PayoutBatch → Option BatchStatus
status_of none = none
status_of (some b) = some b.status

-- With no batched payout, a batch that can be claimed is completed at once.
empty_run :
    (ctx : Context) (provider : List Transfer → Reply) (force : Bool) (k : ℕ) (s : Store)
    (b : PayoutBatch)
    → s.batches k ≡ some b
    → claimable ctx force b ≡ true
    → open_rows k s ≡ []
    → let done = finished ctx BatchStatus.completed (claim b) in
      process_aggregated_batch ctx provider force k s
      ≡ (some done, save_batch ctx done (save_batch ctx (claim b) s))
unfolding process_aggregated_batch process_rows
empty_run ctx provider force k s b found can none_open =
    rw (found, process_aggregated_batch, can, none_open, process_rows) refl

-- The store when the provider has refused these transfers.
abbrev refused_store : Context → PayoutBatch → List AggregatedPayout → Store → Store
refused_store ctx b rows s =
    let ids = ids_of rows in
    let started : Store = asked_for rows (save_batch ctx (claim b) s) in
    save_batch ctx (finished ctx BatchStatus.failed (claim b))
      (record started { aggregates = update_where (λ a. member a.id ids) fail started.aggregates })

refused_run :
    (ctx : Context) (provider : List Transfer → Reply) (force : Bool) (k : ℕ) (s : Store)
    (b : PayoutBatch) (a : AggregatedPayout) (rows : List AggregatedPayout)
    → s.batches k ≡ some b
    → claimable ctx force b ≡ true
    → open_rows k s ≡ a ∷ rows
    → ((ts : List Transfer) → provider ts ≡ refused)
    → process_aggregated_batch ctx provider force k s
      ≡ (some (finished ctx BatchStatus.failed (claim b)), refused_store ctx b (a ∷ rows) s)
unfolding process_aggregated_batch process_rows after_reply
refused_run ctx provider force k s b a rows found can open_now refuses =
    rw
      (
        found,
        process_aggregated_batch,
        can,
        open_now,
        process_rows,
        refuses (map to_transfer (a ∷ rows)),
        after_reply,
      )
      refl

failed_can_be_claimed :
    (ctx : Context) (force : Bool) (b : PayoutBatch)
    → b.status ≡ BatchStatus.failed
    → claimable ctx force b ≡ true
unfolding claimable
failed_can_be_claimed ctx force b e = rw e refl

-- A batch with batched payouts that can be claimed, when the provider refuses the transfers: it is
-- marked as failed, and its children stay as they were. Processed again, by whatever provider, it is
-- marked as completed: no transfer is asked for, and the payouts and children stay as they are.
-- It is assumed that no transfer was asked for twice before, and none for a batched payout.
pub refused_batch_completes_later :
    (ctx later : Context) (provider provider' : List Transfer → Reply) (force force' : Bool) (k : ℕ)
    (s : Store) (b : PayoutBatch) (a : AggregatedPayout) (rows : List AggregatedPayout)
    → IsAsked s
    → s.batches k ≡ some b
    → b.id ≡ k
    → claimable ctx force b ≡ true
    → open_rows k s ≡ a ∷ rows
    → ((ts : List Transfer) → provider ts ≡ refused)
    → let (r1, s1) = process_aggregated_batch ctx provider force k s in
      let (r2, s2) = process_aggregated_batch later provider' force' k s1 in
      (status_of r1 ≡ some BatchStatus.failed)
      × (s1.children ≡ s.children)
      × (status_of r2 ≡ some BatchStatus.completed)
      × (s2.requested ≡ s1.requested)
      × (s2.aggregates ≡ s1.aggregates)
      × (s2.children ≡ s1.children)
refused_batch_completes_later ctx later provider provider' force force' k s b a rows h found own can
      open_now refuses =
    let failed : PayoutBatch = record (finished ctx BatchStatus.failed (claim b)) {
      updated_at = ctx.now;
    } in
    let s1 : Store = refused_store ctx b (a ∷ rows) s in
    let first = refused_run ctx provider force k s b a rows found can open_now refuses in
    let drained = rw first at ((run_asks_for_all ctx provider force k s b found can h).0) in
    let saved : s1.batches k ≡ some failed = ground (arith, own) in
    let second =
      empty_run later provider' force' k s1 failed saved
        (failed_can_be_claimed later force' failed refl) drained.none_open in
    rw (first, second) (refl, refl, refl, refl, refl, refl)
