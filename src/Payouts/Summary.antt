-- ===== src/Payouts/Summary.antt =====
-- payment.service.ts: a batch as the summary of its payouts.
use meal_delivery.Prelude.{
  ℕ, ◌≡◌, refl, inl, inr, Bool, true, false, ◌&&◌, Option, some, List, ◌∷◌, Text, ◌==◌, arith, map,
  Bool-cases, update_where,
}
use meal_delivery.Payouts.{
  AggregatedPayout, PayoutBatch, Store, Context, Notice, is_paid, of_batch, announce, save_batch,
  summary_status, total_of,
}
use meal_delivery.Payouts.Provider.Queued.{marks, reconcile_goes_on}
use meal_delivery.Payouts.Asked.{asked_for}
use meal_delivery.Payouts.Process.{
  Reply, answered, Transfer, TransferResult, after_reply, process_rows, process_aggregated_batch,
  close, reconcile, claimable, claim, open_rows, to_transfer,
}
use meal_delivery.Payouts.Transfers.{
  TransferNotice, Verdict, processed_by, success, failure, undecided, verdict_of, told, is_success,
  tell_children, sum_up, refresh_batch, carry_out, can_tell, deliver, locate, apply_result,
}

-- The stored batch has the status and the total that its payouts give.
pub record SummedUp (k : ℕ) (s : Store) : Type 0 where
  pub batch : PayoutBatch
  pub found : s.batches k ≡ some batch
  pub by_rows : batch.status ≡ summary_status (of_batch k s)
  pub adds_up : batch.total_amount ≡ total_of (of_batch k s)

announce-SummedUp :
    (ctx : Context) (n : Notice) (k : ℕ) (s : Store) → SummedUp k s → SummedUp k (announce ctx n s)
announce-SummedUp ctx n k s h = elim (Bool-cases (ctx.accepts n)) [
  | inl e ↦
      rw e (record { batch = h.batch; found = h.found; by_rows = h.by_rows; adds_up = h.adds_up })
  | inr e ↦ rw e h
]

-- Saved with that status and that total.
saved-SummedUp :
    (ctx : Context) (k : ℕ) (b : PayoutBatch) (s : Store)
    → b.id ≡ k
    → b.status ≡ summary_status (of_batch k s)
    → b.total_amount ≡ total_of (of_batch k s)
    → SummedUp k (save_batch ctx b s)
saved-SummedUp ctx k b s own by_rows adds_up = record {
  batch = record b { updated_at = ctx.now };
  found = ground (arith, own);
  by_rows = by_rows;
  adds_up = adds_up;
}

sum_up-SummedUp :
    (ctx : Context) (k : ℕ) (b : PayoutBatch) (s : Store) → b.id ≡ k → SummedUp k (sum_up ctx b s)
unfolding sum_up
sum_up-SummedUp ctx k b s own = announce-SummedUp ctx _ k _ (
    saved-SummedUp ctx k
      (record b {
        status = summary_status (of_batch b.id s);
        total_amount = total_of (of_batch b.id s);
        processed_at = processed_by ctx (of_batch b.id s) b.processed_at;
      })
      s own (rw own refl) (rw own refl))

tell_children-batches :
    (v : Verdict) (ids : List ℕ) (s : Store) → (tell_children v ids s).batches ≡ s.batches
tell_children-batches success ids s = refl
tell_children-batches failure ids s = refl
tell_children-batches undecided ids s = refl

refreshed :
    (ctx : Context) (k : ℕ) (b : PayoutBatch) (s : Store)
    → s.batches k ≡ some b
    → b.id ≡ k
    → SummedUp k (refresh_batch ctx (some k) s)
unfolding refresh_batch
refreshed ctx k b s found own = rw (found, refresh_batch) (sum_up-SummedUp ctx k b s own)

tells :
    (ctx : Context) (v : Verdict) (ids : List ℕ)
    → ctx.updates_children ≡ true
    → can_tell ctx v ids ≡ true
tells ctx success ids up = marks ctx ids up
tells ctx failure ids up = marks ctx ids up
tells ctx undecided ids up = refl

-- The result of a transfer, unless it repeats a success, leaves the batch of its payout with the status
-- and the total of its payouts: completed if all are paid, failed if one failed, else under way.
-- The database is to carry out the update of the children.
pub result_sums_up :
    (ctx : Context) (r : TransferNotice) (s : Store) (a : AggregatedPayout) (k : ℕ)
    (b : PayoutBatch)
    → locate r s ≡ some a
    → (is_paid a.status && is_success (verdict_of r.status)) ≡ false
    → a.payout_batch_id ≡ some k
    → s.batches k ≡ some b
    → b.id ≡ k
    → ctx.updates_children ≡ true
    → SummedUp k (apply_result ctx r s)
unfolding apply_result deliver carry_out
result_sums_up ctx r s a k b here new part found own up =
    let s1 : Store = record s {
      aggregates = update_where (λ x. x.id == a.id) (told r) s.aggregates;
    } in
    let s2 : Store = tell_children (verdict_of r.status) a.child_ids s1 in
    let kept : s2.batches k ≡ some b =
      rw (tell_children-batches (verdict_of r.status) a.child_ids s1) found in
    rw
      (
        here,
        apply_result,
        new,
        deliver,
        tells ctx (verdict_of r.status) a.child_ids up,
        carry_out,
        part,
      )
      (announce-SummedUp ctx _ k _ (refreshed ctx k b s2 kept own))

-- So does a run over a batch that can be claimed and has batched payouts, if the provider answers.
pub answered_run_sums_up :
    (ctx : Context) (provider : List Transfer → Reply) (force : Bool) (k : ℕ) (s : Store)
    (b : PayoutBatch) (a : AggregatedPayout) (rows : List AggregatedPayout) (batch_id : Option Text)
    (results : List TransferResult)
    → s.batches k ≡ some b
    → b.id ≡ k
    → claimable ctx force b ≡ true
    → open_rows k s ≡ a ∷ rows
    → provider (map to_transfer (a ∷ rows)) ≡ answered batch_id results
    → ctx.updates_children ≡ true
    → SummedUp k (process_aggregated_batch ctx provider force k s).1
unfolding process_aggregated_batch process_rows after_reply
answered_run_sums_up ctx provider force k s b a rows batch_id results found own can open_now answers
      up =
    let s0 : Store = asked_for (a ∷ rows) (save_batch ctx (claim b) s) in
    let s1 : Store = (reconcile ctx (a ∷ rows) results s0).1 in
    let closed : PayoutBatch =
      (close ctx (record (claim b) { provider_batch_id = batch_id }) s1).0 in
    rw
      (
        found,
        process_aggregated_batch,
        can,
        open_now,
        process_rows,
        answers,
        after_reply,
        reconcile_goes_on ctx (a ∷ rows) results s0 up,
      )
      (announce-SummedUp ctx _ k _ (saved-SummedUp ctx k closed s1 own (rw own refl) (rw own refl)))
