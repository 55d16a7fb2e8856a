-- ===== src/Payouts/Batches.antt =====
-- payment.service.ts: what a run over a batch leaves behind.
use meal_delivery.Prelude.{
  ℕ, ◌≡◌, refl, sym, ap, inl, inr, Bool, true, false, Option, none, some, List, [], ◌∷◌, ◌++◌, All,
  arith, ◌==◌, map, member, member-keys, select, update_where, Bool-cases,
}
use meal_delivery.Payouts.{
  AggregatedPayout, PayoutBatch, Store, Context, Notice, ChildStatus, is_batched, can_mark,
  announce, save_batch, mark_children,
}
use meal_delivery.Payouts.Process.{
  Reply, refused, answered, Transfer, TransferResult, settle, pass_on, finish, reconcile, result_of,
  after_reply, process_rows, process_aggregated_batch, pay, fail, start, ids_of, to_transfer,
  says_success, claimable, claim, open_rows, is_open,
}
use meal_delivery.Payouts.Asked.{IsAsked, asked_for, transfer_ids}

-- Updates after which a payout is batched no more open none.
update-open :
    (b : ℕ) (p : AggregatedPayout → Bool) (f : AggregatedPayout → AggregatedPayout)
    (rows : List AggregatedPayout)
    → ((a : AggregatedPayout) → is_batched (f a).status ≡ false)
    → select (is_open b) rows ≡ []
    → select (is_open b) (update_where p f rows) ≡ []
unfolding select update_where
update-open b p f [] done none_open = refl
update-open b p f (a ∷ rows) done none_open = elim (Bool-cases (is_open b a)) [
  | inl e ↦ ground (arith, none_open, e)
  | inr e ↦ ground (arith, done a, update-open b p f rows done (ground (arith, none_open)))
]

start-closed :
    (b : ℕ) (ids : List ℕ) (rows : List AggregatedPayout)
    → All (λ a. member a.id ids ≡ is_open b a) rows
    → select (is_open b) (update_where (λ a. member a.id ids) start rows) ≡ []
unfolding select update_where is_batched
start-closed b ids [] keys = refl
start-closed b ids (a ∷ rows) keys = ground (arith, keys.0, start-closed b ids rows keys.1)

-- A run asked for these transfers and no others, and no row of the batch is open.
pub record Drained (b : ℕ) (asked : List ℕ) (s' : Store) : Type 0 where
  pub none_open : open_rows b s' ≡ []
  pub all_asked : s'.requested ≡ asked

announce-Drained :
    (ctx : Context) (n : Notice) (b : ℕ) (asked : List ℕ) (s : Store)
    → Drained b asked s
    → Drained b asked (announce ctx n s)
announce-Drained ctx n b asked s h = elim (Bool-cases (ctx.accepts n)) [
  | inl e ↦ rw e (record { none_open = h.none_open; all_asked = h.all_asked })
  | inr e ↦ rw e h
]

update-Drained :
    (b : ℕ) (asked : List ℕ) (p : AggregatedPayout → Bool) (f : AggregatedPayout → AggregatedPayout)
    (s : Store)
    → ((a : AggregatedPayout) → is_batched (f a).status ≡ false)
    → Drained b asked s
    → Drained b asked (record s { aggregates = update_where p f s.aggregates })
update-Drained b asked p f s done h = record {
  none_open = update-open b p f s.aggregates done h.none_open;
  all_asked = h.all_asked;
}

mark_children-Drained :
    (ids : List ℕ) (st : ChildStatus) (b : ℕ) (asked : List ℕ) (s : Store)
    → Drained b asked s
    → Drained b asked (mark_children ids st s)
mark_children-Drained ids st b asked s h = record {
  none_open = h.none_open;
  all_asked = h.all_asked;
}

pass_on-Drained :
    (ctx : Context) (n : Notice) (ids : List ℕ) (st : ChildStatus) (b : ℕ) (asked : List ℕ)
    (s : Store)
    → Drained b asked s
    → Drained b asked (pass_on ctx n ids st s).1
pass_on-Drained ctx n ids st b asked s h = elim (Bool-cases (can_mark ctx ids)) [
  | inl e ↦ rw e (announce-Drained ctx n b asked _ (mark_children-Drained ids st b asked s h))
  | inr e ↦ rw e h
]

settle-Drained :
    (ctx : Context) (b : ℕ) (asked : List ℕ) (a : AggregatedPayout) (r : Option TransferResult)
    (s : Store)
    → Drained b asked s
    → Drained b asked (settle ctx a r s).1
unfolding settle is_batched
settle-Drained ctx b asked a none s h = h
settle-Drained ctx b asked a (some r) s h = elim (Bool-cases (says_success r.status)) [
  | inl e ↦ rw e (
      pass_on-Drained ctx _ a.child_ids ChildStatus.paid b asked _
        (update-Drained b asked (λ x. x.id == a.id) (pay r.transfer_id) s (λ x. refl) h))
  | inr e ↦ rw e (
      pass_on-Drained ctx _ a.child_ids ChildStatus.failed b asked _
        (update-Drained b asked (λ x. x.id == a.id) fail s (λ x. refl) h))
]

reconcile-Drained :
    (ctx : Context) (b : ℕ) (asked : List ℕ) (rows : List AggregatedPayout)
    (results : List TransferResult) (s : Store)
    → Drained b asked s
    → Drained b asked (reconcile ctx rows results s).1
unfolding reconcile
reconcile-Drained ctx b asked [] results s h = h
reconcile-Drained ctx b asked (a ∷ rows) results s h =
    let first = settle-Drained ctx b asked a (result_of a.id results) s h in
    elim (Bool-cases (settle ctx a (result_of a.id results) s).0) [
      | inl e ↦ rw e (reconcile-Drained ctx b asked rows results _ first)
      | inr e ↦ rw e first
    ]

finish-Drained :
    (ctx : Context) (b : ℕ) (asked : List ℕ) (p : PayoutBatch) (r : Bool × Store)
    → Drained b asked r.1
    → Drained b asked (finish ctx p r).1
finish-Drained ctx b asked p r h = elim (Bool-cases r.0) [
  | inl e ↦ rw e (
      announce-Drained ctx _ b asked _
        (record { none_open = h.none_open; all_asked = h.all_asked }))
  | inr e ↦ rw e h
]

after_reply-Drained :
    (ctx : Context) (k : ℕ) (asked : List ℕ) (b : PayoutBatch) (rows : List AggregatedPayout)
    (r : Reply) (s : Store)
    → Drained k asked s
    → Drained k asked (after_reply ctx b rows r s).1
unfolding after_reply is_batched
after_reply-Drained ctx k asked b rows refused s h =
    let failed = update-Drained k asked (λ a. member a.id (ids_of rows)) fail s (λ a. refl) h in
    record { none_open = failed.none_open; all_asked = failed.all_asked }
after_reply-Drained ctx k asked b rows (answered batch_id results) s h =
    finish-Drained ctx k asked (record b { provider_batch_id = batch_id }) _
      (reconcile-Drained ctx k asked rows results s h)

start-Drained :
    (k : ℕ) (s : Store)
    → IsAsked s
    → Drained k (ids_of (open_rows k s) ++ s.requested) (asked_for (open_rows k s) s)
start-Drained k s h = record {
  none_open =
      start-closed k (ids_of (open_rows k s)) s.aggregates
        (member-keys (λ a. a.id) (is_open k) s.aggregates h.ids);
  all_asked = ap (λ (ids : List ℕ). ids ++ s.requested) (transfer_ids (open_rows k s));
}

process_rows-Drained :
    (ctx : Context) (provider : List Transfer → Reply) (b : PayoutBatch) (k : ℕ)
    (rows : List AggregatedPayout) (s : Store)
    → rows ≡ open_rows k s
    → IsAsked s
    → Drained k (ids_of rows ++ s.requested) (process_rows ctx provider b rows s).1
unfolding process_rows
process_rows-Drained ctx provider b k [] s e h = record { none_open = sym e; all_asked = refl }
process_rows-Drained ctx provider b k (a ∷ rows) s e h =
    after_reply-Drained ctx k (ids_of (a ∷ rows) ++ s.requested) b (a ∷ rows) _
      (asked_for (a ∷ rows) s) (rw (← e) at (start-Drained k s h))

-- Only what a provider answers to these transfers matters.
process_rows-same :
    (ctx : Context) (provider other : List Transfer → Reply) (b : PayoutBatch)
    (rows : List AggregatedPayout) (s : Store)
    → other (map to_transfer rows) ≡ provider (map to_transfer rows)
    → process_rows ctx other b rows s ≡ process_rows ctx provider b rows s
unfolding process_rows
process_rows-same ctx provider other b [] s e = refl
process_rows-same ctx provider other b (a ∷ rows) s e =
    ap (λ (r : Reply). after_reply ctx b (a ∷ rows) r (asked_for (a ∷ rows) s)) e

process-same :
    (ctx : Context) (provider other : List Transfer → Reply) (force : Bool) (k : ℕ) (s : Store)
    (b : PayoutBatch)
    → s.batches k ≡ some b
    → claimable ctx force b ≡ true
    → other (map to_transfer (open_rows k s)) ≡ provider (map to_transfer (open_rows k s))
    → process_aggregated_batch ctx other force k s ≡ process_aggregated_batch ctx provider force k s
unfolding process_aggregated_batch
process-same ctx provider other force k s b found can e =
    let same =
      process_rows-same ctx provider other (claim b) (open_rows k s) (save_batch ctx (claim b) s)
        e in
    rw (found, process_aggregated_batch, can, same) refl

-- A run over a batch that can be claimed asks the provider for the transfer of each of its batched
-- payouts, in the order of the payouts, and for nothing else; afterwards none of its payouts is
-- batched, whatever the provider answered. The outcome depends on the provider only through its answer
-- to the list of these transfers. It is assumed that no transfer was asked for twice before, and none
-- for a batched payout.
pub run_asks_for_all :
    (ctx : Context) (provider : List Transfer → Reply) (force : Bool) (k : ℕ) (s : Store)
    (b : PayoutBatch)
    → s.batches k ≡ some b
    → claimable ctx force b ≡ true
    → IsAsked s
    → Drained k
        (ids_of (open_rows k s) ++ s.requested)
        (process_aggregated_batch ctx provider force k s).1
      × ((other : List Transfer → Reply)
          → other (map to_transfer (open_rows k s)) ≡ provider (map to_transfer (open_rows k s))
          → process_aggregated_batch ctx other force k s
            ≡ process_aggregated_batch ctx provider force k s)
unfolding process_aggregated_batch
run_asks_for_all ctx provider force k s b found can h = (
  rw (found, process_aggregated_batch, can)
      (process_rows-Drained ctx provider (claim b) k (open_rows k s) (save_batch ctx (claim b) s)
        refl h),
  λ other e. process-same ctx provider other force k s b found can e,
)
