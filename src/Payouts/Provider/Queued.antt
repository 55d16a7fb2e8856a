-- ===== src/Payouts/Provider/Queued.antt =====
-- chapa.service.ts: what becomes of transfers that the provider only queues.
use meal_delivery.Prelude.{
  ℕ, ◌⊎◌, ◌≡◌, refl, inl, inr, Bool, true, false, Option, none, some, List, [], ◌∷◌, map, All,
  All-map, All-update_where, ◌==◌, ==_iff, or_else, arith, if◌then◌else◌, member, update_where,
  Bool-cases,
}
use meal_delivery.Payments.{to_lower}
use meal_delivery.Payouts.{
  AggregatedPayout, AggregateStatus, Store, Context, PayoutBatch, Notice, ChildStatus, can_mark,
  announce, save_batch, is_one_of,
}
use meal_delivery.Payouts.Asked.{asked_for}
use meal_delivery.Payouts.Process.{
  Transfer, TransferResult, reconcile, settle, pass_on, result_of, says_success, fail, to_transfer,
  ids_of, after_reply, process_rows, process_aggregated_batch, claimable, claim, open_rows,
}
use meal_delivery.Payouts.Provider.{
  Answer, raw_items, queued, placeholder, normalize, bulk_transfer, first_answer_counts,
}

-- The row with this id, if there is one, has failed.
abbrev pub FailedAt : ℕ → Store → Type 0
FailedAt k s = All (λ a. (a.id == k) ≡ true → a.status ≡ AggregateStatus.failed) s.aggregates

announce-FailedAt :
    (ctx : Context) (n : Notice) (k : ℕ) (s : Store) → FailedAt k s → FailedAt k (announce ctx n s)
announce-FailedAt ctx n k s h = elim (Bool-cases (ctx.accepts n)) [
  | inl e ↦ rw e h
  | inr e ↦ rw e h
]

-- A result that is no success fails its row, and leaves those failed that are.
abbrev IsRejected : Option TransferResult → Type 0
IsRejected none = ⊥
IsRejected (some r) = says_success r.status ≡ false

fails_here :
    (k : ℕ) (rows : List AggregatedPayout)
    → All
        (λ a. (a.id == k) ≡ true → a.status ≡ AggregateStatus.failed)
        (update_where (λ x. x.id == k) fail rows)
unfolding update_where
fails_here k [] = tt
fails_here k (a ∷ rows) = (λ e. ground arith, fails_here k rows)

pub marks : (ctx : Context) (ids : List ℕ) → ctx.updates_children ≡ true → can_mark ctx ids ≡ true
marks ctx [] up = refl
marks ctx (k ∷ ks) up = up

pass_on-FailedAt :
    (ctx : Context) (n : Notice) (ids : List ℕ) (st : ChildStatus) (k : ℕ) (s : Store)
    → FailedAt k s
    → FailedAt k (pass_on ctx n ids st s).1
pass_on-FailedAt ctx n ids st k s h = elim (Bool-cases (can_mark ctx ids)) [
  | inl e ↦ rw e (announce-FailedAt ctx n k _ h)
  | inr e ↦ rw e h
]

-- Where the database updates children, the loop goes on.
settle_goes_on :
    (ctx : Context) (a : AggregatedPayout) (r : Option TransferResult) (s : Store)
    → ctx.updates_children ≡ true
    → (settle ctx a r s).0 ≡ true
unfolding settle
settle_goes_on ctx a none s up = refl
settle_goes_on ctx a (some r) s up = elim (Bool-cases (says_success r.status)) [
  | inl e ↦ rw (e, marks ctx a.child_ids up) refl
  | inr e ↦ rw (e, marks ctx a.child_ids up) refl
]

pub reconcile_goes_on :
    (ctx : Context) (rows : List AggregatedPayout) (results : List TransferResult) (s : Store)
    → ctx.updates_children ≡ true
    → (reconcile ctx rows results s).0 ≡ true
unfolding reconcile
reconcile_goes_on ctx [] results s up = refl
reconcile_goes_on ctx (a ∷ rows) results s up =
    rw (settle_goes_on ctx a (result_of a.id results) s up)
      (reconcile_goes_on ctx rows results _ up)

settle_fails :
    (ctx : Context) (k : ℕ) (a : AggregatedPayout) (r : Option TransferResult) (s : Store)
    → IsRejected r
    → FailedAt k s ⊎ (a.id ≡ k)
    → FailedAt k (settle ctx a r s).1
unfolding settle
settle_fails ctx k a none s bad h = elim bad [ ]
settle_fails ctx k a (some r) s bad (inl h) = rw bad (
    pass_on-FailedAt ctx _ a.child_ids ChildStatus.failed k _ (
      All-update_where (λ x. (x.id == k) ≡ true → x.status ≡ AggregateStatus.failed)
        (λ x. x.id == a.id) fail s.aggregates (λ x w e. refl) h))
settle_fails ctx k a (some r) s bad (inr same) =
    rw (bad, same)
      (pass_on-FailedAt ctx _ a.child_ids ChildStatus.failed k _ (fails_here k s.aggregates))

reconcile_fails :
    (ctx : Context) (k : ℕ) (rows : List AggregatedPayout) (results : List TransferResult)
    (s : Store)
    → All (λ a. IsRejected (result_of a.id results)) rows
    → ctx.updates_children ≡ true
    → (FailedAt k s ⊎ (member k (ids_of rows) ≡ true))
    → FailedAt k (reconcile ctx rows results s).1
unfolding reconcile member
reconcile_fails ctx k [] results s bad up (inl h) = h
reconcile_fails ctx k [] results s bad up (inr e) = ground arith
reconcile_fails ctx k (a ∷ rows) results s bad up (inl h) =
    rw (settle_goes_on ctx a (result_of a.id results) s up) (
      reconcile_fails ctx k rows results _ bad.1 up
        (inl (settle_fails ctx k a (result_of a.id results) s bad.0 (inl h))))
reconcile_fails ctx k (a ∷ rows) results s bad up (inr e) =
    let on = settle_goes_on ctx a (result_of a.id results) s up in
    elim (Bool-cases (a.id == k)) [
      | inl c ↦
          let here = inr ((==_iff a.id k).0 c) in
          rw on (
            reconcile_fails ctx k rows results _ bad.1 up
              (inl (settle_fails ctx k a (result_of a.id results) s bad.0 here)))
      | inr c ↦ rw on (reconcile_fails ctx k rows results _ bad.1 up (inr (ground (arith, e, c))))
    ]

-- A queued transfer has not succeeded.
queued_word : says_success queued ≡ false
unfolding says_success is_one_of to_lower
queued_word = refl

-- Placeholders lead to a rejected result or to none; the last of them may be found.
abbrev NoSuccess : Option TransferResult → Type 0
NoSuccess none = Unit
NoSuccess (some r) = says_success r.status ≡ false

later_first :
    (later last : Option TransferResult)
    → NoSuccess later
    → IsRejected later ⊎ IsRejected last
    → IsRejected (or_else later last)
later_first none last h (inr bad) = bad
later_first none last h (inl bad) = elim bad [ ]
later_first (some r) last h bad = h

or_else-NoSuccess :
    (x y : Option TransferResult) → NoSuccess x → NoSuccess y → NoSuccess (or_else x y)
or_else-NoSuccess none y hx hy = hy
or_else-NoSuccess (some r) y hx hy = hx

one_placeholder :
    (b : Bool) (a : AggregatedPayout)
    → NoSuccess (if b then some (placeholder (to_transfer a)) else none)
one_placeholder true a = queued_word
one_placeholder false a = tt

placeholders-NoSuccess :
    (k : ℕ) (rows : List AggregatedPayout)
    → NoSuccess (result_of k (map placeholder (map to_transfer rows)))
unfolding result_of
placeholders-NoSuccess k [] = tt
placeholders-NoSuccess k (a ∷ rows) =
    or_else-NoSuccess (result_of k (map placeholder (map to_transfer rows)))
      (if a.id == k then some (placeholder (to_transfer a)) else none)
      (placeholders-NoSuccess k rows) (one_placeholder (a.id == k) a)

placeholder_found :
    (k : ℕ) (rows : List AggregatedPayout)
    → member k (ids_of rows) ≡ true
    → IsRejected (result_of k (map placeholder (map to_transfer rows)))
unfolding result_of member
placeholder_found k [] here = ground arith
placeholder_found k (a ∷ rows) here = elim (Bool-cases (a.id == k)) [
  | inl c ↦ later_first _ _ (placeholders-NoSuccess k rows) (inr (rw c queued_word))
  | inr c ↦
      later_first _ _ (placeholders-NoSuccess k rows)
        (inl (placeholder_found k rows (ground (arith, here, c))))
]

rows_found :
    (all rows : List AggregatedPayout)
    → All (λ a. member a.id (ids_of all) ≡ true) rows
    → All (λ a. IsRejected (result_of a.id (map placeholder (map to_transfer all)))) rows
rows_found all rows h =
    All-map (λ a. member a.id (ids_of all) ≡ true) _ rows
      (λ a here. placeholder_found a.id all here) h

own_ids : (rows : List AggregatedPayout) → All (λ a. member a.id (ids_of rows) ≡ true) rows
unfolding member
own_ids [] = tt
own_ids (a ∷ rows) = (
  ground arith,
  All-map (λ x. member x.id (ids_of rows) ≡ true) _ rows (λ x h. ground (arith, h)) (own_ids rows),
)

rows_fail :
    (ctx : Context) (post : ℕ → List Transfer → Option Answer) (answer : Answer) (b : PayoutBatch)
    (rows : List AggregatedPayout) (k : ℕ) (s : Store)
    → ((ts : List Transfer) → post 0 ts ≡ some answer)
    → raw_items answer ≡ none
    → ctx.updates_children ≡ true
    → member k (ids_of rows) ≡ true
    → FailedAt k (process_rows ctx (bulk_transfer post) b rows s).1
unfolding process_rows after_reply member
rows_fail ctx post answer b [] k s answers unlisted up sent = ground arith
rows_fail ctx post answer b (a ∷ rows) k s answers unlisted up sent =
    let ts = map to_transfer (a ∷ rows) in
    let reply : bulk_transfer post ts ≡ normalize ts answer =
      rw (first_answer_counts post ts, answers ts) refl in
    let s1 : Store = asked_for (a ∷ rows) s in
    rw
      (
        process_rows,
        reply,
        after_reply,
        unlisted,
        reconcile_goes_on ctx (a ∷ rows) (map placeholder ts) s1 up,
      )
      (announce-FailedAt ctx _ k _ (
        reconcile_fails ctx k (a ∷ rows) (map placeholder ts) s1
          (rows_found (a ∷ rows) (a ∷ rows) (own_ids (a ∷ rows))) up (inr sent)))

-- If the provider takes the transfers but its answer lists none of them, as when they are only
-- queued, a run over a batch that can be claimed marks each payout that it sent as failed, where the
-- database carries out the update of the children.
pub queued_transfers_fail :
    (ctx : Context) (post : ℕ → List Transfer → Option Answer) (answer : Answer) (force : Bool)
    (k j : ℕ) (s : Store) (b : PayoutBatch)
    → s.batches k ≡ some b
    → claimable ctx force b ≡ true
    → ((ts : List Transfer) → post 0 ts ≡ some answer)
    → raw_items answer ≡ none
    → ctx.updates_children ≡ true
    → member j (ids_of (open_rows k s)) ≡ true
    → FailedAt j (process_aggregated_batch ctx (bulk_transfer post) force k s).1
unfolding process_aggregated_batch
queued_transfers_fail ctx post answer force k j s b found can answers unlisted up sent =
    rw (found, process_aggregated_batch, can)
      (rows_fail ctx post answer (claim b) (open_rows k s) j (save_batch ctx (claim b) s) answers
        unlisted up sent)
