-- ===== src/Payouts/Asked.antt =====
-- payment.service.ts: which transfers have been asked of the provider.
use meal_delivery.Prelude.{
  ℕ, ◌+◌, ◌<◌, ◌≡◌, refl, ap, inl, inr, Bool, true, false, List, [], ◌∷◌, ◌++◌, map, All, All-map,
  All-append, All-keys, All-update_where, arith, member, update_where, Distinct, Distinct-append,
  Distinct-keys, member-append, member-keys, not_member_above, map-update_where, update_where_cong,
  Option-cases,
}
use meal_delivery.Payouts.{AggregatedPayout, RestaurantSubaccount, Store, Context, is_batched}
use meal_delivery.Payouts.Create.{
  Opts, Row, payable, add_aggregate, add_rows, create_aggregated_batch, rows_of, with_batch,
}
use meal_delivery.Payouts.Process.{is_open, open_rows, ids_of, start, mark_started, to_transfer}

abbrev WaitsFor : List ℕ → AggregatedPayout → Type 0
WaitsFor requested a = is_batched a.status ≡ true → member a.id requested ≡ false

-- Payouts have distinct ids that were given out before; no transfer was asked for twice, and none for
-- a payout that is still batched.
pub record AskedOnce (rows : List AggregatedPayout) (next_id : ℕ) (requested : List ℕ)
    : Type 0 where
  pub ids : Distinct (map (λ a. a.id) rows)
  pub old : All (λ a. a.id < next_id) rows
  pub once : Distinct requested
  pub known : All (λ k. k < next_id) requested
  pub waits : All (WaitsFor requested) rows

abbrev pub IsAsked : Store → Type 0
IsAsked s = AskedOnce s.aggregates s.next_id s.requested

pub update-IsAsked :
    (p : AggregatedPayout → Bool) (f : AggregatedPayout → AggregatedPayout) (s : Store)
    → ((a : AggregatedPayout) → (f a).id ≡ a.id)
    → ((a : AggregatedPayout) → is_batched (f a).status ≡ false)
    → IsAsked s
    → IsAsked (record s { aggregates = update_where p f s.aggregates })
update-IsAsked p f s same done h = record {
  ids = rw (map-update_where (λ a. a.id) p f s.aggregates same) h.ids;
  old =
      All-update_where (λ a. a.id < s.next_id) p f s.aggregates (λ a below. ground (arith, same a))
        h.old;
  once = h.once;
  known = h.known;
  waits =
      All-update_where (WaitsFor s.requested) p f s.aggregates (λ a w e. ground (arith, done a))
        h.waits;
}

start-waits :
    (p : AggregatedPayout → Bool) (ids requested : List ℕ) (rows : List AggregatedPayout)
    → All (λ a. member a.id ids ≡ p a) rows
    → All (WaitsFor requested) rows
    → All (WaitsFor (ids ++ requested)) (update_where p start rows)
unfolding update_where is_batched
start-waits p ids requested [] keys h = tt
start-waits p ids requested (a ∷ rows) keys h = (
  λ e. ground (arith, keys.0, h.0, member-append a.id ids requested),
  start-waits p ids requested rows keys.1 h.1,
)

-- The rows are marked, and their transfers asked for.
abbrev pub asked_for : List AggregatedPayout → Store → Store
asked_for rows s =
    let s1 = mark_started (ids_of rows) s in
    record s1 { requested = map (λ t. t.payout_item_id) (map to_transfer rows) ++ s1.requested }

pub transfer_ids :
    (rows : List AggregatedPayout)
    → map (λ t. t.payout_item_id) (map to_transfer rows) ≡ ids_of rows
transfer_ids [] = refl
transfer_ids (a ∷ rows) = ap (λ ids. a.id ∷ ids) (transfer_ids rows)

pub start-IsAsked : (b : ℕ) (s : Store) → IsAsked s → IsAsked (asked_for (open_rows b s) s)
start-IsAsked b s h =
    let ids = ids_of (open_rows b s) in
    let keys = member-keys (λ a. a.id) (is_open b) s.aggregates h.ids in
    let opened = update_where_cong (λ a. member a.id ids) (is_open b) start s.aggregates keys in
    rw (transfer_ids (open_rows b s)) (record {
      ids =
          rw (map-update_where (λ a. a.id) (λ a. member a.id ids) start s.aggregates (λ a. refl))
            h.ids;
      old =
          All-update_where (λ a. a.id < s.next_id) (λ a. member a.id ids) start s.aggregates
            (λ a below. below) h.old;
      once =
          Distinct-append ids s.requested (Distinct-keys (λ a. a.id) (is_open b) s.aggregates h.ids)
            h.once
            (All-keys (λ k. member k s.requested ≡ false) (λ a. a.id) (is_open b) s.aggregates
              (All-map (WaitsFor s.requested) _ s.aggregates (λ a w e. w (ground arith)) h.waits));
      known =
          All-append (λ k. k < s.next_id) ids s.requested
            (All-keys (λ k. k < s.next_id) (λ a. a.id) (is_open b) s.aggregates
              (All-map (λ a. a.id < s.next_id) _ s.aggregates (λ a below e. below) h.old))
            h.known;
      waits = rw opened (start-waits (is_open b) ids s.requested s.aggregates keys h.waits);
    })

below_next : (n : ℕ) (ns : List ℕ) → All (λ k. k < n) ns → All (λ k. k < n + 1) ns
below_next n ns h = All-map (λ k. k < n) (λ k. k < n + 1) ns (λ k below. omega arith) h

below_next_rows :
    (n : ℕ) (rows : List AggregatedPayout) → All (λ a. a.id < n) rows → All (λ a. a.id < n + 1) rows
below_next_rows n rows h =
    All-map (λ a. a.id < n) (λ a. a.id < n + 1) rows (λ a below. omega arith) h

not_yet :
    (n : ℕ) (rows : List AggregatedPayout)
    → All (λ a. a.id < n) rows
    → member n (ids_of rows) ≡ false
unfolding member
not_yet n [] h = refl
not_yet n (a ∷ rows) h = ground (arith, h.0, not_yet n rows h.1)

add_aggregate-IsAsked :
    (b : ℕ) (r : Row) (sub : RestaurantSubaccount) (s : Store)
    → IsAsked s
    → IsAsked (add_aggregate b r sub s)
add_aggregate-IsAsked b r sub s h = record {
  ids = (not_yet s.next_id s.aggregates h.old, h.ids);
  old = (omega arith, below_next_rows s.next_id s.aggregates h.old);
  once = h.once;
  known = below_next s.next_id s.requested h.known;
  waits = (λ e. not_member_above s.next_id s.requested h.known, h.waits);
}

add_rows-IsAsked :
    (opts : Opts) (b : ℕ) (rs : List Row) (total : ℕ) (s : Store)
    → IsAsked s
    → IsAsked (add_rows opts b rs total s).1
unfolding add_rows
add_rows-IsAsked opts b [] total s h = h
add_rows-IsAsked opts b (r ∷ rs) total s h = elim (Option-cases (payable opts s r)) [
  | inl e ↦ rw (e, add_rows) (add_rows-IsAsked opts b rs total s h)
  | inr (sub, e) ↦
      rw (e, add_rows)
        (add_rows-IsAsked opts b rs (total + r.total_amount) _ (add_aggregate-IsAsked b r sub s h))
]

-- Making a batch asks for nothing.
pub create-IsAsked :
    (ctx : Context) (opts : Opts) (s : Store)
    → IsAsked s
    → IsAsked (create_aggregated_batch ctx opts s).1
unfolding create_aggregated_batch
create-IsAsked ctx opts s h =
    let start_state : IsAsked (with_batch ctx s) = record {
      ids = h.ids;
      old = below_next_rows s.next_id s.aggregates h.old;
      once = h.once;
      known = below_next s.next_id s.requested h.known;
      waits = h.waits;
    } in
    let done =
      add_rows-IsAsked opts s.next_id (rows_of opts s.children) 0 (with_batch ctx s) start_state in
    record {
      ids = done.ids;
      old = done.old;
      once = done.once;
      known = done.known;
      waits = done.waits;
    }
