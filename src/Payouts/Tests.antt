-- ===== src/Payouts/Tests.antt =====
-- Concrete payouts: two orders of one restaurant and one of a restaurant without an account.
use meal_delivery.Prelude.{
  ℕ, ◌≡◌, ◌++◌, refl, true, false, Option, none, some, List, [], ◌∷◌, map, member, select, sum_of,
  Distinct, if◌then◌else◌, ◌==◌, update_where, arith, find_row, any, every,
}
use meal_delivery.Payments.{to_lower}
use meal_delivery.Payouts.{
  PayoutChild, ChildStatus, AggregatedPayout, AggregateStatus, PayoutBatch, BatchStatus,
  promo_platform_topup, RestaurantSubaccount, Store, Context, is_pending, is_batched, is_one_of,
  is_paid, is_failed, is_active,
}
use meal_delivery.Payouts.Create.{
  Opts, create_aggregated_batch, is_candidate, restaurants_of, payable, add_rows,
}
use meal_delivery.Payouts.Process.{
  Reply, refused, Transfer, process_aggregated_batch, claimable, open_rows, ids_of, process_rows,
  after_reply, close_idle, to_transfer,
}
use meal_delivery.Payouts.Transfers.{
  TransferNotice, apply_result, locate, verdict_of, carry_out, deliver, refresh_batch, sum_up,
  handle_transfer_results,
}
use meal_delivery.Payouts.Money.{IsSound}
use meal_delivery.Payouts.Asked.{IsAsked}
use meal_delivery.Payouts.Runs.{
  Call, create, process, hear, run, perform, commit_all, commitments, account_of, run_refines,
  never_asked_twice,
}
use meal_delivery.Payouts.Totals.{is_covered, batch_total}
use meal_delivery.Payouts.Batches.{Drained, run_asks_for_all}
use meal_delivery.Payouts.Retries.{status_of, refused_batch_completes_later}
use meal_delivery.Payouts.Provider.{Answer}

abbrev ctx : Context
ctx = record { now = 1000; stale_after = 60; accepts = λ n. true; updates_children = true }

abbrev everything : Opts
everything = record { older_than = none; restaurant_ids = []; min_total = none }

abbrev child : ℕ → ℕ → ℕ → PayoutChild
child id restaurant amount = record {
  id = id;
  order_id = some id;
  payment_id = some id;
  restaurant_id = restaurant;
  amount = amount;
  status = ChildStatus.pending;
  parent_aggregate_id = none;
  reason = some promo_platform_topup;
  created_at = 10;
}

abbrev account : RestaurantSubaccount
account = record {
  restaurant_id = 7;
  chapa_subaccount_id = b's' ∷ [];
  account_number = some (b'1' ∷ []);
  account_name = some (b'n' ∷ []);
  bank_code = some (b'2' ∷ []);
}

abbrev store : Store
store = record {
  children = child 1 7 500 ∷ child 2 8 200 ∷ child 3 7 300 ∷ [];
  aggregates = [];
  batches = λ k. none;
  subaccounts = λ r. if r == 7 then some account else none;
  next_id = 10;
  requested = [];
  sent = [];
}

store-IsSound : IsSound store.children
unfolding member
store-IsSound = record {
  distinct = (refl, (refl, (refl, tt)));
  waits = (λ e. refl, (λ e. refl, (λ e. refl, tt)));
}

store-IsAsked : IsAsked store
store-IsAsked = record { ids = tt; old = tt; once = tt; known = tt; waits = tt }

abbrev refuses : List Transfer → Reply
refuses ts = refused

abbrev paid_notice : TransferNotice
paid_notice = record {
  transfer_id = none;
  reference = some 11;
  payout_item_id = none;
  status = b'P' ∷ b'a' ∷ b'i' ∷ b'd' ∷ [];
}

abbrev calls : List Call
calls =
    create ctx everything
    ∷ process ctx refuses false 10
    ∷ process ctx refuses false 10
    ∷ hear ctx (paid_notice ∷ [])
    ∷ create ctx everything
    ∷ []

run_refines_example :
    commit_all (commitments calls store) (account_of store) ≡ some (account_of (run calls store))
run_refines_example = run_refines calls store store-IsSound

never_asked_twice_example : Distinct (run calls store).requested
never_asked_twice_example = never_asked_twice calls store store-IsAsked

-- The restaurant with an account is owed 800, and its payout is asked for once.
asked_once : (run calls store).requested ≡ 11 ∷ []
unfolding run perform create_aggregated_batch process_aggregated_batch process_rows
    handle_transfer_results restaurants_of is_candidate is_pending select sum_of payable add_rows
    claimable is_batched after_reply update_where member close_idle apply_result locate find_row
    deliver carry_out refresh_batch sum_up any every is_failed is_paid is_active is_one_of to_lower
    verdict_of
asked_once = refl

batch_total_example :
    (create_aggregated_batch ctx everything store).0.total_amount
    ≡ sum_of (λ c. c.amount) (select (is_covered everything store) store.children)
batch_total_example = batch_total ctx everything store

abbrev batch : PayoutBatch
batch = record {
  id = 10;
  status = BatchStatus.created;
  total_amount = 800;
  provider_batch_id = none;
  attempt_count = 0;
  processed_at = none;
  updated_at = 900;
}

abbrev payout : AggregatedPayout
payout = record {
  id = 11;
  payout_batch_id = some 10;
  restaurant_id = 7;
  amount = 800;
  account_number = some (b'1' ∷ []);
  account_name = some (b'n' ∷ []);
  bank_code = some (b'2' ∷ []);
  provider_transfer_id = none;
  status = AggregateStatus.batched;
  attempt_count = 0;
  child_ids = 1 ∷ 3 ∷ [];
}

abbrev batched : Store
batched = record store {
  aggregates = payout ∷ [];
  batches = λ k. if 10 == k then some batch else none;
  next_id = 12;
}

batched-IsAsked : IsAsked batched
unfolding member
batched-IsAsked = record {
  ids = (refl, tt);
  old = (omega arith, tt);
  once = tt;
  known = tt;
  waits = (λ e. refl, tt);
}

can_be_claimed : claimable ctx false batch ≡ true
unfolding claimable
can_be_claimed = refl

one_open : open_rows 10 batched ≡ payout ∷ []
unfolding select is_batched
one_open = refl

run_asks_for_all_example :
    Drained 10
      (ids_of (open_rows 10 batched) ++ [])
      (process_aggregated_batch ctx refuses false 10 batched).1
    × ((other : List Transfer → Reply)
        → other (map to_transfer (open_rows 10 batched)) ≡ refused
        → process_aggregated_batch ctx other false 10 batched
          ≡ process_aggregated_batch ctx refuses false 10 batched)
run_asks_for_all_example =
    run_asks_for_all ctx refuses false 10 batched batch refl can_be_claimed batched-IsAsked

refused_batch_completes_later_example :
    let (r1, s1) = process_aggregated_batch ctx refuses false 10 batched in
    let (r2, s2) = process_aggregated_batch ctx refuses false 10 s1 in
    (status_of r1 ≡ some BatchStatus.failed)
    × (s1.children ≡ batched.children)
    × (status_of r2 ≡ some BatchStatus.completed)
    × (s2.requested ≡ s1.requested)
    × (s2.aggregates ≡ s1.aggregates)
    × (s2.children ≡ s1.children)
refused_batch_completes_later_example =
    refused_batch_completes_later ctx ctx refuses refuses false false 10 batched batch payout []
      batched-IsAsked refl refl can_be_claimed one_open (λ ts. refl)

located : locate paid_notice batched ≡ some payout
unfolding locate find_row
located = refl

abbrev acknowledged : Answer
acknowledged = record {
  data_id = none;
  data_bulk_transfer_id = none;
  id = some (b'i' ∷ []);
  bulk_transfer_id = none;
  reference = none;
  data_bulk_data = none;
  data_items = none;
  data_transfers = none;
  items = none;
  bulk_data = none;
  transfers = none;
}

abbrev acknowledges : ℕ → List Transfer → Option Answer
acknowledges n ts = some acknowledged

sent_out : member 11 (ids_of (open_rows 10 batched)) ≡ true
unfolding member select is_batched
sent_out = refl
