-- ===== src/Payouts/Create.antt =====
-- payment.service.ts: `createAggregatedBatch`. What is pending for a restaurant becomes one payout. The
-- groups of the query come in the order of their first child; the diagnostics are left out.
use meal_delivery.Prelude.{
  ℕ, ◌+◌, Bool, true, false, not, ◌&&◌, Option, none, some, List, [], ◌∷◌, Text, leb, ◌==◌, map,
  member, select, update_where, sum_of, if◌then◌else◌,
}
use meal_delivery.Payouts.{
  PayoutChild, ChildStatus, AggregatedPayout, AggregateStatus, PayoutBatch, BatchStatus,
  RestaurantSubaccount, Reason, promo_platform_topup, Store, Context, is_pending, save_batch,
}

pub record Opts : Type 0 where
  pub older_than : Option ℕ
  pub restaurant_ids : List ℕ
  pub min_total : Option ℕ

abbrev pub is_topup : Option Reason → Bool
is_topup (some promo_platform_topup) = true
is_topup _ = false

abbrev old_enough : Option ℕ → ℕ → Bool
old_enough none t = true
old_enough (some limit) t = leb t limit

-- An empty list of restaurants stands for all.
abbrev chosen : List ℕ → ℕ → Bool
chosen [] r = true
chosen (k ∷ ks) r = member r (k ∷ ks)

unfoldable pub is_candidate : Opts → PayoutChild → Bool
is_candidate opts c =
    (is_pending c.status && is_topup c.reason)
    && (old_enough opts.older_than c.created_at && chosen opts.restaurant_ids c.restaurant_id)

pub record Row : Type 0 where
  pub restaurant_id : ℕ
  pub child_ids : List ℕ
  pub total_amount : ℕ

abbrev pub owed_to : Opts → ℕ → PayoutChild → Bool
owed_to opts r c = is_candidate opts c && (c.restaurant_id == r)

-- One group of the query.
abbrev pub row_of : Opts → List PayoutChild → ℕ → Row
row_of opts cs r =
    let group = select (owed_to opts r) cs in
    record {
      restaurant_id = r;
      child_ids = map (λ c. c.id) group;
      total_amount = sum_of (λ c. c.amount) group;
    }

-- `GROUP BY restaurant_id`: the restaurants of the candidates, each once.
unfoldable pub restaurants_of : Opts → List PayoutChild → List ℕ
restaurants_of opts [] = []
restaurants_of opts (c ∷ cs) =
    let rest = restaurants_of opts cs in
    if is_candidate opts c
    then c.restaurant_id ∷ select (λ r. not (r == c.restaurant_id)) rest
    else rest

abbrev filled : Option Text → Bool
filled (some (c ∷ s)) = true
filled _ = false

abbrev has_bank : RestaurantSubaccount → Bool
has_bank sub = filled sub.account_number && (filled sub.account_name && filled sub.bank_code)

abbrev enough : Option ℕ → ℕ → Bool
enough none t = true
enough (some m) t = leb m t

-- The account to pay to, unless the row is skipped.
unfoldable pub payable : Opts → Store → Row → Option RestaurantSubaccount
payable opts s r =
    if enough opts.min_total r.total_amount
    then elim (s.subaccounts r.restaurant_id) [
      | none ↦ none
      | some sub ↦ if has_bank sub then some sub else none
    ]
    else none

abbrev pub new_aggregate : ℕ → ℕ → Row → RestaurantSubaccount → AggregatedPayout
new_aggregate id b r sub = record {
  id = id;
  payout_batch_id = some b;
  restaurant_id = r.restaurant_id;
  amount = r.total_amount;
  account_number = sub.account_number;
  account_name = sub.account_name;
  bank_code = sub.bank_code;
  provider_transfer_id = none;
  status = AggregateStatus.batched;
  attempt_count = 0;
  child_ids = r.child_ids;
}

abbrev pub put_into : ℕ → PayoutChild → PayoutChild
put_into id c = record c { status = ChildStatus.batched; parent_aggregate_id = some id }

-- The aggregate is stored and its children are linked to it.
abbrev pub add_aggregate : ℕ → Row → RestaurantSubaccount → Store → Store
add_aggregate b r sub s = record s {
  aggregates = new_aggregate s.next_id b r sub ∷ s.aggregates;
  children = update_where (λ c. member c.id r.child_ids) (put_into s.next_id) s.children;
  next_id = s.next_id + 1;
}

-- The loop over the rows, with the total so far.
unfoldable pub add_rows : Opts → ℕ → List Row → ℕ → Store → ℕ × Store
add_rows opts b [] total s = (total, s)
add_rows opts b (r ∷ rs) total s = elim (payable opts s r) [
  | none ↦ add_rows opts b rs total s
  | some sub ↦ add_rows opts b rs (total + r.total_amount) (add_aggregate b r sub s)
]

abbrev pub new_batch : ℕ → ℕ → PayoutBatch
new_batch id now = record {
  id = id;
  status = BatchStatus.created;
  total_amount = 0;
  provider_batch_id = none;
  attempt_count = 0;
  processed_at = none;
  updated_at = now;
}

abbrev pub with_batch : Context → Store → Store
with_batch ctx s = record (save_batch ctx (new_batch s.next_id ctx.now) s) {
  next_id = s.next_id + 1;
}

abbrev pub rows_of : Opts → List PayoutChild → List Row
rows_of opts cs = map (row_of opts cs) (restaurants_of opts cs)

unfoldable pub create_aggregated_batch : Context → Opts → Store → PayoutBatch × Store
create_aggregated_batch ctx opts s =
    let (total, s1) = add_rows opts s.next_id (rows_of opts s.children) 0 (with_batch ctx s) in
    let batch = record (new_batch s.next_id ctx.now) { total_amount = total } in
    (batch, save_batch ctx batch s1)
