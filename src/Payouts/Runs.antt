-- ===== src/Payouts/Runs.antt =====
-- payment.service.ts: runs of the payouts, in any order of calls.
use meal_delivery.Prelude.{
  ℕ, ◌+◌, ◌-◌, ◌≡◌, refl, sym, Bool, true, Option, none, some, List, [], ◌∷◌, arith, leb, Distinct,
  if◌then◌else◌,
}
use meal_delivery.Payouts.{Store, Context}
use meal_delivery.Payouts.Create.{Opts, create_aggregated_batch}
use meal_delivery.Payouts.Process.{Reply, Transfer, process_aggregated_batch}
use meal_delivery.Payouts.Transfers.{TransferNotice, handle_transfer_results}
use meal_delivery.Payouts.Money.{owed, in_payouts, IsSound, batch_moves_money}
use meal_delivery.Payouts.Asked.{IsAsked, create-IsAsked}
use meal_delivery.Payouts.Kept.{process-Kept, results-Kept}

-- A call of the service: a batch is made, processed, or heard of.
pub data Call : Type 0 where
  create : Context → Opts → Call
  process : Context → (List Transfer → Reply) → Bool → ℕ → Call
  hear : Context → List TransferNotice → Call

unfoldable pub perform : Call → Store → Store
perform (create ctx opts) s = (create_aggregated_batch ctx opts s).1
perform (process ctx provider force id) s = (process_aggregated_batch ctx provider force id s).1
perform (hear ctx rs) s = handle_transfer_results ctx rs s

unfoldable pub run : List Call → Store → Store
run [] s = s
run (c ∷ cs) s = run cs (perform c s)

-- The abstract account: what is owed, and what has been put into payouts.
pub record Account : Type 0 where
  pub owed : ℕ
  pub in_payouts : ℕ

-- What is owed is committed, as far as there is so much.
unfoldable pub commit : ℕ → Account → Option Account
commit n a =
    if leb n a.owed
    then some (record { owed = a.owed - n; in_payouts = a.in_payouts + n })
    else none

unfoldable pub commit_all : List ℕ → Account → Option Account
commit_all [] a = some a
commit_all (n ∷ ns) a = elim (commit n a) [ none ↦ none | some b ↦ commit_all ns b ]

abbrev pub account_of : Store → Account
account_of s = record { owed = owed s; in_payouts = in_payouts s }

-- The totals of the batches that a run makes.
unfoldable pub commitments : List Call → Store → List ℕ
commitments [] s = []
commitments (create ctx opts ∷ cs) s =
    (create_aggregated_batch ctx opts s).0.total_amount
    ∷ commitments cs (perform (create ctx opts) s)
commitments (process ctx provider force id ∷ cs) s =
    commitments cs (perform (process ctx provider force id) s)
commitments (hear ctx rs ∷ cs) s = commitments cs (perform (hear ctx rs) s)

-- A commitment that fits is made.
commit_total :
    (n : ℕ) (s t : Store)
    → owed t + n ≡ owed s
    → in_payouts t ≡ in_payouts s + n
    → commit n (account_of s) ≡ some (account_of t)
unfolding commit
commit_total n s t left right =
    let left' : owed s - n ≡ owed t = omega (arith, left) in
    let fits : leb n (owed s) ≡ true = ground (arith, left) in rw (fits, left', right) refl

same_account :
    (s t : Store) → owed t ≡ owed s → in_payouts t ≡ in_payouts s → account_of t ≡ account_of s
same_account s t left right = rw (left, right) refl

-- If the children have distinct ids and those that are pending are in no payout, every run of calls
-- is a run of the abstract account: each batch commits its total out of what is owed, and no other
-- call changes the account.
pub run_refines :
    (cs : List Call) (s : Store)
    → IsSound s.children
    → commit_all (commitments cs s) (account_of s) ≡ some (account_of (run cs s))
unfolding commit_all commitments run perform
run_refines [] s sound = refl
run_refines (create ctx opts ∷ cs) s sound =
    let moved = batch_moves_money ctx opts s sound in
    let s' : Store = (create_aggregated_batch ctx opts s).1 in
    rw (commit_total _ s s' moved.1 moved.2, commit_all) (run_refines cs s' moved.0)
run_refines (process ctx provider force id ∷ cs) s sound =
    let kept = process-Kept ctx provider force id s in
    let s' : Store = (process_aggregated_batch ctx provider force id s).1 in
    rw (sym (same_account s s' kept.same_owed kept.same_payouts))
      (run_refines cs s' (kept.sound sound))
run_refines (hear ctx rs ∷ cs) s sound =
    let kept = results-Kept ctx rs s in
    let s' : Store = handle_transfer_results ctx rs s in
    rw (sym (same_account s s' kept.same_owed kept.same_payouts))
      (run_refines cs s' (kept.sound sound))

run-IsAsked : (cs : List Call) (s : Store) → IsAsked s → IsAsked (run cs s)
unfolding run perform
run-IsAsked [] s h = h
run-IsAsked (create ctx opts ∷ cs) s h = run-IsAsked cs _ (create-IsAsked ctx opts s h)
run-IsAsked (process ctx provider force id ∷ cs) s h =
    run-IsAsked cs _ ((process-Kept ctx provider force id s).asked h)
run-IsAsked (hear ctx rs ∷ cs) s h = run-IsAsked cs _ ((results-Kept ctx rs s).asked h)

-- From a state in which no transfer was asked for twice, and none for a batched payout, no run of
-- calls passes the same transfer to the provider's bulk transfer twice. That may try its request more
-- than once.
pub never_asked_twice : (cs : List Call) (s : Store) → IsAsked s → Distinct (run cs s).requested
never_asked_twice cs s h = (run-IsAsked cs s h).once
