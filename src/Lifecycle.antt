-- ===== src/Lifecycle.antt =====
-- order.service.ts and order-scheduler.service.ts: runs of the calls, payment messages and sweeps that
-- change the status of an order.
mod Tests
use meal_delivery.Prelude.{
  ℕ, ◌≡◌, refl, ap, ◌∙◌, ◌⊎◌, inl, inr, Bool, true, false, ◌&&◌, ◌||◌, Option, none, some, List, [],
  ◌∷◌, Text, arith, ◌==◌, Option-cases, Bool-cases, All,
}
use meal_delivery.Entities.{Order, OrderStatus, PaymentStatus, ScheduledJob}
use meal_delivery.World.{Env, World, Db, Exec}
use meal_delivery.Pickup.{Tokens}
use meal_delivery.Fulfilment.{is_paid, has_status, is_cancellable, cancel_order, set_status}
use meal_delivery.Fulfilment.Edges.{
  IsKeyed, OrdersKeyed, Moves, Call, respond, prepare, finish, complete, cancel, come, perform,
  starts, ends, calls_follow_the_lifecycle,
}
use meal_delivery.Payments.{
  PaymentReport, Initiated, handle_payment_result, handle_payment_initiated, find_by_id, is_success,
  confirm, refuse,
}
use meal_delivery.Payments.Results.{success_pays, other_report_declines}
use meal_delivery.Scheduler.{process_cancellation_job}

-- The statuses of an order that the restaurant is working on, or has worked on.
pub in_work : OrderStatus → Bool
in_work OrderStatus.paid = true
in_work OrderStatus.preparing = true
in_work OrderStatus.ready = true
in_work OrderStatus.completed = true
in_work _ = false

abbrev pub is_initiated : PaymentStatus → Bool
is_initiated PaymentStatus.initiated = true
is_initiated _ = false

-- Paid or, where messages of new checkouts are let in (`again`), under way again.
pub is_backed : Bool → PaymentStatus → Bool
is_backed again s = is_paid s || (again && is_initiated s)

abbrev pub IsSoundAt : Bool → ℕ → Option Order → Type 0
IsSoundAt again k none = Unit
IsSoundAt again k (some o) =
    (o.id ≡ k) × (in_work o.status ≡ true → is_backed again o.payment_status ≡ true)

-- Each order is found under its own id, and is worked on only if its payment backs it.
abbrev pub IsSound : Bool → Db → Type 0
IsSound again db = (k : ℕ) → IsSoundAt again k (db.orders k)

-- What the query with no condition finds.
abbrev pub Any : Type 0
Any = (ℕ → Option Order) → Option Order

-- A query finds a row of the table.
abbrev pub FindsRows : Any → Type 0
FindsRows any =
    (orders : ℕ → Option Order) (o : Order) → any orders ≡ some o → (k : ℕ) × (orders k ≡ some o)

pub data Step : Type 0 where
  call : Env → Call → ℕ → ℕ → Step
  report : Env → Text → PaymentReport → Step
  begin : Env → Initiated → Step
  sweep : Env → ScheduledJob → Step

abbrev pub is_allowed : Bool → Step → Bool
is_allowed again (call env c actor order_id) = true
is_allowed again (report env code p) = true
is_allowed again (begin env p) = again
is_allowed again (sweep env job) = true

pub take_step : Tokens → Any → Step → World → World
take_step tokens any (call env c actor order_id) w = (perform env c actor order_id w).1
take_step tokens any (report env code p) w = (handle_payment_result tokens env code p w).1
take_step tokens any (begin env p) w = (handle_payment_initiated env any p w).1
take_step tokens any (sweep env job) w = (process_cancellation_job env job w).1

pub run : Tokens → Any → List Step → World → World
unfolding take_step
run tokens any [] w = w
run tokens any (s ∷ steps) w = run tokens any steps (take_step tokens any s w)

-- A call ends in work only if it started there.
work_began_before :
    (c : Call) (s : OrderStatus) → starts c s ≡ true → in_work (ends c) ≡ true → in_work s ≡ true
unfolding starts ends in_work has_status
work_began_before (respond true) s h k = ground arith
work_began_before (respond false) s h k = ground arith
work_began_before prepare s h k = ground arith
work_began_before finish s h k = ground arith
work_began_before complete s h k = ground arith
work_began_before cancel s h k = ground arith
work_began_before come s h k = ground arith

moved-IsSoundAt :
    (again : Bool) (c : Call) (k : ℕ) (p q : Option Order)
    → Moves (starts c) (ends c) p q
    → IsSoundAt again k p
    → IsSoundAt again k q
moved-IsSoundAt again c k none q m sound = ground arith
moved-IsSoundAt again c k (some o) q m sound = ground (arith, work_began_before c o.status)

no_order_no_report :
    (tokens : Tokens) (env : Env) (code : Text) (p : PaymentReport) (w : World)
    → w.db.orders p.order_id ≡ none
    → (handle_payment_result tokens env code p w).1 ≡ w
unfolding handle_payment_result
no_order_no_report tokens env code p w h = ground arith

report-IsSound :
    (again : Bool) (tokens : Tokens) (env : Env) (code : Text) (p : PaymentReport) (w : World)
    → IsSound again w.db
    → IsSound again (handle_payment_result tokens env code p w).1.db
unfolding in_work is_paid is_backed
report-IsSound again tokens env code p w sound k = elim (Option-cases (w.db.orders p.order_id)) [
  | inl e ↦ ground (arith, sound k, no_order_no_report tokens env code p w e)
  | inr (o, e) ↦
      let own : o.id ≡ p.order_id = ground (arith, sound p.order_id) in
      elim (Bool-cases (is_success p)) [
        | inl good ↦
            let (paid, status, payment, jobs, pickup, rest) =
              success_pays tokens env code p w o e own good in
            ground (arith, sound k, paid, rest k)
        | inr bad ↦
            let (failed, status, payment, jobs, rest) =
              other_report_declines tokens env code p w o e own bad in
            ground (arith, sound k, failed, rest k)
      ]
]

sound-IsKeyed : (again : Bool) (k : ℕ) (p : Option Order) → IsSoundAt again k p → IsKeyed k p
sound-IsKeyed again k none h = tt
sound-IsKeyed again k (some o) h = h.0

IsSound-OrdersKeyed : (again : Bool) (w : World) → IsSound again w.db → OrdersKeyed w.db
IsSound-OrdersKeyed again w sound k = sound-IsKeyed again k (w.db.orders k) (sound k)

-- What the handler finds for a message, it finds in the table.
found_row :
    (any : Any) (p : Initiated) (w : World)
    → FindsRows any
    → (o : Order) → find_by_id any w.db.orders p.order_id ≡ some o
    → (k : ℕ) × (w.db.orders k ≡ some o)
found_row any p w finds o h = elim (Option-cases p.order_id) [
  | inl e ↦ finds w.db.orders o (ground (arith, e))
  | inr (k, e) ↦ (k, ground (arith, e))
]

begin-IsSound :
    (env : Env) (any : Any) (p : Initiated) (w : World)
    → FindsRows any
    → IsSound true w.db
    → IsSound true (handle_payment_initiated env any p w).1.db
unfolding handle_payment_initiated is_backed
begin-IsSound env any p w finds sound k =
    elim (Option-cases (find_by_id any w.db.orders p.order_id)) [
      | inl e ↦ ground (arith, sound k, e)
      | inr (o, e) ↦
          let (j, here) = found_row any p w finds o e in ground (arith, sound k, sound j, e, here)
    ]

sweep-IsSound :
    (again : Bool) (env : Env) (job : ScheduledJob) (w : World)
    → IsSound again w.db
    → IsSound again (process_cancellation_job env job w).1.db
unfolding process_cancellation_job cancel_order in_work
sweep-IsSound again env job w sound k = elim (Option-cases (w.db.jobs job.order_id)) [
  | inl e ↦ ground (arith, sound k)
  | inr (j, e) ↦ ground (arith, sound k, sound j.order_id)
]

step-IsSound :
    (again : Bool) (tokens : Tokens) (any : Any) (s : Step) (w : World)
    → FindsRows any
    → is_allowed again s ≡ true
    → IsSound again w.db
    → IsSound again (take_step tokens any s w).db
unfolding take_step
step-IsSound again tokens any (call env c actor order_id) w finds can sound k =
    moved-IsSoundAt again c k (w.db.orders k) _
      (calls_follow_the_lifecycle env c actor order_id k w (IsSound-OrdersKeyed again w sound))
      (sound k)
step-IsSound again tokens any (report env code p) w finds can sound k =
    report-IsSound again tokens env code p w sound k
step-IsSound true tokens any (begin env p) w finds can sound k =
    begin-IsSound env any p w finds sound k
step-IsSound false tokens any (begin env p) w finds can sound k = ground arith
step-IsSound again tokens any (sweep env job) w finds can sound k =
    sweep-IsSound again env job w sound k

-- Runs of calls by owners and customers, reports of payments, messages of new checkouts and sweeps,
-- in any order. Without messages of new checkouts (`again` is false): if at first each order is found
-- under its own id and is worked on only if it is paid, then so it is after the run. With them: if at
-- first the payment of an order that is worked on is paid or initiated, then so it is after the run,
-- if what the query of a message with no order id finds is a row of the table.
pub only_paid_orders_are_worked_on :
    (again : Bool) (tokens : Tokens) (any : Any) (steps : List Step) (w : World)
    → FindsRows any
    → All (λ s. is_allowed again s ≡ true) steps
    → IsSound again w.db
    → IsSound again (run tokens any steps w).db
unfolding run
only_paid_orders_are_worked_on again tokens any [] w finds can sound = sound
only_paid_orders_are_worked_on again tokens any (s ∷ steps) w finds can sound =
    only_paid_orders_are_worked_on again tokens any steps (take_step tokens any s w) finds can.1
      (step-IsSound again tokens any s w finds can.0 sound)
