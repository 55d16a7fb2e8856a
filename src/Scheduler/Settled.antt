-- ===== src/Scheduler/Settled.antt =====
-- order-scheduler.service.ts: no job is left pending by the sweep that was to run it.
use meal_delivery.Prelude.{
  ℕ, ◌≡◌, refl, sym, ◌∙◌, inl, inr, false, Option, none, some, List, [], ◌∷◌, arith, All,
  Option-cases,
}
use meal_delivery.Entities.{ScheduledJob}
use meal_delivery.World.{Env, World, Db, Result}
use meal_delivery.Fulfilment.{cancel_order}
use meal_delivery.Scheduler.{is_pending, process_cancellation_job, process_jobs}
use meal_delivery.Scheduler.Sweep.{process_jobs_cons}

abbrev IsJobKeyed : ℕ → Option ScheduledJob → Type 0
IsJobKeyed k none = Unit
IsJobKeyed k (some j) = j.order_id ≡ k

-- Each job is found under the id of its order.
abbrev pub JobsKeyed : Db → Type 0
JobsKeyed db = (k : ℕ) → IsJobKeyed k (db.jobs k)

-- What is there in the place of a job is another one, or is not pending.
abbrev pub IsSettled : ScheduledJob → Option ScheduledJob → Type 0
IsSettled job none = Unit
IsSettled job (some j) = j.id ≡ job.id → is_pending j.status ≡ false

job_keeps_jobs :
    (env : Env) (job : ScheduledJob) (w : World)
    → JobsKeyed w.db
    → JobsKeyed (process_cancellation_job env job w).1.db
unfolding process_cancellation_job cancel_order
job_keeps_jobs env job w keyed k = elim (Option-cases (w.db.jobs job.order_id)) [
  | inl e ↦ ground (arith, keyed k)
  | inr (j, e) ↦ ground (arith, keyed k, keyed job.order_id)
]

job-IsSettled :
    (env : Env) (job : ScheduledJob) (w : World)
    → JobsKeyed w.db
    → IsSettled job ((process_cancellation_job env job w).1.db.jobs job.order_id)
unfolding process_cancellation_job cancel_order is_pending
job-IsSettled env job w keyed = elim (Option-cases (w.db.jobs job.order_id)) [
  | inl e ↦ ground arith
  | inr (j, e) ↦ ground (arith, keyed job.order_id)
]

job_keeps_IsSettled :
    (env : Env) (job q : ScheduledJob) (w : World)
    → JobsKeyed w.db
    → IsSettled q (w.db.jobs q.order_id)
    → IsSettled q ((process_cancellation_job env job w).1.db.jobs q.order_id)
unfolding process_cancellation_job cancel_order is_pending
job_keeps_IsSettled env job q w keyed h = elim (Option-cases (w.db.jobs job.order_id)) [
  | inl e ↦ ground arith
  | inr (j, e) ↦ ground (arith, keyed job.order_id)
]

jobs_keep-IsSettled :
    (env : Env) (jobs : List ScheduledJob) (q : ScheduledJob) (w : World)
    → JobsKeyed w.db
    → IsSettled q (w.db.jobs q.order_id)
    → IsSettled q ((process_jobs env jobs w).1.db.jobs q.order_id)
unfolding process_jobs
jobs_keep-IsSettled env [] q w keyed h = h
jobs_keep-IsSettled env (job ∷ jobs) q w keyed h =
    let w1 : World = (process_cancellation_job env job w).1 in
    let rest =
      jobs_keep-IsSettled env jobs q w1 (job_keeps_jobs env job w keyed)
        (job_keeps_IsSettled env job q w keyed h) in
    rw (process_jobs_cons env job jobs w) rest

process_jobs_lem :
    (env : Env) (jobs : List ScheduledJob) (w : World) (v : Result (Unit {0}) × World)
    → JobsKeyed w.db
    → process_jobs env jobs w ≡ v
    → All (λ job. IsSettled job (v.1.db.jobs job.order_id)) jobs
process_jobs_lem env [] w v keyed h = tt
process_jobs_lem env (job ∷ jobs) w v keyed h =
    let w1 : World = (process_cancellation_job env job w).1 in
    let keyed1 = job_keeps_jobs env job w keyed in
    let rest = sym (process_jobs_cons env job jobs w) ∙ h in
    let here = jobs_keep-IsSettled env jobs job w1 keyed1 (job-IsSettled env job w keyed) in
    (rw rest at here, process_jobs_lem env jobs w1 v keyed1 rest)

-- Where each job is found under the id of its order: when a sweep has run its jobs, whatever became
-- of each, none of them is still pending.
pub sweep_settles :
    (env : Env) (jobs : List ScheduledJob) (w : World)
    → JobsKeyed w.db
    → All (λ job. IsSettled job ((process_jobs env jobs w).1.db.jobs job.order_id)) jobs
sweep_settles env jobs w keyed = process_jobs_lem env jobs w (process_jobs env jobs w) keyed refl
