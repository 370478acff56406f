-- ===== src/Queue/Pool.antt =====
-- The pool of workers: the account of every job, and the counter of running jobs.
use mathlib.Core.Option.{some-injective}
use rust_daily.Base.{
  true, false, err, ℕ, ◌+◌, ◌≡◌, refl, subst, arith, suc, zero, List, [], ◌∷◌, ◌++◌, some,
}
use rust_daily.Queue.Account.{
  tally, load, load-append, IsBalanced, runs, owes, Balanced-append, reason-Balanced,
  sends-Balanced, ends-Balanced, starts-Balanced, cancels-Balanced, outcome-Balanced,
}
use rust_daily.Queue.Worker.{
  Worker, receiving, selecting, awaiting_task, exited, Pool, PoolStep, steps, PoolRun, done,
  then_step, Effect, worker_step, spawn_tasks, spawn_workers, Event, queue_closed, received,
  outcome_received, task_returned, task_panicked, response_channel_closed, task_joined, or_failure,
}
use rust_daily.Queue.{before_start, cancellation_reason}

-- What a step of a worker comes to.
abbrev Accounts : ℕ → Worker → List Effect → Worker → Type 0
Accounts id w es w' = IsBalanced id es (runs id w) (owes id w) (runs id w') (owes id w')

by_eq :
    (id : ℕ) (w : Worker) (a b : Worker × List Effect)
    → some a ≡ some b
    → Accounts id w a.1 a.0
    → Accounts id w b.1 b.0
by_eq id w a b h p =
    subst (λ (x : Worker × List Effect). Accounts id w x.1 x.0) (some-injective a b h) p

nothing-Balanced : (id a b : ℕ) → IsBalanced id [] a b a b
unfolding tally
nothing-Balanced id a b = record {
  ended = omega arith;
  answered_once = omega arith;
  answered_or_cancelled = omega arith;
}

worker_step-Balanced :
    (id : ℕ) (w : Worker) (event : Event) (r : Worker × List Effect)
    → worker_step w event ≡ some r
    → Accounts id w r.1 r.0
unfolding worker_step
worker_step-Balanced id receiving queue_closed r h =
    by_eq id receiving _ r h (nothing-Balanced id 0 0)
worker_step-Balanced id receiving (received j true c) r h =
    by_eq id receiving _ r h (reason-Balanced id j.id 0 0 (cancellation_reason c before_start))
worker_step-Balanced id receiving (received j false c) r h =
    by_eq id receiving _ r h (starts-Balanced id j.id)
worker_step-Balanced id receiving (outcome_received o d c) r h = absurd (cc)
worker_step-Balanced id receiving (task_returned o d c) r h = absurd (cc)
worker_step-Balanced id receiving (task_panicked d c) r h = absurd (cc)
worker_step-Balanced id receiving (response_channel_closed c) r h = absurd (cc)
worker_step-Balanced id receiving task_joined r h = absurd (cc)
worker_step-Balanced id (selecting job) queue_closed r h = absurd (cc)
worker_step-Balanced id (selecting job) (received j true c) r h = absurd (cc)
worker_step-Balanced id (selecting job) (received j false c) r h = absurd (cc)
worker_step-Balanced id (selecting job) (outcome_received o d c) r h =
    by_eq id (selecting job) _ r h (outcome-Balanced id job.id (or_failure job.id o) d c)
worker_step-Balanced id (selecting job) (task_returned o d c) r h = by_eq id (selecting job) _ r h (
    Balanced-append id _ _ _ _ _ _ _ _ (sends-Balanced id job.id (or_failure job.id o) d c)
      (ends-Balanced id job.id))
worker_step-Balanced id (selecting job) (task_panicked d c) r h = by_eq id (selecting job) _ r h (
    Balanced-append id _ _ _ _ _ _ _ _
      (sends-Balanced id job.id (err (record { correlation_id = job.id })) d c)
      (ends-Balanced id job.id))
worker_step-Balanced id (selecting job) (response_channel_closed c) r h =
    by_eq id (selecting job) _ r h (cancels-Balanced id job.id c)
worker_step-Balanced id (selecting job) task_joined r h = absurd (cc)
worker_step-Balanced id (awaiting_task job) queue_closed r h = absurd (cc)
worker_step-Balanced id (awaiting_task job) (received j true c) r h = absurd (cc)
worker_step-Balanced id (awaiting_task job) (received j false c) r h = absurd (cc)
worker_step-Balanced id (awaiting_task job) (outcome_received o d c) r h = absurd (cc)
worker_step-Balanced id (awaiting_task job) (task_returned o d c) r h = absurd (cc)
worker_step-Balanced id (awaiting_task job) (task_panicked d c) r h = absurd (cc)
worker_step-Balanced id (awaiting_task job) (response_channel_closed c) r h = absurd (cc)
worker_step-Balanced id (awaiting_task job) task_joined r h =
    by_eq id (awaiting_task job) _ r h (ends-Balanced id job.id)
worker_step-Balanced id exited queue_closed r h = absurd (cc)
worker_step-Balanced id exited (received j true c) r h = absurd (cc)
worker_step-Balanced id exited (received j false c) r h = absurd (cc)
worker_step-Balanced id exited (outcome_received o d c) r h = absurd (cc)
worker_step-Balanced id exited (task_returned o d c) r h = absurd (cc)
worker_step-Balanced id exited (task_panicked d c) r h = absurd (cc)
worker_step-Balanced id exited (response_channel_closed c) r h = absurd (cc)
worker_step-Balanced id exited task_joined r h = absurd (cc)

-- Workers that rest do not disturb the account.
rest-Balanced :
    (id x y a b c d : ℕ) (es : List Effect)
    → IsBalanced id es a b c d
    → IsBalanced id es (x + a) (y + b) (x + c) (y + d)
rest-Balanced id x y a b c d es p = record {
  ended = omega (arith, p.ended);
  answered_once = omega (arith, p.answered_once);
  answered_or_cancelled = omega (arith, p.answered_or_cancelled);
}

pub load-middle :
    (g : Worker → ℕ) (before after : List Worker) (w : Worker)
    → load g (before ++ w ∷ after) ≡ (load g before + load g after) + g w
unfolding load
load-middle g before after w = omega (arith, load-append g before (w ∷ after))

-- The account of a job over a run of the pool.
abbrev pub IsAccountOf : ℕ → Pool → List Effect → Pool → Type 0
IsAccountOf id p es q =
    IsBalanced id es (load (runs id) p.workers) (load (owes id) p.workers)
      (load (runs id) q.workers) (load (owes id) q.workers)

PoolStep-Balanced :
    (id : ℕ) (p : Pool) (es : List Effect) (q : Pool) → PoolStep p es q → IsAccountOf id p es q
PoolStep-Balanced id _ _ _ (steps before after w w' event es n e) =
    rw
      (
        load-middle (runs id) before after w,
        load-middle (owes id) before after w,
        load-middle (runs id) before after w',
        load-middle (owes id) before after w',
      )
      (rest-Balanced id _ _ _ _ _ _ es (worker_step-Balanced id w event (w', es) e))

PoolRun-Balanced : (id : ℕ) (p q : Pool) (es : List Effect) → PoolRun p es q → IsAccountOf id p es q
PoolRun-Balanced id p _ _ done = nothing-Balanced id _ _
PoolRun-Balanced id p r _ (then_step {p = p'} {q = q} {r = r'} {es = es} {fs = fs} run step) =
    Balanced-append id _ _ _ _ _ _ es fs (PoolRun-Balanced id p q es run)
      (PoolStep-Balanced id q fs r step)

pub spawned : (g : Worker → ℕ) (n : ℕ) → g receiving ≡ 0 → load g (spawn_tasks n) ≡ 0
unfolding load spawn_tasks
spawned g zero h = refl
spawned g (suc n) h = omega (arith, h, spawned g n h)

-- However the workers of a fresh pool interleave, the account of every job id is balanced: the
-- starts are the ends and the workers that still run it; the attempts to answer it are no more than
-- its starts; and every start was answered, was cancelled, or is still owed its answer.
pub PoolRun-IsBalanced :
    (id n : ℕ) (q : Pool) (es : List Effect)
    → PoolRun (spawn_workers n) es q
    → IsBalanced id es 0 0 (load (runs id) q.workers) (load (owes id) q.workers)
unfolding spawn_workers
PoolRun-IsBalanced id n q es run =
    subst (λ x. IsBalanced id es x 0 (load (runs id) q.workers) (load (owes id) q.workers))
      (spawned (runs id) n refl)
      (subst
        (λ y.
          IsBalanced id es (load (runs id) (spawn_tasks n)) y (load (runs id) q.workers)
            (load (owes id) q.workers))
        (spawned (owes id) n refl) (PoolRun-Balanced id _ q es run))
