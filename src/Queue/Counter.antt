-- ===== src/Queue/Counter.antt =====
-- The counter of running jobs.
use mathlib.Core.Option.{some-injective}
use rust_daily.Base.{
  ℕ, ◌+◌, ◌≤◌, ◌≡◌, refl, subst, sym, ◌∙◌, arith, suc, zero, Bool, true, false, err, List, [], ◌∷◌,
  ◌++◌, Option, some, none, length,
}
use rust_daily.Queue.Account.{load}
use rust_daily.Queue.Pool.{load-middle, spawned}
use rust_daily.Queue.Worker.{
  Worker, receiving, selecting, awaiting_task, exited, Pool, PoolStep, steps, PoolRun, done,
  then_step, Effect, started, responded, undelivered, runner_cancelled, cancellation_recorded,
  finished, worker_step, spawn_tasks, spawn_workers, Event, queue_closed, received,
  outcome_received, task_returned, task_panicked, response_channel_closed, task_joined, or_failure,
  send_response, record_reason, record_closed_response, count_jobs, fetch_add, fetch_sub,
}
use rust_daily.Queue.{RunResult, JobControl, before_start, while_running, cancellation_reason}
use rust_daily.Text.{Text}

-- Whether a worker runs a job.
abbrev pub is_busy : Worker → ℕ
is_busy receiving = 0
is_busy (selecting _) = 1
is_busy (awaiting_task _) = 1
is_busy exited = 0

count_jobs-append :
    (n : ℕ) (es fs : List Effect) → count_jobs n (es ++ fs) ≡ count_jobs (count_jobs n es) fs
unfolding count_jobs
count_jobs-append n [] fs = refl
count_jobs-append n (started j ∷ es) fs = count_jobs-append (fetch_add n) es fs
count_jobs-append n (responded j r ∷ es) fs = count_jobs-append n es fs
count_jobs-append n (undelivered j r ∷ es) fs = count_jobs-append n es fs
count_jobs-append n (cancellation_recorded j t ∷ es) fs = count_jobs-append n es fs
count_jobs-append n (runner_cancelled j ∷ es) fs = count_jobs-append n es fs
count_jobs-append n (finished j ∷ es) fs = count_jobs-append (fetch_sub n) es fs

count-reason :
    (n j : ℕ) (r : Option Text) (fs : List Effect)
    → count_jobs n (record_reason j r ++ fs) ≡ count_jobs n fs
unfolding count_jobs record_reason
count-reason n j none fs = refl
count-reason n j (some t) fs = refl

count-response :
    (n j : ℕ) (r : RunResult) (delivered : Bool) (es : List Effect)
    → count_jobs n es ≡ n
    → count_jobs n (send_response j r delivered es) ≡ n
unfolding count_jobs send_response
count-response n j r true es h = refl
count-response n j r false es h = h

counted_reason : (n j : ℕ) (r : Option Text) → count_jobs n (record_reason j r) ≡ n
unfolding count_jobs record_reason
counted_reason n j none = refl
counted_reason n j (some t) = refl

count-closed :
    (n j : ℕ) (control : JobControl) → count_jobs n (record_closed_response j control) ≡ n
count-closed n j control = counted_reason n j (cancellation_reason control while_running)

-- The counter after a step of one of the workers that it counts.
abbrev Counts : ℕ → Worker → List Effect → Worker → Type 0
Counts n w es w' =
    is_busy w ≤ n
    → n ≤ 18446744073709551615
    → n + is_busy w' ≤ is_busy w + 18446744073709551615
    → count_jobs n es + is_busy w ≡ n + is_busy w'

by_eq :
    (n : ℕ) (w : Worker) (a b : Worker × List Effect)
    → some a ≡ some b
    → Counts n w a.1 a.0
    → Counts n w b.1 b.0
by_eq n w a b h p =
    subst (λ (x : Worker × List Effect). Counts n w x.1 x.0) (some-injective a b h) p

-- Effects that leave the counter, and an end behind such effects.
unchanged : (n k : ℕ) (es : List Effect) → count_jobs n es ≡ n → count_jobs n es + k ≡ n + k
unchanged n k es h = omega (arith, h)

after_end :
    (n j : ℕ) (es : List Effect)
    → 1 ≤ n
    → n ≤ 18446744073709551615
    → count_jobs n es ≡ n
    → count_jobs n (es ++ finished j ∷ []) + 1 ≡ n + 0
unfolding count_jobs fetch_sub
after_end n j es l u h = rw (count_jobs-append n es (finished j ∷ []), h) (omega arith)

cancelled :
    (n j : ℕ) (control : JobControl)
    → count_jobs n (record_closed_response j control ++ runner_cancelled j ∷ []) ≡ n
cancelled n j control = count-reason n j _ (runner_cancelled j ∷ []) ∙ unfold count_jobs in refl

worker_step-Counts :
    (n : ℕ) (w : Worker) (event : Event) (r : Worker × List Effect)
    → worker_step w event ≡ some r
    → Counts n w r.1 r.0
unfolding worker_step
worker_step-Counts n receiving queue_closed r h =
    by_eq n receiving _ r h (λ l m u. unfold count_jobs in omega arith)
worker_step-Counts n receiving (received j true c) r h =
    by_eq n receiving _ r h
      (λ l m u. unchanged n 0 _ (counted_reason n j.id (cancellation_reason c before_start)))
worker_step-Counts n receiving (received j false c) r h =
    by_eq n receiving _ r h (λ l m u. unfold count_jobs fetch_add in omega (arith, u))
worker_step-Counts n receiving (outcome_received o d c) r h = absurd (cc)
worker_step-Counts n receiving (task_returned o d c) r h = absurd (cc)
worker_step-Counts n receiving (task_panicked d c) r h = absurd (cc)
worker_step-Counts n receiving (response_channel_closed c) r h = absurd (cc)
worker_step-Counts n receiving task_joined r h = absurd (cc)
worker_step-Counts n (selecting job) queue_closed r h = absurd (cc)
worker_step-Counts n (selecting job) (received j true c) r h = absurd (cc)
worker_step-Counts n (selecting job) (received j false c) r h = absurd (cc)
worker_step-Counts n (selecting job) (outcome_received o d c) r h =
    by_eq n (selecting job) _ r h (λ l m u.
      unchanged n 1 _ (count-response n job.id (or_failure job.id o) d _ (cancelled n job.id c)))
worker_step-Counts n (selecting job) (task_returned o d c) r h =
    by_eq n (selecting job) _ r h (λ l m u.
      after_end n job.id _ l m
        (count-response n job.id (or_failure job.id o) d _ (count-closed n job.id c)))
worker_step-Counts n (selecting job) (task_panicked d c) r h =
    by_eq n (selecting job) _ r h (λ l m u. after_end n job.id _ l m (
      count-response n job.id (err (record { correlation_id = job.id })) d _
        (count-closed n job.id c)))
worker_step-Counts n (selecting job) (response_channel_closed c) r h =
    by_eq n (selecting job) _ r h (λ l m u. unchanged n 1 _ (cancelled n job.id c))
worker_step-Counts n (selecting job) task_joined r h = absurd (cc)
worker_step-Counts n (awaiting_task job) queue_closed r h = absurd (cc)
worker_step-Counts n (awaiting_task job) (received j true c) r h = absurd (cc)
worker_step-Counts n (awaiting_task job) (received j false c) r h = absurd (cc)
worker_step-Counts n (awaiting_task job) (outcome_received o d c) r h = absurd (cc)
worker_step-Counts n (awaiting_task job) (task_returned o d c) r h = absurd (cc)
worker_step-Counts n (awaiting_task job) (task_panicked d c) r h = absurd (cc)
worker_step-Counts n (awaiting_task job) (response_channel_closed c) r h = absurd (cc)
worker_step-Counts n (awaiting_task job) task_joined r h =
    by_eq n (awaiting_task job) _ r h
      (λ l m u. after_end n job.id [] l m (unfold count_jobs in refl))
worker_step-Counts n exited queue_closed r h = absurd (cc)
worker_step-Counts n exited (received j true c) r h = absurd (cc)
worker_step-Counts n exited (received j false c) r h = absurd (cc)
worker_step-Counts n exited (outcome_received o d c) r h = absurd (cc)
worker_step-Counts n exited (task_returned o d c) r h = absurd (cc)
worker_step-Counts n exited (task_panicked d c) r h = absurd (cc)
worker_step-Counts n exited (response_channel_closed c) r h = absurd (cc)
worker_step-Counts n exited task_joined r h = absurd (cc)

-- The counter is the number of busy workers.
record IsCounted (workers : ℕ) (p : Pool) : Type 0 where
  same_workers : length p.workers ≡ workers
  counted : p.running_jobs ≡ load is_busy p.workers

busy-bound : (ws : List Worker) → load is_busy ws ≤ length ws
unfolding load
busy-bound [] = omega arith
busy-bound (receiving ∷ ws) = omega (arith, busy-bound ws)
busy-bound (selecting j ∷ ws) = omega (arith, busy-bound ws)
busy-bound (awaiting_task j ∷ ws) = omega (arith, busy-bound ws)
busy-bound (exited ∷ ws) = omega (arith, busy-bound ws)

length-middle :
    (before after : List Worker) (w w' : Worker)
    → length (before ++ w' ∷ after) ≡ length (before ++ w ∷ after)
length-middle [] after w w' = refl
length-middle (x ∷ before) after w w' = omega (arith, length-middle before after w w')

PoolStep-IsCounted :
    (workers : ℕ) (p : Pool) (es : List Effect) (q : Pool)
    → workers ≤ 18446744073709551615
    → PoolStep p es q
    → IsCounted workers p
    → IsCounted workers q
PoolStep-IsCounted workers _ _ _ m (steps before after w w' event es n e) c =
    let b = load-middle is_busy before after w in
    let b' = load-middle is_busy before after w' in
    let same = length-middle before after w w' in
    let bound = busy-bound (before ++ w ∷ after) in
    let bound' = busy-bound (before ++ w' ∷ after) in
    record {
      same_workers = omega (arith, same, c.same_workers);
      counted = omega (
        arith,
        b,
        b',
        c.counted,
        worker_step-Counts n w event (w', es) e (omega (arith, b, c.counted))
            (omega (arith, c.counted, bound, c.same_workers))
            (omega (arith, c.counted, b, b', bound', same, c.same_workers)),
      );
    }

PoolRun-IsCounted :
    (workers : ℕ) (p q : Pool) (es : List Effect)
    → workers ≤ 18446744073709551615
    → PoolRun p es q
    → IsCounted workers p
    → IsCounted workers q
PoolRun-IsCounted workers p _ _ m done c = c
PoolRun-IsCounted workers p r _ m (then_step {p = p'} {q = q} {r = r'} {es = es} {fs = fs} run step)
      c =
    PoolStep-IsCounted workers q fs r m step (PoolRun-IsCounted workers p q es m run c)

spawned_length : (n : ℕ) → length (spawn_tasks n) ≡ n
unfolding spawn_tasks
spawned_length zero = refl
spawned_length (suc n) = omega (arith, spawned_length n)

-- However the workers of a fresh pool interleave, the shared counter is the number of workers that
-- run a job, and no more than the number of workers: it neither wraps around nor drifts. The number
-- of workers is that of a `usize`.
pub PoolRun-counter :
    (n : ℕ) (q : Pool) (es : List Effect)
    → n ≤ 18446744073709551615
    → PoolRun (spawn_workers n) es q
    → (q.running_jobs ≡ load is_busy q.workers) × (q.running_jobs ≤ n)
unfolding spawn_workers
PoolRun-counter n q es m run =
    let c =
      PoolRun-IsCounted n _ q es m run
        (record { same_workers = spawned_length n; counted = sym (spawned is_busy n refl) }) in
    (c.counted, omega (arith, c.counted, c.same_workers, busy-bound q.workers))
