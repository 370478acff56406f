-- ===== src/Queue/Worker.antt =====
-- `worker_loop` and `run_job` as a machine: a worker consumes what its `await`s deliver. Whether
-- a response could be sent, and whether its channel is closed, is part of an event.
use rust_daily.Base.{
  ◌%◌, zero, suc, ◌≡◌, ℕ, ◌+◌, Bool, true, false, List, [], ◌∷◌, ◌++◌, Option, none, some, err,
}
use rust_daily.Queue.{
  RunResult, RunJob, JobControl, before_start, while_running, cancellation_reason,
}
use rust_daily.Text.{Text}

-- Where a worker waits: at `recv`, in the `select!` of `run_job`, or at the end of its runner task.
pub data Worker : Type 0 where
  receiving : Worker
  selecting : RunJob → Worker
  awaiting_task : RunJob → Worker
  exited : Worker

-- What an `await` delivers.
pub data Event : Type 0 where
  -- `recv`: no job, or a job, whether its response channel is closed, and its flag.
  queue_closed : Event
  received : RunJob → Bool → JobControl → Event
  -- The first branch: the published result, or that the publisher was dropped; whether the response
  -- could be sent; and the flag.
  outcome_received : Option RunResult → Bool → JobControl → Event
  -- The second branch: the runner task returned, with the result it had published if any, or it
  -- panicked; and as above.
  task_returned : Option RunResult → Bool → JobControl → Event
  task_panicked : Bool → JobControl → Event
  -- The third branch: the response channel was closed.
  response_channel_closed : JobControl → Event
  -- The end of `await_runner_task`.
  task_joined : Event

-- What a worker does to the outside.
pub data Effect : Type 0 where
  started : ℕ → Effect
  responded : ℕ → RunResult → Effect
  undelivered : ℕ → RunResult → Effect
  cancellation_recorded : ℕ → Text → Effect
  runner_cancelled : ℕ → Effect
  finished : ℕ → Effect

-- `record_closed_response`, and the `match` on the reason in `worker_loop`.
unfoldable pub record_reason : ℕ → Option Text → List Effect
record_reason job_id (some reason) = cancellation_recorded job_id reason ∷ []
record_reason job_id none = []

abbrev pub record_closed_response : ℕ → JobControl → List Effect
record_closed_response job_id control =
    record_reason job_id (cancellation_reason control while_running)

-- `unwrap_or_else(|_| Err(ServiceFailure::new(job_id)))`.
unfoldable pub or_failure : ℕ → Option RunResult → RunResult
or_failure job_id (some result) = result
or_failure job_id none = err (record { correlation_id = job_id })

-- `response_tx.send(result)`, and what follows if it fails.
unfoldable pub send_response : ℕ → RunResult → Bool → List Effect → List Effect
send_response job_id result true on_failure = responded job_id result ∷ []
send_response job_id result false on_failure = undelivered job_id result ∷ on_failure

-- One worker, from one `await` to the next; `none` where it does not wait for the event.
unfoldable pub worker_step : Worker → Event → Option (Worker × List Effect)
worker_step receiving queue_closed = some (exited, [])
worker_step receiving (received job true control) =
    some (receiving, record_reason job.id (cancellation_reason control before_start))
worker_step receiving (received job false control) = some (selecting job, started job.id ∷ [])
worker_step (selecting job) (outcome_received r delivered control) = some (
  awaiting_task job,
  send_response job.id (or_failure job.id r) delivered
      (record_closed_response job.id control ++ runner_cancelled job.id ∷ []),
)
worker_step (selecting job) (task_returned r delivered control) = some (
  receiving,
  send_response job.id (or_failure job.id r) delivered (record_closed_response job.id control)
      ++ finished job.id ∷ [],
)
worker_step (selecting job) (task_panicked delivered control) = some (
  receiving,
  send_response job.id (err (record { correlation_id = job.id })) delivered
        (record_closed_response job.id control)
      ++ finished job.id ∷ [],
)
worker_step (selecting job) (response_channel_closed control) =
    some (awaiting_task job, record_closed_response job.id control ++ runner_cancelled job.id ∷ [])
worker_step (awaiting_task job) task_joined = some (receiving, finished job.id ∷ [])
worker_step _ _ = none

-- `AtomicUsize::fetch_add(1)` and `fetch_sub(1)`, which wrap around.
unfoldable pub fetch_add : ℕ → ℕ
fetch_add n = (n + 1) % 18446744073709551616

unfoldable pub fetch_sub : ℕ → ℕ
fetch_sub n = (n + 18446744073709551615) % 18446744073709551616

-- The counter of running jobs goes up at a start and down at an end.
unfoldable pub count_jobs : ℕ → List Effect → ℕ
count_jobs running_jobs [] = running_jobs
count_jobs running_jobs (started _ ∷ es) = count_jobs (fetch_add running_jobs) es
count_jobs running_jobs (finished _ ∷ es) = count_jobs (fetch_sub running_jobs) es
count_jobs running_jobs (_ ∷ es) = count_jobs running_jobs es

-- All workers of a queue, with their counter.
pub record Pool : Type 0 where
  pub workers : List Worker
  pub running_jobs : ℕ

-- `spawn_workers_with_runner`: the worker tasks.
unfoldable pub spawn_tasks : ℕ → List Worker
spawn_tasks zero = []
spawn_tasks (suc n) = receiving ∷ spawn_tasks n

unfoldable pub spawn_workers : ℕ → Pool
spawn_workers n = record { workers = spawn_tasks n; running_jobs = 0 }

-- One worker of the pool takes a step; the others stay where they wait.
pub data PoolStep : Pool → List Effect → Pool → Type 0 where
  steps :
      (before after : List Worker) (w w' : Worker) (event : Event) (effects : List Effect) (n : ℕ)
      → worker_step w event ≡ some (w', effects)
      → PoolStep
          (record { workers = before ++ w ∷ after; running_jobs = n })
          effects
          (record { workers = before ++ w' ∷ after; running_jobs = count_jobs n effects })

-- Runs of a pool, in any interleaving of its workers.
pub data PoolRun : Pool → List Effect → Pool → Type 0 where
  done : {p : Pool} → PoolRun p [] p
  then_step :
      {p q r : Pool} {es fs : List Effect}
      → PoolRun p es q
      → PoolStep q fs r
      → PoolRun p (es ++ fs) r
