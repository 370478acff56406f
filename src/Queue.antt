-- ===== src/Queue.antt =====
-- backend/src/queue.rs: the summary, the two ends of a job's response channel, and the worker loop.
-- Tokio's channels, tasks and `select!` are events that a step consumes; metrics and logs are left
-- out, except for the reason with which a cancellation is recorded.
pub mod Worker
pub mod Responses
pub mod Account
pub mod Pool
pub mod Counter
use rust_daily.Base.{
  ℕ, ◌-◌, min, Bool, true, false, Option, none, some, if◌then◌else◌, Result, ok, err, map_err,
}
use rust_daily.Model.Deadline.{RunDeadline, timed_out_outcome}
use rust_daily.Model.Types.{ValidatedRunRequest, LearnerOutcome, ServiceFailure}
use rust_daily.Service.{DispatchError, at_capacity, service_failure}
use rust_daily.Text.{Text, codes}

pub record QueueSummary : Type 0 where
  pub queue_capacity : ℕ
  pub available_slots : ℕ
  pub queued_depth : ℕ
  pub running_jobs : ℕ
  pub workers : ℕ
  pub is_closed : Bool

-- `QueueSummary::new`.
unfoldable pub queue_summary :
    (queue_capacity available_slots running_jobs workers : ℕ) → Bool → QueueSummary
queue_summary queue_capacity available_slots running_jobs workers is_closed =
    let available = min available_slots queue_capacity in
    record {
      queue_capacity = queue_capacity;
      available_slots = available;
      queued_depth = queue_capacity - available;
      running_jobs = running_jobs;
      workers = workers;
      is_closed = is_closed;
    }

abbrev pub RunResult : Type 0
RunResult = Result ServiceFailure LearnerOutcome

-- `OutcomePublisher`: whether its sender is still there. `receives` says whether the other end of
-- the channel takes the result.
pub record OutcomePublisher : Type 0 where
  pub has_sender : Bool

-- `OutcomePublisher::publish`: the publisher afterwards, the result sent, and the returned flag.
unfoldable pub publish :
    OutcomePublisher → Bool → RunResult → OutcomePublisher × Option RunResult × Bool
publish p receives result =
    if p.has_sender
    then (record { has_sender = false }, if receives then some result else none, receives)
    else (p, none, false)

pub data EnqueueError : Type 0 where
  full : EnqueueError
  closed : ServiceFailure → EnqueueError

-- `RunJob`, as far as the worker reads it. The request goes to the runner unread.
pub record RunJob : Type 0 where
  pub id : ℕ
  pub request : ValidatedRunRequest
  pub deadline : RunDeadline

-- What `Sender::try_send` reports.
pub data TrySend : Type 0 where
  sent send_full send_closed : TrySend

-- `try_enqueue_with_deadline`: the accepted job, or the error.
unfoldable pub try_enqueue : TrySend → RunJob → Result EnqueueError RunJob
try_enqueue sent job = ok job
try_enqueue send_full job = err full
try_enqueue send_closed job = err (closed (record { correlation_id = job.id }))

-- The closure that `dispatch` maps over an enqueue error.
unfoldable pub dispatch_error : EnqueueError → DispatchError
dispatch_error full = at_capacity
dispatch_error (closed failure) = service_failure failure

-- `map_worker_response`; `none` if the worker dropped the channel.
unfoldable pub map_worker_response : ℕ → Option RunResult → Result DispatchError LearnerOutcome
map_worker_response job_id (some (ok outcome)) = ok outcome
map_worker_response job_id (some (err failure)) = err (service_failure failure)
map_worker_response job_id none = err (service_failure (record { correlation_id = job_id }))

-- `JobControl`: the shared flag.
pub record JobControl : Type 0 where
  pub deadline_expired : Bool

abbrev pub pending : JobControl
pending = record { deadline_expired = false }

-- Which branch of the biased `select!` in `await_worker_response` is taken: the response, if it is
-- there (or its channel is closed); otherwise the timer, at an instant. Before either, the client
-- may leave, and the future is dropped.
pub data Awaited : Type 0 where
  response_ready : Option RunResult → Awaited
  deadline_reached : ℕ → Awaited
  client_left : Awaited

-- `await_worker_response`: the result, which a dropped future does not give, and the flag
-- afterwards.
unfoldable pub await_worker_response :
    ℕ
    → RunDeadline
    → JobControl
    → Awaited
    → Option (Result DispatchError LearnerOutcome) × JobControl
await_worker_response job_id deadline control (response_ready r) =
    (some (map_worker_response job_id r), control)
await_worker_response job_id deadline control (deadline_reached now) =
    (some (ok (timed_out_outcome deadline now)), record { deadline_expired = true })
await_worker_response job_id deadline control client_left = (none, control)

-- What `dispatch` does behind the enqueueing and its `?`.
unfoldable pub await_enqueued :
    Awaited → Result DispatchError RunJob → Option (Result DispatchError LearnerOutcome)
unfolding await_worker_response
await_enqueued awaited (err e) = some (err e)
await_enqueued awaited (ok job) = (await_worker_response job.id job.deadline pending awaited).0

-- `RunQueue::dispatch`; `none` if its future is dropped while it waits.
unfoldable pub dispatch : TrySend → RunJob → Awaited → Option (Result DispatchError LearnerOutcome)
unfolding await_enqueued
dispatch send job awaited = await_enqueued awaited (map_err dispatch_error (try_enqueue send job))

pub data CancellationPhase : Type 0 where
  before_start while_running : CancellationPhase

pub data ResponseClosure : Type 0 where
  closure_by_deadline client_cancellation : ResponseClosure

unfoldable pub response_closure : JobControl → ResponseClosure
response_closure control =
    if control.deadline_expired then closure_by_deadline else client_cancellation

-- The texts of the recorded reasons, by the closure and the phase.
unfoldable pub closure_reason : ResponseClosure → CancellationPhase → Option Text
closure_reason closure_by_deadline phase = none
closure_reason client_cancellation before_start = some (codes "response_dropped_before_start")
closure_reason client_cancellation while_running = some (codes "response_dropped_while_running")

unfoldable pub cancellation_reason : JobControl → CancellationPhase → Option Text
cancellation_reason control phase = closure_reason (response_closure control) phase
