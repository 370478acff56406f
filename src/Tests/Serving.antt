-- ===== src/Tests/Serving.antt =====
-- The queue, the service and the deadline on concrete inputs.
use rust_daily.Base.{
  ◌+◌, ◌≤◌, ◌≡◌, refl, arith, true, false, List, [], ◌∷◌, ◌++◌, some, ok, err, if◌then◌else◌, ◌&&◌,
}
use rust_daily.Model.Deadline.{RunDeadline}
use rust_daily.Model.Types.{ValidatedRunRequest, LearnerOutcome, passed}
use rust_daily.Queue.Account.{IsBalanced, load, runs, owes}
use rust_daily.Queue.Counter.{is_busy, PoolRun-counter}
use rust_daily.Queue.Pool.{PoolRun-IsBalanced}
use rust_daily.Queue.Responses.{queue_summary-consistent, published, published-once}
use rust_daily.Queue.Worker.{
  receiving, selecting, awaiting_task, Pool, steps, PoolRun, done, then_step, Effect, started,
  responded, worker_step, spawn_tasks, spawn_workers, received, outcome_received, or_failure,
  send_response, count_jobs, fetch_add,
}
use rust_daily.Queue.{RunJob, pending, queue_summary}
use rust_daily.Tests.Validation.{test_limits-IsSmall}
use rust_daily.Service.Answers.{IsAnswer, run-IsAnswer, documented_status, status_code-code}
use rust_daily.Service.{LessonRunService, service_failure, run, status_code, code, validation_error}
use rust_daily.Model.Errors.{too_many_files}
use rust_daily.Tests.{cargo_request, cargo_validated, test_limits}

abbrev test_deadline : RunDeadline
test_deadline = record { started_at = 1000; timeout = 500 }

abbrev test_job : RunJob
test_job = record { id = 5; request = cargo_validated; deadline = test_deadline }

abbrev test_outcome : LearnerOutcome
test_outcome = record { status = passed; stdout = []; stderr = []; duration_ms = 3 }

-- The first of two workers takes a job and answers it.
abbrev job_started : Pool
job_started = record { workers = selecting test_job ∷ receiving ∷ []; running_jobs = 1 }

abbrev job_answered : Pool
job_answered = record { workers = awaiting_task test_job ∷ receiving ∷ []; running_jobs = 1 }

abbrev job_effects : List Effect
job_effects = ([] ++ started 5 ∷ []) ++ responded 5 (ok test_outcome) ∷ []

answering_run : PoolRun (spawn_workers 2) job_effects job_answered
unfolding spawn_workers spawn_tasks worker_step send_response or_failure count_jobs fetch_add
answering_run =
    then_step {q = job_started}
      (then_step {q = spawn_workers 2} done (
        steps [] (receiving ∷ []) receiving (selecting test_job) (received test_job false pending)
          (started 5 ∷ []) 0 refl))
      (steps [] (receiving ∷ []) (selecting test_job) (awaiting_task test_job)
        (outcome_received (some (ok test_outcome)) true pending)
        (responded 5 (ok test_outcome) ∷ []) 1 refl)

PoolRun-IsBalanced_example :
    IsBalanced 5 job_effects 0 0
      (load (runs 5) job_answered.workers)
      (load (owes 5) job_answered.workers)
PoolRun-IsBalanced_example = PoolRun-IsBalanced 5 2 job_answered job_effects answering_run

PoolRun-counter_example :
    (job_answered.running_jobs ≡ load is_busy job_answered.workers)
    × (job_answered.running_jobs ≤ 2)
PoolRun-counter_example = PoolRun-counter 2 job_answered job_effects (omega arith) answering_run

-- A dispatcher that keeps the requests it is given, and whose runner fails.
abbrev failing_service : LessonRunService (List ValidatedRunRequest)
failing_service = record {
  dispatch = λ v given. (v ∷ given, err (service_failure (record { correlation_id = 9 })));
  validation_limits = test_limits;
}

run-IsAnswer_example :
    IsAnswer failing_service cargo_request [] (run failing_service cargo_request [])
run-IsAnswer_example = run-IsAnswer failing_service cargo_request [] test_limits-IsSmall

status_code-code_example :
    status_code (validation_error (too_many_files 8))
    ≡ documented_status (code (validation_error (too_many_files 8)))
status_code-code_example = status_code-code (validation_error (too_many_files 8))

published-once_example :
    published
      (record { has_sender = true })
      ((true, ok test_outcome) ∷ (true, err (record { correlation_id = 5 })) ∷ [])
    ≡ (if true && true then ok test_outcome ∷ [] else [])
published-once_example =
    published-once (record { has_sender = true }) true (ok test_outcome)
      ((true, err (record { correlation_id = 5 })) ∷ [])

queue_summary-consistent_example :
    ((queue_summary 4 9 1 2 false).queued_depth + (queue_summary 4 9 1 2 false).available_slots
      ≡ (queue_summary 4 9 1 2 false).queue_capacity)
    × (9 ≤ 4 → (queue_summary 4 9 1 2 false).available_slots ≡ 9)
queue_summary-consistent_example = queue_summary-consistent 4 9 1 2 false
