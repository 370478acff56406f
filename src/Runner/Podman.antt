-- ===== src/Runner/Podman.antt =====
-- `execute_podman_command`: one Cargo command under the deadline, with the answers of the operating
-- system as values.
pub mod Complete
use rust_daily.Config.Settings.{RunnerSettings}
use rust_daily.Base.{
  ◌>>=◌, ◌||◌, if◌then◌else◌, none, some, ok, err, Bool, List, some, ok, err, Result, ℕ, Option,
  true, false,
}
use rust_daily.Model.Deadline.{RunDeadline, is_elapsed}
use rust_daily.Runner.Capture.{
  spawned, timed_out_kind, StreamCapture, Source, Read, run_readers, Reader, ErrorKind, other_kind,
  reading, returned, broken,
}
use rust_daily.Runner.{
  RunnerSettings, RunnerError, podman_failed, PodmanOutcome, completed, outer_timeout,
  output_limit_exceeded, cancelled,
}

-- The code that a process has exited with, absent behind a signal.
pub data ChildWaitOutcome : Type 0 where
  child_completed : Result ErrorKind (Option ℕ) → ChildWaitOutcome
  child_timeout child_output_limit_exceeded child_cancelled : ChildWaitOutcome

-- What happens around one execution: the time at its start, an error before the wait (in the spawn,
-- or of a missing pipe), the branch that ends the wait, the time then, the turns of the two readers
-- until they are joined, and whether joining them times out.
pub record Execution : Type 0 where
  pub started : ℕ
  pub start_error : Option ErrorKind
  pub wait_outcome : ChildWaitOutcome
  pub waited : ℕ
  pub turns : List (Source × Read)
  pub join_times_out : Bool

-- `join_output_task`, of a reader that has not returned: the error of a task that has ended
-- without a result.
unfoldable pub join_output_task : Reader → Result ErrorKind StreamCapture
join_output_task (reading output) = err other_kind
join_output_task (returned capture) = ok capture
join_output_task (broken kind) = err kind

-- What follows the joined readers.
unfoldable pub captured_outcome : Option ℕ → StreamCapture → StreamCapture → PodmanOutcome
captured_outcome status stdout stderr =
    if stdout.exceeded || stderr.exceeded
    then output_limit_exceeded
    else completed (record { code = status; stdout = stdout.output; stderr = stderr.output })

-- What follows a child that has exited with `status`.
unfoldable pub exited_outcome :
    RunDeadline → ℕ → Option ℕ → Execution → Result ErrorKind PodmanOutcome
exited_outcome deadline retained_bytes status x =
    if is_elapsed deadline x.waited || x.join_times_out then ok outer_timeout else do
      stdout ← join_output_task (run_readers (spawned retained_bytes) x.turns).stdout
      stderr ← join_output_task (run_readers (spawned retained_bytes) x.turns).stderr
      ok (captured_outcome status stdout stderr)

unfoldable pub waited_outcome :
    RunDeadline → ℕ → Execution → ChildWaitOutcome → Result ErrorKind PodmanOutcome
waited_outcome deadline retained_bytes x (child_completed (ok status)) =
    exited_outcome deadline retained_bytes status x
waited_outcome deadline retained_bytes x (child_completed (err kind)) = err kind
waited_outcome deadline retained_bytes x child_timeout = ok outer_timeout
waited_outcome deadline retained_bytes x child_output_limit_exceeded = ok output_limit_exceeded
waited_outcome deadline retained_bytes x child_cancelled = ok cancelled

unfoldable pub started_outcome :
    RunDeadline → ℕ → Execution → Option ErrorKind → Result ErrorKind PodmanOutcome
started_outcome deadline retained_bytes x (some kind) = err kind
started_outcome deadline retained_bytes x none =
    waited_outcome deadline retained_bytes x x.wait_outcome

unfoldable pub execute_podman_command :
    RunDeadline → RunnerSettings → Execution → Result ErrorKind PodmanOutcome
execute_podman_command deadline config x =
    if is_elapsed deadline x.started
    then ok outer_timeout
    else started_outcome deadline config.max_process_output_bytes x x.start_error

-- `RunnerError::from` of an I/O error.
abbrev pub runner_error : ErrorKind → RunnerError
runner_error timed_out_kind = podman_failed true
runner_error _ = podman_failed false
