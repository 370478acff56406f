-- ===== src/Runner/Container.antt =====
-- The life of a run's container: `PodmanContainer`, `run_inner` and the runner's `run`. The answers
-- of the operating system are values; what is asked of it is a trace of effects.
use rust_daily.Config.Values.{F64}
use rust_daily.Text.Utf8.{Bytes}
use rust_daily.Base.{if◌then◌else◌, ◌>>=◌, max, ℕ, List, Result, [], ◌∷◌, ◌++◌, ok, err}
use rust_daily.CargoOutput.{Message, is_success, Output}
use rust_daily.DependencySet.{CargoTestCommand, DependencySet}
use rust_daily.Text.{Text, codes}
use rust_daily.Config.Settings.{RunnerSettings}
use rust_daily.Model.Deadline.{remaining, decimal, timed_out_outcome, RunDeadline, is_elapsed}
use rust_daily.Model.Types.{
  ValidatedRunRequest, LearnerOutcome, ServiceFailure, RunMode, cargo_test, compile_fail,
}
use rust_daily.Runner.{published_result, PodmanOutcome, RunnerError}
use rust_daily.Text.Utf8.{Bytes}
use rust_daily.Runner.Runs.{run_compile_fail, run_cargo_test}
use rust_daily.Runner.Capture.{ErrorKind, timed_out_kind, other_kind}
use rust_daily.Runner.Podman.{runner_error}
use rust_daily.Runner.Commands.{
  start_container_command_spec, duration_seconds_ceil, cleanup_container_command_spec,
  prepare_workspace_command_spec, ProcessCommandSpec,
}

pub data Effect : Type 0 where
  ran : ProcessCommandSpec → Effect
  published : Result ServiceFailure LearnerOutcome → Effect
  workspace_removed : Effect

-- A computation with its effects so far.
abbrev pub Traced : Type 0 → Type 0
Traced A = List Effect × A

-- The clock before a command, and how the command ends if it runs: with an error if the deadline
-- or a cancellation comes first.
pub record ControlAnswer : Type 0 where
  pub now : ℕ
  pub answer : Result ErrorKind Output

unfoldable pub execute_control_command :
    ProcessCommandSpec → RunDeadline → ControlAnswer → Traced (Result ErrorKind Output)
execute_control_command spec deadline a =
    if is_elapsed deadline a.now then ([], err timed_out_kind) else (ran spec ∷ [], a.answer)

unfoldable pub ensure_control_success : Output → Result ErrorKind (Unit {0})
ensure_control_success output = if is_success output.code then ok tt else err other_kind

-- The answers that one run gets.
pub record Answers : Type 0 where
  -- The clock when the run begins, and when a result is made.
  pub started : ℕ
  pub now : ℕ
  -- The directory of the workspace, if it is prepared.
  pub workspace : Result RunnerError Text
  -- Whether the generated tests are written into it; with no cases, they are.
  pub cases : Result RunnerError (Unit {0})
  pub start : ControlAnswer
  pub prepare : ControlAnswer

module _ (uuid_text simple_text : ℕ → Text) (cpus_text : F64 → Text) (config : RunnerSettings)
    (deadline : RunDeadline) (job_id : ℕ) where
  abbrev pub container_name : Text
  container_name = codes "rust-daily-" ++ simple_text job_id

  abbrev pub start_spec : Text → DependencySet → ℕ → ProcessCommandSpec
  start_spec dir set now =
      start_container_command_spec cpus_text config container_name (uuid_text job_id)
        (dir ++ codes ":/input:ro,Z")
        (codes "/workspace:rw,exec,nosuid,nodev,size=" ++ decimal config.workspace_tmpfs_bytes) set
        (max (duration_seconds_ceil (remaining deadline now)) 1)

  -- `cleanup`, whose result is only logged.
  unfoldable pub cleanup : List Effect
  cleanup = ran (cleanup_container_command_spec config container_name) ∷ []

  unfoldable pub prepare_container_workspace : ControlAnswer → Traced (Result ErrorKind (Unit {0}))
  prepare_container_workspace a =
      let (fx, answer) =
        execute_control_command (prepare_workspace_command_spec config container_name) deadline a in
      (fx, answer >>= ensure_control_success)

  -- The three steps of `start`: each cleans up behind an error.
  unfoldable pub after_prepare :
      List Effect → Result ErrorKind (Unit {0}) → Traced (Result ErrorKind Text)
  after_prepare fx (err kind) = (fx ++ cleanup, err kind)
  after_prepare fx (ok tt) = (fx, ok container_name)

  unfoldable pub after_check :
      ControlAnswer → List Effect → Result ErrorKind (Unit {0}) → Traced (Result ErrorKind Text)
  after_check a fx (err kind) = (fx ++ cleanup, err kind)
  after_check a fx (ok tt) =
      let (fx', r) = prepare_container_workspace a in after_prepare (fx ++ fx') r

  unfoldable pub after_start :
      ControlAnswer → List Effect → Result ErrorKind Output → Traced (Result ErrorKind Text)
  after_start a fx (err kind) = (fx ++ cleanup, err kind)
  after_start a fx (ok output) = after_check a fx (ensure_control_success output)

  unfoldable pub start_container : Text → DependencySet → Answers → Traced (Result ErrorKind Text)
  start_container dir set a =
      let (fx, answer) =
        execute_control_command (start_spec dir set a.start.now) deadline a.start in
      after_start a.prepare fx answer

  module _ (test : Result RunnerError LearnerOutcome) where
    -- What follows the start: the result is published before the container is removed.
    unfoldable pub after_container :
        ℕ → List Effect → Result ErrorKind Text → Traced (Result RunnerError (Unit {0}))
    after_container now fx (err kind) = (fx ++ workspace_removed ∷ [], err (runner_error kind))
    after_container now fx (ok name) = (
      fx
          ++ published (published_result job_id deadline now test)
            ∷ (cleanup ++ workspace_removed ∷ []),
      ok tt,
    )

    -- What follows the writing of the cases: an error drops, and so removes, the workspace.
    unfoldable pub after_writes :
        DependencySet
        → Answers
        → Text
        → Result RunnerError (Unit {0})
        → Traced (Result RunnerError (Unit {0}))
    after_writes set a dir (err e) = (workspace_removed ∷ [], err e)
    after_writes set a dir (ok tt) =
        let (fx, r) = start_container dir set a in after_container a.now fx r

    unfoldable pub run_inner :
        DependencySet → Answers → Result RunnerError Text → Traced (Result RunnerError (Unit {0}))
    run_inner set a (err e) = ([], err e)
    run_inner set a (ok dir) = after_writes set a dir a.cases

    unfoldable pub after_run : ℕ → List Effect → Result RunnerError (Unit {0}) → List Effect
    after_run now fx (ok tt) = fx
    after_run now fx (err e) = fx ++ published (published_result job_id deadline now (err e)) ∷ []

    -- `PodmanLessonRunner::run`, with the result that `test` gives if the container starts.
    unfoldable pub run_podman_lesson : DependencySet → Answers → List Effect
    run_podman_lesson set a =
        if is_elapsed deadline a.started
        then published (ok (timed_out_outcome deadline a.started)) ∷ []
        else (let (fx, r) = run_inner set a a.workspace in after_run a.now fx r)

-- The mode's test in `run_inner`.
unfoldable pub run_mode :
    (Bytes → List Message)
    → (CargoTestCommand → Result RunnerError PodmanOutcome)
    → RunMode
    → ValidatedRunRequest
    → RunDeadline
    → RunnerSettings
    → ℕ
    → Result RunnerError LearnerOutcome
run_mode cargo_messages execute cargo_test request deadline config now =
    run_cargo_test cargo_messages execute request.dependency_set deadline config now
run_mode cargo_messages execute compile_fail request deadline config now =
    run_compile_fail cargo_messages execute request deadline config now
