-- ===== src/Runner/Runs.antt =====
-- `run_compile_fail` and `run_cargo_test`: the two ways to test a request in the container.
use rust_daily.Base.{ℕ, List, [], ◌∷◌, Option, none, some, ◌⊎◌, inl, inr, Result, ok, err, ◌>>=◌}
use rust_daily.CargoOutput.{
  Output, Message, CargoOutputStatus, success, timed_out_status, compiler_error, failure,
  cargo_error, infrastructure_error, internal_compiler_error, output_status, diagnostic_text,
  result_from_output,
}
use rust_daily.Config.Settings.{RunnerSettings}
use rust_daily.DependencySet.{
  DependencySet, CargoTestCommand, test_command, check_lib_command, check_test_command,
}
use rust_daily.Model.Deadline.{RunDeadline, timed_out_outcome, elapsed_ms}
use rust_daily.Model.Types.{
  ValidatedCompileFailCase, ValidatedRunRequest, LearnerOutcome, generated_test_target,
}
use rust_daily.Text.Utf8.{Bytes}
use rust_daily.Runner.{
  RunnerError, PodmanOutcome, CompileFailCaseResult, output_limit_result, match_diagnostics,
  outcome_or_error, Reports, no_reports, report_case, compile_fail_outcome, completed,
  outer_timeout, output_limit_exceeded, cancelled, compiled_unexpectedly, case_timed_out,
  case_output_limit_exceeded, container_runtime, internal_compiler, run_cancelled,
}

module _ (cargo_messages : Bytes → List Message)
    (execute : CargoTestCommand → Result RunnerError PodmanOutcome) where
  -- The `match` on the status of a case's compilation.
  unfoldable pub case_status :
      ValidatedCompileFailCase
      → Output
      → CargoOutputStatus
      → Result RunnerError CompileFailCaseResult
  case_status c output success = ok (compiled_unexpectedly c.name.as_str)
  case_status c output timed_out_status = ok case_timed_out
  case_status c output compiler_error =
      ok (match_diagnostics c (diagnostic_text cargo_messages output))
  case_status c output failure = err (container_runtime output.code)
  case_status c output cargo_error = err (container_runtime output.code)
  case_status c output infrastructure_error = err (container_runtime output.code)
  case_status c output internal_compiler_error = err internal_compiler

  unfoldable pub case_outcome :
      ValidatedCompileFailCase → PodmanOutcome → Result RunnerError CompileFailCaseResult
  case_outcome c outer_timeout = ok case_timed_out
  case_outcome c output_limit_exceeded = ok case_output_limit_exceeded
  case_outcome c cancelled = err run_cancelled
  case_outcome c (completed output) = case_status c output (output_status cargo_messages output)

  unfoldable pub run_compile_fail_case :
      DependencySet → ValidatedCompileFailCase → Result RunnerError CompileFailCaseResult
  run_compile_fail_case set c =
      execute (check_test_command set (generated_test_target c.name)) >>= case_outcome c

  -- The loop over the cases.
  unfoldable pub run_cases :
      DependencySet
      → RunDeadline
      → RunnerSettings
      → ℕ
      → Reports
      → List ValidatedCompileFailCase
      → Result RunnerError (LearnerOutcome ⊎ Reports)
  run_cases set deadline config now r [] = ok (inr r)
  run_cases set deadline config now r (c ∷ cs) = do
    result ← run_compile_fail_case set c
    elim (report_case deadline config now r result) [
      | inl outcome ↦ ok (inl outcome)
      | inr r' ↦ run_cases set deadline config now r' cs
    ]

  -- The `match` on the outcome of the baseline: `none` where the loop over the cases follows.
  unfoldable pub baseline_status :
      RunDeadline
      → RunnerSettings
      → ℕ
      → Output
      → CargoOutputStatus
      → Result RunnerError (Option LearnerOutcome)
  baseline_status deadline config now output success = ok none
  baseline_status deadline config now output timed_out_status =
      ok (some (timed_out_outcome deadline now))
  baseline_status deadline config now output compiler_error = do
    outcome ←
        outcome_or_error (
          result_from_output cargo_messages output (elapsed_ms deadline now)
            config.max_output_bytes)
    ok (some outcome)
  baseline_status deadline config now output failure = do
    outcome ←
        outcome_or_error (
          result_from_output cargo_messages output (elapsed_ms deadline now)
            config.max_output_bytes)
    ok (some outcome)
  baseline_status deadline config now output cargo_error = err (container_runtime output.code)
  baseline_status deadline config now output infrastructure_error =
      err (container_runtime output.code)
  baseline_status deadline config now output internal_compiler_error = err internal_compiler

  unfoldable pub baseline_outcome :
      RunDeadline → RunnerSettings → ℕ → PodmanOutcome → Result RunnerError (Option LearnerOutcome)
  baseline_outcome deadline config now outer_timeout = ok (some (timed_out_outcome deadline now))
  baseline_outcome deadline config now output_limit_exceeded =
      ok (some (output_limit_result deadline config now))
  baseline_outcome deadline config now cancelled = err run_cancelled
  baseline_outcome deadline config now (completed output) =
      baseline_status deadline config now output (output_status cargo_messages output)

  -- What follows the loop: its early outcome, or the reports.
  unfoldable pub after_cases :
      RunDeadline → RunnerSettings → ℕ → LearnerOutcome ⊎ Reports → LearnerOutcome
  after_cases deadline config now (inl outcome) = outcome
  after_cases deadline config now (inr r) = compile_fail_outcome deadline config now r

  -- What follows the baseline: its own outcome, or the loop.
  unfoldable pub after_baseline :
      ValidatedRunRequest
      → RunDeadline
      → RunnerSettings
      → ℕ
      → Option LearnerOutcome
      → Result RunnerError LearnerOutcome
  after_baseline request deadline config now (some outcome) = ok outcome
  after_baseline request deadline config now none = do
    end ← run_cases request.dependency_set deadline config now no_reports request.compile_fail_cases
    ok (after_cases deadline config now end)

  unfoldable pub run_compile_fail :
      ValidatedRunRequest → RunDeadline → RunnerSettings → ℕ → Result RunnerError LearnerOutcome
  run_compile_fail request deadline config now = do
    lib_outcome ← execute (check_lib_command request.dependency_set)
    baseline ← baseline_outcome deadline config now lib_outcome
    after_baseline request deadline config now baseline

  unfoldable pub cargo_test_outcome :
      RunDeadline → RunnerSettings → ℕ → PodmanOutcome → Result RunnerError LearnerOutcome
  cargo_test_outcome deadline config now (completed output) =
      outcome_or_error
        (result_from_output cargo_messages output (elapsed_ms deadline now) config.max_output_bytes)
  cargo_test_outcome deadline config now outer_timeout = ok (timed_out_outcome deadline now)
  cargo_test_outcome deadline config now output_limit_exceeded =
      ok (output_limit_result deadline config now)
  cargo_test_outcome deadline config now cancelled = err run_cancelled

  unfoldable pub run_cargo_test :
      DependencySet → RunDeadline → RunnerSettings → ℕ → Result RunnerError LearnerOutcome
  run_cargo_test set deadline config now =
      execute (test_command set) >>= cargo_test_outcome deadline config now
