-- ===== src/Runner.antt =====
-- backend/src/runner.rs: what is made of the commands that run in the container. Executing one
-- is a parameter, `execute`; the clock is read once, when a result is made.
pub mod Runs
pub mod Rounds
pub mod Verdict
pub mod CargoTest
pub mod Capture
pub mod Podman
pub mod Commands
pub mod Container
pub mod Lifecycle
pub mod Removal
pub mod Info
pub mod Startup
pub mod Ready
use rust_daily.Base.{
  ◌&&◌, ℕ, Bool, true, not, List, [], ◌∷◌, ◌++◌, map, Option, none, some, ◌⊎◌, inl, inr, is_empty,
  keep, if◌then◌else◌, Result, ok, err,
}
use rust_daily.CargoOutput.{Output, cap_output}
use rust_daily.Collections.{BTreeSet}
use rust_daily.Config.Settings.{RunnerSettings}
use rust_daily.Model.Deadline.{RunDeadline, timed_out_outcome, elapsed_ms, decimal}
use rust_daily.Model.Types.{
  DiagnosticSnippet, ValidatedCompileFailCase, LearnerOutcome, ServiceFailure, passed, failed,
}
use rust_daily.Text.Utf8.{as_bytes}
use rust_daily.Text.{Text, codes, contains, join}

-- `RunnerError`, without the texts of the errors below it; of an I/O error, whether its kind is
-- `TimedOut`.
pub data RunnerError : Type 0 where
  workspace_failed : RunnerError
  podman_failed : Bool → RunnerError
  container_runtime : Option ℕ → RunnerError
  internal_compiler runner_output_limit_exceeded run_cancelled : RunnerError

pub data PodmanOutcome : Type 0 where
  completed : Output → PodmanOutcome
  outer_timeout output_limit_exceeded cancelled : PodmanOutcome

pub data CompileFailCaseResult : Type 0 where
  failed_as_expected : (name diagnostics : Text) → CompileFailCaseResult
  compiled_unexpectedly : Text → CompileFailCaseResult
  wrong_diagnostics :
      (name : Text) (missing forbidden : List Text) (diagnostics : Text) → CompileFailCaseResult
  case_timed_out case_output_limit_exceeded : CompileFailCaseResult

unfoldable pub output_limit_result : RunDeadline → RunnerSettings → ℕ → LearnerOutcome
output_limit_result deadline config now = record {
  status = failed;
  stdout = [];
  stderr =
      codes "runner output exceeded "
      ++ (decimal config.max_process_output_bytes ++ codes " bytes");
  duration_ms = elapsed_ms deadline now;
}

-- The two filters over the snippets of a case.
unfoldable pub missing_snippets : Text → BTreeSet DiagnosticSnippet → List Text
missing_snippets diagnostics snippets =
    map (λ s. s.as_str) (keep (λ s. not (contains diagnostics s.as_str)) snippets)

unfoldable pub included_snippets : Text → BTreeSet DiagnosticSnippet → List Text
included_snippets diagnostics snippets =
    map (λ s. s.as_str) (keep (λ s. contains diagnostics s.as_str) snippets)

-- The result of a case whose compilation gave ordinary errors.
unfoldable pub match_diagnostics : ValidatedCompileFailCase → Text → CompileFailCaseResult
match_diagnostics c diagnostics =
    let missing = missing_snippets diagnostics c.expected_diagnostics in
    let forbidden = included_snippets diagnostics c.forbidden_diagnostics in
    if is_empty missing && is_empty forbidden
    then failed_as_expected c.name.as_str diagnostics
    else wrong_diagnostics c.name.as_str missing forbidden diagnostics

-- `.ok_or(RunnerError::ContainerRuntime { code: None })`.
unfoldable pub outcome_or_error : Option LearnerOutcome → Result RunnerError LearnerOutcome
outcome_or_error (some outcome) = ok outcome
outcome_or_error none = err (container_runtime none)

-- The variables of the loop in `run_compile_fail`.
pub record Reports : Type 0 where
  pub summaries : List Text
  pub failures : List Text
  pub diagnostics : List Text

abbrev pub no_reports : Reports
no_reports = record { summaries = []; failures = []; diagnostics = [] }

unfoldable pub expected_summary : Text → Text
expected_summary name = codes "Compile-fail case `" ++ (name ++ codes "` failed as expected.")

unfoldable pub compiled_message : Text → Text
compiled_message name =
    codes "Compile-fail case `"
    ++ (name ++ codes "` compiled successfully, but it was expected to fail.")

unfoldable pub wrong_message : Text → List Text → List Text → Text
wrong_message name missing forbidden =
    let messages =
      map (λ s. codes "missing expected diagnostic `" ++ (s ++ codes "`")) missing
      ++ map (λ s. codes "included forbidden diagnostic `" ++ (s ++ codes "`")) forbidden in
    codes "Compile-fail case `"
    ++ (name
        ++ (codes "` failed for the wrong reason: " ++ (join (codes ", ") messages ++ codes ".")))

unfoldable pub case_diagnostics : Text → Text → Text
case_diagnostics name diagnostics =
    codes "case `" ++ (name ++ (codes "` diagnostics:\n" ++ diagnostics))

-- One round of that loop, behind the case's result: an outcome that ends it, or the new reports.
unfoldable pub report_case :
    RunDeadline → RunnerSettings → ℕ → Reports → CompileFailCaseResult → LearnerOutcome ⊎ Reports
report_case deadline config now r (failed_as_expected name diagnostics) = inr (record {
  summaries = r.summaries ++ expected_summary name ∷ [];
  failures = r.failures;
  diagnostics = r.diagnostics ++ case_diagnostics name diagnostics ∷ [];
})
report_case deadline config now r (compiled_unexpectedly name) = inr (record {
  summaries = r.summaries ++ compiled_message name ∷ [];
  failures = r.failures ++ compiled_message name ∷ [];
  diagnostics = r.diagnostics;
})
report_case deadline config now r (wrong_diagnostics name missing forbidden diagnostics) =
    inr (record {
      summaries = r.summaries ++ wrong_message name missing forbidden ∷ [];
      failures = r.failures ++ wrong_message name missing forbidden ∷ [];
      diagnostics = r.diagnostics ++ case_diagnostics name diagnostics ∷ [];
    })
report_case deadline config now r case_timed_out = inl (timed_out_outcome deadline now)
report_case deadline config now r case_output_limit_exceeded =
    inl (output_limit_result deadline config now)

-- The outcome at the end of the loop.
unfoldable pub compile_fail_outcome : RunDeadline → RunnerSettings → ℕ → Reports → LearnerOutcome
compile_fail_outcome deadline config now r =
    let (stdout, stderr) =
      cap_output (as_bytes (join (codes "\n") r.summaries))
        (as_bytes (if is_empty r.failures then [] else join (codes "\n\n") r.diagnostics))
        config.max_output_bytes in
    record {
      status = if is_empty r.failures then passed else failed;
      stdout = stdout;
      stderr = stderr;
      duration_ms = elapsed_ms deadline now;
    }

-- The `match` on the result in `run_inner`: what the runner publishes.
unfoldable pub published_result :
    ℕ → RunDeadline → ℕ → Result RunnerError LearnerOutcome → Result ServiceFailure LearnerOutcome
published_result job_id deadline now (ok outcome) = ok outcome
published_result job_id deadline now (err (podman_failed true)) =
    ok (timed_out_outcome deadline now)
published_result job_id deadline now (err _) = err (record { correlation_id = job_id })
