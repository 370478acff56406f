-- ===== src/Tests/Running.antt =====
-- Runs on concrete commands, with a container that answers by the command.
use rust_daily.Tests.Configuring.{test_settings}
use rust_daily.Base.{
  ◌≡◌, refl, arith, List, [], ◌∷◌, ◌⊎◌, none, some, if◌then◌else◌, ◌==◌, Result, ok,
}
use rust_daily.CargoOutput.{Output, Message, compiler_message, error}
use rust_daily.DependencySet.{CargoTestCommand, std}
use rust_daily.Model.Deadline.{RunDeadline}
use rust_daily.Model.Types.{LearnerOutcome, passed}
use rust_daily.Runner.CargoTest.{IsTested, IsCutShort, run_cargo_test-IsTested}
use rust_daily.Runner.Verdict.{IsPassedRun, run_compile_fail-IsPassedRun}
use rust_daily.Runner.{RunnerError, PodmanOutcome, completed}
use rust_daily.Runner.Runs.{run_compile_fail, run_cargo_test}
use rust_daily.CargoOutput.{
  compiler_diagnostic_text, cap_output, cap_texts, cargo_build_succeeded, cargo_reported_level,
  diagnostic_text, error_texts, filtered_output_streams, first_budgets, give_to_stderr,
  give_to_stdout, is_podman_log_line, output_status, output_stream_for_response, result_from_output,
  run_status, scan_prefix, push_prefix, should_include_response_line, truncate_string,
}
use rust_daily.DependencySet.{check_lib_command, check_test_command, test_command}
use rust_daily.Model.Deadline.{elapsed_ms}
use rust_daily.Model.Types.{generated_test_target}
use rust_daily.Runner.{
  compile_fail_outcome, case_diagnostics, expected_summary, included_snippets, match_diagnostics,
  missing_snippets, outcome_or_error, report_case,
}
use rust_daily.Runner.Runs.{
  after_baseline, after_cases, baseline_outcome, baseline_status, cargo_test_outcome, case_outcome,
  case_status, run_cases, run_compile_fail_case,
}
use rust_daily.Text.Lines.{lines}
use rust_daily.Text.Utf8.{
  as_bytes, decode, encode_char, first_byte, from_utf8_lossy, next_byte, read_byte,
}
use rust_daily.Text.{
  contains, is_whitespace, join, len, len_utf8, replace, split, starts_with, trim, trim_start,
}
use rust_daily.Tests.{compile_fail_validated}
use rust_daily.Text.Utf8.{Bytes}
use rust_daily.Text.{Text, codes, text_eq}

-- An error with the text itself for a text that begins with `E`; nothing otherwise.
abbrev parser : Bytes → List Message
parser [] = []
parser (c ∷ s) =
    if c == b'E'
    then compiler_message (record { level = error; message = c ∷ s; rendered = none }) ∷ []
    else []

abbrev compiled : Output
compiled = record { code = some 0; stdout = []; stderr = [] }

abbrev refused : Output
refused = record { code = some 101; stdout = codes "E0382"; stderr = [] }

-- `check --test …` is refused; everything else compiles.
abbrev by_args : List Text → Output
by_args (a ∷ b ∷ c ∷ []) = refused
by_args _ = compiled

abbrev execute : CargoTestCommand → Result RunnerError PodmanOutcome
execute command = ok (completed (by_args command.args))

abbrev test_deadline : RunDeadline
test_deadline = record { started_at = 0; timeout = 1000000000 }

abbrev passed_outcome : LearnerOutcome
passed_outcome = record {
  status = passed;
  stdout = codes "Compile-fail case `no-copy` failed as expected.";
  stderr = [];
  duration_ms = 2;
}

compile_fail_run :
    run_compile_fail parser execute compile_fail_validated test_deadline test_settings 2000000
    ≡ ok passed_outcome
unfolding run_compile_fail run_cargo_test text_eq compiler_diagnostic_text cap_output cap_texts
    cargo_build_succeeded cargo_reported_level diagnostic_text error_texts filtered_output_streams
    first_budgets give_to_stderr give_to_stdout is_podman_log_line output_status
    output_stream_for_response result_from_output run_status scan_prefix push_prefix
    should_include_response_line truncate_string check_lib_command check_test_command test_command
    elapsed_ms generated_test_target after_baseline after_cases baseline_outcome baseline_status
    cargo_test_outcome case_outcome case_status compile_fail_outcome case_diagnostics
    expected_summary included_snippets match_diagnostics missing_snippets outcome_or_error
    report_case run_cases run_compile_fail_case lines as_bytes decode encode_char first_byte
    from_utf8_lossy next_byte read_byte contains is_whitespace join len len_utf8 replace split
    starts_with trim trim_start
compile_fail_run = refl

run_compile_fail-IsPassedRun_example : IsPassedRun parser execute compile_fail_validated
run_compile_fail-IsPassedRun_example =
    run_compile_fail-IsPassedRun parser execute compile_fail_validated test_deadline test_settings
      2000000 passed_outcome compile_fail_run refl

abbrev tested_outcome : LearnerOutcome
tested_outcome = record { status = passed; stdout = []; stderr = []; duration_ms = 2 }

cargo_test_run :
    run_cargo_test parser execute std test_deadline test_settings 2000000 ≡ ok tested_outcome
unfolding run_compile_fail run_cargo_test text_eq compiler_diagnostic_text cap_output cap_texts
    cargo_build_succeeded cargo_reported_level diagnostic_text error_texts filtered_output_streams
    first_budgets give_to_stderr give_to_stdout is_podman_log_line output_status
    output_stream_for_response result_from_output run_status scan_prefix push_prefix
    should_include_response_line truncate_string check_lib_command check_test_command test_command
    elapsed_ms generated_test_target after_baseline after_cases baseline_outcome baseline_status
    cargo_test_outcome case_outcome case_status compile_fail_outcome case_diagnostics
    expected_summary included_snippets match_diagnostics missing_snippets outcome_or_error
    report_case run_cases run_compile_fail_case lines as_bytes decode encode_char first_byte
    from_utf8_lossy next_byte read_byte contains is_whitespace join len len_utf8 replace split
    starts_with trim trim_start
cargo_test_run = refl

run_cargo_test-IsTested_example :
    IsTested parser execute std test_deadline test_settings 2000000 tested_outcome
    ⊎ IsCutShort parser execute std test_deadline test_settings 2000000 tested_outcome
run_cargo_test-IsTested_example =
    run_cargo_test-IsTested parser execute std test_deadline test_settings 2000000 tested_outcome
      (omega arith) cargo_test_run
