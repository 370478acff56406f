-- ===== src/CargoOutput.antt =====
-- backend/src/cargo_output.rs: classification of Cargo's output, and the streams that a learner
-- sees. `cargo_messages` is the third-party parser of Cargo's JSON lines: a section's parameter.
pub mod Cap
pub mod Budgets
pub mod Capped
pub mod Status
pub mod Outcome
use rust_daily.Base.{
  ℕ, ◌+◌, ◌-◌, ◌/◌, Bool, true, false, not, ◌&&◌, ◌||◌, List, [], ◌∷◌, ◌++◌, Option, none, some,
  ltb, leb, ◌==◌, if◌then◌else◌, any, is_empty, keep, max, saturating_add, Result, ok, err,
}
use rust_daily.Model.Types.{RunStatus, passed, failed, compile_error, timed_out, LearnerOutcome}
use rust_daily.Text.Lines.{lines}
use rust_daily.Text.Utf8.{Bytes, from_utf8_lossy, as_bytes}
use rust_daily.Text.{Text, codes, len, len_utf8, starts_with, contains, trim, join}

-- `std::process::Output`; the exit code is absent if a signal ended the process.
pub record Output : Type 0 where
  pub code : Option ℕ
  pub stdout : Bytes
  pub stderr : Bytes

-- `ExitStatus::success`.
abbrev pub is_success : Option ℕ → Bool
is_success none = false
is_success (some c) = c == 0

-- `output.status.code() == Some(124)`, and `matches!(…, Some(125..=127))`.
abbrev pub is_timeout_code : Option ℕ → Bool
is_timeout_code none = false
is_timeout_code (some c) = c == 124

abbrev pub is_infrastructure_code : Option ℕ → Bool
is_infrastructure_code none = false
is_infrastructure_code (some c) = leb 125 c && leb c 127

-- The parts of `cargo_metadata::Message` that the code reads.
pub data DiagnosticLevel : Type 0 where
  ice error other_level : DiagnosticLevel

pub record Diagnostic : Type 0 where
  pub level : DiagnosticLevel
  pub message : Text
  pub rendered : Option Text

pub data Message : Type 0 where
  compiler_message : Diagnostic → Message
  text_line : Text → Message
  compiler_artifact build_script_executed other_message : Message
  build_finished : Bool → Message

pub data CargoOutputStatus : Type 0 where
  success timed_out_status compiler_error failure cargo_error : CargoOutputStatus
  infrastructure_error internal_compiler_error : CargoOutputStatus

-- `RunStatus::try_from`.
unfoldable pub run_status : CargoOutputStatus → Result CargoOutputStatus RunStatus
run_status success = ok passed
run_status timed_out_status = ok timed_out
run_status compiler_error = ok compile_error
run_status failure = ok failed
run_status cargo_error = err cargo_error
run_status infrastructure_error = err infrastructure_error
run_status internal_compiler_error = err internal_compiler_error

-- `message.message.level == expected`.
abbrev pub has_level : DiagnosticLevel → DiagnosticLevel → Bool
has_level ice ice = true
has_level error error = true
has_level other_level other_level = true
has_level _ _ = false

unfoldable pub is_podman_log_line : Text → Bool
is_podman_log_line line =
    starts_with line (codes "time=\"")
    && contains line (codes "\" level=")
    && contains line (codes " msg=\"")

abbrev pub truncation_marker : Text
truncation_marker = codes "\n[output truncated]\n"

-- The loop of the `scan` adapter: characters as long as they fit the budget.
unfoldable pub scan_prefix : ℕ → ℕ → Text → Text
scan_prefix used max_bytes [] = []
scan_prefix used max_bytes (c ∷ s) =
    let next = saturating_add used (len_utf8 c) in
    let rest = scan_prefix next max_bytes s in if ltb max_bytes next then [] else c ∷ rest

-- The loop that pushes characters to `truncated`.
unfoldable pub push_prefix : Text → ℕ → Text → Text
push_prefix truncated content_budget [] = truncated
push_prefix truncated content_budget (c ∷ s) =
    let rest = push_prefix (truncated ++ c ∷ []) content_budget s in
    if ltb content_budget (saturating_add (len truncated) (len_utf8 c)) then truncated else rest

unfoldable pub truncate_string : Text → ℕ → Text
truncate_string value max_bytes =
    if leb (len value) max_bytes
    then value
    else if leb max_bytes (len truncation_marker)
    then scan_prefix 0 max_bytes value
    else push_prefix [] (max_bytes - len truncation_marker) value ++ truncation_marker

-- `usize::from(!…is_empty()) + usize::from(!…is_empty())`, at least 1.
unfoldable pub non_empty_streams : Text → Text → ℕ
non_empty_streams stdout stderr =
    max ((if is_empty stdout then 0 else 1) + (if is_empty stderr then 0 else 1)) 1

-- The two budgets of `cap_output`, after each of its adjustments.
abbrev pub Budgets : Type 0
Budgets = ℕ × ℕ

unfoldable pub first_budgets : Text → Text → ℕ → Budgets
unfolding non_empty_streams
first_budgets stdout stderr max_output_bytes =
    let stdout_budget =
      if is_empty stdout then 0 else max_output_bytes / non_empty_streams stdout stderr in
    (stdout_budget, max_output_bytes - stdout_budget)

-- `if stdout.len() < stdout_budget { … }`.
unfoldable pub give_to_stderr : Text → ℕ → Budgets → Budgets
give_to_stderr stdout max_output_bytes (out, rest) =
    if ltb (len stdout) out then (len stdout, max_output_bytes - len stdout) else (out, rest)

-- `if stderr.len() < stderr_budget { … }`.
unfoldable pub give_to_stdout : Text → ℕ → Budgets → Budgets
give_to_stdout stderr max_output_bytes (out, rest) =
    if ltb (len stderr) rest then (max_output_bytes - len stderr, len stderr) else (out, rest)

-- `cap_output` on the decoded streams.
unfoldable pub cap_texts : Text → Text → ℕ → Text × Text
unfolding first_budgets give_to_stderr give_to_stdout
cap_texts stdout stderr max_output_bytes =
    if leb (saturating_add (len stdout) (len stderr)) max_output_bytes
    then (stdout, stderr)
    else if max_output_bytes == 0
    then ([], [])
    else let (out, rest) =
        give_to_stdout stderr max_output_bytes
          (give_to_stderr stdout max_output_bytes (first_budgets stdout stderr max_output_bytes)) in
      (truncate_string stdout out, truncate_string stderr rest)

unfoldable pub cap_output : Bytes → Bytes → ℕ → Text × Text
cap_output stdout stderr max_output_bytes =
    cap_texts (from_utf8_lossy stdout) (from_utf8_lossy stderr) max_output_bytes

-- The closures over one message.
abbrev pub reports : DiagnosticLevel → Message → Bool
reports expected (compiler_message d) = has_level d.level expected
reports expected _ = false

abbrev pub finished_well : Message → Bool
finished_well (build_finished succeeded) = succeeded
finished_well _ = false

-- `match cargo_messages(line.as_bytes()).next()`.
abbrev pub is_for_learner : List Message → Bool
is_for_learner [] = true
is_for_learner (compiler_message d ∷ ms) = true
is_for_learner (text_line t ∷ ms) = true
is_for_learner (_ ∷ ms) = false

-- `diagnostic.rendered.unwrap_or(diagnostic.message)`.
abbrev pub shown : Option Text → Text → Text
shown none message = message
shown (some rendered) message = rendered

-- The trimmed texts of the error diagnostics.
unfoldable pub error_texts : List Message → List Text
error_texts [] = []
error_texts (compiler_message d ∷ ms) =
    let rest = error_texts ms in
    if has_level d.level error then trim (shown d.rendered d.message) ∷ rest else rest
error_texts (_ ∷ ms) = error_texts ms

module _ (cargo_messages : Bytes → List Message) where
  unfoldable pub cargo_reported_level : Bytes → DiagnosticLevel → Bool
  cargo_reported_level output expected = any (reports expected) (cargo_messages output)

  unfoldable pub cargo_build_succeeded : Bytes → Bool
  cargo_build_succeeded output = any finished_well (cargo_messages output)

  -- Classifies raw Cargo process output.
  unfoldable pub output_status : Output → CargoOutputStatus
  output_status output =
      if is_success output.code
      then success
      else if is_timeout_code output.code
      then timed_out_status
      else if is_infrastructure_code output.code
      then infrastructure_error
      else if cargo_reported_level output.stdout ice || cargo_reported_level output.stderr ice
      then internal_compiler_error
      else if cargo_reported_level output.stdout error || cargo_reported_level output.stderr error
      then compiler_error
      else if cargo_build_succeeded output.stdout || cargo_build_succeeded output.stderr
      then failure
      else cargo_error

  unfoldable pub should_include_response_line : Bool → Text → Bool
  should_include_response_line command_succeeded line =
      if command_succeeded && is_podman_log_line line
      then false
      else is_for_learner (cargo_messages (as_bytes line))

  unfoldable pub output_stream_for_response : Bytes → Bool → Text
  output_stream_for_response output command_succeeded =
      join (codes "\n")
        (keep (should_include_response_line command_succeeded) (lines (from_utf8_lossy output)))

  unfoldable pub filtered_output_streams : Output → ℕ → Text × Text
  filtered_output_streams output max_output_bytes =
      cap_output (as_bytes (output_stream_for_response output.stdout (is_success output.code)))
        (as_bytes (output_stream_for_response output.stderr (is_success output.code)))
        max_output_bytes

  unfoldable pub compiler_diagnostic_text : Bytes → List Text
  unfolding error_texts
  compiler_diagnostic_text output =
      keep (λ m. not (is_empty m)) (error_texts (cargo_messages output))

  unfoldable pub diagnostic_text : Output → Text
  diagnostic_text output =
      let compiler_diagnostics =
        compiler_diagnostic_text output.stdout ++ compiler_diagnostic_text output.stderr in
      if not (is_empty compiler_diagnostics)
      then join (codes "\n\n") compiler_diagnostics
      else join (codes "\n\n") (
          keep (λ stream. not (is_empty (trim stream)))
            (output_stream_for_response output.stdout (is_success output.code)
              ∷ output_stream_for_response output.stderr (is_success output.code)
              ∷ []))

  -- Converts Cargo output into a learner-visible outcome; `none` for an internal failure.
  unfoldable pub result_from_output : Output → ℕ → ℕ → Option LearnerOutcome
  result_from_output output duration_ms max_output_bytes =
      elim (run_status (output_status output)) [
        | err e ↦ none
        | ok status ↦
            let (stdout, stderr) = filtered_output_streams output max_output_bytes in
            some (record {
              status = status;
              stdout = stdout;
              stderr = stderr;
              duration_ms = duration_ms;
            })
      ]
