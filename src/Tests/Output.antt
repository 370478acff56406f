-- ===== src/Tests/Output.antt =====
-- Cargo's output on concrete processes, with a parser that finds one message.
use rust_daily.Base.{◌==◌, if◌then◌else◌, ◌≡◌, ◌↔◌, refl, arith, List, [], ◌∷◌, some, none}
use rust_daily.CargoOutput.Cap.{IsTruncated, truncate_string-IsTruncated}
use rust_daily.CargoOutput.Capped.{IsCapped, cap_output-IsCapped}
use rust_daily.CargoOutput.Outcome.{
  IsInternal, IsOutcome, result_from_output-none_iff, result_from_output-IsOutcome,
}
use rust_daily.CargoOutput.Status.{IsClassified, output_status-IsClassified}
use rust_daily.CargoOutput.{
  run_status, cargo_reported_level, filtered_output_streams, cap_texts, output_stream_for_response,
  should_include_response_line, Output, Message, compiler_message, error, output_status,
  result_from_output, cap_output, truncate_string,
}
use rust_daily.Model.Types.{LearnerOutcome, compile_error}
use rust_daily.Text.Lines.{lines}
use rust_daily.Text.Utf8.{as_bytes, Bytes, from_utf8_lossy}
use rust_daily.Text.{codes, join, len, len_utf8}

-- An error for a text that begins with `e`; nothing otherwise.
abbrev parser : Bytes → List Message
parser [] = []
parser (c ∷ s) =
    if c == b'e'
    then compiler_message (record { level = error; message = codes "m"; rendered = none }) ∷ []
    else []

abbrev failed_output : Output
failed_output = record { code = some 101; stdout = codes "e"; stderr = codes "xyz" }

abbrev failed_outcome : LearnerOutcome
failed_outcome = record {
  status = compile_error;
  stdout = codes "e";
  stderr = codes "xyz";
  duration_ms = 7;
}

failed_result : result_from_output parser failed_output 7 100 ≡ some failed_outcome
unfolding result_from_output output_status run_status cargo_reported_level filtered_output_streams
    cap_output cap_texts len from_utf8_lossy as_bytes output_stream_for_response lines
    should_include_response_line len_utf8 join
failed_result = refl

result_from_output-IsOutcome_example : IsOutcome parser failed_output 7 100 failed_outcome
result_from_output-IsOutcome_example =
    result_from_output-IsOutcome parser failed_output 7 100 failed_outcome (omega arith)
      failed_result

-- A process that the container could not run.
abbrev missing_command : Output
missing_command = record { code = some 127; stdout = []; stderr = codes "x" }

result_from_output-none_iff_example :
    (result_from_output parser missing_command 7 100 ≡ none) ↔ IsInternal parser missing_command
result_from_output-none_iff_example = result_from_output-none_iff parser missing_command 7 100

output_status-IsClassified_example :
    IsClassified parser failed_output (output_status parser failed_output)
output_status-IsClassified_example = output_status-IsClassified parser failed_output

cap_output-IsCapped_example :
    IsCapped
      (from_utf8_lossy (codes "abcdef"))
      (from_utf8_lossy (codes "xy"))
      5
      (cap_output (codes "abcdef") (codes "xy") 5)
cap_output-IsCapped_example = cap_output-IsCapped (codes "abcdef") (codes "xy") 5 (omega arith)

truncate_string-IsTruncated_example :
    IsTruncated
      (codes "abcdefghijklmnopqrstuvwxyz")
      23
      (truncate_string (codes "abcdefghijklmnopqrstuvwxyz") 23)
truncate_string-IsTruncated_example =
    truncate_string-IsTruncated (codes "abcdefghijklmnopqrstuvwxyz") 23 (omega arith)
