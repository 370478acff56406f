-- ===== src/Model/Errors.antt =====
-- `ValidationError`, with the two methods on it.
use rust_daily.Base.{ℕ, Bool, true, false}
use rust_daily.Model.Types.{SubmittedPath}
use rust_daily.Text.{Text}

pub data ValidationError : Type 0 where
  empty_files : ValidationError
  too_many_files : ℕ → ValidationError
  file_too_large : Text → ℕ → ValidationError
  total_too_large : ℕ → ValidationError
  unsafe_path : Text → ValidationError
  unsupported_path : Text → ValidationError
  duplicate_path : SubmittedPath → ValidationError
  path_tree_collision : Text → Text → ValidationError
  generated_target_collision : Text → ValidationError
  missing_required_file : Text → ValidationError
  compile_fail_cases_not_allowed : ValidationError
  missing_compile_fail_cases : ValidationError
  too_many_compile_fail_cases : ℕ → ValidationError
  invalid_compile_fail_case_name : Text → ValidationError
  duplicate_compile_fail_case_name : Text → ValidationError
  duplicate_compile_fail_case_path : Text → ValidationError
  missing_expected_diagnostics : Text → ValidationError
  empty_diagnostic_snippet : Text → ValidationError
  too_many_diagnostic_snippets : Text → ℕ → ValidationError
  diagnostic_snippet_too_large : Text → ℕ → ValidationError
  diagnostics_too_large : ℕ → ValidationError
  duplicate_diagnostic_snippet : Text → Text → ValidationError
  conflicting_diagnostic_snippet : Text → Text → ValidationError

-- Whether the error is answered with HTTP 413.
unfoldable pub is_payload_limit : ValidationError → Bool
is_payload_limit (too_many_files _) = true
is_payload_limit (file_too_large _ _) = true
is_payload_limit (total_too_large _) = true
is_payload_limit (too_many_compile_fail_cases _) = true
is_payload_limit (too_many_diagnostic_snippets _ _) = true
is_payload_limit (diagnostic_snippet_too_large _ _) = true
is_payload_limit (diagnostics_too_large _) = true
is_payload_limit _ = false

unfoldable pub with_owned_path : ValidationError → Text → ValidationError
with_owned_path (unsafe_path _) path = unsafe_path path
with_owned_path (unsupported_path _) path = unsupported_path path
with_owned_path other path = other
