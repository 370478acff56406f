-- ===== src/Service.antt =====
-- backend/src/service.rs and backend/src/error.rs: validation before dispatch, and the HTTP errors.
-- The dispatcher is a function on a state of its own; JSON and the texts of the error messages are not modelled.
pub mod Answers
pub mod Health
use rust_daily.Base.{ok, err, if◌then◌else◌, ℕ, Result, map_err}
use rust_daily.Model.Limits.{ValidationLimits}
use rust_daily.Model.Errors.{
  ValidationError, is_payload_limit, empty_files, too_many_files, file_too_large, total_too_large,
  unsafe_path, unsupported_path, duplicate_path, path_tree_collision, generated_target_collision,
  missing_required_file, compile_fail_cases_not_allowed, missing_compile_fail_cases,
  too_many_compile_fail_cases, invalid_compile_fail_case_name, duplicate_compile_fail_case_name,
  duplicate_compile_fail_case_path, missing_expected_diagnostics, empty_diagnostic_snippet,
  too_many_diagnostic_snippets, diagnostic_snippet_too_large, diagnostics_too_large,
  duplicate_diagnostic_snippet, conflicting_diagnostic_snippet,
}
use rust_daily.Model.Request.{validate}
use rust_daily.Text.{Text, codes}
use rust_daily.Model.Types.{RunRequest, ValidatedRunRequest, LearnerOutcome, ServiceFailure}

-- Errors that the dispatch port returns after validation.
pub data DispatchError : Type 0 where
  at_capacity : DispatchError
  service_failure : ServiceFailure → DispatchError

pub data RunServiceError : Type 0 where
  validation : ValidationError → RunServiceError
  dispatch_failed : DispatchError → RunServiceError

-- `LessonRunService`: the port has a state of its own, `S`, which a dispatch may change.
pub record LessonRunService (S : Type 0) : Type 0 where
  pub dispatch : ValidatedRunRequest → S → S × Result DispatchError LearnerOutcome
  pub validation_limits : ValidationLimits

-- What `run_lesson` does behind the validation and its `?`.
unfoldable pub dispatch_validated :
    {S : Type 0}
    → LessonRunService S
    → Result RunServiceError ValidatedRunRequest
    → S
    → S × Result RunServiceError LearnerOutcome
dispatch_validated service (err e) s = (s, err e)
dispatch_validated service (ok validated) s =
    let (s', r) = service.dispatch validated s in (s', map_err dispatch_failed r)

unfoldable pub run_lesson :
    {S : Type 0} → LessonRunService S → RunRequest → S → S × Result RunServiceError LearnerOutcome
run_lesson service request =
    dispatch_validated service (map_err validation (validate request service.validation_limits))

-- `ApiError`; the source of an `invalid_json` error is another library's.
pub data ApiError : Type 0 where
  validation_error : ValidationError → ApiError
  json_payload_too_large : ApiError
  invalid_json : ApiError
  queue_full : ApiError
  service_unavailable : ℕ → ApiError

unfoldable pub status_code : ApiError → ℕ
status_code (validation_error e) = if is_payload_limit e then 413 else 400
status_code json_payload_too_large = 413
status_code invalid_json = 400
status_code queue_full = 429
status_code (service_unavailable _) = 503

-- The two conversions into `ApiError`.
unfoldable pub from_dispatch_error : DispatchError → ApiError
from_dispatch_error at_capacity = queue_full
from_dispatch_error (service_failure failure) = service_unavailable failure.correlation_id

unfoldable pub from_run_service_error : RunServiceError → ApiError
from_run_service_error (validation e) = validation_error e
from_run_service_error (dispatch_failed e) = from_dispatch_error e

unfoldable pub validation_code : ValidationError → Text
validation_code empty_files = codes "empty_files"
validation_code (too_many_files _) = codes "too_many_files"
validation_code (file_too_large _ _) = codes "file_too_large"
validation_code (total_too_large _) = codes "total_too_large"
validation_code (unsafe_path _) = codes "unsafe_path"
validation_code (unsupported_path _) = codes "unsupported_path"
validation_code (duplicate_path _) = codes "duplicate_path"
validation_code (path_tree_collision _ _) = codes "path_tree_collision"
validation_code (generated_target_collision _) = codes "generated_target_collision"
validation_code (missing_required_file _) = codes "missing_required_file"
validation_code compile_fail_cases_not_allowed = codes "compile_fail_cases_not_allowed"
validation_code missing_compile_fail_cases = codes "missing_compile_fail_cases"
validation_code (too_many_compile_fail_cases _) = codes "too_many_compile_fail_cases"
validation_code (invalid_compile_fail_case_name _) = codes "invalid_compile_fail_case_name"
validation_code (duplicate_compile_fail_case_name _) = codes "duplicate_compile_fail_case_name"
validation_code (duplicate_compile_fail_case_path _) = codes "duplicate_compile_fail_case_path"
validation_code (missing_expected_diagnostics _) = codes "missing_expected_diagnostics"
validation_code (empty_diagnostic_snippet _) = codes "empty_diagnostic_snippet"
validation_code (too_many_diagnostic_snippets _ _) = codes "too_many_diagnostic_snippets"
validation_code (diagnostic_snippet_too_large _ _) = codes "diagnostic_snippet_too_large"
validation_code (diagnostics_too_large _) = codes "diagnostics_too_large"
validation_code (duplicate_diagnostic_snippet _ _) = codes "duplicate_diagnostic_snippet"
validation_code (conflicting_diagnostic_snippet _ _) = codes "conflicting_diagnostic_snippet"

-- `ApiError::code`.
unfoldable pub code : ApiError → Text
code (validation_error e) = validation_code e
code json_payload_too_large = codes "json_payload_too_large"
code invalid_json = codes "invalid_json"
code queue_full = codes "queue_full"
code (service_unavailable _) = codes "service_unavailable"

-- The handler of `POST /run`: the service's errors become `ApiError`s.
unfoldable pub run :
    {S : Type 0} → LessonRunService S → RunRequest → S → S × Result ApiError LearnerOutcome
run service request s =
    let (s', r) = run_lesson service request s in (s', map_err from_run_service_error r)
