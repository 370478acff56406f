-- ===== src/Service/Answers.antt =====
-- Which answers `POST /run` gives, for any dispatcher, and what it does to its state.
use rust_daily.Model.Request.Sound.{validate-IsValidated, IsValidated}
use rust_daily.Model.Cases.Snippets.{IsSmall}
use rust_daily.Base.{ℕ, ◌≡◌, refl, List, [], ◌∷◌, any, if◌then◌else◌, Result, ok, err, map_err}
use rust_daily.Model.Errors.{
  ValidationError, is_payload_limit, empty_files, too_many_files, file_too_large, total_too_large,
  unsafe_path, unsupported_path, duplicate_path, path_tree_collision, generated_target_collision,
  missing_required_file, compile_fail_cases_not_allowed, missing_compile_fail_cases,
  too_many_compile_fail_cases, invalid_compile_fail_case_name, duplicate_compile_fail_case_name,
  duplicate_compile_fail_case_path, missing_expected_diagnostics, empty_diagnostic_snippet,
  too_many_diagnostic_snippets, diagnostic_snippet_too_large, diagnostics_too_large,
  duplicate_diagnostic_snippet, conflicting_diagnostic_snippet,
}
use rust_daily.Model.Request.{validate}
use rust_daily.Model.Types.{RunRequest, ValidatedRunRequest, LearnerOutcome, ServiceFailure}
use rust_daily.Service.{
  dispatch_validated, LessonRunService, DispatchError, at_capacity, service_failure,
  dispatch_failed, ApiError, validation_error, json_payload_too_large, invalid_json, queue_full,
  service_unavailable, status_code, from_dispatch_error, from_run_service_error, validation_code,
  code, run_lesson, run,
}
use rust_daily.Text.{Text, codes, text_eq}

module _ {S : Type 0} (service : LessonRunService S) (request : RunRequest) (s : S) where
  -- `v` is what validation makes of the request, and obeys the rules on requests.
  abbrev pub IsDispatchable : ValidatedRunRequest → Type 0
  IsDispatchable v =
      (validate request service.validation_limits ≡ ok v)
      × IsValidated service.validation_limits request v

  -- Which answers the handler gives, each beside the dispatcher's state behind it.
  pub data IsAnswer : S × Result ApiError LearnerOutcome → Type 0 where
    invalid :
        (e : ValidationError)
        → validate request service.validation_limits ≡ err e
        → IsAnswer (s, err (validation_error e))
    answered :
        (v : ValidatedRunRequest) (x : LearnerOutcome) (s' : S)
        → IsDispatchable v
        → service.dispatch v s ≡ (s', ok x)
        → IsAnswer (s', ok x)
    crowded :
        (v : ValidatedRunRequest) (s' : S)
        → IsDispatchable v
        → service.dispatch v s ≡ (s', err at_capacity)
        → IsAnswer (s', err queue_full)
    broken :
        (v : ValidatedRunRequest) (failure : ServiceFailure) (s' : S)
        → IsDispatchable v
        → service.dispatch v s ≡ (s', err (service_failure failure))
        → IsAnswer (s', err (service_unavailable failure.correlation_id))

  by_dispatch :
      (v : ValidatedRunRequest) (s' : S) (d : Result DispatchError LearnerOutcome)
      → IsDispatchable v
      → service.dispatch v s ≡ (s', d)
      → IsAnswer (s', map_err from_run_service_error (map_err dispatch_failed d))
  unfolding from_run_service_error from_dispatch_error
  by_dispatch v s' (ok x) h e = answered v x s' h e
  by_dispatch v s' (err at_capacity) h e = crowded v s' h e
  by_dispatch v s' (err (service_failure f)) h e = broken v f s' h e

  -- If the limits on bytes are below the largest `usize`: The handler answers every request, and in
  -- one of four ways: a request that fails validation gives that validation error, and leaves the
  -- dispatcher's state as it was; for any other, the validated request obeys all rules on requests
  -- and is dispatched once, the state is that of this dispatch, and the answer is its outcome, or
  -- that the queue is full if the dispatcher is at capacity, or that the service is unavailable,
  -- with the failure's correlation id, if the dispatcher failed.
  pub run-IsAnswer : IsSmall service.validation_limits → IsAnswer (run service request s)
  unfolding run run_lesson dispatch_validated from_run_service_error
  run-IsAnswer small = go (validate request service.validation_limits) refl
    where
      go :
          (r : Result ValidationError ValidatedRunRequest)
          → validate request service.validation_limits ≡ r
          → IsAnswer (run service request s)
      go (ok v) h = rw h (
          by_dispatch v _ _ (h, validate-IsValidated service.validation_limits small request v h)
            refl)
      go (err e) h = rw h (invalid e h)

-- The codes that come with status 413.
abbrev payload_codes : List Text
payload_codes =
    codes "too_many_files"
    ∷ codes "file_too_large"
    ∷ codes "total_too_large"
    ∷ codes "too_many_compile_fail_cases"
    ∷ codes "too_many_diagnostic_snippets"
    ∷ codes "diagnostic_snippet_too_large"
    ∷ codes "diagnostics_too_large"
    ∷ codes "json_payload_too_large"
    ∷ []

-- The status that a client may infer from the code alone.
unfoldable pub documented_status : Text → ℕ
documented_status t =
    if any (text_eq t) payload_codes
    then 413
    else if text_eq t (codes "queue_full")
    then 429
    else if text_eq t (codes "service_unavailable")
    then 503
    else 400

validation-status :
    (e : ValidationError) → status_code (validation_error e) ≡ documented_status (validation_code e)
unfolding status_code is_payload_limit documented_status validation_code text_eq
validation-status empty_files = refl
validation-status (too_many_files _) = refl
validation-status (file_too_large _ _) = refl
validation-status (total_too_large _) = refl
validation-status (unsafe_path _) = refl
validation-status (unsupported_path _) = refl
validation-status (duplicate_path _) = refl
validation-status (path_tree_collision _ _) = refl
validation-status (generated_target_collision _) = refl
validation-status (missing_required_file _) = refl
validation-status compile_fail_cases_not_allowed = refl
validation-status missing_compile_fail_cases = refl
validation-status (too_many_compile_fail_cases _) = refl
validation-status (invalid_compile_fail_case_name _) = refl
validation-status (duplicate_compile_fail_case_name _) = refl
validation-status (duplicate_compile_fail_case_path _) = refl
validation-status (missing_expected_diagnostics _) = refl
validation-status (empty_diagnostic_snippet _) = refl
validation-status (too_many_diagnostic_snippets _ _) = refl
validation-status (diagnostic_snippet_too_large _ _) = refl
validation-status (diagnostics_too_large _) = refl
validation-status (duplicate_diagnostic_snippet _ _) = refl
validation-status (conflicting_diagnostic_snippet _ _) = refl

-- The status of every error is that which its code stands for: 413 for the codes of exceeded
-- limits, 429 for a full queue, 503 for an unavailable service, and 400 for every other one.
pub status_code-code : (e : ApiError) → status_code e ≡ documented_status (code e)
unfolding status_code documented_status code text_eq
status_code-code (validation_error e) = validation-status e
status_code-code json_payload_too_large = refl
status_code-code invalid_json = refl
status_code-code queue_full = refl
status_code-code (service_unavailable id) = refl
