-- ===== src/Tests/Validation.antt =====
-- Validation on the concrete requests.
use rust_daily.Base.{true, ◌↔◌, All, ◌≡◌, refl, ok, arith}
use mathlib.Core.List.{Perm}
use rust_daily.Collections.Sorted.{IsSortedMap}
use rust_daily.DependencySet.{std}
use rust_daily.Model.Cases.Scan.{cases_bytes}
use rust_daily.Model.Limits.Payload.{checked, try_new_iff}
use rust_daily.Model.Limits.{IsConsistent}
use rust_daily.Model.Path.Accepted.{
  IsDecidedPath, submitted_path_iff, IsCompileFailPath, compile_fail_path_iff,
}
use rust_daily.Model.Path.Collide.{IsBelow, paths_collide_iff}
use rust_daily.Model.Path.Safe.{validate_safe_path_iff, resolve, resolve-safe}
use rust_daily.Model.Path.Shape.{IsSafePath}
use rust_daily.Model.Path.{slash}
use rust_daily.Model.Request.Complete.{IsAcceptable, validate_iff}
use rust_daily.Model.Request.Files.{entry, IsAccepted}
use rust_daily.Model.Request.Scan.{content_bytes, Distinct}
use rust_daily.Model.Request.Sound.{CaseRules}
use rust_daily.Model.Request.Tree.{PairwiseApart, LeaveTargets, validate_path_tree_iff}
use rust_daily.Model.Request.{path_texts}
use rust_daily.Model.Types.{
  SubmittedPath_ord, SubmittedPath, CompileFailPath, cargo_test, compile_fail,
}
use rust_daily.Tests.{test_files}
use rust_daily.Base.{any, length, map, [], ◌∷◌, ◌++◌, ◌+◌, ◌≤◌, ◌⊎◌}
use rust_daily.Model.Cases.Snippets.{IsSmall}
use rust_daily.Model.Request.Guarantees.{
  validate-contents, validate-files, validate-total, validate-tree, validate-cases,
}
use rust_daily.Collections.{insert, first_common, set_contains, set_insert}
use rust_daily.Model.Cases.{
  add_snippet, add_snippets, compile_fail_case_name, diagnostic_snippet, is_name_byte, no_conflict,
  scan_case, scan_cases, submitted_content, validate_compile_fail_cases,
  validate_diagnostic_snippets,
}
use rust_daily.Model.Errors.{with_owned_path}
use rust_daily.Model.Path.{
  check_components, components, compile_fail_path, first_components, has_unsafe_shape, is_absolute,
  is_supported_path, later_components, paths_collide, submitted_path, submitted_path_from_str,
  validate_path_limits, validate_safe_path, validate_supported_path,
}
use rust_daily.Model.Request.{
  check_against, check_generated, check_pairs, no_duplicate, scan_file, scan_files, validate,
  validate_path_tree,
}
use rust_daily.Model.Types.{
  ValidatedRunRequest, generated_test_target, is_required_lib, is_test_file,
}
use rust_daily.Text.{
  Text, ends_with, is_ascii_alphanumeric, is_control, is_whitespace, len, len_utf8, replace, split,
  starts_with, text_eq, trim, trim_start,
}
use rust_daily.Order.{text_cmp}
use rust_daily.Tests.{
  codes, test_limits, cargo_request, cargo_validated, compile_fail_request, compile_fail_validated,
}

pub test_limits-IsSmall : IsSmall test_limits
test_limits-IsSmall = record { total = omega arith; diagnostics = omega arith }

cargo_accepted : validate cargo_request test_limits ≡ ok cargo_validated
unfolding insert first_common set_contains set_insert add_snippet add_snippets
    compile_fail_case_name diagnostic_snippet is_name_byte no_conflict scan_case scan_cases
    submitted_content validate_compile_fail_cases validate_diagnostic_snippets with_owned_path
    check_components components compile_fail_path first_components has_unsafe_shape is_absolute
    is_supported_path later_components paths_collide submitted_path submitted_path_from_str
    validate_path_limits validate_safe_path validate_supported_path check_against check_generated
    check_pairs no_duplicate scan_file scan_files validate validate_path_tree generated_test_target
    is_required_lib is_test_file ends_with is_ascii_alphanumeric is_control is_whitespace len
    len_utf8 replace split starts_with text_eq trim trim_start text_cmp
cargo_accepted = refl

pub compile_fail_accepted : validate compile_fail_request test_limits ≡ ok compile_fail_validated
unfolding insert first_common set_contains set_insert add_snippet add_snippets
    compile_fail_case_name diagnostic_snippet is_name_byte no_conflict scan_case scan_cases
    submitted_content validate_compile_fail_cases validate_diagnostic_snippets with_owned_path
    check_components components compile_fail_path first_components has_unsafe_shape is_absolute
    is_supported_path later_components paths_collide submitted_path submitted_path_from_str
    validate_path_limits validate_safe_path validate_supported_path check_against check_generated
    check_pairs no_duplicate scan_file scan_files validate validate_path_tree generated_test_target
    is_required_lib is_test_file ends_with is_ascii_alphanumeric is_control is_whitespace len
    len_utf8 replace split starts_with text_eq trim trim_start text_cmp
compile_fail_accepted = refl

validate-tree_example :
    PairwiseApart (path_texts compile_fail_validated.files)
    × LeaveTargets
        (path_texts compile_fail_validated.files)
        compile_fail_validated.compile_fail_cases
validate-tree_example =
    validate-tree test_limits test_limits-IsSmall compile_fail_request compile_fail_validated
      compile_fail_accepted

validate-files_example :
    All (IsAccepted test_limits) test_files
    × (length test_files ≤ 8)
    × Distinct test_files
    × (any (λ f. is_required_lib (entry f).0) test_files ≡ true)
    × (any (λ f. is_test_file (entry f).0) test_files ≡ true)
validate-files_example =
    validate-files test_limits test_limits-IsSmall compile_fail_request compile_fail_validated
      compile_fail_accepted

validate-contents_example :
    Perm cargo_validated.files (map entry test_files)
    × IsSortedMap cargo_validated.files
    × (cargo_validated.mode ≡ cargo_test)
    × (cargo_validated.dependency_set ≡ std)
validate-contents_example =
    validate-contents test_limits test_limits-IsSmall cargo_request cargo_validated cargo_accepted

validate-total_example :
    content_bytes test_files + cases_bytes compile_fail_request.compile_fail_cases ≤ 262144
validate-total_example =
    validate-total test_limits test_limits-IsSmall compile_fail_request compile_fail_validated
      compile_fail_accepted

validate-cases_example :
    CaseRules test_limits compile_fail compile_fail_request.compile_fail_cases
      compile_fail_validated.compile_fail_cases
validate-cases_example =
    validate-cases test_limits test_limits-IsSmall compile_fail_request compile_fail_validated
      compile_fail_accepted

validate_iff_example :
    ((v : ValidatedRunRequest) × (validate cargo_request test_limits ≡ ok v))
    ↔ IsAcceptable test_limits cargo_request
validate_iff_example = validate_iff test_limits test_limits-IsSmall cargo_request refl

-- Paths, one accepted and one that leaves its directory.
abbrev good_path : Text
good_path = codes "tests/a.rs"

abbrev bad_path : Text
bad_path = codes "src/../lib.rs"

good_path_ok : validate_safe_path good_path ≡ ok tt
unfolding validate_safe_path has_unsafe_shape components first_components later_components
    check_components is_absolute split text_eq ends_with is_control len len_utf8
good_path_ok = refl

resolve-safe_example :
    resolve (codes "workspace" ∷ []) (components good_path)
    ≡ codes "workspace" ∷ [] ++ split slash good_path
resolve-safe_example = resolve-safe (codes "workspace" ∷ []) good_path good_path_ok

validate_safe_path_iff_example : (validate_safe_path bad_path ≡ ok tt) ↔ IsSafePath bad_path
validate_safe_path_iff_example = validate_safe_path_iff bad_path

paths_collide_iff_example :
    (paths_collide good_path (codes "tests") ≡ true)
    ↔ (IsBelow good_path (codes "tests") ⊎ IsBelow (codes "tests") good_path)
paths_collide_iff_example = paths_collide_iff good_path (codes "tests")

validate_path_tree_iff_example :
    (validate_path_tree compile_fail_validated.files compile_fail_validated.compile_fail_cases
      ≡ ok tt)
    ↔ (PairwiseApart (path_texts compile_fail_validated.files)
        × LeaveTargets
            (path_texts compile_fail_validated.files)
            compile_fail_validated.compile_fail_cases)
validate_path_tree_iff_example =
    validate_path_tree_iff compile_fail_validated.files compile_fail_validated.compile_fail_cases

abbrev good_submitted : SubmittedPath
good_submitted = record { as_str = good_path }

abbrev bad_case_path : CompileFailPath
bad_case_path = record { as_str = bad_path }

submitted_path_iff_example :
    (submitted_path good_path ≡ ok good_submitted) ↔ IsDecidedPath good_path (ok good_submitted)
submitted_path_iff_example = submitted_path_iff good_path (ok good_submitted)

compile_fail_path_iff_example :
    (compile_fail_path bad_path ≡ ok bad_case_path)
    ↔ (IsCompileFailPath bad_path × (bad_case_path ≡ record { as_str = bad_path }))
compile_fail_path_iff_example = compile_fail_path_iff bad_path bad_case_path

try_new_iff_example :
    (checked test_limits ≡ ok test_limits)
    ↔ (IsConsistent test_limits × (test_limits ≡ test_limits))
try_new_iff_example = try_new_iff test_limits test_limits
