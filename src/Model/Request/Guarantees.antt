-- ===== src/Model/Request/Guarantees.antt =====
-- The guarantees of validation that the service, the workspace and the runner rely on.
use mathlib.Core.List.{Perm}
use rust_daily.Base.{◌+◌, ◌≤◌, ◌≡◌, true, map, any, length, All, ok}
use rust_daily.Collections.Sorted.{IsSortedMap}
use rust_daily.Model.Cases.Scan.{cases_bytes}
use rust_daily.Model.Cases.Snippets.{IsSmall}
use rust_daily.Model.Limits.{ValidationLimits}
use rust_daily.Model.Request.Files.{entry, IsAccepted}
use rust_daily.Model.Request.Scan.{content_bytes, Distinct}
use rust_daily.Model.Request.Sound.{CaseRules, validate-IsValidated}
use rust_daily.Model.Request.Tree.{PairwiseApart, LeaveTargets}
use rust_daily.Model.Request.{path_texts, validate}
use rust_daily.Model.Types.{
  SubmittedPath_ord, RunRequest, ValidatedRunRequest, is_required_lib, is_test_file,
}

-- If the limits on bytes are below the largest `usize`, validation loses, adds and alters nothing:
-- the files of an accepted request are the submitted paths with their contents, each once, in
-- ascending order of path, and the mode and the dependency set are those submitted.
pub validate-contents :
    (limits : ValidationLimits) (small : IsSmall limits) (request : RunRequest)
    (v : ValidatedRunRequest)
    → validate request limits ≡ ok v
    → Perm v.files (map entry request.files)
      × IsSortedMap v.files
      × (v.mode ≡ request.mode)
      × (v.dependency_set ≡ request.dependency_set)
validate-contents limits small request v h =
    let s = validate-IsValidated limits small request v h in
    (s.contents, s.sorted, s.same_mode, s.same_dependency_set)

-- If the limits on bytes are below the largest `usize`, every file of an accepted request has a
-- safe path of a supported family within the configured limits, and content within the limit for
-- one file; the files are at most as many as allowed, no two have the same path, and the library
-- root and a test file are among them.
pub validate-files :
    (limits : ValidationLimits) (small : IsSmall limits) (request : RunRequest)
    (v : ValidatedRunRequest)
    → validate request limits ≡ ok v
    → All (IsAccepted limits) request.files
      × (length request.files ≤ limits.max_files)
      × Distinct request.files
      × (any (λ f. is_required_lib (entry f).0) request.files ≡ true)
      × (any (λ f. is_test_file (entry f).0) request.files ≡ true)
validate-files limits small request v h =
    let s = validate-IsValidated limits small request v h in
    (s.accepted, s.few_files, s.distinct, s.lib, s.test)

-- If the limits on bytes are below the largest `usize`, the contents of all files, and the contents
-- and the diagnostic snippets of all compile-fail cases of an accepted request, together have at
-- most `max_total_bytes` bytes.
pub validate-total :
    (limits : ValidationLimits) (small : IsSmall limits) (request : RunRequest)
    (v : ValidatedRunRequest)
    → validate request limits ≡ ok v
    → content_bytes request.files + cases_bytes request.compile_fail_cases ≤ limits.max_total_bytes
validate-total limits small request v h = (validate-IsValidated limits small request v h).total

-- If the limits on bytes are below the largest `usize`, in an accepted request no file is a
-- directory of another, and no file is, contains or lies below the test that the runner generates
-- for a compile-fail case.
pub validate-tree :
    (limits : ValidationLimits) (small : IsSmall limits) (request : RunRequest)
    (v : ValidatedRunRequest)
    → validate request limits ≡ ok v
    → PairwiseApart (path_texts v.files) × LeaveTargets (path_texts v.files) v.compile_fail_cases
validate-tree limits small request v h =
    let s = validate-IsValidated limits small request v h in (s.apart, s.targets)

-- If the limits on bytes are below the largest `usize`: An accepted `cargo test` request has no
-- compile-fail cases. In an accepted compile-fail request there are between one and four; each
-- keeps its name, path and content and the trimmed snippets, obeys the rules on all of these,
-- expects at least one snippet and forbids none that it expects; no two have the same source path
-- or the same generated target; and the submitted snippets of all cases together have at most
-- `max_diagnostic_total_bytes` bytes.
pub validate-cases :
    (limits : ValidationLimits) (small : IsSmall limits) (request : RunRequest)
    (v : ValidatedRunRequest)
    → validate request limits ≡ ok v
    → CaseRules limits request.mode request.compile_fail_cases v.compile_fail_cases
validate-cases limits small request v h = (validate-IsValidated limits small request v h).cases
