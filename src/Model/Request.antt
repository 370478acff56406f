-- ===== src/Model/Request.antt =====
-- `ValidatedRunRequest::try_from`: the loop over the files, the required files, the compile-fail
-- cases and the path tree.
pub mod Files
pub mod Scan
pub mod Tree
pub mod Sound
pub mod Guarantees
pub mod Complete
use rust_daily.Base.{
  ℕ, Bool, false, not, ◌||◌, List, [], ◌∷◌, ◌++◌, map, Option, none, some, ltb, any, is_empty,
  length, Result, ok, err, ◌>>=◌, ◌>>◌, fail_if, saturating_add,
}
use rust_daily.Collections.{BTreeMap, insert}
use rust_daily.Model.Cases.{submitted_content, validate_compile_fail_cases}
use rust_daily.Model.Errors.{
  ValidationError, empty_files, too_many_files, total_too_large, duplicate_path,
  path_tree_collision, generated_target_collision, missing_required_file,
}
use rust_daily.Model.Limits.{ValidationLimits}
use rust_daily.Model.Path.{validate_path_limits, submitted_path, paths_collide}
use rust_daily.Model.Types.{
  SubmittedPath_ord, RunRequest, SubmittedFile, SubmittedPath, SubmittedContent,
  ValidatedCompileFailCase, ValidatedRunRequest, CompileFailCaseName, is_required_lib, is_test_file,
  required_lib_path, generated_test_target,
}
use rust_daily.Text.{Text, codes, len}

-- The variables of the loop over the files.
pub record FileScan : Type 0 where
  pub total_bytes : ℕ
  pub validated_files : BTreeMap SubmittedPath SubmittedContent
  pub has_lib_rs : Bool
  pub has_test_file : Bool

abbrev pub no_files : FileScan
no_files = record {
  total_bytes = 0;
  validated_files = [];
  has_lib_rs = false;
  has_test_file = false;
}

-- `if validated_files.insert(…).is_some() { return Err(…) }`.
unfoldable pub no_duplicate :
    {V : Type 0} → SubmittedPath → Option V → Result ValidationError (Unit {0})
no_duplicate path none = ok tt
no_duplicate path (some v) = err (duplicate_path path)

-- One round of that loop.
unfoldable pub scan_file :
    ValidationLimits → FileScan → SubmittedFile → Result ValidationError FileScan
scan_file limits scan file = do
  validate_path_limits file.path limits
  path ← submitted_path file.path
  let total_bytes = saturating_add scan.total_bytes (len file.content)
  fail_if (ltb limits.max_total_bytes total_bytes) (total_too_large limits.max_total_bytes)
  content ← submitted_content path.as_str file.content limits.max_file_bytes
  let inserted = insert path content scan.validated_files
  no_duplicate path inserted.0
  ok (record {
    total_bytes = total_bytes;
    validated_files = inserted.1;
    has_lib_rs = scan.has_lib_rs || is_required_lib path;
    has_test_file = scan.has_test_file || is_test_file path;
  })

unfoldable pub scan_files :
    ValidationLimits → FileScan → List SubmittedFile → Result ValidationError FileScan
scan_files limits scan [] = ok scan
scan_files limits scan (f ∷ fs) = do scan' ← scan_file limits scan f; scan_files limits scan' fs

-- The inner loop of `validate_path_tree`: one path against those behind it.
unfoldable pub check_against : Text → List Text → Result ValidationError (Unit {0})
check_against path [] = ok tt
check_against path (other ∷ others) =
    fail_if (paths_collide path other) (path_tree_collision path other) >> check_against path others

-- The outer loop.
unfoldable pub check_pairs : List Text → Result ValidationError (Unit {0})
check_pairs [] = ok tt
check_pairs (path ∷ paths) = check_against path paths >> check_pairs paths

-- The file that the runner writes for a compile-fail case.
abbrev pub generated_path : CompileFailCaseName → Text
generated_path name = codes "tests/" ++ (generated_test_target name ++ codes ".rs")

-- The loop over the compile-fail cases.
unfoldable pub check_generated :
    List Text → List ValidatedCompileFailCase → Result ValidationError (Unit {0})
check_generated paths [] = ok tt
check_generated paths (c ∷ cs) =
    fail_if (any (λ p. paths_collide p (generated_path c.name)) paths)
      (generated_target_collision (generated_path c.name))
    >> check_generated paths cs

-- `files.keys().map(SubmittedPath::as_str)`.
abbrev pub path_texts : BTreeMap SubmittedPath SubmittedContent → List Text
path_texts files = map (λ e. e.0.as_str) files

unfoldable pub validate_path_tree :
    BTreeMap SubmittedPath SubmittedContent
    → List ValidatedCompileFailCase
    → Result ValidationError (Unit {0})
validate_path_tree files cases =
    check_pairs (path_texts files) >> check_generated (path_texts files) cases

-- `ValidatedRunRequest::try_from`.
unfoldable pub validate : RunRequest → ValidationLimits → Result ValidationError ValidatedRunRequest
validate request limits = do
  fail_if (is_empty request.files) empty_files
  fail_if (ltb limits.max_files (length request.files)) (too_many_files limits.max_files)
  scan ← scan_files limits no_files request.files
  fail_if (not scan.has_lib_rs) (missing_required_file required_lib_path)
  fail_if (not scan.has_test_file) (missing_required_file (codes "tests/**/*.rs"))
  (cases, _) ←
      validate_compile_fail_cases request.mode request.compile_fail_cases limits scan.total_bytes
  validate_path_tree scan.validated_files cases
  ok (record {
    mode = request.mode;
    files = scan.validated_files;
    dependency_set = request.dependency_set;
    compile_fail_cases = cases;
  })
