-- ===== src/Model/Cases.antt =====
-- The compile-fail part of a request: case names, diagnostic snippets, and the loop over the cases.
-- A loop is a function over its list; the running counts are threaded as `&mut` arguments are.
pub mod Snippets
pub mod Spec
pub mod Step
pub mod Scan
use rust_daily.Order.{text_ord}
use rust_daily.Base.{
  ℕ, Bool, not, ◌||◌, List, [], ◌∷◌, ◌++◌, Option, none, some, ltb, ◌==◌, all, is_empty, length,
  Result, ok, err, ◌>>=◌, ◌>>◌, fail_if, saturating_add,
}
use rust_daily.Collections.{BTreeSet, set_insert, first_common}
use rust_daily.Model.Errors.{
  ValidationError, file_too_large, total_too_large, compile_fail_cases_not_allowed,
  missing_compile_fail_cases, too_many_compile_fail_cases, invalid_compile_fail_case_name,
  duplicate_compile_fail_case_name, duplicate_compile_fail_case_path, missing_expected_diagnostics,
  empty_diagnostic_snippet, too_many_diagnostic_snippets, diagnostic_snippet_too_large,
  diagnostics_too_large, duplicate_diagnostic_snippet, conflicting_diagnostic_snippet,
}
use rust_daily.Model.Limits.{ValidationLimits, max_compile_fail_cases}
use rust_daily.Model.Path.{validate_path_limits, compile_fail_path}
use rust_daily.Model.Types.{
  DiagnosticSnippet_ord, CompileFailPath_ord, CompileFailCaseName_ord, RunMode, cargo_test,
  compile_fail, SubmittedCompileFailCase, SubmittedContent, CompileFailCaseName, CompileFailPath,
  DiagnosticSnippet, ValidatedCompileFailCase, generated_test_target,
}
use rust_daily.Text.{Text, len, text_eq, trim, is_ascii_alphanumeric}

abbrev pub max_compile_fail_case_name_bytes : ℕ
max_compile_fail_case_name_bytes = 80

-- A byte of a case name. The bytes of a character beyond ASCII are all at least 0x80, so the test
-- of each byte refuses them, and the test of each code point refuses the same names.
unfoldable pub is_name_byte : ℕ → Bool
is_name_byte c = is_ascii_alphanumeric c || c == b'_' || c == b'-'

-- `CompileFailCaseName::try_from`.
unfoldable pub compile_fail_case_name : Text → Result ValidationError CompileFailCaseName
compile_fail_case_name value =
    let trimmed = trim value in
    fail_if
      (is_empty trimmed
        || not (text_eq value trimmed)
        || ltb max_compile_fail_case_name_bytes (len trimmed)
        || not (all is_name_byte trimmed))
      (invalid_compile_fail_case_name value)
    >> ok (record { as_str = trimmed })

-- `DiagnosticSnippet::try_from`.
unfoldable pub diagnostic_snippet : Text → Text → Result ValidationError DiagnosticSnippet
diagnostic_snippet value case_name =
    let trimmed = trim value in
    fail_if (is_empty trimmed) (empty_diagnostic_snippet case_name)
    >> ok (record { as_str = trimmed })

-- `SubmittedContent::try_from` of a `SubmittedContentInput`.
unfoldable pub submitted_content : Text → Text → ℕ → Result ValidationError SubmittedContent
submitted_content path content max_file_bytes =
    fail_if (ltb max_file_bytes (len content)) (file_too_large path max_file_bytes)
    >> ok (record { as_bytes = content })

-- The two running counts that the snippets add to.
pub record ByteCounts : Type 0 where
  pub diagnostic_bytes : ℕ
  pub total_bytes : ℕ

-- One round of the loop in `validate_diagnostic_snippets`.
unfoldable pub add_snippet :
    Text
    → ValidationLimits
    → ByteCounts
    → BTreeSet DiagnosticSnippet
    → Text
    → Result ValidationError (ByteCounts × BTreeSet DiagnosticSnippet)
add_snippet case_name limits counts validated snippet = do
  let snippet_bytes = len snippet
  fail_if (ltb limits.max_diagnostic_snippet_bytes snippet_bytes)
      (diagnostic_snippet_too_large case_name limits.max_diagnostic_snippet_bytes)
  let diagnostic_bytes = saturating_add counts.diagnostic_bytes snippet_bytes
  fail_if (ltb limits.max_diagnostic_total_bytes diagnostic_bytes)
      (diagnostics_too_large limits.max_diagnostic_total_bytes)
  let total_bytes = saturating_add counts.total_bytes snippet_bytes
  fail_if (ltb limits.max_total_bytes total_bytes) (total_too_large limits.max_total_bytes)
  s ← diagnostic_snippet snippet case_name
  let inserted = set_insert s validated
  fail_if (not inserted.0) (duplicate_diagnostic_snippet case_name s.as_str)
  ok (record { diagnostic_bytes = diagnostic_bytes; total_bytes = total_bytes }, inserted.1)

unfoldable pub add_snippets :
    Text
    → ValidationLimits
    → ByteCounts
    → BTreeSet DiagnosticSnippet
    → List Text
    → Result ValidationError (ByteCounts × BTreeSet DiagnosticSnippet)
add_snippets case_name limits counts validated [] = ok (counts, validated)
add_snippets case_name limits counts validated (s ∷ ss) = do
  (counts', validated') ← add_snippet case_name limits counts validated s
  add_snippets case_name limits counts' validated' ss

unfoldable pub validate_diagnostic_snippets :
    Text
    → List Text
    → ValidationLimits
    → ByteCounts
    → Result ValidationError (ByteCounts × BTreeSet DiagnosticSnippet)
validate_diagnostic_snippets case_name snippets limits counts =
    add_snippets case_name limits counts [] snippets

-- The variables of the loop in `validate_compile_fail_cases`.
pub record CaseScan : Type 0 where
  pub names : BTreeSet CompileFailCaseName
  pub paths : BTreeSet CompileFailPath
  pub target_names : BTreeSet Text
  pub validated : List ValidatedCompileFailCase
  pub counts : ByteCounts

-- `if let Some(snippet) = expected.intersection(&forbidden).next() { return Err(…) }`.
unfoldable pub no_conflict :
    CompileFailCaseName → Option DiagnosticSnippet → Result ValidationError (Unit {0})
no_conflict name none = ok tt
no_conflict name (some s) = err (conflicting_diagnostic_snippet name.as_str s.as_str)

-- One round of that loop.
unfoldable pub scan_case :
    ValidationLimits → CaseScan → SubmittedCompileFailCase → Result ValidationError CaseScan
scan_case limits scan c = do
  name ← compile_fail_case_name c.name
  fail_if
      (ltb limits.max_diagnostic_snippets_per_case
        (saturating_add (length c.expected_diagnostics) (length c.forbidden_diagnostics)))
      (too_many_diagnostic_snippets name.as_str limits.max_diagnostic_snippets_per_case)
  let names = set_insert name scan.names
  fail_if (not names.0) (duplicate_compile_fail_case_name name.as_str)
  let target_names = set_insert (generated_test_target name) scan.target_names
  fail_if (not target_names.0) (duplicate_compile_fail_case_name name.as_str)
  validate_path_limits c.path limits
  path ← compile_fail_path c.path
  let paths = set_insert path scan.paths
  fail_if (not paths.0) (duplicate_compile_fail_case_path path.as_str)
  let total_bytes = saturating_add scan.counts.total_bytes (len c.content)
  fail_if (ltb limits.max_total_bytes total_bytes) (total_too_large limits.max_total_bytes)
  content ← submitted_content path.as_str c.content limits.max_file_bytes
  (expected_counts, expected) ←
      validate_diagnostic_snippets name.as_str c.expected_diagnostics limits
        (record { diagnostic_bytes = scan.counts.diagnostic_bytes; total_bytes = total_bytes })
  fail_if (is_empty expected) (missing_expected_diagnostics name.as_str)
  (forbidden_counts, forbidden) ←
      validate_diagnostic_snippets name.as_str c.forbidden_diagnostics limits expected_counts
  no_conflict name (first_common expected forbidden)
  ok (record {
    names = names.1;
    paths = paths.1;
    target_names = target_names.1;
    validated =
        scan.validated
        ++ (record {
          name = name;
          path = path;
          content = content;
          expected_diagnostics = expected;
          forbidden_diagnostics = forbidden;
        }
            ∷ []);
    counts = forbidden_counts;
  })

unfoldable pub scan_cases :
    ValidationLimits → CaseScan → List SubmittedCompileFailCase → Result ValidationError CaseScan
scan_cases limits scan [] = ok scan
scan_cases limits scan (c ∷ cs) = do scan' ← scan_case limits scan c; scan_cases limits scan' cs

abbrev pub no_cases : ℕ → CaseScan
no_cases total_bytes = record {
  names = [];
  paths = [];
  target_names = [];
  validated = [];
  counts = record { diagnostic_bytes = 0; total_bytes = total_bytes };
}

-- The validated cases, and the final `total_bytes`.
unfoldable pub validate_compile_fail_cases :
    RunMode
    → List SubmittedCompileFailCase
    → ValidationLimits
    → ℕ
    → Result ValidationError (List ValidatedCompileFailCase × ℕ)
validate_compile_fail_cases cargo_test cases limits total_bytes =
    fail_if (not (is_empty cases)) compile_fail_cases_not_allowed >> ok ([], total_bytes)
validate_compile_fail_cases compile_fail cases limits total_bytes = do
  fail_if (is_empty cases) missing_compile_fail_cases
  fail_if (ltb max_compile_fail_cases (length cases))
      (too_many_compile_fail_cases max_compile_fail_cases)
  scan ← scan_cases limits (no_cases total_bytes) cases
  ok (scan.validated, scan.counts.total_bytes)
