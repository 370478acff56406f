-- ===== src/Model/Cases/Spec.antt =====
-- The rules on a compile-fail case, and what a round of the loop over the cases makes of it.
use rust_daily.Order.{text_ord}
use mathlib.Core.List.{Perm}
use rust_daily.Base.{
  ℕ, ◌+◌, ◌≤◌, ◌≡◌, ◌≢◌, true, List, [], ◌∷◌, ◌++◌, map, length, All, saturating_add,
}
use rust_daily.Collections.{BTreeSet, set_insert}
use rust_daily.Collections.Sorted.{IsSortedSet}
use rust_daily.Model.Cases.Snippets.{trimmed, snippet_bytes, IsSnippet, AreWithin}
use rust_daily.Model.Cases.{CaseScan, is_name_byte, max_compile_fail_case_name_bytes}
use rust_daily.Model.Limits.{ValidationLimits}
use rust_daily.Model.Path.Accepted.{IsWithinLimits, IsCompileFailPath}
use rust_daily.Model.Types.{
  DiagnosticSnippet_ord, CompileFailPath_ord, CompileFailCaseName_ord, SubmittedCompileFailCase,
  DiagnosticSnippet, ValidatedCompileFailCase, generated_test_target,
}
use rust_daily.Text.{Text, len, trim}

pub record IsCaseName (s : Text) : Type 0 where
  pub non_empty : s ≢ []
  pub no_margin : trim s ≡ s
  pub bytes : len s ≤ max_compile_fail_case_name_bytes
  pub letters : All (λ c. is_name_byte c ≡ true) s

-- A list of snippets and the set that validation makes of it.
pub record AreSnippets (limits : ValidationLimits) (ss : List Text) (v : BTreeSet DiagnosticSnippet)
    : Type 0 where
  pub accepted : All (IsSnippet limits) ss
  pub contents : Perm v (map trimmed ss)
  pub sorted : IsSortedSet v

-- A case as submitted and as validated.
pub record IsValidCase (limits : ValidationLimits) (c : SubmittedCompileFailCase)
    (v : ValidatedCompileFailCase) : Type 0 where
  pub name_rules : IsCaseName c.name
  pub path_limits : IsWithinLimits limits c.path
  pub path_rules : IsCompileFailPath c.path
  pub content_bytes : len c.content ≤ limits.max_file_bytes
  pub few_snippets :
      saturating_add (length c.expected_diagnostics) (length c.forbidden_diagnostics)
      ≤ limits.max_diagnostic_snippets_per_case
  pub name_is : v.name ≡ record { as_str = c.name }
  pub path_is : v.path ≡ record { as_str = c.path }
  pub content_is : v.content ≡ record { as_bytes = c.content }
  pub expected : AreSnippets limits c.expected_diagnostics v.expected_diagnostics
  pub forbidden : AreSnippets limits c.forbidden_diagnostics v.forbidden_diagnostics
  pub some_expected : v.expected_diagnostics ≢ []
  pub disjoint : All (λ s. All (λ t. s ≢ t) v.forbidden_diagnostics) v.expected_diagnostics

-- The bytes of a case's snippets, as submitted.
abbrev pub case_diagnostics : SubmittedCompileFailCase → ℕ
case_diagnostics c = snippet_bytes c.expected_diagnostics + snippet_bytes c.forbidden_diagnostics

-- The bytes that a case adds to the total.
abbrev pub case_bytes : SubmittedCompileFailCase → ℕ
case_bytes c = len c.content + case_diagnostics c

pub record CaseStep (limits : ValidationLimits) (scan : CaseScan) (c : SubmittedCompileFailCase)
    (scan' : CaseScan) : Type 0 where
  pub case : ValidatedCompileFailCase
  pub valid : IsValidCase limits c case
  pub fresh_name : (set_insert case.name scan.names).0 ≡ true
  pub fresh_target : (set_insert (generated_test_target case.name) scan.target_names).0 ≡ true
  pub fresh_path : (set_insert case.path scan.paths).0 ≡ true
  pub names_are : scan'.names ≡ (set_insert case.name scan.names).1
  pub targets_are :
      scan'.target_names ≡ (set_insert (generated_test_target case.name) scan.target_names).1
  pub paths_are : scan'.paths ≡ (set_insert case.path scan.paths).1
  pub validated_are : scan'.validated ≡ scan.validated ++ case ∷ []
  pub total_is : scan'.counts.total_bytes ≡ scan.counts.total_bytes + case_bytes c
  pub diagnostics_are :
      scan'.counts.diagnostic_bytes ≡ scan.counts.diagnostic_bytes + case_diagnostics c
  pub counts_within : AreWithin limits scan'.counts
