-- ===== src/Model/Request/Sound.antt =====
-- What an accepted request guarantees.
use mathlib.Core.List.{Perm, append-nil}
use rust_daily.Base.{
  ℕ, ◌+◌, ◌≤◌, ◌≡◌, ◌≢◌, refl, sym, ◌∙◌, subst, not, true, false, List, [], ◌∷◌, map, arith, ltb,
  any, is_empty, length, All, ok, on_ok, on_unit, on_pass, ok-injective,
}
use rust_daily.Collections.Sorted.{IsSortedMap}
use rust_daily.Model.Cases.Scan.{
  cases_diagnostics, AreValidCases, DistinctCases, cases_bytes, scan_cases-CasesScanned,
}
use rust_daily.Model.Cases.Snippets.{IsSmall, is_empty-eq-false}
use rust_daily.Model.Cases.{no_cases, scan_cases, validate_compile_fail_cases}
use rust_daily.Model.Limits.{ValidationLimits, max_compile_fail_cases}
use rust_daily.Model.Request.Files.{entry, IsAccepted}
use rust_daily.Model.Request.Scan.{
  content_bytes, Distinct, Ready, scan_files-Scanned, scan_files-Accepts,
}
use rust_daily.Model.Request.Tree.{PairwiseApart, LeaveTargets, validate_path_tree_iff}
use rust_daily.Model.Request.{
  FileScan, no_files, scan_files, path_texts, validate_path_tree, validate,
}
use rust_daily.Model.Types.{
  SubmittedPath_ord, RunMode, cargo_test, compile_fail, RunRequest, SubmittedCompileFailCase,
  ValidatedCompileFailCase, ValidatedRunRequest, is_required_lib, is_test_file,
}

-- The rules on the cases, by the mode of the request.
abbrev pub CaseRules :
    ValidationLimits
    → RunMode
    → List SubmittedCompileFailCase
    → List ValidatedCompileFailCase
    → Type 0
CaseRules limits cargo_test cs vs = (cs ≡ []) × (vs ≡ [])
CaseRules limits compile_fail cs vs =
    (cs ≢ [])
    × (length cs ≤ max_compile_fail_cases)
    × AreValidCases limits cs vs
    × DistinctCases vs
    × (cases_diagnostics cs ≤ limits.max_diagnostic_total_bytes)

pub record IsValidated (limits : ValidationLimits) (request : RunRequest) (v : ValidatedRunRequest)
    : Type 0 where
  pub same_mode : v.mode ≡ request.mode
  pub same_dependency_set : v.dependency_set ≡ request.dependency_set
  pub some_files : request.files ≢ []
  pub few_files : length request.files ≤ limits.max_files
  pub contents : Perm v.files (map entry request.files)
  pub sorted : IsSortedMap v.files
  pub accepted : All (IsAccepted limits) request.files
  pub distinct : Distinct request.files
  pub lib : any (λ f. is_required_lib (entry f).0) request.files ≡ true
  pub test : any (λ f. is_test_file (entry f).0) request.files ≡ true
  pub cases : CaseRules limits request.mode request.compile_fail_cases v.compile_fail_cases
  pub total :
      content_bytes request.files + cases_bytes request.compile_fail_cases ≤ limits.max_total_bytes
  pub apart : PairwiseApart (path_texts v.files)
  pub targets : LeaveTargets (path_texts v.files) v.compile_fail_cases

record CasesChecked (limits : ValidationLimits) (mode : RunMode)
    (cs : List SubmittedCompileFailCase) (total : ℕ) (vs : List ValidatedCompileFailCase)
    : Type 0 where
  rules : CaseRules limits mode cs vs
  within : total + cases_bytes cs ≤ limits.max_total_bytes

validate_compile_fail_cases-ok :
    (limits : ValidationLimits) (small : IsSmall limits) (mode : RunMode)
    (cs : List SubmittedCompileFailCase) (total : ℕ) (r : List ValidatedCompileFailCase × ℕ)
    → total ≤ limits.max_total_bytes
    → validate_compile_fail_cases mode cs limits total ≡ ok r
    → CasesChecked limits mode cs total r.0
unfolding validate_compile_fail_cases
validate_compile_fail_cases-ok limits small cargo_test [] total r w h = record {
  rules = (refl, ground arith);
  within = omega arith;
}
validate_compile_fail_cases-ok limits small cargo_test (c ∷ cs) total r w h = absurd (cc)
validate_compile_fail_cases-ok limits small compile_fail cs total r w h =
    on_pass (is_empty cs) _ _ h λ t1 h1.
      on_pass (ltb max_compile_fail_cases (length cs)) _ _ h1 λ t2 h2.
        on_ok (scan_cases limits (no_cases total) cs) _ h2 λ scan e h3.
          let s =
            scan_cases-CasesScanned limits small (no_cases total) cs scan
              (record {
                targets = tt;
                paths = tt;
                counts = record { diagnostics = omega arith; total = w };
              })
              e in
          let same : scan.validated ≡ r.0 = ground (arith, h3) in
          let new_is : s.new ≡ r.0 = sym s.validated_are ∙ same in
          record {
            rules = (
              is_empty-eq-false cs t1,
              ground (arith, t2),
              subst (AreValidCases limits cs) new_is s.valid,
              subst DistinctCases new_is s.distinct,
              omega (arith, s.diagnostics_are, s.diagnostics_within),
            );
            within = omega (arith, s.total_is, s.total_within);
          }

-- The request that validation builds in the end.
abbrev pub built : RunRequest → FileScan → List ValidatedCompileFailCase → ValidatedRunRequest
built request scan cases = record {
  mode = request.mode;
  files = scan.validated_files;
  dependency_set = request.dependency_set;
  compile_fail_cases = cases;
}

module _ (limits : ValidationLimits) (small : IsSmall limits) where
  pub starts-Ready : Ready limits small.total no_files
  starts-Ready = record { sorted = tt; within = omega arith }

  built-IsValidated :
      (request : RunRequest) (scan : FileScan) (r : List ValidatedCompileFailCase × ℕ)
      → is_empty request.files ≡ false
      → length request.files ≤ limits.max_files
      → scan_files limits no_files request.files ≡ ok scan
      → scan.has_lib_rs ≡ true
      → scan.has_test_file ≡ true
      → validate_compile_fail_cases request.mode request.compile_fail_cases limits scan.total_bytes
        ≡ ok r
      → validate_path_tree scan.validated_files r.0 ≡ ok tt
      → IsValidated limits request (built request scan r.0)
  built-IsValidated request scan r filled few e lib test p tree =
      let s = scan_files-Scanned limits small.total no_files scan request.files starts-Ready e in
      let a = scan_files-Accepts limits small.total no_files scan request.files starts-Ready e in
      let within : scan.total_bytes ≤ limits.max_total_bytes = omega (arith, s.bytes, a.within) in
      let c =
        validate_compile_fail_cases-ok limits small request.mode request.compile_fail_cases
          scan.total_bytes r within p in
      let (apart, targets) = (validate_path_tree_iff scan.validated_files r.0).0 tree in
      record {
        same_mode = refl;
        same_dependency_set = refl;
        some_files = is_empty-eq-false request.files filled;
        few_files = few;
        contents =
            subst (Perm scan.validated_files) (append-nil (map entry request.files)) s.contents;
        sorted = s.sorted;
        accepted = a.accepted;
        distinct = a.distinct;
        lib = sym s.lib ∙ lib;
        test = sym s.test ∙ test;
        cases = c.rules;
        total = omega (arith, c.within, s.bytes);
        apart = apart;
        targets = targets;
      }

  pub validate-IsValidated :
      (request : RunRequest) (v : ValidatedRunRequest)
      → validate request limits ≡ ok v
      → IsValidated limits request v
  unfolding validate
  validate-IsValidated request v h = on_pass (is_empty request.files) _ _ h λ t1 h1.
      on_pass (ltb limits.max_files (length request.files)) _ _ h1 λ t2 h2.
        on_ok (scan_files limits no_files request.files) _ h2 λ scan e h3.
          on_pass (not scan.has_lib_rs) _ _ h3 λ t3 h4.
            on_pass (not scan.has_test_file) _ _ h4 λ t4 h5.
              on_ok
                (validate_compile_fail_cases request.mode request.compile_fail_cases limits
                  scan.total_bytes)
                _ h5
                λ r p h6. on_unit (validate_path_tree scan.validated_files r.0) _ h6 λ z last.
                  subst (IsValidated limits request) (ok-injective _ v last) (
                    built-IsValidated request scan r t1 (ground (arith, t2)) e (ground (arith, t3))
                      (ground (arith, t4)) p z)
