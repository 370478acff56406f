-- ===== src/Model/Request/Complete.antt =====
-- Which `cargo test` requests are accepted.
use mathlib.Core.List.{append-nil, Perm}
use mathlib.Core.List.Perm
use rust_daily.Base.{
  ltb, ap, subst, ℕ, ◌≤◌, ◌≡◌, ◌≢◌, ◌↔◌, refl, ◌∙◌, true, false, List, [], ◌∷◌, map, arith, any,
  is_empty, length, All, ok,
}
use rust_daily.Model.Cases.Snippets.{IsSmall}
use rust_daily.Model.Cases.{validate_compile_fail_cases}
use rust_daily.Model.Limits.{ValidationLimits}
use rust_daily.Model.Request.Files.{entry, IsAccepted}
use rust_daily.Model.Request.Scan.{content_bytes, Distinct, ok-scan_files, scan_files-Scanned}
use rust_daily.Model.Request.Sound.{built, CaseRules, validate-IsValidated, starts-Ready}
use rust_daily.Model.Request.Tree.{PairwiseApart-perm, PairwiseApart, validate_path_tree_iff}
use rust_daily.Model.Request.{
  scan_files, ValidatedCompileFailCase, FileScan, SubmittedContent, SubmittedPath, BTreeMap,
  no_files, path_texts, validate_path_tree, validate,
}
use rust_daily.Model.Types.{
  SubmittedCompileFailCase, RunMode, RunRequest, SubmittedFile, ValidatedRunRequest, cargo_test,
  is_required_lib, is_test_file,
}

-- The rules on a `cargo test` request, in terms of what was submitted.
pub record IsAcceptable (limits : ValidationLimits) (request : RunRequest) : Type 0 where
  pub some_files : request.files ≢ []
  pub few_files : length request.files ≤ limits.max_files
  pub accepted : All (IsAccepted limits) request.files
  pub distinct : Distinct request.files
  pub total : content_bytes request.files ≤ limits.max_total_bytes
  pub lib : any (λ f. is_required_lib (entry f).0) request.files ≡ true
  pub test : any (λ f. is_test_file (entry f).0) request.files ≡ true
  pub no_cases : request.compile_fail_cases ≡ []
  pub apart : PairwiseApart (map (λ (f : SubmittedFile). f.path) request.files)

-- All checks passed, one after the other.
validate-built :
    (limits : ValidationLimits) (request : RunRequest) (scan : FileScan)
    (r : List ValidatedCompileFailCase × ℕ)
    → is_empty request.files ≡ false
    → ltb limits.max_files (length request.files) ≡ false
    → scan_files limits no_files request.files ≡ ok scan
    → scan.has_lib_rs ≡ true
    → scan.has_test_file ≡ true
    → validate_compile_fail_cases request.mode request.compile_fail_cases limits scan.total_bytes
      ≡ ok r
    → validate_path_tree scan.validated_files r.0 ≡ ok tt
    → validate request limits ≡ ok (built request scan r.0)
unfolding validate
validate-built limits request scan r filled few e lib test cases tree =
    simp (filled, few, e, lib, test, cases, tree)

no_cases_cargo :
    (limits : ValidationLimits) (mode : RunMode) (cs : List SubmittedCompileFailCase) (total : ℕ)
    → mode ≡ cargo_test
    → cs ≡ []
    → validate_compile_fail_cases mode cs limits total ≡ ok ([], total)
unfolding validate_compile_fail_cases
no_cases_cargo limits mode cs total m n = rw (m, n)

filled_files : (fs : List SubmittedFile) → fs ≢ [] → is_empty fs ≡ false
filled_files [] n = absurd (n refl)
filled_files (f ∷ fs) n = refl

-- The paths of the validated files are those submitted, in another order.
paths_perm :
    (files : List SubmittedFile) (m : BTreeMap SubmittedPath SubmittedContent)
    → Perm m (map entry files)
    → Perm (path_texts m) (map (λ (f : SubmittedFile). f.path) files)
paths_perm files m h = subst (Perm (path_texts m)) (texts files) (Perm.map (λ e. e.0.as_str) h)
  where
    texts :
        (fs : List SubmittedFile)
        → path_texts (map entry fs) ≡ map (λ (f : SubmittedFile). f.path) fs
    texts [] = refl
    texts (f ∷ fs) = ap (◌∷◌ f.path) (texts fs)

module _ (limits : ValidationLimits) (small : IsSmall limits) (request : RunRequest)
    (mode : request.mode ≡ cargo_test) where
  accepted→acceptable :
      (v : ValidatedRunRequest) → validate request limits ≡ ok v → IsAcceptable limits request
  accepted→acceptable v h =
      let s = validate-IsValidated limits small request v h in
      record {
        some_files = s.some_files;
        few_files = s.few_files;
        accepted = s.accepted;
        distinct = s.distinct;
        total = omega (arith, s.total);
        lib = s.lib;
        test = s.test;
        no_cases =
            (subst (λ m. CaseRules limits m request.compile_fail_cases v.compile_fail_cases) mode
              s.cases).0;
        apart = PairwiseApart-perm _ _ (paths_perm request.files v.files s.contents) s.apart;
      }

  acceptable→accepted :
      IsAcceptable limits request → (v : ValidatedRunRequest) × (validate request limits ≡ ok v)
  acceptable→accepted a =
      let (scan, e) = ok-scan_files limits small.total no_files request.files (record {
        accepted = a.accepted;
        distinct = a.distinct;
        apart = nothing_before request.files;
        within = omega (arith, a.total);
      }) in
      let s =
        scan_files-Scanned limits small.total no_files scan request.files
          (starts-Ready limits small) e in
      let tree : validate_path_tree scan.validated_files [] ≡ ok tt =
        (validate_path_tree_iff scan.validated_files []).1 (
          PairwiseApart-perm _ _
              (Perm.symm (
                paths_perm request.files scan.validated_files (
                  subst (Perm scan.validated_files) (append-nil (map entry request.files))
                    s.contents)))
              a.apart,
          tt,
        ) in
      (
        built request scan [],
        validate-built limits request scan ([], scan.total_bytes)
            (filled_files request.files a.some_files) (ground (arith, a.few_files)) e
            (s.lib ∙ a.lib) (s.test ∙ a.test)
            (no_cases_cargo limits request.mode request.compile_fail_cases scan.total_bytes mode
              a.no_cases)
            tree,
      )
    where
      nothing_before :
          (fs : List SubmittedFile)
          → All (λ f. All (λ (e : SubmittedPath × SubmittedContent). e.0 ≢ (entry f).0) []) fs
      nothing_before [] = tt
      nothing_before (f ∷ fs) = (tt, nothing_before fs)

  -- If the limits on bytes are below the largest `usize`, a `cargo test` request is accepted
  -- exactly if it obeys the rules: it has files, not too many,
  -- each with a safe path of a supported family within the limits and not too large; no two paths
  -- are equal and none is a directory of another; the contents together fit the limit; the library
  -- root and a test file are present; and there are no compile-fail cases.
  pub validate_iff :
      ((v : ValidatedRunRequest) × (validate request limits ≡ ok v)) ↔ IsAcceptable limits request
  validate_iff = (λ (v, h). accepted→acceptable v h, acceptable→accepted)
