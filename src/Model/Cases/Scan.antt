-- ===== src/Model/Cases/Scan.antt =====
-- The whole loop over the compile-fail cases.
use rust_daily.Order.{text_ord}
use rust_daily.Base.{
  ℕ, ◌+◌, ◌≤◌, ◌≡◌, ◌≢◌, sym, ◌∙◌, subst, ap, List, [], ◌∷◌, ◌++◌, append-nil, append_assoc, arith,
  All, ok, on_ok,
}
use rust_daily.Collections.Fresh.{fresh-set_insert}
use rust_daily.Collections.Sorted.{IsSortedSet, set_insert-IsSortedSet}
use rust_daily.Collections.Contents.{All-set_insert}
use rust_daily.Model.Cases.Snippets.{AreWithin, IsSmall}
use rust_daily.Model.Cases.Spec.{case_diagnostics, IsValidCase, CaseStep, case_bytes}
use rust_daily.Model.Cases.Step.{scan_case-ok}
use rust_daily.Model.Cases.{CaseScan, scan_case, scan_cases}
use rust_daily.Model.Limits.{ValidationLimits}
use rust_daily.Model.Types.{
  CompileFailPath_ord, SubmittedCompileFailCase, ValidatedCompileFailCase, generated_test_target,
}

-- The submitted and the validated cases, one for one.
abbrev pub AreValidCases :
    ValidationLimits → List SubmittedCompileFailCase → List ValidatedCompileFailCase → Type 0
AreValidCases limits [] [] = Unit
AreValidCases limits [] (v ∷ vs) = ⊥
AreValidCases limits (c ∷ cs) [] = ⊥
AreValidCases limits (c ∷ cs) (v ∷ vs) = IsValidCase limits c v × AreValidCases limits cs vs

-- No two cases have the same generated target, nor the same source path.
abbrev pub DistinctCases : List ValidatedCompileFailCase → Type 0
DistinctCases [] = Unit
DistinctCases (v ∷ vs) =
    All (λ w. (generated_test_target w.name ≢ generated_test_target v.name) × (w.path ≢ v.path)) vs
    × DistinctCases vs

-- The bytes that the cases add to the total.
abbrev pub cases_bytes : List SubmittedCompileFailCase → ℕ
cases_bytes [] = 0
cases_bytes (c ∷ cs) = case_bytes c + cases_bytes cs

-- The bytes of the snippets of all cases.
abbrev pub cases_diagnostics : List SubmittedCompileFailCase → ℕ
cases_diagnostics [] = 0
cases_diagnostics (c ∷ cs) = case_diagnostics c + cases_diagnostics cs

-- Neither the target nor the path of the case is in the sets of the loop.
abbrev IsApart : CaseScan → ValidatedCompileFailCase → Type 0
IsApart scan v =
    All (λ t. t ≢ generated_test_target v.name) scan.target_names × All (λ p. p ≢ v.path) scan.paths

-- What the loop holds in the end, if it began with `scan`.
pub record CasesScanned (limits : ValidationLimits) (scan : CaseScan)
    (cs : List SubmittedCompileFailCase) (scan' : CaseScan) : Type 0 where
  pub new : List ValidatedCompileFailCase
  pub validated_are : scan'.validated ≡ scan.validated ++ new
  pub valid : AreValidCases limits cs new
  pub distinct : DistinctCases new
  pub apart : All (IsApart scan) new
  pub total_is : scan'.counts.total_bytes ≡ scan.counts.total_bytes + cases_bytes cs
  pub diagnostics_are :
      scan'.counts.diagnostic_bytes ≡ scan.counts.diagnostic_bytes + cases_diagnostics cs
  pub diagnostics_within : scan'.counts.diagnostic_bytes ≤ limits.max_diagnostic_total_bytes
  pub total_within : scan'.counts.total_bytes ≤ limits.max_total_bytes

-- The sets are sorted and the counts within the limits, before and after each round.
pub record AreSorted (limits : ValidationLimits) (scan : CaseScan) : Type 0 where
  pub targets : IsSortedSet scan.target_names
  pub paths : IsSortedSet scan.paths
  pub counts : AreWithin limits scan.counts

module _ (limits : ValidationLimits) where
  CaseStep-AreSorted :
      (scan : CaseScan) (c : SubmittedCompileFailCase) (scan' : CaseScan)
      → AreSorted limits scan
      → CaseStep limits scan c scan'
      → AreSorted limits scan'
  CaseStep-AreSorted scan c scan' s step = record {
    targets =
        rw step.targets_are (
          set_insert-IsSortedSet (generated_test_target step.case.name) scan.target_names
            s.targets);
    paths = rw step.paths_are (set_insert-IsSortedSet step.case.path scan.paths s.paths);
    counts = step.counts_within;
  }

  later_cases-IsApart :
      (scan : CaseScan) (c : SubmittedCompileFailCase) (mid : CaseScan)
      (step : CaseStep limits scan c mid) (ws : List ValidatedCompileFailCase)
      → All (IsApart mid) ws
      → All
          (λ w.
            (generated_test_target w.name ≢ generated_test_target step.case.name)
            × (w.path ≢ step.case.path))
          ws
        × All (IsApart scan) ws
  later_cases-IsApart scan c mid step [] h = (tt, tt)
  later_cases-IsApart scan c mid step (w ∷ ws) ((t, p), h) =
      let (ns, qs) = later_cases-IsApart scan c mid step ws h in
      let (tn, ts) =
        All-set_insert (λ x. x ≢ generated_test_target w.name)
          (generated_test_target step.case.name) scan.target_names step.fresh_target
          (subst (All (λ x. x ≢ generated_test_target w.name)) step.targets_are t) in
      let (pn, ps) =
        All-set_insert (λ x. x ≢ w.path) step.case.path scan.paths step.fresh_path
          (subst (All (λ x. x ≢ w.path)) step.paths_are p) in
      (((λ e. tn (sym e), λ e. pn (sym e)), ns), ((ts, ps), qs))

  CasesScanned-cons :
      (scan : CaseScan) (c : SubmittedCompileFailCase) (mid : CaseScan)
      (cs : List SubmittedCompileFailCase) (scan' : CaseScan)
      → AreSorted limits scan
      → CaseStep limits scan c mid
      → CasesScanned limits mid cs scan'
      → CasesScanned limits scan (c ∷ cs) scan'
  CasesScanned-cons scan c mid cs scan' s step t =
      let (ns, qs) = later_cases-IsApart scan c mid step t.new t.apart in
      record {
        new = step.case ∷ t.new;
        validated_are =
            t.validated_are
            ∙ ap (λ x. x ++ t.new) step.validated_are
            ∙ append_assoc scan.validated (step.case ∷ []) t.new;
        valid = (step.valid, t.valid);
        distinct = (ns, t.distinct);
        apart = (
          (
            fresh-set_insert (generated_test_target step.case.name) scan.target_names s.targets
                step.fresh_target,
            fresh-set_insert step.case.path scan.paths s.paths step.fresh_path,
          ),
          qs,
        );
        total_is = omega (arith, t.total_is, step.total_is);
        diagnostics_are = omega (arith, t.diagnostics_are, step.diagnostics_are);
        diagnostics_within = t.diagnostics_within;
        total_within = t.total_within;
      }

  pub scan_cases-CasesScanned :
      (small : IsSmall limits) (scan : CaseScan) (cs : List SubmittedCompileFailCase)
      (scan' : CaseScan)
      → AreSorted limits scan
      → scan_cases limits scan cs ≡ ok scan'
      → CasesScanned limits scan cs scan'
  unfolding scan_cases
  scan_cases-CasesScanned small scan [] scan' s h =
      let same : scan ≡ scan' = ground arith in
      rw (← same) (record {
        new = [];
        validated_are = sym (append-nil scan.validated);
        valid = tt;
        distinct = tt;
        apart = tt;
        total_is = omega arith;
        diagnostics_are = omega arith;
        diagnostics_within = s.counts.diagnostics;
        total_within = s.counts.total;
      })
  scan_cases-CasesScanned small scan (c ∷ cs) scan' s h =
      on_ok (scan_case limits scan c) _ h λ mid e h'.
        let step = scan_case-ok limits small scan c mid s.counts e in
        CasesScanned-cons scan c mid cs scan' s step
          (scan_cases-CasesScanned small mid cs scan' (CaseStep-AreSorted scan c mid s step) h')
