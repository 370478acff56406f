-- ===== src/Model/Cases/Step.antt =====
-- What one round of the loop over the compile-fail cases checks, and what it keeps.
use rust_daily.Order.{text_ord}
use mathlib.Core.List.{Perm}
use rust_daily.Base.{
  ok-injective, ◌↔◌, ℕ, ◌≤◌, ◌≡◌, ◌≢◌, refl, sym, ◌∙◌, subst, not, ◌||◌, true, false, List, [], ◌∷◌,
  ◌++◌, map, Option, none, append-nil, arith, ltb, all, all-eq-true, is_empty, length, All, ok,
  on_ok, on_unit, on_pass, saturating_add,
}
use rust_daily.Collections.{BTreeSet, set_insert, first_common}
use rust_daily.Collections.Contents.{first_common-apart}
use rust_daily.Model.Cases.Snippets.{
  trimmed, Collected, AreWithin, IsSmall, add_snippets-Collected, is_empty-eq-false,
}
use rust_daily.Model.Cases.{
  add_snippets, ByteCounts, CaseScan, is_name_byte, max_compile_fail_case_name_bytes,
  compile_fail_case_name, submitted_content, validate_diagnostic_snippets, no_conflict, scan_case,
}
use rust_daily.Model.Limits.{ValidationLimits}
use rust_daily.Model.Path.Accepted.{validate_path_limits_iff, compile_fail_path_iff}
use rust_daily.Model.Path.{validate_path_limits, compile_fail_path}
use rust_daily.Model.Types.{
  DiagnosticSnippet_ord, CompileFailPath_ord, CompileFailCaseName_ord, SubmittedCompileFailCase,
  SubmittedContent, CompileFailCaseName, CompileFailPath, DiagnosticSnippet,
  ValidatedCompileFailCase, generated_test_target,
}
use rust_daily.Text.Laws.{text_eq→eq}
use rust_daily.Text.{Text, len, text_eq, trim}
use rust_daily.Model.Cases.Spec.{IsCaseName, AreSnippets, CaseStep}

compile_fail_case_name-ok :
    (s : Text) (n : CompileFailCaseName)
    → compile_fail_case_name s ≡ ok n
    → IsCaseName s × (n ≡ record { as_str = s })
unfolding compile_fail_case_name
compile_fail_case_name-ok s n h =
    on_pass
      (is_empty (trim s)
        || not (text_eq s (trim s))
        || ltb max_compile_fail_case_name_bytes (len (trim s))
        || not (all is_name_byte (trim s)))
      _ _ h
      λ t r.
        let same : s ≡ trim s = text_eq→eq s (trim s) (ground (arith, t)) in
        let non_empty : trim s ≢ [] = is_empty-eq-false (trim s) (ground (arith, t)) in
        let bytes : len (trim s) ≤ max_compile_fail_case_name_bytes = ground (arith, t) in
        let letters : All (λ c. is_name_byte c ≡ true) (trim s) =
          all-eq-true is_name_byte (trim s) (ground (arith, t)) in
        (
          record {
            non_empty = λ e. non_empty (sym same ∙ e);
            no_margin = sym same;
            bytes = subst (λ x. len x ≤ max_compile_fail_case_name_bytes) (sym same) bytes;
            letters = subst (All (λ c. is_name_byte c ≡ true)) (sym same) letters;
          },
          ground arith,
        )

pub submitted_content_iff :
    (path content : Text) (n : ℕ) (c : SubmittedContent)
    → (submitted_content path content n ≡ ok c)
      ↔ ((len content ≤ n) × (c ≡ record { as_bytes = content }))
unfolding submitted_content
submitted_content_iff path content n c = ground arith

no_conflict-ok :
    (name : CompileFailCaseName) (o : Option DiagnosticSnippet)
    → no_conflict name o ≡ ok tt
    → o ≡ none
unfolding no_conflict
no_conflict-ok name o h = ground arith

AreSnippets-of_Collected :
    (limits : ValidationLimits) (k : ByteCounts) (ss : List Text) (c : ByteCounts)
    (v : BTreeSet DiagnosticSnippet)
    → Collected limits k [] ss c v
    → AreSnippets limits ss v
AreSnippets-of_Collected limits k ss c v t = record {
  accepted = t.accepted;
  contents = subst (Perm v) (append-nil (map trimmed ss)) t.contents;
  sorted = t.sorted;
}

abbrev accepted_case :
    CompileFailCaseName
    → CompileFailPath
    → SubmittedContent
    → BTreeSet DiagnosticSnippet
    → BTreeSet DiagnosticSnippet
    → ValidatedCompileFailCase
accepted_case name path content e f = record {
  name = name;
  path = path;
  content = content;
  expected_diagnostics = e;
  forbidden_diagnostics = f;
}

-- The variables of the loop after a round.
abbrev after_case : CaseScan → ValidatedCompileFailCase → ByteCounts → CaseScan
after_case scan v counts = record {
  names = (set_insert v.name scan.names).1;
  paths = (set_insert v.path scan.paths).1;
  target_names = (set_insert (generated_test_target v.name) scan.target_names).1;
  validated = scan.validated ++ v ∷ [];
  counts = counts;
}

-- The counts after the content of a case.
abbrev with_content : ByteCounts → Text → ByteCounts
with_content k content = record k { total_bytes = saturating_add k.total_bytes (len content) }

module _ (limits : ValidationLimits) (small : IsSmall limits) where
  case_step :
      (scan : CaseScan) (c : SubmittedCompileFailCase) (name : CompileFailCaseName)
      (path : CompileFailPath) (content : SubmittedContent)
      (e f : ByteCounts × BTreeSet DiagnosticSnippet)
      → AreWithin limits scan.counts
      → compile_fail_case_name c.name ≡ ok name
      → validate_path_limits c.path limits ≡ ok tt
      → compile_fail_path c.path ≡ ok path
      → submitted_content path.as_str c.content limits.max_file_bytes ≡ ok content
      → add_snippets name.as_str limits
          (with_content scan.counts c.content)
          []
          c.expected_diagnostics
        ≡ ok e
      → add_snippets name.as_str limits e.0 [] c.forbidden_diagnostics ≡ ok f
      → saturating_add (length c.expected_diagnostics) (length c.forbidden_diagnostics)
        ≤ limits.max_diagnostic_snippets_per_case
      → (set_insert name scan.names).0 ≡ true
      → (set_insert (generated_test_target name) scan.target_names).0 ≡ true
      → (set_insert path scan.paths).0 ≡ true
      → saturating_add scan.counts.total_bytes (len c.content) ≤ limits.max_total_bytes
      → is_empty e.1 ≡ false
      → no_conflict name (first_common e.1 f.1) ≡ ok tt
      → CaseStep limits scan c (after_case scan (accepted_case name path content e.1 f.1) f.0)
  case_step scan c name path content e f w n l p b x y few new_name new_target new_path total filled
        apart =
      let (name_rules, name_is) = compile_fail_case_name-ok c.name name n in
      let (path_rules, path_is) = (compile_fail_path_iff c.path path).0 p in
      let (bytes, content_is) =
        (submitted_content_iff path.as_str c.content limits.max_file_bytes content).0 b in
      let expected =
        add_snippets-Collected name.as_str limits small (with_content scan.counts c.content) []
          c.expected_diagnostics e.0 e.1 (record { diagnostics = w.diagnostics; total = total }) tt
          x in
      let forbidden =
        add_snippets-Collected name.as_str limits small e.0 [] c.forbidden_diagnostics f.0 f.1
          (record { diagnostics = expected.within_diagnostics; total = expected.within_total }) tt
          y in
      record {
        case = accepted_case name path content e.1 f.1;
        valid = record {
          name_rules = name_rules;
          path_limits = (validate_path_limits_iff c.path limits).0 l;
          path_rules = path_rules;
          content_bytes = bytes;
          few_snippets = few;
          name_is = name_is;
          path_is = path_is;
          content_is = content_is;
          expected = AreSnippets-of_Collected limits _ c.expected_diagnostics e.0 e.1 expected;
          forbidden = AreSnippets-of_Collected limits e.0 c.forbidden_diagnostics f.0 f.1 forbidden;
          some_expected = is_empty-eq-false e.1 filled;
          disjoint = first_common-apart e.1 f.1 (no_conflict-ok name (first_common e.1 f.1) apart);
        };
        fresh_name = new_name;
        fresh_target = new_target;
        fresh_path = new_path;
        names_are = refl;
        targets_are = refl;
        paths_are = refl;
        validated_are = refl;
        total_is = omega (arith, forbidden.total_bytes, expected.total_bytes, total, small.total);
        diagnostics_are = omega (arith, forbidden.diagnostic_bytes, expected.diagnostic_bytes);
        counts_within = record {
          diagnostics = forbidden.within_diagnostics;
          total = forbidden.within_total;
        };
      }

  pub scan_case-ok :
      (scan : CaseScan) (c : SubmittedCompileFailCase) (scan' : CaseScan)
      → AreWithin limits scan.counts
      → scan_case limits scan c ≡ ok scan'
      → CaseStep limits scan c scan'
  unfolding scan_case validate_diagnostic_snippets
  scan_case-ok scan c scan' w h = on_ok (compile_fail_case_name c.name) _ h λ name n h1.
      on_pass
        (ltb limits.max_diagnostic_snippets_per_case
          (saturating_add (length c.expected_diagnostics) (length c.forbidden_diagnostics)))
        _ _ h1
        λ t1 h2. on_pass (not (set_insert name scan.names).0) _ _ h2 λ t2 h3.
          on_pass (not (set_insert (generated_test_target name) scan.target_names).0) _ _ h3
            λ t3 h4. on_unit (validate_path_limits c.path limits) _ h4 λ l h5.
              on_ok (compile_fail_path c.path) _ h5 λ path p h6.
                on_pass (not (set_insert path scan.paths).0) _ _ h6 λ t4 h7.
                  on_pass
                    (ltb limits.max_total_bytes
                      (saturating_add scan.counts.total_bytes (len c.content)))
                    _ _ h7
                    λ t5 h8.
                      on_ok (submitted_content path.as_str c.content limits.max_file_bytes) _ h8
                        λ content b h9.
                          on_ok
                            (validate_diagnostic_snippets name.as_str c.expected_diagnostics limits
                              (record {
                                diagnostic_bytes = scan.counts.diagnostic_bytes;
                                total_bytes =
                                    saturating_add scan.counts.total_bytes (len c.content);
                              }))
                            _ h9
                            λ e x h10. on_pass (is_empty e.1) _ _ h10 λ t6 h11.
                              on_ok
                                (validate_diagnostic_snippets name.as_str c.forbidden_diagnostics
                                  limits e.0)
                                _ h11
                                λ f y h12.
                                  on_unit (no_conflict name (first_common e.1 f.1)) _ h12 λ z r.
                                    subst (CaseStep limits scan c) (ok-injective _ scan' r) (
                                      case_step scan c name path content e f w n l p b x y
                                        (ground (arith, t1)) (ground (arith, t2))
                                        (ground (arith, t3)) (ground (arith, t4))
                                        (ground (arith, t5)) t6 z)
