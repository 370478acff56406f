-- ===== src/Runner/Rounds.antt =====
-- The reports on compile-fail cases, and when they hold no failure.
use rust_daily.Config.Settings.{RunnerSettings}
use rust_daily.Base.{
  ◌≢◌, ℕ, true, false, ◌&&◌, ◌≡◌, refl, arith, List, [], ◌∷◌, ◌++◌, inl, inr, is_empty, All,
  Bool-cases, if◌then◌else◌,
}
use rust_daily.Collections.{BTreeSet}
use rust_daily.Model.Deadline.{RunDeadline, timed_out_outcome}
use rust_daily.Model.Types.{
  DiagnosticSnippet, ValidatedCompileFailCase, LearnerOutcome, passed, failed,
}
use rust_daily.Runner.{
  compiled_message, wrong_message, CompileFailCaseResult, failed_as_expected, compiled_unexpectedly,
  wrong_diagnostics, case_timed_out, case_output_limit_exceeded, output_limit_result,
  missing_snippets, included_snippets, match_diagnostics, Reports, report_case,
  compile_fail_outcome,
}
use rust_daily.Text.{Text, contains}

-- A text that the snippets of a case match.
pub record IsMatched (c : ValidatedCompileFailCase) (diagnostics : Text) : Type 0 where
  pub expected : All (λ s. contains diagnostics s.as_str ≡ true) c.expected_diagnostics
  pub forbidden : All (λ s. contains diagnostics s.as_str ≡ false) c.forbidden_diagnostics

none_missing :
    (d : Text) (ss : BTreeSet DiagnosticSnippet)
    → is_empty (missing_snippets d ss) ≡ true
    → All (λ s. contains d s.as_str ≡ true) ss
unfolding missing_snippets
none_missing d [] h = tt
none_missing d (s ∷ ss) h = elim (Bool-cases (contains d s.as_str)) [
  | inl e ↦ (e, none_missing d ss (unfold missing_snippets in ground (arith, h, e)))
  | inr e ↦ absurd (ground (arith, h, e))
]

none_included :
    (d : Text) (ss : BTreeSet DiagnosticSnippet)
    → is_empty (included_snippets d ss) ≡ true
    → All (λ s. contains d s.as_str ≡ false) ss
unfolding included_snippets
none_included d [] h = tt
none_included d (s ∷ ss) h = elim (Bool-cases (contains d s.as_str)) [
  | inr e ↦ (e, none_included d ss (ground (arith, h, e)))
  | inl e ↦ absurd (ground (arith, h, e))
]

pub match_diagnostics-IsMatched :
    (c : ValidatedCompileFailCase) (d n e : Text)
    → match_diagnostics c d ≡ failed_as_expected n e
    → IsMatched c d
unfolding match_diagnostics
match_diagnostics-IsMatched c d n e h =
    let f : is_empty (missing_snippets d c.expected_diagnostics)
          && is_empty (included_snippets d c.forbidden_diagnostics)
        ≡ true =
      ground (arith, h) in
    record {
      expected = none_missing d c.expected_diagnostics (ground (arith, f));
      forbidden = none_included d c.forbidden_diagnostics (ground (arith, f));
    }

snoc-ne-nil {ℓ} : {A : Type ℓ} (xs : List A) (x : A) → xs ++ x ∷ [] ≢ []
snoc-ne-nil [] x h = cc
snoc-ne-nil (y ∷ xs) x h = cc

-- A round that leaves no failure behind found none, and its case failed as expected.
pub record IsGoodRound (r : Reports) (result : CompileFailCaseResult) : Type 0 where
  pub before : r.failures ≡ []
  pub name : Text
  pub diagnostics : Text
  pub as_expected : result ≡ failed_as_expected name diagnostics

pub report_case-IsGoodRound :
    (deadline : RunDeadline) (config : RunnerSettings) (now : ℕ) (r : Reports)
    (result : CompileFailCaseResult) (r' : Reports)
    → report_case deadline config now r result ≡ inr r'
    → r'.failures ≡ []
    → IsGoodRound r result
unfolding report_case
report_case-IsGoodRound d s now r (failed_as_expected n e) r' h w = record {
  before = ground (arith, h, w);
  name = n;
  diagnostics = e;
  as_expected = refl;
}
report_case-IsGoodRound d s now r (compiled_unexpectedly n) r' h w =
    absurd (snoc-ne-nil r.failures (compiled_message n) (ground (arith, h, w)))
report_case-IsGoodRound d s now r (wrong_diagnostics n a b e) r' h w =
    absurd (snoc-ne-nil r.failures (wrong_message n a b) (ground (arith, h, w)))
report_case-IsGoodRound d s now r case_timed_out r' h w = absurd (cc)
report_case-IsGoodRound d s now r case_output_limit_exceeded r' h w = absurd (cc)

-- An outcome that ends the loop is not a passed one.
pub report_case-ended :
    (deadline : RunDeadline) (config : RunnerSettings) (now : ℕ) (r : Reports)
    (result : CompileFailCaseResult) (x : LearnerOutcome)
    → report_case deadline config now r result ≡ inl x
    → x.status ≢ passed
unfolding report_case timed_out_outcome output_limit_result
report_case-ended d s now r (failed_as_expected n e) x h = absurd (cc)
report_case-ended d s now r (compiled_unexpectedly n) x h = absurd (cc)
report_case-ended d s now r (wrong_diagnostics n a b e) x h = absurd (cc)
report_case-ended d s now r case_timed_out x h = λ e. ground (arith, h, e)
report_case-ended d s now r case_output_limit_exceeded x h = λ e. ground (arith, h, e)

nil_of_passed : (xs : List Text) → (if is_empty xs then passed else failed) ≡ passed → xs ≡ []
nil_of_passed [] h = refl
nil_of_passed (x ∷ xs) h = absurd (cc)

-- The outcome made of the reports is passed only without failures.
pub compile_fail_outcome-passed :
    (deadline : RunDeadline) (config : RunnerSettings) (now : ℕ) (r : Reports)
    → (compile_fail_outcome deadline config now r).status ≡ passed
    → r.failures ≡ []
unfolding compile_fail_outcome
compile_fail_outcome-passed d s now r h = nil_of_passed r.failures h
