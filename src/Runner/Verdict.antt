-- ===== src/Runner/Verdict.antt =====
-- What a passed compile-fail run says of its cases.
use rust_daily.Config.Settings.{RunnerSettings}
use mathlib.Core.Option.{some-injective}
use rust_daily.Base.{
  ◌≢◌, ℕ, ◌≡◌, refl, sym, ap, ◌∙◌, ◌>>=◌, subst, List, [], ◌∷◌, Option, none, some, ◌⊎◌, inl, inr,
  All, Result, ok, on_ok, ok-injective,
}
use rust_daily.CargoOutput.{
  result_from_output, run_status, Output, Message, CargoOutputStatus, success, timed_out_status,
  compiler_error, failure, cargo_error, infrastructure_error, internal_compiler_error,
  output_status, diagnostic_text,
}
use rust_daily.CargoOutput.Outcome.{result_from_output-status}
use rust_daily.DependencySet.{
  DependencySet, CargoTestCommand, check_lib_command, check_test_command,
}
use rust_daily.Model.Deadline.{elapsed_ms, RunDeadline, timed_out_outcome}
use rust_daily.Model.Types.{
  ValidatedCompileFailCase, ValidatedRunRequest, LearnerOutcome, RunStatus, passed, failed,
  compile_error, generated_test_target,
}
use rust_daily.Runner.{
  outcome_or_error, RunnerError, PodmanOutcome, completed, outer_timeout, output_limit_exceeded,
  cancelled, CompileFailCaseResult, failed_as_expected, output_limit_result, Reports, no_reports,
  report_case,
}
use rust_daily.Runner.Runs.{
  case_status, case_outcome, run_compile_fail_case, run_cases, baseline_status, baseline_outcome,
  after_cases, after_baseline, run_compile_fail,
}
use rust_daily.Text.Utf8.{Bytes}
use rust_daily.Text.{Text}
use rust_daily.Runner.Rounds.{
  IsMatched, match_diagnostics-IsMatched, report_case-IsGoodRound, report_case-ended,
  compile_fail_outcome-passed,
}

pub outcome_or_error-ok :
    (o : Option LearnerOutcome) (x : LearnerOutcome) → outcome_or_error o ≡ ok x → o ≡ some x
unfolding outcome_or_error
outcome_or_error-ok none x h = absurd (cc)
outcome_or_error-ok (some y) x h = ap (λ z. some z) (ok-injective y x h)

module _ (cargo_messages : Bytes → List Message)
    (execute : CargoTestCommand → Result RunnerError PodmanOutcome) where
  -- A case whose own target was compiled, with ordinary errors that match its snippets.
  pub record FailsAsExpected (set : DependencySet) (c : ValidatedCompileFailCase) : Type 0 where
    pub output : Output
    pub ran :
        execute (check_test_command set (generated_test_target c.name)) ≡ ok (completed output)
    pub refused : output_status cargo_messages output ≡ compiler_error
    pub matched : IsMatched c (diagnostic_text cargo_messages output)

  status-IsMatched :
      (c : ValidatedCompileFailCase) (output : Output) (s : CargoOutputStatus) (n e : Text)
      → case_status cargo_messages execute c output s ≡ ok (failed_as_expected n e)
      → (s ≡ compiler_error) × IsMatched c (diagnostic_text cargo_messages output)
  unfolding case_status
  status-IsMatched c output success n e h = absurd (cc)
  status-IsMatched c output timed_out_status n e h = absurd (cc)
  status-IsMatched c output compiler_error n e h =
      (refl, match_diagnostics-IsMatched c _ n e (ok-injective _ _ h))
  status-IsMatched c output failure n e h = absurd (cc)
  status-IsMatched c output cargo_error n e h = absurd (cc)
  status-IsMatched c output infrastructure_error n e h = absurd (cc)
  status-IsMatched c output internal_compiler_error n e h = absurd (cc)

  outcome-FailsAsExpected :
      (set : DependencySet) (c : ValidatedCompileFailCase) (o : PodmanOutcome) (n e : Text)
      → execute (check_test_command set (generated_test_target c.name)) ≡ ok o
      → case_outcome cargo_messages execute c o ≡ ok (failed_as_expected n e)
      → FailsAsExpected set c
  unfolding case_outcome
  outcome-FailsAsExpected set c outer_timeout n e r h = absurd (cc)
  outcome-FailsAsExpected set c output_limit_exceeded n e r h = absurd (cc)
  outcome-FailsAsExpected set c cancelled n e r h = absurd (cc)
  outcome-FailsAsExpected set c (completed output) n e r h =
      let (s, m) = status-IsMatched c output _ n e h in
      record { output = output; ran = r; refused = s; matched = m }

  case-FailsAsExpected :
      (set : DependencySet) (c : ValidatedCompileFailCase) (n e : Text)
      → run_compile_fail_case cargo_messages execute set c ≡ ok (failed_as_expected n e)
      → FailsAsExpected set c
  unfolding run_compile_fail_case
  case-FailsAsExpected set c n e h =
      on_ok (execute (check_test_command set (generated_test_target c.name))) _ h
        λ o r k. outcome-FailsAsExpected set c o n e r k

  -- What the end of the loop says of the cases that it went through.
  IsEnd :
      DependencySet → Reports → List ValidatedCompileFailCase → LearnerOutcome ⊎ Reports → Type 0
  IsEnd set r cs (inl x) = x.status ≢ passed
  IsEnd set r cs (inr r') = r'.failures ≡ [] → (r.failures ≡ []) × All (FailsAsExpected set) cs

  round-IsEnd :
      (set : DependencySet) (r r' : Reports) (c : ValidatedCompileFailCase)
      (cs : List ValidatedCompileFailCase) (end : LearnerOutcome ⊎ Reports)
      → (r'.failures ≡ [] → (r.failures ≡ []) × FailsAsExpected set c)
      → IsEnd set r' cs end
      → IsEnd set r (c ∷ cs) end
  unfolding IsEnd
  round-IsEnd set r r' c cs (inl x) p q = q
  round-IsEnd set r r' c cs (inr z) p q =
      λ w. let (a, rest) = q w in let (b, first) = p a in (b, (first, rest))

  module _ (set : DependencySet) (deadline : RunDeadline) (config : RunnerSettings) (now : ℕ) where
    after_round :
        (r : Reports) (c : ValidatedCompileFailCase) (cs : List ValidatedCompileFailCase)
        (result : CompileFailCaseResult) (end v : LearnerOutcome ⊎ Reports)
        → run_compile_fail_case cargo_messages execute set c ≡ ok result
        → report_case deadline config now r result ≡ v
        → ((r' : Reports)
            → run_cases cargo_messages execute set deadline config now r' cs ≡ ok end
            → IsEnd set r' cs end)
        → (elim v [
          | inl outcome ↦ ok (inl outcome)
          | inr r' ↦ run_cases cargo_messages execute set deadline config now r' cs
        ])
          ≡ ok end
        → IsEnd set r (c ∷ cs) end
    unfolding IsEnd
    after_round r c cs result end (inl x) e v go h =
        subst (IsEnd set r (c ∷ cs)) (ok-injective _ _ h)
          (report_case-ended deadline config now r result x v)
    after_round r c cs result end (inr r') e v go h =
        round-IsEnd set r r' c cs end
          (λ w.
            let g = report_case-IsGoodRound deadline config now r result r' v w in
            (
              g.before,
              case-FailsAsExpected set c g.name g.diagnostics (e ∙ ap (λ z. ok z) g.as_expected),
            ))
          (go r' h)

    run_cases-IsEnd :
        (r : Reports) (cs : List ValidatedCompileFailCase) (end : LearnerOutcome ⊎ Reports)
        → run_cases cargo_messages execute set deadline config now r cs ≡ ok end
        → IsEnd set r cs end
    unfolding run_cases IsEnd
    run_cases-IsEnd r [] end h = subst (IsEnd set r []) (ok-injective _ _ h) (λ w. (w, tt))
    run_cases-IsEnd r (c ∷ cs) end h =
        on_ok (run_compile_fail_case cargo_messages execute set c) _ h λ result e k.
          after_round r c cs result end (report_case deadline config now r result) e refl
            (λ r' q. run_cases-IsEnd r' cs end q) k

    -- The baseline gives no passed outcome of its own, and leads to the loop only if it compiled.
    IsBaseline : Output → Option LearnerOutcome → Type 0
    IsBaseline output none = output_status cargo_messages output ≡ success
    IsBaseline output (some x) = x.status ≢ passed

    reported-IsBaseline :
        (output : Output) (s : CargoOutputStatus) (status : RunStatus) (b : Option LearnerOutcome)
        → output_status cargo_messages output ≡ s
        → run_status s ≡ ok status
        → status ≢ passed
        → (outcome_or_error (
              result_from_output cargo_messages output
                (elapsed_ms deadline now)
                config.max_output_bytes)
            >>= (λ outcome. ok (some outcome)))
          ≡ ok b
        → IsBaseline output b
    unfolding IsBaseline
    reported-IsBaseline output s status b e r n h =
        on_ok
          (outcome_or_error (
            result_from_output cargo_messages output (elapsed_ms deadline now)
              config.max_output_bytes))
          _ h
          λ y p k. subst (IsBaseline output) (ok-injective _ _ k) λ w. n (
            ok-injective _ _ (
              sym r
              ∙ ap run_status (sym e)
              ∙ result_from_output-status cargo_messages output _ _ y (outcome_or_error-ok _ y p))
            ∙ w)

    baseline_status-IsBaseline :
        (output : Output) (s : CargoOutputStatus) (b : Option LearnerOutcome)
        → output_status cargo_messages output ≡ s
        → baseline_status cargo_messages execute deadline config now output s ≡ ok b
        → IsBaseline output b
    unfolding baseline_status IsBaseline run_status
    baseline_status-IsBaseline output success b e h =
        subst (IsBaseline output) (ok-injective _ _ h) e
    baseline_status-IsBaseline output timed_out_status b e h =
        subst (IsBaseline output) (ok-injective _ _ h) (unfold timed_out_outcome in λ w. cc)
    baseline_status-IsBaseline output compiler_error b e h =
        reported-IsBaseline output compiler_error compile_error b e refl (λ w. cc) h
    baseline_status-IsBaseline output failure b e h =
        reported-IsBaseline output failure failed b e refl (λ w. cc) h
    baseline_status-IsBaseline output cargo_error b e h = absurd (cc)
    baseline_status-IsBaseline output infrastructure_error b e h = absurd (cc)
    baseline_status-IsBaseline output internal_compiler_error b e h = absurd (cc)

    baseline_outcome-IsBaseline :
        (o : PodmanOutcome) (b : Option LearnerOutcome)
        → baseline_outcome cargo_messages execute deadline config now o ≡ ok b
        → ((output : Output) × (o ≡ completed output) × IsBaseline output b)
          ⊎ ((x : LearnerOutcome) × (b ≡ some x) × (x.status ≢ passed))
    unfolding baseline_outcome
    baseline_outcome-IsBaseline (completed output) b h =
        inl (output, refl, baseline_status-IsBaseline output _ b refl h)
    baseline_outcome-IsBaseline outer_timeout b h =
        inr (_, sym (ok-injective _ _ h), unfold timed_out_outcome in λ w. cc)
    baseline_outcome-IsBaseline output_limit_exceeded b h =
        inr (_, sym (ok-injective _ _ h), unfold output_limit_result in λ w. cc)
    baseline_outcome-IsBaseline cancelled b h = absurd (cc)

    cases-passed :
        (cs : List ValidatedCompileFailCase) (end : LearnerOutcome ⊎ Reports)
        → IsEnd set no_reports cs end
        → (after_cases cargo_messages execute deadline config now end).status ≡ passed
        → All (FailsAsExpected set) cs
    unfolding after_cases IsEnd
    cases-passed cs (inl x) n w = absurd (n w)
    cases-passed cs (inr r) n w = (n (compile_fail_outcome-passed deadline config now r w)).1

  -- The reasons for a passed compile-fail run.
  pub record IsPassedRun (request : ValidatedRunRequest) : Type 0 where
    pub library : Output
    pub library_ran : execute (check_lib_command request.dependency_set) ≡ ok (completed library)
    pub library_compiled : output_status cargo_messages library ≡ success
    pub cases : All (FailsAsExpected request.dependency_set) request.compile_fail_cases

  baseline-passed :
      (request : ValidatedRunRequest) (deadline : RunDeadline) (config : RunnerSettings) (now : ℕ)
      (output : Output) (b : Option LearnerOutcome) (x : LearnerOutcome)
      → execute (check_lib_command request.dependency_set) ≡ ok (completed output)
      → IsBaseline request.dependency_set deadline config now output b
      → after_baseline cargo_messages execute request deadline config now b ≡ ok x
      → x.status ≡ passed
      → IsPassedRun request
  unfolding after_baseline IsBaseline
  baseline-passed request deadline config now output (some y) x r i h w =
      absurd (i (ap (λ (z : LearnerOutcome). z.status) (ok-injective y x h) ∙ w))
  baseline-passed request deadline config now output none x r i h w =
      on_ok
        (run_cases cargo_messages execute request.dependency_set deadline config now no_reports
          request.compile_fail_cases)
        _ h
        λ end e k. record {
          library = output;
          library_ran = r;
          library_compiled = i;
          cases =
              cases-passed request.dependency_set deadline config now request.compile_fail_cases end
                (run_cases-IsEnd request.dependency_set deadline config now no_reports
                  request.compile_fail_cases end e)
                (ap (λ (z : LearnerOutcome). z.status) (ok-injective _ x k) ∙ w);
        }

  -- A passed outcome that the baseline gave is a passed one of its own.
  early_passed :
      (request : ValidatedRunRequest) (deadline : RunDeadline) (config : RunnerSettings) (now : ℕ)
      (b : Option LearnerOutcome) (x y : LearnerOutcome)
      → b ≡ some y
      → after_baseline cargo_messages execute request deadline config now b ≡ ok x
      → x.status ≡ passed
      → y.status ≡ passed
  unfolding after_baseline
  early_passed request deadline config now none x y q l w = absurd (cc)
  early_passed request deadline config now (some z) x y q l w =
      ap (λ (v : LearnerOutcome). v.status) (sym (some-injective z y q) ∙ ok-injective z x l) ∙ w

  -- If a compile-fail run is reported as passed, then the library compiled on its own, and every
  -- case was compiled as its own target and refused with ordinary compiler errors, whose text
  -- contains each snippet that the case expects and none that it forbids. So no infrastructure
  -- failure, timeout or internal compiler error passes for a refusal.
  pub run_compile_fail-IsPassedRun :
      (request : ValidatedRunRequest) (deadline : RunDeadline) (config : RunnerSettings) (now : ℕ)
      (x : LearnerOutcome)
      → run_compile_fail cargo_messages execute request deadline config now ≡ ok x
      → x.status ≡ passed
      → IsPassedRun request
  unfolding run_compile_fail
  run_compile_fail-IsPassedRun request deadline config now x h w =
      on_ok (execute (check_lib_command request.dependency_set)) _ h λ o r k.
        on_ok (baseline_outcome cargo_messages execute deadline config now o) _ k λ b e l.
          elim (baseline_outcome-IsBaseline request.dependency_set deadline config now o b e) [
            | inl (output, q, i) ↦
                baseline-passed request deadline config now output b x (r ∙ ap (λ z. ok z) q) i l w
            | inr (y, q, n) ↦ absurd (n (early_passed request deadline config now b x y q l w))
          ]
