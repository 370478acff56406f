-- ===== src/Runner/CargoTest.antt =====
-- What a passed `cargo test` run says, and what the runner publishes.
use rust_daily.Config.Settings.{RunnerSettings}
use rust_daily.Base.{
  ◌⊎◌, inl, inr, ℕ, ◌≡◌, ◌<◌, sym, List, Result, ok, on_ok, ok-injective, usize_max,
}
use rust_daily.CargoOutput.Outcome.{IsOutcome, result_from_output-IsOutcome}
use rust_daily.CargoOutput.{Output, Message}
use rust_daily.DependencySet.{DependencySet, CargoTestCommand, test_command}
use rust_daily.Model.Deadline.{RunDeadline, elapsed_ms, timed_out_outcome}
use rust_daily.Model.Types.{LearnerOutcome}
use rust_daily.Runner.Verdict.{outcome_or_error-ok}
use rust_daily.Runner.{
  RunnerError, PodmanOutcome, completed, outer_timeout, output_limit_exceeded, cancelled,
  output_limit_result,
}
use rust_daily.Runner.Runs.{cargo_test_outcome, run_cargo_test}
use rust_daily.Text.Utf8.{Bytes}

module _ (cargo_messages : Bytes → List Message)
    (execute : CargoTestCommand → Result RunnerError PodmanOutcome) where
  -- The outcome of a command that ran to its end.
  abbrev pub IsTested : DependencySet → RunDeadline → RunnerSettings → ℕ → LearnerOutcome → Type 0
  IsTested set deadline config now x =
      (output : Output) × (execute (test_command set) ≡ ok (completed output))
      × IsOutcome cargo_messages output (elapsed_ms deadline now) config.max_output_bytes x

  -- The run was cut short: what `execute` said of it decides what is published.
  abbrev pub IsCutShort : DependencySet → RunDeadline → RunnerSettings → ℕ → LearnerOutcome → Type 0
  IsCutShort set deadline config now x =
      ((execute (test_command set) ≡ ok outer_timeout) × (x ≡ timed_out_outcome deadline now))
      ⊎ ((execute (test_command set) ≡ ok output_limit_exceeded)
          × (x ≡ output_limit_result deadline config now))

  outcome-IsTested :
      (set : DependencySet) (deadline : RunDeadline) (config : RunnerSettings) (now : ℕ)
      (o : PodmanOutcome) (x : LearnerOutcome)
      → config.max_output_bytes < usize_max
      → execute (test_command set) ≡ ok o
      → cargo_test_outcome cargo_messages execute deadline config now o ≡ ok x
      → IsTested set deadline config now x ⊎ IsCutShort set deadline config now x
  unfolding cargo_test_outcome
  outcome-IsTested set deadline config now (completed output) x m r h = inl (
    output,
    r,
    result_from_output-IsOutcome cargo_messages output _ _ x m (outcome_or_error-ok _ x h),
  )
  outcome-IsTested set deadline config now outer_timeout x m r h =
      inr (inl (r, sym (ok-injective _ x h)))
  outcome-IsTested set deadline config now output_limit_exceeded x m r h =
      inr (inr (r, sym (ok-injective _ x h)))
  outcome-IsTested set deadline config now cancelled x m r h = absurd (cc)

  -- For an output limit below the largest `usize`, an outcome of a `cargo test` run is that of
  -- Cargo's own process, with the status that the process gives reason for and its streams within
  -- the limit; or the test command was reported to have run into its deadline, and it is the
  -- timed-out outcome; or the command was reported to have exceeded the limit on captured output,
  -- and it is the outcome of that limit.
  pub run_cargo_test-IsTested :
      (set : DependencySet) (deadline : RunDeadline) (config : RunnerSettings) (now : ℕ)
      (x : LearnerOutcome)
      → config.max_output_bytes < usize_max
      → run_cargo_test cargo_messages execute set deadline config now ≡ ok x
      → IsTested set deadline config now x ⊎ IsCutShort set deadline config now x
  unfolding run_cargo_test
  run_cargo_test-IsTested set deadline config now x m h =
      on_ok (execute (test_command set)) _ h
        λ o r k. outcome-IsTested set deadline config now o x m r k
