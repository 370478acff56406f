-- ===== src/CargoOutput/Outcome.antt =====
-- The learner's outcome of a finished Cargo process, for any parser of Cargo's messages.
use rust_daily.Base.{
  ℕ, ◌+◌, ◌≤◌, ◌<◌, ◌≡◌, ◌↔◌, refl, sym, ap, ◌∙◌, subst, arith, true, false, List, any, Option,
  none, some, Result, ok, err, usize_max,
}
use mathlib.Core.Option.{some-injective}
use rust_daily.CargoOutput.Capped.{cap_output-IsCapped}
use rust_daily.CargoOutput.Status.{
  messages, IsLeftToMessages, IsClassified, exit_zero, exit_timeout, exit_container, exit_ice,
  exit_errors, exit_failure, exit_nothing, output_status-IsClassified,
}
use rust_daily.CargoOutput.{
  Output, Message, CargoOutputStatus, run_status, reports, finished_well, ice, error, output_status,
  result_from_output, filtered_output_streams,
}
use rust_daily.Model.Types.{RunStatus, passed, failed, compile_error, timed_out, LearnerOutcome}
use rust_daily.Text.Utf8.{Bytes}
use rust_daily.Text.{len}

module _ (cargo_messages : Bytes → List Message) where
  -- A failure that is not the learner's: of the container, of the compiler, or of Cargo itself.
  pub data IsInternal (o : Output) : Type 0 where
    container_failed : (n : ℕ) → o.code ≡ some n → 125 ≤ n → n ≤ 127 → IsInternal o
    compiler_crashed :
        IsLeftToMessages o.code
        → any (reports ice) (messages cargo_messages o) ≡ true
        → IsInternal o
    nothing_reported :
        IsLeftToMessages o.code
        → any (reports error) (messages cargo_messages o) ≡ false
        → any finished_well (messages cargo_messages o) ≡ false
        → IsInternal o

  -- What a status says of the process.
  pub IsReason : Output → RunStatus → Type 0
  IsReason o passed = o.code ≡ some 0
  IsReason o timed_out = o.code ≡ some 124
  IsReason o compile_error =
      IsLeftToMessages o.code
      × (any (reports ice) (messages cargo_messages o) ≡ false)
      × (any (reports error) (messages cargo_messages o) ≡ true)
  IsReason o failed =
      IsLeftToMessages o.code
      × (any (reports ice) (messages cargo_messages o) ≡ false)
      × (any (reports error) (messages cargo_messages o) ≡ false)
      × (any finished_well (messages cargo_messages o) ≡ true)

  -- Either the failure is internal, or a status has its reason; by the classification.
  data IsExplained (o : Output) : Result CargoOutputStatus RunStatus → Type 0 where
    internally : {e : CargoOutputStatus} → IsInternal o → IsExplained o (err e)
    by_status : {s : RunStatus} → IsReason o s → IsExplained o (ok s)

  explain :
      (o : Output) (s : CargoOutputStatus)
      → IsClassified cargo_messages o s
      → IsExplained o (run_status s)
  unfolding run_status IsReason
  explain o s (exit_zero e) = by_status e
  explain o s (exit_timeout e) = by_status e
  explain o s (exit_container n e l u) = internally (container_failed n e l u)
  explain o s (exit_ice w a) = internally (compiler_crashed w a)
  explain o s (exit_errors w a b) = by_status (w, a, b)
  explain o s (exit_failure w a b c) = by_status (w, a, b, c)
  explain o s (exit_nothing w a b c) = internally (nothing_reported w b c)

  -- An internal failure has no status.
  internal_excludes : (o : Output) (s : RunStatus) → IsInternal o → IsReason o s → ⊥
  unfolding IsReason
  internal_excludes o passed (container_failed n e l u) r = ground (arith, e, r)
  internal_excludes o passed (compiler_crashed w a) r = w.unsuccessful r
  internal_excludes o passed (nothing_reported w a b) r = w.unsuccessful r
  internal_excludes o timed_out (container_failed n e l u) r = ground (arith, e, r)
  internal_excludes o timed_out (compiler_crashed w a) r = w.in_time r
  internal_excludes o timed_out (nothing_reported w a b) r = w.in_time r
  internal_excludes o compile_error (container_failed n e l u) (w, a, b) = w.not_container n e l u
  internal_excludes o compile_error (compiler_crashed w a) (v, b, c) = absurd (cc)
  internal_excludes o compile_error (nothing_reported w a b) (v, c, d) = absurd (cc)
  internal_excludes o failed (container_failed n e l u) (w, a, b, c) = w.not_container n e l u
  internal_excludes o failed (compiler_crashed w a) (v, b, c, d) = absurd (cc)
  internal_excludes o failed (nothing_reported w a b) (v, c, d, e) = absurd (cc)

  -- The outcome of a process, by its status.
  outcome_of : Output → ℕ → ℕ → Result CargoOutputStatus RunStatus → Option LearnerOutcome
  outcome_of o d m (err e) = none
  outcome_of o d m (ok s) = some (record {
    status = s;
    stdout = (filtered_output_streams cargo_messages o m).0;
    stderr = (filtered_output_streams cargo_messages o m).1;
    duration_ms = d;
  })

  result_from_output-eq :
      (o : Output) (d m : ℕ)
      → result_from_output cargo_messages o d m
        ≡ outcome_of o d m (run_status (output_status cargo_messages o))
  unfolding result_from_output outcome_of
  result_from_output-eq o d m = elim (run_status (output_status cargo_messages o)) [
    | err e ↦ refl
    | ok s ↦ refl
  ]

  -- The status of an outcome is that of the classification.
  pub result_from_output-status :
      (o : Output) (d m : ℕ) (x : LearnerOutcome)
      → result_from_output cargo_messages o d m ≡ some x
      → run_status (output_status cargo_messages o) ≡ ok x.status
  unfolding outcome_of
  result_from_output-status o d m x h =
      go (run_status (output_status cargo_messages o)) (sym (result_from_output-eq o d m) ∙ h)
    where
      go : (r : Result CargoOutputStatus RunStatus) → outcome_of o d m r ≡ some x → r ≡ ok x.status
      go (err e) h = absurd (cc)
      go (ok s) h = ap (λ (y : LearnerOutcome). ok y.status) (some-injective _ x h)

  explained : (o : Output) → IsExplained o (run_status (output_status cargo_messages o))
  explained o = explain o _ (output_status-IsClassified cargo_messages o)

  none_iff :
      (o : Output) (d m : ℕ) (r : Result CargoOutputStatus RunStatus)
      → IsExplained o r
      → (outcome_of o d m r ≡ none) ↔ IsInternal o
  unfolding outcome_of
  none_iff o d m (err e) (internally i) = (λ h. i, λ h. refl)
  none_iff o d m (ok s) (by_status r) = (λ h. absurd (cc), λ i. absurd (internal_excludes o s i r))

  -- A finished process gives no outcome exactly if the failure is internal: its exit code is one
  -- of 125 to 127; or it failed in another way than by its timeout, and the compiler reported an
  -- internal error, or neither an ordinary error was reported nor the build finished.
  pub result_from_output-none_iff :
      (o : Output) (duration_ms max_output_bytes : ℕ)
      → (result_from_output cargo_messages o duration_ms max_output_bytes ≡ none) ↔ IsInternal o
  result_from_output-none_iff o d m =
      rw (result_from_output-eq o d m) (none_iff o d m _ (explained o))

  -- What is promised of an outcome.
  pub record IsOutcome (o : Output) (d m : ℕ) (x : LearnerOutcome) : Type 0 where
    pub reason : IsReason o x.status
    pub duration : x.duration_ms ≡ d
    pub bounded : len x.stdout + len x.stderr ≤ m

  some-IsOutcome :
      (o : Output) (d m : ℕ) (r : Result CargoOutputStatus RunStatus) (x : LearnerOutcome)
      → m < usize_max
      → IsExplained o r
      → outcome_of o d m r ≡ some x
      → IsOutcome o d m x
  unfolding outcome_of
  some-IsOutcome o d m (err e) x w i h = absurd (cc)
  some-IsOutcome o d m (ok s) x w (by_status r) h =
      subst (IsOutcome o d m) (some-injective _ x h) (record {
        reason = r;
        duration = refl;
        bounded = unfold filtered_output_streams in (cap_output-IsCapped _ _ m w).bounded;
      })

  -- For an output limit below the largest `usize`, an outcome has the status that the process
  -- gives reason for: passed with exit code 0, timed out with 124, and otherwise, where no internal
  -- compiler error was reported, a compile error where an ordinary error was, and failed where none
  -- was and the build finished. Its duration is the one given, and its two streams together keep to
  -- the limit.
  pub result_from_output-IsOutcome :
      (o : Output) (duration_ms max_output_bytes : ℕ) (x : LearnerOutcome)
      → max_output_bytes < usize_max
      → result_from_output cargo_messages o duration_ms max_output_bytes ≡ some x
      → IsOutcome o duration_ms max_output_bytes x
  result_from_output-IsOutcome o d m x w h =
      some-IsOutcome o d m _ x w (explained o) (sym (result_from_output-eq o d m) ∙ h)
