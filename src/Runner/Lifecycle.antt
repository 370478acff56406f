-- ===== src/Runner/Lifecycle.antt =====
-- What every run of a lesson does, whatever the operating system answers.
use rust_daily.Config.Values.{F64}
use rust_daily.CargoOutput.{Output}
use rust_daily.Base.{
  ◌>>◌, if◌then◌else◌, ◌>>=◌, map_err, Bool-cases, ap, ◌∙◌, Result, List, ℕ, ◌≡◌, [], ◌∷◌, ◌++◌, ok,
  err, refl, inl, inr,
}
use rust_daily.DependencySet.{DependencySet}
use rust_daily.Text.{Text}
use rust_daily.Config.Settings.{RunnerSettings}
use rust_daily.Model.Deadline.{timed_out_outcome, RunDeadline, is_elapsed}
use rust_daily.Model.Types.{LearnerOutcome, ServiceFailure}
use rust_daily.Runner.{published_result, RunnerError}
use rust_daily.Runner.Capture.{ErrorKind}
use rust_daily.Runner.Podman.{runner_error}
use rust_daily.Runner.Commands.{ProcessCommandSpec}
use rust_daily.Runner.Container.{
  after_writes, run_podman_lesson, after_run, after_container, run_inner, start_container, Answers,
  after_prepare, after_start, ControlAnswer, after_check, cleanup, prepare_container_workspace,
  execute_control_command, Effect, ran, published, workspace_removed,
}

-- The results that are published, in their order.
pub publications : List Effect → List (Result ServiceFailure LearnerOutcome)
publications [] = []
publications (ran spec ∷ es) = publications es
publications (published r ∷ es) = r ∷ publications es
publications (workspace_removed ∷ es) = publications es

publications-append :
    (xs ys : List Effect) → publications (xs ++ ys) ≡ publications xs ++ publications ys
unfolding publications
publications-append [] ys = refl
publications-append (ran spec ∷ xs) ys = publications-append xs ys
publications-append (published r ∷ xs) ys = ap (λ x. r ∷ x) (publications-append xs ys)
publications-append (workspace_removed ∷ xs) ys = publications-append xs ys

-- Only commands are run.
abbrev IsQuiet : List Effect → Type 0
IsQuiet es = publications es ≡ []

append-IsQuiet : (xs ys : List Effect) → IsQuiet xs → IsQuiet ys → IsQuiet (xs ++ ys)
append-IsQuiet xs ys p q = publications-append xs ys ∙ rw (p, q) refl

control-IsQuiet :
    (spec : ProcessCommandSpec) (deadline : RunDeadline) (a : ControlAnswer)
    → IsQuiet (execute_control_command spec deadline a).0
unfolding execute_control_command publications
control-IsQuiet spec deadline a = elim (Bool-cases (is_elapsed deadline a.now)) [
  | inl e ↦ rw e refl
  | inr e ↦ rw e refl
]

module _ (uuid_text simple_text : ℕ → Text) (cpus_text : F64 → Text) (config : RunnerSettings)
    (deadline : RunDeadline) (job_id : ℕ) where
  prepare-IsQuiet :
      (fx : List Effect) (r : Result ErrorKind (Unit {0}))
      → IsQuiet fx
      → IsQuiet (after_prepare uuid_text simple_text cpus_text config deadline job_id fx r).0
  unfolding after_prepare cleanup publications
  prepare-IsQuiet fx (err kind) q = append-IsQuiet fx _ q refl
  prepare-IsQuiet fx (ok tt) q = q

  check-IsQuiet :
      (a : ControlAnswer) (fx : List Effect) (r : Result ErrorKind (Unit {0}))
      → IsQuiet fx
      → IsQuiet (after_check uuid_text simple_text cpus_text config deadline job_id a fx r).0
  unfolding after_check prepare_container_workspace cleanup publications
  check-IsQuiet a fx (err kind) q = append-IsQuiet fx _ q refl
  check-IsQuiet a fx (ok tt) q =
      prepare-IsQuiet _ _ (append-IsQuiet fx _ q (control-IsQuiet _ deadline a))

  start-IsQuiet :
      (a : ControlAnswer) (fx : List Effect) (r : Result ErrorKind Output)
      → IsQuiet fx
      → IsQuiet (after_start uuid_text simple_text cpus_text config deadline job_id a fx r).0
  unfolding after_start cleanup publications
  start-IsQuiet a fx (err kind) q = append-IsQuiet fx _ q refl
  start-IsQuiet a fx (ok output) q = check-IsQuiet a fx _ q

  started-IsQuiet :
      (dir : Text) (set : DependencySet) (a : Answers)
      → IsQuiet (start_container uuid_text simple_text cpus_text config deadline job_id dir set a).0
  unfolding start_container
  started-IsQuiet dir set a = start-IsQuiet a.prepare _ _ (control-IsQuiet _ deadline a.start)

  module _ (test : Result RunnerError LearnerOutcome) (set : DependencySet) (a : Answers) where
    -- What a run amounts to: the first error of the preparation, of the start or of the test, or
    -- the outcome of the test.
    abbrev pub run_result : Result RunnerError LearnerOutcome
    run_result = do
      dir ← a.workspace
      a.cases
      name ←
          map_err runner_error
            (start_container uuid_text simple_text cpus_text config deadline job_id dir set a).1
      test

    -- The end of a run, in terms of the result of its start.
    ended-publications :
        (fx : List Effect) (r : Result ErrorKind Text)
        → IsQuiet fx
        → (let (fx', e) =
              after_container uuid_text simple_text cpus_text config deadline job_id test a.now fx
                r in
            publications
              (after_run uuid_text simple_text cpus_text config deadline job_id test a.now fx' e))
          ≡ published_result job_id deadline a.now (map_err runner_error r >>= λ name. test) ∷ []
    unfolding after_container after_run publications cleanup
    ended-publications fx (err kind) q =
        publications-append (fx ++ workspace_removed ∷ []) _
        ∙ rw (append-IsQuiet fx (workspace_removed ∷ []) q refl) refl
    ended-publications fx (ok name) q = publications-append fx _ ∙ rw q refl

    -- The run behind the writing of the cases.
    written-publications :
        (dir : Text) (w : Result RunnerError (Unit {0}))
        → (let (fx, r) =
              after_writes uuid_text simple_text cpus_text config deadline job_id test set a dir
                w in
            publications
              (after_run uuid_text simple_text cpus_text config deadline job_id test a.now fx r))
          ≡ published_result job_id deadline a.now (
              w
              >> (map_err runner_error
                    (start_container uuid_text simple_text cpus_text config deadline job_id dir set
                      a).1
                  >>= λ name. test))
            ∷ []
    unfolding after_writes after_run publications
    written-publications dir (err e) = refl
    written-publications dir (ok tt) = ended-publications _ _ (started-IsQuiet dir set a)

    -- A run publishes exactly one result, whatever the operating system answers: that the deadline
    -- has expired, if it has when the run begins; and otherwise what the first error of the
    -- preparation, of the start and of the test is reported as, or the outcome of the test.
    pub run_podman_lesson-publications :
        publications
          (run_podman_lesson uuid_text simple_text cpus_text config deadline job_id test set a)
        ≡ (if is_elapsed deadline a.started
            then ok (timed_out_outcome deadline a.started)
            else published_result job_id deadline a.now run_result)
          ∷ []
    unfolding run_podman_lesson run_inner after_run publications
    run_podman_lesson-publications = elim (Bool-cases (is_elapsed deadline a.started)) [
      | inl e ↦ rw e refl
      | inr e ↦ rw e (later a.workspace)
    ]
      where
        later :
            (w : Result RunnerError Text)
            → (let (fx, r) =
                  run_inner uuid_text simple_text cpus_text config deadline job_id test set a w in
                publications (
                  after_run uuid_text simple_text cpus_text config deadline job_id test a.now fx r))
              ≡ published_result job_id deadline a.now (
                  w >>= λ dir.
                  a.cases
                  >> (map_err runner_error
                        (start_container uuid_text simple_text cpus_text config deadline job_id dir
                          set a).1
                      >>= λ name. test))
                ∷ []
        later (err e) = refl
        later (ok dir) = written-publications dir a.cases
