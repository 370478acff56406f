-- ===== src/Runner/Removal.antt =====
-- A container that a run has asked Podman to start does not outlive the run.
use rust_daily.CargoOutput.{Output}
use rust_daily.Config.Values.{F64}
use rust_daily.Base.{Bool-cases, Result, List, ℕ, ◌≡◌, ◌⊎◌, [], ◌∷◌, ◌++◌, ok, err, refl, inl, inr}
use rust_daily.DependencySet.{DependencySet}
use rust_daily.Text.{Text}
use rust_daily.Config.Settings.{RunnerSettings}
use rust_daily.Model.Deadline.{RunDeadline, is_elapsed}
use rust_daily.Model.Types.{LearnerOutcome, ServiceFailure}
use rust_daily.Runner.{RunnerError}
use rust_daily.Runner.Capture.{ErrorKind}
use rust_daily.Runner.Commands.{cleanup_container_command_spec, start_container_command_spec}
use rust_daily.Runner.Container.{
  after_writes, after_run, run_podman_lesson, after_container, run_inner, Traced, cleanup, Answers,
  after_prepare, after_check, container_name, start_spec, ControlAnswer, after_start,
  start_container, Effect, ran, published, workspace_removed,
}

-- Some effect of the list satisfies `q`.
abbrev pub Some : (Effect → Type 0) → List Effect → Type 0
Some q [] = ⊥
Some q (e ∷ es) = q e ⊎ Some q es

pub Some-append : (q : Effect → Type 0) (xs ys : List Effect) → Some q xs → Some q (xs ++ ys)
Some-append q [] ys m = absurd m
Some-append q (x ∷ xs) ys (inl p) = inl p
Some-append q (x ∷ xs) ys (inr m) = inr (Some-append q xs ys m)

pub Some-behind : (q : Effect → Type 0) (xs ys : List Effect) → Some q ys → Some q (xs ++ ys)
Some-behind q [] ys m = m
Some-behind q (x ∷ xs) ys m = inr (Some-behind q xs ys m)

-- Behind every effect with `p` comes one with `q`.
abbrev pub IsFollowed : (p q : Effect → Type 0) → List Effect → Type 0
IsFollowed p q [] = Unit
IsFollowed p q (e ∷ es) = (p e → Some q es) × IsFollowed p q es

append-IsFollowed :
    (p q : Effect → Type 0) (xs ys : List Effect)
    → IsFollowed p q xs
    → IsFollowed p q ys
    → IsFollowed p q (xs ++ ys)
append-IsFollowed p q [] ys a b = b
append-IsFollowed p q (x ∷ xs) ys (f, a) b =
    ((λ s. Some-append q xs ys (f s)), append-IsFollowed p q xs ys a b)

closed-IsFollowed :
    (p q : Effect → Type 0) (xs ys : List Effect)
    → Some q ys
    → IsFollowed p q ys
    → IsFollowed p q (xs ++ ys)
closed-IsFollowed p q [] ys m b = b
closed-IsFollowed p q (x ∷ xs) ys m b =
    ((λ s. Some-behind q xs ys m), closed-IsFollowed p q xs ys m b)

module _ (uuid_text simple_text : ℕ → Text) (cpus_text : F64 → Text) (config : RunnerSettings)
    (deadline : RunDeadline) (job_id : ℕ) (set : DependencySet) where
  -- The run's container is started, or removed by force.
  abbrev pub IsStart : Effect → Type 0
  IsStart e =
      (dir : Text) × (now : ℕ) × (e
        ≡ ran (start_spec uuid_text simple_text cpus_text config deadline job_id dir set now))

  abbrev pub IsRemoval : Effect → Type 0
  IsRemoval e =
      e
      ≡ ran (
          cleanup_container_command_spec config
            (container_name uuid_text simple_text cpus_text config deadline job_id))

  abbrev IsRemoved : List Effect → Type 0
  IsRemoved = IsFollowed IsStart IsRemoval

  removal-apart : (e : Effect) → IsRemoval e → IsStart e → ⊥
  unfolding cleanup_container_command_spec start_container_command_spec
  removal-apart e r (dir, now, s) = cc

  published-apart : (r : Result ServiceFailure LearnerOutcome) → IsStart (published r) → ⊥
  published-apart r (dir, now, s) = cc

  dropped-apart : IsStart workspace_removed → ⊥
  dropped-apart (dir, now, s) = cc

  cleanup-IsRemoved :
      (fx : List Effect)
      → IsRemoved (fx ++ cleanup uuid_text simple_text cpus_text config deadline job_id)
  unfolding cleanup
  cleanup-IsRemoved fx =
      closed-IsFollowed IsStart IsRemoval fx _ (inl refl)
        ((λ s. absurd (removal-apart _ refl s)), tt)

  -- A start that fails leaves no container behind.
  abbrev IsCleanStart : Traced (Result ErrorKind Text) → Type 0
  IsCleanStart (fx, err kind) = IsRemoved fx
  IsCleanStart (fx, ok name) = Unit

  prepare-IsCleanStart :
      (fx : List Effect) (r : Result ErrorKind (Unit {0}))
      → IsCleanStart (after_prepare uuid_text simple_text cpus_text config deadline job_id fx r)
  unfolding after_prepare
  prepare-IsCleanStart fx (err kind) = cleanup-IsRemoved fx
  prepare-IsCleanStart fx (ok tt) = tt

  check-IsCleanStart :
      (a : ControlAnswer) (fx : List Effect) (r : Result ErrorKind (Unit {0}))
      → IsCleanStart (after_check uuid_text simple_text cpus_text config deadline job_id a fx r)
  unfolding after_check
  check-IsCleanStart a fx (err kind) = cleanup-IsRemoved fx
  check-IsCleanStart a fx (ok tt) = prepare-IsCleanStart _ _

  start-IsCleanStart :
      (a : ControlAnswer) (fx : List Effect) (r : Result ErrorKind Output)
      → IsCleanStart (after_start uuid_text simple_text cpus_text config deadline job_id a fx r)
  unfolding after_start
  start-IsCleanStart a fx (err kind) = cleanup-IsRemoved fx
  start-IsCleanStart a fx (ok output) = check-IsCleanStart a fx _

  module _ (test : Result RunnerError LearnerOutcome) where
    run_end-IsRemoved :
        (now : ℕ) (fx : List Effect) (r : Result ErrorKind Text)
        → IsCleanStart (fx, r)
        → (let (fx', e) =
              after_container uuid_text simple_text cpus_text config deadline job_id test now fx
                r in
            IsRemoved
              (after_run uuid_text simple_text cpus_text config deadline job_id test now fx' e))
    unfolding after_container after_run cleanup
    run_end-IsRemoved now fx (err kind) c =
        append-IsFollowed IsStart IsRemoval _ _
          (append-IsFollowed IsStart IsRemoval fx _ c ((λ s. absurd (dropped-apart s)), tt))
          ((λ s. absurd (published-apart _ s)), tt)
    run_end-IsRemoved now fx (ok name) c =
        closed-IsFollowed IsStart IsRemoval fx _ (inr (inl refl)) (
          (λ s. absurd (published-apart _ s)),
          ((λ s. absurd (removal-apart _ refl s)), ((λ s. absurd (dropped-apart s)), tt)),
        )

    after_writes-IsRemoved :
        (a : Answers) (dir : Text) (w : Result RunnerError (Unit {0}))
        → (let (fx, r) =
              after_writes uuid_text simple_text cpus_text config deadline job_id test set a dir
                w in
            IsRemoved
              (after_run uuid_text simple_text cpus_text config deadline job_id test a.now fx r))
    unfolding after_writes after_run start_container
    after_writes-IsRemoved a dir (err e) =
        ((λ s. absurd (dropped-apart s)), ((λ s. absurd (published-apart _ s)), tt))
    after_writes-IsRemoved a dir (ok tt) =
        run_end-IsRemoved a.now _ _ (start-IsCleanStart a.prepare _ _)

    after_workspace-IsRemoved :
        (a : Answers) (w : Result RunnerError Text)
        → (let (fx, r) =
              run_inner uuid_text simple_text cpus_text config deadline job_id test set a w in
            IsRemoved
              (after_run uuid_text simple_text cpus_text config deadline job_id test a.now fx r))
    unfolding run_inner after_run
    after_workspace-IsRemoved a (err e) = ((λ s. absurd (published-apart _ s)), tt)
    after_workspace-IsRemoved a (ok dir) = after_writes-IsRemoved a dir a.cases

    -- Whatever the operating system answers: once a run has given Podman the command that starts
    -- its container, it later gives it the command that removes the container of that name by
    -- force, be it that the start fails or is cut off, the preparation fails, or the test ends.
    pub run_podman_lesson-IsFollowed :
        (a : Answers)
        → IsFollowed IsStart IsRemoval
            (run_podman_lesson uuid_text simple_text cpus_text config deadline job_id test set a)
    unfolding run_podman_lesson
    run_podman_lesson-IsFollowed a = elim (Bool-cases (is_elapsed deadline a.started)) [
      | inl e ↦ rw e ((λ s. absurd (published-apart _ s)), tt)
      | inr e ↦ rw e (after_workspace-IsRemoved a a.workspace)
    ]
