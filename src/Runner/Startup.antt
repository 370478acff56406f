-- ===== src/Runner/Startup.antt =====
-- `initialize_runtime` and `reap_stale_containers`: the checks of the local Podman when the service
-- starts, and the removal of the containers that an earlier one has left behind.
use rust_daily.Base.{
  ◌>>◌, map, not, ◌>>=◌, if◌then◌else◌, is_empty, keep, Result, Bool, List, Option, [], ◌∷◌, ◌++◌,
  true, false, none, some, ok, err,
}
use rust_daily.CargoOutput.{Output}
use rust_daily.Config.Settings.{RunnerSettings}
use rust_daily.Runner.Capture.{ErrorKind, timed_out_kind, other_kind}
use rust_daily.Runner.Commands.{ProcessCommandSpec}
use rust_daily.Runner.Container.{ran, Traced, ensure_control_success}
use rust_daily.Runner.Info.{Json, find_boolean_field}
use rust_daily.Text.Lines.{lines}
use rust_daily.Text.Utf8.{Bytes, from_utf8_lossy}
use rust_daily.Text.{Text, codes, trim}

-- How a command under the cleanup's timeout ends: not in time, or with its result.
abbrev pub TimedAnswer : Type 0
TimedAnswer = Option (Result ErrorKind Output)

abbrev pub timed : TimedAnswer → Result ErrorKind Output
timed none = err timed_out_kind
timed (some answer) = answer

-- What the machine answers at start-up: whether one of the two variables of a remote Podman is
-- set, and how each command ends that is run.
pub record StartupAnswers : Type 0 where
  pub remote_configured : Bool
  pub answer : ProcessCommandSpec → TimedAnswer

-- A command that must succeed: its output.
unfoldable pub run_checked : StartupAnswers → ProcessCommandSpec → Traced (Result ErrorKind Output)
run_checked a spec =
    (ran spec ∷ [], timed (a.answer spec) >>= λ output. ensure_control_success output >> ok output)

-- `?` behind a traced step.
unfoldable pub and_then :
    {A B : Type 0}
    → Traced (Result ErrorKind A)
    → (A → Traced (Result ErrorKind B))
    → Traced (Result ErrorKind B)
and_then (fx, err kind) k = (fx, err kind)
and_then (fx, ok a) k = let (fx', r) = k a in (fx ++ fx', r)

-- The ids that `podman ps` prints.
unfoldable pub listed_ids : Bytes → List Text
listed_ids stdout = keep (λ id. not (is_empty id)) (map trim (lines (from_utf8_lossy stdout)))

unfoldable pub info_spec : RunnerSettings → ProcessCommandSpec
info_spec config = record {
  program = config.podman_path.as_ref;
  args = codes "info" ∷ codes "--format" ∷ codes "json" ∷ [];
}

unfoldable pub image_spec : RunnerSettings → ProcessCommandSpec
image_spec config = record {
  program = config.podman_path.as_ref;
  args = codes "image" ∷ codes "exists" ∷ config.image.as_ref ∷ [];
}

unfoldable pub list_spec : RunnerSettings → ProcessCommandSpec
list_spec config = record {
  program = config.podman_path.as_ref;
  args =
      codes "ps"
      ∷ codes "--all"
      ∷ codes "--quiet"
      ∷ codes "--filter"
      ∷ codes "label=io.rust-daily.managed=true"
      ∷ [];
}

unfoldable pub remove_spec : RunnerSettings → Text → ProcessCommandSpec
remove_spec config id = record {
  program = config.podman_path.as_ref;
  args =
      codes "rm"
      ∷ codes "--force"
      ∷ codes "--ignore"
      ∷ codes "--volumes"
      ∷ codes "--time"
      ∷ codes "0"
      ∷ id
      ∷ [];
}

-- `!= Some(true)` is refused.
unfoldable pub check_found : Option Bool → Result ErrorKind (Unit {0})
check_found (some true) = ok tt
check_found (some false) = err other_kind
check_found none = err other_kind

module _ (parse_json : Bytes → Option Json) (config : RunnerSettings) (a : StartupAnswers) where
  -- The loop over the ids.
  unfoldable pub remove_all : List Text → Traced (Result ErrorKind (Unit {0}))
  remove_all [] = ([], ok tt)
  remove_all (id ∷ ids) =
      and_then (run_checked a (remove_spec config id)) (λ output. remove_all ids)

  unfoldable pub reap_stale_containers : Traced (Result ErrorKind (Unit {0}))
  reap_stale_containers =
      and_then (run_checked a (list_spec config)) (λ output. remove_all (listed_ids output.stdout))

  -- The check of the report: it is JSON, and says that Podman is rootless.
  unfoldable pub check_rootless : Option Json → Result ErrorKind (Unit {0})
  check_rootless none = err other_kind
  check_rootless (some info) = check_found (find_boolean_field (codes "rootless") info)

  -- What follows the check of the environment.
  unfoldable pub initialize_local : Traced (Result ErrorKind (Unit {0}))
  initialize_local = and_then (run_checked a (info_spec config)) λ output.
      and_then ([], check_rootless (parse_json output.stdout))
        λ checked. and_then (run_checked a (image_spec config)) λ found. reap_stale_containers

  unfoldable pub initialize_runtime : Traced (Result ErrorKind (Unit {0}))
  initialize_runtime = if a.remote_configured then ([], err other_kind) else initialize_local
