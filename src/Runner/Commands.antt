-- ===== src/Runner/Commands.antt =====
-- The command lines that the runner starts Podman with.
use rust_daily.Model.Deadline.{decimal, u64_max}
use rust_daily.Config.Values.{core_ulimit_text, F64}
use rust_daily.Base.{
  arith, ◌%◌, ltb, ◌+◌, ◌<◌, if◌then◌else◌, ◌*◌, ◌/◌, saturating_add, ◌≤◌, max, ℕ, List, [], ◌∷◌,
  ◌++◌,
}
use rust_daily.DependencySet.{DependencySet, CargoTestCommand, std, advanced, advanced_db}
use rust_daily.Text.{Text, codes}
use rust_daily.Config.Settings.{RunnerSettings}

-- `ProcessCommandSpec`; an `OsString` is a text.
pub record ProcessCommandSpec : Type 0 where
  pub program : Text
  pub args : List Text

-- `duration_seconds_ceil`, of a duration in nanoseconds.
unfoldable pub duration_seconds_ceil : ℕ → ℕ
duration_seconds_ceil duration =
    saturating_add (duration / 1000000000) (if ltb 0 (duration % 1000000000) then 1 else 0)

-- The arguments that only a dependency set with a cache has.
unfoldable pub cache_args : DependencySet → List Text
cache_args std = []
cache_args advanced = codes "--mount" ∷ codes "type=volume,destination=/opt/rust-daily-target" ∷ []
cache_args advanced_db =
    codes "--mount" ∷ codes "type=volume,destination=/opt/rust-daily-target" ∷ []

-- `cpus_text` is the `Display` of a CPU quota.
unfoldable pub start_container_command_spec :
    (F64 → Text)
    → RunnerSettings
    → (container_name job_id input_mount workspace_tmpfs : Text) → DependencySet
    → ℕ
    → ProcessCommandSpec
start_container_command_spec cpus_text config container_name job_id input_mount workspace_tmpfs set
      timeout_seconds =
    record {
      program = config.podman_path.as_ref;
      args =
          (codes "--cgroup-manager"
            ∷ codes "cgroupfs"
            ∷ codes "run"
            ∷ codes "--detach"
            ∷ codes "--name"
            ∷ container_name
            ∷ codes "--label"
            ∷ codes "io.rust-daily.managed=true"
            ∷ codes "--label"
            ∷ (codes "io.rust-daily.job-id=" ++ job_id)
            ∷ codes "--rm"
            ∷ codes "--pull"
            ∷ codes "never"
            ∷ codes "--timeout"
            ∷ decimal timeout_seconds
            ∷ codes "--network"
            ∷ codes "none"
            ∷ codes "--memory"
            ∷ decimal config.container_memory_bytes
            ∷ codes "--memory-swap"
            ∷ decimal config.container_memory_bytes
            ∷ codes "--cpus"
            ∷ cpus_text config.container_cpus.value
            ∷ codes "--pids-limit"
            ∷ decimal config.container_pids_limit
            ∷ codes "--ulimit"
            ∷ core_ulimit_text config.core_ulimit
            ∷ codes "--read-only"
            ∷ codes "--http-proxy=false"
            ∷ codes "--log-driver"
            ∷ codes "none"
            ∷ codes "--tmpfs"
            ∷ (codes "/tmp:rw,noexec,nosuid,nodev,size=" ++ decimal config.tmp_tmpfs_bytes)
            ∷ codes "--tmpfs"
            ∷ workspace_tmpfs
            ∷ [])
          ++ (cache_args set
              ++ (codes "--user"
                  ∷ codes "0:0"
                  ∷ codes "--security-opt"
                  ∷ codes "no-new-privileges"
                  ∷ codes "--cap-drop"
                  ∷ codes "all"
                  ∷ codes "-v"
                  ∷ input_mount
                  ∷ codes "-w"
                  ∷ codes "/workspace"
                  ∷ config.image.as_ref
                  ∷ codes "sh"
                  ∷ codes "-c"
                  ∷ codes "chmod 1777 /workspace && exec sleep infinity"
                  ∷ []));
    }

unfoldable pub prepare_workspace_command_spec : RunnerSettings → Text → ProcessCommandSpec
prepare_workspace_command_spec config container_name = record {
  program = config.podman_path.as_ref;
  args =
      codes "exec"
      ∷ container_name
      ∷ codes "sh"
      ∷ codes "-c"
      ∷ codes "cp -a /input/. /workspace/ && chmod 1777 /workspace"
      ∷ [];
}

unfoldable pub cleanup_container_command_spec : RunnerSettings → Text → ProcessCommandSpec
cleanup_container_command_spec config container_name = record {
  program = config.podman_path.as_ref;
  args =
      codes "rm"
      ∷ codes "--force"
      ∷ codes "--ignore"
      ∷ codes "--volumes"
      ∷ codes "--time"
      ∷ codes "0"
      ∷ container_name
      ∷ [];
}

unfoldable pub cargo_command_spec :
    Text → CargoTestCommand → RunnerSettings → ℕ → ProcessCommandSpec
cargo_command_spec container_name command config outer_timeout = record {
  program = config.podman_path.as_ref;
  args =
      (codes "--cgroup-manager"
        ∷ codes "cgroupfs"
        ∷ codes "exec"
        ∷ codes "--env"
        ∷ codes "TMPDIR=/workspace"
        ∷ codes "--user"
        ∷ codes "10001:10001"
        ∷ container_name
        ∷ codes "timeout"
        ∷ codes "--kill-after=1s"
        ∷ (decimal (max (duration_seconds_ceil outer_timeout) 1) ++ codes "s")
        ∷ command.program
        ∷ [])
      ++ (command.args ++ (codes "--offline" ∷ codes "--message-format=json" ∷ []));
}

-- A duration of a `u64` of seconds is rounded up to the next second, by less than one second.
pub duration_seconds_ceil-bounds :
    (duration : ℕ)
    → duration ≤ u64_max * 1000000000
    → (duration ≤ duration_seconds_ceil duration * 1000000000)
      × (duration_seconds_ceil duration * 1000000000 < duration + 1000000000)
unfolding duration_seconds_ceil
duration_seconds_ceil-bounds duration h = ground (arith, h)
