-- ===== src/Config/Raw.antt =====
-- The settings as they are read from the files and the environment.
use rust_daily.Base.{ℕ, Bool, true, Option, none}
use rust_daily.Config.Values.{F64}
use rust_daily.Text.{Text}

pub record RawServerSettings : Type 0 where
  pub host : Text
  pub port : ℕ
  pub cors_origin : Option Text

pub record RawFrontendSettings : Type 0 where
  pub dist : Text

pub record RawRunnerSettings : Type 0 where
  pub queue_capacity : ℕ
  pub workers : ℕ
  pub timeout_secs : ℕ
  pub cleanup_timeout_secs : ℕ
  pub max_output_bytes : ℕ
  pub max_process_output_bytes : ℕ
  pub workspace_tmpfs_bytes : ℕ
  pub container_memory_bytes : ℕ
  pub container_cpus : F64
  pub container_pids_limit : ℕ
  pub tmp_tmpfs_bytes : ℕ
  pub process_headroom_bytes : ℕ
  pub core_ulimit : Text
  pub image : Text
  pub workspace_root : Text
  pub podman_path : Text

pub record RawValidationSettings : Type 0 where
  pub max_files : ℕ
  pub max_file_bytes : ℕ
  pub max_total_bytes : ℕ
  pub max_path_bytes : ℕ
  pub max_path_component_bytes : ℕ
  pub max_diagnostic_snippets_per_case : ℕ
  pub max_diagnostic_snippet_bytes : ℕ
  pub max_diagnostic_total_bytes : ℕ

pub record RawApiSettings : Type 0 where
  pub max_json_payload_bytes : ℕ

pub record RawObservabilitySettings : Type 0 where
  pub metrics_enabled : Bool
  pub metrics_bearer_token : Option Text

abbrev pub default_metrics_enabled : Bool
default_metrics_enabled = true

-- `RawObservabilitySettings::default`.
abbrev pub default_observability : RawObservabilitySettings
default_observability = record {
  metrics_enabled = default_metrics_enabled;
  metrics_bearer_token = none;
}

pub record RawSettings : Type 0 where
  pub server : RawServerSettings
  pub frontend : RawFrontendSettings
  pub runner : RawRunnerSettings
  pub validation : RawValidationSettings
  pub api : RawApiSettings
  pub observability : RawObservabilitySettings
