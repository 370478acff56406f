-- ===== src/Config/Settings.antt =====
-- The validated settings, and the conversions of the raw ones into them.
use rust_daily.Config.Raw.{
  RawApiSettings, RawFrontendSettings, RawObservabilitySettings, RawRunnerSettings,
  RawServerSettings, RawSettings, RawValidationSettings,
}
use rust_daily.Base.{
  if◌then◌else◌, ℕ, ◌*◌, Bool, Option, none, some, ltb, is_empty, Result, ok, ◌>>=◌, ◌>>◌, fail_if,
  map_err, saturating_add,
}
use rust_daily.Config.Fields.{
  SettingsError, invalid, invalid_validation_limits, runner_queue_capacity, runner_workers,
  runner_timeout_secs, runner_cleanup_timeout_secs, runner_max_output_bytes,
  runner_max_process_output_bytes, runner_workspace_tmpfs_bytes, runner_container_memory_bytes,
  runner_container_pids_limit, runner_tmp_tmpfs_bytes, runner_process_headroom_bytes,
  validation_max_files, validation_max_file_bytes, validation_max_total_bytes,
  validation_max_path_bytes, validation_max_path_component_bytes,
  validation_max_diagnostic_snippets_per_case, validation_max_diagnostic_snippet_bytes,
  validation_max_diagnostic_total_bytes, api_max_json_payload_bytes,
}
use rust_daily.Config.Values.{
  nonzero, MetricsBearerToken, metrics_bearer_token, RunnerImage, runner_image_from, CoreUlimit,
  core_ulimit_from, ContainerCpus, container_cpus_from, WorkspaceRoot, workspace_root_from,
  PodmanPath, podman_path_from, FrontendDist, frontend_dist_from, Url, CorsOrigin, cors_origin_from,
  BindAddress, bind_address,
}
use rust_daily.Model.Limits.{ValidationLimits, try_new, max_json_payload_bytes}
use rust_daily.Text.{Text, codes, trim}

pub record ServerSettings (IpAddr : Type 0) : Type 0 where
  pub bind_address : BindAddress IpAddr
  pub cors_origin : Option CorsOrigin

pub record FrontendSettings : Type 0 where
  pub dist : FrontendDist

-- A `Duration` is its nanoseconds.
pub record RunnerSettings : Type 0 where
  pub queue_capacity : ℕ
  pub workers : ℕ
  pub timeout : ℕ
  pub cleanup_timeout : ℕ
  pub max_output_bytes : ℕ
  pub max_process_output_bytes : ℕ
  pub workspace_tmpfs_bytes : ℕ
  pub container_memory_bytes : ℕ
  pub container_cpus : ContainerCpus
  pub container_pids_limit : ℕ
  pub tmp_tmpfs_bytes : ℕ
  pub process_headroom_bytes : ℕ
  pub core_ulimit : CoreUlimit
  pub image : RunnerImage
  pub workspace_root : WorkspaceRoot
  pub podman_path : PodmanPath

pub record ValidationSettings : Type 0 where
  pub limits : ValidationLimits

pub record ApiSettings : Type 0 where
  pub max_json_payload_bytes : ℕ

pub record ObservabilitySettings : Type 0 where
  pub metrics_enabled : Bool
  pub metrics_bearer_token : Option MetricsBearerToken

pub record Settings (IpAddr : Type 0) : Type 0 where
  pub server : ServerSettings IpAddr
  pub frontend : FrontendSettings
  pub runner : RunnerSettings
  pub validation : ValidationSettings
  pub api : ApiSettings
  pub observability : ObservabilitySettings

unfoldable pub frontend_settings : RawFrontendSettings → Result SettingsError FrontendSettings
frontend_settings raw = do dist ← frontend_dist_from raw.dist; ok (record { dist = dist })

-- `Duration::from_secs`.
abbrev pub from_secs : ℕ → ℕ
from_secs n = n * 1000000000

unfoldable pub runner_settings : RawRunnerSettings → Result SettingsError RunnerSettings
runner_settings raw = do
  queue_capacity ← nonzero runner_queue_capacity raw.queue_capacity
  workers ← nonzero runner_workers raw.workers
  timeout_secs ← nonzero runner_timeout_secs raw.timeout_secs
  cleanup_timeout_secs ← nonzero runner_cleanup_timeout_secs raw.cleanup_timeout_secs
  max_output_bytes ← nonzero runner_max_output_bytes raw.max_output_bytes
  max_process_output_bytes ← nonzero runner_max_process_output_bytes raw.max_process_output_bytes
  fail_if (ltb max_process_output_bytes max_output_bytes) (
      invalid runner_max_process_output_bytes
        (codes "must be greater than or equal to runner.max_output_bytes"))
  workspace_tmpfs_bytes ← nonzero runner_workspace_tmpfs_bytes raw.workspace_tmpfs_bytes
  container_memory_bytes ← nonzero runner_container_memory_bytes raw.container_memory_bytes
  container_cpus ← container_cpus_from raw.container_cpus
  container_pids_limit ← nonzero runner_container_pids_limit raw.container_pids_limit
  tmp_tmpfs_bytes ← nonzero runner_tmp_tmpfs_bytes raw.tmp_tmpfs_bytes
  process_headroom_bytes ← nonzero runner_process_headroom_bytes raw.process_headroom_bytes
  fail_if
      (ltb container_memory_bytes (
        saturating_add (saturating_add workspace_tmpfs_bytes tmp_tmpfs_bytes)
          process_headroom_bytes))
      (invalid runner_workspace_tmpfs_bytes (
        codes
          "plus runner.tmp_tmpfs_bytes and runner.process_headroom_bytes must fit in runner.container_memory_bytes"))
  core_ulimit ← core_ulimit_from raw.core_ulimit
  image ← runner_image_from raw.image
  workspace_root ← workspace_root_from raw.workspace_root
  podman_path ← podman_path_from raw.podman_path
  ok (record {
    queue_capacity = queue_capacity;
    workers = workers;
    timeout = from_secs timeout_secs;
    cleanup_timeout = from_secs cleanup_timeout_secs;
    max_output_bytes = max_output_bytes;
    max_process_output_bytes = max_process_output_bytes;
    workspace_tmpfs_bytes = workspace_tmpfs_bytes;
    container_memory_bytes = container_memory_bytes;
    container_cpus = container_cpus;
    container_pids_limit = container_pids_limit;
    tmp_tmpfs_bytes = tmp_tmpfs_bytes;
    process_headroom_bytes = process_headroom_bytes;
    core_ulimit = core_ulimit;
    image = image;
    workspace_root = workspace_root;
    podman_path = podman_path;
  })

unfoldable pub validation_settings : RawValidationSettings → Result SettingsError ValidationSettings
validation_settings raw = do
  max_files ← nonzero validation_max_files raw.max_files
  max_file_bytes ← nonzero validation_max_file_bytes raw.max_file_bytes
  max_total_bytes ← nonzero validation_max_total_bytes raw.max_total_bytes
  max_path_bytes ← nonzero validation_max_path_bytes raw.max_path_bytes
  max_path_component_bytes ←
      nonzero validation_max_path_component_bytes raw.max_path_component_bytes
  max_diagnostic_snippets_per_case ←
      nonzero validation_max_diagnostic_snippets_per_case raw.max_diagnostic_snippets_per_case
  max_diagnostic_snippet_bytes ←
      nonzero validation_max_diagnostic_snippet_bytes raw.max_diagnostic_snippet_bytes
  max_diagnostic_total_bytes ←
      nonzero validation_max_diagnostic_total_bytes raw.max_diagnostic_total_bytes
  limits ← map_err invalid_validation_limits (
      try_new max_files max_file_bytes max_total_bytes max_path_bytes max_path_component_bytes
        max_diagnostic_snippets_per_case max_diagnostic_snippet_bytes max_diagnostic_total_bytes)
  ok (record { limits = limits })

unfoldable pub api_settings : RawApiSettings → Result SettingsError ApiSettings
api_settings raw = do
  bytes ← nonzero api_max_json_payload_bytes raw.max_json_payload_bytes
  ok (record { max_json_payload_bytes = bytes })

-- `.map(f).transpose()`.
abbrev pub traverse {ℓ κ κ'} :
    {E : Type ℓ} {A : Type κ} {B : Type κ'} → (A → Result E B) → Option A → Result E (Option B)
traverse f none = ok none
traverse f (some a) = do b ← f a; ok (some b)

unfoldable pub observability_settings :
    RawObservabilitySettings → Result SettingsError ObservabilitySettings
observability_settings raw = do
  token ← traverse metrics_bearer_token raw.metrics_bearer_token
  ok (record { metrics_enabled = raw.metrics_enabled; metrics_bearer_token = token })

-- `.map(trim).filter(|value| !value.is_empty())`.
unfoldable pub given_origin : Option Text → Option Text
given_origin none = none
given_origin (some value) = if is_empty (trim value) then none else some (trim value)

module _ {IpAddr : Type 0} (parse_url : Text → Option Url) (parse_ip : Text → Option IpAddr) where
  unfoldable pub server_settings : RawServerSettings → Result SettingsError (ServerSettings IpAddr)
  server_settings raw = do
    cors_origin ← traverse (cors_origin_from parse_url) (given_origin raw.cors_origin)
    address ← bind_address parse_ip raw.host raw.port
    ok (record { bind_address = address; cors_origin = cors_origin })

  -- `Settings::try_from`.
  unfoldable pub settings : RawSettings → Result SettingsError (Settings IpAddr)
  settings raw = do
    validation ← validation_settings raw.validation
    api ← api_settings raw.api
    fail_if (ltb api.max_json_payload_bytes (max_json_payload_bytes validation.limits)) (
        invalid api_max_json_payload_bytes
          (codes "must cover the worst-case JSON payload permitted by validation limits"))
    server ← server_settings raw.server
    frontend ← frontend_settings raw.frontend
    runner ← runner_settings raw.runner
    observability ← observability_settings raw.observability
    ok (record {
      server = server;
      frontend = frontend;
      runner = runner;
      validation = validation;
      api = api;
      observability = observability;
    })
