-- ===== src/Config/Fields.antt =====
-- The configuration fields that an error names, and the errors.
use rust_daily.Model.Limits.{ValidationLimitsError}
use rust_daily.Text.{Text, codes}

pub data ConfigField : Type 0 where
  server_host : ConfigField
  server_port : ConfigField
  runner_queue_capacity : ConfigField
  runner_workers : ConfigField
  runner_timeout_secs : ConfigField
  runner_cleanup_timeout_secs : ConfigField
  runner_max_output_bytes : ConfigField
  runner_max_process_output_bytes : ConfigField
  runner_workspace_tmpfs_bytes : ConfigField
  runner_container_memory_bytes : ConfigField
  runner_container_cpus : ConfigField
  runner_container_pids_limit : ConfigField
  runner_tmp_tmpfs_bytes : ConfigField
  runner_process_headroom_bytes : ConfigField
  runner_core_ulimit : ConfigField
  runner_image : ConfigField
  runner_workspace_root : ConfigField
  runner_podman_path : ConfigField
  frontend_dist : ConfigField
  server_cors_origin : ConfigField
  validation_max_files : ConfigField
  validation_max_file_bytes : ConfigField
  validation_max_total_bytes : ConfigField
  validation_max_path_bytes : ConfigField
  validation_max_path_component_bytes : ConfigField
  validation_max_diagnostic_snippets_per_case : ConfigField
  validation_max_diagnostic_snippet_bytes : ConfigField
  validation_max_diagnostic_total_bytes : ConfigField
  api_max_json_payload_bytes : ConfigField
  observability_metrics_bearer_token : ConfigField

-- `ConfigField`'s `Display`.
unfoldable pub field_name : ConfigField → Text
field_name server_host = codes "server.host"
field_name server_port = codes "server.port"
field_name runner_queue_capacity = codes "runner.queue_capacity"
field_name runner_workers = codes "runner.workers"
field_name runner_timeout_secs = codes "runner.timeout_secs"
field_name runner_cleanup_timeout_secs = codes "runner.cleanup_timeout_secs"
field_name runner_max_output_bytes = codes "runner.max_output_bytes"
field_name runner_max_process_output_bytes = codes "runner.max_process_output_bytes"
field_name runner_workspace_tmpfs_bytes = codes "runner.workspace_tmpfs_bytes"
field_name runner_container_memory_bytes = codes "runner.container_memory_bytes"
field_name runner_container_cpus = codes "runner.container_cpus"
field_name runner_container_pids_limit = codes "runner.container_pids_limit"
field_name runner_tmp_tmpfs_bytes = codes "runner.tmp_tmpfs_bytes"
field_name runner_process_headroom_bytes = codes "runner.process_headroom_bytes"
field_name runner_core_ulimit = codes "runner.core_ulimit"
field_name runner_image = codes "runner.image"
field_name runner_workspace_root = codes "runner.workspace_root"
field_name runner_podman_path = codes "runner.podman_path"
field_name frontend_dist = codes "frontend.dist"
field_name server_cors_origin = codes "server.cors_origin"
field_name validation_max_files = codes "validation.max_files"
field_name validation_max_file_bytes = codes "validation.max_file_bytes"
field_name validation_max_total_bytes = codes "validation.max_total_bytes"
field_name validation_max_path_bytes = codes "validation.max_path_bytes"
field_name validation_max_path_component_bytes = codes "validation.max_path_component_bytes"
field_name validation_max_diagnostic_snippets_per_case =
    codes "validation.max_diagnostic_snippets_per_case"
field_name validation_max_diagnostic_snippet_bytes = codes "validation.max_diagnostic_snippet_bytes"
field_name validation_max_diagnostic_total_bytes = codes "validation.max_diagnostic_total_bytes"
field_name api_max_json_payload_bytes = codes "api.max_json_payload_bytes"
field_name observability_metrics_bearer_token = codes "observability.metrics_bearer_token"

-- `SettingsError`; `load_failed` carries an error of the `config` crate in the source.
pub data SettingsError : Type 0 where
  load_failed : SettingsError
  non_zero : ConfigField → SettingsError
  empty : ConfigField → SettingsError
  invalid : ConfigField → Text → SettingsError
  invalid_validation_limits : ValidationLimitsError → SettingsError
