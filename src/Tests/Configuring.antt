-- ===== src/Tests/Configuring.antt =====
-- Settings of concrete values.
use rust_daily.Model.Limits.{max_json_payload_bytes, try_new}
use rust_daily.Config.Settings.{
  validation_settings, api_settings, observability_settings, server_settings, given_origin,
  frontend_settings, Settings, settings, runner_settings, RunnerSettings,
}
use rust_daily.Config.Raw.{RawSettings, RawRunnerSettings}
use rust_daily.Config.Converts.{IsPositive}
use rust_daily.Config.Runnable.{converted, runner_settings-IsRunnable, IsRunnable}
use rust_daily.Config.Payload.{text_bytes, settings-validate}
use rust_daily.Tests.{test_limits, compile_fail_request, compile_fail_validated}
use rust_daily.Tests.Validation.{test_limits-IsSmall, compile_fail_accepted}
use rust_daily.Config.Sound.{IsSound, settings-IsSound}
use rust_daily.Config.Values.{
  metrics_bearer_token, bind_address, workspace_root_from, podman_path_from, core_ulimit_from,
  runner_image_from, frontend_dist_from, is_finite, cors_origin_from, nonzero, is_at_most_zero,
  is_not_origin, container_cpus_from, Url, finite,
}
use rust_daily.Base.{◌≤◌, ◌+◌, ◌*◌, none, true, [], refl, Option, arith, some, false, ok, ◌≡◌}
use rust_daily.Text.{text_eq, trim_start, starts_with, is_control, codes, trim, Text}

abbrev raw_runner : RawRunnerSettings
raw_runner = record {
  queue_capacity = 8;
  workers = 2;
  timeout_secs = 1;
  cleanup_timeout_secs = 5;
  max_output_bytes = 1000;
  max_process_output_bytes = 4000;
  workspace_tmpfs_bytes = 100;
  container_memory_bytes = 600;
  container_cpus = finite false 1 1074;
  container_pids_limit = 64;
  tmp_tmpfs_bytes = 200;
  process_headroom_bytes = 300;
  core_ulimit = codes "0";
  image = codes "r:1";
  workspace_root = codes "/w";
  podman_path = codes "podman";
}

abbrev pub test_settings : RunnerSettings
test_settings = converted raw_runner

raw_runner-IsRunnable : IsRunnable raw_runner
unfolding IsPositive trim trim_start starts_with is_control
raw_runner-IsRunnable = record {
  queue_capacity_positive = cc;
  workers_positive = cc;
  timeout_positive = cc;
  cleanup_positive = cc;
  output_positive = cc;
  process_output_positive = cc;
  output_fits = omega arith;
  workspace_positive = cc;
  memory_positive = cc;
  cpus_positive = (refl, cc);
  pids_positive = cc;
  tmp_positive = cc;
  headroom_positive = cc;
  memory_fits = omega arith;
  ulimit_plain = record { given = cc; no_option = refl; no_control = (refl, tt) };
  image_plain = record { given = cc; no_option = refl; no_control = (refl, (refl, (refl, tt))) };
  root_given = cc;
  podman_given = cc;
}

runner_settings-IsRunnable_example : runner_settings raw_runner ≡ ok test_settings
runner_settings-IsRunnable_example =
    (runner_settings-IsRunnable raw_runner test_settings).1 (raw_runner-IsRunnable, refl)

-- A service with one origin, and the scheme, host and path of every text it parses.
abbrev raw_settings : RawSettings
raw_settings = record {
  server = record { host = codes "::1"; port = 8080; cors_origin = some (codes " http://a ") };
  frontend = record { dist = codes "dist" };
  runner = raw_runner;
  validation = record {
    max_files = 8;
    max_file_bytes = 65536;
    max_total_bytes = 262144;
    max_path_bytes = 240;
    max_path_component_bytes = 120;
    max_diagnostic_snippets_per_case = 16;
    max_diagnostic_snippet_bytes = 512;
    max_diagnostic_total_bytes = 8192;
  };
  api = record { max_json_payload_bytes = 1600000 };
  observability = record { metrics_enabled = true; metrics_bearer_token = some (codes "t") };
}

abbrev parse_url : Text → Option Url
parse_url s = some (record {
  scheme = codes "http";
  host_str = some s;
  username = [];
  password = none;
  path = codes "/";
  query = none;
  fragment = none;
  ascii_origin = s;
})

abbrev parse_ip : Text → Option Text
parse_ip s = some s

abbrev checked_settings : Settings Text
checked_settings = record {
  server = record {
    bind_address = record { ip = codes "::1"; port = 8080 };
    cors_origin = some (record { as_ref = codes "http://a" });
  };
  frontend = record { dist = record { as_ref = codes "dist" } };
  runner = test_settings;
  validation = record { limits = test_limits };
  api = record { max_json_payload_bytes = 1600000 };
  observability = record {
    metrics_enabled = true;
    metrics_bearer_token = some (record { as_ref = codes "t" });
  };
}

raw_settings_run : settings parse_url parse_ip raw_settings ≡ ok checked_settings
unfolding settings validation_settings api_settings server_settings frontend_settings
    runner_settings observability_settings given_origin nonzero try_new max_json_payload_bytes trim
    trim_start starts_with is_control text_eq cors_origin_from is_not_origin bind_address
    frontend_dist_from container_cpus_from core_ulimit_from runner_image_from workspace_root_from
    podman_path_from metrics_bearer_token is_finite is_at_most_zero
raw_settings_run = refl

settings-IsSound_example : IsSound raw_settings checked_settings
settings-IsSound_example =
    settings-IsSound parse_url parse_ip raw_settings checked_settings raw_settings_run

settings-validate_example :
    text_bytes compile_fail_request * 6 + 4096 ≤ checked_settings.api.max_json_payload_bytes
settings-validate_example =
    settings-validate parse_url parse_ip raw_settings checked_settings compile_fail_request
      compile_fail_validated raw_settings_run test_limits-IsSmall (omega arith)
      compile_fail_accepted
