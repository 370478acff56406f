-- ===== src/Config/Runnable.antt =====
-- The runner's raw settings that the service starts with, described without the conversion.
use rust_daily.Base.{
  refl, ok-injective, on_pass, ap, arith, ◌∙◌, saturating_add, false, ◌↔◌, ltb, ◌≢◌, ok, ◌≤◌, ℕ,
  ◌≡◌,
}
use rust_daily.Config.Fields.{
  runner_container_pids_limit, runner_workspace_tmpfs_bytes, runner_max_process_output_bytes,
  runner_process_headroom_bytes, runner_container_memory_bytes, runner_tmp_tmpfs_bytes,
  runner_max_output_bytes, runner_cleanup_timeout_secs, runner_timeout_secs, runner_workers,
  runner_queue_capacity,
}
use rust_daily.Config.Settings.{from_secs, runner_settings, RunnerSettings}
use rust_daily.Config.Raw.{RawRunnerSettings}
use rust_daily.Config.Converts.{
  core_ulimit-Converts, runner_image-Converts, podman_path-Converts, container_cpus-Converts,
  workspace_root-Converts, IsGiven, IsPlainValue, IsPositive, nonzero-Converts, on_converts,
}
use rust_daily.Text.{trim}

-- The raw settings that hold together: every number is positive, the retained output is no
-- larger than the processed one, the two file systems and the headroom fit in the container's
-- memory, and the texts name something without passing for an option.
pub record IsRunnable (raw : RawRunnerSettings) : Type 0 where
  pub queue_capacity_positive : raw.queue_capacity ≢ 0
  pub workers_positive : raw.workers ≢ 0
  pub timeout_positive : raw.timeout_secs ≢ 0
  pub cleanup_positive : raw.cleanup_timeout_secs ≢ 0
  pub output_positive : raw.max_output_bytes ≢ 0
  pub process_output_positive : raw.max_process_output_bytes ≢ 0
  pub output_fits : raw.max_output_bytes ≤ raw.max_process_output_bytes
  pub workspace_positive : raw.workspace_tmpfs_bytes ≢ 0
  pub memory_positive : raw.container_memory_bytes ≢ 0
  pub cpus_positive : IsPositive raw.container_cpus
  pub pids_positive : raw.container_pids_limit ≢ 0
  pub tmp_positive : raw.tmp_tmpfs_bytes ≢ 0
  pub headroom_positive : raw.process_headroom_bytes ≢ 0
  pub memory_fits :
      saturating_add
        (saturating_add raw.workspace_tmpfs_bytes raw.tmp_tmpfs_bytes)
        raw.process_headroom_bytes
      ≤ raw.container_memory_bytes
  pub ulimit_plain : IsPlainValue raw.core_ulimit
  pub image_plain : IsPlainValue raw.image
  pub root_given : IsGiven raw.workspace_root
  pub podman_given : IsGiven raw.podman_path

-- The settings that such raw settings stand for.
abbrev pub converted : RawRunnerSettings → RunnerSettings
converted raw = record {
  queue_capacity = raw.queue_capacity;
  workers = raw.workers;
  timeout = from_secs raw.timeout_secs;
  cleanup_timeout = from_secs raw.cleanup_timeout_secs;
  max_output_bytes = raw.max_output_bytes;
  max_process_output_bytes = raw.max_process_output_bytes;
  workspace_tmpfs_bytes = raw.workspace_tmpfs_bytes;
  container_memory_bytes = raw.container_memory_bytes;
  container_cpus = record { value = raw.container_cpus };
  container_pids_limit = raw.container_pids_limit;
  tmp_tmpfs_bytes = raw.tmp_tmpfs_bytes;
  process_headroom_bytes = raw.process_headroom_bytes;
  core_ulimit = record { value = trim raw.core_ulimit };
  image = record { as_ref = trim raw.image };
  workspace_root = record { as_ref = raw.workspace_root };
  podman_path = record { as_ref = raw.podman_path };
}

sound :
    (raw : RawRunnerSettings) (s : RunnerSettings)
    → runner_settings raw ≡ ok s
    → IsRunnable raw × (converted raw ≡ s)
unfolding runner_settings
sound raw s h = on_converts (nonzero-Converts runner_queue_capacity) raw.queue_capacity _ h λ p1 h.
    on_converts (nonzero-Converts runner_workers) raw.workers _ h λ p2 h.
      on_converts (nonzero-Converts runner_timeout_secs) raw.timeout_secs _ h λ p3 h.
        on_converts (nonzero-Converts runner_cleanup_timeout_secs) raw.cleanup_timeout_secs _ h
          λ p4 h.
            on_converts (nonzero-Converts runner_max_output_bytes) raw.max_output_bytes _ h λ p5 h.
              on_converts (nonzero-Converts runner_max_process_output_bytes)
                raw.max_process_output_bytes _ h
                λ p6 h.
                  on_pass (ltb raw.max_process_output_bytes raw.max_output_bytes) _ _ h λ t1 h.
                    on_converts (nonzero-Converts runner_workspace_tmpfs_bytes)
                      raw.workspace_tmpfs_bytes _ h
                      λ p7 h.
                        on_converts (nonzero-Converts runner_container_memory_bytes)
                          raw.container_memory_bytes _ h
                          λ p8 h. on_converts container_cpus-Converts raw.container_cpus _ h λ p9 h.
                            on_converts (nonzero-Converts runner_container_pids_limit)
                              raw.container_pids_limit _ h
                              λ p10 h.
                                on_converts (nonzero-Converts runner_tmp_tmpfs_bytes)
                                  raw.tmp_tmpfs_bytes _ h
                                  λ p11 h.
                                    on_converts (nonzero-Converts runner_process_headroom_bytes)
                                      raw.process_headroom_bytes _ h
                                      λ p12 h.
                                        on_pass
                                          (ltb raw.container_memory_bytes (
                                            saturating_add
                                              (saturating_add raw.workspace_tmpfs_bytes
                                                raw.tmp_tmpfs_bytes)
                                              raw.process_headroom_bytes))
                                          _ _ h
                                          λ t2 h.
                                            on_converts core_ulimit-Converts raw.core_ulimit _ h
                                              λ p13 h.
                                                on_converts runner_image-Converts raw.image _ h
                                                  λ p14 h.
                                                    on_converts workspace_root-Converts
                                                      raw.workspace_root _ h
                                                      λ p15 h.
                                                        on_converts podman_path-Converts
                                                          raw.podman_path _ h
                                                          λ p16 z. (
                                                            record {
                                                            queue_capacity_positive = p1;
                                                            workers_positive = p2;
                                                            timeout_positive = p3;
                                                            cleanup_positive = p4;
                                                            output_positive = p5;
                                                            process_output_positive = p6;
                                                            output_fits = ground (arith, t1);
                                                            workspace_positive = p7;
                                                            memory_positive = p8;
                                                            cpus_positive = p9;
                                                            pids_positive = p10;
                                                            tmp_positive = p11;
                                                            headroom_positive = p12;
                                                            memory_fits = ground (arith, t2);
                                                            ulimit_plain = p13;
                                                            image_plain = p14;
                                                            root_given = p15;
                                                            podman_given = p16;
                                                            },
                                                            ok-injective _ _ z,
                                                          )

ltb-false_of_≤ : {a b : ℕ} → a ≤ b → ltb b a ≡ false
ltb-false_of_≤ h = ground (arith, h)

accepts : (raw : RawRunnerSettings) → IsRunnable raw → runner_settings raw ≡ ok (converted raw)
unfolding runner_settings
accepts raw r =
    rw
      (
        (nonzero-Converts runner_queue_capacity).accepts raw.queue_capacity
            r.queue_capacity_positive,
        (nonzero-Converts runner_workers).accepts raw.workers r.workers_positive,
        (nonzero-Converts runner_timeout_secs).accepts raw.timeout_secs r.timeout_positive,
        (nonzero-Converts runner_cleanup_timeout_secs).accepts raw.cleanup_timeout_secs
            r.cleanup_positive,
        (nonzero-Converts runner_max_output_bytes).accepts raw.max_output_bytes r.output_positive,
        (nonzero-Converts runner_max_process_output_bytes).accepts raw.max_process_output_bytes
            r.process_output_positive,
        ltb-false_of_≤ r.output_fits,
        (nonzero-Converts runner_workspace_tmpfs_bytes).accepts raw.workspace_tmpfs_bytes
            r.workspace_positive,
        (nonzero-Converts runner_container_memory_bytes).accepts raw.container_memory_bytes
            r.memory_positive,
        container_cpus-Converts.accepts raw.container_cpus r.cpus_positive,
        (nonzero-Converts runner_container_pids_limit).accepts raw.container_pids_limit
            r.pids_positive,
        (nonzero-Converts runner_tmp_tmpfs_bytes).accepts raw.tmp_tmpfs_bytes r.tmp_positive,
        (nonzero-Converts runner_process_headroom_bytes).accepts raw.process_headroom_bytes
            r.headroom_positive,
        ltb-false_of_≤ r.memory_fits,
        core_ulimit-Converts.accepts raw.core_ulimit r.ulimit_plain,
        runner_image-Converts.accepts raw.image r.image_plain,
        workspace_root-Converts.accepts raw.workspace_root r.root_given,
        podman_path-Converts.accepts raw.podman_path r.podman_given,
      )
      refl

-- The runner's raw settings are accepted exactly when every number in them is positive and the
-- CPU quota is a positive number, the retained output is no larger than the processed one, the
-- two file systems and the headroom fit in the container's memory, the core limit and the image
-- are values that cannot be read as options, and both paths are given; and then the settings are
-- these values, with the durations in seconds and the two texts trimmed.
pub runner_settings-IsRunnable :
    (raw : RawRunnerSettings) (s : RunnerSettings)
    → (runner_settings raw ≡ ok s) ↔ (IsRunnable raw × (converted raw ≡ s))
runner_settings-IsRunnable raw s = (λ h. sound raw s h, λ r. accepts raw r.0 ∙ ap ok r.1)
