-- ===== src/Config/Sound.antt =====
-- What holds of the settings that the service starts with.
use rust_daily.Model.Limits.Json.{max_json_payload_bytes_lem}
use rust_daily.Config.Settings.{
  FrontendSettings, ServerSettings, given_origin, traverse, settings, api_settings,
  ObservabilitySettings, runner_settings, server_settings, observability_settings,
  frontend_settings, ValidationSettings, validation_settings, Settings,
}
use rust_daily.Config.Raw.{
  RawObservabilitySettings, RawServerSettings, RawFrontendSettings, RawValidationSettings,
  RawSettings,
}
use mathlib.Core.Option.{some-injective}
use rust_daily.Config.Converts.{
  false→given, frontend_dist-Converts, nonzero-Converts, IsGiven, on_converts,
}
use rust_daily.Config.Runnable.{runner_settings-IsRunnable, converted, IsRunnable}
use rust_daily.Config.Values.{
  bind_address, cors_origin_from, ok_or, Url, metrics_bearer_token, MetricsBearerToken,
}
use rust_daily.Config.Fields.{
  server_port, validation_max_files, validation_max_total_bytes,
  validation_max_diagnostic_total_bytes, validation_max_file_bytes,
  validation_max_path_component_bytes, validation_max_diagnostic_snippet_bytes,
  invalid_validation_limits, validation_max_diagnostic_snippets_per_case, validation_max_path_bytes,
}
use rust_daily.Model.Limits.{
  max_json_payload_bytes, max_path_component_bytes_hard_limit, max_path_bytes_hard_limit,
  IsConsistent, try_new, ValidationLimits,
}
use rust_daily.Text.{trim, is_control, Text}
use rust_daily.Base.{
  usize_max, ◌*◌, ◌+◌, min, ap, is_empty, any, Option, refl, ◌∙◌, some, none, arith, some, ◌||◌,
  ◌≤◌, sym, ltb, ◌≢◌, ℕ, map_err-eq-ok, on_pass, on_ok, ok-injective, map_err, ok, ◌≡◌,
}

-- The relations between the values of the settings, and of the raw ones they come from.
pub record IsSound {IpAddr : Type 0} (raw : RawSettings) (s : Settings IpAddr) : Type 0 where
  pub limits_consistent : IsConsistent s.validation.limits
  pub files_positive : s.validation.limits.max_files ≢ 0
  pub payload_covered :
      (let l = s.validation.limits in
        min ((l.max_total_bytes + (l.max_files + 4) * l.max_path_bytes) * 6 + 4096) usize_max)
      ≤ s.api.max_json_payload_bytes
  pub runnable : IsRunnable raw.runner
  pub runner_converted : converted raw.runner ≡ s.runner
  pub port_positive : s.server.bind_address.port ≢ 0
  pub dist_given : IsGiven s.frontend.dist.as_ref
  pub token_given :
      (t : MetricsBearerToken) → s.observability.metrics_bearer_token ≡ some t → IsGiven t.as_ref

limits_from :
    (a b c d e f g h : ℕ) (l : ValidationLimits)
    → try_new a b c d e f g h ≡ ok l
    → IsConsistent l × (a ≡ l.max_files)
unfolding try_new
limits_from a b c d e f g h l p = on_pass (ltb c b) _ _ p λ t1 p. on_pass (ltb d e) _ _ p λ t2 p.
    on_pass (ltb max_path_bytes_hard_limit d || ltb max_path_component_bytes_hard_limit e) _ _ p
      λ t3 p.
        on_pass (ltb h g) _ _ p
          λ t4 z. rw (sym (ok-injective _ _ z)) (ground (arith, t1, t2, t3, t4), refl)

limits-IsConsistent :
    (raw : RawValidationSettings) (v : ValidationSettings)
    → validation_settings raw ≡ ok v
    → IsConsistent v.limits × (v.limits.max_files ≢ 0)
unfolding validation_settings
limits-IsConsistent raw v h =
    on_converts (nonzero-Converts validation_max_files) raw.max_files _ h λ p1 h.
      on_converts (nonzero-Converts validation_max_file_bytes) raw.max_file_bytes _ h λ p2 h.
        on_converts (nonzero-Converts validation_max_total_bytes) raw.max_total_bytes _ h λ p3 h.
          on_converts (nonzero-Converts validation_max_path_bytes) raw.max_path_bytes _ h λ p4 h.
            on_converts (nonzero-Converts validation_max_path_component_bytes)
              raw.max_path_component_bytes _ h
              λ p5 h.
                on_converts (nonzero-Converts validation_max_diagnostic_snippets_per_case)
                  raw.max_diagnostic_snippets_per_case _ h
                  λ p6 h.
                    on_converts (nonzero-Converts validation_max_diagnostic_snippet_bytes)
                      raw.max_diagnostic_snippet_bytes _ h
                      λ p7 h.
                        on_converts (nonzero-Converts validation_max_diagnostic_total_bytes)
                          raw.max_diagnostic_total_bytes _ h
                          λ p8 h.
                            on_ok
                              (map_err invalid_validation_limits (
                                try_new raw.max_files raw.max_file_bytes raw.max_total_bytes
                                  raw.max_path_bytes raw.max_path_component_bytes
                                  raw.max_diagnostic_snippets_per_case
                                  raw.max_diagnostic_snippet_bytes raw.max_diagnostic_total_bytes))
                              _ h
                              λ l e z.
                                let (c, same) =
                                  limits_from _ _ _ _ _ _ _ _ l (map_err-eq-ok _ _ e) in
                                rw (sym (ok-injective _ _ z)) (c, λ q. p1 (same ∙ q))

made-IsGiven :
    (v : Text) (u : MetricsBearerToken) → metrics_bearer_token v ≡ ok u → IsGiven u.as_ref
unfolding metrics_bearer_token
made-IsGiven v u h = on_pass (is_empty (trim v)) _ _ h λ t h.
    on_pass (any is_control (trim v)) _ _ h
      λ t' z. rw (sym (ok-injective _ _ z)) (false→given (trim v) t)

dist-IsGiven :
    (raw : RawFrontendSettings) (s : FrontendSettings)
    → frontend_settings raw ≡ ok s
    → IsGiven s.dist.as_ref
unfolding frontend_settings
dist-IsGiven raw s h =
    on_converts frontend_dist-Converts raw.dist _ h λ g z. rw (sym (ok-injective _ _ z)) g

traversed-IsGiven :
    (raw : Option Text) (token : Option MetricsBearerToken)
    → traverse metrics_bearer_token raw ≡ ok token
    → (t : MetricsBearerToken) → token ≡ some t
    → IsGiven t.as_ref
traversed-IsGiven none token f t e = cc
traversed-IsGiven (some v) token f t e =
    on_ok (metrics_bearer_token v) _ f
      λ u g z. rw (some-injective _ _ (sym e ∙ sym (ok-injective _ _ z))) (made-IsGiven v u g)

token-IsGiven :
    (raw : RawObservabilitySettings) (s : ObservabilitySettings)
    → observability_settings raw ≡ ok s
    → (t : MetricsBearerToken) → s.metrics_bearer_token ≡ some t
    → IsGiven t.as_ref
unfolding observability_settings
token-IsGiven raw s h t e =
    on_ok (traverse metrics_bearer_token raw.metrics_bearer_token) _ h λ token f z.
      traversed-IsGiven raw.metrics_bearer_token token f t
        (ap (λ s. s.metrics_bearer_token) (ok-injective _ _ z) ∙ e)

module _ {IpAddr : Type 0} (parse_url : Text → Option Url) (parse_ip : Text → Option IpAddr) where
  port-positive :
      (raw : RawServerSettings) (s : ServerSettings IpAddr)
      → server_settings parse_url parse_ip raw ≡ ok s
      → s.bind_address.port ≢ 0
  unfolding server_settings bind_address
  port-positive raw s h =
      on_ok (traverse (cors_origin_from parse_url) (given_origin raw.cors_origin)) _ h λ o e h.
        on_ok (bind_address parse_ip raw.host raw.port) _ h λ address e z.
          on_pass (is_empty (trim raw.host)) _ _ e λ t h.
            on_ok (ok_or _ (parse_ip (trim raw.host))) _ h λ ip f h.
              on_converts (nonzero-Converts server_port) raw.port _ h λ p w q. p (
                ap (λ a. a.port) (ok-injective _ _ w)
                ∙ ap (λ s. s.bind_address.port) (ok-injective _ _ z)
                ∙ q)

  -- The settings that any raw settings are converted to have consistent limits that admit a
  -- file, a limit on JSON bodies with room for 4096 bytes and for each byte of the contents and
  -- of the paths that they admit written as six, or of the largest `usize` if that is less, the
  -- runner's settings of raw ones that hold together, a port other than 0, a directory to serve,
  -- and no empty bearer token.
  pub settings-IsSound :
      (raw : RawSettings) (s : Settings IpAddr)
      → settings parse_url parse_ip raw ≡ ok s
      → IsSound raw s
  unfolding settings
  settings-IsSound raw s h = on_ok (validation_settings raw.validation) _ h λ v e1 h.
      on_ok (api_settings raw.api) _ h λ a e2 h.
        on_pass (ltb a.max_json_payload_bytes (max_json_payload_bytes v.limits)) _ _ h λ t h.
          on_ok (server_settings parse_url parse_ip raw.server) _ h λ server e3 h.
            on_ok (frontend_settings raw.frontend) _ h λ f e4 h.
              on_ok (runner_settings raw.runner) _ h λ r e5 h.
                on_ok (observability_settings raw.observability) _ h λ o e6 z.
                  let (consistent, positive) = limits-IsConsistent raw.validation v e1 in
                  let t_within : max_json_payload_bytes v.limits ≤ a.max_json_payload_bytes =
                    ground (arith, t) in
                  let (runnable, same) = (runner_settings-IsRunnable raw.runner r).0 e5 in
                  rw (sym (ok-injective _ _ z)) (record {
                    limits_consistent = consistent;
                    files_positive = positive;
                    payload_covered = omega (arith, t_within, max_json_payload_bytes_lem v.limits);
                    runnable = runnable;
                    runner_converted = same;
                    port_positive = port-positive raw.server server e3;
                    dist_given = dist-IsGiven raw.frontend f e4;
                    token_given = token-IsGiven raw.observability o e6;
                  })
