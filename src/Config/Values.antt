-- ===== src/Config/Values.antt =====
-- The narrow types of config.rs: text and path values, the CPU quota, addresses and origins. A path
-- is a text. `IpAddr`'s parser and the `url` crate are parameters.
use rust_daily.Base.{
  ℕ, Bool, true, false, not, ◌||◌, ◌++◌, Option, none, some, ◌==◌, any, is_empty, Result, ok, err,
  ◌>>=◌, ◌>>◌, fail_if,
}
use rust_daily.Config.Fields.{
  ConfigField, SettingsError, non_zero, empty, invalid, server_host, server_port,
  runner_container_cpus, runner_core_ulimit, runner_image, runner_workspace_root,
  runner_podman_path, frontend_dist, server_cors_origin, observability_metrics_bearer_token,
}
use rust_daily.Text.{Text, codes, text_eq, starts_with, is_control, trim}

-- `nonzero_usize` and `nonzero_u64`.
unfoldable pub nonzero : ConfigField → ℕ → Result SettingsError ℕ
nonzero field value = fail_if (value == 0) (non_zero field) >> ok value

pub record MetricsBearerToken : Type 0 where
  pub as_ref : Text

unfoldable pub metrics_bearer_token : Text → Result SettingsError MetricsBearerToken
metrics_bearer_token raw = do
  let value = trim raw
  fail_if (is_empty value) (empty observability_metrics_bearer_token)
  fail_if (any is_control value)
      (invalid observability_metrics_bearer_token (codes "must not contain control characters"))
  ok (record { as_ref = value })

pub record RunnerImage : Type 0 where
  pub as_ref : Text

unfoldable pub runner_image_from : Text → Result SettingsError RunnerImage
runner_image_from raw = do
  let value = trim raw
  fail_if (is_empty value) (empty runner_image)
  fail_if (starts_with value (codes "-") || any is_control value) (
      invalid runner_image
        (codes "must be an image reference without leading options or control characters"))
  ok (record { as_ref = value })

pub record CoreUlimit : Type 0 where
  pub value : Text

unfoldable pub core_ulimit_from : Text → Result SettingsError CoreUlimit
core_ulimit_from raw = do
  let value = trim raw
  fail_if (is_empty value) (empty runner_core_ulimit)
  fail_if (starts_with value (codes "-") || any is_control value) (
      invalid runner_core_ulimit
        (codes "must be a ulimit value without leading options or control characters"))
  ok (record { value = value })

-- `CoreUlimit`'s `Display`.
unfoldable pub core_ulimit_text : CoreUlimit → Text
core_ulimit_text u = codes "core=" ++ u.value

-- An `f64`: the number `mantissa * 2^(exponent - 1074)` with its sign, or none.
pub data F64 : Type 0 where
  finite : (negative : Bool) (mantissa exponent : ℕ) → F64
  infinite : (negative : Bool) → F64
  nan : F64

-- `is_finite`, and `<= 0.0`.
unfoldable pub is_finite : F64 → Bool
is_finite (finite _ _ _) = true
is_finite _ = false

unfoldable pub is_at_most_zero : F64 → Bool
is_at_most_zero (finite negative mantissa exponent) = negative || mantissa == 0
is_at_most_zero (infinite negative) = negative
is_at_most_zero nan = false

pub record ContainerCpus : Type 0 where
  pub value : F64

unfoldable pub container_cpus_from : F64 → Result SettingsError ContainerCpus
container_cpus_from value =
    fail_if (not (is_finite value) || is_at_most_zero value)
      (invalid runner_container_cpus (codes "must be a positive finite number"))
    >> ok (record { value = value })

pub record WorkspaceRoot : Type 0 where
  pub as_ref : Text

unfoldable pub workspace_root_from : Text → Result SettingsError WorkspaceRoot
workspace_root_from value =
    fail_if (is_empty value) (empty runner_workspace_root) >> ok (record { as_ref = value })

pub record PodmanPath : Type 0 where
  pub as_ref : Text

unfoldable pub podman_path_from : Text → Result SettingsError PodmanPath
podman_path_from value =
    fail_if (is_empty value) (empty runner_podman_path) >> ok (record { as_ref = value })

pub record FrontendDist : Type 0 where
  pub as_ref : Text

unfoldable pub frontend_dist_from : Text → Result SettingsError FrontendDist
frontend_dist_from value =
    fail_if (is_empty value) (empty frontend_dist) >> ok (record { as_ref = value })

-- What the code reads of a parsed `Url`.
pub record Url : Type 0 where
  pub scheme : Text
  pub host_str : Option Text
  pub username : Text
  pub password : Option Text
  pub path : Text
  pub query : Option Text
  pub fragment : Option Text
  pub ascii_origin : Text

-- `Option::is_some`.
abbrev pub is_some {ℓ} : {A : Type ℓ} → Option A → Bool
is_some none = false
is_some (some a) = true

pub record CorsOrigin : Type 0 where
  pub as_ref : Text

-- The condition on a parsed origin.
unfoldable pub is_not_origin : Url → Bool
is_not_origin u =
    not (text_eq u.scheme (codes "http") || text_eq u.scheme (codes "https"))
    || not (is_some u.host_str)
    || not (is_empty u.username)
    || is_some u.password
    || not (text_eq u.path (codes "/"))
    || is_some u.query
    || is_some u.fragment

-- `ok_or`.
abbrev pub ok_or {ℓ κ} : {E : Type ℓ} {A : Type κ} → E → Option A → Result E A
ok_or e none = err e
ok_or e (some a) = ok a

module _ (parse_url : Text → Option Url) where
  unfoldable pub cors_origin_from : Text → Result SettingsError CorsOrigin
  cors_origin_from raw = do
    let value = trim raw
    fail_if (is_empty value) (empty server_cors_origin)
    parsed ←
        ok_or (invalid server_cors_origin (codes "must be an absolute HTTP or HTTPS origin"))
          (parse_url value)
    fail_if (is_not_origin parsed) (
        invalid server_cors_origin
          (codes "must contain only an HTTP or HTTPS scheme, host, and optional port"))
    fail_if (text_eq parsed.ascii_origin (codes "null"))
        (invalid server_cors_origin (codes "must have a serializable origin"))
    ok (record { as_ref = parsed.ascii_origin })

-- A socket address of a parsed IP address.
pub record BindAddress (IpAddr : Type 0) : Type 0 where
  pub ip : IpAddr
  pub port : ℕ

module _ {IpAddr : Type 0} (parse_ip : Text → Option IpAddr) where
  unfoldable pub bind_address : Text → ℕ → Result SettingsError (BindAddress IpAddr)
  bind_address raw port = do
    let host = trim raw
    fail_if (is_empty host) (empty server_host)
    ip ← ok_or (invalid server_host (codes "must be an IPv4 or IPv6 address")) (parse_ip host)
    checked ← nonzero server_port port
    ok (record { ip = ip; port = checked })
