-- ===== src/Tests/Monitoring.antt =====
-- The metrics endpoint with a concrete token.
use rust_daily.Config.Values.{MetricsBearerToken}
use mathlib.Core.Option.{none, some-injective}
use rust_daily.Base.{◌⊎◌, subst, ◌≡◌, ◌↔◌, some, true, refl, arith}
use rust_daily.Config.Settings.{ObservabilitySettings}
use rust_daily.Observability.{constant_time_eq, Authorization, metrics_status}
use rust_daily.Observability.Guard.{AreBytes, Carries, constant_time_eq_iff, metrics_status-served}
use rust_daily.Text.Utf8.{encode_char, as_bytes}
use rust_daily.Observability.Labels.{IsFixed, path_label, path_label-IsFixed}
use rust_daily.Text.{Text, codes}

abbrev right_value : Text
right_value = codes "Bearer t"

right_value-AreBytes : AreBytes (as_bytes right_value)
unfolding as_bytes encode_char
right_value-AreBytes = record {
  small = (
    omega arith,
    (
      omega arith,
      (omega arith, (omega arith, (omega arith, (omega arith, (omega arith, (omega arith, tt)))))),
    ),
  );
  few = omega arith;
}

constant_time_eq_iff_example :
    (constant_time_eq right_value right_value ≡ true)
    ↔ (as_bytes right_value ≡ as_bytes right_value)
constant_time_eq_iff_example =
    constant_time_eq_iff right_value right_value right_value-AreBytes right_value-AreBytes

abbrev token : MetricsBearerToken
token = record { as_ref = codes "t" }

abbrev guarded : ObservabilitySettings
guarded = record { metrics_enabled = true; metrics_bearer_token = some token }

header-AreBytes :
    (value : Text)
    → ◌≡◌ {A = Authorization} (some (some right_value)) (some (some value))
    → AreBytes (as_bytes value)
header-AreBytes value e =
    subst (λ v. AreBytes (as_bytes v)) (some-injective _ _ (some-injective _ _ e))
      right_value-AreBytes

metrics_status-served_example :
    (metrics_status guarded (some (some right_value)) ≡ 200)
    ↔ ((true ≡ true) × Carries token (some (some right_value)))
metrics_status-served_example =
    metrics_status-served guarded token (some (some right_value)) refl right_value-AreBytes
      header-AreBytes

path_label-IsFixed_example :
    (none ≡ some (path_label none (codes "/assets/a.js")))
    ⊎ IsFixed (path_label none (codes "/assets/a.js"))
path_label-IsFixed_example = path_label-IsFixed none (codes "/assets/a.js")
