-- ===== src/Observability.antt =====
-- backend/src/observability.rs: the guard of the metrics endpoint and the labels of the statuses.
-- Metrics and tracing are other libraries'.
pub mod Bits
pub mod Guard
pub mod Labels
use rust_daily.Config.Values.{MetricsBearerToken}
use rust_daily.Base.{
  ◌==◌, ◌++◌, max, not, length, Bool, if◌then◌else◌, Option, ℕ, zero, suc, [], ◌∷◌, none, some,
  true, false,
}
use rust_daily.Config.Settings.{ObservabilitySettings}
use rust_daily.Observability.Bits.{xor, or}
use rust_daily.Text.Utf8.{Bytes, as_bytes}
use rust_daily.Text.{Text, codes}

-- `.get(index).copied().unwrap_or(0)`.
unfoldable pub byte_at : Bytes → ℕ → ℕ
byte_at [] index = 0
byte_at (b ∷ bs) zero = b
byte_at (b ∷ bs) (suc index) = byte_at bs index

-- `count` rounds of the loop, from `index` on.
unfoldable pub scan_diff : Bytes → Bytes → (count index diff : ℕ) → ℕ
scan_diff left right zero index diff = diff
scan_diff left right (suc count) index diff =
    scan_diff left right count (suc index)
      (or diff (xor (byte_at left index) (byte_at right index)))

unfoldable pub constant_time_eq : Text → Text → Bool
constant_time_eq left right =
    let l = as_bytes left in
    let r = as_bytes right in
    scan_diff l r (max (length l) (length r)) 0 (xor (length l) (length r)) == 0

-- The header `Authorization` of a request: absent, or its value, if that is a text.
abbrev pub Authorization : Type 0
Authorization = Option (Option Text)

unfoldable pub token_matches : MetricsBearerToken → Authorization → Bool
token_matches token none = false
token_matches token (some none) = false
token_matches token (some (some value)) = constant_time_eq value (codes "Bearer " ++ token.as_ref)

-- Without a token, every request is authorised.
unfoldable pub authorized_by : Option MetricsBearerToken → Authorization → Bool
authorized_by none header = true
authorized_by (some token) header = token_matches token header

unfoldable pub metrics_authorized : ObservabilitySettings → Authorization → Bool
metrics_authorized settings header = authorized_by settings.metrics_bearer_token header

-- The status of `metrics_response`, by its two conditions.
abbrev pub response_status : (enabled authorized : Bool) → ℕ
response_status enabled authorized =
    if not enabled then 404 else (if not authorized then 401 else 200)

unfoldable pub metrics_status : ObservabilitySettings → Authorization → ℕ
metrics_status settings header =
    response_status settings.metrics_enabled (metrics_authorized settings header)
