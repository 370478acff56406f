-- ===== src/Model/Limits.antt =====
-- `ValidationLimits`: its checked constructor and the JSON size that the limits admit. A
-- `NonZeroUsize` is its value; `IsNonZero` states what the type guarantees.
pub mod Payload
pub mod Json
use Prim.Native.Nat.{ℕ, ◌≤◌}
use rust_daily.Base.{◌||◌, ltb, Result, ok, ◌>>=◌, ◌>>◌, fail_if, saturating_add, saturating_mul}

pub record ValidationLimits : Type 0 where
  pub max_files : ℕ
  pub max_file_bytes : ℕ
  pub max_total_bytes : ℕ
  pub max_path_bytes : ℕ
  pub max_path_component_bytes : ℕ
  pub max_diagnostic_snippets_per_case : ℕ
  pub max_diagnostic_snippet_bytes : ℕ
  pub max_diagnostic_total_bytes : ℕ

pub data ValidationLimitsError : Type 0 where
  total_bytes_below_file_bytes : (max_file_bytes max_total_bytes : ℕ) → ValidationLimitsError
  path_component_bytes_above_path_bytes :
      (max_path_bytes max_path_component_bytes : ℕ) → ValidationLimitsError
  path_limit_above_hard_maximum :
      (max_path_bytes hard_max_path_bytes max_path_component_bytes
        hard_max_path_component_bytes : ℕ)
      → ValidationLimitsError
  diagnostic_snippet_bytes_above_diagnostic_total_bytes :
      (max_diagnostic_snippet_bytes max_diagnostic_total_bytes : ℕ) → ValidationLimitsError

abbrev pub max_path_bytes_hard_limit : ℕ
max_path_bytes_hard_limit = 240

abbrev pub max_path_component_bytes_hard_limit : ℕ
max_path_component_bytes_hard_limit = 120

abbrev pub max_compile_fail_cases : ℕ
max_compile_fail_cases = 4

-- `ValidationLimits::try_new`.
unfoldable pub try_new : (a b c d e f g h : ℕ) → Result ValidationLimitsError ValidationLimits
try_new max_files max_file_bytes max_total_bytes max_path_bytes max_path_component_bytes
      max_diagnostic_snippets_per_case max_diagnostic_snippet_bytes max_diagnostic_total_bytes =
    do
      fail_if (ltb max_total_bytes max_file_bytes)
          (total_bytes_below_file_bytes max_file_bytes max_total_bytes)
      fail_if (ltb max_path_bytes max_path_component_bytes)
          (path_component_bytes_above_path_bytes max_path_bytes max_path_component_bytes)
      fail_if
          (ltb max_path_bytes_hard_limit max_path_bytes
            || ltb max_path_component_bytes_hard_limit max_path_component_bytes)
          (path_limit_above_hard_maximum max_path_bytes max_path_bytes_hard_limit
            max_path_component_bytes max_path_component_bytes_hard_limit)
      fail_if (ltb max_diagnostic_total_bytes max_diagnostic_snippet_bytes) (
          diagnostic_snippet_bytes_above_diagnostic_total_bytes max_diagnostic_snippet_bytes
            max_diagnostic_total_bytes)
      ok (record {
        max_files = max_files;
        max_file_bytes = max_file_bytes;
        max_total_bytes = max_total_bytes;
        max_path_bytes = max_path_bytes;
        max_path_component_bytes = max_path_component_bytes;
        max_diagnostic_snippets_per_case = max_diagnostic_snippets_per_case;
        max_diagnostic_snippet_bytes = max_diagnostic_snippet_bytes;
        max_diagnostic_total_bytes = max_diagnostic_total_bytes;
      })

abbrev json_envelope_bytes : ℕ
json_envelope_bytes = 4096

unfoldable pub max_json_payload_bytes : ValidationLimits → ℕ
max_json_payload_bytes l =
    let path_bytes =
      saturating_mul (saturating_add l.max_files max_compile_fail_cases) l.max_path_bytes in
    saturating_add (saturating_mul (saturating_add l.max_total_bytes path_bytes) 6)
      json_envelope_bytes

-- What the constructor checks of the fields.
pub record IsConsistent (l : ValidationLimits) : Type 0 where
  pub file_within_total : l.max_file_bytes ≤ l.max_total_bytes
  pub component_within_path : l.max_path_component_bytes ≤ l.max_path_bytes
  pub path_within_hard_limit : l.max_path_bytes ≤ max_path_bytes_hard_limit
  pub component_within_hard_limit : l.max_path_component_bytes ≤ max_path_component_bytes_hard_limit
  pub snippet_within_total : l.max_diagnostic_snippet_bytes ≤ l.max_diagnostic_total_bytes
