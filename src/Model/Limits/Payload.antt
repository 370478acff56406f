-- ===== src/Model/Limits/Payload.antt =====
-- What `try_new` guarantees.
use rust_daily.Base.{◌≡◌, ◌↔◌, Result, ok, arith}
use rust_daily.Model.Limits.{ValidationLimits, ValidationLimitsError, IsConsistent, try_new}

-- `try_new` on the fields of the limits `l`.
abbrev pub checked : ValidationLimits → Result ValidationLimitsError ValidationLimits
checked l =
    try_new l.max_files l.max_file_bytes l.max_total_bytes l.max_path_bytes
      l.max_path_component_bytes l.max_diagnostic_snippets_per_case l.max_diagnostic_snippet_bytes
      l.max_diagnostic_total_bytes

-- `try_new` returns limits exactly if the fields are consistent, so that it refuses all others, and
-- the limits that it returns have every field as it was given.
pub try_new_iff : (l r : ValidationLimits) → (checked l ≡ ok r) ↔ (IsConsistent l × (r ≡ l))
unfolding try_new
try_new_iff l r = ground arith
