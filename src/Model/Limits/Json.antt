-- ===== src/Model/Limits/Json.antt =====
-- The JSON size that the limits admit, in closed form.
use Prim.Native.Nat.{zero, suc, ◌*◌}
use native.Mathlib.Nat.{mul-suc}
use rust_daily.Base.{ℕ, ◌+◌, ◌≡◌, refl, min, arith, inl, inr, ≤-cases, usize_max}
use rust_daily.Model.Limits.{ValidationLimits, max_json_payload_bytes}

-- A saturated factor makes no difference to a saturated product.
saturated-mul : (a p u : ℕ) → min (min a u * p) u ≡ min (a * p) u
saturated-mul a zero u = omega arith
saturated-mul a (suc p) u = elim (≤-cases a u) [
  | inl below ↦ let same : min a u ≡ a = omega (arith, below) in rw same refl
  | inr above ↦
      let same : min a u ≡ u = omega (arith, above) in
      rw same (omega (arith, above, mul-suc u p, mul-suc a p))
]

-- The size is six bytes for each byte of the total and of the paths of all files and cases, and
-- the envelope; it stops at the largest `usize`.
pub max_json_payload_bytes_lem :
    (l : ValidationLimits)
    → max_json_payload_bytes l
      ≡ min ((l.max_total_bytes + (l.max_files + 4) * l.max_path_bytes) * 6 + 4096) usize_max
unfolding max_json_payload_bytes
max_json_payload_bytes_lem l =
    omega (arith, saturated-mul (l.max_files + 4) l.max_path_bytes usize_max)
