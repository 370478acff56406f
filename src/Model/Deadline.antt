-- ===== src/Model/Deadline.antt =====
-- `RunDeadline` and `LearnerOutcome::timed_out`. Instants and durations are nanoseconds; the clock's
-- reading is an argument.
use rust_daily.Base.{
  zero, suc, ℕ, ◌+◌, ◌-◌, ◌/◌, ◌%◌, ◌≤◌, ◌≡◌, ◌↔◌, arith, Bool, true, ltb, ◌==◌, if◌then◌else◌, min,
  [], ◌∷◌, ◌++◌,
}
use rust_daily.Model.Types.{LearnerOutcome, timed_out}
use rust_daily.Text.{Text, codes}

pub record RunDeadline : Type 0 where
  pub started_at : ℕ
  pub timeout : ℕ

-- `Instant::elapsed`, at least 0.
abbrev pub elapsed : RunDeadline → ℕ → ℕ
elapsed d now = now - d.started_at

unfoldable pub remaining : RunDeadline → ℕ → ℕ
remaining d now = d.timeout - elapsed d now

abbrev pub expires_at : RunDeadline → ℕ
expires_at d = d.started_at + d.timeout

unfoldable pub is_elapsed : RunDeadline → ℕ → Bool
is_elapsed d now = remaining d now == 0

abbrev pub u64_max : ℕ
u64_max = 18446744073709551615

unfoldable pub elapsed_ms : RunDeadline → ℕ → ℕ
elapsed_ms d now = min (elapsed d now / 1000000) u64_max

-- `{}` of an integer: its decimal digits, on fuel that exceeds the number.
unfoldable pub digits : ℕ → ℕ → Text
digits zero n = []
digits (suc fuel) n =
    let rest = digits fuel (n / 10) in
    if ltb n 10 then (b'0' + n) ∷ [] else rest ++ (b'0' + n % 10) ∷ []

unfoldable pub decimal : ℕ → Text
decimal n = digits (n + 1) n

-- `LearnerOutcome::timed_out`; `as_secs` rounds down.
unfoldable pub timed_out_outcome : RunDeadline → ℕ → LearnerOutcome
timed_out_outcome d now = record {
  status = timed_out;
  stdout = [];
  stderr =
      codes "runner timed out after " ++ (decimal (d.timeout / 1000000000) ++ codes " seconds");
  duration_ms = elapsed_ms d now;
}

-- From its start on, a deadline has elapsed exactly from the instant at which it expires.
pub is_elapsed_iff :
    (d : RunDeadline) (now : ℕ)
    → d.started_at ≤ now
    → (is_elapsed d now ≡ true) ↔ (expires_at d ≤ now)
unfolding is_elapsed remaining
is_elapsed_iff d now h = (λ e. ground (arith, e), λ e. ground (arith, e))
