-- ===== src/CargoOutput/Capped.antt =====
-- The contract of `cap_output`.
use rust_daily.Base.{
  sym, saturating_add, usize_max, ℕ, ◌+◌, ◌-◌, ◌/◌, ◌≤◌, ◌<◌, ◌≡◌, refl, arith, Bool-cases, leb,
  ◌==◌, [], ◌∷◌, inl, inr,
}
use rust_daily.CargoOutput.Budgets.{Divides, final_budgets, final_budgets-Divides}
use rust_daily.CargoOutput.Cap.{truncate_string-bound}
use rust_daily.CargoOutput.{from_utf8_lossy, Bytes, Budgets, cap_texts, cap_output, truncate_string}
use rust_daily.Text.Laws.{len_utf8_pos}
use rust_daily.Text.{Text, len}

-- A shortened pair of streams, against the two texts it was made of.
pub record IsCapped (stdout stderr : Text) (max_output_bytes : ℕ) (r : Text × Text) : Type 0 where
  pub bounded : len r.0 + len r.1 ≤ max_output_bytes
  pub unchanged : len stdout + len stderr ≤ max_output_bytes → r ≡ (stdout, stderr)
  pub short_stdout : len stdout ≤ max_output_bytes / 2 → r.0 ≡ stdout
  pub short_stderr : len stderr ≤ max_output_bytes - max_output_bytes / 2 → r.1 ≡ stderr

truncate_string-fits : (s : Text) (n : ℕ) → len s ≤ n → truncate_string s n ≡ s
unfolding truncate_string
truncate_string-fits s n h = ground (arith)

len-eq-zero : (s : Text) → len s ≤ 0 → s ≡ []
unfolding len
len-eq-zero [] h = refl
len-eq-zero (c ∷ s) h = absurd (omega (arith, len_utf8_pos c))

both_truncated :
    (stdout stderr : Text) (m : ℕ) (b : Budgets)
    → m < usize_max
    → m < len stdout + len stderr
    → Divides stdout stderr m b
    → IsCapped stdout stderr m (truncate_string stdout b.0, truncate_string stderr b.1)
both_truncated stdout stderr m b w h d = record {
  bounded = omega (
    arith,
    d.whole,
    truncate_string-bound stdout b.0 (omega (arith, d.whole)),
    truncate_string-bound stderr b.1 (omega (arith, d.whole)),
  );
  unchanged = λ f. absurd (omega arith);
  short_stdout = λ f. truncate_string-fits stdout b.0 (d.enough_out f);
  short_stderr = λ f. truncate_string-fits stderr b.1 (d.enough_err f);
}

cap_texts-IsCapped :
    (stdout stderr : Text) (m : ℕ)
    → m < usize_max
    → IsCapped stdout stderr m (cap_texts stdout stderr m)
unfolding cap_texts
cap_texts-IsCapped stdout stderr m w =
    elim (Bool-cases (leb (saturating_add (len stdout) (len stderr)) m)) [
      | inl e ↦ rw e (record {
        bounded = ground arith;
        unchanged = λ f. refl;
        short_stdout = λ f. refl;
        short_stderr = λ f. refl;
      })
      | inr e ↦ elim (Bool-cases (m == 0)) [
        | inl z ↦
            rw (e, z)
              (unfold len in
                record {
                  bounded = omega arith;
                  unchanged = λ f. absurd (ground arith);
                  short_stdout = λ f. sym (len-eq-zero stdout (ground arith));
                  short_stderr = λ f. sym (len-eq-zero stderr (ground arith));
                })
        | inr z ↦
            rw (e, z)
              (both_truncated stdout stderr m (final_budgets stdout stderr m) w (ground arith)
                (final_budgets-Divides stdout stderr m (ground arith)))
      ]
    ]

-- For a limit below the largest `usize`, the two streams that `cap_output` returns together have at
-- most that many bytes. They are the decoded streams, unchanged, if these fit the limit; and in any
-- case a stream is unchanged if it fits its half of the limit, however long the other one is.
pub cap_output-IsCapped :
    (stdout stderr : Bytes) (max_output_bytes : ℕ)
    → max_output_bytes < usize_max
    → IsCapped
        (from_utf8_lossy stdout)
        (from_utf8_lossy stderr)
        max_output_bytes
        (cap_output stdout stderr max_output_bytes)
unfolding cap_output
cap_output-IsCapped stdout stderr m w =
    cap_texts-IsCapped (from_utf8_lossy stdout) (from_utf8_lossy stderr) m w
