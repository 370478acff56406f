-- ===== src/CargoOutput/Budgets.antt =====
-- How `cap_output` divides its budget between the two streams.
use rust_daily.Base.{◌<◌, ℕ, arith, ◌+◌, ◌-◌, ◌/◌, ◌≤◌, ◌≡◌, Bool-cases, ltb, [], ◌∷◌, inl, inr}
use rust_daily.CargoOutput.{
  non_empty_streams, Budgets, first_budgets, give_to_stderr, give_to_stdout,
}
use rust_daily.Text.{Text, len}

-- Neither budget exceeds the whole, and together they are the whole.
pub record Divides (stdout stderr : Text) (max_output_bytes : ℕ) (b : Budgets) : Type 0 where
  pub whole : b.0 + b.1 ≡ max_output_bytes
  pub enough_out : len stdout ≤ max_output_bytes / 2 → len stdout ≤ b.0
  pub enough_err : len stderr ≤ max_output_bytes - max_output_bytes / 2 → len stderr ≤ b.1

first_budgets-lem :
    (stdout stderr : Text) (max_output_bytes : ℕ)
    → max_output_bytes < len stdout + len stderr
    → Divides stdout stderr max_output_bytes (first_budgets stdout stderr max_output_bytes)
unfolding first_budgets non_empty_streams len
first_budgets-lem [] [] m h = absurd (omega arith)
first_budgets-lem [] (d ∷ t) m h = record {
  whole = omega arith;
  enough_out = λ w. omega arith;
  enough_err = λ w. omega (arith, w);
}
first_budgets-lem (c ∷ s) [] m h = record {
  whole = omega arith;
  enough_out = λ w. omega (arith, w);
  enough_err = λ w. omega arith;
}
first_budgets-lem (c ∷ s) (d ∷ t) m h = record {
  whole = omega arith;
  enough_out = λ w. omega (arith, w);
  enough_err = λ w. omega (arith, w);
}

give_to_stderr-Divides :
    (stdout stderr : Text) (m : ℕ) (b : Budgets)
    → m < len stdout + len stderr
    → Divides stdout stderr m b
    → Divides stdout stderr m (give_to_stderr stdout m b)
unfolding give_to_stderr
give_to_stderr-Divides stdout stderr m (o, r) h d = elim (Bool-cases (ltb (len stdout) o)) [
  | inl e ↦ rw e (record {
    whole = ground (arith, d.whole);
    enough_out = λ w. omega arith;
    enough_err = λ w. ground (arith, d.enough_err w, d.whole);
  })
  | inr e ↦ rw e d
]

give_to_stdout-Divides :
    (stdout stderr : Text) (m : ℕ) (b : Budgets)
    → m < len stdout + len stderr
    → Divides stdout stderr m b
    → Divides stdout stderr m (give_to_stdout stderr m b)
unfolding give_to_stdout
give_to_stdout-Divides stdout stderr m (o, r) h d = elim (Bool-cases (ltb (len stderr) r)) [
  | inl e ↦ rw e (record {
    whole = ground (arith, d.whole);
    enough_out = λ w. ground (arith, d.enough_out w, d.whole);
    enough_err = λ w. omega arith;
  })
  | inr e ↦ rw e d
]

-- The budgets that `cap_output` ends with.
abbrev pub final_budgets : Text → Text → ℕ → Budgets
final_budgets stdout stderr m =
    give_to_stdout stderr m (give_to_stderr stdout m (first_budgets stdout stderr m))

pub final_budgets-Divides :
    (stdout stderr : Text) (m : ℕ)
    → m < len stdout + len stderr
    → Divides stdout stderr m (final_budgets stdout stderr m)
final_budgets-Divides stdout stderr m h =
    give_to_stdout-Divides stdout stderr m _ h
      (give_to_stderr-Divides stdout stderr m _ h (first_budgets-lem stdout stderr m h))
