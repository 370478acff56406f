-- ===== src/CargoOutput/Status.antt =====
-- Which outcome a finished Cargo process gives, for any parser of Cargo's messages.
use rust_daily.Base.{
  if◌then◌else◌, ◌∙◌, ◌≢◌, ℕ, ◌≤◌, ◌≡◌, refl, arith, Bool, Bool-cases, true, false, ◌||◌, List, [],
  ◌∷◌, ◌++◌, any, inl, inr, Option, none, some,
}
use rust_daily.CargoOutput.{
  Output, Message, CargoOutputStatus, success, timed_out_status, compiler_error, failure,
  cargo_error, infrastructure_error, internal_compiler_error, reports, finished_well, ice, error,
  is_success, is_timeout_code, is_infrastructure_code, output_status, cargo_reported_level,
  cargo_build_succeeded,
}
use rust_daily.Text.Utf8.{Bytes}

any-append : {A : Type 0} (p : A → Bool) (xs ys : List A) → any p (xs ++ ys) ≡ any p xs || any p ys
any-append p [] ys = refl
any-append p (x ∷ xs) ys = ground (arith, any-append p xs ys)

-- An exit code whose meaning depends on the messages.
pub record IsLeftToMessages (code : Option ℕ) : Type 0 where
  pub unsuccessful : code ≢ some 0
  pub in_time : code ≢ some 124
  pub not_container : (n : ℕ) → code ≡ some n → 125 ≤ n → n ≤ 127 → ⊥

module _ (cargo_messages : Bytes → List Message) where
  -- The messages on both streams.
  abbrev pub messages : Output → List Message
  messages o = cargo_messages o.stdout ++ cargo_messages o.stderr

  -- The classification, in terms of the exit code and of the messages on both streams.
  pub data IsClassified (o : Output) : CargoOutputStatus → Type 0 where
    exit_zero : o.code ≡ some 0 → IsClassified o success
    exit_timeout : o.code ≡ some 124 → IsClassified o timed_out_status
    exit_container :
        (n : ℕ) → o.code ≡ some n → 125 ≤ n → n ≤ 127 → IsClassified o infrastructure_error
    exit_ice :
        IsLeftToMessages o.code
        → any (reports ice) (messages o) ≡ true
        → IsClassified o internal_compiler_error
    exit_errors :
        IsLeftToMessages o.code
        → any (reports ice) (messages o) ≡ false
        → any (reports error) (messages o) ≡ true
        → IsClassified o compiler_error
    exit_failure :
        IsLeftToMessages o.code
        → any (reports ice) (messages o) ≡ false
        → any (reports error) (messages o) ≡ false
        → any finished_well (messages o) ≡ true
        → IsClassified o failure
    exit_nothing :
        IsLeftToMessages o.code
        → any (reports ice) (messages o) ≡ false
        → any (reports error) (messages o) ≡ false
        → any finished_well (messages o) ≡ false
        → IsClassified o cargo_error

  level_of :
      (o : Output) (p : Message → Bool) (b : Bool)
      → any p (cargo_messages o.stdout) || any p (cargo_messages o.stderr) ≡ b
      → any p (messages o) ≡ b
  level_of o p b h = any-append p (cargo_messages o.stdout) (cargo_messages o.stderr) ∙ h

  -- The decisions that follow the exit code.
  by_messages :
      (o : Output) (i e f : Bool)
      → IsLeftToMessages o.code
      → any (reports ice) (messages o) ≡ i
      → any (reports error) (messages o) ≡ e
      → any finished_well (messages o) ≡ f
      → IsClassified o (
          if i
          then internal_compiler_error
          else if e
          then compiler_error
          else if f
          then failure
          else cargo_error)
  by_messages o true e f w a b c = exit_ice w a
  by_messages o false true f w a b c = exit_errors w a b
  by_messages o false false true w a b c = exit_failure w a b c
  by_messages o false false false w a b c = exit_nothing w a b c

  success_code : (c : Option ℕ) → is_success c ≡ true → c ≡ some 0
  success_code none h = absurd (cc)
  success_code (some n) h = ground (arith)

  left_to_messages :
      (c : Option ℕ)
      → is_success c ≡ false
      → is_timeout_code c ≡ false
      → is_infrastructure_code c ≡ false
      → IsLeftToMessages c
  left_to_messages none a b d = record {
    unsuccessful = λ e. absurd (cc);
    in_time = λ e. absurd (cc);
    not_container = λ n e. absurd (cc);
  }
  left_to_messages (some m) a b d = record {
    unsuccessful = λ e. ground (arith, e);
    in_time = λ e. ground (arith, e);
    not_container = λ n e l u. ground (arith, e, l, u);
  }

  timeout_code : (c : Option ℕ) → is_timeout_code c ≡ true → c ≡ some 124
  timeout_code none h = absurd (cc)
  timeout_code (some n) h = ground (arith)

  container_range :
      (c : Option ℕ)
      → is_infrastructure_code c ≡ true
      → (n : ℕ) × (c ≡ some n) × (125 ≤ n) × (n ≤ 127)
  container_range none h = absurd (cc)
  container_range (some n) h = (n, refl, ground arith, ground arith)

  container_code :
      (o : Output) → is_infrastructure_code o.code ≡ true → IsClassified o infrastructure_error
  container_code o h = let (n, e, l, u) = container_range o.code h in exit_container n e l u

  -- `output_status` classifies every finished process as described: by the exit code alone if it
  -- is 0, 124 or one of 125 to 127; otherwise, in this order, by an internal compiler error on
  -- either stream, by an ordinary compiler error, by a finished build, and as a Cargo error.
  pub output_status-IsClassified : (o : Output) → IsClassified o (output_status cargo_messages o)
  unfolding output_status cargo_reported_level cargo_build_succeeded
  output_status-IsClassified o = elim (Bool-cases (is_success o.code)) [
    | inl a ↦ rw a (exit_zero (success_code o.code a))
    | inr a ↦ elim (Bool-cases (is_timeout_code o.code)) [
      | inl b ↦ rw (a, b) (exit_timeout (timeout_code o.code b))
      | inr b ↦ elim (Bool-cases (is_infrastructure_code o.code)) [
        | inl c ↦ rw (a, b, c) (container_code o c)
        | inr c ↦
            rw (a, b, c)
              (by_messages o _ _ _ (left_to_messages o.code a b c) (level_of o (reports ice) _ refl)
                (level_of o (reports error) _ refl) (level_of o finished_well _ refl))
      ]
    ]
  ]
