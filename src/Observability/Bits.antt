-- ===== src/Observability/Bits.antt =====
-- Exclusive and inclusive or of machine words, bit by bit.
use rust_daily.Base.{
  ◌<◌, subst, ◌==◌, ◌%◌, not, sym, Bool, ◌∙◌, ◌/◌, ◌||◌, ℕ, ◌+◌, ◌*◌, ◌≡◌, ◌↔◌, zero, suc, true,
  false, arith, refl,
}

abbrev bit : Bool → ℕ
bit true = 1
bit false = 0

abbrev is_odd : ℕ → Bool
is_odd a = a % 2 == 1

abbrev exclusive : Bool → Bool → Bool
exclusive true b = not b
exclusive false b = b

-- The first `w` bits.
unfoldable bitwise : (Bool → Bool → Bool) → ℕ → ℕ → ℕ → ℕ
bitwise f zero a b = 0
bitwise f (suc w) a b = bit (f (is_odd a) (is_odd b)) + 2 * bitwise f w (a / 2) (b / 2)

-- `^` and `|` of `usize`, and the words that have 64 bits.
unfoldable pub xor : ℕ → ℕ → ℕ
unfolding bitwise
xor a b = bitwise exclusive 64 a b

unfoldable pub or : ℕ → ℕ → ℕ
unfolding bitwise
or a b = bitwise (λ x y. x || y) 64 a b

-- A number of `w` bits.
abbrev Fits : ℕ → ℕ → Type 0
Fits zero a = a ≡ 0
Fits (suc w) a = Fits w (a / 2)

xor_zero : (w a b : ℕ) → Fits w a → Fits w b → (bitwise exclusive w a b ≡ 0) ↔ (a ≡ b)
unfolding bitwise
xor_zero zero a b p q = ((λ h. p ∙ sym q), (λ e. refl))
xor_zero (suc w) a b p q =
    let i = xor_zero w (a / 2) (b / 2) p q in
    ((λ h. ground (arith, h, i)), (λ e. ground (arith, e, i)))

or_zero :
    (w a b : ℕ) → Fits w a → Fits w b → (bitwise (λ x y. x || y) w a b ≡ 0) ↔ ((a ≡ 0) × (b ≡ 0))
unfolding bitwise
or_zero zero a b p q = ((λ h. (p, q)), (λ e. refl))
or_zero (suc w) a b p q =
    let i = or_zero w (a / 2) (b / 2) p q in
    ((λ h. ground (arith, h, i)), (λ e. ground (arith, e, i)))

-- `2 ^ w`.
abbrev power : ℕ → ℕ
power zero = 1
power (suc w) = 2 * power w

bound-Fits : (w a : ℕ) → a < power w → Fits w a
bound-Fits zero a h = omega (arith, h)
bound-Fits (suc w) a h = bound-Fits w (a / 2) (omega (arith, h))

bitwise-Fits : (f : Bool → Bool → Bool) (w a b : ℕ) → Fits w (bitwise f w a b)
unfolding bitwise
bitwise-Fits f zero a b = refl
bitwise-Fits f (suc w) a b =
    subst (Fits w) (sym (halved (f (is_odd a) (is_odd b)) (bitwise f w (a / 2) (b / 2))))
      (bitwise-Fits f w (a / 2) (b / 2))
  where
    halved : (t : Bool) (n : ℕ) → (bit t + 2 * n) / 2 ≡ n
    halved true n = omega arith
    halved false n = omega arith

-- A number that a machine word holds.
abbrev pub IsWord : ℕ → Type 0
IsWord = Fits 64

pub small-IsWord : (a : ℕ) → a < 18446744073709551616 → IsWord a
small-IsWord a h = bound-Fits 64 a h

pub xor-IsWord : (a b : ℕ) → IsWord (xor a b)
unfolding xor
xor-IsWord a b = bitwise-Fits exclusive 64 a b

pub or-IsWord : (a b : ℕ) → IsWord (or a b)
unfolding or
or-IsWord a b = bitwise-Fits (λ x y. x || y) 64 a b

pub xor-eq-zero : (a b : ℕ) → IsWord a → IsWord b → (xor a b ≡ 0) ↔ (a ≡ b)
unfolding xor
xor-eq-zero a b p q = xor_zero 64 a b p q

pub or-eq-zero : (a b : ℕ) → IsWord a → IsWord b → (or a b ≡ 0) ↔ ((a ≡ 0) × (b ≡ 0))
unfolding or
or-eq-zero a b p q = or_zero 64 a b p q
