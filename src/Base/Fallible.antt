-- ===== src/Base/Fallible.antt =====
-- `Result<T, E>` with the `?` operator as bind.
use mathlib.Core.Bool.{Bool, true, false}
use mathlib.Core.Path.{◌≡◌, refl}
use native.Mathlib.Omega.{arith}

pub data Result {ℓ κ} (E : Type ℓ) (A : Type κ) : Type (ℓ ⊔ κ) where
  ok : A → Result E A
  err : E → Result E A

infixl 5 ◌>>=◌ ◌>>◌
abbrev pub ◌>>=◌ {ℓ κ κ'} :
    {E : Type ℓ} {X : Type κ} {Y : Type κ'} → Result E X → (X → Result E Y) → Result E Y
err failure >>= next = err failure
ok x >>= next = next x

abbrev pub ◌>>◌ {ℓ κ} : {E : Type ℓ} {Y : Type κ} → Result E (Unit {0}) → Result E Y → Result E Y
test >> rest = test >>= λ _. rest

-- `if c { return Err(e); }`
abbrev pub fail_if {ℓ} : {E : Type ℓ} → Bool → E → Result E (Unit {0})
fail_if true e = err e
fail_if false e = ok tt

abbrev pub map_err {ℓ ℓ' κ} :
    {E : Type ℓ} {F : Type ℓ'} {A : Type κ} → (E → F) → Result E A → Result F A
map_err f (ok a) = ok a
map_err f (err e) = err (f e)

-- `let x = first?; next(x)` succeeds only where both do.
pub >>=-eq-ok {ℓ κ κ'} :
    {E : Type ℓ} {X : Type κ} {Y : Type κ'} (first : Result E X) (next : X → Result E Y) {y : Y}
    → first >>= next ≡ ok y
    → (x : X) × (first ≡ ok x) × (next x ≡ ok y)
>>=-eq-ok (err failure) next stopped = cc
>>=-eq-ok (ok x) next went = (x, refl, went)

pub fail_if-eq-ok {ℓ} :
    {E : Type ℓ} (b : Bool) (e : E) {u : Unit {0}} → fail_if b e ≡ ok u → b ≡ false
fail_if-eq-ok true e h = cc
fail_if-eq-ok false e h = refl

-- A guarded continuation that succeeds has passed its guard.
pub fail_if->>-eq-ok {ℓ κ} :
    {E : Type ℓ} {B : Type κ} (b : Bool) (e : E) {k : Result E B} {r : B}
    → (fail_if b e >> k) ≡ ok r
    → (b ≡ false) × (k ≡ ok r)
fail_if->>-eq-ok true e h = cc
fail_if->>-eq-ok false e h = (refl, h)

pub map_err-eq-ok {ℓ ℓ' κ} :
    {E : Type ℓ} {F : Type ℓ'} {A : Type κ} (f : E → F) (m : Result E A) {a : A}
    → map_err f m ≡ ok a
    → m ≡ ok a
map_err-eq-ok f (ok a) h = ground arith
map_err-eq-ok f (err e) h = cc

pub >>-eq-ok {ℓ κ} :
    {E : Type ℓ} {B : Type κ} (m : Result E (Unit {0})) (k : Result E B) {r : B}
    → (m >> k) ≡ ok r
    → (m ≡ ok tt) × (k ≡ ok r)
>>-eq-ok (ok tt) k h = (refl, h)
>>-eq-ok (err e) k h = cc

-- The same as rules with a continuation, whose variables are as short as their names.
module _ {ℓ κ κ' κ''} {E : Type ℓ} {A : Type κ} {B : Type κ'} {P : Type κ''} where
  pub on_ok :
      (m : Result E A) (f : A → Result E B) {b : B}
      → (m >>= f) ≡ ok b
      → ((a : A) → m ≡ ok a → f a ≡ ok b → P)
      → P
  on_ok (ok a) f h k = k a refl h
  on_ok (err e) f h k = absurd (cc)

module _ {ℓ κ κ''} {E : Type ℓ} {B : Type κ} {P : Type κ''} where
  pub on_unit :
      (m : Result E (Unit {0})) (k : Result E B) {b : B}
      → (m >> k) ≡ ok b
      → (m ≡ ok tt → k ≡ ok b → P)
      → P
  on_unit (ok tt) k h p = p refl h
  on_unit (err e) k h p = absurd (cc)

  pub on_pass :
      (t : Bool) (e : E) (k : Result E B) {b : B}
      → (fail_if t e >> k) ≡ ok b
      → (t ≡ false → k ≡ ok b → P)
      → P
  on_pass true e k h p = absurd (cc)
  on_pass false e k h p = p refl h

pub ok-injective {ℓ κ} :
    {E : Type ℓ} {A : Type κ} (a b : A) → ◌≡◌ {A = Result E A} (ok a) (ok b) → a ≡ b
ok-injective a b h = cc
