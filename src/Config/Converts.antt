-- ===== src/Config/Converts.antt =====
-- Exact descriptions of the conversions of single values.
use rust_daily.Base.{
  ◌∙◌, ◌≡◌, ◌≢◌, refl, ap, arith, Bool, false, not, ◌||◌, ◌==◌, [], ◌∷◌, any, is_empty, All,
  any-eq-false, any-eq-false_of_All, Result, ok, ◌>>=◌, ◌>>◌, fail_if, on_ok, on_pass, ok-injective,
}
use rust_daily.Config.Fields.{ConfigField, SettingsError}
use rust_daily.Config.Values.{
  nonzero, runner_image_from, core_ulimit_from, F64, finite, infinite, nan, is_finite,
  is_at_most_zero, container_cpus_from, workspace_root_from, podman_path_from, frontend_dist_from,
}
use rust_daily.Text.{Text, codes, starts_with, is_control, trim}

-- A conversion that accepts exactly the good values, each with one result.
pub record Converts {ℓ} {E A B : Type 0} (convert : A → Result E B) (Good : A → Type ℓ)
    (into : A → B) : Type ℓ where
  pub accepts : (a : A) → Good a → convert a ≡ ok (into a)
  pub sound : (a : A) (b : B) → convert a ≡ ok b → Good a × (into a ≡ b)

-- A chain goes on behind a conversion only with a good value and its result.
pub on_converts {ℓ ℓ'} :
    {E A B C : Type 0} {P : Type ℓ'} {convert : A → Result E B} {Good : A → Type ℓ} {into : A → B}
    → Converts convert Good into
    → (a : A) (k : B → Result E C) {r : C} → (convert a >>= k) ≡ ok r
    → (Good a → k (into a) ≡ ok r → P)
    → P
on_converts {convert = convert} c a k {r} h p =
    on_ok (convert a) k h λ b e z. let (good, same) = c.sound a b e in p good (ap k same ∙ z)

-- `fail_if test e >> ok x` on a value that passes the test.
guarded-Converts {ℓ} :
    {E A B : Type 0} (test : A → Bool) (e : A → E) (Good : A → Type ℓ) (into : A → B)
    → ((a : A) → Good a → test a ≡ false)
    → ((a : A) → test a ≡ false → Good a)
    → Converts (λ a. fail_if (test a) (e a) >> ok (into a)) Good into
guarded-Converts test e Good into to from = record {
  accepts = λ a g. rw (to a g) refl;
  sound = λ a b h. on_pass (test a) _ _ h λ t z. (from a t, ok-injective _ _ z);
}

pub nonzero-Converts : (field : ConfigField) → Converts (nonzero field) (λ n. n ≢ 0) (λ n. n)
unfolding nonzero
nonzero-Converts field =
    guarded-Converts (λ n. n == 0) _ _ (λ n. n) (λ n g. ground arith)
      (λ n h e. ground (arith, h, e))

-- Values that are not empty.
abbrev pub IsGiven : Text → Type 0
IsGiven value = value ≢ []

given→false : (v : Text) → IsGiven v → is_empty v ≡ false
given→false [] g = absurd (g refl)
given→false (c ∷ s) g = refl

pub false→given : (v : Text) → is_empty v ≡ false → IsGiven v
false→given [] h = cc
false→given (c ∷ s) h = λ e. cc

pub workspace_root-Converts : Converts workspace_root_from IsGiven (λ v. record { as_ref = v })
unfolding workspace_root_from
workspace_root-Converts = guarded-Converts is_empty _ _ _ given→false false→given

pub podman_path-Converts : Converts podman_path_from IsGiven (λ v. record { as_ref = v })
unfolding podman_path_from
podman_path-Converts = guarded-Converts is_empty _ _ _ given→false false→given

pub frontend_dist-Converts : Converts frontend_dist_from IsGiven (λ v. record { as_ref = v })
unfolding frontend_dist_from
frontend_dist-Converts = guarded-Converts is_empty _ _ _ given→false false→given

-- A quota that is a positive number.
unfoldable pub IsPositive : F64 → Type 0
IsPositive (finite negative mantissa exponent) = (negative ≡ false) × (mantissa ≢ 0)
IsPositive (infinite negative) = ⊥
IsPositive nan = ⊥

positive→false : (x : F64) → IsPositive x → (not (is_finite x) || is_at_most_zero x) ≡ false
unfolding IsPositive is_finite is_at_most_zero
positive→false (finite n m e) (s, z) = ground (arith, s, z)
positive→false (infinite n) b = absurd b
positive→false nan b = absurd b

false→positive : (x : F64) → (not (is_finite x) || is_at_most_zero x) ≡ false → IsPositive x
unfolding IsPositive is_finite is_at_most_zero
false→positive (finite n m e) h = (ground (arith, h), λ z. ground (arith, h, z))
false→positive (infinite n) h = cc
false→positive nan h = cc

pub container_cpus-Converts : Converts container_cpus_from IsPositive (λ x. record { value = x })
unfolding container_cpus_from
container_cpus-Converts = guarded-Converts _ _ _ _ positive→false false→positive

-- A trimmed value that cannot be read as an option of Podman and holds no control character.
pub record IsPlainValue (raw : Text) : Type 0 where
  pub given : IsGiven (trim raw)
  pub no_option : starts_with (trim raw) (codes "-") ≡ false
  pub no_control : All (λ c. is_control c ≡ false) (trim raw)

module _ {B : Type 0} (e f : SettingsError) (make : Text → B) where
  plain-Converts :
      Converts
        (λ raw.
          fail_if (is_empty (trim raw)) e
          >> (fail_if (starts_with (trim raw) (codes "-") || any is_control (trim raw)) f
              >> ok (make (trim raw))))
        IsPlainValue
        (λ raw. make (trim raw))
  plain-Converts = record {
    accepts = λ raw g.
        rw
          (
            given→false (trim raw) g.given,
            g.no_option,
            any-eq-false_of_All is_control (trim raw) g.no_control,
          )
          refl;
    sound = λ raw b h. on_pass (is_empty (trim raw)) _ _ h λ t h1.
        on_pass (starts_with (trim raw) (codes "-") || any is_control (trim raw)) _ _ h1 λ u z. (
          record {
            given = false→given (trim raw) t;
            no_option = ground (arith, u);
            no_control = any-eq-false is_control (trim raw) (ground (arith, u));
          },
          ok-injective _ _ z,
        );
  }

pub runner_image-Converts :
    Converts runner_image_from IsPlainValue (λ raw. record { as_ref = trim raw })
unfolding runner_image_from
runner_image-Converts = plain-Converts _ _ (λ v. record { as_ref = v })

pub core_ulimit-Converts :
    Converts core_ulimit_from IsPlainValue (λ raw. record { value = trim raw })
unfolding core_ulimit_from
core_ulimit-Converts = plain-Converts _ _ (λ v. record { value = v })
