-- ===== src/Model/Path/Accepted.antt =====
-- The path conversions and limits, in terms of safe paths.
use rust_daily.Model.Errors.{unsafe_path, unsupported_path, with_owned_path, ValidationError}
use rust_daily.Base.{
  sym, ◌∙◌, ap, ◌>>◌, inr, err, ◌⊎◌, Bool-cases, inl, Result, ℕ, ◌≤◌, ◌≡◌, refl, ◌↔◌, ◌||◌, not,
  true, false, List, [], ◌∷◌, arith, ltb, any, All, ok, on_unit, on_pass, >>-eq-ok, map_err,
  map_err-eq-ok, or-eq-false,
}
use rust_daily.Model.Limits.{ValidationLimits}
use rust_daily.Model.Path.Families.{IsSupported, families_sound, families_complete}
use rust_daily.Model.Path.Safe.{validate_safe_path_iff}
use rust_daily.Model.Path.Shape.{IsSafePath}
use rust_daily.Model.Path.{
  cur_dir, normal, components, root_dir, has_unsafe_shape, parent_dir, Component, check_components,
  ValidationError, slash, validate_safe_path, validate_path_limits, is_supported_path,
  validate_supported_path, submitted_path, submitted_path_from_str, compile_fail_path,
}
use rust_daily.Model.Types.{SubmittedPath, CompileFailPath}
use rust_daily.Text.{Text, codes, len, split, starts_with, ends_with}

-- The configured limits on a path and its parts.
pub record IsWithinLimits (limits : ValidationLimits) (path : Text) : Type 0 where
  pub bytes : len path ≤ limits.max_path_bytes
  pub parts : All (λ c. len c ≤ limits.max_path_component_bytes) (split slash path)

parts_within :
    (n : ℕ) (ps : List Text) → any (λ c. ltb n (len c)) ps ≡ false → All (λ c. len c ≤ n) ps
parts_within n [] h = tt
parts_within n (p ∷ ps) h = (ground arith, parts_within n ps (ground arith))

within_parts :
    (n : ℕ) (ps : List Text) → All (λ c. len c ≤ n) ps → any (λ c. ltb n (len c)) ps ≡ false
within_parts n [] h = refl
within_parts n (p ∷ ps) (h, hs) = ground (arith, within_parts n ps hs)

pub validate_path_limits_iff :
    (path : Text) (limits : ValidationLimits)
    → (validate_path_limits path limits ≡ ok tt) ↔ IsWithinLimits limits path
unfolding validate_path_limits
validate_path_limits_iff path limits = (
  λ h.
      let (b, p) =
        or-eq-false (ltb limits.max_path_bytes (len path))
          (any (λ c. ltb limits.max_path_component_bytes (len c)) (split slash path))
          (ground arith) in
      record { bytes = ground arith; parts = parts_within _ _ p },
  λ w.
      ground
        (arith, within_parts limits.max_path_component_bytes (split slash path) w.parts, w.bytes),
)

-- A submitted path is accepted with its own text.
pub record IsSubmittedPath (path : Text) : Type 0 where
  pub safe : IsSafePath path
  pub supported : IsSupported path

submitted_path-ok :
    (path : Text) (q : SubmittedPath)
    → submitted_path path ≡ ok q
    → IsSubmittedPath path × (q ≡ record { as_str = path })
unfolding submitted_path
submitted_path-ok path q h =
    let (safe, h') =
      >>-eq-ok (validate_safe_path path) _ (map_err-eq-ok _ (submitted_path_from_str path) h) in
    let (supported, r) = >>-eq-ok (validate_supported_path path) _ h' in
    (
      record {
        safe = (validate_safe_path_iff path).0 safe;
        supported = families_sound path (unfold validate_supported_path in ground arith);
      },
      ground arith,
    )

IsSubmittedPath-ok :
    (path : Text) → IsSubmittedPath path → submitted_path path ≡ ok (record { as_str = path })
unfolding submitted_path submitted_path_from_str validate_supported_path
IsSubmittedPath-ok path p =
    rw ((validate_safe_path_iff path).1 p.safe, families_complete path p.supported) refl

check_components-err :
    (path : Text) (cs : List Component) (e : ValidationError)
    → check_components path cs ≡ err e
    → e ≡ unsafe_path path
unfolding check_components
check_components-err path [] e h = cc
check_components-err path (normal n ∷ cs) e h = check_components-err path cs e h
check_components-err path (root_dir ∷ cs) e h = cc
check_components-err path (cur_dir ∷ cs) e h = cc
check_components-err path (parent_dir ∷ cs) e h = cc

validate_safe_path-err :
    (path : Text) (e : ValidationError) → validate_safe_path path ≡ err e → e ≡ unsafe_path path
unfolding validate_safe_path
validate_safe_path-err path e h = elim (Bool-cases (has_unsafe_shape path)) [
  | inl t ↦ let h' = rw t at h in cc
  | inr f ↦ check_components-err path (components path) e (rw f at h)
]

-- Why a submitted path is refused: the error names the path as it was submitted.
abbrev pub IsRefusedPath : Text → ValidationError → Type 0
IsRefusedPath path e =
    ((¬ IsSafePath path) × (e ≡ unsafe_path path))
    ⊎ (IsSafePath path × (¬ IsSupported path) × (e ≡ unsupported_path path))

submitted-refused :
    (path : Text) (safe : Result ValidationError (Unit {0})) (e : ValidationError)
    → validate_safe_path path ≡ safe
    → map_err {A = SubmittedPath}
        (λ e. with_owned_path e path)
        (safe >> (validate_supported_path path >> ok (record { as_str = path })))
      ≡ err e
    → IsRefusedPath path e
submitted-refused path (err x) e h z =
    let x_is = validate_safe_path-err path x h in
    inl (
      (λ s. let good = (validate_safe_path_iff path).1 s in cc),
      unfold with_owned_path in let z' = rw x_is at z in cc,
    )
submitted-refused path (ok u) e h z = elim (Bool-cases (is_supported_path path)) [
  | inl t ↦ unfold validate_supported_path in let z' = rw t at z in cc
  | inr f ↦ inr (
    (validate_safe_path_iff path).0 h,
    (λ s. let good = families_complete path s in cc),
    unfold validate_supported_path with_owned_path in let z' = rw f at z in cc,
  )
]

submitted_path-IsRefusedPath :
    (path : Text) (e : ValidationError) → submitted_path path ≡ err e → IsRefusedPath path e
unfolding submitted_path submitted_path_from_str
submitted_path-IsRefusedPath path e h = submitted-refused path (validate_safe_path path) e refl h

-- How a submitted path is converted: an accepted one keeps its own text.
abbrev pub IsDecidedPath : Text → Result ValidationError SubmittedPath → Type 0
IsDecidedPath path (ok q) = IsSubmittedPath path × (q ≡ record { as_str = path })
IsDecidedPath path (err e) = IsRefusedPath path e

submitted_path-IsDecidedPath :
    (path : Text) (r : Result ValidationError SubmittedPath)
    → submitted_path path ≡ r
    → IsDecidedPath path r
submitted_path-IsDecidedPath path (ok q) h = submitted_path-ok path q h
submitted_path-IsDecidedPath path (err e) h = submitted_path-IsRefusedPath path e h

-- Only one error can be that of a refusal, and a refused path is not accepted.
refused-same :
    (path : Text) (e e' : ValidationError) → IsRefusedPath path e → IsRefusedPath path e' → e ≡ e'
refused-same path e e' (inl (n, h)) (inl (n', h')) = h ∙ sym h'
refused-same path e e' (inl (n, h)) (inr (s, n', h')) = absurd (n s)
refused-same path e e' (inr (s, n, h)) (inl (n', h')) = absurd (n' s)
refused-same path e e' (inr (s, n, h)) (inr (s', n', h')) = h ∙ sym h'

refused-apart : (path : Text) (e : ValidationError) → IsRefusedPath path e → ¬ IsSubmittedPath path
refused-apart path e (inl (n, h)) p = n p.safe
refused-apart path e (inr (s, n, h)) p = n p.supported

refused-err :
    (path : Text) (e : ValidationError) (r : Result ValidationError SubmittedPath)
    → IsRefusedPath path e
    → submitted_path path ≡ r
    → r ≡ err e
refused-err path e (ok q) d h = absurd (refused-apart path e d (submitted_path-ok path q h).0)
refused-err path e (err e') d h =
    ap err (refused-same path e' e (submitted_path-IsRefusedPath path e' h) d)

decided-submitted_path :
    (path : Text) (r : Result ValidationError SubmittedPath)
    → IsDecidedPath path r
    → submitted_path path ≡ r
decided-submitted_path path (ok q) (p, e) = rw e (IsSubmittedPath-ok path p)
decided-submitted_path path (err e) d = refused-err path e (submitted_path path) d refl

-- A submitted path is converted exactly if it is safe, and stands below `src/` or `tests/` and ends
-- in `.rs`, or stands below `fixtures/` or `testdata/`; and then it keeps its text. It is refused
-- exactly if it is unsafe, with the error for that, or safe and of none of these families, with the
-- error for that; and either error names the path that was submitted.
pub submitted_path_iff :
    (path : Text) (r : Result ValidationError SubmittedPath)
    → (submitted_path path ≡ r) ↔ IsDecidedPath path r
submitted_path_iff path r = (submitted_path-IsDecidedPath path r, decided-submitted_path path r)

-- A compile-fail source path is accepted with its own text.
pub record IsCompileFailPath (path : Text) : Type 0 where
  pub safe : IsSafePath path
  pub below : starts_with path (codes "compile_fail/") ≡ true
  pub rust : ends_with path (codes ".rs") ≡ true

compile_fail_path-ok :
    (path : Text) (q : CompileFailPath)
    → compile_fail_path path ≡ ok q
    → IsCompileFailPath path × (q ≡ record { as_str = path })
unfolding compile_fail_path
compile_fail_path-ok path q h = on_unit (map_err _ (validate_safe_path path)) _ h λ safe h'.
    on_pass (not (starts_with path (codes "compile_fail/")) || not (ends_with path (codes ".rs"))) _
      _ h'
      λ flags r. (
        record {
          safe = (validate_safe_path_iff path).0 (map_err-eq-ok _ (validate_safe_path path) safe);
          below = ground (arith, flags);
          rust = ground (arith, flags);
        },
        ground (arith, r),
      )

-- A compile-fail path is converted exactly if it is safe, stands below `compile_fail/` and ends in
-- `.rs`, and then it keeps its text.
pub compile_fail_path_iff :
    (path : Text) (q : CompileFailPath)
    → (compile_fail_path path ≡ ok q) ↔ (IsCompileFailPath path × (q ≡ record { as_str = path }))
compile_fail_path_iff path q = (
  compile_fail_path-ok path q,
  λ (p, e).
      unfold compile_fail_path in rw (e, (validate_safe_path_iff path).1 p.safe, p.below, p.rust),
)
