-- ===== src/Model/Path.antt =====
-- The path rules of model.rs: safe relative paths, the supported families, the configured limits,
-- and collisions. `Path::components` and `is_absolute` are those of Unix.
pub mod Shape
pub mod Safe
pub mod Collide
pub mod Families
pub mod Accepted
use rust_daily.Base.{
  ℕ, Bool, false, not, ◌&&◌, ◌||◌, List, [], ◌∷◌, ◌++◌, ltb, ◌==◌, if◌then◌else◌, any, is_empty,
  Result, ok, err, ◌>>◌, fail_if, map_err,
}
use rust_daily.Model.Errors.{ValidationError, unsafe_path, unsupported_path, with_owned_path}
use rust_daily.Model.Limits.{
  ValidationLimits, max_path_bytes_hard_limit, max_path_component_bytes_hard_limit,
}
use rust_daily.Model.Types.{SubmittedPath, CompileFailPath, tests_prefix}
use rust_daily.Text.{Text, codes, len, text_eq, starts_with, ends_with, split, is_control}

abbrev pub slash : ℕ
slash = b'/'

-- `std::path::Component` on Unix, where no path has a prefix.
pub data Component : Type 0 where
  root_dir cur_dir parent_dir : Component
  normal : Text → Component

-- The components behind the first part: empty parts and `.` are skipped.
unfoldable pub later_components : List Text → List Component
later_components [] = []
later_components (p ∷ ps) =
    let rest = later_components ps in
    if is_empty p || text_eq p (codes ".")
    then rest
    else if text_eq p (codes "..")
    then parent_dir ∷ rest
    else normal p ∷ rest

-- A leading `.` is kept where the path has no root.
unfoldable pub first_components : List Text → List Component
unfolding later_components
first_components [] = []
first_components (p ∷ ps) =
    if is_empty p
    then root_dir ∷ later_components ps
    else if text_eq p (codes ".")
    then cur_dir ∷ later_components ps
    else later_components (p ∷ ps)

-- `Path::new(path).is_absolute()`.
unfoldable pub is_absolute : Text → Bool
is_absolute [] = false
is_absolute (c ∷ s) = c == slash

-- `Path::new(path).components()`.
unfoldable pub components : Text → List Component
unfolding first_components
components [] = []
components (c ∷ s) = first_components (split slash (c ∷ s))

-- The loop over the components.
unfoldable pub check_components : Text → List Component → Result ValidationError (Unit {0})
check_components path [] = ok tt
check_components path (normal _ ∷ cs) = check_components path cs
check_components path (_ ∷ cs) = err (unsafe_path path)

-- The long condition of `validate_safe_path`.
unfoldable pub has_unsafe_shape : Text → Bool
unfolding is_absolute
has_unsafe_shape path =
    is_empty path
    || any (λ c. c == b'\\') path
    || any (λ c. c == 0) path
    || any is_control path
    || ends_with path (slash ∷ [])
    || any is_empty (split slash path)
    || any (λ s. text_eq s (codes ".") || text_eq s (codes "..")) (split slash path)
    || ltb max_path_bytes_hard_limit (len path)
    || any (λ s. ltb max_path_component_bytes_hard_limit (len s)) (split slash path)
    || is_absolute path

unfoldable pub validate_safe_path : Text → Result ValidationError (Unit {0})
unfolding has_unsafe_shape
validate_safe_path path =
    fail_if (has_unsafe_shape path) (unsafe_path path) >> check_components path (components path)

unfoldable pub validate_path_limits : Text → ValidationLimits → Result ValidationError (Unit {0})
validate_path_limits path limits =
    fail_if
      (ltb limits.max_path_bytes (len path)
        || any (λ c. ltb limits.max_path_component_bytes (len c)) (split slash path))
      (unsafe_path path)

unfoldable pub is_supported_path : Text → Bool
is_supported_path path =
    starts_with path (codes "src/") && ends_with path (codes ".rs")
    || starts_with path tests_prefix && ends_with path (codes ".rs")
    || starts_with path (codes "fixtures/")
    || starts_with path (codes "testdata/")

unfoldable pub validate_supported_path : Text → Result ValidationError (Unit {0})
unfolding is_supported_path
validate_supported_path path = if is_supported_path path then ok tt else err (unsupported_path path)

-- `SubmittedPath::try_from(&str)`.
unfoldable pub submitted_path_from_str : Text → Result ValidationError SubmittedPath
submitted_path_from_str value = do
  validate_safe_path value
  validate_supported_path value
  ok (record { as_str = value })

-- `SubmittedPath::try_from(String)`.
unfoldable pub submitted_path : Text → Result ValidationError SubmittedPath
unfolding submitted_path_from_str
submitted_path value = map_err (λ e. with_owned_path e value) (submitted_path_from_str value)

-- `CompileFailPath::try_from(String)`.
unfoldable pub compile_fail_path : Text → Result ValidationError CompileFailPath
compile_fail_path value = do
  map_err (λ e. with_owned_path e value) (validate_safe_path value)
  fail_if (not (starts_with value (codes "compile_fail/")) || not (ends_with value (codes ".rs")))
      (unsupported_path value)
  ok (record { as_str = value })

unfoldable pub paths_collide : Text → Text → Bool
paths_collide left right =
    text_eq left right
    || starts_with left (right ++ slash ∷ [])
    || starts_with right (left ++ slash ∷ [])
