-- ===== src/Model/Path/Safe.antt =====
-- `validate_safe_path` accepts exactly the safe paths, and where the accepted paths lead.
use rust_daily.Base.{
  List, [], ◌∷◌, ◌++◌, map, append_assoc, append-nil, ◌≡◌, ◌↔◌, refl, sym, ◌∙◌, arith, ok,
  fail_if->>-eq-ok, All,
}
use rust_daily.Model.Path.{
  slash, Component, root_dir, cur_dir, parent_dir, normal, later_components, first_components,
  components, check_components, has_unsafe_shape, validate_safe_path,
}
use rust_daily.Model.Path.Shape.{
  IsSafeComponent, IsSafePath, has_unsafe_shape-Passes, Passes-IsSafePath, is_empty_of_component,
  not_dots, IsSafePath-shape, no_parts,
}
use rust_daily.Text.{Text, split}

later_components-normal :
    (parts : List Text) → All IsSafeComponent parts → later_components parts ≡ map normal parts
unfolding later_components
later_components-normal [] h = refl
later_components-normal (p ∷ ps) (q, h) =
    ground (arith, is_empty_of_component p q, not_dots p q, later_components-normal ps h)

first_components-normal :
    (parts : List Text) → All IsSafeComponent parts → first_components parts ≡ map normal parts
unfolding first_components
first_components-normal [] h = refl
first_components-normal (p ∷ ps) (q, h) =
    ground (arith, is_empty_of_component p q, not_dots p q, later_components-normal (p ∷ ps) (q, h))

-- The components of a path with safe parts are its parts.
pub components-normal :
    (path : Text)
    → All IsSafeComponent (split slash path)
    → components path ≡ map normal (split slash path)
unfolding components
components-normal [] h = absurd (no_parts h)
components-normal (c ∷ s) h = first_components-normal (split slash (c ∷ s)) h

check_components-normal :
    (path : Text) (parts : List Text) → check_components path (map normal parts) ≡ ok tt
unfolding check_components
check_components-normal path [] = refl
check_components-normal path (p ∷ ps) = check_components-normal path ps

pub safe_of_ok : (path : Text) → validate_safe_path path ≡ ok tt → IsSafePath path
unfolding validate_safe_path
safe_of_ok path h =
    Passes-IsSafePath path
      (has_unsafe_shape-Passes path (fail_if->>-eq-ok (has_unsafe_shape path) _ h).0)

ok_of_safe : (path : Text) → IsSafePath path → validate_safe_path path ≡ ok tt
unfolding validate_safe_path
ok_of_safe path h =
    rw (IsSafePath-shape path h, components-normal path h.parts)
      (check_components-normal path (split slash path))

-- `validate_safe_path` accepts exactly the paths of at most 240 bytes with no backslash and no
-- control character whose parts between the slashes are all safe: not empty, not `.` or `..`, and
-- of at most 120 bytes.
pub validate_safe_path_iff : (path : Text) → (validate_safe_path path ≡ ok tt) ↔ IsSafePath path
validate_safe_path_iff path = (safe_of_ok path, ok_of_safe path)

-- Path resolution: the directory that a component leads to, as the names from the root.
abbrev parent : List Text → List Text
parent [] = []
parent (d ∷ []) = []
parent (d ∷ e ∷ ds) = d ∷ parent (e ∷ ds)

abbrev descend : List Text → Component → List Text
descend dir root_dir = []
descend dir cur_dir = dir
descend dir parent_dir = parent dir
descend dir (normal n) = dir ++ n ∷ []

abbrev pub resolve : List Text → List Component → List Text
resolve dir [] = dir
resolve dir (c ∷ cs) = resolve (descend dir c) cs

pub resolve-normal : (dir parts : List Text) → resolve dir (map normal parts) ≡ dir ++ parts
resolve-normal dir [] = sym (append-nil dir)
resolve-normal dir (p ∷ ps) = resolve-normal (dir ++ p ∷ []) ps ∙ append_assoc dir (p ∷ []) ps

-- An accepted path, followed from any directory, stays below it: it leads to the entry that the
-- parts between its slashes name, in their order.
pub resolve-safe :
    (dir : List Text) (path : Text)
    → validate_safe_path path ≡ ok tt
    → resolve dir (components path) ≡ dir ++ split slash path
resolve-safe dir path h =
    rw (components-normal path (safe_of_ok path h).parts) (resolve-normal dir (split slash path))
