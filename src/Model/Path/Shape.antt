-- ===== src/Model/Path/Shape.antt =====
-- The condition of `validate_safe_path`, test by test, against a description of safe paths.
use rust_daily.Base.{
  ◌≤◌, false, ◌||◌, List, [], ◌∷◌, ◌++◌, ◌≡◌, ◌≢◌, refl, ap, ◌∙◌, subst, inl, inr, arith, ltb, ◌==◌,
  any, is_empty, Bool-cases, or-eq-false, All,
}
use rust_daily.Model.Limits.{max_path_bytes_hard_limit, max_path_component_bytes_hard_limit}
use rust_daily.Model.Path.{slash, is_absolute, has_unsafe_shape}
use rust_daily.Text.Laws.{text_eq→eq, eq→text_eq, ends_with→append}
use rust_daily.Text.Splitting.{split-append}
use rust_daily.Text.{Text, codes, len, text_eq, ends_with, split, is_control}

-- A component that names an entry of the directory it stands in.
pub record IsSafeComponent (s : Text) : Type 0 where
  pub non_empty : s ≢ []
  pub not_current : s ≢ codes "."
  pub not_parent : s ≢ codes ".."
  pub bytes : len s ≤ max_path_component_bytes_hard_limit

pub record IsSafePath (path : Text) : Type 0 where
  pub bytes : len path ≤ max_path_bytes_hard_limit
  pub plain : All (λ c. (c ≢ b'\\') × (is_control c ≡ false)) path
  pub parts : All IsSafeComponent (split slash path)

-- What the ten tests of the condition say, one by one, when none holds.
pub record Passes (path : Text) : Type 0 where
  no_backslash : any (λ c. c == b'\\') path ≡ false
  no_control : any is_control path ≡ false
  no_empty : any is_empty (split slash path) ≡ false
  no_dots : any (λ s. text_eq s (codes ".") || text_eq s (codes "..")) (split slash path) ≡ false
  short : ltb max_path_bytes_hard_limit (len path) ≡ false
  short_parts :
      any (λ s. ltb max_path_component_bytes_hard_limit (len s)) (split slash path) ≡ false

pub has_unsafe_shape-Passes : (path : Text) → has_unsafe_shape path ≡ false → Passes path
unfolding has_unsafe_shape
has_unsafe_shape-Passes path h = ground arith

component_of_flags :
    (s : Text)
    → is_empty s ≡ false
    → (text_eq s (codes ".") || text_eq s (codes "..")) ≡ false
    → ltb max_path_component_bytes_hard_limit (len s) ≡ false
    → IsSafeComponent s
component_of_flags s e d b = record {
  non_empty = λ h. cc (ap is_empty h);
  not_current = λ h. ground (arith, eq→text_eq s (codes ".") h);
  not_parent = λ h. ground (arith, eq→text_eq s (codes "..") h);
  bytes = ground arith;
}

plain_of_flags :
    (path : Text)
    → any (λ c. c == b'\\') path ≡ false
    → any is_control path ≡ false
    → All (λ c. (c ≢ b'\\') × (is_control c ≡ false)) path
plain_of_flags [] b k = tt
plain_of_flags (c ∷ path) b k =
    ((ground arith, ground arith), plain_of_flags path (ground arith) (ground arith))

parts_of_flags :
    (parts : List Text)
    → any is_empty parts ≡ false
    → any (λ s. text_eq s (codes ".") || text_eq s (codes "..")) parts ≡ false
    → any (λ s. ltb max_path_component_bytes_hard_limit (len s)) parts ≡ false
    → All IsSafeComponent parts
parts_of_flags [] e d b = tt
parts_of_flags (s ∷ parts) e d b =
    let (e', es) = or-eq-false (is_empty s) _ e in
    let (d', ds) = or-eq-false (text_eq s (codes ".") || text_eq s (codes "..")) _ d in
    let (b', bs) = or-eq-false (ltb max_path_component_bytes_hard_limit (len s)) _ b in
    (component_of_flags s e' d' b', parts_of_flags parts es ds bs)

pub Passes-IsSafePath : (path : Text) → Passes path → IsSafePath path
Passes-IsSafePath path f = record {
  bytes = ground (arith, f.short);
  plain = plain_of_flags path f.no_backslash f.no_control;
  parts = parts_of_flags (split slash path) f.no_empty f.no_dots f.short_parts;
}

pub is_empty_of_component : (s : Text) → IsSafeComponent s → is_empty s ≡ false
is_empty_of_component [] h = absurd (h.non_empty refl)
is_empty_of_component (c ∷ s) h = refl

pub not_dots :
    (s : Text)
    → IsSafeComponent s
    → (text_eq s (codes ".") ≡ false) × (text_eq s (codes "..") ≡ false)
not_dots s h = (
  elim (Bool-cases (text_eq s (codes "."))) [
    | inl e ↦ absurd (h.not_current (text_eq→eq s (codes ".") e))
    | inr n ↦ n
  ],
  elim (Bool-cases (text_eq s (codes ".."))) [
    | inl e ↦ absurd (h.not_parent (text_eq→eq s (codes "..") e))
    | inr n ↦ n
  ],
)

-- A path with a leading or trailing slash has an empty part.
not_absolute : (path : Text) → All IsSafeComponent (split slash path) → is_absolute path ≡ false
unfolding is_absolute split
not_absolute [] h = refl
not_absolute (c ∷ s) h = elim (Bool-cases (c == slash)) [
  | inl e ↦ let h' = rw (e, split) at h in absurd (h'.0.non_empty refl)
  | inr n ↦ n
]

All-right {ℓ κ} : {A : Type ℓ} (P : A → Type κ) (xs ys : List A) → All P (xs ++ ys) → All P ys
All-right P [] ys h = h
All-right P (x ∷ xs) ys (_, h) = All-right P xs ys h

-- The empty path has an empty part.
pub no_parts : ¬ All IsSafeComponent (split slash [])
unfolding split
no_parts h = h.0.non_empty refl

not_trailing :
    (path : Text) → All IsSafeComponent (split slash path) → ends_with path (slash ∷ []) ≡ false
not_trailing path h = elim (Bool-cases (ends_with path (slash ∷ []))) [
  | inr n ↦ n
  | inl e ↦
      let (r, p) = ends_with→append path (slash ∷ []) e in
      let parts : All IsSafeComponent (split slash r ++ split slash []) =
        subst (All IsSafeComponent) (ap (split slash) p ∙ split-append slash r []) h in
      absurd (no_parts (All-right IsSafeComponent (split slash r) (split slash []) parts))
]

plain_flags :
    (path : Text)
    → All (λ c. (c ≢ b'\\') × (is_control c ≡ false)) path
    → (any (λ c. c == b'\\') path ≡ false)
      × (any (λ c. c == 0) path ≡ false)
      × (any is_control path ≡ false)
unfolding is_control
plain_flags [] h = (refl, refl, refl)
plain_flags (c ∷ path) ((b, k), h) =
    let (x, y, z) = plain_flags path h in (ground arith, ground arith, ground arith)

parts_flags :
    (parts : List Text)
    → All IsSafeComponent parts
    → (any is_empty parts ≡ false)
      × (any (λ s. text_eq s (codes ".") || text_eq s (codes "..")) parts ≡ false)
      × (any (λ s. ltb max_path_component_bytes_hard_limit (len s)) parts ≡ false)
parts_flags [] h = (refl, refl, refl)
parts_flags (s ∷ parts) (p, h) =
    let (x, y, z) = parts_flags parts h in
    let (d, dd) = not_dots s p in
    let e = is_empty_of_component s p in
    let b = p.bytes in (ground arith, ground arith, ground arith)

is_empty_path : (path : Text) → All IsSafeComponent (split slash path) → is_empty path ≡ false
unfolding split
is_empty_path [] h = absurd (h.0.non_empty refl)
is_empty_path (c ∷ s) h = refl

pub IsSafePath-shape : (path : Text) → IsSafePath path → has_unsafe_shape path ≡ false
unfolding has_unsafe_shape
IsSafePath-shape path h = ground (
  arith,
  is_empty_path path h.parts,
  plain_flags path h.plain,
  not_trailing path h.parts,
  parts_flags (split slash path) h.parts,
  not_absolute path h.parts,
  h.bytes,
)
