-- ===== src/Model/Path/Families.antt =====
-- The families of paths that a submission may have.
use rust_daily.Text.Laws.{
  ends_with→append, starts_with→append, append-starts_with, append-ends_with,
}
use rust_daily.Base.{inr, ◌++◌, ◌⊎◌, Bool-cases, inl, ◌≡◌, true, arith}
use rust_daily.Model.Path.{is_supported_path}
use rust_daily.Text.{Text, codes, starts_with, ends_with}

-- The path is `root`, followed by something.
abbrev pub IsUnder : Text → Text → Type 0
IsUnder root path = (r : Text) × (path ≡ root ++ r)

abbrev pub IsRust : Text → Type 0
IsRust path = (r : Text) × (path ≡ r ++ codes ".rs")

-- The families of files that a submission may have: Rust files below `src/` and `tests/`, and any
-- file below `fixtures/` and `testdata/`.
abbrev pub IsSupported : Text → Type 0
IsSupported path =
    ((IsUnder (codes "src/") path ⊎ IsUnder (codes "tests/") path) × IsRust path)
    ⊎ (IsUnder (codes "fixtures/") path ⊎ IsUnder (codes "testdata/") path)

starts-IsUnder : (root path : Text) → starts_with path root ≡ true → IsUnder root path
starts-IsUnder root path h = starts_with→append path root h

IsUnder-starts : (root path : Text) → IsUnder root path → starts_with path root ≡ true
IsUnder-starts root path (r, e) = rw e (append-starts_with root r)

IsRust-ends : (path : Text) → IsRust path → ends_with path (codes ".rs") ≡ true
IsRust-ends path (r, e) = rw e (append-ends_with r (codes ".rs"))

pub families_sound : (path : Text) → is_supported_path path ≡ true → IsSupported path
unfolding is_supported_path
families_sound path h = elim (Bool-cases (starts_with path (codes "fixtures/"))) [
  | inl e ↦ inr (inl (starts-IsUnder _ path e))
  | inr f ↦ elim (Bool-cases (starts_with path (codes "testdata/"))) [
    | inl e ↦ inr (inr (starts-IsUnder _ path e))
    | inr t ↦ inl (
      elim (Bool-cases (starts_with path (codes "src/"))) [
        | inl e ↦ inl (starts-IsUnder _ path e)
        | inr s ↦ inr (starts-IsUnder (codes "tests/") path (ground arith))
      ],
      ends_with→append path (codes ".rs") (ground arith),
    )
  ]
]

pub families_complete : (path : Text) → IsSupported path → is_supported_path path ≡ true
unfolding is_supported_path
families_complete path (inl (inl b, r)) =
    ground (arith, IsUnder-starts (codes "src/") path b, IsRust-ends path r)
families_complete path (inl (inr b, r)) =
    ground (arith, IsUnder-starts (codes "tests/") path b, IsRust-ends path r)
families_complete path (inr (inl b)) = ground (arith, IsUnder-starts (codes "fixtures/") path b)
families_complete path (inr (inr b)) = ground (arith, IsUnder-starts (codes "testdata/") path b)
