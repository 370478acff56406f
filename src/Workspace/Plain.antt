-- ===== src/Workspace/Plain.antt =====
-- The paths of a workspace's files lead downwards: they consist of names.
use rust_daily.Workspace.Layout.{case_items, IsPlain}
use rust_daily.Workspace.Writes.{file_item, case_item, Item}
use rust_daily.Model.Path.Shape.{IsSafePath-shape, has_unsafe_shape-Passes, Passes-IsSafePath}
use rust_daily.Text.Splitting.{split_of_Lacks, split-append, Lacks}
use rust_daily.Model.Cases.{is_name_byte}
use rust_daily.Model.Path.Safe.{components-normal}
use rust_daily.Collections.{BTreeMap}
use rust_daily.Base.{
  List, map, all-eq-true, ◌==◌, Bool-cases, not, All-append, all, inr, subst, ◌++◌, arith, All-map,
  refl, sym, ◌∙◌, inl, All, ◌≢◌, ◌≡◌, [], ◌∷◌, true,
}
use rust_daily.Model.Types.{
  CompileFailCaseName, SubmittedCompileFailCase, generated_test_target, SubmittedPath,
  SubmittedContent, ValidatedCompileFailCase, SubmittedFile, RunMode, cargo_test, compile_fail,
}
use rust_daily.Model.Request.{generated_path}
use rust_daily.Model.Request.Sound.{CaseRules}
use rust_daily.Model.Request.Files.{IsAccepted, entry}
use rust_daily.Model.Path.{has_unsafe_shape, later_components, first_components, components, slash}
use rust_daily.Model.Cases.Scan.{AreValidCases}
use rust_daily.Model.Limits.{ValidationLimits}
use rust_daily.Text.{text_eq, is_ascii_alphanumeric, replace, split, Text, codes}
use rust_daily.Workspace.{BTreeMap}

-- The test that the runner generates for a case name has two parts, both plain.
replace-Lacks : (s : Text) → All (λ c. is_name_byte c ≡ true) s → Lacks slash (replace b'-' b'_' s)
unfolding replace is_name_byte is_ascii_alphanumeric
replace-Lacks [] h = tt
replace-Lacks (c ∷ s) (n, h) = (ground (arith, n), replace-Lacks s h)

all-Lacks : (s : Text) → all (λ c. not (c == slash)) s ≡ true → Lacks slash s
all-Lacks s h = All-map (λ c e. ground (arith, e)) s (all-eq-true _ s h)

target-Lacks :
    (n : CompileFailCaseName)
    → All (λ c. is_name_byte c ≡ true) n.as_str
    → Lacks slash (generated_test_target n ++ codes ".rs")
unfolding generated_test_target
target-Lacks n h =
    All-append (λ c. c ≢ slash) (codes "compile_fail_" ++ replace b'-' b'_' n.as_str) (codes ".rs")
      (All-append (λ c. c ≢ slash) (codes "compile_fail_") (replace b'-' b'_' n.as_str)
        (all-Lacks (codes "compile_fail_") refl) (replace-Lacks n.as_str h))
      (all-Lacks (codes ".rs") refl)

target-split :
    (n : CompileFailCaseName)
    → All (λ c. is_name_byte c ≡ true) n.as_str
    → split slash (generated_path n) ≡ codes "tests" ∷ (generated_test_target n ++ codes ".rs") ∷ []
target-split n h =
    split-append slash (codes "tests") (generated_test_target n ++ codes ".rs")
    ∙ cc (
      split_of_Lacks slash (codes "tests") (all-Lacks (codes "tests") refl),
      split_of_Lacks slash (generated_test_target n ++ codes ".rs") (target-Lacks n h),
    )

target-IsPlain :
    (n : CompileFailCaseName)
    → All (λ c. is_name_byte c ≡ true) n.as_str
    → IsPlain (generated_path n)
unfolding components first_components later_components generated_test_target text_eq
target-IsPlain n h = rw (target-split n h) refl

pub manifest-IsPlain : IsPlain (codes "Cargo.toml")
unfolding components first_components later_components split text_eq
manifest-IsPlain = refl

targets-ArePlain :
    (limits : ValidationLimits) (cs : List SubmittedCompileFailCase)
    (vs : List ValidatedCompileFailCase)
    → AreValidCases limits cs vs
    → All (λ (i : Item). IsPlain i.0) (map case_item vs)
targets-ArePlain limits [] [] r = tt
targets-ArePlain limits [] (v ∷ vs) r = absurd r
targets-ArePlain limits (c ∷ cs) [] r = absurd r
targets-ArePlain limits (c ∷ cs) (v ∷ vs) (r, rs) = (
  target-IsPlain v.name (
      subst (λ (n : CompileFailCaseName). All (λ c. is_name_byte c ≡ true) n.as_str) (sym r.name_is)
        r.name_rules.letters),
  targets-ArePlain limits cs vs rs,
)

pub mode-ArePlain :
    (limits : ValidationLimits) (mode : RunMode) (submitted : List SubmittedCompileFailCase)
    (cs : List ValidatedCompileFailCase)
    → CaseRules limits mode submitted cs
    → All (λ (i : Item). IsPlain i.0) (case_items mode cs)
mode-ArePlain limits cargo_test submitted cs r = tt
mode-ArePlain limits compile_fail submitted cs r = targets-ArePlain limits submitted cs r.2

pub entries-AreSafe :
    (limits : ValidationLimits) (files : List SubmittedFile)
    → All (IsAccepted limits) files
    → All
        (λ (e : SubmittedPath × SubmittedContent). has_unsafe_shape e.0.as_str ≢ true)
        (map entry files)
entries-AreSafe limits [] h = tt
entries-AreSafe limits (f ∷ fs) (a, h) = (
  (λ t. ground (arith, t, IsSafePath-shape f.path a.path_rules.safe)),
  entries-AreSafe limits fs h,
)

safe-IsPlain : (path : Text) → has_unsafe_shape path ≢ true → IsPlain path
safe-IsPlain path n = elim (Bool-cases (has_unsafe_shape path)) [
  | inl t ↦ absurd (n t)
  | inr f ↦ components-normal path (Passes-IsSafePath path (has_unsafe_shape-Passes path f)).parts
]

pub items-ArePlain :
    (files : BTreeMap SubmittedPath SubmittedContent) (items : List Item)
    → All (λ (e : SubmittedPath × SubmittedContent). has_unsafe_shape e.0.as_str ≢ true) files
    → All (λ (i : Item). IsPlain i.0) items
    → All (λ (i : Item). IsPlain i.0) (map file_item files ++ items)
items-ArePlain [] items h k = k
items-ArePlain (e ∷ es) items (n, h) k = (safe-IsPlain e.0.as_str n, items-ArePlain es items h k)
