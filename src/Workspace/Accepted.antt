-- ===== src/Workspace/Accepted.antt =====
-- The workspace of an accepted request has one file for each path.
use rust_daily.Model.Path.Families.{IsSupported}
use rust_daily.Workspace.Plain.{items-ArePlain, entries-AreSafe, mode-ArePlain, manifest-IsPlain}
use rust_daily.DependencySet.{DependencySet}
use rust_daily.Collections.{BTreeMap}
use mathlib.Core.List.Perm
use mathlib.Core.HLevel.{¬_prop}
use mathlib.Core.Logic.Or
use mathlib.Core.List.{
  mem-cons, map, List, append-nil, mem-cons_of_mem, not-mem-nil, mem-cons_self, Mem, Perm,
  append_cancel_left, append_cancel_right,
}
use rust_daily.Base.{
  inr, subst, Option, ◌++◌, arith, All-map, sym, ◌∙◌, ap, inl, All, ◌≢◌, ◌≡◌, [], ◌∷◌, ok,
}
use rust_daily.Model.Types.{
  SubmittedCompileFailCase, RunRequest, generated_test_target, SubmittedPath, SubmittedContent,
  ValidatedCompileFailCase, SubmittedFile, ValidatedRunRequest, RunMode, cargo_test, compile_fail,
}
use rust_daily.Model.Request.Guarantees.{
  validate-tree, validate-files, validate-contents, validate-cases,
}
use rust_daily.Model.Request.{path_texts, generated_path, validate}
use rust_daily.Model.Request.Sound.{CaseRules}
use rust_daily.Model.Request.Tree.{LeaveTargets, PairwiseApart, AreApart}
use rust_daily.Model.Request.Files.{IsAccepted, entry}
use rust_daily.Model.Path.{slash}
use rust_daily.Model.Cases.Scan.{DistinctCases}
use rust_daily.Model.Cases.Snippets.{IsSmall}
use rust_daily.Model.Limits.{ValidationLimits}
use rust_daily.Text.Utf8.{as_bytes, Bytes}
use rust_daily.Text.{split, Text, codes}
use rust_daily.Workspace.{materialize, BTreeMap, FileSystem}
use rust_daily.Workspace.Disk.{Place, Laws}
use rust_daily.Workspace.Writes.{case_item, file_item, Item, DistinctPaths}
use rust_daily.Workspace.Layout.{
  IsPlain, materialize-AreMade, made-IsLaidOut, IsLaidOut, case_items, layout,
}

-- What a proposition says of every element does not depend on their order.
module _ {ℓ κ} {A : Type ℓ} (P : A → Type κ) (prop : (a : A) → IsProp (P a)) where
  All-mem : (xs : List A) → All P xs → (a : A) → Mem a xs → P a
  All-mem [] h a m = absurd (not-mem-nil m)
  All-mem (x ∷ xs) (p, h) a m = Or.elim (prop a) (mem-cons.0 m) (λ e. rw e p) (All-mem xs h a)

  mem-All : (xs : List A) → ((a : A) → Mem a xs → P a) → All P xs
  mem-All [] f = tt
  mem-All (x ∷ xs) f = (f x mem-cons_self, mem-All xs (λ a m. f a (mem-cons_of_mem x m)))

  All-perm : (xs ys : List A) → Perm xs ys → All P ys → All P xs
  All-perm xs ys m h = mem-All xs (λ a i. All-mem ys h a ((Perm.mem_iff m).0 i))

-- The manifest's path is not a supported one.
unsupported_manifest : (p : Text) → IsSupported p → codes "Cargo.toml" ≢ p
unsupported_manifest p (inl (inl (r, h), s)) e = ground (arith, e ∙ h)
unsupported_manifest p (inl (inr (r, h), s)) e = ground (arith, e ∙ h)
unsupported_manifest p (inr (inl (r, h))) e = ground (arith, e ∙ h)
unsupported_manifest p (inr (inr (r, h))) e = ground (arith, e ∙ h)

distinct_of_apart : (p q : Text) → AreApart p q → p ≢ q
distinct_of_apart p q a e = a (inl ([], ap (split slash) e ∙ sym (append-nil _)))

manifest-free :
    (limits : ValidationLimits) (files : List SubmittedFile)
    → All (IsAccepted limits) files
    → All
        (λ (e : SubmittedPath × SubmittedContent). codes "Cargo.toml" ≢ e.0.as_str)
        (map entry files)
manifest-free limits [] h = tt
manifest-free limits (f ∷ fs) (a, h) =
    (unsupported_manifest f.path a.path_rules.supported, manifest-free limits fs h)

-- A path that differs from those of the files and of the cases differs from those of all items.
items-differ :
    (p : Text) (files : BTreeMap SubmittedPath SubmittedContent) (items : List Item)
    → All (λ (e : SubmittedPath × SubmittedContent). p ≢ e.0.as_str) files
    → All (λ (i : Item). p ≢ i.0) items
    → All (λ (i : Item). p ≢ i.0) (map file_item files ++ items)
items-differ p [] items h k = k
items-differ p (e ∷ es) items (n, h) k = (n, items-differ p es items h k)

manifest-target :
    (cs : List ValidatedCompileFailCase)
    → All (λ (i : Item). codes "Cargo.toml" ≢ i.0) (map case_item cs)
manifest-target [] = tt
manifest-target (c ∷ cs) = ((λ e. ground (arith, e)), manifest-target cs)

-- Apart from one path, the targets of `cs`.
targets-differ :
    (p : Text) (cs : List ValidatedCompileFailCase)
    → All (λ c. AreApart p (generated_path c.name)) cs
    → All (λ (i : Item). p ≢ i.0) (map case_item cs)
targets-differ p [] h = tt
targets-differ p (c ∷ cs) (a, h) = (distinct_of_apart p _ a, targets-differ p cs h)

cases-DistinctPaths :
    (cs : List ValidatedCompileFailCase) → DistinctCases cs → DistinctPaths (map case_item cs)
cases-DistinctPaths [] d = tt
cases-DistinctPaths (c ∷ cs) (a, d) = (differ cs a, cases-DistinctPaths cs d)
  where
    differ :
        (cs : List ValidatedCompileFailCase)
        → All
            (λ w. (generated_test_target w.name ≢ generated_test_target c.name) × (w.path ≢ c.path))
            cs
        → All (λ (i : Item). generated_path c.name ≢ i.0) (map case_item cs)
    differ [] a = tt
    differ (w ∷ ws) ((n, m), a) = (
      (λ e. n (
          sym (append_cancel_right _ _ (codes ".rs") (append_cancel_left (codes "tests/") _ _ e)))),
      differ ws a,
    )

entries-differ :
    (p : Text) (files : BTreeMap SubmittedPath SubmittedContent)
    → All (AreApart p) (path_texts files)
    → All (λ (e : SubmittedPath × SubmittedContent). p ≢ e.0.as_str) files
entries-differ p [] h = tt
entries-differ p (e ∷ es) (a, h) = (distinct_of_apart p e.0.as_str a, entries-differ p es h)

files-DistinctPaths :
    (files : BTreeMap SubmittedPath SubmittedContent) (cs : List ValidatedCompileFailCase)
    → PairwiseApart (path_texts files)
    → LeaveTargets (path_texts files) cs
    → DistinctPaths (map case_item cs)
    → DistinctPaths (map file_item files ++ map case_item cs)
files-DistinctPaths [] cs a t d = d
files-DistinctPaths ((p, content) ∷ fs) cs (a, h) t d = (
  items-differ p.as_str fs (map case_item cs) (entries-differ p.as_str fs a)
      (targets-differ p.as_str cs (All-map (λ c q. q.0) cs t)),
  files-DistinctPaths fs cs h (All-map (λ c q. q.1) cs t) d,
)

mode-DistinctPaths :
    (limits : ValidationLimits) (mode : RunMode) (submitted : List SubmittedCompileFailCase)
    (cs : List ValidatedCompileFailCase) (files : BTreeMap SubmittedPath SubmittedContent)
    (b : Bytes)
    → All (λ (e : SubmittedPath × SubmittedContent). codes "Cargo.toml" ≢ e.0.as_str) files
    → PairwiseApart (path_texts files)
    → LeaveTargets (path_texts files) cs
    → CaseRules limits mode submitted cs
    → DistinctPaths ((codes "Cargo.toml", b) ∷ (map file_item files ++ case_items mode cs))
mode-DistinctPaths limits cargo_test submitted cs files b m a t r =
    (items-differ (codes "Cargo.toml") files [] m tt, files-DistinctPaths files [] a tt tt)
mode-DistinctPaths limits compile_fail submitted cs files b m a t r = (
  items-differ (codes "Cargo.toml") files (map case_item cs) m (manifest-target cs),
  files-DistinctPaths files cs a t (cases-DistinctPaths cs r.3),
)

module _ (limits : ValidationLimits) (small : IsSmall limits) (request : RunRequest)
    (v : ValidatedRunRequest) (manifest : DependencySet → Text)
    (accepted : validate request limits ≡ ok v) where
  manifest-differs :
      All (λ (e : SubmittedPath × SubmittedContent). codes "Cargo.toml" ≢ e.0.as_str) v.files
  manifest-differs =
      All-perm _ (λ e. ¬_prop) v.files _ (validate-contents limits small request v accepted).0
        (manifest-free limits request.files (validate-files limits small request v accepted).0)

  -- The rules on the cases, for the mode that the request keeps.
  accepted-CaseRules : CaseRules limits v.mode request.compile_fail_cases v.compile_fail_cases
  accepted-CaseRules =
      let (contents, sorted, same_mode, same_set) =
        validate-contents limits small request v accepted in
      subst (λ m. CaseRules limits m request.compile_fail_cases v.compile_fail_cases)
        (sym same_mode) (validate-cases limits small request v accepted)

  accepted-DistinctPaths : DistinctPaths (layout manifest v)
  accepted-DistinctPaths =
      let (apart, targets) = validate-tree limits small request v accepted in
      mode-DistinctPaths limits v.mode request.compile_fail_cases v.compile_fail_cases v.files
        (as_bytes (manifest v.dependency_set)) manifest-differs apart targets accepted-CaseRules

  accepted-ArePlain : All (λ (i : Item). IsPlain i.0) (layout manifest v)
  accepted-ArePlain = (
    manifest-IsPlain,
    items-ArePlain v.files _
        (All-perm _ (λ e. ¬_prop) v.files (map entry request.files)
          (validate-contents limits small request v accepted).0
          (entries-AreSafe limits request.files (validate-files limits small request v accepted).0))
        (mode-ArePlain limits v.mode request.compile_fail_cases v.compile_fail_cases
          accepted-CaseRules),
  )

  -- If the limits on bytes are below the largest `usize`, and the file system keeps to its laws:
  -- where the workspace of an accepted request is prepared, it consists of the manifest of the
  -- request's dependency set, of the request's files and, for a compile-fail request, of the
  -- generated test of each case, each with its bytes, at the place below the new directory that the
  -- parts of its path name, and none overwritten by another; there is no other file in the
  -- directory; and the file at every place outside of it is what it was.
  pub materialize-IsLaidOut :
      {S : Type 0} (contents : S → Place → Option Bytes) (fs : FileSystem S) (place : Text → Place)
      (laws : Laws fs contents place) (job_text root : Text) (s s' : S) (dir : Text)
      → materialize fs manifest job_text v root s ≡ ok (s', dir)
      → IsLaidOut contents fs place laws manifest v s s' dir
  materialize-IsLaidOut contents fs place laws job_text root s s' dir h =
      made-IsLaidOut contents fs place laws manifest v s s' dir accepted-DistinctPaths
        accepted-ArePlain
        (materialize-AreMade contents fs place laws manifest job_text v root s (s', dir) h)
