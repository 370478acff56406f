-- ===== src/Workspace/Layout.antt =====
-- The files that the workspace of a validated request consists of.
use rust_daily.Model.Path.{normal, slash, components}
use mathlib.Core.List.{append_cancel_left}
use rust_daily.Text.Splitting.{join-split}
use rust_daily.DependencySet.{DependencySet}
use rust_daily.Base.{
  All-map, ◌∙◌, sym, ap, ok-injective, map_err-eq-ok, ◌++◌, subst, map, ◌≢◌, All, map_err, List,
  Option, ◌≡◌, [], ◌∷◌, none, some, ok, on_ok,
}
use rust_daily.Model.Types.{
  ValidatedCompileFailCase, ValidatedRunRequest, RunMode, cargo_test, compile_fail,
}
use rust_daily.Text.Utf8.{as_bytes, Bytes}
use rust_daily.Text.{join, split, Text, codes}
use rust_daily.Workspace.{
  materialize, create_temp_dir, prepare_workspace, write_mode_cases, write_file, create_root,
  write_files, DependencySet, join_path, FileSystem,
}
use rust_daily.Workspace.Disk.{Place, Laws}
use rust_daily.Workspace.Writes.{
  AreAbsent, Placed, DistinctPlaces, write_file-IsWritten, write_files-IsWritten, below, file_item,
  case_item, write_cases-IsWritten, Item, DistinctPaths, IsWritten,
}

-- The generated targets: one for each case of a compile-fail request.
abbrev pub case_items : RunMode → List ValidatedCompileFailCase → List Item
case_items cargo_test cs = []
case_items compile_fail cs = map case_item cs

-- The manifest, the files and the generated targets, by their paths in the workspace.
abbrev pub layout : (DependencySet → Text) → ValidatedRunRequest → List Item
layout manifest v =
    (codes "Cargo.toml", as_bytes (manifest v.dependency_set))
    ∷ (map file_item v.files ++ case_items v.mode v.compile_fail_cases)

-- The path consists of names, and is read as these.
abbrev pub IsPlain : Text → Type 0
IsPlain path = components path ≡ map normal (split slash path)

split-injective : (p q : Text) → split slash p ≡ split slash q → p ≡ q
split-injective p q e = sym (join-split slash p) ∙ ap (join (slash ∷ [])) e ∙ join-split slash q

-- Each item's path leads from the directory to the entry that its parts name.
abbrev LeadBelow : (Text → Place) → Text → List Item → Type 0
LeadBelow place dir = All (λ (i : Item). place (join_path dir i.0) ≡ place dir ++ split slash i.0)

module _ (place : Text → Place) (dir : Text) where
  below-DistinctPlaces :
      (items : List Item)
      → LeadBelow place dir items
      → DistinctPaths items
      → DistinctPlaces (below place dir items)
  below-DistinctPlaces [] l d = tt
  below-DistinctPlaces (i ∷ is) (e, l) (a, d) = (All-below is l a, below-DistinctPlaces is l d)
    where
      All-below :
          (is : List Item)
          → LeadBelow place dir is
          → All (λ (j : Item). i.0 ≢ j.0) is
          → All (λ (j : Placed). place (join_path dir i.0) ≢ j.0) (below place dir is)
      All-below [] l a = tt
      All-below (j ∷ is) (f, l) (n, a) = (
        (λ z. n (split-injective i.0 j.0 (append_cancel_left (place dir) _ _ (sym e ∙ z ∙ f)))),
        All-below is l a,
      )

module _ {S : Type 0} (contents : S → Place → Option Bytes) (fs : FileSystem S)
    (place : Text → Place) (laws : Laws fs contents place) (manifest : DependencySet → Text) where
  -- A workspace that consists of exactly the layout's files, and a file system that is otherwise
  -- what it was.
  pub record IsLaidOut (v : ValidatedRunRequest) (s s' : S) (dir : Text) : Type 0 where
    pub present :
        All
          (λ (i : Item). contents s' (place dir ++ split slash i.0) ≡ some i.1)
          (layout manifest v)
    pub nothing_else :
        (ns : List Text)
        → All (λ (i : Item). ns ≢ split slash i.0) (layout manifest v)
        → contents s' (place dir ++ ns) ≡ none
    pub others_kept :
        (q : Place) → ((ns : List Text) → q ≢ place dir ++ ns) → contents s' q ≡ contents s q

  mode_cases-IsWritten :
      (dir : Text) (mode : RunMode) (cs : List ValidatedCompileFailCase) (s s' : S)
      → write_mode_cases fs mode dir cs s ≡ ok s'
      → IsWritten contents (below place dir (case_items mode cs)) s s'
  unfolding write_mode_cases
  mode_cases-IsWritten dir cargo_test cs s s' h = record {
    stores = λ d m. tt;
    keeps = λ d m q n. ap (λ x. contents x q) (sym (ok-injective _ _ h));
  }
  mode_cases-IsWritten dir compile_fail cs s s' h =
      write_cases-IsWritten contents fs place laws dir cs s s' h

  -- The items written below a new directory of a state in which the files are those of `s`.
  abbrev AreMade : List Item → S → S → Text → Type 0
  AreMade items s s' dir =
      (mid : S) × IsWritten contents (below place dir items) mid s'
      × ((q : Place) → contents mid q ≡ contents s q)
      × ((ns : List Text) → contents mid (place dir ++ ns) ≡ none)
      × ((path : Text) → IsPlain path → place (join_path dir path) ≡ place dir ++ split slash path)

  prepared-AreMade :
      (job_text : Text) (v : ValidatedRunRequest) (root : Text) (items : List Item) (s s' : S)
      (r : S × Text)
      → prepare_workspace fs manifest job_text v root s ≡ ok r
      → IsWritten contents (below place r.1 items) r.0 s'
      → AreMade
          ((codes "Cargo.toml", as_bytes (manifest v.dependency_set))
            ∷ (map file_item v.files ++ items))
          s
          s'
          r.1
  unfolding prepare_workspace
  prepared-AreMade job_text v root items s s' r h =
      on_ok (map_err (create_root root) (fs.create_dir_all root s)) _ h λ s1 e1 h.
        on_ok
          (map_err (create_temp_dir root)
            (fs.tempdir_in root (codes "job-" ++ (job_text ++ codes "-")) s1))
          _ h
          λ (s2, dir) e2 h.
            on_ok
              (write_file fs (join_path dir (codes "Cargo.toml"))
                (as_bytes (manifest v.dependency_set)) s2)
              _ h
              λ s3 e3 h. on_ok (write_files fs dir v.files s3) _ h λ s4 e4 z.
                let temp = map_err-eq-ok _ _ e2 in
                subst
                  (λ r.
                    IsWritten contents (below place r.1 items) r.0 s'
                    → AreMade
                        ((codes "Cargo.toml", as_bytes (manifest v.dependency_set))
                          ∷ (map file_item v.files ++ items))
                        s s' r.1)
                  (ok-injective _ _ z)
                  (λ w. (
                    s2,
                    write_file-IsWritten contents fs place laws _ _ _ s2 s3 s' e3 (
                        write_files-IsWritten contents fs place laws dir v.files items s3 s4 s' e4
                          w),
                    (λ q.
                        laws.tempdir_keeps root _ s1 s2 dir temp q
                        ∙ laws.create_keeps root s s1 (map_err-eq-ok _ _ e1) q),
                    laws.tempdir_fresh root _ s1 s2 dir temp,
                    (λ path plain. laws.tempdir_plain root _ s1 s2 dir temp path _ plain),
                  ))

  pub materialize-AreMade :
      (job_text : Text) (v : ValidatedRunRequest) (root : Text) (s : S) (r : S × Text)
      → materialize fs manifest job_text v root s ≡ ok r
      → AreMade (layout manifest v) s r.0 r.1
  unfolding materialize
  materialize-AreMade job_text v root s r h =
      on_ok (prepare_workspace fs manifest job_text v root s) _ h λ t e h.
        on_ok (write_mode_cases fs v.mode t.1 v.compile_fail_cases t.0) _ h λ s5 e5 z.
          subst (λ r. AreMade (layout manifest v) s r.0 r.1) (ok-injective _ _ z)
            (prepared-AreMade job_text v root _ s s5 t e
              (mode_cases-IsWritten t.1 v.mode v.compile_fail_cases t.0 s5 e5))

  pub made-IsLaidOut :
      (v : ValidatedRunRequest) (s s' : S) (dir : Text)
      → DistinctPaths (layout manifest v)
      → All (λ (i : Item). IsPlain i.0) (layout manifest v)
      → AreMade (layout manifest v) s s' dir
      → IsLaidOut v s s' dir
  made-IsLaidOut v s s' dir d plain (mid, w, kept, fresh, leads) =
      let l : LeadBelow place dir (layout manifest v) =
        All-map (λ (i : Item) p. leads i.0 p) (layout manifest v) plain in
      let places = below-DistinctPlaces place dir (layout manifest v) l d in
      let absent = absent_below (layout manifest v) l in
      record {
        present = present_below (layout manifest v) l (w.stores places absent);
        nothing_else =
            λ ns n. w.keeps places absent _ (apart_below ns (layout manifest v) l n) ∙ fresh ns;
        others_kept = λ q n. w.keeps places absent q (outside q n (layout manifest v) l) ∙ kept q;
      }
    where
      absent_below :
          (is : List Item) → LeadBelow place dir is → AreAbsent contents mid (below place dir is)
      absent_below [] l = tt
      absent_below (i ∷ is) (f, l) =
          (ap (contents mid) f ∙ fresh (split slash i.0), absent_below is l)

      present_below :
          (is : List Item)
          → LeadBelow place dir is
          → All (λ (i : Placed). contents s' i.0 ≡ some i.1) (below place dir is)
          → All (λ (i : Item). contents s' (place dir ++ split slash i.0) ≡ some i.1) is
      present_below [] l h = tt
      present_below (i ∷ is) (f, l) (e, h) = (ap (contents s') (sym f) ∙ e, present_below is l h)

      apart_below :
          (ns : List Text) (is : List Item)
          → LeadBelow place dir is
          → All (λ (i : Item). ns ≢ split slash i.0) is
          → All (λ (i : Placed). place dir ++ ns ≢ i.0) (below place dir is)
      apart_below ns [] l h = tt
      apart_below ns (i ∷ is) (f, l) (n, h) =
          ((λ e. n (append_cancel_left (place dir) _ _ (e ∙ f))), apart_below ns is l h)

      outside :
          (q : Place)
          → ((ns : List Text) → q ≢ place dir ++ ns)
          → (is : List Item) → LeadBelow place dir is
          → All (λ (i : Placed). q ≢ i.0) (below place dir is)
      outside q n [] l = tt
      outside q n (i ∷ is) (f, l) = ((λ e. n (split slash i.0) (e ∙ f)), outside q n is l)
