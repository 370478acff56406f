-- ===== src/Tests/Files.antt =====
-- A file system in memory, and a workspace made in it.
use rust_daily.Model.Path.Safe.{resolve, resolve-normal}
use rust_daily.Model.Path.{
  normal, root_dir, later_components, cur_dir, Component, slash, first_components, components,
}
use rust_daily.Model.Types.{generated_test_target}
use rust_daily.Text.Splitting.{split-append}
use rust_daily.DependencySet.{DependencySet}
use rust_daily.Text.Laws.{text_eq_refl, text_eq→eq}
use rust_daily.Base.{
  ◌&&◌, and-eq-true, false, arith, subst, Bool, true, map, is_empty, ◌++◌, inr, inl, if◌then◌else◌,
  Bool-cases, ◌∙◌, sym, Option, ◌≢◌, Result, ok-injective, List, ap, ◌≡◌, [], ◌∷◌, none, some, ok,
  err, refl,
}
use rust_daily.Runner.Capture.{ErrorKind, other_kind}
use rust_daily.Text.Utf8.{as_bytes, encode_char, Bytes}
use rust_daily.Text.{split, replace, Text, codes, text_eq}
use rust_daily.Workspace.{
  write_compile_fail_case, parent, write_file, write_files, create_parent, prepare_workspace,
  write_mode_cases, write_cases, materialize, FileSystem, join_path,
}
use rust_daily.Workspace.Disk.{Place, Laws}
use rust_daily.Tests.{test_limits, compile_fail_request, compile_fail_validated}
use rust_daily.Tests.Validation.{test_limits-IsSmall, compile_fail_accepted}
use rust_daily.Workspace.Layout.{IsLaidOut}
use rust_daily.Workspace.Writes.{Placed}
use rust_daily.Workspace.Accepted.{materialize-IsLaidOut}

-- Two places are the same.
place_eq : Place → Place → Bool
place_eq [] [] = true
place_eq [] (d ∷ ds) = false
place_eq (n ∷ ns) [] = false
place_eq (n ∷ ns) (d ∷ ds) = text_eq n d && place_eq ns ds

place_eq_refl : (q : Place) → place_eq q q ≡ true
unfolding place_eq
place_eq_refl [] = refl
place_eq_refl (n ∷ ns) = ground (arith, text_eq_refl n, place_eq_refl ns)

place_eq→eq : (p q : Place) → place_eq p q ≡ true → p ≡ q
unfolding place_eq
place_eq→eq [] [] h = refl
place_eq→eq [] (d ∷ ds) h = cc
place_eq→eq (n ∷ ns) [] h = cc
place_eq→eq (n ∷ ns) (d ∷ ds) h =
    let (e, es) = and-eq-true (text_eq n d) (place_eq ns ds) h in
    cc (text_eq→eq n d e, place_eq→eq ns ds es)

look_up : List Placed → Place → Option Bytes
look_up [] q = none
look_up (i ∷ is) q = if place_eq i.0 q then some i.1 else look_up is q

-- No file here is a link, so a path leads where its components say.
unfoldable place : Text → Place
place path = resolve [] (components path)

-- Only an empty file system has room for a temporary directory.
new_directory : List Placed → Result ErrorKind (List Placed × Text)
new_directory [] = ok ([], codes "/w/t")
new_directory (i ∷ is) = err other_kind

abbrev memory : FileSystem (List Placed)
memory = record {
  create_dir_all = λ dir s. ok s;
  tempdir_in = λ root prefix s. new_directory s;
  write = λ path b s. ok ((place path, b) ∷ s);
}

found : (at : Place) (b : Bytes) (s : List Placed) → look_up ((at, b) ∷ s) at ≡ some b
unfolding look_up
found at b s = rw (place_eq_refl at) refl

passed_over :
    (at : Place) (b : Bytes) (s : List Placed) (q : Place)
    → q ≢ at
    → look_up ((at, b) ∷ s) q ≡ look_up s q
unfolding look_up
passed_over at b s q n = elim (Bool-cases (place_eq at q)) [
  | inl e ↦ absurd (n (sym (place_eq→eq at q e)))
  | inr e ↦ rw e refl
]

made_fresh :
    (s s' : List Placed) (dir : Text)
    → new_directory s ≡ ok (s', dir)
    → (s ≡ []) × (s' ≡ []) × (dir ≡ codes "/w/t")
unfolding new_directory
made_fresh [] s' dir h =
    (refl, sym (ap (λ r. r.0) (ok-injective _ _ h)), sym (ap (λ r. r.1) (ok-injective _ _ h)))
made_fresh (i ∷ is) s' dir h = cc

-- Where all components are names, the first part of a path is read as every other.
first-later :
    (ps ns : List Text) → first_components ps ≡ map normal ns → later_components ps ≡ map normal ns
unfolding first_components later_components
first-later [] ns h = h
first-later (p ∷ ps) ns h = elim (Bool-cases (is_empty p)) [
  | inl e ↦ let h' : root_dir ∷ later_components ps ≡ map normal ns = rw e at h in wrong ns h'
  | inr e ↦ elim (Bool-cases (text_eq p (codes "."))) [
    | inl d ↦
        let h' : cur_dir ∷ later_components ps ≡ map normal ns = rw (e, d) at h in wrong_dot ns h'
    | inr d ↦ let h' = rw (e, d) at h in rw (e, d) h'
  ]
]
  where
    wrong : {P : Type 0} {cs : List Component} (ns : List Text) → root_dir ∷ cs ≡ map normal ns → P
    wrong [] h = absurd (cc)
    wrong (n ∷ ns) h = absurd (cc)

    wrong_dot :
        {P : Type 0} {cs : List Component} (ns : List Text) → cur_dir ∷ cs ≡ map normal ns → P
    wrong_dot [] h = absurd (cc)
    wrong_dot (n ∷ ns) h = absurd (cc)

later_of_names :
    (path : Text) (ns : List Text)
    → components path ≡ map normal ns
    → later_components (split slash path) ≡ map normal ns
unfolding components
later_of_names [] ns h = unfold later_components split in h
later_of_names (c ∷ s) ns h = first-later (split slash (c ∷ s)) ns h

home_plain :
    (path : Text) (ns : List Text)
    → components path ≡ map normal ns
    → place (join_path (codes "/w/t") path) ≡ codes "w" ∷ codes "t" ∷ ns
unfolding place components first_components later_components text_eq
home_plain path ns h =
    let parts : split slash (codes "/w/t" ++ slash ∷ path)
        ≡ [] ∷ codes "w" ∷ codes "t" ∷ split slash path =
      split-append slash (codes "/w/t") path ∙ unfold split in refl in
    rw (parts, later_of_names path ns h) (resolve-normal (codes "w" ∷ codes "t" ∷ []) ns)

home_place : place (codes "/w/t") ≡ codes "w" ∷ codes "t" ∷ []
unfolding place components first_components later_components split text_eq
home_place = refl

memory_laws : Laws memory look_up place
unfolding look_up
memory_laws = record {
  write_stores = λ path b s s' h.
      ap (λ x. look_up x (place path)) (sym (ok-injective _ _ h)) ∙ found (place path) b s;
  write_keeps = λ path b s s' h absent q n.
      ap (λ x. look_up x q) (sym (ok-injective _ _ h)) ∙ passed_over (place path) b s q n;
  create_keeps = λ dir s s' h q. ap (λ x. look_up x q) (sym (ok-injective _ _ h));
  tempdir_keeps = λ root prefix s s' dir h q.
      let (e, e', d) = made_fresh s s' dir h in ap (λ x. look_up x q) (e' ∙ sym e);
  tempdir_fresh = λ root prefix s s' dir h ns.
      let (e, e', d) = made_fresh s s' dir h in ap (λ x. look_up x (place dir ++ ns)) e';
  tempdir_plain = λ root prefix s s' dir h path ns c.
      let (e, e', d) = made_fresh s s' dir h in
      subst (λ t. place (join_path t path) ≡ place t ++ ns) (sym d)
        (home_plain path ns c ∙ ap (λ t. t ++ ns) (sym home_place));
}

abbrev manifest : DependencySet → Text
manifest set = codes "m"

-- Newest first.
abbrev laid_out : List Placed
laid_out =
    (codes "w" ∷ codes "t" ∷ codes "tests" ∷ codes "compile_fail_no_copy.rs" ∷ [], codes "3")
    ∷ (codes "w" ∷ codes "t" ∷ codes "tests" ∷ codes "a.rs" ∷ [], codes "1")
    ∷ (codes "w" ∷ codes "t" ∷ codes "src" ∷ codes "lib.rs" ∷ [], codes "22")
    ∷ (codes "w" ∷ codes "t" ∷ codes "Cargo.toml" ∷ [], codes "m")
    ∷ []

workspace_made :
    materialize memory manifest (codes "7") compile_fail_validated (codes "/w") []
    ≡ ok (laid_out, codes "/w/t")
unfolding materialize prepare_workspace write_file write_files write_cases write_mode_cases
    create_parent write_compile_fail_case parent generated_test_target replace as_bytes encode_char
    new_directory place components first_components later_components split text_eq
workspace_made = refl

materialize-IsLaidOut_example :
    IsLaidOut look_up memory place memory_laws manifest compile_fail_validated [] laid_out
      (codes "/w/t")
materialize-IsLaidOut_example =
    materialize-IsLaidOut test_limits test_limits-IsSmall compile_fail_request
      compile_fail_validated manifest compile_fail_accepted look_up memory place memory_laws
      (codes "7") (codes "/w") [] laid_out (codes "/w/t") workspace_made
