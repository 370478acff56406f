-- ===== src/Workspace/Writes.antt =====
-- Sequences of writes: what they store, and what they leave alone.
use rust_daily.Model.Path.{slash}
use rust_daily.Model.Request.{generated_path}
use rust_daily.Model.Types.{ValidatedCompileFailCase, SubmittedPath, SubmittedContent}
use rust_daily.Collections.{BTreeMap}
use rust_daily.Base.{
  append_assoc, subst, ◌++◌, sym, ap, map, ◌≢◌, ◌∙◌, All, map_err-eq-ok, ok-injective, Option, List,
  ◌≡◌, [], ◌∷◌, none, some, ok, on_ok,
}
use rust_daily.Text.Utf8.{as_bytes, Bytes}
use rust_daily.Text.{codes, Text}
use rust_daily.Workspace.{
  test_target_name, write_compile_fail_case, write_cases, write_file, join_path, parent,
  write_files, create_parent, FileSystem,
}
use rust_daily.Workspace.Disk.{Place, Laws}

-- A file: its path and its bytes.
abbrev pub Item : Type 0
Item = Text × Bytes

-- A file at its place.
abbrev pub Placed : Type 0
Placed = Place × Bytes

-- The items below a directory, at the places where their paths lead.
abbrev pub below : (Text → Place) → Text → List Item → List Placed
below place dir = map (λ i. (place (join_path dir i.0), i.1))

abbrev pub file_item : SubmittedPath × SubmittedContent → Item
file_item f = (f.0.as_str, as_bytes f.1.as_bytes)

abbrev pub case_item : ValidatedCompileFailCase → Item
case_item c = (generated_path c.name, as_bytes c.content.as_bytes)

abbrev pub DistinctPaths : List Item → Type 0
DistinctPaths [] = Unit
DistinctPaths (i ∷ is) = All (λ (j : Item). i.0 ≢ j.0) is × DistinctPaths is

abbrev pub DistinctPlaces : List Placed → Type 0
DistinctPlaces [] = Unit
DistinctPlaces (i ∷ is) = All (λ (j : Placed). i.0 ≢ j.0) is × DistinctPlaces is

module _ {S : Type 0} (contents : S → Place → Option Bytes) where
  -- There is no file at the places of the items.
  abbrev pub AreAbsent : S → List Placed → Type 0
  AreAbsent s = All (λ (i : Placed). contents s i.0 ≡ none)

  -- The files `items` written into the state `s`, with `s'` behind the last one, if all are new.
  pub record IsWritten (items : List Placed) (s s' : S) : Type 0 where
    pub stores :
        DistinctPlaces items
        → AreAbsent s items
        → All (λ (i : Placed). contents s' i.0 ≡ some i.1) items
    pub keeps :
        DistinctPlaces items
        → AreAbsent s items
        → (q : Place) → All (λ (i : Placed). q ≢ i.0) items
        → contents s' q ≡ contents s q

  still-AreAbsent :
      (at : Place) (s mid : S) (items : List Placed)
      → ((q : Place) → q ≢ at → contents mid q ≡ contents s q)
      → All (λ (j : Placed). at ≢ j.0) items
      → AreAbsent s items
      → AreAbsent mid items
  still-AreAbsent at s mid [] k a n = tt
  still-AreAbsent at s mid (j ∷ is) k (e, a) (n, ns) =
      (k j.0 (λ z. e (sym z)) ∙ n, still-AreAbsent at s mid is k a ns)

  cons-IsWritten :
      (at : Place) (b : Bytes) (items : List Placed) (s mid s' : S)
      → contents mid at ≡ some b
      → (contents s at ≡ none → (q : Place) → q ≢ at → contents mid q ≡ contents s q)
      → IsWritten items mid s'
      → IsWritten ((at, b) ∷ items) s s'
  cons-IsWritten at b items s mid s' e k w = record {
    stores = λ (a, d) (n, ns).
        let absent = still-AreAbsent at s mid items (k n) a ns in
        (w.keeps d absent at a ∙ e, w.stores d absent);
    keeps = λ (a, d) (n, ns) q (p, m).
        w.keeps d (still-AreAbsent at s mid items (k n) a ns) q m ∙ k n q p;
  }

  module _ (fs : FileSystem S) (place : Text → Place) (laws : Laws fs contents place) where
    create_parent-keeps :
        (p : Option Text) (s s' : S)
        → create_parent fs p s ≡ ok s'
        → (q : Place) → contents s' q ≡ contents s q
    unfolding create_parent
    create_parent-keeps none s s' h q = ap (λ x. contents x q) (sym (ok-injective _ _ h))
    create_parent-keeps (some p) s s' h q = laws.create_keeps p s s' (map_err-eq-ok _ _ h) q

    -- One file written before others.
    pub write_file-IsWritten :
        (path : Text) (b : Bytes) (items : List Placed) (s mid s' : S)
        → write_file fs path b s ≡ ok mid
        → IsWritten items mid s'
        → IsWritten ((place path, b) ∷ items) s s'
    unfolding write_file
    write_file-IsWritten path b items s mid s' h w =
        on_ok (create_parent fs (parent path) s) _ h λ t e z.
          let written = map_err-eq-ok _ _ z in
          cons-IsWritten (place path) b items s mid s' (laws.write_stores path b t mid written)
            (λ n q m.
              laws.write_keeps path b t mid written
                (create_parent-keeps (parent path) s t e (place path) ∙ n) q m
              ∙ create_parent-keeps (parent path) s t e q)
            w

    -- The files of a request, written before others.
    pub write_files-IsWritten :
        (dir : Text) (files : BTreeMap SubmittedPath SubmittedContent) (items : List Item)
        (s mid s' : S)
        → write_files fs dir files s ≡ ok mid
        → IsWritten (below place dir items) mid s'
        → IsWritten (below place dir (map file_item files ++ items)) s s'
    unfolding write_files
    write_files-IsWritten dir [] items s mid s' h w =
        subst (λ x. IsWritten (below place dir items) x s') (sym (ok-injective _ _ h)) w
    write_files-IsWritten dir ((path, content) ∷ files) items s mid s' h w =
        on_ok (write_file fs (join_path dir path.as_str) (as_bytes content.as_bytes) s) _ h λ t e z.
          write_file-IsWritten _ _ _ s t s' e (write_files-IsWritten dir files items t mid s' z w)

    pub write_cases-IsWritten :
        (dir : Text) (cs : List ValidatedCompileFailCase) (s s' : S)
        → write_cases fs dir cs s ≡ ok s'
        → IsWritten (below place dir (map case_item cs)) s s'
    unfolding write_cases write_compile_fail_case
    write_cases-IsWritten dir [] s s' h = record {
      stores = λ d m. tt;
      keeps = λ d m q n. ap (λ x. contents x q) (sym (ok-injective _ _ h));
    }
    write_cases-IsWritten dir (c ∷ cs) s s' h =
        on_ok (write_compile_fail_case fs dir c s) _ h λ t e z.
          write_file-IsWritten _ _ _ s t s'
            (subst (λ p. write_file fs p (as_bytes c.content.as_bytes) s ≡ ok t)
              (append_assoc dir (slash ∷ codes "tests")
                (slash ∷ (test_target_name c ++ codes ".rs")))
              e)
            (write_cases-IsWritten dir cs t s' z)
