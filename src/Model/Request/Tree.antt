-- ===== src/Model/Request/Tree.antt =====
-- `validate_path_tree` in terms of paths that lie apart.
use mathlib.Core.HLevel.{¬_prop}
use mathlib.Core.List.{
  Perm, Mem, Pairwise, mem-cons, mem-cons_self, mem-cons_of_mem, not-mem-nil, Pairwise-cons,
}
use mathlib.Core.List.Perm
use mathlib.Core.Logic.Or
use rust_daily.Base.{
  ◌≡◌, ◌↔◌, ◌⊎◌, inl, inr, refl, false, List, [], ◌∷◌, arith, any, any-eq-false,
  any-eq-false_of_All, All, All-map, Bool-cases, ok, on_unit, on_pass,
}
use rust_daily.Model.Path.Collide.{IsBelow, paths_collide_iff}
use rust_daily.Model.Path.{paths_collide}
use rust_daily.Model.Request.{
  check_against, check_pairs, check_generated, generated_path, path_texts, validate_path_tree,
}
use rust_daily.Model.Types.{SubmittedPath, SubmittedContent, ValidatedCompileFailCase}
use rust_daily.Collections.{BTreeMap}
use rust_daily.Text.{Text}

-- Neither path is the other or lies below it.
abbrev pub AreApart : Text → Text → Type 0
AreApart p q = ¬ (IsBelow p q ⊎ IsBelow q p)

abbrev pub PairwiseApart : List Text → Type 0
PairwiseApart [] = Unit
PairwiseApart (p ∷ ps) = All (AreApart p) ps × PairwiseApart ps

-- No submitted file is, contains or lies below a file that the runner generates.
abbrev pub LeaveTargets : List Text → List ValidatedCompileFailCase → Type 0
LeaveTargets ps = All (λ c. All (λ p. AreApart p (generated_path c.name)) ps)

apart_of_false : (p q : Text) → paths_collide p q ≡ false → AreApart p q
apart_of_false p q h b = ground (arith, (paths_collide_iff p q).1 b)

false_of_apart : (p q : Text) → AreApart p q → paths_collide p q ≡ false
false_of_apart p q a = elim (Bool-cases (paths_collide p q)) [
  | inl e ↦ absurd (a ((paths_collide_iff p q).0 e))
  | inr n ↦ n
]

against→apart : (p : Text) (qs : List Text) → check_against p qs ≡ ok tt → All (AreApart p) qs
unfolding check_against
against→apart p [] h = tt
against→apart p (q ∷ qs) h =
    on_pass (paths_collide p q) _ _ h λ t r. (apart_of_false p q t, against→apart p qs r)

apart→against : (p : Text) (qs : List Text) → All (AreApart p) qs → check_against p qs ≡ ok tt
unfolding check_against
apart→against p [] h = refl
apart→against p (q ∷ qs) (a, h) = rw (false_of_apart p q a) (apart→against p qs h)

pairs→apart : (ps : List Text) → check_pairs ps ≡ ok tt → PairwiseApart ps
unfolding check_pairs
pairs→apart [] h = tt
pairs→apart (p ∷ ps) h =
    on_unit (check_against p ps) _ h λ a r. (against→apart p ps a, pairs→apart ps r)

apart→pairs : (ps : List Text) → PairwiseApart ps → check_pairs ps ≡ ok tt
unfolding check_pairs
apart→pairs [] h = refl
apart→pairs (p ∷ ps) (a, h) = rw (apart→against p ps a) (apart→pairs ps h)

generated→apart :
    (ps : List Text) (cs : List ValidatedCompileFailCase)
    → check_generated ps cs ≡ ok tt
    → LeaveTargets ps cs
unfolding check_generated
generated→apart ps [] h = tt
generated→apart ps (c ∷ cs) h =
    on_pass (any (λ p. paths_collide p (generated_path c.name)) ps) _ _ h λ t r. (
      All-map (λ p. apart_of_false p (generated_path c.name)) ps (any-eq-false _ ps t),
      generated→apart ps cs r,
    )

apart→generated :
    (ps : List Text) (cs : List ValidatedCompileFailCase)
    → LeaveTargets ps cs
    → check_generated ps cs ≡ ok tt
unfolding check_generated
apart→generated ps [] h = refl
apart→generated ps (c ∷ cs) (a, h) =
    rw
      (any-eq-false_of_All (λ p. paths_collide p (generated_path c.name)) ps
        (All-map (λ p. false_of_apart p (generated_path c.name)) ps a))
      (apart→generated ps cs h)

-- `validate_path_tree` accepts exactly the files that lie pairwise apart, and apart from the
-- generated target of every case.
pub validate_path_tree_iff :
    (files : BTreeMap SubmittedPath SubmittedContent) (cases : List ValidatedCompileFailCase)
    → (validate_path_tree files cases ≡ ok tt)
      ↔ (PairwiseApart (path_texts files) × LeaveTargets (path_texts files) cases)
unfolding validate_path_tree
validate_path_tree_iff files cases = (
  λ h.
      on_unit (check_pairs (path_texts files)) _ h
        λ a r. (pairs→apart (path_texts files) a, generated→apart (path_texts files) cases r),
  λ (a, g). rw (apart→pairs (path_texts files) a) (apart→generated (path_texts files) cases g),
)

-- The relation does not depend on the order of the paths.
AreApart-prop : (p q : Text) → IsProp (AreApart p q)
AreApart-prop p q = ¬_prop

All-mem : (p : Text) (qs : List Text) → All (AreApart p) qs → (q : Text) → Mem q qs → AreApart p q
All-mem p [] h q m = absurd (not-mem-nil m)
All-mem p (x ∷ xs) (a, h) q m =
    Or.elim (AreApart-prop p q) (mem-cons.0 m) (λ e. rw e a) (All-mem p xs h q)

mem-All : (p : Text) (qs : List Text) → ((q : Text) → Mem q qs → AreApart p q) → All (AreApart p) qs
mem-All p [] f = tt
mem-All p (x ∷ xs) f = (f x mem-cons_self, mem-All p xs (λ q m. f q (mem-cons_of_mem x m)))

apart→Pairwise : (ps : List Text) → PairwiseApart ps → Pairwise AreApart ps
apart→Pairwise [] h = Pairwise.nil
apart→Pairwise (p ∷ ps) (a, h) = Pairwise.cons (All-mem p ps a) (apart→Pairwise ps h)

Pairwise→apart : (ps : List Text) → Pairwise AreApart ps → PairwiseApart ps
Pairwise→apart [] h = tt
Pairwise→apart (p ∷ ps) h = let (a, t) = Pairwise-cons.0 h in (mem-All p ps a, Pairwise→apart ps t)

AreApart-symm : (p q : Text) → AreApart p q → AreApart q p
AreApart-symm p q a (inl b) = a (inr b)
AreApart-symm p q a (inr b) = a (inl b)

pub PairwiseApart-perm : (ps qs : List Text) → Perm ps qs → PairwiseApart ps → PairwiseApart qs
PairwiseApart-perm ps qs m h =
    Pairwise→apart qs
      (Perm.pairwise {R = AreApart} AreApart-prop AreApart-symm m (apart→Pairwise ps h))
