-- ===== src/Collections/Contents.antt =====
-- An insertion that meets no equal key adds exactly the new entry.
use mathlib.Core.List.{Perm}
use mathlib.Core.List.Perm
use rust_daily.Base.{false, All, ◌≢◌, ◌≡◌, inl, inr, true, [], ◌∷◌, none, arith}
use rust_daily.Order.{Ord, Ordering-cases}
use rust_daily.Collections.{first_common, set_contains, BTreeMap, BTreeSet, insert, set_insert}

module _ {ℓ} {K : Type ℓ} ⦃o : Ord K⦄ where
  pub insert-perm {κ} :
      {V : Type κ} (k : K) (v : V) (m : BTreeMap K V)
      → (insert k v m).0 ≡ none
      → Perm (insert k v m).1 ((k, v) ∷ m)
  unfolding insert
  insert-perm k v [] h = Perm.refl _
  insert-perm k v ((j, w) ∷ m) h = elim (Ordering-cases (o.cmp k j)) [
    | inl e ↦ rw (e, insert) (Perm.refl _)
    | inr (inl e) ↦ absurd (ground arith)
    | inr (inr e) ↦
        rw (e, insert)
          (Perm.trans (Perm.cons (j, w) (insert-perm k v m (ground arith)))
            (Perm.swap (k, v) (j, w) m))
  ]

  pub set_insert-perm :
      (k : K) (s : BTreeSet K) → (set_insert k s).0 ≡ true → Perm (set_insert k s).1 (k ∷ s)
  unfolding set_insert
  set_insert-perm k [] h = Perm.refl _
  set_insert-perm k (j ∷ s) h = elim (Ordering-cases (o.cmp k j)) [
    | inl e ↦ rw (e, set_insert) (Perm.refl _)
    | inr (inl e) ↦ absurd (ground arith)
    | inr (inr e) ↦
        rw (e, set_insert)
          (Perm.trans (Perm.cons j (set_insert-perm k s (ground arith))) (Perm.swap k j s))
  ]

  -- What holds of all entries after such an insertion held of the new one and of all before.
  pub All-insert {κ κ'} :
      {V : Type κ} (P : K × V → Type κ') (k : K) (v : V) (m : BTreeMap K V)
      → (insert k v m).0 ≡ none
      → All P (insert k v m).1
      → P (k, v) × All P m
  unfolding insert
  All-insert P k v [] n h = h
  All-insert P k v ((j, w) ∷ m) n h = elim (Ordering-cases (o.cmp k j)) [
    | inl e ↦ rw (e, insert) at h
    | inr (inl e) ↦ absurd (ground arith)
    | inr (inr e) ↦
        let (q, t) : P (j, w) × All P (insert k v m).1 = rw (e, insert) at h in
        let (p, r) = All-insert P k v m (ground arith) t in (p, (q, r))
  ]

  not_contained : (k : K) (s : BTreeSet K) → set_contains k s ≡ false → All (λ e. k ≢ e) s
  unfolding set_contains
  not_contained k [] h = tt
  not_contained k (j ∷ s) h = elim (Ordering-cases (o.cmp k j)) [
    | inl e ↦ ((λ q. ground (arith, (o.cmp_eq k j).1 q)), not_contained k s (ground arith))
    | inr (inl e) ↦ absurd (ground arith)
    | inr (inr e) ↦ ((λ q. ground (arith, (o.cmp_eq k j).1 q)), not_contained k s (ground arith))
  ]

  -- Sets with no common element: no element of the one equals one of the other.
  pub first_common-apart :
      (s t : BTreeSet K) → first_common s t ≡ none → All (λ a. All (λ b. a ≢ b) t) s
  unfolding first_common
  first_common-apart [] t h = tt
  first_common-apart (k ∷ s) t h =
      let off : set_contains k t ≡ false = ground arith in
      (not_contained k t off, first_common-apart s t (ground arith))

  pub All-set_insert {κ} :
      (P : K → Type κ) (k : K) (s : BTreeSet K)
      → (set_insert k s).0 ≡ true
      → All P (set_insert k s).1
      → P k × All P s
  unfolding set_insert
  All-set_insert P k [] n h = h
  All-set_insert P k (j ∷ s) n h = elim (Ordering-cases (o.cmp k j)) [
    | inl e ↦ rw (e, set_insert) at h
    | inr (inl e) ↦ absurd (ground arith)
    | inr (inr e) ↦
        let (q, t) : P j × All P (set_insert k s).1 = rw (e, set_insert) at h in
        let (p, r) = All-set_insert P k s (ground arith) t in (p, (q, r))
  ]
