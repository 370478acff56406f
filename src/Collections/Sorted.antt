-- ===== src/Collections/Sorted.antt =====
-- The keys of a map and the elements of a set stay strictly ascending, and what a predicate says of
-- the entries.
use rust_daily.Base.{◌≡◌, subst, inl, inr, [], ◌∷◌, Ordering, All, All-map}
use rust_daily.Order.{Ord, Ordering-cases}
use rust_daily.Collections.{BTreeMap, BTreeSet, insert, set_insert}

module _ {ℓ} {K : Type ℓ} ⦃o : Ord K⦄ where
  abbrev pub IsSortedMap {κ} : {V : Type κ} → BTreeMap K V → Type (ℓ ⊔ κ)
  IsSortedMap [] = Unit
  IsSortedMap ((k, v) ∷ m) = All (λ e. o.cmp k e.0 ≡ Ordering.lt) m × IsSortedMap m

  abbrev pub IsSortedSet : BTreeSet K → Type ℓ
  IsSortedSet [] = Unit
  IsSortedSet (k ∷ s) = All (λ e. o.cmp k e ≡ Ordering.lt) s × IsSortedSet s

  -- What holds of the entries and of the new one holds of the entries after an insertion.
  pub insert-All {κ κ'} :
      {V : Type κ} (P : K × V → Type κ') (k : K) (v : V) (m : BTreeMap K V)
      → P (k, v)
      → All P m
      → All P (insert k v m).1
  unfolding insert
  insert-All P k v [] p h = (p, tt)
  insert-All P k v ((j, w) ∷ m) p (q, h) = elim (Ordering-cases (o.cmp k j)) [
    | inl e ↦ rw (e, insert) (p, (q, h))
    | inr (inl e) ↦ rw (e, insert) (subst (λ x. P (x, v)) ((o.cmp_eq k j).0 e) p, h)
    | inr (inr e) ↦ rw (e, insert) (q, insert-All P k v m p h)
  ]

  pub insert-IsSortedMap {κ} :
      {V : Type κ} (k : K) (v : V) (m : BTreeMap K V) → IsSortedMap m → IsSortedMap (insert k v m).1
  unfolding insert
  insert-IsSortedMap k v [] h = (tt, tt)
  insert-IsSortedMap k v ((j, w) ∷ m) (a, h) = elim (Ordering-cases (o.cmp k j)) [
    | inl e ↦ rw (e, insert) ((e, All-map (λ x l. o.cmp_trans k j x.0 e l) m a), (a, h))
    | inr (inl e) ↦ rw (e, insert) (a, h)
    | inr (inr e) ↦
        rw (e, insert)
          (
            insert-All (λ x. o.cmp j x.0 ≡ Ordering.lt) k v m ((o.cmp_flip k j).0 e) a,
            insert-IsSortedMap k v m h,
          )
  ]

  pub set_insert-All {κ} :
      (P : K → Type κ) (k : K) (s : BTreeSet K) → P k → All P s → All P (set_insert k s).1
  unfolding set_insert
  set_insert-All P k [] p h = (p, tt)
  set_insert-All P k (j ∷ s) p (q, h) = elim (Ordering-cases (o.cmp k j)) [
    | inl e ↦ rw (e, set_insert) (p, (q, h))
    | inr (inl e) ↦ rw (e, set_insert) (q, h)
    | inr (inr e) ↦ rw (e, set_insert) (q, set_insert-All P k s p h)
  ]

  pub set_insert-IsSortedSet :
      (k : K) (s : BTreeSet K) → IsSortedSet s → IsSortedSet (set_insert k s).1
  unfolding set_insert
  set_insert-IsSortedSet k [] h = (tt, tt)
  set_insert-IsSortedSet k (j ∷ s) (a, h) = elim (Ordering-cases (o.cmp k j)) [
    | inl e ↦ rw (e, set_insert) ((e, All-map (λ x l. o.cmp_trans k j x e l) s a), (a, h))
    | inr (inl e) ↦ rw (e, set_insert) (a, h)
    | inr (inr e) ↦
        rw (e, set_insert)
          (
            set_insert-All (λ x. o.cmp j x ≡ Ordering.lt) k s ((o.cmp_flip k j).0 e) a,
            set_insert-IsSortedSet k s h,
          )
  ]
