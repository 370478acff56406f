-- ===== src/Collections/Fresh.antt =====
-- An insertion finds no equal key exactly if the key is new.
use rust_daily.Base.{
  ◌≡◌, ◌≢◌, refl, sym, inl, inr, true, [], ◌∷◌, none, arith, Ordering, All, All-map,
}
use rust_daily.Collections.Sorted.{IsSortedMap, IsSortedSet}
use rust_daily.Collections.{BTreeMap, BTreeSet, insert, set_insert}
use rust_daily.Order.{Ord, Ordering-cases}

module _ {ℓ} {K : Type ℓ} ⦃o : Ord K⦄ where
  pub ne_of_lt : (a b : K) → o.cmp a b ≡ Ordering.lt → b ≢ a
  ne_of_lt a b l e = ground (arith, (o.cmp_eq a b).1 (sym e))

  pub insert-fresh {κ} :
      {V : Type κ} (k : K) (v : V) (m : BTreeMap K V)
      → All (λ e. e.0 ≢ k) m
      → (insert k v m).0 ≡ none
  unfolding insert
  insert-fresh k v [] h = refl
  insert-fresh k v ((j, w) ∷ m) (n, h) = elim (Ordering-cases (o.cmp k j)) [
    | inl e ↦ rw (e, insert)
    | inr (inl e) ↦ absurd (n (sym ((o.cmp_eq k j).0 e)))
    | inr (inr e) ↦ rw (e, insert) (insert-fresh k v m h)
  ]

  pub fresh-insert {κ} :
      {V : Type κ} (k : K) (v : V) (m : BTreeMap K V)
      → IsSortedMap m
      → (insert k v m).0 ≡ none
      → All (λ e. e.0 ≢ k) m
  unfolding insert
  fresh-insert k v [] s h = tt
  fresh-insert k v ((j, w) ∷ m) (a, s) h = elim (Ordering-cases (o.cmp k j)) [
    | inl e ↦ (ne_of_lt k j e, All-map (λ x l. ne_of_lt k x.0 (o.cmp_trans k j x.0 e l)) m a)
    | inr (inl e) ↦ absurd (ground arith)
    | inr (inr e) ↦
        (λ q. ne_of_lt j k ((o.cmp_flip k j).0 e) (sym q), fresh-insert k v m s (ground arith))
  ]

  pub set_insert-fresh : (k : K) (s : BTreeSet K) → All (λ e. e ≢ k) s → (set_insert k s).0 ≡ true
  unfolding set_insert
  set_insert-fresh k [] h = refl
  set_insert-fresh k (j ∷ s) (n, h) = elim (Ordering-cases (o.cmp k j)) [
    | inl e ↦ rw (e, set_insert)
    | inr (inl e) ↦ absurd (n (sym ((o.cmp_eq k j).0 e)))
    | inr (inr e) ↦ rw (e, set_insert) (set_insert-fresh k s h)
  ]

  pub fresh-set_insert :
      (k : K) (s : BTreeSet K) → IsSortedSet s → (set_insert k s).0 ≡ true → All (λ e. e ≢ k) s
  unfolding set_insert
  fresh-set_insert k [] s h = tt
  fresh-set_insert k (j ∷ s) (a, b) h = elim (Ordering-cases (o.cmp k j)) [
    | inl e ↦ (ne_of_lt k j e, All-map (λ x l. ne_of_lt k x (o.cmp_trans k j x e l)) s a)
    | inr (inl e) ↦ absurd (ground arith)
    | inr (inr e) ↦
        (λ q. ne_of_lt j k ((o.cmp_flip k j).0 e) (sym q), fresh-set_insert k s b (ground arith))
  ]
