-- ===== src/Collections.antt =====
-- `BTreeMap` and `BTreeSet` of the standard library, as lists of entries in ascending key order,
-- over an interface for `Ord`.
pub mod Sorted
pub mod Fresh
pub mod Contents
use rust_daily.Base.{Bool, true, false, List, [], ◌∷◌, Option, none, some, Ordering}
use rust_daily.Order.{Ord}

abbrev pub BTreeMap {ℓ κ} : Type ℓ → Type κ → Type (ℓ ⊔ κ)
BTreeMap K V = List (K × V)

abbrev pub BTreeSet {ℓ} : Type ℓ → Type ℓ
BTreeSet K = List K

module _ {ℓ} {K : Type ℓ} ⦃o : Ord K⦄ where
  -- The value that the key had before, and the map with the new entry.
  unfoldable pub insert {κ} : {V : Type κ} → K → V → BTreeMap K V → Option V × BTreeMap K V
  insert k v [] = (none, (k, v) ∷ [])
  insert k v ((j, w) ∷ m) =
      let (old, m') = insert k v m in
      elim (o.cmp k j) [
        | Ordering.lt ↦ (none, (k, v) ∷ (j, w) ∷ m)
        | Ordering.eq ↦ (some w, (j, v) ∷ m)
        | Ordering.gt ↦ (old, (j, w) ∷ m')
      ]

  unfoldable pub get {κ} : {V : Type κ} → K → BTreeMap K V → Option V
  get k [] = none
  get k ((j, w) ∷ m) = elim (o.cmp k j) [ Ordering.eq ↦ some w | _ ↦ get k m ]

  -- Whether the element is new, and the set with it.
  unfoldable pub set_insert : K → BTreeSet K → Bool × BTreeSet K
  set_insert k [] = (true, k ∷ [])
  set_insert k (j ∷ s) =
      let (new, s') = set_insert k s in
      elim (o.cmp k j) [
        | Ordering.lt ↦ (true, k ∷ j ∷ s)
        | Ordering.eq ↦ (false, j ∷ s)
        | Ordering.gt ↦ (new, j ∷ s')
      ]

  unfoldable pub set_contains : K → BTreeSet K → Bool
  set_contains k [] = false
  set_contains k (j ∷ s) = elim (o.cmp k j) [ Ordering.eq ↦ true | _ ↦ set_contains k s ]

  -- `a.intersection(&b).next()`: the least element of both sets.
  unfoldable pub first_common : BTreeSet K → BTreeSet K → Option K
  unfolding set_contains
  first_common [] t = none
  first_common (k ∷ s) t = elim (set_contains k t) [ true ↦ some k | false ↦ first_common s t ]
