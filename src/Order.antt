-- ===== src/Order.antt =====
-- The interface of `Ord`, and the order of texts.
use rust_daily.Base.{◌≡◌, refl, ◌↔◌, ◌⊎◌, inl, inr, [], ◌∷◌, arith, compare, Ordering}
use rust_daily.Text.{Text}

-- A total order with its laws.
pub record Ord {ℓ} (K : Type ℓ) : Type ℓ where
  pub cmp : K → K → Ordering
  pub cmp_eq : (a b : K) → (cmp a b ≡ Ordering.eq) ↔ (a ≡ b)
  pub cmp_flip : (a b : K) → (cmp a b ≡ Ordering.gt) ↔ (cmp b a ≡ Ordering.lt)
  pub cmp_trans :
      (a b c : K) → cmp a b ≡ Ordering.lt → cmp b c ≡ Ordering.lt → cmp a c ≡ Ordering.lt

-- `str` compares UTF-8 bytes, which orders texts as their code points do.
unfoldable pub text_cmp : Text → Text → Ordering
text_cmp [] [] = Ordering.eq
text_cmp [] (d ∷ t) = Ordering.lt
text_cmp (c ∷ s) [] = Ordering.gt
text_cmp (c ∷ s) (d ∷ t) = elim (compare c d) [
  | Ordering.lt ↦ Ordering.lt
  | Ordering.eq ↦ text_cmp s t
  | Ordering.gt ↦ Ordering.gt
]

pub text_cmp_eq : (s t : Text) → (text_cmp s t ≡ Ordering.eq) ↔ (s ≡ t)
unfolding text_cmp
text_cmp_eq [] [] = (λ _. refl, λ _. refl)
text_cmp_eq [] (d ∷ t) = (λ h. cc, λ h. cc)
text_cmp_eq (c ∷ s) [] = (λ h. cc, λ h. cc)
text_cmp_eq (c ∷ s) (d ∷ t) = ground (arith, text_cmp_eq s t)

pub text_cmp_flip : (s t : Text) → (text_cmp s t ≡ Ordering.gt) ↔ (text_cmp t s ≡ Ordering.lt)
unfolding text_cmp
text_cmp_flip [] [] = (λ h. cc, λ h. cc)
text_cmp_flip [] (d ∷ t) = (λ h. cc, λ h. cc)
text_cmp_flip (c ∷ s) [] = (λ _. refl, λ _. refl)
text_cmp_flip (c ∷ s) (d ∷ t) = ground (arith, text_cmp_flip s t)

pub text_cmp_trans :
    (s t u : Text)
    → text_cmp s t ≡ Ordering.lt
    → text_cmp t u ≡ Ordering.lt
    → text_cmp s u ≡ Ordering.lt
unfolding text_cmp
text_cmp_trans [] [] u h k = cc
text_cmp_trans [] (d ∷ t) [] h k = cc
text_cmp_trans [] (d ∷ t) (e ∷ u) h k = refl
text_cmp_trans (c ∷ s) [] u h k = cc
text_cmp_trans (c ∷ s) (d ∷ t) [] h k = cc
text_cmp_trans (c ∷ s) (d ∷ t) (e ∷ u) h k = ground (arith, text_cmp_trans s t u)

instance abbrev pub text_ord : Ord Text
text_ord = record {
  cmp = text_cmp;
  cmp_eq = text_cmp_eq;
  cmp_flip = text_cmp_flip;
  cmp_trans = text_cmp_trans;
}

pub Ordering-cases : (x : Ordering) → (x ≡ Ordering.lt) ⊎ ((x ≡ Ordering.eq) ⊎ (x ≡ Ordering.gt))
Ordering-cases Ordering.lt = inl refl
Ordering-cases Ordering.eq = inr (inl refl)
Ordering-cases Ordering.gt = inr (inr refl)
