-- ===== src/Text/Splitting.antt =====
-- `split` against concatenation: the parts hold no separator, and joined again they are the text.
use rust_daily.Base.{
  Bool-cases, inl, inr, ℕ, ◌≡◌, ◌≢◌, refl, ◌∙◌, List, [], ◌∷◌, ◌++◌, arith, ◌==◌, All,
}
use rust_daily.Text.{Text, push_head, split, join}

-- No code point of the text is `sep`.
abbrev pub Lacks : ℕ → Text → Type 0
Lacks sep = All (λ c. c ≢ sep)

module _ (sep : ℕ) where
  pub split-ne-nil : (s : Text) → split sep s ≢ []
  unfolding split
  split-ne-nil [] h = cc
  split-ne-nil (c ∷ s) h = ground (arith, split-ne-nil s)

  push_head-Lacks :
      (c : ℕ) (ps : List Text) → c ≢ sep → All (Lacks sep) ps → All (Lacks sep) (push_head c ps)
  unfolding push_head
  push_head-Lacks c [] n h = ((n, tt), tt)
  push_head-Lacks c (p ∷ ps) n h = ((n, h.0), h.1)

  pub split-Lacks : (s : Text) → All (Lacks sep) (split sep s)
  unfolding split
  split-Lacks [] = (tt, tt)
  split-Lacks (c ∷ s) = elim (Bool-cases (c == sep)) [
    | inl e ↦ rw e (tt, split-Lacks s)
    | inr n ↦ rw n (push_head-Lacks c (split sep s) (ground arith) (split-Lacks s))
  ]

  -- A text with no separator is its own single part.
  pub split_of_Lacks : (s : Text) → Lacks sep s → split sep s ≡ s ∷ []
  unfolding split
  split_of_Lacks [] h = refl
  split_of_Lacks (c ∷ s) (n, h) = ground (arith, split_of_Lacks s h)

  push_head-append :
      (c : ℕ) (ps qs : List Text) → ps ≢ [] → push_head c (ps ++ qs) ≡ push_head c ps ++ qs
  unfolding push_head
  push_head-append c [] qs n = absurd (n refl)
  push_head-append c (p ∷ ps) qs n = refl

  -- A separator ends one part and begins the next.
  pub split-append : (s t : Text) → split sep (s ++ sep ∷ t) ≡ split sep s ++ split sep t
  unfolding split
  split-append [] t = ground arith
  split-append (c ∷ s) t =
      ground
        (arith, split-append s t, push_head-append c (split sep s) (split sep t) (split-ne-nil s))

  join-push_head :
      (c : ℕ) (ps : List Text) → ps ≢ [] → join (sep ∷ []) (push_head c ps) ≡ c ∷ join (sep ∷ []) ps
  unfolding join push_head
  join-push_head c [] n = absurd (n refl)
  join-push_head c (p ∷ []) n = refl
  join-push_head c (p ∷ q ∷ ps) n = refl

  join-nil-cons : (ps : List Text) → ps ≢ [] → join (sep ∷ []) ([] ∷ ps) ≡ sep ∷ join (sep ∷ []) ps
  unfolding join
  join-nil-cons [] n = absurd (n refl)
  join-nil-cons (p ∷ ps) n = refl

  -- The parts of a text, joined again, are the text.
  pub join-split : (s : Text) → join (sep ∷ []) (split sep s) ≡ s
  unfolding split
  join-split [] = unfold join in refl
  join-split (c ∷ s) = ground (
    arith,
    join-push_head c (split sep s) (split-ne-nil s),
    join-nil-cons (split sep s) (split-ne-nil s),
    join-split s,
  )

  -- Parts that hold no separator are found again in their join.
  pub split-join :
      (ps : List Text) → ps ≢ [] → All (Lacks sep) ps → split sep (join (sep ∷ []) ps) ≡ ps
  unfolding join
  split-join [] n h = absurd (n refl)
  split-join (p ∷ []) n (h, _) = split_of_Lacks p h
  split-join (p ∷ q ∷ ps) n (h, hs) =
      split-append p (join (sep ∷ []) (q ∷ ps))
      ∙ cc (split_of_Lacks p h, split-join (q ∷ ps) (λ e. cc) hs)
