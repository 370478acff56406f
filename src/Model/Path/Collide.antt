-- ===== src/Model/Path/Collide.antt =====
-- `paths_collide` compares the parts of two paths.
use rust_daily.Base.{
  ◌≡◌, ◌↔◌, ◌≢◌, ◌⊎◌, inl, inr, refl, sym, ap, ◌∙◌, true, List, [], ◌∷◌, ◌++◌, append_assoc,
  append-nil, arith, Bool-cases,
}
use rust_daily.Model.Path.{slash, paths_collide}
use rust_daily.Text.Laws.{text_eq→eq, eq→text_eq, starts_with→append, append-starts_with}
use rust_daily.Text.Splitting.{split-append, join-split, split-ne-nil}
use rust_daily.Text.{Text, text_eq, starts_with, split, join}

-- The parts of one path begin with all parts of the other: it is the same entry or lies below it.
abbrev pub IsBelow : Text → Text → Type 0
IsBelow path top = (rest : List Text) × (split slash path ≡ split slash top ++ rest)

starts_with-IsBelow : (s t : Text) → starts_with s (t ++ slash ∷ []) ≡ true → IsBelow s t
starts_with-IsBelow s t h =
    let (r, e) = starts_with→append s (t ++ slash ∷ []) h in
    (split slash r, ap (split slash) (e ∙ append_assoc t (slash ∷ []) r) ∙ split-append slash t r)

join-append :
    (ps : List Text) (q : Text) (qs : List Text)
    → ps ≢ []
    → join (slash ∷ []) (ps ++ q ∷ qs) ≡ join (slash ∷ []) ps ++ slash ∷ join (slash ∷ []) (q ∷ qs)
unfolding join
join-append [] q qs n = absurd (n refl)
join-append (p ∷ []) q qs n = refl
join-append (p ∷ p' ∷ ps) q qs n =
    ap (λ x. p ++ slash ∷ x) (join-append (p' ∷ ps) q qs (λ e. cc)) ∙ sym (append_assoc p _ _)

-- The text of a path that lies properly below another.
below_text :
    (s t r : Text) (rs : List Text)
    → split slash s ≡ split slash t ++ r ∷ rs
    → s ≡ (t ++ slash ∷ []) ++ join (slash ∷ []) (r ∷ rs)
below_text s t r rs e =
    sym (join-split slash s)
    ∙ ap (join (slash ∷ [])) e
    ∙ join-append (split slash t) r rs (split-ne-nil slash t)
    ∙ ap (λ x. x ++ slash ∷ join (slash ∷ []) (r ∷ rs)) (join-split slash t)
    ∙ sym (append_assoc t (slash ∷ []) _)

IsBelow-cases : (s t : Text) → IsBelow s t → (s ≡ t) ⊎ (starts_with s (t ++ slash ∷ []) ≡ true)
IsBelow-cases s t ([], e) =
    inl (sym (join-split slash s) ∙ ap (join (slash ∷ [])) (e ∙ append-nil _) ∙ join-split slash t)
IsBelow-cases s t (r ∷ rs, e) =
    inr (
      rw (below_text s t r rs e)
        (append-starts_with (t ++ slash ∷ []) (join (slash ∷ []) (r ∷ rs))))

collide→below : (s t : Text) → paths_collide s t ≡ true → IsBelow s t ⊎ IsBelow t s
unfolding paths_collide
collide→below s t h = elim (Bool-cases (text_eq s t)) [
  | inl e ↦ inl ([], ap (split slash) (text_eq→eq s t e) ∙ sym (append-nil _))
  | inr n ↦ elim (Bool-cases (starts_with s (t ++ slash ∷ []))) [
    | inl e ↦ inl (starts_with-IsBelow s t e)
    | inr m ↦ inr (starts_with-IsBelow t s (ground arith))
  ]
]

below→collide : (s t : Text) → IsBelow s t ⊎ IsBelow t s → paths_collide s t ≡ true
unfolding paths_collide
below→collide s t (inl b) = ground (arith, IsBelow-cases s t b, eq→text_eq s t)
below→collide s t (inr b) = ground (arith, IsBelow-cases t s b, eq→text_eq s t)

-- `paths_collide` holds exactly if one of the paths is the other, or lies below it: the parts of
-- the one begin with all parts of the other.
pub paths_collide_iff : (s t : Text) → (paths_collide s t ≡ true) ↔ (IsBelow s t ⊎ IsBelow t s)
paths_collide_iff s t = (collide→below s t, below→collide s t)
