-- ===== src/Text/Laws.antt =====
-- Laws of the comparisons and searches on texts.
use rust_daily.Base.{
  ℕ, ◌+◌, ◌≤◌, ◌≡◌, refl, ap, ◌↔◌, inl, inr, true, [], ◌∷◌, ◌++◌, arith, Bool-cases, length,
}
use rust_daily.Text.{Text, len_utf8, len, text_eq, starts_with, ends_with}

pub text_eq→eq : (s t : Text) → text_eq s t ≡ true → s ≡ t
unfolding text_eq
text_eq→eq [] [] h = refl
text_eq→eq [] (d ∷ t) h = cc
text_eq→eq (c ∷ s) [] h = cc
text_eq→eq (c ∷ s) (d ∷ t) h = ground (arith, text_eq→eq s t)

pub text_eq_refl : (s : Text) → text_eq s s ≡ true
unfolding text_eq
text_eq_refl [] = refl
text_eq_refl (c ∷ s) = ground (arith, text_eq_refl s)

pub eq→text_eq : (s t : Text) → s ≡ t → text_eq s t ≡ true
eq→text_eq s t e = rw e (text_eq_refl t)

pub text_eq_iff : (s t : Text) → (text_eq s t ≡ true) ↔ (s ≡ t)
text_eq_iff s t = (text_eq→eq s t, eq→text_eq s t)

pub starts_with→append : (s t : Text) → starts_with s t ≡ true → (r : Text) × (s ≡ t ++ r)
unfolding starts_with
starts_with→append s [] h = (s, refl)
starts_with→append [] (d ∷ t) h = cc
starts_with→append (c ∷ s) (d ∷ t) h =
    let rest = starts_with→append s t (ground arith) in
    let e : c ≡ d = ground arith in (rest.0, cc (rest.1, e))

pub append-starts_with : (t r : Text) → starts_with (t ++ r) t ≡ true
unfolding starts_with
append-starts_with [] r = refl
append-starts_with (d ∷ t) r = ground (arith, append-starts_with t r)

pub ends_with→append : (s t : Text) → ends_with s t ≡ true → (r : Text) × (s ≡ r ++ t)
unfolding ends_with
ends_with→append [] t h = ([], text_eq→eq [] t h)
ends_with→append (c ∷ s) t h = elim (Bool-cases (text_eq (c ∷ s) t)) [
  | inl e ↦ ([], text_eq→eq (c ∷ s) t e)
  | inr n ↦ let rest = ends_with→append s t (ground arith) in (c ∷ rest.0, ap (◌∷◌ c) rest.1)
]

pub len-append : (s t : Text) → len (s ++ t) ≡ len s + len t
unfolding len
len-append [] t = omega arith
len-append (c ∷ s) t = omega (arith, len-append s t)

pub len_utf8_pos : (c : ℕ) → 1 ≤ len_utf8 c
unfolding len_utf8
len_utf8_pos c = ground arith

pub length-le-len : (s : Text) → length s ≤ len s
unfolding len
length-le-len [] = omega arith
length-le-len (c ∷ s) = omega (arith, len_utf8_pos c, length-le-len s)

pub append-ends_with : (r t : Text) → ends_with (r ++ t) t ≡ true
unfolding ends_with
append-ends_with [] [] = refl
append-ends_with [] (d ∷ t) = ground (arith, eq→text_eq (d ∷ t) (d ∷ t) refl)
append-ends_with (c ∷ r) t = ground (arith, append-ends_with r t)
