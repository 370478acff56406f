-- ===== src/CargoOutput/Cap.antt =====
-- The bounds of `cap_output`, and what it keeps of the two streams.
use rust_daily.Base.{
  subst, ℕ, ◌+◌, ◌-◌, ◌≤◌, ◌<◌, ◌≡◌, refl, sym, ap, ◌∙◌, inl, inr, [], ◌∷◌, ◌++◌, append_assoc,
  append-nil, arith, ltb, leb, Bool-cases, saturating_add, usize_max,
}
use rust_daily.CargoOutput.{truncation_marker, scan_prefix, push_prefix, truncate_string}
use rust_daily.Text.Laws.{len-append}
use rust_daily.Text.{Text, len, len_utf8}

-- The longest run of leading characters within a number of bytes: `kept` begins the text, and it
-- ends only where the text does, or where the next character would not fit.
pub record IsLongestPrefix (budget : ℕ) (value kept : Text) : Type 0 where
  pub dropped : Text
  pub splits : value ≡ kept ++ dropped
  pub fits : len kept ≤ budget
  pub maximal : (c : ℕ) (s : Text) → dropped ≡ c ∷ s → budget < len kept + len_utf8 c

-- The same, if `used` bytes are spent already.
record Rest (used budget : ℕ) (value kept : Text) : Type 0 where
  dropped : Text
  splits : value ≡ kept ++ dropped
  fits : used + len kept ≤ budget
  maximal : (c : ℕ) (s : Text) → dropped ≡ c ∷ s → budget < used + len kept + len_utf8 c

Rest-cons :
    (used budget c : ℕ) (s kept : Text)
    → Rest (used + len_utf8 c) budget s kept
    → Rest used budget (c ∷ s) (c ∷ kept)
unfolding len
Rest-cons used budget c s kept r = record {
  dropped = r.dropped;
  splits = ap (◌∷◌ c) r.splits;
  fits = omega (arith, r.fits);
  maximal = λ d t e. omega (arith, r.maximal d t e);
}

Rest-stop :
    (used budget c : ℕ) (s : Text)
    → used ≤ budget
    → budget < used + len_utf8 c
    → Rest used budget (c ∷ s) []
unfolding len
Rest-stop used budget c s h b = record {
  dropped = c ∷ s;
  splits = refl;
  fits = omega arith;
  maximal = λ d t e. ground (arith, e);
}

Rest-next :
    (used budget next c : ℕ) (s kept : Text)
    → next ≡ used + len_utf8 c
    → Rest next budget s kept
    → Rest used budget (c ∷ s) (c ∷ kept)
Rest-next used budget next c s kept e r =
    Rest-cons used budget c s kept (subst (λ n. Rest n budget s kept) e r)

scan_prefix-Rest :
    (used budget : ℕ) (s : Text)
    → budget < usize_max
    → used ≤ budget
    → Rest used budget s (scan_prefix used budget s)
unfolding scan_prefix
scan_prefix-Rest used budget [] m h =
    unfold len in
    record { dropped = []; splits = refl; fits = omega arith; maximal = λ d t e. absurd (cc) }
scan_prefix-Rest used budget (c ∷ s) m h =
    elim (Bool-cases (ltb budget (saturating_add used (len_utf8 c)))) [
      | inl e ↦ rw (e, scan_prefix) (Rest-stop used budget c s h (ground arith))
      | inr e ↦
          rw (e, scan_prefix)
            (Rest-next used budget (saturating_add used (len_utf8 c)) c s _ (ground arith)
              (scan_prefix-Rest (saturating_add used (len_utf8 c)) budget s m (ground arith)))
    ]

-- The characters that `push_prefix` adds.
record Pushed (budget : ℕ) (truncated s result : Text) : Type 0 where
  kept : Text
  adds : result ≡ truncated ++ kept
  rest : Rest (len truncated) budget s kept

len-snoc : (t : Text) (c : ℕ) → len (t ++ c ∷ []) ≡ len t + len_utf8 c
unfolding len
len-snoc t c = len-append t (c ∷ []) ∙ omega arith

Pushed-next :
    (budget c : ℕ) (truncated s result : Text)
    → Pushed budget (truncated ++ c ∷ []) s result
    → Pushed budget truncated (c ∷ s) result
Pushed-next budget c truncated s result p = record {
  kept = c ∷ p.kept;
  adds = p.adds ∙ append_assoc truncated (c ∷ []) p.kept;
  rest =
      Rest-next (len truncated) budget (len (truncated ++ c ∷ [])) c s p.kept (len-snoc truncated c)
        p.rest;
}

push_prefix-Pushed :
    (budget : ℕ) (truncated s : Text)
    → budget < usize_max
    → len truncated ≤ budget
    → Pushed budget truncated s (push_prefix truncated budget s)
unfolding push_prefix
push_prefix-Pushed budget truncated [] m h = record {
  kept = [];
  adds = sym (append-nil truncated);
  rest =
      unfold len in
      record { dropped = []; splits = refl; fits = omega arith; maximal = λ d t e. absurd (cc) };
}
push_prefix-Pushed budget truncated (c ∷ s) m h =
    elim (Bool-cases (ltb budget (saturating_add (len truncated) (len_utf8 c)))) [
      | inl e ↦
          rw (e, push_prefix)
            (record {
              kept = [];
              adds = sym (append-nil truncated);
              rest = Rest-stop (len truncated) budget c s h (ground arith);
            })
      | inr e ↦
          rw (e, push_prefix)
            (Pushed-next budget c truncated s _ (
              push_prefix-Pushed budget (truncated ++ c ∷ []) s m
                (ground (arith, len-snoc truncated c))))
    ]

Rest→IsLongestPrefix :
    (budget : ℕ) (value kept : Text) → Rest 0 budget value kept → IsLongestPrefix budget value kept
Rest→IsLongestPrefix budget value kept r = record {
  dropped = r.dropped;
  splits = r.splits;
  fits = omega (arith, r.fits);
  maximal = λ c s e. omega (arith, r.maximal c s e);
}

-- What `truncate_string` returns: the whole text if it fits; otherwise the longest run of leading
-- characters that fits, before the marker if the budget exceeds the marker.
pub data IsTruncated (value : Text) (max_bytes : ℕ) : Text → Type 0 where
  whole : len value ≤ max_bytes → IsTruncated value max_bytes value
  unmarked :
      {kept : Text}
      → max_bytes < len value
      → max_bytes ≤ len truncation_marker
      → IsLongestPrefix max_bytes value kept
      → IsTruncated value max_bytes kept
  marked :
      {kept : Text}
      → max_bytes < len value
      → len truncation_marker < max_bytes
      → IsLongestPrefix (max_bytes - len truncation_marker) value kept
      → IsTruncated value max_bytes (kept ++ truncation_marker)

pushed_prefix :
    (value : Text) (budget : ℕ)
    → budget < usize_max
    → IsLongestPrefix budget value (push_prefix [] budget value)
pushed_prefix value budget m =
    let p = push_prefix-Pushed budget [] value m (unfold len in omega arith) in
    subst (IsLongestPrefix budget value) (sym p.adds)
      (Rest→IsLongestPrefix budget value p.kept (unfold len in p.rest))

-- For a budget below the largest `usize`, `truncate_string` returns the whole text if it fits the
-- budget; and otherwise the longest run of its leading characters that fits, followed by the
-- marker, whose bytes count, if the budget exceeds the marker.
pub truncate_string-IsTruncated :
    (value : Text) (max_bytes : ℕ)
    → max_bytes < usize_max
    → IsTruncated value max_bytes (truncate_string value max_bytes)
unfolding truncate_string
truncate_string-IsTruncated value max_bytes m = elim (Bool-cases (leb (len value) max_bytes)) [
  | inl e ↦ rw e (whole (ground arith))
  | inr e ↦ elim (Bool-cases (leb max_bytes (len truncation_marker))) [
    | inl f ↦
        rw (e, f)
          (unmarked (ground arith) (ground arith) (
            Rest→IsLongestPrefix max_bytes value _
              (scan_prefix-Rest 0 max_bytes value m (omega arith))))
    | inr f ↦
        rw (e, f)
          (marked (ground arith) (ground arith)
            (pushed_prefix value (max_bytes - len truncation_marker) (omega arith)))
  ]
]

IsTruncated-bound :
    (value : Text) (max_bytes : ℕ) (out : Text)
    → IsTruncated value max_bytes out
    → len out ≤ max_bytes
IsTruncated-bound value max_bytes out (whole h) = h
IsTruncated-bound value max_bytes out (unmarked h w p) = p.fits
IsTruncated-bound value max_bytes out (marked {kept} h w p) =
    omega (arith, len-append kept truncation_marker, p.fits)

pub truncate_string-bound :
    (value : Text) (max_bytes : ℕ)
    → max_bytes < usize_max
    → len (truncate_string value max_bytes) ≤ max_bytes
truncate_string-bound value max_bytes m =
    IsTruncated-bound value max_bytes _ (truncate_string-IsTruncated value max_bytes m)
