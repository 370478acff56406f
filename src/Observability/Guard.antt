-- ===== src/Observability/Guard.antt =====
-- The comparison of tokens, and whom the metrics endpoint answers.
use rust_daily.Config.Values.{MetricsBearerToken}
use mathlib.Core.Option.{some-injective}
use rust_daily.Base.{
  sym, ◌∙◌, ap, Bool, ◌++◌, max, subst, inr, inl, ≤-cases, ◌+◌, ◌≤◌, ◌<◌, All, ◌↔◌, length, ℕ, zero,
  suc, [], ◌∷◌, none, some, true, false, refl, ◌≡◌, arith,
}
use rust_daily.Config.Settings.{ObservabilitySettings}
use rust_daily.Observability.Bits.{
  xor-eq-zero, small-IsWord, or-IsWord, IsWord, xor-IsWord, or-eq-zero, xor, or,
}
use rust_daily.Observability.{
  response_status, token_matches, authorized_by, Authorization, metrics_authorized, metrics_status,
  byte_at, scan_diff, constant_time_eq,
}
use rust_daily.Text.Utf8.{Bytes, as_bytes}
use rust_daily.Text.{Text, codes}

-- The bytes of a `&str`: each below 256, and fewer than 2^64.
pub record AreBytes (bs : Bytes) : Type 0 where
  pub small : All (λ b. b < 256) bs
  pub few : length bs < 18446744073709551616

byte_at-small : (bs : Bytes) → All (λ b. b < 256) bs → (i : ℕ) → byte_at bs i < 256
unfolding byte_at
byte_at-small [] h i = omega arith
byte_at-small (b ∷ bs) (p, h) zero = p
byte_at-small (b ∷ bs) (p, h) (suc i) = byte_at-small bs h i

-- The loop leaves no difference exactly if there was none and the bytes that it compares agree.
module _ (l r : Bytes) (sl : All (λ b. b < 256) l) (sr : All (λ b. b < 256) r) where
  at-IsWord : (bs : Bytes) → All (λ b. b < 256) bs → (i : ℕ) → IsWord (byte_at bs i)
  at-IsWord bs s i = small-IsWord (byte_at bs i) (omega (arith, byte_at-small bs s i))

  scan_sound :
      (count index diff : ℕ)
      → IsWord diff
      → scan_diff l r count index diff ≡ 0
      → (diff ≡ 0) × ((i : ℕ) → index ≤ i → i < index + count → byte_at l i ≡ byte_at r i)
  unfolding scan_diff
  scan_sound zero index diff w h = (h, λ i a b. absurd (omega (arith, a, b)))
  scan_sound (suc count) index diff w h =
      let x = xor (byte_at l index) (byte_at r index) in
      let (z, later) = scan_sound count (suc index) (or diff x) (or-IsWord diff x) h in
      let (d, same) = (or-eq-zero diff x w (xor-IsWord _ _)).0 z in
      let here : byte_at l index ≡ byte_at r index =
        (xor-eq-zero _ _ (at-IsWord l sl index) (at-IsWord r sr index)).0 same in
      (
        d,
        λ i a b. elim (≤-cases (suc index) i) [
          | inl m ↦ later i m (omega (arith, b))
          | inr m ↦ subst (λ k. byte_at l k ≡ byte_at r k) (omega (arith, a, m)) here
        ],
      )

same_bytes :
    (l r : Bytes)
    → length l ≡ length r
    → ((i : ℕ) → i < length l → byte_at l i ≡ byte_at r i)
    → l ≡ r
unfolding byte_at
same_bytes [] [] e f = refl
same_bytes [] (b ∷ r) e f = absurd (omega (arith, e))
same_bytes (a ∷ l) [] e f = absurd (omega (arith, e))
same_bytes (a ∷ l) (b ∷ r) e f =
    let first : a ≡ b = f 0 (omega arith) in
    let rest : l ≡ r = same_bytes l r (omega (arith, e)) (λ i h. f (suc i) (omega (arith, h))) in
    λ i. first i ∷ rest i

scan-same : (l : Bytes) → All (λ b. b < 256) l → (count index : ℕ) → scan_diff l l count index 0 ≡ 0
unfolding scan_diff
scan-same l s zero index = refl
scan-same l s (suc count) index =
    let x : xor (byte_at l index) (byte_at l index) ≡ 0 =
      (xor-eq-zero _ _ (at-IsWord l l s s l s index) (at-IsWord l l s s l s index)).1 refl in
    let o : or 0 0 ≡ 0 =
      (or-eq-zero 0 0 (small-IsWord 0 (omega arith)) (small-IsWord 0 (omega arith))).1
        (refl, refl) in
    rw (x, o) (scan-same l s count (suc index))

-- The whole comparison, on bytes.
abbrev difference : Bytes → Bytes → ℕ
difference l r = scan_diff l r (max (length l) (length r)) 0 (xor (length l) (length r))

length-IsWord : (bs : Bytes) → AreBytes bs → IsWord (length bs)
length-IsWord bs a = small-IsWord (length bs) a.few

no_difference : (l r : Bytes) → AreBytes l → AreBytes r → difference l r ≡ 0 → l ≡ r
no_difference l r a b h =
    let (lengths, bytes) =
      scan_sound l r a.small b.small (max (length l) (length r)) 0 (xor (length l) (length r))
        (xor-IsWord _ _) h in
    same_bytes l r ((xor-eq-zero _ _ (length-IsWord l a) (length-IsWord r b)).0 lengths)
      (λ i m. bytes i (omega arith) (omega (arith, m)))

self_difference : (l : Bytes) → AreBytes l → difference l l ≡ 0
self_difference l a =
    let z : xor (length l) (length l) ≡ 0 =
      (xor-eq-zero _ _ (length-IsWord l a) (length-IsWord l a)).1 refl in
    rw z (scan-same l a.small (max (length l) (length l)) 0)

-- For texts whose bytes are bytes and fewer than 2^64: the comparison that takes no early exit
-- tells exactly whether the two texts have the same bytes.
pub constant_time_eq_iff :
    (left right : Text)
    → AreBytes (as_bytes left)
    → AreBytes (as_bytes right)
    → (constant_time_eq left right ≡ true) ↔ (as_bytes left ≡ as_bytes right)
unfolding constant_time_eq
constant_time_eq_iff left right a b = (
  λ h. no_difference (as_bytes left) (as_bytes right) a b (ground (arith, h)),
  λ e.
      let z = subst (λ r. difference (as_bytes left) r ≡ 0) e (self_difference (as_bytes left) a) in
      ground (arith, z),
)

-- The header carries the token.
abbrev pub Carries : MetricsBearerToken → Authorization → Type 0
Carries token header =
    (value : Text) × (header ≡ some (some value))
    × (as_bytes value ≡ as_bytes (codes "Bearer " ++ token.as_ref))

token_matches-Carries :
    (token : MetricsBearerToken) (header : Authorization)
    → AreBytes (as_bytes (codes "Bearer " ++ token.as_ref))
    → ((value : Text) → header ≡ some (some value) → AreBytes (as_bytes value))
    → (token_matches token header ≡ true) ↔ Carries token header
unfolding token_matches
token_matches-Carries token none t v = ((λ h. cc), (λ (value, e, same). cc))
token_matches-Carries token (some none) t v = ((λ h. cc), (λ (value, e, same). cc))
token_matches-Carries token (some (some value)) t v =
    let i = constant_time_eq_iff value (codes "Bearer " ++ token.as_ref) (v value refl) t in
    (
      (λ h. (value, refl, i.0 h)),
      (λ (other, e, same). i.1 (ap as_bytes (some-injective _ _ (some-injective _ _ e)) ∙ same)),
    )

status-served :
    (enabled authorized : Bool)
    → (response_status enabled authorized ≡ 200) ↔ ((enabled ≡ true) × (authorized ≡ true))
status-served true true = ((λ h. (refl, refl)), (λ h. refl))
status-served true false = ((λ h. absurd (omega (arith, h))), (λ h. cc))
status-served false authorized = ((λ h. absurd (omega (arith, h))), (λ h. cc))

-- If a bearer token is configured and the bytes at hand are bytes and fewer than 2^64: metrics are
-- served exactly if they are enabled and the request has a header that is a text with the bytes
-- of `Bearer ` and the token.
pub metrics_status-served :
    (settings : ObservabilitySettings) (token : MetricsBearerToken) (header : Authorization)
    → settings.metrics_bearer_token ≡ some token
    → AreBytes (as_bytes (codes "Bearer " ++ token.as_ref))
    → ((value : Text) → header ≡ some (some value) → AreBytes (as_bytes value))
    → (metrics_status settings header ≡ 200)
      ↔ ((settings.metrics_enabled ≡ true) × Carries token header)
unfolding metrics_status metrics_authorized authorized_by
metrics_status-served settings token header e t v =
    let same : authorized_by settings.metrics_bearer_token header ≡ token_matches token header =
      ap (λ o. authorized_by o header) e in
    let i =
      status-served settings.metrics_enabled (authorized_by settings.metrics_bearer_token header) in
    let c = token_matches-Carries token header t v in
    (
      (λ h. let (on, ok_header) = i.0 h in (on, c.0 (sym same ∙ ok_header))),
      (λ (on, carried). i.1 (on, same ∙ c.1 carried)),
    )
