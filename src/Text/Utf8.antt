-- ===== src/Text/Utf8.antt =====
-- UTF-8: the bytes of a text, and `String::from_utf8_lossy`, which puts U+FFFD for each maximal
-- invalid part.
use rust_daily.Base.{ℕ, ◌+◌, ◌-◌, ◌*◌, ◌/◌, ◌%◌, ◌&&◌, List, [], ◌∷◌, ◌++◌, ltb, leb, if◌then◌else◌}
use rust_daily.Text.{Text}

abbrev pub Bytes : Type 0
Bytes = List ℕ

-- The encoding of one code point.
unfoldable pub encode_char : ℕ → Bytes
encode_char c =
    if ltb c 0x80
    then c ∷ []
    else if ltb c 0x800
    then (0xC0 + c / 64) ∷ (0x80 + c % 64) ∷ []
    else if ltb c 0x10000
    then (0xE0 + c / 4096) ∷ (0x80 + c / 64 % 64) ∷ (0x80 + c % 64) ∷ []
    else (0xF0 + c / 262144) ∷ (0x80 + c / 4096 % 64) ∷ (0x80 + c / 64 % 64) ∷ (0x80 + c % 64) ∷ []

-- `str::as_bytes`.
unfoldable pub as_bytes : Text → Bytes
unfolding encode_char
as_bytes [] = []
as_bytes (c ∷ s) = encode_char c ++ as_bytes s

-- A sequence that has begun: its value so far, the bytes it still needs, and the range of the next.
pub record Pending : Type 0 where
  pub value : ℕ
  pub needed : ℕ
  pub low : ℕ
  pub high : ℕ

pub data Decoder : Type 0 where
  idle : Decoder
  pending : Pending → Decoder

abbrev pub replacement : ℕ
replacement = 0xFFFD

abbrev begin : (value needed low high : ℕ) → Decoder × Text
begin value needed low high =
    (pending (record { value = value; needed = needed; low = low; high = high }), [])

-- A byte where a sequence begins.
unfoldable pub first_byte : ℕ → Decoder × Text
first_byte b =
    if ltb b 0x80
    then (idle, b ∷ [])
    else if ltb b 0xC2
    then (idle, replacement ∷ [])
    else if ltb b 0xE0
    then begin (b - 0xC0) 1 0x80 0xBF
    else if ltb b 0xE1
    then begin (b - 0xE0) 2 0xA0 0xBF
    else if ltb b 0xED
    then begin (b - 0xE0) 2 0x80 0xBF
    else if ltb b 0xEE
    then begin (b - 0xE0) 2 0x80 0x9F
    else if ltb b 0xF0
    then begin (b - 0xE0) 2 0x80 0xBF
    else if ltb b 0xF1
    then begin (b - 0xF0) 3 0x90 0xBF
    else if ltb b 0xF4
    then begin (b - 0xF0) 3 0x80 0xBF
    else if ltb b 0xF5
    then begin (b - 0xF0) 3 0x80 0x8F
    else (idle, replacement ∷ [])

-- One of the needed bytes; a byte out of range ends the sequence and is read again.
unfoldable pub next_byte : Pending → ℕ → Decoder × Text
unfolding first_byte
next_byte p b =
    if leb p.low b && leb b p.high
    then if leb p.needed 1
      then (idle, (p.value * 64 + (b - 0x80)) ∷ [])
      else begin (p.value * 64 + (b - 0x80)) (p.needed - 1) 0x80 0xBF
    else let (d, out) = first_byte b in (d, replacement ∷ out)

unfoldable pub read_byte : Decoder → ℕ → Decoder × Text
unfolding first_byte next_byte
read_byte idle b = first_byte b
read_byte (pending p) b = next_byte p b

unfoldable pub decode : Decoder → Bytes → Text
unfolding read_byte
decode idle [] = []
decode (pending p) [] = replacement ∷ []
decode d (b ∷ bs) = let (d', out) = read_byte d b in out ++ decode d' bs

-- `String::from_utf8_lossy`.
unfoldable pub from_utf8_lossy : Bytes → Text
unfolding decode
from_utf8_lossy = decode idle
