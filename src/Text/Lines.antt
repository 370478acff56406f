-- ===== src/Text/Lines.antt =====
-- `str::lines`.
use rust_daily.Base.{List, [], ◌∷◌, ◌≡◌, refl, is_empty, if◌then◌else◌}
use rust_daily.Text.{Text, codes, text_eq, split}

-- A line ends in `\n` or `\r\n`.
strip_return : Text → Text
strip_return [] = []
strip_return (c ∷ s) = if text_eq (c ∷ s) (codes "\r") then [] else c ∷ strip_return s

-- All parts but the last stand before a `\n`; an empty last part is no line.
line_parts : List Text → List Text
unfolding strip_return
line_parts [] = []
line_parts (p ∷ []) = if is_empty p then [] else p ∷ []
line_parts (p ∷ q ∷ ps) = strip_return p ∷ line_parts (q ∷ ps)

unfoldable pub lines : Text → List Text
unfolding line_parts split
lines s = line_parts (split b'\n' s)

lines_test : lines (codes "a\r\n\nb\rc\n") ≡ codes "a" ∷ [] ∷ codes "b\rc" ∷ []
unfolding lines text_eq
lines_test = refl
