-- ===== src/Base/Utf8.antt =====
-- What `core::str::from_utf8` accepts: the well-formed sequences of the Unicode standard, with no
-- overlong form, no surrogate, and nothing above U+10FFFF.
use coeleo_os.Base.Tests.{leb, ltb, if◌then◌else◌}
use Prim.Native.Nat.{ℕ}
use mathlib.Core.Bool.{Bool, true, false, ◌&&◌, ◌||◌}
use mathlib.Core.List.{List, [], ◌∷◌}

abbrev pub between : ℕ → ℕ → ℕ → Bool
between lo hi b = leb lo b && leb b hi

-- The ranges of the bytes after a first byte of two, three or four; none for a byte that starts
-- nothing.
unfoldable pub after_lead : ℕ → List (ℕ × ℕ)
after_lead b =
    if between 0xC2 0xDF b
    then (0x80, 0xBF) ∷ []
    else if between 0xE0 0xE0 b
    then (0xA0, 0xBF) ∷ (0x80, 0xBF) ∷ []
    else if between 0xED 0xED b
    then (0x80, 0x9F) ∷ (0x80, 0xBF) ∷ []
    else if between 0xE1 0xEF b
    then (0x80, 0xBF) ∷ (0x80, 0xBF) ∷ []
    else if between 0xF0 0xF0 b
    then (0x90, 0xBF) ∷ (0x80, 0xBF) ∷ (0x80, 0xBF) ∷ []
    else if between 0xF1 0xF3 b
    then (0x80, 0xBF) ∷ (0x80, 0xBF) ∷ (0x80, 0xBF) ∷ []
    else if between 0xF4 0xF4 b
    then (0x80, 0x8F) ∷ (0x80, 0xBF) ∷ (0x80, 0xBF) ∷ []
    else []

abbrev pub pending : List (ℕ × ℕ) → Bool
pending [] = false
pending (r ∷ rs) = true

abbrev pub starts : ℕ → Bool
starts b = ltb b 0x80 || pending (after_lead b)

-- The bytes are valid if those that are still expected come first.
unfoldable pub valid_after : List (ℕ × ℕ) → List ℕ → Bool
valid_after [] [] = true
valid_after (r ∷ rs) [] = false
valid_after [] (b ∷ bs) = starts b && valid_after (after_lead b) bs
valid_after ((lo, hi) ∷ rs) (b ∷ bs) = between lo hi b && valid_after rs bs

unfoldable pub is_utf8 : List ℕ → Bool
is_utf8 bs = valid_after [] bs
