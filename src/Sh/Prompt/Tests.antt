-- ===== src/Sh/Prompt/Tests.antt =====
-- Typing at the prompt, and the theorems at concrete inputs.
use coeleo_os.Base.{◌≡◌, refl, [], ◌∷◌, ◌++◌, List, true, some, replicate}
use coeleo_os.Base.Bytes.{Bytes, codes}
use coeleo_os.Sh.Line.{line_cap}
use coeleo_os.Sh.Line.Text.{Key, byte, rub_out, left, to_word_left, text_of}
use coeleo_os.Sh.Line.Tests.{typed, typed-IsValid}
use coeleo_os.Sh.History.{trim_bytes}
use coeleo_os.Sh.History.Ring.{entries, remember}
use coeleo_os.Sh.History.Tests.{two_lines, two_lines-IsValid}
use coeleo_os.Sh.Prompt.{Outside, by_key, final, feed_all, started}
use coeleo_os.Sh.Prompt.Fits.{Keeps, StaysIn}
use coeleo_os.Sh.Prompt.Bounds.{feed_all-Keeps, started-IsValid}
use coeleo_os.Sh.Prompt.Session.{Entered, codes_of_all, edit_all, at_rest, session_refines}

-- No completion, and a clipboard that holds `ls`.
abbrev pub outside : Outside
outside = record { complete = λ line n. (line, n); clip = some (codes "ls") }

outside-StaysIn : StaysIn outside.complete
outside-StaysIn = record { size = λ line n size room. size; room = λ line n size room. room }

abbrev keys : List Key
keys = byte 97 ∷ left ∷ to_word_left ∷ rub_out ∷ byte 98 ∷ []

-- `ESC [ 1 ; 5 D`, Ctrl and the left arrow, is one step to the left, not a word.
ctrl_left : final b'D' (codes "1;5") ≡ by_key left
unfolding final
ctrl_left = refl

session_refines_example :
    Entered
      (edit_all keys (text_of typed)).0
      (remember (entries two_lines) (trim_bytes (edit_all keys (text_of typed)).0))
      (feed_all outside true (codes_of_all keys ++ (b'\n' ∷ [])) (at_rest two_lines typed))
session_refines_example =
    session_refines outside keys two_lines typed two_lines-IsValid typed-IsValid refl

-- Ctrl+R, `cat`, Enter, Ctrl+V, an arrow, Enter.
abbrev bytes : Bytes
bytes = 0x12 ∷ 99 ∷ 97 ∷ 116 ∷ b'\n' ∷ 0x16 ∷ 0x1B ∷ b'[' ∷ b'A' ∷ b'\n' ∷ []

feed_all-Keeps_example :
    Keeps (feed_all outside true bytes (started (replicate line_cap 0) two_lines))
feed_all-Keeps_example =
    feed_all-Keeps outside outside-StaysIn true bytes (started (replicate line_cap 0) two_lines)
      (started-IsValid (replicate line_cap 0) two_lines refl two_lines-IsValid)
