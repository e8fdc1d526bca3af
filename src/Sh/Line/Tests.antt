-- ===== src/Sh/Line/Tests.antt =====
-- Lines in the buffer, and the theorem at a concrete input.
use coeleo_os.Base.{◌≡◌, refl, arith, ◌++◌, replicate}
use coeleo_os.Base.Bytes.{codes}
use coeleo_os.Sh.Line.{Line, kill_word, back_while, copy_down, insert, shift_up}
use coeleo_os.Sh.Line.Text.{IsValid, cut_word, text_of, edit, press}
use coeleo_os.Sh.Line.Keys.{Presses, press_refines}

-- `cat notes` with the cursor behind `not`.
abbrev pub typed : Line
typed = record { line = codes "cat notes" ++ replicate 119 0; n = 9; cur = 7 }

pub typed-IsValid : IsValid typed
typed-IsValid = record { size = refl; room = omega arith; cur_in = omega arith }

without_word : text_of (kill_word typed) ≡ (codes "cat es", 4)
unfolding kill_word back_while copy_down
without_word = refl

inserted : text_of (insert 98 typed) ≡ (codes "cat notbes", 8)
unfolding insert shift_up
inserted = refl

press_refines_example :
    Presses typed typed-IsValid (press cut_word typed) (edit cut_word (text_of typed))
press_refines_example = press_refines typed typed-IsValid cut_word
