-- ===== src/Sh/History/Tests.antt =====
-- Lines that were entered, and the theorem at a concrete input.
use coeleo_os.Base.{◌≡◌, refl, List, [], ◌∷◌, none, some}
use coeleo_os.Base.Bytes.{Bytes, codes, bytes_eq}
use coeleo_os.Sh.Line.{back_while}
use coeleo_os.Sh.History.{History, new, push, trim_bytes, peek_entry}
use coeleo_os.Sh.History.Ring.{IsValid, push_lem, new-IsValid}
use coeleo_os.Sh.History.Queries.{Answers, push_all, remember_all, history_refines}

abbrev entered : List Bytes
entered = codes "ls" ∷ codes " cat a " ∷ codes "cat a" ∷ []

abbrev pub two_lines : History
two_lines = push_all new entered

pub two_lines-IsValid : IsValid two_lines
two_lines-IsValid =
    (push_lem (push (push new (codes "ls")) (codes " cat a "))
      (push_lem (push new (codes "ls")) (push_lem new new-IsValid (codes "ls")).1
        (codes " cat a ")).1
      (codes "cat a")).1

pub two_lines-view : two_lines.view ≡ none
unfolding new push trim_bytes back_while bytes_eq
two_lines-view = refl

newest : peek_entry two_lines 0 ≡ some (codes "cat a")
unfolding new push trim_bytes back_while bytes_eq peek_entry
newest = refl

history_refines_example : Answers (push_all new entered) (remember_all [] entered)
history_refines_example = history_refines entered
