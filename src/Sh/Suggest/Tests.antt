-- ===== src/Sh/Suggest/Tests.antt =====
-- Words and commands, and the theorems at concrete inputs.
use coeleo_os.Base.{◌≡◌, refl, arith, List, [], ◌∷◌, some, inr}
use coeleo_os.Base.Bytes.{Bytes, codes}
use coeleo_os.Sh.Suggest.{levenshtein, rows, next_cells, first_row, suggest_command, closest}
use coeleo_os.Sh.Suggest.Edits.{IsLeast}
use coeleo_os.Sh.Suggest.Table.{levenshtein_lem}
use coeleo_os.Sh.Suggest.Closest.{SuggestOk, suggest_command_lem}

kitten : levenshtein (codes "kitten") (codes "sitting") ≡ 3
unfolding levenshtein rows next_cells first_row
kitten = refl

levenshtein_lem_example :
    IsLeast (codes "kitten") (codes "sitting") (levenshtein (codes "kitten") (codes "sitting"))
levenshtein_lem_example =
    levenshtein_lem (codes "kitten") (codes "sitting") (inr (inr (omega arith, omega arith)))

abbrev commands : List Bytes
commands = codes "cat" ∷ codes "mkdir" ∷ codes "ls" ∷ codes "cp" ∷ []

nearest : suggest_command (codes "mkdri") commands ≡ some (codes "mkdir")
unfolding suggest_command closest levenshtein rows next_cells first_row
nearest = refl

suggest_command_lem_example :
    SuggestOk (codes "mkdri") commands (suggest_command (codes "mkdri") commands)
suggest_command_lem_example =
    suggest_command_lem (codes "mkdri") (omega arith) commands
      (omega arith, (omega arith, (omega arith, (omega arith, tt))))
