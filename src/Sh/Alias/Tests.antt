-- ===== src/Sh/Alias/Tests.antt =====
-- Runs of the table of aliases, and its theorems at a concrete table.
use coeleo_os.Base.{◌≡◌, refl, [], ◌∷◌, true, none, some, if◌then◌else◌}
use coeleo_os.Base.Bytes.{codes, bytes_eq}
use coeleo_os.Sh.Alias.{AliasTable, replace, set, get, remove}
use coeleo_os.Sh.Alias.Laws.{get-set}

abbrev two_aliases : AliasTable
two_aliases =
    record { name = codes "ll"; val = codes "ls -l" }
    ∷ record { name = codes "h"; val = codes "help" }
    ∷ []

accepted : (set two_aliases (codes "h") (codes "history")).1 ≡ true
unfolding set replace bytes_eq
accepted = refl

get-set_example : get (set two_aliases (codes "h") (codes "history")).0 (codes "ll") ≡ (
    if bytes_eq (codes "h") (codes "ll")
    then some (codes "history")
    else get two_aliases (codes "ll"))
get-set_example = get-set two_aliases (codes "h") (codes "history") accepted (codes "ll")

removed : get (remove two_aliases (codes "ll")).0 (codes "ll") ≡ none
unfolding remove get bytes_eq
removed = refl
