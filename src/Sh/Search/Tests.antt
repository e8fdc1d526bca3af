-- ===== src/Sh/Search/Tests.antt =====
-- A search in two lines, and the theorem at a concrete input.
use coeleo_os.Base.{◌≡◌, refl, arith, some, min, ◌+◌}
use coeleo_os.Base.Bytes.{codes, bytes_eq}
use coeleo_os.Sh.Line.{back_while}
use coeleo_os.Sh.History.{new, push, trim_bytes, get_at}
use coeleo_os.Sh.History.Tests.{two_lines}
use coeleo_os.Sh.Search.{contains_subslice, find_from, find_match}
use coeleo_os.Sh.Search.Found.{Last, find_match-Last}

by_a : find_match two_lines (codes "at") 1 ≡ some 1
unfolding find_match find_from contains_subslice get_at new push trim_bytes back_while bytes_eq
by_a = refl

by_l : find_match two_lines (codes "ls") 1 ≡ some 0
unfolding find_match find_from contains_subslice get_at new push trim_bytes back_while bytes_eq
by_l = refl

find_match-Last_example :
    Last two_lines (codes "ls") (min (1 + 1) two_lines.count) (find_match two_lines (codes "ls") 1)
find_match-Last_example = find_match-Last two_lines (codes "ls") 1 (omega arith)
