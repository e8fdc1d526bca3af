-- ===== src/Sh/Browse/Tests.antt =====
-- A line that is typed, two that were entered, and the theorem at concrete inputs.
use coeleo_os.Base.{◌≡◌, List, [], ◌∷◌, length, take}
use coeleo_os.Sh.Line.Tests.{typed, typed-IsValid}
use coeleo_os.Sh.History.Ring.{entries}
use coeleo_os.Sh.History.Tests.{two_lines, two_lines-IsValid, two_lines-view}
use coeleo_os.Sh.Browse.Shown.{Arrow, up, down, arrows, shown, depth_after, browse_lem}

abbrev keys : List Arrow
keys = up ∷ up ∷ up ∷ down ∷ []

browse_lem_example :
    take (arrows (two_lines, typed) keys).1.n (arrows (two_lines, typed) keys).1.line
    ≡ shown
        (entries two_lines)
        (take typed.n typed.line)
        (depth_after (length (entries two_lines)) 0 keys)
browse_lem_example = browse_lem two_lines typed keys two_lines-IsValid typed-IsValid two_lines-view
