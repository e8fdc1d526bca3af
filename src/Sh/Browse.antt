-- ===== src/Sh/Browse.antt =====
-- userspace/apps/sh/src/line.rs: the Up and Down keys, which put lines of the history in the place
-- of the line that is being typed, and that line back.
pub mod Shown
mod Tests
use coeleo_os.Base.{
  ℕ, zero, suc, ◌+◌, ◌-◌, ◌%◌, ◌≤◌, ◌<◌, ◌≡◌, refl, sym, ap, ap₂, ◌∙◌, subst, min, arith, List, [],
  ◌∷◌, ◌++◌, Bool, true, false, Option, none, some, length, length-take, take, drop, get_or, leb,
  ltb, ◌==◌, if◌then◌else◌, Bool-cases, inl, inr,
}
use coeleo_os.Base.Bytes.{Bytes}
use coeleo_os.Base.Slices.{take-append, take-all}
use coeleo_os.Base.View.{length-put}
use coeleo_os.Fs.Gpt.{put}
use coeleo_os.Sh.Line.{line_cap, Line}
use coeleo_os.Sh.Line.Text
use coeleo_os.Sh.History.{hist_cap, History, slot, get}
use coeleo_os.Sh.History.Ring
use coeleo_os.Sh.History.Ring.{nth}

abbrev pub paint_replace : Line → Bytes → Line
paint_replace e src = record {
  line = put 0 (take (min (length src) (length e.line)) src) e.line;
  n = min (length src) (length e.line);
  cur = min (length src) (length e.line);
}

-- Past the oldest line the key does nothing.
abbrev pub up_older : History → Line → ℕ → Bool → History × Line
up_older h e age true = (h, e)
up_older h e age false = (record h { view = some age }, paint_replace e (get h age))

abbrev pub up_from : History → Line → Option ℕ → History × Line
up_from h e none =
    let g = record h { draft = put 0 (take e.n e.line) h.draft; draft_len = e.n; view = some 0 } in
    (g, paint_replace e (get g 0))
up_from h e (some age) = up_older h e (age + 1) (leb h.count (age + 1))

unfoldable pub hist_up : History → Line → History × Line
hist_up h e = if h.count == 0 then (h, e) else up_from h e h.view

abbrev pub down_from : History → Line → Option ℕ → History × Line
down_from h e none = (h, e)
down_from h e (some zero) = (record h { view = none }, paint_replace e (take h.draft_len h.draft))
down_from h e (some (suc age)) = (record h { view = some age }, paint_replace e (get h age))

unfoldable pub hist_down : History → Line → History × Line
hist_down h e = down_from h e h.view
