-- ===== src/Input/Kbd/Tests.antt =====
-- Keys at the keyboard, and the theorems at concrete inputs.
use coeleo_os.Base.{◌≡◌, refl, arith, List, [], ◌∷◌, ◌++◌, true, replicate}
use coeleo_os.Task.Pipe
use coeleo_os.Task.Sched
use coeleo_os.Sh.Line.Text.{Key, byte, rub_out, left, text_of}
use coeleo_os.Sh.Line.Tests.{typed, typed-IsValid}
use coeleo_os.Sh.History.{trim_bytes}
use coeleo_os.Sh.History.Ring.{entries, remember}
use coeleo_os.Sh.History.Tests.{two_lines, two_lines-IsValid}
use coeleo_os.Sh.Prompt.{feed_all}
use coeleo_os.Sh.Prompt.Session.{Entered, edit_all, at_rest}
use coeleo_os.Sh.Prompt.Tests.{outside}
use coeleo_os.Input.Kbd.{
  World, empty, bytes_empty, enter, up, dispatch, enqueue, enqueue_or_kill, enqueue_csi,
}
use coeleo_os.Input.Kbd.Fifo.{
  Op, put, get, contents, ring, fifo, answers, empty-IsValid, ring_refines,
}
use coeleo_os.Input.Kbd.Typed.{on_terminal, dispatch_all, typed_refines}

abbrev ops : List Op
ops = put 97 ∷ put 98 ∷ get ∷ get ∷ get ∷ []

ring_refines_example : answers ring ops empty ≡ answers fifo ops []
ring_refines_example = ring_refines ops

abbrev at_start : World
at_start = record { queue = empty; pipes = Pipe.initial; sched = Sched.initial }

nothing_waits : bytes_empty empty ≡ true
unfolding bytes_empty
nothing_waits = refl

-- 62 bytes wait, and of the sequence for the Up key only the first byte is kept.
abbrev nearly_full : World
nearly_full = record at_start { queue = record { bytes = replicate 64 97; head = 62; tail = 0 } }

cut_short : contents (dispatch on_terminal up nearly_full).queue ≡ replicate 62 97 ++ (0x1B ∷ [])
unfolding enqueue_csi enqueue_or_kill enqueue
cut_short = refl

abbrev keys : List Key
keys = byte 97 ∷ left ∷ rub_out ∷ byte 98 ∷ []

typed_refines_example :
    Entered
      (edit_all keys (text_of typed)).0
      (remember (entries two_lines) (trim_bytes (edit_all keys (text_of typed)).0))
      (feed_all outside true
        (contents (dispatch on_terminal enter (dispatch_all on_terminal keys at_start)).queue)
        (at_rest two_lines typed))
typed_refines_example =
    typed_refines outside keys two_lines typed at_start two_lines-IsValid typed-IsValid
      empty-IsValid refl refl (omega arith)
