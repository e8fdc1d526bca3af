-- ===== src/Task/Pipe/Tests.antt =====
-- Runs of pipe.rs, and its theorems at concrete inputs.
use coeleo_os.Base.{◌≡◌, refl, List, [], ◌∷◌, true, false, none, some}
use coeleo_os.Task.Pipe.{
  initial, Op, allocs, clones, drops, reads, writes, made, cloned, dropped, got, put, bytes, eof,
  would_block, taken, broken, step, run, alloc, alloc_from, clone_end, clone_pipe, drop_end,
  drop_pipe, read, read_pipe, write, write_pipe, copy_in, copy_out, zeros,
}
use coeleo_os.Task.Pipe.Channel
use coeleo_os.Task.Pipe.Refine.{run_refines}

-- A writer and a reader; the writer leaves, and the reader sees the end.
abbrev script : List Op
script =
    reads 0 8
    ∷ allocs
    ∷ reads 0 8
    ∷ writes 0 (5 ∷ 6 ∷ 7 ∷ [])
    ∷ reads 0 2
    ∷ drops 0 true
    ∷ reads 0 8
    ∷ reads 0 8
    ∷ clones 0 true
    ∷ drops 0 true
    ∷ drops 0 false
    ∷ writes 0 (5 ∷ [])
    ∷ []

-- A clone after the last writer has left opens the write end again.
script_replies :
    run initial script
    ≡ got eof []
      ∷ made (some 0)
      ∷ got would_block []
      ∷ put (taken 3)
      ∷ got (bytes 2) (5 ∷ 6 ∷ [])
      ∷ dropped
      ∷ got (bytes 1) (7 ∷ [])
      ∷ got eof []
      ∷ cloned true
      ∷ dropped
      ∷ dropped
      ∷ put broken
      ∷ []
unfolding run step initial alloc alloc_from clone_end clone_pipe drop_end drop_pipe read read_pipe
    write write_pipe copy_in copy_out zeros
script_replies = refl

run_refines_example : run initial script ≡ Channel.run (none ∷ none ∷ none ∷ none ∷ []) script
run_refines_example = run_refines script
