-- ===== src/Task/Fd/Tests.antt =====
-- Runs of fd.rs, and its theorems at concrete inputs.
use coeleo_os.Base.{
  ℕ, zero, suc, ◌+◌, ◌≡◌, refl, ◌∷◌, Bool, true, false, none, some, replicate, arith,
}
use coeleo_os.Task.Pipe.{
  Pipes, initial, alloc, alloc_from, clone_end, clone_pipe, drop_end, drop_pipe,
}
use coeleo_os.Task.Fd.{
  FdTable, OpenFd, pipe, stdin, file, fd_max, err, new_stdio, sys_pipe, sys_close, inherit_from,
  inherit_stdout, replace, clone_slot, clone_open, close_all, get, take, drop_open,
}
use coeleo_os.Task.Fd
use coeleo_os.Task.Fd.Count.{ends, refs}
use coeleo_os.Task.Fd.Inherit.{given, inherit_from_lem, close_all_lem, Counted}
use coeleo_os.Task.Fd.Calls.{Balanced, sys_pipe-Balanced}

nobody : ℕ → Bool → ℕ
nobody i v = 0

initial-Balanced : Balanced nobody initial new_stdio
unfolding nobody initial new_stdio
initial-Balanced zero true = refl
initial-Balanced zero false = refl
initial-Balanced (suc zero) true = refl
initial-Balanced (suc zero) false = refl
initial-Balanced (suc (suc zero)) true = refl
initial-Balanced (suc (suc zero)) false = refl
initial-Balanced (suc (suc (suc zero))) true = refl
initial-Balanced (suc (suc (suc zero))) false = refl
initial-Balanced (suc (suc (suc (suc i)))) v = refl

-- The pipe table and the descriptors after a first `pipe`.
abbrev piped : Pipes × FdTable
piped = ((sys_pipe initial new_stdio).0, (sys_pipe initial new_stdio).1)

piped-Balanced : Balanced nobody piped.0 piped.1
unfolding new_stdio
piped-Balanced = sys_pipe-Balanced nobody initial new_stdio (omega arith) initial-Balanced

pipe_fds : (sys_pipe initial new_stdio).2 ≡ some (3, 4)
unfolding sys_pipe alloc alloc_from initial new_stdio Fd.alloc Fd.alloc_from
pipe_fds = refl

-- A table with one free slot: the second end finds no room, and all is taken back.
abbrev crowded : FdTable
crowded = none ∷ replicate 15 (some stdin)

rolled_back : sys_pipe initial crowded ≡ (initial, crowded, none)
unfolding sys_pipe alloc alloc_from drop_end drop_pipe initial Fd.alloc Fd.alloc_from take get
rolled_back = refl

-- A child that writes into the pipe.
inherit_from_lem_example :
    ends (inherit_from piped.0 piped.1 err 4).0 0 true
    ≡ ends piped.0 0 true + given (inherit_from piped.0 piped.1 err 4).1 0 true
inherit_from_lem_example = inherit_from_lem piped.0 piped.1 err 4 0 true

two_writers : ends (inherit_from piped.0 piped.1 err 4).0 0 true ≡ 2
unfolding sys_pipe alloc alloc_from initial new_stdio Fd.alloc Fd.alloc_from inherit_from
    inherit_stdout clone_slot clone_open clone_end clone_pipe replace take get drop_open
two_writers = refl

piped-Counted : Counted piped.0 piped.1
piped-Counted i v = omega (arith, piped-Balanced i v)

close_all_lem_example :
    (ends (close_all piped.0 piped.1).0 0 true + refs piped.1 0 true ≡ ends piped.0 0 true)
    × (refs (close_all piped.0 piped.1).1 0 true ≡ 0)
close_all_lem_example = close_all_lem piped.0 piped.1 piped-Counted 0 true
