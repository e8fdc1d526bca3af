-- ===== src/Task/Sched/Files.antt =====
-- The calls of kernel/src/task/fd.rs that touch the pipes, made by the current process: the table of
-- open files, the pipes and the processes that wait for them together.
pub mod Kept
use coeleo_os.Base.{ℕ, ◌≡◌, Bool, true, false, Option, none, some, ◌==◌, if◌then◌else◌}
use coeleo_os.Base.Bytes.{Bytes}
use coeleo_os.Task.Pipe
use coeleo_os.Task.Pipe.{Pipes, Read, Write}
use coeleo_os.Task.Fd.{FdTable, err, sys_close, sys_pipe}
use coeleo_os.Task.Sched.{
  Pcb, Sched, at_slot, update, wake_pipe, blocked_pipe_read, blocked_pipe_write,
}
use coeleo_os.Task.Sched.Switch.{yield_block}

abbrev pub with_table : FdTable → Pcb → Pcb
with_table t p = record p { fds = t }

-- `with_fds`, once the table is `t`.
abbrev pub put_table : Sched → ℕ → FdTable → Sched
put_table s c t = record s { procs = update (with_table t) c s.procs }

abbrev pub close_wake : ℕ → Sched → Sched
close_wake r s = if r == err then s else wake_pipe s

abbrev pub close_in : Pipes → Sched → ℕ → ℕ → Option Pcb → Pipes × Sched × ℕ
close_in pipes s c fd none = (pipes, s, err)
close_in pipes s c fd (some p) =
    let (pipes', t, r) = sys_close pipes p.fds fd in (pipes', close_wake r (put_table s c t), r)

abbrev pub close_for : Pipes → Sched → ℕ → Option ℕ → Pipes × Sched × ℕ
close_for pipes s fd none = (pipes, s, err)
close_for pipes s fd (some c) = close_in pipes s c fd (at_slot s.procs c)

-- `sys_close`.
unfoldable pub close_fd : Pipes → Sched → ℕ → Pipes × Sched × ℕ
close_fd pipes s fd = close_for pipes s fd s.current

abbrev pub pipe_in : Pipes → Sched → ℕ → Option Pcb → Pipes × Sched × Option (ℕ × ℕ)
pipe_in pipes s c none = (pipes, s, none)
pipe_in pipes s c (some p) =
    let (pipes', t, r) = sys_pipe pipes p.fds in (pipes', put_table s c t, r)

abbrev pub pipe_for : Pipes → Sched → Option ℕ → Pipes × Sched × Option (ℕ × ℕ)
pipe_for pipes s none = (pipes, s, none)
pipe_for pipes s (some c) = pipe_in pipes s c (at_slot s.procs c)

-- `sys_pipe` of the current process, past the check of its buffer.
unfoldable pub make_pipe : Pipes → Sched → Pipes × Sched × Option (ℕ × ℕ)
make_pipe pipes s = pipe_for pipes s s.current

-- One round of the loop in `read_pipe`, past the check of the caller's buffer, with what the call
-- returns: `none` for a process that is blocked, and does the round again when it is woken.
abbrev pub read_outcome : Pipes → Sched → ℕ → Read → Pipes × Sched × Option ℕ
read_outcome pipes s rsp (Pipe.bytes n) = (pipes, wake_pipe s, some n)
read_outcome pipes s rsp Pipe.eof = (pipes, s, some 0)
read_outcome pipes s rsp Pipe.would_block =
    (pipes, yield_block (wake_pipe s) blocked_pipe_read rsp, none)

unfoldable pub read_round : Pipes → Sched → ℕ → ℕ → ℕ → Pipes × Sched × Option ℕ
read_round pipes s id n rsp = read_outcome (Pipe.read pipes id n).0 s rsp (Pipe.read pipes id n).1

-- The same for `write_pipe`.
abbrev pub write_outcome : Pipes → Sched → ℕ → Write → Pipes × Sched × Option ℕ
write_outcome pipes s rsp (Pipe.taken n) = (pipes, wake_pipe s, some n)
write_outcome pipes s rsp Pipe.broken = (pipes, s, some err)
write_outcome pipes s rsp Pipe.full =
    (pipes, yield_block (wake_pipe s) blocked_pipe_write rsp, none)

unfoldable pub write_round : Pipes → Sched → ℕ → Bytes → ℕ → Pipes × Sched × Option ℕ
write_round pipes s id src rsp =
    write_outcome (Pipe.write pipes id src).0 s rsp (Pipe.write pipes id src).1
