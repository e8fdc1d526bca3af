-- ===== src/Task/Sched/Steps.antt =====
-- kernel/src/task/sched/spawn.rs and switch.rs together: what the kernel's shell, the current
-- process, the keyboard and the timer can do to the scheduler and the pipes.
use coeleo_os.Base.{ℕ, ◌≡◌, Bool, Option, none, some}
use coeleo_os.Base.Bytes.{Bytes}
use coeleo_os.Task.Pipe
use coeleo_os.Task.Pipe.{Pipes}
use coeleo_os.Task.Fd.{err}
use coeleo_os.Task.Sched.{
  Sched, State, IrqFrame, initial, blocked_stdin, blocked_wait, blocked_pipe_read,
  blocked_pipe_write, wake_stdin, at_slot, update,
}
use coeleo_os.Task.Sched.Switch.{run_now, schedule_next, yield_block, timer_from_user}
use coeleo_os.Task.Sched.Files.{close_fd, make_pipe, read_round, write_round}
use coeleo_os.Task.Sched.Spawn.{
  Start, insert_pcb, pid_at, user_exit, kill_foreground, try_reap, reap_orphans, sys_kill,
}

-- The state that `run_with` starts from.
abbrev pub cleared : Sched → Bool → Sched
cleared s exclusive = record s { exclusive = exclusive; next_pid = 1; init_pid = 0; current = none }

abbrev pub first_runs : Pipes × Sched × Option ℕ → Pipes × Sched
first_runs (pipes, s, none) = (pipes, s)
first_runs (pipes, s, some slot) = (
  pipes,
  record s {
    procs = update run_now slot s.procs;
    current = some slot;
    init_pid = pid_at (at_slot s.procs slot);
  },
)

-- `run_with`, up to the change to the first process; `none` if `write_argv` fails.
unfoldable pub run_with : Pipes → Sched → Option Start → Bytes → Bool → Pipes × Sched
run_with pipes s none name exclusive = (pipes, cleared s exclusive)
run_with pipes s (some st) name exclusive =
    first_runs (insert_pcb pipes (cleared s exclusive) st name 0 err err)

-- What a process waits for when it blocks: the callers of `yield_block`.
pub data Wait : Type 0 where
  for_stdin : Wait
  for_child : Wait
  for_pipe_read : Wait
  for_pipe_write : Wait

abbrev pub blocked : Wait → State
blocked for_stdin = blocked_stdin
blocked for_child = blocked_wait
blocked for_pipe_read = blocked_pipe_read
blocked for_pipe_write = blocked_pipe_write

abbrev pub Kernel : Type 0
Kernel = Pipes × Sched

abbrev pub boot : Kernel
boot = (Pipe.initial, initial)

-- One call. The kernel's shell launches a program when no process is current. The other calls come
-- from the current process, from interrupts, from the launcher of the desktop, which spawns whether
-- or not a process is current, and from a further round of `schedule_next`.
pub data Step : Kernel → Kernel → Type 0 where
  launch :
      (pipes : Pipes) (s : Sched) (st : Option Start) (name : Bytes) (exclusive : Bool)
      → s.current ≡ none
      → Step (pipes, s) (run_with pipes s st name exclusive)
  spawn :
      (pipes : Pipes) (s : Sched) (st : Start) (name : Bytes) (parent stdin_fd stdout_fd : ℕ)
      → Step
          (pipes, s)
          (
            (insert_pcb pipes s st name parent stdin_fd stdout_fd).0,
            (insert_pcb pipes s st name parent stdin_fd stdout_fd).1,
          )
  exit :
      (pipes : Pipes) (s : Sched) (cur : ℕ) (fault : Bool) (rsp : ℕ)
      → s.current ≡ some cur
      → Step (pipes, s) (user_exit pipes s cur fault rsp)
  kill :
      (pipes : Pipes) (s : Sched) (target : ℕ)
      → Step (pipes, s) ((sys_kill pipes s target).0, (sys_kill pipes s target).1)
  interrupt :
      (pipes : Pipes) (s : Sched)
      → Step (pipes, s) ((kill_foreground pipes s).0, (kill_foreground pipes s).1)
  reap : (pipes : Pipes) (s : Sched) → Step (pipes, s) ((try_reap pipes s).0, (try_reap pipes s).1)
  orphans : (pipes : Pipes) (s : Sched) (n : ℕ) → Step (pipes, s) (reap_orphans n pipes s)
  block :
      (pipes : Pipes) (s : Sched) (w : Wait) (rsp : ℕ)
      → Step (pipes, s) (pipes, yield_block s (blocked w) rsp)
  retry : (pipes : Pipes) (s : Sched) (rsp : ℕ) → Step (pipes, s) (pipes, schedule_next s rsp)
  timer :
      (pipes : Pipes) (s : Sched) (frame : IrqFrame) (rsp : ℕ)
      → Step (pipes, s) (pipes, timer_from_user s frame rsp)
  close :
      (pipes : Pipes) (s : Sched) (fd : ℕ)
      → Step (pipes, s) ((close_fd pipes s fd).0, (close_fd pipes s fd).1)
  pipe :
      (pipes : Pipes) (s : Sched) → Step (pipes, s) ((make_pipe pipes s).0, (make_pipe pipes s).1)
  read :
      (pipes : Pipes) (s : Sched) (id n rsp : ℕ)
      → Step (pipes, s) ((read_round pipes s id n rsp).0, (read_round pipes s id n rsp).1)
  write :
      (pipes : Pipes) (s : Sched) (id : ℕ) (src : Bytes) (rsp : ℕ)
      → Step (pipes, s) ((write_round pipes s id src rsp).0, (write_round pipes s id src rsp).1)
  key : (pipes : Pipes) (s : Sched) → Step (pipes, s) (pipes, wake_stdin s)

-- The states after some calls from boot on.
pub data Reach : Kernel → Type 0 where
  booted : Reach boot
  after : {k l : Kernel} → Reach k → Step k l → Reach l
