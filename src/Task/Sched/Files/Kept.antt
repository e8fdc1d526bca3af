-- ===== src/Task/Sched/Files/Kept.antt =====
-- The calls on pipes that the current process makes keep what holds between calls.
use coeleo_os.Base.{
  ℕ, ◌+◌, ◌-◌, ◌≤◌, ◌≡◌, refl, ap, ◌∙◌, arith, Bool, true, false, Option, none, some, length, ◌==◌,
  if◌then◌else◌,
}
use coeleo_os.Base.Bytes.{Bytes}
use coeleo_os.Task.Pipe
use coeleo_os.Task.Pipe.{Pipes, Read, Write}
use coeleo_os.Task.Pipe.Inv.{AllValid, read-AllValid, write-AllValid}
use coeleo_os.Task.Fd.{FdTable, fd_max, err, sys_close, sys_pipe}
use coeleo_os.Task.Fd.Count.{ends, refs, read_ends, write_ends}
use coeleo_os.Task.Fd.Calls.{sys_close-Balanced, sys_pipe-Balanced}
use coeleo_os.Task.Fd.Sound.{sys_close-AllValid, sys_pipe-AllValid}
use coeleo_os.Task.Sched.{Pcb, Sched, at_slot, wake_pipe}
use coeleo_os.Task.Sched.Files.{
  with_table, put_table, close_in, close_for, close_fd, pipe_in, pipe_for, make_pipe, read_outcome,
  read_round, write_outcome, write_round,
}
use coeleo_os.Task.Sched.Spawn.{fds_of}
use coeleo_os.Task.Sched.Balance.{total, total-update_files, refs-le-total}
use coeleo_os.Task.Sched.Running.{runs_at-update}
use coeleo_os.Task.Sched.Pids.{same_pids, pid_in-update}
use coeleo_os.Task.Sched.Tables.{Sized-update_files}
use coeleo_os.Task.Sched.Sound.{Sound, wake_pipe-Sound}
use coeleo_os.Task.Sched.Calls.{yield_block-Sound}
use coeleo_os.Task.Sched.Steps.{for_pipe_read, for_pipe_write}

module _ {F : Type 0} (pipes : Pipes) (s : Sched) (v : Sound F pipes s) where
  -- What the other processes hold.
  others : Pcb → ℕ → Bool → ℕ
  others p i w = total s.procs i w - refs p.fds i w

  held :
      (c : ℕ) {p : Pcb}
      → at_slot s.procs c ≡ some p
      → (i : ℕ) (w : Bool) → refs p.fds i w ≤ total s.procs i w
  held c e i w = omega (arith, refs-le-total c s.procs i w, ap (λ o. refs (fds_of o) i w) e)

  split :
      (c : ℕ) {p : Pcb}
      → at_slot s.procs c ≡ some p
      → (i : ℕ) (w : Bool) → ends pipes i w ≡ refs p.fds i w + others p i w
  unfolding others
  split c e i w = omega (arith, v.balanced i w, held c e i w)

  -- The current process gets another table, and the pipes change as the table does.
  put_table-Sound :
      (c : ℕ) {p : Pcb} (pipes' : Pipes) (t : FdTable)
      → at_slot s.procs c ≡ some p
      → ((i : ℕ) (w : Bool) → ends pipes' i w ≡ refs t i w + others p i w)
      → length t ≤ fd_max
      → AllValid pipes'
      → Sound F pipes' (put_table s c t)
  unfolding others
  put_table-Sound c {p} pipes' t e bal size valid = record {
    balanced = λ i w.
        omega (arith, bal i w, total-update_files (with_table t) c s.procs i w e, held c e i w);
    only_current = λ k r. v.only_current k (runs_at-update (with_table t) (λ q g. g) c s.procs k r);
    unique = λ z n.
        same_pids s (put_table s c t) (pid_in-update (with_table t) (λ q. refl) c s.procs) refl
          (v.unique z n);
    sized = Sized-update_files (with_table t) (λ q. size) c s.procs v.sized;
    pipes_valid = valid;
  }

  fits : (c : ℕ) {p : Pcb} → at_slot s.procs c ≡ some p → length p.fds ≤ fd_max
  fits c e = omega (arith, v.sized c, ap (λ o. length (fds_of o)) e)

  pub close_fd-Sound : (fd : ℕ) → Sound F (close_fd pipes s fd).0 (close_fd pipes s fd).1
  unfolding close_fd
  close_fd-Sound fd = for_slot s.current
    where
      closed :
          (c : ℕ) (o : Option Pcb)
          → at_slot s.procs c ≡ o
          → Sound F (close_in pipes s c fd o).0 (close_in pipes s c fd o).1
      closed c none e = v
      closed c (some p) e = by_test ((sys_close pipes p.fds fd).2 == err)
        where
          given : Sched
          given = put_table s c (sys_close pipes p.fds fd).1

          given-Sound : Sound F (sys_close pipes p.fds fd).0 given
          given-Sound =
              let (valid, size) = sys_close-AllValid pipes p.fds fd v.pipes_valid in
              put_table-Sound c (sys_close pipes p.fds fd).0 (sys_close pipes p.fds fd).1 e
                (sys_close-Balanced (others p) pipes p.fds fd (split c e))
                (omega (arith, size, fits c e)) valid

          by_test :
              (b : Bool)
              → Sound F (sys_close pipes p.fds fd).0 (if b then given else wake_pipe given)
          by_test true = given-Sound
          by_test false = wake_pipe-Sound (sys_close pipes p.fds fd).0 given given-Sound

      for_slot : (c : Option ℕ) → Sound F (close_for pipes s fd c).0 (close_for pipes s fd c).1
      for_slot none = v
      for_slot (some c) = closed c (at_slot s.procs c) refl

  pub make_pipe-Sound : Sound F (make_pipe pipes s).0 (make_pipe pipes s).1
  unfolding make_pipe
  make_pipe-Sound = for_slot s.current
    where
      made :
          (c : ℕ) (o : Option Pcb)
          → at_slot s.procs c ≡ o
          → Sound F (pipe_in pipes s c o).0 (pipe_in pipes s c o).1
      made c none e = v
      made c (some p) e =
          let (valid, size) = sys_pipe-AllValid p.fds (fits c e) pipes v.pipes_valid in
          put_table-Sound c (sys_pipe pipes p.fds).0 (sys_pipe pipes p.fds).1 e
            (sys_pipe-Balanced (others p) pipes p.fds (fits c e) (split c e))
            (omega (arith, size, fits c e)) valid

      for_slot : (c : Option ℕ) → Sound F (pipe_for pipes s c).0 (pipe_for pipes s c).1
      for_slot none = v
      for_slot (some c) = made c (at_slot s.procs c) refl

  -- The pipes change, but not the counts of their ends.
  moved-Sound :
      (pipes' : Pipes)
      → ((i : ℕ) (w : Bool) → ends pipes' i w ≡ ends pipes i w)
      → AllValid pipes'
      → Sound F pipes' s
  moved-Sound pipes' same valid = record {
    balanced = λ i w. same i w ∙ v.balanced i w;
    only_current = v.only_current;
    unique = v.unique;
    sized = v.sized;
    pipes_valid = valid;
  }

  pub read_round-Sound :
      (id n rsp : ℕ) → Sound F (read_round pipes s id n rsp).0 (read_round pipes s id n rsp).1
  unfolding read_round
  read_round-Sound id n rsp = by_reply (Pipe.read pipes id n).1
    where
      qs : Pipes
      qs = (Pipe.read pipes id n).0

      qs-Sound : Sound F qs s
      qs-Sound = moved-Sound qs (read_ends pipes id n) (read-AllValid pipes id v.pipes_valid n)

      by_reply : (r : Read) → Sound F (read_outcome qs s rsp r).0 (read_outcome qs s rsp r).1
      by_reply (Pipe.bytes m) = wake_pipe-Sound qs s qs-Sound
      by_reply Pipe.eof = qs-Sound
      by_reply Pipe.would_block =
          yield_block-Sound qs (wake_pipe s) (wake_pipe-Sound qs s qs-Sound) for_pipe_read rsp

  pub write_round-Sound :
      (id : ℕ) (src : Bytes) (rsp : ℕ)
      → Sound F (write_round pipes s id src rsp).0 (write_round pipes s id src rsp).1
  unfolding write_round
  write_round-Sound id src rsp = by_reply (Pipe.write pipes id src).1
    where
      qs : Pipes
      qs = (Pipe.write pipes id src).0

      qs-Sound : Sound F qs s
      qs-Sound =
          moved-Sound qs (write_ends pipes id src) (write-AllValid pipes id v.pipes_valid src)

      by_reply : (r : Write) → Sound F (write_outcome qs s rsp r).0 (write_outcome qs s rsp r).1
      by_reply (Pipe.taken m) = wake_pipe-Sound qs s qs-Sound
      by_reply Pipe.broken = qs-Sound
      by_reply Pipe.full =
          yield_block-Sound qs (wake_pipe s) (wake_pipe-Sound qs s qs-Sound) for_pipe_write rsp
