-- ===== src/Task/Sched/Inserted.antt =====
-- What `insert_pcb` of spawn.rs keeps of what holds between calls.
use coeleo_os.Base.{
  ℕ, ◌≡◌, refl, arith, set, if◌then◌else◌, Bool, true, false, Option, none, some, ◌==◌,
  Option-cases, inl, inr,
}
use coeleo_os.Base.Bytes.{Bytes}
use coeleo_os.Task.Pipe.{Pipes}
use coeleo_os.Task.Pipe.Inv.{AllValid}
use coeleo_os.Task.Fd.{FdTable, new_stdio}
use coeleo_os.Task.Fd.Sound.{Fits, inherit_from-AllValid}
use coeleo_os.Task.Sched.{Pcb, Procs, Sched}
use coeleo_os.Task.Sched.Spawn.{
  Start, free_slot, fds_for, insert_at, insert_in, insert_pcb, child_fds, find_pid, new_pcb,
  mark_parent,
}
use coeleo_os.Task.Sched.Ends.{insert_pcb-Balanced}
use coeleo_os.Task.Sched.Running.{insert_pcb-OnlyCurrent}
use coeleo_os.Task.Sched.Pids.{insert_pcb-Unique}
use coeleo_os.Task.Sched.Tables.{Sized, Sized-set, Sized-mark}
use coeleo_os.Task.Sched.Sound.{Sound, Counts}

-- What a new process leaves: the current slot, and a counter that was not at its end if it is not.
abbrev Kept : Sched → Pipes × Sched × Option ℕ → Type 0
Kept s r = (r.1.current ≡ s.current) × (Counts r.1 → Counts s)

insert_at-Kept :
    (s : Sched) (st : Start) (name : Bytes) (parent slot : ℕ) (r : Pipes × Option FdTable)
    → Kept s (insert_at s st name parent slot r)
insert_at-Kept s st name parent slot (pipes, none) = (refl, λ c. c)
insert_at-Kept s st name parent slot (pipes, some fds) = (refl, λ c. omega arith)

pub insert_pcb-Kept :
    (pipes : Pipes) (s : Sched) (st : Start) (name : Bytes) (parent stdin_fd stdout_fd : ℕ)
    → Kept s (insert_pcb pipes s st name parent stdin_fd stdout_fd)
unfolding insert_pcb
insert_pcb-Kept pipes s st name parent stdin_fd stdout_fd =
    elim (Option-cases (free_slot s.procs)) [
      | inl e ↦ rw (e, insert_pcb) (refl, λ c. c)
      | inr (slot, e) ↦
          rw (e, insert_pcb)
            (insert_at-Kept s st name parent slot (fds_for pipes s.procs parent stdin_fd stdout_fd))
    ]

fds_for-Fits :
    (pipes : Pipes) (ps : Procs) (parent stdin_fd stdout_fd : ℕ)
    → AllValid pipes
    → AllValid (fds_for pipes ps parent stdin_fd stdout_fd).0
      × Fits (fds_for pipes ps parent stdin_fd stdout_fd).1
unfolding fds_for new_stdio
fds_for-Fits pipes ps parent stdin_fd stdout_fd h = by_test (parent == 0)
  where
    inherited : Option Pcb → Pipes × Option FdTable
    inherited p = child_fds pipes stdin_fd stdout_fd p

    result : Bool → Pipes × Option FdTable
    result b = if b then (pipes, some new_stdio) else inherited (find_pid parent ps)

    child : (p : Option Pcb) → AllValid (inherited p).0 × Fits (inherited p).1
    child none = (h, tt)
    child (some p) = inherit_from-AllValid pipes p.fds stdin_fd stdout_fd h

    by_test : (b : Bool) → AllValid (result b).0 × Fits (result b).1
    by_test true = (h, omega arith)
    by_test false = child (find_pid parent ps)

insert_at-Sized :
    (s : Sched) (st : Start) (name : Bytes) (parent slot : ℕ) (r : Pipes × Option FdTable)
    → AllValid r.0 × Fits r.1
    → Sized s.procs
    → AllValid (insert_at s st name parent slot r).0
      × Sized (insert_at s st name parent slot r).1.procs
unfolding new_pcb
insert_at-Sized s st name parent slot (pipes, none) h z = (h.0, z)
insert_at-Sized s st name parent slot (pipes, some fds) h z = (h.0, by_test (parent == 0))
  where
    procs : Procs
    procs = set s.procs slot (some (new_pcb st name parent s.next_pid fds))

    procs-Sized : Sized procs
    procs-Sized = Sized-set s.procs slot (some (new_pcb st name parent s.next_pid fds)) h.1 z

    by_test : (b : Bool) → Sized (if b then procs else mark_parent parent s.next_pid procs)
    by_test true = procs-Sized
    by_test false = λ k. omega (arith, Sized-mark parent s.next_pid procs k, procs-Sized k)

insert_pcb-Sized :
    (pipes : Pipes) (s : Sched) (st : Start) (name : Bytes) (parent stdin_fd stdout_fd : ℕ)
    → AllValid pipes
    → Sized s.procs
    → AllValid (insert_pcb pipes s st name parent stdin_fd stdout_fd).0
      × Sized (insert_pcb pipes s st name parent stdin_fd stdout_fd).1.procs
unfolding insert_pcb
insert_pcb-Sized pipes s st name parent stdin_fd stdout_fd h z = inserted (free_slot s.procs)
  where
    inserted :
        (o : Option ℕ)
        → AllValid (insert_in pipes s st name parent stdin_fd stdout_fd o).0
          × Sized (insert_in pipes s st name parent stdin_fd stdout_fd o).1.procs
    inserted none = (h, z)
    inserted (some slot) =
        insert_at-Sized s st name parent slot (fds_for pipes s.procs parent stdin_fd stdout_fd)
          (fds_for-Fits pipes s.procs parent stdin_fd stdout_fd h) z

pub insert_pcb-Sound :
    {F : Type 0} (pipes : Pipes) (s : Sched)
    → Sound F pipes s
    → (st : Start) (name : Bytes) (parent stdin_fd stdout_fd : ℕ)
    → Sound F
        (insert_pcb pipes s st name parent stdin_fd stdout_fd).0
        (insert_pcb pipes s st name parent stdin_fd stdout_fd).1
insert_pcb-Sound pipes s v st name parent stdin_fd stdout_fd =
    let kept = insert_pcb-Kept pipes s st name parent stdin_fd stdout_fd in
    record {
      balanced = insert_pcb-Balanced pipes s st name parent stdin_fd stdout_fd v.balanced;
      only_current =
          insert_pcb-OnlyCurrent s v.only_current pipes st name parent stdin_fd stdout_fd;
      unique = λ z c.
          insert_pcb-Unique pipes s st name parent (v.unique z (kept.1 c)) (kept.1 c) stdin_fd
            stdout_fd;
      sized = (insert_pcb-Sized pipes s st name parent stdin_fd stdout_fd v.pipes_valid v.sized).1;
      pipes_valid =
          (insert_pcb-Sized pipes s st name parent stdin_fd stdout_fd v.pipes_valid v.sized).0;
    }
