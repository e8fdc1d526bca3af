-- ===== src/Task/Sched/Reached.antt =====
-- From boot on, whatever is called: pipes and open files agree and only the current process runs; and
-- when pids are unique.
use coeleo_os.Base.{
  ℕ, zero, suc, ◌≡◌, refl, sym, ap, ◌∙◌, arith, length, replicate, Bool, true, false, Option, none,
  some, inl, inr,
}
use coeleo_os.Base.Bytes.{Bytes}
use coeleo_os.Task.Pipe
use coeleo_os.Task.Pipe.{Pipes}
use coeleo_os.Task.Fd.Count.{ends}
use coeleo_os.Task.Pipe.Inv.{AllValid, initial-AllValid}
use coeleo_os.Task.Fd.{err}
use coeleo_os.Task.Sched.Files.Kept.{
  close_fd-Sound, make_pipe-Sound, read_round-Sound, write_round-Sound,
}
use coeleo_os.Task.Sched.{Sched, at_slot, max_proc, initial}
use coeleo_os.Task.Sched.Switch.{run_now}
use coeleo_os.Task.Sched.Spawn.{Start, insert_pcb, fds_of}
use coeleo_os.Task.Sched.Balance.{Balanced, total-update}
use coeleo_os.Task.Sched.Running.{OnlyCurrent, started}
use coeleo_os.Task.Sched.Pids.{Unique, same_pids, pid_in-update}
use coeleo_os.Task.Sched.Tables.{Sized, Sized-update}
use coeleo_os.Task.Sched.Sound.{
  Sound, weaken, Counts, AllNone, wake_stdin-Sound, schedule_next-Sound,
}
use coeleo_os.Task.Sched.Calls.{
  user_exit-Sound, try_reap-Sound, sys_kill-Sound, kill_foreground-Sound, yield_block-Sound,
  timer_from_user-Sound, reap_orphans-Sound,
}
use coeleo_os.Task.Sched.Steps.{
  cleared, first_runs, run_with, Kernel, Step, launch, spawn, exit, kill, interrupt, reap, orphans,
  block, retry, timer, close, pipe, read, write, key, Reach, booted, after,
}
use coeleo_os.Task.Sched.Inserted.{insert_pcb-Kept, insert_pcb-Sound}

-- `run_with` sets the counter back: pids stay unique if no process is left.
cleared-Sound :
    {F : Type 0} (pipes : Pipes) (s : Sched)
    → Sound F pipes s
    → (exclusive : Bool) → s.current ≡ none
    → Sound (F × AllNone s.procs) pipes (cleared s exclusive)
cleared-Sound pipes s v exclusive e = record {
  balanced = v.balanced;
  only_current = λ k r. absurd (cc (v.only_current k r, e));
  unique = λ z c. record {
    used = λ k n h. absurd (cc (z.1 k));
    apart = λ i j n h g. absurd (cc (z.1 i));
  };
  sized = v.sized;
  pipes_valid = v.pipes_valid;
}

-- The first process starts while none is current.
first_runs-Sound :
    {F : Type 0} (r : Pipes × Sched × Option ℕ)
    → Sound F r.0 r.1
    → r.1.current ≡ none
    → Sound F (first_runs r).0 (first_runs r).1
first_runs-Sound (pipes, s, none) v e = v
first_runs-Sound (pipes, s, some slot) v e = record {
  balanced = λ i w. v.balanced i w ∙ sym (total-update run_now (λ p. refl) slot s.procs i w);
  only_current = λ k h. elim (started slot s.procs k h) [
    | inl f ↦ ap some f
    | inr g ↦ absurd (cc (v.only_current k g, e))
  ];
  unique = λ z c.
      same_pids s (first_runs (pipes, s, some slot)).1
        (pid_in-update run_now (λ p. refl) slot s.procs) refl (v.unique z c);
  sized = λ k. omega (arith, Sized-update run_now (λ p. omega arith) slot s.procs k, v.sized k);
  pipes_valid = v.pipes_valid;
}

run_with-Sound :
    {F : Type 0} (pipes : Pipes) (s : Sched)
    → Sound F pipes s
    → (st : Option Start) (name : Bytes) (exclusive : Bool) → s.current ≡ none
    → Sound
        (F × AllNone s.procs)
        (run_with pipes s st name exclusive).0
        (run_with pipes s st name exclusive).1
unfolding run_with
run_with-Sound pipes s v none name exclusive e = cleared-Sound pipes s v exclusive e
run_with-Sound pipes s v (some st) name exclusive e =
    first_runs-Sound (insert_pcb pipes (cleared s exclusive) st name 0 err err)
      (insert_pcb-Sound pipes (cleared s exclusive) (cleared-Sound pipes s v exclusive e) st name 0
        err err)
      (insert_pcb-Kept pipes (cleared s exclusive) st name 0 err err).0

-- A call sets the counter of pids back only where no process is left.
abbrev pub FromEmpty : {k l : Kernel} → Step k l → Type 0
FromEmpty (launch pipes s st name exclusive e) = AllNone s.procs
FromEmpty (spawn pipes s st name parent stdin_fd stdout_fd) = Unit
FromEmpty (exit pipes s cur fault rsp e) = Unit
FromEmpty (kill pipes s target) = Unit
FromEmpty (interrupt pipes s) = Unit
FromEmpty (reap pipes s) = Unit
FromEmpty (orphans pipes s n) = Unit
FromEmpty (block pipes s w rsp) = Unit
FromEmpty (retry pipes s rsp) = Unit
FromEmpty (timer pipes s frame rsp) = Unit
FromEmpty (key pipes s) = Unit
FromEmpty (close pipes s fd) = Unit
FromEmpty (pipe pipes s) = Unit
FromEmpty (read pipes s id n rsp) = Unit
FromEmpty (write pipes s id src rsp) = Unit

Step-Sound :
    {F : Type 0} {k l : Kernel} (st : Step k l) → Sound F k.0 k.1 → Sound (F × FromEmpty st) l.0 l.1
Step-Sound (launch pipes s st name exclusive e) v = run_with-Sound pipes s v st name exclusive e
Step-Sound (spawn pipes s st name parent stdin_fd stdout_fd) v =
    weaken (λ z. z.0) (insert_pcb-Sound pipes s v st name parent stdin_fd stdout_fd)
Step-Sound (exit pipes s cur fault rsp e) v =
    weaken (λ z. z.0) (user_exit-Sound pipes s v cur fault rsp)
Step-Sound (kill pipes s target) v = weaken (λ z. z.0) (sys_kill-Sound pipes s v target)
Step-Sound (interrupt pipes s) v = weaken (λ z. z.0) (kill_foreground-Sound pipes s v)
Step-Sound (reap pipes s) v = weaken (λ z. z.0) (try_reap-Sound pipes s v)
Step-Sound (orphans pipes s n) v = weaken (λ z. z.0) (reap_orphans-Sound n pipes s v)
Step-Sound (block pipes s w rsp) v = weaken (λ z. z.0) (yield_block-Sound pipes s v w rsp)
Step-Sound (retry pipes s rsp) v = weaken (λ z. z.0) (schedule_next-Sound pipes s v rsp)
Step-Sound (timer pipes s frame rsp) v =
    weaken (λ z. z.0) (timer_from_user-Sound pipes s v frame rsp)
Step-Sound (key pipes s) v = weaken (λ z. z.0) (wake_stdin-Sound pipes s v)
Step-Sound (close pipes s fd) v = weaken (λ z. z.0) (close_fd-Sound pipes s v fd)
Step-Sound (pipe pipes s) v = weaken (λ z. z.0) (make_pipe-Sound pipes s v)
Step-Sound (read pipes s id n rsp) v = weaken (λ z. z.0) (read_round-Sound pipes s v id n rsp)
Step-Sound (write pipes s id src rsp) v = weaken (λ z. z.0) (write_round-Sound pipes s v id src rsp)

no_ends : (i : ℕ) (v : Bool) → ends Pipe.initial i v ≡ 0
unfolding Pipe.initial
no_ends zero true = refl
no_ends zero false = refl
no_ends (suc zero) true = refl
no_ends (suc zero) false = refl
no_ends (suc (suc zero)) true = refl
no_ends (suc (suc zero)) false = refl
no_ends (suc (suc (suc zero))) true = refl
no_ends (suc (suc (suc zero))) false = refl
no_ends (suc (suc (suc (suc i)))) v = refl

pub nobody : (n k : ℕ) → at_slot (replicate n none) k ≡ none
nobody zero k = refl
nobody (suc n) zero = refl
nobody (suc n) (suc k) = nobody n k

boot-Sound : {F : Type 0} → Sound F Pipe.initial initial
boot-Sound = record {
  balanced = λ i v. omega (arith, no_ends i v);
  only_current = λ k r. cc (nobody max_proc k);
  unique = λ z c. record {
    used = λ k n h. cc (nobody max_proc k);
    apart = λ i j n h g. cc (nobody max_proc i);
  };
  sized = λ k. omega (arith, ap (λ o. length (fds_of o)) (nobody max_proc k));
  pipes_valid = initial-AllValid;
}

-- What holds between any two calls.
pub record Valid (pipes : Pipes) (s : Sched) : Type 0 where
  pub balanced : Balanced pipes s.procs
  pub only_current : OnlyCurrent s
  pub sized : Sized s.procs
  pub pipes_valid : AllValid pipes

Sound-Valid : {F : Type 0} {pipes : Pipes} {s : Sched} → Sound F pipes s → Valid pipes s
Sound-Valid v = record {
  balanced = v.balanced;
  only_current = v.only_current;
  sized = v.sized;
  pipes_valid = v.pipes_valid;
}

Valid-Sound : {pipes : Pipes} {s : Sched} → Valid pipes s → Sound ⊥ pipes s
Valid-Sound v = record {
  balanced = v.balanced;
  only_current = v.only_current;
  unique = λ z c. absurd z;
  sized = v.sized;
  pipes_valid = v.pipes_valid;
}

-- If before a call every pipe counts exactly the ends that the processes hold, no process but the
-- current one is running, no table of open files has more than 16 slots, and every pipe is valid,
-- then all this holds after the call.
pub Step-Valid : {k l : Kernel} → Step k l → Valid k.0 k.1 → Valid l.0 l.1
Step-Valid st v = Sound-Valid (Step-Sound st (Valid-Sound v))

-- On the way to a state the counter of pids was set back only where no process was left.
abbrev pub AllFromEmpty : {k : Kernel} → Reach k → Type 0
AllFromEmpty booted = Unit
AllFromEmpty (after r st) = AllFromEmpty r × FromEmpty st

Reach-Sound : {k : Kernel} (r : Reach k) → Sound (AllFromEmpty r) k.0 k.1
Reach-Sound booted = boot-Sound
Reach-Sound (after r st) = Step-Sound st (Reach-Sound r)

-- In every state that calls lead to from boot on, every pipe counts exactly the ends that the
-- processes hold and is valid, no process but the current one is running, and no table of open files
-- has more than 16 slots.
pub Reach-Valid : {k : Kernel} → Reach k → Valid k.0 k.1
Reach-Valid r = Sound-Valid (Reach-Sound r)

-- If on the way from boot to a state programs were launched by `run_with` only while there was no
-- process, and the counter of pids has not reached its end, then no two processes share a pid, and
-- every pid is below the counter.
pub Reach-Unique : {k : Kernel} (r : Reach k) → AllFromEmpty r → Counts k.1 → Unique k.1
Reach-Unique r from_empty c = (Reach-Sound r).unique from_empty c
