-- ===== src/Task/Sched/Sound.antt =====
-- What holds between any two calls of the scheduler, and that the changes of which the calls are
-- made keep it.
use coeleo_os.Base.{
  ℕ, ◌-◌, ◌<◌, ◌≤◌, length, ◌^◌, ◌≡◌, refl, sym, ap, ◌∙◌, arith, [], ◌∷◌, Bool, true, false, Option,
  none, some, ◌==◌, if◌then◌else◌, Option-cases, inl, inr,
}
use coeleo_os.Task.Pipe.{Pipes}
use coeleo_os.Task.Pipe.Inv.{AllValid}
use coeleo_os.Task.Fd.{close_all}
use coeleo_os.Task.Fd.Sound.{close_all-AllValid, length-close_all}
use coeleo_os.Task.Sched.Tables.{Sized, table_size, Sized-each, Sized-update, Sized-set}
use coeleo_os.Task.Sched.{
  Pcb, Procs, Sched, at_slot, update, each, wake_if_stdin, wake_stdin, wake_pipe, wake_waiter,
  wake_if_waits, wake_if_pipe, wake_parent_of_slot, parent_of,
}
use coeleo_os.Task.Sched.Switch.{
  leave, demote, run_now, switch_to, schedule_next, pick_runnable, unload_all, drop_pcb,
  leave_scheduler,
}
use coeleo_os.Task.Sched.Spawn.{make_zombie, to_zombie, reap_slot, fds_of}
use coeleo_os.Task.Sched.Balance.{Balanced, total-each, total-switch_to}
use coeleo_os.Task.Sched.Ends.{make_zombie-Balanced, reap_slot-Balanced, leave_scheduler-Balanced}
use coeleo_os.Task.Sched.Running.{
  OnlyCurrent, runs_at-set-none, make_zombie-OnlyCurrent, wake_stdin-OnlyCurrent,
  wake_pipe-OnlyCurrent, wake_waiter-OnlyCurrent, unload_all-AllNone, switch_to-OnlyCurrent,
}
use coeleo_os.Task.Sched.Pids.{
  Unique, same_pids, pid_in-each, make_zombie-Unique, reap_slot-Unique, switch_to-Unique,
}

-- No process at all.
abbrev pub AllNone : Procs → Type 0
AllNone ps = (k : ℕ) → at_slot ps k ≡ none

-- A counter of pids that has not reached its end.
abbrev pub Counts : Sched → Type 0
Counts s = s.next_pid < 2 ^ 32 - 1

-- What holds between any two calls, and that pids are unique if `F` does.
pub record Sound (F : Type 0) (pipes : Pipes) (s : Sched) : Type 0 where
  pub balanced : Balanced pipes s.procs
  pub only_current : OnlyCurrent s
  pub unique : F → Counts s → Unique s
  pub sized : Sized s.procs
  pub pipes_valid : AllValid pipes

pub weaken :
    {F G : Type 0} {pipes : Pipes} {s : Sched} → (G → F) → Sound F pipes s → Sound G pipes s
weaken f v = record {
  balanced = v.balanced;
  only_current = v.only_current;
  unique = λ g c. v.unique (f g) c;
  sized = v.sized;
  pipes_valid = v.pipes_valid;
}

Sized-leave :
    (c : Option ℕ) (slot rsp : ℕ) (ps : Procs) (k : ℕ)
    → table_size (leave c slot rsp ps) k ≤ table_size ps k
Sized-leave none slot rsp ps k = omega arith
Sized-leave (some c) slot rsp ps k =
    ground (arith, Sized-update (demote rsp) (λ p. omega arith) c ps k)

unload_all-AllValid :
    (pipes : Pipes) (ps : Procs) → AllValid pipes → AllValid (unload_all pipes ps).0
unfolding unload_all
unload_all-AllValid pipes [] h = h
unload_all-AllValid pipes (none ∷ ps) h = unload_all-AllValid pipes ps h
unload_all-AllValid pipes (some p ∷ ps) h =
    unload_all-AllValid (close_all pipes p.fds).0 ps (close_all-AllValid pipes p.fds h)

module _ {F : Type 0} (pipes : Pipes) (s : Sched) (v : Sound F pipes s) where
  -- A change of the processes that touches neither their files nor their pids.
  each-Sound :
      (f : Pcb → Pcb)
      → ((p : Pcb) → (f p).fds ≡ p.fds)
      → ((p : Pcb) → (f p).pid ≡ p.pid)
      → OnlyCurrent (record s { procs = each f s.procs })
      → Sound F pipes (record s { procs = each f s.procs })
  each-Sound f files pids runs = record {
    balanced = λ i w. v.balanced i w ∙ sym (total-each f files s.procs i w);
    only_current = runs;
    unique = λ z c.
        same_pids s (record s { procs = each f s.procs }) (pid_in-each f pids s.procs) refl
          (v.unique z c);
    sized = λ k.
        omega (arith, Sized-each f (λ p. omega (arith, ap length (files p))) s.procs k, v.sized k);
    pipes_valid = v.pipes_valid;
  }

  pub wake_stdin-Sound : Sound F pipes (wake_stdin s)
  unfolding wake_stdin
  wake_stdin-Sound =
      each-Sound (λ p. record p { state = wake_if_stdin p.state }) (λ p. refl) (λ p. refl)
        (wake_stdin-OnlyCurrent s v.only_current)

  pub wake_pipe-Sound : Sound F pipes (wake_pipe s)
  unfolding wake_pipe
  wake_pipe-Sound = each-Sound _ (λ p. refl) (λ p. refl) (wake_pipe-OnlyCurrent s v.only_current)

  pub wake_waiter-Sound : (parent : ℕ) → Sound F pipes (wake_waiter parent s)
  unfolding wake_waiter
  wake_waiter-Sound parent =
      each-Sound (wake_if_waits parent) (λ p. ground arith) (λ p. ground arith)
        (wake_waiter-OnlyCurrent parent s v.only_current)

  pub wake_parent_of_slot-Sound : (slot : ℕ) → Sound F pipes (wake_parent_of_slot slot s)
  unfolding wake_parent_of_slot
  wake_parent_of_slot-Sound slot = by_test (parent_of (at_slot s.procs slot) == 0)
    where
      by_test :
          (b : Bool)
          → Sound F pipes (if b then s else wake_waiter (parent_of (at_slot s.procs slot)) s)
      by_test true = v
      by_test false = wake_waiter-Sound (parent_of (at_slot s.procs slot))

  pub make_zombie-Sound :
      (slot : ℕ) (fault : Bool)
      → Sound F (make_zombie pipes s slot fault).0 (make_zombie pipes s slot fault).1
  unfolding make_zombie wake_pipe
  make_zombie-Sound slot fault = record {
    balanced = make_zombie-Balanced pipes s slot fault v.balanced;
    only_current = make_zombie-OnlyCurrent s v.only_current pipes slot fault;
    unique = λ z c. make_zombie-Unique pipes s slot fault (v.unique z c);
    sized = λ k. omega (
      arith,
      Sized-each (λ p. record p { state = wake_if_pipe p.state }) (λ p. omega arith)
          (update (to_zombie pipes fault) slot s.procs) k,
      Sized-update (to_zombie pipes fault) (λ p. omega (arith, length-close_all pipes p.fds)) slot
          s.procs k,
      v.sized k,
    );
    pipes_valid = close_all-AllValid pipes (fds_of (at_slot s.procs slot)) v.pipes_valid;
  }

  pub reap_slot-Sound :
      (slot : ℕ) (p : Option Pcb)
      → at_slot s.procs slot ≡ p
      → Sound F (reap_slot pipes s slot p).0 (reap_slot pipes s slot p).1
  unfolding drop_pcb
  reap_slot-Sound slot none e = v
  reap_slot-Sound slot (some p) e = record {
    balanced = reap_slot-Balanced pipes s slot (some p) e v.balanced;
    only_current = λ k r. v.only_current k (runs_at-set-none s.procs slot k r);
    unique = λ z c. reap_slot-Unique pipes s slot (some p) (v.unique z c);
    sized = Sized-set s.procs slot none (omega arith) v.sized;
    pipes_valid = close_all-AllValid pipes p.fds v.pipes_valid;
  }

  pub schedule_next-Sound : (rsp : ℕ) → Sound F pipes (schedule_next s rsp)
  unfolding schedule_next switch_to
  schedule_next-Sound rsp = elim (Option-cases (pick_runnable s)) [
    | inl e ↦ rw (e, schedule_next) v
    | inr (slot, e) ↦ rw (e, schedule_next) (switched slot)
  ]
    where
      switched : (slot : ℕ) → Sound F pipes (switch_to s slot rsp)
      switched slot = record {
        balanced = λ i w. v.balanced i w ∙ sym (total-switch_to s slot rsp i w);
        only_current = switch_to-OnlyCurrent s v.only_current slot rsp;
        unique = λ z c. switch_to-Unique s slot rsp (v.unique z c);
        sized = λ k. omega (
          arith,
          Sized-update run_now (λ p. omega arith) slot (leave s.current slot rsp s.procs) k,
          Sized-leave s.current slot rsp s.procs k,
          v.sized k,
        );
        pipes_valid = v.pipes_valid;
      }

  pub leave_scheduler-Sound : Sound F (leave_scheduler pipes s).0 (leave_scheduler pipes s).1
  unfolding leave_scheduler
  leave_scheduler-Sound = record {
    balanced = leave_scheduler-Balanced pipes s v.balanced;
    only_current = λ k r. absurd (cc (unload_all-AllNone pipes s.procs k));
    unique = λ z c. record {
      used = λ k n h. absurd (cc (emptied k));
      apart = λ i j n h g. absurd (cc (emptied i));
    };
    sized = λ k. omega (arith, ap (λ o. length (fds_of o)) (emptied k));
    pipes_valid = unload_all-AllValid pipes s.procs v.pipes_valid;
  }
    where
      emptied : (k : ℕ) → at_slot (unload_all pipes s.procs).1 k ≡ none
      emptied k = unload_all-AllNone pipes s.procs k
