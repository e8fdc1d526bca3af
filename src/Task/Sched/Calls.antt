-- ===== src/Task/Sched/Calls.antt =====
-- Every call of spawn.rs and switch.rs keeps what holds between calls.
use coeleo_os.Base.{
  ℕ, zero, suc, ◌^◌, ◌≡◌, refl, sym, ◌∙◌, arith, Bool, true, false, not, ◌||◌, ◌&&◌, Option, none,
  some, ◌==◌, if◌then◌else◌, Option-cases, inl, inr, ◌%◌,
}
use coeleo_os.Task.Pipe.{Pipes}
use coeleo_os.Task.Fd.{err}
use coeleo_os.Task.Sched.{
  State, Pcb, Procs, Sched, IrqFrame, is_running, is_zombie, is_blocked_wait, at_slot, update,
  position, wake_parent_of_slot, parent_of,
}
use coeleo_os.Task.Sched.Switch.{
  run_now, schedule_next, block, block_current, yield_block, preempt, preempt_for, none_or_zombie,
  timer_at, timer_from_user, leave_scheduler, pick_runnable_other,
}
use coeleo_os.Task.Sched.Spawn.{
  make_zombie, pid_at, user_exit, current_of, is_dead_child, reap_for, reap_child, try_reap,
  reap_orphans, kill_for, kill_found, kill_at, sys_kill, last_of, kill_victim, kill_last,
  kill_foreground,
}
use coeleo_os.Task.Sched.Balance.{total-update}
use coeleo_os.Task.Sched.Running.{blocked-OnlyCurrent, preempt_for-OnlyCurrent}
use coeleo_os.Task.Sched.Pids.{same_pids, pid_in-update}
use coeleo_os.Task.Sched.Tables.{Sized-update}
use coeleo_os.Task.Sched.Sound.{
  Sound, make_zombie-Sound, reap_slot-Sound, schedule_next-Sound, leave_scheduler-Sound,
  wake_waiter-Sound, wake_parent_of_slot-Sound,
}
use coeleo_os.Task.Sched.Steps.{Wait, blocked, for_stdin, for_child, for_pipe_read, for_pipe_write}

module _ {F : Type 0} (pipes : Pipes) (s : Sched) (v : Sound F pipes s) where
  pub user_exit-Sound :
      (slot : ℕ) (fault : Bool) (rsp : ℕ)
      → Sound F (user_exit pipes s slot fault rsp).0 (user_exit pipes s slot fault rsp).1
  unfolding user_exit
  user_exit-Sound slot fault rsp =
      by_test (dead.exclusive || (pid_at (at_slot dead.procs slot) == dead.init_pid))
    where
      dead : Sched
      dead = (make_zombie pipes s slot fault).1

      pipes' : Pipes
      pipes' = (make_zombie pipes s slot fault).0

      result : Bool → Pipes × Sched
      result b =
          if b
          then leave_scheduler pipes' dead
          else (pipes', schedule_next (wake_parent_of_slot slot dead) rsp)

      dead-Sound : Sound F pipes' dead
      dead-Sound = make_zombie-Sound pipes s v slot fault

      by_test : (b : Bool) → Sound F (result b).0 (result b).1
      by_test true = leave_scheduler-Sound pipes' dead dead-Sound
      by_test false =
          schedule_next-Sound pipes' (wake_parent_of_slot slot dead)
            (wake_parent_of_slot-Sound pipes' dead dead-Sound slot) rsp

  pub try_reap-Sound : Sound F (try_reap pipes s).0 (try_reap pipes s).1
  unfolding try_reap
  try_reap-Sound = for_current (current_of s s.current)
    where
      child :
          (cur : Pcb) (o : Option ℕ)
          → Sound F (reap_child pipes s cur o).0 (reap_child pipes s cur o).1
      child cur none = v
      child cur (some k) = reap_slot-Sound pipes s v k (at_slot s.procs k) refl

      for_current : (p : Option Pcb) → Sound F (reap_for pipes s p).0 (reap_for pipes s p).1
      for_current none = v
      for_current (some cur) = child cur (position (is_dead_child cur.pid) s.procs)

  pub sys_kill-Sound :
      (target : ℕ) → Sound F (sys_kill pipes s target).0 (sys_kill pipes s target).1
  unfolding sys_kill
  sys_kill-Sound target = for_current (current_of s s.current)
    where
      n : ℕ
      n = target % 2 ^ 32

      at :
          (cur : Pcb) (k : ℕ) (p : Option Pcb)
          → Sound F (kill_at pipes s cur k p).0 (kill_at pipes s cur k p).1
      at cur k none = v
      at cur k (some p) = by_tests (not (p.parent == cur.pid)) (is_zombie p.state)
        where
          result : Bool → Bool → Pipes × Sched × ℕ
          result a b =
              if a
              then (pipes, s, err)
              else if b
              then (pipes, s, err)
              else (let (pipes', s') = make_zombie pipes s k false in (pipes', s', 0))

          by_tests : (a b : Bool) → Sound F (result a b).0 (result a b).1
          by_tests true b = v
          by_tests false true = v
          by_tests false false = make_zombie-Sound pipes s v k false

      found :
          (cur : Pcb) (o : Option ℕ)
          → Sound F (kill_found pipes s cur o).0 (kill_found pipes s cur o).1
      found cur none = v
      found cur (some k) = at cur k (at_slot s.procs k)

      for_current : (p : Option Pcb) → Sound F (kill_for pipes s n p).0 (kill_for pipes s n p).1
      for_current none = v
      for_current (some cur) = by_test (n == s.init_pid)
        where
          searched : Pipes × Sched × ℕ
          searched = kill_found pipes s cur (position (λ (q : Pcb). q.pid == n) s.procs)

          result : Bool → Pipes × Sched × ℕ
          result b = if b then (pipes, s, err) else searched

          by_test : (b : Bool) → Sound F (result b).0 (result b).1
          by_test true = v
          by_test false = found cur (position (λ (q : Pcb). q.pid == n) s.procs)

  pub kill_foreground-Sound : Sound F (kill_foreground pipes s).0 (kill_foreground pipes s).1
  unfolding kill_foreground
  kill_foreground-Sound = last (position (λ p. is_blocked_wait p.state) s.procs)
    where
      victim : (o : Option ℕ) → Sound F (kill_victim pipes s o).0 (kill_victim pipes s o).1
      victim none = v
      victim (some k) =
          wake_waiter-Sound (make_zombie pipes s k false).0 (make_zombie pipes s k false).1
            (make_zombie-Sound pipes s v k false)
            (parent_of (at_slot (make_zombie pipes s k false).1.procs k))

      last : (o : Option ℕ) → Sound F (kill_last pipes s o).0 (kill_last pipes s o).1
      last none = v
      last (some w) = by_test ((n == 0) || (n == s.init_pid))
        where
          n : ℕ
          n = last_of (at_slot s.procs w)

          o : Option ℕ
          o = position (λ p. (p.pid == n) && not (is_zombie p.state)) s.procs

          result : Bool → Pipes × Sched × Bool
          result b = if b then (pipes, s, false) else kill_victim pipes s o

          by_test : (b : Bool) → Sound F (result b).0 (result b).1
          by_test true = v
          by_test false = victim o

  blocked-Sound :
      (st : State) (c : Option ℕ)
      → is_running st ≡ false
      → s.current ≡ c
      → Sound F pipes (record s { procs = block_current st c s.procs })
  blocked-Sound st none stop e = v
  blocked-Sound st (some c) stop e = record {
    balanced = λ i w. v.balanced i w ∙ sym (total-update (block st) (λ p. refl) c s.procs i w);
    only_current = blocked-OnlyCurrent s v.only_current st stop (some c) e;
    unique = λ z n.
        same_pids s (record s { procs = update (block st) c s.procs })
          (pid_in-update (block st) (λ p. refl) c s.procs) refl (v.unique z n);
    sized = λ k. omega (arith, Sized-update (block st) (λ p. omega arith) c s.procs k, v.sized k);
    pipes_valid = v.pipes_valid;
  }

  pub yield_block-Sound : (w : Wait) (rsp : ℕ) → Sound F pipes (yield_block s (blocked w) rsp)
  unfolding yield_block
  yield_block-Sound w rsp =
      schedule_next-Sound pipes (record s { procs = block_current (blocked w) s.current s.procs })
        (blocked-Sound (blocked w) s.current (stops w) refl) rsp
    where
      stops : (w : Wait) → is_running (blocked w) ≡ false
      stops for_stdin = refl
      stops for_child = refl
      stops for_pipe_read = refl
      stops for_pipe_write = refl

  preempt_for-Sound :
      (cur : ℕ) (frame : IrqFrame) (rsp : ℕ) (n : Option ℕ)
      → s.current ≡ some cur
      → Sound F pipes (preempt_for s cur frame rsp n)
  preempt_for-Sound cur frame rsp none e = v
  preempt_for-Sound cur frame rsp (some n) e = record {
    balanced = λ i w.
        v.balanced i w
        ∙ sym (total-update (preempt frame rsp) (λ p. refl) cur s.procs i w)
        ∙ sym (total-update run_now (λ p. refl) n left i w);
    only_current = preempt_for-OnlyCurrent s v.only_current cur frame rsp (some n) e;
    unique = λ z c.
        same_pids s (preempt_for s cur frame rsp (some n))
          (λ k.
            pid_in-update run_now (λ p. refl) n left k
            ∙ pid_in-update (preempt frame rsp) (λ p. refl) cur s.procs k)
          refl (v.unique z c);
    sized = λ k. omega (
      arith,
      Sized-update run_now (λ p. omega arith) n left k,
      Sized-update (preempt frame rsp) (λ p. omega arith) cur s.procs k,
      v.sized k,
    );
    pipes_valid = v.pipes_valid;
  }
    where
      left : Procs
      left = update (preempt frame rsp) cur s.procs

  pub timer_from_user-Sound :
      (frame : IrqFrame) (rsp : ℕ) → Sound F pipes (timer_from_user s frame rsp)
  unfolding timer_from_user
  timer_from_user-Sound frame rsp = at s.current refl
    where
      at : (c : Option ℕ) → s.current ≡ c → Sound F pipes (timer_at s frame rsp c)
      at none e = v
      at (some cur) e = by_test (none_or_zombie (at_slot s.procs cur))
        where
          result : Bool → Sched
          result b =
              if b
              then schedule_next s rsp
              else preempt_for s cur frame rsp (pick_runnable_other s cur)

          by_test : (b : Bool) → Sound F pipes (result b)
          by_test true = schedule_next-Sound pipes s v rsp
          by_test false = preempt_for-Sound cur frame rsp (pick_runnable_other s cur) e

pub reap_orphans-Sound :
    {F : Type 0} (n : ℕ) (pipes : Pipes) (s : Sched)
    → Sound F pipes s
    → Sound F (reap_orphans n pipes s).0 (reap_orphans n pipes s).1
unfolding reap_orphans
reap_orphans-Sound zero pipes s v = v
reap_orphans-Sound (suc n) pipes s v = elim (Option-cases (position (is_dead_child 0) s.procs)) [
  | inl e ↦ rw (e, reap_orphans) v
  | inr (k, e) ↦
      rw (e, reap_orphans)
        (reap_orphans-Sound n _ _ (reap_slot-Sound pipes s v k (at_slot s.procs k) refl))
]
