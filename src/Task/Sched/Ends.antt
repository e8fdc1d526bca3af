-- ===== src/Task/Sched/Ends.antt =====
-- Every call of spawn.rs that makes, ends or removes a process leaves the pipes counting exactly
-- the ends that the processes hold.
use coeleo_os.Base.{
  ℕ, zero, suc, ◌+◌, ◌≤◌, ◌<◌, ◌≡◌, refl, ap, subst, arith, [], ◌∷◌, Bool, false, not, ◌&&◌, Option,
  none, some, length, set, ◌==◌, Option-cases, inl, inr, ◌%◌, ◌^◌,
}
use coeleo_os.Base.Bytes.{Bytes}
use coeleo_os.Task.Pipe.{Pipes}
use coeleo_os.Task.Fd.{FdTable, new_stdio, close_all}
use coeleo_os.Task.Fd.Count.{ends, refs}
use coeleo_os.Task.Fd.Inherit.{close_all_lem, given, inherit_from_lem}
use coeleo_os.Task.Sched.{
  Pcb, Procs, Sched, is_zombie, is_blocked_wait, at_slot, position, update, wake_parent_of_slot,
  parent_of,
}
use coeleo_os.Task.Sched.Switch.{unload_all, leave_scheduler, drop_pcb}
use coeleo_os.Task.Sched.Spawn.{
  Start, find_pid, free_slot, child_fds, fds_for, new_pcb, insert_at, insert_pcb, fds_of, to_zombie,
  make_zombie, user_exit, last_of, kill_victim, kill_last, kill_foreground, is_dead_child,
  reap_slot, reap_child, reap_for, try_reap, current_of, reap_orphans, kill_at, kill_found,
  kill_for, sys_kill,
}
use coeleo_os.Task.Sched.Slots.{free_slot_lem, at_slot-lt}
use coeleo_os.Task.Sched.Balance.{
  total, Balanced, total-set, total-mark, total-wake_pipe, total-wake_waiter,
  total-wake_parent_of_slot, total-schedule_next, total-to_zombie, refs-le-total,
}

fds_for_lem :
    (pipes : Pipes) (ps : Procs) (parent stdin_fd stdout_fd i : ℕ) (v : Bool)
    → ends (fds_for pipes ps parent stdin_fd stdout_fd).0 i v
      ≡ ends pipes i v + given (fds_for pipes ps parent stdin_fd stdout_fd).1 i v
unfolding fds_for new_stdio
fds_for_lem pipes ps parent stdin_fd stdout_fd i v = ground (arith, child (find_pid parent ps))
  where
    child :
        (p : Option Pcb)
        → ends (child_fds pipes stdin_fd stdout_fd p).0 i v
          ≡ ends pipes i v + given (child_fds pipes stdin_fd stdout_fd p).1 i v
    child none = omega arith
    child (some p) = inherit_from_lem pipes p.fds stdin_fd stdout_fd i v

insert_at-Balanced :
    (s : Sched) (st : Start) (name : Bytes) (parent slot : ℕ) (r : Pipes × Option FdTable)
    → slot < length s.procs
    → at_slot s.procs slot ≡ none
    → ((i : ℕ) (v : Bool) → ends r.0 i v ≡ total s.procs i v + given r.1 i v)
    → Balanced (insert_at s st name parent slot r).0 (insert_at s st name parent slot r).1.procs
unfolding new_pcb
insert_at-Balanced s st name parent slot (pipes, none) room free h i v = omega (arith, h i v)
insert_at-Balanced s st name parent slot (pipes, some fds) room free h i v = ground (
  arith,
  h i v,
  total-set slot s.procs (some (new_pcb st name parent s.next_pid fds)) i v room,
  ap (λ p. refs (fds_of p) i v) free,
  total-mark parent s.next_pid (set s.procs slot (some (new_pcb st name parent s.next_pid fds))) i
      v,
)

-- If every pipe counts exactly the ends that the processes hold, so it does after `insert_pcb`,
-- whether a process is made or refused, and whatever it inherits.
pub insert_pcb-Balanced :
    (pipes : Pipes) (s : Sched) (st : Start) (name : Bytes) (parent stdin_fd stdout_fd : ℕ)
    → Balanced pipes s.procs
    → Balanced
        (insert_pcb pipes s st name parent stdin_fd stdout_fd).0
        (insert_pcb pipes s st name parent stdin_fd stdout_fd).1.procs
unfolding insert_pcb
insert_pcb-Balanced pipes s st name parent stdin_fd stdout_fd h =
    elim (Option-cases (free_slot s.procs)) [
      | inl e ↦ rw (e, insert_pcb) h
      | inr (k, e) ↦
          rw (e, insert_pcb)
            (insert_at-Balanced s st name parent k (fds_for pipes s.procs parent stdin_fd stdout_fd)
              (free_slot_lem s.procs e).0 (free_slot_lem s.procs e).1
              (λ i v.
                omega (arith, h i v, fds_for_lem pipes s.procs parent stdin_fd stdout_fd i v)))
    ]

-- The same for the end of a process in any slot.
pub make_zombie-Balanced :
    (pipes : Pipes) (s : Sched) (slot : ℕ) (fault : Bool)
    → Balanced pipes s.procs
    → Balanced (make_zombie pipes s slot fault).0 (make_zombie pipes s slot fault).1.procs
unfolding make_zombie
make_zombie-Balanced pipes s slot fault h i v = omega (
  arith,
  h i v,
  (closed (at_slot s.procs slot) (λ j w. refs-le-total slot s.procs j w) i v).0,
  total-to_zombie pipes fault slot s.procs i v (λ p e.
      (closed (some p)
        (λ j w.
          subst (λ o. refs (fds_of o) j w ≤ total s.procs j w) e (refs-le-total slot s.procs j w))
        i v).1),
  total-wake_pipe (record s { procs = update (to_zombie pipes fault) slot s.procs }) i v,
)
  where
    closed :
        (p : Option Pcb)
        → ((j : ℕ) (w : Bool) → refs (fds_of p) j w ≤ total s.procs j w)
        → (i : ℕ) (v : Bool)
        → (ends (close_all pipes (fds_of p)).0 i v + refs (fds_of p) i v ≡ ends pipes i v)
          × (refs (close_all pipes (fds_of p)).1 i v ≡ 0)
    closed p le i v = close_all_lem pipes (fds_of p) (λ j w. omega (arith, h j w, le j w)) i v

pub reap_slot-Balanced :
    (pipes : Pipes) (s : Sched) (k : ℕ) (p : Option Pcb)
    → at_slot s.procs k ≡ p
    → Balanced pipes s.procs
    → Balanced (reap_slot pipes s k p).0 (reap_slot pipes s k p).1.procs
unfolding drop_pcb
reap_slot-Balanced pipes s k none e h i v = h i v
reap_slot-Balanced pipes s k (some p) e h i v = omega (
  arith,
  h i v,
  total-set k s.procs none i v (at_slot-lt s.procs k e),
  ap (λ o. refs (fds_of o) i v) e,
  (close_all_lem pipes p.fds held i v).0,
)
  where
    held : (j : ℕ) (w : Bool) → refs p.fds j w ≤ ends pipes j w
    held j w = omega (arith, h j w, refs-le-total k s.procs j w, ap (λ o. refs (fds_of o) j w) e)

reap_child-Balanced :
    (pipes : Pipes) (s : Sched) (cur : Pcb) (o : Option ℕ)
    → Balanced pipes s.procs
    → Balanced (reap_child pipes s cur o).0 (reap_child pipes s cur o).1.procs
reap_child-Balanced pipes s cur none h = h
reap_child-Balanced pipes s cur (some k) h = reap_slot-Balanced pipes s k (at_slot s.procs k) refl h

-- If every pipe counts exactly the ends that the processes hold, so it does after `try_reap`,
-- whether or not it finds a child to remove.
pub try_reap-Balanced :
    (pipes : Pipes) (s : Sched)
    → Balanced pipes s.procs
    → Balanced (try_reap pipes s).0 (try_reap pipes s).1.procs
unfolding try_reap
try_reap-Balanced pipes s h = for_current (current_of s s.current)
  where
    for_current : (p : Option Pcb) → Balanced (reap_for pipes s p).0 (reap_for pipes s p).1.procs
    for_current none = h
    for_current (some cur) =
        reap_child-Balanced pipes s cur (position (is_dead_child cur.pid) s.procs) h

pub reap_orphans-Balanced :
    (n : ℕ) (pipes : Pipes) (s : Sched)
    → Balanced pipes s.procs
    → Balanced (reap_orphans n pipes s).0 (reap_orphans n pipes s).1.procs
unfolding reap_orphans
reap_orphans-Balanced zero pipes s h = h
reap_orphans-Balanced (suc n) pipes s h = elim (Option-cases (position (is_dead_child 0) s.procs)) [
  | inl e ↦ rw (e, reap_orphans) h
  | inr (k, e) ↦
      rw (e, reap_orphans)
        (reap_orphans-Balanced n _ _ (reap_slot-Balanced pipes s k (at_slot s.procs k) refl h))
]

-- If every pipe counts exactly the ends that the processes hold, so it does after `sys_kill`, on
-- every path.
pub sys_kill-Balanced :
    (pipes : Pipes) (s : Sched) (target : ℕ)
    → Balanced pipes s.procs
    → Balanced (sys_kill pipes s target).0 (sys_kill pipes s target).1.procs
unfolding sys_kill
sys_kill-Balanced pipes s target h = for_current (current_of s s.current)
  where
    at :
        (cur : Pcb) (k : ℕ) (p : Option Pcb)
        → Balanced (kill_at pipes s cur k p).0 (kill_at pipes s cur k p).1.procs
    at cur k none i v = h i v
    at cur k (some p) i v = ground (arith, h i v, make_zombie-Balanced pipes s k false h i v)

    found :
        (cur : Pcb) (o : Option ℕ)
        → Balanced (kill_found pipes s cur o).0 (kill_found pipes s cur o).1.procs
    found cur none = h
    found cur (some k) = at cur k (at_slot s.procs k)

    for_current :
        (p : Option Pcb)
        → Balanced
            (kill_for pipes s (target % 2 ^ 32) p).0
            (kill_for pipes s (target % 2 ^ 32) p).1.procs
    for_current none i v = h i v
    for_current (some cur) i v =
        ground
          (arith, h i v, found cur (position (λ (q : Pcb). q.pid == target % 2 ^ 32) s.procs) i v)

-- If every pipe counts exactly the ends that the processes hold, so it does after
-- `kill_foreground`, on every path.
pub kill_foreground-Balanced :
    (pipes : Pipes) (s : Sched)
    → Balanced pipes s.procs
    → Balanced (kill_foreground pipes s).0 (kill_foreground pipes s).1.procs
unfolding kill_foreground
kill_foreground-Balanced pipes s h = last (position (λ p. is_blocked_wait p.state) s.procs)
  where
    victim : (o : Option ℕ) → Balanced (kill_victim pipes s o).0 (kill_victim pipes s o).1.procs
    victim none i v = h i v
    victim (some k) i v = omega (
      arith,
      make_zombie-Balanced pipes s k false h i v,
      total-wake_waiter (parent_of (at_slot (make_zombie pipes s k false).1.procs k))
          (make_zombie pipes s k false).1 i v,
    )

    last : (o : Option ℕ) → Balanced (kill_last pipes s o).0 (kill_last pipes s o).1.procs
    last none i v = h i v
    last (some k) i v = ground (
      arith,
      h i v,
      victim
          (position (λ (p : Pcb). (p.pid == last_of (at_slot s.procs k)) && not (is_zombie p.state))
            s.procs)
          i v,
    )

unload_all_lem :
    (pipes : Pipes) (ps : Procs)
    → ((i : ℕ) (v : Bool) → total ps i v ≤ ends pipes i v)
    → (i : ℕ) (v : Bool)
    → (ends (unload_all pipes ps).0 i v + total ps i v ≡ ends pipes i v)
      × (total (unload_all pipes ps).1 i v ≡ 0)
unfolding unload_all
unload_all_lem pipes [] h i v = (omega arith, refl)
unload_all_lem pipes (none ∷ ps) h i v =
    omega (arith, unload_all_lem pipes ps (λ j w. omega (arith, h j w)) i v)
unload_all_lem pipes (some p ∷ ps) h i v = omega (
  arith,
  closed i v,
  unload_all_lem (close_all pipes p.fds).0 ps (λ j w. omega (arith, h j w, closed j w)) i v,
)
  where
    closed :
        (i : ℕ) (v : Bool) → ends (close_all pipes p.fds).0 i v + refs p.fds i v ≡ ends pipes i v
    closed i v = (close_all_lem pipes p.fds (λ j w. omega (arith, h j w)) i v).0

pub leave_scheduler-Balanced :
    (pipes : Pipes) (s : Sched)
    → Balanced pipes s.procs
    → Balanced (leave_scheduler pipes s).0 (leave_scheduler pipes s).1.procs
unfolding leave_scheduler
leave_scheduler-Balanced pipes s h i v =
    omega (arith, h i v, unload_all_lem pipes s.procs (λ j w. omega (arith, h j w)) i v)

-- If every pipe counts exactly the ends that the processes hold, so it does after `user_exit`,
-- whether the scheduler goes on or is left.
pub user_exit-Balanced :
    (pipes : Pipes) (s : Sched) (slot : ℕ) (fault : Bool) (rsp : ℕ)
    → Balanced pipes s.procs
    → Balanced (user_exit pipes s slot fault rsp).0 (user_exit pipes s slot fault rsp).1.procs
unfolding user_exit leave_scheduler
user_exit-Balanced pipes s slot fault rsp h i v = ground (
  arith,
  dead i v,
  leave_scheduler-Balanced (make_zombie pipes s slot fault).0 (make_zombie pipes s slot fault).1
      dead i v,
  total-wake_parent_of_slot slot (make_zombie pipes s slot fault).1 i v,
  total-schedule_next (wake_parent_of_slot slot (make_zombie pipes s slot fault).1) rsp i v,
)
  where
    dead : Balanced (make_zombie pipes s slot fault).0 (make_zombie pipes s slot fault).1.procs
    dead = make_zombie-Balanced pipes s slot fault h
