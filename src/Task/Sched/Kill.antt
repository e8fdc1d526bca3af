-- ===== src/Task/Sched/Kill.antt =====
-- Which processes `kill` and `wait` of spawn.rs act on, and what they leave.
use coeleo_os.Base.{
  ℕ, ◌+◌, ◌≤◌, [], ◌∷◌, length, replicate, ◌≡◌, ◌≢◌, refl, sym, ap, subst, ◌∙◌, arith, Bool, true,
  false, ◌&&◌, Option, none, some, set, ◌==◌, ==→eq, eq→==, if◌then◌else◌, Bool-cases, Option-cases,
  inl, inr, ◌%◌, ◌^◌,
}
use coeleo_os.Task.Pipe.{Pipes}
use coeleo_os.Task.Fd.{FdTable, err, close_all, drop_opt}
use coeleo_os.Task.Fd.Count.{ends, refs}
use coeleo_os.Task.Fd.Inherit.{close_all_lem}
use coeleo_os.Task.Sched.Balance.{Balanced, refs-le-total}
use coeleo_os.Task.Sched.{
  State, Pcb, Sched, at_slot, position, is_zombie, update, wake_pipe, wake_if_pipe, runnable,
  running, blocked_stdin, blocked_wait, blocked_pipe_read, blocked_pipe_write, zombie,
}
use coeleo_os.Task.Sched.Switch.{drop_pcb}
use coeleo_os.Task.Sched.Spawn.{
  make_zombie, to_zombie, fds_of, current_of, kill_at, kill_found, sys_kill, WaitResult, pid,
  must_block, never_had_children, is_dead_child, reap_slot, reap_child, reap_for, try_reap, pid_at,
}
use coeleo_os.Task.Sched.Slots.{
  position_lem, position-none, mapped, at_slot-each, at_slot-update_self, at_slot-update_ne,
}
use coeleo_os.Task.Sched.Pids.{Unique, pid_opt}

-- The process that `kill` may end: a live child of the caller with this number, not the first
-- process.
abbrev pub Killable : Sched → Pcb → ℕ → ℕ → Pcb → Type 0
Killable s cur n k p =
    (n ≢ s.init_pid)
    × (at_slot s.procs k ≡ some p)
    × (p.pid ≡ n)
    × (p.parent ≡ cur.pid)
    × (is_zombie p.state ≡ false)

-- A process that has ended, with the table `fds`.
abbrev pub dead : FdTable → Pcb → Pcb
dead fds p = record p { state = zombie; fds = fds; fault = false; kcont_valid = false }

abbrev pub without_pipe : State → State
without_pipe runnable = runnable
without_pipe running = running
without_pipe blocked_stdin = blocked_stdin
without_pipe blocked_wait = blocked_wait
without_pipe blocked_pipe_read = runnable
without_pipe blocked_pipe_write = runnable
without_pipe zombie = zombie

-- A process that waited for a pipe can run.
abbrev pub free_of_pipes : Pcb → Pcb
free_of_pipes p = record p { state = without_pipe p.state }

-- What `kill` is to make of the state when it ends the process `p` in slot `k`.
pub record Killed (pipes : Pipes) (s : Sched) (k : ℕ) (p : Pcb) (r : Pipes × Sched × ℕ)
    : Type 0 where
  pub reply : r.2 ≡ 0
  pub ended : at_slot r.1.procs k ≡ some (dead (replicate (length p.fds) none) p)
  pub others : (j : ℕ) → k ≢ j → at_slot r.1.procs j ≡ mapped free_of_pipes (at_slot s.procs j)
  pub ends_left : (i : ℕ) (w : Bool) → ends r.0 i w + refs p.fds i w ≡ ends pipes i w
  pub current_kept : r.1.current ≡ s.current
  pub pids_kept : r.1.next_pid ≡ s.next_pid
  pub init_kept : r.1.init_pid ≡ s.init_pid

emptied : (pipes : Pipes) (t : FdTable) → (close_all pipes t).1 ≡ replicate (length t) none
unfolding close_all
emptied pipes [] = refl
emptied pipes (slot ∷ t) = ap (λ r. none ∷ r) (emptied (drop_opt pipes slot) t)

same_wake :
    (o : Option Pcb)
    → mapped (λ p. record p { state = wake_if_pipe p.state }) o ≡ mapped free_of_pipes o
same_wake none = refl
same_wake (some p) = ap (λ st. some (record p { state = st })) (same p.state)
  where
    same : (st : State) → wake_if_pipe st ≡ without_pipe st
    same runnable = refl
    same running = refl
    same blocked_stdin = refl
    same blocked_wait = refl
    same blocked_pipe_read = refl
    same blocked_pipe_write = refl
    same zombie = refl

module _ (pipes : Pipes) (s : Sched) (cur : Pcb) (target : ℕ)
    (runs : current_of s s.current ≡ some cur) where
  n : ℕ
  n = target % 2 ^ 32

  has_pid : Pcb → Bool
  has_pid p = p.pid == n

  -- The slot that the search finds, if pids are unique.
  found :
      Unique s
      → (k : ℕ) (p : Pcb) → at_slot s.procs k ≡ some p
      → p.pid ≡ n
      → position (λ p. p.pid == n) s.procs ≡ some k
  unfolding n
  found u k p at e = elim (Option-cases (position (λ p. p.pid == n) s.procs)) [
    | inl f ↦ cc (eq→== p.pid n e, position-none (λ p. p.pid == n) s.procs f k at)
    | inr (j, f) ↦
        (let (q, at', e') = position_lem (λ p. p.pid == n) s.procs f in
          let same : j ≡ k =
            u.apart j k n (ap pid_opt at' ∙ ap some (==→eq q.pid n e'))
              (ap pid_opt at ∙ ap some e) in
          f ∙ ap some same)
  ]

  makes_zombie :
      Unique s
      → (k : ℕ) (p : Pcb) → Killable s cur (target % 2 ^ 32) k p
      → sys_kill pipes s target
        ≡ ((make_zombie pipes s k false).0, (make_zombie pipes s k false).1, 0)
  unfolding sys_kill n
  makes_zombie u k p (init, at, e, child, live) =
      rw (runs, found u k p at e, at) (ground (arith, init, child, live))

  -- If pids are unique and the pipes count the ends that the processes hold, `kill` of a live child
  -- of the caller, other than the first process, returns 0; the child is a zombie with no open
  -- files, and keeps its pid and its parent; every pipe counts as many ends less as the child held;
  -- every other process stays as it was, but for one that waited for a pipe, which can run; and the
  -- current process and the counters stay.
  pub sys_kill_ok :
      Unique s
      → Balanced pipes s.procs
      → (k : ℕ) (p : Pcb) → Killable s cur (target % 2 ^ 32) k p
      → Killed pipes s k p (sys_kill pipes s target)
  unfolding make_zombie wake_pipe
  sys_kill_ok u bal k p h = subst (Killed pipes s k p) (sym (makes_zombie u k p h)) (record {
    reply = refl;
    ended =
        at_slot-each _ (update (to_zombie pipes false) k s.procs) k
        ∙ ap (mapped (λ q. record q { state = wake_if_pipe q.state }))
            (at_slot-update_self (to_zombie pipes false) s.procs k h.1)
        ∙ ap (λ t. some (dead t p)) (emptied pipes p.fds);
    others = λ j ne.
        at_slot-each _ (update (to_zombie pipes false) k s.procs) j
        ∙ ap (mapped (λ q. record q { state = wake_if_pipe q.state }))
            (at_slot-update_ne (to_zombie pipes false) s.procs k j ne)
        ∙ same_wake (at_slot s.procs j);
    ends_left = λ i w.
        subst (λ o. ends (close_all pipes (fds_of o)).0 i w + refs p.fds i w ≡ ends pipes i w)
          (sym h.1) (close_all_lem pipes p.fds held i w).0;
    current_kept = refl;
    pids_kept = refl;
    init_kept = refl;
  })
    where
      held : (i : ℕ) (w : Bool) → refs p.fds i w ≤ ends pipes i w
      held i w =
          omega (arith, bal i w, refs-le-total k s.procs i w, ap (λ o. refs (fds_of o) i w) h.1)

  -- If no slot holds such a child with this number, `kill` returns `ERR` and changes nothing.
  pub sys_kill-err :
      ((k : ℕ) (p : Pcb) → Killable s cur (target % 2 ^ 32) k p → ⊥)
      → sys_kill pipes s target ≡ (pipes, s, err)
  unfolding sys_kill
  sys_kill-err never = rw runs (by_init (target % 2 ^ 32 == s.init_pid) refl)
    where
      at_found :
          (k : ℕ) (q : Pcb)
          → at_slot s.procs k ≡ some q
          → q.pid ≡ target % 2 ^ 32
          → (target % 2 ^ 32 == s.init_pid) ≡ false
          → kill_at pipes s cur k (some q) ≡ (pipes, s, err)
      at_found k q at e init = elim (Bool-cases (q.parent == cur.pid)) [
        | inr other ↦ rw other refl
        | inl mine ↦ elim (Bool-cases (is_zombie q.state)) [
          | inl dead ↦ rw (mine, dead) refl
          | inr live ↦
              absurd (never k q (ground (arith, init), at, e, ==→eq q.parent cur.pid mine, live))
        ]
      ]

      searched :
          (o : Option ℕ)
          → position (λ (p : Pcb). p.pid == target % 2 ^ 32) s.procs ≡ o
          → (target % 2 ^ 32 == s.init_pid) ≡ false
          → kill_found pipes s cur o ≡ (pipes, s, err)
      searched none f init = refl
      searched (some k) f init =
          let (q, at, e) = position_lem (λ (p : Pcb). p.pid == target % 2 ^ 32) s.procs f in
          rw at (at_found k q at (==→eq q.pid (target % 2 ^ 32) e) init)

      by_init :
          (b : Bool)
          → (target % 2 ^ 32 == s.init_pid) ≡ b
          → (if b
              then (pipes, s, err)
              else kill_found pipes s cur
                  (position (λ (p : Pcb). p.pid == target % 2 ^ 32) s.procs))
            ≡ (pipes, s, err)
      by_init true f = refl
      by_init false f = searched (position (λ (p : Pcb). p.pid == target % 2 ^ 32) s.procs) refl f

-- A child of `cur` that was a zombie is gone, and its open files are closed.
abbrev pub Reaped : Pipes → Sched → Pcb → ℕ → Pipes × Sched × WaitResult → Type 0
Reaped pipes s cur c r =
    (k : ℕ) × (p : Pcb) × (at_slot s.procs k ≡ some p)
    × (p.pid ≡ c)
    × (p.parent ≡ cur.pid)
    × (is_zombie p.state ≡ true)
    × (r.1.procs ≡ set s.procs k none)
    × (r.0 ≡ drop_pcb pipes p)

pub &&-left : (a b : Bool) → (a && b) ≡ true → a ≡ true
&&-left true b e = refl
&&-left false b e = e

&&-right : (a b : Bool) → (a && b) ≡ true → b ≡ true
&&-right true b e = e
&&-right false b e = cc

module _ (pipes : Pipes) (s : Sched) (cur : Pcb) (runs : current_of s s.current ≡ some cur) where
  -- A pid that `try_reap` answers is that of a child of the caller that was a zombie; the child's
  -- slot is emptied, and its open files are closed.
  pub try_reap_pid :
      {c : ℕ} → (try_reap pipes s).2 ≡ pid c → Reaped pipes s cur c (try_reap pipes s)
  unfolding try_reap
  try_reap_pid {c} h =
      subst (λ o. (reap_for pipes s o).2 ≡ pid c → Reaped pipes s cur c (reap_for pipes s o))
        (sym runs) (for_child (position (is_dead_child cur.pid) s.procs) refl) h
    where
      removed :
          (k : ℕ) (q : Pcb)
          → at_slot s.procs k ≡ some q
          → is_dead_child cur.pid q ≡ true
          → q.pid ≡ c
          → (o : Option Pcb) → o ≡ some q
          → Reaped pipes s cur c ((reap_slot pipes s k o).0, (reap_slot pipes s k o).1, pid c)
      removed k q at dead e none f = cc
      removed k q at dead e (some p) f =
          let same : p ≡ q = cc in
          (
            k,
            q,
            at,
            e,
            ==→eq q.parent cur.pid (&&-left _ _ dead),
            &&-right (q.parent == cur.pid) _ dead,
            refl,
            ap (drop_pcb pipes) same,
          )

      for_child :
          (o : Option ℕ)
          → position (is_dead_child cur.pid) s.procs ≡ o
          → (reap_child pipes s cur o).2 ≡ pid c
          → Reaped pipes s cur c (reap_child pipes s cur o)
      for_child none f h = absurd (ground (arith, h))
      for_child (some k) f h =
          let (q, at, dead) = position_lem (is_dead_child cur.pid) s.procs f in
          removed k q at dead (ground (arith, h, ap pid_at at)) (at_slot s.procs k) at

  -- Without a dead child `try_reap` answers by the mark of the caller.
  pub try_reap_none :
      ((k : ℕ) (p : Pcb) → at_slot s.procs k ≡ some p → is_dead_child cur.pid p ≡ false)
      → try_reap pipes s ≡ (pipes, s, if cur.spawned_child then must_block else never_had_children)
  unfolding try_reap
  try_reap_none none_dead = rw runs (for_child (position (is_dead_child cur.pid) s.procs) refl)
    where
      for_child :
          (o : Option ℕ)
          → position (is_dead_child cur.pid) s.procs ≡ o
          → reap_child pipes s cur o
            ≡ (pipes, s, if cur.spawned_child then must_block else never_had_children)
      for_child none f = refl
      for_child (some k) f =
          let (q, at, dead) = position_lem (is_dead_child cur.pid) s.procs f in
          absurd (cc (none_dead k q at, dead))
