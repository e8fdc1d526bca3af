-- ===== src/Task/Sched/Running.antt =====
-- At most one process is in the state `Running`: the current one.
use coeleo_os.Base.{
  ℕ, zero, suc, ◌≡◌, refl, sym, ap, subst, ◌∙◌, arith, [], ◌∷◌, Bool, true, false, ◌||◌, Option,
  none, some, set, ◌==◌, ==→eq, if◌then◌else◌, Bool-cases, Option-cases, inl, inr, ◌⊎◌,
}
use coeleo_os.Base.Bytes.{Bytes}
use coeleo_os.Task.Pipe.{Pipes}
use coeleo_os.Task.Fd.{FdTable, close_all}
use coeleo_os.Task.Sched.{
  State, Pcb, Procs, Sched, IrqFrame, is_running, at_slot, some_and, update, each, wake_if_stdin,
  wake_stdin, wake_if_pipe, wake_pipe, wake_waiter, wake_if_waits, wake_parent_of_slot, parent_of,
  runnable, running, blocked_stdin, blocked_wait, blocked_pipe_read, blocked_pipe_write, zombie,
}
use coeleo_os.Task.Sched.Switch.{
  run_now, leave, demote, rest_state, switch_to, schedule_next, pick_runnable, pick_runnable_other,
  block, block_current, yield_block, preempt, preempt_for, none_or_zombie, timer_at,
  timer_from_user, unload_all, leave_scheduler,
}
use coeleo_os.Task.Sched.Spawn.{
  Start, free_slot, fds_for, new_pcb, mark_parent, insert_at, insert_pcb, to_zombie, make_zombie,
  pid_at, user_exit,
}

abbrev pub runs : Option Pcb → Bool
runs p = some_and (λ p. is_running p.state) p

abbrev pub runs_at : Procs → ℕ → Bool
runs_at ps k = runs (at_slot ps k)

-- A process that runs is the current one.
abbrev pub OnlyCurrent : Sched → Type 0
OnlyCurrent s = (k : ℕ) → runs_at s.procs k ≡ true → s.current ≡ some k

-- A change that starts no process.
abbrev pub StartsNone : (Pcb → Pcb) → Type 0
StartsNone f = (p : Pcb) → is_running (f p).state ≡ true → is_running p.state ≡ true

runs_at-each :
    (f : Pcb → Pcb)
    → StartsNone f
    → (ps : Procs) (k : ℕ) → runs_at (each f ps) k ≡ true
    → runs_at ps k ≡ true
runs_at-each f keep [] k h = h
runs_at-each f keep (none ∷ ps) zero h = h
runs_at-each f keep (some p ∷ ps) zero h = keep p h
runs_at-each f keep (none ∷ ps) (suc k) h = runs_at-each f keep ps k h
runs_at-each f keep (some p ∷ ps) (suc k) h = runs_at-each f keep ps k h

pub runs_at-update :
    (f : Pcb → Pcb)
    → StartsNone f
    → (j : ℕ) (ps : Procs) (k : ℕ) → runs_at (update f j ps) k ≡ true
    → runs_at ps k ≡ true
runs_at-update f keep j [] k h = h
runs_at-update f keep zero (none ∷ ps) k h = h
runs_at-update f keep zero (some p ∷ ps) zero h = keep p h
runs_at-update f keep zero (some p ∷ ps) (suc k) h = h
runs_at-update f keep (suc j) (p ∷ ps) zero h = h
runs_at-update f keep (suc j) (p ∷ ps) (suc k) h = runs_at-update f keep j ps k h

-- A change that stops the process leaves no process running in its slot.
stopped :
    (f : Pcb → Pcb)
    → ((p : Pcb) → is_running (f p).state ≡ false)
    → (j : ℕ) (ps : Procs) → runs_at (update f j ps) j ≡ false
stopped f stop j [] = refl
stopped f stop zero (none ∷ ps) = refl
stopped f stop zero (some p ∷ ps) = stop p
stopped f stop (suc j) (p ∷ ps) = stopped f stop j ps

-- `run_now` starts no other process.
pub started :
    (j : ℕ) (ps : Procs) (k : ℕ)
    → runs_at (update run_now j ps) k ≡ true
    → (j ≡ k) ⊎ (runs_at ps k ≡ true)
started j [] k h = inr h
started zero (none ∷ ps) k h = inr h
started zero (some p ∷ ps) zero h = inl refl
started zero (some p ∷ ps) (suc k) h = inr h
started (suc j) (p ∷ ps) zero h = inr h
started (suc j) (p ∷ ps) (suc k) h = elim (started j ps k h) [
  | inl e ↦ inl (ap suc e)
  | inr g ↦ inr g
]

pub runs_at-set-none :
    (ps : Procs) (j k : ℕ) → runs_at (set ps j none) k ≡ true → runs_at ps k ≡ true
runs_at-set-none [] j k h = h
runs_at-set-none (p ∷ ps) zero zero h = cc
runs_at-set-none (p ∷ ps) zero (suc k) h = h
runs_at-set-none (p ∷ ps) (suc j) zero h = h
runs_at-set-none (p ∷ ps) (suc j) (suc k) h = runs_at-set-none ps j k h

runs_at-set :
    (ps : Procs) (j k : ℕ) (p : Pcb)
    → is_running p.state ≡ false
    → runs_at (set ps j (some p)) k ≡ true
    → runs_at ps k ≡ true
runs_at-set [] j k p e h = h
runs_at-set (q ∷ ps) zero zero p e h = cc
runs_at-set (q ∷ ps) zero (suc k) p e h = h
runs_at-set (q ∷ ps) (suc j) zero p e h = h
runs_at-set (q ∷ ps) (suc j) (suc k) p e h = runs_at-set ps j k p e h

runs_at-mark :
    (parent pid : ℕ) (ps : Procs) (k : ℕ) → runs_at (mark_parent parent pid ps) k ≡ runs_at ps k
unfolding mark_parent
runs_at-mark parent pid [] k = refl
runs_at-mark parent pid (none ∷ ps) zero = refl
runs_at-mark parent pid (none ∷ ps) (suc k) = runs_at-mark parent pid ps k
runs_at-mark parent pid (some p ∷ ps) zero = ground arith
runs_at-mark parent pid (some p ∷ ps) (suc k) = ground (arith, runs_at-mark parent pid ps k)

pub wake_stdin-OnlyCurrent : (s : Sched) → OnlyCurrent s → OnlyCurrent (wake_stdin s)
unfolding wake_stdin
wake_stdin-OnlyCurrent s h k r = h k (runs_at-each _ (λ p. same p.state) s.procs k r)
  where
    same : (st : State) → is_running (wake_if_stdin st) ≡ true → is_running st ≡ true
    same blocked_stdin e = cc
    same runnable e = e
    same running e = e
    same blocked_wait e = e
    same blocked_pipe_read e = e
    same blocked_pipe_write e = e
    same zombie e = e

wake_if_pipe-running : (st : State) → is_running (wake_if_pipe st) ≡ true → is_running st ≡ true
wake_if_pipe-running blocked_pipe_read e = cc
wake_if_pipe-running blocked_pipe_write e = cc
wake_if_pipe-running blocked_stdin e = e
wake_if_pipe-running runnable e = e
wake_if_pipe-running running e = e
wake_if_pipe-running blocked_wait e = e
wake_if_pipe-running zombie e = e

pub wake_pipe-OnlyCurrent : (s : Sched) → OnlyCurrent s → OnlyCurrent (wake_pipe s)
unfolding wake_pipe
wake_pipe-OnlyCurrent s h k r = h k (runs_at-each _ (λ p. wake_if_pipe-running p.state) s.procs k r)

pub wake_waiter-OnlyCurrent :
    (parent : ℕ) (s : Sched) → OnlyCurrent s → OnlyCurrent (wake_waiter parent s)
unfolding wake_waiter
wake_waiter-OnlyCurrent parent s h k r = h k (runs_at-each (wake_if_waits parent) keep s.procs k r)
  where
    keep : StartsNone (wake_if_waits parent)
    keep p e = ground arith

wake_parent_of_slot-OnlyCurrent :
    (slot : ℕ) (s : Sched) → OnlyCurrent s → OnlyCurrent (wake_parent_of_slot slot s)
unfolding wake_parent_of_slot
wake_parent_of_slot-OnlyCurrent slot s h =
    elim (Bool-cases (parent_of (at_slot s.procs slot) == 0)) [
      | inl e ↦ rw e h
      | inr e ↦ rw e (wake_waiter-OnlyCurrent (parent_of (at_slot s.procs slot)) s h)
    ]

rest_state-stops : (st : State) → is_running (rest_state st) ≡ false
rest_state-stops running = refl
rest_state-stops runnable = refl
rest_state-stops blocked_stdin = refl
rest_state-stops blocked_wait = refl
rest_state-stops blocked_pipe_read = refl
rest_state-stops blocked_pipe_write = refl
rest_state-stops zombie = refl

module _ (s : Sched) (h : OnlyCurrent s) where
  -- After a change that stops the current process, no process runs.
  none_runs :
      (f : Pcb → Pcb)
      → ((p : Pcb) → is_running (f p).state ≡ false)
      → (c : ℕ) → s.current ≡ some c
      → (k : ℕ) → runs_at (update f c s.procs) k ≡ true
      → ⊥
  none_runs f stop c e k r =
      let was : runs_at s.procs k ≡ true = runs_at-update f (λ p g. cc (stop p)) c s.procs k r in
      let here : c ≡ k = ground (arith, e, h k was) in
      cc (r, subst (λ k. runs_at (update f c s.procs) k ≡ false) here (stopped f stop c s.procs))

  -- Once the current process is left, only the next one can be running.
  leave_lem :
      (slot rsp : ℕ) (c : Option ℕ)
      → s.current ≡ c
      → (k : ℕ) → runs_at (leave c slot rsp s.procs) k ≡ true
      → slot ≡ k
  leave_lem slot rsp none e k r = ground (arith, h k r, e)
  leave_lem slot rsp (some c) e k r = by_test (c == slot) refl r
    where
      by_test :
          (b : Bool)
          → (c == slot) ≡ b
          → runs_at (if b then s.procs else update (demote rsp) c s.procs) k ≡ true
          → slot ≡ k
      by_test true f r = ground (arith, h k r, e, ==→eq c slot f)
      by_test false f r = absurd (none_runs (demote rsp) (λ p. rest_state-stops p.state) c e k r)

  pub switch_to-OnlyCurrent : (slot rsp : ℕ) → OnlyCurrent (switch_to s slot rsp)
  unfolding switch_to
  switch_to-OnlyCurrent slot rsp k r = elim (started slot (leave s.current slot rsp s.procs) k r) [
    | inl e ↦ ap some e
    | inr g ↦ ap some (leave_lem slot rsp s.current refl k g)
  ]

  pub schedule_next-OnlyCurrent : (rsp : ℕ) → OnlyCurrent (schedule_next s rsp)
  unfolding schedule_next
  schedule_next-OnlyCurrent rsp = elim (Option-cases (pick_runnable s)) [
    | inl e ↦ rw (e, schedule_next) h
    | inr (slot, e) ↦ rw (e, schedule_next) (switch_to-OnlyCurrent slot rsp)
  ]

  pub preempt_for-OnlyCurrent :
      (cur : ℕ) (frame : IrqFrame) (rsp : ℕ) (n : Option ℕ)
      → s.current ≡ some cur
      → OnlyCurrent (preempt_for s cur frame rsp n)
  preempt_for-OnlyCurrent cur frame rsp none e k r = h k r
  preempt_for-OnlyCurrent cur frame rsp (some n) e k r =
      elim (started n (update (preempt frame rsp) cur s.procs) k r) [
        | inl f ↦ ap some f
        | inr g ↦ absurd (none_runs (preempt frame rsp) (λ p. refl) cur e k g)
      ]

  -- If no process but the current one is running, so it is after the timer interrupt.
  pub timer_from_user-OnlyCurrent :
      (frame : IrqFrame) (rsp : ℕ) → OnlyCurrent (timer_from_user s frame rsp)
  unfolding timer_from_user
  timer_from_user-OnlyCurrent frame rsp = at s.current refl
    where
      at : (c : Option ℕ) → s.current ≡ c → OnlyCurrent (timer_at s frame rsp c)
      at none e = h
      at (some cur) e = elim (Bool-cases (none_or_zombie (at_slot s.procs cur))) [
        | inl f ↦ rw f (schedule_next-OnlyCurrent rsp)
        | inr f ↦ rw f (preempt_for-OnlyCurrent cur frame rsp (pick_runnable_other s cur) e)
      ]

  pub blocked-OnlyCurrent :
      (st : State)
      → is_running st ≡ false
      → (c : Option ℕ) → s.current ≡ c
      → OnlyCurrent (record s { procs = block_current st c s.procs })
  blocked-OnlyCurrent st stop none e k r = h k r
  blocked-OnlyCurrent st stop (some c) e k r = absurd (none_runs (block st) (λ p. stop) c e k r)

  pub make_zombie-OnlyCurrent :
      (pipes : Pipes) (slot : ℕ) (fault : Bool) → OnlyCurrent (make_zombie pipes s slot fault).1
  unfolding make_zombie
  make_zombie-OnlyCurrent pipes slot fault =
      wake_pipe-OnlyCurrent (record s { procs = update (to_zombie pipes fault) slot s.procs })
        (λ k r. h k (runs_at-update (to_zombie pipes fault) (λ p e. cc) slot s.procs k r))

  insert_at-OnlyCurrent :
      (st : Start) (name : Bytes) (parent slot : ℕ) (r : Pipes × Option FdTable)
      → OnlyCurrent (insert_at s st name parent slot r).1
  unfolding new_pcb
  insert_at-OnlyCurrent st name parent slot (pipes, none) k r = h k r
  insert_at-OnlyCurrent st name parent slot (pipes, some fds) k r = h k (inserted (parent == 0) r)
    where
      put : Procs
      put = set s.procs slot (some (new_pcb st name parent s.next_pid fds))

      inserted :
          (b : Bool)
          → runs_at (if b then put else mark_parent parent s.next_pid put) k ≡ true
          → runs_at s.procs k ≡ true
      inserted true r = runs_at-set s.procs slot k (new_pcb st name parent s.next_pid fds) refl r
      inserted false r =
          runs_at-set s.procs slot k (new_pcb st name parent s.next_pid fds) refl
            (sym (runs_at-mark parent s.next_pid put k) ∙ r)

  -- A new process does not run before it is picked.
  pub insert_pcb-OnlyCurrent :
      (pipes : Pipes) (st : Start) (name : Bytes) (parent stdin_fd stdout_fd : ℕ)
      → OnlyCurrent (insert_pcb pipes s st name parent stdin_fd stdout_fd).1
  unfolding insert_pcb
  insert_pcb-OnlyCurrent pipes st name parent stdin_fd stdout_fd =
      elim (Option-cases (free_slot s.procs)) [
        | inl e ↦ rw (e, insert_pcb) h
        | inr (slot, e) ↦
            rw (e, insert_pcb)
              (insert_at-OnlyCurrent st name parent slot
                (fds_for pipes s.procs parent stdin_fd stdout_fd))
      ]

-- If no process but the current one is running, so it is after `yield_block` to a state that is not
-- `Running`.
pub yield_block-OnlyCurrent :
    (s : Sched) (st : State) (rsp : ℕ)
    → is_running st ≡ false
    → OnlyCurrent s
    → OnlyCurrent (yield_block s st rsp)
unfolding yield_block
yield_block-OnlyCurrent s st rsp stop h =
    schedule_next-OnlyCurrent _ (blocked-OnlyCurrent s h st stop s.current refl) rsp

pub unload_all-AllNone :
    (pipes : Pipes) (ps : Procs) (k : ℕ) → at_slot (unload_all pipes ps).1 k ≡ none
unfolding unload_all
unload_all-AllNone pipes [] k = refl
unload_all-AllNone pipes (none ∷ ps) zero = refl
unload_all-AllNone pipes (some p ∷ ps) zero = refl
unload_all-AllNone pipes (none ∷ ps) (suc k) = unload_all-AllNone pipes ps k
unload_all-AllNone pipes (some p ∷ ps) (suc k) = unload_all-AllNone (close_all pipes p.fds).0 ps k

-- If no process but the current one is running, so it is after `user_exit`, with the change to the
-- next process or out of the scheduler.
pub user_exit-OnlyCurrent :
    (pipes : Pipes) (s : Sched) (slot : ℕ) (fault : Bool) (rsp : ℕ)
    → OnlyCurrent s
    → OnlyCurrent (user_exit pipes s slot fault rsp).1
unfolding user_exit leave_scheduler
user_exit-OnlyCurrent pipes s slot fault rsp h k r =
    by_test (dead.exclusive || (pid_at (at_slot dead.procs slot) == dead.init_pid)) r
  where
    dead : Sched
    dead = (make_zombie pipes s slot fault).1

    pipes' : Pipes
    pipes' = (make_zombie pipes s slot fault).0

    went_on : OnlyCurrent (schedule_next (wake_parent_of_slot slot dead) rsp)
    went_on =
        schedule_next-OnlyCurrent (wake_parent_of_slot slot dead)
          (wake_parent_of_slot-OnlyCurrent slot dead (make_zombie-OnlyCurrent s h pipes slot fault))
          rsp

    by_test :
        (b : Bool)
        → runs_at
            (if b
              then leave_scheduler pipes' dead
              else (pipes', schedule_next (wake_parent_of_slot slot dead) rsp)).1.procs
            k
          ≡ true
        → (if b
            then leave_scheduler pipes' dead
            else (pipes', schedule_next (wake_parent_of_slot slot dead) rsp)).1.current
          ≡ some k
    by_test true r = cc (unload_all-AllNone pipes' dead.procs k)
    by_test false r = went_on k r
