-- ===== src/Task/Sched/Switch.antt =====
-- kernel/src/task/sched/switch.rs: the choice of the next process and the change to it. What the
-- assembly does with the registers, the stacks and the page table is left out; the word
-- `CPU_LOCAL.user_rsp` is an argument.
use coeleo_os.Base.{
  ℕ, zero, suc, ◌+◌, ◌-◌, ◌%◌, [], ◌∷◌, Bool, true, false, ◌||◌, Option, none, some, ◌==◌,
  if◌then◌else◌,
}
use coeleo_os.Task.Pipe.{Pipes}
use coeleo_os.Task.Fd.{close_all}
use coeleo_os.Task.Sched.{
  max_proc, State, runnable, running, IrqFrame, TrapFrame, Pcb, Procs, Sched, is_runnable,
  is_running, is_zombie, at_slot, some_and, update,
}

abbrev pub can_run : Pcb → Bool
can_run p = is_runnable p.state || is_running p.state

-- The loop of `pick_runnable`: slots `(start + k) % MAX_PROC`, with `n` rounds to go.
unfoldable pub pick_from : (Pcb → Bool) → Procs → ℕ → ℕ → ℕ → Option ℕ
pick_from test ps start k zero = none
pick_from test ps start k (suc n) =
    let rest = pick_from test ps start (k + 1) n in
    let i = (start + k) % max_proc in if some_and test (at_slot ps i) then some i else rest

abbrev pub start_of : Option ℕ → ℕ
start_of none = 0
start_of (some c) = c + 1

unfoldable pub pick_runnable : Sched → Option ℕ
pick_runnable s = pick_from can_run s.procs (start_of s.current) 0 max_proc

unfoldable pub pick_runnable_other : Sched → ℕ → Option ℕ
pick_runnable_other s cur = pick_from (λ p. is_runnable p.state) s.procs cur 1 (max_proc - 1)

abbrev pub rest_state : State → State
rest_state running = runnable
rest_state st = st

-- What `switch_to` does to the process that it leaves.
abbrev pub demote : ℕ → Pcb → Pcb
demote rsp p = record p { state = rest_state p.state; user_rsp = rsp }

abbrev pub leave : Option ℕ → ℕ → ℕ → Procs → Procs
leave none slot rsp ps = ps
leave (some c) slot rsp ps = if c == slot then ps else update (demote rsp) c ps

abbrev pub run_now : Pcb → Pcb
run_now p = record p { state = running }

unfoldable pub switch_to : Sched → ℕ → ℕ → Sched
switch_to s slot rsp = record s {
  procs = update run_now slot (leave s.current slot rsp s.procs);
  current = some slot;
}

-- One round of `schedule_next`; with no process to run it waits for an interrupt and tries again.
unfoldable pub schedule_next : Sched → ℕ → Sched
schedule_next s rsp = elim (pick_runnable s) [ none ↦ s | some slot ↦ switch_to s slot rsp ]

-- `yield_block`, up to the change to another process.
abbrev pub block : State → Pcb → Pcb
block st p = record p { state = st; kcont_valid = true }

abbrev pub block_current : State → Option ℕ → Procs → Procs
block_current st none ps = ps
block_current st (some i) ps = update (block st) i ps

unfoldable pub yield_block : Sched → State → ℕ → Sched
yield_block s st rsp = schedule_next (record s { procs = block_current st s.current s.procs }) rsp

unfoldable pub trap_from_irq : IrqFrame → TrapFrame
trap_from_irq frame = record {
  rax = frame.rax;
  rbx = frame.rbx;
  rcx = frame.rcx;
  rdx = frame.rdx;
  rsi = frame.rsi;
  rdi = frame.rdi;
  rbp = frame.rbp;
  r8 = frame.r8;
  r9 = frame.r9;
  r10 = frame.r10;
  r11 = frame.r11;
  r12 = frame.r12;
  r13 = frame.r13;
  r14 = frame.r14;
  r15 = frame.r15;
  rip = frame.rip;
  cs = frame.cs;
  rflags = frame.rflags;
  rsp = frame.rsp;
  ss = frame.ss;
}

abbrev pub preempt : IrqFrame → ℕ → Pcb → Pcb
preempt frame rsp p = record p {
  trap = trap_from_irq frame;
  state = runnable;
  kcont_valid = false;
  user_rsp = rsp;
}

abbrev pub preempt_for : Sched → ℕ → IrqFrame → ℕ → Option ℕ → Sched
preempt_for s cur frame rsp none = s
preempt_for s cur frame rsp (some n) = record s {
  procs = update run_now n (update (preempt frame rsp) cur s.procs);
  current = some n;
}

abbrev pub none_or_zombie : Option Pcb → Bool
none_or_zombie none = true
none_or_zombie (some p) = is_zombie p.state

abbrev pub timer_at : Sched → IrqFrame → ℕ → Option ℕ → Sched
timer_at s frame rsp none = s
timer_at s frame rsp (some cur) =
    if none_or_zombie (at_slot s.procs cur)
    then schedule_next s rsp
    else preempt_for s cur frame rsp (pick_runnable_other s cur)

-- The scheduler's part of the timer interrupt.
unfoldable pub timer_from_user : Sched → IrqFrame → ℕ → Sched
timer_from_user s frame rsp = timer_at s frame rsp s.current

-- The descriptors that `unload_all` and `drop_pcb` close; the slots are emptied.
unfoldable pub unload_all : Pipes → Procs → Pipes × Procs
unload_all pipes [] = (pipes, [])
unload_all pipes (none ∷ ps) = let (pipes', rest) = unload_all pipes ps in (pipes', none ∷ rest)
unload_all pipes (some p ∷ ps) =
    let (pipes', rest) = unload_all (close_all pipes p.fds).0 ps in (pipes', none ∷ rest)

unfoldable pub drop_pcb : Pipes → Pcb → Pipes
drop_pcb pipes p = (close_all pipes p.fds).0

unfoldable pub leave_scheduler : Pipes → Sched → Pipes × Sched
leave_scheduler pipes s =
    let (pipes', procs') = unload_all pipes s.procs in
    (pipes', record s { procs = procs'; current = none; exclusive = false; init_pid = 0 })
