-- ===== src/Task/Sched.antt =====
-- kernel/src/task/sched/pcb.rs and the queries and wake-ups of sched/spawn.rs: the table of
-- processes. A process is kept without its page table and its program image, which elfload.rs owns;
-- its open files are those of fd.rs.
pub mod Spawn
pub mod Switch
pub mod Slots
pub mod Pick
pub mod Balance
pub mod Ends
pub mod Running
pub mod Pids
pub mod Kill
pub mod Wait
pub mod Argv
pub mod Files
pub mod Steps
pub mod Tables
pub mod Sound
pub mod Calls
pub mod Inserted
pub mod Reached
mod Tests
use coeleo_os.Base.{
  ℕ, zero, suc, ◌+◌, ◌^◌, ◌-◌, List, [], ◌∷◌, map, Bool, true, false, not, ◌&&◌, ◌||◌, Option, none,
  some, get_elem?, set, replicate, ◌==◌, if◌then◌else◌,
}
use coeleo_os.Base.Bytes.{Bytes}
use coeleo_os.Task.Fd.{FdTable}

abbrev pub max_proc : ℕ
max_proc = 8

pub data State : Type 0 where
  runnable : State
  running : State
  blocked_stdin : State
  blocked_wait : State
  blocked_pipe_read : State
  blocked_pipe_write : State
  zombie : State

-- The registers that the timer interrupt stores.
pub record IrqFrame : Type 0 where
  pub rax : ℕ
  pub rbx : ℕ
  pub rcx : ℕ
  pub rdx : ℕ
  pub rsi : ℕ
  pub rdi : ℕ
  pub rbp : ℕ
  pub r8 : ℕ
  pub r9 : ℕ
  pub r10 : ℕ
  pub r11 : ℕ
  pub r12 : ℕ
  pub r13 : ℕ
  pub r14 : ℕ
  pub r15 : ℕ
  pub rip : ℕ
  pub cs : ℕ
  pub rflags : ℕ
  pub rsp : ℕ
  pub ss : ℕ

-- The registers that a process resumes with.
pub record TrapFrame : Type 0 where
  pub rax : ℕ
  pub rbx : ℕ
  pub rcx : ℕ
  pub rdx : ℕ
  pub rsi : ℕ
  pub rdi : ℕ
  pub rbp : ℕ
  pub r8 : ℕ
  pub r9 : ℕ
  pub r10 : ℕ
  pub r11 : ℕ
  pub r12 : ℕ
  pub r13 : ℕ
  pub r14 : ℕ
  pub r15 : ℕ
  pub rip : ℕ
  pub cs : ℕ
  pub rflags : ℕ
  pub rsp : ℕ
  pub ss : ℕ

pub record Pcb : Type 0 where
  pub pid : ℕ
  pub parent : ℕ
  pub state : State
  pub name : Bytes
  pub trap : TrapFrame
  pub kcont_valid : Bool
  pub user_rsp : ℕ
  pub fds : FdTable
  pub spawned_child : Bool
  pub last_spawned : ℕ
  pub fault : Bool

-- `procs`, of `MAX_PROC` slots.
abbrev pub Procs : Type 0
Procs = List (Option Pcb)

pub record Sched : Type 0 where
  pub procs : Procs
  pub current : Option ℕ
  pub next_pid : ℕ
  pub exclusive : Bool
  pub init_pid : ℕ

abbrev pub initial : Sched
initial = record {
  procs = replicate max_proc none;
  current = none;
  next_pid = 1;
  exclusive = false;
  init_pid = 0;
}

abbrev pub is_runnable : State → Bool
is_runnable runnable = true
is_runnable _ = false

abbrev pub is_running : State → Bool
is_running running = true
is_running _ = false

abbrev pub is_zombie : State → Bool
is_zombie zombie = true
is_zombie _ = false

abbrev pub is_blocked_wait : State → Bool
is_blocked_wait blocked_wait = true
is_blocked_wait _ = false

-- `procs[i]`, with no process out of range.
abbrev pub at_slot : Procs → ℕ → Option Pcb
at_slot [] i = none
at_slot (p ∷ ps) zero = p
at_slot (p ∷ ps) (suc i) = at_slot ps i

abbrev pub some_and : (Pcb → Bool) → Option Pcb → Bool
some_and test none = false
some_and test (some p) = test p

-- A position behind one more slot.
abbrev pub shift : Option ℕ → Option ℕ
shift none = none
shift (some i) = some (suc i)

-- `procs.iter().position(|p| p.as_ref().is_some_and(test))`.
unfoldable pub position : (Pcb → Bool) → Procs → Option ℕ
position test [] = none
position test (p ∷ ps) = if some_and test p then some 0 else shift (position test ps)

-- The change of `procs[i]`, which the source knows to be a process.
abbrev pub update : (Pcb → Pcb) → ℕ → Procs → Procs
update f i [] = []
update f zero (none ∷ ps) = none ∷ ps
update f zero (some p ∷ ps) = some (f p) ∷ ps
update f (suc i) (p ∷ ps) = p ∷ update f i ps

-- `for p in procs.iter_mut().flatten() { f(p) }`.
abbrev pub each : (Pcb → Pcb) → Procs → Procs
each f [] = []
each f (none ∷ ps) = none ∷ each f ps
each f (some p ∷ ps) = some (f p) ∷ each f ps

unfoldable pub current_proc : Sched → Option Pcb
current_proc s = elim s.current [ none ↦ none | some i ↦ at_slot s.procs i ]

unfoldable pub current_pid : Sched → Option ℕ
current_pid s = elim (current_proc s) [ none ↦ none | some p ↦ some p.pid ]

unfoldable pub current_is_zombie : Sched → Bool
current_is_zombie s = some_and (λ p. is_zombie p.state) (current_proc s)

abbrev pub wake_if_stdin : State → State
wake_if_stdin blocked_stdin = runnable
wake_if_stdin st = st

unfoldable pub wake_stdin : Sched → Sched
wake_stdin s = record s { procs = each (λ p. record p { state = wake_if_stdin p.state }) s.procs }

abbrev pub wake_if_pipe : State → State
wake_if_pipe blocked_pipe_read = runnable
wake_if_pipe blocked_pipe_write = runnable
wake_if_pipe st = st

-- `wake_pipe_locked`.
unfoldable pub wake_pipe : Sched → Sched
wake_pipe s = record s { procs = each (λ p. record p { state = wake_if_pipe p.state }) s.procs }

abbrev pub wake_if_waits : ℕ → Pcb → Pcb
wake_if_waits parent p =
    if (p.pid == parent) && is_blocked_wait p.state then record p { state = runnable } else p

-- The loop that `wake_parent_of_slot` and `kill_foreground` share.
unfoldable pub wake_waiter : ℕ → Sched → Sched
wake_waiter parent s = record s { procs = each (wake_if_waits parent) s.procs }

abbrev pub parent_of : Option Pcb → ℕ
parent_of none = 0
parent_of (some p) = p.parent

unfoldable pub wake_parent_of_slot : ℕ → Sched → Sched
wake_parent_of_slot slot s =
    let parent = parent_of (at_slot s.procs slot) in if parent == 0 then s else wake_waiter parent s
