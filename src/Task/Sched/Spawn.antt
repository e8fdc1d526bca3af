-- ===== src/Task/Sched/Spawn.antt =====
-- kernel/src/task/sched/spawn.rs: new processes, exit, wait and kill. A program image and the words
-- that elfload.rs puts on its stack are arguments; the pipe table of pipe.rs is passed along.
use coeleo_os.Base.{
  ℕ, zero, suc, ◌+◌, ◌-◌, ◌/◌, ◌%◌, ◌^◌, min, List, [], ◌∷◌, ◌++◌, Bool, true, false, not, ◌&&◌,
  ◌||◌, Option, none, some, length, take, set, replicate, leb, ltb, ◌==◌, if◌then◌else◌,
}
use coeleo_os.Base.Bytes.{Bytes, to_le_bytes}
use coeleo_os.Base.Utf8.{is_utf8}
use coeleo_os.Task.Pipe.{Pipes}
use coeleo_os.Task.Fd.{FdTable, new_stdio, err, close_all, inherit_from}
use coeleo_os.Task.Sched.{
  max_proc, runnable, zombie, TrapFrame, Pcb, Procs, Sched, is_zombie, is_blocked_wait, at_slot,
  shift, position, update, wake_pipe, wake_waiter, wake_parent_of_slot, parent_of,
}
use coeleo_os.Task.Sched.Switch.{schedule_next, leave_scheduler, drop_pcb}

-- The part of `path` behind its last `/`, with `cur` so far.
unfoldable pub after_slash : Bytes → Bytes → Bytes
after_slash cur [] = cur
after_slash cur (c ∷ cs) = after_slash (if c == b'/' then cs else cur) cs

unfoldable pub basename : Bytes → Bytes
basename path = let base = after_slash path path in if length base == 0 then path else base

-- Twelve bytes, filled up with zeros.
unfoldable pub name_from_path : Bytes → Bytes
name_from_path path = take 12 (basename path ++ replicate 12 0)

-- `ArgvSetup` and the entry point of an image, with the selectors of the user's segments.
pub record Start : Type 0 where
  pub argv_ptr : ℕ
  pub argc : ℕ
  pub rsp : ℕ
  pub entry : ℕ
  pub user_code : ℕ
  pub user_data : ℕ

unfoldable pub first_trap : Start → TrapFrame
first_trap st = record {
  rax = 0;
  rbx = 0;
  rcx = 0;
  rdx = 0;
  rsi = st.argv_ptr;
  rdi = st.argc;
  rbp = 0;
  r8 = 0;
  r9 = 0;
  r10 = 0;
  r11 = 0;
  r12 = 0;
  r13 = 0;
  r14 = 0;
  r15 = 0;
  rip = st.entry;
  cs = st.user_code;
  rflags = 0x202;
  rsp = st.rsp;
  ss = st.user_data;
}

-- `find` of a process by its pid.
unfoldable pub find_pid : ℕ → Procs → Option Pcb
find_pid pid [] = none
find_pid pid (none ∷ ps) = find_pid pid ps
find_pid pid (some p ∷ ps) = if p.pid == pid then some p else find_pid pid ps

unfoldable pub free_slot : Procs → Option ℕ
free_slot [] = none
free_slot (none ∷ ps) = some 0
free_slot (some p ∷ ps) = shift (free_slot ps)

abbrev pub child_fds : Pipes → ℕ → ℕ → Option Pcb → Pipes × Option FdTable
child_fds pipes stdin_fd stdout_fd none = (pipes, none)
child_fds pipes stdin_fd stdout_fd (some p) = inherit_from pipes p.fds stdin_fd stdout_fd

unfoldable pub fds_for : Pipes → Procs → ℕ → ℕ → ℕ → Pipes × Option FdTable
fds_for pipes procs parent stdin_fd stdout_fd =
    if parent == 0
    then (pipes, some new_stdio)
    else child_fds pipes stdin_fd stdout_fd (find_pid parent procs)

unfoldable pub new_pcb : Start → Bytes → ℕ → ℕ → FdTable → Pcb
new_pcb st name parent pid fds = record {
  pid = pid;
  parent = parent;
  state = runnable;
  name = name_from_path name;
  trap = first_trap st;
  kcont_valid = false;
  user_rsp = 0;
  fds = fds;
  spawned_child = false;
  last_spawned = 0;
  fault = false;
}

-- `saturating_add(1)` on a `u32`.
abbrev pub next : ℕ → ℕ
next pid = min (pid + 1) (2 ^ 32 - 1)

abbrev pub spawned : ℕ → Pcb → Pcb
spawned pid p = record p { spawned_child = true; last_spawned = pid }

-- The mark on the first process with the parent's pid.
unfoldable pub mark_parent : ℕ → ℕ → Procs → Procs
mark_parent parent pid [] = []
mark_parent parent pid (none ∷ ps) = none ∷ mark_parent parent pid ps
mark_parent parent pid (some p ∷ ps) =
    let rest = mark_parent parent pid ps in
    if p.pid == parent then some (spawned pid p) ∷ ps else some p ∷ rest

abbrev pub insert_at :
    Sched → Start → Bytes → ℕ → ℕ → Pipes × Option FdTable → Pipes × Sched × Option ℕ
insert_at s st name parent slot (pipes, none) = (pipes, s, none)
insert_at s st name parent slot (pipes, some fds) =
    let procs = set s.procs slot (some (new_pcb st name parent s.next_pid fds)) in
    let procs' = if parent == 0 then procs else mark_parent parent s.next_pid procs in
    (pipes, record s { procs = procs'; next_pid = next s.next_pid }, some slot)

abbrev pub insert_in :
    Pipes → Sched → Start → Bytes → ℕ → ℕ → ℕ → Option ℕ → Pipes × Sched × Option ℕ
insert_in pipes s st name parent stdin_fd stdout_fd none = (pipes, s, none)
insert_in pipes s st name parent stdin_fd stdout_fd (some slot) =
    insert_at s st name parent slot (fds_for pipes s.procs parent stdin_fd stdout_fd)

-- The slot of the new process, or `none` where the source unloads the image.
unfoldable pub insert_pcb : Pipes → Sched → Start → Bytes → ℕ → ℕ → ℕ → Pipes × Sched × Option ℕ
insert_pcb pipes s st name parent stdin_fd stdout_fd =
    insert_in pipes s st name parent stdin_fd stdout_fd (free_slot s.procs)

abbrev pub fds_of : Option Pcb → FdTable
fds_of none = []
fds_of (some p) = p.fds

abbrev pub to_zombie : Pipes → Bool → Pcb → Pcb
to_zombie pipes fault p = record p {
  fds = (close_all pipes p.fds).1;
  state = zombie;
  fault = fault;
  kcont_valid = false;
}

-- `make_zombie_locked`.
unfoldable pub make_zombie : Pipes → Sched → ℕ → Bool → Pipes × Sched
make_zombie pipes s slot fault = (
  (close_all pipes (fds_of (at_slot s.procs slot))).0,
  wake_pipe (record s { procs = update (to_zombie pipes fault) slot s.procs }),
)

abbrev pub pid_at : Option Pcb → ℕ
pid_at none = 0
pid_at (some p) = p.pid

-- `user_exit` of the process in slot `slot`, the current one.
unfoldable pub user_exit : Pipes → Sched → ℕ → Bool → ℕ → Pipes × Sched
user_exit pipes s slot fault rsp =
    let (pipes', s') = make_zombie pipes s slot fault in
    if s'.exclusive || (pid_at (at_slot s'.procs slot) == s'.init_pid)
    then leave_scheduler pipes' s'
    else (pipes', schedule_next (wake_parent_of_slot slot s') rsp)

abbrev pub last_of : Option Pcb → ℕ
last_of none = 0
last_of (some p) = p.last_spawned

abbrev pub kill_victim : Pipes → Sched → Option ℕ → Pipes × Sched × Bool
kill_victim pipes s none = (pipes, s, false)
kill_victim pipes s (some v) =
    let (pipes', s') = make_zombie pipes s v false in
    (pipes', wake_waiter (parent_of (at_slot s'.procs v)) s', true)

abbrev pub kill_last : Pipes → Sched → Option ℕ → Pipes × Sched × Bool
kill_last pipes s none = (pipes, s, false)
kill_last pipes s (some w) =
    let last = last_of (at_slot s.procs w) in
    if (last == 0) || (last == s.init_pid)
    then (pipes, s, false)
    else kill_victim pipes s (position (λ p. (p.pid == last) && not (is_zombie p.state)) s.procs)

unfoldable pub kill_foreground : Pipes → Sched → Pipes × Sched × Bool
kill_foreground pipes s = kill_last pipes s (position (λ p. is_blocked_wait p.state) s.procs)

pub data WaitResult : Type 0 where
  pid : ℕ → WaitResult
  never_had_children : WaitResult
  must_block : WaitResult

abbrev pub is_dead_child : ℕ → Pcb → Bool
is_dead_child parent p = (p.parent == parent) && is_zombie p.state

abbrev pub reap_slot : Pipes → Sched → ℕ → Option Pcb → Pipes × Sched
reap_slot pipes s i none = (pipes, s)
reap_slot pipes s i (some p) = (drop_pcb pipes p, record s { procs = set s.procs i none })

abbrev pub reap_child : Pipes → Sched → Pcb → Option ℕ → Pipes × Sched × WaitResult
reap_child pipes s cur (some i) =
    let (pipes', s') = reap_slot pipes s i (at_slot s.procs i) in
    (pipes', s', pid (pid_at (at_slot s.procs i)))
reap_child pipes s cur none =
    (pipes, s, if cur.spawned_child then must_block else never_had_children)

abbrev pub reap_for : Pipes → Sched → Option Pcb → Pipes × Sched × WaitResult
reap_for pipes s none = (pipes, s, never_had_children)
reap_for pipes s (some cur) = reap_child pipes s cur (position (is_dead_child cur.pid) s.procs)

abbrev pub current_of : Sched → Option ℕ → Option Pcb
current_of s none = none
current_of s (some i) = at_slot s.procs i

unfoldable pub try_reap : Pipes → Sched → Pipes × Sched × WaitResult
try_reap pipes s = reap_for pipes s (current_of s s.current)

-- `reap_orphans`, with `n` rounds; a round that finds none ends the loop.
unfoldable pub reap_orphans : ℕ → Pipes → Sched → Pipes × Sched
reap_orphans zero pipes s = (pipes, s)
reap_orphans (suc n) pipes s = elim (position (is_dead_child 0) s.procs) [
  | none ↦ (pipes, s)
  | some i ↦
      reap_orphans n (reap_slot pipes s i (at_slot s.procs i)).0
        (reap_slot pipes s i (at_slot s.procs i)).1
]

abbrev pub kill_at : Pipes → Sched → Pcb → ℕ → Option Pcb → Pipes × Sched × ℕ
kill_at pipes s cur v none = (pipes, s, err)
kill_at pipes s cur v (some p) =
    if not (p.parent == cur.pid)
    then (pipes, s, err)
    else if is_zombie p.state
    then (pipes, s, err)
    else (let (pipes', s') = make_zombie pipes s v false in (pipes', s', 0))

abbrev pub kill_found : Pipes → Sched → Pcb → Option ℕ → Pipes × Sched × ℕ
kill_found pipes s cur none = (pipes, s, err)
kill_found pipes s cur (some v) = kill_at pipes s cur v (at_slot s.procs v)

abbrev pub kill_for : Pipes → Sched → ℕ → Option Pcb → Pipes × Sched × ℕ
kill_for pipes s target none = (pipes, s, err)
kill_for pipes s target (some cur) =
    if target == s.init_pid
    then (pipes, s, err)
    else kill_found pipes s cur (position (λ p. p.pid == target) s.procs)

unfoldable pub sys_kill : Pipes → Sched → ℕ → Pipes × Sched × ℕ
sys_kill pipes s target = kill_for pipes s (target % 2 ^ 32) (current_of s s.current)

abbrev pub argv_max : ℕ
argv_max = 16

abbrev pub argv_str_max : ℕ
argv_str_max = 255

-- The loop of `parse_argv_blob`: `str` holds the bytes since the last zero, `n` strings are out.
abbrev pub push_arg : ℕ → Bytes → Option (List Bytes) → Option (List Bytes)
push_arg n str none = none
push_arg n str (some rest) =
    if (length str == 0) || leb argv_max n
    then none
    else if not (is_utf8 str) || ltb argv_str_max (length str)
    then none
    else some (str ∷ rest)

unfoldable pub split_args : ℕ → Bytes → Bytes → Option (List Bytes)
split_args n str [] = some []
split_args n str (b ∷ bs) =
    let more = split_args n (str ++ (b ∷ [])) bs in
    let rest = split_args (n + 1) [] bs in if b == 0 then push_arg n str rest else more

abbrev pub ends_with_zero : Bytes → Bool
ends_with_zero [] = false
ends_with_zero (b ∷ []) = b == 0
ends_with_zero (b ∷ c ∷ bs) = ends_with_zero (c ∷ bs)

abbrev pub some_args : Option (List Bytes) → Option (List Bytes)
some_args none = none
some_args (some []) = none
some_args (some (a ∷ as')) = some (a ∷ as')

unfoldable pub parse_argv_blob : Bytes → Option (List Bytes)
parse_argv_blob blob = if ends_with_zero blob then some_args (split_args 0 [] blob) else none

abbrev pub ps_rec : ℕ
ps_rec = 16

-- The records that `sys_ps` writes, at most `nrec` of them.
unfoldable pub ps_records : ℕ → Procs → Bytes
ps_records zero ps = []
ps_records (suc n) [] = []
ps_records (suc n) (none ∷ ps) = ps_records (suc n) ps
ps_records (suc n) (some p ∷ ps) = to_le_bytes 4 p.pid ++ (p.name ++ ps_records n ps)

-- `sys_ps` past the check of the caller's buffer: the bytes written, or `none` for `ERR`.
unfoldable pub ps : Sched → ℕ → Option Bytes
ps s len = if ltb len ps_rec then none else some (ps_records (min (len / ps_rec) max_proc) s.procs)
