-- ===== src/Task/Sched/Tests.antt =====
-- Runs of the scheduler, and its theorems at concrete inputs.
use coeleo_os.Base.{
  ℕ, zero, suc, ◌≡◌, ◌≢◌, refl, subst, arith, List, [], ◌∷◌, true, false, Option, none, some, All,
}
use coeleo_os.Base.Bytes.{codes, Bytes}
use coeleo_os.Task.Pipe
use coeleo_os.Task.Pipe.{Pipes}
use coeleo_os.Task.Fd.{new_stdio, err, close_all, drop_open, inherit_from, inherit_stdout}
use coeleo_os.Task.Sched
use coeleo_os.Task.Sched.{
  Sched, Pcb, Procs, State, runnable, running, blocked_wait, zombie, IrqFrame, initial, max_proc,
  at_slot, some_and, position, wake_pipe, wake_waiter, wake_parent_of_slot,
}
use coeleo_os.Task.Sched.Switch.{pick_from, pick_runnable, pick_runnable_other, can_run}
use coeleo_os.Task.Sched.Spawn.{
  Start, insert_pcb, free_slot, fds_for, find_pid, new_pcb, first_trap, name_from_path, basename,
  after_slash, mark_parent, make_zombie, current_of, pid_at, sys_kill, try_reap, pid, must_block,
  parse_argv_blob,
}
use coeleo_os.Task.Sched.Pids.{Unique}
use coeleo_os.Task.Sched.Sound.{Counts}
use coeleo_os.Task.Sched.Files.{make_pipe}
use coeleo_os.Task.Sched.Steps
use coeleo_os.Task.Sched.Steps.{Reach, booted, after, launch, spawn, kill, run_with}
use coeleo_os.Task.Sched.Reached.{
  Valid, AllFromEmpty, Step-Valid, Reach-Valid, Reach-Unique, nobody,
}
use coeleo_os.Task.Sched.Pick.{Nearest, pick_runnable-none, pick_runnable_other_lem}
use coeleo_os.Task.Sched.Kill.{Killable, Killed, sys_kill_ok, sys_kill-err, Reaped, try_reap_pid}
use coeleo_os.Task.Sched.Wait.{ChildrenLive, try_reap-insert_pcb}
use coeleo_os.Task.Sched.Argv.{IsArg, parse_argv_blob-pack_argv}
use coeleo_os.Sh.Path.{pack_argv}
use coeleo_os.Base.Utf8.{is_utf8, valid_after, after_lead}

start : Start
start = record { argv_ptr = 0; argc = 1; rsp = 4096; entry = 4096; user_code = 51; user_data = 43 }

-- `sh` in slot 0, current, and its child `ls` in slot 1.
sh_runs : Pipes × Sched
unfolding run_with insert_pcb free_slot fds_for find_pid new_pcb first_trap name_from_path basename
    after_slash mark_parent inherit_from inherit_stdout new_stdio start
sh_runs = run_with Pipe.initial initial (some start) (codes "sh") false

with_ls : Pipes × Sched × Option ℕ
unfolding insert_pcb free_slot fds_for find_pid new_pcb first_trap name_from_path basename
    after_slash mark_parent inherit_from inherit_stdout new_stdio start
with_ls = insert_pcb sh_runs.0 sh_runs.1 start (codes "/bin/ls") 1 err err

slot_of_ls : with_ls.2 ≡ some 1
unfolding with_ls sh_runs
slot_of_ls = refl

sh_runs-Reach : Reach sh_runs
unfolding sh_runs
sh_runs-Reach = after booted (launch Pipe.initial initial (some start) (codes "sh") false refl)

with_ls-Reach : Reach (with_ls.0, with_ls.1)
unfolding with_ls
with_ls-Reach = after sh_runs-Reach (spawn sh_runs.0 sh_runs.1 start (codes "/bin/ls") 1 err err)

-- The child is killed while the shell runs on.
killed : Pipes × Sched
killed = ((sys_kill with_ls.0 with_ls.1 2).0, (sys_kill with_ls.0 with_ls.1 2).1)

killed-Reach : Reach killed
unfolding killed
killed-Reach = after with_ls-Reach (kill with_ls.0 with_ls.1 2)

Reach-Valid_example : Valid killed.0 killed.1
Reach-Valid_example = Reach-Valid killed-Reach

with_ls-Valid : Valid with_ls.0 with_ls.1
with_ls-Valid = Reach-Valid with_ls-Reach

small_pid : Counts with_ls.1
unfolding with_ls sh_runs
small_pid = omega arith

-- The shell was launched in an empty table.
with_ls_from_empty : AllFromEmpty with_ls-Reach
unfolding with_ls-Reach sh_runs-Reach with_ls sh_runs
with_ls_from_empty = ((tt, nobody max_proc), tt)

Reach-Unique_example : Unique with_ls.1
Reach-Unique_example = Reach-Unique with_ls-Reach with_ls_from_empty small_pid

-- The launcher of the desktop starts `edit` while no process is current, then the kernel's shell runs
-- `ls`: both have the pid 1.
edit_left : Pipes × Sched × Option ℕ
unfolding insert_pcb free_slot fds_for find_pid new_pcb first_trap name_from_path basename
    after_slash new_stdio start
edit_left = insert_pcb Pipe.initial initial start (codes "/bin/edit") 0 err err

ls_beside : Pipes × Sched
unfolding run_with insert_pcb free_slot fds_for find_pid new_pcb first_trap name_from_path basename
    after_slash new_stdio start
ls_beside = run_with edit_left.0 edit_left.1 (some start) (codes "ls") true

ls_beside-Reach : Reach ls_beside
unfolding ls_beside edit_left
ls_beside-Reach =
    after (after booted (spawn Pipe.initial initial start (codes "/bin/edit") 0 err err))
      (launch edit_left.0 edit_left.1 (some start) (codes "ls") true refl)

pids_collide :
    (pid_at (at_slot ls_beside.1.procs 0) ≡ 1) × (pid_at (at_slot ls_beside.1.procs 1) ≡ 1)
unfolding ls_beside edit_left
pids_collide = (refl, refl)

made_pipe : Valid (make_pipe with_ls.0 with_ls.1).0 (make_pipe with_ls.0 with_ls.1).1
made_pipe = Step-Valid (Steps.pipe with_ls.0 with_ls.1) with_ls-Valid

-- After the timer's interrupt the child runs.
ls_next : pick_runnable_other with_ls.1 0 ≡ some 1
unfolding with_ls sh_runs pick_runnable_other pick_from
ls_next = refl

pick_runnable_other_lem_example :
    (◌≢◌ {A = ℕ} 1 0) × Nearest (λ p. Sched.is_runnable p.state) with_ls.1.procs 0 1 7 1
pick_runnable_other_lem_example = pick_runnable_other_lem with_ls.1 0 (omega arith) ls_next

nothing_initially : pick_runnable initial ≡ none
unfolding pick_runnable pick_from
nothing_initially = refl

pick_runnable-none_example : Sched.some_and can_run (at_slot initial.procs 3) ≡ false
pick_runnable-none_example = pick_runnable-none initial nothing_initially 3 (omega arith)

abbrev two_args : List Bytes
two_args = codes "ls" ∷ codes "-a" ∷ []

two_args-IsArg : All IsArg two_args
unfolding is_utf8 valid_after after_lead
two_args-IsArg = (
  record {
    nonempty = omega arith;
    short = omega arith;
    no_zero = (λ e. omega arith, (λ e. omega arith, tt));
    utf8 = refl;
  },
  (
    record {
      nonempty = omega arith;
      short = omega arith;
      no_zero = (λ e. omega arith, (λ e. omega arith, tt));
      utf8 = refl;
    },
    tt,
  ),
)

parse_argv_blob-pack_argv_example :
    parse_argv_blob (pack_argv (codes "ls") 2 (codes "-a" ∷ [])) ≡ some two_args
parse_argv_blob-pack_argv_example =
    parse_argv_blob-pack_argv (codes "ls") 2 (codes "-a" ∷ []) (omega arith) two_args-IsArg
      (omega arith) (omega arith)

with_ls-Unique : Unique with_ls.1
with_ls-Unique = Reach-Unique with_ls-Reach with_ls_from_empty small_pid

-- A process of the table; the first one where there is none.
pcb_of : Option Pcb → Pcb
pcb_of none = new_pcb start [] 0 0 []
pcb_of (some p) = p

sh : Pcb
sh = pcb_of (at_slot with_ls.1.procs 0)

ls : Pcb
ls = pcb_of (at_slot with_ls.1.procs 1)

sh_current : current_of with_ls.1 with_ls.1.current ≡ some sh
unfolding sh pcb_of with_ls sh_runs
sh_current = refl

ls-Killable : Killable with_ls.1 sh 2 1 ls
unfolding sh ls pcb_of with_ls sh_runs
ls-Killable = (λ e. omega arith, refl, refl, refl, refl)

sys_kill_ok_example : Killed with_ls.0 with_ls.1 1 ls (sys_kill with_ls.0 with_ls.1 2)
sys_kill_ok_example =
    sys_kill_ok with_ls.0 with_ls.1 sh 2 sh_current with_ls-Unique with_ls-Valid.balanced 1 ls
      ls-Killable

-- The shell cannot kill itself.
not_init : (k : ℕ) (p : Pcb) → Killable with_ls.1 sh 1 k p → ⊥
unfolding with_ls sh_runs
not_init k p h = h.0 refl

sys_kill-err_example : sys_kill with_ls.0 with_ls.1 1 ≡ (with_ls.0, with_ls.1, err)
sys_kill-err_example = sys_kill-err with_ls.0 with_ls.1 sh 1 sh_current not_init

-- The shell spawns another child while the first one lives.
sh_pid : sh.pid ≡ 1
unfolding sh pcb_of with_ls sh_runs
sh_pid = refl

children_live : ChildrenLive sh.pid with_ls.1.procs
unfolding sh pcb_of with_ls sh_runs
children_live zero p e f = subst (λ o. some_and (λ q. Sched.is_zombie q.state) o ≡ false) e refl
children_live (suc zero) p e f =
    subst (λ o. some_and (λ q. Sched.is_zombie q.state) o ≡ false) e refl
children_live (suc (suc k)) p e f = cc (nobody 6 k)

second : Pipes × Sched × Option ℕ
second = insert_pcb with_ls.0 with_ls.1 start (codes "cat") sh.pid err err

second_slot : second.2 ≡ some 2
unfolding second insert_pcb free_slot fds_for find_pid inherit_from inherit_stdout sh pcb_of with_ls
    sh_runs
second_slot = refl

try_reap-insert_pcb_example : try_reap second.0 second.1 ≡ (second.0, second.1, must_block)
unfolding second
try_reap-insert_pcb_example =
    try_reap-insert_pcb with_ls.0 with_ls.1 sh start (codes "cat") err err 2 sh_current
      (λ e. omega (arith, sh_pid, e)) with_ls-Unique children_live second_slot

-- The child has ended.
after_kill : Pipes × Sched
after_kill = make_zombie with_ls.0 with_ls.1 1 false

sh_waits : Pcb
sh_waits = pcb_of (at_slot after_kill.1.procs 0)

sh_waits_current : current_of after_kill.1 after_kill.1.current ≡ some sh_waits
unfolding sh_waits after_kill make_zombie wake_pipe close_all drop_open pcb_of with_ls sh_runs
sh_waits_current = refl

reaps_ls : (try_reap after_kill.0 after_kill.1).2 ≡ pid 2
unfolding try_reap position after_kill make_zombie wake_pipe close_all drop_open pcb_of with_ls
    sh_runs
reaps_ls = refl

try_reap_pid_example :
    Reaped after_kill.0 after_kill.1 sh_waits 2 (try_reap after_kill.0 after_kill.1)
try_reap_pid_example = try_reap_pid after_kill.0 after_kill.1 sh_waits sh_waits_current reaps_ls

-- No child is left, and the shell is told to wait all the same.
waits_for_none :
    (try_reap (try_reap after_kill.0 after_kill.1).0 (try_reap after_kill.0 after_kill.1).1).2
    ≡ must_block
unfolding try_reap position after_kill make_zombie wake_pipe close_all drop_open pcb_of with_ls
    sh_runs
waits_for_none = refl
