-- ===== src/Task/Fd.antt =====
-- kernel/src/task/fd.rs: the table of open files of a process, and its calls on pipes. The pipe
-- table of pipe.rs is passed along.
pub mod Count
pub mod Table
pub mod Inherit
pub mod Calls
pub mod Sound
mod Tests
use coeleo_os.Base.{
  ℕ, zero, suc, ◌+◌, ◌-◌, ◌^◌, ◌<◌, List, [], ◌∷◌, Bool, true, false, not, ◌&&◌, Option, none, some,
  length, get_elem?, set, replicate, leb, ltb, ◌==◌, if◌then◌else◌,
}
use coeleo_os.Base.Bytes.{Bytes, u64_mod}
use coeleo_os.Task.Pipe
use coeleo_os.Task.Pipe.{Pipes}

-- `DirEnt` of fs/mod.rs.
pub record DirEnt : Type 0 where
  pub name : Bytes
  pub is_dir : Bool

abbrev pub fd_max : ℕ
fd_max = 16

-- `ERR`, `u64::MAX`.
abbrev pub err : ℕ
err = 2 ^ 64 - 1

pub data OpenFd : Type 0 where
  stdin : OpenFd
  stdout : OpenFd
  stderr : OpenFd
  file : Bytes → ℕ → Bool → OpenFd
  dir : ℕ → List DirEnt → OpenFd
  pipe : ℕ → Bool → OpenFd

-- `FdTable`.
abbrev pub FdTable : Type 0
FdTable = List (Option OpenFd)

unfoldable pub new_stdio : FdTable
new_stdio = set (set (set (replicate fd_max none) 0 (some stdin)) 1 (some stdout)) 2 (some stderr)

abbrev pub flatten : Option (Option OpenFd) → Option OpenFd
flatten none = none
flatten (some slot) = slot

unfoldable pub get : FdTable → ℕ → Option OpenFd
get t fd = flatten (get_elem? t fd)

unfoldable pub take : FdTable → ℕ → FdTable × Option OpenFd
take t fd = (set t fd none, get t fd)

unfoldable pub alloc_from : ℕ → FdTable → OpenFd → FdTable × ℕ
alloc_from i [] of = ([], err)
alloc_from i (none ∷ t) of = (some of ∷ t, i)
alloc_from i (some old ∷ t) of = let (rest, fd) = alloc_from (i + 1) t of in (some old ∷ rest, fd)

-- The lowest free slot, or `ERR`.
unfoldable pub alloc : FdTable → OpenFd → FdTable × ℕ
alloc t of = alloc_from 0 t of

unfoldable pub drop_open : Pipes → OpenFd → Pipes
drop_open pipes (pipe id write) = Pipe.drop_end pipes id write
drop_open pipes _ = pipes

abbrev pub drop_opt : Pipes → Option OpenFd → Pipes
drop_opt pipes none = pipes
drop_opt pipes (some of) = drop_open pipes of

unfoldable pub replace : Pipes → FdTable → ℕ → OpenFd → Pipes × FdTable
replace pipes t fd of =
    let (t', old) = take t fd in
    let pipes' = drop_opt pipes old in
    if leb fd_max fd then (drop_open pipes' of, t') else (pipes', set t' fd (some of))

abbrev pub clone_pipe_end : ℕ → Bool → Pipes × Bool → Pipes × Option OpenFd
clone_pipe_end id write (pipes, true) = (pipes, some (pipe id write))
clone_pipe_end id write (pipes, false) = (pipes, none)

unfoldable pub clone_open : Pipes → OpenFd → Pipes × Option OpenFd
clone_open pipes stdin = (pipes, some stdin)
clone_open pipes stdout = (pipes, some stdout)
clone_open pipes stderr = (pipes, some stderr)
clone_open pipes (file path offset writable) = (pipes, some (file path offset writable))
clone_open pipes (dir index ents) = (pipes, none)
clone_open pipes (pipe id write) = clone_pipe_end id write (Pipe.clone_end pipes id write)

abbrev pub clone_opt : Pipes → Option OpenFd → Pipes × Option OpenFd
clone_opt pipes none = (pipes, none)
clone_opt pipes (some of) = clone_open pipes of

unfoldable pub clone_slot : Pipes → FdTable → ℕ → Pipes × Option OpenFd
clone_slot pipes t fd = clone_opt pipes (get t fd)

unfoldable pub close_all : Pipes → FdTable → Pipes × FdTable
close_all pipes [] = (pipes, [])
close_all pipes (slot ∷ t) =
    let (pipes', rest) = close_all (drop_opt pipes slot) t in (pipes', none ∷ rest)

-- `inherit_from` once the clone for standard input is in place in `t`.
abbrev pub give_stdout : Pipes × Option OpenFd → FdTable → Pipes × Option FdTable
give_stdout (pipes, none) t = ((close_all pipes t).0, none)
give_stdout (pipes, some of) t = let (pipes', t') = replace pipes t 1 of in (pipes', some t')

unfoldable pub inherit_stdout : Pipes → FdTable → FdTable → ℕ → Pipes × Option FdTable
inherit_stdout pipes parent t stdout_fd =
    if stdout_fd == err then (pipes, some t) else give_stdout (clone_slot pipes parent stdout_fd) t

abbrev pub give_stdin : FdTable → ℕ → Pipes × Option OpenFd → Pipes × Option FdTable
give_stdin parent stdout_fd (pipes, none) = (pipes, none)
give_stdin parent stdout_fd (pipes, some of) =
    let (pipes', t) = replace pipes new_stdio 0 of in inherit_stdout pipes' parent t stdout_fd

unfoldable pub inherit_from : Pipes → FdTable → ℕ → ℕ → Pipes × Option FdTable
inherit_from pipes parent stdin_fd stdout_fd =
    if stdin_fd == err
    then inherit_stdout pipes parent new_stdio stdout_fd
    else give_stdin parent stdout_fd (clone_slot pipes parent stdin_fd)

-- `sys_close`, without the wake-up of those who wait for a pipe, which the scheduler's model does.
abbrev pub close_taken : Pipes → FdTable × Option OpenFd → Pipes × FdTable × ℕ
close_taken pipes (t, none) = (pipes, t, err)
close_taken pipes (t, some of) = (drop_open pipes of, t, 0)

unfoldable pub sys_close : Pipes → FdTable → ℕ → Pipes × FdTable × ℕ
sys_close pipes t fd = if leb fd 2 then (pipes, t, err) else close_taken pipes (take t fd)

-- `sys_pipe` past the check of the caller's buffer: the pair that it stores there, or `none` for
-- `ERR`. The copy to the caller cannot fail once the buffer is checked, as `copy_to_user` shows.
abbrev pub second_end : Pipes → ℕ → FdTable → ℕ → FdTable × ℕ → Pipes × FdTable × Option (ℕ × ℕ)
second_end pipes id before r (t, w) =
    if w == err
    then (Pipe.drop_end (Pipe.drop_end pipes id false) id true, (take before r).0, none)
    else (pipes, t, some (r, w))

abbrev pub first_end : Pipes → ℕ → FdTable → FdTable × ℕ → Pipes × FdTable × Option (ℕ × ℕ)
first_end pipes id before (t, r) =
    if r == err
    then (Pipe.drop_end (Pipe.drop_end pipes id false) id true, t, none)
    else second_end pipes id t r (alloc t (pipe id true))

abbrev pub with_pipe : FdTable → Pipes × Option ℕ → Pipes × FdTable × Option (ℕ × ℕ)
with_pipe t (pipes, none) = (pipes, t, none)
with_pipe t (pipes, some id) = first_end pipes id t (alloc t (pipe id false))

unfoldable pub sys_pipe : Pipes → FdTable → Pipes × FdTable × Option (ℕ × ℕ)
sys_pipe pipes t = with_pipe t (Pipe.alloc pipes)

abbrev pub readdir_slot : FdTable → ℕ → Option OpenFd → FdTable × Option (Option DirEnt)
readdir_slot t fd (some (dir index ents)) = elim (get_elem? ents index) [
  | none ↦ (t, some none)
  | some ent ↦ (set t fd (some (dir (index + 1) ents)), some (some ent))
]
readdir_slot t fd _ = (t, none)

-- `sys_readdir` past the checks of the caller's buffer: `none` is `ERR`, `some none` the end.
unfoldable pub readdir : FdTable → ℕ → FdTable × Option (Option DirEnt)
readdir t fd = readdir_slot t fd (get t fd)
