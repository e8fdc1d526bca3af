-- ===== src/Task/Fd/Sound.antt =====
-- The calls of fd.rs keep the pipes valid, and the tables of open files within their 16 slots.
use coeleo_os.Base.{
  ℕ, suc, ◌≤◌, ◌≡◌, refl, ap, arith, [], ◌∷◌, Bool, true, false, Option, none, some, length, set,
  length-set, leb, ◌==◌, if◌then◌else◌,
}
use coeleo_os.Task.Pipe
use coeleo_os.Task.Pipe.{Pipes}
use coeleo_os.Task.Pipe.Inv.{AllValid, clone_end-AllValid, drop_end-AllValid, alloc_from-AllValid}
use coeleo_os.Task.Fd.{
  FdTable, OpenFd, stdin, stdout, stderr, file, dir, pipe, fd_max, err, get, take, alloc, new_stdio,
  drop_open, drop_opt, replace, clone_pipe_end, clone_open, clone_opt, clone_slot, close_all,
  give_stdout, inherit_stdout, give_stdin, inherit_from, close_taken, sys_close, first_end,
  with_pipe, sys_pipe,
}
use coeleo_os.Task.Fd.Table.{length-alloc}

drop_open-AllValid : (ps : Pipes) (of : OpenFd) → AllValid ps → AllValid (drop_open ps of)
unfolding drop_open
drop_open-AllValid ps (pipe id w) h = drop_end-AllValid ps id h w
drop_open-AllValid ps stdin h = h
drop_open-AllValid ps stdout h = h
drop_open-AllValid ps stderr h = h
drop_open-AllValid ps (file p o w) h = h
drop_open-AllValid ps (dir n es) h = h

drop_opt-AllValid : (ps : Pipes) (o : Option OpenFd) → AllValid ps → AllValid (drop_opt ps o)
drop_opt-AllValid ps none h = h
drop_opt-AllValid ps (some of) h = drop_open-AllValid ps of h

pub close_all-AllValid : (ps : Pipes) (t : FdTable) → AllValid ps → AllValid (close_all ps t).0
unfolding close_all
close_all-AllValid ps [] h = h
close_all-AllValid ps (o ∷ t) h = close_all-AllValid (drop_opt ps o) t (drop_opt-AllValid ps o h)

pub length-close_all : (ps : Pipes) (t : FdTable) → length (close_all ps t).1 ≡ length t
unfolding close_all
length-close_all ps [] = refl
length-close_all ps (o ∷ t) = ap suc (length-close_all (drop_opt ps o) t)

clone_opt-AllValid : (ps : Pipes) (o : Option OpenFd) → AllValid ps → AllValid (clone_opt ps o).0
unfolding clone_open
clone_opt-AllValid ps none h = h
clone_opt-AllValid ps (some stdin) h = h
clone_opt-AllValid ps (some stdout) h = h
clone_opt-AllValid ps (some stderr) h = h
clone_opt-AllValid ps (some (file p o w)) h = h
clone_opt-AllValid ps (some (dir n es)) h = h
clone_opt-AllValid ps (some (pipe id w)) h =
    cloned (Pipe.clone_end ps id w) (clone_end-AllValid ps id h w)
  where
    cloned : (r : Pipes × Bool) → AllValid r.0 → AllValid (clone_pipe_end id w r).0
    cloned (qs, true) g = g
    cloned (qs, false) g = g

clone_slot-AllValid :
    (ps : Pipes) (t : FdTable) (fd : ℕ) → AllValid ps → AllValid (clone_slot ps t fd).0
unfolding clone_slot
clone_slot-AllValid ps t fd h = clone_opt-AllValid ps (get t fd) h

-- A table that a child may get.
abbrev pub Fits : Option FdTable → Type 0
Fits none = Unit
Fits (some t) = length t ≤ fd_max

replace-AllValid :
    (ps : Pipes) (t : FdTable) (fd : ℕ) (of : OpenFd)
    → AllValid ps
    → length t ≤ fd_max
    → AllValid (replace ps t fd of).0 × (length (replace ps t fd of).1 ≤ fd_max)
unfolding replace take
replace-AllValid ps t fd of h size = by_test (leb fd_max fd)
  where
    dropped : Pipes
    dropped = drop_opt ps (get t fd)

    result : Bool → Pipes × FdTable
    result b =
        if b
        then (drop_open dropped of, set t fd none)
        else (dropped, set (set t fd none) fd (some of))

    by_test : (b : Bool) → AllValid (result b).0 × (length (result b).1 ≤ fd_max)
    by_test true = (
      drop_open-AllValid dropped of (drop_opt-AllValid ps (get t fd) h),
      omega (arith, length-set t fd none),
    )
    by_test false = (
      drop_opt-AllValid ps (get t fd) h,
      omega (arith, length-set t fd none, length-set (set t fd none) fd (some of)),
    )

give_stdout-AllValid :
    (r : Pipes × Option OpenFd) (t : FdTable)
    → AllValid r.0
    → length t ≤ fd_max
    → AllValid (give_stdout r t).0 × Fits (give_stdout r t).1
give_stdout-AllValid (ps, none) t h size = (close_all-AllValid ps t h, tt)
give_stdout-AllValid (ps, some of) t h size = replace-AllValid ps t 1 of h size

inherit_stdout-AllValid :
    (ps : Pipes) (parent t : FdTable) (fd : ℕ)
    → AllValid ps
    → length t ≤ fd_max
    → AllValid (inherit_stdout ps parent t fd).0 × Fits (inherit_stdout ps parent t fd).1
unfolding inherit_stdout
inherit_stdout-AllValid ps parent t fd h size = by_test (fd == err)
  where
    result : Bool → Pipes × Option FdTable
    result b = if b then (ps, some t) else give_stdout (clone_slot ps parent fd) t

    by_test : (b : Bool) → AllValid (result b).0 × Fits (result b).1
    by_test true = (h, size)
    by_test false =
        give_stdout-AllValid (clone_slot ps parent fd) t (clone_slot-AllValid ps parent fd h) size

give_stdin-AllValid :
    (parent : FdTable) (fd : ℕ) (r : Pipes × Option OpenFd)
    → AllValid r.0
    → AllValid (give_stdin parent fd r).0 × Fits (give_stdin parent fd r).1
unfolding new_stdio
give_stdin-AllValid parent fd (ps, none) h = (h, tt)
give_stdin-AllValid parent fd (ps, some of) h =
    let (valid, size) = replace-AllValid ps new_stdio 0 of h (omega arith) in
    inherit_stdout-AllValid (replace ps new_stdio 0 of).0 parent (replace ps new_stdio 0 of).1 fd
      valid size

-- What a child inherits fits, and the pipes stay valid.
pub inherit_from-AllValid :
    (ps : Pipes) (parent : FdTable) (stdin_fd stdout_fd : ℕ)
    → AllValid ps
    → AllValid (inherit_from ps parent stdin_fd stdout_fd).0
      × Fits (inherit_from ps parent stdin_fd stdout_fd).1
unfolding inherit_from new_stdio
inherit_from-AllValid ps parent stdin_fd stdout_fd h = by_test (stdin_fd == err)
  where
    result : Bool → Pipes × Option FdTable
    result b =
        if b
        then inherit_stdout ps parent new_stdio stdout_fd
        else give_stdin parent stdout_fd (clone_slot ps parent stdin_fd)

    by_test : (b : Bool) → AllValid (result b).0 × Fits (result b).1
    by_test true = inherit_stdout-AllValid ps parent new_stdio stdout_fd h (omega arith)
    by_test false =
        give_stdin-AllValid parent stdout_fd (clone_slot ps parent stdin_fd)
          (clone_slot-AllValid ps parent stdin_fd h)

pub sys_close-AllValid :
    (ps : Pipes) (t : FdTable) (fd : ℕ)
    → AllValid ps
    → AllValid (sys_close ps t fd).0 × (length (sys_close ps t fd).1 ≡ length t)
unfolding sys_close take
sys_close-AllValid ps t fd h = by_test (leb fd 2)
  where
    result : Bool → Pipes × FdTable × ℕ
    result b = if b then (ps, t, err) else close_taken ps (take t fd)

    closed :
        (o : Option OpenFd)
        → AllValid (close_taken ps (set t fd none, o)).0
          × (length (close_taken ps (set t fd none, o)).1 ≡ length t)
    closed none = (h, length-set t fd none)
    closed (some of) = (drop_open-AllValid ps of h, length-set t fd none)

    by_test : (b : Bool) → AllValid (result b).0 × (length (result b).1 ≡ length t)
    by_test true = (h, refl)
    by_test false = closed (get t fd)

drop_both-AllValid :
    (ps : Pipes) (id : ℕ)
    → AllValid ps
    → AllValid (Pipe.drop_end (Pipe.drop_end ps id false) id true)
drop_both-AllValid ps id h =
    drop_end-AllValid (Pipe.drop_end ps id false) id (drop_end-AllValid ps id h false) true

module _ (t : FdTable) (room : length t ≤ fd_max) where
  first_end-AllValid :
      (ps : Pipes) (id : ℕ)
      → AllValid ps
      → AllValid (first_end ps id t (alloc t (pipe id false))).0
        × (length (first_end ps id t (alloc t (pipe id false))).1 ≡ length t)
  unfolding take
  first_end-AllValid ps id h = by_test ((alloc t (pipe id false)).1 == err)
    where
      one : FdTable
      one = (alloc t (pipe id false)).0

      two : FdTable
      two = (alloc one (pipe id true)).0

      r : ℕ
      r = (alloc t (pipe id false)).1

      w : ℕ
      w = (alloc one (pipe id true)).1

      one_size : length one ≡ length t
      one_size = length-alloc t (pipe id false) (omega arith)

      two_size : length two ≡ length t
      two_size = omega (arith, one_size, length-alloc one (pipe id true) (omega (arith, one_size)))

      dropped : Pipes
      dropped = Pipe.drop_end (Pipe.drop_end ps id false) id true

      second : Bool → Pipes × FdTable × Option (ℕ × ℕ)
      second b = if b then (dropped, (take one r).0, none) else (ps, two, some (r, w))

      by_second : (b : Bool) → AllValid (second b).0 × (length (second b).1 ≡ length t)
      by_second true = (drop_both-AllValid ps id h, omega (arith, one_size, length-set one r none))
      by_second false = (h, two_size)

      first : Bool → Pipes × FdTable × Option (ℕ × ℕ)
      first b = if b then (dropped, one, none) else second (w == err)

      by_test : (b : Bool) → AllValid (first b).0 × (length (first b).1 ≡ length t)
      by_test true = (drop_both-AllValid ps id h, one_size)
      by_test false = by_second (w == err)

  pub sys_pipe-AllValid :
      (ps : Pipes)
      → AllValid ps
      → AllValid (sys_pipe ps t).0 × (length (sys_pipe ps t).1 ≡ length t)
  unfolding sys_pipe Pipe.alloc
  sys_pipe-AllValid ps h = made (Pipe.alloc ps) (alloc_from-AllValid 0 ps h)
    where
      made :
          (r : Pipes × Option ℕ)
          → AllValid r.0
          → AllValid (with_pipe t r).0 × (length (with_pipe t r).1 ≡ length t)
      made (qs, none) g = (g, refl)
      made (qs, some id) g = first_end-AllValid qs id g
