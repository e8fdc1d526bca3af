-- ===== src/Task/Sched/Tables.antt =====
-- How long the tables of open files in the slots are.
use coeleo_os.Base.{ℕ, zero, suc, ◌≤◌, ◌≡◌, refl, arith, [], ◌∷◌, Option, none, some, length, set}
use coeleo_os.Task.Fd.{fd_max}
use coeleo_os.Task.Sched.{Pcb, Procs, at_slot, update, each}
use coeleo_os.Task.Sched.Spawn.{mark_parent, fds_of}

abbrev pub table_size : Procs → ℕ → ℕ
table_size ps k = length (fds_of (at_slot ps k))

-- No process has more than the 16 slots.
abbrev pub Sized : Procs → Type 0
Sized ps = (k : ℕ) → table_size ps k ≤ fd_max

pub Sized-each :
    (f : Pcb → Pcb)
    → ((p : Pcb) → length (f p).fds ≤ length p.fds)
    → (ps : Procs) (k : ℕ) → table_size (each f ps) k ≤ table_size ps k
Sized-each f keep [] k = omega arith
Sized-each f keep (none ∷ ps) zero = omega arith
Sized-each f keep (some p ∷ ps) zero = keep p
Sized-each f keep (none ∷ ps) (suc k) = Sized-each f keep ps k
Sized-each f keep (some p ∷ ps) (suc k) = Sized-each f keep ps k

pub Sized-update :
    (f : Pcb → Pcb)
    → ((p : Pcb) → length (f p).fds ≤ length p.fds)
    → (j : ℕ) (ps : Procs) (k : ℕ) → table_size (update f j ps) k ≤ table_size ps k
Sized-update f keep j [] k = omega arith
Sized-update f keep zero (none ∷ ps) k = omega arith
Sized-update f keep zero (some p ∷ ps) zero = keep p
Sized-update f keep zero (some p ∷ ps) (suc k) = omega arith
Sized-update f keep (suc j) (p ∷ ps) zero = omega arith
Sized-update f keep (suc j) (p ∷ ps) (suc k) = Sized-update f keep j ps k

-- A process with another table that is not too long.
pub Sized-update_files :
    (f : Pcb → Pcb)
    → ((p : Pcb) → length (f p).fds ≤ fd_max)
    → (j : ℕ) (ps : Procs) → Sized ps
    → Sized (update f j ps)
Sized-update_files f keep j [] h k = omega arith
Sized-update_files f keep zero (none ∷ ps) h k = h k
Sized-update_files f keep zero (some p ∷ ps) h zero = keep p
Sized-update_files f keep zero (some p ∷ ps) h (suc k) = h (suc k)
Sized-update_files f keep (suc j) (p ∷ ps) h zero = h zero
Sized-update_files f keep (suc j) (p ∷ ps) h (suc k) =
    Sized-update_files f keep j ps (λ i. h (suc i)) k

pub Sized-set :
    (ps : Procs) (j : ℕ) (p : Option Pcb)
    → length (fds_of p) ≤ fd_max
    → Sized ps
    → Sized (set ps j p)
Sized-set [] j p e h k = h k
Sized-set (q ∷ ps) zero p e h zero = e
Sized-set (q ∷ ps) zero p e h (suc k) = h (suc k)
Sized-set (q ∷ ps) (suc j) p e h zero = h zero
Sized-set (q ∷ ps) (suc j) p e h (suc k) = Sized-set ps j p e (λ i. h (suc i)) k

pub Sized-mark :
    (parent pid : ℕ) (ps : Procs) (k : ℕ)
    → table_size (mark_parent parent pid ps) k ≡ table_size ps k
unfolding mark_parent
Sized-mark parent pid [] k = refl
Sized-mark parent pid (none ∷ ps) zero = refl
Sized-mark parent pid (none ∷ ps) (suc k) = Sized-mark parent pid ps k
Sized-mark parent pid (some p ∷ ps) zero = ground arith
Sized-mark parent pid (some p ∷ ps) (suc k) = ground (arith, Sized-mark parent pid ps k)
