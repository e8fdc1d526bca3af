-- ===== src/Task/Sched/Balance.antt =====
-- The pipes of pipe.rs count exactly the ends that the open files of all processes hold, whatever
-- spawn.rs does.
use coeleo_os.Base.{
  ℕ, zero, suc, ◌+◌, ◌≤◌, ◌<◌, ◌≡◌, refl, ap, arith, [], ◌∷◌, Bool, Option, none, some, length, set,
  subst, Option-cases, inl, inr,
}
use coeleo_os.Task.Pipe.{Pipes}
use coeleo_os.Task.Fd.{FdTable, close_all}
use coeleo_os.Task.Fd.Count.{ends, refs}
use coeleo_os.Task.Sched.{
  Pcb, Procs, Sched, at_slot, update, each, wake_pipe, wake_waiter, wake_if_waits,
  wake_parent_of_slot, parent_of,
}
use coeleo_os.Task.Sched.Switch.{run_now, leave, demote, switch_to, schedule_next, pick_runnable}
use coeleo_os.Task.Sched.Spawn.{mark_parent, fds_of, to_zombie}

-- The ends that all processes hold.
abbrev pub total : Procs → ℕ → Bool → ℕ
total [] i v = 0
total (p ∷ ps) i v = refs (fds_of p) i v + total ps i v

-- The pipes count them, and no more.
abbrev pub Balanced : Pipes → Procs → Type 0
Balanced pipes ps = (i : ℕ) (v : Bool) → ends pipes i v ≡ total ps i v

pub total-each :
    (f : Pcb → Pcb)
    → ((p : Pcb) → (f p).fds ≡ p.fds)
    → (ps : Procs) (i : ℕ) (v : Bool) → total (each f ps) i v ≡ total ps i v
total-each f keep [] i v = refl
total-each f keep (none ∷ ps) i v = omega (arith, total-each f keep ps i v)
total-each f keep (some p ∷ ps) i v =
    omega (arith, ap (λ t. refs t i v) (keep p), total-each f keep ps i v)

pub total-update :
    (f : Pcb → Pcb)
    → ((p : Pcb) → (f p).fds ≡ p.fds)
    → (k : ℕ) (ps : Procs) (i : ℕ) (v : Bool) → total (update f k ps) i v ≡ total ps i v
total-update f keep k [] i v = refl
total-update f keep zero (none ∷ ps) i v = refl
total-update f keep zero (some p ∷ ps) i v = omega (arith, ap (λ t. refs t i v) (keep p))
total-update f keep (suc k) (p ∷ ps) i v = omega (arith, total-update f keep k ps i v)

pub total-set :
    (k : ℕ) (ps : Procs) (p : Option Pcb) (i : ℕ) (v : Bool)
    → k < length ps
    → total (set ps k p) i v + refs (fds_of (at_slot ps k)) i v ≡ total ps i v + refs (fds_of p) i v
total-set k [] p i v h = absurd (omega arith)
total-set zero (q ∷ ps) p i v h = omega arith
total-set (suc k) (q ∷ ps) p i v h = omega (arith, total-set k ps p i v (omega arith))

-- A process with other open files.
pub total-update_files :
    (f : Pcb → Pcb) (k : ℕ) (ps : Procs) {p : Pcb} (i : ℕ) (v : Bool)
    → at_slot ps k ≡ some p
    → total (update f k ps) i v + refs p.fds i v ≡ total ps i v + refs (f p).fds i v
total-update_files f k [] i v e = cc
total-update_files f zero (none ∷ ps) i v e = cc
total-update_files f zero (some q ∷ ps) {p} i v e =
    subst
      (λ o.
        refs (f q).fds i v + total ps i v + refs (fds_of o) i v
        ≡ refs q.fds i v + total ps i v + refs (f_fds o) i v)
      e (omega arith)
  where
    f_fds : Option Pcb → FdTable
    f_fds none = []
    f_fds (some r) = (f r).fds
total-update_files f (suc k) (q ∷ ps) i v e = omega (arith, total-update_files f k ps i v e)

pub total-mark :
    (parent pid : ℕ) (ps : Procs) (i : ℕ) (v : Bool)
    → total (mark_parent parent pid ps) i v ≡ total ps i v
unfolding mark_parent
total-mark parent pid [] i v = refl
total-mark parent pid (none ∷ ps) i v = omega (arith, total-mark parent pid ps i v)
total-mark parent pid (some p ∷ ps) i v = ground (arith, total-mark parent pid ps i v)

pub total-wake_pipe :
    (s : Sched) (i : ℕ) (v : Bool) → total (wake_pipe s).procs i v ≡ total s.procs i v
unfolding wake_pipe
total-wake_pipe s i v = total-each _ (λ p. refl) s.procs i v

wake_if_waits-fds : (parent : ℕ) (p : Pcb) → (wake_if_waits parent p).fds ≡ p.fds
wake_if_waits-fds parent p = ground arith

pub total-wake_waiter :
    (parent : ℕ) (s : Sched) (i : ℕ) (v : Bool)
    → total (wake_waiter parent s).procs i v ≡ total s.procs i v
unfolding wake_waiter
total-wake_waiter parent s i v =
    total-each (wake_if_waits parent) (wake_if_waits-fds parent) s.procs i v

pub total-wake_parent_of_slot :
    (slot : ℕ) (s : Sched) (i : ℕ) (v : Bool)
    → total (wake_parent_of_slot slot s).procs i v ≡ total s.procs i v
unfolding wake_parent_of_slot
total-wake_parent_of_slot slot s i v =
    ground (arith, total-wake_waiter (parent_of (at_slot s.procs slot)) s i v)

pub total-leave :
    (c : Option ℕ) (slot rsp : ℕ) (ps : Procs) (i : ℕ) (v : Bool)
    → total (leave c slot rsp ps) i v ≡ total ps i v
total-leave none slot rsp ps i v = refl
total-leave (some c) slot rsp ps i v =
    ground (arith, total-update (demote rsp) (λ p. refl) c ps i v)

pub total-switch_to :
    (s : Sched) (slot rsp i : ℕ) (v : Bool)
    → total (switch_to s slot rsp).procs i v ≡ total s.procs i v
unfolding switch_to
total-switch_to s slot rsp i v = omega (
  arith,
  total-update run_now (λ p. refl) slot (leave s.current slot rsp s.procs) i v,
  total-leave s.current slot rsp s.procs i v,
)

pub total-schedule_next :
    (s : Sched) (rsp i : ℕ) (v : Bool) → total (schedule_next s rsp).procs i v ≡ total s.procs i v
unfolding schedule_next
total-schedule_next s rsp i v = elim (Option-cases (pick_runnable s)) [
  | inl e ↦ rw (e, schedule_next) refl
  | inr (slot, e) ↦ rw (e, schedule_next) (total-switch_to s slot rsp i v)
]

-- What one process holds is among what all hold.
pub refs-le-total :
    (k : ℕ) (ps : Procs) (i : ℕ) (v : Bool) → refs (fds_of (at_slot ps k)) i v ≤ total ps i v
refs-le-total k [] i v = omega arith
refs-le-total zero (p ∷ ps) i v = omega arith
refs-le-total (suc k) (p ∷ ps) i v = omega (arith, refs-le-total k ps i v)

pub total-to_zombie :
    (pipes : Pipes) (fault : Bool) (k : ℕ) (ps : Procs) (i : ℕ) (v : Bool)
    → ((p : Pcb) → at_slot ps k ≡ some p → refs (close_all pipes p.fds).1 i v ≡ 0)
    → total (update (to_zombie pipes fault) k ps) i v + refs (fds_of (at_slot ps k)) i v
      ≡ total ps i v
total-to_zombie pipes fault k [] i v h = omega arith
total-to_zombie pipes fault zero (none ∷ ps) i v h = omega arith
total-to_zombie pipes fault zero (some p ∷ ps) i v h = omega (arith, h p refl)
total-to_zombie pipes fault (suc k) (p ∷ ps) i v h =
    omega (arith, total-to_zombie pipes fault k ps i v h)
