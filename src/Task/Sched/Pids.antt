-- ===== src/Task/Sched/Pids.antt =====
-- Process numbers: no two processes share one, and a new process gets one that was never used.
use coeleo_os.Base.{
  ℕ, zero, suc, ◌-◌, ◌<◌, ◌≡◌, ◌≢◌, refl, sym, ap, subst, ◌∙◌, arith, [], ◌∷◌, Bool, true, false,
  Option, none, some, length, set, ◌==◌, ==→eq, if◌then◌else◌, Bool-cases, Option-cases, inl, inr,
  ◌⊎◌, ◌^◌,
}
use coeleo_os.Base.Bytes.{Bytes}
use coeleo_os.Task.Pipe.{Pipes}
use coeleo_os.Task.Fd.{FdTable}
use coeleo_os.Task.Sched.{Pcb, Procs, Sched, at_slot, update, each, wake_pipe}
use coeleo_os.Task.Sched.Switch.{run_now, leave, demote, switch_to}
use coeleo_os.Task.Sched.Spawn.{
  Start, next, free_slot, fds_for, new_pcb, mark_parent, insert_at, insert_pcb, to_zombie,
  make_zombie, reap_slot,
}
use coeleo_os.Task.Sched.Slots.{free_slot_lem}

abbrev pub pid_opt : Option Pcb → Option ℕ
pid_opt none = none
pid_opt (some p) = some p.pid

-- The pid in slot `k`.
abbrev pub pid_in : Procs → ℕ → Option ℕ
pid_in ps k = pid_opt (at_slot ps k)

pub record Unique (s : Sched) : Type 0 where
  pub used : (k n : ℕ) → pid_in s.procs k ≡ some n → n < s.next_pid
  pub apart : (i j n : ℕ) → pid_in s.procs i ≡ some n → pid_in s.procs j ≡ some n → i ≡ j

pub pid_in-each :
    (f : Pcb → Pcb)
    → ((p : Pcb) → (f p).pid ≡ p.pid)
    → (ps : Procs) (k : ℕ) → pid_in (each f ps) k ≡ pid_in ps k
pid_in-each f keep [] k = refl
pid_in-each f keep (none ∷ ps) zero = refl
pid_in-each f keep (some p ∷ ps) zero = ap some (keep p)
pid_in-each f keep (none ∷ ps) (suc k) = pid_in-each f keep ps k
pid_in-each f keep (some p ∷ ps) (suc k) = pid_in-each f keep ps k

pub pid_in-update :
    (f : Pcb → Pcb)
    → ((p : Pcb) → (f p).pid ≡ p.pid)
    → (j : ℕ) (ps : Procs) (k : ℕ) → pid_in (update f j ps) k ≡ pid_in ps k
pid_in-update f keep j [] k = refl
pid_in-update f keep zero (none ∷ ps) k = refl
pid_in-update f keep zero (some p ∷ ps) zero = ap some (keep p)
pid_in-update f keep zero (some p ∷ ps) (suc k) = refl
pid_in-update f keep (suc j) (p ∷ ps) zero = refl
pid_in-update f keep (suc j) (p ∷ ps) (suc k) = pid_in-update f keep j ps k

pid_in-mark :
    (parent pid : ℕ) (ps : Procs) (k : ℕ) → pid_in (mark_parent parent pid ps) k ≡ pid_in ps k
unfolding mark_parent
pid_in-mark parent pid [] k = refl
pid_in-mark parent pid (none ∷ ps) zero = refl
pid_in-mark parent pid (none ∷ ps) (suc k) = pid_in-mark parent pid ps k
pid_in-mark parent pid (some p ∷ ps) zero = ground arith
pid_in-mark parent pid (some p ∷ ps) (suc k) = ground (arith, pid_in-mark parent pid ps k)

pid_in-set_self :
    (ps : Procs) (k : ℕ) (p : Option Pcb) → k < length ps → pid_in (set ps k p) k ≡ pid_opt p
pid_in-set_self [] k p h = absurd (omega arith)
pid_in-set_self (q ∷ ps) zero p h = refl
pid_in-set_self (q ∷ ps) (suc k) p h = pid_in-set_self ps k p (omega arith)

pid_in-set_ne :
    (ps : Procs) (k i : ℕ) (p : Option Pcb) → k ≢ i → pid_in (set ps k p) i ≡ pid_in ps i
pid_in-set_ne [] k i p h = refl
pid_in-set_ne (q ∷ ps) zero zero p h = absurd (h refl)
pid_in-set_ne (q ∷ ps) zero (suc i) p h = refl
pid_in-set_ne (q ∷ ps) (suc k) zero p h = refl
pid_in-set_ne (q ∷ ps) (suc k) (suc i) p h = pid_in-set_ne ps k i p (λ e. h (ap suc e))

-- A change that keeps the pids keeps them unique.
pub same_pids :
    (s t : Sched)
    → ((k : ℕ) → pid_in t.procs k ≡ pid_in s.procs k)
    → s.next_pid ≡ t.next_pid
    → Unique s
    → Unique t
same_pids s t same e u = record {
  used = λ k n h. subst (λ m. n < m) e (u.used k n (sym (same k) ∙ h));
  apart = λ i j n h g. u.apart i j n (sym (same i) ∙ h) (sym (same j) ∙ g);
}

pub wake_pipe-Unique : (s : Sched) → Unique s → Unique (wake_pipe s)
unfolding wake_pipe
wake_pipe-Unique s u = same_pids s (wake_pipe s) (λ k. pid_in-each _ (λ p. refl) s.procs k) refl u

pub make_zombie-Unique :
    (pipes : Pipes) (s : Sched) (slot : ℕ) (fault : Bool)
    → Unique s
    → Unique (make_zombie pipes s slot fault).1
unfolding make_zombie
make_zombie-Unique pipes s slot fault u =
    wake_pipe-Unique t
      (same_pids s t (λ k. pid_in-update (to_zombie pipes fault) (λ p. refl) slot s.procs k) refl u)
  where
    t : Sched
    t = record s { procs = update (to_zombie pipes fault) slot s.procs }

-- Where a slot is emptied.
emptied : (ps : Procs) (k i n : ℕ) → pid_in (set ps k none) i ≡ some n → pid_in ps i ≡ some n
emptied [] k i n h = h
emptied (p ∷ ps) zero zero n h = cc
emptied (p ∷ ps) zero (suc i) n h = h
emptied (p ∷ ps) (suc k) zero n h = h
emptied (p ∷ ps) (suc k) (suc i) n h = emptied ps k i n h

pub reap_slot-Unique :
    (pipes : Pipes) (s : Sched) (k : ℕ) (p : Option Pcb)
    → Unique s
    → Unique (reap_slot pipes s k p).1
reap_slot-Unique pipes s k none u = u
reap_slot-Unique pipes s k (some p) u = record {
  used = λ i n h. u.used i n (emptied s.procs k i n h);
  apart = λ i j n h g. u.apart i j n (emptied s.procs k i n h) (emptied s.procs k j n g);
}

-- What a set of a new process at a free slot does.
module _ (s : Sched) (u : Unique s) (slot : ℕ) (p : Pcb) (room : slot < length s.procs)
    (new : p.pid ≡ s.next_pid) where
  placed :
      (i n : ℕ)
      → pid_in (set s.procs slot (some p)) i ≡ some n
      → ((slot ≡ i) × (n ≡ s.next_pid)) ⊎ ((slot ≢ i) × (pid_in s.procs i ≡ some n))
  placed i n h = elim (Bool-cases (slot == i)) [
    | inl e ↦ inl (==→eq slot i e, own (==→eq slot i e))
    | inr e ↦ inr (
      λ f. ground (arith, e, f),
      sym (pid_in-set_ne s.procs slot i (some p) (λ f. ground (arith, e, f))) ∙ h,
    )
  ]
    where
      own : slot ≡ i → n ≡ s.next_pid
      own e = ground (
        arith,
        new,
        pid_in-set_self s.procs slot (some p) room,
        subst (λ i. pid_in (set s.procs slot (some p)) i ≡ some n) (sym e) h,
      )

  set-Unique :
      s.next_pid < 2 ^ 32 - 1
      → Unique (record s { procs = set s.procs slot (some p); next_pid = next s.next_pid })
  set-Unique small = record {
    used = λ i n h. below i n (placed i n h);
    apart = λ i j n h g. same i j n (placed i n h) (placed j n g);
  }
    where
      below :
          (i n : ℕ)
          → ((slot ≡ i) × (n ≡ s.next_pid)) ⊎ ((slot ≢ i) × (pid_in s.procs i ≡ some n))
          → n < next s.next_pid
      below i n (inl (e, f)) = omega arith
      below i n (inr (e, f)) = omega (arith, u.used i n f)

      same :
          (i j n : ℕ)
          → ((slot ≡ i) × (n ≡ s.next_pid)) ⊎ ((slot ≢ i) × (pid_in s.procs i ≡ some n))
          → ((slot ≡ j) × (n ≡ s.next_pid)) ⊎ ((slot ≢ j) × (pid_in s.procs j ≡ some n))
          → i ≡ j
      same i j n (inl (e, f)) (inl (e', f')) = sym e ∙ e'
      same i j n (inl (e, f)) (inr (e', f')) = absurd (omega (arith, u.used j n f'))
      same i j n (inr (e, f)) (inl (e', f')) = absurd (omega (arith, u.used i n f))
      same i j n (inr (e, f)) (inr (e', f')) = u.apart i j n f f'

module _ (pipes : Pipes) (s : Sched) (st : Start) (name : Bytes) (parent : ℕ) (u : Unique s)
    (small : s.next_pid < 2 ^ 32 - 1) where
  insert_at-Unique :
      (slot : ℕ) (r : Pipes × Option FdTable)
      → slot < length s.procs
      → Unique (insert_at s st name parent slot r).1
  unfolding new_pcb
  insert_at-Unique slot (pipes', none) room = u
  insert_at-Unique slot (pipes', some fds) room = by_test (parent == 0)
    where
      p : Pcb
      p = new_pcb st name parent s.next_pid fds

      t : Sched
      t = record s { procs = set s.procs slot (some p); next_pid = next s.next_pid }

      by_test :
          (b : Bool)
          → Unique (record s {
            procs = if b then t.procs else mark_parent parent s.next_pid t.procs;
            next_pid = next s.next_pid;
          })
      by_test true = set-Unique s u slot p room refl small
      by_test false =
          same_pids t _ (λ k. pid_in-mark parent s.next_pid t.procs k) refl
            (set-Unique s u slot p room refl small)

  -- As long as the counter of pids has not reached its end, `insert_pcb` keeps the pids unique and
  -- below the counter.
  pub insert_pcb-Unique :
      (stdin_fd stdout_fd : ℕ) → Unique (insert_pcb pipes s st name parent stdin_fd stdout_fd).1
  unfolding insert_pcb
  insert_pcb-Unique stdin_fd stdout_fd = elim (Option-cases (free_slot s.procs)) [
    | inl e ↦ rw (e, insert_pcb) u
    | inr (slot, e) ↦
        rw (e, insert_pcb)
          (insert_at-Unique slot (fds_for pipes s.procs parent stdin_fd stdout_fd)
            (free_slot_lem s.procs e).0)
  ]

pub switch_to-Unique : (s : Sched) (slot rsp : ℕ) → Unique s → Unique (switch_to s slot rsp)
unfolding switch_to
switch_to-Unique s slot rsp u = same_pids s _ same refl u
  where
    left : (c : Option ℕ) (k : ℕ) → pid_in (leave c slot rsp s.procs) k ≡ pid_in s.procs k
    left none k = refl
    left (some c) k = ground (arith, pid_in-update (demote rsp) (λ p. refl) c s.procs k)

    same :
        (k : ℕ)
        → pid_in (update run_now slot (leave s.current slot rsp s.procs)) k ≡ pid_in s.procs k
    same k =
        pid_in-update run_now (λ p. refl) slot (leave s.current slot rsp s.procs) k
        ∙ left s.current k
