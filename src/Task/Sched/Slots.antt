-- ===== src/Task/Sched/Slots.antt =====
-- Searches in the table of processes: `position` and the first free slot.
use coeleo_os.Base.{
  ℕ, zero, suc, ◌<◌, ◌≡◌, refl, ◌≢◌, ap, subst, arith, [], ◌∷◌, Bool, true, false, Option, none,
  some, length, Bool-cases, inl, inr, if◌then◌else◌,
}
use coeleo_os.Task.Sched.{Pcb, Procs, at_slot, some_and, shift, position, update, each}
use coeleo_os.Task.Sched.Spawn.{free_slot}

abbrev pub mapped : (Pcb → Pcb) → Option Pcb → Option Pcb
mapped f none = none
mapped f (some p) = some (f p)

shift-some : (o : Option ℕ) {k : ℕ} → shift o ≡ some k → (j : ℕ) × (o ≡ some j) × (suc j ≡ k)
shift-some none e = cc
shift-some (some j) e = (j, refl, ground (arith, e))

shift-none : (o : Option ℕ) → shift o ≡ none → o ≡ none
shift-none none e = refl
shift-none (some j) e = cc

pub free_slot_lem :
    (ps : Procs) {k : ℕ} → free_slot ps ≡ some k → (k < length ps) × (at_slot ps k ≡ none)
unfolding free_slot
free_slot_lem [] e = cc
free_slot_lem (none ∷ ps) {k} e =
    subst (λ k. (k < length (none ∷ ps)) × (at_slot (none ∷ ps) k ≡ none)) {x = 0} {y = k}
      (ground (arith, e)) (omega arith, refl)
free_slot_lem (some p ∷ ps) {k} e =
    let (j, f, g) = shift-some (free_slot ps) e in
    let (lt, free) = free_slot_lem ps f in
    subst (λ k. (k < length (some p ∷ ps)) × (at_slot (some p ∷ ps) k ≡ none)) g (omega arith, free)

module _ (test : Pcb → Bool) where
  -- The slot that `position` finds holds a process that passes the test.
  pub position_lem :
      (ps : Procs) {k : ℕ}
      → position test ps ≡ some k
      → (p : Pcb) × (at_slot ps k ≡ some p) × (test p ≡ true)
  unfolding position
  position_lem [] e = cc
  position_lem (p ∷ ps) {k} e = elim (Bool-cases (some_and test p)) [
    | inl h ↦
        subst (λ k. (q : Pcb) × (at_slot (p ∷ ps) k ≡ some q) × (test q ≡ true)) {x = 0} {y = k}
          (ground (arith, e)) (here p h)
    | inr h ↦
        (let f : shift (position test ps) ≡ some k = ground (arith, e, h) in
          let (j, f', g) = shift-some (position test ps) f in
          subst (λ k. (q : Pcb) × (at_slot (p ∷ ps) k ≡ some q) × (test q ≡ true)) g
            (position_lem ps f'))
  ]
    where
      here : (p : Option Pcb) → some_and test p ≡ true → (q : Pcb) × (p ≡ some q) × (test q ≡ true)
      here none h = cc
      here (some q) h = (q, refl, h)

  -- If it finds none, no process passes.
  pub position-none :
      (ps : Procs)
      → position test ps ≡ none
      → (k : ℕ) {p : Pcb} → at_slot ps k ≡ some p
      → test p ≡ false
  unfolding position
  position-none [] e k h = cc
  position-none (p ∷ ps) e zero h =
      subst (λ o. some_and test o ≡ false) h (first (some_and test p) e)
    where
      first : (b : Bool) → (if b then some 0 else shift (position test ps)) ≡ none → b ≡ false
      first true e = cc
      first false e = refl
  position-none (p ∷ ps) e (suc k) h =
      position-none ps (shift-none (position test ps) (rest (some_and test p) e)) k h
    where
      rest :
          (b : Bool)
          → (if b then some 0 else shift (position test ps)) ≡ none
          → shift (position test ps) ≡ none
      rest true e = cc
      rest false e = e

pub at_slot-lt : (ps : Procs) (k : ℕ) {p : Pcb} → at_slot ps k ≡ some p → k < length ps
at_slot-lt [] k e = cc
at_slot-lt (p ∷ ps) zero e = omega arith
at_slot-lt (p ∷ ps) (suc k) e = omega (arith, at_slot-lt ps k e)

-- A slot after a change of one slot, or of all.
pub at_slot-update_self :
    (f : Pcb → Pcb) (ps : Procs) (k : ℕ) {p : Pcb}
    → at_slot ps k ≡ some p
    → at_slot (update f k ps) k ≡ some (f p)
at_slot-update_self f [] k e = cc
at_slot-update_self f (none ∷ ps) zero e = cc
at_slot-update_self f (some q ∷ ps) zero e = ap (mapped f) e
at_slot-update_self f (p ∷ ps) (suc k) e = at_slot-update_self f ps k e

pub at_slot-update_ne :
    (f : Pcb → Pcb) (ps : Procs) (k j : ℕ) → k ≢ j → at_slot (update f k ps) j ≡ at_slot ps j
at_slot-update_ne f [] k j h = refl
at_slot-update_ne f (p ∷ ps) zero zero h = absurd (h refl)
at_slot-update_ne f (none ∷ ps) zero (suc j) h = refl
at_slot-update_ne f (some q ∷ ps) zero (suc j) h = refl
at_slot-update_ne f (p ∷ ps) (suc k) zero h = refl
at_slot-update_ne f (p ∷ ps) (suc k) (suc j) h = at_slot-update_ne f ps k j (λ e. h (ap suc e))

pub at_slot-each :
    (f : Pcb → Pcb) (ps : Procs) (k : ℕ) → at_slot (each f ps) k ≡ mapped f (at_slot ps k)
at_slot-each f [] k = refl
at_slot-each f (none ∷ ps) zero = refl
at_slot-each f (some p ∷ ps) zero = refl
at_slot-each f (none ∷ ps) (suc k) = at_slot-each f ps k
at_slot-each f (some p ∷ ps) (suc k) = at_slot-each f ps k
