-- ===== src/Task/Sched/Pick.antt =====
-- The choice of the next process in switch.rs: round robin from the slot behind the current one.
use coeleo_os.Base.{
  ℕ, zero, suc, ◌+◌, ◌-◌, ◌%◌, ◌≤◌, ◌<◌, ◌≡◌, ◌≢◌, sym, subst, arith, Bool, true, false, none, some,
  ◌==◌, Bool-cases, inl, inr,
}
use coeleo_os.Task.Sched.{max_proc, Pcb, Procs, Sched, at_slot, some_and, is_runnable}
use coeleo_os.Task.Sched.Switch.{pick_from, can_run, pick_runnable, start_of, pick_runnable_other}

-- The slot of round `k`.
abbrev pub slot_of : ℕ → ℕ → ℕ
slot_of start k = (start + k) % max_proc

-- What is found is the first slot in the order of the rounds that passes the test.
abbrev pub Nearest : (Pcb → Bool) → Procs → ℕ → ℕ → ℕ → ℕ → Type 0
Nearest test ps start k n i =
    (j : ℕ) × (k ≤ j)
    × (j < k + n)
    × (i ≡ slot_of start j)
    × (some_and test (at_slot ps i) ≡ true)
    × ((e : ℕ) → k ≤ e → e < j → some_and test (at_slot ps (slot_of start e)) ≡ false)

module _ (test : Pcb → Bool) (ps : Procs) (start : ℕ) where
  passes : ℕ → Bool
  passes k = some_and test (at_slot ps (slot_of start k))

  pick_from-Nearest :
      (k n : ℕ) {i : ℕ} → pick_from test ps start k n ≡ some i → Nearest test ps start k n i
  unfolding pick_from passes
  pick_from-Nearest k zero e = cc
  pick_from-Nearest k (suc n) {i} e = elim (Bool-cases (passes k)) [
    | inl h ↦
        (let here : slot_of start k ≡ i = ground (arith, e, h) in
          (
            k,
            omega arith,
            omega arith,
            sym here,
            subst (λ i. some_and test (at_slot ps i) ≡ true) here h,
            λ e le lt. absurd (omega arith),
          ))
    | inr h ↦
        (let later : pick_from test ps start (k + 1) n ≡ some i = ground (arith, e, h) in
          let (j, le, lt, at, ok, before) = pick_from-Nearest (k + 1) n later in
          (j, omega arith, omega arith, at, ok, λ e le' lt'. skip e le' (λ g. before e g lt') h))
  ]
    where
      skip : (e : ℕ) → k ≤ e → (k + 1 ≤ e → passes e ≡ false) → passes k ≡ false → passes e ≡ false
      skip e le more h = elim (Bool-cases (k == e)) [
        | inl same ↦ subst (λ e. passes e ≡ false) {x = k} {y = e} (ground (arith, same)) h
        | inr other ↦ more (ground (arith, other))
      ]

  pick_from-none :
      (k n : ℕ)
      → pick_from test ps start k n ≡ none
      → (e : ℕ) → k ≤ e
      → e < k + n
      → passes e ≡ false
  unfolding pick_from passes
  pick_from-none k zero h e le lt = absurd (omega arith)
  pick_from-none k (suc n) h e le lt = elim (Bool-cases (passes k)) [
    | inl f ↦ ground (arith, f, h)
    | inr f ↦ elim (Bool-cases (k == e)) [
      | inl same ↦ subst (λ e. passes e ≡ false) {x = k} {y = e} (ground (arith, same)) f
      | inr other ↦
          (let g : pick_from test ps start (k + 1) n ≡ none = ground (arith, f, h) in
            pick_from-none (k + 1) n g e (ground (arith, other)) (omega arith))
    ]
  ]

-- The round in which a slot comes up.
round_of : (start i : ℕ) → i < 8 → (e : ℕ) × (e < 8) × (slot_of start e ≡ i)
round_of start i h = ((i + 8 - start % 8) % 8, omega arith, omega arith)

-- `pick_runnable` finds none only if no slot holds a process that can run.
pub pick_runnable-none :
    (s : Sched)
    → pick_runnable s ≡ none
    → (i : ℕ) → i < max_proc
    → some_and can_run (at_slot s.procs i) ≡ false
unfolding pick_runnable passes
pick_runnable-none s e i h =
    let (k, lt, at) = round_of (start_of s.current) i h in
    subst (λ i. some_and can_run (at_slot s.procs i) ≡ false) at
      (pick_from-none can_run s.procs (start_of s.current) 0 max_proc e k (omega arith)
        (omega arith))

-- The timer's choice: never the current slot, and the nearest one that is runnable.
pub pick_runnable_other_lem :
    (s : Sched) (cur : ℕ) {i : ℕ}
    → cur < max_proc
    → pick_runnable_other s cur ≡ some i
    → (i ≢ cur) × Nearest (λ p. is_runnable p.state) s.procs cur 1 (max_proc - 1) i
unfolding pick_runnable_other
pick_runnable_other_lem s cur h e =
    let near = pick_from-Nearest (λ p. is_runnable p.state) s.procs cur 1 (max_proc - 1) e in
    (λ same. omega (arith, near.1, near.2, near.3), near)
