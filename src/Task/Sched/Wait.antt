-- ===== src/Task/Sched/Wait.antt =====
-- `spawn` and `wait` of spawn.rs together: a process with a new child waits for it.
use coeleo_os.Base.{
  ℕ, zero, suc, ◌<◌, ◌≡◌, ◌≢◌, refl, sym, ap, ◌∙◌, arith, [], ◌∷◌, Bool, true, false, ◌&&◌, Option,
  none, some, length, set, ◌==◌, ==→eq, eq→==, if◌then◌else◌, Bool-cases, inl, inr,
}
use coeleo_os.Base.Bytes.{Bytes}
use coeleo_os.Task.Pipe.{Pipes}
use coeleo_os.Task.Fd.{FdTable}
use coeleo_os.Task.Sched.{Pcb, Procs, Sched, at_slot, is_zombie}
use coeleo_os.Task.Sched.Spawn.{
  Start, free_slot, fds_for, new_pcb, spawned, mark_parent, insert_at, insert_in, insert_pcb,
  current_of, is_dead_child, must_block, try_reap, next,
}
use coeleo_os.Task.Sched.Slots.{free_slot_lem}
use coeleo_os.Task.Sched.Pids.{Unique, pid_opt}
use coeleo_os.Task.Sched.Kill.{try_reap_none}

-- No child of `pid` in slot `k` is a zombie.
abbrev pub ChildrenLive : ℕ → Procs → Type 0
ChildrenLive pid ps =
    (k : ℕ) (p : Pcb) → at_slot ps k ≡ some p → p.parent ≡ pid → is_zombie p.state ≡ false

-- The mark lands on the only process with the parent's pid.
mark_parent_lem :
    (parent n : ℕ) (ps : Procs) (k : ℕ) {p : Pcb}
    → at_slot ps k ≡ some p
    → p.pid ≡ parent
    → ((j : ℕ) (q : Pcb) → at_slot ps j ≡ some q → q.pid ≡ parent → j ≡ k)
    → at_slot (mark_parent parent n ps) k ≡ some (spawned n p)
unfolding mark_parent
mark_parent_lem parent n [] k at e only = cc
mark_parent_lem parent n (none ∷ ps) zero at e only = cc
mark_parent_lem parent n (none ∷ ps) (suc k) at e only =
    mark_parent_lem parent n ps k at e (λ j q f g. omega (arith, only (suc j) q f g))
mark_parent_lem parent n (some q ∷ ps) zero {p} at e only =
    let same : q ≡ p = cc in
    let here : (q.pid == parent) ≡ true = eq→== q.pid parent (ap (λ r. r.pid) same ∙ e) in
    rw here (ap (λ r. some (spawned n r)) same)
mark_parent_lem parent n (some q ∷ ps) (suc k) at e only = elim (Bool-cases (q.pid == parent)) [
  | inl f ↦ absurd (omega (arith, only 0 q refl (==→eq q.pid parent f)))
  | inr f ↦ rw f (mark_parent_lem parent n ps k at e (λ j q f g. omega (arith, only (suc j) q f g)))
]

-- It changes neither a parent nor a state.
mark_parent-ChildrenLive :
    (parent n pid : ℕ) (ps : Procs)
    → ChildrenLive pid ps
    → ChildrenLive pid (mark_parent parent n ps)
unfolding mark_parent
mark_parent-ChildrenLive parent n pid [] live k p at = live k p at
mark_parent-ChildrenLive parent n pid (none ∷ ps) live zero p at = live zero p at
mark_parent-ChildrenLive parent n pid (none ∷ ps) live (suc k) p at =
    mark_parent-ChildrenLive parent n pid ps (λ j q. live (suc j) q) k p at
mark_parent-ChildrenLive parent n pid (some r ∷ ps) live k p at =
    by_test (r.pid == parent) k at
      (mark_parent-ChildrenLive parent n pid ps (λ j q. live (suc j) q))
  where
    by_test :
        (t : Bool) (k : ℕ)
        → at_slot (if t then some (spawned n r) ∷ ps else some r ∷ mark_parent parent n ps) k
          ≡ some p
        → ChildrenLive pid (mark_parent parent n ps)
        → p.parent ≡ pid
        → is_zombie p.state ≡ false
    by_test true zero at rest mine =
        let same : spawned n r ≡ p = cc in
        ap (λ q. is_zombie q.state) (sym same) ∙ live 0 r refl (ap (λ q. q.parent) same ∙ mine)
    by_test true (suc k) at rest mine = live (suc k) p at mine
    by_test false zero at rest mine = live zero p at mine
    by_test false (suc k) at rest mine = rest k p at mine

at_slot-set_self :
    (ps : Procs) (k : ℕ) (o : Option Pcb) → k < length ps → at_slot (set ps k o) k ≡ o
at_slot-set_self [] k o lt = absurd (omega arith)
at_slot-set_self (p ∷ ps) zero o lt = refl
at_slot-set_self (p ∷ ps) (suc k) o lt = at_slot-set_self ps k o (omega arith)

at_slot-set_ne :
    (ps : Procs) (k j : ℕ) (o : Option Pcb) → k ≢ j → at_slot (set ps k o) j ≡ at_slot ps j
at_slot-set_ne [] k j o h = refl
at_slot-set_ne (p ∷ ps) zero zero o h = absurd (h refl)
at_slot-set_ne (p ∷ ps) zero (suc j) o h = refl
at_slot-set_ne (p ∷ ps) (suc k) zero o h = refl
at_slot-set_ne (p ∷ ps) (suc k) (suc j) o h = at_slot-set_ne ps k j o (λ e. h (ap suc e))

module _ (s : Sched) (cur : Pcb) (runs : current_of s s.current ≡ some cur) (u : Unique s)
    (live : ChildrenLive cur.pid s.procs) where
  -- The table with a new process `new` in the free slot `slot`.
  module _ (new : Pcb) (slot : ℕ) (free : at_slot s.procs slot ≡ none)
      (room : slot < length s.procs) (number : new.pid ≡ s.next_pid)
      (alive : is_zombie new.state ≡ false) where
    procs : Procs
    procs = set s.procs slot (some new)

    self : at_slot procs slot ≡ some new
    unfolding procs
    self = at_slot-set_self s.procs slot (some new) room

    other : (j : ℕ) → (slot == j) ≡ false → at_slot procs j ≡ at_slot s.procs j
    unfolding procs
    other j e = at_slot-set_ne s.procs slot j (some new) (λ f. ground (arith, e, f))

    procs-ChildrenLive : ChildrenLive cur.pid procs
    procs-ChildrenLive k p at mine = elim (Bool-cases (slot == k)) [
      | inl e ↦
          (let same : some new ≡ some p = sym self ∙ ap (at_slot procs) (==→eq slot k e) ∙ at in
            let new_p : new ≡ p = cc in ap (λ q. is_zombie q.state) (sym new_p) ∙ alive)
      | inr e ↦ live k p (sym (other k e) ∙ at) mine
    ]

    is_cur : (c : ℕ) → at_slot s.procs c ≡ some cur → (slot == c) ≡ false
    is_cur c at = elim (Bool-cases (slot == c)) [
      | inl e ↦ absurd (cc (free, ap (at_slot s.procs) (==→eq slot c e), at))
      | inr e ↦ e
    ]

    only_cur :
        (c : ℕ)
        → at_slot s.procs c ≡ some cur
        → (j : ℕ) (q : Pcb) → at_slot procs j ≡ some q
        → q.pid ≡ cur.pid
        → j ≡ c
    only_cur c at j q f g = elim (Bool-cases (slot == j)) [
      | inl e ↦
          (let same : some new ≡ some q = sym self ∙ ap (at_slot procs) (==→eq slot j e) ∙ f in
            let new_q : new ≡ q = cc in
            absurd
              (omega (arith, u.used c cur.pid (ap pid_opt at), number, g, ap (λ r. r.pid) new_q)))
      | inr e ↦ u.apart j c cur.pid (ap pid_opt (sym (other j e) ∙ f) ∙ ap some g) (ap pid_opt at)
    ]

    marked : Procs
    marked = mark_parent cur.pid s.next_pid procs

    still_runs :
        (c : Option ℕ)
        → current_of s c ≡ some cur
        → current_of (record s { procs = marked; next_pid = next s.next_pid }) c
          ≡ some (spawned s.next_pid cur)
    unfolding marked
    still_runs none at = cc
    still_runs (some c) at =
        mark_parent_lem cur.pid s.next_pid procs c (other c (is_cur c at) ∙ at) refl (only_cur c at)

    none_dead : (k : ℕ) (p : Pcb) → at_slot marked k ≡ some p → is_dead_child cur.pid p ≡ false
    unfolding marked
    none_dead k p at = elim (Bool-cases (p.parent == cur.pid)) [
      | inl e ↦
          ap (λ b. (p.parent == cur.pid) && b)
            (mark_parent-ChildrenLive cur.pid s.next_pid cur.pid procs procs-ChildrenLive k p at
              (==→eq p.parent cur.pid e))
          ∙ ap (λ b. b && false) e
      | inr e ↦ ap (λ b. b && is_zombie p.state) e
    ]

    must_wait :
        (pipes : Pipes)
        → try_reap pipes (record s { procs = marked; next_pid = next s.next_pid })
          ≡ (pipes, record s { procs = marked; next_pid = next s.next_pid }, must_block)
    must_wait pipes =
        try_reap_none pipes (record s { procs = marked; next_pid = next s.next_pid })
          (spawned s.next_pid cur) (still_runs s.current runs) none_dead

-- Let the pids be unique, and no child of the current process be a zombie. Once that process, whose
-- pid is not 0, has spawned a child, `wait` changes nothing and says that it must block.
pub try_reap-insert_pcb :
    (pipes : Pipes) (s : Sched) (cur : Pcb) (st : Start) (name : Bytes)
    (stdin_fd stdout_fd slot : ℕ)
    → current_of s s.current ≡ some cur
    → cur.pid ≢ 0
    → Unique s
    → ChildrenLive cur.pid s.procs
    → (insert_pcb pipes s st name cur.pid stdin_fd stdout_fd).2 ≡ some slot
    → try_reap
        (insert_pcb pipes s st name cur.pid stdin_fd stdout_fd).0
        (insert_pcb pipes s st name cur.pid stdin_fd stdout_fd).1
      ≡ (
        (insert_pcb pipes s st name cur.pid stdin_fd stdout_fd).0,
        (insert_pcb pipes s st name cur.pid stdin_fd stdout_fd).1,
        must_block,
      )
unfolding insert_pcb marked procs new_pcb
try_reap-insert_pcb pipes s cur st name stdin_fd stdout_fd slot runs pid u live h =
    in_slot (free_slot s.procs) refl h
  where
    Blocks : Pipes × Sched × Option ℕ → Type 0
    Blocks r = r.2 ≡ some slot → try_reap r.0 r.1 ≡ (r.0, r.1, must_block)

    with_fds :
        (k : ℕ) (r : Pipes × Option FdTable)
        → free_slot s.procs ≡ some k
        → Blocks (insert_at s st name cur.pid k r)
    with_fds k (pipes', none) e f = cc
    with_fds k (pipes', some fds) e f =
        let (room, free) = free_slot_lem s.procs e in
        let named : (cur.pid == 0) ≡ false = ground (arith, pid) in
        rw named (
          must_wait s cur runs u live (new_pcb st name cur.pid s.next_pid fds) k free room refl refl
            pipes')

    in_slot :
        (o : Option ℕ)
        → free_slot s.procs ≡ o
        → Blocks (insert_in pipes s st name cur.pid stdin_fd stdout_fd o)
    in_slot none e f = cc
    in_slot (some k) e f = with_fds k (fds_for pipes s.procs cur.pid stdin_fd stdout_fd) e f
