-- ===== src/Task/Fd/Calls.antt =====
-- The system calls `close` and `pipe` of fd.rs keep the pipes' counts in step with the tables.
use coeleo_os.Base.{
  ℕ, ◌+◌, ◌<◌, ◌≤◌, ◌≡◌, ◌≢◌, Bool, true, false, Option, none, some, arith, ap, length, ◌==◌,
  if◌then◌else◌, Bool-cases, Option-cases, inl, inr,
}
use coeleo_os.Task.Pipe
use coeleo_os.Task.Pipe.{Pipes}
use coeleo_os.Task.Fd.{
  FdTable, OpenFd, pipe, fd_max, err, get, take, alloc, close_taken, sys_close, second_end,
  first_end, with_pipe, sys_pipe,
}
use coeleo_os.Task.Fd.Count.{ends, one, held, refs, drop_end_ends, alloc_ends}
use coeleo_os.Task.Fd.Count
use coeleo_os.Task.Fd.Table.{refs-take, drop_opt_ends, refs-alloc, length-alloc, alloc_gets}

-- The pipes count the ends that this table holds and the ends that `others` hold, and no more.
abbrev pub Balanced : (ℕ → Bool → ℕ) → Pipes → FdTable → Type 0
Balanced others ps t = (i : ℕ) (v : Bool) → ends ps i v ≡ refs t i v + others i v

one_both : (id i : ℕ) (v : Bool) → one id false i v + one id true i v ≡ (if id == i then 1 else 0)
one_both id i true = ground arith
one_both id i false = ground arith

taken : (t : FdTable) (r i : ℕ) (v : Bool) → refs (take t r).0 i v + held (get t r) i v ≡ refs t i v
unfolding take
taken t r i v = refs-take t r i v

-- 1 for both ends of a pipe that was just made.
abbrev made : Option ℕ → ℕ → ℕ
made none i = 0
made (some id) i = if id == i then 1 else 0

alloc-made :
    (ps : Pipes) (i : ℕ) (v : Bool)
    → ends (Pipe.alloc ps).0 i v ≡ ends ps i v + made (Pipe.alloc ps).1 i
alloc-made ps i v = elim (Option-cases (Pipe.alloc ps).1) [
  | inl e ↦ rw e (omega (arith, ap (λ qs. ends qs i v) (Count.alloc_fails ps e)))
  | inr (id, e) ↦ rw e (alloc_ends ps e i v)
]

module _ (others : ℕ → Bool → ℕ) where
  close_taken-Balanced :
      (ps : Pipes) (t : FdTable) (slot : Option OpenFd)
      → ((i : ℕ) (v : Bool) → ends ps i v ≡ refs t i v + held slot i v + others i v)
      → Balanced others (close_taken ps (t, slot)).0 (close_taken ps (t, slot)).1
  close_taken-Balanced ps t none h i v = omega (arith, h i v)
  close_taken-Balanced ps t (some of) h i v =
      omega (arith, h i v, drop_opt_ends ps (some of) (λ j w. omega (arith, h j w)) i v)

  -- If the pipes count exactly the ends that this table and the others hold, so they do after
  -- `close`, whatever the descriptor.
  pub sys_close-Balanced :
      (ps : Pipes) (t : FdTable) (fd : ℕ)
      → Balanced others ps t
      → Balanced others (sys_close ps t fd).0 (sys_close ps t fd).1
  unfolding sys_close
  sys_close-Balanced ps t fd h i v =
      ground (arith, h i v, close_taken-Balanced ps (take t fd).0 (take t fd).1 more i v)
    where
      more :
          (i : ℕ) (v : Bool)
          → ends ps i v ≡ refs (take t fd).0 i v + held (take t fd).1 i v + others i v
      more i v = omega (arith, h i v, refs-take t fd i v)

  -- Both ends of a pipe that no table holds are dropped.
  drop_both :
      (ps : Pipes) (t : FdTable) (id : ℕ)
      → ((i : ℕ) (v : Bool) → ends ps i v ≡ refs t i v + others i v + (if id == i then 1 else 0))
      → Balanced others (Pipe.drop_end (Pipe.drop_end ps id false) id true) t
  drop_both ps t id h i v = omega (
    arith,
    h i v,
    drop_end_ends ps id false one_reader i v,
    drop_end_ends (Pipe.drop_end ps id false) id true one_writer i v,
    one_both id i v,
  )
    where
      one_reader : 0 < ends ps id false
      one_reader = ground (arith, h id false)

      one_writer : 0 < ends (Pipe.drop_end ps id false) id true
      one_writer = ground (arith, h id true, drop_end_ends ps id false one_reader id true)

  module _ (ps : Pipes) (id : ℕ) where
    second_end-Balanced :
        (before t : FdTable) (r w : ℕ)
        → ((i : ℕ) (v : Bool) → ends ps i v ≡ refs before i v + others i v + one id true i v)
        → ((i : ℕ) (v : Bool) → held (get before r) i v ≡ one id false i v)
        → ((i : ℕ) (v : Bool)
            → refs t i v ≡ refs before i v + (if w == err then 0 else one id true i v))
        → Balanced others (second_end ps id before r (t, w)).0 (second_end ps id before r (t, w)).1
    second_end-Balanced before t r w h g k i v =
        ground (arith, h i v, g i v, k i v, drop_both ps (take before r).0 id freed i v)
      where
        freed :
            (i : ℕ) (v : Bool)
            → ends ps i v ≡ refs (take before r).0 i v + others i v + (if id == i then 1 else 0)
        freed i v = omega (arith, h i v, taken before r i v, g i v, one_both id i v)

    first_end-Balanced :
        (before t : FdTable) (r : ℕ)
        → ((i : ℕ) (v : Bool)
            → ends ps i v ≡ refs before i v + others i v + (if id == i then 1 else 0))
        → length t < err
        → (r ≢ err → get t r ≡ some (pipe id false))
        → ((i : ℕ) (v : Bool)
            → refs t i v ≡ refs before i v + (if r == err then 0 else one id false i v))
        → Balanced others (first_end ps id before (t, r)).0 (first_end ps id before (t, r)).1
    first_end-Balanced before t r h room g k i v = elim (Bool-cases (r == err)) [
      | inl e ↦ rw e (drop_both ps t id (λ j w. ground (arith, e, h j w, k j w)) i v)
      | inr e ↦ rw e (second e)
    ]
      where
        second :
            (r == err) ≡ false
            → ends (second_end ps id t r (alloc t (pipe id true))).0 i v
              ≡ refs (second_end ps id t r (alloc t (pipe id true))).1 i v + others i v
        second e =
            second_end-Balanced t (alloc t (pipe id true)).0 r (alloc t (pipe id true)).1
              (λ j w. ground (arith, h j w, k j w, one_both id j w, e))
              (λ j w. ap (λ o. held o j w) (g (ground (arith, e))))
              (refs-alloc t (pipe id true) room) i v

  with_pipe-Balanced :
      (t : FdTable) (r : Pipes × Option ℕ)
      → length t < err
      → ((i : ℕ) (v : Bool) → ends r.0 i v ≡ refs t i v + others i v + made r.1 i)
      → Balanced others (with_pipe t r).0 (with_pipe t r).1
  with_pipe-Balanced t (ps, none) room h i v = omega (arith, h i v)
  with_pipe-Balanced t (ps, some id) room h i v =
      first_end-Balanced ps id t (alloc t (pipe id false)).0 (alloc t (pipe id false)).1 h
        (omega (arith, length-alloc t (pipe id false) room)) (alloc_gets t (pipe id false) room)
        (refs-alloc t (pipe id false) room) i v

  -- If the pipes count exactly the ends that this table of at most 16 slots and the others hold, so they do
  -- after `pipe` on every path: no free pipe, no room for the first or the second end,
  -- and success.
  pub sys_pipe-Balanced :
      (ps : Pipes) (t : FdTable)
      → length t ≤ fd_max
      → Balanced others ps t
      → Balanced others (sys_pipe ps t).0 (sys_pipe ps t).1
  unfolding sys_pipe
  sys_pipe-Balanced ps t size h =
      with_pipe-Balanced t (Pipe.alloc ps) (omega arith)
        (λ i v. omega (arith, h i v, alloc-made ps i v))
