-- ===== src/Task/Fd/Table.antt =====
-- What the calls on a table of fd.rs do to the ends that it holds: `alloc`, `take`, `replace`,
-- `close_all`, `clone_slot`.
use coeleo_os.Base.{
  ℕ, zero, suc, ◌+◌, ◌-◌, ◌≤◌, ◌<◌, ◌≡◌, ◌≢◌, refl, subst, [], ◌∷◌, Bool, true, false, Option, none,
  some, arith, ap, length, get_elem?, set, ◌==◌, if◌then◌else◌,
}
use coeleo_os.Task.Pipe
use coeleo_os.Task.Pipe.{Pipes}
use coeleo_os.Task.Fd.{
  FdTable, OpenFd, stdin, stdout, stderr, file, dir, pipe, err, flatten, get, take, alloc_from,
  alloc, drop_open, drop_opt, clone_open, clone_opt, clone_slot,
}
use coeleo_os.Task.Fd.Count.{ends, one, held, refs, clone_end_ends, clone_end_fails, drop_end_ends}

pub refs-set :
    (t : FdTable) (fd : ℕ) (slot : Option OpenFd) (i : ℕ) (v : Bool)
    → fd < length t
    → refs (set t fd slot) i v + held (get t fd) i v ≡ refs t i v + held slot i v
unfolding get
refs-set [] fd slot i v h = absurd (omega arith)
refs-set (x ∷ t) zero slot i v h = omega arith
refs-set (x ∷ t) (suc fd) slot i v h = omega (arith, refs-set t fd slot i v)

-- Taking a slot leaves a table without the ends that it held.
pub refs-take :
    (t : FdTable) (fd : ℕ) (i : ℕ) (v : Bool)
    → refs (take t fd).0 i v + held (take t fd).1 i v ≡ refs t i v
unfolding take get
refs-take [] fd i v = omega arith
refs-take (x ∷ t) zero i v = omega arith
refs-take (x ∷ t) (suc fd) i v = omega (arith, refs-take t fd i v)

pub held-le : (t : FdTable) (fd : ℕ) (i : ℕ) (v : Bool) → held (get t fd) i v ≤ refs t i v
unfolding get
held-le [] fd i v = omega arith
held-le (x ∷ t) zero i v = omega arith
held-le (x ∷ t) (suc fd) i v = omega (arith, held-le t fd i v)

-- The slot that `alloc` hands out.
alloc_from-le :
    (k : ℕ) (t : FdTable) (of : OpenFd) → (alloc_from k t of).1 ≢ err → k ≤ (alloc_from k t of).1
unfolding alloc_from
alloc_from-le k [] of h = absurd (h refl)
alloc_from-le k (none ∷ t) of h = omega arith
alloc_from-le k (some x ∷ t) of h = omega (arith, alloc_from-le (k + 1) t of h)

refs-alloc_from :
    (k : ℕ) (t : FdTable) (of : OpenFd)
    → k + length t < err
    → (i : ℕ) (v : Bool)
    → refs (alloc_from k t of).0 i v
      ≡ refs t i v + (if (alloc_from k t of).1 == err then 0 else held (some of) i v)
unfolding alloc_from
refs-alloc_from k [] of h i v = ground arith
refs-alloc_from k (none ∷ t) of h i v = ground arith
refs-alloc_from k (some x ∷ t) of h i v =
    ground (arith, refs-alloc_from (k + 1) t of (omega arith) i v)

alloc_from_fails :
    (k : ℕ) (t : FdTable) (of : OpenFd)
    → k + length t < err
    → (alloc_from k t of).1 ≡ err
    → (alloc_from k t of).0 ≡ t
unfolding alloc_from
alloc_from_fails k [] of h e = refl
alloc_from_fails k (none ∷ t) of h e = absurd (omega arith)
alloc_from_fails k (some x ∷ t) of h e =
    ap (λ r. some x ∷ r) (alloc_from_fails (k + 1) t of (omega arith) e)

length-alloc_from :
    (k : ℕ) (t : FdTable) (of : OpenFd)
    → k + length t < err
    → length (alloc_from k t of).0 ≡ length t
unfolding alloc_from
length-alloc_from k [] of h = refl
length-alloc_from k (none ∷ t) of h = refl
length-alloc_from k (some x ∷ t) of h = ap suc (length-alloc_from (k + 1) t of (omega arith))

alloc_from_gets :
    (k : ℕ) (t : FdTable) (of : OpenFd)
    → k + length t < err
    → (alloc_from k t of).1 ≢ err
    → get (alloc_from k t of).0 ((alloc_from k t of).1 - k) ≡ some of
unfolding alloc_from get
alloc_from_gets k [] of h n = absurd (n refl)
alloc_from_gets k (none ∷ t) of h n = rw⁻¹ (zero_at k) refl
  where
    zero_at : (k : ℕ) → 0 ≡ k - k
    zero_at k = omega arith
alloc_from_gets k (some x ∷ t) of h n =
    subst (λ m. flatten (get_elem? (some x ∷ (alloc_from (k + 1) t of).0) m) ≡ some of)
      {x = suc ((alloc_from (k + 1) t of).1 - (k + 1))} {y = (alloc_from (k + 1) t of).1 - k}
      (omega (arith, alloc_from-le (k + 1) t of n)) (alloc_from_gets (k + 1) t of (omega arith) n)

module _ (t : FdTable) (of : OpenFd) (h : length t < err) where
  pub refs-alloc :
      (i : ℕ) (v : Bool)
      → refs (alloc t of).0 i v
        ≡ refs t i v + (if (alloc t of).1 == err then 0 else held (some of) i v)
  unfolding alloc
  refs-alloc i v = refs-alloc_from 0 t of (omega arith) i v

  pub alloc_fails : (alloc t of).1 ≡ err → (alloc t of).0 ≡ t
  unfolding alloc
  alloc_fails e = alloc_from_fails 0 t of (omega arith) e

  pub alloc_gets : (alloc t of).1 ≢ err → get (alloc t of).0 (alloc t of).1 ≡ some of
  unfolding alloc
  alloc_gets n =
      subst (λ m. get (alloc_from 0 t of).0 m ≡ some of) {x = (alloc_from 0 t of).1 - 0}
        {y = (alloc_from 0 t of).1} (omega arith) (alloc_from_gets 0 t of (omega arith) n)

  pub length-alloc : length (alloc t of).0 ≡ length t
  unfolding alloc
  length-alloc = length-alloc_from 0 t of (omega arith)

module _ (ps : Pipes) where
  -- A drop of a descriptor whose ends are counted takes them off.
  pub drop_opt_ends :
      (slot : Option OpenFd)
      → ((i : ℕ) (v : Bool) → held slot i v ≤ ends ps i v)
      → (i : ℕ) (v : Bool) → ends (drop_opt ps slot) i v + held slot i v ≡ ends ps i v
  unfolding drop_open
  drop_opt_ends none h i v = omega arith
  drop_opt_ends (some (pipe id w)) h i v = drop_end_ends ps id w (counted id w (h id w)) i v
    where
      counted : (id : ℕ) (w : Bool) → one id w id w ≤ ends ps id w → 0 < ends ps id w
      counted id true h = ground arith
      counted id false h = ground arith
  drop_opt_ends (some stdin) h i v = omega arith
  drop_opt_ends (some stdout) h i v = omega arith
  drop_opt_ends (some stderr) h i v = omega arith
  drop_opt_ends (some (file p o w)) h i v = omega arith
  drop_opt_ends (some (dir n es)) h i v = omega arith

  -- A copy of a slot adds the ends that the copy holds.
  clone_opt_ends :
      (slot : Option OpenFd) (i : ℕ) (v : Bool)
      → ends (clone_opt ps slot).0 i v ≡ ends ps i v + held (clone_opt ps slot).1 i v
  unfolding clone_open
  clone_opt_ends none i v = omega arith
  clone_opt_ends (some (pipe id w)) i v = ground (
    arith,
    λ (f : (Pipe.clone_end ps id w).1 ≡ true). clone_end_ends ps id w f i v,
    λ (f : (Pipe.clone_end ps id w).1 ≡ false). ap (λ qs. ends qs i v) (clone_end_fails ps id w f),
  )
  clone_opt_ends (some stdin) i v = omega arith
  clone_opt_ends (some stdout) i v = omega arith
  clone_opt_ends (some stderr) i v = omega arith
  clone_opt_ends (some (file p o w)) i v = omega arith
  clone_opt_ends (some (dir n es)) i v = omega arith

  pub clone_slot_ends :
      (t : FdTable) (fd : ℕ) (i : ℕ) (v : Bool)
      → ends (clone_slot ps t fd).0 i v ≡ ends ps i v + held (clone_slot ps t fd).1 i v
  unfolding clone_slot
  clone_slot_ends t fd i v = clone_opt_ends (get t fd) i v
