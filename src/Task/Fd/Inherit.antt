-- ===== src/Task/Fd/Inherit.antt =====
-- Standard input and output of a child: `replace`, `close_all` and `inherit_from` of fd.rs.
use coeleo_os.Base.{
  ℕ, zero, suc, ◌+◌, ◌≤◌, ◌<◌, ◌≡◌, refl, [], ◌∷◌, Bool, Option, none, some, arith, ap, length, set,
  length-set,
}
use coeleo_os.Task.Pipe.{Pipes}
use coeleo_os.Task.Fd.{
  FdTable, OpenFd, fd_max, get, take, new_stdio, drop_opt, replace, clone_slot, close_all,
  give_stdout, inherit_stdout, give_stdin, inherit_from,
}
use coeleo_os.Task.Fd.Count.{ends, held, refs}
use coeleo_os.Task.Fd.Table.{refs-set, drop_opt_ends, clone_slot_ends, held-le}

-- The table's ends are among those that the pipes count.
abbrev pub Counted : Pipes → FdTable → Type 0
Counted ps t = (i : ℕ) (v : Bool) → refs t i v ≤ ends ps i v

-- `close_all` gives back every end that the table holds, and empties the table.
pub close_all_lem :
    (ps : Pipes) (t : FdTable)
    → Counted ps t
    → (i : ℕ) (v : Bool)
    → (ends (close_all ps t).0 i v + refs t i v ≡ ends ps i v) × (refs (close_all ps t).1 i v ≡ 0)
unfolding close_all
close_all_lem ps [] h i v = (omega arith, refl)
close_all_lem ps (slot ∷ t) h i v =
    omega (arith, dropped i v, close_all_lem (drop_opt ps slot) t rest i v)
  where
    dropped : (i : ℕ) (v : Bool) → ends (drop_opt ps slot) i v + held slot i v ≡ ends ps i v
    dropped i v = drop_opt_ends ps slot (λ j w. omega (arith, h j w)) i v

    rest : Counted (drop_opt ps slot) t
    rest j w = omega (arith, h j w, dropped j w)

get-set-none : (t : FdTable) (fd : ℕ) → fd < length t → get (set t fd none) fd ≡ none
unfolding get
get-set-none [] fd h = absurd (omega arith)
get-set-none (x ∷ t) zero h = refl
get-set-none (x ∷ t) (suc fd) h = get-set-none t fd (omega arith)

module _ (ps : Pipes) (t : FdTable) (fd : ℕ) (of : OpenFd) (h : fd < length t)
    (room : length t ≡ fd_max) where
  length-replace : length (replace ps t fd of).1 ≡ fd_max
  unfolding replace take
  length-replace = ground (arith, length-set t fd none, length-set (set t fd none) fd (some of))

  -- The new descriptor takes the slot; the old one is dropped.
  replace_lem :
      Counted ps t
      → (i : ℕ) (v : Bool)
      → ends (replace ps t fd of).0 i v + refs t i v + held (some of) i v
        ≡ ends ps i v + refs (replace ps t fd of).1 i v
  unfolding replace take
  replace_lem c i v = ground (
    arith,
    drop_opt_ends ps (get t fd) (λ j w. omega (arith, held-le t fd j w, c j w)) i v,
    refs-set t fd none i v,
    ap (λ o. held o i v) (get-set-none t fd h),
    λ (k : fd < length (set t fd none)). refs-set (set t fd none) fd (some of) i v k,
    length-set t fd none,
  )

-- The ends that a child gets, if it is made.
abbrev pub given : Option FdTable → ℕ → Bool → ℕ
given none i v = 0
given (some t) i v = refs t i v

module _ (base : ℕ → Bool → ℕ) where
  give_stdout_lem :
      (r : Pipes × Option OpenFd) (t : FdTable)
      → length t ≡ fd_max
      → ((i : ℕ) (v : Bool) → ends r.0 i v ≡ base i v + refs t i v + held r.1 i v)
      → (i : ℕ) (v : Bool) → ends (give_stdout r t).0 i v ≡ base i v + given (give_stdout r t).1 i v
  give_stdout_lem (ps, none) t room h i v =
      omega (arith, h i v, close_all_lem ps t (λ j w. omega (arith, h j w)) i v)
  give_stdout_lem (ps, some of) t room h i v =
      omega
        (arith, h i v, replace_lem ps t 1 of (omega arith) room (λ j w. omega (arith, h j w)) i v)

  inherit_stdout_lem :
      (ps : Pipes) (parent t : FdTable) (fd : ℕ)
      → length t ≡ fd_max
      → ((i : ℕ) (v : Bool) → ends ps i v ≡ base i v + refs t i v)
      → (i : ℕ) (v : Bool)
      → ends (inherit_stdout ps parent t fd).0 i v
        ≡ base i v + given (inherit_stdout ps parent t fd).1 i v
  unfolding inherit_stdout
  inherit_stdout_lem ps parent t fd room h i v =
      ground (arith, h i v, give_stdout_lem (clone_slot ps parent fd) t room more i v)
    where
      more :
          (i : ℕ) (v : Bool)
          → ends (clone_slot ps parent fd).0 i v
            ≡ base i v + refs t i v + held (clone_slot ps parent fd).1 i v
      more i v = omega (arith, h i v, clone_slot_ends ps parent fd i v)

  give_stdin_lem :
      (r : Pipes × Option OpenFd) (parent : FdTable) (fd : ℕ)
      → ((i : ℕ) (v : Bool) → ends r.0 i v ≡ base i v + held r.1 i v)
      → (i : ℕ) (v : Bool)
      → ends (give_stdin parent fd r).0 i v ≡ base i v + given (give_stdin parent fd r).1 i v
  unfolding new_stdio
  give_stdin_lem (ps, none) parent fd h i v = omega (arith, h i v)
  give_stdin_lem (ps, some of) parent fd h i v =
      inherit_stdout_lem (replace ps new_stdio 0 of).0 parent (replace ps new_stdio 0 of).1 fd
        (length-replace ps new_stdio 0 of (omega arith) refl) more i v
    where
      more :
          (i : ℕ) (v : Bool)
          → ends (replace ps new_stdio 0 of).0 i v
            ≡ base i v + refs (replace ps new_stdio 0 of).1 i v
      more i v =
          omega (
            arith,
            h i v,
            replace_lem ps new_stdio 0 of (omega arith) refl (λ j w. omega arith) i v,
          )

-- Whatever `inherit_from` is asked for, the pipes count the ends of the parent and of all others as
-- before, and besides just those that the child's table holds; none if no child table is made.
pub inherit_from_lem :
    (ps : Pipes) (parent : FdTable) (stdin_fd stdout_fd : ℕ) (i : ℕ) (v : Bool)
    → ends (inherit_from ps parent stdin_fd stdout_fd).0 i v
      ≡ ends ps i v + given (inherit_from ps parent stdin_fd stdout_fd).1 i v
unfolding inherit_from new_stdio
inherit_from_lem ps parent stdin_fd stdout_fd i v = ground (
  arith,
  inherit_stdout_lem (ends ps) ps parent new_stdio stdout_fd refl (λ j w. omega arith) i v,
  give_stdin_lem (ends ps) (clone_slot ps parent stdin_fd) parent stdout_fd
      (clone_slot_ends ps parent stdin_fd) i v,
)
