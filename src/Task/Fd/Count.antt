-- ===== src/Task/Fd/Count.antt =====
-- How often the pipe table of pipe.rs counts an end, how often a table of fd.rs holds one, and what
-- each call of pipe.rs does to the counts.
use coeleo_os.Base.{
  ℕ, zero, suc, ◌+◌, ◌≤◌, ◌<◌, ◌≡◌, refl, subst, [], ◌∷◌, Bool, true, false, Option, none, some,
  arith, get_elem?, set, ◌==◌, if◌then◌else◌, Option-cases, inl, inr, suc-==-zero,
}
use coeleo_os.Task.Pipe.{
  Pipe, Pipes, alloc_from, alloc, clone_pipe, clone_end, drop_pipe, drop_end, read_pipe, read,
  write_pipe, write,
}
use coeleo_os.Base.Bytes.{Bytes}
use coeleo_os.Task.Fd.{FdTable, OpenFd, pipe}

abbrev pub pipe_ends : Pipe → Bool → ℕ
pipe_ends p true = if p.used then p.n_writers else 0
pipe_ends p false = if p.used then p.n_readers else 0

-- The readers or writers that the table counts for pipe `id`.
abbrev pub ends : Pipes → ℕ → Bool → ℕ
ends [] id w = 0
ends (p ∷ ps) zero w = pipe_ends p w
ends (p ∷ ps) (suc id) w = ends ps id w

abbrev pub same : Bool → Bool → Bool
same true true = true
same false false = true
same _ _ = false

-- 1 for the end itself, 0 for any other.
abbrev pub one : ℕ → Bool → ℕ → Bool → ℕ
one id w i v = if id == i then (if same w v then 1 else 0) else 0

abbrev pub held : Option OpenFd → ℕ → Bool → ℕ
held (some (pipe id w)) i v = one id w i v
held _ i v = 0

-- The slots of a table that hold this end.
abbrev pub refs : FdTable → ℕ → Bool → ℕ
refs [] i v = 0
refs (slot ∷ t) i v = held slot i v + refs t i v

one-suc : (id : ℕ) (w : Bool) (i : ℕ) (v : Bool) → one (suc id) w (suc i) v ≡ one id w i v
one-suc id w i v = ground arith

ends-set :
    (ps : Pipes) (id : ℕ) {p : Pipe} (q : Pipe)
    → get_elem? ps id ≡ some p
    → (i : ℕ) (v : Bool) → ends (set ps id q) i v ≡ (if id == i then pipe_ends q v else ends ps i v)
ends-set [] id q e i v = cc
ends-set (x ∷ ps) zero q e zero v = refl
ends-set (x ∷ ps) zero q e (suc i) v = ground arith
ends-set (x ∷ ps) (suc id) q e zero v = ground arith
ends-set (x ∷ ps) (suc id) q e (suc i) v = ground (arith, ends-set ps id q e i v)

ends_at :
    (ps : Pipes) (id : ℕ) (v : Bool) {p : Pipe}
    → get_elem? ps id ≡ some p
    → ends ps id v ≡ pipe_ends p v
ends_at [] id v e = cc
ends_at (x ∷ ps) zero v e = ground arith
ends_at (x ∷ ps) (suc id) v e = ends_at ps id v e

ends_none : (ps : Pipes) (id : ℕ) (v : Bool) → get_elem? ps id ≡ none → ends ps id v ≡ 0
ends_none [] id v e = refl
ends_none (x ∷ ps) zero v e = cc
ends_none (x ∷ ps) (suc id) v e = ends_none ps id v e

clone_pipe_ends :
    (p : Pipe) (w : Bool) {q : Pipe}
    → clone_pipe p w ≡ some q
    → (v : Bool) → pipe_ends q v ≡ pipe_ends p v + (if same w v then 1 else 0)
unfolding clone_pipe
clone_pipe_ends p true e true = ground arith
clone_pipe_ends p true e false = ground arith
clone_pipe_ends p false e true = ground arith
clone_pipe_ends p false e false = ground arith

drop_pipe_ends :
    (p : Pipe) (w : Bool)
    → 0 < pipe_ends p w
    → (v : Bool) → pipe_ends (drop_pipe p w) v + (if same w v then 1 else 0) ≡ pipe_ends p v
unfolding drop_pipe
drop_pipe_ends p true h true = ground arith
drop_pipe_ends p true h false = ground arith
drop_pipe_ends p false h true = ground arith
drop_pipe_ends p false h false = ground arith

-- A clone that succeeds counts the end once more.
pub clone_end_ends :
    (ps : Pipes) (id : ℕ) (w : Bool)
    → (clone_end ps id w).1 ≡ true
    → (i : ℕ) (v : Bool) → ends (clone_end ps id w).0 i v ≡ ends ps i v + one id w i v
unfolding clone_end
clone_end_ends ps id w h i v = elim (Option-cases (get_elem? ps id)) [
  | inl e ↦ ground arith
  | inr (p, e) ↦ elim (Option-cases (clone_pipe p w)) [
    | inl f ↦ ground arith
    | inr (q, f) ↦
        rw (e, f, clone_end)
          (ground (arith, ends-set ps id q e i v, clone_pipe_ends p w f v, ends_at ps id v e))
  ]
]

-- One that fails changes nothing.
pub clone_end_fails :
    (ps : Pipes) (id : ℕ) (w : Bool) → (clone_end ps id w).1 ≡ false → (clone_end ps id w).0 ≡ ps
unfolding clone_end
clone_end_fails ps id w h = ground arith

-- A drop of an end that is counted counts it once less.
pub drop_end_ends :
    (ps : Pipes) (id : ℕ) (w : Bool)
    → 0 < ends ps id w
    → (i : ℕ) (v : Bool) → ends (drop_end ps id w) i v + one id w i v ≡ ends ps i v
unfolding drop_end
drop_end_ends ps id w h i v = elim (Option-cases (get_elem? ps id)) [
  | inl e ↦ absurd (omega (arith, ends_none ps id w e))
  | inr (p, e) ↦
      rw (e, drop_end)
        (ground (
          arith,
          ends-set ps id (drop_pipe p w) e i v,
          ends_at ps id w e,
          ends_at ps id v e,
          drop_pipe_ends p w (subst (λ n. 0 < n) (ends_at ps id w e) h) v,
        ))
]

alloc_from-le : (k : ℕ) (ps : Pipes) {id : ℕ} → (alloc_from k ps).1 ≡ some id → k ≤ id
unfolding alloc_from
alloc_from-le k [] e = cc
alloc_from-le k (p ∷ ps) {id} e = ground (arith, alloc_from-le (k + 1) ps {id = id})

alloc_from_ends :
    (k : ℕ) (ps : Pipes) {id : ℕ}
    → (alloc_from k ps).1 ≡ some id
    → (i : ℕ) (v : Bool)
    → ends (alloc_from k ps).0 i v ≡ ends ps i v + (if id == k + i then 1 else 0)
unfolding alloc_from
alloc_from_ends k [] e i v = cc
alloc_from_ends k (p ∷ ps) {id} e zero true = ground (arith, alloc_from-le (k + 1) ps {id = id})
alloc_from_ends k (p ∷ ps) {id} e zero false = ground (arith, alloc_from-le (k + 1) ps {id = id})
alloc_from_ends k (p ∷ ps) {id} e (suc i) v =
    ground (arith, λ (f : (alloc_from (k + 1) ps).1 ≡ some id). alloc_from_ends (k + 1) ps f i v)

alloc_from_fails : (k : ℕ) (ps : Pipes) → (alloc_from k ps).1 ≡ none → (alloc_from k ps).0 ≡ ps
unfolding alloc_from
alloc_from_fails k [] e = refl
alloc_from_fails k (p ∷ ps) e = ground (arith, alloc_from_fails (k + 1) ps)

-- A pipe that `alloc` finds is counted once at both ends.
pub alloc_ends :
    (ps : Pipes) {id : ℕ}
    → (alloc ps).1 ≡ some id
    → (i : ℕ) (v : Bool) → ends (alloc ps).0 i v ≡ ends ps i v + (if id == i then 1 else 0)
unfolding alloc
alloc_ends ps {id} e i v = ground (arith, alloc_from_ends 0 ps {id = id} e i v)

pub alloc_fails : (ps : Pipes) → (alloc ps).1 ≡ none → (alloc ps).0 ≡ ps
unfolding alloc
alloc_fails ps e = alloc_from_fails 0 ps e

read_pipe_ends : (p : Pipe) (n : ℕ) (v : Bool) → pipe_ends (read_pipe p n).0 v ≡ pipe_ends p v
unfolding read_pipe
read_pipe_ends p n true = ground arith
read_pipe_ends p n false = ground arith

write_pipe_ends :
    (p : Pipe) (src : Bytes) (v : Bool) → pipe_ends (write_pipe p src).0 v ≡ pipe_ends p v
unfolding write_pipe
write_pipe_ends p src true = ground arith
write_pipe_ends p src false = ground arith

-- Reads and writes leave the counts of ends.
pub read_ends : (ps : Pipes) (id n i : ℕ) (v : Bool) → ends (read ps id n).0 i v ≡ ends ps i v
unfolding read
read_ends ps id zero i v = refl
read_ends ps id (suc n) i v = elim (Option-cases (get_elem? ps id)) [
  | inl e ↦ rw (suc-==-zero, e, read) refl
  | inr (p, e) ↦
      rw (suc-==-zero, e, read)
        (ground (
          arith,
          ends-set ps id (read_pipe p (suc n)).0 e i v,
          ends_at ps id v e,
          read_pipe_ends p (suc n) v,
        ))
]

pub write_ends :
    (ps : Pipes) (id : ℕ) (src : Bytes) (i : ℕ) (v : Bool)
    → ends (write ps id src).0 i v ≡ ends ps i v
unfolding write
write_ends ps id [] i v = refl
write_ends ps id (x ∷ src) i v = elim (Option-cases (get_elem? ps id)) [
  | inl e ↦ rw (suc-==-zero, e, write) refl
  | inr (p, e) ↦
      rw (suc-==-zero, e, write)
        (ground (
          arith,
          ends-set ps id (write_pipe p (x ∷ src)).0 e i v,
          ends_at ps id v e,
          write_pipe_ends p (x ∷ src) v,
        ))
]
