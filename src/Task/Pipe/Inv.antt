-- ===== src/Task/Pipe/Inv.antt =====
-- The invariant of the pipe table, and that every call of pipe.rs keeps it.
use coeleo_os.Base.{
  ℕ, zero, suc, ◌+◌, ◌-◌, ◌%◌, ◌≤◌, ◌<◌, ◌≡◌, ◌≢◌, [], ◌∷◌, Bool, true, some, arith, length,
  get_elem?, set, All, All-set, All-get_elem?, suc-==-zero, min, Option-cases, inl, inr,
  length-replicate, Bool-cases,
}
use coeleo_os.Base.Bytes.{Bytes}
use coeleo_os.Task.Pipe.{
  Pipe, Pipes, pipe_cap, zeros, initial, empty, opened, alloc_from, alloc, clone_pipe, clone_end,
  drop_pipe, drop_end, read_pipe, read, write_pipe, write, Op, allocs, clones, drops, reads, writes,
  step,
}
use coeleo_os.Task.Pipe.Window.{length-copy_in}

pub record IsValid (p : Pipe) : Type 0 where
  pub size : length p.buf ≡ pipe_cap
  pub head_in : p.head < pipe_cap
  pub len_in : p.len ≤ pipe_cap
  pub readers_in : p.n_readers < 256
  pub writers_in : p.n_writers < 256
  -- An open pipe has an end left.
  pub ends : p.used ≡ true → p.n_readers + p.n_writers ≢ 0

length-zeros : length zeros ≡ pipe_cap
unfolding zeros
length-zeros = length-replicate {A = ℕ} pipe_cap 0

empty-IsValid : IsValid empty
empty-IsValid = record {
  size = length-zeros;
  head_in = omega arith;
  len_in = omega arith;
  readers_in = omega arith;
  writers_in = omega arith;
  ends = λ h. cc;
}

opened-IsValid : IsValid opened
opened-IsValid = record {
  size = length-zeros;
  head_in = omega arith;
  len_in = omega arith;
  readers_in = omega arith;
  writers_in = omega arith;
  ends = λ h. omega arith;
}

clone_pipe-IsValid : {p q : Pipe} (w : Bool) → IsValid p → clone_pipe p w ≡ some q → IsValid q
unfolding clone_pipe
clone_pipe-IsValid w v h = ground arith

drop_pipe-IsValid : {p : Pipe} (w : Bool) → IsValid p → IsValid (drop_pipe p w)
unfolding drop_pipe
drop_pipe-IsValid w v = ground (arith, empty-IsValid)

read_pipe-IsValid : {p : Pipe} (room : ℕ) → IsValid p → IsValid (read_pipe p room).0
unfolding read_pipe
read_pipe-IsValid room v = ground arith

write_pipe-IsValid : {p : Pipe} (src : Bytes) → IsValid p → IsValid (write_pipe p src).0
unfolding write_pipe
write_pipe-IsValid {p} src v = ground (
  arith,
  length-copy_in p.buf ((p.head + p.len) % pipe_cap) 0 src (min (length src) (pipe_cap - p.len)),
)

abbrev pub AllValid : Pipes → Type 0
AllValid = All IsValid

pub alloc_from-AllValid : (i : ℕ) (ps : Pipes) → AllValid ps → AllValid (alloc_from i ps).0
unfolding alloc_from
alloc_from-AllValid i [] h = tt
alloc_from-AllValid i (p ∷ ps) (v, h) = elim (Bool-cases p.used) [
  | inl u ↦ simp u (v, alloc_from-AllValid (i + 1) ps h)
  | inr u ↦ simp u (opened-IsValid, h)
]

module _ (ps : Pipes) (id : ℕ) (h : AllValid ps) where
  at : {p : Pipe} → get_elem? ps id ≡ some p → IsValid p
  at e = All-get_elem? IsValid ps id h e

  put_back :
      {p q : Pipe} → get_elem? ps id ≡ some p → (IsValid p → IsValid q) → AllValid (set ps id q)
  put_back {p} {q} e keep = All-set IsValid ps id q (keep (at e)) h

  pub clone_end-AllValid : (w : Bool) → AllValid (clone_end ps id w).0
  unfolding clone_end
  clone_end-AllValid w = elim (Option-cases (get_elem? ps id)) [
    | inl e ↦ rw (e, clone_end) h
    | inr (p, e) ↦ elim (Option-cases (clone_pipe p w)) [
      | inl f ↦ rw (e, f, clone_end) h
      | inr (q, f) ↦ rw (e, f, clone_end) (put_back e (λ v. clone_pipe-IsValid w v f))
    ]
  ]

  pub drop_end-AllValid : (w : Bool) → AllValid (drop_end ps id w)
  unfolding drop_end
  drop_end-AllValid w = elim (Option-cases (get_elem? ps id)) [
    | inl e ↦ rw (e, drop_end) h
    | inr (p, e) ↦ rw (e, drop_end) (put_back e (drop_pipe-IsValid w))
  ]

  pub read-AllValid : (room : ℕ) → AllValid (read ps id room).0
  unfolding read
  read-AllValid zero = h
  read-AllValid (suc room) = elim (Option-cases (get_elem? ps id)) [
    | inl e ↦ rw (suc-==-zero, e, read) h
    | inr (p, e) ↦ rw (suc-==-zero, e, read) (put_back e (read_pipe-IsValid (suc room)))
  ]

  pub write-AllValid : (src : Bytes) → AllValid (write ps id src).0
  unfolding write
  write-AllValid [] = h
  write-AllValid (x ∷ src) = elim (Option-cases (get_elem? ps id)) [
    | inl e ↦ rw (suc-==-zero, e, write) h
    | inr (p, e) ↦ rw (suc-==-zero, e, write) (put_back e (write_pipe-IsValid (x ∷ src)))
  ]

-- Every call keeps every pipe of the table valid: the ring indices in range, the counts of ends
-- within a byte, and no open pipe without an end.
pub step-AllValid : (ps : Pipes) (op : Op) → AllValid ps → AllValid (step ps op).0
unfolding step alloc
step-AllValid ps allocs h = alloc_from-AllValid 0 ps h
step-AllValid ps (clones id w) h = clone_end-AllValid ps id h w
step-AllValid ps (drops id w) h = drop_end-AllValid ps id h w
step-AllValid ps (reads id n) h = read-AllValid ps id h n
step-AllValid ps (writes id src) h = write-AllValid ps id h src

pub initial-AllValid : AllValid initial
unfolding initial
initial-AllValid = (empty-IsValid, (empty-IsValid, (empty-IsValid, (empty-IsValid, tt))))
