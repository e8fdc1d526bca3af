-- ===== src/Task/Pipe.antt =====
-- kernel/src/task/pipe.rs: four byte rings shared between processes. The static table is the state
-- that each call takes and returns. `dst` is given by its length; the bytes copied into it come
-- back beside the result. The sums of indices stay below `2 * PIPE_CAP`, so none wraps.
pub mod Channel
pub mod Window
pub mod Inv
pub mod Refine
mod Tests
use coeleo_os.Base.{
  ℕ, zero, suc, ◌+◌, ◌-◌, ◌%◌, ◌<◌, ◌≡◌, List, [], ◌∷◌, Bool, true, false, not, ◌&&◌, Option, none,
  some, min, length, get_elem?, get_or, set, replicate, leb, ltb, ◌==◌, if◌then◌else◌,
}
use coeleo_os.Base.Bytes.{Bytes}

abbrev pub pipe_max : ℕ
pipe_max = 4

abbrev pub pipe_cap : ℕ
pipe_cap = 4096

pub record Pipe : Type 0 where
  pub used : Bool
  pub buf : Bytes
  pub head : ℕ
  pub len : ℕ
  pub n_readers : ℕ
  pub n_writers : ℕ

unfoldable pub zeros : Bytes
zeros = replicate pipe_cap 0

abbrev pub empty : Pipe
empty = record { used = false; buf = zeros; head = 0; len = 0; n_readers = 0; n_writers = 0 }

-- `PIPES`.
abbrev pub Pipes : Type 0
Pipes = List Pipe

unfoldable pub initial : Pipes
initial = empty ∷ empty ∷ empty ∷ empty ∷ []

pub data Read : Type 0 where
  bytes : ℕ → Read
  eof : Read
  would_block : Read

pub data Write : Type 0 where
  taken : ℕ → Write
  full : Write
  broken : Write

-- The fields that `alloc` gives to a free pipe.
abbrev pub opened : Pipe
opened = record { used = true; buf = zeros; head = 0; len = 0; n_readers = 1; n_writers = 1 }

-- The loop of `alloc`, from pipe `i` on.
unfoldable pub alloc_from : ℕ → Pipes → Pipes × Option ℕ
alloc_from i [] = ([], none)
alloc_from i (p ∷ ps) =
    let (rest, id) = alloc_from (i + 1) ps in
    if not p.used then (opened ∷ ps, some i) else (p ∷ rest, id)

unfoldable pub alloc : Pipes → Pipes × Option ℕ
alloc pipes = alloc_from 0 pipes

-- `checked_add(1)` and `saturating_sub(1)` on a `u8`.
abbrev pub checked_inc : ℕ → Option ℕ
checked_inc n = if n == 255 then none else some (n + 1)

-- The new pipe, or `none` for `Err(())`.
unfoldable pub clone_pipe : Pipe → Bool → Option Pipe
clone_pipe p write =
    if not p.used
    then none
    else if write
    then (elim (checked_inc p.n_writers) [
      | none ↦ none
      | some n ↦ some (record p { n_writers = n })
    ])
    else (elim (checked_inc p.n_readers) [
      | none ↦ none
      | some n ↦ some (record p { n_readers = n })
    ])

unfoldable pub clone_end : Pipes → ℕ → Bool → Pipes × Bool
clone_end pipes id write = elim (get_elem? pipes id) [
  | none ↦ (pipes, false)
  | some p ↦ elim (clone_pipe p write) [ none ↦ (pipes, false) | some q ↦ (set pipes id q, true) ]
]

abbrev pub dec_end : Pipe → Bool → Pipe
dec_end p write =
    if write
    then record p { n_writers = p.n_writers - 1 }
    else record p { n_readers = p.n_readers - 1 }

unfoldable pub drop_pipe : Pipe → Bool → Pipe
drop_pipe p write =
    let q = dec_end p write in
    if not p.used then p else if (q.n_readers == 0) && (q.n_writers == 0) then empty else q

unfoldable pub drop_end : Pipes → ℕ → Bool → Pipes
drop_end pipes id write = elim (get_elem? pipes id) [
  | none ↦ pipes
  | some p ↦ set pipes id (drop_pipe p write)
]

-- `for i in 0..n { dst[i] = p.buf[(p.head + i) % PIPE_CAP] }`, with `n` rounds to go.
unfoldable pub copy_out : Bytes → ℕ → ℕ → ℕ → Bytes
copy_out buf head i zero = []
copy_out buf head i (suc n) = get_or buf ((head + i) % pipe_cap) 0 ∷ copy_out buf head (i + 1) n

unfoldable pub read_pipe : Pipe → ℕ → Pipe × Read × Bytes
read_pipe p room =
    let n = min room p.len in
    if not p.used
    then (p, eof, [])
    else if p.len == 0
    then (p, (if p.n_writers == 0 then eof else would_block), [])
    else (
      record p { head = (p.head + n) % pipe_cap; len = p.len - n },
      bytes n,
      copy_out p.buf p.head 0 n,
    )

unfoldable pub read : Pipes → ℕ → ℕ → Pipes × Read × Bytes
read pipes id room = if room == 0 then (pipes, bytes 0, []) else (elim (get_elem? pipes id) [
  | none ↦ (pipes, eof, [])
  | some p ↦ let (q, r, out) = read_pipe p room in (set pipes id q, r, out)
])

-- `for i in 0..n { p.buf[(tail + i) % PIPE_CAP] = src[i] }`, with `src[i..]` and `n` rounds to go.
unfoldable pub copy_in : Bytes → ℕ → ℕ → Bytes → ℕ → Bytes
copy_in buf tail i src zero = buf
copy_in buf tail i [] (suc n) = buf
copy_in buf tail i (x ∷ src) (suc n) =
    copy_in (set buf ((tail + i) % pipe_cap) x) tail (i + 1) src n

unfoldable pub write_pipe : Pipe → Bytes → Pipe × Write
write_pipe p src =
    let n = min (length src) (pipe_cap - p.len) in
    let tail = (p.head + p.len) % pipe_cap in
    if not p.used
    then (p, broken)
    else if p.n_readers == 0
    then (p, broken)
    else if p.len == pipe_cap
    then (p, full)
    else (record p { buf = copy_in p.buf tail 0 src n; len = p.len + n }, taken n)

unfoldable pub write : Pipes → ℕ → Bytes → Pipes × Write
write pipes id src = if length src == 0 then (pipes, taken 0) else (elim (get_elem? pipes id) [
  | none ↦ (pipes, broken)
  | some p ↦ let (q, r) = write_pipe p src in (set pipes id q, r)
])

-- A call of the module, and what its caller sees of it.
pub data Op : Type 0 where
  allocs : Op
  clones : ℕ → Bool → Op
  drops : ℕ → Bool → Op
  reads : ℕ → ℕ → Op
  writes : ℕ → Bytes → Op

pub data Reply : Type 0 where
  made : Option ℕ → Reply
  cloned : Bool → Reply
  dropped : Reply
  got : Read → Bytes → Reply
  put : Write → Reply

unfoldable pub step : Pipes → Op → Pipes × Reply
step pipes allocs = let (q, r) = alloc pipes in (q, made r)
step pipes (clones id w) = let (q, r) = clone_end pipes id w in (q, cloned r)
step pipes (drops id w) = (drop_end pipes id w, dropped)
step pipes (reads id n) = let (q, r, out) = read pipes id n in (q, got r out)
step pipes (writes id src) = let (q, r) = write pipes id src in (q, put r)

unfoldable pub run : Pipes → List Op → List Reply
run pipes [] = []
run pipes (op ∷ ops) = let (q, r) = step pipes op in r ∷ run q ops
