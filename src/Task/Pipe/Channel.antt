-- ===== src/Task/Pipe/Channel.antt =====
-- What a pipe promises: a queue of bytes of bounded length with a count of readers and writers.
-- The table is a list of channels, `none` where no pipe is open.
use coeleo_os.Base.{
  ℕ, ◌+◌, ◌-◌, List, [], ◌∷◌, ◌++◌, Bool, true, false, ◌&&◌, Option, none, some, min, length,
  get_elem?, set, take, drop, ◌==◌, if◌then◌else◌,
}
use coeleo_os.Base.Bytes.{Bytes}
use coeleo_os.Task.Pipe.{
  pipe_cap, Read, bytes, eof, would_block, Write, taken, full, broken, Op, allocs, clones, drops,
  reads, writes, Reply, made, cloned, dropped, got, put, checked_inc,
}

pub record Channel : Type 0 where
  pub queue : Bytes
  pub readers : ℕ
  pub writers : ℕ

abbrev pub Slot : Type 0
Slot = Option Channel

abbrev pub Slots : Type 0
Slots = List Slot

abbrev pub fresh : Channel
fresh = record { queue = []; readers = 1; writers = 1 }

unfoldable pub alloc_from : ℕ → Slots → Slots × Option ℕ
alloc_from i [] = ([], none)
alloc_from i (none ∷ cs) = (some fresh ∷ cs, some i)
alloc_from i (some c ∷ cs) = let (rest, id) = alloc_from (i + 1) cs in (some c ∷ rest, id)

unfoldable pub clone_slot : Slot → Bool → Option Slot
clone_slot none w = none
clone_slot (some c) true = elim (checked_inc c.writers) [
  | none ↦ none
  | some n ↦ some (some (record c { writers = n }))
]
clone_slot (some c) false = elim (checked_inc c.readers) [
  | none ↦ none
  | some n ↦ some (some (record c { readers = n }))
]

-- A channel without readers and writers closes.
abbrev pub close_if_unused : Channel → Slot
close_if_unused c = if (c.readers == 0) && (c.writers == 0) then none else some c

unfoldable pub drop_slot : Slot → Bool → Slot
drop_slot none w = none
drop_slot (some c) true = close_if_unused (record c { writers = c.writers - 1 })
drop_slot (some c) false = close_if_unused (record c { readers = c.readers - 1 })

-- A reader of an empty queue waits while a writer is left. Otherwise it gets the oldest bytes.
unfoldable pub read_slot : Slot → ℕ → Slot × Read × Bytes
read_slot none room = (none, eof, [])
read_slot (some c) room =
    if length c.queue == 0 then (some c, (if c.writers == 0 then eof else would_block), []) else (
      some (record c { queue = drop room c.queue }),
      bytes (min room (length c.queue)),
      take room c.queue,
    )

-- A writer without readers fails. Otherwise as many bytes as fit go to the end of the queue.
unfoldable pub write_slot : Slot → Bytes → Slot × Write
write_slot none src = (none, broken)
write_slot (some c) src =
    let space = pipe_cap - length c.queue in
    if c.readers == 0
    then (some c, broken)
    else if length c.queue == pipe_cap
    then (some c, full)
    else (some (record c { queue = c.queue ++ take space src }), taken (min (length src) space))

unfoldable pub step : Slots → Op → Slots × Reply
step cs allocs = let (ds, r) = alloc_from 0 cs in (ds, made r)
step cs (clones id w) = elim (get_elem? cs id) [
  | none ↦ (cs, cloned false)
  | some c ↦ elim (clone_slot c w) [
    | none ↦ (cs, cloned false)
    | some d ↦ (set cs id d, cloned true)
  ]
]
step cs (drops id w) = elim (get_elem? cs id) [
  | none ↦ (cs, dropped)
  | some c ↦ (set cs id (drop_slot c w), dropped)
]
step cs (reads id n) = if n == 0 then (cs, got (bytes 0) []) else (elim (get_elem? cs id) [
  | none ↦ (cs, got eof [])
  | some c ↦ let (d, r, out) = read_slot c n in (set cs id d, got r out)
])
step cs (writes id src) = if length src == 0 then (cs, put (taken 0)) else (elim (get_elem? cs id) [
  | none ↦ (cs, put broken)
  | some c ↦ let (d, r) = write_slot c src in (set cs id d, put r)
])

unfoldable pub run : Slots → List Op → List Reply
run cs [] = []
run cs (op ∷ ops) = let (ds, r) = step cs op in r ∷ run ds ops
