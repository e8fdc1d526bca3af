-- ===== src/Task/Pipe/Refine.antt =====
-- The table of rings of pipe.rs behaves as the table of channels: the same replies to every
-- sequence of calls.
use mathlib.Core.Option
use coeleo_os.Base.{
  ℕ, zero, suc, ◌+◌, ◌-◌, ◌%◌, ◌≡◌, refl, sym, ap, ◌∙◌, List, [], ◌∷◌, ◌++◌, Bool, true, false,
  none, some, arith, length, get_elem?, take, drop, map, min, Option-cases, inl, inr,
  get_elem?-map-none, get_elem?-map-some, map-set, Bool-cases, if◌then◌else◌, All-get_elem?,
  take-min,
}
use coeleo_os.Base.Bytes.{Bytes}
use coeleo_os.Task.Pipe.{
  Pipe, Pipes, pipe_cap, initial, alloc_from, alloc, clone_pipe, clone_end, drop_pipe, drop_end,
  read_pipe, read, write_pipe, write, copy_in, copy_out, Op, allocs, clones, drops, reads, writes,
  step, run,
}
use coeleo_os.Task.Pipe.Channel
use coeleo_os.Task.Pipe.Channel.{Channel, Slot, Slots}
use coeleo_os.Task.Pipe.Inv.{IsValid, AllValid, step-AllValid, initial-AllValid}
use coeleo_os.Task.Pipe.Window.{
  window, length-window, window-mod, copy_out-window, take-window, drop-window, window-copy_in,
}

-- The bytes in the ring, oldest first.
abbrev pub contents : Pipe → Bytes
contents p = window p.buf p.head p.len

abbrev pub channel : Pipe → Channel
channel p = record { queue = contents p; readers = p.n_readers; writers = p.n_writers }

abbrev pub view : Pipe → Slot
view p = if p.used then some (channel p) else none

abbrev pub view_all : Pipes → Slots
view_all = map view

alloc_from-view :
    (i : ℕ) (ps : Pipes)
    → Channel.alloc_from i (view_all ps) ≡ (view_all (alloc_from i ps).0, (alloc_from i ps).1)
unfolding alloc_from Channel.alloc_from window
alloc_from-view i [] = refl
alloc_from-view i (p ∷ ps) = elim (Bool-cases p.used) [
  | inl u ↦ simp (u, alloc_from-view (i + 1) ps)
  | inr u ↦ simp u
]

clone_pipe-view :
    (p : Pipe) (w : Bool) → Channel.clone_slot (view p) w ≡ Option.map view (clone_pipe p w)
unfolding clone_pipe Channel.clone_slot
clone_pipe-view p true = ground arith
clone_pipe-view p false = ground arith

drop_pipe-view : (p : Pipe) (w : Bool) → Channel.drop_slot (view p) w ≡ view (drop_pipe p w)
unfolding drop_pipe Channel.drop_slot
drop_pipe-view p true = ground arith
drop_pipe-view p false = ground arith

read_pipe-view :
    (p : Pipe) (room : ℕ)
    → IsValid p
    → let (q, r, out) = read_pipe p room in Channel.read_slot (view p) room ≡ (view q, r, out)
unfolding read_pipe Channel.read_slot
read_pipe-view p room v = ground (arith, length-window p.buf p.head p.len, taken_bytes, left_bytes)
  where
    n : ℕ
    n = min room p.len

    taken_bytes : take room (contents p) ≡ copy_out p.buf p.head 0 n
    taken_bytes =
        take-window p.buf p.head room p.len
        ∙ ap (λ h. window p.buf h n) (omega arith)
        ∙ sym (copy_out-window p.buf p.head 0 n)

    left_bytes : drop room (contents p) ≡ window p.buf ((p.head + n) % pipe_cap) (p.len - n)
    left_bytes =
        drop-window p.buf p.head room p.len ∙ sym (window-mod p.buf (p.head + n) (p.len - n))

write_pipe-view :
    (p : Pipe) (src : Bytes)
    → IsValid p
    → let (q, r) = write_pipe p src in Channel.write_slot (view p) src ≡ (view q, r)
unfolding write_pipe Channel.write_slot
write_pipe-view p src v = ground (arith, length-window p.buf p.head p.len, appended)
  where
    n : ℕ
    n = min (length src) (pipe_cap - p.len)

    tail : ℕ
    tail = (p.head + p.len) % pipe_cap

    appended :
        window (copy_in p.buf tail 0 src n) p.head (p.len + n)
        ≡ contents p ++ take (pipe_cap - p.len) src
    appended =
        window-copy_in p.buf tail 0 src n p.head p.len v.size (omega arith)
          (omega (arith, v.len_in)) (omega arith)
        ∙ ap (λ t. contents p ++ t) (take-min src (pipe_cap - p.len))

module _ (ps : Pipes) (id : ℕ) (h : AllValid ps) where
  clone_end-view :
      (w : Bool)
      → Channel.step (view_all ps) (clones id w)
        ≡ (view_all (step ps (clones id w)).0, (step ps (clones id w)).1)
  unfolding step Channel.step clone_end
  clone_end-view w = elim (Option-cases (get_elem? ps id)) [
    | inl e ↦ ground (arith, e, get_elem?-map-none view ps id e)
    | inr (p, e) ↦ elim (Option-cases (clone_pipe p w)) [
      | inl f ↦ ground (arith, e, get_elem?-map-some view ps id e, clone_pipe-view p w, f)
      | inr (q, f) ↦
          ground (
            arith,
            e,
            get_elem?-map-some view ps id e,
            clone_pipe-view p w,
            f,
            map-set view ps id q,
          )
    ]
  ]

  drop_end-view :
      (w : Bool)
      → Channel.step (view_all ps) (drops id w)
        ≡ (view_all (step ps (drops id w)).0, (step ps (drops id w)).1)
  unfolding step Channel.step drop_end
  drop_end-view w = elim (Option-cases (get_elem? ps id)) [
    | inl e ↦ ground (arith, e, get_elem?-map-none view ps id e)
    | inr (p, e) ↦ ground (
      arith,
      e,
      get_elem?-map-some view ps id e,
      drop_pipe-view p w,
      map-set view ps id (drop_pipe p w),
    )
  ]

  read-view :
      (n : ℕ)
      → Channel.step (view_all ps) (reads id n)
        ≡ (view_all (step ps (reads id n)).0, (step ps (reads id n)).1)
  unfolding step Channel.step read
  read-view zero = refl
  read-view (suc n) = elim (Option-cases (get_elem? ps id)) [
    | inl e ↦ ground (arith, e, get_elem?-map-none view ps id e)
    | inr (p, e) ↦ ground (
      arith,
      e,
      get_elem?-map-some view ps id e,
      read_pipe-view p (suc n) (All-get_elem? IsValid ps id h e),
      map-set view ps id (read_pipe p (suc n)).0,
    )
  ]

  write-view :
      (src : Bytes)
      → Channel.step (view_all ps) (writes id src)
        ≡ (view_all (step ps (writes id src)).0, (step ps (writes id src)).1)
  unfolding step Channel.step write
  write-view [] = refl
  write-view (x ∷ src) = elim (Option-cases (get_elem? ps id)) [
    | inl e ↦ ground (arith, e, get_elem?-map-none view ps id e)
    | inr (p, e) ↦ ground (
      arith,
      e,
      get_elem?-map-some view ps id e,
      write_pipe-view p (x ∷ src) (All-get_elem? IsValid ps id h e),
      map-set view ps id (write_pipe p (x ∷ src)).0,
    )
  ]

-- One call of the module on valid rings is the call on the channels that they hold: the same
-- reply, and rings that hold the new channels.
pub step_refines :
    (ps : Pipes) (op : Op)
    → AllValid ps
    → Channel.step (view_all ps) op ≡ (view_all (step ps op).0, (step ps op).1)
unfolding step Channel.step alloc
step_refines ps allocs h = ground (arith, alloc_from-view 0 ps)
step_refines ps (clones id w) h = clone_end-view ps id h w
step_refines ps (drops id w) h = drop_end-view ps id h w
step_refines ps (reads id n) h = read-view ps id h n
step_refines ps (writes id src) h = write-view ps id h src

run_refines_from :
    (ps : Pipes) (ops : List Op) → AllValid ps → run ps ops ≡ Channel.run (view_all ps) ops
unfolding run Channel.run
run_refines_from ps [] h = refl
run_refines_from ps (op ∷ ops) h =
    rw (step_refines ps op h, run_refines_from (step ps op).0 ops (step-AllValid ps op h))

-- From boot on, no sequence of calls tells the four rings from four closed channels.
pub run_refines :
    (ops : List Op) → run initial ops ≡ Channel.run (none ∷ none ∷ none ∷ none ∷ []) ops
unfolding initial
run_refines ops = run_refines_from initial ops initial-AllValid
