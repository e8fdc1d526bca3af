-- ===== src/Mem/Pmm.antt =====
-- kernel/src/mem/pmm.rs: the bitmap of physical frames, a set bit for a frame in use.
-- The two atomics and the mutex around the bitmap are one state; a call holds it throughout.
pub mod Bitmap
pub mod Inv
pub mod Init
pub mod Alloc
pub mod Free
mod Tests
use coeleo_os.Base.{
  ℕ, zero, suc, ◌+◌, ◌-◌, ◌*◌, ◌/◌, ◌%◌, ◌^◌, List, [], ◌∷◌, Bool, true, false, not, ◌&&◌, ◌||◌,
  Option, none, some, get_or, set, replicate, leb, ltb, ◌==◌, if◌then◌else◌,
}
use coeleo_os.Base.Bits.{has_bit, with_bit, without_bit}
use coeleo_os.Base.Bytes.{Bytes, u64_mod}

abbrev pub frame_size : ℕ
frame_size = 4096

unfoldable pub max_frames : ℕ
max_frames = 1048576

unfoldable pub bitmap_bytes : ℕ
unfolding max_frames
bitmap_bytes = max_frames / 8

-- `BITMAP`, `USABLE_TOTAL` and `FREE`.
pub record Pmm : Type 0 where
  pub bitmap : Bytes
  pub usable_total : ℕ
  pub free_count : ℕ

pub record Stats : Type 0 where
  pub free : ℕ
  pub total : ℕ

-- `bit`: the byte of a frame and its position in it.
abbrev pub bit : ℕ → ℕ × ℕ
bit frame = (frame / 8, frame % 8)

unfoldable pub is_used : Bytes → ℕ → Bool
is_used bitmap frame = let (byte, pos) = bit frame in has_bit (get_or bitmap byte 0) pos

unfoldable pub mark_used : Bytes → ℕ → Bytes
mark_used bitmap frame =
    let (byte, pos) = bit frame in set bitmap byte (with_bit (get_or bitmap byte 0) pos)

unfoldable pub mark_free : Bytes → ℕ → Bytes
mark_free bitmap frame =
    let (byte, pos) = bit frame in set bitmap byte (without_bit (get_or bitmap byte 0) pos)

-- An entry of the boot loader's memory map; `usable` is `entry_type == EntryType::USABLE`.
pub record Entry : Type 0 where
  pub base : ℕ
  pub size : ℕ
  pub usable : Bool

-- `for frame in start..end` of `init`, with `left` frames to go and `usable` counted so far.
unfoldable pub free_range : ℕ → ℕ → Bytes → ℕ → Bytes × ℕ
free_range zero frame bitmap usable = (bitmap, usable)
free_range (suc left) frame bitmap usable =
    let rest = free_range left (frame + 1) (mark_free bitmap frame) (usable + 1) in
    let skip = free_range left (frame + 1) bitmap usable in
    if leb max_frames frame then (bitmap, usable) else if is_used bitmap frame then rest else skip

abbrev pub first_frame : Entry → ℕ
first_frame e = (e.base + frame_size - 1) % u64_mod / frame_size

abbrev pub end_frame : Entry → ℕ
end_frame e = (e.base + e.size) % u64_mod / frame_size

unfoldable pub free_entries : List Entry → Bytes → ℕ → Bytes × ℕ
free_entries [] bitmap usable = (bitmap, usable)
free_entries (e ∷ es) bitmap usable =
    let (bitmap', usable') =
      if e.usable
      then free_range (end_frame e - first_frame e) (first_frame e) bitmap usable
      else (bitmap, usable) in
    free_entries es bitmap' usable'

unfoldable pub init : List Entry → Pmm
init entries =
    let (bitmap, usable) = free_entries entries (replicate bitmap_bytes 255) 0 in
    record { bitmap = bitmap; usable_total = usable; free_count = usable }

-- `for f in run_start..run_start + n { mark_used(f) }`.
unfoldable pub mark_used_range : ℕ → ℕ → Bytes → Bytes
mark_used_range zero f bitmap = bitmap
mark_used_range (suc n) f bitmap = mark_used_range n (f + 1) (mark_used bitmap f)

-- The scan of `alloc_contiguous`, with `left` frames to go from `frame` on: the start of the run.
unfoldable pub scan : ℕ → Bytes → ℕ → ℕ → ℕ → ℕ → Option ℕ
scan zero bitmap n frame run run_start = none
scan (suc left) bitmap n frame run run_start =
    let start = if run == 0 then frame else run_start in
    let next = scan left bitmap n (frame + 1) (run + 1) start in
    let again = scan left bitmap n (frame + 1) 0 run_start in
    if is_used bitmap frame then again else if run + 1 == n then some start else next

-- A `PhysFrame` is its start address. `fetch_sub` wraps.
abbrev pub take_run : Pmm → ℕ → Option ℕ → Pmm × Option ℕ
take_run p n none = (p, none)
take_run p n (some start) = (
  record p {
    bitmap = mark_used_range n start p.bitmap;
    free_count = (p.free_count + u64_mod - n) % u64_mod;
  },
  some (start * frame_size),
)

unfoldable pub alloc_contiguous : Pmm → ℕ → Pmm × Option ℕ
alloc_contiguous p n = if n == 0 then (p, none) else take_run p n (scan max_frames p.bitmap n 0 0 0)

unfoldable pub alloc : Pmm → Pmm × Option ℕ
alloc p = alloc_contiguous p 1

-- `for i in 0..n` of `free_contiguous`, from frame `f` on.
unfoldable pub free_frames : ℕ → ℕ → Bytes → ℕ → Bytes × ℕ
free_frames zero f bitmap freed = (bitmap, freed)
free_frames (suc n) f bitmap freed =
    let rest = free_frames n (f + 1) (mark_free bitmap f) (freed + 1) in
    let skip = free_frames n (f + 1) bitmap freed in
    if leb max_frames f then (bitmap, freed) else if is_used bitmap f then rest else skip

unfoldable pub free_contiguous : Pmm → ℕ → ℕ → Pmm
free_contiguous p start n =
    if n == 0
    then p
    else let (bitmap, freed) = free_frames n (start / frame_size) p.bitmap 0 in
      record p { bitmap = bitmap; free_count = (p.free_count + freed) % u64_mod }

unfoldable pub free : Pmm → ℕ → Pmm
free p frame = free_contiguous p frame 1

pub stats : Pmm → Stats
stats p = record { free = p.free_count; total = p.usable_total }
