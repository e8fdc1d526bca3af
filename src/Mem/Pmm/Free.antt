-- ===== src/Mem/Pmm/Free.antt =====
-- `free_contiguous` and `free` of pmm.rs.
use coeleo_os.Base.{
  ℕ, zero, suc, ◌+◌, ◌*◌, ◌/◌, ◌%◌, ◌<◌, ◌≡◌, refl, false, arith, if◌then◌else◌, suc-==-zero,
}
use coeleo_os.Base.Bytes.{Bytes, u64_mod}
use coeleo_os.Mem.Pmm.{
  Pmm, frame_size, max_frames, is_used, mark_free, free_range, free_frames, free_contiguous,
}
use coeleo_os.Mem.Pmm.Bitmap.{free_below, free_below-le}
use coeleo_os.Mem.Pmm.Inv.{IsValid, in_run, Freed, free_range-Freed}

-- The loops of `init` and of `free_contiguous` are the same.
free_frames-eq-free_range :
    (n f : ℕ) (bitmap : Bytes) (freed : ℕ)
    → free_frames n f bitmap freed ≡ free_range n f bitmap freed
unfolding free_frames free_range
free_frames-eq-free_range zero f bitmap freed = refl
free_frames-eq-free_range (suc n) f bitmap freed = rw (
  free_frames-eq-free_range n (f + 1) (mark_free bitmap f) (freed + 1),
  free_frames-eq-free_range n (f + 1) bitmap freed,
)

pub max_frames-small : max_frames < u64_mod
unfolding max_frames
max_frames-small = omega arith

-- After `free_contiguous` the run is free and every other frame is as it was, `FREE` counts the
-- free frames still, and the total of usable frames is unchanged.
pub free_contiguous_lem :
    {p : Pmm} (s n : ℕ)
    → IsValid p
    → let q = free_contiguous p (s * frame_size) n in
      IsValid q
      × ((g : ℕ)
          → g < max_frames
          → is_used q.bitmap g ≡ (if in_run s n g then false else is_used p.bitmap g))
      × (q.usable_total ≡ p.usable_total)
unfolding free_contiguous
free_contiguous_lem {p} s zero v = (v, (λ g h. ground arith), refl)
free_contiguous_lem {p} s (suc n) v =
    rw (suc-==-zero, start, free_frames-eq-free_range (suc n) s p.bitmap 0)
      (record { array = r.array; counted = count }, r.used, refl)
  where
    start : s * 4096 / 4096 ≡ s
    start = omega arith

    r : Freed (suc n) s p.bitmap 0 (free_range (suc n) s p.bitmap 0)
    r = free_range-Freed (suc n) s 0 v.array

    out : Bytes × ℕ
    out = free_range (suc n) s p.bitmap 0

    count : (p.free_count + out.1) % u64_mod ≡ free_below out.0 max_frames
    count = omega (arith, r.counted, v.counted, free_below-le out.0 max_frames, max_frames-small)
