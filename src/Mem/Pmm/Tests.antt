-- ===== src/Mem/Pmm/Tests.antt =====
-- Runs of pmm.rs, and its theorems at concrete inputs.
use coeleo_os.Base.{
  ℕ, ◌+◌, ◌*◌, ◌≤◌, ◌<◌, ◌≡◌, ◌∙◌, refl, true, false, not, List, [], ◌∷◌, some, arith,
  if◌then◌else◌,
}
use coeleo_os.Mem.Pmm.{
  Pmm, Entry, frame_size, max_frames, is_used, init, alloc_contiguous, free_contiguous, scan,
  free_entries, free_range, mark_used, mark_free, mark_used_range, bitmap_bytes,
}
use coeleo_os.Base.Bits.{has_bit, with_bit, without_bit}
use coeleo_os.Mem.Pmm.Inv.{IsValid, in_run}
use coeleo_os.Mem.Pmm.Init.{covered, init_lem}
use coeleo_os.Mem.Pmm.Alloc.{
  Granted, alloc_contiguous-Granted, alloc_contiguous_first_fit, free_contiguous-alloc_contiguous,
}
use coeleo_os.Mem.Pmm.Free.{free_contiguous_lem}

-- 32 KiB of RAM from the second frame on, and a reserved range.
abbrev memory_map : List Entry
memory_map =
    record { base = 0x1000; size = 0x8000; usable = true }
    ∷ record { base = 0x10000; size = 0x8000; usable = false }
    ∷ []

booted : Pmm
booted = init memory_map

booted-IsValid : IsValid booted
unfolding booted
booted-IsValid = (init_lem memory_map (omega arith)).0

granted : Pmm
granted = (alloc_contiguous booted 3).0

alloc_three : alloc_contiguous booted 3 ≡ (granted, some 0x1000)
unfolding granted alloc_contiguous scan booted init free_entries free_range is_used mark_used
    mark_free has_bit with_bit without_bit mark_used_range max_frames bitmap_bytes
alloc_three = refl

init_lem_example :
    IsValid (init memory_map)
    × ((g : ℕ) → g < max_frames → is_used (init memory_map).bitmap g ≡ not (covered memory_map g))
    × ((init memory_map).usable_total ≡ (init memory_map).free_count)
init_lem_example = init_lem memory_map (omega arith)

covered_frames :
    (covered memory_map 0 ≡ false) × (covered memory_map 8 ≡ true) × (covered memory_map 9 ≡ false)
unfolding covered
covered_frames = (refl, refl, refl)

alloc_contiguous-Granted_example : Granted booted 3 granted 0x1000
alloc_contiguous-Granted_example = alloc_contiguous-Granted 3 booted-IsValid alloc_three

granted-IsValid : IsValid granted
granted-IsValid = (alloc_contiguous-Granted 3 booted-IsValid alloc_three).valid

free_contiguous-alloc_contiguous_example :
    let r = free_contiguous granted 0x1000 3 in
    ((g : ℕ) → g < max_frames → is_used r.bitmap g ≡ is_used booted.bitmap g)
    × (r.free_count ≡ booted.free_count)
    × (r.usable_total ≡ booted.usable_total)
free_contiguous-alloc_contiguous_example =
    free_contiguous-alloc_contiguous 3 booted-IsValid alloc_three

free_contiguous_lem_example :
    let q = free_contiguous granted (2 * frame_size) 1 in
    IsValid q
    × ((g : ℕ)
        → g < max_frames
        → is_used q.bitmap g ≡ (if in_run 2 1 g then false else is_used granted.bitmap g))
    × (q.usable_total ≡ granted.usable_total)
free_contiguous_lem_example = free_contiguous_lem 2 1 granted-IsValid

frame_four_free : (g : ℕ) → 4 ≤ g → g < 4 + 5 → is_used booted.bitmap g ≡ false
unfolding booted covered max_frames
frame_four_free g a b = (init_lem memory_map (omega arith)).1 g (inside g b) ∙ ground arith
  where
    inside : (g : ℕ) → g < 9 → g < 1048576
    inside g b = omega arith

alloc_contiguous_first_fit_example :
    (t : ℕ) × ((alloc_contiguous booted 5).1 ≡ some (t * frame_size)) × (t ≤ 4)
unfolding max_frames
alloc_contiguous_first_fit_example =
    alloc_contiguous_first_fit booted 5 4 (omega arith) (omega arith) frame_four_free
