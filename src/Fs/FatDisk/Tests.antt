-- ===== src/Fs/FatDisk/Tests.antt =====
-- Runs on small disks, and the theorems at concrete inputs.
use coeleo_os.Base.{
  ℕ, ◌+◌, ◌≤◌, ◌≡◌, refl, arith, List, [], ◌∷◌, Option, some, none, replicate, length-replicate,
  length,
}
use coeleo_os.Base.Bytes.{Bytes}
use coeleo_os.Fs.Disk
use coeleo_os.Fs.Disk.{Disk, sector_size}
use coeleo_os.Fs.FatDisk.{
  FatDisk, volume, read, read_loop, write, write_loop, seek, negsuc, start, current, end,
}
use coeleo_os.Fs.FatDisk.Read.{Fits, ReadOk, read_lem}
use coeleo_os.Fs.FatDisk.Write.{WriteOk, write_lem}
use coeleo_os.Fs.FatDisk.Seek.{
  read-write, SeekOk, seek_lem, reads, writes, seeks, Op, run, InRange, Outside, run_lem,
}

-- Four sectors, each filled with its number, and a volume on the second and the third.
abbrev small : Disk
small = record { capacity = 4; sector = λ k. replicate sector_size k }

abbrev inner : FatDisk
inner = record (volume 1 1024) { pos = 510 }

inner-Fits : Fits small inner
unfolding volume
inner-Fits = record {
  sized = λ k. length-replicate {A = ℕ} sector_size k;
  inside = λ lba h. omega arith;
  kept = λ lba e. cc;
}

inner-InRange : InRange small inner
unfolding volume
inner-InRange = record { fits = inner-Fits; pos_in = omega arith }

-- A read across the border of two sectors.
across : (read small inner 4).1 ≡ some (1 ∷ 1 ∷ 2 ∷ 2 ∷ [])
unfolding read read_loop Disk.read volume
across = refl

read_lem_example : ReadOk small inner 4 (read small inner 4)
read_lem_example = read_lem small inner 4 inner-Fits

abbrev text : Bytes
text = 7 ∷ 8 ∷ 9 ∷ []

write_lem_example : WriteOk small inner text (write small inner text)
write_lem_example = write_lem small inner text inner-Fits

fits_text : inner.pos + length text ≤ inner.size
unfolding volume
fits_text = omega arith

read-write_example :
    (read
      (write small inner text).0
      (seek (write small inner text).1 (start inner.pos)).0
      (length text)).1
    ≡ some text
read-write_example = read-write small inner text inner-Fits fits_text

pos_in : inner.pos ≤ inner.size
unfolding volume
pos_in = omega arith

seek_lem_example :
    SeekOk inner inner.pos (negsuc 10) (seek inner (current (negsuc 10)))
    × SeekOk inner inner.size (negsuc 10) (seek inner (end (negsuc 10)))
unfolding volume
seek_lem_example = seek_lem inner (negsuc 10) pos_in (omega arith) (omega arith)

abbrev calls : List Op
calls = seeks (end (negsuc 1)) ∷ writes text ∷ seeks (start 0) ∷ reads 5 ∷ []

run_lem_example :
    InRange (run (small, inner) calls).0 (run (small, inner) calls).1
    × Outside (small, inner) (run (small, inner) calls)
run_lem_example = run_lem calls small inner inner-InRange

-- A volume that reaches past the end of the disk. A write that fails leaves its bytes in `bounce`
-- under the number of the sector that was kept before, and a later read of that sector gets them.
abbrev too_long : FatDisk
too_long = volume 0 4096

abbrev kept_first : FatDisk
kept_first = (read small too_long 1).0

abbrev failed : Disk × FatDisk × Option ℕ
failed = write small (seek kept_first (start 2048)).0 (replicate sector_size 9)

stale : (failed.2 ≡ none) × ((read failed.0 (seek failed.1 (start 0)).0 1).1 ≡ some (9 ∷ []))
unfolding read read_loop write write_loop Disk.read Disk.write volume seek
stale = (refl, refl)
