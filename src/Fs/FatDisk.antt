-- ===== src/Fs/FatDisk.antt =====
-- kernel/src/fs/fat_disk.rs: the bytes of a partition, on a disk that is read and written in whole
-- sectors, with the last sector kept.
pub mod Read
pub mod Write
pub mod Seek
mod Tests
use coeleo_os.Base.{
  ℕ, zero, suc, ◌+◌, ◌-◌, ◌/◌, ◌%◌, ◌^◌, min, [], ◌++◌, Bool, true, false, ◌&&◌, ◌||◌, Option, none,
  some, length, take, drop, replicate, leb, ltb, ◌==◌, if◌then◌else◌,
}
use coeleo_os.Base.Bytes.{Bytes}
use coeleo_os.Base.Slices.{slice}
use coeleo_os.Fs.Disk
use coeleo_os.Fs.Disk.{Disk, sector_size}
use coeleo_os.Fs.Gpt.{put}

-- The disk itself, which other volumes share, is passed along.
pub record FatDisk : Type 0 where
  pub pos : ℕ
  pub start_lba : ℕ
  pub size : ℕ
  pub bounce : Bytes
  pub cached_lba : Option ℕ

unfoldable pub volume : ℕ → ℕ → FatDisk
volume start_lba size = record {
  pos = 0;
  start_lba = start_lba;
  size = size;
  bounce = replicate sector_size 0;
  cached_lba = none;
}

abbrev pub is_some : Option ℕ → ℕ → Bool
is_some none lba = false
is_some (some k) lba = k == lba

-- `read_blocks_at` into `bounce`.
abbrev pub keep : FatDisk → ℕ → Option Bytes → Option FatDisk
keep f lba none = none
keep f lba (some bs) = some (record f { bounce = bs; cached_lba = some lba })

abbrev pub load : Disk → FatDisk → ℕ → Option FatDisk
load d f lba = keep f lba (Disk.read d (f.start_lba + lba))

abbrev pub cached : Disk → FatDisk → ℕ → Option FatDisk
cached d f lba = if is_some f.cached_lba lba then some f else load d f lba

abbrev pub lba_of : FatDisk → ℕ
lba_of f = f.pos / sector_size

abbrev pub off_of : FatDisk → ℕ
off_of f = f.pos % sector_size

-- The bytes that one round moves, of `left` that are asked for.
abbrev pub chunk : FatDisk → ℕ → ℕ
chunk f left = min (min (sector_size - off_of f) left) (f.size - f.pos)

abbrev pub at_end : FatDisk → ℕ → Bool
at_end f left = (left == 0) || leb f.size f.pos

abbrev pub read_chunk : FatDisk → ℕ → FatDisk × Bytes
read_chunk f n = (record f { pos = f.pos + n }, slice (off_of f) (off_of f + n) f.bounce)

abbrev pub read_from : ℕ → Option FatDisk → Option (FatDisk × Bytes)
read_from n none = none
read_from n (some g) = some (read_chunk g n)

abbrev pub read_round : Disk → FatDisk → ℕ → Option (FatDisk × Bytes)
read_round d f left = read_from (chunk f left) (cached d f (lba_of f))

abbrev pub prepend : Bytes → FatDisk × Option Bytes → FatDisk × Option Bytes
prepend bs (f, none) = (f, none)
prepend bs (f, some more) = (f, some (bs ++ more))

-- The loop of `read`, with at most `rounds` rounds, for the `left` bytes that are still wanted.
unfoldable pub read_loop : ℕ → Disk → FatDisk → ℕ → FatDisk × Option Bytes
read_loop zero d f left = (f, some [])
read_loop (suc rounds) d f left =
    if at_end f left then (f, some []) else (elim (read_round d f left) [
      | none ↦ (f, none)
      | some r ↦ prepend r.1 (read_loop rounds d r.0 (left - length r.1))
    ])

-- What is put into a buffer of `len` bytes, or `none` for an error. Each round moves a byte or more.
unfoldable pub read : Disk → FatDisk → ℕ → FatDisk × Option Bytes
read d f len = read_loop len d f len

abbrev pub fill_in : FatDisk → Bytes → Option Bytes → Option FatDisk
fill_in f bs none = none
fill_in f bs (some sector) = some (record f { bounce = put (off_of f) bs sector })

abbrev pub fill_part : Disk → FatDisk → ℕ → Bytes → Option FatDisk
fill_part d f lba bs =
    if is_some f.cached_lba lba
    then fill_in f bs (some f.bounce)
    else fill_in f bs (Disk.read d (f.start_lba + lba))

-- `bounce` before it is written: the new bytes alone if they fill it, else among the old ones. The
-- source does not touch `cached_lba` here.
abbrev pub fill : Disk → FatDisk → ℕ → Bytes → Option FatDisk
fill d f lba bs =
    if (off_of f == 0) && (length bs == sector_size)
    then some (record f { bounce = bs })
    else fill_part d f lba bs

abbrev pub written : FatDisk → ℕ → ℕ → FatDisk
written f lba n = record f { cached_lba = some lba; pos = f.pos + n }

-- One round of `write`; what is left of `bounce` after a failure is part of the result.
abbrev pub store : Disk → FatDisk → ℕ → ℕ → Option Disk → Disk × FatDisk × Bool
store d f lba n none = (d, f, false)
store d f lba n (some e) = (e, written f lba n, true)

abbrev pub write_filled : Disk → FatDisk → ℕ → Option FatDisk → Disk × FatDisk × Bool
write_filled d f n none = (d, f, false)
write_filled d f n (some g) =
    store d g (lba_of f) n (Disk.write d (g.start_lba + lba_of f) g.bounce)

abbrev pub write_round : Disk → FatDisk → Bytes → Disk × FatDisk × Bool
write_round d f bs = write_filled d f (length bs) (fill d f (lba_of f) bs)

abbrev pub count : ℕ → Option ℕ → Option ℕ
count n none = none
count n (some m) = some (n + m)

abbrev pub count_on : ℕ → Disk × FatDisk × Option ℕ → Disk × FatDisk × Option ℕ
count_on n (d, f, m) = (d, f, count n m)

-- The loop of `write`, with at most `rounds` rounds, for the bytes that are left.
unfoldable pub write_loop : ℕ → Disk → FatDisk → Bytes → Disk × FatDisk × Option ℕ
write_loop zero d f buf = (d, f, some 0)
write_loop (suc rounds) d f buf =
    if at_end f (length buf)
    then (d, f, some 0)
    else (let n = chunk f (length buf) in
        let r = write_round d f (take n buf) in
        elim r.2 [
          | false ↦ (r.0, r.1, none)
          | true ↦ count_on n (write_loop rounds r.0 r.1 (drop n buf))
        ])

-- How many bytes are written, or `none` for an error. Each round moves a byte or more.
unfoldable pub write : Disk → FatDisk → Bytes → Disk × FatDisk × Option ℕ
write d f buf = write_loop (length buf) d f buf

-- Signed 64-bit offsets.
pub data ℤ : Type 0 where
  pos : ℕ → ℤ
  negsuc : ℕ → ℤ

pub data SeekFrom : Type 0 where
  start : ℕ → SeekFrom
  current : ℤ → SeekFrom
  end : ℤ → SeekFrom

-- `base + off` in 128 bits, an error below 0, then cut to 64 bits.
abbrev pub offset : ℕ → ℤ → Option ℕ
offset base (pos n) = some ((base + n) % 2 ^ 64)
offset base (negsuc n) = if ltb n base then some (base - (n + 1)) else none

abbrev pub target : FatDisk → SeekFrom → Option ℕ
target f (start n) = some n
target f (current off) = offset f.pos off
target f (end off) = offset f.size off

abbrev pub seek_to : FatDisk → Option ℕ → FatDisk × Option ℕ
seek_to f none = (f, none)
seek_to f (some new) = (record f { pos = min new f.size }, some (min new f.size))

unfoldable pub seek : FatDisk → SeekFrom → FatDisk × Option ℕ
seek f from = seek_to f (target f from)
