-- ===== src/Fs/Disk.antt =====
-- What kernel/src/fs/blk.rs promises of a disk that works: a number of sectors, each of which is
-- read and written alone; a call past the last sector fails. The drivers are left out.
use coeleo_os.Base.{ℕ, ◌<◌, ◌≡◌, refl, Option, none, some, ltb, lt→ltb, ◌==◌, if◌then◌else◌}
use coeleo_os.Base.Bytes.{Bytes}

pub record Disk : Type 0 where
  pub capacity : ℕ
  pub sector : ℕ → Bytes

abbrev pub sector_size : ℕ
sector_size = 512

-- `read_blocks_at`, for one sector.
unfoldable pub read : Disk → ℕ → Option Bytes
read d lba = if ltb lba d.capacity then some (d.sector lba) else none

abbrev pub put_sector : Disk → ℕ → Bytes → Disk
put_sector d lba bs = record d { sector = λ k. if k == lba then bs else d.sector k }

-- `write_blocks_at`, for one sector.
unfoldable pub write : Disk → ℕ → Bytes → Option Disk
write d lba bs = if ltb lba d.capacity then some (put_sector d lba bs) else none

pub read-some : (d : Disk) (lba : ℕ) → lba < d.capacity → read d lba ≡ some (d.sector lba)
unfolding read
read-some d lba h = rw (lt→ltb lba d.capacity h) refl

pub write-some :
    (d : Disk) (lba : ℕ) (bs : Bytes)
    → lba < d.capacity
    → write d lba bs ≡ some (put_sector d lba bs)
unfolding write
write-some d lba bs h = rw (lt→ltb lba d.capacity h) refl
