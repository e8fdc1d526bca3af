-- ===== src/Fs/Gpt/Written.antt =====
-- `write_esp` of gpt.rs succeeds on a disk of 64 MiB or more, and part.rs then finds its partition.
use coeleo_os.Base.{
  ℕ, ◌+◌, ◌-◌, ◌≤◌, ◌<◌, ◌≡◌, refl, ap, ◌∙◌, arith, [], ◌∷◌, Option, some, le→ltb_false,
}
use coeleo_os.Base.Bytes.{Bytes, u64_mod}
use coeleo_os.Fs.Disk.{Disk, write, put_sector, write-some}
use coeleo_os.Fs.Part.{volumes}
use coeleo_os.Fs.Gpt.{
  array_sectors, min_sectors, array_sector, write_array, write_all, write_esp, with_last,
  last_usable, fill_header, partition_entry, make_guid, array_crc32, protective_mbr, esp_start_lba,
  ◌>>=◌,
}
use coeleo_os.Fs.Gpt.Layout.{header, entry}
use coeleo_os.Fs.Gpt.Array.{filled, filled-capacity, write_array-filled, filled-below, filled-at}
use coeleo_os.Fs.Gpt.Volumes.{ent, partition, volumes-header}

module _ (ticks index : ℕ) (d : Disk) (room : 131072 ≤ d.capacity)
    (word : d.capacity < u64_mod) where
  last_lba : ℕ
  last_lba = d.capacity - 34

  part : Bytes
  part = partition_entry (make_guid ticks index 0xE5F) esp_start_lba last_lba

  last : ℕ
  last = d.capacity - 1

  primary : Bytes
  primary = fill_header 1 last 2 last_lba (make_guid ticks index 0xD15C) (array_crc32 part)

  backup : Bytes
  backup =
      fill_header last 1 (last - array_sectors) last_lba (make_guid ticks index 0xD15C)
        (array_crc32 part)

  -- The disk after each of the writes.
  with_mbr : Disk
  with_mbr = put_sector d 0 (protective_mbr d.capacity)

  with_primary : Disk
  with_primary = put_sector with_mbr 1 primary

  with_array : Disk
  with_array = filled 2 part array_sectors 0 with_primary

  with_copy : Disk
  with_copy = filled (last - array_sectors) part array_sectors 0 with_array

  done : Disk
  done = put_sector with_copy last backup

  array_capacity : with_array.capacity ≡ d.capacity
  unfolding with_array with_primary with_mbr
  array_capacity = filled-capacity 2 part array_sectors 0 with_primary

  copy_capacity : with_copy.capacity ≡ d.capacity
  unfolding with_copy
  copy_capacity =
      filled-capacity (last - array_sectors) part array_sectors 0 with_array ∙ array_capacity

  last_usable_lem : last_usable d.capacity ≡ some last_lba
  unfolding last_usable last_lba
  last_usable_lem =
      rw
        (
          le→ltb_false d.capacity min_sectors room,
          le→ltb_false (d.capacity - 1) (array_sectors + 1) (omega arith),
        )
        (ap some {x = d.capacity - 1 - (array_sectors + 1)} {y = d.capacity - 34} (omega arith))

  -- The five writes, by their names.
  chain : Option Disk
  chain =
      write d 0 (protective_mbr d.capacity)
      >>= (λ e. write e 1 primary)
      >>= (λ e. write_array array_sectors 0 2 part e)
      >>= (λ e. write_array array_sectors 0 (last - array_sectors) part e)
      >>= (λ e. write e last backup)

  write_all-chain : write_all ticks index d.capacity last_lba d ≡ chain
  unfolding write_all chain primary backup part last
  write_all-chain = refl

  first_write : write d 0 (protective_mbr d.capacity) ≡ some with_mbr
  unfolding with_mbr
  first_write = write-some d 0 (protective_mbr d.capacity) (omega arith)

  primary-write : write with_mbr 1 primary ≡ some with_primary
  unfolding with_mbr with_primary
  primary-write = write-some with_mbr 1 primary (omega arith)

  array_write : write_array array_sectors 0 2 part with_primary ≡ some with_array
  unfolding with_primary with_array with_mbr
  array_write = write_array-filled 2 part array_sectors 0 with_primary (omega arith)

  copy_write : write_array array_sectors 0 (last - array_sectors) part with_array ≡ some with_copy
  unfolding with_copy last
  copy_write =
      write_array-filled (last - array_sectors) part array_sectors 0 with_array
        (omega (arith, array_capacity))

  backup-write : write with_copy last backup ≡ some done
  unfolding done last
  backup-write = write-some with_copy last backup (omega (arith, copy_capacity))

  chain-done : chain ≡ some done
  unfolding chain
  chain-done = rw (first_write, primary-write, array_write, copy_write, backup-write) refl

  -- The writes near the end of the disk leave its first sectors.
  early : (k : ℕ) → k < 34 → done.sector k ≡ with_array.sector k
  unfolding done with_copy last
  early k h =
      ground
        (arith, filled-below (last - array_sectors) part array_sectors 0 with_array k (omega arith))

  array_held : (j : ℕ) → j < 32 → with_array.sector (2 + j) ≡ array_sector j part
  unfolding with_array
  array_held j h = filled-at 2 part array_sectors 0 with_primary j (omega arith) (omega arith)

  big : esp_start_lba ≤ last_lba
  unfolding last_lba
  big = omega arith

  small : last_lba + 1 < u64_mod
  unfolding last_lba
  small = omega arith

  full : 131072 ≤ done.capacity
  unfolding done
  full = omega (arith, copy_capacity)

  held : (j : ℕ) → j < 32 → done.sector (2 + j) ≡ array_sector j part
  held j h = early (2 + j) (omega arith) ∙ array_held j h

  head : done.sector 1 ≡ primary
  unfolding with_primary with_array with_mbr
  head = early 1 (omega arith) ∙ filled-below 2 part array_sectors 0 with_primary 1 (omega arith)

  written : write_esp ticks index d ≡ some done
  unfolding write_esp
  written =
      ap (with_last ticks index d) last_usable_lem
      ∙ rw (le→ltb_false last_lba esp_start_lba big) (write_all-chain ∙ chain-done)

  found : volumes done ≡ partition esp_start_lba last_lba ∷ []
  unfolding ent entry header part primary
  found =
      volumes-header ticks index last_lba big small done full held 1 last (array_crc32 part) head

-- On a disk of 64 MiB or more, its sectors counted in 64 bits, `write_esp` succeeds, and `volumes` then finds exactly the partition
-- from sector 2048 to the last usable one.
pub write_esp-volumes :
    (ticks index : ℕ) (d : Disk)
    → 131072 ≤ d.capacity
    → d.capacity < u64_mod
    → (d' : Disk) × (write_esp ticks index d ≡ some d')
      × (volumes d' ≡ record { start_lba = 2048; sectors = d.capacity - 34 - 2048 + 1 } ∷ [])
unfolding last_lba
write_esp-volumes ticks index d room word =
    (done ticks index d room word, written ticks index d room word, found ticks index d room word)
