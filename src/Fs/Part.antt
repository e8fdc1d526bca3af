-- ===== src/Fs/Part.antt =====
-- kernel/src/fs/part.rs: the volumes of a disk, from its GPT or its MBR.
use coeleo_os.Base.{
  ℕ, zero, suc, ◌+◌, ◌-◌, ◌*◌, ◌/◌, ◌%◌, min, List, [], ◌∷◌, not, ◌&&◌, ◌||◌, Option, none, some,
  get_or, take, replicate, ltb, ◌==◌, if◌then◌else◌,
}
use coeleo_os.Base.Bytes.{Bytes, bytes_eq, codes, from_le_bytes, u64_mod}
use coeleo_os.Base.Slices.{slice}
use coeleo_os.Fs.Disk.{Disk, sector_size, read}

pub record Volume : Type 0 where
  pub start_lba : ℕ
  pub sectors : ℕ

abbrev pub guid_esp : Bytes
guid_esp =
    0x28 ∷ 0x73 ∷ 0x2A ∷ 0xC1 ∷ 0x1F ∷ 0xF8 ∷ 0xD2 ∷ 0x11 ∷ 0xBA ∷ 0x4B ∷ 0x00 ∷ 0xA0 ∷ 0xC9 ∷ 0x3E
    ∷ 0xC9 ∷ 0x3B ∷ []

abbrev pub guid_basic : Bytes
guid_basic =
    0xA2 ∷ 0xA0 ∷ 0xD0 ∷ 0xEB ∷ 0xE5 ∷ 0xB9 ∷ 0x33 ∷ 0x44 ∷ 0x87 ∷ 0xC0 ∷ 0x68 ∷ 0xB6 ∷ 0xB7 ∷ 0x26
    ∷ 0x99 ∷ 0xC7 ∷ []

-- The body of the loop for an entry, with the volumes of the entries behind it. The count of the
-- sectors wraps where the entry takes all of 64 bits.
unfoldable pub entry_volume : Bytes → List Volume → List Volume
entry_volume ent rest =
    let ty = take 16 ent in
    let first = from_le_bytes (slice 32 40 ent) in
    let last = from_le_bytes (slice 40 48 ent) in
    if bytes_eq ty (replicate 16 0)
    then rest
    else if not (bytes_eq ty guid_esp) && not (bytes_eq ty guid_basic)
    then rest
    else if ltb last first
    then rest
    else record { start_lba = first; sectors = (last - first + 1) % u64_mod } ∷ rest

abbrev pub sector_entry : ℕ → List Volume → Option Bytes → List Volume
sector_entry within rest none = []
sector_entry within rest (some sector) =
    if ltb sector_size (within + 128)
    then rest
    else entry_volume (slice within (within + 128) sector) rest

-- The loop of `gpt_volumes` from entry `i` on, with `left` to go; a read that fails ends it. The
-- address of an entry wraps at 64 bits.
unfoldable pub gpt_entries : Disk → ℕ → ℕ → ℕ → ℕ → List Volume
gpt_entries disk part_lba ent_size i zero = []
gpt_entries disk part_lba ent_size i (suc left) =
    let off = i * ent_size in
    sector_entry (off % sector_size) (gpt_entries disk part_lba ent_size (i + 1) left)
      (read disk ((part_lba + off / sector_size) % u64_mod))

unfoldable pub gpt_volumes : Disk → Bytes → List Volume
gpt_volumes disk header =
    let part_lba = from_le_bytes (slice 72 80 header) in
    let num = from_le_bytes (slice 80 84 header) in
    let ent_size = from_le_bytes (slice 84 88 header) in
    if (part_lba == 0) || ((num == 0) || ltb ent_size 128)
    then []
    else gpt_entries disk part_lba ent_size 0 (min num 128)

-- The body of the loop of `mbr_volumes`.
unfoldable pub mbr_entry : Bytes → List Volume → List Volume
mbr_entry e rest =
    let ty = get_or e 4 0 in
    let start = from_le_bytes (slice 8 12 e) in
    let count = from_le_bytes (slice 12 16 e) in
    if not (ty == 0x0B) && (not (ty == 0x0C) && not (ty == 0xEF))
    then rest
    else if (start == 0) || (count == 0)
    then rest
    else record { start_lba = start; sectors = count } ∷ rest

unfoldable pub mbr_entries : Bytes → ℕ → ℕ → List Volume
mbr_entries sector i zero = []
mbr_entries sector i (suc left) =
    mbr_entry (slice (446 + i * 16) (446 + (i + 1) * 16) sector) (mbr_entries sector (i + 1) left)

unfoldable pub mbr_volumes : Bytes → List Volume
mbr_volumes sector =
    if not (get_or sector 510 0 == 0x55) || not (get_or sector 511 0 == 0xAA)
    then []
    else mbr_entries sector 0 4

abbrev pub efi_part : Bytes
efi_part = codes "EFI PART"

abbrev pub by_header : Disk → Bytes → Option Bytes → List Volume
by_header disk sector none = mbr_volumes sector
by_header disk sector (some header) =
    if bytes_eq (take 8 header) efi_part then gpt_volumes disk header else mbr_volumes sector

abbrev pub by_sector : Disk → Option Bytes → List Volume
by_sector disk none = []
by_sector disk (some sector) = by_header disk sector (read disk 1)

unfoldable pub volumes : Disk → List Volume
volumes disk = by_sector disk (read disk 0)
