-- ===== src/Fs/Gpt.antt =====
-- kernel/src/fs/gpt.rs: the protective MBR and the GPT with one partition that the installer
-- writes. `clock::ticks()` is an argument.
pub mod Layout
pub mod Array
pub mod Volumes
pub mod Written
mod Tests
use Prim.Native.Nat.{bit_and, bit_or, bit_xor}
use coeleo_os.Base.{
  ℕ, zero, suc, ◌+◌, ◌-◌, ◌*◌, ◌/◌, ◌%◌, ◌^◌, min, List, [], ◌∷◌, ◌++◌, Bool, true, false, not,
  ◌&&◌, Option, none, some, length, get_or, set, take, drop, replicate, leb, ltb, ◌==◌,
  if◌then◌else◌,
}
use coeleo_os.Base.Bytes.{Bytes, codes, to_le_bytes, u32_mod, u64_mod}
use coeleo_os.Fs.Disk.{Disk, sector_size, write}
use coeleo_os.Fs.Part.{guid_esp}

abbrev pub esp_start_lba : ℕ
esp_start_lba = 2048

abbrev pub entries : ℕ
entries = 128

abbrev pub entry_size : ℕ
entry_size = 128

abbrev pub array_sectors : ℕ
array_sectors = 32

abbrev pub header_size : ℕ
header_size = 92

abbrev pub min_sectors : ℕ
min_sectors = 64 * 1024 * 1024 / sector_size

-- `checked_sub`.
abbrev pub checked_sub : ℕ → ℕ → Option ℕ
checked_sub a b = if ltb a b then none else some (a - b)

unfoldable pub last_usable : ℕ → Option ℕ
last_usable sectors =
    if ltb sectors min_sectors then none else checked_sub (sectors - 1) (array_sectors + 1)

-- `buf[off..off + xs.len()].copy_from_slice(&xs)`.
abbrev pub put : ℕ → Bytes → Bytes → Bytes
put off xs buf = take off buf ++ (xs ++ drop (off + length xs) buf)

abbrev pub zero_sector : Bytes
zero_sector = replicate sector_size 0

-- Eight rounds of the inner loop of `crc32_update`.
unfoldable pub crc_rounds : ℕ → ℕ → ℕ
crc_rounds zero crc = crc
crc_rounds (suc n) crc =
    crc_rounds n (if crc % 2 == 0 then crc / 2 else bit_xor (crc / 2) 0xEDB88320)

unfoldable pub crc32_update : ℕ → Bytes → ℕ
crc32_update crc [] = crc
crc32_update crc (b ∷ bs) = crc32_update (crc_rounds 8 (bit_xor crc b)) bs

-- `!crc` on a `u32`.
abbrev pub complement : ℕ → ℕ
complement crc = u32_mod - 1 - crc

unfoldable pub efi_crc32 : Bytes → ℕ
efi_crc32 bs = complement (crc32_update 0xFFFFFFFF bs)

unfoldable pub zero_rounds : ℕ → ℕ → ℕ
zero_rounds zero crc = crc
zero_rounds (suc n) crc = zero_rounds n (crc32_update crc zero_sector)

unfoldable pub array_crc32 : Bytes → ℕ
array_crc32 entry =
    complement (zero_rounds (array_sectors - 1) (crc32_update 0xFFFFFFFF (put 0 entry zero_sector)))

unfoldable pub all_zero : Bytes → Bool
all_zero [] = true
all_zero (b ∷ bs) = (b == 0) && all_zero bs

-- The version and the variant that `make_guid` sets in bytes 6 and 8.
abbrev pub stamp : Bytes → Bytes
stamp g =
    set (set g 6 (bit_or (bit_and (get_or g 6 0) 0x0F) 0x40)) 8
      (bit_or (bit_and (get_or g 8 0) 0x3F) 0x80)

unfoldable pub make_guid : ℕ → ℕ → ℕ → Bytes
make_guid ticks disk tag =
    let mix = ((tag + disk) % u64_mod * 0x9E3779B97F4A7C15 + ticks) % u64_mod in
    let g = stamp (to_le_bytes 8 ticks ++ to_le_bytes 8 mix) in
    set g 0 (if all_zero g then 1 else get_or g 0 0)

unfoldable pub partition_entry : Bytes → ℕ → ℕ → Bytes
partition_entry unique first last = put 66 (to_le_bytes 2 b'O') (
    put 64 (to_le_bytes 2 b'E') (
      put 62 (to_le_bytes 2 b'L') (
        put 60 (to_le_bytes 2 b'E') (
          put 58 (to_le_bytes 2 b'O') (
            put 56 (to_le_bytes 2 b'C') (
              put 40 (to_le_bytes 8 last) (
                put 32 (to_le_bytes 8 first)
                  (put 16 unique (put 0 guid_esp (replicate 128 0))))))))))

-- The header before its own checksum is put in.
unfoldable pub bare_header : ℕ → ℕ → ℕ → ℕ → Bytes → ℕ → Bytes
bare_header my_lba alt_lba part_lba last disk_guid array_crc = put 88 (to_le_bytes 4 array_crc) (
    put 84 (to_le_bytes 4 entry_size) (
      put 80 (to_le_bytes 4 entries) (
        put 72 (to_le_bytes 8 part_lba) (
          put 56 disk_guid (
            put 48 (to_le_bytes 8 last) (
              put 40 (to_le_bytes 8 34) (
                put 32 (to_le_bytes 8 alt_lba) (
                  put 24 (to_le_bytes 8 my_lba) (
                    put 12 (to_le_bytes 4 header_size) (
                      put 8 (to_le_bytes 4 0x00010000)
                        (put 0 (codes "EFI PART") zero_sector)))))))))))

unfoldable pub fill_header : ℕ → ℕ → ℕ → ℕ → Bytes → ℕ → Bytes
fill_header my_lba alt_lba part_lba last disk_guid array_crc =
    let buf = bare_header my_lba alt_lba part_lba last disk_guid array_crc in
    put 16 (to_le_bytes 4 (efi_crc32 (take header_size buf))) buf

unfoldable pub protective_mbr : ℕ → Bytes
protective_mbr sectors = put 510 (0x55 ∷ 0xAA ∷ []) (
    put 458 (to_le_bytes 4 (min (sectors - 1) (u32_mod - 1))) (
      put 454 (to_le_bytes 4 1)
        (put 446 (0x00 ∷ 0x00 ∷ 0x02 ∷ 0x00 ∷ 0xEE ∷ 0xFF ∷ 0xFF ∷ 0xFF ∷ []) zero_sector)))

abbrev pub array_sector : ℕ → Bytes → Bytes
array_sector i entry = if i == 0 then put 0 entry zero_sector else zero_sector

-- The loop of `write_array` from sector `i` on, with `left` to go.
unfoldable pub write_array : ℕ → ℕ → ℕ → Bytes → Disk → Option Disk
write_array zero i start entry disk = some disk
write_array (suc left) i start entry disk = elim (write disk (start + i) (array_sector i entry)) [
  | none ↦ none
  | some d ↦ write_array left (i + 1) start entry d
]

infixl 5 ◌>>=◌
abbrev pub ◌>>=◌ : Option Disk → (Disk → Option Disk) → Option Disk
none >>= f = none
some d >>= f = f d

-- The writes of `write_esp` in their order.
unfoldable pub write_all : ℕ → ℕ → ℕ → ℕ → Disk → Option Disk
write_all ticks index sectors last_lba disk =
    let last = sectors - 1 in
    let backup_array = last - array_sectors in
    let disk_guid = make_guid ticks index 0xD15C in
    let part_guid = make_guid ticks index 0xE5F in
    let entry = partition_entry part_guid esp_start_lba last_lba in
    let array_crc = array_crc32 entry in
    let primary = fill_header 1 last 2 last_lba disk_guid array_crc in
    let backup = fill_header last 1 backup_array last_lba disk_guid array_crc in
    write disk 0 (protective_mbr sectors)
    >>= (λ d. write d 1 primary)
    >>= (λ d. write_array array_sectors 0 2 entry d)
    >>= (λ d. write_array array_sectors 0 backup_array entry d)
    >>= (λ d. write d last backup)

abbrev pub with_last : ℕ → ℕ → Disk → Option ℕ → Option Disk
with_last ticks index disk none = none
with_last ticks index disk (some last_lba) =
    if ltb last_lba esp_start_lba then none else write_all ticks index disk.capacity last_lba disk

-- `write_esp` of disk number `index`.
unfoldable pub write_esp : ℕ → ℕ → Disk → Option Disk
write_esp ticks index disk = with_last ticks index disk (last_usable disk.capacity)
