-- ===== src/Fs/Gpt/Tests.antt =====
-- The checksum of gpt.rs at the standard test text, and its round trip on a disk of 64 MiB.
use coeleo_os.Base.{◌+◌, ◌-◌, ◌≡◌, refl, arith, [], ◌∷◌, replicate, some}
use coeleo_os.Base.Bytes.{codes}
use coeleo_os.Fs.Disk.{Disk, sector_size}
use coeleo_os.Fs.Part.{volumes}
use coeleo_os.Fs.Gpt.{efi_crc32, crc32_update, crc_rounds, write_esp}
use coeleo_os.Fs.Gpt.Written.{write_esp-volumes}

check_value : efi_crc32 (codes "123456789") ≡ 0xCBF43926
unfolding efi_crc32 crc32_update crc_rounds
check_value = refl

abbrev blank : Disk
blank = record { capacity = 131072; sector = λ k. replicate sector_size 0 }

write_esp-volumes_example :
    (d' : Disk) × (write_esp 5 0 blank ≡ some d')
    × (volumes d' ≡ record { start_lba = 2048; sectors = blank.capacity - 34 - 2048 + 1 } ∷ [])
write_esp-volumes_example = write_esp-volumes 5 0 blank (omega arith) (omega arith)
