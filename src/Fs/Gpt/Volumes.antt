-- ===== src/Fs/Gpt/Volumes.antt =====
-- The volumes of part.rs on a disk that gpt.rs has written.
use coeleo_os.Base.{
  ℕ, zero, suc, ◌+◌, ◌-◌, ◌*◌, ◌/◌, ◌%◌, ◌≤◌, ◌<◌, ◌≡◌, refl, ap, ◌∙◌, arith, List, [], ◌∷◌, false,
  some, length, take, drop, replicate, le→ltb_false, ◌==◌, ==→eq, Bool-cases, inl, inr,
}
use coeleo_os.Base.Bytes.{
  Bytes, bytes_eq, bytes_eq_refl, to_le_bytes, from_le_bytes, from_le_bytes-to_le_bytes, u64_mod,
}
use coeleo_os.Base.Slices.{take-append, drop-append-ge, drop-replicate, take-replicate}
use coeleo_os.Fs.Disk.{Disk, sector_size, read, read-some}
use coeleo_os.Fs.Part.{
  Volume, entry_volume, sector_entry, gpt_entries, gpt_volumes, by_header, by_sector, volumes,
  efi_part, guid_esp,
}
use coeleo_os.Fs.Gpt.{array_sector, zero_sector, put, esp_start_lba}
use coeleo_os.Fs.Gpt.Layout.{
  header, header-magic, header-part_lba, header-entries, header-entry_size, entry, length-entry,
  entry-type, entry-first, entry-last,
}

-- An entry of zeros names no volume.
entry_volume-zeros :
    (n : ℕ) (rest : List Volume) → 16 ≤ n → entry_volume (replicate n 0) rest ≡ rest
unfolding entry_volume
entry_volume-zeros n rest h =
    rw (take-replicate {A = ℕ} 16 n 0 h, bytes_eq_refl (replicate 16 0)) refl

-- The bytes of the array behind its first entry are zeros.
array_sector-drop :
    (ent : Bytes) (j within : ℕ)
    → length ent ≡ 128
    → within ≤ 384
    → 128 ≤ j * 512 + within
    → drop within (array_sector j ent) ≡ replicate (512 - within) 0
array_sector-drop ent j within size low past = elim (Bool-cases (j == 0)) [
  | inl e ↦ rw e (first (==→eq j 0 e))
  | inr e ↦ rw e (drop-replicate within 512 0)
]
  where
    first : j ≡ 0 → drop within (put 0 ent zero_sector) ≡ replicate (512 - within) 0
    first z =
        drop-append-ge within ent (drop (0 + length ent) zero_sector) (omega (arith, z))
        ∙ ap (drop (within - length ent)) (drop-replicate (0 + length ent) 512 0)
        ∙ drop-replicate (within - length ent) (512 - (0 + length ent)) 0
        ∙ ap (λ m. replicate m 0) {x = 512 - (0 + length ent) - (within - length ent)}
            {y = 512 - within} (omega (arith, z))

-- A disk that holds the array of one entry in sectors 2 to 33.
module _ (d : Disk) (ent : Bytes) (size : length ent ≡ 128) (room : 131072 ≤ d.capacity)
    (held : (j : ℕ) → j < 32 → d.sector (2 + j) ≡ array_sector j ent) where
  read_array : (j : ℕ) → j < 32 → read d ((2 + j) % u64_mod) ≡ some (array_sector j ent)
  read_array j h =
      ap (read d) {x = (2 + j) % u64_mod} {y = 2 + j} (omega arith)
      ∙ read-some d (2 + j) (omega arith)
      ∙ ap some (held j h)

  entry-zeros :
      (i : ℕ) (rest : List Volume)
      → 1 ≤ i
      → i < 128
      → sector_entry (i * 128 % 512) rest (read d ((2 + i * 128 / 512) % u64_mod)) ≡ rest
  entry-zeros i rest h lt =
      rw
        (
          read_array (i * 128 / 512) (omega arith),
          le→ltb_false sector_size (i * 128 % 512 + 128) (omega arith),
        )
        (ap (λ e. entry_volume (take (i * 128 % 512 + 128 - i * 128 % 512) e) rest)
            (array_sector-drop ent (i * 128 / 512) (i * 128 % 512) size (omega arith) (omega arith))
          ∙ ap (λ e. entry_volume e rest)
              (take-replicate (i * 128 % 512 + 128 - i * 128 % 512) (512 - i * 128 % 512) 0
                (omega arith))
          ∙ entry_volume-zeros (i * 128 % 512 + 128 - i * 128 % 512) rest (omega arith))

  no_more : (i left : ℕ) → 1 ≤ i → i + left ≤ 128 → gpt_entries d 2 128 i left ≡ []
  unfolding gpt_entries
  no_more i zero h le = refl
  no_more i (suc left) h le =
      entry-zeros i (gpt_entries d 2 128 (i + 1) left) h (omega arith)
      ∙ no_more (i + 1) left (omega arith) (omega arith)

guid_not_zero : bytes_eq guid_esp (replicate 16 0) ≡ false
unfolding bytes_eq
guid_not_zero = refl

-- The volume of the partition from `first` to `last`.
abbrev pub partition : ℕ → ℕ → Volume
partition first last = record { start_lba = first; sectors = last - first + 1 }

module _ (ticks index last : ℕ) (start : esp_start_lba ≤ last) (word : last + 1 < u64_mod) where
  unfoldable pub ent : Bytes
  ent = entry ticks index esp_start_lba last

  entry_volume-entry :
      (rest : List Volume) → entry_volume ent rest ≡ partition esp_start_lba last ∷ rest
  unfolding entry_volume ent
  entry_volume-entry rest =
      rw
        (
          entry-type ticks index esp_start_lba last,
          entry-first ticks index esp_start_lba last,
          entry-last ticks index esp_start_lba last,
          from_le_bytes-to_le_bytes 8 last (omega arith),
          from_le_bytes-to_le_bytes 8 esp_start_lba (omega arith),
        )
        (rw (guid_not_zero, bytes_eq_refl guid_esp, le→ltb_false last esp_start_lba start)
          (ap (λ n. record { start_lba = esp_start_lba; sectors = n } ∷ rest)
            {x = (last - esp_start_lba + 1) % u64_mod} {y = last - esp_start_lba + 1}
            (omega arith)))

  -- A disk with this header in sector 1 and the entry's array behind it has this one volume.
  module _ (d : Disk) (room : 131072 ≤ d.capacity)
      (held : (j : ℕ) → j < 32 → d.sector (2 + j) ≡ array_sector j ent) (my_lba alt_lba crc : ℕ)
      (head : d.sector 1 ≡ header ticks index my_lba alt_lba 2 last crc) where
    size : length ent ≡ 128
    unfolding ent
    size = length-entry ticks index esp_start_lba last

    all_entries : gpt_entries d 2 128 0 128 ≡ partition esp_start_lba last ∷ []
    unfolding gpt_entries
    all_entries =
        ap (sector_entry 0 (gpt_entries d 2 128 (0 + 1) 127))
          (read_array d ent size room held 0 (omega arith))
        ∙ ap (λ e. entry_volume e (gpt_entries d 2 128 (0 + 1) 127))
            (take-append 128 ent (drop (0 + length ent) zero_sector) size)
        ∙ entry_volume-entry (gpt_entries d 2 128 (0 + 1) 127)
        ∙ ap (λ vs. partition esp_start_lba last ∷ vs)
            (no_more d ent size room held (0 + 1) 127 (omega arith) (omega arith))

    from_header :
        gpt_volumes d (header ticks index my_lba alt_lba 2 last crc)
        ≡ partition esp_start_lba last ∷ []
    unfolding gpt_volumes from_le_bytes to_le_bytes
    from_header =
        rw
          (
            header-part_lba ticks index my_lba alt_lba 2 last crc,
            header-entries ticks index my_lba alt_lba 2 last crc,
            header-entry_size ticks index my_lba alt_lba 2 last crc,
          )
          all_entries

    pub volumes-header : volumes d ≡ partition esp_start_lba last ∷ []
    unfolding volumes
    volumes-header =
        ap (by_sector d) (read-some d 0 (omega arith))
        ∙ ap (by_header d (d.sector 0)) (read-some d 1 (omega arith) ∙ ap some head)
        ∙ rw (header-magic ticks index my_lba alt_lba 2 last crc, bytes_eq_refl efi_part)
            from_header
