-- ===== src/Fs/Gpt/Layout.antt =====
-- Where the fields of the header and of the partition entry of gpt.rs stand.
use coeleo_os.Base.{ℕ, ◌≡◌, refl, length, take}
use coeleo_os.Base.Bytes.{Bytes, codes, to_le_bytes}
use coeleo_os.Base.Slices.{slice}
use coeleo_os.Fs.Gpt.{entries, entry_size, make_guid, bare_header, fill_header, partition_entry}
use coeleo_os.Fs.Part.{guid_esp}

module _ (ticks index my_lba alt_lba part_lba last crc : ℕ) where
  unfoldable pub header : Bytes
  header = fill_header my_lba alt_lba part_lba last (make_guid ticks index 0xD15C) crc

  pub header-magic : take 8 header ≡ codes "EFI PART"
  unfolding header fill_header bare_header make_guid to_le_bytes
  header-magic = refl

  pub header-part_lba : slice 72 80 header ≡ to_le_bytes 8 part_lba
  unfolding header fill_header bare_header make_guid to_le_bytes
  header-part_lba = refl

  pub header-entries : slice 80 84 header ≡ to_le_bytes 4 entries
  unfolding header fill_header bare_header make_guid to_le_bytes
  header-entries = refl

  pub header-entry_size : slice 84 88 header ≡ to_le_bytes 4 entry_size
  unfolding header fill_header bare_header make_guid to_le_bytes
  header-entry_size = refl

module _ (ticks index first last : ℕ) where
  unfoldable pub entry : Bytes
  entry = partition_entry (make_guid ticks index 0xE5F) first last

  pub length-entry : length entry ≡ 128
  unfolding entry partition_entry make_guid to_le_bytes
  length-entry = refl

  pub entry-type : take 16 entry ≡ guid_esp
  unfolding entry partition_entry make_guid to_le_bytes
  entry-type = refl

  pub entry-first : slice 32 40 entry ≡ to_le_bytes 8 first
  unfolding entry partition_entry make_guid to_le_bytes
  entry-first = refl

  pub entry-last : slice 40 48 entry ≡ to_le_bytes 8 last
  unfolding entry partition_entry make_guid to_le_bytes
  entry-last = refl
