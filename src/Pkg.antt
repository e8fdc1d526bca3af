-- ===== src/Pkg.antt =====
-- userspace/libs/pkg/src/lib.rs, and the packer tools/coe-pack/src/main.rs: packages. The signature
-- scheme is a library's; `parse` only cuts out what is signed, so the bytes that the packer signs
-- with are an argument.
pub mod RoundTrip
mod Tests
use coeleo_os.Base.{
  ℕ, zero, suc, ◌+◌, ◌-◌, ◌*◌, List, [], ◌∷◌, ◌++◌, Bool, true, false, not, ◌&&◌, ◌||◌, length,
  get_or, take, drop, replicate, leb, ltb, ◌==◌, if◌then◌else◌,
}
use coeleo_os.Base.Bytes.{Bytes, codes, bytes_eq, to_le_bytes, from_le_bytes}
use coeleo_os.Base.Slices.{slice}
use coeleo_os.Base.Utf8.{is_utf8}

abbrev pub magic : Bytes
magic = codes "COE1"

abbrev pub name_max : ℕ
name_max = 8

abbrev pub hdr : ℕ
hdr = 21

abbrev pub sig_len : ℕ
sig_len = 64

abbrev pub payload_max : ℕ
payload_max = 256 * 1024

-- `Pkg`.
pub record Package : Type 0 where
  pub name : Bytes
  pub ver_major : ℕ
  pub ver_minor : ℕ
  pub payload : Bytes
  pub signed : Bytes
  pub signature : Bytes

pub data PkgErr : Type 0 where
  truncated : PkgErr
  bad_magic : PkgErr
  bad_name : PkgErr
  bad_size : PkgErr

pub data Parsed : Type 0 where
  ok : Package → Parsed
  err : PkgErr → Parsed

unfoldable pub any_nonzero : Bytes → Bool
any_nonzero [] = false
any_nonzero (b ∷ bs) = not (b == 0) || any_nonzero bs

-- `is_ascii_lowercase() || is_ascii_digit()`.
abbrev pub is_name_byte : ℕ → Bool
is_name_byte b = (leb b'a' b && leb b b'z') || (leb b'0' b && leb b b'9')

unfoldable pub all_name_bytes : Bytes → Bool
all_name_bytes [] = true
all_name_bytes (b ∷ bs) = is_name_byte b && all_name_bytes bs

abbrev pub parse_size : Bytes → Bytes → ℕ → Parsed
parse_size blob name payload_len =
    if (payload_len == 0) || ltb payload_max payload_len
    then err bad_size
    else if not (length blob == hdr + payload_len + sig_len)
    then err bad_size
    else ok (record {
      name = name;
      ver_major = from_le_bytes (slice 13 15 blob);
      ver_minor = from_le_bytes (slice 15 17 blob);
      payload = slice hdr (hdr + payload_len) blob;
      signed = take (hdr + payload_len) blob;
      signature = drop (hdr + payload_len) blob;
    })

abbrev pub parse_name : Bytes → ℕ → Bytes → Parsed
parse_name blob name_len name_bytes =
    if (name_len == 0) || ltb name_max name_len
    then err bad_name
    else if any_nonzero (drop name_len name_bytes)
    then err bad_name
    else if not (is_utf8 (take name_len name_bytes))
    then err bad_name
    else if not (all_name_bytes (take name_len name_bytes))
    then err bad_name
    else parse_size blob (take name_len name_bytes) (from_le_bytes (slice 17 21 blob))

unfoldable pub parse : Bytes → Parsed
parse blob =
    if ltb (length blob) (hdr + sig_len)
    then err truncated
    else if not (bytes_eq (take 4 blob) magic)
    then err bad_magic
    else parse_name blob (get_or blob 4 0) (slice 5 (5 + name_max) blob)

-- What `pack` signs: all but the signature.
unfoldable pub signed_part : Bytes → Bytes → Bytes
signed_part name payload =
    magic
    ++ (length name
        ∷ ((name ++ replicate (name_max - length name) 0)
            ++ (to_le_bytes 2 0
                ++ (to_le_bytes 2 1 ++ (to_le_bytes 4 (length payload) ++ payload)))))

-- The conditions of `pack`.
unfoldable pub accepts : Bytes → Bytes → Bool
accepts name payload =
    not ((length name == 0) || ltb name_max (length name))
    && (all_name_bytes name && not (ltb payload_max (length payload)))

-- The file that `pack` writes for an accepted name and payload, with the signer's 64 bytes.
unfoldable pub pack : (Bytes → Bytes) → Bytes → Bytes → Bytes
pack sign name payload = signed_part name payload ++ sign (signed_part name payload)
