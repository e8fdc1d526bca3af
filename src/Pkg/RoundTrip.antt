-- ===== src/Pkg/RoundTrip.antt =====
-- What the packer writes, `parse` reads back.
use coeleo_os.Base.{
  ℕ, zero, suc, ◌+◌, ◌-◌, ◌^◌, ◌≤◌, ◌<◌, ◌≡◌, refl, ap, ◌∙◌, arith, [], ◌∷◌, ◌++◌, append_assoc,
  Bool, true, false, ◌&&◌, ◌||◌, length, length-append, length-replicate, get_or, take, drop,
  replicate, ltb, lt→ltb, le→ltb_false, eq→==, ◌==◌,
}
use coeleo_os.Base.Bytes.{
  Bytes, bytes_eq, to_le_bytes, from_le_bytes, from_le_bytes-to_le_bytes, length-to_le_bytes,
}
use coeleo_os.Base.Slices.{slice, take-append, drop-append, slice-append}
use coeleo_os.Base.Utf8.{is_utf8, after_lead, valid_after}
use coeleo_os.Pkg.{
  magic, name_max, hdr, sig_len, payload_max, Package, ok, err, bad_size, any_nonzero, is_name_byte,
  all_name_bytes, parse_size, parse_name, parse, signed_part, accepts, pack,
}

after_lead-ascii : (b : ℕ) → b < 0x80 → after_lead b ≡ []
unfolding after_lead
after_lead-ascii b h = ground arith

&&-split : (a b : Bool) → (a && b) ≡ true → (a ≡ true) × (b ≡ true)
&&-split true b h = (refl, h)
&&-split false b h = cc

name_byte-ascii : (b : ℕ) → is_name_byte b ≡ true → b < 0x80
name_byte-ascii b h = ground arith

-- A name of lower-case letters and digits is valid UTF-8.
all_name_bytes-utf8 : (bs : Bytes) → all_name_bytes bs ≡ true → valid_after [] bs ≡ true
unfolding valid_after all_name_bytes
all_name_bytes-utf8 [] h = refl
all_name_bytes-utf8 (b ∷ bs) h =
    let (first, rest) = &&-split (is_name_byte b) (all_name_bytes bs) h in
    let small : b < 0x80 = name_byte-ascii b first in
    rw (after_lead-ascii b small, lt→ltb b 0x80 small) (all_name_bytes-utf8 bs rest)

any_nonzero-replicate : (n : ℕ) → any_nonzero (replicate n 0) ≡ false
unfolding any_nonzero
any_nonzero-replicate zero = refl
any_nonzero-replicate (suc n) = any_nonzero-replicate n

module _ (name payload sig : Bytes) (short : length name ≤ name_max)
    (full : length sig ≡ sig_len) where
  padded : Bytes
  padded = name ++ replicate (name_max - length name) 0

  length-padded : length padded ≡ 8
  unfolding padded
  length-padded = omega (
    arith,
    length-append name (replicate (name_max - length name) 0),
    length-replicate {A = ℕ} (name_max - length name) 0,
  )

  major : Bytes
  major = to_le_bytes 2 0

  minor : Bytes
  minor = to_le_bytes 2 1

  len : Bytes
  len = to_le_bytes 4 (length payload)

  -- The first `5 + length xs` bytes.
  front : Bytes → Bytes
  front xs = magic ++ (length name ∷ xs)

  blob : Bytes
  blob = signed_part name payload ++ sig

  front_size : (xs : Bytes) → length (front xs) ≡ 5 + length xs
  unfolding front
  front_size xs = omega arith

  lengths : (length major ≡ 2) × (length minor ≡ 2) × (length len ≡ 4)
  unfolding major minor len
  lengths = (length-to_le_bytes 2 0, length-to_le_bytes 2 1, length-to_le_bytes 4 (length payload))

  sizes_2 : length (padded ++ major) ≡ 10
  sizes_2 = omega (arith, length-append padded major, length-padded, lengths)

  sizes_3 : length (padded ++ (major ++ minor)) ≡ 12
  sizes_3 = omega (
    arith,
    length-append padded (major ++ minor),
    length-append major minor,
    length-padded,
    lengths,
  )

  sizes_4 : length (padded ++ (major ++ (minor ++ len))) ≡ 16
  sizes_4 = omega (
    arith,
    length-append padded (major ++ (minor ++ len)),
    length-append major (minor ++ len),
    length-append minor len,
    length-padded,
    lengths,
  )

  signed_row : signed_part name payload ≡ front (padded ++ (major ++ (minor ++ len))) ++ payload
  unfolding signed_part front padded major minor len
  signed_row = simp append_assoc

  -- The file, cut at each field.
  rows :
      (blob ≡ front [] ++ (padded ++ (major ++ (minor ++ (len ++ (payload ++ sig))))))
      × (blob ≡ front padded ++ (major ++ (minor ++ (len ++ (payload ++ sig)))))
      × (blob ≡ front (padded ++ major) ++ (minor ++ (len ++ (payload ++ sig))))
      × (blob ≡ front (padded ++ (major ++ minor)) ++ (len ++ (payload ++ sig)))
      × (blob ≡ front (padded ++ (major ++ (minor ++ len))) ++ (payload ++ sig))
  unfolding signed_part blob front padded major minor len
  rows = (
    simp append_assoc,
    simp append_assoc,
    simp append_assoc,
    simp append_assoc,
    simp append_assoc,
  )

  length-signed : length (signed_part name payload) ≡ hdr + length payload
  length-signed =
      ap length signed_row
      ∙ omega (
        arith,
        length-append (front (padded ++ (major ++ (minor ++ len)))) payload,
        front_size (padded ++ (major ++ (minor ++ len))),
        sizes_4,
      )

  length-blob : length blob ≡ hdr + length payload + sig_len
  unfolding blob
  length-blob = omega (arith, length-append (signed_part name payload) sig, length-signed, full)

  name_part : slice 5 13 blob ≡ padded
  name_part =
      ap (slice 5 13) rows.0
      ∙ slice-append 5 13 (front []) padded _ (front_size [])
          (omega (arith, front_size [], length-padded))

  major_part : slice 13 15 blob ≡ major
  major_part =
      ap (slice 13 15) rows.1
      ∙ slice-append 13 15 (front padded) major _ (omega (arith, front_size padded, length-padded))
          (omega (arith, front_size padded, length-padded, lengths))

  minor_part : slice 15 17 blob ≡ minor
  minor_part =
      ap (slice 15 17) rows.2
      ∙ slice-append 15 17 (front (padded ++ major)) minor _
          (omega (arith, front_size (padded ++ major), sizes_2))
          (omega (arith, front_size (padded ++ major), sizes_2, lengths))

  len_part : slice 17 21 blob ≡ len
  len_part =
      ap (slice 17 21) rows.3
      ∙ slice-append 17 21 (front (padded ++ (major ++ minor))) len _
          (omega (arith, front_size (padded ++ (major ++ minor)), sizes_3))
          (omega (arith, front_size (padded ++ (major ++ minor)), sizes_3, lengths))

  payload_part : slice hdr (hdr + length payload) blob ≡ payload
  payload_part =
      ap (slice hdr (hdr + length payload)) rows.4
      ∙ slice-append hdr (hdr + length payload) (front (padded ++ (major ++ (minor ++ len))))
          payload sig (omega (arith, front_size (padded ++ (major ++ (minor ++ len))), sizes_4))
          (omega (arith, front_size (padded ++ (major ++ (minor ++ len))), sizes_4))

  -- What `parse` finds in the file.
  result : Package
  result = record {
    name = name;
    ver_major = 0;
    ver_minor = 1;
    payload = payload;
    signed = signed_part name payload;
    signature = sig;
  }

  magic_part : bytes_eq (take 4 blob) magic ≡ true
  unfolding front bytes_eq
  magic_part = ap (λ b. bytes_eq (take 4 b) magic) rows.0

  name_len_part : get_or blob 4 0 ≡ length name
  unfolding front
  name_len_part = ap (λ b. get_or b 4 0) rows.0

  signed_part-take : take (hdr + length payload) blob ≡ signed_part name payload
  unfolding blob
  signed_part-take = take-append (hdr + length payload) (signed_part name payload) sig length-signed

  signature_part : drop (hdr + length payload) blob ≡ sig
  unfolding blob
  signature_part = drop-append (hdr + length payload) (signed_part name payload) sig length-signed

  numbers :
      (from_le_bytes major ≡ 0)
      × (from_le_bytes minor ≡ 1)
      × (length payload < 2 ^ 32 → from_le_bytes len ≡ length payload)
  unfolding major minor len
  numbers = (
    from_le_bytes-to_le_bytes 2 0 (omega arith),
    from_le_bytes-to_le_bytes 2 1 (omega arith),
    λ h. from_le_bytes-to_le_bytes 4 (length payload) (omega arith),
  )

  parse_size-pack :
      0 < length payload
      → length payload ≤ payload_max
      → parse_size blob name (length payload) ≡ ok result
  unfolding result
  parse_size-pack pos fits =
      rw (size, total)
        (rw
          (
            major_part, minor_part, payload_part, signed_part-take, signature_part, numbers.0,
            numbers.1,
          )
          refl)
    where
      size : ((length payload == 0) || ltb payload_max (length payload)) ≡ false
      size = ground arith

      total : (length blob == hdr + length payload + sig_len) ≡ true
      total = eq→== (length blob) (hdr + length payload + sig_len) length-blob

  -- The name passes all the checks.
  parse_name-checked :
      0 < length name
      → all_name_bytes name ≡ true
      → length payload ≤ payload_max
      → parse_name blob (length name) padded ≡ parse_size blob name (length payload)
  unfolding padded is_utf8
  parse_name-checked named all fits =
      rw
        (
          in_range,
          drop-append (length name) name (replicate (name_max - length name) 0) refl,
          take-append (length name) name (replicate (name_max - length name) 0) refl,
          any_nonzero-replicate,
          all_name_bytes-utf8 name all,
          all,
        )
        (ap (parse_size blob name) (ap from_le_bytes len_part ∙ numbers.2 (omega arith)))
    where
      in_range : ((length name == 0) || ltb name_max (length name)) ≡ false
      in_range = ground arith

  parse-blob : parse blob ≡ parse_name blob (length name) padded
  unfolding parse
  parse-blob = rw (long, magic_part, name_len_part, name_part) refl
    where
      long : ltb (length blob) (hdr + sig_len) ≡ false
      long = le→ltb_false (length blob) (hdr + sig_len) (omega (arith, length-blob))

-- The conditions of `pack`, one by one.
accepts_lem :
    (name payload : Bytes)
    → accepts name payload ≡ true
    → (0 < length name)
      × (length name ≤ name_max)
      × (all_name_bytes name ≡ true)
      × (length payload ≤ payload_max)
unfolding accepts
accepts_lem name payload h = ground arith

-- The packer's file for an accepted name and a payload that is not empty is read back: the name,
-- version 0.1, the payload, the bytes that were signed, and the 64 bytes of the signer.
pub parse-pack :
    (sign : Bytes → Bytes) (name payload : Bytes)
    → length (sign (signed_part name payload)) ≡ sig_len
    → accepts name payload ≡ true
    → 0 < length payload
    → parse (pack sign name payload)
      ≡ ok (record {
        name = name;
        ver_major = 0;
        ver_minor = 1;
        payload = payload;
        signed = signed_part name payload;
        signature = sign (signed_part name payload);
      })
unfolding pack blob result
parse-pack sign name payload full ok_in pos =
    let (named, short, all, fits) = accepts_lem name payload ok_in in
    parse-blob name payload (sign (signed_part name payload)) short full
    ∙ parse_name-checked name payload (sign (signed_part name payload)) short full named all fits
    ∙ parse_size-pack name payload (sign (signed_part name payload)) short full pos fits

-- Where the packer accepts a name with an empty payload, and its signer gives 64 bytes, `parse`
-- refuses its file for its size.
pub parse-pack_empty :
    (sign : Bytes → Bytes) (name : Bytes)
    → length (sign (signed_part name [])) ≡ sig_len
    → accepts name [] ≡ true
    → parse (pack sign name []) ≡ err bad_size
unfolding pack blob
parse-pack_empty sign name full ok_in =
    let (named, short, all, fits) = accepts_lem name [] ok_in in
    parse-blob name [] (sign (signed_part name [])) short full
    ∙ parse_name-checked name [] (sign (signed_part name [])) short full named all fits
