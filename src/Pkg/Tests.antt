-- ===== src/Pkg/Tests.antt =====
-- The round trip of a package at a concrete name and payload.
use coeleo_os.Base.{ℕ, ◌≡◌, true, refl, arith, [], ◌∷◌, replicate, length, length-replicate}
use coeleo_os.Base.Bytes.{Bytes, codes}
use coeleo_os.Pkg.{sig_len, ok, err, bad_size, parse, pack, signed_part, accepts, all_name_bytes}
use coeleo_os.Pkg.RoundTrip.{parse-pack, parse-pack_empty}

-- A signer that knows no secret.
sign : Bytes → Bytes
sign m = replicate sig_len 7

length-sign : (m : Bytes) → length (sign m) ≡ sig_len
unfolding sign
length-sign m = length-replicate {A = ℕ} sig_len 7

hello_accepted : accepts (codes "hello") (1 ∷ 2 ∷ 3 ∷ []) ≡ true
unfolding accepts all_name_bytes
hello_accepted = refl

parse-pack_example :
    parse (pack sign (codes "hello") (1 ∷ 2 ∷ 3 ∷ []))
    ≡ ok (record {
      name = codes "hello";
      ver_major = 0;
      ver_minor = 1;
      payload = 1 ∷ 2 ∷ 3 ∷ [];
      signed = signed_part (codes "hello") (1 ∷ 2 ∷ 3 ∷ []);
      signature = sign (signed_part (codes "hello") (1 ∷ 2 ∷ 3 ∷ []));
    })
parse-pack_example =
    parse-pack sign (codes "hello") (1 ∷ 2 ∷ 3 ∷ [])
      (length-sign (signed_part (codes "hello") (1 ∷ 2 ∷ 3 ∷ []))) hello_accepted (omega arith)

empty_accepted : accepts (codes "hello") [] ≡ true
unfolding accepts all_name_bytes
empty_accepted = refl

parse-pack_empty_example : parse (pack sign (codes "hello") []) ≡ err bad_size
parse-pack_empty_example =
    parse-pack_empty sign (codes "hello") (length-sign (signed_part (codes "hello") []))
      empty_accepted
