-- ===== src/Sh/Cwd.antt =====
-- userspace/apps/sh/src/cwd.rs: the directory of the shell, and the absolute form of a path. Texts
-- are their bytes; the cuts fall at `/`, so they stay valid UTF-8.
pub mod Normal
mod Tests
use coeleo_os.Base.{
  ℕ, zero, suc, ◌+◌, ◌-◌, min, List, [], ◌∷◌, ◌++◌, Bool, true, false, ◌||◌, length, take, leb, ltb,
  ◌==◌, if◌then◌else◌,
}
use coeleo_os.Base.Bytes.{Bytes, bytes_eq, codes}

-- The part of `buf` that counts.
pub record Cwd : Type 0 where
  pub text : Bytes

abbrev pub slash : ℕ
slash = b'/'

abbrev pub new : Cwd
new = record { text = slash ∷ [] }

abbrev pub out_len : ℕ
out_len = 256

unfoldable pub set : Cwd → Bytes → Cwd
set c s = record { text = take (min (length s) out_len) s }

-- `split('/')`, with the bytes since the last `/`.
unfoldable pub split : Bytes → Bytes → List Bytes
split cur [] = cur ∷ []
split cur (c ∷ cs) =
    let cut = split [] cs in
    let more = split (cur ++ (c ∷ [])) cs in if c == slash then cur ∷ cut else more

abbrev pub parts_max : ℕ
parts_max = 16

-- The match on one component.
unfoldable pub step : List Bytes → Bytes → List Bytes
step parts c =
    if (length c == 0) || bytes_eq c (codes ".")
    then parts
    else if bytes_eq c (codes "..")
    then take (length parts - 1) parts
    else if ltb (length parts) parts_max
    then parts ++ (c ∷ [])
    else parts

unfoldable pub steps : List Bytes → List Bytes → List Bytes
steps parts [] = parts
steps parts (c ∷ cs) = steps (step parts c) cs

-- The loop that writes the parts, with `i` bytes written.
unfoldable pub join : ℕ → List Bytes → Bytes
join i [] = []
join i (p ∷ ps) =
    let rest = join (i + 1 + length p) ps in
    if leb out_len (i + 1 + length p) then [] else slash ∷ (p ++ rest)

abbrev pub print : List Bytes → Bytes
print [] = slash ∷ []
print (p ∷ ps) = join 0 (p ∷ ps)

abbrev pub starts_with_slash : Bytes → Bool
starts_with_slash [] = false
starts_with_slash (c ∷ cs) = c == slash

unfoldable pub resolve : Bytes → Bytes → Bytes
resolve cwd arg =
    let first = if starts_with_slash arg then [] else cwd in
    print (steps (steps [] (split [] first)) (split [] arg))
