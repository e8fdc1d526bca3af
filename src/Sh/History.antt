-- ===== src/Sh/History.antt =====
-- userspace/apps/sh/src/line.rs: the lines that were entered, in a ring of 128.
pub mod Ring
pub mod Queries
pub mod Tests
use coeleo_os.Base.{
  ℕ, zero, suc, ◌+◌, ◌-◌, ◌%◌, List, [], ◌∷◌, Bool, true, false, ◌&&◌, ◌||◌, Option, none, some,
  length, take, set, get_or, replicate, leb, ltb, ◌==◌, if◌then◌else◌,
}
use coeleo_os.Base.Bytes.{Bytes, bytes_eq}
use coeleo_os.Fs.Gpt.{put}
use coeleo_os.Sh.Line.{line_cap, is_space, back_while}

abbrev pub hist_cap : ℕ
hist_cap = 128

pub record History : Type 0 where
  pub lines : List Bytes
  pub lens : List ℕ
  pub start : ℕ
  pub count : ℕ
  pub view : Option ℕ
  pub draft : Bytes
  pub draft_len : ℕ

unfoldable pub new : History
new = record {
  lines = replicate hist_cap (replicate line_cap 0);
  lens = replicate hist_cap 0;
  start = 0;
  count = 0;
  view = none;
  draft = replicate line_cap 0;
  draft_len = 0;
}

unfoldable pub clear : History → History
clear h = record h { count = 0; start = 0; view = none; draft_len = 0 }

-- `&lines[i][..lens[i]]`.
abbrev pub slot : History → ℕ → Bytes
slot h i = take (get_or h.lens i 0) (get_or h.lines i [])

-- The bytes that `get_at` copies to its buffer, as many as it returns.
unfoldable pub get_at : History → ℕ → Bytes
get_at h idx = if leb h.count idx then [] else slot h ((h.start + idx) % hist_cap)

unfoldable pub peek_entry : History → ℕ → Option Bytes
peek_entry h age =
    if leb h.count age then none else some (slot h ((h.start + h.count - 1 - age) % hist_cap))

unfoldable pub get : History → ℕ → Bytes
get h age = if leb h.count age then [] else slot h ((h.start + h.count - 1 - age) % hist_cap)

-- `while a < b && s[a] == b' ' { a += 1 }`.
abbrev pub trim_front : Bytes → Bytes
trim_front [] = []
trim_front (b ∷ s) = if is_space b then trim_front s else b ∷ s

unfoldable pub trim_bytes : Bytes → Bytes
trim_bytes s = let t = trim_front s in take (back_while is_space t (length t)) t

abbrev pub store_at : History → ℕ → Bytes → History
store_at h i t = record h {
  lines = set h.lines i (put 0 t (get_or h.lines i []));
  lens = set h.lens i (length t);
}

abbrev pub store : History → Bytes → History
store h t =
    if ltb h.count hist_cap
    then record (store_at h ((h.start + h.count) % hist_cap) t) { count = h.count + 1; view = none }
    else record (store_at h h.start t) { start = (h.start + 1) % hist_cap; view = none }

-- The newest line is the same.
abbrev pub repeated : History → Bytes → Bool
repeated h t = ltb 0 h.count && bytes_eq (slot h ((h.start + h.count - 1) % hist_cap)) t

unfoldable pub push : History → Bytes → History
push h s =
    let t = trim_bytes s in
    if (length t == 0) || ltb line_cap (length t)
    then record h { view = none }
    else if repeated h t
    then record h { view = none }
    else store h t
