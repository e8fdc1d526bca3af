-- ===== src/Sh/Search.antt =====
-- userspace/apps/sh/src/line.rs: what Ctrl+R looks up in the history.
pub mod Found
mod Tests
use coeleo_os.Base.{
  ℕ, zero, suc, ◌+◌, ◌-◌, min, List, [], ◌∷◌, ◌++◌, Bool, true, false, not, ◌&&◌, ◌||◌, Option,
  none, some, length, take, drop, leb, ltb, ◌==◌, if◌then◌else◌,
}
use coeleo_os.Base.Bytes.{Bytes, bytes_eq}
use coeleo_os.Fs.Gpt.{put}
use coeleo_os.Sh.Line.{Line}
use coeleo_os.Sh.History.{History, get_at}

-- `contains_subslice`: does `needle` begin somewhere in `haystack`?
unfoldable pub contains_subslice : Bytes → Bytes → Bool
contains_subslice [] needle = length needle == 0
contains_subslice (x ∷ haystack) needle =
    let rest = contains_subslice haystack needle in
    if bytes_eq (take (length needle) (x ∷ haystack)) needle then true else rest

-- `for i in (0..=limit).rev()`, with `k` for `i + 1`.
unfoldable pub find_from : History → Bytes → ℕ → Option ℕ
find_from h query zero = none
find_from h query (suc k) =
    let rest = find_from h query k in if contains_subslice (get_at h k) query then some k else rest

unfoldable pub find_match : History → Bytes → ℕ → Option ℕ
find_match h query start_idx =
    if (length query == 0) || (h.count == 0)
    then none
    else find_from h query (min start_idx (h.count - 1) + 1)

-- What `reverse_search` puts into the line when it is left.
abbrev pub replace_line : Bytes → Line → Line
replace_line bs e = record { line = put 0 bs e.line; n = length bs; cur = length bs }

abbrev pub take_match : History → Option ℕ → Line → Line
take_match h none e = e
take_match h (some idx) e = replace_line (get_at h idx) e

abbrev pub earlier : History → Bytes → Option ℕ → Option ℕ
earlier h query none = none
earlier h query (some zero) = some zero
earlier h query (some (suc idx)) = find_match h query idx
