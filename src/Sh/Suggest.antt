-- ===== src/Sh/Suggest.antt =====
-- userspace/apps/sh/src/err.rs: the command that is suggested for a word that is none. The calls
-- that print are left out.
pub mod Edits
pub mod Table
pub mod Closest
mod Tests
use coeleo_os.Base.{
  ℕ, zero, suc, ◌+◌, ◌-◌, ◌^◌, min, List, [], ◌∷◌, Bool, true, false, ◌||◌, Option, none, some,
  length, get_or, ltb, ◌==◌, if◌then◌else◌,
}
use coeleo_os.Base.Bytes.{Bytes}

-- The table's row as the loop finds it: `j` up to `bb.len()`, from `j` on.
unfoldable pub first_row : ℕ → Bytes → List ℕ
first_row j [] = j ∷ []
first_row j (b ∷ bs) = j ∷ first_row (j + 1) bs

abbrev pub cost : ℕ → ℕ → ℕ
cost a b = if a == b then 0 else 1

-- The inner loop, with `d[j - 1]` in `left` and `prev`: the cells of the row from `j` on.
unfoldable pub next_cells : ℕ → ℕ → ℕ → Bytes → List ℕ → List ℕ
next_cells a left prev [] cells = []
next_cells a left prev (b ∷ bs) [] = []
next_cells a left prev (b ∷ bs) (temp ∷ cells) =
    let d = min (min (temp + 1) (left + 1)) (prev + cost a b) in d ∷ next_cells a d temp bs cells

abbrev pub next_row : ℕ → ℕ → Bytes → List ℕ → List ℕ
next_row i a bs [] = []
next_row i a bs (prev ∷ cells) = i ∷ next_cells a i prev bs cells

-- The outer loop, from row `i` on.
unfoldable pub rows : ℕ → Bytes → Bytes → List ℕ → List ℕ
rows i [] bs row = row
rows i (a ∷ as') bs row = rows (i + 1) as' bs (next_row i a bs row)

-- `usize::MAX` for words that are too long for the table.
abbrev pub too_far : ℕ
too_far = 2 ^ 64 - 1

unfoldable pub levenshtein : Bytes → Bytes → ℕ
levenshtein [] b = length b
levenshtein (x ∷ a) [] = length (x ∷ a)
levenshtein (x ∷ a) (y ∷ b) =
    if ltb 32 (length (x ∷ a)) || ltb 32 (length (y ∷ b))
    then too_far
    else get_or (rows 1 (x ∷ a) (y ∷ b) (first_row 0 (y ∷ b))) (length (y ∷ b)) 0

-- The loop over the commands, with the best one so far.
unfoldable pub closest : Bytes → ℕ → Option Bytes → List Bytes → Option Bytes
closest typed best_dist best_match [] = best_match
closest typed best_dist best_match (cand ∷ cands) =
    let dist = levenshtein typed cand in
    let better = closest typed dist (some cand) cands in
    let same = closest typed best_dist best_match cands in
    if ltb dist best_dist then better else same

unfoldable pub suggest_command : Bytes → List Bytes → Option Bytes
suggest_command typed candidates = closest typed 3 none candidates
