-- ===== src/Sh/Suggest/Table.antt =====
-- The rows of `levenshtein` hold the distances of the words' beginnings.
use coeleo_os.Base.{
  ℕ, suc, ◌+◌, ◌≤◌, ◌≡◌, refl, sym, ap, ◌∙◌, subst, arith, List, [], ◌∷◌, ◌++◌, length,
  append_assoc, append-nil, get_or, Bool, true, false, ◌||◌, ltb, inl, inr, ◌⊎◌, if◌then◌else◌,
}
use coeleo_os.Base.Bytes.{Bytes}
use coeleo_os.Sh.Suggest.{first_row, next_cells, next_row, rows, too_far, levenshtein}
use coeleo_os.Sh.Suggest.Edits.{IsLeast, dist, dist_lem, dist-backwards, backwards}

-- The distances of `ra` and of each longer beginning of the second word, read backwards: `rb` is
-- read, `bs` is to come.
longer : Bytes → Bytes → Bytes → List ℕ
longer ra rb [] = []
longer ra rb (b ∷ bs) = dist ra (b ∷ rb) ∷ longer ra (b ∷ rb) bs

row_for : Bytes → Bytes → List ℕ
row_for ra bs = dist ra [] ∷ longer ra [] bs

first_row_lem : (rb bs : Bytes) (j : ℕ) → j ≡ length rb → first_row j bs ≡ j ∷ longer [] rb bs
unfolding first_row longer
first_row_lem rb [] j e = refl
first_row_lem rb (b ∷ bs) j e =
    ap (λ xs. j ∷ xs)
      (first_row_lem (b ∷ rb) bs (j + 1) (omega arith)
        ∙ ap (λ k. k ∷ longer [] (b ∷ rb) bs) {x = j + 1} {y = suc (length rb)} (omega arith))

next_cells_lem :
    (a : ℕ) (ra rb bs : Bytes)
    → next_cells a (dist (a ∷ ra) rb) (dist ra rb) bs (longer ra rb bs) ≡ longer (a ∷ ra) rb bs
unfolding next_cells longer
next_cells_lem a ra rb [] = refl
next_cells_lem a ra rb (b ∷ bs) =
    ap (λ xs. dist (a ∷ ra) (b ∷ rb) ∷ xs) (next_cells_lem a ra (b ∷ rb) bs)

next_row_lem :
    (i a : ℕ) (ra bs : Bytes)
    → i ≡ suc (length ra)
    → next_row i a bs (row_for ra bs) ≡ row_for (a ∷ ra) bs
unfolding row_for
next_row_lem i a ra bs e =
    ap (λ k. k ∷ next_cells a k (dist ra []) bs (longer ra [] bs)) e
    ∙ ap (λ xs. suc (length ra) ∷ xs) (next_cells_lem a ra [] bs)

rows_lem :
    (i : ℕ) (as' ra bs : Bytes)
    → i ≡ suc (length ra)
    → rows i as' bs (row_for ra bs) ≡ row_for (backwards as' ++ ra) bs
unfolding rows
rows_lem i [] ra bs e = refl
rows_lem i (a ∷ as') ra bs e =
    ap (rows (i + 1) as' bs) (next_row_lem i a ra bs e)
    ∙ rows_lem (i + 1) as' (a ∷ ra) bs (omega arith)
    ∙ ap (λ r. row_for r bs) (sym (append_assoc (backwards as') (a ∷ []) ra))

longer-last :
    (ra rb bs : Bytes)
    → get_or (dist ra rb ∷ longer ra rb bs) (length bs) 0 ≡ dist ra (backwards bs ++ rb)
unfolding longer
longer-last ra rb [] = refl
longer-last ra rb (b ∷ bs) =
    longer-last ra (b ∷ rb) bs ∙ ap (dist ra) (sym (append_assoc (backwards bs) (b ∷ []) rb))

table_lem :
    (a b : Bytes)
    → get_or (rows 1 a b (first_row 0 b)) (length b) 0 ≡ dist (backwards a) (backwards b)
unfolding row_for
table_lem a b =
    ap (λ r. get_or (rows 1 a b r) (length b) 0) (first_row_lem [] b 0 refl)
    ∙ ap (λ r. get_or r (length b) 0) (rows_lem 1 a [] b refl)
    ∙ ap (λ r. get_or (row_for r b) (length b) 0) (append-nil (backwards a))
    ∙ longer-last (backwards a) [] b
    ∙ ap (dist (backwards a)) (append-nil (backwards b))

-- A word that fits into the table.
abbrev pub IsShort : Bytes → Type 0
IsShort a = length a ≤ 32

-- If one word is empty or both have at most 32 bytes, `levenshtein` is the least number of bytes to
-- insert, delete or change that makes one of the other.
pub levenshtein_lem :
    (a b : Bytes) → (a ≡ []) ⊎ ((b ≡ []) ⊎ (IsShort a × IsShort b)) → IsLeast a b (levenshtein a b)
unfolding levenshtein
levenshtein_lem [] b h = dist_lem [] b
levenshtein_lem (x ∷ a) [] h = dist_lem (x ∷ a) []
levenshtein_lem (x ∷ a) (y ∷ b) (inl e) = absurd (cc e)
levenshtein_lem (x ∷ a) (y ∷ b) (inr (inl e)) = absurd (cc e)
levenshtein_lem (x ∷ a) (y ∷ b) (inr (inr (h, k))) =
    by_test (ltb 32 (length (x ∷ a)) || ltb 32 (length (y ∷ b))) (ground arith)
  where
    by_test :
        (t : Bool)
        → t ≡ false
        → IsLeast (x ∷ a) (y ∷ b) (
            if t
            then too_far
            else get_or (rows 1 (x ∷ a) (y ∷ b) (first_row 0 (y ∷ b))) (length (y ∷ b)) 0)
    by_test true e = cc
    by_test false e =
        subst (IsLeast (x ∷ a) (y ∷ b)) (sym (table_lem (x ∷ a) (y ∷ b)))
          (dist-backwards (x ∷ a) (y ∷ b))
