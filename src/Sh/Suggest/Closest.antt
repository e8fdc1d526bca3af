-- ===== src/Sh/Suggest/Closest.antt =====
-- Which command is suggested.
use coeleo_os.Base.{
  ℕ, ◌+◌, ◌≤◌, ◌<◌, ◌≡◌, refl, sym, ap, subst, arith, List, [], ◌∷◌, ◌++◌, All, Bool, true, false,
  Option, none, some, ltb, ltb→lt, ltb_false→le, inl, inr, ◌⊎◌, if◌then◌else◌,
}
use coeleo_os.Base.Bytes.{Bytes}
use coeleo_os.Sh.Suggest.Edits.{Edits, IsLeast}
use coeleo_os.Sh.Suggest.Table.{IsShort, levenshtein_lem}
use coeleo_os.Sh.Suggest.{levenshtein, closest, suggest_command}

module _ (typed : Bytes) where
  -- The command `c` of the list is nearer than all before it, and no command behind it is nearer.
  pub record Nearest (cands : List Bytes) (c : Bytes) : Type 0 where
    pub earlier : List Bytes
    pub later : List Bytes
    pub listed : cands ≡ earlier ++ (c ∷ later)
    pub before : All (λ x. levenshtein typed c < levenshtein typed x) earlier
    pub behind : All (λ x. levenshtein typed c ≤ levenshtein typed x) later

  -- No command is nearer than `n`.
  abbrev pub NoneNearer : ℕ → List Bytes → Type 0
  NoneNearer n cands = All (λ x. n ≤ levenshtein typed x) cands

  -- What the loop does with the best command so far.
  Outcome : ℕ → Option Bytes → List Bytes → Option Bytes → Type 0
  Outcome n best cands r =
      ((r ≡ best) × NoneNearer n cands)
      ⊎ ((c : Bytes) × (r ≡ some c) × (levenshtein typed c < n) × Nearest cands c)

  one_more :
      (c x : Bytes) (cands : List Bytes)
      → levenshtein typed c < levenshtein typed x
      → Nearest cands c
      → Nearest (x ∷ cands) c
  one_more c x cands lt v = record {
    earlier = x ∷ v.earlier;
    later = v.later;
    listed = ap (λ xs. x ∷ xs) v.listed;
    before = (lt, v.before);
    behind = v.behind;
  }

  closest_lem :
      (n : ℕ) (best : Option Bytes) (cands : List Bytes)
      → Outcome n best cands (closest typed n best cands)
  unfolding closest Outcome
  closest_lem n best [] = inl (refl, tt)
  closest_lem n best (x ∷ cands) =
      by_test (ltb (levenshtein typed x) n) refl (closest_lem (levenshtein typed x) (some x) cands)
        (closest_lem n best cands)
    where
      d : ℕ
      d = levenshtein typed x

      by_test :
          (t : Bool)
          → ltb d n ≡ t
          → Outcome d (some x) cands (closest typed d (some x) cands)
          → Outcome n best cands (closest typed n best cands)
          → Outcome n best
              (x ∷ cands)
              (if t then closest typed d (some x) cands else closest typed n best cands)
      by_test true e (inl (r, far)) g = inr (
        x,
        r,
        ltb→lt d n e,
        record { earlier = []; later = cands; listed = refl; before = tt; behind = far },
      )
      by_test true e (inr (c, r, lt, near)) g =
          inr (c, r, omega (arith, ltb→lt d n e), one_more c x cands lt near)
      by_test false e h (inl (r, far)) = inl (r, (ltb_false→le d n e, far))
      by_test false e h (inr (c, r, lt, near)) =
          inr (c, r, lt, one_more c x cands (omega (arith, ltb_false→le d n e)) near)

  -- The suggestion by the distances that `levenshtein` computes.
  abbrev Suggested : List Bytes → Option Bytes → Type 0
  Suggested cands none = NoneNearer 3 cands
  Suggested cands (some c) = (levenshtein typed c < 3) × Nearest cands c

  suggested_lem : (cands : List Bytes) → Suggested cands (suggest_command typed cands)
  unfolding suggest_command Outcome
  suggested_lem cands = elim (closest_lem 3 none cands) [
    | inl (e, far) ↦ subst (Suggested cands) (sym e) far
    | inr (c, e, lt, near) ↦ subst (Suggested cands) (sym e) (lt, near)
  ]

  -- Fewer than `n` edits do not make the command of the word.
  abbrev pub AtLeast : ℕ → Bytes → Type 0
  AtLeast n c = (k : ℕ) → Edits typed c k → n ≤ k

  -- The command `c` of the list is `n` edits away, all before it are farther, and none behind it is
  -- nearer.
  pub record FirstNearest (cands : List Bytes) (c : Bytes) (n : ℕ) : Type 0 where
    pub distance : IsLeast typed c n
    pub earlier : List Bytes
    pub later : List Bytes
    pub listed : cands ≡ earlier ++ (c ∷ later)
    pub before : All (AtLeast (n + 1)) earlier
    pub behind : All (AtLeast n) later

  -- The suggestion is the first of the nearest commands, if it is at most two edits away.
  abbrev pub SuggestOk : List Bytes → Option Bytes → Type 0
  SuggestOk cands none = All (AtLeast 3) cands
  SuggestOk cands (some c) = (n : ℕ) × (n ≤ 2) × FirstNearest cands c n

  module _ (short : IsShort typed) where
    exact : (c : Bytes) → IsShort c → IsLeast typed c (levenshtein typed c)
    exact c fits = levenshtein_lem typed c (inr (inr (short, fits)))

    at_least :
        (n : ℕ) (cands : List Bytes)
        → All IsShort cands
        → All (λ x. n ≤ levenshtein typed x) cands
        → All (AtLeast n) cands
    at_least n [] fits far = tt
    at_least n (x ∷ cands) fits far =
        (λ k e. omega (arith, (exact x fits.0).fewest k e, far.0), at_least n cands fits.1 far.1)

    beyond :
        (n : ℕ) (cands : List Bytes)
        → All (λ x. n < levenshtein typed x) cands
        → All (λ x. n + 1 ≤ levenshtein typed x) cands
    beyond n [] far = tt
    beyond n (x ∷ cands) far = (omega (arith, far.0), beyond n cands far.1)

    parts : (xs ys : List Bytes) → All IsShort (xs ++ ys) → All IsShort xs × All IsShort ys
    parts [] ys fits = (tt, fits)
    parts (x ∷ xs) ys fits = let (a, b) = parts xs ys fits.1 in ((fits.0, a), b)

    -- For a word and commands of at most 32 bytes, `suggest_command` answers a command of the list
    -- that is at most two edits away, where an edit inserts, deletes or changes a byte: every command
    -- before it is farther, and none behind it is nearer. It answers none only if every command is
    -- at least three edits away.
    pub suggest_command_lem :
        (cands : List Bytes) → All IsShort cands → SuggestOk cands (suggest_command typed cands)
    suggest_command_lem cands fits = in_edits (suggest_command typed cands) (suggested_lem cands)
      where
        in_edits : (o : Option Bytes) → Suggested cands o → SuggestOk cands o
        in_edits none far = at_least 3 cands fits far
        in_edits (some c) (lt, near) =
            let (a, b) =
              parts near.earlier (c ∷ near.later) (subst (All IsShort) near.listed fits) in
            (
              levenshtein typed c,
              omega arith,
              record {
                distance = exact c b.0;
                earlier = near.earlier;
                later = near.later;
                listed = near.listed;
                before =
                    at_least (levenshtein typed c + 1) near.earlier a
                      (beyond (levenshtein typed c) near.earlier near.before);
                behind = at_least (levenshtein typed c) near.later b.1 near.behind;
              },
            )
