-- ===== src/Ui/Damage/Closest.antt =====
-- `merge_closest_pair` and `merge_into_nearest` of damage.rs: indices in range, and that three
-- entries or more always leave a pair that may be merged.
use coeleo_os.Base.{
  ℕ, ◌+◌, ◌≤◌, ◌<◌, ◌≡◌, refl, sym, ◌∙◌, List, [], ◌∷◌, true, false, not, Option, none, some, arith,
  length, ltb, if◌then◌else◌, ◌⊎◌, Bool-cases, inl, inr, All, lt→ltb, le→ltb_false, subst,
}
use coeleo_os.Ui.Rect.{Rect, rect_is_empty, rect_intersect, rect_intersects, rect_union}
use coeleo_os.Ui.Damage.{
  State, is_strut_rect, pair_ok, rect_gap2, closest_with, closest_pair, closer, merge_closest_pair,
  merge_pair, merge_best, nearest, nearer, work_h,
}
use coeleo_os.Ui.Damage.Cover.{
  Covers, Covers-merge_pair, Covers-coalesce_pending, length-merge_pair, length-coalesce_pending-le,
  All-merge_pair, All-coalesce_pending,
}

abbrev Within : ℕ → Option (ℕ × ℕ × ℕ) → Type 0
Within n none = Unit {0}
Within n (some (i, j, d)) = (i < j) × (j < n)

module _ (st : State) (n : ℕ) where
  -- One round of the inner loop.
  round-Within :
      (a b : Rect) (i j : ℕ) (best : Option (ℕ × ℕ × ℕ))
      → i < j
      → j < n
      → Within n best
      → Within n (
          if not (pair_ok st a b)
          then best
          else if closer (rect_gap2 a b) best
          then some (i, j, rect_gap2 a b)
          else best)
  round-Within a b i j best lt h w = elim (Bool-cases (pair_ok st a b)) [
    | inr e ↦ rw e w
    | inl e ↦ elim (Bool-cases (closer (rect_gap2 a b) best)) [
      | inl c ↦ rw (e, c) (lt, h)
      | inr c ↦ rw (e, c) w
    ]
  ]

  closest_with-Within :
      (a : Rect) (i : ℕ) (rs : List Rect) (j : ℕ) (best : Option (ℕ × ℕ × ℕ))
      → i < j
      → j + length rs ≤ n
      → Within n best
      → Within n (closest_with st a i rs j best)
  unfolding closest_with
  closest_with-Within a i [] j best lt h w = w
  closest_with-Within a i (b ∷ rs) j best lt h w =
      closest_with-Within a i rs (j + 1) _ (omega arith) (omega arith)
        (round-Within a b i j best lt (omega arith) w)

  closest_pair-Within :
      (rs : List Rect) (i : ℕ) (best : Option (ℕ × ℕ × ℕ))
      → i + length rs ≤ n
      → Within n best
      → Within n (closest_pair st rs i best)
  unfolding closest_pair
  closest_pair-Within [] i best h w = w
  closest_pair-Within (a ∷ rs) i best h w =
      closest_pair-Within rs (i + 1) _ (omega arith)
        (closest_with-Within a i rs (i + 1) best (omega arith) (omega arith) w)

module _ (st : State) where
  -- No entry may be merged with a later one.
  abbrev NoPair : List Rect → Type 0
  NoPair [] = Unit {0}
  NoPair (a ∷ rs) = All (λ b. pair_ok st a b ≡ false) rs × NoPair rs

  round_none :
      (a b : Rect) (i j : ℕ) (best : Option (ℕ × ℕ × ℕ))
      → (if not (pair_ok st a b)
          then best
          else if closer (rect_gap2 a b) best
          then some (i, j, rect_gap2 a b)
          else best)
        ≡ none
      → (best ≡ none) × (pair_ok st a b ≡ false)
  round_none a b i j none e = ground (arith, e)
  round_none a b i j (some (k, l, d)) e = ground (arith, e)

  closest_with-none :
      (a : Rect) (i : ℕ) (rs : List Rect) (j : ℕ) (best : Option (ℕ × ℕ × ℕ))
      → closest_with st a i rs j best ≡ none
      → (best ≡ none) × All (λ b. pair_ok st a b ≡ false) rs
  unfolding closest_with
  closest_with-none a i [] j best e = (e, tt)
  closest_with-none a i (b ∷ rs) j best e =
      let later = closest_with-none a i rs (j + 1) _ e in
      let now = round_none a b i j best later.0 in (now.0, (now.1, later.1))

  closest_pair-none :
      (rs : List Rect) (i : ℕ) (best : Option (ℕ × ℕ × ℕ))
      → closest_pair st rs i best ≡ none
      → (best ≡ none) × NoPair rs
  unfolding closest_pair
  closest_pair-none [] i best e = (e, tt)
  closest_pair-none (a ∷ rs) i best e =
      let later = closest_pair-none rs (i + 1) _ e in
      let now = closest_with-none a i rs (i + 1) best later.0 in (now.0, (now.1, later.1))

  refused :
      (a b : Rect)
      → pair_ok st a b ≡ false
      → (rect_intersects a b ≡ false) × ((is_strut_rect st a ≡ true) ⊎ (is_strut_rect st b ≡ true))
  unfolding pair_ok
  refused a b h = ground arith

  corners :
      (a : Rect)
      → is_strut_rect st a ≡ true
      → (a.x0 ≡ 0) × (a.y0 ≡ work_h st.mode st.fb_h) × (a.x1 ≡ st.fb_w) × (a.y1 ≡ st.fb_h)
  unfolding is_strut_rect
  corners a h = ground arith

  same_corners_meet :
      (a b : Rect)
      → a.x0 ≡ b.x0
      → a.y0 ≡ b.y0
      → a.x1 ≡ b.x1
      → a.y1 ≡ b.y1
      → rect_is_empty a ≡ false
      → rect_intersects a b ≡ true
  unfolding rect_intersects rect_intersect rect_is_empty
  same_corners_meet a b p q r s h = ground arith

  struts_meet :
      (a b : Rect)
      → is_strut_rect st a ≡ true
      → is_strut_rect st b ≡ true
      → rect_is_empty a ≡ false
      → rect_intersects a b ≡ true
  struts_meet a b ha hb =
      let p = corners a ha in
      let q = corners b hb in
      same_corners_meet a b (p.0 ∙ sym q.0) (p.1 ∙ sym q.1) (p.2 ∙ sym q.2) (p.3 ∙ sym q.3)

  -- Two copies of the strut meet, so of three entries two may be merged.
  three_have_pair :
      (a b c : Rect)
      → rect_is_empty a ≡ false
      → rect_is_empty b ≡ false
      → pair_ok st a b ≡ false
      → pair_ok st a c ≡ false
      → pair_ok st b c ≡ false
      → ⊥
  three_have_pair a b c ea eb h k l = ground (
    arith,
    refused a b h,
    refused a c k,
    refused b c l,
    struts_meet a b,
    struts_meet a c,
    struts_meet b c,
  )

  NoPair-short :
      (ps : List Rect) → All (λ r. rect_is_empty r ≡ false) ps → NoPair ps → length ps < 3
  NoPair-short [] all h = omega arith
  NoPair-short (a ∷ []) all h = omega arith
  NoPair-short (a ∷ b ∷ []) all h = omega arith
  NoPair-short (a ∷ b ∷ c ∷ ps) all h =
      absurd (three_have_pair a b c all.0 all.1.0 h.0.0 h.0.1.0 h.1.0.0)

bounds :
    (st : State) (ps : List Rect) (i j d : ℕ)
    → closest_pair st ps 0 none ≡ some (i, j, d)
    → (i < j) × (j < length ps)
bounds st ps i j d e =
    subst (Within (length ps)) e (closest_pair-Within st (length ps) ps 0 none (omega arith) tt)

-- In a queue of at least three, merging the closest pair makes room.
merge_best-shorter :
    (st : State) (ps : List Rect) (best : Option (ℕ × ℕ × ℕ))
    → closest_pair st ps 0 none ≡ best
    → All (λ r. rect_is_empty r ≡ false) ps
    → 3 ≤ length ps
    → length (merge_best ps best) < length ps
merge_best-shorter st ps none e all h =
    absurd (omega (arith, NoPair-short st ps all (closest_pair-none st ps 0 none e).1))
merge_best-shorter st ps (some (i, j, d)) e all h =
    let b = bounds st ps i j d e in
    rw (lt→ltb i j b.0)
      (omega (arith, length-coalesce_pending-le (merge_pair ps i j), length-merge_pair ps i j b.1))

pub merge_closest_pair-shorter :
    (st : State) (ps : List Rect)
    → All (λ r. rect_is_empty r ≡ false) ps
    → 3 ≤ length ps
    → length (merge_closest_pair st ps) < length ps
unfolding merge_closest_pair
merge_closest_pair-shorter st ps all h =
    rw (le→ltb_false (length ps) 2 (omega arith))
      (merge_best-shorter st ps (closest_pair st ps 0 none) refl all h)

Covers-merge_best :
    (st : State) (ps : List Rect) (x y : ℕ) (best : Option (ℕ × ℕ × ℕ))
    → closest_pair st ps 0 none ≡ best
    → Covers ps x y
    → Covers (merge_best ps best) x y
Covers-merge_best st ps x y none e c = c
Covers-merge_best st ps x y (some (i, j, d)) e c =
    let b = bounds st ps i j d e in
    rw (lt→ltb i j b.0) (Covers-coalesce_pending x y _ (Covers-merge_pair x y ps i j b.0 b.1 c))

pub Covers-merge_closest_pair :
    (st : State) (ps : List Rect) (x y : ℕ) → Covers ps x y → Covers (merge_closest_pair st ps) x y
unfolding merge_closest_pair
Covers-merge_closest_pair st ps x y c = elim (Bool-cases (ltb (length ps) 2)) [
  | inl e ↦ rw e c
  | inr e ↦ rw e (Covers-merge_best st ps x y (closest_pair st ps 0 none) refl c)
]

module _ (P : Rect → Type 0) (join : (a b : Rect) → P a → P b → P (rect_union a b)) where
  All-merge_best :
      (st : State) (ps : List Rect) (best : Option (ℕ × ℕ × ℕ))
      → closest_pair st ps 0 none ≡ best
      → All P ps
      → All P (merge_best ps best)
  All-merge_best st ps none e all = all
  All-merge_best st ps (some (i, j, d)) e all =
      let b = bounds st ps i j d e in
      rw (lt→ltb i j b.0) (All-coalesce_pending P join _ (All-merge_pair P join ps i j b.0 b.1 all))

  pub All-merge_closest_pair :
      (st : State) (ps : List Rect) → All P ps → All P (merge_closest_pair st ps)
  unfolding merge_closest_pair
  All-merge_closest_pair st ps all = elim (Bool-cases (ltb (length ps) 2)) [
    | inl e ↦ rw e all
    | inr e ↦ rw e (All-merge_best st ps (closest_pair st ps 0 none) refl all)
  ]

abbrev pub Below : ℕ → Option (ℕ × ℕ) → Type 0
Below n none = Unit {0}
Below n (some (i, d)) = i < n

-- The entry that `merge_into_nearest` picks is one of the queue's.
pub nearest-Below :
    (st : State) (n : ℕ) (cur : Rect) (ps : List Rect) (i : ℕ) (best : Option (ℕ × ℕ))
    → i + length ps ≤ n
    → Below n best
    → Below n (nearest st cur ps i best)
unfolding nearest
nearest-Below st n cur [] i best h w = w
nearest-Below st n cur (p ∷ ps) i best h w =
    nearest-Below st n cur ps (i + 1) _ (omega arith) (next (omega arith))
  where
    next :
        i < n
        → Below n (
            if not (pair_ok st p cur)
            then best
            else if nearer (rect_gap2 p cur) best
            then some (i, rect_gap2 p cur)
            else best)
    next lt = elim (Bool-cases (pair_ok st p cur)) [
      | inr e ↦ rw e w
      | inl e ↦ elim (Bool-cases (nearer (rect_gap2 p cur) best)) [
        | inl c ↦ rw (e, c) lt
        | inr c ↦ rw (e, c) w
      ]
    ]
