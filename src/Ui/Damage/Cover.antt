-- ===== src/Ui/Damage/Cover.antt =====
-- Merging entries of the queue of damage.rs loses no pixel, and `coalesce_pending` ends with
-- entries that do not meet.
use coeleo_os.Base.{
  ℕ, zero, suc, ◌+◌, ◌≤◌, ◌<◌, ◌≡◌, ◌≢◌, refl, sym, ap, ◌∙◌, subst, List, [], ◌∷◌, ◌++◌, Bool, true,
  false, Option, none, some, arith, length, get_elem?, get_or, set, Bool-cases, inl, inr, All,
  All-set, All-get_elem?, length-set, get_elem?-lt, get_elem?-get_or, get_elem?-set_self,
  get_elem?-set_ne, get_elem?-append_last, get_elem?-append_left, Option-cases,
}
use mathlib.Core.Option.{some-injective}
use native.Mathlib.Decide.{ℕ_discrete}
use coeleo_os.Ui.Rect.{Rect, rect_empty, rect_intersects, rect_union, rect_contains}
use coeleo_os.Ui.Rect.Laws.{any_contains, rect_contains-rect_union}
use coeleo_os.Ui.Damage.{
  pending_remove, find_hit, find_pair, merge_pair, coalesce, coalesce_pending, pair_with,
}
use coeleo_os.Ui.Damage.Queue.{
  find_pair-lt, length-pending_remove, get_elem?-pending_remove, All-pending_remove,
}

-- Some entry holds the pixel.
abbrev pub Covers : List Rect → ℕ → ℕ → Type 0
Covers ps x y = (k : ℕ) × (r : Rect) × (get_elem? ps k ≡ some r) × (rect_contains r x y ≡ true)

pub any_contains→Covers : (ps : List Rect) (x y : ℕ) → any_contains ps x y ≡ true → Covers ps x y
unfolding any_contains
any_contains→Covers [] x y h = cc
any_contains→Covers (r ∷ ps) x y h = elim (Bool-cases (rect_contains r x y)) [
  | inl e ↦ (0, r, refl, e)
  | inr e ↦ let (k, s, at, c) = any_contains→Covers ps x y (ground (arith, e)) in (suc k, s, at, c)
]

pub Covers→any_contains :
    (ps : List Rect) (x y k : ℕ) {r : Rect}
    → get_elem? ps k ≡ some r
    → rect_contains r x y ≡ true
    → any_contains ps x y ≡ true
unfolding any_contains
Covers→any_contains [] x y k e c = cc
Covers→any_contains (s ∷ ps) x y zero {r} e c = rw (some-injective s r e, c)
Covers→any_contains (s ∷ ps) x y (suc k) e c = ground (arith, Covers→any_contains ps x y k e c)

module _ (x y : ℕ) where
  union_left : (a b : Rect) → rect_contains a x y ≡ true → rect_contains (rect_union a b) x y ≡ true
  union_left a b h = rect_contains-rect_union a b x y (rw h)

  pub union_right :
      (a b : Rect) → rect_contains b x y ≡ true → rect_contains (rect_union a b) x y ≡ true
  union_right a b h = rect_contains-rect_union a b x y (ground (arith, h))

  -- Growing an entry by a union.
  pub Covers-set_union :
      (ps : List Rect) (i : ℕ) (b : Rect)
      → i < length ps
      → Covers ps x y
      → Covers (set ps i (rect_union (get_or ps i rect_empty) b)) x y
  Covers-set_union ps i b h (k, r, e, c) = elim (ℕ_discrete i k) [
    | yes same ↦ (
      i,
      rect_union (get_or ps i rect_empty) b,
      get_elem?-set_self ps i _ h,
      union_left _ b (subst (λ s. rect_contains s x y ≡ true) (entry same) c),
    )
    | no other ↦ (k, r, get_elem?-set_ne ps i k _ other ∙ e, c)
  ]
    where
      entry : i ≡ k → r ≡ get_or ps i rect_empty
      entry same =
          some-injective r (get_or ps i rect_empty)
            (sym e ∙ ap (get_elem? ps) (sym same) ∙ get_elem?-get_or ps i rect_empty h)

  pub Covers-set_union_new :
      (ps : List Rect) (i : ℕ) (b : Rect)
      → i < length ps
      → rect_contains b x y ≡ true
      → Covers (set ps i (rect_union (get_or ps i rect_empty) b)) x y
  Covers-set_union_new ps i b h c =
      (i, rect_union (get_or ps i rect_empty) b, get_elem?-set_self ps i _ h, union_right _ b c)

  pub Covers-append : (ps : List Rect) (cur : Rect) → Covers ps x y → Covers (ps ++ (cur ∷ [])) x y
  Covers-append ps cur (k, r, e, c) =
      (k, r, get_elem?-append_left ps (cur ∷ []) k (get_elem?-lt ps k e) ∙ e, c)

  pub Covers-append_new :
      (ps : List Rect) (cur : Rect) → rect_contains cur x y ≡ true → Covers (ps ++ (cur ∷ [])) x y
  Covers-append_new ps cur c = (length ps, cur, get_elem?-append_last ps cur, c)

  -- Merging entry `j` into entry `i`.
  pub Covers-merge_pair :
      (ps : List Rect) (i j : ℕ)
      → i < j
      → j < length ps
      → Covers ps x y
      → Covers (merge_pair ps i j) x y
  unfolding merge_pair
  Covers-merge_pair ps i j lt h (k, r, e, c) = elim (ℕ_discrete k j) [
    | yes taken ↦
        kept i both (omega arith) (get_elem?-set_self ps i both (omega arith))
          (union_right pi pj (subst holds (entry j h taken) c))
    | no other ↦ elim (ℕ_discrete k i) [
      | yes grown ↦
          kept i both (omega arith) (get_elem?-set_self ps i both (omega arith))
            (union_left pi pj (subst holds (entry i (omega arith) grown) c))
      | no apart ↦ kept k r other (get_elem?-set_ne ps i k both (λ q. apart (sym q)) ∙ e) c
    ]
  ]
    where
      pi : Rect
      pi = get_or ps i rect_empty

      pj : Rect
      pj = get_or ps j rect_empty

      both : Rect
      both = rect_union pi pj

      holds : Rect → Type 0
      holds s = rect_contains s x y ≡ true

      entry : (l : ℕ) → l < length ps → k ≡ l → r ≡ get_or ps l rect_empty
      entry l hl same =
          some-injective r (get_or ps l rect_empty)
            (sym e ∙ ap (get_elem? ps) same ∙ get_elem?-get_or ps l rect_empty hl)

      kept :
          (l : ℕ) (s : Rect)
          → l ≢ j
          → get_elem? (set ps i both) l ≡ some s
          → rect_contains s x y ≡ true
          → Covers (pending_remove (set ps i both) j) x y
      kept l s ne el cs =
          let (m, em) = get_elem?-pending_remove (set ps i both) j l ne el in (m, s, em, cs)

  -- Coalescing loses no pixel.
  Covers-coalesce : (fuel : ℕ) (ps : List Rect) → Covers ps x y → Covers (coalesce fuel ps) x y
  unfolding coalesce
  Covers-coalesce zero ps c = c
  Covers-coalesce (suc fuel) ps c = elim (Option-cases (find_pair ps 0)) [
    | inl e ↦ rw (e, coalesce) c
    | inr ((i, j), e) ↦
        let b = find_pair-lt ps 0 {k = i} {l = j} e in
        rw (e, coalesce)
          (Covers-coalesce fuel (merge_pair ps i j)
            (Covers-merge_pair ps i j b.1 (omega (arith, b.2)) c))
  ]

  pub Covers-coalesce_pending : (ps : List Rect) → Covers ps x y → Covers (coalesce_pending ps) x y
  unfolding coalesce_pending
  Covers-coalesce_pending ps c = Covers-coalesce (length ps) ps c

pub length-merge_pair :
    (ps : List Rect) (i j : ℕ) → j < length ps → length (merge_pair ps i j) + 1 ≡ length ps
unfolding merge_pair
length-merge_pair ps i j h =
    length-pending_remove _ j (omega (arith, length-set ps i (rect_union _ _))) ∙ length-set ps i _

length-coalesce-le : (fuel : ℕ) (ps : List Rect) → length (coalesce fuel ps) ≤ length ps
unfolding coalesce
length-coalesce-le zero ps = omega arith
length-coalesce-le (suc fuel) ps = elim (Option-cases (find_pair ps 0)) [
  | inl e ↦ rw (e, coalesce) (omega arith)
  | inr ((i, j), e) ↦
      let b = find_pair-lt ps 0 {k = i} {l = j} e in
      rw (e, coalesce)
        (omega (
          arith,
          length-coalesce-le fuel (merge_pair ps i j),
          length-merge_pair ps i j (omega (arith, b.2)),
        ))
]

pub length-coalesce_pending-le : (ps : List Rect) → length (coalesce_pending ps) ≤ length ps
unfolding coalesce_pending
length-coalesce_pending-le ps = length-coalesce-le (length ps) ps

short_pairs : (ps : List Rect) → length ps ≤ 0 → find_pair ps 0 ≡ none
unfolding find_pair
short_pairs [] h = refl
short_pairs (p ∷ ps) h = absurd (omega arith)

coalesce_done :
    (fuel : ℕ) (ps : List Rect) → length ps ≤ fuel → find_pair (coalesce fuel ps) 0 ≡ none
unfolding coalesce
coalesce_done zero ps h = short_pairs ps h
coalesce_done (suc fuel) ps h = elim (Option-cases (find_pair ps 0)) [
  | inl e ↦ rw (e, coalesce) e
  | inr ((i, j), e) ↦
      let b = find_pair-lt ps 0 {k = i} {l = j} e in
      rw (e, coalesce)
        (coalesce_done fuel (merge_pair ps i j)
          (omega (arith, length-merge_pair ps i j (omega (arith, b.2)))))
]

module _ (P : Rect → Type 0) (join : (a b : Rect) → P a → P b → P (rect_union a b)) where
  at : (ps : List Rect) → All P ps → (i : ℕ) → i < length ps → P (get_or ps i rect_empty)
  at ps all i h = All-get_elem? P ps i all (get_elem?-get_or ps i rect_empty h)

  pub All-set_union :
      (ps : List Rect) (i : ℕ) (b : Rect)
      → i < length ps
      → P b
      → All P ps
      → All P (set ps i (rect_union (get_or ps i rect_empty) b))
  All-set_union ps i b h pb all = All-set P ps i _ (join _ b (at ps all i h) pb) all

  pub All-merge_pair :
      (ps : List Rect) (i j : ℕ) → i < j → j < length ps → All P ps → All P (merge_pair ps i j)
  unfolding merge_pair
  All-merge_pair ps i j lt h all =
      All-pending_remove P _ (All-set_union ps i _ (omega arith) (at ps all j h) all) j

  All-coalesce : (fuel : ℕ) (ps : List Rect) → All P ps → All P (coalesce fuel ps)
  unfolding coalesce
  All-coalesce zero ps all = all
  All-coalesce (suc fuel) ps all = elim (Option-cases (find_pair ps 0)) [
    | inl e ↦ rw (e, coalesce) all
    | inr ((i, j), e) ↦
        let b = find_pair-lt ps 0 {k = i} {l = j} e in
        rw (e, coalesce)
          (All-coalesce fuel (merge_pair ps i j)
            (All-merge_pair ps i j b.1 (omega (arith, b.2)) all))
  ]

  pub All-coalesce_pending : (ps : List Rect) → All P ps → All P (coalesce_pending ps)
  unfolding coalesce_pending
  All-coalesce_pending ps all = All-coalesce (length ps) ps all

find_hit-none :
    (hits : Rect → Bool) (rs : List Rect) (j k : ℕ) {b : Rect}
    → find_hit hits rs j ≡ none
    → get_elem? rs k ≡ some b
    → hits b ≡ false
unfolding find_hit
find_hit-none hits [] j k h e = cc
find_hit-none hits (s ∷ rs) j zero {b} h e = rw (← some-injective s b e) (ground (arith, h))
find_hit-none hits (s ∷ rs) j (suc k) h e = find_hit-none hits rs (j + 1) k (ground (arith, h)) e

find_pair-none :
    (ps : List Rect) (n i j : ℕ) {a b : Rect}
    → find_pair ps n ≡ none
    → i < j
    → get_elem? ps i ≡ some a
    → get_elem? ps j ≡ some b
    → rect_intersects a b ≡ false
unfolding find_pair
find_pair-none [] n i j h lt ea eb = cc
find_pair-none (r ∷ rs) n i zero h lt ea eb = absurd (omega arith)
find_pair-none (r ∷ rs) n zero (suc j) {a} h lt ea eb =
    rw (← some-injective r a ea)
      (find_hit-none (rect_intersects r) rs (n + 1) j (ground (arith, h)) eb)
find_pair-none (r ∷ rs) n (suc i) (suc j) h lt ea eb =
    find_pair-none rs (n + 1) i j (later (find_hit (rect_intersects r) rs (n + 1)) h) (omega arith)
      ea eb
  where
    later :
        (hit : Option ℕ)
        → pair_with n hit (find_pair rs (n + 1)) ≡ none
        → find_pair rs (n + 1) ≡ none
    later none e = e
    later (some j) e = cc

-- After `coalesce_pending` no two entries meet, and every pixel is still covered. The fuel, one
-- round for each entry, is enough: the loop ends because no pair is left.
pub coalesce_pending_apart :
    (ps : List Rect)
    → ((i j : ℕ) (a b : Rect)
        → i < j
        → get_elem? (coalesce_pending ps) i ≡ some a
        → get_elem? (coalesce_pending ps) j ≡ some b
        → rect_intersects a b ≡ false)
      × ((x y : ℕ) → any_contains ps x y ≡ true → any_contains (coalesce_pending ps) x y ≡ true)
unfolding coalesce_pending
coalesce_pending_apart ps = (
  (λ i j a b lt ea eb.
      find_pair-none (coalesce (length ps) ps) 0 i j (coalesce_done (length ps) ps (omega arith)) lt
        ea eb),
  (λ x y h.
      let (k, r, e, c) = Covers-coalesce x y (length ps) ps (any_contains→Covers ps x y h) in
      Covers→any_contains (coalesce (length ps) ps) x y k e c),
)
