-- ===== src/Ui/Rect/Laws.antt =====
-- rect.rs by the pixels that a rectangle holds.
use coeleo_os.Base.{
  ℕ, ◌+◌, ◌≤◌, ◌<◌, ◌≡◌, ◌↔◌, ◌∙◌, ap₂, List, [], ◌∷◌, ◌++◌, Bool, true, false, not, ◌&&◌, ◌||◌,
  arith, leb, ltb, max, if◌then◌else◌, length, Bool-cases, inl, inr,
}
use coeleo_os.Ui.Rect.{
  Rect, rect_is_empty, rect_intersect, rect_union, rect_intersects, rect_contains, rect_sub,
  keep_if,
}

-- A pixel lies in one of the rectangles.
unfoldable pub any_contains : List Rect → ℕ → ℕ → Bool
any_contains [] x y = false
any_contains (r ∷ rs) x y = rect_contains r x y || any_contains rs x y

-- The number of rectangles of a list that hold the pixel.
unfoldable pub count_contains : List Rect → ℕ → ℕ → ℕ
count_contains [] x y = 0
count_contains (r ∷ rs) x y = (if rect_contains r x y then 1 else 0) + count_contains rs x y

-- A pixel lies in an intersection exactly if it lies in both rectangles.
pub rect_contains-rect_intersect :
    (a b : Rect) (x y : ℕ)
    → rect_contains (rect_intersect a b) x y ≡ (rect_contains a x y && rect_contains b x y)
unfolding rect_contains rect_intersect
rect_contains-rect_intersect a b x y = ground arith

pub rect_contains-rect_is_empty :
    (a : Rect) (x y : ℕ) → rect_is_empty a ≡ true → rect_contains a x y ≡ false
unfolding rect_contains rect_is_empty
rect_contains-rect_is_empty a x y h = ground arith

-- A union covers both rectangles.
pub rect_contains-rect_union :
    (a b : Rect) (x y : ℕ)
    → (rect_contains a x y || rect_contains b x y) ≡ true
    → rect_contains (rect_union a b) x y ≡ true
unfolding rect_contains rect_union rect_is_empty
rect_contains-rect_union a b x y h = ground arith

-- Two rectangles intersect exactly if they share a pixel.
pub rect_intersects_iff :
    (a b : Rect)
    → (rect_intersects a b ≡ true)
      ↔ ((x : ℕ) × (y : ℕ) × ((rect_contains a x y && rect_contains b x y) ≡ true))
unfolding rect_contains rect_intersects rect_intersect rect_is_empty
rect_intersects_iff a b =
    ((λ h. (max a.x0 b.x0, max a.y0 b.y0, ground arith)), (λ (x, y, h). ground arith))

abbrev one : Bool → ℕ
one b = if b then 1 else 0

count_contains-append :
    (rs ss : List Rect) (x y : ℕ)
    → count_contains (rs ++ ss) x y ≡ count_contains rs x y + count_contains ss x y
unfolding count_contains
count_contains-append [] ss x y = omega arith
count_contains-append (r ∷ rs) ss x y = omega (arith, count_contains-append rs ss x y)

count_contains-keep_if :
    (t : Bool) (r : Rect) (x y : ℕ)
    → (rect_contains r x y ≡ true → t ≡ true)
    → count_contains (keep_if t r) x y ≡ one (rect_contains r x y)
unfolding count_contains
count_contains-keep_if true r x y h = omega arith
count_contains-keep_if false r x y h = elim (Bool-cases (rect_contains r x y)) [
  | inl e ↦ cc (h e)
  | inr e ↦ rw e
]

abbrev within : ℕ → ℕ → ℕ → Bool
within lo hi x = leb lo x && ltb x hi

by_axes : (r : Rect) (x y : ℕ) → rect_contains r x y ≡ (within r.x0 r.x1 x && within r.y0 r.y1 y)
unfolding rect_contains
by_axes r x y = ground arith

-- An inner interval cuts an interval into three.
thirds :
    (a b c d x : ℕ)
    → a ≤ b
    → b < c
    → c ≤ d
    → one (within a b x) + (one (within b c x) + one (within c d x)) ≡ one (within a d x)
thirds a b c d x p q r = ground arith

grid :
    (xl xm xr ax yl ym yr ay : Bool)
    → one xl + (one xm + one xr) ≡ one ax
    → one yl + (one ym + one yr) ≡ one ay
    → one (ax && yl) + (one (ax && yr) + (one (xl && ym) + one (xr && ym)))
      ≡ one ((ax && ay) && not (xm && ym))
grid xl xm xr true yl ym yr ay h k = ground arith
grid xl xm xr false yl ym yr ay h k = ground arith

-- The four pieces around an inner rectangle, and the inner rectangle, make up the outer one.
module _ (a i : Rect) (x y : ℕ) where
  abbrev above : Rect
  above = record { x0 = a.x0; y0 = a.y0; x1 = a.x1; y1 = i.y0 }

  abbrev below : Rect
  below = record { x0 = a.x0; y0 = i.y1; x1 = a.x1; y1 = a.y1 }

  abbrev left : Rect
  left = record { x0 = a.x0; y0 = i.y0; x1 = i.x0; y1 = i.y1 }

  abbrev right : Rect
  right = record { x0 = i.x1; y0 = i.y0; x1 = a.x1; y1 = i.y1 }

  pieces :
      rect_is_empty i ≡ false
      → a.x0 ≤ i.x0
      → i.x1 ≤ a.x1
      → a.y0 ≤ i.y0
      → i.y1 ≤ a.y1
      → one (rect_contains above x y)
          + (one (rect_contains below x y)
              + (one (rect_contains left x y) + one (rect_contains right x y)))
        ≡ one (rect_contains a x y && not (rect_contains i x y))
  unfolding rect_is_empty
  pieces h l r t b =
      rw (by_axes above, by_axes below, by_axes left, by_axes right, by_axes a, by_axes i)
        (grid _ _ _ _ _ _ _ _ (thirds a.x0 i.x0 i.x1 a.x1 x l (ground arith) r)
          (thirds a.y0 i.y0 i.y1 a.y1 y t (ground arith) b))

  counted :
      count_contains
        (keep_if (ltb a.y0 i.y0) above
          ++ (keep_if (ltb i.y1 a.y1) below
              ++ (keep_if (ltb a.x0 i.x0) left ++ keep_if (ltb i.x1 a.x1) right)))
        x
        y
      ≡ one (rect_contains above x y)
        + (one (rect_contains below x y)
            + (one (rect_contains left x y) + one (rect_contains right x y)))
  unfolding rect_contains
  counted =
      rw
        (
          count_contains-append (keep_if (ltb a.y0 i.y0) above),
          count_contains-append (keep_if (ltb i.y1 a.y1) below),
          count_contains-append (keep_if (ltb a.x0 i.x0) left),
        )
        (ap₂ ◌+◌ (count_contains-keep_if (ltb a.y0 i.y0) above x y (λ h. ground arith)) (
          ap₂ ◌+◌ (count_contains-keep_if (ltb i.y1 a.y1) below x y (λ h. ground arith)) (
            ap₂ ◌+◌ (count_contains-keep_if (ltb a.x0 i.x0) left x y (λ h. ground arith))
              (count_contains-keep_if (ltb i.x1 a.x1) right x y (λ h. ground arith)))))

inner :
    (a b : Rect)
    → let i = rect_intersect a b in (a.x0 ≤ i.x0) × (i.x1 ≤ a.x1) × (a.y0 ≤ i.y0) × (i.y1 ≤ a.y1)
unfolding rect_intersect
inner a b = omega arith

four :
    (t u v w : Bool) (p q r s : Rect)
    → length (keep_if t p ++ (keep_if u q ++ (keep_if v r ++ keep_if w s))) ≤ 4
four true true true true p q r s = omega arith
four t u v w p q r s = ground arith

-- `rect_sub` cuts the hole out: a pixel of `a` outside the hole lies in exactly one of the pieces,
-- and every other pixel in none of them. There are at most four pieces.
pub rect_sub_lem :
    (a hole : Rect) (x y : ℕ)
    → (count_contains (rect_sub a hole) x y
        ≡ (if rect_contains a x y && not (rect_contains hole x y) then 1 else 0))
      × (length (rect_sub a hole) ≤ 4)
unfolding rect_sub count_contains
rect_sub_lem a hole x y = elim (Bool-cases (rect_is_empty (rect_intersect a hole))) [
  | inl e ↦ rw e (whole e, omega arith)
  | inr e ↦ rw e (
    counted a (rect_intersect a hole) x y ∙ cut e,
    four (ltb a.y0 (rect_intersect a hole).y0) (ltb (rect_intersect a hole).y1 a.y1)
        (ltb a.x0 (rect_intersect a hole).x0) (ltb (rect_intersect a hole).x1 a.x1) _ _ _ _,
  )
]
  where
    whole :
        rect_is_empty (rect_intersect a hole) ≡ true
        → one (rect_contains a x y) + 0 ≡ one (rect_contains a x y && not (rect_contains hole x y))
    whole e = ground (
      arith,
      rect_contains-rect_is_empty (rect_intersect a hole) x y e,
      rect_contains-rect_intersect a hole x y,
    )

    cut :
        rect_is_empty (rect_intersect a hole) ≡ false
        → one (rect_contains (above a (rect_intersect a hole) x y) x y)
            + (one (rect_contains (below a (rect_intersect a hole) x y) x y)
                + (one (rect_contains (left a (rect_intersect a hole) x y) x y)
                    + one (rect_contains (right a (rect_intersect a hole) x y) x y)))
          ≡ one (rect_contains a x y && not (rect_contains hole x y))
    cut e =
        pieces a (rect_intersect a hole) x y e (inner a hole).0 (inner a hole).1 (inner a hole).2
          (inner a hole).3
        ∙ ground (arith, rect_contains-rect_intersect a hole x y)
