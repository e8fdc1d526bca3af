-- ===== src/Ui/Rect.antt =====
-- kernel/src/ui/comp/rect.rs: half-open rectangles of pixels, by their corners.
pub mod Laws
mod Tests
use coeleo_os.Base.{
  ℕ, zero, suc, ◌+◌, ◌≤◌, ◌<◌, List, [], ◌∷◌, ◌++◌, Bool, true, false, not, ◌&&◌, ◌||◌, min, max,
  leb, ltb, if◌then◌else◌,
}

pub record Rect : Type 0 where
  pub x0 : ℕ
  pub y0 : ℕ
  pub x1 : ℕ
  pub y1 : ℕ

abbrev pub rect_empty : Rect
rect_empty = record { x0 = 0; y0 = 0; x1 = 0; y1 = 0 }

unfoldable pub rect_is_empty : Rect → Bool
rect_is_empty r = leb r.x1 r.x0 || leb r.y1 r.y0

unfoldable pub rect_intersect : Rect → Rect → Rect
rect_intersect a b = record {
  x0 = max a.x0 b.x0;
  y0 = max a.y0 b.y0;
  x1 = min a.x1 b.x1;
  y1 = min a.y1 b.y1;
}

unfoldable pub rect_union : Rect → Rect → Rect
rect_union a b =
    if rect_is_empty a
    then b
    else if rect_is_empty b
    then a
    else record { x0 = min a.x0 b.x0; y0 = min a.y0 b.y0; x1 = max a.x1 b.x1; y1 = max a.y1 b.y1 }

unfoldable pub rect_intersects : Rect → Rect → Bool
rect_intersects a b = not (rect_is_empty (rect_intersect a b))

unfoldable pub rect_contains : Rect → ℕ → ℕ → Bool
rect_contains a x y = leb a.x0 x && ltb x a.x1 && leb a.y0 y && ltb y a.y1

-- `out[n] = r; n += 1`, if the test holds.
abbrev keep_if : Bool → Rect → List Rect
keep_if true r = r ∷ []
keep_if false r = []

-- The first `n` entries of the array, which are those that count.
unfoldable pub rect_sub : Rect → Rect → List Rect
rect_sub a hole =
    let i = rect_intersect a hole in
    if rect_is_empty i
    then a ∷ []
    else (keep_if (ltb a.y0 i.y0) (record { x0 = a.x0; y0 = a.y0; x1 = a.x1; y1 = i.y0 })
        ++ (keep_if (ltb i.y1 a.y1) (record { x0 = a.x0; y0 = i.y1; x1 = a.x1; y1 = a.y1 })
            ++ (keep_if (ltb a.x0 i.x0) (record { x0 = a.x0; y0 = i.y0; x1 = i.x0; y1 = i.y1 })
                ++ keep_if (ltb i.x1 a.x1)
                    (record { x0 = i.x1; y0 = i.y0; x1 = a.x1; y1 = i.y1 }))))
