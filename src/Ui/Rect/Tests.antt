-- ===== src/Ui/Rect/Tests.antt =====
-- The theorems of rect.rs at concrete rectangles.
use coeleo_os.Base.{◌≤◌, ◌≡◌, refl, [], ◌∷◌, true, not, ◌&&◌, length, if◌then◌else◌}
use coeleo_os.Ui.Rect.{Rect, rect_is_empty, rect_intersect, rect_union, rect_contains, rect_sub}
use coeleo_os.Ui.Rect.Laws.{
  count_contains, rect_contains-rect_intersect, rect_contains-rect_union, rect_sub_lem,
}

abbrev window : Rect
window = record { x0 = 10; y0 = 10; x1 = 30; y1 = 20 }

abbrev menu : Rect
menu = record { x0 = 15; y0 = 5; x1 = 40; y1 = 15 }

sub_two :
    rect_sub window menu
    ≡ record { x0 = 10; y0 = 15; x1 = 30; y1 = 20 }
      ∷ record { x0 = 10; y0 = 10; x1 = 15; y1 = 15 }
      ∷ []
unfolding rect_sub rect_intersect rect_is_empty
sub_two = refl

rect_sub_lem_example :
    (count_contains (rect_sub window menu) 12 12
      ≡ (if rect_contains window 12 12 && not (rect_contains menu 12 12) then 1 else 0))
    × (length (rect_sub window menu) ≤ 4)
rect_sub_lem_example = rect_sub_lem window menu 12 12

rect_contains-rect_intersect_example :
    rect_contains (rect_intersect window menu) 20 12
    ≡ (rect_contains window 20 12 && rect_contains menu 20 12)
rect_contains-rect_intersect_example = rect_contains-rect_intersect window menu 20 12

rect_contains-rect_union_example : rect_contains (rect_union window menu) 12 18 ≡ true
unfolding rect_contains
rect_contains-rect_union_example = rect_contains-rect_union window menu 12 18 refl
