-- ===== src/Ui/Damage/Tests.antt =====
-- Runs of damage.rs, and its theorems at a full queue.
use coeleo_os.Base.{ℕ, ◌+◌, ◌<◌, ◌≡◌, refl, [], ◌∷◌, true, false, some, arith, get_elem?, length}
use coeleo_os.Ui.Rect.{
  Rect, rect_is_empty, rect_intersects, rect_contains, rect_intersect, rect_union,
}
use coeleo_os.Ui.Rect.Laws.{any_contains}
use coeleo_os.Ui.Damage.{
  State, full, note, coalesce_pending, coalesce, find_pair, find_hit, merge_pair, pending_remove,
  absorb, enqueue, merge_closest_pair, pair_ok, is_strut_rect, work_h, rect_gap2, closest_pair,
  closest_with,
}
use coeleo_os.Ui.Damage.Cover.{coalesce_pending_apart}
use coeleo_os.Ui.Damage.Note.{IsValid, note-IsValid, note_covers}

abbrev box : ℕ → ℕ → Rect
box x y = record { x0 = x; y0 = y; x1 = x + 10; y1 = y + 10 }

-- Eight separate boxes fill the queue.
abbrev crowded : State
crowded = record {
  fb_w = 640;
  fb_h = 480;
  mode = full;
  pending =
      box 0 0
      ∷ box 100 0
      ∷ box 200 0
      ∷ box 300 0
      ∷ box 0 100
      ∷ box 100 100
      ∷ box 200 100
      ∷ box 300 100
      ∷ [];
}

abbrev strut : Rect
strut = record { x0 = 0; y0 = 448; x1 = 640; y1 = 480 }

crowded-IsValid : IsValid crowded
unfolding rect_is_empty
crowded-IsValid = ground arith

-- The panel takes the room that a merge of two boxes makes.
note-strut : length (note crowded strut).pending ≡ 8
unfolding note absorb enqueue merge_closest_pair closest_pair closest_with pair_ok is_strut_rect
    work_h rect_gap2 coalesce_pending coalesce find_pair find_hit merge_pair pending_remove
    rect_is_empty rect_intersects rect_intersect rect_union
note-strut = refl

note-IsValid_example : IsValid (note crowded strut)
note-IsValid_example = note-IsValid crowded strut crowded-IsValid

note_covers_example : any_contains (note crowded strut).pending 105 5 ≡ true
unfolding any_contains rect_contains
note_covers_example = note_covers crowded strut 105 5 crowded-IsValid refl

coalesce_pending_apart_example :
    ((i j : ℕ) (a b : Rect)
      → i < j
      → get_elem? (coalesce_pending (box 0 0 ∷ box 5 5 ∷ box 12 12 ∷ [])) i ≡ some a
      → get_elem? (coalesce_pending (box 0 0 ∷ box 5 5 ∷ box 12 12 ∷ [])) j ≡ some b
      → rect_intersects a b ≡ false)
    × ((x y : ℕ)
        → any_contains (box 0 0 ∷ box 5 5 ∷ box 12 12 ∷ []) x y ≡ true
        → any_contains (coalesce_pending (box 0 0 ∷ box 5 5 ∷ box 12 12 ∷ [])) x y ≡ true)
coalesce_pending_apart_example = coalesce_pending_apart (box 0 0 ∷ box 5 5 ∷ box 12 12 ∷ [])
