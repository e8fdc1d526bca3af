-- ===== src/Ui/Damage.antt =====
-- kernel/src/ui/comp/damage.rs with the parts of geom.rs and panel.rs that it asks: the queue of
-- dirty rectangles. `pending` is the list of the first `n_pending` entries of the array, the only
-- ones that are read. `flush_damage`, a copy of pixels, is left out of the model.
pub mod Queue
pub mod Cover
pub mod Closest
pub mod Note
mod Tests
use coeleo_os.Base.{
  ℕ, zero, suc, ◌+◌, ◌-◌, ◌*◌, ◌<◌, List, [], ◌∷◌, ◌++◌, Bool, true, false, not, ◌&&◌, ◌||◌, Option,
  none, some, min, length, get_or, set, take, leb, ltb, ◌==◌, if◌then◌else◌,
}
use coeleo_os.Base.Bytes.{u64_mod}
use coeleo_os.Ui.Rect.{Rect, rect_empty, rect_is_empty, rect_intersect, rect_intersects, rect_union}

abbrev pub damage_cap : ℕ
damage_cap = 8

pub data Mode : Type 0 where
  float : Mode
  full : Mode

-- The fields of the compositor's state that damage depends on, the panel's mode among them.
pub record State : Type 0 where
  pub fb_w : ℕ
  pub fb_h : ℕ
  pub mode : Mode
  pub pending : List Rect

-- `saturating_sub` is the subtraction of ℕ.
unfoldable pub work_h : Mode → ℕ → ℕ
work_h float fb_h = fb_h - (32 + 7)
work_h full fb_h = fb_h - 32

abbrev pub fb_rect : State → Rect
fb_rect st = record { x0 = 0; y0 = 0; x1 = st.fb_w; y1 = st.fb_h }

abbrev pub strut_rect : State → Rect
strut_rect st = record { x0 = 0; y0 = work_h st.mode st.fb_h; x1 = st.fb_w; y1 = st.fb_h }

unfoldable pub is_strut_rect : State → Rect → Bool
is_strut_rect st r =
    let s = strut_rect st in (r.x0 == s.x0) && (r.y0 == s.y0) && (r.x1 == s.x1) && (r.y1 == s.y1)

-- The gap between two intervals.
abbrev gap : ℕ → ℕ → ℕ → ℕ → ℕ
gap a0 a1 b0 b1 = if ltb a1 b0 then b0 - a1 else if ltb b1 a0 then a0 - b1 else 0

abbrev saturate : ℕ → ℕ
saturate n = min n (u64_mod - 1)

unfoldable pub rect_gap2 : Rect → Rect → ℕ
rect_gap2 a b =
    let gx = gap a.x0 a.x1 b.x0 b.x1 in
    let gy = gap a.y0 a.y1 b.y0 b.y1 in
    if rect_intersects a b then 0 else saturate (saturate (gx * gx) + saturate (gy * gy))

-- The last entry takes the place of entry `i`.
unfoldable pub pending_remove : List Rect → ℕ → List Rect
pending_remove ps i =
    let n = length ps - 1 in
    if leb (length ps) i
    then ps
    else take n (if ltb i n then set ps i (get_or ps n rect_empty) else ps)

-- The first entry of `rs` that passes a test, the entries counted from `j`.
unfoldable pub find_hit : (Rect → Bool) → List Rect → ℕ → Option ℕ
find_hit hits [] j = none
find_hit hits (s ∷ rs) j = let rest = find_hit hits rs (j + 1) in if hits s then some j else rest

abbrev pub pair_with : ℕ → Option ℕ → Option (ℕ × ℕ) → Option (ℕ × ℕ)
pair_with i none rest = rest
pair_with i (some j) rest = some (i, j)

-- Both loops: the first pair that meets.
unfoldable pub find_pair : List Rect → ℕ → Option (ℕ × ℕ)
find_pair [] i = none
find_pair (r ∷ rs) i =
    let rest = find_pair rs (i + 1) in pair_with i (find_hit (rect_intersects r) rs (i + 1)) rest

-- `pending[i] = rect_union(pending[i], pending[j]); pending_remove(j)`.
unfoldable pub merge_pair : List Rect → ℕ → ℕ → List Rect
merge_pair ps i j =
    pending_remove (set ps i (rect_union (get_or ps i rect_empty) (get_or ps j rect_empty))) j

-- The outer loop, on fuel: each round but the last takes an entry off.
unfoldable pub coalesce : ℕ → List Rect → List Rect
coalesce zero ps = ps
coalesce (suc fuel) ps = elim (find_pair ps 0) [
  | none ↦ ps
  | some (i, j) ↦ coalesce fuel (merge_pair ps i j)
]

unfoldable pub coalesce_pending : List Rect → List Rect
coalesce_pending ps = coalesce (length ps) ps

unfoldable pub pair_ok : State → Rect → Rect → Bool
pair_ok st a b =
    if rect_intersects a b then true else not (is_strut_rect st a || is_strut_rect st b)

abbrev closer : ℕ → Option (ℕ × ℕ × ℕ) → Bool
closer d none = true
closer d (some (i, j, bd)) = ltb d bd

-- The loops of `merge_closest_pair`: `best` over the pairs of `a`, entry `i`, with `rs` from `j`.
unfoldable pub closest_with :
    State → Rect → ℕ → List Rect → ℕ → Option (ℕ × ℕ × ℕ) → Option (ℕ × ℕ × ℕ)
closest_with st a i [] j best = best
closest_with st a i (b ∷ rs) j best =
    let d = rect_gap2 a b in
    closest_with st a i rs (j + 1)
      (if not (pair_ok st a b) then best else if closer d best then some (i, j, d) else best)

unfoldable pub closest_pair : State → List Rect → ℕ → Option (ℕ × ℕ × ℕ) → Option (ℕ × ℕ × ℕ)
closest_pair st [] i best = best
closest_pair st (a ∷ rs) i best = closest_pair st rs (i + 1) (closest_with st a i rs (i + 1) best)

-- What follows the loops; the pair found has `i < j`, so `(lo, hi)` is `(i, j)`.
abbrev pub merge_best : List Rect → Option (ℕ × ℕ × ℕ) → List Rect
merge_best ps none = ps
merge_best ps (some (i, j, d)) =
    coalesce_pending (if ltb i j then merge_pair ps i j else merge_pair ps j i)

unfoldable pub merge_closest_pair : State → List Rect → List Rect
merge_closest_pair st ps =
    if ltb (length ps) 2 then ps else merge_best ps (closest_pair st ps 0 none)

abbrev nearer : ℕ → Option (ℕ × ℕ) → Bool
nearer d none = true
nearer d (some (i, bd)) = ltb d bd

-- The loop of `merge_into_nearest`, from entry `i` on.
unfoldable pub nearest : State → Rect → List Rect → ℕ → Option (ℕ × ℕ) → Option (ℕ × ℕ)
nearest st cur [] i best = best
nearest st cur (p ∷ ps) i best =
    let d = rect_gap2 p cur in
    nearest st cur ps (i + 1)
      (if not (pair_ok st p cur) then best else if nearer d best then some (i, d) else best)

-- `if n_pending < DAMAGE_CAP { pending[n_pending] = cur; n_pending += 1 }`.
unfoldable pub push_if_room : List Rect → Rect → List Rect
push_if_room ps cur = if ltb (length ps) damage_cap then ps ++ (cur ∷ []) else ps

-- What follows the loop.
abbrev pub merge_near : State → List Rect → Rect → Option (ℕ × ℕ) → List Rect
merge_near st ps cur (some (i, d)) =
    coalesce_pending (set ps i (rect_union (get_or ps i rect_empty) cur))
merge_near st ps cur none = push_if_room (merge_closest_pair st ps) cur

unfoldable pub merge_into_nearest : State → List Rect → Rect → List Rect
merge_into_nearest st ps cur = merge_near st ps cur (nearest st cur ps 0 none)

-- The `while` loop of `note`: it starts again from the first entry whenever one is absorbed.
unfoldable pub absorb : ℕ → List Rect → Rect → List Rect × Rect
absorb zero ps cur = (ps, cur)
absorb (suc fuel) ps cur = elim (find_hit (λ p. rect_intersects p cur) ps 0) [
  | none ↦ (ps, cur)
  | some i ↦ absorb fuel (pending_remove ps i) (rect_union (get_or ps i rect_empty) cur)
]

-- What `note` does with a rectangle that meets no entry.
unfoldable pub enqueue : State → List Rect → Rect → List Rect
enqueue st ps cur =
    let merged = merge_closest_pair st ps in
    if ltb (length ps) damage_cap
    then ps ++ (cur ∷ [])
    else if is_strut_rect st cur
    then (if ltb (length merged) damage_cap
        then merged ++ (cur ∷ [])
        else merge_into_nearest st merged cur)
    else merge_into_nearest st ps cur

unfoldable pub note : State → Rect → State
note st r =
    let cur = rect_intersect r (fb_rect st) in
    let (ps, all) = absorb (length st.pending) st.pending cur in
    if rect_is_empty cur then st else record st { pending = enqueue st ps all }
