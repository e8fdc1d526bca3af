-- ===== src/Ui/Damage/Note.antt =====
-- `note` of damage.rs: no damage is lost, and the queue stays within its bounds.
use coeleo_os.Base.{
  ℕ, zero, suc, ◌≤◌, ◌<◌, ◌≡◌, sym, ap, ◌∙◌, subst, List, [], ◌∷◌, ◌++◌, true, false, ◌&&◌, ◌||◌,
  Option, none, some, arith, length, get_elem?, get_or, set, ltb, ◌⊎◌, inl, inr, Bool-cases, All,
  All-append, All-get_elem?, get_elem?-get_or, length-set, length-append, Option-cases, lt→ltb,
}
use mathlib.Core.Option.{some-injective}
use native.Mathlib.Decide.{ℕ_discrete}
use coeleo_os.Ui.Rect.{
  Rect, rect_empty, rect_is_empty, rect_intersect, rect_intersects, rect_union, rect_contains,
}
use coeleo_os.Ui.Rect.Laws.{
  any_contains, rect_contains-rect_intersect, rect_contains-rect_is_empty, rect_contains-rect_union,
}
use coeleo_os.Ui.Damage.{
  State, damage_cap, fb_rect, is_strut_rect, find_hit, pending_remove, nearest, merge_near,
  merge_into_nearest, merge_closest_pair, push_if_room, absorb, enqueue, note,
}
use coeleo_os.Ui.Damage.Queue.{
  find_hit-lt, length-pending_remove, get_elem?-pending_remove, All-pending_remove,
}
use coeleo_os.Ui.Damage.Cover.{
  Covers, any_contains→Covers, Covers→any_contains, Covers-append, Covers-append_new,
  Covers-set_union, Covers-set_union_new, Covers-coalesce_pending, length-coalesce_pending-le,
  All-set_union, All-coalesce_pending, union_right,
}
use coeleo_os.Ui.Damage.Closest.{
  merge_closest_pair-shorter, Covers-merge_closest_pair, All-merge_closest_pair, nearest-Below,
  Below,
}

-- A dirty rectangle holds a pixel, and lies inside the frame buffer.
pub record IsDirty (w h : ℕ) (r : Rect) : Type 0 where
  pub some_pixel : rect_is_empty r ≡ false
  pub in_width : r.x1 ≤ w
  pub in_height : r.y1 ≤ h

pub record IsValid (st : State) : Type 0 where
  pub room : length st.pending ≤ damage_cap
  pub dirty : All (IsDirty st.fb_w st.fb_h) st.pending

union-IsDirty :
    (w h : ℕ) (a b : Rect) → IsDirty w h a → IsDirty w h b → IsDirty w h (rect_union a b)
unfolding rect_union rect_is_empty
union-IsDirty w h a b p q = ground arith

cut-IsDirty :
    (st : State) (r : Rect)
    → rect_is_empty (rect_intersect r (fb_rect st)) ≡ false
    → IsDirty st.fb_w st.fb_h (rect_intersect r (fb_rect st))
unfolding rect_intersect
cut-IsDirty st r h = record { some_pixel = h; in_width = omega arith; in_height = omega arith }

not_empty :
    (w h : ℕ) (ps : List Rect) → All (IsDirty w h) ps → All (λ r. rect_is_empty r ≡ false) ps
not_empty w h [] all = tt
not_empty w h (p ∷ ps) all = (all.0.some_pixel, not_empty w h ps all.1)

module _ (w h : ℕ) where
  -- The loop of `note` keeps the queue dirty and no longer, and the rectangle dirty.
  absorb-IsDirty :
      (fuel : ℕ) (ps : List Rect) (cur : Rect)
      → All (IsDirty w h) ps
      → IsDirty w h cur
      → let (qs, all) = absorb fuel ps cur in
        All (IsDirty w h) qs × IsDirty w h all × (length qs ≤ length ps)
  unfolding absorb
  absorb-IsDirty zero ps cur all c = (all, c, omega arith)
  absorb-IsDirty (suc fuel) ps cur all c =
      elim (Option-cases (find_hit (λ p. rect_intersects p cur) ps 0)) [
        | inl e ↦ rw (e, absorb) (all, c, omega arith)
        | inr (i, e) ↦
            let b = find_hit-lt (λ p. rect_intersects p cur) ps 0 {k = i} e in
            let entry =
              All-get_elem? (IsDirty w h) ps i all
                (get_elem?-get_or ps i rect_empty (omega (arith, b.1))) in
            let rest =
              absorb-IsDirty fuel (pending_remove ps i) (rect_union (get_or ps i rect_empty) cur)
                (All-pending_remove (IsDirty w h) ps all i) (union-IsDirty w h _ cur entry c) in
            rw (e, absorb)
              (
                rest.0,
                rest.1,
                omega (arith, rest.2, length-pending_remove ps i (omega (arith, b.1))),
              )
      ]

-- The pixel is in the queue or in the rectangle at hand.
abbrev Kept : ℕ → ℕ → List Rect × Rect → Type 0
Kept x y (ps, cur) = Covers ps x y ⊎ (rect_contains cur x y ≡ true)

taken :
    (x y : ℕ) (ps : List Rect) (cur : Rect) (i : ℕ)
    → i < length ps
    → Kept x y (ps, cur)
    → Kept x y (pending_remove ps i, rect_union (get_or ps i rect_empty) cur)
taken x y ps cur i h (inr c) = inr (union_right x y _ cur c)
taken x y ps cur i h (inl (k, r, e, c)) = elim (ℕ_discrete k i) [
  | no other ↦ let (m, em) = get_elem?-pending_remove ps i k other e in inl (m, r, em, c)
  | yes same ↦ inr (
      rect_contains-rect_union (get_or ps i rect_empty) cur x y
        (rw (subst (λ s. rect_contains s x y ≡ true) (entry same) c)))
]
  where
    entry : k ≡ i → r ≡ get_or ps i rect_empty
    entry same =
        some-injective r (get_or ps i rect_empty)
          (sym e ∙ ap (get_elem? ps) same ∙ get_elem?-get_or ps i rect_empty h)

module _ (x y : ℕ) where
  -- The loop of `note` loses no pixel of the queue or of the rectangle.
  absorb-Kept :
      (fuel : ℕ) (ps : List Rect) (cur : Rect) → Kept x y (ps, cur) → Kept x y (absorb fuel ps cur)
  unfolding absorb
  absorb-Kept zero ps cur k = k
  absorb-Kept (suc fuel) ps cur k =
      elim (Option-cases (find_hit (λ p. rect_intersects p cur) ps 0)) [
        | inl e ↦ rw (e, absorb) k
        | inr (i, e) ↦
            let b = find_hit-lt (λ p. rect_intersects p cur) ps 0 {k = i} e in
            rw (e, absorb)
              (absorb-Kept fuel (pending_remove ps i) (rect_union (get_or ps i rect_empty) cur)
                (taken x y ps cur i (omega (arith, b.1)) k))
      ]

module _ (st : State) (x y : ℕ) where
  kept_merged :
      (ps : List Rect) (cur : Rect) → Kept x y (ps, cur) → Kept x y (merge_closest_pair st ps, cur)
  kept_merged ps cur (inl c) = inl (Covers-merge_closest_pair st ps x y c)
  kept_merged ps cur (inr c) = inr c

  pushed : (ps : List Rect) (cur : Rect) → Kept x y (ps, cur) → Covers (ps ++ (cur ∷ [])) x y
  pushed ps cur (inl c) = Covers-append x y ps cur c
  pushed ps cur (inr c) = Covers-append_new x y ps cur c

  merge_near-Kept :
      (ps : List Rect) (cur : Rect) (best : Option (ℕ × ℕ))
      → Below (length ps) best
      → All (λ r. rect_is_empty r ≡ false) ps
      → length ps ≤ damage_cap
      → 3 ≤ length ps
      → Kept x y (ps, cur)
      → Covers (merge_near st ps cur best) x y
  unfolding push_if_room
  merge_near-Kept ps cur (some (i, d)) b all cap h (inl c) =
      Covers-coalesce_pending x y _ (Covers-set_union x y ps i cur b c)
  merge_near-Kept ps cur (some (i, d)) b all cap h (inr c) =
      Covers-coalesce_pending x y _ (Covers-set_union_new x y ps i cur b c)
  merge_near-Kept ps cur none b all cap h k =
      rw
        (lt→ltb (length (merge_closest_pair st ps)) 8
          (omega (arith, merge_closest_pair-shorter st ps all h)))
        (pushed (merge_closest_pair st ps) cur (kept_merged ps cur k))

  merge_into_nearest-Kept :
      (ps : List Rect) (cur : Rect)
      → All (λ r. rect_is_empty r ≡ false) ps
      → length ps ≤ damage_cap
      → 3 ≤ length ps
      → Kept x y (ps, cur)
      → Covers (merge_into_nearest st ps cur) x y
  unfolding merge_into_nearest
  merge_into_nearest-Kept ps cur all cap h =
      merge_near-Kept ps cur (nearest st cur ps 0 none)
        (nearest-Below st (length ps) cur ps 0 none (omega arith) tt) all cap h

  -- A full queue always makes room: nothing that is put in or was there gets lost.
  enqueue-Kept :
      (ps : List Rect) (cur : Rect)
      → All (λ r. rect_is_empty r ≡ false) ps
      → length ps ≤ damage_cap
      → Kept x y (ps, cur)
      → Covers (enqueue st ps cur) x y
  unfolding enqueue
  enqueue-Kept ps cur all cap k = elim (Bool-cases (ltb (length ps) damage_cap)) [
    | inl e ↦ rw e (pushed ps cur k)
    | inr e ↦ elim (Bool-cases (is_strut_rect st cur)) [
      | inl s ↦
          rw
            (
              e,
              s,
              lt→ltb (length (merge_closest_pair st ps)) 8
                  (omega (arith, merge_closest_pair-shorter st ps all (ground (arith, e)))),
            )
            (pushed (merge_closest_pair st ps) cur (kept_merged ps cur k))
      | inr s ↦ rw (e, s) (merge_into_nearest-Kept ps cur all cap (ground (arith, e)) k)
    ]
  ]

module _ (st : State) where
  abbrev Good : List Rect → Type 0
  Good ps = All (IsDirty st.fb_w st.fb_h) ps × (length ps ≤ damage_cap)

  join :
      (a b : Rect)
      → IsDirty st.fb_w st.fb_h a
      → IsDirty st.fb_w st.fb_h b
      → IsDirty st.fb_w st.fb_h (rect_union a b)
  join = union-IsDirty st.fb_w st.fb_h

  pushed-Good :
      (ps : List Rect) (cur : Rect)
      → All (IsDirty st.fb_w st.fb_h) ps
      → length ps < damage_cap
      → IsDirty st.fb_w st.fb_h cur
      → Good (ps ++ (cur ∷ []))
  pushed-Good ps cur all room c = (
    All-append (IsDirty st.fb_w st.fb_h) ps (cur ∷ []) all (c, tt),
    omega (arith, length-append ps (cur ∷ [])),
  )

  merged-Good :
      (ps : List Rect)
      → All (IsDirty st.fb_w st.fb_h) ps
      → 3 ≤ length ps
      → length ps ≤ damage_cap
      → All (IsDirty st.fb_w st.fb_h) (merge_closest_pair st ps)
        × (length (merge_closest_pair st ps) < damage_cap)
  merged-Good ps all h cap = (
    All-merge_closest_pair (IsDirty st.fb_w st.fb_h) join st ps all,
    omega (arith, merge_closest_pair-shorter st ps (not_empty st.fb_w st.fb_h ps all) h),
  )

  merge_near-Good :
      (ps : List Rect) (cur : Rect) (best : Option (ℕ × ℕ))
      → Below (length ps) best
      → Good ps
      → 3 ≤ length ps
      → IsDirty st.fb_w st.fb_h cur
      → Good (merge_near st ps cur best)
  unfolding push_if_room
  merge_near-Good ps cur (some (i, d)) b (all, cap) h c = (
    All-coalesce_pending (IsDirty st.fb_w st.fb_h) join _
        (All-set_union (IsDirty st.fb_w st.fb_h) join ps i cur b c all),
    omega (
      arith,
      length-coalesce_pending-le (set ps i (rect_union (get_or ps i rect_empty) cur)),
      length-set ps i (rect_union (get_or ps i rect_empty) cur),
    ),
  )
  merge_near-Good ps cur none b (all, cap) h c =
      let m = merged-Good ps all h cap in
      rw (lt→ltb (length (merge_closest_pair st ps)) 8 m.1)
        (pushed-Good (merge_closest_pair st ps) cur m.0 m.1 c)

  enqueue-Good :
      (ps : List Rect) (cur : Rect)
      → Good ps
      → IsDirty st.fb_w st.fb_h cur
      → Good (enqueue st ps cur)
  unfolding enqueue merge_into_nearest
  enqueue-Good ps cur good c = elim (Bool-cases (ltb (length ps) damage_cap)) [
    | inl e ↦ rw e (pushed-Good ps cur good.0 (ground (arith, e)) c)
    | inr e ↦
        let many : 3 ≤ length ps = ground (arith, e) in
        let m = merged-Good ps good.0 many good.1 in
        elim (Bool-cases (is_strut_rect st cur)) [
          | inl s ↦
              rw (e, s, lt→ltb (length (merge_closest_pair st ps)) 8 m.1)
                (pushed-Good (merge_closest_pair st ps) cur m.0 m.1 c)
          | inr s ↦
              rw (e, s)
                (merge_near-Good ps cur (nearest st cur ps 0 none)
                  (nearest-Below st (length ps) cur ps 0 none (omega arith) tt) good many c)
        ]
  ]

-- `note` keeps the queue valid: at most eight rectangles, each with a pixel and inside the frame
-- buffer.
pub note-IsValid : (st : State) (r : Rect) → IsValid st → IsValid (note st r)
unfolding note
note-IsValid st r v = elim (Bool-cases (rect_is_empty (rect_intersect r (fb_rect st)))) [
  | inl e ↦ rw e v
  | inr e ↦
      let cur = rect_intersect r (fb_rect st) in
      let out = absorb (length st.pending) st.pending cur in
      let a =
        absorb-IsDirty st.fb_w st.fb_h (length st.pending) st.pending cur v.dirty
          (cut-IsDirty st r e) in
      let g = enqueue-Good st out.0 out.1 (a.0, omega (arith, a.2, v.room)) a.1 in
      rw e (record { room = g.1; dirty = g.0 })
]

-- No damage is lost: a pixel that was dirty, or that the new rectangle marks on the screen, is
-- dirty after `note`.
pub note_covers :
    (st : State) (r : Rect) (x y : ℕ)
    → IsValid st
    → (any_contains st.pending x y || (rect_contains r x y && rect_contains (fb_rect st) x y))
      ≡ true
    → any_contains (note st r).pending x y ≡ true
unfolding note
note_covers st r x y v h = elim (Bool-cases (rect_is_empty (rect_intersect r (fb_rect st)))) [
  | inl e ↦ rw e (
      ground (
        arith,
        rect_contains-rect_is_empty (rect_intersect r (fb_rect st)) x y e,
        rect_contains-rect_intersect r (fb_rect st) x y,
      ))
  | inr e ↦
      let cur = rect_intersect r (fb_rect st) in
      let out = absorb (length st.pending) st.pending cur in
      let a =
        absorb-IsDirty st.fb_w st.fb_h (length st.pending) st.pending cur v.dirty
          (cut-IsDirty st r e) in
      let kept = absorb-Kept x y (length st.pending) st.pending cur start in
      let (k, s, at, c) =
        enqueue-Kept st x y out.0 out.1 (not_empty st.fb_w st.fb_h out.0 a.0)
          (omega (arith, a.2, v.room)) kept in
      rw e (Covers→any_contains (enqueue st out.0 out.1) x y k at c)
]
  where
    start : Kept x y (st.pending, rect_intersect r (fb_rect st))
    start = elim (Bool-cases (any_contains st.pending x y)) [
      | inl old ↦ inl (any_contains→Covers st.pending x y old)
      | inr new ↦ inr (rect_contains-rect_intersect r (fb_rect st) x y ∙ ground (arith, h, new))
    ]
