-- ===== src/Ui/Damage/Queue.antt =====
-- Taking entries out of the queue of damage.rs and merging them: lengths, indices and what is kept.
use coeleo_os.Base.{
  ℕ, ◌+◌, ◌-◌, ◌≤◌, ◌<◌, ◌≡◌, ◌≢◌, sym, ap, ◌∙◌, List, [], ◌∷◌, Bool, some, arith, length,
  get_elem?, get_or, set, leb, ltb, Bool-cases, inl, inr, All, All-set, All-take, All-get_elem?,
  length-set, length-take, get_elem?-lt, get_elem?-get_or, get_elem?-set_self, get_elem?-set_ne,
  get_elem?-take, Option-cases,
}
use native.Mathlib.Decide.{ℕ_discrete}
use coeleo_os.Ui.Rect.{Rect, rect_empty, rect_intersects}
use coeleo_os.Ui.Damage.{pending_remove, find_hit, find_pair}

-- An index that the scan returns is one of the list's, and the entry passes the test.
pub find_hit-lt :
    (hits : Rect → Bool) (rs : List Rect) (j : ℕ) {k : ℕ}
    → find_hit hits rs j ≡ some k
    → (j ≤ k) × (k < j + length rs)
unfolding find_hit
find_hit-lt hits [] j h = cc
find_hit-lt hits (s ∷ rs) j {k} h = ground (arith, find_hit-lt hits rs (j + 1) {k = k})

pub find_pair-lt :
    (rs : List Rect) (i : ℕ) {k l : ℕ}
    → find_pair rs i ≡ some (k, l)
    → (i ≤ k) × (k < l) × (l < i + length rs)
unfolding find_pair
find_pair-lt [] i h = cc
find_pair-lt (r ∷ rs) i {k} {l} h = elim (Option-cases (find_hit (rect_intersects r) rs (i + 1))) [
  | inl e ↦ ground (arith, e, find_pair-lt rs (i + 1) {k = k} {l = l})
  | inr (j, e) ↦ ground (arith, e, find_hit-lt (rect_intersects r) rs (i + 1) {k = j} e)
]

pub length-pending_remove :
    (ps : List Rect) (i : ℕ) → i < length ps → length (pending_remove ps i) + 1 ≡ length ps
unfolding pending_remove
length-pending_remove ps i h = ground (
  arith,
  length-take (length ps - 1) (set ps i (get_or ps (length ps - 1) rect_empty)),
  length-take (length ps - 1) ps,
  length-set ps i (get_or ps (length ps - 1) rect_empty),
)

-- Every entry but the one taken out is still there.
pub get_elem?-pending_remove :
    (ps : List Rect) (i k : ℕ) {r : Rect}
    → k ≢ i
    → get_elem? ps k ≡ some r
    → (m : ℕ) × (get_elem? (pending_remove ps i) m ≡ some r)
unfolding pending_remove
get_elem?-pending_remove ps i k {r} ne e = elim (Bool-cases (leb (length ps) i)) [
  | inl out ↦ (k, rw out e)
  | inr inside ↦ elim (Bool-cases (ltb i (length ps - 1))) [
    | inr last ↦
        (k, rw (inside, last) (get_elem?-take ps (length ps - 1) k (ground (arith, below)) ∙ e))
    | inl early ↦ elim (ℕ_discrete k (length ps - 1)) [
      | yes end ↦ (
        i,
        rw (inside, early)
            (get_elem?-take moved (length ps - 1) i (ground arith)
              ∙ get_elem?-set_self ps i final (ground arith)
              ∙ sym (get_elem?-get_or ps (length ps - 1) rect_empty (ground arith))
              ∙ ap (get_elem? ps) (sym end)
              ∙ e),
      )
      | no other ↦ (
        k,
        rw (inside, early)
            (get_elem?-take moved (length ps - 1) k (ground (arith, below))
              ∙ get_elem?-set_ne ps i k final (λ q. ne (sym q))
              ∙ e),
      )
    ]
  ]
]
  where
    below : k < length ps
    below = get_elem?-lt ps k e

    final : Rect
    final = get_or ps (length ps - 1) rect_empty

    moved : List Rect
    moved = set ps i final

-- A property of every entry survives.
module _ (P : Rect → Type 0) (ps : List Rect) (all : All P ps) where
  at : (i : ℕ) → i < length ps → P (get_or ps i rect_empty)
  at i h = All-get_elem? P ps i all (get_elem?-get_or ps i rect_empty h)

  pub All-pending_remove : (i : ℕ) → All P (pending_remove ps i)
  unfolding pending_remove
  All-pending_remove i = elim (Bool-cases (leb (length ps) i)) [
    | inl out ↦ rw out all
    | inr inside ↦ elim (Bool-cases (ltb i (length ps - 1))) [
      | inl early ↦
          rw (inside, early)
            (All-take P (length ps - 1) _
              (All-set P ps i _ (at (length ps - 1) (ground arith)) all))
      | inr last ↦ rw (inside, last) (All-take P (length ps - 1) ps all)
    ]
  ]
