-- ===== src/Sh/Line/Shift.antt =====
-- What the loops that move a part of the buffer do to it.
use coeleo_os.Base.{
  ℕ, zero, suc, ◌+◌, ◌-◌, ◌≤◌, ◌<◌, ◌≡◌, refl, sym, ap, ◌∙◌, arith, ◌∷◌, ◌++◌, length, length-set,
  length-take, length-drop, length-append, take, drop, set, get_or, get_or-set_self, get_or-set_ne,
  ◌==◌, ltb, Bool-cases, inl, inr,
}
use coeleo_os.Base.Bytes.{Bytes}
use coeleo_os.Base.View.{
  view, view_eq, view-slice, view-all, get_or-append_left, get_or-append_right, get_or-take,
  get_or-drop,
}
use coeleo_os.Sh.Line.{shift_up, copy_down}

pub length-shift_up : (cur k : ℕ) (line : Bytes) → length (shift_up cur k line) ≡ length line
unfolding shift_up
length-shift_up cur zero line = refl
length-shift_up cur (suc k) line =
    length-shift_up cur k (set line (cur + k + 1) (get_or line (cur + k) 0))
    ∙ length-set line (cur + k + 1) (get_or line (cur + k) 0)

pub length-copy_down :
    (k dst src : ℕ) (line : Bytes) → length (copy_down k dst src line) ≡ length line
unfolding copy_down
length-copy_down zero dst src line = refl
length-copy_down (suc k) dst src line =
    length-copy_down k (dst + 1) (src + 1) (set line dst (get_or line src 0))
    ∙ length-set line dst (get_or line src 0)

-- Outside the moved part nothing changes.
pub shift_up_out :
    (cur k : ℕ) (line : Bytes) (j : ℕ)
    → (cur < j → j ≤ cur + k → ⊥)
    → get_or (shift_up cur k line) j 0 ≡ get_or line j 0
unfolding shift_up
shift_up_out cur zero line j out = refl
shift_up_out cur (suc k) line j out =
    shift_up_out cur k (set line (cur + k + 1) (get_or line (cur + k) 0)) j
      (λ lt le. out lt (omega arith))
    ∙ get_or-set_ne line (cur + k + 1) j (get_or line (cur + k) 0) 0
        (λ e. out (omega arith) (omega arith))

pub shift_up_in :
    (cur k : ℕ) (line : Bytes) (j : ℕ)
    → cur + k < length line
    → cur < j
    → j ≤ cur + k
    → get_or (shift_up cur k line) j 0 ≡ get_or line (j - 1) 0
unfolding shift_up
shift_up_in cur zero line j room lt le = absurd (omega arith)
shift_up_in cur (suc k) line j room lt le = elim (Bool-cases (j == cur + k + 1)) [
  | inl e ↦
      ap (λ i. get_or (shift_up cur k moved) i 0) {x = j} {y = cur + k + 1} (ground (arith, e))
      ∙ shift_up_out cur k moved (cur + k + 1) (λ _ h. omega arith)
      ∙ get_or-set_self line (cur + k + 1) (get_or line (cur + k) 0) 0 (omega arith)
      ∙ ap (λ i. get_or line i 0) {x = cur + k} {y = j - 1} (ground (arith, e))
  | inr e ↦
      shift_up_in cur k moved j
        (omega (arith, length-set line (cur + k + 1) (get_or line (cur + k) 0))) lt
        (ground (arith, e))
      ∙ get_or-set_ne line (cur + k + 1) (j - 1) (get_or line (cur + k) 0) 0 (λ f. omega arith)
]
  where
    moved : Bytes
    moved = set line (cur + k + 1) (get_or line (cur + k) 0)

pub copy_down_out :
    (k dst src : ℕ) (line : Bytes) (j : ℕ)
    → (dst ≤ j → j < dst + k → ⊥)
    → get_or (copy_down k dst src line) j 0 ≡ get_or line j 0
unfolding copy_down
copy_down_out zero dst src line j out = refl
copy_down_out (suc k) dst src line j out =
    copy_down_out k (dst + 1) (src + 1) (set line dst (get_or line src 0)) j
      (λ ge lt. out (omega arith) (omega arith))
    ∙ get_or-set_ne line dst j (get_or line src 0) 0 (λ e. out (omega arith) (omega arith))

pub copy_down_in :
    (k dst src : ℕ) (line : Bytes) (j : ℕ)
    → dst ≤ src
    → src + k ≤ length line
    → dst ≤ j
    → j < dst + k
    → get_or (copy_down k dst src line) j 0 ≡ get_or line (j - dst + src) 0
unfolding copy_down
copy_down_in zero dst src line j le room ge lt = absurd (omega arith)
copy_down_in (suc k) dst src line j le room ge lt = elim (Bool-cases (j == dst)) [
  | inl e ↦
      copy_down_out k (dst + 1) (src + 1) moved j (λ h _. ground (arith, e, h))
      ∙ ap (λ i. get_or moved i 0) {x = j} {y = dst} (ground (arith, e))
      ∙ get_or-set_self line dst (get_or line src 0) 0 (omega arith)
      ∙ ap (λ i. get_or line i 0) {x = src} {y = j - dst + src} (ground (arith, e))
  | inr e ↦
      copy_down_in k (dst + 1) (src + 1) moved j (omega arith)
        (omega (arith, length-set line dst (get_or line src 0))) (ground (arith, e)) (omega arith)
      ∙ get_or-set_ne line dst (j - (dst + 1) + (src + 1)) (get_or line src 0) 0
          (λ f. ground (arith, e, f))
      ∙ ap (λ i. get_or line i 0) {x = j - (dst + 1) + (src + 1)} {y = j - dst + src}
          (ground (arith, e))
]
  where
    moved : Bytes
    moved = set line dst (get_or line src 0)

-- Two byte strings that agree byte by byte.
pub take_eq :
    (m : ℕ) (xs ys : Bytes)
    → m ≤ length xs
    → length ys ≡ m
    → ((j : ℕ) → j < m → get_or xs j 0 ≡ get_or ys j 0)
    → take m xs ≡ ys
take_eq m xs ys le size same =
    view-slice xs 0 m 0 (omega arith)
    ∙ view_eq (λ i. get_or xs i 0) (λ i. get_or ys i 0) 0 0 m (λ k lt. same (0 + k) (omega arith))
    ∙ ap (view (λ i. get_or ys i 0) 0) (sym size)
    ∙ view-all ys 0

-- The text without its bytes from `i` up to `j`.
pub remove_lem :
    (line : Bytes) (n i j : ℕ)
    → i ≤ j
    → j ≤ n
    → n ≤ length line
    → take (n - (j - i)) (copy_down (n - j) i j line) ≡ take i (take n line) ++ drop j (take n line)
remove_lem line n i j le le' room =
    take_eq (n - (j - i)) (copy_down (n - j) i j line) text
      (omega (arith, length-copy_down (n - j) i j line)) size same
  where
    front : Bytes
    front = take i (take n line)

    back : Bytes
    back = drop j (take n line)

    text : Bytes
    text = front ++ back

    size_front : length front ≡ i
    size_front = omega (arith, length-take i (take n line), length-take n line)

    size : length text ≡ n - (j - i)
    size = omega (
      arith,
      length-append front back,
      size_front,
      length-drop j (take n line),
      length-take n line,
    )

    same : (k : ℕ) → k < n - (j - i) → get_or (copy_down (n - j) i j line) k 0 ≡ get_or text k 0
    same k lt = elim (Bool-cases (ltb k i)) [
      | inl h ↦
          copy_down_out (n - j) i j line k (λ ge _. ground (arith, h, ge))
          ∙ sym (
              get_or-append_left front back k 0 (ground (arith, h, size_front))
              ∙ get_or-take i (take n line) k 0 (ground (arith, h))
              ∙ get_or-take n line k 0 (ground (arith, h)))
      | inr h ↦
          copy_down_in (n - j) i j line k le (omega arith) (ground (arith, h)) (omega arith)
          ∙ sym (
              get_or-append_right front back k 0 (ground (arith, h, size_front))
              ∙ get_or-drop j (take n line) (k - length front) 0
              ∙ get_or-take n line (j + (k - length front)) 0 (ground (arith, h, size_front))
              ∙ ap (λ m. get_or line m 0) {x = j + (k - length front)} {y = k - i + j}
                  (ground (arith, h, size_front)))
    ]

-- The text with a byte put in at `cur`.
pub insert_lem :
    (line : Bytes) (n cur b : ℕ)
    → cur ≤ n
    → n < length line
    → take (n + 1) (set (shift_up cur (n - cur) line) cur b)
      ≡ take cur (take n line) ++ (b ∷ drop cur (take n line))
insert_lem line n cur b le room =
    take_eq (n + 1) (set (shift_up cur (n - cur) line) cur b) text
      (omega
        (arith, length-shift_up cur (n - cur) line, length-set (shift_up cur (n - cur) line) cur b))
      size same
  where
    front : Bytes
    front = take cur (take n line)

    back : Bytes
    back = drop cur (take n line)

    text : Bytes
    text = front ++ (b ∷ back)

    moved : Bytes
    moved = shift_up cur (n - cur) line

    size_front : length front ≡ cur
    size_front = omega (arith, length-take cur (take n line), length-take n line)

    size : length text ≡ n + 1
    size = omega (
      arith,
      length-append front (b ∷ back),
      size_front,
      length-drop cur (take n line),
      length-take n line,
    )

    at_back : (k : ℕ) → cur < k → get_or text k 0 ≡ get_or back (k - cur - 1) 0
    at_back k lt =
        get_or-append_right front (b ∷ back) k 0 (omega (arith, size_front))
        ∙ ap (λ m. get_or (b ∷ back) m 0) {x = k - length front} {y = suc (k - cur - 1)}
            (omega (arith, size_front))

    same : (k : ℕ) → k < n + 1 → get_or (set moved cur b) k 0 ≡ get_or text k 0
    same k lt = elim (Bool-cases (ltb k cur)) [
      | inl h ↦
          get_or-set_ne moved cur k b 0 (λ e. ground (arith, h, e))
          ∙ shift_up_out cur (n - cur) line k (λ g _. ground (arith, h, g))
          ∙ sym (
              get_or-append_left front (b ∷ back) k 0 (ground (arith, h, size_front))
              ∙ get_or-take cur (take n line) k 0 (ground (arith, h))
              ∙ get_or-take n line k 0 (ground (arith, h)))
      | inr h ↦ elim (Bool-cases (k == cur)) [
        | inl e ↦
            ap (λ m. get_or (set moved cur b) m 0) {x = k} {y = cur} (ground (arith, e))
            ∙ get_or-set_self moved cur b 0 (omega (arith, length-shift_up cur (n - cur) line))
            ∙ sym (
                get_or-append_right front (b ∷ back) k 0 (ground (arith, e, size_front))
                ∙ ap (λ m. get_or (b ∷ back) m 0) {x = k - length front} {y = 0}
                    (ground (arith, e, size_front)))
        | inr e ↦
            get_or-set_ne moved cur k b 0 (λ f. ground (arith, e, f))
            ∙ shift_up_in cur (n - cur) line k (omega arith) (ground (arith, h, e)) (omega arith)
            ∙ sym (
                at_back k (ground (arith, h, e))
                ∙ get_or-drop cur (take n line) (k - cur - 1) 0
                ∙ get_or-take n line (cur + (k - cur - 1)) 0 (ground (arith, h, e))
                ∙ ap (λ m. get_or line m 0) {x = cur + (k - cur - 1)} {y = k - 1}
                    (ground (arith, h, e)))
      ]
    ]
