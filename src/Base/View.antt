-- ===== src/Base/View.antt =====
-- A range of an array that is given by its elements: what reads and writes of devices see.
use Prim.Native.Nat.{ℕ, zero, suc, ◌+◌, ◌-◌, ◌≤◌, ◌<◌}
use mathlib.Core.Path.{◌≡◌, refl, sym, ap, ap₂, ◌∙◌}
use mathlib.Core.List.{List, [], ◌∷◌, ◌++◌}
use native.Mathlib.Omega.{arith}
use coeleo_os.Base.Lists.{length, take, drop, get_or, length-take, length-drop, length-append}

module _ {ℓ} {A : Type ℓ} where
  -- The `n` elements from index `i` on.
  abbrev pub view : (ℕ → A) → ℕ → ℕ → List A
  view g i zero = []
  view g i (suc n) = g i ∷ view g (i + 1) n

  pub length-view : (g : ℕ → A) (i n : ℕ) → length (view g i n) ≡ n
  length-view g i zero = refl
  length-view g i (suc n) = ap suc (length-view g (i + 1) n)

  -- Two arrays that agree in a range, the second one moved.
  pub view_eq :
      (g h : ℕ → A) (i j n : ℕ)
      → ((k : ℕ) → k < n → g (i + k) ≡ h (j + k))
      → view g i n ≡ view h j n
  view_eq g h i j zero e = refl
  view_eq g h i j (suc n) e =
      ap₂ (λ x xs. x ∷ xs)
        (ap g {x = i} {y = i + 0} (omega arith)
          ∙ e 0 (omega arith)
          ∙ ap h {x = j + 0} {y = j} (omega arith))
        (view_eq g h (i + 1) (j + 1) n (λ k lt.
          ap g {x = i + 1 + k} {y = i + suc k} (omega arith)
          ∙ e (suc k) (omega arith)
          ∙ ap h {x = j + suc k} {y = j + 1 + k} (omega arith)))

  pub view-append : (g : ℕ → A) (i m n : ℕ) → view g i m ++ view g (i + m) n ≡ view g i (m + n)
  view-append g i zero n =
      view_eq g g (i + 0) i n (λ k lt. ap g {x = i + 0 + k} {y = i + k} (omega arith))
      ∙ ap (view g i) {x = n} {y = 0 + n} (omega arith)
  view-append g i (suc m) n =
      ap (λ xs. g i ∷ xs)
        (ap (λ k. view g (i + 1) m ++ view g k n) {x = i + suc m} {y = i + 1 + m} (omega arith)
          ∙ view-append g (i + 1) m n)
      ∙ ap (view g i) {x = suc (m + n)} {y = suc m + n} (omega arith)

  pub get_or-view : (g : ℕ → A) (i n k : ℕ) (d : A) → k < n → get_or (view g i n) k d ≡ g (i + k)
  get_or-view g i zero k d h = absurd (omega arith)
  get_or-view g i (suc n) zero d h = ap g {x = i} {y = i + 0} (omega arith)
  get_or-view g i (suc n) (suc k) d h =
      get_or-view g (i + 1) n k d (omega arith) ∙ ap g {x = i + 1 + k} {y = i + suc k} (omega arith)

  pub get_or-append_left :
      (xs ys : List A) (i : ℕ) (d : A) → i < length xs → get_or (xs ++ ys) i d ≡ get_or xs i d
  get_or-append_left [] ys i d h = absurd (omega arith)
  get_or-append_left (x ∷ xs) ys zero d h = refl
  get_or-append_left (x ∷ xs) ys (suc i) d h = get_or-append_left xs ys i d (omega arith)

  pub get_or-append_right :
      (xs ys : List A) (i : ℕ) (d : A)
      → length xs ≤ i
      → get_or (xs ++ ys) i d ≡ get_or ys (i - length xs) d
  get_or-append_right [] ys i d h = ap (λ k. get_or ys k d) {x = i} {y = i - 0} (omega arith)
  get_or-append_right (x ∷ xs) ys zero d h = absurd (omega arith)
  get_or-append_right (x ∷ xs) ys (suc i) d h =
      get_or-append_right xs ys i d (omega arith)
      ∙ ap (λ k. get_or ys k d) {x = i - length xs} {y = suc i - suc (length xs)} (omega arith)

  pub get_or-take :
      (n : ℕ) (xs : List A) (i : ℕ) (d : A) → i < n → get_or (take n xs) i d ≡ get_or xs i d
  get_or-take zero xs i d h = absurd (omega arith)
  get_or-take (suc n) [] i d h = refl
  get_or-take (suc n) (x ∷ xs) zero d h = refl
  get_or-take (suc n) (x ∷ xs) (suc i) d h = get_or-take n xs i d (omega arith)

  pub get_or-drop :
      (n : ℕ) (xs : List A) (i : ℕ) (d : A) → get_or (drop n xs) i d ≡ get_or xs (n + i) d
  get_or-drop zero xs i d = ap (λ k. get_or xs k d) {x = i} {y = 0 + i} (omega arith)
  get_or-drop (suc n) [] i d = refl
  get_or-drop (suc n) (x ∷ xs) i d =
      get_or-drop n xs i d
      ∙ ap (λ k. get_or (x ∷ xs) k d) {x = suc (n + i)} {y = suc n + i} (omega arith)

  pub view-all : (xs : List A) (d : A) → view (λ i. get_or xs i d) 0 (length xs) ≡ xs
  view-all [] d = refl
  view-all (x ∷ xs) d =
      ap (λ ys. x ∷ ys)
        (view_eq (λ i. get_or (x ∷ xs) i d) (λ i. get_or xs i d) 1 0 (length xs)
            (λ k lt. ap (λ j. get_or (x ∷ xs) j d) {x = 1 + k} {y = suc (0 + k)} (omega arith))
          ∙ view-all xs d)

  -- A part of an array that is not longer than what is left.
  pub view-slice :
      (xs : List A) (i n : ℕ) (d : A)
      → i + n ≤ length xs
      → take n (drop i xs) ≡ view (λ k. get_or xs k d) i n
  view-slice xs i n d h =
      sym (view-all (take n (drop i xs)) d)
      ∙ ap (view (λ k. get_or (take n (drop i xs)) k d) 0) size
      ∙ view_eq (λ k. get_or (take n (drop i xs)) k d) (λ k. get_or xs k d) 0 i n
          (λ k lt.
            get_or-take n (drop i xs) (0 + k) d (omega arith)
            ∙ get_or-drop i xs (0 + k) d
            ∙ ap (λ j. get_or xs j d) {x = i + (0 + k)} {y = i + k} (omega arith))
    where
      size : length (take n (drop i xs)) ≡ n
      size = omega (arith, length-take n (drop i xs), length-drop i xs)

  -- `buf` with `xs` copied to it from index `i` on.
  pub get_or-put_in :
      (i : ℕ) (xs buf : List A) (k : ℕ) (d : A)
      → i + length xs ≤ length buf
      → i ≤ k
      → k < i + length xs
      → get_or (take i buf ++ (xs ++ drop (i + length xs) buf)) k d ≡ get_or xs (k - i) d
  get_or-put_in i xs buf k d h ge lt =
      get_or-append_right (take i buf) (xs ++ drop (i + length xs) buf) k d
        (omega (arith, length-take i buf))
      ∙ get_or-append_left xs (drop (i + length xs) buf) (k - length (take i buf)) d
          (omega (arith, length-take i buf))
      ∙ ap (λ j. get_or xs j d) {x = k - length (take i buf)} {y = k - i}
          (omega (arith, length-take i buf))

  pub get_or-put_before :
      (i : ℕ) (xs buf : List A) (k : ℕ) (d : A)
      → i + length xs ≤ length buf
      → k < i
      → get_or (take i buf ++ (xs ++ drop (i + length xs) buf)) k d ≡ get_or buf k d
  get_or-put_before i xs buf k d h lt =
      get_or-append_left (take i buf) (xs ++ drop (i + length xs) buf) k d
        (omega (arith, length-take i buf))
      ∙ get_or-take i buf k d lt

  pub get_or-put_behind :
      (i : ℕ) (xs buf : List A) (k : ℕ) (d : A)
      → i + length xs ≤ length buf
      → i + length xs ≤ k
      → get_or (take i buf ++ (xs ++ drop (i + length xs) buf)) k d ≡ get_or buf k d
  get_or-put_behind i xs buf k d h ge =
      get_or-append_right (take i buf) (xs ++ drop (i + length xs) buf) k d
        (omega (arith, length-take i buf))
      ∙ get_or-append_right xs (drop (i + length xs) buf) (k - length (take i buf)) d
          (omega (arith, length-take i buf))
      ∙ get_or-drop (i + length xs) buf (k - length (take i buf) - length xs) d
      ∙ ap (λ j. get_or buf j d) {x = i + length xs + (k - length (take i buf) - length xs)} {y = k}
          (omega (arith, length-take i buf))

  pub length-put :
      (i : ℕ) (xs buf : List A)
      → i + length xs ≤ length buf
      → length (take i buf ++ (xs ++ drop (i + length xs) buf)) ≡ length buf
  length-put i xs buf h = omega (
    arith,
    length-append (take i buf) (xs ++ drop (i + length xs) buf),
    length-append xs (drop (i + length xs) buf),
    length-take i buf,
    length-drop (i + length xs) buf,
  )
