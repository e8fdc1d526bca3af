-- ===== src/Task/Pipe/Window.antt =====
-- The bytes of a ring read round its end, and what the two copy loops of pipe.rs do to them.
use coeleo_os.Base.{
  ℕ, zero, suc, ◌+◌, ◌-◌, ◌%◌, ◌≤◌, ◌<◌, ◌≡◌, refl, sym, ap, ap₂, ◌∙◌, [], ◌∷◌, ◌++◌, append_assoc,
  append-nil, arith, min, length, get_or, set, take, drop, length-set, get_or-set_self,
  get_or-set_ne,
}
use coeleo_os.Base.Bytes.{Bytes}
use coeleo_os.Task.Pipe.{pipe_cap, copy_out, copy_in}

-- The `n` bytes from index `h` on, going round at the end of the ring.
unfoldable pub window : Bytes → ℕ → ℕ → Bytes
window buf h zero = []
window buf h (suc n) = get_or buf (h % pipe_cap) 0 ∷ window buf (h + 1) n

pub length-window : (buf : Bytes) (h n : ℕ) → length (window buf h n) ≡ n
unfolding window
length-window buf h zero = refl
length-window buf h (suc n) = ap suc (length-window buf (h + 1) n)

window-congr :
    (buf : Bytes) (h k n : ℕ) → h % pipe_cap ≡ k % pipe_cap → window buf h n ≡ window buf k n
unfolding window
window-congr buf h k zero e = refl
window-congr buf h k (suc n) e =
    ap₂ ◌∷◌ (ap (λ i. get_or buf i 0) e) (window-congr buf (h + 1) (k + 1) n (omega arith))

pub window-mod : (buf : Bytes) (h n : ℕ) → window buf (h % pipe_cap) n ≡ window buf h n
window-mod buf h n = window-congr buf (h % pipe_cap) h n (omega arith)

-- The loop of `read` copies out a window.
pub copy_out-window : (buf : Bytes) (head i n : ℕ) → copy_out buf head i n ≡ window buf (head + i) n
unfolding copy_out window
copy_out-window buf head i zero = refl
copy_out-window buf head i (suc n) =
    ap (λ t. get_or buf ((head + i) % pipe_cap) 0 ∷ t)
      (copy_out-window buf head (i + 1) n ∙ ap (λ k. window buf k n) (omega arith))

pub take-window : (buf : Bytes) (h n m : ℕ) → take n (window buf h m) ≡ window buf h (min n m)
unfolding window
take-window buf h zero m = ap (window buf h) {x = 0} {y = min 0 m} (omega arith)
take-window buf h (suc n) zero = ap (window buf h) {x = 0} {y = min (suc n) 0} (omega arith)
take-window buf h (suc n) (suc m) =
    ap (λ t. get_or buf (h % pipe_cap) 0 ∷ t) (take-window buf (h + 1) n m)
    ∙ ap (window buf h) {x = suc (min n m)} {y = min (suc n) (suc m)} (omega arith)

pub drop-window :
    (buf : Bytes) (h n m : ℕ) → drop n (window buf h m) ≡ window buf (h + min n m) (m - min n m)
unfolding window
drop-window buf h zero m = ap₂ (window buf) (omega arith) (omega arith)
drop-window buf h (suc n) zero =
    ap (window buf (h + min (suc n) 0)) {x = 0} {y = 0 - min (suc n) 0} (omega arith)
drop-window buf h (suc n) (suc m) =
    drop-window buf (h + 1) n m ∙ ap₂ (window buf) (omega arith) (omega arith)

-- A write behind a window leaves it as it is.
window-set_outside :
    (buf : Bytes) (x h n k : ℕ)
    → n ≤ k
    → k < pipe_cap
    → window (set buf ((h + k) % pipe_cap) x) h n ≡ window buf h n
unfolding window
window-set_outside buf x h zero k le lt = refl
window-set_outside buf x h (suc n) zero le lt = absurd (omega arith)
window-set_outside buf x h (suc n) (suc k) le lt =
    ap₂ ◌∷◌ (get_or-set_ne buf ((h + suc k) % pipe_cap) (h % pipe_cap) x 0 (omega arith)) (
      ap (λ i. window (set buf i x) (h + 1) n) (omega arith)
      ∙ window-set_outside buf x (h + 1) n k (omega arith) (omega arith))

window-snoc :
    (buf : Bytes) (h k : ℕ)
    → window buf h (suc k) ≡ window buf h k ++ (get_or buf ((h + k) % pipe_cap) 0 ∷ [])
unfolding window
window-snoc buf h zero = ap (λ i. get_or buf (i % pipe_cap) 0 ∷ []) (omega arith)
window-snoc buf h (suc k) =
    ap (λ t. get_or buf (h % pipe_cap) 0 ∷ t)
      (window-snoc buf (h + 1) k
        ∙ ap (λ i. window buf (h + 1) k ++ (get_or buf (i % pipe_cap) 0 ∷ [])) (omega arith))

-- A write at the end of a window extends it.
window-set_end :
    (buf : Bytes) (x h k : ℕ)
    → length buf ≡ pipe_cap
    → k < pipe_cap
    → window (set buf ((h + k) % pipe_cap) x) h (suc k) ≡ window buf h k ++ (x ∷ [])
window-set_end buf x h k size lt =
    window-snoc (set buf ((h + k) % pipe_cap) x) h k
    ∙ ap₂ (λ t b. t ++ (b ∷ [])) (window-set_outside buf x h k k (omega arith) lt)
        (get_or-set_self buf ((h + k) % pipe_cap) x 0 (omega arith))

pub length-copy_in :
    (buf : Bytes) (tail i : ℕ) (src : Bytes) (n : ℕ)
    → length (copy_in buf tail i src n) ≡ length buf
unfolding copy_in
length-copy_in buf tail i src zero = refl
length-copy_in buf tail i [] (suc n) = refl
length-copy_in buf tail i (x ∷ src) (suc n) =
    length-copy_in (set buf ((tail + i) % pipe_cap) x) tail (i + 1) src n
    ∙ length-set buf ((tail + i) % pipe_cap) x

-- The loop of `write` appends to the window that ends where it starts.
pub window-copy_in :
    (buf : Bytes) (tail i : ℕ) (src : Bytes) (n h k : ℕ)
    → length buf ≡ pipe_cap
    → (tail + i) % pipe_cap ≡ (h + k) % pipe_cap
    → k + n ≤ pipe_cap
    → n ≤ length src
    → window (copy_in buf tail i src n) h (k + n) ≡ window buf h k ++ take n src
unfolding copy_in
window-copy_in buf tail i src zero h k size at fits enough =
    ap (window buf h) (omega arith) ∙ sym (append-nil (window buf h k))
window-copy_in buf tail i [] (suc n) h k size at fits enough = absurd (omega arith)
window-copy_in buf tail i (x ∷ src) (suc n) h k size at fits enough =
    ap (window (copy_in written tail (i + 1) src n) h) (omega arith)
    ∙ window-copy_in written tail (i + 1) src n h (suc k)
        (length-set buf ((tail + i) % pipe_cap) x ∙ size) (omega arith) (omega arith) (omega arith)
    ∙ ap (λ t. t ++ take n src)
        (ap (λ j. window (set buf j x) h (suc k)) at ∙ window-set_end buf x h k size (omega arith))
    ∙ append_assoc (window buf h k) (x ∷ []) (take n src)
  where
    written : Bytes
    written = set buf ((tail + i) % pipe_cap) x
