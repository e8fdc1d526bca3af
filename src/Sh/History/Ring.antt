-- ===== src/Sh/History/Ring.antt =====
-- The ring is a list of at most 128 lines, the newest last.
use coeleo_os.Base.{
  ℕ, zero, suc, ◌+◌, ◌-◌, ◌%◌, ◌≤◌, ◌<◌, ◌≡◌, ◌≢◌, refl, sym, ap, ap₂, ◌∙◌, arith, List, [], ◌∷◌,
  ◌++◌, Bool, true, false, ◌&&◌, ◌||◌, none, length, length-set, length-replicate, take, drop,
  get_or, get_or-set_self, get_or-set_ne, replicate, ltb, ltb→lt, ltb_false→le, ◌==◌, if◌then◌else◌,
  Bool-cases, inl, inr,
}
use coeleo_os.Base.Bytes.{Bytes, bytes_eq}
use coeleo_os.Base.Slices.{take-append}
use coeleo_os.Base.View.{view, view_eq, view-append, length-view, get_or-view, length-put}
use coeleo_os.Fs.Gpt.{put}
use coeleo_os.Sh.Line.{line_cap}
use coeleo_os.Sh.History.{hist_cap, History, new, slot, trim_bytes, store_at, store, repeated, push}

pub record IsValid (h : History) : Type 0 where
  pub lines_size : length h.lines ≡ hist_cap
  pub lens_size : length h.lens ≡ hist_cap
  pub start_in : h.start < hist_cap
  pub count_in : h.count ≤ hist_cap
  pub line_size : (i : ℕ) → i < hist_cap → length (get_or h.lines i []) ≡ line_cap
  pub len_in : (i : ℕ) → get_or h.lens i 0 ≤ line_cap
  pub draft_size : length h.draft ≡ line_cap
  pub draft_in : h.draft_len ≤ line_cap

-- The line number `i`, from the oldest on.
abbrev pub nth : History → ℕ → Bytes
nth h i = slot h ((h.start + i) % hist_cap)

-- The lines, the oldest first.
abbrev pub entries : History → List Bytes
entries h = view (nth h) 0 h.count

abbrev pub newest_is : List Bytes → Bytes → Bool
newest_is es t = ltb 0 (length es) && bytes_eq (get_or es (length es - 1) []) t

-- What the list becomes when `t` is entered: an empty line, one that is too long and one that
-- repeats the newest line are not kept; of more than 128 lines the oldest is dropped.
abbrev pub remember : List Bytes → Bytes → List Bytes
remember es t =
    if (length t == 0) || ltb line_cap (length t)
    then es
    else if newest_is es t
    then es
    else drop (length es + 1 - hist_cap) es ++ (t ∷ [])

module _ (h : History) (v : IsValid h) (t : Bytes) (short : length t ≤ line_cap) (i : ℕ)
    (lt : i < hist_cap) where
  at_stored : slot (store_at h i t) i ≡ t
  at_stored =
      ap₂ (λ n s. take n s) (get_or-set_self h.lens i (length t) 0 (omega (arith, v.lens_size)))
        (get_or-set_self h.lines i (put 0 t (get_or h.lines i [])) [] (omega (arith, v.lines_size)))
      ∙ take-append (length t) t (drop (0 + length t) (get_or h.lines i [])) refl

  at_others : (j : ℕ) → i ≢ j → slot (store_at h i t) j ≡ slot h j
  at_others j ne =
      ap₂ (λ n s. take n s) (get_or-set_ne h.lens i j (length t) 0 ne)
        (get_or-set_ne h.lines i j (put 0 t (get_or h.lines i [])) [] ne)

  line_sizes : (j : ℕ) → j < hist_cap → length (get_or (store_at h i t).lines j []) ≡ line_cap
  line_sizes j ok = elim (Bool-cases (i == j)) [
    | inl e ↦
        ap (λ k. length (get_or (store_at h i t).lines k [])) {x = j} {y = i} (ground (arith, e))
        ∙ ap length (
            get_or-set_self h.lines i (put 0 t (get_or h.lines i [])) []
              (omega (arith, v.lines_size)))
        ∙ length-put 0 t (get_or h.lines i []) (omega (arith, v.line_size i lt))
        ∙ v.line_size i lt
    | inr e ↦
        ap length (get_or-set_ne h.lines i j (put 0 t (get_or h.lines i [])) [] (ground (arith, e)))
        ∙ v.line_size j ok
  ]

  len_sizes : (j : ℕ) → get_or (store_at h i t).lens j 0 ≤ line_cap
  len_sizes j = elim (Bool-cases (i == j)) [
    | inl e ↦ omega (
      arith,
      ap (λ k. get_or (store_at h i t).lens k 0) {x = j} {y = i} (ground (arith, e)),
      get_or-set_self h.lens i (length t) 0 (omega (arith, v.lens_size)),
    )
    | inr e ↦ omega (arith, get_or-set_ne h.lens i j (length t) 0 (ground (arith, e)), v.len_in j)
  ]

  -- The stored line, with the ring's bounds `start` and `count`.
  stored-IsValid :
      (start count : ℕ)
      → start < hist_cap
      → count ≤ hist_cap
      → IsValid (record (store_at h i t) { start = start; count = count; view = none })
  stored-IsValid start count s c = record {
    lines_size = length-set h.lines i (put 0 t (get_or h.lines i [])) ∙ v.lines_size;
    lens_size = length-set h.lens i (length t) ∙ v.lens_size;
    start_in = s;
    count_in = c;
    line_size = line_sizes;
    len_in = len_sizes;
    draft_size = v.draft_size;
    draft_in = v.draft_in;
  }

shifted : (g : ℕ → Bytes) → view g 1 127 ≡ drop 1 (view g 0 hist_cap)
shifted g = refl

module _ (h : History) (v : IsValid h) where
  store_lem :
      (t : Bytes)
      → length t ≤ line_cap
      → (entries (store h t) ≡ drop (length (entries h) + 1 - hist_cap) (entries h) ++ (t ∷ []))
        × IsValid (store h t)
  store_lem t short = by_test (ltb h.count hist_cap) refl
    where
      grown : History
      grown = record (store_at h ((h.start + h.count) % hist_cap) t) {
        count = h.count + 1;
        view = none;
      }

      turned : History
      turned = record (store_at h h.start t) { start = (h.start + 1) % hist_cap; view = none }

      size : length (entries h) ≡ h.count
      size = length-view (nth h) 0 h.count

      grown_entries :
          h.count < hist_cap
          → entries grown ≡ drop (length (entries h) + 1 - hist_cap) (entries h) ++ (t ∷ [])
      grown_entries lt =
          sym (view-append (nth grown) 0 h.count 1)
          ∙ ap₂ (λ xs y. xs ++ (y ∷ []))
              (view_eq (nth grown) (nth h) 0 0 h.count (λ k le.
                  at_others h v t short ((h.start + h.count) % hist_cap) (omega arith)
                    ((h.start + (0 + k)) % hist_cap) (λ e. omega (arith, v.start_in)))
                ∙ ap (λ k. drop k (entries h)) {x = 0} {y = length (entries h) + 1 - hist_cap}
                    (omega (arith, size)))
              (ap (λ k. slot grown ((h.start + k) % hist_cap)) {x = 0 + h.count} {y = h.count}
                  (omega arith)
                ∙ at_stored h v t short ((h.start + h.count) % hist_cap) (omega arith))

      turned_entries :
          h.count ≡ hist_cap
          → entries turned ≡ drop (length (entries h) + 1 - hist_cap) (entries h) ++ (t ∷ [])
      turned_entries full =
          ap (view (nth turned) 0) {x = h.count} {y = 127 + 1} full
          ∙ sym (view-append (nth turned) 0 127 1)
          ∙ ap₂ (λ xs y. xs ++ (y ∷ []))
              (view_eq (nth turned) (nth h) 0 1 127 (λ k le.
                  at_others h v t short h.start v.start_in
                    (((h.start + 1) % hist_cap + (0 + k)) % hist_cap)
                    (λ e. omega (arith, v.start_in))
                  ∙ ap (slot h) {x = ((h.start + 1) % hist_cap + (0 + k)) % hist_cap}
                      {y = (h.start + (1 + k)) % hist_cap} (omega (arith, v.start_in)))
                ∙ shifted (nth h)
                ∙ ap (λ k. drop 1 (view (nth h) 0 k)) (sym full)
                ∙ ap (λ k. drop k (entries h)) {x = 1} {y = length (entries h) + 1 - hist_cap}
                    (omega (arith, size)))
              (ap (slot turned) {x = ((h.start + 1) % hist_cap + (0 + 127)) % hist_cap}
                  {y = h.start} (omega (arith, v.start_in))
                ∙ at_stored h v t short h.start v.start_in)

      by_test :
          (b : Bool)
          → ltb h.count hist_cap ≡ b
          → (entries (if b then grown else turned)
              ≡ drop (length (entries h) + 1 - hist_cap) (entries h) ++ (t ∷ []))
            × IsValid (if b then grown else turned)
      by_test true e = (
        grown_entries (ltb→lt h.count hist_cap e),
        stored-IsValid h v t short ((h.start + h.count) % hist_cap) (omega arith) h.start
            (h.count + 1) v.start_in (ground (arith, e)),
      )
      by_test false e = (
        turned_entries (omega (arith, v.count_in, ltb_false→le h.count hist_cap e)),
        stored-IsValid h v t short h.start v.start_in ((h.start + 1) % hist_cap) h.count
            (omega arith) v.count_in,
      )

  -- An entered line, without the spaces around it, joins the list of lines as `remember` says.
  pub push_lem :
      (s : Bytes) → (entries (push h s) ≡ remember (entries h) (trim_bytes s)) × IsValid (push h s)
  unfolding push
  push_lem s = by_tests ((length t == 0) || ltb line_cap (length t)) (repeated h t) refl same_test
    where
      t : Bytes
      t = trim_bytes s

      size : length (entries h) ≡ h.count
      size = length-view (nth h) 0 h.count

      none_yet :
          (b : Bool)
          → b ≡ false
          → (b && bytes_eq (get_or (entries h) (length (entries h) - 1) []) t)
            ≡ (b && bytes_eq (slot h ((h.start + h.count - 1) % hist_cap)) t)
      none_yet true e = cc
      none_yet false e = refl

      same_test : newest_is (entries h) t ≡ repeated h t
      same_test = elim (Bool-cases (ltb 0 h.count)) [
        | inl g ↦
            ap₂ (λ n e. ltb 0 n && bytes_eq e t) size
              (ap (λ k. get_or (entries h) (k - 1) []) size
                ∙ get_or-view (nth h) 0 h.count (h.count - 1) [] (ground (arith, g))
                ∙ ap (slot h) {x = (h.start + (0 + (h.count - 1))) % hist_cap}
                    {y = (h.start + h.count - 1) % hist_cap} (ground (arith, g)))
        | inr g ↦
            ap (λ n. ltb 0 n && bytes_eq (get_or (entries h) (length (entries h) - 1) []) t) size
            ∙ none_yet (ltb 0 h.count) g
      ]

      seen : IsValid (record h { view = none })
      seen = record {
        lines_size = v.lines_size;
        lens_size = v.lens_size;
        start_in = v.start_in;
        count_in = v.count_in;
        line_size = v.line_size;
        len_in = v.len_in;
        draft_size = v.draft_size;
        draft_in = v.draft_in;
      }

      by_tests :
          (a b : Bool)
          → ((length t == 0) || ltb line_cap (length t)) ≡ a
          → newest_is (entries h) t ≡ b
          → (entries (
                if a
                then record h { view = none }
                else if b
                then record h { view = none }
                else store h t)
              ≡ (if a
                  then entries h
                  else if newest_is (entries h) t
                  then entries h
                  else drop (length (entries h) + 1 - hist_cap) (entries h) ++ (t ∷ [])))
            × IsValid (
                if a
                then record h { view = none }
                else if b
                then record h { view = none }
                else store h t)
      by_tests true b e f = (refl, seen)
      by_tests false true e f = rw f (refl, seen)
      by_tests false false e f = rw f (store_lem t (ground (arith, e)))

pub new-IsValid : IsValid new
unfolding new
new-IsValid = record {
  lines_size = refl;
  lens_size = refl;
  start_in = omega arith;
  count_in = omega arith;
  line_size = λ i lt. empty_line i hist_cap lt;
  len_in = λ i. no_len i hist_cap;
  draft_size = refl;
  draft_in = omega arith;
}
  where
    empty_line :
        (i n : ℕ)
        → i < n
        → length {A = ℕ} (get_or (replicate n (replicate line_cap 0)) i []) ≡ line_cap
    empty_line i zero lt = absurd (omega arith)
    empty_line zero (suc n) lt = length-replicate {A = ℕ} line_cap 0
    empty_line (suc i) (suc n) lt = empty_line i n (omega arith)

    no_len : (i n : ℕ) → get_or {A = ℕ} (replicate n 0) i 0 ≤ line_cap
    no_len i zero = omega arith
    no_len zero (suc n) = omega arith
    no_len (suc i) (suc n) = no_len i n
