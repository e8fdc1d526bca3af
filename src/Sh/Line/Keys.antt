-- ===== src/Sh/Line/Keys.antt =====
-- Each key of line.rs does to the buffer what it does to the text, and stays in the buffer.
use coeleo_os.Base.{
  ℕ, zero, suc, ◌+◌, ◌-◌, ◌≤◌, ◌<◌, ◌≡◌, refl, sym, ap, ap₂, ◌∙◌, min, arith, [], ◌∷◌, ◌++◌, length,
  length-set, length-take, take, drop, set, get_or, append-nil, leb, leb→le, ltb, ltb→lt,
  ltb_false→le, ◌==◌, true, false, Bool-cases, inl, inr, subst,
}
use coeleo_os.Base.Bytes.{Bytes}
use coeleo_os.Base.Slices.{drop-all, take-all, take-take}
use coeleo_os.Base.View.{get_or-take}
use coeleo_os.Sh.Line.{
  line_cap, Line, shift_up, copy_down, insert, backspace, forward_delete, kill_to_end,
  kill_to_start, back_while, word_start, word_end, kill_word, transpose, word_left, word_right,
  move_left, move_right, go_home, go_to_end,
}
use coeleo_os.Sh.Line.Shift.{insert_lem, remove_lem, length-shift_up, length-copy_down}
use coeleo_os.Sh.Line.Text.{
  IsValid, Text, text_of, Key, byte, rub_out, delete, cut_behind, cut_before, cut_word, swap,
  to_word_left, to_word_right, left, right, home, to_end, press, remove, swapped, edit,
  word_start-le, word_start-take, word_end-le, word_end-take,
}

take-set : (n : ℕ) (xs : Bytes) (i v : ℕ) → take n (set xs i v) ≡ set (take n xs) i v
take-set zero xs i v = refl
take-set (suc n) [] i v = refl
take-set (suc n) (x ∷ xs) zero v = refl
take-set (suc n) (x ∷ xs) (suc i) v = ap (λ t. x ∷ t) (take-set n xs i v)

module _ (e : Line) (v : IsValid e) where
  abbrev text : Bytes
  text = take e.n e.line

  length-text : length text ≡ e.n
  length-text = omega (arith, length-take e.n e.line, v.size, v.room)

  -- What a key is to make of the line.
  abbrev pub Presses : Line → Text → Type 0
  Presses f t = (text_of f ≡ t) × IsValid f

  stays : Presses e (text, e.cur)
  stays = (refl, v)

  moves : (c : ℕ) → c ≤ e.n → Presses (record e { cur = c }) (text, c)
  moves c le = (refl, record { size = v.size; room = v.room; cur_in = le })

  -- A key that does nothing at the start of the line.
  at_start : (f : ℕ → Text) → f 0 ≡ (text, 0) → (e.cur == 0) ≡ true → Presses e (f e.cur)
  at_start f h z = (subst (λ c. (text, c) ≡ f c) {x = 0} {y = e.cur} (ground (arith, z)) (sym h), v)

  -- A line of which a part is gone.
  removes :
      (i j k src m : ℕ)
      → i ≤ j
      → j ≤ e.n
      → k ≡ e.n - j
      → src ≡ j
      → m ≡ e.n - (j - i)
      → Presses (record { line = copy_down k i src e.line; n = m; cur = i }) (remove i j text, i)
  removes i j k src m le le' hk hs hm = (
    ap (λ t. (t, i))
        (ap (λ m. take m (copy_down k i src e.line)) hm
          ∙ ap₂ (λ k src. take (e.n - (j - i)) (copy_down k i src e.line)) hk hs
          ∙ remove_lem e.line e.n i j le le' (omega (arith, v.size, v.room))),
    record {
      size = length-copy_down k i src e.line ∙ v.size;
      room = omega (arith, v.room);
      cur_in = omega arith;
    },
  )

  byte_lem : (b : ℕ) → Presses (press (byte b) e) (edit (byte b) (text, e.cur))
  unfolding insert
  byte_lem b = elim (Bool-cases (ltb e.n line_cap)) [
    | inl h ↦
        rw (ap (λ k. ltb e.n k) v.size ∙ h, ap (λ k. ltb k line_cap) length-text ∙ h)
          (inserted (ltb→lt e.n line_cap h))
    | inr h ↦ rw (ap (λ k. ltb e.n k) v.size ∙ h, ap (λ k. ltb k line_cap) length-text ∙ h) stays
  ]
    where
      inserted :
          e.n < line_cap
          → Presses (insert b e) (take e.cur text ++ (b ∷ drop e.cur text), e.cur + 1)
      inserted lt = (
        ap (λ t. (t, e.cur + 1)) (insert_lem e.line e.n e.cur b v.cur_in (omega (arith, v.size))),
        record {
          size =
              length-set (shift_up e.cur (e.n - e.cur) e.line) e.cur b
              ∙ length-shift_up e.cur (e.n - e.cur) e.line
              ∙ v.size;
          room = omega arith;
          cur_in = omega (arith, v.cur_in);
        },
      )

  rub_out_lem : Presses (backspace e) (remove (e.cur - 1) e.cur text, e.cur - 1)
  unfolding backspace
  rub_out_lem = elim (Bool-cases (e.cur == 0)) [
    | inl h ↦ rw h (at_start (λ c. (remove (c - 1) c text, c - 1)) refl h)
    | inr h ↦ rw h (
        removes (e.cur - 1) e.cur (e.n - 1 - (e.cur - 1)) (e.cur - 1 + 1) (e.n - 1) (omega arith)
          v.cur_in (ground (arith, h)) (ground (arith, h)) (ground (arith, h)))
  ]

  delete_lem : Presses (forward_delete e) (remove e.cur (e.cur + 1) text, e.cur)
  unfolding forward_delete
  delete_lem = elim (Bool-cases (ltb e.cur e.n)) [
    | inl h ↦ rw h (
        removes e.cur (e.cur + 1) (e.n - 1 - e.cur) (e.cur + 1) (e.n - 1) (omega arith)
          (ground (arith, h)) (omega arith) refl (omega arith))
    | inr h ↦ rw h (ap (λ t. (t, e.cur)) (sym (nothing (ltb_false→le e.cur e.n h))), v)
  ]
    where
      nothing : e.n ≤ e.cur → remove e.cur (e.cur + 1) text ≡ text
      nothing le =
          ap₂ (λ a b. a ++ b) (take-all e.cur text (omega (arith, length-text)))
            (drop-all (e.cur + 1) text (omega (arith, length-text)))
          ∙ append-nil text

  cut_behind_lem : Presses (kill_to_end e) (take e.cur text, e.cur)
  unfolding kill_to_end
  cut_behind_lem = elim (Bool-cases (ltb e.cur e.n)) [
    | inl h ↦ rw h (
      ap (λ t. (t, e.cur)) (sym (take-take e.cur e.n e.line v.cur_in)),
      record { size = v.size; room = omega (arith, v.room, v.cur_in); cur_in = omega arith },
    )
    | inr h ↦ rw h (
      ap (λ t. (t, e.cur))
          (sym (take-all e.cur text (omega (arith, length-text, ltb_false→le e.cur e.n h)))),
      v,
    )
  ]

  cut_before_lem : Presses (kill_to_start e) (drop e.cur text, 0)
  unfolding kill_to_start
  cut_before_lem = elim (Bool-cases (e.cur == 0)) [
    | inl h ↦ rw h (at_start (λ c. (drop c text, 0)) refl h)
    | inr h ↦ rw h (
        removes 0 e.cur (e.n - e.cur) e.cur (e.n - e.cur) (omega arith) v.cur_in refl refl
          (omega arith))
  ]

  start_same : word_start e.line e.cur ≡ word_start text e.cur
  start_same = sym (word_start-take e.line e.n e.cur v.cur_in)

  cut_word_lem :
      Presses (kill_word e) (remove (word_start text e.cur) e.cur text, word_start text e.cur)
  unfolding kill_word back_while
  cut_word_lem = elim (Bool-cases (e.cur == 0)) [
    | inl h ↦ rw h (at_start (λ c. (remove (word_start text c) c text, word_start text c)) refl h)
    | inr h ↦ rw h (
        subst
          (λ i.
            Presses
              (record {
                line = copy_down (e.n - e.cur) (word_start e.line e.cur) e.cur e.line;
                n = e.n - (e.cur - word_start e.line e.cur);
                cur = word_start e.line e.cur;
              })
              (remove i e.cur text, i))
          start_same
          (removes (word_start e.line e.cur) e.cur (e.n - e.cur) e.cur
            (e.n - (e.cur - word_start e.line e.cur)) (word_start-le e.line e.cur) v.cur_in refl
            refl refl))
  ]

  swap_lem : Presses (transpose e) (swapped e.cur text, e.cur)
  unfolding transpose
  swap_lem = elim (Bool-cases (leb 2 e.cur)) [
    | inl h ↦ rw (h, here) (exchanged (leb→le 2 e.cur h))
    | inr h ↦ rw h stays
  ]
    where
      here : leb e.cur e.n ≡ true
      here = ground (arith, v.cur_in)

      once : Bytes
      once = set e.line (e.cur - 2) (get_or e.line (e.cur - 1) 0)

      exchanged :
          2 ≤ e.cur
          → Presses
              (record e { line = set once (e.cur - 1) (get_or e.line (e.cur - 2) 0) })
              (
                set
                    (set text (e.cur - 2) (get_or text (e.cur - 1) 0))
                    (e.cur - 1)
                    (get_or text (e.cur - 2) 0),
                e.cur,
              )
      exchanged le = (
        ap (λ t. (t, e.cur))
            (take-set e.n once (e.cur - 1) (get_or e.line (e.cur - 2) 0)
              ∙ ap (λ t. set t (e.cur - 1) (get_or e.line (e.cur - 2) 0))
                  (take-set e.n e.line (e.cur - 2) (get_or e.line (e.cur - 1) 0))
              ∙ ap₂ (λ x y. set (set text (e.cur - 2) x) (e.cur - 1) y)
                  (sym (get_or-take e.n e.line (e.cur - 1) 0 (omega (arith, v.cur_in))))
                  (sym (get_or-take e.n e.line (e.cur - 2) 0 (omega (arith, v.cur_in))))),
        record {
          size =
              length-set once (e.cur - 1) (get_or e.line (e.cur - 2) 0)
              ∙ length-set e.line (e.cur - 2) (get_or e.line (e.cur - 1) 0)
              ∙ v.size;
          room = v.room;
          cur_in = v.cur_in;
        },
      )

  word_left_lem : Presses (word_left e) (text, word_start text e.cur)
  unfolding word_left back_while
  word_left_lem = elim (Bool-cases (e.cur == 0)) [
    | inl h ↦ rw h (at_start (λ c. (text, word_start text c)) refl h)
    | inr h ↦
        rw (h, start_same)
          (moves (word_start text e.cur) (omega (arith, word_start-le text e.cur, v.cur_in)))
  ]

  word_right_lem : Presses (word_right e) (text, word_end text (length text) e.cur)
  unfolding word_right
  word_right_lem = elim (Bool-cases (leb e.n e.cur)) [
    | inl h ↦ rw h (ap (λ c. (text, c)) (sym (at_end (leb→le e.n e.cur h))), v)
    | inr h ↦
        rw (h, end_same)
          (moves (word_end text (length text) e.cur) (
            omega (
              arith,
              length-text,
              word_end-le text (length text) e.cur (omega (arith, length-text, v.cur_in)),
            )))
  ]
    where
      end_same : word_end e.line e.n e.cur ≡ word_end text (length text) e.cur
      end_same =
          sym (word_end-take e.line e.n e.cur v.cur_in)
          ∙ ap (λ k. word_end text k e.cur) (sym length-text)

      at_end : e.n ≤ e.cur → word_end text (length text) e.cur ≡ e.cur
      at_end le = omega (
        arith,
        length-text,
        v.cur_in,
        word_end-le text (length text) e.cur (omega (arith, length-text, v.cur_in)),
      )

  left_lem : Presses (move_left e) (text, e.cur - 1)
  unfolding move_left
  left_lem = elim (Bool-cases (e.cur == 0)) [
    | inl h ↦ rw h (at_start (λ c. (text, c - 1)) refl h)
    | inr h ↦ rw h (moves (e.cur - 1) (omega (arith, v.cur_in)))
  ]

  right_lem : Presses (move_right e) (text, min (e.cur + 1) (length text))
  unfolding move_right
  right_lem = elim (Bool-cases (leb e.n e.cur)) [
    | inl h ↦ rw h (
      ap (λ c. (text, c)) {x = e.cur} {y = min (e.cur + 1) (length text)}
          (omega (arith, length-text, v.cur_in, leb→le e.n e.cur h)),
      v,
    )
    | inr h ↦ rw h (moved h)
  ]
    where
      moved :
          leb e.n e.cur ≡ false
          → Presses (record e { cur = e.cur + 1 }) (text, min (e.cur + 1) (length text))
      moved h = (
        ap (λ c. (text, c)) {x = e.cur + 1} {y = min (e.cur + 1) (length text)}
            (ground (arith, length-text, h)),
        record { size = v.size; room = v.room; cur_in = ground (arith, h) },
      )

  home_lem : Presses (go_home e) (text, 0)
  unfolding go_home
  home_lem = elim (Bool-cases (ltb 0 e.cur)) [
    | inl h ↦ rw h (moves 0 (omega arith))
    | inr h ↦ rw h (at_start (λ c. (text, 0)) refl (ground (arith, h)))
  ]

  to_end_lem : Presses (go_to_end e) (text, length text)
  unfolding go_to_end
  to_end_lem = elim (Bool-cases (ltb e.cur e.n)) [
    | inl h ↦ rw (h, length-text) (moves e.n (omega arith))
    | inr h ↦ rw h (
      ap (λ c. (text, c)) {x = e.cur} {y = length text} (ground (arith, h, length-text, v.cur_in)),
      v,
    )
  ]

  -- If the text is in the buffer of 128 bytes and the cursor in the text, each key makes of the text
  -- and the place in it what `edit` says, and they stay in the buffer.
  pub press_refines : (k : Key) → Presses (press k e) (edit k (text_of e))
  press_refines (byte b) = byte_lem b
  press_refines rub_out = rub_out_lem
  press_refines delete = delete_lem
  press_refines cut_behind = cut_behind_lem
  press_refines cut_before = cut_before_lem
  press_refines cut_word = cut_word_lem
  press_refines swap = swap_lem
  press_refines to_word_left = word_left_lem
  press_refines to_word_right = word_right_lem
  press_refines left = left_lem
  press_refines right = right_lem
  press_refines home = home_lem
  press_refines to_end = to_end_lem
