-- ===== src/Sh/Line/Text.antt =====
-- The line as the user sees it, a text and a place in it, and what each editing key does to that.
use coeleo_os.Base.{
  ℕ, zero, suc, ◌+◌, ◌-◌, ◌≤◌, ◌≡◌, refl, ap, ap₂, ◌∙◌, min, arith, ◌∷◌, ◌++◌, length, take, drop,
  set, get_or, leb, ltb, Bool, if◌then◌else◌,
}
use coeleo_os.Base.Bytes.{Bytes}
use coeleo_os.Base.View.{get_or-take}
use coeleo_os.Sh.Line.{
  line_cap, Line, insert, backspace, forward_delete, kill_to_end, kill_to_start, back_while,
  ahead_while, is_space, no_space, word_start, word_end, kill_word, transpose, word_left,
  word_right, move_left, move_right, go_home, go_to_end,
}

-- The cursor is in the text, and the text in the buffer.
pub record IsValid (e : Line) : Type 0 where
  pub size : length e.line ≡ line_cap
  pub room : e.n ≤ line_cap
  pub cur_in : e.cur ≤ e.n

abbrev pub Text : Type 0
Text = Bytes × ℕ

abbrev pub text_of : Line → Text
text_of e = (take e.n e.line, e.cur)

-- The keys that edit the line or move in it.
pub data Key : Type 0 where
  byte : ℕ → Key
  rub_out : Key
  delete : Key
  cut_behind : Key
  cut_before : Key
  cut_word : Key
  swap : Key
  to_word_left : Key
  to_word_right : Key
  left : Key
  right : Key
  home : Key
  to_end : Key

-- A byte is inserted under the test of `read_line`.
abbrev pub press : Key → Line → Line
press (byte b) e = if ltb e.n (length e.line) then insert b e else e
press rub_out e = backspace e
press delete e = forward_delete e
press cut_behind e = kill_to_end e
press cut_before e = kill_to_start e
press cut_word e = kill_word e
press swap e = transpose e
press to_word_left e = word_left e
press to_word_right e = word_right e
press left e = move_left e
press right e = move_right e
press home e = go_home e
press to_end e = go_to_end e

-- The text without its part from `i` up to `j`.
abbrev pub remove : ℕ → ℕ → Bytes → Bytes
remove i j t = take i t ++ drop j t

abbrev pub swapped : ℕ → Bytes → Bytes
swapped c t =
    if leb 2 c then set (set t (c - 2) (get_or t (c - 1) 0)) (c - 1) (get_or t (c - 2) 0) else t

-- What a key does to the text and the place in it.
abbrev pub edit : Key → Text → Text
edit (byte b) (t, c) =
    if ltb (length t) line_cap then (take c t ++ (b ∷ drop c t), c + 1) else (t, c)
edit rub_out (t, c) = (remove (c - 1) c t, c - 1)
edit delete (t, c) = (remove c (c + 1) t, c)
edit cut_behind (t, c) = (take c t, c)
edit cut_before (t, c) = (drop c t, 0)
edit cut_word (t, c) = (remove (word_start t c) c t, word_start t c)
edit swap (t, c) = (swapped c t, c)
edit to_word_left (t, c) = (t, word_start t c)
edit to_word_right (t, c) = (t, word_end t (length t) c)
edit left (t, c) = (t, c - 1)
edit right (t, c) = (t, min (c + 1) (length t))
edit home (t, c) = (t, 0)
edit to_end (t, c) = (t, length t)

back_while-le : (test : ℕ → Bool) (line : Bytes) (i : ℕ) → back_while test line i ≤ i
unfolding back_while
back_while-le test line zero = omega arith
back_while-le test line (suc i) = ground (arith, back_while-le test line i)

back_while-take :
    (test : ℕ → Bool) (line : Bytes) (n i : ℕ)
    → i ≤ n
    → back_while test (take n line) i ≡ back_while test line i
unfolding back_while
back_while-take test line n zero h = refl
back_while-take test line n (suc i) h =
    ap₂ (λ b r. if test b then r else suc i) (get_or-take n line i 0 (omega arith))
      (back_while-take test line n i (omega arith))

ahead_while-le :
    (test : ℕ → Bool) (line : Bytes) (k i : ℕ)
    → (i ≤ ahead_while test line k i) × (ahead_while test line k i ≤ i + k)
unfolding ahead_while
ahead_while-le test line zero i = (omega arith, omega arith)
ahead_while-le test line (suc k) i = ground (arith, ahead_while-le test line k (i + 1))

ahead_while-take :
    (test : ℕ → Bool) (line : Bytes) (n k i : ℕ)
    → i + k ≤ n
    → ahead_while test (take n line) k i ≡ ahead_while test line k i
unfolding ahead_while
ahead_while-take test line n zero i h = refl
ahead_while-take test line n (suc k) i h =
    ap₂ (λ b r. if test b then r else i) (get_or-take n line i 0 (omega arith))
      (ahead_while-take test line n k (i + 1) (omega arith))

pub word_start-le : (line : Bytes) (i : ℕ) → word_start line i ≤ i
word_start-le line i =
    omega (
      arith,
      back_while-le is_space line i,
      back_while-le no_space line (back_while is_space line i),
    )

pub word_start-take :
    (line : Bytes) (n i : ℕ) → i ≤ n → word_start (take n line) i ≡ word_start line i
word_start-take line n i h =
    back_while-take no_space line n (back_while is_space (take n line) i)
      (omega (arith, back_while-le is_space (take n line) i))
    ∙ ap (back_while no_space line) (back_while-take is_space line n i h)

pub word_end-le :
    (line : Bytes) (n i : ℕ) → i ≤ n → (i ≤ word_end line n i) × (word_end line n i ≤ n)
word_end-le line n i h =
    let j = ahead_while is_space line (n - i) i in
    let (a, b) = ahead_while-le is_space line (n - i) i in
    let (c, d) = ahead_while-le no_space line (n - j) j in (omega arith, omega arith)

pub word_end-take :
    (line : Bytes) (n i : ℕ) → i ≤ n → word_end (take n line) n i ≡ word_end line n i
word_end-take line n i h =
    ap (λ k. ahead_while no_space (take n line) (n - k) k)
      (ahead_while-take is_space line n (n - i) i (omega arith))
    ∙ ahead_while-take no_space line n (n - j) j
        (omega (arith, ahead_while-le is_space line (n - i) i))
  where
    j : ℕ
    j = ahead_while is_space line (n - i) i
