-- ===== src/Sh/Line.antt =====
-- userspace/apps/sh/src/line.rs: the line that is being typed. What is written to the terminal is
-- left out.
pub mod Shift
pub mod Text
pub mod Keys
pub mod Tests
use coeleo_os.Base.{
  ℕ, zero, suc, ◌+◌, ◌-◌, Bool, true, false, not, ◌&&◌, ◌||◌, length, get_or, set, leb, ltb, ◌==◌,
  if◌then◌else◌,
}
use coeleo_os.Base.Bytes.{Bytes}

abbrev pub line_cap : ℕ
line_cap = 128

-- The buffer, of which `n` bytes count, and the place of the cursor.
pub record Line : Type 0 where
  pub line : Bytes
  pub n : ℕ
  pub cur : ℕ

-- `for i in (cur..cur + k).rev() { line[i + 1] = line[i] }`.
unfoldable pub shift_up : ℕ → ℕ → Bytes → Bytes
shift_up cur zero line = line
shift_up cur (suc k) line = shift_up cur k (set line (cur + k + 1) (get_or line (cur + k) 0))

-- `for i in 0..k { line[dst + i] = line[src + i] }`.
unfoldable pub copy_down : ℕ → ℕ → ℕ → Bytes → Bytes
copy_down zero dst src line = line
copy_down (suc k) dst src line = copy_down k (dst + 1) (src + 1) (set line dst (get_or line src 0))

unfoldable pub insert : ℕ → Line → Line
insert b e = record {
  line = set (shift_up e.cur (e.n - e.cur) e.line) e.cur b;
  n = e.n + 1;
  cur = e.cur + 1;
}

unfoldable pub backspace : Line → Line
backspace e = if e.cur == 0 then e else record {
  line = copy_down (e.n - 1 - (e.cur - 1)) (e.cur - 1) (e.cur - 1 + 1) e.line;
  n = e.n - 1;
  cur = e.cur - 1;
}

unfoldable pub forward_delete : Line → Line
forward_delete e =
    if ltb e.cur e.n
    then record e { line = copy_down (e.n - 1 - e.cur) e.cur (e.cur + 1) e.line; n = e.n - 1 }
    else e

unfoldable pub kill_to_end : Line → Line
kill_to_end e = if ltb e.cur e.n then record e { n = e.cur } else e

unfoldable pub kill_to_start : Line → Line
kill_to_start e =
    if e.cur == 0
    then e
    else record { line = copy_down (e.n - e.cur) 0 e.cur e.line; n = e.n - e.cur; cur = 0 }

-- `while i > 0 && test(line[i - 1]) { i -= 1 }`.
unfoldable pub back_while : (ℕ → Bool) → Bytes → ℕ → ℕ
back_while test line zero = 0
back_while test line (suc i) =
    let rest = back_while test line i in if test (get_or line i 0) then rest else suc i

-- `while i < n && test(line[i]) { i += 1 }`, with `k` for `n - i`.
unfoldable pub ahead_while : (ℕ → Bool) → Bytes → ℕ → ℕ → ℕ
ahead_while test line zero i = i
ahead_while test line (suc k) i =
    let rest = ahead_while test line k (i + 1) in if test (get_or line i 0) then rest else i

abbrev pub is_space : ℕ → Bool
is_space b = b == b' '

abbrev pub no_space : ℕ → Bool
no_space b = not (b == b' ')

-- The start of the word before `i`, and the end of the word behind it.
abbrev pub word_start : Bytes → ℕ → ℕ
word_start line i = back_while no_space line (back_while is_space line i)

abbrev pub word_end : Bytes → ℕ → ℕ → ℕ
word_end line n i =
    let j = ahead_while is_space line (n - i) i in ahead_while no_space line (n - j) j

unfoldable pub kill_word : Line → Line
kill_word e =
    if e.cur == 0
    then e
    else (let i = word_start e.line e.cur in
        record { line = copy_down (e.n - e.cur) i e.cur e.line; n = e.n - (e.cur - i); cur = i })

unfoldable pub transpose : Line → Line
transpose e =
    if leb 2 e.cur && leb e.cur e.n
    then record e {
      line =
          set (set e.line (e.cur - 2) (get_or e.line (e.cur - 1) 0)) (e.cur - 1)
            (get_or e.line (e.cur - 2) 0);
    }
    else e

unfoldable pub word_left : Line → Line
word_left e = if e.cur == 0 then e else record e { cur = word_start e.line e.cur }

unfoldable pub word_right : Line → Line
word_right e = if leb e.n e.cur then e else record e { cur = word_end e.line e.n e.cur }

unfoldable pub move_left : Line → Line
move_left e = if e.cur == 0 then e else record e { cur = e.cur - 1 }

unfoldable pub move_right : Line → Line
move_right e = if leb e.n e.cur then e else record e { cur = e.cur + 1 }

unfoldable pub go_home : Line → Line
go_home e = if ltb 0 e.cur then record e { cur = 0 } else e

unfoldable pub go_to_end : Line → Line
go_to_end e = if ltb e.cur e.n then record e { cur = e.n } else e
