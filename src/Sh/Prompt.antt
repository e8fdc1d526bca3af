-- ===== src/Sh/Prompt.antt =====
-- userspace/apps/sh/src/line.rs: the loop of `read_line`, as what each byte from the terminal does,
-- with the decoding of escape sequences and the search in the history. The completion of
-- complete.rs and the text of the clipboard are arguments; what is written is left out.
pub mod Bounds
pub mod Fits
pub mod Session
pub mod Tests
use coeleo_os.Base.{
  ℕ, zero, suc, ◌+◌, ◌-◌, min, List, [], ◌∷◌, ◌++◌, Bool, true, false, not, ◌&&◌, ◌||◌, Option,
  none, some, length, take, drop, leb, ltb, ◌==◌, if◌then◌else◌,
}
use coeleo_os.Base.Bytes.{Bytes, bytes_eq}
use coeleo_os.Fs.Gpt.{put}
use coeleo_os.Sh.Line.{Line, insert, backspace, forward_delete}
use coeleo_os.Sh.Line.Text.{
  Key, delete, cut_behind, cut_before, cut_word, swap, to_word_left, to_word_right, left, right,
  home, to_end, press,
}
use coeleo_os.Sh.History.{History, get_at, push}
use coeleo_os.Sh.Browse.{hist_up, hist_down}
use coeleo_os.Sh.Search.{find_match, replace_line, take_match, earlier}

-- Where the loop stands: `Seq`, with the part of `buf` that counts, and the locals of
-- `reverse_search` while that runs.
pub data Mode : Type 0 where
  normal : Mode
  esc : Mode
  csi : Bytes → Mode
  search : Bytes → Option ℕ → Bytes → Mode

pub record Prompt : Type 0 where
  pub hist : History
  pub line : Line
  pub mode : Mode

-- What `read_line` returns, if it does.
pub data Outcome : Type 0 where
  reading : Outcome
  entered : ℕ → Outcome
  ended : Outcome

abbrev pub on_line : (Line → Line) → Prompt → Prompt
on_line f p = record p { line = f p.line }

abbrev pub no_view : Prompt → Prompt
no_view p = record p { hist = record p.hist { view = none } }

abbrev pub browsed : Prompt → History × Line → Prompt
browsed p (h, e) = record p { hist = h; line = e }

-- What the bytes of an escape sequence ask for.
pub data Move : Type 0 where
  older : Move
  newer : Move
  by_key : Key → Move
  stay : Move

abbrev pub tilde : Bytes → Move
tilde buf =
    if bytes_eq buf (b'3' ∷ [])
    then by_key delete
    else if bytes_eq buf (b'1' ∷ [])
    then by_key home
    else if bytes_eq buf (b'4' ∷ [])
    then by_key to_end
    else stay

abbrev pub with_modifier : ℕ → Bytes → Move
with_modifier b buf =
    if not (bytes_eq buf (b'1' ∷ b';' ∷ b'5' ∷ []))
    then stay
    else if b == b'D'
    then by_key to_word_left
    else if b == b'C'
    then by_key to_word_right
    else stay

-- `b` ends a sequence whose other bytes are `buf`.
unfoldable pub final : ℕ → Bytes → Move
final b buf =
    if b == b'A'
    then older
    else if b == b'B'
    then newer
    else if b == b'C'
    then by_key right
    else if b == b'D'
    then by_key left
    else if b == b'H'
    then by_key home
    else if b == b'F'
    then by_key to_end
    else if b == b'~'
    then tilde buf
    else with_modifier b buf

abbrev pub move : Move → Prompt → Prompt
move older p = browsed p (hist_up p.hist p.line)
move newer p = browsed p (hist_down p.hist p.line)
move (by_key k) p = on_line (press k) p
move stay p = p

abbrev pub in_mode : Mode → Prompt → Prompt
in_mode m p = record p { mode = m }

abbrev pub if_fancy : Bool → (Prompt → Prompt) → Prompt → Prompt
if_fancy true f p = f p
if_fancy false f p = p

unfoldable pub after_esc : Bool → ℕ → Prompt → Prompt
after_esc fancy b p =
    if b == b'['
    then in_mode (csi []) p
    else if b == b'b'
    then if_fancy fancy (on_line (press to_word_left)) (in_mode normal p)
    else if b == b'f'
    then if_fancy fancy (on_line (press to_word_right)) (in_mode normal p)
    else in_mode normal p

unfoldable pub in_csi : Bool → ℕ → Bytes → Prompt → Prompt
in_csi fancy b buf p =
    if leb 0x40 b && leb b 0x7E
    then if_fancy fancy (move (final b buf)) (in_mode normal p)
    else if ltb (length buf) 8
    then in_mode (csi (buf ++ (b ∷ []))) p
    else in_mode normal p

abbrev pub shorter : History → Bytes → Option ℕ → Bytes → Mode
shorter h query match_idx original =
    let query' = take (length query - 1) query in
    if length query == 0
    then search query match_idx original
    else if length query' == 0
    then search query' none original
    else search query' (find_match h query' (h.count - 1)) original

unfoldable pub in_search : ℕ → Bytes → Option ℕ → Bytes → Prompt → Prompt
in_search b query match_idx original p =
    if b == 0x12
    then in_mode (search query (earlier p.hist query match_idx) original) p
    else if (b == 0x08) || (b == 0x7F)
    then in_mode (shorter p.hist query match_idx original) p
    else if (b == 0x1B) || ((b == 0x03) || (b == 0x07))
    then on_line (replace_line original) (in_mode normal p)
    else if (b == b'\n') || (b == b'\r')
    then on_line (take_match p.hist match_idx) (in_mode normal p)
    else if leb 0x20 b && (not (b == 0x7F) && ltb (length query) 32)
    then in_mode
        (search (query ++ (b ∷ [])) (find_match p.hist (query ++ (b ∷ [])) (p.hist.count - 1))
          original)
        p
    else p

-- Ctrl+V: the printable bytes of the clipboard, as long as there is room.
abbrev pub paste : Bytes → Line → Line
paste [] e = e
paste (b ∷ bs) e =
    paste bs (if leb 0x20 b && (not (b == 0x7F) && ltb e.n (length e.line)) then insert b e else e)

abbrev pub paste_in : Option Bytes → Line → Line
paste_in none e = e
paste_in (some clip) e = paste clip e

-- The arms of the `match` on a byte when no sequence is open; `fancy_key` for those that only press
-- a key of the editor, and only in the mode `fancy`.
pub data Arm : Type 0 where
  begin : Arm
  fancy_key : Key → Arm
  end_or_delete : Arm
  reverse_search : Arm
  enter : Arm
  interrupt : Arm
  paste_clip : Arm
  rub : Arm
  tab : Arm
  printable : Arm
  nothing : Arm

unfoldable pub arm : ℕ → Arm
arm b =
    if b == 0x1B
    then begin
    else if b == 0x01
    then fancy_key home
    else if b == 0x05
    then fancy_key to_end
    else if b == 0x04
    then end_or_delete
    else if b == 0x0B
    then fancy_key cut_behind
    else if b == 0x14
    then fancy_key swap
    else if b == 0x12
    then reverse_search
    else if (b == b'\n') || (b == b'\r')
    then enter
    else if b == 0x03
    then interrupt
    else if b == 0x0C
    then nothing
    else if b == 0x15
    then fancy_key cut_before
    else if b == 0x16
    then paste_clip
    else if b == 0x17
    then fancy_key cut_word
    else if (b == 0x08) || (b == 0x7F)
    then rub
    else if b == b'\t'
    then tab
    else if leb 0x20 b && not (b == 0x7F)
    then printable
    else nothing

-- Ctrl+C without `fancy`.
abbrev pub emptied : Prompt → Prompt
emptied p = on_line (λ e. record e { n = 0; cur = 0 }) (no_view p)

abbrev pub end_or_del : Bool → Bool → Prompt → Prompt × Outcome
end_or_del true fancy p = (p, ended)
end_or_del false fancy p = (if_fancy fancy (on_line (press delete)) p, reading)

abbrev pub interrupted : Bool → Prompt → Prompt × Outcome
interrupted true p = (p, entered 0)
interrupted false p = (emptied p, reading)

abbrev pub pushed : Prompt → Prompt
pushed p = record p { hist = push p.hist (take p.line.n p.line.line) }

abbrev pub typed : ℕ → Bool → Prompt → Prompt
typed b true p = on_line (insert b) (no_view p)
typed b false p = p

-- `complete::apply`, then `cur = n`.
abbrev pub completed : (Bytes → ℕ → Bytes × ℕ) → Line → Line
completed complete e = let (line, n) = complete e.line e.n in record { line = line; n = n; cur = n }

-- `complete::apply` on the buffer and `n`, and what the clipboard answers, of at most 4096 bytes.
pub record Outside : Type 0 where
  pub complete : Bytes → ℕ → Bytes × ℕ
  pub clip : Option Bytes

abbrev pub act : Outside → Bool → ℕ → Arm → Prompt → Prompt × Outcome
act o fancy b begin p = (in_mode esc p, reading)
act o fancy b (fancy_key k) p = (if_fancy fancy (on_line (press k)) p, reading)
act o fancy b end_or_delete p = end_or_del (p.line.n == 0) fancy p
act o fancy b reverse_search p =
    (if_fancy fancy (in_mode (search [] none (take p.line.n p.line.line))) p, reading)
act o fancy b enter p = (if_fancy fancy pushed p, entered p.line.n)
act o fancy b interrupt p = interrupted fancy p
act o fancy b paste_clip p = (if_fancy fancy (on_line (paste_in o.clip)) p, reading)
act o fancy b rub p = (on_line backspace (no_view p), reading)
act o fancy b tab p = (if_fancy fancy (λ q. on_line (completed o.complete) (no_view q)) p, reading)
act o fancy b printable p = (typed b (ltb p.line.n (length p.line.line)) p, reading)
act o fancy b nothing p = (p, reading)

-- One round of the loop, with the byte that was read.
abbrev pub feed_in : Outside → Bool → ℕ → Mode → Prompt → Prompt × Outcome
feed_in o fancy b normal p = act o fancy b (arm b) p
feed_in o fancy b esc p = (after_esc fancy b p, reading)
feed_in o fancy b (csi buf) p = (in_csi fancy b buf p, reading)
feed_in o fancy b (search query match_idx original) p =
    (in_search b query match_idx original p, reading)

abbrev pub feed : Outside → Bool → ℕ → Prompt → Prompt × Outcome
feed o fancy b p = feed_in o fancy b p.mode p

-- The loop on the bytes that come; it is left when a round has an outcome.
abbrev pub feed_on : (Prompt → Prompt × Outcome) → Prompt × Outcome → Prompt × Outcome
feed_on rest (p, reading) = rest p
feed_on rest (p, entered n) = (p, entered n)
feed_on rest (p, ended) = (p, ended)

unfoldable pub feed_all : Outside → Bool → Bytes → Prompt → Prompt × Outcome
feed_all o fancy [] p = (p, reading)
feed_all o fancy (b ∷ bs) p = feed_on (λ q. feed_all o fancy bs q) (feed o fancy b p)

-- The locals when `read_line` is called.
abbrev pub started : Bytes → History → Prompt
started line h = record { hist = h; line = record { line = line; n = 0; cur = 0 }; mode = normal }
