-- ===== src/Sh/Prompt/Fits.antt =====
-- The state of `read_line` of line.rs in its buffers, and that the parts of a round keep it there.
use coeleo_os.Base.{
  if_holds, ℕ, zero, suc, ◌+◌, ◌%◌, ◌≤◌, ◌≡◌, ◌∙◌, subst, arith, [], ◌∷◌, Bool, true, false, not,
  ◌&&◌, Option, none, some, length, length-take, take, get_or, leb, ltb, ◌==◌, if◌then◌else◌,
  Bool-cases, inl, inr,
}
use coeleo_os.Base.Bytes.{Bytes}
use coeleo_os.Fs.Gpt.{put}
use coeleo_os.Base.View.{length-put}
use coeleo_os.Sh.Line.{line_cap, Line, insert}
use coeleo_os.Sh.Line.Text
use coeleo_os.Sh.Line.Text.{
  Key, byte, delete, rub_out, home, to_end, to_word_left, to_word_right, left, right, press,
}
use coeleo_os.Sh.Line.Keys.{press_refines}
use coeleo_os.Sh.History.{hist_cap, History, get_at}
use coeleo_os.Sh.History.Ring
use coeleo_os.Sh.History.Ring.{push_lem}
use coeleo_os.Sh.Browse.{paint_replace, up_older, up_from, hist_up, down_from, hist_down}
use coeleo_os.Sh.Browse.Shown.{paint_replace_lem, length-get}
use coeleo_os.Sh.Search.{replace_line, take_match}
use coeleo_os.Sh.Prompt.{
  Mode, normal, esc, csi, search, Prompt, Outcome, reading, entered, ended, on_line, Move, older,
  newer, by_key, stay, move, in_mode, if_fancy, paste, paste_in,
}

-- `buf` of `Seq::Csi`, and `query` and `original` of `reverse_search`, empty while there is none.
abbrev pub pending : Mode → Bytes
pending normal = []
pending esc = []
pending (csi buf) = buf
pending (search query match_idx original) = []

abbrev pub asked : Mode → Bytes
asked normal = []
asked esc = []
asked (csi buf) = []
asked (search query match_idx original) = query

abbrev pub original : Mode → Bytes
original normal = []
original esc = []
original (csi buf) = []
original (search query match_idx text) = text

pub record IsValid (p : Prompt) : Type 0 where
  pub hist : Ring.IsValid p.hist
  pub line : Text.IsValid p.line
  pub buf_in : length (pending p.mode) ≤ 8
  pub query_in : length (asked p.mode) ≤ 32
  pub original_in : length (original p.mode) ≤ line_cap

-- The length that is returned; 0 while none is.
abbrev pub entered_len : Outcome → ℕ
entered_len reading = 0
entered_len (entered n) = n
entered_len ended = 0

abbrev pub Keeps : Prompt × Outcome → Type 0
Keeps (p, r) = IsValid p × (entered_len r ≤ line_cap)

-- The completion stays in the buffer.
pub record StaysIn (complete : Bytes → ℕ → Bytes × ℕ) : Type 0 where
  pub size :
      (line : Bytes) (n : ℕ)
      → length line ≡ line_cap
      → n ≤ line_cap
      → length (complete line n).0 ≡ line_cap
  pub room :
      (line : Bytes) (n : ℕ)
      → length line ≡ line_cap
      → n ≤ line_cap
      → (complete line n).1 ≤ line_cap

pub viewed : (h : History) (o : Option ℕ) → Ring.IsValid h → Ring.IsValid (record h { view = o })
viewed h o v = record {
  lines_size = v.lines_size;
  lens_size = v.lens_size;
  start_in = v.start_in;
  count_in = v.count_in;
  line_size = v.line_size;
  len_in = v.len_in;
  draft_size = v.draft_size;
  draft_in = v.draft_in;
}

-- The pair that an arrow key makes.
abbrev Both : History × Line → Type 0
Both (h, e) = Ring.IsValid h × Text.IsValid e

module _ (h : History) (e : Line) (v : Ring.IsValid h) (w : Text.IsValid e) where
  painted :
      (g : History) (src : Bytes)
      → Ring.IsValid g
      → length src ≤ line_cap
      → Both (g, paint_replace e src)
  painted g src u short = (u, (paint_replace_lem e src w short).1)

  hist_up_lem : Both (hist_up h e)
  unfolding hist_up
  hist_up_lem = if_holds Both (h.count == 0) (λ f. (v, w)) (λ f. from_view h.view)
    where
      saved-IsValid :
          Ring.IsValid
            (record h { draft = put 0 (take e.n e.line) h.draft; draft_len = e.n; view = some 0 })
      saved-IsValid = record {
        lines_size = v.lines_size;
        lens_size = v.lens_size;
        start_in = v.start_in;
        count_in = v.count_in;
        line_size = v.line_size;
        len_in = v.len_in;
        draft_size =
            length-put 0 (take e.n e.line) h.draft
              (omega (arith, length-take e.n e.line, v.draft_size, w.room))
            ∙ v.draft_size;
        draft_in = w.room;
      }

      from_view : (o : Option ℕ) → Both (up_from h e o)
      from_view none = painted _ _ saved-IsValid (length-get _ 0 saved-IsValid)
      from_view (some age) = by_test (leb h.count (age + 1))
        where
          by_test : (t : Bool) → Both (up_older h e (age + 1) t)
          by_test true = (v, w)
          by_test false = painted _ _ (viewed h _ v) (length-get h (age + 1) v)

  hist_down_lem : Both (hist_down h e)
  unfolding hist_down
  hist_down_lem = from_view h.view
    where
      from_view : (o : Option ℕ) → Both (down_from h e o)
      from_view none = (v, w)
      from_view (some zero) =
          painted _ _ (viewed h none v)
            (omega (arith, length-take h.draft_len h.draft, v.draft_size))
      from_view (some (suc age)) = painted _ _ (viewed h _ v) (length-get h age v)

length-get_at : (h : History) (i : ℕ) → Ring.IsValid h → length (get_at h i) ≤ line_cap
unfolding get_at
length-get_at h i v = elim (Bool-cases (leb h.count i)) [
  | inl e ↦ rw e (omega arith)
  | inr e ↦ rw e (
      omega (
        arith,
        length-take (get_or h.lens ((h.start + i) % hist_cap) 0)
            (get_or h.lines ((h.start + i) % hist_cap) []),
        v.len_in ((h.start + i) % hist_cap),
      ))
]

pub replaced :
    (e : Line) (bs : Bytes)
    → Text.IsValid e
    → length bs ≤ line_cap
    → Text.IsValid (replace_line bs e)
replaced e bs w short = record {
  size = length-put 0 bs e.line (omega (arith, w.size)) ∙ w.size;
  room = short;
  cur_in = omega arith;
}

pub inserted :
    (b : ℕ) (e : Line) → Text.IsValid e → ltb e.n (length e.line) ≡ true → Text.IsValid (insert b e)
inserted b e w room =
    subst (λ t. Text.IsValid (if t then insert b e else e)) room (press_refines e w (byte b)).1

pasted : (bs : Bytes) (e : Line) → Text.IsValid e → Text.IsValid (paste bs e)
pasted [] e w = w
pasted (b ∷ bs) e w = pasted bs _ (
    if_holds Text.IsValid (leb 0x20 b && (not (b == 0x7F) && ltb e.n (length e.line)))
      (λ f. inserted b e w (ground (arith, f))) (λ f. w))

pub pasted_in : (clip : Option Bytes) (e : Line) → Text.IsValid e → Text.IsValid (paste_in clip e)
pasted_in none e w = w
pasted_in (some clip) e w = pasted clip e w

pub taken :
    (h : History) (o : Option ℕ) (e : Line)
    → Ring.IsValid h
    → Text.IsValid e
    → Text.IsValid (take_match h o e)
taken h none e v w = w
taken h (some i) e v w = replaced e (get_at h i) w (length-get_at h i v)

module _ (p : Prompt) (v : IsValid p) where
  pub line_valid : (e : Line) → Text.IsValid e → IsValid (record p { line = e })
  line_valid e w = record {
    hist = v.hist;
    line = w;
    buf_in = v.buf_in;
    query_in = v.query_in;
    original_in = v.original_in;
  }

  pub hist_valid : (h : History) → Ring.IsValid h → IsValid (record p { hist = h })
  hist_valid h u = record {
    hist = u;
    line = v.line;
    buf_in = v.buf_in;
    query_in = v.query_in;
    original_in = v.original_in;
  }

  pub mode_valid :
      (m : Mode)
      → length (pending m) ≤ 8
      → length (asked m) ≤ 32
      → length (original m) ≤ line_cap
      → IsValid (in_mode m p)
  mode_valid m le_buf le_query le_original = record {
    hist = v.hist;
    line = v.line;
    buf_in = le_buf;
    query_in = le_query;
    original_in = le_original;
  }

  pub to_normal : IsValid (in_mode normal p)
  to_normal = mode_valid normal (omega arith) (omega arith) (omega arith)

  pub pressed : (k : Key) → IsValid (on_line (press k) p)
  pressed k = line_valid (press k p.line) (press_refines p.line v.line k).1

  pub move_lem : (m : Move) → IsValid (move m p)
  move_lem older =
      let (u, w) = hist_up_lem p.hist p.line v.hist v.line in
      record {
        hist = u;
        line = w;
        buf_in = v.buf_in;
        query_in = v.query_in;
        original_in = v.original_in;
      }
  move_lem newer =
      let (u, w) = hist_down_lem p.hist p.line v.hist v.line in
      record {
        hist = u;
        line = w;
        buf_in = v.buf_in;
        query_in = v.query_in;
        original_in = v.original_in;
      }
  move_lem (by_key k) = pressed k
  move_lem stay = v

  pub fancy_lem :
      (fancy : Bool) (f : Prompt → Prompt) → IsValid (f p) → IsValid (if_fancy fancy f p)
  fancy_lem true f w = w
  fancy_lem false f w = v
