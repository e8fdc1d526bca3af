-- ===== src/Sh/Prompt/Session.antt =====
-- What is typed at the prompt of line.rs, as the keys of a terminal, and the line that is entered.
use coeleo_os.Base.{
  both_true, ℕ, ◌≡◌, refl, sym, ap, ◌∙◌, subst, arith, List, [], ◌∷◌, ◌++◌, append_assoc, Bool,
  true, false, not, ◌&&◌, none, length, length-take, take, leb, ltb, ◌==◌, if◌then◌else◌,
}
use coeleo_os.Base.Bytes.{Bytes, bytes_eq}
use coeleo_os.Sh.Line.{Line, insert}
use coeleo_os.Sh.Line.Text
use coeleo_os.Sh.Line.Text.{
  Text, text_of, Key, byte, rub_out, delete, cut_behind, cut_before, cut_word, swap, to_word_left,
  to_word_right, left, right, home, to_end, press, edit,
}
use coeleo_os.Sh.Line.Keys.{press_refines}
use coeleo_os.Sh.History.{History, trim_bytes}
use coeleo_os.Sh.History.Ring
use coeleo_os.Sh.History.Ring.{entries, remember, push_lem}
use coeleo_os.Sh.Prompt.Fits.{viewed}
use coeleo_os.Sh.Prompt.{
  normal, Prompt, Outcome, entered, final, after_esc, in_csi, printable, arm, typed, Outside,
  feed_all,
}

-- What a terminal sends for a key.
abbrev pub codes_of : Key → Bytes
codes_of (byte b) = b ∷ []
codes_of rub_out = 0x08 ∷ []
codes_of delete = 0x1B ∷ b'[' ∷ b'3' ∷ b'~' ∷ []
codes_of cut_behind = 0x0B ∷ []
codes_of cut_before = 0x15 ∷ []
codes_of cut_word = 0x17 ∷ []
codes_of swap = 0x14 ∷ []
codes_of to_word_left = 0x1B ∷ b'b' ∷ []
codes_of to_word_right = 0x1B ∷ b'f' ∷ []
codes_of left = 0x1B ∷ b'[' ∷ b'D' ∷ []
codes_of right = 0x1B ∷ b'[' ∷ b'C' ∷ []
codes_of home = 0x1B ∷ b'[' ∷ b'H' ∷ []
codes_of to_end = 0x1B ∷ b'[' ∷ b'F' ∷ []

abbrev pub codes_of_all : List Key → Bytes
codes_of_all [] = []
codes_of_all (k ∷ ks) = codes_of k ++ codes_of_all ks

-- Is it no control character that is to be inserted?
abbrev pub prints : Key → Bool
prints (byte b) = leb 0x20 b && not (b == 0x7F)
prints k = true

abbrev pub all_print : List Key → Bool
all_print [] = true
all_print (k ∷ ks) = prints k && all_print ks

abbrev pub edit_all : List Key → Text → Text
edit_all [] t = t
edit_all (k ∷ ks) t = edit_all ks (edit k t)

abbrev pub at_rest : History → Line → Prompt
at_rest h e = record { hist = h; line = e; mode = normal }

-- The history after a key: no view once the text was changed by hand.
abbrev seen : Key → Line → History → History
seen (byte b) e h = if ltb e.n (length e.line) then record h { view = none } else h
seen rub_out e h = record h { view = none }
seen k e h = h

is_printable : (b : ℕ) → (leb 0x20 b && not (b == 0x7F)) ≡ true → arm b ≡ printable
unfolding arm
is_printable b e = ground arith

module _ (o : Outside) where
  key_lem :
      (k : Key) (h : History) (e : Line) (bs : Bytes)
      → prints k ≡ true
      → feed_all o true (codes_of k ++ bs) (at_rest h e)
        ≡ feed_all o true bs (at_rest (seen k e h) (press k e))
  unfolding feed_all arm after_esc in_csi final bytes_eq
  key_lem (byte b) h e bs f = rw (is_printable b f) (by_room (ltb e.n (length e.line)))
    where
      by_room :
          (t : Bool)
          → feed_all o true bs (typed b t (at_rest h e))
            ≡ feed_all o true bs
                (at_rest (if t then record h { view = none } else h) (if t then insert b e else e))
      by_room true = refl
      by_room false = refl
  key_lem rub_out h e bs f = refl
  key_lem delete h e bs f = refl
  key_lem cut_behind h e bs f = refl
  key_lem cut_before h e bs f = refl
  key_lem cut_word h e bs f = refl
  key_lem swap h e bs f = refl
  key_lem to_word_left h e bs f = refl
  key_lem to_word_right h e bs f = refl
  key_lem left h e bs f = refl
  key_lem right h e bs f = refl
  key_lem home h e bs f = refl
  key_lem to_end h e bs f = refl

-- The history behind the view is as before.
seen-entries :
    (k : Key) (h : History) (e : Line)
    → Ring.IsValid h
    → (entries (seen k e h) ≡ entries h) × Ring.IsValid (seen k e h)
seen-entries k h e v = by_key k
  where
    no_view :
        (entries (record h { view = none }) ≡ entries h) × Ring.IsValid (record h { view = none })
    no_view = (refl, viewed h none v)

    by_room :
        (t : Bool)
        → (entries (if t then record h { view = none } else h) ≡ entries h)
          × Ring.IsValid (if t then record h { view = none } else h)
    by_room true = no_view
    by_room false = (refl, v)

    by_key : (i : Key) → (entries (seen i e h) ≡ entries h) × Ring.IsValid (seen i e h)
    by_key (byte b) = by_room (ltb e.n (length e.line))
    by_key rub_out = no_view
    by_key delete = (refl, v)
    by_key cut_behind = (refl, v)
    by_key cut_before = (refl, v)
    by_key cut_word = (refl, v)
    by_key swap = (refl, v)
    by_key to_word_left = (refl, v)
    by_key to_word_right = (refl, v)
    by_key left = (refl, v)
    by_key right = (refl, v)
    by_key home = (refl, v)
    by_key to_end = (refl, v)

-- `read_line` returned the text `t`, and what was in the history is now `es`.
pub record Entered (t : Bytes) (es : List Bytes) (r : Prompt × Outcome) : Type 0 where
  pub returned : r.1 ≡ entered (length t)
  pub line : take r.0.line.n r.0.line.line ≡ t
  pub lines : entries r.0.hist ≡ es

enter_lem :
    (o : Outside) (h : History) (e : Line)
    → Ring.IsValid h
    → Text.IsValid e
    → Entered
        (take e.n e.line)
        (remember (entries h) (trim_bytes (take e.n e.line)))
        (feed_all o true (b'\n' ∷ []) (at_rest h e))
unfolding feed_all arm
enter_lem o h e v w = record {
  returned =
      ap entered {x = e.n} {y = length (take e.n e.line)}
        (omega (arith, length-take e.n e.line, w.size, w.room));
  line = refl;
  lines = (push_lem h v (take e.n e.line)).0;
}

-- With `fancy`, from a line in its buffer and a valid history, and for every completion and
-- clipboard: when the bytes of any editing keys come, of which those that are inserted are no
-- control characters, and then Enter, `read_line` returns the text that the keys, one after another,
-- make of the line, and the history remembers that text without the spaces around it.
pub session_refines :
    (o : Outside) (ks : List Key) (h : History) (e : Line)
    → Ring.IsValid h
    → Text.IsValid e
    → all_print ks ≡ true
    → Entered
        (edit_all ks (text_of e)).0
        (remember (entries h) (trim_bytes (edit_all ks (text_of e)).0))
        (feed_all o true (codes_of_all ks ++ (b'\n' ∷ [])) (at_rest h e))
session_refines o [] h e v w f = enter_lem o h e v w
session_refines o (k ∷ ks) h e v w f =
    let (text, valid) = press_refines e w k in
    let (same, u) = seen-entries k h e v in
    let (prints_k, print_ks) = both_true (prints k) (all_print ks) f in
    let rest = session_refines o ks (seen k e h) (press k e) u valid print_ks in
    subst (Entered _ _)
      (sym (
        ap (λ bs. feed_all o true bs (at_rest h e))
          (append_assoc (codes_of k) (codes_of_all ks) (b'\n' ∷ []))
        ∙ key_lem o k h e (codes_of_all ks ++ (b'\n' ∷ [])) prints_k))
      (subst
        (λ t.
          Entered (edit_all ks t).0 (remember (entries h) (trim_bytes (edit_all ks t).0))
            (feed_all o true (codes_of_all ks ++ (b'\n' ∷ [])) (at_rest (seen k e h) (press k e))))
        text
        (subst
          (λ es.
            Entered (edit_all ks (text_of (press k e))).0
              (remember es (trim_bytes (edit_all ks (text_of (press k e))).0))
              (feed_all o true (codes_of_all ks ++ (b'\n' ∷ []))
                (at_rest (seen k e h) (press k e))))
          same rest))
