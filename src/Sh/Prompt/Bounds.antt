-- ===== src/Sh/Prompt/Bounds.antt =====
-- Whatever bytes are typed, `read_line` of line.rs stays in its buffers.
use coeleo_os.Base.{
  if_holds, ℕ, ◌-◌, ◌≤◌, ◌≡◌, refl, arith, [], ◌∷◌, ◌++◌, Bool, true, false, not, ◌&&◌, ◌||◌,
  Option, none, length, length-take, length-append, take, leb, ltb, ◌==◌,
}
use coeleo_os.Base.Bytes.{Bytes}
use coeleo_os.Sh.Line.{line_cap, Line, insert, backspace}
use coeleo_os.Sh.Line.Text
use coeleo_os.Sh.Line.Text.{
  Key, byte, delete, rub_out, home, to_end, to_word_left, to_word_right, left, right, press,
}
use coeleo_os.Sh.Line.Keys.{press_refines}
use coeleo_os.Sh.History.{History, push}
use coeleo_os.Sh.History.Ring
use coeleo_os.Sh.History.Ring.{push_lem}
use coeleo_os.Sh.Search.{replace_line, take_match}
use coeleo_os.Sh.Prompt.{
  Mode, normal, esc, csi, search, Prompt, Outcome, reading, entered, ended, on_line, no_view, final,
  move, in_mode, if_fancy, after_esc, in_csi, shorter, in_search, paste_in, Arm, begin, fancy_key,
  end_or_delete, reverse_search, enter, interrupt, paste_clip, rub, tab, printable, nothing, arm,
  end_or_del, interrupted, pushed, typed, completed, Outside, act, feed_in, feed, feed_on, feed_all,
  started,
}
use coeleo_os.Sh.Prompt.Fits.{
  pending, asked, original, IsValid, Keeps, StaysIn, viewed, replaced, inserted, pasted_in, taken,
  line_valid, hist_valid, mode_valid, to_normal, pressed, move_lem, fancy_lem,
}

module _ (p : Prompt) (v : IsValid p) (fancy : Bool) where
  in_normal :
      (f : Prompt → Prompt)
      → IsValid (f (in_mode normal p))
      → IsValid (if_fancy fancy f (in_mode normal p))
  in_normal f w = fancy_lem (in_mode normal p) (to_normal p v) fancy f w

  word : (k : Key) → IsValid (if_fancy fancy (on_line (press k)) (in_mode normal p))
  word k = in_normal (on_line (press k)) (pressed (in_mode normal p) (to_normal p v) k)

  after_esc_lem : (b : ℕ) → IsValid (after_esc fancy b p)
  unfolding after_esc
  after_esc_lem b =
      if_holds IsValid (b == b'[')
        (λ f. mode_valid p v (csi []) (omega arith) (omega arith) (omega arith))
        (λ f.
          if_holds IsValid (b == b'b') (λ g. word to_word_left)
            (λ g. if_holds IsValid (b == b'f') (λ k. word to_word_right) (λ k. to_normal p v)))

  in_csi_lem : (b : ℕ) (buf : Bytes) → IsValid (in_csi fancy b buf p)
  unfolding in_csi
  in_csi_lem b buf =
      if_holds IsValid (leb 0x40 b && leb b 0x7E)
        (λ f.
          in_normal (move (final b buf))
            (move_lem (in_mode normal p) (to_normal p v) (final b buf)))
        (λ f.
          if_holds IsValid (ltb (length buf) 8)
            (λ g.
              mode_valid p v (csi (buf ++ (b ∷ []))) (ground (arith, length-append buf (b ∷ []), g))
                (omega arith) (omega arith))
            (λ g. to_normal p v))

module _ (p : Prompt) (v : IsValid p) (b : ℕ) (query : Bytes) (o : Option ℕ) (text : Bytes)
    (short : length query ≤ 32) (fits : length text ≤ line_cap) where
  searching :
      (query' : Bytes) (o' : Option ℕ)
      → length query' ≤ 32
      → IsValid (in_mode (search query' o' text) p)
  searching query' o' le = mode_valid p v (search query' o' text) (omega arith) le fits

  shorter_lem : IsValid (in_mode (shorter p.hist query o text) p)
  shorter_lem =
      if_holds (λ m. IsValid (in_mode m p)) (length query == 0) (λ f. searching query o short)
        (λ f.
          if_holds (λ m. IsValid (in_mode m p)) (length query' == 0)
            (λ g. searching query' none less) (λ g. searching query' _ less))
    where
      query' : Bytes
      query' = take (length query - 1) query

      less : length query' ≤ 32
      less = omega (arith, length-take (length query - 1) query)

  left_with : (f : Line → Line) → Text.IsValid (f p.line) → IsValid (on_line f (in_mode normal p))
  left_with f w = line_valid (in_mode normal p) (to_normal p v) (f p.line) w

  in_search_lem : IsValid (in_search b query o text p)
  unfolding in_search
  in_search_lem =
      if_holds IsValid (b == 0x12) (λ f. searching query _ short)
        (λ f.
          if_holds IsValid ((b == 0x08) || (b == 0x7F)) (λ g. shorter_lem)
            (λ g.
              if_holds IsValid ((b == 0x1B) || ((b == 0x03) || (b == 0x07)))
                (λ h. left_with (replace_line text) (replaced p.line text v.line fits))
                (λ h.
                  if_holds IsValid ((b == b'\n') || (b == b'\r'))
                    (λ i. left_with (take_match p.hist o) (taken p.hist o p.line v.hist v.line))
                    (λ i.
                      if_holds IsValid (leb 0x20 b && (not (b == 0x7F) && ltb (length query) 32))
                        (λ j.
                          searching (query ++ (b ∷ [])) _
                            (ground (arith, length-append query (b ∷ []), j)))
                        (λ j. v)))))

-- One round.
module _ (o : Outside) (c : StaysIn o.complete) (fancy : Bool) (b : ℕ) (p : Prompt)
    (v : IsValid p) where
  unviewed : IsValid (no_view p)
  unviewed = hist_valid p v (record p.hist { view = none }) (viewed p.hist none v.hist)

  no_fancy : (f : Prompt → Prompt) → IsValid (f p) → Keeps (if_fancy fancy f p, reading)
  no_fancy f w = (fancy_lem p v fancy f w, omega arith)

  act_lem : (a : Arm) → Keeps (act o fancy b a p)
  act_lem begin = (mode_valid p v esc (omega arith) (omega arith) (omega arith), omega arith)
  act_lem (fancy_key k) = no_fancy (on_line (press k)) (pressed p v k)
  act_lem end_or_delete = by_test (p.line.n == 0)
    where
      by_test : (t : Bool) → Keeps (end_or_del t fancy p)
      by_test true = (v, omega arith)
      by_test false = no_fancy (on_line (press delete)) (pressed p v delete)
  act_lem reverse_search = no_fancy _ (
      mode_valid p v (search [] none (take p.line.n p.line.line)) (omega arith) (omega arith)
        (omega (arith, length-take p.line.n p.line.line, v.line.room)))
  act_lem enter = (
    fancy_lem p v fancy pushed (
        hist_valid p v (push p.hist (take p.line.n p.line.line))
          (push_lem p.hist v.hist (take p.line.n p.line.line)).1),
    v.line.room,
  )
  act_lem interrupt = by_test fancy
    where
      by_test : (t : Bool) → Keeps (interrupted t p)
      by_test true = (v, omega arith)
      by_test false = (
        line_valid (no_view p) unviewed (record p.line { n = 0; cur = 0 })
            (record { size = v.line.size; room = omega arith; cur_in = omega arith }),
        omega arith,
      )
  act_lem paste_clip =
      no_fancy (on_line (paste_in o.clip)) (line_valid p v _ (pasted_in o.clip p.line v.line))
  act_lem rub = (
    line_valid (no_view p) unviewed (backspace p.line) (press_refines p.line v.line rub_out).1,
    omega arith,
  )
  act_lem tab = no_fancy _ (
      line_valid (no_view p) unviewed (completed o.complete p.line) (record {
        size = c.size p.line.line p.line.n v.line.size v.line.room;
        room = c.room p.line.line p.line.n v.line.size v.line.room;
        cur_in = omega arith;
      }))
  act_lem printable = by_test (ltb p.line.n (length p.line.line)) refl
    where
      by_test : (t : Bool) → ltb p.line.n (length p.line.line) ≡ t → Keeps (typed b t p, reading)
      by_test true e = (
        line_valid (no_view p) unviewed (insert b p.line) (inserted b p.line v.line e),
        omega arith,
      )
      by_test false e = (v, omega arith)
  act_lem nothing = (v, omega arith)

  feed_lem : Keeps (feed o fancy b p)
  feed_lem = by_mode p.mode v.buf_in v.query_in v.original_in
    where
      by_mode :
          (m : Mode)
          → length (pending m) ≤ 8
          → length (asked m) ≤ 32
          → length (original m) ≤ line_cap
          → Keeps (feed_in o fancy b m p)
      by_mode normal le_buf le_query le_original = act_lem (arm b)
      by_mode esc le_buf le_query le_original = (after_esc_lem p v fancy b, omega arith)
      by_mode (csi buf) le_buf le_query le_original = (in_csi_lem p v fancy b buf, omega arith)
      by_mode (search query i text) le_buf le_query le_original =
          (in_search_lem p v b query i text le_query le_original, omega arith)

-- Let the completion stay in the buffer of 128 bytes. From a valid state, whatever bytes are typed,
-- with `fancy` or without: the text stays in that buffer and the cursor in the text, the ring stays
-- valid, an escape sequence has at most 8 bytes before its end and a search at most 32 bytes, and a
-- length that `read_line` returns is at most 128.
pub feed_all-Keeps :
    (o : Outside)
    → StaysIn o.complete
    → (fancy : Bool) (bs : Bytes) (p : Prompt) → IsValid p
    → Keeps (feed_all o fancy bs p)
unfolding feed_all
feed_all-Keeps o c fancy [] p v = (v, omega arith)
feed_all-Keeps o c fancy (b ∷ bs) p v =
    go_on (feed o fancy b p) (feed_lem o c fancy b p v) (λ q w. feed_all-Keeps o c fancy bs q w)
  where
    go_on :
        (r : Prompt × Outcome)
        → Keeps r
        → ((q : Prompt) → IsValid q → Keeps (feed_all o fancy bs q))
        → Keeps (feed_on (λ q. feed_all o fancy bs q) r)
    go_on (q, reading) (w, le) rest = rest q w
    go_on (q, entered n) w rest = w
    go_on (q, ended) w rest = w

-- The start, with a buffer of 128 bytes.
pub started-IsValid :
    (line : Bytes) (h : History)
    → length line ≡ line_cap
    → Ring.IsValid h
    → IsValid (started line h)
started-IsValid line h size v = record {
  hist = v;
  line = record { size = size; room = omega arith; cur_in = omega arith };
  buf_in = omega arith;
  query_in = omega arith;
  original_in = omega arith;
}
