-- ===== src/Sh/Browse/Shown.antt =====
-- What the Up and Down keys put on show.
use coeleo_os.Base.{
  ℕ, zero, suc, ◌+◌, ◌-◌, ◌%◌, ◌≤◌, ◌<◌, ◌≡◌, refl, sym, ap, ◌∙◌, min, arith, List, [], ◌∷◌, Bool,
  true, false, Option, none, some, length, length-take, take, drop, get_or, leb, ◌==◌,
  if◌then◌else◌, Bool-cases, inl, inr,
}
use coeleo_os.Base.Bytes.{Bytes}
use coeleo_os.Base.Slices.{take-append, take-all}
use coeleo_os.Base.View.{length-put, length-view, get_or-view}
use coeleo_os.Fs.Gpt.{put}
use coeleo_os.Sh.Line.{line_cap, Line}
use coeleo_os.Sh.Line.Text
use coeleo_os.Sh.History.{hist_cap, History, slot, get}
use coeleo_os.Sh.History.Ring
use coeleo_os.Sh.History.Ring.{nth, entries}
use coeleo_os.Sh.Browse.{paint_replace, up_older, up_from, hist_up, down_from, hist_down}

-- How far back the line on show is: 0 for the line that is being typed.
abbrev pub depth_of : Option ℕ → ℕ
depth_of none = 0
depth_of (some age) = suc age

abbrev pub depth : History → ℕ
depth h = depth_of h.view

-- The line that was typed, then a list of lines from its last one back.
abbrev pub shown : List Bytes → Bytes → ℕ → Bytes
shown es typed zero = typed
shown es typed (suc age) = get_or es (length es - 1 - age) []

-- The same by the calls of `get`.
abbrev by_age : History → Bytes → ℕ → Bytes
by_age h typed zero = typed
by_age h typed (suc age) = get h age

-- The line on show is that of the depth; the typed one is kept while another is on show.
pub record Browsing (ring : History) (typed : Bytes) (h : History) (e : Line) : Type 0 where
  pub history : Ring.IsValid h
  pub line : Text.IsValid e
  pub text : take e.n e.line ≡ by_age ring typed (depth h)
  pub kept : (age : ℕ) → h.view ≡ some age → take h.draft_len h.draft ≡ typed
  pub view_in : depth h ≤ h.count
  -- The ring itself stays.
  pub same : (age : ℕ) → get h age ≡ get ring age
  pub same_count : h.count ≡ ring.count

pub paint_replace_lem :
    (e : Line) (src : Bytes)
    → Text.IsValid e
    → length src ≤ line_cap
    → (take (paint_replace e src).n (paint_replace e src).line ≡ src)
      × Text.IsValid (paint_replace e src)
paint_replace_lem e src v short = (
  take-append m (take m src) (drop (0 + length (take m src)) e.line) size
      ∙ take-all m src (omega arith),
  record {
    size = length-put 0 (take m src) e.line (omega (arith, size)) ∙ v.size;
    room = omega (arith, v.size);
    cur_in = omega arith;
  },
)
  where
    m : ℕ
    m = min (length src) (length e.line)

    size : length (take m src) ≡ m
    size = omega (arith, length-take m src)

pub length-get : (h : History) (age : ℕ) → Ring.IsValid h → length (get h age) ≤ line_cap
unfolding get
length-get h age v = elim (Bool-cases (leb h.count age)) [
  | inl e ↦ rw e (omega arith)
  | inr e ↦ rw e (
      omega (
        arith,
        length-take (get_or h.lens ((h.start + h.count - 1 - age) % hist_cap) 0)
            (get_or h.lines ((h.start + h.count - 1 - age) % hist_cap) []),
        v.len_in ((h.start + h.count - 1 - age) % hist_cap),
      ))
]

module _ (ring : History) (typed : Bytes) where
  -- Line `age` of the history is put on show.
  put_on_show :
      (h : History) (e : Line) (age : ℕ)
      → Ring.IsValid h
      → Text.IsValid e
      → take h.draft_len h.draft ≡ typed
      → age < h.count
      → ((k : ℕ) → get h k ≡ get ring k)
      → h.count ≡ ring.count
      → Browsing ring typed (record h { view = some age }) (paint_replace e (get h age))
  unfolding get
  put_on_show h e age v w draft lt same count =
      let (text, valid) = paint_replace_lem e (get h age) w (length-get h age v) in
      record {
        history = record {
          lines_size = v.lines_size;
          lens_size = v.lens_size;
          start_in = v.start_in;
          count_in = v.count_in;
          line_size = v.line_size;
          len_in = v.len_in;
          draft_size = v.draft_size;
          draft_in = v.draft_in;
        };
        line = valid;
        text = text ∙ same age;
        kept = λ k f. draft;
        view_in = omega arith;
        same = same;
        same_count = count;
      }

  module _ (h : History) (e : Line) (b : Browsing ring typed h e) where
    -- The typed line is kept when the first line of the history comes.
    saved : History
    saved = record h { draft = put 0 (take e.n e.line) h.draft; draft_len = e.n }

    size_text : length (take e.n e.line) ≡ e.n
    size_text = omega (arith, length-take e.n e.line, b.line.size, b.line.room)

    saved-IsValid : Ring.IsValid saved
    unfolding saved
    saved-IsValid = record {
      lines_size = b.history.lines_size;
      lens_size = b.history.lens_size;
      start_in = b.history.start_in;
      count_in = b.history.count_in;
      line_size = b.history.line_size;
      len_in = b.history.len_in;
      draft_size =
          length-put 0 (take e.n e.line) h.draft
            (omega (arith, size_text, b.history.draft_size, b.line.room))
          ∙ b.history.draft_size;
      draft_in = b.line.room;
    }

    saved_text : h.view ≡ none → take saved.draft_len saved.draft ≡ typed
    unfolding saved
    saved_text f =
        take-append e.n (take e.n e.line) (drop (0 + length (take e.n e.line)) h.draft) size_text
        ∙ b.text
        ∙ ap (λ o. by_age ring typed (depth_of o)) f

    -- The Up key.
    up_lem :
        Browsing ring typed (hist_up h e).0 (hist_up h e).1
        × (depth (hist_up h e).0 ≡ min (depth h + 1) ring.count)
    unfolding hist_up saved get
    up_lem = by_count (h.count == 0) refl
      where
        from_view :
            (o : Option ℕ)
            → h.view ≡ o
            → (h.count == 0) ≡ false
            → Browsing ring typed (up_from h e o).0 (up_from h e o).1
              × (depth (up_from h e o).0 ≡ min (depth_of o + 1) ring.count)
        from_view none f z = (
          put_on_show saved e 0 saved-IsValid b.line (saved_text f) (ground (arith, z)) b.same
              b.same_count,
          ground (arith, z, b.same_count),
        )
        from_view (some age) f z = by_test (leb h.count (age + 1)) refl
          where
            by_test :
                (t : Bool)
                → leb h.count (age + 1) ≡ t
                → Browsing ring typed (up_older h e (age + 1) t).0 (up_older h e (age + 1) t).1
                  × (depth (up_older h e (age + 1) t).0 ≡ min (suc age + 1) ring.count)
            by_test true g = (b, ground (arith, ap depth_of f, g, b.same_count, b.view_in))
            by_test false g = (
              put_on_show h e (age + 1) b.history b.line (b.kept age f) (ground (arith, g)) b.same
                  b.same_count,
              ground (arith, g, b.same_count),
            )

        result : Bool → History × Line
        result t = if t then (h, e) else up_from h e h.view

        by_count :
            (t : Bool)
            → (h.count == 0) ≡ t
            → Browsing ring typed (result t).0 (result t).1
              × (depth (result t).0 ≡ min (depth h + 1) ring.count)
        by_count true z = (b, ground (arith, z, b.same_count, b.view_in))
        by_count false z = from_view h.view refl z

    -- The Down key.
    down_lem :
        Browsing ring typed (hist_down h e).0 (hist_down h e).1
        × (depth (hist_down h e).0 ≡ depth h - 1)
    unfolding hist_down get
    down_lem = from_view h.view refl
      where
        from_view :
            (o : Option ℕ)
            → h.view ≡ o
            → Browsing ring typed (down_from h e o).0 (down_from h e o).1
              × (depth (down_from h e o).0 ≡ depth_of o - 1)
        from_view none f = (b, omega (arith, ap depth_of f))
        from_view (some (suc age)) f = (
          put_on_show h e age b.history b.line (b.kept (suc age) f)
              (omega (arith, ap depth_of f, b.view_in)) b.same b.same_count,
          omega arith,
        )
        from_view (some zero) f =
            let (text, valid) =
              paint_replace_lem e (take h.draft_len h.draft) b.line
                (omega (arith, length-take h.draft_len h.draft, b.history.draft_size)) in
            (
              record {
                history = record {
                  lines_size = b.history.lines_size;
                  lens_size = b.history.lens_size;
                  start_in = b.history.start_in;
                  count_in = b.history.count_in;
                  line_size = b.history.line_size;
                  len_in = b.history.len_in;
                  draft_size = b.history.draft_size;
                  draft_in = b.history.draft_in;
                };
                line = valid;
                text = text ∙ b.kept zero f;
                kept = λ k g. absurd (cc g);
                view_in = omega arith;
                same = b.same;
                same_count = b.same_count;
              },
              omega arith,
            )

-- The two keys, pressed one after another, and the depth that they lead to.
pub data Arrow : Type 0 where
  up : Arrow
  down : Arrow

abbrev pub arrow : History × Line → Arrow → History × Line
arrow (h, e) up = hist_up h e
arrow (h, e) down = hist_down h e

abbrev pub arrows : History × Line → List Arrow → History × Line
arrows s [] = s
arrows s (a ∷ as') = arrows (arrow s a) as'

abbrev pub depth_after : ℕ → ℕ → List Arrow → ℕ
depth_after count d [] = d
depth_after count d (up ∷ as') = depth_after count (min (d + 1) count) as'
depth_after count d (down ∷ as') = depth_after count (d - 1) as'

arrows_lem :
    (ring : History) (typed : Bytes) (as' : List Arrow) (h : History) (e : Line)
    → Browsing ring typed h e
    → Browsing ring typed (arrows (h, e) as').0 (arrows (h, e) as').1
      × (depth (arrows (h, e) as').0 ≡ depth_after ring.count (depth h) as')
arrows_lem ring typed [] h e b = (b, refl)
arrows_lem ring typed (up ∷ as') h e b =
    let (c, d) = up_lem ring typed h e b in
    let (x, y) = arrows_lem ring typed as' (hist_up h e).0 (hist_up h e).1 c in
    (x, y ∙ ap (λ n. depth_after ring.count n as') d)
arrows_lem ring typed (down ∷ as') h e b =
    let (c, d) = down_lem ring typed h e b in
    let (x, y) = arrows_lem ring typed as' (hist_down h e).0 (hist_down h e).1 c in
    (x, y ∙ ap (λ n. depth_after ring.count n as') d)

-- `get` counts from the last line of the ring back.
by_age-shown :
    (h : History) (typed : Bytes) (d : ℕ)
    → d ≤ h.count
    → by_age h typed d ≡ shown (entries h) typed d
unfolding get
by_age-shown h typed zero le = refl
by_age-shown h typed (suc age) le =
    let here : leb h.count age ≡ false = ground (arith, le) in
    rw here (
      sym (
        ap (λ n. get_or (entries h) (n - 1 - age) []) (length-view (nth h) 0 h.count)
        ∙ get_or-view (nth h) 0 h.count (h.count - 1 - age) [] (omega arith)
        ∙ ap (slot h) {x = (h.start + (0 + (h.count - 1 - age))) % hist_cap}
            {y = (h.start + h.count - 1 - age) % hist_cap} (omega (arith, le))))

-- With a valid history and a line that is being typed, whatever sequence of Up and Down is pressed,
-- the text on show is the typed one at depth 0 and, at depth `d`, the line that was entered `d`-th
-- last of those in the ring, where each Up goes one back, as far as there are lines, and each Down one
-- forward.
pub browse_lem :
    (h : History) (e : Line) (as' : List Arrow)
    → Ring.IsValid h
    → Text.IsValid e
    → h.view ≡ none
    → take (arrows (h, e) as').1.n (arrows (h, e) as').1.line
      ≡ shown (entries h) (take e.n e.line) (depth_after (length (entries h)) 0 as')
browse_lem h e as' v w none_seen =
    let (b, d) = arrows_lem h typed as' h e begin in
    let reached : depth (arrows (h, e) as').0 ≡ depth_after h.count 0 as' =
      d ∙ ap (λ n. depth_after h.count n as') (ap depth_of none_seen) in
    b.text
    ∙ by_age-shown h typed (depth (arrows (h, e) as').0) (omega (arith, b.view_in, b.same_count))
    ∙ ap (shown (entries h) typed) reached
    ∙ ap (λ c. shown (entries h) typed (depth_after c 0 as')) (sym (length-view (nth h) 0 h.count))
  where
    typed : Bytes
    typed = take e.n e.line

    begin : Browsing h typed h e
    begin = record {
      history = v;
      line = w;
      text = ap (by_age h typed) (sym (ap depth_of none_seen));
      kept = λ k f. absurd (cc (none_seen, f));
      view_in = omega (arith, ap depth_of none_seen);
      same = λ k. refl;
      same_count = refl;
    }
