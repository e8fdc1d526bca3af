-- ===== src/Input/Kbd/Typed.antt =====
-- Keys that are pressed while the terminal has the focus reach the prompt of the shell.
use coeleo_os.Base.{
  both_true, ℕ, ◌+◌, ◌≤◌, ◌<◌, ◌≡◌, refl, sym, ap, ◌∙◌, subst, arith, List, [], ◌∷◌, ◌++◌,
  append_assoc, append-nil, Bool, true, false, not, ◌&&◌, length, length-append, ltb, ◌==◌,
  if◌then◌else◌,
}
use coeleo_os.Base.Bytes.{Bytes}
use coeleo_os.Input.Kbd.{
  World, enqueue_or_kill, enqueue_seq, enqueue_csi, Key, left, right, home, end_key, enter,
  backspace, delete, char, Compositor, dispatch_char, dispatch,
}
use coeleo_os.Input.Kbd.Fifo.{IsValid, contents, enqueue_lem}
use coeleo_os.Sh.Line.{Line}
use coeleo_os.Sh.Line.Text
use coeleo_os.Sh.Line.Text.{
  byte, rub_out, cut_behind, cut_before, cut_word, swap, to_word_left, to_word_right, to_end,
  text_of,
}
use coeleo_os.Sh.History.{History, trim_bytes}
use coeleo_os.Sh.History.Ring
use coeleo_os.Sh.History.Ring.{entries, remember}
use coeleo_os.Sh.Prompt.{Outside, feed_all}
use coeleo_os.Sh.Prompt.Session.{
  codes_of, codes_of_all, prints, all_print, edit_all, at_rest, Entered, session_refines,
}

-- The terminal has the focus, and no window is on top.
abbrev pub on_terminal : Compositor
on_terminal = record {
  irq_tab = false;
  irq_files_key = λ k. false;
  irq_runner_char = λ b. false;
  irq_client_char = λ b. false;
  irq_files_char = λ b. false;
  files_focused = false;
}

-- The key of the keyboard for a key of the line editor; Ctrl with a letter gives a character.
abbrev pub key_for : Text.Key → Key
key_for (byte b) = char b
key_for rub_out = backspace
key_for Text.delete = delete
key_for cut_behind = char 0x0B
key_for cut_before = char 0x15
key_for cut_word = char 0x17
key_for swap = char 0x14
key_for to_word_left = char 0x1B
key_for to_word_right = char 0x1B
key_for Text.left = left
key_for Text.right = right
key_for Text.home = home
key_for to_end = end_key

-- The two moves by a word have no key, since Esc does not reach the queue.
abbrev pub has_key : Text.Key → Bool
has_key to_word_left = false
has_key to_word_right = false
has_key (byte b) = prints (byte b)
has_key k = true

abbrev pub all_keys : List Text.Key → Bool
all_keys [] = true
all_keys (k ∷ ks) = has_key k && all_keys ks

abbrev pub dispatch_all : Compositor → List Text.Key → World → World
dispatch_all c [] w = w
dispatch_all c (k ∷ ks) w = dispatch_all c ks (dispatch c (key_for k) w)

abbrev no_interrupt : Bytes → Bool
no_interrupt [] = true
no_interrupt (b ∷ bs) = not (b == 3) && no_interrupt bs

key_lem :
    (k : Text.Key) (w : World)
    → has_key k ≡ true
    → dispatch on_terminal (key_for k) w ≡ enqueue_seq (codes_of k) w
unfolding dispatch_char enqueue_csi
key_lem (byte b) w f = ground (arith, f)
key_lem rub_out w f = refl
key_lem Text.delete w f = refl
key_lem cut_behind w f = refl
key_lem cut_before w f = refl
key_lem cut_word w f = refl
key_lem swap w f = refl
key_lem to_word_left w f = absurd (cc f)
key_lem to_word_right w f = absurd (cc f)
key_lem Text.left w f = refl
key_lem Text.right w f = refl
key_lem Text.home w f = refl
key_lem to_end w f = refl

enqueue_seq-append :
    (xs ys : Bytes) (w : World) → enqueue_seq (xs ++ ys) w ≡ enqueue_seq ys (enqueue_seq xs w)
enqueue_seq-append [] ys w = refl
enqueue_seq-append (x ∷ xs) ys w = enqueue_seq-append xs ys (enqueue_or_kill x w)

dispatch_all_lem :
    (ks : List Text.Key) (w : World)
    → all_keys ks ≡ true
    → dispatch_all on_terminal ks w ≡ enqueue_seq (codes_of_all ks) w
dispatch_all_lem [] w f = refl
dispatch_all_lem (k ∷ ks) w f =
    let (one, more) = both_true (has_key k) (all_keys ks) f in
    dispatch_all_lem ks (dispatch on_terminal (key_for k) w) more
    ∙ ap (enqueue_seq (codes_of_all ks)) (key_lem k w one)
    ∙ sym (enqueue_seq-append (codes_of k) (codes_of_all ks) w)

enqueue_or_kill_lem :
    (b : ℕ) (w : World)
    → IsValid w.queue
    → not (b == 3) ≡ true
    → length (contents w.queue) < 63
    → (contents (enqueue_or_kill b w).queue ≡ contents w.queue ++ (b ∷ []))
      × IsValid (enqueue_or_kill b w).queue
unfolding enqueue_or_kill
enqueue_or_kill_lem b w v f lt =
    let (e, u) = enqueue_lem w.queue v b in
    let no_kill : (b == 3) ≡ false = ground (arith, f) in
    rw no_kill (
      e
          ∙ ap (λ t. if t then contents w.queue ++ (b ∷ []) else contents w.queue)
              {x = ltb (length (contents w.queue)) 63} {y = true} (ground (arith, lt)),
      u,
    )

-- Bytes for which there is room.
enqueue_seq_lem :
    (bs : Bytes) (w : World)
    → IsValid w.queue
    → no_interrupt bs ≡ true
    → length (contents w.queue) + length bs ≤ 63
    → contents (enqueue_seq bs w).queue ≡ contents w.queue ++ bs
enqueue_seq_lem [] w v f le = sym (append-nil (contents w.queue))
enqueue_seq_lem (b ∷ bs) w v f le =
    let (plain, rest) = both_true (not (b == 3)) (no_interrupt bs) f in
    let (e, u) = enqueue_or_kill_lem b w v plain (omega arith) in
    enqueue_seq_lem bs (enqueue_or_kill b w) u rest
      (omega (arith, ap length e, length-append (contents w.queue) (b ∷ [])))
    ∙ ap (λ t. t ++ bs) e
    ∙ append_assoc (contents w.queue) (b ∷ []) bs

no_interrupt-append :
    (xs ys : Bytes)
    → no_interrupt xs ≡ true
    → no_interrupt ys ≡ true
    → no_interrupt (xs ++ ys) ≡ true
no_interrupt-append [] ys f g = g
no_interrupt-append (x ∷ xs) ys f g =
    let (a, b) = both_true (not (x == 3)) (no_interrupt xs) f in
    ap (λ t. t && no_interrupt (xs ++ ys)) a ∙ no_interrupt-append xs ys b g

codes_of_lem :
    (k : Text.Key) → has_key k ≡ true → (no_interrupt (codes_of k) ≡ true) × (prints k ≡ true)
codes_of_lem (byte b) f = (ground (arith, f), f)
codes_of_lem rub_out f = (refl, refl)
codes_of_lem Text.delete f = (refl, refl)
codes_of_lem cut_behind f = (refl, refl)
codes_of_lem cut_before f = (refl, refl)
codes_of_lem cut_word f = (refl, refl)
codes_of_lem swap f = (refl, refl)
codes_of_lem to_word_left f = (refl, refl)
codes_of_lem to_word_right f = (refl, refl)
codes_of_lem Text.left f = (refl, refl)
codes_of_lem Text.right f = (refl, refl)
codes_of_lem Text.home f = (refl, refl)
codes_of_lem to_end f = (refl, refl)

all_keys_lem :
    (ks : List Text.Key)
    → all_keys ks ≡ true
    → (no_interrupt (codes_of_all ks) ≡ true) × (all_print ks ≡ true)
all_keys_lem [] f = (refl, refl)
all_keys_lem (k ∷ ks) f =
    let (one, more) = both_true (has_key k) (all_keys ks) f in
    let (a, b) = codes_of_lem k one in
    let (c, d) = all_keys_lem ks more in
    (no_interrupt-append (codes_of k) (codes_of_all ks) a c, ap (λ t. t && all_print ks) b ∙ d)

-- With the terminal in focus and no byte waiting: when editing keys of the keyboard and then Enter
-- are pressed, at most 63 bytes of them, the bytes that wait make `read_line`, called with `fancy` on
-- a line in its buffer and a valid history, return the text that the keys, one after another, make of
-- the line, and the history remembers that text without the spaces around it.
pub typed_refines :
    (o : Outside) (ks : List Text.Key) (h : History) (e : Line) (w : World)
    → Ring.IsValid h
    → Text.IsValid e
    → IsValid w.queue
    → contents w.queue ≡ []
    → all_keys ks ≡ true
    → length (codes_of_all ks) < 63
    → Entered
        (edit_all ks (text_of e)).0
        (remember (entries h) (trim_bytes (edit_all ks (text_of e)).0))
        (feed_all o true
          (contents (dispatch on_terminal enter (dispatch_all on_terminal ks w)).queue)
          (at_rest h e))
typed_refines o ks h e w v u x none f lt =
    let (plain, print) = all_keys_lem ks f in
    subst
      (λ bs.
        Entered (edit_all ks (text_of e)).0
          (remember (entries h) (trim_bytes (edit_all ks (text_of e)).0))
          (feed_all o true bs (at_rest h e)))
      (sym (
        ap (λ x. contents (enqueue_or_kill b'\n' x).queue) (dispatch_all_lem ks w f)
        ∙ ap (λ x. contents x.queue) (sym (enqueue_seq-append (codes_of_all ks) (b'\n' ∷ []) w))
        ∙ enqueue_seq_lem (codes_of_all ks ++ (b'\n' ∷ [])) w x
            (no_interrupt-append (codes_of_all ks) (b'\n' ∷ []) plain refl)
            (omega (arith, ap length none, length-append (codes_of_all ks) (b'\n' ∷ [])))
        ∙ ap (λ t. t ++ (codes_of_all ks ++ (b'\n' ∷ []))) none))
      (session_refines o ks h e v u print)
