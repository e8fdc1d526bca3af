-- ===== src/Input/Kbd/Fifo.antt =====
-- The ring of kbd.rs is a queue of at most 63 bytes.
use coeleo_os.Base.{
  ℕ, suc, ◌+◌, ◌-◌, ◌%◌, ◌<◌, ◌≡◌, refl, sym, ap, ap₂, ◌∙◌, subst, arith, List, [], ◌∷◌, ◌++◌, Bool,
  true, false, Option, none, some, length, length-set, get_or, get_or-set_self, get_or-set_ne, set,
  ltb, ◌==◌, if◌then◌else◌,
}
use coeleo_os.Base.Bytes.{Bytes}
use coeleo_os.Base.View.{view, view_eq, view-append, length-view}
use coeleo_os.Input.Kbd.{queue_cap, Queue, empty, pop_byte, enqueue}

pub record IsValid (q : Queue) : Type 0 where
  pub size : length q.bytes ≡ queue_cap
  pub head_in : q.head < queue_cap
  pub tail_in : q.tail < queue_cap

abbrev pub byte_at : Bytes → ℕ → ℕ
byte_at bytes i = get_or bytes (i % queue_cap) 0

abbrev pub count : Queue → ℕ
count q = (q.head + queue_cap - q.tail) % queue_cap

-- The bytes that wait, the oldest first.
abbrev pub contents : Queue → Bytes
contents q = view (byte_at q.bytes) q.tail (count q)

pub data Op : Type 0 where
  put : ℕ → Op
  get : Op

-- A queue that takes no more than 63 bytes.
abbrev pub put_in : ℕ → Bytes → Bytes
put_in b bs = if ltb (length bs) 63 then bs ++ (b ∷ []) else bs

abbrev pub fifo : Op → Bytes → Bytes × Option ℕ
fifo (put b) bs = (put_in b bs, none)
fifo get [] = ([], none)
fifo get (b ∷ bs) = (bs, some b)

abbrev pub ring : Op → Queue → Queue × Option ℕ
ring (put b) q = (enqueue b q, none)
ring get q = pop_byte q

module _ (q : Queue) (v : IsValid q) where
  length-contents : length (contents q) ≡ count q
  length-contents = length-view (byte_at q.bytes) q.tail (count q)

  pub enqueue_lem :
      (b : ℕ) → (contents (enqueue b q) ≡ put_in b (contents q)) × IsValid (enqueue b q)
  unfolding enqueue
  enqueue_lem b = by_test ((q.head + 1) % queue_cap == q.tail) refl
    where
      kept : view (byte_at (set q.bytes q.head b)) q.tail (count q) ≡ contents q
      kept =
          view_eq (byte_at (set q.bytes q.head b)) (byte_at q.bytes) q.tail q.tail (count q)
            (λ k lt.
              get_or-set_ne q.bytes q.head ((q.tail + k) % queue_cap) b 0
                (λ e. omega (arith, e, lt, v.head_in, v.tail_in)))

      last : view (byte_at (set q.bytes q.head b)) (q.tail + count q) 1 ≡ b ∷ []
      last =
          ap (λ x. x ∷ [])
            (ap (λ i. get_or (set q.bytes q.head b) i 0) {x = (q.tail + count q) % queue_cap}
                {y = q.head} (omega (arith, v.head_in, v.tail_in))
              ∙ get_or-set_self q.bytes q.head b 0 (omega (arith, v.size, v.head_in)))

      room :
          (t : Bool)
          → ltb (length (contents q)) 63 ≡ t
          → put_in b (contents q) ≡ (if t then contents q ++ (b ∷ []) else contents q)
      room t e = ap (λ s. if s then contents q ++ (b ∷ []) else contents q) e

      by_test :
          (t : Bool)
          → ((q.head + 1) % queue_cap == q.tail) ≡ t
          → (contents (
                if t
                then q
                else record q { bytes = set q.bytes q.head b; head = (q.head + 1) % queue_cap })
              ≡ put_in b (contents q))
            × IsValid (
                if t
                then q
                else record q { bytes = set q.bytes q.head b; head = (q.head + 1) % queue_cap })
      by_test true e =
          (sym (room false (ground (arith, e, length-contents, v.head_in, v.tail_in))), v)
      by_test false e = (
        ap (view (byte_at (set q.bytes q.head b)) q.tail)
              {x = ((q.head + 1) % queue_cap + queue_cap - q.tail) % queue_cap} {y = count q + 1}
              (ground (arith, e, v.head_in, v.tail_in))
            ∙ sym (view-append (byte_at (set q.bytes q.head b)) q.tail (count q) 1)
            ∙ ap₂ ◌++◌ kept last
            ∙ sym (room true (ground (arith, e, length-contents, v.head_in, v.tail_in))),
        record {
          size = length-set q.bytes q.head b ∙ v.size;
          head_in = omega arith;
          tail_in = v.tail_in;
        },
      )

  -- What `pop_byte` is to do with the bytes that wait.
  abbrev Pops : Bytes → Queue × Option ℕ → Type 0
  Pops bs (r, o) = (contents r ≡ (fifo get bs).0) × (o ≡ (fifo get bs).1) × IsValid r

  pub pop_byte_lem : Pops (contents q) (pop_byte q)
  unfolding pop_byte
  pop_byte_lem = by_test (q.tail == q.head) refl
    where
      by_test :
          (t : Bool)
          → (q.tail == q.head) ≡ t
          → Pops (contents q) (
              if t
              then (q, none)
              else (record q { tail = (q.tail + 1) % queue_cap }, some (get_or q.bytes q.tail 0)))
      by_test true e =
          let nothing =
            ap (view (byte_at q.bytes) q.tail) {x = count q} {y = 0}
              (ground (arith, e, v.head_in, v.tail_in)) in
          subst (λ bs. Pops bs (q, none)) (sym nothing) (nothing, refl, v)
      by_test false e =
          let more =
            ap (view (byte_at q.bytes) q.tail) {x = count q}
              {y = suc ((q.head + queue_cap - (q.tail + 1) % queue_cap) % queue_cap)}
              (ground (arith, e, v.head_in, v.tail_in))
            ∙ ap₂ ◌∷◌
                (ap (λ i. get_or q.bytes i 0) {x = q.tail % queue_cap} {y = q.tail}
                  (omega (arith, v.tail_in)))
                (view_eq (byte_at q.bytes) (byte_at q.bytes) (q.tail + 1) ((q.tail + 1) % queue_cap)
                  ((q.head + queue_cap - (q.tail + 1) % queue_cap) % queue_cap)
                  (λ k lt. ap (λ i. get_or q.bytes i 0) (omega arith))) in
          subst
            (λ bs.
              Pops bs
                (record q { tail = (q.tail + 1) % queue_cap }, some (get_or q.bytes q.tail 0)))
            (sym more)
            (refl, refl, record { size = v.size; head_in = v.head_in; tail_in = omega arith })

op_lem :
    (p : Op) (q : Queue)
    → IsValid q
    → (contents (ring p q).0 ≡ (fifo p (contents q)).0)
      × ((ring p q).1 ≡ (fifo p (contents q)).1)
      × IsValid (ring p q).0
op_lem (put b) q v = let (e, w) = enqueue_lem q v b in (e, refl, w)
op_lem get q v = pop_byte_lem q v

-- The answers of a run, one for each step.
abbrev pub answers {ℓ} : {S : Type ℓ} → (Op → S → S × Option ℕ) → List Op → S → List (Option ℕ)
answers step [] s = []
answers step (p ∷ ps) s = let (s', o) = step p s in o ∷ answers step ps s'

answers_lem :
    (ps : List Op) (q : Queue) → IsValid q → answers ring ps q ≡ answers fifo ps (contents q)
answers_lem [] q v = refl
answers_lem (p ∷ ps) q v =
    let (e, f, w) = op_lem p q v in
    ap₂ ◌∷◌ f (answers_lem ps (ring p q).0 w ∙ ap (answers fifo ps) e)

pub empty-IsValid : IsValid empty
empty-IsValid = record { size = refl; head_in = omega arith; tail_in = omega arith }

-- Whatever bytes are put in and taken out, one after another, from the start on: the ring answers as
-- a queue that is empty at first and takes no byte while it has 63.
pub ring_refines : (ps : List Op) → answers ring ps empty ≡ answers fifo ps []
ring_refines ps = answers_lem ps empty empty-IsValid
