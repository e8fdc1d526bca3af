-- ===== src/Sh/History/Queries.antt =====
-- What the queries of the ring answer, from the list of its lines.
use coeleo_os.Base.{
  ℕ, zero, suc, ◌+◌, ◌-◌, ◌%◌, ◌≤◌, ◌≡◌, refl, sym, ap, ◌∙◌, subst, arith, List, [], ◌∷◌, none,
  some, length, get_or, leb, leb→le, if◌then◌else◌, Bool-cases, inl, inr,
}
use coeleo_os.Base.Bytes.{Bytes}
use coeleo_os.Base.View.{length-view, get_or-view}
use coeleo_os.Sh.History.{hist_cap, History, new, slot, get_at, peek_entry, trim_bytes, push}
use coeleo_os.Sh.History.Ring.{IsValid, nth, entries, remember, push_lem, new-IsValid}

-- Lines entered one after another.
abbrev pub push_all : History → List Bytes → History
push_all h [] = h
push_all h (s ∷ ss) = push_all (push h s) ss

abbrev pub remember_all : List Bytes → List Bytes → List Bytes
remember_all es [] = es
remember_all es (s ∷ ss) = remember_all (remember es (trim_bytes s)) ss

-- What the queries answer from a list of lines.
pub record Answers (h : History) (es : List Bytes) : Type 0 where
  pub at : (i : ℕ) → get_at h i ≡ get_or es i []
  pub peek :
      (age : ℕ)
      → peek_entry h age
        ≡ (if leb (length es) age then none else some (get_or es (length es - 1 - age) []))
  pub bounded : length es ≤ hist_cap

get_or-ge : (es : List Bytes) (i : ℕ) → length es ≤ i → get_or es i [] ≡ []
get_or-ge [] i h = refl
get_or-ge (x ∷ es) zero h = absurd (omega arith)
get_or-ge (x ∷ es) (suc i) h = get_or-ge es i (omega arith)

answers : (h : History) → IsValid h → Answers h (entries h)
unfolding get_at peek_entry
answers h v = record {
  at = λ i. elim (Bool-cases (leb h.count i)) [
    | inl e ↦ rw e (sym (get_or-ge (entries h) i (omega (arith, size, leb→le h.count i e))))
    | inr e ↦ rw e (
        sym (
          get_or-view (nth h) 0 h.count i [] (ground (arith, e))
          ∙ ap (nth h) {x = 0 + i} {y = i} (omega arith)))
  ];
  peek = λ age. elim (Bool-cases (leb h.count age)) [
    | inl e ↦ rw (size, e) refl
    | inr e ↦
        rw (size, e)
          (ap some (
            sym (
              get_or-view (nth h) 0 h.count (h.count - 1 - age) [] (ground (arith, e))
              ∙ ap (slot h) {x = (h.start + (0 + (h.count - 1 - age))) % hist_cap}
                  {y = (h.start + h.count - 1 - age) % hist_cap} (ground (arith, e)))))
  ];
  bounded = omega (arith, size, v.count_in);
}
  where
    size : length (entries h) ≡ h.count
    size = length-view (nth h) 0 h.count

push_all_lem :
    (ss : List Bytes) (h : History)
    → IsValid h
    → (entries (push_all h ss) ≡ remember_all (entries h) ss) × IsValid (push_all h ss)
push_all_lem [] h v = (refl, v)
push_all_lem (s ∷ ss) h v =
    let (e, w) = push_lem h v s in
    let (f, u) = push_all_lem ss (push h s) w in (f ∙ ap (λ es. remember_all es ss) e, u)

-- From an empty history on, whatever lines are entered, the queries answer as from the list that
-- `remember` builds of them, which has at most 128 lines.
pub history_refines : (ss : List Bytes) → Answers (push_all new ss) (remember_all [] ss)
unfolding new
history_refines ss =
    let (e, w) = push_all_lem ss new new-IsValid in
    subst (Answers (push_all new ss)) e (answers (push_all new ss) w)
