-- ===== src/Sh/Search/Found.antt =====
-- The lines of the history that have a text in them, and the newest of them.
use coeleo_os.Base.{
  ℕ, zero, suc, ◌+◌, ◌-◌, ◌<◌, ◌≡◌, refl, sym, ap, ◌∙◌, subst, min, arith, [], ◌∷◌, ◌++◌, Bool,
  true, false, ◌||◌, Option, none, some, length, take, drop, ◌==◌, if◌then◌else◌, Bool-cases, inl,
  inr,
}
use coeleo_os.Base.Bytes.{Bytes, bytes_eq, bytes_eq→eq, bytes_eq_refl}
use coeleo_os.Base.Slices.{take-append}
use coeleo_os.Sh.History.{History, get_at}
use coeleo_os.Sh.Search.{contains_subslice, find_from, find_match}

pub record Contains (haystack : Bytes) (needle : Bytes) : Type 0 where
  pub front : Bytes
  pub back : Bytes
  pub parts : haystack ≡ front ++ (needle ++ back)

take_and_drop : (n : ℕ) (xs : Bytes) → xs ≡ take n xs ++ drop n xs
take_and_drop zero xs = refl
take_and_drop (suc n) [] = refl
take_and_drop (suc n) (x ∷ xs) = ap (λ t. x ∷ t) (take_and_drop n xs)

empty : (xs : Bytes) → length xs ≡ 0 → xs ≡ []
empty [] e = refl
empty (x ∷ xs) e = absurd (omega (arith, e))

contains_subslice_sound :
    (haystack needle : Bytes) → contains_subslice haystack needle ≡ true → Contains haystack needle
unfolding contains_subslice
contains_subslice_sound [] needle e = record {
  front = [];
  back = [];
  parts = ap (λ t. t ++ []) {x = []} {y = needle} (sym (empty needle (ground (arith, e))));
}
contains_subslice_sound (x ∷ xs) needle e =
    by_test (bytes_eq (take n (x ∷ xs)) needle) refl e (contains_subslice_sound xs needle)
  where
    n : ℕ
    n = length needle

    by_test :
        (t : Bool)
        → bytes_eq (take (length needle) (x ∷ xs)) needle ≡ t
        → (if t then true else contains_subslice xs needle) ≡ true
        → (contains_subslice xs needle ≡ true → Contains xs needle)
        → Contains (x ∷ xs) needle
    by_test true f g rec = record {
      front = [];
      back = drop (length needle) (x ∷ xs);
      parts =
          take_and_drop (length needle) (x ∷ xs)
          ∙ ap (λ t. t ++ drop (length needle) (x ∷ xs))
              (bytes_eq→eq (take (length needle) (x ∷ xs)) needle f);
    }
    by_test false f g rec =
        let c = rec g in
        record { front = x ∷ c.front; back = c.back; parts = ap (λ t. x ∷ t) c.parts }

starts : (needle back : Bytes) → contains_subslice (needle ++ back) needle ≡ true
unfolding contains_subslice bytes_eq
starts [] [] = refl
starts [] (b ∷ back) = refl
starts (y ∷ ys) back =
    ap (λ t. if t then true else contains_subslice (ys ++ back) (y ∷ ys))
      (ap (λ t. bytes_eq t (y ∷ ys)) (take-append (length (y ∷ ys)) (y ∷ ys) back refl)
        ∙ bytes_eq_refl (y ∷ ys))

further : (front needle back : Bytes) → contains_subslice (front ++ (needle ++ back)) needle ≡ true
unfolding contains_subslice
further [] needle back = starts needle back
further (x ∷ xs) needle back =
    by_test (bytes_eq (take (length needle) (x ∷ (xs ++ (needle ++ back)))) needle)
      (further xs needle back)
  where
    by_test :
        (t : Bool)
        → contains_subslice (xs ++ (needle ++ back)) needle ≡ true
        → (if t then true else contains_subslice (xs ++ (needle ++ back)) needle) ≡ true
    by_test true e = refl
    by_test false e = e

contains_subslice_complete :
    (haystack needle : Bytes) → Contains haystack needle → contains_subslice haystack needle ≡ true
contains_subslice_complete haystack needle c =
    subst (λ t. contains_subslice t needle ≡ true) (sym c.parts) (further c.front needle c.back)

-- Of the lines before line `k`, counted from the oldest, the last that has the text in it, if one does.
pub data Last (h : History) (query : Bytes) (k : ℕ) : Option ℕ → Type 0 where
  found :
      (i : ℕ)
      → i < k
      → Contains (get_at h i) query
      → ((j : ℕ) → i < j → j < k → ¬ Contains (get_at h j) query)
      → Last h query k (some i)
  missing : ((j : ℕ) → j < k → ¬ Contains (get_at h j) query) → Last h query k none

find_from-Last : (h : History) (query : Bytes) (k : ℕ) → Last h query k (find_from h query k)
unfolding find_from
find_from-Last h query zero = missing (λ j lt. absurd (omega arith))
find_from-Last h query (suc k) =
    by_test (contains_subslice (get_at h k) query) refl (find_from h query k)
      (find_from-Last h query k)
  where
    not_here : contains_subslice (get_at h k) query ≡ false → ¬ Contains (get_at h k) query
    not_here e c = cc (e, contains_subslice_complete (get_at h k) query c)

    at_or_before :
        (j : ℕ)
        → contains_subslice (get_at h k) query ≡ false
        → j < suc k
        → (j < k → ¬ Contains (get_at h j) query)
        → ¬ Contains (get_at h j) query
    at_or_before j e lt before = elim (Bool-cases (j == k)) [
      | inl f ↦
          subst (λ i. ¬ Contains (get_at h i) query) {x = k} {y = j} (ground (arith, f))
            (not_here e)
      | inr f ↦ before (ground (arith, f))
    ]

    by_test :
        (t : Bool)
        → contains_subslice (get_at h k) query ≡ t
        → (o : Option ℕ) → Last h query k o
        → Last h query (suc k) (if t then some k else o)
    by_test true e o l =
        found k (omega arith) (contains_subslice_sound (get_at h k) query e)
          (λ j lt le. absurd (omega arith))
    by_test false e _ (found i lt c none_behind) =
        found i (omega arith) c (λ j lt' le. at_or_before j e le (λ le'. none_behind j lt' le'))
    by_test false e _ (missing nowhere) =
        missing (λ j le. at_or_before j e le (λ le'. nowhere j le'))

-- For a text that is not empty, `find_match` gives, of the lines up to the one it starts from, the
-- newest that has the text in it, and none if no line up to there has it.
pub find_match-Last :
    (h : History) (query : Bytes) (start_idx : ℕ)
    → 0 < length query
    → Last h query (min (start_idx + 1) h.count) (find_match h query start_idx)
unfolding find_match find_from
find_match-Last h query start_idx lt = by_test ((length query == 0) || (h.count == 0)) refl
  where
    by_test :
        (t : Bool)
        → ((length query == 0) || (h.count == 0)) ≡ t
        → Last h query
            (min (start_idx + 1) h.count)
            (if t then none else find_from h query (min start_idx (h.count - 1) + 1))
    by_test true e = missing (λ j le. absurd (ground (arith, e, lt, le)))
    by_test false e =
        subst (λ k. Last h query k (find_from h query (min start_idx (h.count - 1) + 1)))
          {x = min start_idx (h.count - 1) + 1} {y = min (start_idx + 1) h.count}
          (ground (arith, e)) (find_from-Last h query (min start_idx (h.count - 1) + 1))
