-- ===== src/Sh/Suggest/Edits.antt =====
-- How far two words are apart: the least number of bytes to insert, delete or change.
use coeleo_os.Base.{
  ℕ, suc, ◌+◌, ◌≤◌, ◌≡◌, refl, sym, ap, subst, min, arith, [], ◌∷◌, ◌++◌, length, ◌==◌, ==→eq, Bool,
  true, false, inl, inr, ◌⊎◌, if◌then◌else◌,
}
use coeleo_os.Base.Bytes.{Bytes}
use coeleo_os.Sh.Suggest.{cost}

-- `Edits a b n`: `n` single bytes are inserted, deleted or changed to make `b` of `a`.
pub data Edits : Bytes → Bytes → ℕ → Type 0 where
  done : Edits [] [] 0
  keep : (x : ℕ) {a b : Bytes} {n : ℕ} → Edits a b n → Edits (x ∷ a) (x ∷ b) n
  change : (x y : ℕ) {a b : Bytes} {n : ℕ} → Edits a b n → Edits (x ∷ a) (y ∷ b) (suc n)
  delete : (x : ℕ) {a b : Bytes} {n : ℕ} → Edits a b n → Edits (x ∷ a) b (suc n)
  insert : (y : ℕ) {a b : Bytes} {n : ℕ} → Edits a b n → Edits a (y ∷ b) (suc n)

-- Edits at the end of both words.
keep_last : (x : ℕ) {a b : Bytes} {n : ℕ} → Edits a b n → Edits (a ++ (x ∷ [])) (b ++ (x ∷ [])) n
keep_last x done = keep x done
keep_last x (keep z e) = keep z (keep_last x e)
keep_last x (change z w e) = change z w (keep_last x e)
keep_last x (delete z e) = delete z (keep_last x e)
keep_last x (insert z e) = insert z (keep_last x e)

change_last :
    (x y : ℕ) {a b : Bytes} {n : ℕ} → Edits a b n → Edits (a ++ (x ∷ [])) (b ++ (y ∷ [])) (suc n)
change_last x y done = change x y done
change_last x y (keep z e) = keep z (change_last x y e)
change_last x y (change z w e) = change z w (change_last x y e)
change_last x y (delete z e) = delete z (change_last x y e)
change_last x y (insert z e) = insert z (change_last x y e)

delete_last : (x : ℕ) {a b : Bytes} {n : ℕ} → Edits a b n → Edits (a ++ (x ∷ [])) b (suc n)
delete_last x done = delete x done
delete_last x (keep z e) = keep z (delete_last x e)
delete_last x (change z w e) = change z w (delete_last x e)
delete_last x (delete z e) = delete z (delete_last x e)
delete_last x (insert z e) = insert z (delete_last x e)

insert_last : (y : ℕ) {a b : Bytes} {n : ℕ} → Edits a b n → Edits a (b ++ (y ∷ [])) (suc n)
insert_last y done = insert y done
insert_last y (keep z e) = keep z (insert_last y e)
insert_last y (change z w e) = change z w (insert_last y e)
insert_last y (delete z e) = delete z (insert_last y e)
insert_last y (insert z e) = insert z (insert_last y e)

-- A word read backwards.
abbrev pub backwards : Bytes → Bytes
backwards [] = []
backwards (x ∷ a) = backwards a ++ (x ∷ [])

backwards-append_last : (a : Bytes) (x : ℕ) → backwards (a ++ (x ∷ [])) ≡ x ∷ backwards a
backwards-append_last [] x = refl
backwards-append_last (y ∷ a) x = ap (λ t. t ++ (y ∷ [])) (backwards-append_last a x)

pub backwards_twice : (a : Bytes) → backwards (backwards a) ≡ a
backwards_twice [] = refl
backwards_twice (x ∷ a) = rw (backwards-append_last (backwards a) x, backwards_twice a) refl

Edits-backwards : {a b : Bytes} {n : ℕ} → Edits a b n → Edits (backwards a) (backwards b) n
Edits-backwards done = done
Edits-backwards (keep x e) = keep_last x (Edits-backwards e)
Edits-backwards (change x y e) = change_last x y (Edits-backwards e)
Edits-backwards (delete x e) = delete_last x (Edits-backwards e)
Edits-backwards (insert x e) = insert_last x (Edits-backwards e)

-- The distance by recursion on both words.
abbrev pub dist : Bytes → Bytes → ℕ
dist [] b = length b
dist (x ∷ a) [] = suc (length a)
dist (x ∷ a) (y ∷ b) = min (min (dist a (y ∷ b) + 1) (dist (x ∷ a) b + 1)) (dist a b + cost x y)

all_inserted : (b : Bytes) → Edits [] b (length b)
all_inserted [] = done
all_inserted (y ∷ b) = insert y (all_inserted b)

all_deleted : (a : Bytes) → Edits a [] (length a)
all_deleted [] = done
all_deleted (x ∷ a) = delete x (all_deleted a)

-- The number of edits of the three ways is some number of edits.
least :
    {a b : Bytes} {l m n : ℕ}
    → Edits a b l
    → Edits a b m
    → Edits a b n
    → Edits a b (min (min l m) n)
least {a} {b} {l} {m} {n} e f g = elim min_of_three [
  | inl h ↦ subst (Edits a b) (sym h) e
  | inr (inl h) ↦ subst (Edits a b) (sym h) f
  | inr (inr h) ↦ subst (Edits a b) (sym h) g
]
  where
    min_of_three : (min (min l m) n ≡ l) ⊎ ((min (min l m) n ≡ m) ⊎ (min (min l m) n ≡ n))
    min_of_three = omega arith

-- So many edits do.
dist_enough : (a b : Bytes) → Edits a b (dist a b)
dist_enough [] b = all_inserted b
dist_enough (x ∷ a) [] = delete x (all_deleted a)
dist_enough (x ∷ a) (y ∷ b) =
    least (plus_one (delete x (dist_enough a (y ∷ b))))
      (plus_one (insert y (dist_enough (x ∷ a) b))) (last (x == y) refl (dist_enough a b))
  where
    plus_one : {n : ℕ} → Edits (x ∷ a) (y ∷ b) (suc n) → Edits (x ∷ a) (y ∷ b) (n + 1)
    plus_one {n} e = subst (Edits (x ∷ a) (y ∷ b)) {x = suc n} {y = n + 1} (omega arith) e

    last :
        (t : Bool)
        → (x == y) ≡ t
        → {n : ℕ} → Edits a b n
        → Edits (x ∷ a) (y ∷ b) (n + (if t then 0 else 1))
    last true h {n} e =
        subst (λ z. Edits (x ∷ a) (z ∷ b) (n + 0)) (==→eq x y h)
          (subst (Edits (x ∷ a) (x ∷ b)) {x = n} {y = n + 0} (omega arith) (keep x e))
    last false h {n} e = plus_one (change x y e)

-- And fewer do not.
dist_nil : (a : Bytes) → dist a [] ≡ length a
dist_nil [] = refl
dist_nil (x ∷ a) = refl

dist_delete : (x : ℕ) (a b : Bytes) → dist (x ∷ a) b ≤ suc (dist a b)
dist_delete x a [] = omega (arith, dist_nil a)
dist_delete x a (y ∷ b) = omega arith

dist_insert : (y : ℕ) (a b : Bytes) → dist a (y ∷ b) ≤ suc (dist a b)
dist_insert y [] b = omega arith
dist_insert y (x ∷ a) b = omega arith

dist_change : (x y : ℕ) (a b : Bytes) → dist (x ∷ a) (y ∷ b) ≤ dist a b + cost x y
dist_change x y a b = omega arith

dist_least : {a b : Bytes} {n : ℕ} → Edits a b n → dist a b ≤ n
dist_least done = omega arith
dist_least (keep x {a} {b} e) = ground (arith, dist_least e, dist_change x x a b)
dist_least (change x y {a} {b} e) = ground (arith, dist_least e, dist_change x y a b)
dist_least (delete x {a} {b} e) = omega (arith, dist_least e, dist_delete x a b)
dist_least (insert y {a} {b} e) = omega (arith, dist_least e, dist_insert y a b)

-- `n` is the least number of edits.
pub record IsLeast (a b : Bytes) (n : ℕ) : Type 0 where
  pub enough : Edits a b n
  pub fewest : (k : ℕ) → Edits a b k → n ≤ k

pub dist_lem : (a b : Bytes) → IsLeast a b (dist a b)
dist_lem a b = record { enough = dist_enough a b; fewest = λ k e. dist_least e }

pub dist-backwards : (a b : Bytes) → IsLeast a b (dist (backwards a) (backwards b))
dist-backwards a b = record {
  enough =
      subst (λ c. Edits c b n) (backwards_twice a)
        (subst (λ c. Edits (backwards (backwards a)) c n) (backwards_twice b)
          (Edits-backwards (dist_enough (backwards a) (backwards b))));
  fewest = λ k e. dist_least (Edits-backwards e);
}
  where
    n : ℕ
    n = dist (backwards a) (backwards b)
