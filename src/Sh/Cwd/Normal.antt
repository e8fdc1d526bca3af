-- ===== src/Sh/Cwd/Normal.antt =====
-- What `resolve` gives is in normal form, and resolving it again gives the same.
use coeleo_os.Base.{
  ℕ, ◌+◌, ◌-◌, ◌≤◌, ◌<◌, ◌≡◌, refl, sym, ap, subst, ◌∙◌, arith, List, [], ◌∷◌, ◌++◌, append_assoc,
  append-nil, false, ◌||◌, length, length-append, length-take, All, All-append, All-take, leb, ltb,
  ltb→lt, lt→ltb, ◌==◌, if◌then◌else◌, Bool-cases, inl, inr,
}
use coeleo_os.Base.Bytes.{Bytes, bytes_eq, codes}
use coeleo_os.Sh.Cwd.{
  slash, out_len, split, parts_max, step, steps, join, print, starts_with_slash, resolve,
}

-- A component that is kept: not empty, not `.` or `..`, and without a `/`.
pub record IsPart (c : Bytes) : Type 0 where
  pub kept : ((length c == 0) || bytes_eq c (codes ".")) ≡ false
  pub down : bytes_eq c (codes "..") ≡ false
  pub flat : All (λ b. (b == slash) ≡ false) c

abbrev NoSlash : Bytes → Type 0
NoSlash = All (λ b. (b == slash) ≡ false)

split-NoSlash : (cur cs : Bytes) → NoSlash cur → All NoSlash (split cur cs)
unfolding split
split-NoSlash cur [] h = (h, tt)
split-NoSlash cur (c ∷ cs) h = elim (Bool-cases (c == slash)) [
  | inl e ↦ rw e (h, split-NoSlash [] cs tt)
  | inr e ↦ rw e (split-NoSlash (cur ++ (c ∷ [])) cs (All-append _ cur (c ∷ []) h (e, tt)))
]

-- The parts on the way: at most 16, each one kept.
pub record AreParts (ps : List Bytes) : Type 0 where
  pub few : length ps ≤ parts_max
  pub all : All IsPart ps

step-AreParts : (ps : List Bytes) (c : Bytes) → AreParts ps → NoSlash c → AreParts (step ps c)
unfolding step
step-AreParts ps c h flat = elim (Bool-cases ((length c == 0) || bytes_eq c (codes "."))) [
  | inl e ↦ rw e h
  | inr e ↦ elim (Bool-cases (bytes_eq c (codes ".."))) [
    | inl f ↦
        rw (e, f)
          (record {
            few = omega (arith, length-take (length ps - 1) ps, h.few);
            all = All-take IsPart (length ps - 1) ps h.all;
          })
    | inr f ↦ elim (Bool-cases (ltb (length ps) parts_max)) [
      | inl g ↦
          rw (e, f, g)
            (record {
              few = omega (arith, length-append ps (c ∷ []), ltb→lt (length ps) parts_max g);
              all =
                  All-append IsPart ps (c ∷ []) h.all
                    (record { kept = e; down = f; flat = flat }, tt);
            })
      | inr g ↦ rw (e, f, g) h
    ]
  ]
]

steps-AreParts : (ps cs : List Bytes) → AreParts ps → All NoSlash cs → AreParts (steps ps cs)
unfolding steps
steps-AreParts ps [] h flat = h
steps-AreParts ps (c ∷ cs) h (f, flat) = steps-AreParts (step ps c) cs (step-AreParts ps c h f) flat

-- Parts that are kept are pushed one by one.
steps-IsPart :
    (ps cs : List Bytes)
    → All IsPart cs
    → length ps + length cs ≤ parts_max
    → steps ps cs ≡ ps ++ cs
unfolding steps step
steps-IsPart ps [] h room = sym (append-nil ps)
steps-IsPart ps (c ∷ cs) (a, h) room =
    rw (a.kept, a.down, lt→ltb (length ps) parts_max (omega arith))
      (steps-IsPart (ps ++ (c ∷ [])) cs h (omega (arith, length-append ps (c ∷ [])))
        ∙ append_assoc ps (c ∷ []) cs)

-- The parts that fit into the buffer, and the text of parts.
fitting : ℕ → List Bytes → List Bytes
fitting i [] = []
fitting i (p ∷ ps) =
    let rest = fitting (i + 1 + length p) ps in
    if leb out_len (i + 1 + length p) then [] else p ∷ rest

text : List Bytes → Bytes
text [] = []
text (p ∷ ps) = slash ∷ (p ++ text ps)

join-eq-text : (i : ℕ) (ps : List Bytes) → join i ps ≡ text (fitting i ps)
unfolding join fitting text
join-eq-text i [] = refl
join-eq-text i (p ∷ ps) = elim (Bool-cases (leb out_len (i + 1 + length p))) [
  | inl e ↦ rw e refl
  | inr e ↦ rw e (ap (λ t. slash ∷ (p ++ t)) (join-eq-text (i + 1 + length p) ps))
]

join-fitting : (i : ℕ) (ps : List Bytes) → join i (fitting i ps) ≡ join i ps
unfolding join fitting
join-fitting i [] = refl
join-fitting i (p ∷ ps) = elim (Bool-cases (leb out_len (i + 1 + length p))) [
  | inl e ↦ rw e refl
  | inr e ↦ rw (e, e) (ap (λ t. slash ∷ (p ++ t)) (join-fitting (i + 1 + length p) ps))
]

length-fitting : (i : ℕ) (ps : List Bytes) → length (fitting i ps) ≤ length ps
unfolding fitting
length-fitting i [] = omega arith
length-fitting i (p ∷ ps) = ground (arith, length-fitting (i + 1 + length p) ps)

fitting-AreParts : (i : ℕ) (ps : List Bytes) → AreParts ps → AreParts (fitting i ps)
unfolding fitting
fitting-AreParts i [] h = h
fitting-AreParts i (p ∷ ps) h = elim (Bool-cases (leb out_len (i + 1 + length p))) [
  | inl e ↦ rw e (record { few = omega arith; all = tt })
  | inr e ↦ rw e (record {
    few = omega (arith, h.few, length-fitting (i + 1 + length p) ps);
    all = (
      h.all.0,
      (fitting-AreParts (i + 1 + length p) ps
          (record { few = omega (arith, h.few); all = h.all.1 })).all,
    );
  })
]

split-append : (cur p rest : Bytes) → NoSlash p → split cur (p ++ rest) ≡ split (cur ++ p) rest
unfolding split
split-append cur [] rest h = ap (λ c. split c rest) (sym (append-nil cur))
split-append cur (c ∷ p) rest (e, h) =
    rw e (
      split-append (cur ++ (c ∷ [])) p rest h
      ∙ ap (λ c. split c rest) (append_assoc cur (c ∷ []) p))

-- The text of parts splits into them.
split-text : (cur : Bytes) (ps : List Bytes) → All IsPart ps → split cur (text ps) ≡ cur ∷ ps
unfolding split text
split-text cur [] h = refl
split-text cur (p ∷ ps) (a, h) =
    ap (λ t. cur ∷ t) (split-append [] p (text ps) a.flat ∙ split-text p ps h)

-- The parts that `resolve` ends with.
parts_of : Bytes → Bytes → List Bytes
parts_of cwd arg =
    steps (steps [] (split [] (if starts_with_slash arg then [] else cwd))) (split [] arg)

parts_of-AreParts : (cwd arg : Bytes) → AreParts (parts_of cwd arg)
unfolding parts_of
parts_of-AreParts cwd arg =
    steps-AreParts _ (split [] arg)
      (steps-AreParts [] (split [] (if starts_with_slash arg then [] else cwd))
        (record { few = omega arith; all = tt }) (split-NoSlash [] _ tt))
      (split-NoSlash [] arg tt)

resolve-text :
    (cwd : Bytes) (x : Bytes) (xs : List Bytes)
    → AreParts (x ∷ xs)
    → resolve cwd (text (x ∷ xs)) ≡ print (x ∷ xs)
unfolding resolve text steps step split
resolve-text cwd x xs h = ap print (
    ap (steps []) (split-text [] (x ∷ xs) h.all)
    ∙ steps-IsPart [] (x ∷ xs) h.all (omega (arith, h.few)))

length-text-nil : length (text []) ≡ 0
unfolding text
length-text-nil = refl

print-again :
    (cwd : Bytes) (ps : List Bytes)
    → AreParts ps
    → 0 < length (print ps)
    → resolve cwd (print ps) ≡ print ps
unfolding resolve steps step split
print-again cwd [] h pos = refl
print-again cwd (p ∷ ps) h pos = by_fitting (fitting 0 (p ∷ ps)) refl
  where
    by_fitting :
        (q : List Bytes) → fitting 0 (p ∷ ps) ≡ q → resolve cwd (join 0 (p ∷ ps)) ≡ join 0 (p ∷ ps)
    by_fitting [] e =
        absurd
          (omega (arith, pos, ap length (join-eq-text 0 (p ∷ ps) ∙ ap text e), length-text-nil))
    by_fitting (x ∷ xs) e =
        ap (resolve cwd) (join-eq-text 0 (p ∷ ps) ∙ ap text e)
        ∙ resolve-text cwd x xs (subst AreParts e (fitting-AreParts 0 (p ∷ ps) h))
        ∙ ap (join 0) (sym e)
        ∙ join-fitting 0 (p ∷ ps)

-- What `resolve` gives, unless it is empty, stays as it is when it is resolved again, in any
-- directory.
pub resolve-resolve :
    (cwd arg cwd' : Bytes)
    → 0 < length (resolve cwd arg)
    → resolve cwd' (resolve cwd arg) ≡ resolve cwd arg
unfolding resolve parts_of
resolve-resolve cwd arg cwd' pos =
    print-again cwd' (parts_of cwd arg) (parts_of-AreParts cwd arg) pos
