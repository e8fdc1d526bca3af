-- ===== src/Sh/Alias/Laws.antt =====
-- The table of aliases is a finite map: `get` after `set` and after `remove`.
use coeleo_os.Base.{
  ◌≡◌, refl, ap, subst, arith, [], ◌∷◌, ◌++◌, Bool, true, false, ◌||◌, Option, none, some, length,
  All, All-append, ltb, ◌==◌, if◌then◌else◌, Bool-cases, inl, inr,
}
use coeleo_os.Base.Bytes.{Bytes, bytes_eq, bytes_eq→eq, bytes_eq_refl}
use coeleo_os.Sh.Alias.{
  max_aliases, name_cap, value_cap, Alias, AliasTable, behind, replace, or_append, set, get, remove,
}

-- A test of a name that equals another is the test of the other.
bytes_eq_trans : (x y z : Bytes) → bytes_eq x y ≡ true → bytes_eq x z ≡ bytes_eq y z
bytes_eq_trans x y z h = ap (λ t. bytes_eq t z) (bytes_eq→eq x y h)

behind-some :
    (a : Alias) (o : Option AliasTable) {u : AliasTable}
    → behind a o ≡ some u
    → (w : AliasTable) × (o ≡ some w) × (a ∷ w ≡ u)
behind-some a none e = cc
behind-some a (some w) e = (w, refl, ground (arith, e))

-- What a name has, after another entry or the same one.
module _ (name val : Bytes) where
  -- The table gives this name the value, and every other name what it had.
  Given : AliasTable → AliasTable → Type 0
  Given t u =
      (other : Bytes) → get u other ≡ (if bytes_eq name other then some val else get t other)

  replace-some : (t : AliasTable) {u : AliasTable} → replace name val t ≡ some u → Given t u
  unfolding replace get Given
  replace-some [] e other = cc
  replace-some (a ∷ t) {u} e other = elim (Bool-cases (bytes_eq a.name name)) [
    | inl h ↦
        (let same : record a { val = val } ∷ t ≡ u = ground (arith, e, h) in
          subst (λ u. get u other ≡ (if bytes_eq name other then some val else get (a ∷ t) other))
            same (ground (arith, bytes_eq_trans a.name name other h)))
    | inr h ↦
        (let f : behind a (replace name val t) ≡ some u = ground (arith, e, h) in
          let (w, g, same) = behind-some a (replace name val t) f in
          subst (λ u. get u other ≡ (if bytes_eq name other then some val else get (a ∷ t) other))
            same (ground (arith, replace-some t g other, apart h)))
  ]
    where
      apart :
          bytes_eq a.name name ≡ false → bytes_eq name other ≡ true → bytes_eq a.name other ≡ false
      apart h k = subst (λ o. bytes_eq a.name o ≡ false) (bytes_eq→eq name other k) h

  -- No alias has this name.
  replace-none :
      (t : AliasTable) → replace name val t ≡ none → All (λ a. bytes_eq a.name name ≡ false) t
  unfolding replace
  replace-none [] e = tt
  replace-none (a ∷ t) e = elim (Bool-cases (bytes_eq a.name name)) [
    | inl h ↦ absurd (ground (arith, e, h))
    | inr h ↦ (h, replace-none t (behind-none (replace name val t) (ground (arith, e, h))))
  ]
    where
      behind-none : (o : Option AliasTable) → behind a o ≡ none → o ≡ none
      behind-none none e = refl
      behind-none (some w) e = cc

  get-append :
      (t : AliasTable)
      → All (λ a. bytes_eq a.name name ≡ false) t
      → Given t (t ++ (record { name = name; val = val } ∷ []))
  unfolding get Given
  get-append [] h other = refl
  get-append (a ∷ t) (h, hs) other = ground (arith, get-append t hs other, apart h)
    where
      apart :
          bytes_eq a.name name ≡ false → bytes_eq name other ≡ true → bytes_eq a.name other ≡ false
      apart h k = subst (λ o. bytes_eq a.name o ≡ false) (bytes_eq→eq name other k) h

  or_append-Given :
      (t : AliasTable) (o : Option AliasTable)
      → replace name val t ≡ o
      → (or_append name val t o).1 ≡ true
      → Given t (or_append name val t o).0
  or_append-Given t (some u) e h = replace-some t e
  or_append-Given t none e h = elim (Bool-cases (ltb (length t) max_aliases)) [
    | inl f ↦ rw f (get-append t (replace-none t e))
    | inr f ↦ absurd (ground (arith, f, h))
  ]

-- After a `set` that succeeds, the name has the value, and every other name has what it had.
pub get-set :
    (t : AliasTable) (name val : Bytes)
    → (set t name val).1 ≡ true
    → (other : Bytes)
    → get (set t name val).0 other ≡ (if bytes_eq name other then some val else get t other)
unfolding set Given
get-set t name val h other =
    by_size ((length name == 0) || (ltb name_cap (length name) || ltb value_cap (length val))) h
  where
    by_size :
        (b : Bool)
        → (if b then (t, false) else or_append name val t (replace name val t)).1 ≡ true
        → get (if b then (t, false) else or_append name val t (replace name val t)).0 other
          ≡ (if bytes_eq name other then some val else get t other)
    by_size true e = cc
    by_size false e = or_append-Given name val t (replace name val t) refl e other

-- The names of a table differ.
abbrev pub Distinct : AliasTable → Type 0
Distinct [] = Unit {0}
Distinct (a ∷ t) = All (λ b. bytes_eq b.name a.name ≡ false) t × Distinct t

get-none :
    (t : AliasTable) (name : Bytes) → All (λ a. bytes_eq a.name name ≡ false) t → get t name ≡ none
unfolding get
get-none [] name h = refl
get-none (a ∷ t) name (h, hs) = rw h (get-none t name hs)

-- In a table of distinct names, `remove` takes the name away and leaves every other.
pub get-remove :
    (t : AliasTable) (name : Bytes)
    → Distinct t
    → (other : Bytes)
    → get (remove t name).0 other ≡ (if bytes_eq name other then none else get t other)
unfolding get remove
get-remove [] name d other = ground arith
get-remove (a ∷ t) name (apart, d) other =
    ground (arith, get-remove t name d other, bytes_eq_trans a.name name other, gone, differs)
  where
    gone : bytes_eq a.name other ≡ true → get t other ≡ none
    gone h =
        get-none t other
          (subst (λ n. All (λ b. bytes_eq b.name n ≡ false) t) (bytes_eq→eq a.name other h) apart)

    differs :
        bytes_eq a.name name ≡ false → bytes_eq name other ≡ true → bytes_eq a.name other ≡ false
    differs h k = subst (λ o. bytes_eq a.name o ≡ false) (bytes_eq→eq name other k) h

-- `set` keeps the names distinct.
replace-All :
    (name val n : Bytes) (t : AliasTable) {u : AliasTable}
    → replace name val t ≡ some u
    → All (λ b. bytes_eq b.name n ≡ false) t
    → All (λ b. bytes_eq b.name n ≡ false) u
unfolding replace
replace-All name val n [] e h = cc
replace-All name val n (a ∷ t) {u} e (h, hs) = elim (Bool-cases (bytes_eq a.name name)) [
  | inl f ↦
      (let same : record a { val = val } ∷ t ≡ u = ground (arith, e, f) in
        subst (All (λ b. bytes_eq b.name n ≡ false)) same (h, hs))
  | inr f ↦
      (let g : behind a (replace name val t) ≡ some u = ground (arith, e, f) in
        let (w, k, same) = behind-some a (replace name val t) g in
        subst (All (λ b. bytes_eq b.name n ≡ false)) same (h, replace-All name val n t k hs))
]

replace-Distinct :
    (name val : Bytes) (t : AliasTable) {u : AliasTable}
    → replace name val t ≡ some u
    → Distinct t
    → Distinct u
unfolding replace
replace-Distinct name val [] e d = cc
replace-Distinct name val (a ∷ t) {u} e (h, d) = elim (Bool-cases (bytes_eq a.name name)) [
  | inl f ↦
      (let same : record a { val = val } ∷ t ≡ u = ground (arith, e, f) in
        subst Distinct same (h, d))
  | inr f ↦
      (let g : behind a (replace name val t) ≡ some u = ground (arith, e, f) in
        let (w, k, same) = behind-some a (replace name val t) g in
        subst Distinct same (replace-All name val a.name t k h, replace-Distinct name val t k d))
]

bytes_eq_comm : (x y : Bytes) → bytes_eq x y ≡ false → bytes_eq y x ≡ false
bytes_eq_comm x y h = elim (Bool-cases (bytes_eq y x)) [
  | inl e ↦ cc (bytes_eq_refl x, subst (λ z. bytes_eq x z ≡ false) (bytes_eq→eq y x e) h)
  | inr e ↦ e
]

append-Distinct :
    (name val : Bytes) (t : AliasTable)
    → All (λ a. bytes_eq a.name name ≡ false) t
    → Distinct t
    → Distinct (t ++ (record { name = name; val = val } ∷ []))
append-Distinct name val [] h d = (tt, tt)
append-Distinct name val (a ∷ t) (h, hs) (apart, d) =
    (All-append _ t _ apart (bytes_eq_comm a.name name h, tt), append-Distinct name val t hs d)

or_append-Distinct :
    (name val : Bytes) (t : AliasTable) (o : Option AliasTable)
    → replace name val t ≡ o
    → Distinct t
    → Distinct (or_append name val t o).0
or_append-Distinct name val t (some u) e d = replace-Distinct name val t e d
or_append-Distinct name val t none e d = elim (Bool-cases (ltb (length t) max_aliases)) [
  | inl f ↦ rw f (append-Distinct name val t (replace-none name val t e) d)
  | inr f ↦ rw f d
]

-- `set` keeps the names of the table distinct, whether or not it succeeds.
pub set-Distinct : (t : AliasTable) (name val : Bytes) → Distinct t → Distinct (set t name val).0
unfolding set
set-Distinct t name val d =
    by_size ((length name == 0) || (ltb name_cap (length name) || ltb value_cap (length val)))
  where
    by_size :
        (b : Bool)
        → Distinct (if b then (t, false) else or_append name val t (replace name val t)).0
    by_size true = d
    by_size false = or_append-Distinct name val t (replace name val t) refl d
