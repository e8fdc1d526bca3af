-- ===== src/Fs/FatDisk/Write.antt =====
-- `write` of fat_disk.rs changes the bytes of the partition that it is given, and no others.
use mathlib.Core.Option.{some-injective}
use coeleo_os.Base.{
  ℕ, zero, suc, ◌+◌, ◌-◌, ◌/◌, ◌%◌, ◌≤◌, ◌<◌, ◌≡◌, refl, sym, ap, ◌∙◌, subst, min, arith, ◌++◌,
  append-nil, Bool, true, false, ◌&&◌, Option, none, some, length, take, drop, get_or, length-take,
  length-drop, ltb, ltb→lt, ltb_false→le, ◌==◌, Bool-cases, inl, inr, if◌then◌else◌,
}
use coeleo_os.Base.Bytes.{Bytes}
use coeleo_os.Base.Slices.{drop-all}
use coeleo_os.Base.View.{
  get_or-put_in, get_or-put_before, get_or-put_behind, length-put, get_or-take, get_or-drop,
}
use coeleo_os.Fs.Disk.{Disk, sector_size, put_sector, read-some, write-some}
use coeleo_os.Fs.Gpt.{put}
use coeleo_os.Fs.FatDisk.{
  FatDisk, is_some, lba_of, off_of, chunk, at_end, fill_in, fill_part, fill, store, write_filled,
  write_round, count_on, write_loop, write,
}
use coeleo_os.Fs.FatDisk.Read.{byte, Fits, is_some-true}

module _ (d : Disk) (f : FatDisk) (v : Fits d f) (bs : Bytes) where
  abbrev here : Bytes
  here = d.sector (f.start_lba + lba_of f)

  -- The sector with the new bytes in it.
  abbrev after : Bytes
  after = put (off_of f) bs (d.sector (f.start_lba + lba_of f))

  abbrev pub new_disk : Disk
  new_disk = put_sector d (f.start_lba + lba_of f) after

  abbrev pub new_state : FatDisk
  new_state = record f { bounce = after; cached_lba = some (lba_of f); pos = f.pos + length bs }

  module _ (room : length bs ≤ sector_size - off_of f) (more : f.pos < f.size) where
    full : (off_of f == 0) ≡ true → (length bs == sector_size) ≡ true → bs ≡ after
    full e g =
        sym (append-nil bs)
        ∙ ap (λ xs. bs ++ xs)
            (sym (
              drop-all (off_of f + length bs) here
                (ground (arith, e, g, v.sized (f.start_lba + lba_of f)))))
        ∙ ap (λ k. take k here ++ (bs ++ drop (off_of f + length bs) here)) {x = 0} {y = off_of f}
            (ground (arith, e))

    part : fill_part d f (lba_of f) bs ≡ some (record f { bounce = after })
    part = elim (Bool-cases (is_some f.cached_lba (lba_of f))) [
      | inl e ↦ rw e (
          ap (λ s. fill_in f bs (some s))
            (v.kept (lba_of f) (is_some-true f.cached_lba (lba_of f) e)))
      | inr e ↦ rw e (
          ap (fill_in f bs)
            (read-some d (f.start_lba + lba_of f) (v.inside (lba_of f) (omega arith))))
    ]

    fill_lem : fill d f (lba_of f) bs ≡ some (record f { bounce = after })
    fill_lem = by_tests (off_of f == 0) (length bs == sector_size) refl refl
      where
        by_tests :
            (a b : Bool)
            → (off_of f == 0) ≡ a
            → (length bs == sector_size) ≡ b
            → (if a && b then some (record f { bounce = bs }) else fill_part d f (lba_of f) bs)
              ≡ some (record f { bounce = after })
        by_tests true true e g = ap (λ b. some (record f { bounce = b })) (full e g)
        by_tests true false e g = part
        by_tests false b e g = part

    pub round_lem : write_round d f bs ≡ (new_disk, new_state, true)
    round_lem =
        ap (write_filled d f (length bs)) fill_lem
        ∙ ap (store d (record f { bounce = after }) (lba_of f) (length bs))
            (write-some d (f.start_lba + lba_of f) after (v.inside (lba_of f) (omega arith)))

    -- The new bytes end inside the sector.
    ends : off_of f + length bs ≤ length here
    ends = omega (arith, v.sized (f.start_lba + lba_of f))

    at_same : (k : ℕ) → k ≡ f.start_lba + lba_of f → new_disk.sector k ≡ after
    at_same k e = ground (arith, e)

    at_other : (k : ℕ) → (k ≡ f.start_lba + lba_of f → ⊥) → new_disk.sector k ≡ d.sector k
    at_other k e = ground (arith, e)

    pub round_in :
        (p : ℕ)
        → f.pos ≤ p
        → p < f.pos + length bs
        → byte new_disk f.start_lba p ≡ get_or bs (p - f.pos) 0
    round_in p ge lt =
        ap (λ s. get_or s (p % sector_size) 0)
          (at_same (f.start_lba + p / sector_size) (omega arith))
        ∙ get_or-put_in (off_of f) bs here (p % sector_size) 0 ends (omega arith) (omega arith)
        ∙ ap (λ i. get_or bs i 0) {x = p % sector_size - off_of f} {y = p - f.pos} (omega arith)

    pub round_out :
        (p : ℕ)
        → (f.pos ≤ p → p < f.pos + length bs → ⊥)
        → byte new_disk f.start_lba p ≡ byte d f.start_lba p
    round_out p out = elim (Bool-cases (p / sector_size == lba_of f)) [
      | inl e ↦
          ap (λ s. get_or s (p % sector_size) 0)
            (at_same (f.start_lba + p / sector_size) (ground (arith, e)))
          ∙ unchanged (ground (arith, e))
          ∙ ap (λ s. get_or (d.sector (f.start_lba + s)) (p % sector_size) 0) {x = lba_of f}
              {y = p / sector_size} (ground (arith, e))
      | inr e ↦
          ap (λ s. get_or s (p % sector_size) 0)
            (at_other (f.start_lba + p / sector_size) (ground (arith, e)))
    ]
      where
        unchanged :
            p / sector_size ≡ lba_of f
            → get_or after (p % sector_size) 0 ≡ get_or here (p % sector_size) 0
        unchanged e = elim (Bool-cases (ltb (p % sector_size) (off_of f))) [
          | inl g ↦
              get_or-put_before (off_of f) bs here (p % sector_size) 0 ends (ground (arith, g))
          | inr g ↦ elim (Bool-cases (ltb (p % sector_size) (off_of f + length bs))) [
            | inl h ↦ absurd (out (ground (arith, e, g)) (ground (arith, e, h)))
            | inr h ↦
                get_or-put_behind (off_of f) bs here (p % sector_size) 0 ends (ground (arith, h))
          ]
        ]

    round-Fits : Fits new_disk new_state
    round-Fits = record {
      sized = λ k. elim (Bool-cases (k == f.start_lba + lba_of f)) [
        | inl e ↦
            ap length (at_same k (ground (arith, e)))
            ∙ length-put (off_of f) bs here ends
            ∙ v.sized (f.start_lba + lba_of f)
        | inr e ↦ ap length (at_other k (ground (arith, e))) ∙ v.sized k
      ];
      inside = v.inside;
      kept = λ lba e. sym (at_same (f.start_lba + lba) (ground (arith, e)));
    }

-- How many bytes of a buffer go into the partition.
abbrev pub fitting : FatDisk → Bytes → ℕ
fitting f buf = min (length buf) (f.size - f.pos)

-- What `write` promises.
pub record WriteOk (d : Disk) (f : FatDisk) (buf : Bytes) (r : Disk × FatDisk × Option ℕ)
    : Type 0 where
  pub count : r.2 ≡ some (fitting f buf)
  pub pos : r.1.pos ≡ f.pos + fitting f buf
  pub inside :
      (p : ℕ)
      → f.pos ≤ p
      → p < f.pos + fitting f buf
      → byte r.0 f.start_lba p ≡ get_or buf (p - f.pos) 0
  pub outside :
      (p : ℕ)
      → (f.pos ≤ p → p < f.pos + fitting f buf → ⊥)
      → byte r.0 f.start_lba p ≡ byte d f.start_lba p
  pub below : (k : ℕ) → k < f.start_lba → r.0.sector k ≡ d.sector k
  pub fits : Fits r.0 r.1
  pub start_lba : r.1.start_lba ≡ f.start_lba
  pub size : r.1.size ≡ f.size

ended :
    (d : Disk) (f : FatDisk) (buf : Bytes)
    → Fits d f
    → fitting f buf ≡ 0
    → WriteOk d f buf (d, f, some 0)
ended d f buf v e = record {
  count = ap some (sym e);
  pos = omega arith;
  inside = λ p ge lt. absurd (omega arith);
  outside = λ p h. refl;
  below = λ k lt. refl;
  fits = v;
  start_lba = refl;
  size = refl;
}

module _ (d : Disk) (f : FatDisk) (v : Fits d f) (buf : Bytes) (n : ℕ)
    (room : n ≤ sector_size - off_of f) (more : f.pos < f.size) (le : n ≤ fitting f buf) where
  abbrev bs : Bytes
  bs = take n buf

  size_bs : length bs ≡ n
  size_bs = omega (arith, length-take n buf)

  size_rest : length (drop n buf) ≡ length buf - n
  size_rest = length-drop n buf

  joined :
      (r : Disk × FatDisk × Option ℕ)
      → WriteOk (new_disk d f v bs) (new_state d f v bs) (drop n buf) r
      → WriteOk d f buf (count_on n r)
  joined (e, g, none) ok = absurd (cc ok.count)
  joined (e, g, some m) ok = record {
    count = ap some (omega (arith, some-injective _ _ ok.count, size_bs, size_rest));
    pos = omega (arith, ok.pos, size_bs, size_rest);
    inside = λ p ge lt. elim (Bool-cases (ltb p (f.pos + n))) [
      | inl h ↦
          (let lt' : p < f.pos + n = ltb→lt p (f.pos + n) h in
            ok.outside p (λ ge' _. omega (arith, size_bs))
            ∙ round_in d f v bs (omega (arith, size_bs)) more p ge (omega (arith, size_bs))
            ∙ get_or-take n buf (p - f.pos) 0 (omega arith))
      | inr h ↦
          (let ge' : f.pos + n ≤ p = ltb_false→le p (f.pos + n) h in
            ok.inside p (omega (arith, size_bs)) (omega (arith, size_bs, size_rest))
            ∙ get_or-drop n buf (p - (f.pos + length bs)) 0
            ∙ ap (λ i. get_or buf i 0) {x = n + (p - (f.pos + length bs))} {y = p - f.pos}
                (omega (arith, size_bs)))
    ];
    outside = λ p h.
        ok.outside p (λ ge lt. h (omega (arith, size_bs)) (omega (arith, size_bs, size_rest)))
        ∙ round_out d f v bs (omega (arith, size_bs)) more p
            (λ ge lt. h ge (omega (arith, size_bs)));
    below = λ k lt.
        ok.below k lt ∙ at_other d f v bs (omega (arith, size_bs)) more k (λ e. omega arith);
    fits = ok.fits;
    start_lba = ok.start_lba;
    size = ok.size;
  }

write_loop_lem :
    (rounds : ℕ) (d : Disk) (f : FatDisk) (buf : Bytes)
    → Fits d f
    → length buf ≤ rounds
    → WriteOk d f buf (write_loop rounds d f buf)
unfolding write_loop
write_loop_lem zero d f buf v h = ended d f buf v (omega arith)
write_loop_lem (suc rounds) d f buf v h =
    by_test
      (λ e.
        write_loop_lem rounds (new_disk d f v (take (chunk f (length buf)) buf))
          (new_state d f v (take (chunk f (length buf)) buf)) (drop (chunk f (length buf)) buf)
          (round-Fits d f v (take (chunk f (length buf)) buf)
            (omega (arith, length-take (chunk f (length buf)) buf)) (ground (arith, e)))
          (ground (arith, e, length-drop (chunk f (length buf)) buf)))
      (at_end f (length buf)) refl
  where
    n : ℕ
    n = chunk f (length buf)

    new : Bytes
    new = take n buf

    size : length new ≡ n
    size = omega (arith, length-take n buf)

    result : Bool → Disk × FatDisk × Bool → Disk × FatDisk × Option ℕ
    result b r = if b then (d, f, some 0) else (elim r.2 [
      | false ↦ (r.0, r.1, none)
      | true ↦ count_on n (write_loop rounds r.0 r.1 (drop n buf))
    ])

    by_test :
        (at_end f (length buf) ≡ false
          → WriteOk
              (new_disk d f v new)
              (new_state d f v new)
              (drop n buf)
              (write_loop rounds (new_disk d f v new) (new_state d f v new) (drop n buf)))
        → (b : Bool) → at_end f (length buf) ≡ b
        → WriteOk d f buf (result b (write_round d f new))
    by_test again true e = ended d f buf v (ground (arith, e))
    by_test again false e =
        subst (λ r. WriteOk d f buf (result false r))
          (sym (round_lem d f v new (omega (arith, size)) (ground (arith, e))))
          (joined d f v buf n (omega arith) (ground (arith, e)) (omega arith)
            (write_loop rounds (new_disk d f v new) (new_state d f v new) (drop n buf)) (again e))

-- On a disk that works, and from any position, `write` never fails: it stores as many bytes of the
-- buffer as there is room for in the partition, from the position on; every other byte from the
-- start of the partition on and every sector before it stay as they were; the position moves by as
-- many; what is kept is on the disk.
pub write_lem : (d : Disk) (f : FatDisk) (buf : Bytes) → Fits d f → WriteOk d f buf (write d f buf)
unfolding write
write_lem d f buf v = write_loop_lem (length buf) d f buf v (omega arith)
