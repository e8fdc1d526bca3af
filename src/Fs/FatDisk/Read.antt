-- ===== src/Fs/FatDisk/Read.antt =====
-- `read` of fat_disk.rs returns the bytes of the partition.
use coeleo_os.Base.{
  ℕ, zero, suc, ◌+◌, ◌-◌, ◌*◌, ◌/◌, ◌%◌, ◌≤◌, ◌<◌, ◌≡◌, refl, sym, ap, ap₂, ◌∙◌, subst, min, arith,
  [], ◌++◌, Bool, true, false, Option, none, some, length, take, drop, get_or, ==→eq, Bool-cases,
  inl, inr, if◌then◌else◌,
}
use mathlib.Core.Option.{some-injective}
use coeleo_os.Base.Bytes.{Bytes}
use coeleo_os.Base.Slices.{slice}
use coeleo_os.Base.View.{view, view_eq, view-append, view-slice, length-view}
use coeleo_os.Fs.Disk.{Disk, sector_size, read-some}
use coeleo_os.Fs.FatDisk.{
  FatDisk, is_some, keep, cached, lba_of, off_of, chunk, at_end, read_from, read_round, prepend,
  read_loop, read,
}

-- Byte `p` of the partition that starts at sector `start_lba`.
abbrev pub byte : Disk → ℕ → ℕ → ℕ
byte d start_lba p = get_or (d.sector (start_lba + p / sector_size)) (p % sector_size) 0

-- The sectors have their length, the partition lies on the disk, and what is kept is on the disk.
pub record Fits (d : Disk) (f : FatDisk) : Type 0 where
  pub sized : (k : ℕ) → length (d.sector k) ≡ sector_size
  pub inside : (lba : ℕ) → lba * sector_size < f.size → f.start_lba + lba < d.capacity
  pub kept : (lba : ℕ) → f.cached_lba ≡ some lba → f.bounce ≡ d.sector (f.start_lba + lba)

-- The state with sector `lba` kept.
abbrev pub loaded : Disk → FatDisk → ℕ → FatDisk
loaded d f lba = record f { bounce = d.sector (f.start_lba + lba); cached_lba = some lba }

pub is_some-true : (o : Option ℕ) (lba : ℕ) → is_some o lba ≡ true → o ≡ some lba
is_some-true none lba h = cc
is_some-true (some k) lba h = ap some (==→eq k lba h)

module _ (d : Disk) (f : FatDisk) (v : Fits d f) where
  pub cached-loaded :
      (lba : ℕ) → lba * sector_size < f.size → cached d f lba ≡ some (loaded d f lba)
  cached-loaded lba h = elim (Bool-cases (is_some f.cached_lba lba)) [
    | inl e ↦ rw e (ap some (hit (is_some-true f.cached_lba lba e)))
    | inr e ↦ rw e (ap (keep f lba) (read-some d (f.start_lba + lba) (v.inside lba h)))
  ]
    where
      hit : f.cached_lba ≡ some lba → f ≡ loaded d f lba
      hit e = ap₂ (λ b c. record f { bounce = b; cached_lba = c }) (v.kept lba e) e

  -- The state after one round of `n` bytes.
  abbrev moved : ℕ → FatDisk
  moved n = record f {
    bounce = d.sector (f.start_lba + lba_of f);
    cached_lba = some (lba_of f);
    pos = f.pos + n;
  }

  moved-Fits : (n : ℕ) → Fits d (moved n)
  moved-Fits n = record {
    sized = v.sized;
    inside = v.inside;
    kept = λ lba e. ap (λ k. d.sector (f.start_lba + k)) (ground (arith, e));
  }

  -- The bytes of one round.
  round_bytes :
      (n : ℕ)
      → n ≤ sector_size - off_of f
      → slice (off_of f) (off_of f + n) (d.sector (f.start_lba + lba_of f))
        ≡ view (byte d f.start_lba) f.pos n
  round_bytes n h =
      ap (λ k. take k (drop (off_of f) here)) {x = off_of f + n - off_of f} {y = n} (omega arith)
      ∙ view-slice here (off_of f) n 0 (omega (arith, v.sized (f.start_lba + lba_of f)))
      ∙ view_eq (λ i. get_or here i 0) (byte d f.start_lba) (off_of f) f.pos n
          (λ k lt.
            ap (λ i. get_or here i 0) {x = off_of f + k} {y = (f.pos + k) % sector_size}
              (omega arith)
            ∙ ap (λ s. get_or (d.sector (f.start_lba + s)) ((f.pos + k) % sector_size) 0)
                {x = lba_of f} {y = (f.pos + k) / sector_size} (omega arith))
    where
      here : Bytes
      here = d.sector (f.start_lba + lba_of f)

-- What `read` of `left` bytes promises: the bytes from the position on, up to the end of the
-- partition; the position moves by as many.
pub record ReadOk (d : Disk) (f : FatDisk) (left : ℕ) (r : FatDisk × Option Bytes) : Type 0 where
  pub bytes : r.1 ≡ some (view (byte d f.start_lba) f.pos (min left (f.size - f.pos)))
  pub pos : r.0.pos ≡ f.pos + min left (f.size - f.pos)
  pub fits : Fits d r.0
  pub start_lba : r.0.start_lba ≡ f.start_lba
  pub size : r.0.size ≡ f.size

ended :
    (d : Disk) (f : FatDisk) (left : ℕ)
    → Fits d f
    → at_end f left ≡ true
    → ReadOk d f left (f, some [])
ended d f left v h = record {
  bytes =
      ap (λ n. some (view (byte d f.start_lba) f.pos n)) {x = 0} {y = min left (f.size - f.pos)}
        (ground arith);
  pos = ground arith;
  fits = v;
  start_lba = refl;
  size = refl;
}

-- One round and what the others do.
joined :
    (d : Disk) (f : FatDisk) (v : Fits d f) (left n : ℕ)
    → n ≤ left
    → n ≤ f.size - f.pos
    → (r : FatDisk × Option Bytes) → ReadOk d (moved d f v n) (left - n) r
    → ReadOk d f left (prepend (view (byte d f.start_lba) f.pos n) r)
joined d f v left n le le' (g, none) ok = absurd (cc ok.bytes)
joined d f v left n le le' (g, some bs) ok = record {
  bytes =
      ap (λ xs. some (view g' f.pos n ++ xs)) (some-injective _ _ ok.bytes)
      ∙ ap some (view-append g' f.pos n (min (left - n) (f.size - (f.pos + n))))
      ∙ ap (λ k. some (view g' f.pos k)) {x = n + min (left - n) (f.size - (f.pos + n))}
          {y = min left (f.size - f.pos)} (omega arith);
  pos = omega (arith, ok.pos);
  fits = ok.fits;
  start_lba = ok.start_lba;
  size = ok.size;
}
  where
    g' : ℕ → ℕ
    g' = byte d f.start_lba

read_loop_lem :
    (rounds : ℕ) (d : Disk) (f : FatDisk) (left : ℕ)
    → Fits d f
    → left ≤ rounds
    → ReadOk d f left (read_loop rounds d f left)
unfolding read_loop
read_loop_lem zero d f left v h = ended d f left v (ground arith)
read_loop_lem (suc rounds) d f left v h =
    by_test
      (λ e.
        read_loop_lem rounds d (moved d f v (chunk f left)) (left - chunk f left)
          (moved-Fits d f v (chunk f left)) (ground (arith, e)))
      (at_end f left) refl
  where
    n : ℕ
    n = chunk f left

    result : Bool → Option (FatDisk × Bytes) → FatDisk × Option Bytes
    result b o = if b then (f, some []) else (elim o [
      | none ↦ (f, none)
      | some r ↦ prepend r.1 (read_loop rounds d r.0 (left - length r.1))
    ])

    round :
        at_end f left ≡ false
        → read_round d f left ≡ some (moved d f v n, view (byte d f.start_lba) f.pos n)
    round e =
        ap (read_from n) (cached-loaded d f v (lba_of f) (ground (arith, e)))
        ∙ ap (λ bs. some (moved d f v n, bs)) (round_bytes d f v n (omega arith))

    next : FatDisk × Option Bytes
    next = read_loop rounds d (moved d f v n) (left - n)

    size : length (view (byte d f.start_lba) f.pos n) ≡ n
    size = length-view (byte d f.start_lba) f.pos n

    by_test :
        (at_end f left ≡ false → ReadOk d (moved d f v n) (left - n) next)
        → (b : Bool) → at_end f left ≡ b
        → ReadOk d f left (result b (read_round d f left))
    by_test again true e = ended d f left v e
    by_test again false e =
        subst (λ o. ReadOk d f left (result false o)) (sym (round e))
          (subst
            (λ k. ReadOk d f left (
              prepend (view (byte d f.start_lba) f.pos n)
                (read_loop rounds d (moved d f v n) (left - k))))
            (sym size) (joined d f v left n (omega arith) (omega arith) next (again e)))

-- On a disk that works, and from any position, `read` never fails: it returns the bytes of the
-- partition from the position on, as many as are asked for or left in the partition, moves the
-- position by as many, and keeps only what the disk holds.
pub read_lem : (d : Disk) (f : FatDisk) (len : ℕ) → Fits d f → ReadOk d f len (read d f len)
unfolding read
read_lem d f len v = read_loop_lem len d f len v (omega arith)
