-- ===== src/Fs/FatDisk/Seek.antt =====
-- `seek` of fat_disk.rs, and `read`, `write` and `seek` one after another.
use coeleo_os.Base.{
  ℕ, ◌+◌, ◌-◌, ◌%◌, ◌≤◌, ◌<◌, ◌≡◌, refl, ap, ap₂, ◌∙◌, subst, min, arith, List, [], ◌∷◌, Bool, true,
  false, Option, none, some, length, get_or, ltb, if◌then◌else◌, ◌^◌,
}
use coeleo_os.Base.Bytes.{Bytes}
use coeleo_os.Base.View.{view, view_eq, view-all}
use coeleo_os.Fs.Disk.{Disk}
use coeleo_os.Fs.FatDisk.{
  FatDisk, read, write, ℤ, pos, negsuc, SeekFrom, start, current, end, offset, target, seek_to,
  seek,
}
use coeleo_os.Fs.FatDisk.Read.{byte, Fits, ReadOk, read_lem}
use coeleo_os.Fs.FatDisk.Write.{WriteOk, write_lem}

seek_to-Fits : (d : Disk) (f : FatDisk) (o : Option ℕ) → Fits d f → Fits d (seek_to f o).0
seek_to-Fits d f none v = v
seek_to-Fits d f (some n) v = record { sized = v.sized; inside = v.inside; kept = v.kept }

-- On a disk that works, the bytes that are written are read again from where the write began, if
-- they fit into the partition.
pub read-write :
    (d : Disk) (f : FatDisk) (buf : Bytes)
    → Fits d f
    → f.pos + length buf ≤ f.size
    → (read (write d f buf).0 (seek (write d f buf).1 (start f.pos)).0 (length buf)).1 ≡ some buf
unfolding seek
read-write d f buf v room =
    ok.bytes
    ∙ ap₂ (λ i n. some (view (byte e g.start_lba) i n)) at whole
    ∙ ap some (
        view_eq (byte e g.start_lba) (λ i. get_or buf i 0) f.pos 0 (length buf) same
        ∙ view-all buf 0)
  where
    e : Disk
    e = (write d f buf).0

    g : FatDisk
    g = (write d f buf).1

    w : WriteOk d f buf (write d f buf)
    w = write_lem d f buf v

    back : FatDisk
    back = (seek_to g (some f.pos)).0

    ok : ReadOk e back (length buf) (read e back (length buf))
    ok = read_lem e back (length buf) (seek_to-Fits e g (some f.pos) w.fits)

    at : back.pos ≡ f.pos
    at = omega (arith, w.size)

    whole : min (length buf) (back.size - back.pos) ≡ length buf
    whole = omega (arith, w.size)

    same : (k : ℕ) → k < length buf → byte e g.start_lba (f.pos + k) ≡ get_or buf (0 + k) 0
    same k lt =
        ap (λ s. byte e s (f.pos + k)) w.start_lba
        ∙ w.inside (f.pos + k) (omega arith) (omega arith)
        ∙ ap (λ i. get_or buf i 0) {x = f.pos + k - f.pos} {y = 0 + k} (omega arith)

-- What `seek` promises: a place before the start is refused, and the position stays; every other
-- place is cut to the end of the partition, and is the new position.
pub SeekOk : FatDisk → ℕ → ℤ → FatDisk × Option ℕ → Type 0
SeekOk f base (pos n) r = (r.0.pos ≡ min (base + n) f.size) × (r.1 ≡ some (min (base + n) f.size))
SeekOk f base (negsuc n) r =
    if ltb n base
    then (r.0.pos ≡ min (base - (n + 1)) f.size) × (r.1 ≡ some (min (base - (n + 1)) f.size))
    else (r ≡ (f, none))

-- An offset of 64 bits.
abbrev pub IsI64 : ℤ → Type 0
IsI64 (pos n) = n < 2 ^ 63
IsI64 (negsuc n) = n < 2 ^ 63

module _ (f : FatDisk) where
  seek_from :
      (base : ℕ) (off : ℤ)
      → base ≤ 2 ^ 63
      → IsI64 off
      → SeekOk f base off (seek_to f (offset base off))
  unfolding SeekOk
  seek_from base (pos n) small ok =
      let e : (base + n) % 2 ^ 64 ≡ base + n = omega arith in
      (ap (λ k. min k f.size) e, ap (λ k. some (min k f.size)) e)
  seek_from base (negsuc n) small ok = by_test (ltb n base)
    where
      by_test :
          (b : Bool)
          → (if b
              then ((seek_to f (if b then some (base - (n + 1)) else none)).0.pos
                  ≡ min (base - (n + 1)) f.size)
                × ((seek_to f (if b then some (base - (n + 1)) else none)).1
                    ≡ some (min (base - (n + 1)) f.size))
              else (seek_to f (if b then some (base - (n + 1)) else none) ≡ (f, none)))
      by_test true = (refl, refl)
      by_test false = refl

  -- If the position is in the partition, and that has at most 2^63 bytes, `seek` by a 64-bit offset
  -- from the position or from the end refuses a place before the start and keeps the position, and
  -- goes to every other place, or to the end of the partition if that comes first.
  pub seek_lem :
      (off : ℤ)
      → f.pos ≤ f.size
      → f.size ≤ 2 ^ 63
      → IsI64 off
      → SeekOk f f.pos off (seek f (current off)) × SeekOk f f.size off (seek f (end off))
  unfolding seek
  seek_lem off le small ok = (seek_from f.pos off (omega arith) ok, seek_from f.size off small ok)

-- What fatfs calls, in any order.
pub data Op : Type 0 where
  reads : ℕ → Op
  writes : Bytes → Op
  seeks : SeekFrom → Op

abbrev pub step : Disk × FatDisk → Op → Disk × FatDisk
step (d, f) (reads n) = (d, (read d f n).0)
step (d, f) (writes buf) = ((write d f buf).0, (write d f buf).1)
step (d, f) (seeks from) = (d, (seek f from).0)

abbrev pub run : Disk × FatDisk → List Op → Disk × FatDisk
run s [] = s
run s (op ∷ ops) = run (step s op) ops

-- The state of a volume whose position is in the partition.
pub record InRange (d : Disk) (f : FatDisk) : Type 0 where
  pub fits : Fits d f
  pub pos_in : f.pos ≤ f.size

-- What calls between two states leave alone: the partition's place, every sector before it and every
-- byte behind it.
pub record Outside (s t : Disk × FatDisk) : Type 0 where
  pub start_lba : t.1.start_lba ≡ s.1.start_lba
  pub size : t.1.size ≡ s.1.size
  pub before : (k : ℕ) → k < s.1.start_lba → t.0.sector k ≡ s.0.sector k
  pub behind : (p : ℕ) → s.1.size ≤ p → byte t.0 s.1.start_lba p ≡ byte s.0 s.1.start_lba p

untouched : (d : Disk) (f : FatDisk) → Outside (d, f) (d, f)
untouched d f = record {
  start_lba = refl;
  size = refl;
  before = λ k lt. refl;
  behind = λ p ge. refl;
}

step_lem :
    (d : Disk) (f : FatDisk) (op : Op)
    → InRange d f
    → InRange (step (d, f) op).0 (step (d, f) op).1 × Outside (d, f) (step (d, f) op)
unfolding seek
step_lem d f (reads n) v =
    let ok = read_lem d f n v.fits in
    (
      record { fits = ok.fits; pos_in = omega (arith, v.pos_in, ok.pos, ok.size) },
      record {
        start_lba = ok.start_lba;
        size = ok.size;
        before = λ k lt. refl;
        behind = λ p ge. refl;
      },
    )
step_lem d f (writes buf) v =
    let ok = write_lem d f buf v.fits in
    (
      record { fits = ok.fits; pos_in = omega (arith, v.pos_in, ok.pos, ok.size) },
      record {
        start_lba = ok.start_lba;
        size = ok.size;
        before = ok.below;
        behind = λ p ge. ok.outside p (λ ge' lt. omega (arith, v.pos_in));
      },
    )
step_lem d f (seeks from) v = sought (target f from)
  where
    sought : (o : Option ℕ) → InRange d (seek_to f o).0 × Outside (d, f) (d, (seek_to f o).0)
    sought none = (v, untouched d f)
    sought (some n) = (
      record { fits = seek_to-Fits d f (some n) v.fits; pos_in = omega arith },
      record { start_lba = refl; size = refl; before = λ k lt. refl; behind = λ p ge. refl },
    )

-- On a disk that works, whatever is read, written and sought, and from any position in the
-- partition: the position stays in the partition, what is kept is what the disk holds, and neither a
-- sector before the partition nor a byte behind it changes.
pub run_lem :
    (ops : List Op) (d : Disk) (f : FatDisk)
    → InRange d f
    → InRange (run (d, f) ops).0 (run (d, f) ops).1 × Outside (d, f) (run (d, f) ops)
run_lem [] d f v = (v, untouched d f)
run_lem (op ∷ ops) d f v =
    let (w, o) = step_lem d f op v in
    let (w', o') = run_lem ops (step (d, f) op).0 (step (d, f) op).1 w in
    (
      w',
      record {
        start_lba = o'.start_lba ∙ o.start_lba;
        size = o'.size ∙ o.size;
        before = λ k lt. o'.before k (omega (arith, o.start_lba)) ∙ o.before k lt;
        behind = λ p ge.
            subst (λ s. byte (run (step (d, f) op) ops).0 s p ≡ byte (step (d, f) op).0 s p)
              o.start_lba (o'.behind p (omega (arith, o.size)))
            ∙ o.behind p ge;
      },
    )
