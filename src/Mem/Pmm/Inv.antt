-- ===== src/Mem/Pmm/Inv.antt =====
-- The invariant of pmm.rs: `FREE` counts the clear bits. And what a loop that frees a range does.
use coeleo_os.Base.{
  ℕ, zero, suc, ◌+◌, ◌≤◌, ◌<◌, ◌≡◌, refl, Bool, true, false, arith, ◌&&◌, leb, ltb, if◌then◌else◌,
  Bool-cases, inl, inr,
}
use coeleo_os.Base.Bytes.{Bytes}
use coeleo_os.Mem.Pmm.{Pmm, max_frames, is_used, mark_free, free_range}
use coeleo_os.Mem.Pmm.Bitmap.{
  IsBitmap, mark_free-IsBitmap, is_used-mark_free, free_below, free_below-mark_free,
}

pub record IsValid (p : Pmm) : Type 0 where
  pub array : IsBitmap p.bitmap
  pub counted : p.free_count ≡ free_below p.bitmap max_frames

-- Whether frame `g` is one of the `n` frames from `s` on.
abbrev pub in_run : ℕ → ℕ → ℕ → Bool
in_run s n g = leb s g && ltb g (s + n)

-- What freeing the frames from `frame` on leaves, those past the end of the bitmap left alone.
pub record Freed (left frame : ℕ) (bitmap : Bytes) (usable : ℕ) (out : Bytes × ℕ) : Type 0 where
  pub array : IsBitmap out.0
  pub counted : free_below out.0 max_frames + usable ≡ free_below bitmap max_frames + out.1
  pub used :
      (g : ℕ)
      → g < max_frames
      → is_used out.0 g ≡ (if in_run frame left g then false else is_used bitmap g)

module _ {bitmap : Bytes} (frame usable : ℕ) where
  Freed-none : IsBitmap bitmap → Freed 0 frame bitmap usable (bitmap, usable)
  Freed-none v = record { array = v; counted = refl; used = λ g h. ground arith }

  Freed-past :
      (left : ℕ)
      → max_frames ≤ frame
      → IsBitmap bitmap
      → Freed left frame bitmap usable (bitmap, usable)
  Freed-past left past v = record { array = v; counted = refl; used = λ g h. ground arith }

  module _ (left : ℕ) {out : Bytes × ℕ} (v : IsBitmap bitmap) (h : frame < max_frames) where
    Freed-mark :
        is_used bitmap frame ≡ true
        → Freed left (frame + 1) (mark_free bitmap frame) (usable + 1) out
        → Freed (suc left) frame bitmap usable out
    Freed-mark u r = record {
      array = r.array;
      counted = ground (arith, r.counted, free_below-mark_free frame v h max_frames u);
      used = λ g hg. ground (arith, r.used g hg, is_used-mark_free frame g v h);
    }

    Freed-skip :
        is_used bitmap frame ≡ false
        → Freed left (frame + 1) bitmap usable out
        → Freed (suc left) frame bitmap usable out
    Freed-skip u r = record {
      array = r.array;
      counted = r.counted;
      used = λ g hg. ground (arith, r.used g hg, skipped g);
    }
      where
        skipped : (g : ℕ) → g ≡ frame → is_used bitmap g ≡ false
        skipped g e = rw e u

pub free_range-Freed :
    (left frame : ℕ) {bitmap : Bytes} (usable : ℕ)
    → IsBitmap bitmap
    → Freed left frame bitmap usable (free_range left frame bitmap usable)
unfolding free_range
free_range-Freed zero frame usable v = Freed-none frame usable v
free_range-Freed (suc left) frame {bitmap} usable v = elim (Bool-cases (leb max_frames frame)) [
  | inl past ↦ rw past (Freed-past frame usable (suc left) (ground arith) v)
  | inr inside ↦ elim (Bool-cases (is_used bitmap frame)) [
    | inl u ↦
        rw (inside, u)
          (Freed-mark frame usable left v (ground arith) u
            (free_range-Freed left (frame + 1) (usable + 1) (mark_free-IsBitmap frame v)))
    | inr u ↦
        rw (inside, u)
          (Freed-skip frame usable left v (ground arith) u
            (free_range-Freed left (frame + 1) usable v))
  ]
]
