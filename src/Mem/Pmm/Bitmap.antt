-- ===== src/Mem/Pmm/Bitmap.antt =====
-- The laws of the three bitmap helpers of pmm.rs, and the number of free frames.
use coeleo_os.Base.{
  ℕ, zero, suc, ◌+◌, ◌/◌, ◌%◌, ◌≤◌, ◌<◌, ◌≡◌, ap, ◌∙◌, true, false, arith, length, get_or,
  get_or-set_self, get_or-set_ne, length-set, All-set, All-get_or, ltb, ◌==◌, if◌then◌else◌,
}
use native.Mathlib.Decide.{ℕ_discrete}
use coeleo_os.Base.Bits.{
  has_bit, with_bit, without_bit, has_bit-with_bit, has_bit-without_bit, with_bit-lt,
  without_bit-lt,
}
use coeleo_os.Base.Bytes.{Bytes, IsBytes}
use coeleo_os.Mem.Pmm.{max_frames, bitmap_bytes, is_used, mark_used, mark_free}

-- The array has its size and holds bytes.
pub record IsBitmap (bitmap : Bytes) : Type 0 where
  pub size : length bitmap ≡ bitmap_bytes
  pub bytes : IsBytes bitmap

byte_in_range : (f : ℕ) → f < max_frames → f / 8 < bitmap_bytes
unfolding bitmap_bytes
byte_in_range f h = omega arith

byte_at : (bitmap : Bytes) (i : ℕ) → IsBytes bitmap → get_or bitmap i 0 < 256
byte_at bitmap i h = All-get_or (λ b. b < 256) bitmap i 0 (omega arith) h

pub mark_used-IsBitmap : {bitmap : Bytes} (f : ℕ) → IsBitmap bitmap → IsBitmap (mark_used bitmap f)
unfolding mark_used
mark_used-IsBitmap {bitmap} f v = record {
  size = length-set bitmap (f / 8) _ ∙ v.size;
  bytes =
      All-set (λ b. b < 256) bitmap (f / 8) _
        (with_bit-lt (get_or bitmap (f / 8) 0) (f % 8) (byte_at bitmap (f / 8) v.bytes)
          (omega arith))
        v.bytes;
}

pub mark_free-IsBitmap : {bitmap : Bytes} (f : ℕ) → IsBitmap bitmap → IsBitmap (mark_free bitmap f)
unfolding mark_free
mark_free-IsBitmap {bitmap} f v = record {
  size = length-set bitmap (f / 8) _ ∙ v.size;
  bytes =
      All-set (λ b. b < 256) bitmap (f / 8) _
        (without_bit-lt (get_or bitmap (f / 8) 0) (f % 8) (byte_at bitmap (f / 8) v.bytes)
          (omega arith))
        v.bytes;
}

same_frame : (f g : ℕ) → f / 8 ≡ g / 8 → f % 8 ≡ g % 8 → f ≡ g
same_frame f g p q = omega arith

module _ {bitmap : Bytes} (f g : ℕ) (v : IsBitmap bitmap) (hf : f < max_frames) where
  -- Marking a frame used changes the answer for that frame alone.
  pub is_used-mark_used :
      is_used (mark_used bitmap f) g ≡ (if g == f then true else is_used bitmap g)
  unfolding is_used mark_used
  is_used-mark_used = elim (ℕ_discrete (f / 8) (g / 8)) [
    | yes e ↦ rw (← e) (
        rw (get_or-set_self bitmap (f / 8) (with_bit (get_or bitmap (f / 8) 0) (f % 8)) 0 inside) (
          has_bit-with_bit (get_or bitmap (f / 8) 0) (f % 8) (g % 8)
            (byte_at bitmap (f / 8) v.bytes) (omega arith) (omega arith)
          ∙ same e))
    | no ne ↦
        ap (λ b. has_bit b (g % 8)) (get_or-set_ne bitmap (f / 8) (g / 8) _ 0 ne)
        ∙ ground (arith, ne)
  ]
    where
      inside : f / 8 < length bitmap
      inside = omega (arith, byte_in_range f hf, v.size)

      same :
          f / 8 ≡ g / 8
          → (if g % 8 == f % 8 then true else has_bit (get_or bitmap (f / 8) 0) (g % 8))
            ≡ (if g == f then true else has_bit (get_or bitmap (f / 8) 0) (g % 8))
      same e = ground (arith, same_frame f g e)

  -- Marking a frame free changes the answer for that frame alone.
  pub is_used-mark_free :
      is_used (mark_free bitmap f) g ≡ (if g == f then false else is_used bitmap g)
  unfolding is_used mark_free
  is_used-mark_free = elim (ℕ_discrete (f / 8) (g / 8)) [
    | yes e ↦ rw (← e) (
        rw (get_or-set_self bitmap (f / 8) (without_bit (get_or bitmap (f / 8) 0) (f % 8)) 0 inside)
          (has_bit-without_bit (get_or bitmap (f / 8) 0) (f % 8) (g % 8)
              (byte_at bitmap (f / 8) v.bytes) (omega arith) (omega arith)
            ∙ same e))
    | no ne ↦
        ap (λ b. has_bit b (g % 8)) (get_or-set_ne bitmap (f / 8) (g / 8) _ 0 ne)
        ∙ ground (arith, ne)
  ]
    where
      inside : f / 8 < length bitmap
      inside = omega (arith, byte_in_range f hf, v.size)

      same :
          f / 8 ≡ g / 8
          → (if g % 8 == f % 8 then false else has_bit (get_or bitmap (f / 8) 0) (g % 8))
            ≡ (if g == f then false else has_bit (get_or bitmap (f / 8) 0) (g % 8))
      same e = ground (arith, same_frame f g e)

-- The number of free frames below `n`.
unfoldable pub free_below : Bytes → ℕ → ℕ
free_below bitmap zero = 0
free_below bitmap (suc n) = free_below bitmap n + (if is_used bitmap n then 0 else 1)

pub free_below-le : (bitmap : Bytes) (n : ℕ) → free_below bitmap n ≤ n
unfolding free_below
free_below-le bitmap zero = omega arith
free_below-le bitmap (suc n) = ground (arith, free_below-le bitmap n)

module _ {bitmap : Bytes} (f : ℕ) (v : IsBitmap bitmap) (hf : f < max_frames) where
  pub free_below-mark_used :
      (n : ℕ)
      → is_used bitmap f ≡ false
      → free_below (mark_used bitmap f) n + (if ltb f n then 1 else 0) ≡ free_below bitmap n
  unfolding free_below
  free_below-mark_used zero h = ground arith
  free_below-mark_used (suc n) h =
      ground (arith, free_below-mark_used n h, is_used-mark_used f n v hf)

  pub free_below-mark_free :
      (n : ℕ)
      → is_used bitmap f ≡ true
      → free_below (mark_free bitmap f) n ≡ free_below bitmap n + (if ltb f n then 1 else 0)
  unfolding free_below
  free_below-mark_free zero h = ground arith
  free_below-mark_free (suc n) h =
      ground (arith, free_below-mark_free n h, is_used-mark_free f n v hf)
