-- ===== src/Mem/Pmm/Init.antt =====
-- `init` of pmm.rs: which frames the memory map makes free, and that `FREE` counts them.
use coeleo_os.Base.{
  ℕ, zero, suc, ◌+◌, ◌-◌, ◌*◌, ◌/◌, ◌%◌, ◌≤◌, ◌<◌, ◌≡◌, ◌∙◌, refl, ap, sym, Bool, true, false, not,
  ◌&&◌, ◌||◌, arith, leb, if◌then◌else◌, Bool-cases, inl, inr, List, [], ◌∷◌, All, replicate,
  length-replicate, get_or-replicate, All-replicate, subst,
}
use coeleo_os.Base.Bits.{has_bit}
use coeleo_os.Base.Bytes.{Bytes, u64_mod}
use coeleo_os.Mem.Pmm.{
  Entry, frame_size, max_frames, bitmap_bytes, is_used, free_range, free_entries, init, first_frame,
  end_frame,
}
use coeleo_os.Mem.Pmm.Bitmap.{IsBitmap, free_below}
use coeleo_os.Mem.Pmm.Inv.{IsValid, in_run, Freed, free_range-Freed}

-- No sum of the entry's bounds wraps at 64 bits.
abbrev pub Fits : Entry → Type 0
Fits e = e.base + e.size + frame_size ≤ u64_mod

-- Frame `g` lies wholly inside the entry's range of addresses, and the entry is usable RAM.
abbrev pub holds : Entry → ℕ → Bool
holds e g =
    e.usable && (leb e.base (g * frame_size) && leb (g * frame_size + frame_size) (e.base + e.size))

unfoldable pub covered : List Entry → ℕ → Bool
covered [] g = false
covered (e ∷ es) g = holds e g || covered es g

in_entry :
    (e : Entry) (g : ℕ)
    → Fits e
    → e.usable ≡ true
    → in_run (first_frame e) (end_frame e - first_frame e) g ≡ holds e g
in_entry e g fits u = ground arith

record Covers (es : List Entry) (bitmap : Bytes) (usable : ℕ) (out : Bytes × ℕ) : Type 0 where
  array : IsBitmap out.0
  counted : free_below out.0 max_frames + usable ≡ free_below bitmap max_frames + out.1
  used :
      (g : ℕ)
      → g < max_frames
      → is_used out.0 g ≡ (if covered es g then false else is_used bitmap g)

Covers-skip :
    {e : Entry} {es : List Entry} {bitmap : Bytes} {usable : ℕ} {out : Bytes × ℕ}
    → e.usable ≡ false
    → Covers es bitmap usable out
    → Covers (e ∷ es) bitmap usable out
unfolding covered
Covers-skip u r = record {
  array = r.array;
  counted = r.counted;
  used = λ g hg. ground (arith, r.used g hg);
}

Covers-entry :
    {e : Entry} {es : List Entry} {bitmap : Bytes} {usable : ℕ} {mid out : Bytes × ℕ}
    → Fits e
    → e.usable ≡ true
    → Freed (end_frame e - first_frame e) (first_frame e) bitmap usable mid
    → Covers es mid.0 mid.1 out
    → Covers (e ∷ es) bitmap usable out
unfolding covered
Covers-entry {e} {es} {bitmap} fits u f r = record {
  array = r.array;
  counted = omega (arith, r.counted, f.counted);
  used = λ g hg.
      r.used g hg
      ∙ join (covered es g) (holds e g) (is_used bitmap g)
          (f.used g hg ∙ ap (λ b. if b then false else is_used bitmap g) (in_entry e g fits u));
}
  where
    join :
        (c d u : Bool) {m : Bool}
        → m ≡ (if d then false else u)
        → (if c then false else m) ≡ (if d || c then false else u)
    join c d u h = ground arith

-- The rest of the loop of `init` after entry `e`, by the test of its kind.
abbrev after : Entry → List Entry → Bytes → ℕ → Bool → Bytes × ℕ
after e es bitmap usable kind =
    let out =
      if kind
      then free_range (end_frame e - first_frame e) (first_frame e) bitmap usable
      else (bitmap, usable) in
    free_entries es out.0 out.1

free_entries-Covers :
    (es : List Entry) {bitmap : Bytes} (usable : ℕ)
    → All Fits es
    → IsBitmap bitmap
    → Covers es bitmap usable (free_entries es bitmap usable)
unfolding free_entries covered
free_entries-Covers [] usable fits v = record { array = v; counted = refl; used = λ g hg. refl }
free_entries-Covers (e ∷ es) {bitmap} usable fits v = elim (Bool-cases e.usable) [
  | inl u ↦
      let f = free_range-Freed (end_frame e - first_frame e) (first_frame e) usable v in
      let r = Covers-entry fits.0 u f (free_entries-Covers es _ fits.1 f.array) in
      subst (Covers (e ∷ es) bitmap usable) (ap (after e es bitmap usable) (sym u)) r
  | inr u ↦
      let r = Covers-skip {e = e} u (free_entries-Covers es usable fits.1 v) in
      subst (Covers (e ∷ es) bitmap usable) (ap (after e es bitmap usable) (sym u)) r
]

-- Before `init`, every frame counts as used.
full : Bytes
full = replicate bitmap_bytes 255

full-IsBitmap : IsBitmap full
unfolding full
full-IsBitmap = record {
  size = length-replicate bitmap_bytes 255;
  bytes = All-replicate (λ b. b < 256) bitmap_bytes 255 (omega arith);
}

ones : (k : ℕ) → k < 8 → has_bit 255 k ≡ true
unfolding has_bit
ones zero h = refl
ones (suc zero) h = refl
ones (suc (suc zero)) h = refl
ones (suc (suc (suc zero))) h = refl
ones (suc (suc (suc (suc zero)))) h = refl
ones (suc (suc (suc (suc (suc zero))))) h = refl
ones (suc (suc (suc (suc (suc (suc zero)))))) h = refl
ones (suc (suc (suc (suc (suc (suc (suc zero))))))) h = refl
ones (suc (suc (suc (suc (suc (suc (suc (suc k)))))))) h = absurd (omega arith)

is_used-full : (g : ℕ) → g < max_frames → is_used full g ≡ true
unfolding full is_used bitmap_bytes
is_used-full g h =
    ap (λ b. has_bit b (g % 8)) (get_or-replicate 131072 255 (g / 8) 0 (omega arith))
    ∙ ones (g % 8) (omega arith)

free_below-full : (n : ℕ) → n ≤ max_frames → free_below full n ≡ 0
unfolding free_below
free_below-full zero h = refl
free_below-full (suc n) h =
    ground (arith, is_used-full n (omega arith), free_below-full n (omega arith))

-- After `init` a frame is free exactly if it lies wholly inside a usable entry of the memory map;
-- `FREE` counts the free frames, and the total equals it.
pub init_lem :
    (es : List Entry)
    → All Fits es
    → IsValid (init es)
      × ((g : ℕ) → g < max_frames → is_used (init es).bitmap g ≡ not (covered es g))
      × ((init es).usable_total ≡ (init es).free_count)
unfolding init full
init_lem es fits =
    (record { array = c.array; counted = count }, (λ g h. c.used g h ∙ full_used g h), refl)
  where
    c : Covers es full 0 (free_entries es full 0)
    c = free_entries-Covers es 0 fits full-IsBitmap

    count : (free_entries es full 0).1 ≡ free_below (free_entries es full 0).0 max_frames
    count = omega (arith, c.counted, free_below-full max_frames (omega arith))

    full_used :
        (g : ℕ)
        → g < max_frames
        → (if covered es g then false else is_used full g) ≡ not (covered es g)
    full_used g h = ground (arith, is_used-full g h)
