-- ===== src/Mem/Pmm/Alloc.antt =====
-- `alloc_contiguous` of pmm.rs: what it hands out, that it finds the first run that fits, and
-- that a run given back leaves the bitmap as it was.
use coeleo_os.Base.{
  ℕ, zero, suc, ◌+◌, ◌*◌, ◌≤◌, ◌<◌, ◌≡◌, ◌∙◌, refl, true, false, arith, if◌then◌else◌, ◌==◌,
  Bool-cases, inl, inr, sym, ==→eq, suc-==-zero, subst, Option, none, some,
}
use coeleo_os.Base.Bytes.{Bytes}
use coeleo_os.Mem.Pmm.{
  Pmm, frame_size, max_frames, is_used, mark_used, mark_used_range, scan, take_run,
  alloc_contiguous, free_contiguous,
}
use coeleo_os.Mem.Pmm.Bitmap.{
  IsBitmap, mark_used-IsBitmap, is_used-mark_used, free_below, free_below-mark_used, free_below-le,
}
use coeleo_os.Mem.Pmm.Inv.{IsValid, in_run}
use coeleo_os.Mem.Pmm.Free.{free_contiguous_lem, max_frames-small}

-- The `n` frames from `s` on are free.
abbrev pub IsFreeRun : Bytes → ℕ → ℕ → Type 0
IsFreeRun bitmap s n = (g : ℕ) → s ≤ g → g < s + n → is_used bitmap g ≡ false

abbrev start_of : ℕ → ℕ → ℕ → ℕ
start_of run frame run_start = if run == 0 then frame else run_start

-- What the scan finds is a run of free frames inside the range scanned.
scan-IsFreeRun :
    (left : ℕ) (bitmap : Bytes) (n frame run run_start : ℕ) {s : ℕ}
    → start_of run frame run_start + run ≡ frame
    → IsFreeRun bitmap (start_of run frame run_start) run
    → scan left bitmap n frame run run_start ≡ some s
    → IsFreeRun bitmap s n × (s + n ≤ frame + left)
unfolding scan
scan-IsFreeRun zero bitmap n frame run run_start at free h = cc
scan-IsFreeRun (suc left) bitmap n frame run run_start {s} at free h =
    elim (Bool-cases (is_used bitmap frame)) [
      | inl u ↦
          let r =
            scan-IsFreeRun left bitmap n (frame + 1) 0 run_start {s = s} (omega arith)
              (λ g a b. absurd (omega arith)) (rw u at h) in
          (r.0, omega (arith, r.1))
      | inr u ↦ elim (Bool-cases (run + 1 == n)) [
        | inl e ↦ ((λ g a b. extend u g (ground arith) (ground arith)), ground arith)
        | inr ne ↦
            let r =
              scan-IsFreeRun left bitmap n (frame + 1) (run + 1) (start_of run frame run_start)
                {s = s} (ground arith) (λ g a b. extend u g (ground arith) (ground arith))
                (rw (u, ne) at h) in
            (r.0, omega (arith, r.1))
      ]
    ]
  where
    extend :
        is_used bitmap frame ≡ false
        → (g : ℕ) → start_of run frame run_start ≤ g
        → g < start_of run frame run_start + (run + 1)
        → is_used bitmap g ≡ false
    extend u g a b = elim (Bool-cases (g == frame)) [
      | inl e ↦ rw (==→eq g frame e) u
      | inr ne ↦ free g a (ground arith)
    ]

-- A free run at `s` in the range still to be scanned is found, or one that starts before it is.
scan-le :
    (left : ℕ) (bitmap : Bytes) (n frame run run_start s : ℕ)
    → start_of run frame run_start + run ≡ frame
    → run < n
    → start_of run frame run_start ≤ s
    → s + n ≤ frame + left
    → IsFreeRun bitmap s n
    → (t : ℕ) × (scan left bitmap n frame run run_start ≡ some t) × (t ≤ s)
unfolding scan
scan-le zero bitmap n frame run run_start s at short low high free = absurd (omega arith)
scan-le (suc left) bitmap n frame run run_start s at short low high free =
    elim (Bool-cases (is_used bitmap frame)) [
      | inl u ↦ rw u (
          scan-le left bitmap n (frame + 1) 0 run_start s (omega arith) (omega arith)
            (ground (arith, free frame)) (omega arith) free)
      | inr u ↦ elim (Bool-cases (run + 1 == n)) [
        | inl e ↦ (start_of run frame run_start, rw (u, e), low)
        | inr ne ↦
            rw (u, ne)
              (scan-le left bitmap n (frame + 1) (run + 1) (start_of run frame run_start) s
                (ground arith) (ground arith) (ground arith) (omega arith) free)
      ]
    ]

-- What marking the run `[s, s + n)` leaves.
record Marked (n s : ℕ) (bitmap out : Bytes) : Type 0 where
  array : IsBitmap out
  counted : free_below out max_frames + n ≡ free_below bitmap max_frames
  used :
      (g : ℕ) → g < max_frames → is_used out g ≡ (if in_run s n g then true else is_used bitmap g)

Marked-step :
    (n s : ℕ) {bitmap out : Bytes}
    → IsBitmap bitmap
    → s < max_frames
    → is_used bitmap s ≡ false
    → Marked n (s + 1) (mark_used bitmap s) out
    → Marked (suc n) s bitmap out
Marked-step n s v inside first r = record {
  array = r.array;
  counted = ground (arith, r.counted, free_below-mark_used s v inside max_frames first);
  used = λ g hg. ground (arith, r.used g hg, is_used-mark_used s g v inside);
}

mark_used_range-Marked :
    (n s : ℕ) {bitmap : Bytes}
    → IsBitmap bitmap
    → IsFreeRun bitmap s n
    → s + n ≤ max_frames
    → Marked n s bitmap (mark_used_range n s bitmap)
unfolding mark_used_range
mark_used_range-Marked zero s v free h = record {
  array = v;
  counted = omega arith;
  used = λ g hg. ground arith;
}
mark_used_range-Marked (suc n) s {bitmap} v free h =
    let inside : s < max_frames = omega arith in
    Marked-step n s v inside (free s (omega arith) (omega arith)) (
      mark_used_range-Marked n (s + 1) (mark_used-IsBitmap s v)
        (λ g a b. ground (arith, free g, is_used-mark_used s g v inside)) (omega arith))

-- What a successful `alloc_contiguous` of `n` frames has done.
pub record Granted (p : Pmm) (n : ℕ) (q : Pmm) (address : ℕ) : Type 0 where
  pub start : ℕ
  pub address_of : address ≡ start * frame_size
  pub in_range : start + n ≤ max_frames
  pub was_free : IsFreeRun p.bitmap start n
  pub used :
      (g : ℕ)
      → g < max_frames
      → is_used q.bitmap g ≡ (if in_run start n g then true else is_used p.bitmap g)
  pub counted : q.free_count + n ≡ p.free_count
  pub total : q.usable_total ≡ p.usable_total
  pub valid : IsValid q

take_run-Granted :
    {p : Pmm} (n s : ℕ)
    → IsValid p
    → IsFreeRun p.bitmap s n
    → s + n ≤ max_frames
    → (q : Pmm) × (take_run p n (some s) ≡ (q, some (s * frame_size)))
      × Granted p n q (s * frame_size)
take_run-Granted {p} n s v free h = (
  _,
  refl,
  record {
    start = s;
    address_of = refl;
    in_range = h;
    was_free = free;
    used = m.used;
    counted = omega (arith, small, m.counted, v.counted, max_frames-small);
    total = refl;
    valid = record {
      array = m.array;
      counted = omega (arith, small, m.counted, v.counted, max_frames-small);
    };
  },
)
  where
    m : Marked n s p.bitmap (mark_used_range n s p.bitmap)
    m = mark_used_range-Marked n s v.array free h

    small : free_below p.bitmap max_frames ≤ max_frames
    small = free_below-le p.bitmap max_frames

no_run : (bitmap : Bytes) (s : ℕ) → IsFreeRun bitmap s 0
no_run bitmap s g a b = absurd (omega arith)

scanned :
    {p : Pmm} (n : ℕ) (r : Option ℕ)
    → IsValid p
    → scan max_frames p.bitmap n 0 0 0 ≡ r
    → {q : Pmm} {a : ℕ} → take_run p n r ≡ (q, some a)
    → Granted p n q a
scanned n none v found h = cc
scanned {p} n (some s) v found {q} {a} h =
    let run =
      scan-IsFreeRun max_frames p.bitmap n 0 0 0 {s = s} (omega arith) (no_run p.bitmap 0) found in
    let (q', e, granted) = take_run-Granted n s v run.0 (omega (arith, run.1)) in
    subst (λ r. Granted p n r a) (cc) (subst (Granted p n q') (cc) granted)

-- A successful `alloc_contiguous` returns the address of a run of `n` free frames inside the
-- bitmap. Exactly these become used, `FREE` falls by `n`, and the invariant holds again.
pub alloc_contiguous-Granted :
    {p q : Pmm} (n : ℕ) {a : ℕ} → IsValid p → alloc_contiguous p n ≡ (q, some a) → Granted p n q a
unfolding alloc_contiguous
alloc_contiguous-Granted zero v h = cc
alloc_contiguous-Granted {p} (suc n) v h =
    scanned (suc n) (scan max_frames p.bitmap (suc n) 0 0 0) v refl (rw suc-==-zero at h)

-- First fit, so complete: if `n` frames from `s` on are free, `alloc_contiguous` succeeds, and the
-- run that it returns starts at or below `s`. So it fails only if no run of `n` frames is free.
pub alloc_contiguous_first_fit :
    (p : Pmm) (n s : ℕ)
    → 0 < n
    → s + n ≤ max_frames
    → IsFreeRun p.bitmap s n
    → (t : ℕ) × ((alloc_contiguous p n).1 ≡ some (t * frame_size)) × (t ≤ s)
unfolding alloc_contiguous
alloc_contiguous_first_fit p zero s pos h free = absurd (omega arith)
alloc_contiguous_first_fit p (suc n) s pos h free =
    let (t, found, le) =
      scan-le max_frames p.bitmap (suc n) 0 0 0 s (omega arith) (omega arith) (omega arith)
        (omega arith) free in
    (t, rw (suc-==-zero, found), le)

free_below-congr :
    (n : ℕ) (b c : Bytes)
    → ((g : ℕ) → g < n → is_used b g ≡ is_used c g)
    → free_below b n ≡ free_below c n
unfolding free_below
free_below-congr zero b c h = refl
free_below-congr (suc n) b c h =
    ground (arith, h n (omega arith), free_below-congr n b c (λ g hg. h g (omega arith)))

restored :
    (b c d : Bytes) (s n g : ℕ)
    → (s ≤ g → g < s + n → is_used b g ≡ false)
    → is_used c g ≡ (if in_run s n g then true else is_used b g)
    → is_used d g ≡ (if in_run s n g then false else is_used c g)
    → is_used d g ≡ is_used b g
restored b c d s n g was taken given = ground (arith, was)

-- A run that `alloc_contiguous` granted and `free_contiguous` took back leaves every frame, `FREE`
-- and the total as they were.
pub free_contiguous-alloc_contiguous :
    {p q : Pmm} (n : ℕ) {a : ℕ}
    → IsValid p
    → alloc_contiguous p n ≡ (q, some a)
    → let r = free_contiguous q a n in
      ((g : ℕ) → g < max_frames → is_used r.bitmap g ≡ is_used p.bitmap g)
      × (r.free_count ≡ p.free_count)
      × (r.usable_total ≡ p.usable_total)
free_contiguous-alloc_contiguous {p} {q} n {a} v h = rw granted.address_of (same, count, total)
  where
    granted : Granted p n q a
    granted = alloc_contiguous-Granted n v h

    r : Pmm
    r = free_contiguous q (granted.start * frame_size) n

    back :
        IsValid r
        × ((g : ℕ)
            → g < max_frames
            → is_used r.bitmap g ≡ (if in_run granted.start n g then false else is_used q.bitmap g))
        × (r.usable_total ≡ q.usable_total)
    back = free_contiguous_lem granted.start n granted.valid

    same : (g : ℕ) → g < max_frames → is_used r.bitmap g ≡ is_used p.bitmap g
    same g hg =
        restored p.bitmap q.bitmap r.bitmap granted.start n g (granted.was_free g)
          (granted.used g hg) (back.1 g hg)

    count : r.free_count ≡ p.free_count
    count = back.0.counted ∙ free_below-congr max_frames r.bitmap p.bitmap same ∙ sym v.counted

    total : r.usable_total ≡ p.usable_total
    total = back.2 ∙ granted.total
