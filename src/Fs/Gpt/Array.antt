-- ===== src/Fs/Gpt/Array.antt =====
-- What `write_array` of gpt.rs leaves on the disk.
use coeleo_os.Base.{
  ℕ, zero, suc, ◌+◌, ◌≤◌, ◌<◌, ◌≡◌, refl, ap, subst, ◌∙◌, arith, some, ◌==◌, ==→eq, eq→==,
  if◌then◌else◌, Bool-cases, inl, inr,
}
use coeleo_os.Base.Bytes.{Bytes}
use coeleo_os.Fs.Disk.{Disk, put_sector, write-some}
use coeleo_os.Fs.Gpt.{array_sector, write_array}

module _ (start : ℕ) (entry : Bytes) where
  -- The disk once sectors `i` to `i + left` of the array are written.
  pub filled : ℕ → ℕ → Disk → Disk
  filled zero i d = d
  filled (suc left) i d = filled left (i + 1) (put_sector d (start + i) (array_sector i entry))

  pub filled-capacity : (left i : ℕ) (d : Disk) → (filled left i d).capacity ≡ d.capacity
  unfolding filled
  filled-capacity zero i d = refl
  filled-capacity (suc left) i d =
      filled-capacity left (i + 1) (put_sector d (start + i) (array_sector i entry))

  pub write_array-filled :
      (left i : ℕ) (d : Disk)
      → start + i + left ≤ d.capacity
      → write_array left i start entry d ≡ some (filled left i d)
  unfolding write_array filled
  write_array-filled zero i d h = refl
  write_array-filled (suc left) i d h =
      rw (write-some d (start + i) (array_sector i entry) (omega arith), write_array)
        (write_array-filled left (i + 1) (put_sector d (start + i) (array_sector i entry))
          (omega arith))

  -- Sectors below the part to be written stay.
  pub filled-below :
      (left i : ℕ) (d : Disk) (k : ℕ) → k < start + i → (filled left i d).sector k ≡ d.sector k
  unfolding filled
  filled-below zero i d k h = refl
  filled-below (suc left) i d k h =
      ground (arith, filled-below left (i + 1) (put_sector d (start + i) (array_sector i entry)) k)

  -- Sector `j` of the array.
  pub filled-at :
      (left i : ℕ) (d : Disk) (j : ℕ)
      → i ≤ j
      → j < i + left
      → (filled left i d).sector (start + j) ≡ array_sector j entry
  unfolding filled
  filled-at zero i d j h lt = absurd (omega arith)
  filled-at (suc left) i d j h lt = elim (Bool-cases (i == j)) [
    | inl e ↦
        subst
          (λ j.
            (filled left (i + 1) (put_sector d (start + i) (array_sector i entry))).sector
              (start + j)
            ≡ array_sector j entry)
          (==→eq i j e) here
    | inr e ↦
        filled-at left (i + 1) (put_sector d (start + i) (array_sector i entry)) j
          (ground (arith, e)) (omega arith)
  ]
    where
      here :
          (filled left (i + 1) (put_sector d (start + i) (array_sector i entry))).sector (start + i)
          ≡ array_sector i entry
      here =
          filled-below left (i + 1) (put_sector d (start + i) (array_sector i entry)) (start + i)
            (omega arith)
          ∙ ap (λ b. if b then array_sector i entry else d.sector (start + i))
              (eq→== (start + i) (start + i) refl)
