-- ===== src/Base/Bits.antt =====
-- Single-bit facts about bytes, by evaluation over all bytes and positions.
use Prim.Native.Nat.{ℕ, zero, suc, ◌-◌, ◌^◌, ◌<◌, bit_and, bit_or}
use mathlib.Core.Path.{◌≡◌, refl}
use mathlib.Core.Bool.{Bool, true, false, not, ◌&&◌}
use native.Mathlib.Omega.{arith}
use coeleo_os.Base.Tests.{◌==◌, ltb, if◌then◌else◌, ltb→lt}

-- Does a test pass at every number under a bound?
passes : (ℕ → Bool) → ℕ → Bool
passes test zero = true
passes test (suc bound) = if test bound then passes test bound else false

passes_at :
    (test : ℕ → Bool) (bound : ℕ) → passes test bound ≡ true → (x : ℕ) → x < bound → test x ≡ true
unfolding passes
passes_at test zero all x below = absurd (omega arith)
passes_at test (suc bound) all x below =
    ground (arith, λ (h : passes test bound ≡ true). passes_at test bound h x)

-- `b & (1 << k) != 0`.
unfoldable pub has_bit : ℕ → ℕ → Bool
has_bit b k = not (bit_and b (2 ^ k) == 0)

-- `b | (1 << k)` and `b & !(1 << k)` on a `u8`.
unfoldable pub with_bit : ℕ → ℕ → ℕ
with_bit b k = bit_or b (2 ^ k)

unfoldable pub without_bit : ℕ → ℕ → ℕ
without_bit b k = bit_and b (255 - 2 ^ k)

same : Bool → Bool → Bool
same true b = b
same false b = not b

same_eq : (a b : Bool) → same a b ≡ true → a ≡ b
unfolding same
same_eq true b h = ground arith
same_eq false b h = ground arith

with_bit_ok : ℕ → ℕ → ℕ → Bool
unfolding has_bit with_bit same
with_bit_ok b k j =
    same (has_bit (with_bit b k) j) (if j == k then true else has_bit b j) && ltb (with_bit b k) 256

without_bit_ok : ℕ → ℕ → ℕ → Bool
unfolding has_bit without_bit same
without_bit_ok b k j =
    same (has_bit (without_bit b k) j) (if j == k then false else has_bit b j)
    && ltb (without_bit b k) 256

with_bit_table : passes (λ b. passes (λ k. passes (with_bit_ok b k) 8) 8) 256 ≡ true
unfolding passes with_bit_ok
with_bit_table = refl

without_bit_table : passes (λ b. passes (λ k. passes (without_bit_ok b k) 8) 8) 256 ≡ true
unfolding passes without_bit_ok
without_bit_table = refl

from_table :
    (p : ℕ → ℕ → ℕ → Bool)
    → passes (λ b. passes (λ k. passes (p b k) 8) 8) 256 ≡ true
    → (b k j : ℕ) → b < 256
    → k < 8
    → j < 8
    → p b k j ≡ true
from_table p t b k j hb hk hj =
    passes_at (p b k) 8
      (passes_at (λ k. passes (p b k) 8) 8
        (passes_at (λ b. passes (λ k. passes (p b k) 8) 8) 256 t b hb) k hk)
      j hj

and_left : (a b : Bool) → (a && b) ≡ true → a ≡ true
and_left a b h = ground arith

and_right : (a b : Bool) → (a && b) ≡ true → b ≡ true
and_right a b h = ground arith

-- Setting a bit of a byte sets that bit alone.
pub has_bit-with_bit :
    (b k j : ℕ)
    → b < 256
    → k < 8
    → j < 8
    → has_bit (with_bit b k) j ≡ (if j == k then true else has_bit b j)
unfolding with_bit_ok
has_bit-with_bit b k j hb hk hj =
    same_eq _ _ (and_left _ _ (from_table with_bit_ok with_bit_table b k j hb hk hj))

-- Clearing a bit of a byte clears that bit alone.
pub has_bit-without_bit :
    (b k j : ℕ)
    → b < 256
    → k < 8
    → j < 8
    → has_bit (without_bit b k) j ≡ (if j == k then false else has_bit b j)
unfolding without_bit_ok
has_bit-without_bit b k j hb hk hj =
    same_eq _ _ (and_left _ _ (from_table without_bit_ok without_bit_table b k j hb hk hj))

pub with_bit-lt : (b k : ℕ) → b < 256 → k < 8 → with_bit b k < 256
unfolding with_bit_ok
with_bit-lt b k hb hk =
    ltb→lt _ 256 (and_right _ _ (from_table with_bit_ok with_bit_table b k 0 hb hk (omega arith)))

pub without_bit-lt : (b k : ℕ) → b < 256 → k < 8 → without_bit b k < 256
unfolding without_bit_ok
without_bit-lt b k hb hk =
    ltb→lt _ 256
      (and_right _ _ (from_table without_bit_ok without_bit_table b k 0 hb hk (omega arith)))
