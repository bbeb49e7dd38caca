-- ===== src/Bits/Low.antt =====
-- A word below a power of two, or-ed with a multiple of that power: the sum.
use native.Mathlib.Nat.{pow-suc, one-le-pow}
use fake_linker.Prelude.{ℕ, zero, suc, ◌+◌, ◌-◌, ◌*◌, ◌/◌, ◌^◌, ◌≤◌, ◌<◌, bit_or, ◌≡◌, ap, arith}
use fake_linker.Bits.Digit.{bit_or_digit}
use fake_linker.Bits.Align.{two-pow-add, mul-two-pow, mask-eq-ones, word}
use Prim.Native.Nat.{bit_or-bitwise}

zero-bit_or : (b : ℕ) → bit_or 0 b ≡ b
zero-bit_or b = bit_or-bitwise 0 b

pub bit_or-low : (k a b : ℕ) → a < 2 ^ k → bit_or a (b * 2 ^ k) ≡ a + b * 2 ^ k
bit_or-low zero zero b h = omega (arith, zero-bit_or (b * 2 ^ 0))
bit_or-low zero (suc a) b h = absurd (omega arith)
bit_or-low (suc k) a b h =
    let double = mul-two-pow b k in
    let half : b * 2 ^ suc k / 2 ≡ b * 2 ^ k = omega (arith, double) in
    let low : a / 2 < 2 ^ k = omega (arith, h, pow-suc 2 k) in
    omega (
      arith,
      bit_or_digit a (b * 2 ^ suc k),
      ap (bit_or (a / 2)) half,
      bit_or-low k (a / 2) b low,
      double,
    )

pub two-pow-le : (m k : ℕ) → 2 ^ k ≤ 2 ^ (m + k)
two-pow-le m k = grind (arith, two-pow-add m k, one-le-pow m 2)

-- The bits from `k` on, all set.
pub bit_or-high : (k a : ℕ) → k ≤ 64 → a < 2 ^ k → bit_or a (word - 2 ^ k) ≡ a + (word - 2 ^ k)
bit_or-high k a hk h =
    let mask = mask-eq-ones (64 - k) k (omega arith) in
    omega (arith, ap (bit_or a) mask, mask, bit_or-low k a (2 ^ (64 - k) - 1) h)
