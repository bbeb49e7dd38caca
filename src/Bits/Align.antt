-- ===== src/Bits/Align.antt =====
-- `align_down` and `align_up` of include/fakelinker/macros.h on 64-bit words: rounding to a
-- multiple of a power of two by a mask.
use native.Mathlib.Nat.{
  pow-suc, one-le-pow, add-zero, add-suc, div-lt_iff_lt-mul, div-add-mod', mod-lt, mod-eq_of_lt,
}
use fake_linker.Prelude.{
  ℕ, zero, suc, ◌+◌, ◌-◌, ◌*◌, ◌/◌, ◌%◌, ◌^◌, ◌≤◌, ◌<◌, bit_and, ◌≡◌, sym, ◌∙◌, ap, arith,
}
use fake_linker.Bits.Laws.{bit_and-zero}
use fake_linker.Bits.Digit.{bit_and_digit}

-- The modulus of a 64-bit word.
abbrev pub word : ℕ
word = 2 ^ 64

-- `p & ~(align - 1)`
unfoldable pub align_down : ℕ → ℕ → ℕ
align_down p align = bit_and p (word - align)

-- `(p + align - 1) & ~(align - 1)`, the sum wrapping
unfoldable pub align_up : ℕ → ℕ → ℕ
align_up p align = bit_and ((p + align - 1) % word) (word - align)

bit_and-ones : (m q : ℕ) → q < 2 ^ m → bit_and q (2 ^ m - 1) ≡ q
bit_and-ones zero q h = omega (arith, bit_and-zero q)
bit_and-ones (suc m) q h = ground (
  arith,
  pow-suc 2 m,
  one-le-pow m 2,
  bit_and_digit q (2 ^ suc m - 1),
  bit_and-ones m (q / 2) (omega (arith, pow-suc 2 m)),
)

pub mul-two-pow : (q k : ℕ) → q * 2 ^ suc k ≡ 2 * (q * 2 ^ k)
mul-two-pow q k = omega (arith, ap (λ (t : ℕ). q * t) (pow-suc 2 k))

-- The mask of `m` ones above `k` zeros keeps the digits above the lowest `k`.
bit_and-high :
    (k m q r : ℕ)
    → q < 2 ^ m
    → r < 2 ^ k
    → bit_and (q * 2 ^ k + r) ((2 ^ m - 1) * 2 ^ k) ≡ q * 2 ^ k
bit_and-high zero m q r hq hr =
    let e : q * 2 ^ 0 + r ≡ q = omega arith in
    let f : (2 ^ m - 1) * 2 ^ 0 ≡ 2 ^ m - 1 = omega arith in
    rw (e, f) (omega (arith, bit_and-ones m q hq))
bit_and-high (suc k) m q r hq hr = ground (
  arith,
  bit_and_digit (q * 2 ^ suc k + r) ((2 ^ m - 1) * 2 ^ suc k),
  mul-two-pow q k,
  mul-two-pow (2 ^ m - 1) k,
  bit_and-high k m q (r / 2) hq (omega (arith, pow-suc 2 k)),
)

pub two-pow-add : (m k : ℕ) → 2 ^ (m + k) ≡ 2 ^ m * 2 ^ k
two-pow-add m zero = rw add-zero (omega arith)
two-pow-add m (suc k) =
    rw (add-suc, pow-suc) (omega (arith, two-pow-add m k, mul-two-pow (2 ^ m) k))

pred-mul : (a t : ℕ) → 1 ≤ a → (a - 1) * t + t ≡ a * t
pred-mul zero t h = absurd (omega arith)
pred-mul (suc a) t h = let e : suc a - 1 ≡ a = omega arith in rw e (omega arith)

word_split : (m k : ℕ) → m + k ≡ 64 → word ≡ 2 ^ m * 2 ^ k
word_split m k h = rw h at (two-pow-add m k)

-- The mask of `align_down` is ones above zeros.
pub mask-eq-ones : (m k : ℕ) → m + k ≡ 64 → word - 2 ^ k ≡ (2 ^ m - 1) * 2 ^ k
mask-eq-ones m k h =
    omega (arith, word_split m k h, pred-mul (2 ^ m) (2 ^ k) (one-le-pow m 2 (omega arith)))

align_down-floor' : (m k p : ℕ) → m + k ≡ 64 → p < word → align_down p (2 ^ k) ≡ p / 2 ^ k * 2 ^ k
unfolding align_down
align_down-floor' m k p h hp =
    let pos : 0 < 2 ^ k = one-le-pow k 2 (omega arith) in
    let below : p / 2 ^ k < 2 ^ m = (div-lt_iff_lt-mul pos).1 (omega (arith, word_split m k h)) in
    let digits : p / 2 ^ k * 2 ^ k + p % 2 ^ k ≡ p = div-add-mod' p (2 ^ k) in
    ap (bit_and p) (mask-eq-ones m k h)
    ∙ ap (λ (t : ℕ). bit_and t ((2 ^ m - 1) * 2 ^ k)) (sym digits)
    ∙ bit_and-high k m (p / 2 ^ k) (p % 2 ^ k) below (mod-lt p pos)

-- `align_down` rounds down to a multiple of a power of two.
pub align_down-floor : (k p : ℕ) → k ≤ 64 → p < word → align_down p (2 ^ k) ≡ p / 2 ^ k * 2 ^ k
align_down-floor k p hk = align_down-floor' (64 - k) k p (omega arith)

-- `align_up` rounds up, where the sum does not wrap.
pub align_up-floor :
    (k p : ℕ) → k ≤ 64 → p + 2 ^ k - 1 < word → align_up p (2 ^ k) ≡ (p + 2 ^ k - 1) / 2 ^ k * 2 ^ k
unfolding align_up align_down
align_up-floor k p hk h =
    ap (λ (t : ℕ). bit_and t (word - 2 ^ k)) (mod-eq_of_lt h) ∙ align_down-floor k _ hk h

pub align_down-le : (k p : ℕ) → k ≤ 64 → p < word → align_down p (2 ^ k) ≤ p
align_down-le k p hk h = omega (arith, align_down-floor k p hk h, div-add-mod' p (2 ^ k))

pub le-align_up : (k p : ℕ) → k ≤ 64 → p + 2 ^ k - 1 < word → p ≤ align_up p (2 ^ k)
le-align_up k p hk h =
    let pos : 0 < 2 ^ k = one-le-pow k 2 (omega arith) in
    omega (
      arith,
      align_up-floor k p hk h,
      div-add-mod' (p + 2 ^ k - 1) (2 ^ k),
      mod-lt (p + 2 ^ k - 1) pos,
    )
