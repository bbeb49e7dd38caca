-- ===== src/Bits/Laws.antt =====
-- Laws of `&` and `|` on words of any width, from the recursion on binary digits that the native
-- operations stand for.
use Prim.Native.Nat.{min, max, bit_and-bitwise}
use fake_linker.Bits.Digit.{bit_and_digit, bit_or_digit}
use fake_linker.Prelude.{ℕ, zero, suc, ◌+◌, ◌/◌, ◌%◌, ◌≤◌, bit_and, bit_or, ◌≡◌, refl, arith, sym}

-- Each law goes from `a / 2` to `a`; `n` bounds the words, so that the recursion is structural.
bit_or-zero_below : (n a : ℕ) → a ≤ n → bit_or a 0 ≡ a
bit_or-zero_below zero zero h = refl
bit_or-zero_below zero (suc a) h = absurd (omega arith)
bit_or-zero_below (suc n) a h =
    omega (arith, bit_or_digit a 0, bit_or-zero_below n (a / 2) (omega arith))

bit_and-zero_below : (n a : ℕ) → a ≤ n → bit_and a 0 ≡ 0
bit_and-zero_below zero zero h = refl
bit_and-zero_below zero (suc a) h = absurd (omega arith)
bit_and-zero_below (suc n) a h =
    omega (arith, bit_and_digit a 0, bit_and-zero_below n (a / 2) (omega arith))

pub bit_or-zero : (a : ℕ) → bit_or a 0 ≡ a
bit_or-zero a = bit_or-zero_below a a (omega arith)

pub bit_and-zero : (a : ℕ) → bit_and a 0 ≡ 0
bit_and-zero a = bit_and-zero_below a a (omega arith)

bit_and_self_below : (n a : ℕ) → a ≤ n → bit_and a a ≡ a
bit_and_self_below zero zero h = refl
bit_and_self_below zero (suc a) h = absurd (omega arith)
bit_and_self_below (suc n) a h =
    omega (arith, bit_and_digit a a, bit_and_self_below n (a / 2) (omega arith))

pub bit_and_self : (a : ℕ) → bit_and a a ≡ a
bit_and_self a = bit_and_self_below a a (omega arith)

pub zero-bit_and : (a : ℕ) → bit_and 0 a ≡ 0
zero-bit_and a = bit_and-bitwise 0 a

half-bit_and : (a b : ℕ) → bit_and a b / 2 ≡ bit_and (a / 2) (b / 2)
half-bit_and a b = omega (arith, bit_and_digit a b)

low-bit_and : (a b : ℕ) → bit_and a b % 2 ≡ min (a % 2) (b % 2)
low-bit_and a b = omega (arith, bit_and_digit a b)

half-bit_or : (a b : ℕ) → bit_or a b / 2 ≡ bit_or (a / 2) (b / 2)
half-bit_or a b = omega (arith, bit_or_digit a b)

low-bit_or : (a b : ℕ) → bit_or a b % 2 ≡ max (a % 2) (b % 2)
low-bit_or a b = omega (arith, bit_or_digit a b)

-- (a & b) & c == a & (b & c)
bit_and_assoc_below : (n a b c : ℕ) → a ≤ n → bit_and (bit_and a b) c ≡ bit_and a (bit_and b c)
bit_and_assoc_below zero zero b c h = rw (zero-bit_and, zero-bit_and) (sym (zero-bit_and _))
bit_and_assoc_below zero (suc a) b c h = absurd (omega arith)
bit_and_assoc_below (suc n) a b c h = ground (
  arith,
  bit_and_digit (bit_and a b) c,
  bit_and_digit a (bit_and b c),
  half-bit_and a b,
  low-bit_and a b,
  half-bit_and b c,
  low-bit_and b c,
  bit_and_assoc_below n (a / 2) (b / 2) (c / 2) (omega arith),
)

pub bit_and_assoc : (a b c : ℕ) → bit_and (bit_and a b) c ≡ bit_and a (bit_and b c)
bit_and_assoc a b c = bit_and_assoc_below a a b c (omega arith)

-- (a | b) & c == (a & c) | (b & c)
bit_and-bit_or_below :
    (n a b c : ℕ) → a ≤ n → b ≤ n → bit_and (bit_or a b) c ≡ bit_or (bit_and a c) (bit_and b c)
bit_and-bit_or_below zero zero zero c p q = simp zero-bit_and
bit_and-bit_or_below zero zero (suc b) c p q = absurd (omega arith)
bit_and-bit_or_below zero (suc a) b c p q = absurd (omega arith)
bit_and-bit_or_below (suc n) a b c p q = ground (
  arith,
  bit_and_digit (bit_or a b) c,
  bit_or_digit (bit_and a c) (bit_and b c),
  half-bit_or a b,
  low-bit_or a b,
  half-bit_and a c,
  low-bit_and a c,
  half-bit_and b c,
  low-bit_and b c,
  bit_and-bit_or_below n (a / 2) (b / 2) (c / 2) (omega arith) (omega arith),
)

pub bit_and-bit_or : (a b c : ℕ) → bit_and (bit_or a b) c ≡ bit_or (bit_and a c) (bit_and b c)
bit_and-bit_or a b c = bit_and-bit_or_below (a + b) a b c (omega arith) (omega arith)

-- A mask that was or-ed in is there.
bit_and-bit_or_self_below : (n a m : ℕ) → a ≤ n → m ≤ n → bit_and (bit_or a m) m ≡ m
bit_and-bit_or_self_below zero zero zero p q = refl
bit_and-bit_or_self_below zero zero (suc m) p q = absurd (omega arith)
bit_and-bit_or_self_below zero (suc a) m p q = absurd (omega arith)
bit_and-bit_or_self_below (suc n) a m p q = ground (
  arith,
  bit_and_digit (bit_or a m) m,
  half-bit_or a m,
  low-bit_or a m,
  bit_and-bit_or_self_below n (a / 2) (m / 2) (omega arith) (omega arith),
)

pub bit_and-bit_or_self : (a m : ℕ) → bit_and (bit_or a m) m ≡ m
bit_and-bit_or_self a m = bit_and-bit_or_self_below (a + m) a m (omega arith) (omega arith)

-- A mask that was cut out is gone, and one apart from the cut stays as it was.
pub bit_and_cut : (a c m : ℕ) → bit_and c m ≡ 0 → bit_and (bit_and a c) m ≡ 0
bit_and_cut a c m h = rw (bit_and_assoc, h, bit_and-zero)

pub bit_and_keep : (a c m : ℕ) → bit_and c m ≡ m → bit_and (bit_and a c) m ≡ bit_and a m
bit_and_keep a c m h = rw (bit_and_assoc, h)

-- Or-ing in a mask changes nothing apart from it.
pub bit_and-bit_or_apart : (a b m : ℕ) → bit_and b m ≡ 0 → bit_and (bit_or a b) m ≡ bit_and a m
bit_and-bit_or_apart a b m h = rw (bit_and-bit_or, h, bit_or-zero)
