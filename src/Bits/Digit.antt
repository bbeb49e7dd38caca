-- ===== src/Bits/Digit.antt =====
-- One binary digit of `&` and `|`: the fuel of the native recursion dropped.
use Prim.Native.Nat.{min, max, digits, bit_and-bitwise, bit_or-bitwise}
use fake_linker.Prelude.{
  ℕ, zero, suc, ◌+◌, ◌*◌, ◌/◌, ◌%◌, ◌≤◌, bit_and, bit_or, ◌≡◌, refl, ap, arith,
}

-- What is left when the first word runs out, and the operation on two digits, are variables.
module _ (rest : ℕ → ℕ) (op : ℕ → ℕ → ℕ) where
  digits_agree : (k l a b : ℕ) → a ≤ k → a ≤ l → digits rest op k a b ≡ digits rest op l a b
  digits_agree zero zero a b p q = refl
  digits_agree zero (suc l) zero b p q = refl
  digits_agree (suc k) zero zero b p q = refl
  digits_agree (suc k) (suc l) zero b p q = refl
  digits_agree zero l (suc a) b p q = absurd (omega arith)
  digits_agree (suc k) zero (suc a) b p q = absurd (omega arith)
  digits_agree (suc k) (suc l) (suc a) b p q =
      ap (λ t. t * 2 + op (suc a % 2) (b % 2))
        (digits_agree k l (suc a / 2) (b / 2) (omega arith) (omega arith))

  digits_step :
      (a b : ℕ)
      → digits rest op (suc a) (suc a) b
        ≡ digits rest op (suc a / 2) (suc a / 2) (b / 2) * 2 + op (suc a % 2) (b % 2)
  digits_step a b =
      ap (λ t. t * 2 + op (suc a % 2) (b % 2))
        (digits_agree a (suc a / 2) (suc a / 2) (b / 2) (omega arith) (omega arith))

pub bit_and_digit : (a b : ℕ) → bit_and a b ≡ bit_and (a / 2) (b / 2) * 2 + min (a % 2) (b % 2)
bit_and_digit zero b = simp bit_and-bitwise (omega arith)
bit_and_digit (suc a) b = simp bit_and-bitwise (digits_step (λ _. 0) min a b)

pub bit_or_digit : (a b : ℕ) → bit_or a b ≡ bit_or (a / 2) (b / 2) * 2 + max (a % 2) (b % 2)
bit_or_digit zero b = simp bit_or-bitwise (omega arith)
bit_or_digit (suc a) b = simp bit_or-bitwise (digits_step (λ y. y) max a b)
