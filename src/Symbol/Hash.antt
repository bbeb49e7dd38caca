-- ===== src/Symbol/Hash.antt =====
-- The GNU hash without the arithmetic of 32-bit words.
use fake_linker.Prelude.{ℕ, ◌+◌, ◌*◌, ◌%◌, ◌≡◌, refl, ap, ◌∙◌, [], ◌∷◌, arith, Bytes}
use fake_linker.Symbol.{word32, gnu_hash_from, calculate_gnu_hash}

-- The polynomial of base 33 that the hash stands for, on numbers without bounds.
abbrev pub polynomial : ℕ → Bytes → ℕ
polynomial h [] = h
polynomial h (c ∷ name) = polynomial (h * 33 + c) name

gnu_hash_from-polynomial :
    (h : ℕ) (name : Bytes) → gnu_hash_from (h % word32) name ≡ polynomial h name % word32
unfolding gnu_hash_from
gnu_hash_from-polynomial h [] = refl
gnu_hash_from-polynomial h (c ∷ name) =
    let step : (h % word32 + (h % word32 * 32 % word32 + c) % word32) % word32
        ≡ (h * 33 + c) % word32 =
      omega arith in
    ap (λ (k : ℕ). gnu_hash_from k name) step ∙ gnu_hash_from-polynomial (h * 33 + c) name

-- `calculate_gnu_hash` is the polynomial of the bytes with base 33 and start 5381, modulo 2^32.
pub calculate_gnu_hash-polynomial :
    (name : Bytes) → calculate_gnu_hash name ≡ polynomial 5381 name % word32
unfolding calculate_gnu_hash
calculate_gnu_hash-polynomial name = gnu_hash_from-polynomial 5381 name
