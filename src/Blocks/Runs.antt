-- ===== src/Blocks/Runs.antt =====
-- The blocks of a run of free blocks.
use fake_linker.Prelude.{
  ℕ, zero, suc, ◌+◌, ◌-◌, ◌*◌, ◌%◌, ◌≤◌, ◌≡◌, inl, inr, Bool, true, false, not, ◌&&◌, ◌||◌, List,
  [], ◌∷◌, arith, ltb, leb, ◌==◌, ==→eq, Bool-cases, if-cases,
}
use native.Mathlib.Nat.{suc-mul, zero-mul, mod-eq_of_lt, mod-eq-sub-mod}
use fake_linker.Blocks.{rest_of_run}

-- `block` is one of the blocks of the run.
abbrev pub in_run : ℕ → ℕ → ℕ × ℕ → Bool
in_run block_size block (first, count) =
    leb first block && ltb block (first + count * block_size) && ((block - first) % block_size == 0)

abbrev pub is_free : ℕ → ℕ → List (ℕ × ℕ) → Bool
is_free block_size block [] = false
is_free block_size block (run ∷ runs) = in_run block_size block run || is_free block_size block runs

-- No block is in two runs, and each run has a block.
abbrev pub AreRuns : ℕ → List (ℕ × ℕ) → Type 0
AreRuns block_size [] = Unit
AreRuns block_size (run ∷ runs) =
    (1 ≤ run.1)
    × ((b : ℕ) → in_run block_size b run ≡ true → is_free block_size b runs ≡ false)
    × AreRuns block_size runs

module _ (block_size : ℕ) (pos : 1 ≤ block_size) where
  pub in_run-split :
      (b first n : ℕ)
      → in_run block_size b (first, suc n)
        ≡ (b == first) || in_run block_size b (first + block_size, n)
  in_run-split b first n = elim (Bool-cases (ltb b (first + block_size))) [
    | inl near ↦ elim (Bool-cases (leb first b)) [
      | inl behind ↦
          let rest : (b - first) % block_size ≡ b - first = mod-eq_of_lt (ground arith) in
          ground (arith, rest, suc-mul n block_size)
      | inr before ↦ ground (arith, before)
    ]
    | inr far ↦
        let rest : (b - first) % block_size ≡ (b - first - block_size) % block_size =
          mod-eq-sub-mod (ground arith) in
        let at : b - first - block_size ≡ b - (first + block_size) = omega arith in
        ground (arith, rest, at, suc-mul n block_size)
  ]

  pub in_run-none : (b first : ℕ) → in_run block_size b (first, 0) ≡ false
  in_run-none b first = ground (arith, zero-mul block_size)

  pub in_run-one : (b first : ℕ) → in_run block_size b (first, 1) ≡ (b == first)
  in_run-one b first = ground (arith, in_run-split b first 0, in_run-none b (first + block_size))

  pub in_run_first : (first n : ℕ) → in_run block_size first (first, suc n) ≡ true
  in_run_first first n = ground (arith, in_run-split first first n)

  not_behind : (first n : ℕ) → in_run block_size first (first + block_size, n) ≡ false
  not_behind first n = ground arith

  -- What is left of the free list after its first block is taken.
  pub is_free-rest_of_run :
      (b first n : ℕ) (runs : List (ℕ × ℕ))
      → AreRuns block_size ((first, n) ∷ runs)
      → is_free block_size b (rest_of_run block_size (first, n) runs)
        ≡ is_free block_size b ((first, n) ∷ runs) && not (b == first)
  is_free-rest_of_run b first zero runs are = absurd (omega (arith, are.0))
  is_free-rest_of_run b first (suc zero) runs are = ground (arith, in_run-one b first, are.1 b)
  is_free-rest_of_run b first (suc (suc n)) runs are =
      ground (arith, in_run-split b first (suc n), not_behind first (suc n), ==→eq b first, are.1 b)

  pub AreRuns-rest_of_run :
      (first n : ℕ) (runs : List (ℕ × ℕ))
      → AreRuns block_size ((first, n) ∷ runs)
      → AreRuns block_size (rest_of_run block_size (first, n) runs)
  AreRuns-rest_of_run first zero runs are = absurd (omega (arith, are.0))
  AreRuns-rest_of_run first (suc n) runs are =
      let less : suc n - 1 ≡ n = omega arith in
      if-cases (AreRuns block_size) (ltb 1 (suc n))
        (λ more. (
          ground arith,
          λ b inside. are.1 b (ground (arith, in_run-split b first n, inside, less)),
          are.2,
        ))
        (λ _. are.2)
