-- ===== src/Blocks/Pages.antt =====
-- The pages of the allocator, and the page of a block.
use fake_linker.Prelude.{
  ℕ, ◌+◌, ◌-◌, ◌%◌, ◌^◌, ◌<◌, ◌≡◌, ◌∙◌, inl, inr, Bool, true, false, ◌&&◌, some, List, [], ◌∷◌,
  arith, ltb, leb, Bool-cases, any,
}
use native.Mathlib.Nat.{div-mul-le_self, add-mod_right, mod-eq_of_lt}
use fake_linker.Blocks.{get_block_alloca_size, blocks_of_page, in_page, find_page, is_aligned}
use fake_linker.Blocks.Runs.{in_run}

module _ (api block_size : ℕ) where
  pub size-bounds :
      (leb 4096 (get_block_alloca_size api) && ltb (get_block_alloca_size api) (2 ^ 20)) ≡ true
  unfolding get_block_alloca_size
  size-bounds = ground arith

  -- `block` is one of the blocks of the page.
  abbrev pub is_block : ℕ → ℕ → Bool
  is_block block page = in_run block_size block (page + 16, blocks_of_page api block_size)

  abbrev pub is_mapped : ℕ → List ℕ → Bool
  is_mapped block pages = any (λ page. in_page api block page) pages

  abbrev pub is_block_of : ℕ → List ℕ → Bool
  is_block_of block pages = any (λ page. is_block block page) pages

  -- No two pages overlap.
  abbrev pub ArePages : List ℕ → Type 0
  ArePages [] = Unit
  ArePages (page ∷ pages) =
      ((b : ℕ) → in_page api b page ≡ true → is_mapped b pages ≡ false) × ArePages pages

  pub is_block-in_page :
      (b page : ℕ)
      → is_block b page ≡ true
      → (in_page api b page ≡ true) × (leb (page + 16) b ≡ true) × (b - (page + 16) < 2 ^ 20)
  is_block-in_page b page inside =
      let most = div-mul-le_self (get_block_alloca_size api - 16) block_size in
      (
        ground (arith, inside, most, size-bounds),
        ground (arith, inside),
        ground (arith, inside, most, size-bounds),
      )

  pub is_block_of-is_mapped :
      (b : ℕ) (pages : List ℕ) → is_block_of b pages ≡ true → is_mapped b pages ≡ true
  is_block_of-is_mapped b [] inside = absurd (ground arith)
  is_block_of-is_mapped b (page ∷ pages) inside = elim (Bool-cases (is_block b page)) [
    | inl here ↦ ground (arith, (is_block-in_page b page here).0)
    | inr other ↦ ground (arith, is_block_of-is_mapped b pages (ground (arith, inside, other)))
  ]

  -- A block of a page is found there.
  pub find_page_lem :
      (b : ℕ) (pages : List ℕ)
      → ArePages pages
      → is_block_of b pages ≡ true
      → (page : ℕ) × (find_page api b pages ≡ some page) × (is_block b page ≡ true)
  unfolding find_page
  find_page_lem b [] are inside = absurd (ground arith)
  find_page_lem b (page ∷ pages) are inside = elim (Bool-cases (is_block b page)) [
    | inl here ↦ (page, ground (arith, (is_block-in_page b page here).0), here)
    | inr other ↦
        let inside' : is_block_of b pages ≡ true = ground (arith, inside, other) in
        let mapped = is_block_of-is_mapped b pages inside' in
        let (found, done, is) = find_page_lem b pages are.1 inside' in
        (found, ground (arith, done, mapped, are.0 b), is)
  ]

  pub is_aligned_of_block :
      (b page : ℕ) → is_block b page ≡ true → is_aligned b page block_size ≡ true
  unfolding is_aligned
  is_aligned_of_block b page inside =
      let (_, above, near) = is_block-in_page b page inside in
      let d = b - (page + 16) in
      let split : b + 2 ^ 64 - (page + 16) ≡ d + 2 ^ 64 = ground (arith, above) in
      let low : (d + 2 ^ 64) % 2 ^ 64 ≡ d =
        add-mod_right d (2 ^ 64) ∙ mod-eq_of_lt (omega (arith, near)) in
      rw (split, low) (ground (arith, inside))
