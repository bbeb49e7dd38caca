-- ===== src/Blocks/Pool.antt =====
-- The allocator serves the linked lists: a block is handed out once until it is given back.
use fake_linker.Prelude.{
  ℕ, zero, suc, ◌+◌, ◌≤◌, ◌≡◌, refl, sym, ap, ◌∙◌, ◌≢◌, inl, inr, Bool, true, false, not, ◌&&◌,
  ◌||◌, some, List, [], ◌∷◌, arith, ◌==◌, ==→eq, Bool-cases,
}
use mathlib.Core.Path.{subst}
use fake_linker.Links.{Allocator}
use fake_linker.Blocks.{
  Blocks, first_block, create_new_page, take_block, rest_of_run, blocks_of_page, alloc, free,
  in_page, is_aligned, count_down,
}
use fake_linker.Blocks.Runs.{
  in_run, is_free, AreRuns, in_run-one, in_run_first, is_free-rest_of_run, AreRuns-rest_of_run,
}
use fake_linker.Blocks.Pages.{
  is_block, is_mapped, is_block_of, ArePages, is_block-in_page, is_block_of-is_mapped,
  find_page_lem, is_aligned_of_block,
}

module _ (api block_size : ℕ) where
  -- `block` is handed out and not given back.
  abbrev pub in_use : ℕ → Blocks → Bool
  in_use block b =
      is_block_of api block_size block b.page_list
      && not (is_free block_size block b.free_block_list)

  -- Every free block lies in a page, the pages and the runs do not overlap.
  abbrev pub IsPool : Blocks → Type 0
  IsPool b =
      (b.block_size ≡ block_size)
      × ArePages api block_size b.page_list
      × AreRuns block_size b.free_block_list
      × ((c : ℕ)
          → is_free block_size c b.free_block_list ≡ true
          → is_block_of api block_size c b.page_list ≡ true)

-- What an allocation does to the blocks in use.
abbrev pub Allocates : ℕ → ℕ → Blocks → ℕ × Blocks → Type 0
Allocates api block_size b r =
    (r.0 ≢ 0)
    × (in_use api block_size r.0 b ≡ false)
    × ((c : ℕ) → in_use api block_size c r.1 ≡ in_use api block_size c b || (c == r.0))
    × IsPool api block_size r.1

and_left : {a : Bool} (b : Bool) → (a && b) ≡ true → a ≡ true
and_left {a} b e = ground arith

-- The blocks in use once `first` is taken from the free list.
in_use_after :
    (api block_size first c : ℕ) (pages : List ℕ) (before after : List (ℕ × ℕ))
    → is_block_of api block_size first pages ≡ true
    → is_free block_size c after ≡ is_free block_size c before && not (c == first)
    → is_free block_size first before ≡ true
    → (is_block_of api block_size c pages && not (is_free block_size c after))
      ≡ (is_block_of api block_size c pages && not (is_free block_size c before)) || (c == first)
in_use_after api block_size first c pages before after at left free =
    elim (Bool-cases (c == first)) [
      | inl same ↦
          let e = ==→eq c first same in
          let at' : is_block_of api block_size c pages ≡ true =
            ap (λ c. is_block_of api block_size c pages) e ∙ at in
          ground (arith, at', left, same)
      | inr other ↦ ground (arith, left, other)
    ]

module _ (api block_size : ℕ) (pos : 1 ≤ block_size) (mmap : List ℕ → ℕ)
    (at_least_one : 1 ≤ blocks_of_page api block_size)
    (fresh : (pages : List ℕ) (b : ℕ)
      → in_page api b (mmap pages) ≡ true
      → is_mapped api block_size b pages ≡ false) where
  not_null : (b : ℕ) (pages : List ℕ) → is_block_of api block_size b pages ≡ true → b ≢ 0
  not_null b [] inside = absurd (ground arith)
  not_null b (page ∷ pages) inside = elim (Bool-cases (is_block api block_size b page)) [
    | inl here ↦ ground (arith, (is_block-in_page api block_size b page here).1)
    | inr other ↦ not_null b pages (ground (arith, inside, other))
  ]

  take_block_lem :
      (first n : ℕ) (runs : List (ℕ × ℕ)) (b : Blocks)
      → b.free_block_list ≡ (first, n) ∷ runs
      → IsPool api block_size b
      → Allocates api block_size b (take_block api (first, n) runs b)
  unfolding take_block
  take_block_lem first zero runs b chain (size, pages, are, within) =
      let are' = subst (AreRuns block_size) chain are in absurd (omega (arith, are'.0))
  take_block_lem first (suc n) runs b chain (size, pages, are, within) =
      let are' = subst (AreRuns block_size) chain are in
      let inside = in_run_first block_size pos first n in
      let within' : (c : ℕ)
          → is_free block_size c ((first, suc n) ∷ runs) ≡ true
          → is_block_of api block_size c b.page_list ≡ true =
        λ c f. within c (ap (is_free block_size c) chain ∙ f) in
      let at_first : is_block_of api block_size first b.page_list ≡ true =
        within' first (ground (arith, inside)) in
      let left = λ (c : ℕ). is_free-rest_of_run block_size pos c first (suc n) runs are' in
      let size' = ap (λ (s : ℕ). rest_of_run s (first, suc n) runs) size in
      (
        not_null first b.page_list at_first,
        ground (arith, chain, inside),
        λ c.
            in_use_after api block_size first c b.page_list b.free_block_list _ at_first
              (ap (is_free block_size c) size'
                ∙ left c
                ∙ ap (λ (r : List (ℕ × ℕ)). is_free block_size c r && not (c == first)) (sym chain))
              (ap (is_free block_size first) chain ∙ ground (arith, inside)),
        (
          size,
          pages,
          subst (AreRuns block_size) (sym size')
              (AreRuns-rest_of_run block_size pos first (suc n) runs are'),
          λ c f. within' c (and_left _ (sym (left c) ∙ sym (ap (is_free block_size c) size') ∙ f)),
        ),
      )

  outside :
      (b : ℕ) (pages : List ℕ)
      → is_mapped api block_size b pages ≡ false
      → is_block_of api block_size b pages ≡ false
  outside b pages out = elim (Bool-cases (is_block_of api block_size b pages)) [
    | inl inside ↦ absurd (ground (arith, is_block_of-is_mapped api block_size b pages inside, out))
    | inr not ↦ not
  ]

  create_new_page_lem :
      (b : Blocks)
      → b.free_block_list ≡ []
      → IsPool api block_size b
      → IsPool api block_size (create_new_page api mmap b)
        × ((c : ℕ)
            → in_use api block_size c (create_new_page api mmap b) ≡ in_use api block_size c b)
  unfolding create_new_page
  create_new_page_lem b empty (size, pages, are, within) =
      let page = mmap b.page_list in
      let run : first_block api mmap b ≡ (page + 16, blocks_of_page api block_size) =
        ap (λ (s : ℕ). (page + 16, blocks_of_page api s)) size in
      let none_left : (c : ℕ) → is_free block_size c b.free_block_list ≡ false =
        λ c. ap (is_free block_size c) empty in
      let here : (c : ℕ)
          → in_run block_size c (first_block api mmap b) ≡ is_block api block_size c page =
        λ c. ap (in_run block_size c) run in
      let only : (c : ℕ)
          → is_block api block_size c page ≡ true
          → is_block_of api block_size c b.page_list ≡ false =
        λ c i.
          outside c b.page_list
            (fresh b.page_list c (is_block-in_page api block_size c page i).0) in
      (
        (
          size,
          (fresh b.page_list, pages),
          (
            subst (λ (s : ℕ). 1 ≤ blocks_of_page api s) (sym size) at_least_one,
            λ c i. none_left c,
            are,
          ),
          λ c f. ground (arith, f, here c, none_left c),
        ),
        λ c. ground (arith, here c, none_left c, only c),
      )

  alloc_empty :
      (b : Blocks)
      → b.free_block_list ≡ []
      → alloc api mmap b ≡ take_block api (first_block api mmap b) [] (create_new_page api mmap b)
  unfolding alloc
  alloc_empty b e = rw e

  alloc_run :
      (b : Blocks) (run : ℕ × ℕ) (runs : List (ℕ × ℕ))
      → b.free_block_list ≡ run ∷ runs
      → alloc api mmap b ≡ take_block api run runs b
  unfolding alloc
  alloc_run b run runs e = rw e

  alloc_page :
      (b : Blocks)
      → b.free_block_list ≡ []
      → IsPool api block_size b
      → Allocates api block_size b
          (take_block api (first_block api mmap b) [] (create_new_page api mmap b))
  unfolding create_new_page take_block
  alloc_page b e pool =
      let (pool', same) = create_new_page_lem b e pool in
      let first = mmap b.page_list + 16 in
      let (ne, unused, uses, is) =
        take_block_lem first (blocks_of_page api b.block_size) [] (create_new_page api mmap b)
          (ap (λ (r : List (ℕ × ℕ)). first_block api mmap b ∷ r) e) pool' in
      (ne, sym (same first) ∙ unused, λ c. uses c ∙ ap (λ u. u || (c == first)) (same c), is)

  alloc_at :
      (b : Blocks) (runs : List (ℕ × ℕ))
      → b.free_block_list ≡ runs
      → IsPool api block_size b
      → Allocates api block_size b (alloc api mmap b)
  alloc_at b [] e pool =
      subst (Allocates api block_size b) (sym (alloc_empty b e)) (alloc_page b e pool)
  alloc_at b (run ∷ runs) e pool =
      subst (Allocates api block_size b) (sym (alloc_run b run runs e))
        (take_block_lem run.0 run.1 runs b e pool)

  -- On a valid pool `alloc` answers the address of a block that is not in use, which is not null,
  -- and from then on exactly that block is in use besides those that were; the pool stays valid:
  -- pages and free runs do not overlap, and every free block lies in a page. A page is mapped
  -- where no block is free. `mmap` answers ranges that overlap no page, and a page holds a block.
  pub alloc-Allocates :
      (b : Blocks) → IsPool api block_size b → Allocates api block_size b (alloc api mmap b)
  alloc-Allocates b pool = alloc_at b b.free_block_list refl pool

  pub free_lem :
      (b : Blocks) (a : ℕ)
      → IsPool api block_size b
      → in_use api block_size a b ≡ true
      → (q : Blocks) × (free api a b ≡ some q)
        × IsPool api block_size q
        × ((c : ℕ) → in_use api block_size c q ≡ in_use api block_size c b && not (c == a))
  unfolding free
  free_lem b a (size, pages, are, within) used =
      let inside : is_block_of api block_size a b.page_list ≡ true = ground (arith, used) in
      let taken : is_free block_size a b.free_block_list ≡ false = ground (arith, used) in
      let ne = not_null a b.page_list inside in
      let (page, found, at) = find_page_lem api block_size a b.page_list pages inside in
      let aligned : is_aligned a page b.block_size ≡ true =
        ap (is_aligned a page) size ∙ is_aligned_of_block api block_size a page at in
      let one = λ (c : ℕ). in_run-one block_size pos c a in
      (
        record b {
          free_block_list = (a, 1) ∷ b.free_block_list;
          allocated = count_down api b.allocated;
        },
        ground (arith, ne, found, aligned),
        (
          size,
          pages,
          (
            omega arith,
            λ c i.
                ap (λ c. is_free block_size c b.free_block_list) (==→eq c a (sym (one c) ∙ i))
                ∙ taken,
            are,
          ),
          λ c f. elim (Bool-cases (c == a)) [
            | inl same ↦
                ap (λ c. is_block_of api block_size c b.page_list) (==→eq c a same) ∙ inside
            | inr other ↦ within c (ground (arith, f, one c, other))
          ],
        ),
        λ c. ground (arith, one c),
      )

  -- What the linked lists ask of an allocator.
  abbrev pub block_allocator : Allocator
  block_allocator = record {
    Pool = Blocks;
    IsValid = IsPool api block_size;
    used = in_use api block_size;
    alloc = alloc api mmap;
    free = free api;
    alloc-ne-null = λ b pool. (alloc-Allocates b pool).0;
    alloc-unused = λ b pool. (alloc-Allocates b pool).1;
    alloc-used = λ b c pool. (alloc-Allocates b pool).2 c;
    alloc-IsValid = λ b pool. (alloc-Allocates b pool).3;
    free-used = λ b a pool used. free_lem b a pool used;
  }
