-- ===== src/Blocks.antt =====
-- The block allocator of the linker's lists (library/src/main/cpp/linker/linker_block_allocator.cpp).
-- A run of free blocks is its first block and their number, which the source stores in that block;
-- the free list is the list of the runs. `mmap` is a parameter: the address of a new page for the
-- pages there are; the calls where it fails end the process and are left out, as is `mprotect`.
pub mod Runs
pub mod Pages
pub mod Pool
use fake_linker.Prelude.{
  ℕ, zero, suc, ◌+◌, ◌-◌, ◌*◌, ◌/◌, ◌%◌, ◌^◌, ◌≤◌, ◌<◌, bit_and, bit_or, bit_xor, ◌≡◌, refl, sym,
  ap, ◌∙◌, ◌≢◌, ◌↔◌, ◌⊎◌, inl, inr, Bool, true, false, not, ◌&&◌, ◌||◌, Option, none, some, List,
  [], ◌∷◌, ◌++◌, map, arith, ltb, leb, ◌==◌, if◌then◌else◌, ltb→lt, leb→le, ==→eq, ==_self, tests,
  Bool-cases, Option-cases, all_below, all_below_at, if-cases, length, is_empty, is_some,
  length-append, All, select, any, Bytes, bytes, text_eq,
}

-- `get_block_alloca_size`
unfoldable pub get_block_alloca_size : ℕ → ℕ
get_block_alloca_size api =
    if leb 34 api then 65536 * 6 else if leb 29 api then 4096 * 100 else 4096

-- The rounding to a multiple of 16 of the constructor, `(size + 15) & ~15`.
unfoldable pub round_up : ℕ → ℕ
round_up size = bit_and (size + 15) (2 ^ 64 - 16)

-- `LinkerBlockAllocator`
pub record Blocks : Type 0 where
  pub block_size : ℕ
  pub page_list : List ℕ
  pub free_block_list : List (ℕ × ℕ)
  pub allocated : ℕ

unfoldable pub new_allocator : ℕ → Blocks
unfolding round_up
new_allocator block_size = record {
  block_size = round_up (if ltb block_size 16 then 16 else block_size);
  page_list = [];
  free_block_list = [];
  allocated = 0;
}

-- `++allocated_` and `--allocated_`, from Android Q on.
abbrev pub count_up : ℕ → ℕ → ℕ
count_up api n = if leb 29 api then (n + 1) % 2 ^ 64 else n

abbrev pub count_down : ℕ → ℕ → ℕ
count_down api n = if leb 29 api then (n + 2 ^ 64 - 1) % 2 ^ 64 else n

-- The number of blocks of a page.
abbrev pub blocks_of_page : ℕ → ℕ → ℕ
blocks_of_page api block_size = (get_block_alloca_size api - 16) / block_size

-- What is left of a run without its first block.
abbrev pub rest_of_run : ℕ → ℕ × ℕ → List (ℕ × ℕ) → List (ℕ × ℕ)
rest_of_run block_size (block_info, num_free_blocks) next_block =
    if ltb 1 num_free_blocks
    then (block_info + block_size, num_free_blocks - 1) ∷ next_block
    else next_block

unfoldable pub take_block : ℕ → ℕ × ℕ → List (ℕ × ℕ) → Blocks → ℕ × Blocks
take_block api run next_block b = (
  run.0,
  record b {
    free_block_list = rest_of_run b.block_size run next_block;
    allocated = count_up api b.allocated;
  },
)

abbrev pub in_page : ℕ → ℕ → ℕ → Bool
in_page api block page = leb (page + 8) block && ltb block (page + get_block_alloca_size api)

-- `find_page`; the process ends where there is none.
unfoldable pub find_page : ℕ → ℕ → List ℕ → Option ℕ
find_page api block [] = none
find_page api block (page ∷ pages) =
    let rest = find_page api block pages in if in_page api block page then some page else rest

-- `offset % block_size_` for a signed offset, converted to an unsigned word.
unfoldable pub is_aligned : ℕ → ℕ → ℕ → Bool
is_aligned block page block_size = ((block + 2 ^ 64 - (page + 16)) % 2 ^ 64) % block_size == 0

unfoldable pub free : ℕ → ℕ → Blocks → Option Blocks
unfolding find_page is_aligned
free api block b = if block == 0 then some b else elim (find_page api block b.page_list) [
  | none ↦ none
  | some page ↦ some (
      if is_aligned block page b.block_size
      then record b {
        free_block_list = (block, 1) ∷ b.free_block_list;
        allocated = count_down api b.allocated;
      }
      else b)
]

unfoldable pub purge : ℕ → Blocks → Blocks
purge api b =
    if leb 29 api && not (b.allocated == 0)
    then b
    else record b { page_list = []; free_block_list = [] }

module _ (api : ℕ) (mmap : List ℕ → ℕ) where
  -- The run of a new page.
  abbrev pub first_block : Blocks → ℕ × ℕ
  first_block b = (mmap b.page_list + 16, blocks_of_page api b.block_size)

  unfoldable pub create_new_page : Blocks → Blocks
  create_new_page b = record b {
    page_list = mmap b.page_list ∷ b.page_list;
    free_block_list = first_block b ∷ b.free_block_list;
  }

  unfoldable pub alloc : Blocks → ℕ × Blocks
  unfolding create_new_page take_block
  alloc b = elim b.free_block_list [
    | [] ↦ take_block api (first_block b) [] (create_new_page b)
    | run ∷ next_block ↦ take_block api run next_block b
  ]
