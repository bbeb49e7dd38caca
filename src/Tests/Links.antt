-- ===== src/Tests/Links.antt =====
-- The theorems on linked lists and their allocator, with pages of a machine that never runs out of
-- addresses.
use fake_linker.Prelude.{ℕ, ◌+◌, ◌^◌, ◌≤◌, ◌≡◌, refl, true, false, none, some, List, [], ◌∷◌, arith}
use fake_linker.Links.{Allocator, LinkedList}
use fake_linker.Links.Memory.{IsSequence}
use fake_linker.Links.Refines.{Call, call_all, spec_all, call_all-IsSequence}
use fake_linker.Blocks.{
  get_block_alloca_size, blocks_of_page, new_allocator, round_up, in_page, alloc,
}
use fake_linker.Blocks.Pages.{is_mapped, size-bounds}
use fake_linker.Blocks.Pool.{IsPool, Allocates, alloc-Allocates, block_allocator}

abbrev mmap : List ℕ → ℕ
mmap [] = 0x10000
mmap (page ∷ pages) = page + mmap pages + 2 ^ 20

above-is_mapped : (pages : List ℕ) (b : ℕ) → mmap pages + 8 ≤ b → is_mapped 30 16 b pages ≡ false
above-is_mapped [] b h = refl
above-is_mapped (page ∷ pages) b h =
    ground (arith, above-is_mapped pages b (omega arith), size-bounds 30 16)

mmap_fresh :
    (pages : List ℕ) (b : ℕ) → in_page 30 b (mmap pages) ≡ true → is_mapped 30 16 b pages ≡ false
mmap_fresh pages b inside = above-is_mapped pages b (ground (arith, inside))

one_block : 1 ≤ blocks_of_page 30 16
unfolding get_block_alloca_size
one_block = ground arith

positive : 1 ≤ 16
positive = omega arith

abbrev heap : Allocator
heap = block_allocator 30 16 positive mmap one_block mmap_fresh

new_allocator-IsPool : IsPool 30 16 (new_allocator 16)
unfolding new_allocator round_up
new_allocator-IsPool = (refl, tt, tt, λ c f. absurd (ground arith))

abbrev empty_list : LinkedList heap
empty_list = record {
  store = record { cells = λ a. none; pool = new_allocator 16 };
  head = 0;
  tail = 0;
}

empty_list-IsSequence : IsSequence heap empty_list []
empty_list-IsSequence = ([], ((new_allocator-IsPool, λ a unused. refl), tt, refl, refl), refl)

abbrev calls : List Call
calls =
    Call.push_back 7
    ∷ Call.push_back 8
    ∷ Call.push_back 7
    ∷ Call.push_front 5
    ∷ Call.remove 7
    ∷ Call.pop_front
    ∷ []

call_all-IsSequence_example :
    (l' : LinkedList heap) × (call_all heap 9 calls empty_list ≡ some ((spec_all calls []).0, l'))
    × IsSequence heap l' (spec_all calls []).1
call_all-IsSequence_example =
    call_all-IsSequence heap 9 calls empty_list [] empty_list-IsSequence (omega arith)

alloc-Allocates_example : Allocates 30 16 (new_allocator 16) (alloc 30 mmap (new_allocator 16))
alloc-Allocates_example =
    alloc-Allocates 30 16 positive mmap one_block mmap_fresh (new_allocator 16) new_allocator-IsPool
