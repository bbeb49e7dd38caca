-- ===== src/Loader/Reserve.antt =====
-- The reservation of address space: of linker/elf_reader.cpp (library/src/main/cpp/)
-- `ReserveWithAlignmentPadding` and `ReserveAddressSpace`, on 64-bit machines. `mmap` and the
-- random numbers are parameters.
use fake_linker.Prelude.{
  ℕ, ◌+◌, ◌-◌, ◌*◌, ◌/◌, ◌%◌, ◌^◌, ◌≤◌, ◌<◌, ◌≡◌, Bool, true, false, not, ◌&&◌, Option, none, some,
  List, [], ◌∷◌, ◌++◌, arith, ltb, leb, ◌==◌, if◌then◌else◌,
}
use fake_linker.Bits.Align.{word, align_down, align_up}
use fake_linker.Elf.{Phdr, phdr_table_get_load_size, phdr_table_get_maximum_alignment}

-- What the code asks of its surroundings. The two calls of `mmap` take a size; `gap_units` and
-- `slot` answer `arc4random_uniform` for a bound.
pub record Host : Type 0 where
  pub page : ℕ
  pub mmap : ℕ → Option ℕ
  pub mmap_again : ℕ → Option ℕ
  pub is_first_stage_init : Bool
  pub gap_units : ℕ → ℕ
  pub slot : ℕ → ℕ

-- The start, `*out_gap_start` and `*out_gap_size` where they are written, and the ranges given
-- to `munmap`, in the order of the calls.
pub record Reservation : Type 0 where
  pub start : ℕ
  pub gap : Option (ℕ × ℕ)
  pub unmapped : List (ℕ × ℕ)

-- `a - b` on words
abbrev minus_word : ℕ → ℕ → ℕ
minus_word a b = (a + word - b) % word

abbrev larger : ℕ → ℕ → ℕ
larger a b = if ltb a b then b else a

abbrev gap_alignment : ℕ
gap_alignment = 2 ^ 21

abbrev max_gap_units : ℕ
max_gap_units = 32

unfoldable padded_size : ℕ → ℕ → ℕ → ℕ
padded_size page size align = minus_word ((align_up size align + align) % word) page

-- Whether a library anywhere in the mapping may lie across a boundary of 2 MiB.
unfoldable crosses_boundary : ℕ → ℕ → ℕ → Bool
crosses_boundary mmap_ptr mmap_size align =
    let first_byte = align_up mmap_ptr align in
    let last_byte = minus_word (align_down ((mmap_ptr + mmap_size) % word) align) 1 in
    not (first_byte / gap_alignment == last_byte / gap_alignment)

unfoldable random_gap : Host → ℕ
random_gap host =
    gap_alignment * (if host.is_first_stage_init then 1 else host.gap_units (max_gap_units - 1) + 1)

-- The place of the library and of the gap in a mapping; `earlier` are the ranges already unmapped.
unfoldable place_in : Host → ℕ → ℕ → ℕ → ℕ → ℕ → ℕ → List (ℕ × ℕ) → Reservation
place_in host size align start_align mmap_ptr mmap_size gap_size earlier =
    let map_end = (mmap_ptr + mmap_size) % word in
    let gap_end = if gap_size == 0 then map_end else align_down map_end gap_alignment in
    let gap_start = if gap_size == 0 then map_end else minus_word gap_end gap_size in
    let first = align_up mmap_ptr align in
    let last = minus_word (align_down gap_start align) size in
    let n =
      if host.is_first_stage_init
      then 0
      else host.slot ((minus_word last first / start_align + 1) % 2 ^ 32) in
    let start = (first + n * start_align) % word in
    let behind = (start + size) % word in
    let around =
      (mmap_ptr, minus_word start mmap_ptr) ∷ (behind, minus_word gap_start behind) ∷ [] in
    record {
      start = start;
      gap = some (gap_start, gap_size);
      unmapped =
          earlier
          ++ around
          ++ (if gap_end == map_end then [] else (gap_end, minus_word map_end gap_end) ∷ []);
    }

-- The first mapping is given back, and a larger one is made with a gap.
unfoldable reserve_with_gap : Host → ℕ → ℕ → ℕ → ℕ → ℕ → Option Reservation
reserve_with_gap host size align start_align mmap_ptr mmap_size =
    let wide = larger align gap_alignment in
    let gap_size = random_gap host in
    let wide_size = padded_size host.page ((size + gap_size) % word) wide in
    elim (host.mmap_again wide_size) [
      | none ↦ none
      | some ptr ↦
          some (
            place_in host size wide start_align ptr wide_size gap_size ((mmap_ptr, mmap_size) ∷ []))
    ]

unfoldable reserve_padded : Host → ℕ → ℕ → ℕ → ℕ → ℕ → Option Reservation
reserve_padded host size align start_align mmap_ptr mmap_size =
    if crosses_boundary mmap_ptr mmap_size align
    then reserve_with_gap host size align start_align mmap_ptr mmap_size
    else some (place_in host size align start_align mmap_ptr mmap_size 0 [])

-- `ReserveWithAlignmentPadding`: `none` is the null pointer.
unfoldable reserve_with_alignment_padding : Host → ℕ → ℕ → ℕ → Option Reservation
reserve_with_alignment_padding host size mapping_align start_align =
    let align = larger mapping_align start_align in
    let mmap_size = padded_size host.page size align in
    if align == host.page
    then elim (host.mmap size) [
      | none ↦ none
      | some ptr ↦ some (record { start = ptr; gap = none; unmapped = [] })
    ]
    else elim (host.mmap mmap_size) [
      | none ↦ none
      | some ptr ↦ reserve_padded host size align start_align ptr mmap_size
    ]

-- `address_space_params`
pub record AddressSpace : Type 0 where
  pub start_addr : ℕ
  pub reserved_size : ℕ
  pub must_use_address : Bool

-- The members `load_size_`, `load_start_`, `load_bias_`, `gap_start_` and `gap_size_`,
-- `mapped_by_caller_` where it is set, the address space left, and what was unmapped.
pub record Reserved : Type 0 where
  pub load_size : ℕ
  pub load_start : ℕ
  pub load_bias : ℕ
  pub gap : Option (ℕ × ℕ)
  pub mapped_by_caller : Bool
  pub space : AddressSpace
  pub unmapped : List (ℕ × ℕ)

-- `kLibraryAlignment` and `kPmdSize`
abbrev library_alignment : ℕ
library_alignment = 2 ^ 18

abbrev pmd_size : ℕ
pmd_size = 2 ^ 21

-- `get_transparent_hugepages_supported() && android_api >= 31` is a parameter.
unfoldable start_alignment : Host → Bool → List Phdr → ℕ
start_alignment host has_hugepages phdrs =
    if has_hugepages && (phdr_table_get_maximum_alignment host.page phdrs == pmd_size)
    then pmd_size
    else host.page

unfoldable reserve_new : Host → ℕ → ℕ → ℕ → AddressSpace → Option Reserved
reserve_new host alignment load_size min_vaddr space =
    elim (reserve_with_alignment_padding host load_size library_alignment alignment) [
      | none ↦ none
      | some r ↦ some (record {
        load_size = load_size;
        load_start = r.start;
        load_bias = minus_word r.start min_vaddr;
        gap = r.gap;
        mapped_by_caller = false;
        space = space;
        unmapped = r.unmapped;
      })
    ]

-- The library takes the front of the space that its caller reserved.
unfoldable take_reserved : ℕ → ℕ → AddressSpace → Reserved
take_reserved load_size min_vaddr space = record {
  load_size = load_size;
  load_start = space.start_addr;
  load_bias = minus_word space.start_addr min_vaddr;
  gap = some (0, 0);
  mapped_by_caller = true;
  space = record {
    start_addr = (space.start_addr + load_size) % word;
    reserved_size = space.reserved_size - load_size;
    must_use_address = space.must_use_address;
  };
  unmapped = [];
}

-- `ReserveAddressSpace`: `none` is the answer false. The change of protection in the 16 KiB mode
-- is left out.
unfoldable reserve_address_space : Host → Bool → Bool → List Phdr → AddressSpace → Option Reserved
reserve_address_space host should_use_compat has_hugepages phdrs space =
    let (size, min_vaddr, _) = phdr_table_get_load_size host.page phdrs in
    let load_size = if should_use_compat then (size + host.page) % word else size in
    let alignment = start_alignment host has_hugepages phdrs in
    if size == 0
    then none
    else if leb load_size space.reserved_size
    then some (take_reserved load_size min_vaddr space)
    else if space.must_use_address
    then none
    else reserve_new host alignment load_size min_vaddr space

-- A library that fits into the space of its caller starts where the space did, and the rest of
-- the space begins behind it and ends where the space did.
take_reserved-splits :
    (load_size min_vaddr : ℕ) (space : AddressSpace)
    → load_size ≤ space.reserved_size
    → space.start_addr + space.reserved_size < word
    → let r = take_reserved load_size min_vaddr space in
      (r.load_start + r.load_size ≡ r.space.start_addr)
      × (r.space.start_addr + r.space.reserved_size ≡ space.start_addr + space.reserved_size)
unfolding take_reserved
take_reserved-splits load_size min_vaddr space fits below =
    (omega (arith, fits, below), omega (arith, fits, below))
