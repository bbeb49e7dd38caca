-- ===== src/Elf/Headers.antt =====
-- The tables of headers, in the file and in memory, and the mapped fragments of the file:
-- of linker/elf_reader.cpp `ReadProgramHeaders` to `ReadSectionHeadersFromMemory`, and
-- linker/linker_mapped_file_fragment.cpp (library/src/main/cpp/), on 64-bit machines.
use fake_linker.Prelude.{
  ℕ, ◌+◌, ◌-◌, ◌*◌, ◌/◌, ◌%◌, ◌^◌, ◌≤◌, ◌<◌, bit_and, ◌≡◌, Bool, true, false, not, ◌&&◌, Option,
  none, some, List, [], ◌∷◌, arith, leb, ◌==◌, if◌then◌else◌, is_some,
}
use fake_linker.Bits.Align.{word, align_down, align_down-le}
use fake_linker.Elf.{Phdr, pt_load, safe_add, check_file_range, file_offset_to_virtual_offset}

-- `MappedFileFragment`
pub record Fragment : Type 0 where
  pub map_start : ℕ
  pub map_size : ℕ
  pub data_start : ℕ
  pub size : ℕ

abbrev pub page_offset : ℕ → ℕ → ℕ
page_offset page offset = bit_and offset (page - 1)

abbrev pub mapped_part : ℕ → ℕ → ℕ → ℕ → ℕ → Fragment
mapped_part page offset size map_size map_start = record {
  map_start = map_start;
  map_size = map_size;
  data_start = map_start + page_offset page offset;
  size = size;
}

-- The mapping of a range that does not overflow; `mmap` answers `none` where it fails.
unfoldable pub map_range : ℕ → (ℕ → ℕ → Option ℕ) → ℕ → ℕ → ℕ → Option Fragment
map_range page mmap offset size end_offset =
    let page_min = align_down offset page in
    let map_size = end_offset - page_min in
    if not (leb size map_size) then none else elim (mmap map_size page_min) [
      | none ↦ none
      | some map_start ↦ some (mapped_part page offset size map_size map_start)
    ]

abbrev pub and_then : {A B : Type 0} → Option A → (A → Option B) → Option B
and_then none k = none
and_then (some a) k = k a

-- `MappedFileFragment::Map`: `none` is the answer false.
unfoldable pub map_fragment : ℕ → (ℕ → ℕ → Option ℕ) → ℕ → ℕ → ℕ → Option Fragment
map_fragment page mmap base_offset elf_offset size =
    and_then (safe_add base_offset elf_offset) λ offset. and_then (safe_add offset size) λ end.
      and_then (safe_add end (page_offset page offset))
        λ end_offset. map_range page mmap offset size end_offset

-- The members of `header_` and the file's range, for a 64-bit file.
pub record Headers : Type 0 where
  pub page : ℕ
  pub file_offset : ℕ
  pub file_size : ℕ
  pub e_phnum : ℕ
  pub e_phoff : ℕ
  pub e_shnum : ℕ
  pub e_shoff : ℕ

abbrev pub phdr_size : ℕ
phdr_size = 56

-- A program header is 56 bytes, a section header 64, both aligned to 8.
abbrev pub is_phdr_count : ℕ → Bool
is_phdr_count n = leb 1 n && leb n (65536 / phdr_size)

-- `ReadProgramHeaders`: the answer, and the mapped table if it is asked for.
unfoldable pub read_program_headers : Headers → (ℕ → ℕ → Option ℕ) → Bool → Bool × Option Fragment
unfolding map_fragment
read_program_headers h mmap map_memory =
    let size = h.e_phnum * phdr_size in
    let fragment = map_fragment h.page mmap h.file_offset h.e_phoff size in
    if not (is_phdr_count h.e_phnum)
    then (false, none)
    else if not (check_file_range h.file_offset h.file_size h.e_phoff size 8)
    then (false, none)
    else if not map_memory
    then (true, none)
    else (is_some fragment, fragment)

unfoldable pub read_section_headers : Headers → (ℕ → ℕ → Option ℕ) → Bool → Bool × Option Fragment
unfolding map_fragment
read_section_headers h mmap map_memory =
    let size = h.e_shnum * 64 in
    let fragment = map_fragment h.page mmap h.file_offset h.e_shoff size in
    if h.e_shnum == 0
    then (false, none)
    else if not (check_file_range h.file_offset h.file_size h.e_shoff size 8)
    then (false, none)
    else if not map_memory
    then (true, none)
    else (is_some fragment, fragment)

-- The load bias of a library in memory: from its PT_PHDR, or the load segment at offset 0; the
-- answer says whether the bias can be used. An ELF header is 64 bytes, PT_PHDR is 6.
unfoldable pub memory_bias : ℕ → List Phdr → Bool × Option ℕ
memory_bias base [] = (false, none)
memory_bias base (phdr ∷ phdrs) =
    let rest = memory_bias base phdrs in
    if phdr.p_type == 6
    then (phdr.p_vaddr == 64, some base)
    else if (phdr.p_type == pt_load) && (phdr.p_offset == 0)
    then (true, some ((base + word - phdr.p_vaddr) % word))
    else rest

-- `ReadProgramHeadersFromMemory`; `accessible` is what the maps say of the table's range.
unfoldable pub read_program_headers_from_memory :
    Headers → ℕ → (ℕ → ℕ → Bool) → List Phdr → Bool × Option ℕ
unfolding memory_bias
read_program_headers_from_memory h base accessible phdrs =
    if not (is_phdr_count h.e_phnum)
    then (false, none)
    else if not (accessible ((base + h.e_phoff) % word) (h.e_phnum * phdr_size))
    then (false, none)
    else memory_bias base phdrs

-- `ReadSectionHeadersFromMemory`: the address of the table.
unfoldable pub read_section_headers_from_memory : Headers → ℕ → List Phdr → Option ℕ
read_section_headers_from_memory h load_bias phdrs =
    if h.e_shnum == 0 then none else elim (file_offset_to_virtual_offset phdrs h.e_shoff) [
      | none ↦ none
      | some offset ↦ some ((load_bias + offset) % word)
    ]

safe_add-sum : (a b c : ℕ) → safe_add a b ≡ some c → c ≡ a + b
unfolding safe_add
safe_add-sum a b c e = ground (arith, e)

abbrev Covers : ℕ → Fragment → Type 0
Covers size f =
    (f.map_start ≤ f.data_start)
    × (f.data_start + f.size ≤ f.map_start + f.map_size)
    × (f.size ≡ size)

map_range-Covers :
    (k : ℕ) (mmap : ℕ → ℕ → Option ℕ) (offset size end_offset : ℕ) (f : Fragment)
    → k ≤ 64
    → offset < word
    → end_offset ≡ offset + size + page_offset (2 ^ k) offset
    → map_range (2 ^ k) mmap offset size end_offset ≡ some f
    → Covers size f
unfolding map_range
map_range-Covers k mmap offset size end_offset f hk low sum e =
    let below = align_down-le k offset hk low in
    (ground (arith, e, below, sum), ground (arith, e, below, sum), ground (arith, e))
