-- ===== src/Elf.antt =====
-- The ELF reader's arithmetic on file ranges and program headers: `safe_add` of
-- linker/linker_util.cpp, and of linker/elf_reader.cpp `CheckFileRange`,
-- `FileOffsetToVirtualOffset`, the extent and the alignments of the loadable segments and their
-- extension, `VerifyElfHeader` (library/src/main/cpp/). A build for 64-bit processors.
pub mod Range
pub mod Extent
pub mod Alignment
pub mod Headers
pub mod Dynamic
pub mod Loaded
use fake_linker.Prelude.{
  ℕ, zero, suc, ◌+◌, ◌-◌, ◌*◌, ◌/◌, ◌%◌, ◌^◌, ◌≤◌, ◌<◌, bit_and, bit_or, bit_xor, ◌≡◌, refl, sym,
  ap, ◌∙◌, ◌≢◌, ◌↔◌, ◌⊎◌, inl, inr, Bool, true, false, not, ◌&&◌, ◌||◌, Option, none, some, List,
  [], ◌∷◌, ◌++◌, map, arith, ltb, leb, ◌==◌, if◌then◌else◌, ltb→lt, leb→le, ==→eq, ==_self, tests,
  Bool-cases, Option-cases, all_below, all_below_at, if-cases, length, is_empty, is_some,
  length-append, All, select, any, Bytes, bytes, text_eq,
}
use fake_linker.Bits.Align.{word, align_down, align_up}

-- The bound of `off64_t`; a negative number is one at or above it, as a 64-bit pattern.
abbrev pub off_limit : ℕ
off_limit = 2 ^ 63

abbrev pub pt_load : ℕ
pt_load = 1

pub record Phdr : Type 0 where
  pub p_type : ℕ
  pub p_flags : ℕ
  pub p_offset : ℕ
  pub p_vaddr : ℕ
  pub p_filesz : ℕ
  pub p_memsz : ℕ
  pub p_align : ℕ

-- `none` is the answer false.
unfoldable pub safe_add : ℕ → ℕ → Option ℕ
safe_add a b =
    if leb off_limit a then none else if ltb (off_limit - 1 - a) b then none else some (a + b)

abbrev pub range_fits : ℕ → Option ℕ → Option ℕ → Bool
range_fits file_size none range_end = false
range_fits file_size (some range_start) none = false
range_fits file_size (some range_start) (some range_end) =
    ltb range_start file_size && leb range_end file_size

abbrev pub safe_add_to : Option ℕ → ℕ → Option ℕ
safe_add_to none b = none
safe_add_to (some a) b = safe_add a b

unfoldable pub check_file_range : ℕ → ℕ → ℕ → ℕ → ℕ → Bool
unfolding safe_add
check_file_range file_offset file_size offset size alignment =
    let range_start = safe_add file_offset offset in
    not (offset == 0)
    && range_fits file_size range_start (safe_add_to range_start size)
    && (offset % alignment == 0)

-- `none` is the answer -1.
-- A result in `off64_t`, of which `none` is -1, however it comes about.
abbrev pub as_off64 : ℕ → Option ℕ
as_off64 v = if v == word - 1 then none else some v

unfoldable pub file_offset_to_virtual_offset : List Phdr → ℕ → Option ℕ
file_offset_to_virtual_offset [] offset = none
file_offset_to_virtual_offset (phdr ∷ phdrs) offset =
    let rest = file_offset_to_virtual_offset phdrs offset in
    if leb phdr.p_offset offset && ltb (offset - phdr.p_offset) phdr.p_filesz
    then as_off64 ((phdr.p_vaddr + offset - phdr.p_offset) % word)
    else rest

-- The loop of `phdr_table_get_load_size`: `found_pt_load`, `min_vaddr` and `max_vaddr`.
unfoldable pub extent_loop : List Phdr → Bool → ℕ → ℕ → Bool × ℕ × ℕ
extent_loop [] found low high = (found, low, high)
extent_loop (phdr ∷ phdrs) found low high =
    let end = (phdr.p_vaddr + phdr.p_memsz) % word in
    let skipped = extent_loop phdrs found low high in
    let taken =
      extent_loop phdrs true (if ltb phdr.p_vaddr low then phdr.p_vaddr else low)
        (if ltb high end then end else high) in
    if phdr.p_type == pt_load then taken else skipped

-- The size, the least and the greatest address.
unfoldable pub phdr_table_get_load_size : ℕ → List Phdr → ℕ × ℕ × ℕ
unfolding extent_loop
phdr_table_get_load_size page phdrs =
    let (found, low, high) = extent_loop phdrs false (word - 1) 0 in
    let min_vaddr = align_down (if found then low else 0) page in
    let max_vaddr = align_up high page in
    ((word + max_vaddr - min_vaddr) % word, min_vaddr, max_vaddr)

-- `p_type != PT_LOAD || (p_align & (p_align - 1)) != 0`
unfoldable pub is_passed_over : Phdr → Bool
is_passed_over phdr =
    not (phdr.p_type == pt_load)
    || not (bit_and phdr.p_align ((word + phdr.p_align - 1) % word) == 0)

unfoldable pub maximum_loop : List Phdr → ℕ → ℕ
maximum_loop [] alignment = alignment
maximum_loop (phdr ∷ phdrs) alignment = maximum_loop phdrs (
    if is_passed_over phdr
    then alignment
    else if ltb alignment phdr.p_align
    then phdr.p_align
    else alignment)

unfoldable pub phdr_table_get_maximum_alignment : ℕ → List Phdr → ℕ
unfolding maximum_loop
phdr_table_get_maximum_alignment page phdrs = maximum_loop phdrs page

unfoldable pub minimum_loop : List Phdr → ℕ → ℕ
minimum_loop [] alignment = alignment
minimum_loop (phdr ∷ phdrs) alignment = minimum_loop phdrs (
    if is_passed_over phdr
    then alignment
    else if leb phdr.p_align 1
    then alignment
    else if ltb phdr.p_align alignment
    then phdr.p_align
    else alignment)

unfoldable pub phdr_table_get_minimum_alignment : ℕ → List Phdr → ℕ
unfolding minimum_loop
phdr_table_get_minimum_alignment page phdrs = minimum_loop phdrs page

-- The memory and file sizes of a segment after `_extend_load_segment_vma`; `next` is the header
-- behind it, if there is one.
unfoldable pub extend_load_segment_vma : ℕ → Phdr → Option Phdr → Bool → Bool → ℕ → ℕ → ℕ × ℕ
extend_load_segment_vma page phdr none should_pad compat memsz filesz = (memsz, filesz)
extend_load_segment_vma page phdr (some next) should_pad compat memsz filesz =
    let next_start = align_down next.p_vaddr page in
    let curr_end = align_up ((phdr.p_vaddr + memsz) % word) page in
    let extend = next_start - curr_end in
    if compat
    then (memsz, filesz)
    else if leb phdr.p_align page || ltb 65536 phdr.p_align || not should_pad
    then (memsz, filesz)
    else if not (next.p_type == pt_load) || not (memsz == filesz)
    then (memsz, filesz)
    else if leb next_start curr_end
    then (memsz, filesz)
    else ((memsz + extend) % word, (filesz + extend) % word)

-- The header's fields that `VerifyElfHeader` reads; `e_ident` is its first six bytes.
pub record Ehdr : Type 0 where
  pub e_ident : Bytes
  pub e_type : ℕ
  pub e_version : ℕ
  pub e_machine : ℕ
  pub e_shentsize : ℕ
  pub e_shstrndx : ℕ

-- The first four bytes are those of `ELFMAG`, the fifth is ELFCLASS64, the sixth ELFDATA2LSB.
abbrev pub has_ident : Bytes → Bool
has_ident ident = text_eq ident (0x7f ∷ b'E' ∷ b'L' ∷ b'F' ∷ 2 ∷ 1 ∷ [])

unfoldable pub verify_elf_header : ℕ → ℕ → Ehdr → Bool
verify_elf_header api target_machine h =
    if not (has_ident h.e_ident)
    then false
    else if not (h.e_type == 3)
    then false
    else if not (h.e_version == 1)
    then false
    else if not (h.e_machine == target_machine)
    then false
    else if not (h.e_shentsize == 64) && leb 26 api
    then false
    else not (h.e_shstrndx == 0 && leb 26 api)
