-- ===== src/Loader.antt =====
-- The loading of segments and the protection of loaded ones: of linker/elf_reader.cpp
-- `LoadSegments` with the calls it makes, `_phdr_table_set_load_prot` and the protection of
-- GNU_RELRO (library/src/main/cpp/). The calls of the operating system are written into a trace;
-- which of them work is the parameter `works`, of the trace so far and the call.
pub mod Compat
pub mod Mapped
pub mod Protect
pub mod Reserve
use fake_linker.Prelude.{
  ℕ, zero, suc, ◌+◌, ◌-◌, ◌*◌, ◌/◌, ◌%◌, ◌^◌, ◌≤◌, ◌<◌, bit_and, bit_or, bit_xor, ◌≡◌, refl, sym,
  ap, ◌∙◌, ◌≢◌, ◌↔◌, ◌⊎◌, inl, inr, Bool, true, false, not, ◌&&◌, ◌||◌, Option, none, some, List,
  [], ◌∷◌, ◌++◌, map, arith, ltb, leb, ◌==◌, if◌then◌else◌, ltb→lt, leb→le, ==→eq, ==_self, tests,
  Bool-cases, Option-cases, all_below, all_below_at, if-cases, length, is_empty, is_some,
  length-append, All, select, any, Bytes, bytes, text_eq,
}
use fake_linker.Bits.Align.{word, align_down, align_up}
use fake_linker.Elf.{Phdr, pt_load, extend_load_segment_vma, phdr_table_get_minimum_alignment}

-- `mmap` of the file, `pread64`, `memset` with 0, `madvise`, `mmap` of zeros and `mprotect`.
pub data SysCall : Type 0 where
  map_file : (start len prot offset : ℕ) → SysCall
  read_file : (start len offset : ℕ) → SysCall
  fill_zero : (start len : ℕ) → SysCall
  drop_pages : (start len : ℕ) → SysCall
  map_zero : (start len prot : ℕ) → SysCall
  protect : (start len prot : ℕ) → SysCall

abbrev pub Trace : Type 0
Trace = List SysCall

-- The members of `ElfReader` that the loading reads.
pub record Reader : Type 0 where
  pub api : ℕ
  pub page : ℕ
  pub file_offset : ℕ
  pub file_size : ℕ
  pub load_bias : ℕ
  pub should_pad_segments : Bool
  pub should_use_16kib_app_compat : Bool
  pub page_size_migration_supported : Bool
  pub works : Trace → SysCall → Bool

-- A call, and whether it worked.
abbrev pub emit : Reader → SysCall → Trace → Bool × Trace
emit r call trace = (r.works trace call, trace ++ call ∷ [])

abbrev pub compat_page : ℕ
compat_page = 0x1000

-- `PFLAGS_TO_PROT`: PF_X, PF_W and PF_R are 1, 2 and 4, PROT_EXEC, PROT_WRITE and PROT_READ are 4, 2
-- and 1.
unfoldable pub pflags_to_prot : ℕ → ℕ
pflags_to_prot flags =
    bit_or (if bit_and flags 1 == 0 then 0 else 4)
      (bit_or (if bit_and flags 2 == 0 then 0 else 2) (if bit_and flags 4 == 0 then 0 else 1))

abbrev pub page_offset : Reader → ℕ → ℕ
page_offset r address = bit_and address (r.page - 1)

abbrev pub seg_start : Reader → Phdr → ℕ
seg_start r phdr = (phdr.p_vaddr + r.load_bias) % word

-- The call of `MapSegment`; marking huge pages is left out.
unfoldable pub file_call : Reader → Phdr → ℕ → SysCall
file_call r phdr len =
    map_file (align_down (seg_start r phdr) r.page) len (pflags_to_prot phdr.p_flags)
      ((r.file_offset + align_down phdr.p_offset r.page) % word)

unfoldable pub map_segment : Reader → Phdr → ℕ → Trace → Bool × Trace
map_segment r phdr len trace = emit r (file_call r phdr len) trace

unfoldable pub compat_map_segment : Reader → Phdr → ℕ → Trace → Bool × Trace
compat_map_segment r phdr len trace =
    emit r
      (read_file (align_down (seg_start r phdr) compat_page) len
        ((r.file_offset + align_down phdr.p_offset compat_page) % word))
      trace

unfoldable pub zero_fill_segment : Reader → Phdr → Trace → Trace
zero_fill_segment r phdr trace =
    let end = (seg_start r phdr + phdr.p_filesz) % word in
    if r.should_use_16kib_app_compat
    then trace
    else if not (bit_and phdr.p_flags 2 == 0) && ltb 0 (page_offset r end)
    then (emit r (fill_zero end (r.page - page_offset r end)) trace).1
    else trace

-- `none` where the CHECK fails.
unfoldable pub drop_padding_pages : Reader → Phdr → ℕ → Trace → Option Trace
drop_padding_pages r phdr seg_file_end trace =
    let pad_start = align_up ((seg_start r phdr + phdr.p_filesz) % word) r.page in
    let pad_end = align_up seg_file_end r.page in
    if r.should_use_16kib_app_compat
    then some trace
    else if not (leb pad_start pad_end)
    then none
    else if (pad_end == pad_start) || not r.page_size_migration_supported
    then some trace
    else some (emit r (drop_pages pad_start (pad_end - pad_start)) trace).1

unfoldable pub map_bss_section : Reader → Phdr → ℕ → ℕ → Trace → Bool × Trace
map_bss_section r phdr seg_page_end seg_file_end trace =
    let file_page_end = align_up seg_file_end r.page in
    if r.should_use_16kib_app_compat
    then (true, trace)
    else if leb seg_page_end file_page_end
    then (true, trace)
    else emit r
        (map_zero file_page_end (seg_page_end - file_page_end) (pflags_to_prot phdr.p_flags)) trace

-- A segment may not be writable and executable from Android O on.
abbrev pub is_refused : Reader → Phdr → Bool
is_refused r phdr = (bit_and (pflags_to_prot phdr.p_flags) 6 == 6) && leb 26 r.api

abbrev pub seg_align : Reader → ℕ
seg_align r = if r.should_use_16kib_app_compat then compat_page else r.page

-- The sizes of a segment in memory and in the file after the extension.
abbrev pub extended : Reader → Phdr → Option Phdr → ℕ × ℕ
extended r phdr next_phdr =
    extend_load_segment_vma r.page phdr next_phdr r.should_pad_segments
      r.should_use_16kib_app_compat phdr.p_memsz phdr.p_filesz

unfoldable pub file_length : Reader → Phdr → Option Phdr → ℕ
file_length r phdr next_phdr =
    ((phdr.p_offset + (extended r phdr next_phdr).1) % word
      + word
      - align_down phdr.p_offset (seg_align r))
    % word

-- The file's part of a segment.
unfoldable pub load_file : Reader → Phdr → ℕ → Trace → Bool × Trace
load_file r phdr len trace =
    if len == 0
    then (true, trace)
    else if is_refused r phdr
    then (false, trace)
    else if r.should_use_16kib_app_compat
    then compat_map_segment r phdr len trace
    else map_segment r phdr len trace

unfoldable pub load_rest : Reader → Phdr → Option Phdr → Trace → Option (Bool × Trace)
load_rest r phdr next_phdr trace =
    let (memsz, filesz) = extended r phdr next_phdr in
    let seg_page_end = align_up ((seg_start r phdr + memsz) % word) (seg_align r) in
    let seg_file_end = (seg_start r phdr + filesz) % word in
    elim (drop_padding_pages r phdr seg_file_end (zero_fill_segment r phdr trace)) [
      | none ↦ none
      | some dropped ↦ some (map_bss_section r phdr seg_page_end seg_file_end dropped)
    ]

-- One round of the loop over the program headers.
unfoldable pub load_segment : Reader → Phdr → Option Phdr → Trace → Option (Bool × Trace)
load_segment r phdr next_phdr trace =
    if not (phdr.p_type == pt_load)
    then some (true, trace)
    else if r.file_size == 0
    then some (false, trace)
    else if ltb r.file_size ((phdr.p_offset + phdr.p_filesz) % word)
    then some (false, trace)
    else let (ok, loaded) = load_file r phdr (file_length r phdr next_phdr) trace in
      if not ok then some (false, loaded) else load_rest r phdr next_phdr loaded

abbrev pub head_of : List Phdr → Option Phdr
head_of [] = none
head_of (phdr ∷ phdrs) = some phdr

unfoldable pub load_loop : Reader → List Phdr → Trace → Option (Bool × Trace)
load_loop r [] trace = some (true, trace)
load_loop r (phdr ∷ phdrs) trace = elim (load_segment r phdr (head_of phdrs) trace) [
  | none ↦ none
  | some (ok, after) ↦
      let rest = load_loop r phdrs after in if not ok then some (false, after) else rest
]

-- `LoadSegments` behind `Setup16KiBAppCompat`.
unfoldable pub load_segments : Reader → List Phdr → Option (Bool × Trace)
load_segments r phdrs =
    if leb 16384 r.page
      && ltb (phdr_table_get_minimum_alignment r.page phdrs) r.page
      && not r.should_use_16kib_app_compat
    then some (false, [])
    else load_loop r phdrs []

-- `_phdr_table_set_load_prot` on processors without BTI; the answer is whether all calls worked.
unfoldable pub load_prot : Phdr → ℕ → ℕ
load_prot phdr extra_prot_flags =
    let prot = bit_or (pflags_to_prot phdr.p_flags) extra_prot_flags in
    if bit_and prot 2 == 0 then prot else bit_and prot 3

unfoldable pub set_load_prot : Reader → ℕ → List Phdr → Trace → Bool × Trace
set_load_prot r extra_prot_flags [] trace = (true, trace)
set_load_prot r extra_prot_flags (phdr ∷ phdrs) trace =
    let memsz = (extended r phdr (head_of phdrs)).0 in
    let start = align_down (seg_start r phdr) r.page in
    let end = align_up (((phdr.p_vaddr + memsz) % word + r.load_bias) % word) r.page in
    let (ok, after) =
      emit r (protect start ((end + word - start) % word) (load_prot phdr extra_prot_flags))
        trace in
    let skipped = set_load_prot r extra_prot_flags phdrs trace in
    let rest = set_load_prot r extra_prot_flags phdrs after in
    if not (phdr.p_type == pt_load) || not (bit_and phdr.p_flags 2 == 0)
    then skipped
    else if not ok
    then (false, after)
    else rest

unfoldable pub phdr_table_protect_segments : Reader → List Phdr → Trace → Bool × Trace
phdr_table_protect_segments r phdrs trace = set_load_prot r 0 phdrs trace

unfoldable pub phdr_table_unprotect_segments : Reader → List Phdr → Trace → Bool × Trace
phdr_table_unprotect_segments r phdrs trace = set_load_prot r 2 phdrs trace

abbrev pub pt_gnu_relro : ℕ
pt_gnu_relro = 0x6474e552

-- `_extend_gnu_relro_prot_end`: the end of the pages, from the load segment at the same address.
unfoldable pub extend_gnu_relro_prot_end : Reader → Phdr → List Phdr → ℕ → ℕ
extend_gnu_relro_prot_end r relro [] seg_page_end = seg_page_end
extend_gnu_relro_prot_end r relro (phdr ∷ phdrs) seg_page_end =
    let rest = extend_gnu_relro_prot_end r relro phdrs seg_page_end in
    if (phdr.p_type == pt_load) && (phdr.p_vaddr == relro.p_vaddr)
    then (if ltb relro.p_memsz phdr.p_memsz
        then seg_page_end
        else align_up
            (((phdr.p_vaddr + (extended r phdr (head_of phdrs)).0) % word + r.load_bias) % word)
            r.page)
    else rest

unfoldable pub relro_call : Reader → List Phdr → Phdr → ℕ → SysCall
relro_call r phdrs relro prot =
    let start = (align_down relro.p_vaddr r.page + r.load_bias) % word in
    let end =
      extend_gnu_relro_prot_end r relro phdrs
        ((align_up ((relro.p_vaddr + relro.p_memsz) % word) r.page + r.load_bias) % word) in
    protect start ((end + word - start) % word) prot

-- The loop of `_phdr_table_set_gnu_relro_prot` over the headers that are left.
unfoldable pub relro_loop : Reader → List Phdr → ℕ → List Phdr → Trace → Bool × Trace
relro_loop r phdrs prot [] trace = (true, trace)
relro_loop r phdrs prot (phdr ∷ left) trace =
    let (ok, after) = emit r (relro_call r phdrs phdr prot) trace in
    let skipped = relro_loop r phdrs prot left trace in
    let rest = relro_loop r phdrs prot left after in
    if not (phdr.p_type == pt_gnu_relro) then skipped else if not ok then (false, after) else rest

unfoldable pub phdr_table_protect_gnu_relro : Reader → List Phdr → Trace → Bool × Trace
phdr_table_protect_gnu_relro r phdrs trace = relro_loop r phdrs 1 phdrs trace

unfoldable pub phdr_table_unprotect_gnu_relro : Reader → List Phdr → Trace → Bool × Trace
phdr_table_unprotect_gnu_relro r phdrs trace = relro_loop r phdrs 3 phdrs trace
