-- ===== src/Notes.antt =====
-- Notes: `__get_elf_note` of linker/elf_reader.cpp, and `GnuPropertySection` of
-- linker/linker_note_gnu_property.cpp (library/src/main/cpp/) on arm64. Memory is read through a
-- record.
pub mod Ends
use fake_linker.Prelude.{
  ℕ, zero, suc, ◌+◌, ◌-◌, ◌*◌, ◌/◌, ◌%◌, ◌^◌, ◌≤◌, ◌<◌, bit_and, bit_or, bit_xor, ◌≡◌, refl, sym,
  ap, ◌∙◌, ◌≢◌, ◌↔◌, ◌⊎◌, inl, inr, Bool, true, false, not, ◌&&◌, ◌||◌, Option, none, some, List,
  [], ◌∷◌, ◌++◌, map, arith, ltb, leb, ◌==◌, if◌then◌else◌, ltb→lt, leb→le, ==→eq, ==_self, tests,
  Bool-cases, Option-cases, all_below, all_below_at, if-cases, length, is_empty, is_some,
  length-append, All, select, any, Bytes, bytes, text_eq,
}
use fake_linker.Bits.Align.{word, align_up}
use fake_linker.Elf.{Phdr}

-- The 32-bit word at an address, and the bytes from one.
pub record Memory : Type 0 where
  pub word_at : ℕ → ℕ
  pub bytes_at : ℕ → ℕ → Bytes

abbrev pub pt_note : ℕ
pt_note = 4

-- The addresses of the note's header and of its description. The inner `none` is the answer false,
-- the outer one stands for fuel that ran out. The header is three words: the size of the name, the
-- size of the description and the type.
unfoldable pub note_loop : Memory → ℕ → Bytes → ℕ → ℕ → ℕ → Option (Option (ℕ × ℕ))
note_loop m note_type note_name zero p note_end = none
note_loop m note_type note_name (suc fuel) p note_end =
    let namesz = m.word_at p in
    let descsz = m.word_at (p + 4) in
    let name = p + 12 in
    let desc = name + align_up namesz 4 in
    let behind = desc + align_up descsz 4 in
    let rest = note_loop m note_type note_name fuel behind note_end in
    let len = length note_name + 1 in
    if not (leb (p + 12) note_end)
    then some none
    else if ltb note_end behind
    then some none
    else if not (m.word_at (p + 8) == note_type)
    then rest
    else if not (namesz == len) || not (text_eq (m.bytes_at name len) (note_name ++ 0 ∷ []))
    then some none
    else some (some (p, desc))

unfoldable pub get_elf_note : Memory → ℕ → Bytes → ℕ → Phdr → ℕ → Option (Option (ℕ × ℕ))
get_elf_note m note_type note_name note_addr phdr fuel =
    if not (phdr.p_type == pt_note) || (note_addr == 0)
    then some none
    else note_loop m note_type note_name fuel note_addr (note_addr + phdr.p_memsz)

-- `__find_elf_note`
unfoldable pub find_elf_note : Memory → ℕ → Bytes → ℕ → ℕ → List Phdr → Option (Option (ℕ × ℕ))
find_elf_note m note_type note_name load_bias fuel [] = some none
find_elf_note m note_type note_name load_bias fuel (phdr ∷ phdrs) =
    let rest = find_elf_note m note_type note_name load_bias fuel phdrs in
    elim (get_elf_note m note_type note_name ((load_bias + phdr.p_vaddr) % word) phdr fuel) [
      | none ↦ none
      | some none ↦ rest
      | some (some found) ↦ some (some found)
    ]

abbrev pub pt_gnu_property : ℕ
pt_gnu_property = 0x6474e553

-- `FindSegment`: the address of the note of the first PT_GNU_PROPERTY segment, if the segment is
-- large enough for its header of 16 bytes and its description.
unfoldable pub find_segment : Memory → ℕ → List Phdr → Option ℕ
find_segment m load_bias [] = none
find_segment m load_bias (phdr ∷ phdrs) =
    let rest = find_segment m load_bias phdrs in
    let note = (load_bias + phdr.p_vaddr) % word in
    if not (phdr.p_type == pt_gnu_property)
    then rest
    else if ltb phdr.p_memsz 16
    then none
    else if ltb (phdr.p_memsz - 16) (m.word_at (note + 4))
    then none
    else some note

-- NT_GNU_PROPERTY_TYPE_0 is 5.
unfoldable pub sanity_check : Memory → ℕ → Bool
sanity_check m note =
    (m.word_at (note + 8) == 5)
    && (m.word_at note == 4)
    && text_eq (m.bytes_at (note + 12) 4) (bytes "GNU" ++ 0 ∷ [])

-- The size of a property in 32 bits: its header of 8 bytes and its data, up to a multiple of 8.
unfoldable pub property_size : Memory → ℕ → ℕ
property_size m property = align_up (8 + m.word_at (property + 4)) 8 % 2 ^ 32

-- GNU_PROPERTY_AARCH64_FEATURE_1_AND is 0xc0000000. The answer, and `bti_compatible`.
unfoldable pub parse_loop : Memory → ℕ → ℕ → ℕ → ℕ → Bool → Option (Bool × Bool)
parse_loop m desc descsz zero offset bti = none
parse_loop m desc descsz (suc fuel) offset bti =
    let property = desc + offset in
    let size = property_size m property in
    let is_feature = m.word_at property == 0xc0000000 in
    let bti' = if is_feature then not (bit_and (m.word_at (property + 8)) 1 == 0) else bti in
    let rest = parse_loop m desc descsz fuel ((offset + size) % 2 ^ 32) bti' in
    if leb descsz offset
    then some (true, bti)
    else if ltb (descsz - offset) 8
    then some (false, bti)
    else if ltb (descsz - offset) size
    then some (false, bti)
    else if is_feature && not (m.word_at (property + 4) == 4)
    then some (false, bti)
    else rest

unfoldable pub parse : Memory → ℕ → ℕ → Option (Bool × Bool)
parse m note fuel = parse_loop m (note + 16) (m.word_at (note + 4)) fuel 0 false

-- The constructor: `bti_compatible` of a library.
unfoldable pub gnu_property_section : Memory → ℕ → List Phdr → ℕ → Option Bool
gnu_property_section m load_bias phdrs fuel = elim (find_segment m load_bias phdrs) [
  | none ↦ some false
  | some note ↦
      if sanity_check m note
      then elim (parse m note fuel) [ none ↦ none | some (ok, bti) ↦ some bti ]
      else some false
]
