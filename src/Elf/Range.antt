-- ===== src/Elf/Range.antt =====
-- File ranges and file offsets.
use native.Mathlib.Nat.{mod-eq_of_lt}
use fake_linker.Prelude.{
  ℕ, ◌+◌, ◌-◌, ◌%◌, ◌≤◌, ◌<◌, ◌≡◌, refl, ap, ◌∙◌, ◌≢◌, ◌↔◌, Bool, true, false, ◌&&◌, Option, none,
  some, List, [], ◌∷◌, arith, ltb, leb, ◌==◌, if-cases, All, any,
}
use fake_linker.Bits.Align.{word}
use fake_linker.Elf.{Phdr, off_limit, safe_add, check_file_range, file_offset_to_virtual_offset}

-- The range lies in the file, does not begin at its head, and is aligned.
abbrev pub IsInFile : ℕ → ℕ → ℕ → ℕ → ℕ → Type 0
IsInFile file_offset file_size offset size alignment =
    (offset ≢ 0)
    × (file_offset + offset < file_size)
    × (file_offset + offset + size ≤ file_size)
    × (offset % alignment ≡ 0)

check_file_range-to :
    (file_offset file_size offset size alignment : ℕ)
    → check_file_range file_offset file_size offset size alignment ≡ true
    → IsInFile file_offset file_size offset size alignment
unfolding check_file_range safe_add
check_file_range-to file_offset file_size offset size alignment e = ground arith

check_file_range-from :
    (file_offset file_size offset size alignment : ℕ)
    → file_size < off_limit
    → IsInFile file_offset file_size offset size alignment
    → check_file_range file_offset file_size offset size alignment ≡ true
unfolding check_file_range safe_add
check_file_range-from file_offset file_size offset size alignment fits i =
    ground (arith, i.0, i.1, i.2, i.3)

-- `CheckFileRange` answers true exactly for the ranges inside the file, without an overflow, for
-- every offset and size, if the file's size is below 2^63.
pub check_file_range_iff :
    (file_offset file_size offset size alignment : ℕ)
    → file_size < off_limit
    → (check_file_range file_offset file_size offset size alignment ≡ true)
      ↔ IsInFile file_offset file_size offset size alignment
check_file_range_iff file_offset file_size offset size alignment fits = (
  check_file_range-to file_offset file_size offset size alignment,
  check_file_range-from file_offset file_size offset size alignment fits,
)

-- The segment holds the byte at a file offset.
abbrev pub covers : ℕ → Phdr → Bool
covers offset p = leb p.p_offset offset && ltb offset (p.p_offset + p.p_filesz)

-- The segment holds the byte at the file offset, and `v` is the byte's virtual offset.
abbrev pub maps_to : ℕ → ℕ → Phdr → Bool
maps_to offset v p = covers offset p && (v == p.p_vaddr + (offset - p.p_offset))

-- What an answer says; `none` is -1.
abbrev pub IsAnswer : ℕ → List Phdr → Option ℕ → Type 0
IsAnswer offset phdrs none = any (covers offset) phdrs ≡ false
IsAnswer offset phdrs (some v) = any (maps_to offset v) phdrs ≡ true

IsAnswer-other :
    (offset : ℕ) (p : Phdr) (ps : List Phdr) (o : Option ℕ)
    → covers offset p ≡ false
    → IsAnswer offset ps o
    → IsAnswer offset (p ∷ ps) o
IsAnswer-other offset p ps none n a = ground (arith, n, a)
IsAnswer-other offset p ps (some v) n a = ground (arith, n, a)

-- If the addresses of every segment end below 2^64 - 1, `FileOffsetToVirtualOffset` answers -1
-- exactly if no segment holds the byte at the offset, and any other answer is the byte's virtual
-- offset in a segment that holds it.
pub file_offset_to_virtual_offset-IsAnswer :
    (phdrs : List Phdr) (offset : ℕ)
    → All (λ (p : Phdr). p.p_vaddr + p.p_filesz < word) phdrs
    → IsAnswer offset phdrs (file_offset_to_virtual_offset phdrs offset)
unfolding file_offset_to_virtual_offset
file_offset_to_virtual_offset-IsAnswer [] offset fits = refl
file_offset_to_virtual_offset-IsAnswer (p ∷ ps) offset fits =
    if-cases (IsAnswer offset (p ∷ ps))
      (leb p.p_offset offset && ltb (offset - p.p_offset) p.p_filesz)
      (λ here.
        let low : p.p_offset ≤ offset = ground arith in
        let high : offset - p.p_offset < p.p_filesz = ground arith in
        let exact : (p.p_vaddr + offset - p.p_offset) % word ≡ p.p_vaddr + (offset - p.p_offset) =
          ap (λ (x : ℕ). x % word) {y = p.p_vaddr + (offset - p.p_offset)} (omega arith)
          ∙ mod-eq_of_lt (omega (arith, fits.0)) in
        if-cases (IsAnswer offset (p ∷ ps)) ((p.p_vaddr + offset - p.p_offset) % word == word - 1)
          (λ minus. absurd (ground (arith, exact, fits.0, low, high, minus)))
          (λ other. ground arith))
      (λ other.
        IsAnswer-other offset p ps _ (ground arith)
          (file_offset_to_virtual_offset-IsAnswer ps offset fits.1))
