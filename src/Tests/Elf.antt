-- ===== src/Tests/Elf.antt =====
-- The theorems on the ELF reader, on a table of three segments.
use fake_linker.Prelude.{ℕ, ◌^◌, refl, List, [], ◌∷◌, arith, All}
use fake_linker.Elf.{Phdr, file_offset_to_virtual_offset, phdr_table_get_load_size}
use fake_linker.Elf.Range.{IsAnswer, file_offset_to_virtual_offset-IsAnswer}
use fake_linker.Elf.Extent.{LiesIn, Fits, phdr_table_get_load_size-LiesIn}

abbrev segment : ℕ → ℕ → ℕ → ℕ → Phdr
segment type offset vaddr size = record {
  p_type = type;
  p_offset = offset;
  p_vaddr = vaddr;
  p_filesz = size;
  p_memsz = size;
  p_flags = 5;
  p_align = 0x4000;
}

abbrev three : List Phdr
three = segment 6 64 64 0x100 ∷ segment 1 0 0 0x1800 ∷ segment 1 0x2000 0x3000 0x900 ∷ []

file_offset_to_virtual_offset-IsAnswer_example :
    IsAnswer 0x2010 three (file_offset_to_virtual_offset three 0x2010)
file_offset_to_virtual_offset-IsAnswer_example =
    file_offset_to_virtual_offset-IsAnswer three 0x2010
      (omega arith, (omega arith, (omega arith, tt)))

three-Fits : All (Fits (2 ^ 12)) three
three-Fits = (omega arith, (omega arith, (omega arith, tt)))

phdr_table_get_load_size-LiesIn_example :
    All
      (LiesIn
        (phdr_table_get_load_size (2 ^ 12) three).1
        (phdr_table_get_load_size (2 ^ 12) three).2)
      three
phdr_table_get_load_size-LiesIn_example =
    phdr_table_get_load_size-LiesIn 12 three (omega arith) three-Fits refl
