-- ===== src/Elf/Loaded.antt =====
-- The program headers in the loaded segments: of linker/elf_reader.cpp
-- (library/src/main/cpp/) `FindPhdr` and `CheckPhdr`, on 64-bit machines.
use fake_linker.Prelude.{
  ℕ, ◌+◌, ◌*◌, ◌%◌, ◌≡◌, Bool, true, false, ◌&&◌, Option, none, some, List, [], ◌∷◌, arith, leb,
  ◌==◌, if◌then◌else◌, length,
}
use fake_linker.Bits.Align.{word}
use fake_linker.Elf.{Phdr, pt_load}
use fake_linker.Elf.Headers.{phdr_size}

-- The part of a load segment that comes from the file, at its address in memory.
unfoldable holds_table : ℕ → ℕ → ℕ → Phdr → Bool
holds_table load_bias loaded loaded_end phdr =
    let seg_start = (phdr.p_vaddr + load_bias) % word in
    let seg_end = (phdr.p_filesz + seg_start) % word in
    (phdr.p_type == pt_load) && (leb seg_start loaded && leb loaded_end seg_end)

unfoldable held_by_any : ℕ → ℕ → ℕ → List Phdr → Bool
held_by_any load_bias loaded loaded_end [] = false
held_by_any load_bias loaded loaded_end (phdr ∷ phdrs) =
    let rest = held_by_any load_bias loaded loaded_end phdrs in
    if holds_table load_bias loaded loaded_end phdr then true else rest

-- `CheckPhdr`: the new `loaded_phdr_`, and `none` for the answer false.
unfoldable check_phdr : ℕ → List Phdr → ℕ → Option ℕ
check_phdr load_bias phdrs loaded =
    let loaded_end = (loaded + length phdrs * phdr_size) % word in
    if held_by_any load_bias loaded loaded_end phdrs then some loaded else none

unfoldable first_of_type : ℕ → List Phdr → Option Phdr
first_of_type type [] = none
first_of_type type (phdr ∷ phdrs) =
    let rest = first_of_type type phdrs in if phdr.p_type == type then some phdr else rest

-- Through the first load segment; `e_phoff` reads the member of the ELF header at an address.
unfoldable check_first_load : ℕ → List Phdr → (ℕ → ℕ) → Option Phdr → Option ℕ
check_first_load load_bias phdrs e_phoff none = none
check_first_load load_bias phdrs e_phoff (some phdr) =
    let elf_addr = (load_bias + phdr.p_vaddr) % word in
    if phdr.p_offset == 0
    then check_phdr load_bias phdrs ((elf_addr + e_phoff elf_addr) % word)
    else none

-- PT_PHDR, which is 6, goes first.
unfoldable check_phdr_of : ℕ → List Phdr → (ℕ → ℕ) → Option Phdr → Option ℕ
check_phdr_of load_bias phdrs e_phoff none =
    check_first_load load_bias phdrs e_phoff (first_of_type pt_load phdrs)
check_phdr_of load_bias phdrs e_phoff (some phdr) =
    check_phdr load_bias phdrs ((load_bias + phdr.p_vaddr) % word)

-- `FindPhdr`
unfoldable find_phdr : ℕ → List Phdr → (ℕ → ℕ) → Option ℕ
find_phdr load_bias phdrs e_phoff = check_phdr_of load_bias phdrs e_phoff (first_of_type 6 phdrs)

-- An answer at which the whole table lies in a load segment.
abbrev IsHeld : ℕ → List Phdr → Option ℕ → Type 0
IsHeld load_bias phdrs answer =
    (loaded : ℕ)
    → answer ≡ some loaded
    → held_by_any load_bias loaded ((loaded + length phdrs * phdr_size) % word) phdrs ≡ true

check_phdr-IsHeld :
    (load_bias : ℕ) (phdrs : List Phdr) (at : ℕ)
    → IsHeld load_bias phdrs (check_phdr load_bias phdrs at)
unfolding check_phdr
check_phdr-IsHeld load_bias phdrs at loaded e = grind (arith, e)

check_first_load-IsHeld :
    (load_bias : ℕ) (phdrs : List Phdr) (e_phoff : ℕ → ℕ) (found : Option Phdr)
    → IsHeld load_bias phdrs (check_first_load load_bias phdrs e_phoff found)
unfolding check_first_load
check_first_load-IsHeld load_bias phdrs e_phoff none loaded e = ground (arith, e)
check_first_load-IsHeld load_bias phdrs e_phoff (some phdr) loaded e =
    let elf_addr = (load_bias + phdr.p_vaddr) % word in
    let inner = check_phdr-IsHeld load_bias phdrs ((elf_addr + e_phoff elf_addr) % word) loaded in
    ground (arith, e, inner)

check_phdr_of-IsHeld :
    (load_bias : ℕ) (phdrs : List Phdr) (e_phoff : ℕ → ℕ) (found : Option Phdr)
    → IsHeld load_bias phdrs (check_phdr_of load_bias phdrs e_phoff found)
unfolding check_phdr_of
check_phdr_of-IsHeld load_bias phdrs e_phoff none =
    check_first_load-IsHeld load_bias phdrs e_phoff (first_of_type pt_load phdrs)
check_phdr_of-IsHeld load_bias phdrs e_phoff (some phdr) =
    check_phdr-IsHeld load_bias phdrs ((load_bias + phdr.p_vaddr) % word)

-- Where `FindPhdr` answers true, the table it found lies in a load segment.
find_phdr-IsHeld :
    (load_bias : ℕ) (phdrs : List Phdr) (e_phoff : ℕ → ℕ)
    → IsHeld load_bias phdrs (find_phdr load_bias phdrs e_phoff)
unfolding find_phdr
find_phdr-IsHeld load_bias phdrs e_phoff =
    check_phdr_of-IsHeld load_bias phdrs e_phoff (first_of_type 6 phdrs)
