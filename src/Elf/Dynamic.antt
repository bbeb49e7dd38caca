-- ===== src/Elf/Dynamic.antt =====
-- The dynamic section and its string table: of linker/elf_reader.cpp
-- (library/src/main/cpp/) `ReadDynamicSection`. The messages and warnings are left out.
use fake_linker.Prelude.{
  ℕ, zero, suc, ◌≡◌, Bool, true, false, not, ◌&&◌, ◌||◌, Option, none, some, List, [], ◌∷◌, ltb,
  ◌==◌, if◌then◌else◌, is_some, arith,
}
use fake_linker.Elf.{Phdr, check_file_range, arith}
use fake_linker.Elf.Headers.{Headers, Fragment, map_fragment}

-- The members of a section header that the reader looks at.
pub record Shdr : Type 0 where
  pub sh_type : ℕ
  pub sh_offset : ℕ
  pub sh_size : ℕ
  pub sh_link : ℕ

-- The first section of the type SHT_DYNAMIC, which is 6.
unfoldable dynamic_shdr : List Shdr → Option Shdr
dynamic_shdr [] = none
dynamic_shdr (shdr ∷ shdrs) =
    let rest = dynamic_shdr shdrs in if shdr.sh_type == 6 then some shdr else rest

-- The offset and the size of the last PT_DYNAMIC, which is 2; both are 0 without one.
unfoldable pt_dynamic : ℕ × ℕ → List Phdr → ℕ × ℕ
pt_dynamic range [] = range
pt_dynamic range (phdr ∷ phdrs) =
    pt_dynamic (if phdr.p_type == 2 then (phdr.p_offset, phdr.p_filesz) else range) phdrs

-- `&shdr_table_[i]`, and `none` from the end of the table on.
unfoldable shdr_at : List Shdr → ℕ → Option Shdr
shdr_at [] i = none
shdr_at (shdr ∷ shdrs) zero = some shdr
shdr_at (shdr ∷ shdrs) (suc i) = shdr_at shdrs i

-- From Android O on the section has to be where PT_DYNAMIC says.
unfoldable is_placed : ℕ → Shdr → ℕ × ℕ → Bool
is_placed android_api shdr range =
    ltb android_api 26 || ((range.0 == shdr.sh_offset) && (range.1 == shdr.sh_size))

-- The answer, `dynamic_fragment_` and `strtab_fragment_`; a fragment is kept where a later
-- check fails.
abbrev Sections : Type 0
Sections = Bool × (Option Fragment × Option Fragment)

unfoldable map_strtab : Headers → (ℕ → ℕ → Option ℕ) → Fragment → Shdr → Sections
map_strtab h mmap dynamic shdr =
    let strtab = map_fragment h.page mmap h.file_offset shdr.sh_offset shdr.sh_size in
    if not (check_file_range h.file_offset h.file_size shdr.sh_offset shdr.sh_size 1)
    then (false, (some dynamic, none))
    else (is_some strtab, (some dynamic, strtab))

-- The two calls of `mmap` are two parameters. An entry of the section is aligned to 8.
unfoldable map_dynamic : Headers → (ℕ → ℕ → Option ℕ) → (ℕ → ℕ → Option ℕ) → Shdr → Shdr → Sections
map_dynamic h mmap mmap_next dynamic strtab =
    if not (check_file_range h.file_offset h.file_size dynamic.sh_offset dynamic.sh_size 8)
    then (false, (none, none))
    else elim (map_fragment h.page mmap h.file_offset dynamic.sh_offset dynamic.sh_size) [
      | none ↦ (false, (none, none))
      | some fragment ↦ map_strtab h mmap_next fragment strtab
    ]

-- The section that `sh_link` names has to be of the type SHT_STRTAB, which is 3.
unfoldable map_linked :
    Headers → (ℕ → ℕ → Option ℕ) → (ℕ → ℕ → Option ℕ) → Shdr → Option Shdr → Sections
map_linked h mmap mmap_next dynamic none = (false, (none, none))
map_linked h mmap mmap_next dynamic (some strtab) =
    if not (strtab.sh_type == 3)
    then (false, (none, none))
    else map_dynamic h mmap mmap_next dynamic strtab

-- The rest of `ReadDynamicSection`, once the search for the section is done.
unfoldable read_found :
    Headers
    → ℕ
    → (ℕ → ℕ → Option ℕ)
    → (ℕ → ℕ → Option ℕ)
    → List Phdr
    → List Shdr
    → Option Shdr
    → Sections
read_found h android_api mmap mmap_next phdrs shdrs none = (false, (none, none))
read_found h android_api mmap mmap_next phdrs shdrs (some dynamic) =
    if not (is_placed android_api dynamic (pt_dynamic (0, 0) phdrs))
    then (false, (none, none))
    else map_linked h mmap mmap_next dynamic (shdr_at shdrs dynamic.sh_link)

-- `ReadDynamicSection`
unfoldable read_dynamic_section :
    Headers → ℕ → (ℕ → ℕ → Option ℕ) → (ℕ → ℕ → Option ℕ) → List Phdr → List Shdr → Sections
read_dynamic_section h android_api mmap mmap_next phdrs shdrs =
    read_found h android_api mmap mmap_next phdrs shdrs (dynamic_shdr shdrs)

-- Where the answer is true both fragments are mapped.
abbrev IsMapped : Sections → Type 0
IsMapped s = s.0 ≡ true → (is_some (s.1.0) && is_some (s.1.1)) ≡ true

map_strtab-IsMapped :
    (h : Headers) (mmap : ℕ → ℕ → Option ℕ) (f : Fragment) (shdr : Shdr)
    → IsMapped (map_strtab h mmap f shdr)
unfolding map_strtab
map_strtab-IsMapped h mmap f shdr e = ground (arith, e)

map_dynamic-IsMapped :
    (h : Headers) (mmap mmap_next : ℕ → ℕ → Option ℕ) (dynamic strtab : Shdr)
    → IsMapped (map_dynamic h mmap mmap_next dynamic strtab)
unfolding map_dynamic map_strtab
map_dynamic-IsMapped h mmap mmap_next dynamic strtab e = ground (arith, e)

map_linked-IsMapped :
    (h : Headers) (mmap mmap_next : ℕ → ℕ → Option ℕ) (dynamic : Shdr) (linked : Option Shdr)
    → IsMapped (map_linked h mmap mmap_next dynamic linked)
unfolding map_linked
map_linked-IsMapped h mmap mmap_next dynamic none e = ground (arith, e)
map_linked-IsMapped h mmap mmap_next dynamic (some strtab) e =
    let inner = map_dynamic-IsMapped h mmap mmap_next dynamic strtab in ground (arith, e, inner)

read_found-IsMapped :
    (h : Headers) (android_api : ℕ) (mmap mmap_next : ℕ → ℕ → Option ℕ) (phdrs : List Phdr)
    (shdrs : List Shdr) (found : Option Shdr)
    → IsMapped (read_found h android_api mmap mmap_next phdrs shdrs found)
unfolding read_found
read_found-IsMapped h android_api mmap mmap_next phdrs shdrs none e = ground (arith, e)
read_found-IsMapped h android_api mmap mmap_next phdrs shdrs (some dynamic) e =
    let linked = shdr_at shdrs dynamic.sh_link in
    let inner = map_linked-IsMapped h mmap mmap_next dynamic linked in ground (arith, e, inner)

-- Where `ReadDynamicSection` answers true, the section and the string table are mapped.
read_dynamic_section-IsMapped :
    (h : Headers) (android_api : ℕ) (mmap mmap_next : ℕ → ℕ → Option ℕ) (phdrs : List Phdr)
    (shdrs : List Shdr)
    → IsMapped (read_dynamic_section h android_api mmap mmap_next phdrs shdrs)
unfolding read_dynamic_section
read_dynamic_section-IsMapped h android_api mmap mmap_next phdrs shdrs =
    read_found-IsMapped h android_api mmap mmap_next phdrs shdrs (dynamic_shdr shdrs)
