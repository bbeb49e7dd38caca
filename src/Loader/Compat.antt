-- ===== src/Loader/Compat.antt =====
-- The 16 KiB page mode of linker/linker_phdr_16kib_compat.cpp (library/src/main/cpp/): where the
-- read-execute part of a library ends.
use fake_linker.Prelude.{
  ℕ, ◌+◌, ◌-◌, ◌%◌, bit_and, Bool, true, false, not, ◌&&◌, ◌||◌, Option, none, some, List, [], ◌∷◌,
  leb, ◌==◌, if◌then◌else◌, is_some,
}
use fake_linker.Bits.Align.{word, align_down, align_up}
use fake_linker.Elf.{Phdr, pt_load}
use fake_linker.Loader.{compat_page, pt_gnu_relro, pflags_to_prot}

-- `HasAtMostOneRelroSegment`: `none` is the answer false.
unfoldable pub has_at_most_one_relro_segment : List Phdr → Option Phdr → Option (Option Phdr)
has_at_most_one_relro_segment [] relro = some relro
has_at_most_one_relro_segment (phdr ∷ phdrs) relro =
    let skipped = has_at_most_one_relro_segment phdrs relro in
    let found = has_at_most_one_relro_segment phdrs (some phdr) in
    if not (phdr.p_type == pt_gnu_relro) then skipped else if is_some relro then none else found

-- The first segment that is readable and writable. `last` says whether there is one already, and
-- whether the header just passed is the last of them. `none` is the answer false.
unfoldable pub first_rw_loop : List Phdr → Option Phdr → Bool → Option (Option Phdr)
first_rw_loop [] first_rw adjacent = some first_rw
first_rw_loop (phdr ∷ phdrs) first_rw adjacent =
    let prot = pflags_to_prot phdr.p_flags in
    let first = if is_some first_rw then first_rw else some phdr in
    let skipped = first_rw_loop phdrs first_rw false in
    let taken = first_rw_loop phdrs first true in
    if not (phdr.p_type == pt_load) || not (bit_and prot 3 == 3)
    then skipped
    else if is_some first_rw && not adjacent
    then none
    else taken

unfoldable pub segment_contains_prefix : Option Phdr → Phdr → Bool
segment_contains_prefix none prefix = false
segment_contains_prefix (some segment) prefix = segment.p_vaddr == prefix.p_vaddr

-- What `IsEligibleFor16KiBAppCompat` answers: it reads through a null pointer where there is
-- neither a RELRO nor a writable segment.
pub data Eligible : Type 0 where
  crashes : Eligible
  refused : Eligible
  boundary : ℕ → Eligible

unfoldable pub relro_end : Phdr → Eligible
relro_end relro =
    let end = relro.p_vaddr + relro.p_memsz in
    if leb word end then refused else boundary (align_up end compat_page)

unfoldable pub is_eligible_for_16kib_app_compat : List Phdr → Eligible
is_eligible_for_16kib_app_compat phdrs = elim (has_at_most_one_relro_segment phdrs none) [
  | none ↦ refused
  | some relro ↦ elim (first_rw_loop phdrs none false) [
    | none ↦ refused
    | some first_rw ↦ elim relro [
      | none ↦ elim first_rw [
        | none ↦ crashes
        | some first ↦ boundary (align_down first.p_vaddr compat_page)
      ]
      | some r ↦ if segment_contains_prefix first_rw r then relro_end r else refused
    ]
  ]
]

-- `perm_boundary_offset`
unfoldable pub perm_boundary_offset : ℕ → ℕ → ℕ
perm_boundary_offset page addr =
    let offset = bit_and addr (page - 1) in if offset == 0 then 0 else page - offset

-- What `Setup16KiBAppCompat` reads and sets.
pub record Placed : Type 0 where
  pub load_start : ℕ
  pub load_size : ℕ
  pub load_bias : ℕ
  pub compat_relro_start : ℕ
  pub compat_relro_size : ℕ

-- The placement for a boundary; `none` where a CHECK fails.
unfoldable pub place : ℕ → ℕ → Placed → Option Placed
place page rx_rw_boundary p =
    let bias = (p.load_bias + perm_boundary_offset page rx_rw_boundary) % word in
    let rw_start = (bias + rx_rw_boundary) % word in
    let rw_size = (p.load_size + word - (rw_start + word - p.load_start) % word) % word in
    if not (rw_start % page == 0) || not (rw_size % page == 0)
    then none
    else some (record p {
      load_bias = bias;
      compat_relro_start = p.load_start;
      compat_relro_size = (p.load_size + word - rw_size) % word;
    })

-- `Setup16KiBAppCompat`: the outer `none` is the end of the process.
unfoldable pub setup_16kib_app_compat : Bool → ℕ → List Phdr → Placed → Option (Bool × Placed)
setup_16kib_app_compat should_use page phdrs p =
    if not should_use then some (true, p) else elim (is_eligible_for_16kib_app_compat phdrs) [
      | crashes ↦ none
      | refused ↦ some (false, p)
      | boundary b ↦ elim (place page b p) [ none ↦ none | some placed ↦ some (true, placed) ]
    ]
