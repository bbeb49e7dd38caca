-- ===== src/Tests/Maps.antt =====
-- The theorems on `MapsHelper` on a file of four mappings, with a kernel that always succeeds.
use fake_linker.Prelude.{
  ℕ, ◌+◌, ◌≤◌, ◌<◌, bit_and, ◌≡◌, refl, ◌≢◌, ◌⊎◌, inl, inr, true, ◌&&◌, none, some, [], ◌∷◌, arith,
  ltb, leb, if◌then◌else◌, All, any, Bytes, bytes,
}
use fake_linker.Maps.Line.{
  Scan, PageProtect, MapsHelper, MapsFile, fresh, format_line, scan_line, format_protect,
  match_path,
}
use fake_linker.Maps.Window.{get_memory_protect}
use fake_linker.Maps.Window.Exact.{get_memory_protect-gathered, gathered, IsReadable, IsSorted}
use fake_linker.Maps.Library.{
  get_library_protect, protect_loop, read_library_map, library_loop, library_round,
}
use fake_linker.Maps.Library.Ends.{get_library_protect-ne-none}
use fake_linker.Maps.Library.Found.{get_library_protect-IsLibrary, IsLibrary}
use fake_linker.Maps.Lookup.{check_address_page_protect}
use fake_linker.Maps.Lookup.Covered.{permits, check_address_page_protect-permits}
use fake_linker.Maps.Protect.{Kernel, unlock_page_protect, recovery_page_protect}
use fake_linker.Maps.Protect.Restore.{IsProper, recovery_page_protect-unlock}
use fake_linker.Maps.Protect.Grant.{unlock_page_protect-HasProt}

abbrev pub mapping : ℕ → ℕ → Bytes → ℕ → ℕ → Bytes → Scan
mapping start end perms offset inode path = record {
  count = 6;
  start = start;
  end = end;
  perms = perms;
  offset = offset;
  inode = inode;
  path = path;
}

abbrev pub four : MapsFile
four = record {
  openable = true;
  lines =
      mapping 0x1000 0x2000 (bytes "r--p") 0 7 (bytes "/lib/liba.so")
      ∷ mapping 0x2000 0x3000 (bytes "r-xp") 0x1000 7 (bytes "/lib/liba.so")
      ∷ mapping 0x3000 0x4000 (bytes "rw-p") 0x2000 7 (bytes "/lib/liba.so")
      ∷ mapping 0x5000 0x6000 (bytes "r-xp") 0 9 (bytes "/lib/libb.so")
      ∷ [];
}

abbrev pub set_range : ℕ → ℕ → ℕ → (ℕ → ℕ) → ℕ → ℕ
set_range start size prot k a = if leb start a && ltb a (start + size) then prot else k a

pub set_range-inside :
    (start size prot : ℕ) (k : ℕ → ℕ) (a : ℕ)
    → start ≤ a
    → a < start + size
    → set_range start size prot k a ≡ prot
set_range-inside start size prot k a low high = ground arith

pub set_range-outside :
    (start size prot : ℕ) (k : ℕ → ℕ) (a : ℕ)
    → (a < start) ⊎ (start + size ≤ a)
    → set_range start size prot k a ≡ k a
set_range-outside start size prot k a (inl low) = ground arith
set_range-outside start size prot k a (inr high) = ground arith

-- A kernel that keeps a protection for each address and grants every request.
abbrev pub ready : Kernel
ready = record {
  State = ℕ → ℕ;
  protection = λ k a. k a;
  mprotect = λ start size prot k. (set_range start size prot k, true);
  granted = λ start size prot k a ok low high. set_range-inside start size prot k a low high;
  kept = λ start size prot k a ok apart. set_range-outside start size prot k a apart;
}

four-IsReadable : All IsReadable four.lines
unfolding format_protect
four-IsReadable = (
  record { converted = refl; permitted = refl; proper = omega arith },
  (
    record { converted = refl; permitted = refl; proper = omega arith },
    (
      record { converted = refl; permitted = refl; proper = omega arith },
      (record { converted = refl; permitted = refl; proper = omega arith }, tt),
    ),
  ),
)

four-IsSorted : IsSorted four.lines
four-IsSorted = (
  (omega arith, (omega arith, (omega arith, tt))),
  ((omega arith, (omega arith, tt)), ((omega arith, tt), (tt, tt))),
)

get_memory_protect-gathered_example :
    ((get_memory_protect 0 four 0x2000 0x1800 fresh).0.pages ≡ gathered 0 0x2000 0x3800 four.lines)
    × ((get_memory_protect 0 four 0x2000 0x1800 fresh).1 ≡ true)
get_memory_protect-gathered_example =
    get_memory_protect-gathered 0 four 0x2000 0x1800 fresh refl four-IsReadable four-IsSorted
      (omega arith)

get_library_protect-ne-none_example :
    get_library_protect 0 5 four (some (bytes "liba.so")) fresh ≢ none
get_library_protect-ne-none_example =
    get_library_protect-ne-none 0 5 four (some (bytes "liba.so")) fresh (omega arith)

-- What the search for liba.so leaves.
abbrev found : MapsHelper
found = elim (get_library_protect 0 5 four (some (bytes "liba.so")) fresh) [
  | none ↦ fresh
  | some (h, good) ↦ h
]

found_lem : get_library_protect 0 5 four (some (bytes "liba.so")) fresh ≡ some (found, true)
unfolding get_library_protect protect_loop read_library_map library_loop library_round format_line
    format_protect scan_line match_path
found_lem = refl

get_library_protect-IsLibrary_example : IsLibrary (bytes "/liba.so") found.pages
get_library_protect-IsLibrary_example =
    get_library_protect-IsLibrary 0 5 four (bytes "liba.so") fresh found found_lem

-- Two pages side by side.
abbrev page : ℕ → ℕ → ℕ → PageProtect
page start end prot = record {
  start = start;
  end = end;
  old_protect = prot;
  new_protect = 0;
  file_offset = 0;
  inode = 7;
  path = [];
}

abbrev pair : MapsHelper
pair = record fresh { pages = page 0x1000 0x2000 1 ∷ page 0x2000 0x3000 5 ∷ [] }

check_address_page_protect-permits_example : any (permits 1 0x2001) pair.pages ≡ true
unfolding check_address_page_protect
check_address_page_protect-permits_example =
    check_address_page_protect-permits 0x1800 0x1000 1 0x1000 0x2001 pair (refl, (refl, tt))
      (omega arith) (omega arith) (omega arith) (omega arith) refl

-- The protection of the addresses of the two pages.
abbrev pub before : ℕ → ℕ
before a = if ltb a 0x2000 then 1 else 5

pair-IsProper : All IsProper pair.pages
pair-IsProper = ((omega arith, omega arith), ((omega arith, omega arith), tt))

recovery_page_protect-unlock_example :
    (recovery_page_protect ready
        (unlock_page_protect ready (some 3) pair before).0
        (unlock_page_protect ready (some 3) pair before).1).1
      0x2800
    ≡ before 0x2800
unfolding recovery_page_protect unlock_page_protect
recovery_page_protect-unlock_example =
    recovery_page_protect-unlock ready 3 pair before 0x2800 pair-IsProper
      (λ i. absurd (ground arith), (λ i. refl, tt)) refl refl

unlock_page_protect-HasProt_example :
    bit_and ((unlock_page_protect ready (some 3) pair before).1 0x2800) 3 ≡ 3
unfolding unlock_page_protect
unlock_page_protect-HasProt_example =
    unlock_page_protect-HasProt ready 3 0x2800 pair before refl pair-IsProper
      (λ i. absurd (ground arith), (λ i. refl, tt)) refl refl
