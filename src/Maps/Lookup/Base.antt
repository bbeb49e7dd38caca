-- ===== src/Maps/Lookup/Base.antt =====
-- `GetLibraryBaseAddress` finds the page with the lowest file offset.
use fake_linker.Prelude.{ℕ, ◌-◌, ◌≡◌, refl, true, some, List, [], ◌∷◌, arith, Bytes}
use fake_linker.Bits.Align.{word}
use fake_linker.Maps.Line.{PageProtect, MapsHelper, MapsFile}
use fake_linker.Maps.Library.{get_library_protect}
use fake_linker.Maps.Library.Rounds.{IsOneFile}
use fake_linker.Maps.Library.Found.{slashed, get_library_protect-IsLibrary}
use fake_linker.Maps.Lookup.{lowest_page, get_library_base_address}

lowest_page-zero : (start : ℕ) (ps : List PageProtect) → lowest_page 0 start ps ≡ start
unfolding lowest_page
lowest_page-zero start [] = refl
lowest_page-zero start (p ∷ ps) = ground (arith, lowest_page-zero start ps)

abbrev pub first_start : List PageProtect → ℕ
first_start [] = 0
first_start (p ∷ ps) = p.start

lowest_page-IsOneFile :
    (name : Bytes) (inode : ℕ) (ps : List PageProtect)
    → IsOneFile name inode ps
    → lowest_page (word - 1) 0 ps ≡ first_start ps
unfolding lowest_page
lowest_page-IsOneFile name inode [] o = absurd o
lowest_page-IsOneFile name inode (p ∷ ps) o =
    ground (arith, o.0, o.2, o.3, lowest_page-zero p.start ps)

-- After a successful `GetLibraryProtect`, `GetLibraryBaseAddress` is the start of the first page
-- found.
pub get_library_base_address-first :
    (indeterminate fuel : ℕ) (file : MapsFile) (name : Bytes) (h h' : MapsHelper)
    → get_library_protect indeterminate fuel file (some name) h ≡ some (h', true)
    → get_library_base_address h' ≡ first_start h'.pages
unfolding get_library_base_address
get_library_base_address-first indeterminate fuel file name h h' e =
    let (inode, one, loaded) = get_library_protect-IsLibrary indeterminate fuel file name h h' e in
    ground (arith, lowest_page-IsOneFile (slashed name) inode h'.pages one)
