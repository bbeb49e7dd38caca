-- ===== src/Maps/Lookup/Covered.antt =====
-- What `CheckAddressPageProtect` checks of pages without gaps.
use fake_linker.Prelude.{
  ℕ, ◌+◌, ◌≤◌, ◌<◌, bit_and, ◌≡◌, Bool, true, ◌&&◌, List, [], ◌∷◌, arith, ltb, leb, ◌==◌, any,
}
use native.Mathlib.Nat.{mod-eq_of_lt}
use fake_linker.Bits.Align.{word}
use fake_linker.Maps.Line.{PageProtect, MapsHelper}
use fake_linker.Maps.Lookup.{check_pages, check_address_page_protect}

-- Every page begins where the one before it ends.
abbrev pub IsContiguous : ℕ → List PageProtect → Type 0
IsContiguous start [] = Unit
IsContiguous start (p ∷ ps) = (p.start ≡ start) × IsContiguous p.end ps

-- A page holds the address and has the protection.
abbrev pub permits : ℕ → ℕ → PageProtect → Bool
permits prot a p = leb p.start a && ltb a p.end && (bit_and p.old_protect prot == prot)

check_pages-permits :
    (prot end from start a : ℕ) (ps : List PageProtect)
    → IsContiguous from ps
    → from ≤ start
    → start ≤ a
    → a < end
    → check_pages prot end start ps ≡ true
    → any (permits prot a) ps ≡ true
unfolding check_pages
check_pages-permits prot end from start a [] c f s e ok = absurd (ground arith)
check_pages-permits prot end from start a (p ∷ ps) c f s e ok = ground (
  arith,
  c.0,
  check_pages-permits prot end p.end start a ps c.1,
  check_pages-permits prot end p.end p.end a ps c.1,
)

-- If the pages are contiguous and begin at or below the address, and `CheckAddressPageProtect`
-- answers true for a range that does not wrap, then every address of the range lies in a page
-- with the protection.
pub check_address_page_protect-permits :
    (address size prot from a : ℕ) (h : MapsHelper)
    → IsContiguous from h.pages
    → from ≤ address
    → address + size < word
    → address ≤ a
    → a < address + size
    → check_address_page_protect address size prot h ≡ true
    → any (permits prot a) h.pages ≡ true
unfolding check_address_page_protect
check_address_page_protect-permits address size prot from a h c f w s e ok = ground (
  arith,
  mod-eq_of_lt w,
  check_pages-permits prot (address + size) from address a h.pages c f s e,
)
