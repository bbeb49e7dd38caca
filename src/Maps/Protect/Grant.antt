-- ===== src/Maps/Protect/Grant.antt =====
-- The protection that a successful `UnlockPageProtect` leaves.
use fake_linker.Prelude.{
  ℕ, bit_and, bit_or, ◌≡◌, ◌∙◌, inl, inr, true, false, some, List, [], ◌∷◌, arith, Bool-cases, All,
  any,
}
use fake_linker.Bits.Laws.{bit_and-bit_or_self, bit_and_keep}
use fake_linker.Maps.Line.{PageProtect, MapsHelper, mp_rwx}
use fake_linker.Maps.Protect.{Kernel, change, unlock_pages, unlock_page_protect}
use fake_linker.Maps.Protect.Restore.{inside, IsProper, Agrees, change-inside, change-outside}

module _ (K : Kernel) (prot a : ℕ) (fits : bit_and mp_rwx prot ≡ prot) where
  abbrev pub HasProt : K.State → Type 0
  HasProt k = bit_and (K.protection k a) prot ≡ prot

  wanted-HasProt : (old : ℕ) → bit_and (bit_and (bit_or old prot) mp_rwx) prot ≡ prot
  wanted-HasProt old =
      bit_and_keep (bit_or old prot) mp_rwx prot fits ∙ bit_and-bit_or_self old prot

  unlock_pages-HasProt :
      (ps : List PageProtect) (k : K.State)
      → All IsProper ps
      → HasProt k
      → (unlock_pages K prot ps k).2 ≡ true
      → HasProt (unlock_pages K prot ps k).1
  unfolding unlock_pages
  unlock_pages-HasProt [] k r has ok = has
  unlock_pages-HasProt (p ∷ ps) k r has ok =
      let wanted = bit_or p.old_protect prot in
      ground (
        arith,
        wanted-HasProt p.old_protect,
        change-inside K p wanted k a r.0,
        change-outside K p wanted k a r.0,
        unlock_pages-HasProt ps (change K p wanted k).0 r.1,
        unlock_pages-HasProt ps k r.1,
      )

  unlock_pages-here :
      (p : PageProtect) (ps : List PageProtect) (k : K.State)
      → All IsProper (p ∷ ps)
      → K.protection k a ≡ bit_and p.old_protect mp_rwx
      → inside a p ≡ true
      → (unlock_pages K prot (p ∷ ps) k).2 ≡ true
      → HasProt (unlock_pages K prot (p ∷ ps) k).1
  unfolding unlock_pages
  unlock_pages-here p ps k r known here ok =
      let wanted = bit_or p.old_protect prot in
      ground (
        arith,
        wanted-HasProt p.old_protect,
        bit_and_keep p.old_protect mp_rwx prot fits,
        change-inside K p wanted k a r.0,
        unlock_pages-HasProt ps (change K p wanted k).0 r.1,
        unlock_pages-HasProt ps k r.1,
      )

  change-Agrees :
      (p : PageProtect) (ps : List PageProtect) (k : K.State)
      → IsProper p
      → Agrees K ps k a
      → inside a p ≡ false
      → (change K p (bit_or p.old_protect prot) k).1 ≡ true
      → Agrees K ps (change K p (bit_or p.old_protect prot) k).0 a
  change-Agrees p ps k r agrees there ok =
      rw (change-outside K p (bit_or p.old_protect prot) k a r ok there) agrees

  -- A page with the address has it granted, and the rest of the pages keep it.
  unlock_pages-grants :
      (ps : List PageProtect) (k : K.State)
      → All IsProper ps
      → Agrees K ps k a
      → any (inside a) ps ≡ true
      → (unlock_pages K prot ps k).2 ≡ true
      → HasProt (unlock_pages K prot ps k).1
  unfolding unlock_pages
  unlock_pages-grants [] k r agrees i ok = absurd (ground arith)
  unlock_pages-grants (p ∷ ps) k r agrees i ok = elim (Bool-cases (inside a p)) [
    | inl here ↦ unlock_pages-here p ps k r (agrees.0 here) here ok
    | inr there ↦ ground (
      arith,
      change-Agrees p ps k r.0 agrees.1 there,
      unlock_pages-grants ps (change K p (bit_or p.old_protect prot) k).0 r.1,
      unlock_pages-grants ps k r.1 agrees.1,
    )
  ]

-- If `UnlockPageProtect` succeeds, every address in a page found has the protection asked for,
-- which consists of bits for reading, writing and executing. The pages must be proper ranges, and
-- the protection listed for a page that of its addresses.
pub unlock_page_protect-HasProt :
    (K : Kernel) (prot a : ℕ) (h : MapsHelper) (k : K.State)
    → bit_and mp_rwx prot ≡ prot
    → All IsProper h.pages
    → Agrees K h.pages k a
    → any (inside a) h.pages ≡ true
    → (unlock_page_protect K (some prot) h k).2 ≡ true
    → bit_and (K.protection (unlock_page_protect K (some prot) h k).1 a) prot ≡ prot
unfolding unlock_page_protect
unlock_page_protect-HasProt K prot a h k fits r agrees i ok =
    ground (arith, unlock_pages-grants K prot a fits h.pages k r agrees i)
