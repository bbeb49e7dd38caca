-- ===== src/Maps/Protect/Restore.antt =====
-- What a successful `UnlockPageProtect` gives, and that `RecoveryPageProtect` takes it back.
use fake_linker.Prelude.{
  ℕ, ◌+◌, ◌-◌, ◌≤◌, ◌<◌, bit_and, bit_or, ◌≡◌, refl, ◌⊎◌, inl, inr, Bool, true, false, not, ◌&&◌,
  some, List, [], ◌∷◌, arith, ltb, leb, ◌==◌, Bool-cases, if-cases, All, any,
}
use fake_linker.Bits.Laws.{bit_and-bit_or_self}
use fake_linker.Bits.Align.{word}
use fake_linker.Maps.Line.{PageProtect, MapsHelper, mp_rwx}
use fake_linker.Maps.Protect.{
  Kernel, page_size, change, Pages, unlock_pages, unlock_page_protect, recover_pages,
  recovery_page_protect,
}

abbrev pub inside : ℕ → PageProtect → Bool
inside a p = leb p.start a && ltb a p.end

abbrev pub IsProper : PageProtect → Type 0
IsProper p = (p.start ≤ p.end) × (p.end < word)

page_size-IsProper : (p : PageProtect) → IsProper p → page_size p ≡ p.end - p.start
page_size-IsProper p r = omega (arith, r.0, r.1)

inside→ge : (a : ℕ) (p : PageProtect) → inside a p ≡ true → p.start ≤ a
inside→ge a p i = ground arith

inside→lt : (a : ℕ) (p : PageProtect) → inside a p ≡ true → a < p.end
inside→lt a p i = ground arith

outside :
    (a : ℕ) (p : PageProtect) (size : ℕ)
    → size ≡ p.end - p.start
    → p.start ≤ p.end
    → inside a p ≡ false
    → (a < p.start) ⊎ (p.start + size ≤ a)
outside a p size e r i = elim (Bool-cases (leb p.start a)) [
  | inl above ↦ inr (ground arith)
  | inr below ↦ inl (ground arith)
]

abbrev pub IsWritten : ℕ → ℕ → List PageProtect → Type 0
IsWritten a c ps =
    All (λ (p : PageProtect). inside a p ≡ true → c ≡ bit_and p.old_protect mp_rwx) ps

module _ (K : Kernel) where
  -- The pages with the address are listed with the protection that the kernel gives it.
  abbrev pub Agrees : List PageProtect → K.State → ℕ → Type 0
  Agrees ps k a = IsWritten a (K.protection k a) ps

  pub change-inside :
      (p : PageProtect) (prot : ℕ) (k : K.State) (a : ℕ)
      → IsProper p
      → (change K p prot k).1 ≡ true
      → inside a p ≡ true
      → K.protection (change K p prot k).0 a ≡ bit_and prot mp_rwx
  change-inside p prot k a r ok i =
      K.granted p.start (page_size p) (bit_and prot mp_rwx) k a ok (inside→ge a p i)
        (omega (arith, page_size-IsProper p r, inside→lt a p i))

  pub change-outside :
      (p : PageProtect) (prot : ℕ) (k : K.State) (a : ℕ)
      → IsProper p
      → (change K p prot k).1 ≡ true
      → inside a p ≡ false
      → K.protection (change K p prot k).0 a ≡ K.protection k a
  change-outside p prot k a r ok i =
      K.kept p.start (page_size p) (bit_and prot mp_rwx) k a ok
        (outside a p (page_size p) (page_size-IsProper p r) r.0 i)

  abbrev is_touched : ℕ → PageProtect → Bool
  is_touched a p = inside a p && not (p.old_protect == p.new_protect)

  -- A page that `UnlockPageProtect` leaves as it is has the same protection before and behind.
  old-ne-wanted :
      (old prot : ℕ) → (bit_and old prot == prot) ≡ false → (old == bit_or old prot) ≡ false
  old-ne-wanted old prot e = ground (arith, bit_and-bit_or_self old prot)

  -- An address in no page that was changed keeps its protection.
  unlock_pages-kept :
      (prot : ℕ) (ps : List PageProtect) (k : K.State) (a : ℕ)
      → All IsProper ps
      → (unlock_pages K prot ps k).2 ≡ true
      → any (is_touched a) (unlock_pages K prot ps k).0 ≡ false
      → K.protection (unlock_pages K prot ps k).1 a ≡ K.protection k a
  unfolding unlock_pages
  unlock_pages-kept prot [] k a r ok clear = refl
  unlock_pages-kept prot (p ∷ ps) k a r ok clear =
      let wanted = bit_or p.old_protect prot in
      ground (
        arith,
        old-ne-wanted p.old_protect prot,
        change-outside p wanted k a r.0,
        unlock_pages-kept prot ps (change K p wanted k).0 a r.1,
        unlock_pages-kept prot ps k a r.1,
      )

  recover_pages-sets :
      (ps : List PageProtect) (k : K.State) (a c : ℕ)
      → All IsProper ps
      → IsWritten a c ps
      → (recover_pages K ps k).2 ≡ true
      → (any (is_touched a) ps ≡ true) ⊎ (K.protection k a ≡ c)
      → K.protection (recover_pages K ps k).1 a ≡ c
  unfolding recover_pages
  recover_pages-sets [] k a c r same ok now = ground arith
  recover_pages-sets (p ∷ ps) k a c r same ok now = ground (
    arith,
    change-outside p p.old_protect k a r.0,
    change-inside p p.old_protect k a r.0,
    same.0,
    recover_pages-sets ps (change K p p.old_protect k).0 a c r.1 same.1,
    recover_pages-sets ps k a c r.1 same.1,
  )

  unlock_pages-All :
      (P : PageProtect → Type 0) (prot : ℕ) (ps : List PageProtect) (k : K.State)
      → ((p : PageProtect) (new : ℕ) → P p → P (record p { new_protect = new }))
      → All P ps
      → (unlock_pages K prot ps k).2 ≡ true
      → All P (unlock_pages K prot ps k).0
  unfolding unlock_pages
  unlock_pages-All P prot [] k f all ok = tt
  unlock_pages-All P prot (p ∷ ps) k f all ok =
      let Done : Pages K → Type 0 = λ r. r.2 ≡ true → All P r.0 in
      let wanted = bit_or p.old_protect prot in
      let next = (change K p wanted k).0 in
      if-cases Done (not (bit_and p.old_protect prot == prot))
        (λ _.
          if-cases Done (change K p wanted k).1
            {y = (record p { new_protect = wanted } ∷ ps, next, false)}
            (λ _ good. (f p _ all.0, unlock_pages-All P prot ps next f all.1 good))
            (λ _ bad. absurd (ground arith)))
        (λ _ good. (f p _ all.0, unlock_pages-All P prot ps k f all.1 good)) ok

  pages_restored :
      (prot : ℕ) (ps : List PageProtect) (k : K.State) (a : ℕ)
      → All IsProper ps
      → Agrees ps k a
      → (unlock_pages K prot ps k).2 ≡ true
      → (recover_pages K (unlock_pages K prot ps k).0 (unlock_pages K prot ps k).1).2 ≡ true
      → K.protection (recover_pages K (unlock_pages K prot ps k).0 (unlock_pages K prot ps k).1).1 a
        ≡ K.protection k a
  pages_restored prot ps k a r agrees ok ok' =
      let known =
        recover_pages-sets (unlock_pages K prot ps k).0 (unlock_pages K prot ps k).1 a
          (K.protection k a) (unlock_pages-All IsProper prot ps k (λ _ _ q. q) r ok)
          (unlock_pages-All _ prot ps k (λ _ _ q. q) agrees ok) ok' in
      elim (Bool-cases (any (is_touched a) (unlock_pages K prot ps k).0)) [
        | inl changed ↦ known (inl changed)
        | inr clear ↦ known (inr (unlock_pages-kept prot ps k a r ok clear))
      ]

  -- If `UnlockPageProtect` and then `RecoveryPageProtect` succeed, every address has the
  -- protection that it had before. The pages found must be proper ranges, and the protection
  -- listed for a page that of its addresses.
  pub recovery_page_protect-unlock :
      (prot : ℕ) (h : MapsHelper) (k : K.State) (a : ℕ)
      → All IsProper h.pages
      → Agrees h.pages k a
      → (unlock_page_protect K (some prot) h k).2 ≡ true
      → (recovery_page_protect K
          (unlock_page_protect K (some prot) h k).0
          (unlock_page_protect K (some prot) h k).1).2
        ≡ true
      → K.protection
          (recovery_page_protect K
            (unlock_page_protect K (some prot) h k).0
            (unlock_page_protect K (some prot) h k).1).1
          a
        ≡ K.protection k a
  unfolding unlock_page_protect recovery_page_protect
  recovery_page_protect-unlock prot h k a r agrees ok ok' =
      ground (arith, pages_restored prot h.pages k a r agrees)
