-- ===== src/Maps/Protect.antt =====
-- `UnlockPageProtect`, `RecoveryPageProtect` and `UnlockAddressProtect`: the protection of the
-- pages found, changed and put back through `mprotect`.
pub mod Restore
pub mod Grant
use fake_linker.Prelude.{
  ℕ, zero, suc, ◌+◌, ◌-◌, ◌*◌, ◌/◌, ◌%◌, ◌^◌, ◌≤◌, ◌<◌, bit_and, bit_or, bit_xor, ◌≡◌, refl, sym,
  ap, ◌∙◌, ◌≢◌, ◌↔◌, ◌⊎◌, inl, inr, Bool, true, false, not, ◌&&◌, ◌||◌, Option, none, some, List,
  [], ◌∷◌, ◌++◌, map, arith, ltb, leb, ◌==◌, if◌then◌else◌, ltb→lt, leb→le, ==→eq, ==_self, tests,
  Bool-cases, Option-cases, all_below, all_below_at, if-cases, length, is_empty, is_some,
  length-append, All, select, any, Bytes, bytes, text_eq,
}
use fake_linker.Bits.Align.{word}
use fake_linker.Maps.Line.{PageProtect, MapsHelper, MapsFile, mp_read, mp_write, mp_rwx}
use fake_linker.Maps.Window.{get_memory_protect}

-- The operating system: a state, the protection of an address in it, and `mprotect` on a start, a
-- length and a protection, which answers true for its result 0. What a failed call leaves behind
-- is open.
pub record Kernel : Type 1 where
  pub State : Type 0
  pub protection : State → ℕ → ℕ
  pub mprotect : ℕ → ℕ → ℕ → State → State × Bool
  pub granted :
      (start size prot : ℕ) (k : State) (a : ℕ)
      → (mprotect start size prot k).1 ≡ true
      → start ≤ a
      → a < start + size
      → protection (mprotect start size prot k).0 a ≡ prot
  pub kept :
      (start size prot : ℕ) (k : State) (a : ℕ)
      → (mprotect start size prot k).1 ≡ true
      → (a < start) ⊎ (start + size ≤ a)
      → protection (mprotect start size prot k).0 a ≡ protection k a

-- `pp.end - pp.start` on 64-bit words
abbrev pub page_size : PageProtect → ℕ
page_size p = (word + p.end - p.start) % word

module _ (K : Kernel) where
  abbrev pub change : PageProtect → ℕ → K.State → K.State × Bool
  change p prot = K.mprotect p.start (page_size p) (bit_and prot mp_rwx)

  abbrev pub Pages : Type 0
  Pages = List PageProtect × K.State × Bool

  abbrev pub behind : PageProtect → Pages → Pages
  behind p (ps, k, ok) = (p ∷ ps, k, ok)

  -- The loop of `UnlockPageProtect`.
  unfoldable pub unlock_pages : ℕ → List PageProtect → K.State → Pages
  unlock_pages prot [] k = ([], k, true)
  unlock_pages prot (p ∷ ps) k =
      let lacks = not (bit_and p.old_protect prot == prot) in
      let wanted = record p { new_protect = bit_or p.old_protect prot } in
      let (k', ok) = change p (bit_or p.old_protect prot) k in
      let changed = behind wanted (unlock_pages prot ps k') in
      let same = behind (record p { new_protect = p.old_protect }) (unlock_pages prot ps k) in
      if lacks then (if ok then changed else (wanted ∷ ps, k', false)) else same

  -- `none` is `kMPInvalid`.
  unfoldable pub unlock_page_protect : Option ℕ → MapsHelper → K.State → MapsHelper × K.State × Bool
  unfolding unlock_pages
  unlock_page_protect none h k = (h, k, false)
  unlock_page_protect (some prot) h k =
      if is_empty h.pages
      then (h, k, false)
      else let (ps, k', ok) = unlock_pages prot h.pages k in (record h { pages = ps }, k', ok)

  -- The loop of `RecoveryPageProtect`.
  unfoldable pub recover_pages : List PageProtect → K.State → Pages
  recover_pages [] k = ([], k, true)
  recover_pages (p ∷ ps) k =
      let (k', ok) = change p p.old_protect k in
      let changed = behind (record p { new_protect = p.old_protect }) (recover_pages ps k') in
      let same = behind p (recover_pages ps k) in
      if not (p.old_protect == p.new_protect)
      then (if ok then changed else (p ∷ ps, k', false))
      else same

  unfoldable pub recovery_page_protect : MapsHelper → K.State → MapsHelper × K.State × Bool
  unfolding recover_pages
  recovery_page_protect h k =
      if is_empty h.pages
      then (h, k, false)
      else let (ps, k', ok) = recover_pages h.pages k in (record h { pages = ps }, k', ok)

  -- The part of `UnlockAddressProtect` behind `GetMemoryProtect`, on the first page.
  unfoldable pub unlock_first : MapsHelper → K.State → MapsHelper × K.State × Bool
  unlock_first h k = elim h.pages [
    | [] ↦ (h, k, false)
    | p ∷ ps ↦
        let wanted = bit_or (bit_or p.old_protect mp_read) mp_write in
        let (k', ok) = change p wanted k in
        if bit_and p.old_protect mp_write == mp_write
        then (record h { pages = record p { new_protect = p.old_protect } ∷ ps }, k, true)
        else (record h { pages = record p { new_protect = wanted } ∷ ps }, k', ok)
  ]

  unfoldable pub unlock_address_protect :
      ℕ → MapsFile → ℕ → ℕ → MapsHelper → K.State → MapsHelper × K.State × Bool
  unfolding unlock_first
  unlock_address_protect indeterminate file address size h k =
      let (h', found) = get_memory_protect indeterminate file address size h in
      if found then unlock_first h' k else (h', k, false)
