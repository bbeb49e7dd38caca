-- ===== src/Maps/Library/Found.antt =====
-- What `GetLibraryProtect` has found when it answers true: the pages of one file.
use fake_linker.Maps.Library.Rounds.{IsOneFile, library_loop-After}
use mathlib.Core.Option
use fake_linker.Prelude.{
  if-cases, ℕ, zero, suc, ◌≡◌, refl, ◌∙◌, ◌⊎◌, inl, inr, Bool, true, false, not, Option, none, some,
  List, [], ◌∷◌, arith, ◌==◌, if◌then◌else◌, is_empty, any, Bytes,
}
use fake_linker.Maps.Line.{
  format_line, scan_line, Scan, PageProtect, MapsHelper, MapsFile, open_maps, make_library_name,
}
use fake_linker.Maps.Window.{push_page}
use fake_linker.Maps.Library.{
  Search, begin, Turn, go, stop, collect, library_round, library_loop, verify_library_map,
  read_library_map, protect_loop, get_library_protect, is_loaded, with_pages,
}

-- The pages of one file, one of which is executable or writable.
abbrev pub IsLibrary : Bytes → List PageProtect → Type 0
IsLibrary name pages = (inode : ℕ) × IsOneFile name inode pages × (any is_loaded pages ≡ true)

abbrev IsAnswer : Bytes → MapsHelper → Type 0
IsAnswer name h = (h.pages ≡ []) ⊎ IsLibrary name h.pages

is_empty→[] : (ps : List PageProtect) → is_empty ps ≡ true → ps ≡ []
is_empty→[] [] e = refl
is_empty→[] (p ∷ ps) e = absurd (ground arith)

abbrev name_of : Turn → Bytes
name_of (go s h) = h.library_name
name_of (stop h) = h.library_name

last_or_again :
    (r : MapsHelper × Bool) (h' : MapsHelper) (rest : Option MapsHelper)
    → elim r.1 [ true ↦ some r.0 | false ↦ rest ] ≡ some h'
    → ((r.1 ≡ true) × (r.0 ≡ h')) ⊎ ((r.1 ≡ false) × (rest ≡ some h'))
last_or_again (h, true) h' rest e = inl (refl, ground arith)
last_or_again (h, false) h' rest e = inr (refl, e)

module _ (indeterminate : ℕ) (name : Bytes) where
  read_library_map-IsLibrary :
      (h : MapsHelper)
      → h.library_name ≡ name
      → h.pages ≡ []
      → (read_library_map indeterminate h).1 ≡ true
      → IsAnswer name (read_library_map indeterminate h).0
  unfolding read_library_map verify_library_map
  read_library_map-IsLibrary h n e =
      let h' = library_loop indeterminate h.unread begin h in
      let Right : MapsHelper × Bool → Type 0 = λ r. r.1 ≡ true → IsAnswer name r.0 in
      if-cases Right (is_empty h'.pages) (λ none _. inl (is_empty→[] h'.pages none))
        (λ _.
          if-cases Right (any is_loaded h'.pages)
            (λ loaded _. elim (library_loop-After indeterminate name h.unread begin h (n, e)) [
              | inl empty ↦ inl empty
              | inr (inode, one) ↦ inr (inode, one, loaded)
            ])
            (λ _ wrong. absurd (ground arith)))

  library_round-name :
      (l : Scan) (s : Search) (h : MapsHelper)
      → name_of (library_round indeterminate l s h) ≡ h.library_name
  unfolding library_round format_line scan_line collect push_page
  library_round-name l s h = ground arith

  turned-name :
      (ls : List Scan) (t : Turn) (named : Bytes)
      → name_of t ≡ named
      → ((s : Search) (h : MapsHelper)
          → (library_loop indeterminate ls s h).library_name ≡ h.library_name)
      → (elim t as (λ _. MapsHelper) [
        | go s h ↦ library_loop indeterminate ls s h
        | stop h ↦ h
      ]).library_name
        ≡ named
  turned-name ls (go s h) named e ih = ih s h ∙ e
  turned-name ls (stop h) named e ih = e

  library_loop-name :
      (ls : List Scan) (s : Search) (h : MapsHelper)
      → (library_loop indeterminate ls s h).library_name ≡ h.library_name
  unfolding library_loop
  library_loop-name [] s h = refl
  library_loop-name (l ∷ ls) s h =
      turned-name ls (library_round indeterminate l s (record h { unread = ls })) h.library_name
        (library_round-name l s (record h { unread = ls })) (library_loop-name ls)

  read_library_map-name :
      (h : MapsHelper) → (read_library_map indeterminate h).0.library_name ≡ h.library_name
  unfolding read_library_map verify_library_map
  read_library_map-name h = ground (arith, library_loop-name h.unread begin h)

  protect_loop-IsLibrary :
      (fuel : ℕ) (h h' : MapsHelper)
      → h.library_name ≡ name
      → protect_loop indeterminate fuel h ≡ some h'
      → IsAnswer name h'
  unfolding protect_loop
  protect_loop-IsLibrary zero h h' n e = absurd (ground arith)
  protect_loop-IsLibrary (suc fuel) h h' n e =
      let r = read_library_map indeterminate (record h { pages = [] }) in
      let named = read_library_map-name (record h { pages = [] }) ∙ n in
      let found = read_library_map-IsLibrary (record h { pages = [] }) n refl in
      elim (last_or_again r h' _ e) [
        | inl (done, same) ↦ rw same at (found done)
        | inr (_, later) ↦ protect_loop-IsLibrary fuel r.0 h' named later
      ]

-- The library's name with a `/` before it.
abbrev pub slashed : Bytes → Bytes
slashed [] = b'/' ∷ []
slashed (c ∷ name) = if c == b'/' then c ∷ name else b'/' ∷ c ∷ name

make_library_name-slashed :
    (name : Bytes) (h : MapsHelper) → (make_library_name name h).library_name ≡ slashed name
unfolding make_library_name
make_library_name-slashed [] h = refl
make_library_name-slashed (c ∷ name) h = refl

answered :
    (name : Bytes) (o : Option MapsHelper) (h' : MapsHelper)
    → ((g : MapsHelper) → o ≡ some g → IsAnswer name g)
    → Option.map with_pages o ≡ some (h', true)
    → IsLibrary name h'.pages
answered name none h' f e = absurd (ground arith)
answered name (some g) h' f e =
    let same : g ≡ h' = ground arith in
    let full : not (is_empty g.pages) ≡ true = ground arith in
    elim (f g refl) [ inl empty ↦ absurd (ground arith) | inr found ↦ rw same at found ]

-- If `GetLibraryProtect` answers true, the pages are those of one file: the first has file offset
-- 0 and a path that ends with the library's name, all have its inode, which is not 0, and one of
-- them is executable or writable.
pub get_library_protect-IsLibrary :
    (indeterminate fuel : ℕ) (file : MapsFile) (name : Bytes) (h h' : MapsHelper)
    → get_library_protect indeterminate fuel file (some name) h ≡ some (h', true)
    → IsLibrary (slashed name) h'.pages
unfolding get_library_protect
get_library_protect-IsLibrary indeterminate fuel file name h h' e =
    let g = make_library_name name (open_maps file h).0 in
    answered (slashed name) (protect_loop indeterminate fuel g) h'
      (λ k found.
        protect_loop-IsLibrary indeterminate (slashed name) fuel g k
          (make_library_name-slashed name _) found)
      (ground arith)
