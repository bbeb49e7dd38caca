-- ===== src/Maps/Library/Ends.antt =====
-- The loop of `GetLibraryProtect` ends: every pass that is not the last one reads a line.
use fake_linker.Prelude.{
  ℕ, zero, suc, ◌≤◌, ◌<◌, ◌≡◌, refl, ◌≢◌, false, Option, none, some, List, [], ◌∷◌, arith, length,
  Bytes,
}
use fake_linker.Maps.Line.{
  format_line, scan_line, Scan, MapsHelper, MapsFile, make_library_name, open_maps,
}
use fake_linker.Maps.Library.{
  Search, begin, go, stop, collect, library_round, library_loop, read_library_map, protect_loop,
  get_library_protect, Turn,
}

module _ (indeterminate : ℕ) where
  abbrev unread_of : Turn → List Scan
  unread_of (go s h) = h.unread
  unread_of (stop h) = h.unread

  unread-library_round :
      (l : Scan) (s : Search) (h : MapsHelper)
      → unread_of (library_round indeterminate l s h) ≡ h.unread
  unfolding library_round format_line scan_line collect
  unread-library_round l s h = ground arith

  length-settled :
      (ls : List Scan) (t : Turn)
      → ((s : Search) (h : MapsHelper)
          → length (library_loop indeterminate ls s h).unread ≤ length ls)
      → length (unread_of t) ≤ length ls
      → length
          (elim t as (λ _. MapsHelper) [
            | go s h ↦ library_loop indeterminate ls s h
            | stop h ↦ h
          ]).unread
        ≤ length ls
  length-settled ls (go s h) ih le = ih s h
  length-settled ls (stop h) ih le = le

  -- After the first round a line less is left.
  library_loop_settled :
      (l : Scan) (ls : List Scan) (s : Search) (h : MapsHelper)
      → ((s : Search) (h : MapsHelper)
          → length (library_loop indeterminate ls s h).unread ≤ length ls)
      → length (library_loop indeterminate (l ∷ ls) s h).unread ≤ length ls
  unfolding library_loop
  library_loop_settled l ls s h ih =
      length-settled ls (library_round indeterminate l s (record h { unread = ls })) ih
        (rw unread-library_round (omega arith))

  length-library_loop :
      (ls : List Scan) (s : Search) (h : MapsHelper)
      → length (library_loop indeterminate ls s h).unread ≤ length ls
  unfolding library_loop
  length-library_loop [] s h = omega arith
  length-library_loop (l ∷ ls) s h =
      omega (arith, library_loop_settled l ls s h (length-library_loop ls))

  -- A pass that asks for another one has read a line.
  read_library_map-lt :
      (ls : List Scan) (h : MapsHelper)
      → h.unread ≡ ls
      → h.pages ≡ []
      → (read_library_map indeterminate h).1 ≡ false
      → length (read_library_map indeterminate h).0.unread < length ls
  unfolding read_library_map library_loop
  read_library_map-lt [] h e p again = ground arith
  read_library_map-lt (l ∷ ls) h e p again =
      ground (arith, library_loop_settled l ls begin h (length-library_loop ls))

  protect_loop-ne-none :
      (fuel : ℕ) (h : MapsHelper)
      → length h.unread < fuel
      → protect_loop indeterminate fuel h ≢ none
  unfolding protect_loop
  protect_loop-ne-none zero h le = absurd (omega arith)
  protect_loop-ne-none (suc fuel) h le = ground (
    arith,
    read_library_map-lt h.unread (record h { pages = [] }) refl refl,
    protect_loop-ne-none fuel (read_library_map indeterminate (record h { pages = [] })).0,
  )

unread-make_library_name :
    (name : Bytes) (h : MapsHelper) → (make_library_name name h).unread ≡ h.unread
unfolding make_library_name
unread-make_library_name [] h = refl
unread-make_library_name (c ∷ name) h = refl

-- `GetLibraryProtect` ends on every input: with more rounds than the file has lines the fuel does
-- not run out.
pub get_library_protect-ne-none :
    (indeterminate fuel : ℕ) (file : MapsFile) (name : Option Bytes) (h : MapsHelper)
    → length file.lines < fuel
    → get_library_protect indeterminate fuel file name h ≢ none
unfolding get_library_protect
get_library_protect-ne-none indeterminate fuel file none h le = cc
get_library_protect-ne-none indeterminate fuel file (some name) h le = ground (
  arith,
  unread-make_library_name name (open_maps file h).0,
  protect_loop-ne-none indeterminate fuel (make_library_name name (open_maps file h).0),
)
