-- ===== src/Maps/Library.antt =====
-- `GetLibraryProtect` and what it calls: the pages of one mapped library, and `FindLibraryBase`
-- and `GetLibraryRealPath`, which search for a library by name.
pub mod Rounds
pub mod Found
pub mod Ends
use mathlib.Core.Option
use fake_linker.Prelude.{
  ℕ, zero, suc, ◌+◌, ◌-◌, ◌*◌, ◌/◌, ◌%◌, ◌^◌, ◌≤◌, ◌<◌, bit_and, bit_or, bit_xor, ◌≡◌, refl, sym,
  ap, ◌∙◌, ◌≢◌, ◌↔◌, ◌⊎◌, inl, inr, Bool, true, false, not, ◌&&◌, ◌||◌, Option, none, some, List,
  [], ◌∷◌, ◌++◌, map, arith, ltb, leb, ◌==◌, if◌then◌else◌, ltb→lt, leb→le, ==→eq, ==_self, tests,
  Bool-cases, Option-cases, all_below, all_below_at, length, is_empty, is_some, length-append, All,
  select, any, Bytes, bytes, text_eq,
}
use fake_linker.Maps.Line.{
  mp_read, mp_write, mp_execute, Scan, PageProtect, MapsHelper, MapsFile, open_maps, format_line,
  format_protect, prot_byte, match_path, make_library_name, mp_none,
}
use fake_linker.Maps.Window.{push_page}

-- The local variables of `ReadLibraryMap`.
pub record Search : Type 0 where
  pub started : Bool
  pub found_inode : ℕ
  pub protect : ℕ

abbrev pub begin : Search
begin = record { started = false; found_inode = 0; protect = mp_none }

pub data Turn : Type 0 where
  go : Search → MapsHelper → Turn
  stop : MapsHelper → Turn

abbrev pub is_loaded : PageProtect → Bool
is_loaded page = not (bit_and page.old_protect (mp_execute + mp_write) == 0)

unfoldable pub verify_library_map : MapsHelper → MapsHelper × Bool
verify_library_map h = if any is_loaded h.pages then (h, true) else (record h { pages = [] }, false)

abbrev pub with_pages : MapsHelper → MapsHelper × Bool
with_pages h = (h, not (is_empty h.pages))

module _ (indeterminate : ℕ) where
  -- The part of the loop's body behind the search for the first segment.
  unfoldable pub collect : Search → MapsHelper → Turn
  unfolding push_page
  collect s h =
      if not (s.found_inode == h.inode) && not (h.inode == 0)
      then (if bit_and s.protect (mp_read + mp_execute) == mp_read + mp_execute
          then stop h
          else go (record s { started = false; protect = 0 }) (record h { pages = [] }))
      else if h.inode == 0
      then go s h
      else go (record s { protect = bit_or s.protect (prot_byte (format_protect h.protect)) })
          (push_page indeterminate h)

  unfoldable pub library_round : Scan → Search → MapsHelper → Turn
  unfolding collect
  library_round l s h =
      let (h', good) = format_line l h in
      if not s.started
      then (if not good || not (match_path h') || h'.inode == 0 || not (h'.file_offset == 0)
          then go s h'
          else collect (record s { found_inode = h'.inode; started = true }) h')
      else if not good
      then stop h'
      else collect s h'

  unfoldable pub library_loop : List Scan → Search → MapsHelper → MapsHelper
  library_loop [] s h = record h { unread = [] }
  library_loop (l ∷ ls) s h = elim (library_round l s (record h { unread = ls })) [
    | go s' h' ↦ library_loop ls s' h'
    | stop h' ↦ h'
  ]

  unfoldable pub read_library_map : MapsHelper → MapsHelper × Bool
  unfolding verify_library_map
  read_library_map h =
      let h' = library_loop h.unread begin h in
      if is_empty h'.pages then (h', true) else verify_library_map h'

  -- `do pages_.clear() while (!ReadLibraryMap())`, on fuel.
  unfoldable pub protect_loop : ℕ → MapsHelper → Option MapsHelper
  protect_loop zero h = none
  protect_loop (suc fuel) h =
      let (h', complete) = read_library_map (record h { pages = [] }) in
      elim complete [ true ↦ some h' | false ↦ protect_loop fuel h' ]

  -- The outer `none` says that the fuel ran out; the inner one is a null name.
  unfoldable pub get_library_protect :
      ℕ → MapsFile → Option Bytes → MapsHelper → Option (MapsHelper × Bool)
  unfolding open_maps make_library_name
  get_library_protect fuel file none h = some (h, false)
  get_library_protect fuel file (some name) h =
      let (h', ready) = open_maps file h in
      if ready
      then Option.map with_pages (protect_loop fuel (make_library_name name h'))
      else some (h', false)
