-- ===== src/Maps/Lookup.antt =====
-- The questions that `MapsHelper` answers from its pages (`CheckAddressPageProtect`,
-- `GetLibraryBaseAddress`, `GetCurrentRealPath`), and the two searches through the file that keep
-- no pages (`FindLibraryBase`, `GetLibraryRealPath`).
pub mod Covered
pub mod Base
use fake_linker.Prelude.{
  ℕ, zero, suc, ◌+◌, ◌-◌, ◌*◌, ◌/◌, ◌%◌, ◌^◌, ◌≤◌, ◌<◌, bit_and, bit_or, bit_xor, ◌≡◌, refl, sym,
  ap, ◌∙◌, ◌≢◌, ◌↔◌, ◌⊎◌, inl, inr, Bool, true, false, not, ◌&&◌, ◌||◌, Option, none, some, List,
  [], ◌∷◌, ◌++◌, map, arith, ltb, leb, ◌==◌, if◌then◌else◌, ltb→lt, leb→le, ==→eq, ==_self, tests,
  Bool-cases, Option-cases, all_below, all_below_at, if-cases, length, is_empty, is_some,
  length-append, All, select, any, Bytes, bytes, text_eq,
}
use fake_linker.Bits.Align.{word}
use fake_linker.Maps.Line.{
  Scan, PageProtect, MapsHelper, MapsFile, open_maps, format_line, format_protect, prot_byte,
  match_path, make_library_name, mp_read, mp_execute,
}

unfoldable pub check_pages : ℕ → ℕ → ℕ → List PageProtect → Bool
check_pages prot end start [] = false
check_pages prot end start (p ∷ ps) =
    let skipped = check_pages prot end start ps in
    let later = check_pages prot end p.end ps in
    if ltb end p.start || ltb p.end start
    then skipped
    else if not (bit_and p.old_protect prot == prot)
    then false
    else if leb end p.end
    then true
    else later

-- An empty list of pages is refused by the loop as well as by the test before it.
unfoldable pub check_address_page_protect : ℕ → ℕ → ℕ → MapsHelper → Bool
unfolding check_pages
check_address_page_protect address size prot h =
    if is_empty h.pages then false else check_pages prot ((address + size) % word) address h.pages

-- The loop of `GetLibraryBaseAddress`.
unfoldable pub lowest_page : ℕ → ℕ → List PageProtect → ℕ
lowest_page minoffset start [] = start
lowest_page minoffset start (p ∷ ps) =
    let skipped = lowest_page minoffset start ps in
    let lower = lowest_page p.file_offset p.start ps in
    if p.inode == 0 then skipped else if ltb p.file_offset minoffset then lower else skipped

unfoldable pub get_library_base_address : MapsHelper → ℕ
unfolding lowest_page
get_library_base_address h = if is_empty h.pages then 0 else lowest_page (word - 1) 0 h.pages

real_path : List PageProtect → Bytes
real_path [] = []
real_path (p ∷ ps) =
    let rest = real_path ps in if not (is_empty p.path) && not (p.inode == 0) then p.path else rest

unfoldable pub get_current_real_path : MapsHelper → Bytes
unfolding real_path
get_current_real_path h = real_path h.pages

-- `path_[0] == '['`
unfoldable pub is_bracketed : Bytes → Bool
is_bracketed [] = false
is_bracketed (c ∷ path) = c == b'['

unfoldable pub base_loop : ℕ → ℕ → List Scan → MapsHelper → MapsHelper × ℕ
base_loop result protect [] h = (record h { unread = [] }, result)
base_loop result protect (l ∷ ls) h =
    let (h', good) = format_line l (record h { unread = ls }) in
    let result' = if h'.file_offset == 0 then h'.start_address else result in
    let protect' =
      bit_or (if h'.file_offset == 0 then 0 else protect) (prot_byte (format_protect h'.protect)) in
    let skipped = base_loop result protect ls h' in
    let later = base_loop result' protect' ls h' in
    if not good || is_bracketed h'.path || not (match_path h')
    then skipped
    else if not (bit_and protect' (mp_read + mp_execute) == mp_read + mp_execute)
        && not (result' == 0)
    then (h', result')
    else later

unfoldable pub find_library_base : MapsFile → Option Bytes → MapsHelper → MapsHelper × ℕ
unfolding open_maps make_library_name base_loop
find_library_base file none h = (h, 0)
find_library_base file (some name) h =
    let (h', ready) = open_maps file h in
    if ready then base_loop 0 0 h'.unread (make_library_name name h') else (h', 0)

unfoldable pub path_loop : List Scan → MapsHelper → MapsHelper × Bytes
path_loop [] h = (record h { unread = [] }, [])
path_loop (l ∷ ls) h =
    let (h', good) = format_line l (record h { unread = ls }) in
    let later = path_loop ls h' in
    if not good || is_bracketed h'.path || not (match_path h') then later else (h', h'.path)

unfoldable pub get_library_real_path : MapsFile → Option Bytes → MapsHelper → MapsHelper × Bytes
unfolding open_maps make_library_name path_loop
get_library_real_path file none h = (h, [])
get_library_real_path file (some name) h =
    let (h', ready) = open_maps file h in
    if ready then path_loop h'.unread (make_library_name name h') else (h', [])
