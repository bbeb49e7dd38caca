-- ===== src/Maps/Window.antt =====
-- `GetMemoryProtect`: the pages that meet a range of addresses.
pub mod Exact
use fake_linker.Prelude.{
  ℕ, ◌+◌, ◌%◌, ◌≡◌, Bool, true, false, not, List, [], ◌∷◌, ◌++◌, leb, if◌then◌else◌, is_empty,
}
use fake_linker.Bits.Align.{word}
use fake_linker.Maps.Line.{
  Scan, PageProtect, MapsHelper, MapsFile, open_maps, format_line, format_protect, prot_byte,
}

-- What one round of a loop over the lines does: go on, or leave the loop with a value.
pub data Round {ℓ} (A : Type ℓ) : Type ℓ where
  next : MapsHelper → Round A
  leave : MapsHelper → A → Round A

-- `indeterminate` is what an uninitialised `new_protect` holds.
module _ (indeterminate : ℕ) where
  -- The page of the current line, at the end of `pages_`.
  unfoldable pub push_page : MapsHelper → MapsHelper
  push_page h = record h {
    pages =
        h.pages
        ++ record {
          start = h.start_address;
          end = h.end_address;
          old_protect = prot_byte (format_protect h.protect);
          new_protect = indeterminate;
          file_offset = h.file_offset;
          inode = h.inode;
          path = h.path;
        }
          ∷ [];
  }

  unfoldable pub memory_round : ℕ → ℕ → Scan → MapsHelper → Round Bool
  unfolding push_page
  memory_round target end l h =
      let (h', good) = format_line l h in
      if not good
      then next h'
      else if leb h'.end_address target
      then next h'
      else if leb end h'.start_address
      then leave h' (not (is_empty h'.pages))
      else next (push_page h')

  unfoldable pub memory_loop : ℕ → ℕ → List Scan → MapsHelper → MapsHelper × Bool
  memory_loop target end [] h = (record h { unread = [] }, false)
  memory_loop target end (l ∷ ls) h = elim (memory_round target end l (record h { unread = ls })) [
    | next h' ↦ memory_loop target end ls h'
    | leave h' found ↦ (h', found)
  ]

  unfoldable pub get_memory_protect : MapsFile → ℕ → ℕ → MapsHelper → MapsHelper × Bool
  unfolding open_maps
  get_memory_protect file address size h =
      let (h', ready) = open_maps file h in
      if ready then memory_loop address ((address + size) % word) h'.unread h' else (h', false)
