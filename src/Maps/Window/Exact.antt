-- ===== src/Maps/Window/Exact.antt =====
-- What `GetMemoryProtect` collects of a well-formed, sorted maps file.
use native.Mathlib.Nat.{mod-eq_of_lt}
use mathlib.Core.List.{append_assoc, append-nil}
use fake_linker.Prelude.{
  refl, sym, ℕ, ◌≡◌, ◌≤◌, ◌<◌, Bool, true, not, ◌&&◌, ◌||◌, List, [], ◌∷◌, ◌++◌, arith, ltb, leb,
  ◌==◌, if◌then◌else◌, is_empty, is_some, All, ap, map, select, any, ◌+◌,
}
use fake_linker.Maps.Line.{
  Scan, PageProtect, MapsHelper, format_line, scan_line, format_protect, prot_byte, MapsFile,
}
use fake_linker.Maps.Window.{next, leave, memory_round, memory_loop, get_memory_protect, word}

-- A line that `FormatLine` accepts, of a mapping that is not empty.
pub record IsReadable (l : Scan) : Type 0 where
  pub converted : (l.count == 6 || l.count == 5) ≡ true
  pub permitted : is_some (format_protect l.perms) ≡ true
  pub proper : l.start < l.end

-- The kernel lists the mappings by rising address.
abbrev pub IsSorted : List Scan → Type 0
IsSorted [] = Unit
IsSorted (l ∷ ls) = All (λ (m : Scan). l.end ≤ m.start) ls × IsSorted ls

abbrev pub meets : ℕ → ℕ → Scan → Bool
meets target end l = ltb target l.end && ltb l.start end

abbrev pub page_of : ℕ → Scan → PageProtect
page_of indeterminate l = record {
  start = l.start;
  end = l.end;
  old_protect = prot_byte (format_protect l.perms);
  new_protect = indeterminate;
  file_offset = l.offset;
  inode = l.inode;
  path = if l.count == 5 then [] else l.path;
}

proper : (l : Scan) → IsReadable l → l.start < l.end
proper l r = r.proper

-- The helper behind a readable line.
abbrev pub loaded : Scan → MapsHelper → MapsHelper
loaded l h = record h {
  start_address = l.start;
  end_address = l.end;
  protect = l.perms;
  file_offset = l.offset;
  inode = l.inode;
  path = if l.count == 5 then [] else l.path;
}

module _ (l : Scan) (h : MapsHelper) (r : IsReadable l) where
  scan_line-loaded : scan_line l h ≡ loaded l h
  unfolding scan_line
  scan_line-loaded = ground arith

  pub format_line-loaded : format_line l h ≡ (loaded l h, true)
  unfolding format_line
  format_line-loaded =
      simp (ap (λ (g : MapsHelper). g.protect) scan_line-loaded, r.permitted, r.converted)
        (ap (λ g. (g, true)) scan_line-loaded)

module _ (indeterminate target end : ℕ) where
  memory_round-IsReadable :
      (l : Scan) (h : MapsHelper)
      → IsReadable l
      → memory_round indeterminate target end l h ≡ (
          if leb l.end target
          then next (loaded l h)
          else if leb end l.start
          then leave (loaded l h) (not (is_empty h.pages))
          else next (record (loaded l h) { pages = h.pages ++ page_of indeterminate l ∷ [] }))
  unfolding memory_round
  memory_round-IsReadable l h r = rw (format_line-loaded l h r)

  -- The pages of the lines that meet the range.
  abbrev pub gathered : List Scan → List PageProtect
  gathered ls = map (page_of indeterminate) (select (meets target end) ls)

  -- Behind a mapping that begins at the end of the range no mapping meets the range.
  select-none :
      (b : ℕ) (ls : List Scan)
      → end ≤ b
      → All (λ (m : Scan). b ≤ m.start) ls
      → select (meets target end) ls ≡ []
  select-none b [] h all = refl
  select-none b (l ∷ ls) h all = ground (arith, select-none b ls h all.1)

  memory_loop-gathered :
      (ls : List Scan) (h : MapsHelper)
      → target ≤ end
      → All IsReadable ls
      → IsSorted ls
      → (((memory_loop indeterminate target end ls h).0).pages ≡ h.pages ++ gathered ls)
        × ((memory_loop indeterminate target end ls h).1
            ≡ any (λ (l : Scan). leb end l.start) ls && not (is_empty (h.pages ++ gathered ls)))
  unfolding memory_loop
  memory_loop-gathered [] h le r s = (sym (append-nil h.pages), refl)
  memory_loop-gathered (l ∷ ls) h le r s = ground (
    arith,
    proper l r.0,
    memory_round-IsReadable l (record h { unread = ls }) r.0,
    memory_loop-gathered ls (loaded l (record h { unread = ls })) le r.1 s.1,
    append-nil h.pages,
    select-none l.end ls,
    memory_loop-gathered ls
        (record (loaded l (record h { unread = ls })) {
          pages = h.pages ++ page_of indeterminate l ∷ [];
        })
        le r.1 s.1,
    append_assoc h.pages (page_of indeterminate l ∷ []) (gathered ls),
  )

-- On a sorted file of well-formed lines, and a range that does not wrap, `GetMemoryProtect` adds
-- to the pages exactly those of the mappings that meet the range, in order. It answers true
-- exactly when there are pages and some mapping begins at or behind the end of the range.
pub get_memory_protect-gathered :
    (indeterminate : ℕ) (file : MapsFile) (address size : ℕ) (h : MapsHelper)
    → file.openable ≡ true
    → All IsReadable file.lines
    → IsSorted file.lines
    → address + size < word
    → ((get_memory_protect indeterminate file address size h).0.pages
        ≡ h.pages ++ gathered indeterminate address (address + size) file.lines)
      × ((get_memory_protect indeterminate file address size h).1
          ≡ any (λ (l : Scan). leb (address + size) l.start) file.lines
            && not
                (is_empty (h.pages ++ gathered indeterminate address (address + size) file.lines)))
unfolding get_memory_protect
get_memory_protect-gathered indeterminate file address size h ok r s fits = rw (mod-eq_of_lt fits) (
    ground (
      arith,
      memory_loop-gathered indeterminate address (address + size) file.lines
          (record h { unread = file.lines }) (omega arith) r s,
      memory_loop-gathered indeterminate address (address + size) file.lines
          (record h { opened = true; unread = file.lines }) (omega arith) r s,
    ))
