-- ===== src/Maps/Library/Rounds.antt =====
-- One pass of `ReadLibraryMap` leaves the pages of one file, or none.
use fake_linker.Prelude.{
  if-cases, ℕ, bit_and, ◌≡◌, refl, sym, ap, ◌∙◌, ◌≢◌, ◌⊎◌, inl, inr, Bool, true, false, not, ◌&&◌,
  ◌||◌, List, [], ◌∷◌, ◌++◌, arith, ◌==◌, if◌then◌else◌, Bool-cases, All, Bytes, All-snoc,
}
use fake_linker.Maps.Line.{
  format_line, scan_line, match_path, path_matches, Scan, PageProtect, MapsHelper,
}
use fake_linker.Maps.Window.{push_page}
use fake_linker.Maps.Library.{Search, Turn, go, stop, collect, library_round, library_loop}

-- The first page is of a line with the name and with file offset 0, and all pages have its inode.
abbrev pub IsOneFile : Bytes → ℕ → List PageProtect → Type 0
IsOneFile name inode [] = ⊥
IsOneFile name inode (p ∷ ps) =
    (p.file_offset ≡ 0)
    × (path_matches p.path name ≡ true)
    × (p.inode ≡ inode)
    × (inode ≢ 0)
    × All (λ (q : PageProtect). q.inode ≡ inode) ps

IsOneFile-snoc :
    (name : Bytes) (inode : ℕ) (ps : List PageProtect) (p : PageProtect)
    → IsOneFile name inode ps
    → p.inode ≡ inode
    → IsOneFile name inode (ps ++ p ∷ [])
IsOneFile-snoc name inode [] p h e = absurd h
IsOneFile-snoc name inode (q ∷ ps) p h e = (h.0, h.1, h.2, h.3, All-snoc _ ps p h.4 e)

-- Between two rounds.
abbrev Between : Bytes → Search → MapsHelper → Type 0
Between name s h =
    (h.library_name ≡ name)
    × (if s.started then IsOneFile name s.found_inode h.pages else (h.pages ≡ []))

abbrev pub After : Bytes → MapsHelper → Type 0
After name h = (h.pages ≡ []) ⊎ ((inode : ℕ) × IsOneFile name inode h.pages)

abbrev Holds : Bytes → Turn → Type 0
Holds name (go s h) = Between name s h
Holds name (stop h) = After name h

first : (A B : Type 0) (b : Bool) → (if b then A else B) → b ≡ false → B
first A B true x e = absurd (ground arith)
first A B false x e = x

later : (A B : Type 0) (b : Bool) → (if b then A else B) → b ≡ true → A
later A B true x e = x
later A B false x e = absurd (ground arith)

module _ (indeterminate : ℕ) (name : Bytes) where
  collect-first :
      (s : Search) (h : MapsHelper)
      → h.library_name ≡ name
      → h.pages ≡ []
      → s.found_inode ≡ h.inode
      → h.inode ≢ 0
      → h.file_offset ≡ 0
      → path_matches h.path name ≡ true
      → s.started ≡ true
      → Holds name (collect indeterminate s h)
  unfolding collect push_page
  collect-first s h n e i z o m st =
      let same : (s.found_inode == h.inode) ≡ true = ground arith in
      let nonzero : (h.inode == 0) ≡ false = ground arith in
      rw (same, nonzero, st, e) (n, (o, m, sym i, λ q. z (sym i ∙ q), tt))

  collect-more :
      (s : Search) (h : MapsHelper)
      → h.library_name ≡ name
      → IsOneFile name s.found_inode h.pages
      → s.started ≡ true
      → Holds name (collect indeterminate s h)
  unfolding collect push_page
  collect-more s h n o st =
      if-cases (Holds name) (not (s.found_inode == h.inode) && not (h.inode == 0))
        (λ _.
          if-cases (Holds name) (bit_and s.protect 5 == 5) (λ _. inr (s.found_inode, o))
            (λ _. (n, refl)))
        (λ e.
          if-cases (Holds name) (h.inode == 0) (λ _. (n, rw st o))
            (λ z. (n, rw st (IsOneFile-snoc name s.found_inode h.pages _ o (ground arith)))))

  format_line-keeps :
      (l : Scan) (h : MapsHelper)
      → ((format_line l h).0.pages ≡ h.pages) × ((format_line l h).0.library_name ≡ h.library_name)
  unfolding format_line scan_line
  format_line-keeps l h = (refl, refl)

  -- A round passes the state between two rounds on, or leaves the pages of one file.
  library_round-Holds :
      (l : Scan) (s : Search) (h : MapsHelper)
      → Between name s h
      → Holds name (library_round indeterminate l s h)
  unfolding library_round match_path
  library_round-Holds l s h b =
      let h' = (format_line l h).0 in
      let same : h'.pages ≡ h.pages = (format_line-keeps l h).0 in
      let named : h'.library_name ≡ name = (format_line-keeps l h).1 ∙ b.0 in
      if-cases (Holds name) (not s.started)
        (λ e.
          let off : s.started ≡ false = ground arith in
          let empty : h'.pages ≡ [] = same ∙ first _ _ s.started b.1 off in
          if-cases (Holds name)
            (not (format_line l h).1
              || not (match_path h')
              || h'.inode == 0
              || not (h'.file_offset == 0))
            (λ _. (named, rw off empty))
            (λ f.
              collect-first _ h' named empty refl (ground arith) (ground arith)
                (sym (ap (path_matches h'.path) named) ∙ ground arith) refl))
        (λ e.
          let on : s.started ≡ true = ground arith in
          let found = later _ _ s.started b.1 on in
          if-cases (Holds name) (not (format_line l h).1) (λ _. inr (s.found_inode, rw same found))
            (λ _. collect-more s h' named (rw same found) on))

  settled : (s : Search) (h : MapsHelper) → Between name s h → After name h
  settled s h b = elim (Bool-cases s.started) [
    | inl on ↦ inr (s.found_inode, later _ _ s.started b.1 on)
    | inr off ↦ inl (first _ _ s.started b.1 off)
  ]

  turned :
      (ls : List Scan) (t : Turn)
      → Holds name t
      → ((s : Search) (h : MapsHelper)
          → Between name s h
          → After name (library_loop indeterminate ls s h))
      → After name
          (elim t as (λ _. MapsHelper) [ go s h ↦ library_loop indeterminate ls s h | stop h ↦ h ])
  turned ls (go s h) holds ih = ih s h holds
  turned ls (stop h) holds ih = holds

  pub library_loop-After :
      (ls : List Scan) (s : Search) (h : MapsHelper)
      → Between name s h
      → After name (library_loop indeterminate ls s h)
  unfolding library_loop
  library_loop-After [] s h b = settled s h b
  library_loop-After (l ∷ ls) s h b =
      turned ls (library_round indeterminate l s (record h { unread = ls }))
        (library_round-Holds l s (record h { unread = ls }) b) (library_loop-After ls)
