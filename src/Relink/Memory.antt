-- ===== src/Relink/Memory.antt =====
-- What the second relocation of a library does to memory.
use fake_linker.Prelude.{
  ℕ, bit_or, ◌≡◌, refl, inl, inr, Bool, true, false, some, if◌then◌else◌, Option-cases, if-cases,
  All, length, ◌<◌,
}
use fake_linker.Maps.Library.Ends.{get_library_protect-ne-none}
use fake_linker.Maps.Line.{MapsHelper, MapsFile, fresh, mp_read, mp_write}
use fake_linker.Maps.Library.{get_library_protect}
use fake_linker.Maps.Protect.{Kernel, unlock_page_protect, recovery_page_protect}
use fake_linker.Relocate.{jump_table, typical}
use fake_linker.Relocate.Special.{SymbolRelocations}
use fake_linker.Relocate.Again.{is_named, last_import, or_else, again_relocate-import}
use fake_linker.Relink.{Library, World, Turn, relocate_unlocked, again_process_relocation}

-- A word after the two tables of a library were relocated.
abbrev pub imported : Library → SymbolRelocations → ℕ → ℕ → ℕ
imported lib rels a v =
    or_else (last_import jump_table lib.importer rels a lib.plt_rela)
      (or_else (last_import typical lib.importer rels a lib.rela) v)

-- Every name in the tables of a library lies in its string table.
abbrev pub IsReadable : Library → Type 0
IsReadable lib =
    All (λ reloc. is_named lib.importer reloc ≡ true) lib.rela
    × All (λ reloc. is_named lib.importer reloc ≡ true) lib.plt_rela

module _ (K : Kernel) (maps : K.State → MapsFile) (indeterminate fuel : ℕ) where
  -- The turn ends, and leaves each word imported, or as it was, as its answer says.
  abbrev pub Relinks :
      Library → SymbolRelocations → (ℕ → ℕ) → Turn K maps indeterminate fuel → Type 0
  Relinks lib rels memory turn =
      (ok : Bool) × (w : World K) × (turn ≡ some (ok, w))
      × ((a : ℕ) → w.memory a ≡ (if ok then imported lib rels a (memory a) else memory a))

  relocate_unlocked-Relinks :
      (lib : Library) (rels : SymbolRelocations) (memory : ℕ → ℕ) (h : MapsHelper) (k : K.State)
      (ok : Bool)
      → IsReadable lib
      → Relinks lib rels memory (relocate_unlocked K maps indeterminate fuel lib rels memory h k ok)
  unfolding relocate_unlocked
  relocate_unlocked-Relinks lib rels memory h k false readable =
      (false, record { memory = memory; kernel = k }, refl, λ a. refl)
  relocate_unlocked-Relinks lib rels memory h k true readable =
      let (after, e, words) =
        again_relocate-import lib.importer rels lib.rela lib.plt_rela memory readable.0
          readable.1 in
      (
        true,
        record { memory = after; kernel = (recovery_page_protect K h k).1 },
        rw (e, relocate_unlocked) refl,
        words,
      )

  -- `again_process_relocation` ends. Where it answers false it has left every word as it was, and
  -- where it answers true every word is the value imported by the last relocation of the second
  -- table at its address, or else of the first table, or unchanged. The names lie in the string
  -- table, and the fuel is above the number of lines of the file of mappings.
  pub again_process_relocation-Relinks :
      (lib : Library) (rels : SymbolRelocations) (w : World K)
      → IsReadable lib
      → length (maps w.kernel).lines < fuel
      → Relinks lib rels w.memory (again_process_relocation K maps indeterminate fuel lib rels w)
  unfolding again_process_relocation
  again_process_relocation-Relinks lib rels w readable enough =
      let file = maps w.kernel in
      elim (Option-cases (get_library_protect indeterminate fuel file lib.soname fresh)) [
        | inl ended ↦
            absurd
              (get_library_protect-ne-none indeterminate fuel file lib.soname fresh enough ended)
        | inr ((h, found), read) ↦
            rw (read, again_process_relocation)
              (let r = unlock_page_protect K (some (bit_or mp_read mp_write)) h w.kernel in
                if-cases (Relinks lib rels w.memory) found
                  (λ _. relocate_unlocked-Relinks lib rels w.memory r.0 r.1 r.2 readable)
                  (λ _. (false, w, refl, λ a. refl)))
      ]
