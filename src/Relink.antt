-- ===== src/Relink.antt =====
-- Relinking: libraries are relocated again for the exported symbols of a global one. Of
-- library/src/main/cpp/linker/: `again_process_relocation` of linker_soinfo.cpp, and
-- `ManualRelinkLibrary` and `ManualRelinkLibraries` of linker_globals.cpp. The lock is left out.
pub mod Exports
pub mod Memory
pub mod ByName
use fake_linker.Prelude.{
  ℕ, zero, suc, ◌+◌, ◌-◌, ◌*◌, ◌/◌, ◌%◌, ◌^◌, ◌≤◌, ◌<◌, bit_and, bit_or, bit_xor, ◌≡◌, refl, sym,
  ap, ◌∙◌, ◌≢◌, ◌↔◌, ◌⊎◌, inl, inr, Bool, true, false, not, ◌&&◌, ◌||◌, Option, none, some, List,
  [], ◌∷◌, ◌++◌, map, arith, ltb, leb, ◌==◌, if◌then◌else◌, ltb→lt, leb→le, ==→eq, ==_self, tests,
  Bool-cases, Option-cases, all_below, all_below_at, if-cases, length, is_empty, is_some,
  length-append, All, select, any, Bytes, bytes, text_eq,
}
use fake_linker.Maps.Line.{MapsHelper, MapsFile, fresh, mp_read, mp_write}
use fake_linker.Maps.Library.{get_library_protect}
use fake_linker.Maps.Protect.{Kernel, unlock_page_protect, recovery_page_protect}
use fake_linker.Relocate.{Reloc}
use fake_linker.Relocate.Special.{SymbolRelocations}
use fake_linker.Relocate.Again.{Importer, again_relocate}
use fake_linker.Globals.{find_soinfo_by_name}
use fake_linker.Globals
use fake_linker.Relink.Exports.{Exporter, get_global_soinfo_export_symbols}

-- What is read of the soinfo of a library; a missing table is empty.
pub record Library : Type 0 where
  pub soname : Option Bytes
  pub importer : Importer
  pub rela : List Reloc
  pub plt_rela : List Reloc

-- The words in memory, and the state of the operating system.
pub record World (K : Kernel) : Type 0 where
  pub memory : ℕ → ℕ
  pub kernel : K.State

-- The file of mappings is what the system makes of its state; the fuel is for its reading, and
-- `indeterminate` for members of the helper that have no value yet. `none` is the end of the
-- process, or fuel that ran out.
module _ (K : Kernel) (maps : K.State → MapsFile) (indeterminate fuel : ℕ) where
  abbrev pub Turn : Type 0
  Turn = Option (Bool × World K)

  unfoldable pub relocate_unlocked :
      Library → SymbolRelocations → (ℕ → ℕ) → MapsHelper → K.State → Bool → Turn
  relocate_unlocked lib rels memory h k false = some (false, record { memory = memory; kernel = k })
  relocate_unlocked lib rels memory h k true =
      elim (again_relocate lib.importer rels lib.rela lib.plt_rela memory) [
        | none ↦ none
        | some after ↦
            some (true, record { memory = after; kernel = (recovery_page_protect K h k).1 })
      ]

  -- `soinfo::again_process_relocation`
  unfoldable pub again_process_relocation : Library → SymbolRelocations → World K → Turn
  again_process_relocation lib rels w =
      elim (get_library_protect indeterminate fuel (maps w.kernel) lib.soname fresh) [
        | none ↦ none
        | some (h, found) ↦
            let (h', k, ok) = unlock_page_protect K (some (bit_or mp_read mp_write)) h w.kernel in
            if found then relocate_unlocked lib rels w.memory h' k ok else some (false, w)
      ]

  -- `ManualRelinkLibrary` on a table of symbols; `none` is a null pointer.
  unfoldable pub manual_relink_library : SymbolRelocations → Option Library → World K → Turn
  manual_relink_library rels none w = some (false, w)
  manual_relink_library rels (some lib) w =
      if is_empty rels then some (false, w) else again_process_relocation lib rels w

  -- `success &= ...`, and the rest of the loop.
  abbrev pub both : Turn → (World K → Turn) → Turn
  both none rest = none
  both (some (ok, w)) rest = elim (rest w) [ none ↦ none | some (ok', w') ↦ some (ok && ok', w') ]

  -- The loop of `ManualRelinkLibraries` over `len` pointers; `none` where it reads behind them.
  unfoldable pub relink_targets : SymbolRelocations → ℕ → List (Option Library) → World K → Turn
  relink_targets rels zero libs w = some (true, w)
  relink_targets rels (suc len) [] w = none
  relink_targets rels (suc len) (lib ∷ libs) w =
      both (manual_relink_library rels lib w) (relink_targets rels len libs)

  -- The loop of `ManualRelinkLibraries` over names: a library that is not found is passed over.
  unfoldable pub relink_names :
      (ℕ → Globals.Loaded)
      → (ℕ → Library)
      → List ℕ
      → SymbolRelocations
      → List Bytes
      → World K
      → Turn
  relink_names heap library sis rels [] w = some (true, w)
  relink_names heap library sis rels (name ∷ names) w = elim (find_soinfo_by_name heap name sis) [
    | none ↦ relink_names heap library sis rels names w
    | some si ↦
        both (manual_relink_library rels (some (library si)) w)
          (relink_names heap library sis rels names)
  ]

  -- The start of both: a null global library, no target, or no exported symbol answers false.
  -- `exports` are the calls' bounds of `get_global_soinfo_export_symbols`, api and fuel.
  unfoldable pub with_exports :
      ℕ
      → ℕ
      → Option Exporter
      → List Bytes
      → Bool
      → (SymbolRelocations → World K → Turn)
      → World K
      → Turn
  with_exports api fuel' none filters is_none loop w = some (false, w)
  with_exports api fuel' (some global) filters is_none loop w =
      if is_none
      then some (false, w)
      else elim (get_global_soinfo_export_symbols api fuel' global false filters) [
        | none ↦ none
        | some rels ↦ if is_empty rels then some (false, w) else loop rels w
      ]

  -- `ManualRelinkLibraries` on names and on pointers.
  unfoldable pub manual_relink_libraries :
      ℕ
      → ℕ
      → (ℕ → Globals.Loaded)
      → (ℕ → Library)
      → List ℕ
      → Option Exporter
      → List Bytes
      → List Bytes
      → World K
      → Turn
  unfolding with_exports relink_names
  manual_relink_libraries api fuel' heap library sis global sonames filters w =
      with_exports api fuel' global filters (is_empty sonames)
        (λ rels. relink_names heap library sis rels sonames) w

  -- A negative `len` is 0 here: the loop has no round either.
  unfoldable pub manual_relink_targets :
      ℕ → ℕ → Option Exporter → ℕ → List (Option Library) → List Bytes → World K → Turn
  unfolding with_exports relink_targets
  manual_relink_targets api fuel' global len targets filters w =
      with_exports api fuel' global filters (is_empty targets)
        (λ rels. relink_targets rels len targets) w
