-- ===== src/Relink/ByName.antt =====
-- Relinking by the names of libraries and by pointers to them.
use fake_linker.Prelude.{
  ℕ, ◌≡◌, refl, sym, ap, ◌∙◌, inl, inr, false, Option, none, some, List, [], ◌∷◌, Option-cases,
  is_empty, length, Bytes,
}
use fake_linker.Maps.Line.{MapsFile}
use fake_linker.Maps.Protect.{Kernel}
use mathlib.Core.Path.{fun_ext}
use fake_linker.Globals
use fake_linker.Globals.{find_soinfo_by_name}
use fake_linker.Relocate.Special.{SymbolRelocations}
use fake_linker.Relink.Exports.{Exporter}
use fake_linker.Relink.{
  Library, World, manual_relink_library, relink_targets, relink_names, with_exports,
  manual_relink_libraries, manual_relink_targets, both,
}

-- The libraries that the names find, in order.
abbrev pub targets_of :
    (ℕ → Globals.Loaded) → (ℕ → Library) → List ℕ → List Bytes → List (Option Library)
targets_of heap library sis [] = []
targets_of heap library sis (name ∷ names) =
    let rest = targets_of heap library sis names in
    elim (find_soinfo_by_name heap name sis) [ none ↦ rest | some si ↦ some (library si) ∷ rest ]

module _ (K : Kernel) (maps : K.State → MapsFile) (indeterminate fuel : ℕ) where
  relink_names-targets :
      (heap : ℕ → Globals.Loaded) (library : ℕ → Library) (sis : List ℕ) (rels : SymbolRelocations)
      (names : List Bytes) (w : World K)
      → relink_names K maps indeterminate fuel heap library sis rels names w
        ≡ relink_targets K maps indeterminate fuel rels
            (length (targets_of heap library sis names))
            (targets_of heap library sis names)
            w
  unfolding relink_names relink_targets
  relink_names-targets heap library sis rels [] w = refl
  relink_names-targets heap library sis rels (name ∷ names) w =
      let ih = relink_names-targets heap library sis rels names in
      elim (Option-cases (find_soinfo_by_name heap name sis)) [
        | inl missing ↦ rw (missing, targets_of, relink_names) (ih w)
        | inr (si, found) ↦
            rw (found, targets_of, relink_names)
              (ap
                (both K maps indeterminate fuel
                  (manual_relink_library K maps indeterminate fuel rels (some (library si)) w))
                (fun_ext ih))
      ]

  -- `ManualRelinkLibraries` on names does what it does on pointers to the libraries that the names
  -- find, in order, with their number: a name that finds nothing changes neither the answer nor
  -- anything else, so the answer can be true although a library was not relocated. Some name finds
  -- a library.
  pub manual_relink_libraries-targets :
      (api fuel' : ℕ) (heap : ℕ → Globals.Loaded) (library : ℕ → Library) (sis : List ℕ)
      (global : Option Exporter) (sonames filters : List Bytes) (w : World K)
      → is_empty (targets_of heap library sis sonames) ≡ false
      → manual_relink_libraries K maps indeterminate fuel api fuel' heap library sis global sonames
          filters w
        ≡ manual_relink_targets K maps indeterminate fuel api fuel' global
            (length (targets_of heap library sis sonames))
            (targets_of heap library sis sonames)
            filters
            w
  unfolding manual_relink_libraries manual_relink_targets
  manual_relink_libraries-targets api fuel' heap library sis global [] filters w some_found = cc
  manual_relink_libraries-targets api fuel' heap library sis global (name ∷ names) filters w
        some_found =
      let targets = targets_of heap library sis (name ∷ names) in
      ap (λ loop. with_exports K maps indeterminate fuel api fuel' global filters false loop w)
        (fun_ext λ rels. fun_ext (relink_names-targets heap library sis rels (name ∷ names)))
      ∙ ap
          (λ b.
            with_exports K maps indeterminate fuel api fuel' global filters b
              (λ rels. relink_targets K maps indeterminate fuel rels (length targets) targets) w)
          (sym some_found)
