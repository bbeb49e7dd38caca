-- ===== src/Tests/Relink.antt =====
-- The theorems on relinking and on the lists of libraries, on one library with the symbols "a" and
-- "b".
use fake_linker.Prelude.{
  ℕ, ◌+◌, ◌*◌, ◌≡◌, refl, true, false, none, some, [], ◌∷◌, ◌++◌, map, arith, if◌then◌else◌,
  is_empty, Bytes, bytes,
}
use fake_linker.Tests.Symbol.{tables}
use fake_linker.Tests.Maps.{four, ready}
use fake_linker.Tests.Relocate.{importer, relocs, rela, no_memory}
use fake_linker.Symbol.LookupList.{Searched, get_lookup_lib, from_groups, searched, as_number}
use fake_linker.Symbol.LookupList.Count.{set_all, last_lib, as_list, sysv_count, set_all-searched}
use fake_linker.Maps.Line.{MapsFile}
use fake_linker.Relocate.Special.{SymbolRelocations, find}
use fake_linker.Globals
use fake_linker.Globals.{find_soinfo_by_name}
use fake_linker.Relink.Exports.{Exporter, bounds_of, get_global_soinfo_export_symbols, first_export}
use fake_linker.Relink.Exports.Found.{is_left_out, get_global_soinfo_export_symbols-find}
use fake_linker.Relink.{
  Library, World, again_process_relocation, manual_relink_libraries, manual_relink_targets,
}
use fake_linker.Relink.Memory.{Relinks, again_process_relocation-Relinks}
use fake_linker.Relink.ByName.{targets_of, manual_relink_libraries-targets}

abbrev si : Searched
si = record { tables = tables; strtab_size = 100; bytes_at = λ i n. []; has_bloom_filter = true }

abbrev sysv : Searched
sysv = record si { tables = record tables { is_gnu_hash = false } }

set_all-searched_example :
    let l = set_all (some sysv ∷ some si ∷ []) (from_groups true (sysv ∷ []) (si ∷ sysv ∷ [])) in
    (searched l
      ≡ as_list (last_lib none (some sysv ∷ some si ∷ []))
        ++ (map get_lookup_lib (sysv ∷ []) ++ map get_lookup_lib (si ∷ sysv ∷ [])))
    × (l.slow_path_count ≡ as_number true + sysv_count (searched l))
set_all-searched_example =
    set_all-searched true (sysv ∷ []) (si ∷ sysv ∷ []) (some sysv ∷ some si ∷ []) (omega arith)

abbrev exporter : Exporter
exporter = record {
  tables = record tables { is_gnu_hash = false };
  nchain = 2;
  load_bias = 0x7000;
  st_value = λ i. 16 * i;
  get_string = λ i. some (tables.strtab i);
  call_ifunc_resolver = λ a. a;
}

two_bounds : bounds_of 30 5 exporter ≡ some (0, 2)
unfolding bounds_of
two_bounds = refl

get_global_soinfo_export_symbols-find_example :
    (rels : SymbolRelocations) × (get_global_soinfo_export_symbols 30 5 exporter false
        (bytes "a" ∷ [])
      ≡ some rels)
    × ((name : Bytes)
        → find name rels ≡ (
            if is_left_out (bytes "a" ∷ []) name
            then none
            else first_export exporter false name 3 0))
get_global_soinfo_export_symbols-find_example =
    get_global_soinfo_export_symbols-find 30 5 exporter false (bytes "a" ∷ []) 0 2 two_bounds
      (λ j low high e. refl)

abbrev library : Library
library = record {
  soname = some (bytes "liba.so");
  importer = importer;
  rela = [];
  plt_rela = rela;
}

abbrev maps : (ℕ → ℕ) → MapsFile
maps k = four

abbrev world : World ready
world = record { memory = no_memory; kernel = λ a. 1 }

again_process_relocation-Relinks_example :
    Relinks ready maps 0 5 library relocs no_memory
      (again_process_relocation ready maps 0 5 library relocs world)
again_process_relocation-Relinks_example =
    again_process_relocation-Relinks ready maps 0 5 library relocs world (tt, (refl, (refl, tt)))
      (omega arith)

abbrev heap : ℕ → Globals.Loaded
heap _ = record { soname = some (bytes "liba.so"); base = 0x1000; size = 0x3000 }

one_found : is_empty (targets_of heap (λ si. library) (10 ∷ []) (bytes "liba.so" ∷ [])) ≡ false
unfolding find_soinfo_by_name
one_found = refl

manual_relink_libraries-targets_example :
    manual_relink_libraries ready maps 0 5 30 5 heap
      (λ si. library)
      (10 ∷ [])
      (some exporter)
      (bytes "liba.so" ∷ [])
      []
      world
    ≡ manual_relink_targets ready maps 0 5 30 5
        (some exporter)
        1
        (targets_of heap (λ si. library) (10 ∷ []) (bytes "liba.so" ∷ []))
        []
        world
unfolding find_soinfo_by_name
manual_relink_libraries-targets_example =
    manual_relink_libraries-targets ready maps 0 5 30 5 heap (λ si. library) (10 ∷ [])
      (some exporter) (bytes "liba.so" ∷ []) [] world one_found
