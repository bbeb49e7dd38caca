-- ===== src/Tests/Chain.antt =====
-- The theorems on lists of libraries and on versions, on two libraries of which the second holds
-- the symbol "b".
use fake_linker.Prelude.{
  ℕ, ◌-◌, ◌^◌, ◌≡◌, refl, false, none, some, [], ◌∷◌, ◌==◌, if◌then◌else◌, bytes,
}
use fake_linker.Tests.Symbol.{tables}
use fake_linker.Symbol.{
  calculate_gnu_hash, may_hold, find_verdef_version_index, check_symbol_version,
  is_symbol_global_and_defined,
}
use fake_linker.Symbol.Chain.{LookupLib, search_lib, soinfo_do_lookup, lib_chain, lib_matches}
use fake_linker.Symbol.Chain.Found.{IsFound, soinfo_do_lookup-IsFound}
use fake_linker.Symbol.Chain.Order.{soinfo_do_lookup-first}

abbrev with_bloom : ℕ → LookupLib
with_bloom word = record {
  tables = record tables { gnu_bloom_filter = λ i. word };
  needs_sysv_lookup = false;
  strtab_size = 16;
  bytes_at = λ index n. if index == 2 then b'b' ∷ 0 ∷ [] else b'a' ∷ 0 ∷ [];
}

-- A library whose Bloom filter is empty, and one that holds the symbol.
abbrev absent : LookupLib
absent = with_bloom 0

abbrev present : LookupLib
present = with_bloom (2 ^ 64 - 1)

absent_lem : search_lib 30 false absent 5 (bytes "b") none ≡ some none
unfolding search_lib may_hold calculate_gnu_hash
absent_lem = refl

present_lem : search_lib 30 false present 5 (bytes "b") none ≡ some (some 2)
unfolding search_lib may_hold calculate_gnu_hash lib_chain lib_matches check_symbol_version
    is_symbol_global_and_defined find_verdef_version_index
present_lem = refl

found_lem : soinfo_do_lookup 30 5 (bytes "b") none (absent ∷ present ∷ []) ≡ some (some (1, 2))
found_lem =
    soinfo_do_lookup-first 30 5 (bytes "b") none 2 (absent ∷ []) [] present (absent_lem, tt)
      present_lem

soinfo_do_lookup-IsFound_example : IsFound 30 5 (bytes "b") none (absent ∷ present ∷ []) 1 2
soinfo_do_lookup-IsFound_example =
    soinfo_do_lookup-IsFound 30 5 (bytes "b") none 1 2 (absent ∷ present ∷ []) refl found_lem
