-- ===== src/Tests/Symbol.antt =====
-- The theorems on symbol lookup, on tables with the symbols "a" and "b".
use fake_linker.Prelude.{
  ℕ, zero, suc, ◌-◌, ◌%◌, ◌^◌, ◌≤◌, ◌≡◌, refl, ◌≢◌, true, false, none, [], arith, ◌==◌,
  if◌then◌else◌, bytes, some,
}
use fake_linker.Symbol.{
  Tables, word32, calculate_gnu_hash, find_verdef_version_index, gnu_matches, elf_matches,
  gnu_search, elf_lookup, may_hold, check_symbol_version, is_symbol_global_and_defined, has_text,
  get_string, chain_loop,
}
use fake_linker.Maps.Line.{strstr, starts_with}
use fake_linker.Symbol.Reader.{gnu_hash_lookup_symbol, gnu_hash_lookup_symbol-gnu_search}
use fake_linker.Symbol.Export.{
  find_export_symbol_by_prefix, get_export_symbol_gnu_table_size, chain_end, prefix_loop,
  find_global, has_prefix,
}
use fake_linker.Symbol.Hash.{polynomial, calculate_gnu_hash-polynomial}
use fake_linker.Symbol.Lookup.{
  Finds, IsListed, FindsLink, link, gnu_search-Finds, elf_lookup-FindsLink,
}

-- Symbol 1 is "a", symbol 2 is "b"; all hashes share one chain.
abbrev pub tables : Tables
tables = record {
  strtab = λ i. if i == 1 then bytes "a" else bytes "b";
  strtab_limit = some 100;
  symtab = λ i. record { st_name = i; st_info = 16; st_other = 0; st_shndx = 5 };
  gnu_nbucket = 1;
  gnu_maskwords = 0;
  gnu_shift2 = 6;
  gnu_bloom_filter = λ i. 2 ^ 64 - 1;
  gnu_bucket = λ i. 1;
  gnu_chain = λ i. if i == 1 then 177670 else 177671;
  nbucket = 1;
  bucket = λ i. 1;
  chain = λ i. if i == 1 then 2 else 0;
  is_gnu_hash = true;
  versym = none;
  has_verdef = false;
  verdef_cnt = 0;
  verdef_at = λ offset. record {
    vd_version = 0;
    vd_flags = 0;
    vd_ndx = 0;
    vd_cnt = 0;
    vd_hash = 0;
    vd_next = 0;
    vda_name = 0;
  };
}

calculate_gnu_hash-polynomial_example :
    calculate_gnu_hash (bytes "printf") ≡ polynomial 5381 (bytes "printf") % word32
calculate_gnu_hash-polynomial_example = calculate_gnu_hash-polynomial (bytes "printf")

tables-IsListed : IsListed tables (bytes "b") 2
unfolding may_hold calculate_gnu_hash
tables-IsListed = record {
  admitted = refl;
  nonempty = omega arith;
  behind = omega arith;
  unmarked = λ j low high. let first : j ≡ 1 = omega arith in rw first refl;
}

gnu_search-Finds_example :
    Finds
      (gnu_matches tables (calculate_gnu_hash (bytes "b")) 0 (bytes "b"))
      (gnu_search tables 3 (bytes "b") none)
      2
unfolding gnu_matches check_symbol_version calculate_gnu_hash find_verdef_version_index has_text
    get_string
gnu_search-Finds_example =
    gnu_search-Finds tables 3 (bytes "b") none 0 2 tables-IsListed refl refl
      (λ j low high. let first : j ≡ 1 = omega arith in rw first (ground arith)) (omega arith)

tables_linked : (j : ℕ) → j ≤ 1 → link tables.chain 1 j ≢ 0
tables_linked zero le = omega arith
tables_linked (suc zero) le = omega arith
tables_linked (suc (suc j)) le = absurd (omega arith)

elf_lookup-FindsLink_example :
    FindsLink
      (elf_matches tables 0 (bytes "b"))
      tables.chain
      (elf_lookup tables 3 (bytes "b") none)
      1
      1
unfolding elf_matches check_symbol_version find_verdef_version_index is_symbol_global_and_defined
    has_text get_string
elf_lookup-FindsLink_example =
    elf_lookup-FindsLink tables 3 (bytes "b") none 0 1 refl refl tables_linked
      (λ j low. let first : j ≡ 0 = omega arith in rw first (ground arith)) (omega arith)

found_b : gnu_search (record tables { versym = none }) 3 (bytes "b") none ≡ some (some 2)
unfolding gnu_search may_hold chain_loop gnu_matches check_symbol_version calculate_gnu_hash
    find_verdef_version_index has_text get_string
found_b = refl

gnu_hash_lookup_symbol-gnu_search_example :
    gnu_hash_lookup_symbol 100 tables 3 (some (bytes "b")) ≡ some (some 2)
gnu_hash_lookup_symbol-gnu_search_example =
    gnu_hash_lookup_symbol-gnu_search 100 tables 3 b'b' [] (some 2) refl found_b

prefix_lem : find_export_symbol_by_prefix 30 tables 0 3 (bytes "b") ≡ some (some 2)
unfolding find_export_symbol_by_prefix get_export_symbol_gnu_table_size chain_end prefix_loop
    find_global has_prefix strstr starts_with get_string
prefix_lem = refl
