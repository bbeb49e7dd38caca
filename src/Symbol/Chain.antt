-- ===== src/Symbol/Chain.antt =====
-- `soinfo_do_lookup` (linker_soinfo.cpp): the search through a list of libraries.
pub mod Order
pub mod Found
use fake_linker.Prelude.{
  ℕ, zero, suc, ◌+◌, ◌-◌, ◌*◌, ◌/◌, ◌%◌, ◌^◌, ◌≤◌, ◌<◌, bit_and, bit_or, bit_xor, ◌≡◌, refl, sym,
  ap, ◌∙◌, ◌≢◌, ◌↔◌, ◌⊎◌, inl, inr, Bool, true, false, not, ◌&&◌, ◌||◌, Option, none, some, List,
  [], ◌∷◌, ◌++◌, map, arith, ltb, leb, ◌==◌, if◌then◌else◌, ltb→lt, leb→le, ==→eq, ==_self, tests,
  Bool-cases, Option-cases, all_below, all_below_at, if-cases, length, is_empty, is_some,
  length-append, All, select, any, Bytes, bytes, text_eq,
}
use fake_linker.Symbol.{
  ElfSym, Tables, VersionInfo, word32, calculate_gnu_hash, find_verdef_version_index,
  check_symbol_version, is_symbol_global_and_defined, may_hold, find_symbol_by_name,
  versym_not_needed, Answer,
}

-- A `SymbolLookupLib`: its tables, whether it needs the search by `find_symbol_by_name`, and the
-- size of its string table, of which `bytes_at` reads a number of bytes from an index on.
pub record LookupLib : Type 0 where
  pub tables : Tables
  pub needs_sysv_lookup : Bool
  pub strtab_size : ℕ
  pub bytes_at : ℕ → ℕ → Bytes

-- The tests of one round behind the comparison of hashes; the name is compared with its NUL.
unfoldable pub lib_matches : LookupLib → ℕ → Bytes → ℕ → Bool
unfolding check_symbol_version is_symbol_global_and_defined
lib_matches lib verneed name n =
    let sym = lib.tables.symtab n in
    check_symbol_version lib.tables.versym n verneed
    && leb (sym.st_name + length name + 1) lib.strtab_size
    && text_eq (lib.bytes_at sym.st_name (length name + 1)) (name ++ 0 ∷ [])
    && is_symbol_global_and_defined sym

-- The search in one library's chain, on fuel; `verneed` is what finding the version answers.
unfoldable pub lib_chain : LookupLib → ℕ → Option ℕ → Bytes → ℕ → ℕ → Answer
unfolding lib_matches
lib_chain lib hash verneed name zero n = none
lib_chain lib hash verneed name (suc fuel) n =
    let chain_value = lib.tables.gnu_chain n in
    let rest = lib_chain lib hash verneed name fuel (suc n) in
    let next = if bit_and chain_value 1 == 0 then rest else some none in
    if chain_value / 2 == hash / 2
    then elim verneed [
      | none ↦ none
      | some version ↦ if lib_matches lib version name n then some (some n) else next
    ]
    else next

-- One round of the outer loop. The version's index is asked for at equal hashes only: where finding
-- it ends the process, a chain without an equal hash still gives an answer.
unfoldable pub search_lib : ℕ → Bool → LookupLib → ℕ → Bytes → Option VersionInfo → Answer
unfolding lib_chain find_symbol_by_name may_hold calculate_gnu_hash find_verdef_version_index
search_lib api is_general lib fuel name vi =
    let hash = calculate_gnu_hash name in
    let n = lib.tables.gnu_bucket (hash % lib.tables.gnu_nbucket) in
    let verneed = find_verdef_version_index lib.tables vi in
    if is_general && lib.needs_sysv_lookup
    then find_symbol_by_name api lib.tables fuel name vi
    else if not (may_hold lib.tables hash)
    then some none
    else if n == 0
    then some none
    else lib_chain lib hash verneed name fuel n

-- The place of the library in the list and the index of the symbol in it.
unfoldable pub lookup_from :
    ℕ → Bool → ℕ → Bytes → Option VersionInfo → ℕ → List LookupLib → Option (Option (ℕ × ℕ))
lookup_from api is_general fuel name vi place [] = some none
lookup_from api is_general fuel name vi place (lib ∷ libs) =
    let rest = lookup_from api is_general fuel name vi (suc place) libs in
    elim (search_lib api is_general lib fuel name vi) [
      | none ↦ none
      | some none ↦ rest
      | some (some n) ↦ some (some (place, n))
    ]

unfoldable pub soinfo_do_lookup :
    ℕ → ℕ → Bytes → Option VersionInfo → List LookupLib → Option (Option (ℕ × ℕ))
unfolding lookup_from
soinfo_do_lookup api fuel name vi libs =
    lookup_from api (any (λ (l : LookupLib). l.needs_sysv_lookup) libs) fuel name vi 0 libs
