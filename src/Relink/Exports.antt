-- ===== src/Relink/Exports.antt =====
-- `get_global_soinfo_export_symbols` of linker_soinfo.cpp (library/src/main/cpp/linker/): the
-- names and addresses that a library exports.
pub mod Found
use fake_linker.Prelude.{
  ℕ, zero, suc, ◌+◌, ◌-◌, ◌%◌, ◌≡◌, refl, sym, ap, ◌∙◌, inl, inr, Bool, true, false, ◌&&◌, Option,
  none, some, List, [], ◌∷◌, ◌++◌, arith, ltb, ◌==◌, if◌then◌else◌, text_eq→eq, Bool-cases,
  Option-cases, is_some, any, Bytes, text_eq,
}
use fake_linker.Bits.Align.{word}
use fake_linker.Symbol.{Tables}
use fake_linker.Symbol.Export.{get_export_symbol_gnu_table_size, find_global}
use fake_linker.Relocate.Special.{SymbolRelocations, find}

-- What is read of the soinfo; `get_string` is `none` where the process ends.
pub record Exporter : Type 0 where
  pub tables : Tables
  pub nchain : ℕ
  pub load_bias : ℕ
  pub st_value : ℕ → ℕ
  pub get_string : ℕ → Option Bytes
  pub call_ifunc_resolver : ℕ → ℕ

-- `resolve_symbol_address`; STT_GNU_IFUNC is 10.
unfoldable pub address_of : Exporter → ℕ → ℕ
address_of so i =
    let address = (so.st_value i + so.load_bias) % word in
    if (so.tables.symtab i).st_info % 16 == 10 then so.call_ifunc_resolver address else address

-- `result.emplace`: a name that is there keeps its address.
unfoldable pub emplace : Bytes → ℕ → SymbolRelocations → SymbolRelocations
emplace name address rels = if is_some (find name rels) then rels else rels ++ (name, address) ∷ []

-- The loop over the symbols, with the number of symbols left.
unfoldable pub export_loop : Exporter → Bool → ℕ → ℕ → SymbolRelocations → Option SymbolRelocations
export_loop so only_func zero i result = some result
export_loop so only_func (suc left) i result = elim (find_global only_func (so.tables.symtab i)) [
  | false ↦ export_loop so only_func left (suc i) result
  | true ↦ elim (so.get_string (so.tables.symtab i).st_name) [
    | none ↦ none
    | some name ↦ export_loop so only_func left (suc i) (emplace name (address_of so i) result)
  ]
]

-- The first and the last index; the fuel is for the chain of the GNU table.
unfoldable pub bounds_of : ℕ → ℕ → Exporter → Option (ℕ × ℕ)
bounds_of api fuel so =
    if so.tables.is_gnu_hash
    then get_export_symbol_gnu_table_size api so.tables fuel
    else some (0, so.nchain)

unfoldable pub export_symbols : ℕ → ℕ → Exporter → Bool → Option SymbolRelocations
export_symbols api fuel so only_func = elim (bounds_of api fuel so) [
  | none ↦ none
  | some (start, end) ↦
      if ltb end start then some [] else export_loop so only_func (end + 1 - start) start []
]

-- `symbols.erase(name)`
unfoldable pub erase : Bytes → SymbolRelocations → SymbolRelocations
erase name [] = []
erase name ((n, address) ∷ rels) =
    let rest = erase name rels in if text_eq n name then rest else (n, address) ∷ rest

unfoldable pub erase_all : List Bytes → SymbolRelocations → SymbolRelocations
erase_all [] rels = rels
erase_all (name ∷ filters) rels = erase_all filters (erase name rels)

-- `get_global_soinfo_export_symbols` with names that are left out.
unfoldable pub get_global_soinfo_export_symbols :
    ℕ → ℕ → Exporter → Bool → List Bytes → Option SymbolRelocations
get_global_soinfo_export_symbols api fuel so only_func filters =
    elim (export_symbols api fuel so only_func) [
      | none ↦ none
      | some symbols ↦ some (erase_all filters symbols)
    ]

-- The address of the first exported symbol with the name.
abbrev pub first_export : Exporter → Bool → Bytes → ℕ → ℕ → Option ℕ
first_export so only_func name zero i = none
first_export so only_func name (suc left) i =
    let rest = first_export so only_func name left (suc i) in
    elim (so.get_string (so.tables.symtab i).st_name) [
      | none ↦ rest
      | some n ↦
          if find_global only_func (so.tables.symtab i) && text_eq n name
          then some (address_of so i)
          else rest
    ]
