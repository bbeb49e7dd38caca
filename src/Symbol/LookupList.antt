-- ===== src/Symbol/LookupList.antt =====
-- `SymbolLookupList` and `get_lookup_lib` of linker_soinfo.cpp and linker_soinfo.h
-- (library/src/main/cpp/linker/): the libraries in which a symbol is looked up.
pub mod Count
use fake_linker.Prelude.{
  ℕ, zero, suc, ◌+◌, ◌-◌, ◌*◌, ◌/◌, ◌%◌, ◌^◌, ◌≤◌, ◌<◌, bit_and, bit_or, bit_xor, ◌≡◌, refl, sym,
  ap, ◌∙◌, ◌≢◌, ◌↔◌, ◌⊎◌, inl, inr, Bool, true, false, not, ◌&&◌, ◌||◌, Option, none, some, List,
  [], ◌∷◌, ◌++◌, map, arith, ltb, leb, ◌==◌, if◌then◌else◌, ltb→lt, leb→le, ==→eq, ==_self, tests,
  Bool-cases, Option-cases, all_below, all_below_at, if-cases, length, is_empty, is_some,
  length-append, All, select, any, Bytes, bytes, text_eq,
}
use fake_linker.Bits.Align.{word}
use fake_linker.Symbol.{Tables}
use fake_linker.Symbol.Chain.{LookupLib}

-- What `get_lookup_lib` reads of a soinfo.
pub record Searched : Type 0 where
  pub tables : Tables
  pub strtab_size : ℕ
  pub bytes_at : ℕ → ℕ → Bytes
  pub has_bloom_filter : Bool

-- A library without a GNU table keeps the members at null and is searched through its soinfo.
unfoldable pub get_lookup_lib : Searched → LookupLib
get_lookup_lib si = record {
  tables = si.tables;
  needs_sysv_lookup = not (si.tables.is_gnu_hash && si.has_bloom_filter);
  strtab_size = if si.tables.is_gnu_hash then si.strtab_size else 0;
  bytes_at = si.bytes_at;
}

-- `libs_[0]`, which may have no soinfo, the other elements of `libs_`, whether `begin_` is the
-- first, and `slow_path_count_`.
pub record LookupList : Type 0 where
  pub symbolic : Option LookupLib
  pub libs : List LookupLib
  pub begins_at_symbolic : Bool
  pub slow_path_count : ℕ

abbrev pub as_number : Bool → ℕ
as_number true = 1
as_number false = 0

abbrev pub needs_sysv : Option LookupLib → Bool
needs_sysv none = false
needs_sysv (some lib) = lib.needs_sysv_lookup

-- The loop over a group, with `libs_` and the count.
unfoldable pub push_group : List Searched → List LookupLib → ℕ → List LookupLib × ℕ
push_group [] libs count = (libs, count)
push_group (si ∷ group) libs count =
    let lib = get_lookup_lib si in
    push_group group (libs ++ lib ∷ []) ((count + as_number lib.needs_sysv_lookup) % word)

-- The constructor from a global and a local group.
unfoldable pub from_groups : Bool → List Searched → List Searched → LookupList
from_groups tracing global_group local_group =
    let (global_libs, count) = push_group global_group [] (as_number tracing) in
    let (libs, count') = push_group local_group global_libs count in
    record { symbolic = none; libs = libs; begins_at_symbolic = false; slow_path_count = count' }

-- The constructor from one library, which is kept in the place of the first element.
unfoldable pub from_soinfo : Bool → Searched → LookupList
from_soinfo tracing si =
    let lib = get_lookup_lib si in
    record {
      symbolic = some lib;
      libs = [];
      begins_at_symbolic = true;
      slow_path_count = as_number tracing + as_number lib.needs_sysv_lookup;
    }

abbrev pub lib_of : Option Searched → Option LookupLib
lib_of none = none
lib_of (some si) = some (get_lookup_lib si)

unfoldable pub set_dt_symbolic_lib : Option Searched → LookupList → LookupList
set_dt_symbolic_lib lib l =
    let less = (l.slow_path_count + word - as_number (needs_sysv l.symbolic)) % word in
    let symbolic = lib_of lib in
    record l {
      symbolic = symbolic;
      begins_at_symbolic = is_some lib;
      slow_path_count = (less + as_number (needs_sysv symbolic)) % word;
    }

-- From `begin()` to `end()`; a null soinfo has an element with no table.
unfoldable pub searched : LookupList → List LookupLib
searched l =
    if not l.begins_at_symbolic
    then l.libs
    else elim l.symbolic [ none ↦ l.libs | some lib ↦ lib ∷ l.libs ]

unfoldable pub needs_slow_path : LookupList → Bool
needs_slow_path l = ltb 0 l.slow_path_count
