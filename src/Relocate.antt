-- ===== src/Relocate.antt =====
-- Relocation of a library (library/src/main/cpp/linker/linker_relocate.cpp), for arm64: the
-- relocations have addends, there are no text relocations, and TLS offsets have no bias.
-- The numbers of the relocation types are those of the ELF ABI for arm64.
pub mod Again
pub mod Groups
pub mod Leb
pub mod Modes
pub mod Packed
pub mod Special
pub mod Whole
use fake_linker.Prelude.{
  ℕ, zero, suc, ◌+◌, ◌-◌, ◌*◌, ◌/◌, ◌%◌, ◌^◌, ◌≤◌, ◌<◌, bit_and, bit_or, bit_xor, ◌≡◌, refl, sym,
  ap, ◌∙◌, ◌≢◌, ◌↔◌, ◌⊎◌, inl, inr, Bool, true, false, not, ◌&&◌, ◌||◌, Option, none, some, List,
  [], ◌∷◌, ◌++◌, map, arith, ltb, leb, ◌==◌, if◌then◌else◌, ltb→lt, leb→le, ==→eq, ==_self, tests,
  Bool-cases, Option-cases, all_below, all_below_at, if-cases, length, is_empty, is_some,
  length-append, All, select, any, Bytes, bytes, text_eq,
}
use fake_linker.Bits.Align.{word}
use fake_linker.Symbol.{ElfSym, VersionInfo, Tables}
use fake_linker.Symbol.Chain.{LookupLib, soinfo_do_lookup}
use fake_linker.Symbol.Version.{Version, Versions, lookup_version_info}

pub data RelocMode : Type 0 where
  jump_table : RelocMode
  typical : RelocMode
  general : RelocMode

-- An entry of a relocation table, with the two parts of `r_info`.
pub record Reloc : Type 0 where
  pub r_offset : ℕ
  pub r_type : ℕ
  pub r_sym : ℕ
  pub r_addend : ℕ

-- What a relocation reads of a library: `tls` is the module of its TLS segment, if it has one.
pub record Lib : Type 0 where
  pub load_bias : ℕ
  pub should_tag : Bool
  pub tls : Option ℕ
  pub is_linker : Bool

-- `static_offset` is `none` for SIZE_MAX.
pub record TlsModule : Type 0 where
  pub static_offset : Option ℕ
  pub first_generation : ℕ

pub record TlsDynamicResolverArg : Type 0 where
  pub generation : ℕ
  pub module_id : ℕ
  pub offset : ℕ

-- The members of `Relocator` that stay the same, and what the loader calls: the tagging
-- instruction, the call of a resolver and the addresses of the TLS descriptors' resolvers. A
-- symbol that a lookup answers is the position of its library and its index there.
pub record Env : Type 0 where
  pub api : ℕ
  pub fuel : ℕ
  pub si : Lib
  pub tables : Tables
  pub strtab_size : ℕ
  pub versions : Versions
  pub lookup_list : List LookupLib
  pub lib : ℕ → Lib
  pub sym_value : ℕ → ℕ → ℕ
  pub sym_info : ℕ → ℕ → ℕ
  pub get_tagged_address : ℕ → ℕ
  pub call_ifunc_resolver : ℕ → ℕ
  pub get_tls_module : ℕ → TlsModule
  pub tls_tp_base : ℕ
  pub tlsdesc_resolver_unresolved_weak : ℕ
  pub tlsdesc_resolver_static : ℕ

-- The members of `Relocator` that change, and the words in memory.
pub record Relocator : Type 0 where
  pub cache_sym_val : ℕ
  pub cache : Option (ℕ × ℕ)
  pub memory : ℕ → ℕ
  pub tlsdesc_args : List TlsDynamicResolverArg
  pub deferred_tlsdesc_relocs : List (ℕ × ℕ)

-- A call ends the process, answers false, or goes on with a value.
pub data Run (A : Type 0) : Type 0 where
  aborts : Run A
  fails : Relocator → Run A
  returns : A → Relocator → Run A

abbrev pub and_then : {A B : Type 0} → Run A → (A → Relocator → Run B) → Run B
and_then aborts k = aborts
and_then (fails r) k = fails r
and_then (returns a r) k = k a r

abbrev pub done : Relocator → Run (Unit {0})
done r = returns tt r

-- `*static_cast<ElfW(Addr) *>(rel_target) = result; return true`
abbrev pub store : ℕ → ℕ → Relocator → Run (Unit {0})
store target v r = done (record r { memory = λ a. if a == target then v % word else r.memory a })

abbrev pub st_bind : ℕ → ℕ
st_bind info = info / 16

abbrev pub st_type : ℕ → ℕ
st_type info = info % 16

unfoldable pub apply_memtag_if_mte_globals : Env → Lib → ℕ → ℕ
apply_memtag_if_mte_globals env lib sym_addr =
    if not lib.should_tag
    then sym_addr
    else if sym_addr == 0
    then sym_addr
    else env.get_tagged_address sym_addr

-- STT_GNU_IFUNC is 10.
unfoldable pub resolve_symbol_address : Env → ℕ × ℕ → ℕ
resolve_symbol_address env (lib, sym) =
    let address = (env.sym_value lib sym + (env.lib lib).load_bias) % word in
    if st_type (env.sym_info lib sym) == 10 then env.call_ifunc_resolver address else address

abbrev pub version_of : Option Version → Option VersionInfo
version_of none = none
version_of (some v) = some (record { elf_hash = v.elf_hash; name = v.name })

-- The symbol of the cache, or the lookup whose answer goes into the cache.
unfoldable pub lookup_cached : Env → ℕ → Bytes → Relocator → Run (Option (ℕ × ℕ))
lookup_cached env r_sym sym_name r =
    if r_sym == r.cache_sym_val
    then returns r.cache r
    else elim (lookup_version_info env.tables env.versions r_sym) [
      | none ↦ fails r
      | some vi ↦
          elim (soinfo_do_lookup env.api env.fuel sym_name (version_of vi) env.lookup_list) [
            | none ↦ aborts
            | some found ↦ returns found (record r { cache_sym_val = r_sym; cache = found })
          ]
    ]

-- A symbol that is not found is an error unless the reference to it is weak (STB_WEAK is 2).
unfoldable pub check_found : Env → ℕ → Option (ℕ × ℕ) → Relocator → Run (Option (ℕ × ℕ))
check_found env r_sym (some sym) r = returns (some sym) r
check_found env r_sym none r =
    if not (st_bind (env.tables.symtab r_sym).st_info == 2) then fails r else returns none r

unfoldable pub lookup_symbol : Env → ℕ → Bytes → Relocator → Run (Option (ℕ × ℕ))
unfolding lookup_cached check_found
lookup_symbol env r_sym sym_name r =
    and_then (lookup_cached env r_sym sym_name r) (check_found env r_sym)

abbrev pub is_tls_reloc : ℕ → Bool
is_tls_reloc type = (type == 1028) || (type == 1029) || (type == 1030) || (type == 1031)

-- `found_in` and `sym_addr`
abbrev pub Target : Type 0
Target = Option Lib × ℕ

-- The library of a TLS relocation needs a TLS segment.
abbrev pub with_tls : Lib → ℕ → Relocator → Run Target
with_tls lib sym_addr r = elim lib.tls [ none ↦ fails r | some m ↦ returns (some lib, sym_addr) r ]

-- STT_TLS is 6.
unfoldable pub tls_found : Env → Option (ℕ × ℕ) → Relocator → Run Target
tls_found env none r = returns (none, 0) r
tls_found env (some (lib, sym)) r = elim (env.lib lib).tls [
  | none ↦ fails r
  | some m ↦
      if not (st_type (env.sym_info lib sym) == 6)
      then fails r
      else returns (some (env.lib lib), env.sym_value lib sym) r
]

-- The symbol of a TLS relocation; STB_LOCAL is 0.
unfoldable pub tls_symbol : Env → Reloc → Bytes → Relocator → Run Target
unfolding tls_found
tls_symbol env reloc sym_name r =
    if reloc.r_sym == 0
    then with_tls env.si 0 r
    else if st_bind (env.tables.symtab reloc.r_sym).st_info == 0
    then fails r
    else and_then (lookup_symbol env reloc.r_sym sym_name r) (tls_found env)

unfoldable pub plain_found : Env → Option (ℕ × ℕ) → Relocator → Run Target
plain_found env none r = returns (none, 0) r
plain_found env (some (lib, sym)) r =
    returns (some (env.lib lib), resolve_symbol_address env (lib, sym)) r

-- The symbol of any other relocation.
unfoldable pub plain_symbol : Env → Reloc → Bytes → Relocator → Run Target
unfolding plain_found
plain_symbol env reloc sym_name r =
    if reloc.r_sym == 0
    then returns (none, 0) r
    else and_then (lookup_symbol env reloc.r_sym sym_name r) (plain_found env)

unfoldable pub rel_target : Env → Reloc → ℕ
rel_target env reloc =
    apply_memtag_if_mte_globals env env.si ((reloc.r_offset + env.si.load_bias) % word)

abbrev pub tagged : Env → Target → ℕ
tagged env (none, sym_addr) = sym_addr
tagged env (some lib, sym_addr) = apply_memtag_if_mte_globals env lib sym_addr

abbrev pub is_typical : ℕ → Bool
is_typical type = (type == 257) || (type == 1025) || (type == 1027)

-- R_AARCH64_RELATIVE; the word in memory is part of the tag's derivation.
unfoldable pub relative : Env → Reloc → Relocator → Run (Unit {0})
relative env reloc r =
    let target = rel_target env reloc in
    let result = (env.si.load_bias + reloc.r_addend) % word in
    let offset = r.memory target in
    store target
      (if env.si.should_tag
        then apply_memtag_if_mte_globals env env.si ((result + offset) % word) + word - offset
        else result)
      r

-- R_AARCH64_ABS64 and GLOB_DAT, and R_AARCH64_RELATIVE.
unfoldable pub typical_relocation : Env → Reloc → Target → Relocator → Run (Unit {0})
unfolding relative
typical_relocation env reloc found r =
    if reloc.r_type == 1027
    then relative env reloc r
    else store (rel_target env reloc) (tagged env found + reloc.r_addend) r

-- R_AARCH64_JUMP_SLOT
unfoldable pub jump_slot : Env → Reloc → Target → Relocator → Run (Unit {0})
jump_slot env reloc found r = store (rel_target env reloc) (found.1 + reloc.r_addend) r

unfoldable pub tls_tprel : Env → Reloc → Target → Relocator → Run (Unit {0})
tls_tprel env reloc (none, sym_addr) r = store (rel_target env reloc) (sym_addr + reloc.r_addend) r
tls_tprel env reloc (some lib, sym_addr) r = elim lib.tls [
  | none ↦ aborts
  | some module_id ↦ elim (env.get_tls_module module_id).static_offset [
    | none ↦ fails r
    | some offset ↦
        store (rel_target env reloc) (offset + word - env.tls_tp_base + (sym_addr + reloc.r_addend))
          r
  ]
]

unfoldable pub tls_dtpmod : Env → Reloc → Target → Relocator → Run (Unit {0})
tls_dtpmod env reloc (none, sym_addr) r = store (rel_target env reloc) 0 r
tls_dtpmod env reloc (some lib, sym_addr) r = elim lib.tls [
  | none ↦ aborts
  | some module_id ↦ if module_id == 0 then aborts else store (rel_target env reloc) module_id r
]

-- The two words of a TLS descriptor.
abbrev pub store_descriptor : ℕ → ℕ → ℕ → Relocator → Run (Unit {0})
store_descriptor desc func arg r = and_then (store desc func r) λ _ r'. store (desc + 8) arg r'

unfoldable pub tlsdesc : Env → Reloc → Target → Relocator → Run (Unit {0})
tlsdesc env reloc (none, sym_addr) r =
    store_descriptor (rel_target env reloc) env.tlsdesc_resolver_unresolved_weak reloc.r_addend r
tlsdesc env reloc (some lib, sym_addr) r = elim lib.tls [
  | none ↦ aborts
  | some module_id ↦ elim (env.get_tls_module module_id).static_offset [
    | some offset ↦
        store_descriptor (rel_target env reloc) env.tlsdesc_resolver_static
          (offset + word - env.tls_tp_base + sym_addr + reloc.r_addend) r
    | none ↦
        let arg : TlsDynamicResolverArg = record {
          generation = (env.get_tls_module module_id).first_generation;
          module_id = module_id;
          offset = (sym_addr + reloc.r_addend) % word;
        } in
        done (record r {
          tlsdesc_args = r.tlsdesc_args ++ arg ∷ [];
          deferred_tlsdesc_relocs =
              r.deferred_tlsdesc_relocs ++ (rel_target env reloc, length r.tlsdesc_args) ∷ [];
        })
  ]
]

-- The switch at the end: IRELATIVE, COPY, the TLS types, and the error of any other type.
unfoldable pub other_relocation : Env → Reloc → Target → Relocator → Run (Unit {0})
unfolding tls_tprel tls_dtpmod tlsdesc
other_relocation env reloc found r =
    if reloc.r_type == 1032
    then (if env.si.is_linker
        then done r
        else store (rel_target env reloc)
            (env.call_ifunc_resolver ((env.si.load_bias + reloc.r_addend) % word)) r)
    else if reloc.r_type == 1024
    then fails r
    else if reloc.r_type == 1030
    then tls_tprel env reloc found r
    else if reloc.r_type == 1028
    then tls_dtpmod env reloc found r
    else if reloc.r_type == 1029
    then store (rel_target env reloc) (found.1 + reloc.r_addend) r
    else if reloc.r_type == 1031
    then tlsdesc env reloc found r
    else fails r

-- What follows the lookup in each mode; `rest` stands for the slow path.
unfoldable pub relocate_found :
    RelocMode → Run (Unit {0}) → Env → Reloc → Target → Relocator → Run (Unit {0})
relocate_found RelocMode.jump_table rest env reloc found r =
    if reloc.r_type == 1026 then jump_slot env reloc found r else rest
relocate_found RelocMode.typical rest env reloc found r =
    if is_typical reloc.r_type then typical_relocation env reloc found r else rest
relocate_found RelocMode.general rest env reloc found r =
    if reloc.r_type == 1026
    then jump_slot env reloc found r
    else if is_typical reloc.r_type
    then typical_relocation env reloc found r
    else other_relocation env reloc found r

-- `get_string` ends the process where the name lies behind the table.
abbrev pub is_named : Env → Reloc → Bool
is_named env reloc =
    (reloc.r_sym == 0) || ltb (env.tables.symtab reloc.r_sym).st_name env.strtab_size

abbrev pub name_of : Env → Reloc → Bytes
name_of env reloc = env.tables.strtab (env.tables.symtab reloc.r_sym).st_name

unfoldable pub process_relocation_general : Env → Reloc → Relocator → Run (Unit {0})
unfolding relocate_found tls_symbol plain_symbol
process_relocation_general env reloc r =
    if not (is_named env reloc)
    then aborts
    else if reloc.r_type == 0
    then done r
    else and_then
        (if is_tls_reloc reloc.r_type
          then tls_symbol env reloc (name_of env reloc) r
          else plain_symbol env reloc (name_of env reloc) r)
        (relocate_found RelocMode.general aborts env reloc)

-- `process_relocation_impl` of the two quick modes.
unfoldable pub process_relocation_quick : RelocMode → Env → Reloc → Relocator → Run (Unit {0})
process_relocation_quick mode env reloc r =
    if not (is_named env reloc)
    then aborts
    else if reloc.r_type == 0
    then done r
    else if is_tls_reloc reloc.r_type
    then process_relocation_general env reloc r
    else and_then (plain_symbol env reloc (name_of env reloc) r)
        λ found r'. relocate_found mode (process_relocation_general env reloc r') env reloc found r'

unfoldable pub process_relocation : RelocMode → Env → Reloc → Relocator → Run (Unit {0})
unfolding process_relocation_quick
process_relocation RelocMode.general env reloc r = process_relocation_general env reloc r
process_relocation RelocMode.jump_table env reloc r =
    process_relocation_quick RelocMode.jump_table env reloc r
process_relocation RelocMode.typical env reloc r =
    process_relocation_quick RelocMode.typical env reloc r

unfoldable pub plain_relocate_impl : RelocMode → Env → List Reloc → Relocator → Run (Unit {0})
unfolding process_relocation
plain_relocate_impl mode env [] r = done r
plain_relocate_impl mode env (reloc ∷ rels) r =
    and_then (process_relocation mode env reloc r) λ _ r'. plain_relocate_impl mode env rels r'
