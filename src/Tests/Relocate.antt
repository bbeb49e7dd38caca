-- ===== src/Tests/Relocate.antt =====
-- The theorems on relocation: a section with three words moved, and a library that is relocated
-- again for one symbol.
use fake_linker.Prelude.{
  ℕ, ◌+◌, ◌%◌, ◌≡◌, refl, sym, true, false, ◌||◌, none, some, List, [], ◌∷◌, arith, is_some, any,
  bytes,
}
use fake_linker.Bits.Align.{word}
use fake_linker.Tests.Symbol.{tables}
use fake_linker.Relocate.{Reloc, Lib, Env, Relocator, RelocMode, plain_relocate_impl}
use fake_linker.Relocate.Again.{Importer, last_import, is_skipped}
use fake_linker.Relocate.Modes.{plain_relocate_impl-general}
use fake_linker.Relocate.Packed.{relocate_relr, apply_all, relr_offsets, relocate_relr-offsets}
use fake_linker.Relocate.Special.{
  SymbolRelocations, Loaded, Special, relocate_special, chosen, total, once, relocate_special-total,
}

abbrev pub no_memory : ℕ → ℕ
no_memory a = 0

abbrev entries : List ℕ
entries = 0x1000 ∷ 0b1011 ∷ []

relr_offsets-entries : relr_offsets entries 0 ≡ 0x1000 ∷ 0x1008 ∷ 0x1018 ∷ []
relr_offsets-entries = refl

relocate_relr-offsets_example :
    relocate_relr (λ a. a) false 0x7000 entries no_memory
    ≡ some (apply_all (λ a. a) false 0x7000 (relr_offsets entries 0) no_memory)
relocate_relr-offsets_example =
    relocate_relr-offsets (λ a. a) false 0x7000 entries no_memory (omega arith, (omega arith, tt))

abbrev reloc : ℕ → ℕ → Reloc
reloc offset sym = record { r_offset = offset; r_type = 1026; r_sym = sym; r_addend = 0 }

abbrev loaded : Loaded
loaded = record {
  load_bias = 0x7000;
  target = λ a. a;
  tables = tables;
  strtab_size = 100;
  unprotect = λ n. true;
  protect = true;
}

abbrev pub relocs : SymbolRelocations
relocs = (bytes "b", 16) ∷ []

abbrev pub rela : List Reloc
rela = reloc 0x100 1 ∷ reloc 0x108 2 ∷ []

relocate_special-total_example :
    (s' : Special) × (relocate_special loaded relocs rela [] no_memory ≡ some (true, s'))
    × ((a : ℕ)
        → s'.memory a
          ≡ (no_memory a + (total loaded relocs rela a + total loaded relocs [] a)) % word)
    × (s'.unprotects
        ≡ once (
            any (λ reloc. is_some (chosen loaded relocs reloc)) rela
            || any (λ reloc. is_some (chosen loaded relocs reloc)) []))
relocate_special-total_example =
    relocate_special-total loaded (λ n. refl) relocs rela [] no_memory (refl, (refl, tt)) tt
      (λ a. omega arith) refl

abbrev pub lib : Lib
lib = record { load_bias = 0x7000; should_tag = false; tls = none; is_linker = false }

abbrev pub env : Env
env = record {
  api = 30;
  fuel = 5;
  si = lib;
  tables = tables;
  strtab_size = 100;
  versions = [];
  lookup_list = [];
  lib = λ n. lib;
  sym_value = λ l s. 0;
  sym_info = λ l s. 16;
  get_tagged_address = λ a. a;
  call_ifunc_resolver = λ a. a;
  get_tls_module = λ m. record { static_offset = none; first_generation = 0 };
  tls_tp_base = 0;
  tlsdesc_resolver_unresolved_weak = 0;
  tlsdesc_resolver_static = 0;
}

abbrev start : Relocator
start = record {
  cache_sym_val = 0;
  cache = none;
  memory = no_memory;
  tlsdesc_args = [];
  deferred_tlsdesc_relocs = [];
}

plain_relocate_impl-general_example :
    plain_relocate_impl RelocMode.jump_table env rela start
    ≡ plain_relocate_impl RelocMode.general env rela start
plain_relocate_impl-general_example =
    plain_relocate_impl-general RelocMode.jump_table env rela start

abbrev pub importer : Importer
importer = record {
  load_bias = 0x7000;
  tables = record tables { symtab = λ i. record (tables.symtab i) { st_info = 16 } };
  get_string = λ i. some (tables.strtab i);
}

imported : last_import RelocMode.jump_table importer relocs 0x7108 rela ≡ some 16
unfolding is_skipped
imported = refl
