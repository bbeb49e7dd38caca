-- ===== src/Tests/Packed.antt =====
-- The theorems on packed relocations, on a table of two relative relocations in one group.
use fake_linker.Prelude.{
  ℕ, ◌+◌, ◌≡◌, refl, ◌≢◌, true, none, some, List, [], ◌∷◌, map, arith, ◌==◌, if◌then◌else◌, Bytes,
}
use fake_linker.Bits.Align.{word}
use fake_linker.Tests.Relocate.{env, no_memory}
use fake_linker.Relocate.{
  typical, Relocator, returns, plain_relocate_impl, process_relocation, process_relocation_quick,
  plain_symbol, relocate_found, typical_relocation, rel_target, apply_memtag_if_mte_globals,
}
use fake_linker.Relocate.Leb.{popped, sleb128_pop_front, sleb128_loop, sign_extend, encode, signed}
use fake_linker.Relocate.Leb.Value.{sleb128_pop_front-encode}
use fake_linker.Relocate.Groups.{
  PackedReloc, Outcome, out_of_fuel, refused, done, reloc_of, for_all_packed_relocs, addend_mode,
}
use fake_linker.Relocate.Groups.Described.{Group, Reads, numbers, AreGroups, all_relocs}
use fake_linker.Relocate.Groups.Ends.{for_all_packed_relocs-ne-out_of_fuel}
use fake_linker.Relocate.Whole.{
  Dynamic, to_reloc, as_outcome, packed_relocate, relocate, relocate_relr_table,
  packed_relocate-plain_relocate_impl, relocate-packed_applied,
}

-- -128 in two bytes.
sleb128_pop_front-encode_example :
    sleb128_pop_front (encode (0 ∷ []) 0x7f (b'x' ∷ [])) ≡ popped (signed (0 ∷ []) 0x7f) (b'x' ∷ [])
sleb128_pop_front-encode_example =
    sleb128_pop_front-encode (0 ∷ []) 0x7f (b'x' ∷ []) (omega arith, tt) (omega arith) (omega arith)

minus_128 : signed (0 ∷ []) 0x7f + 128 ≡ word
minus_128 = refl

abbrev packed : Bytes
packed = 2 ∷ 0x80 ∷ 2 ∷ 2 ∷ 11 ∷ 8 ∷ 0x83 ∷ 8 ∷ 5 ∷ 1 ∷ []

abbrev group : Group
group = record {
  flags = 11;
  delta = 8;
  info = 1027;
  addend_change = 0;
  relocs = reloc_of 0x108 1027 5 ∷ reloc_of 0x110 1027 6 ∷ [];
}

abbrev groups : List Group
groups = group ∷ []

abbrev start : PackedReloc
start = reloc_of 0x100 0 0

groups-AreGroups : AreGroups start groups
unfolding addend_mode
groups-AreGroups = (
  omega arith,
  (
    (λ e. refl, λ e. refl, λ e. cc, omega arith, omega arith, omega arith, omega arith),
    ((λ e. refl, λ e. refl, λ e. cc, omega arith, omega arith, omega arith, omega arith), tt),
  ),
  tt,
)

packed-Reads : Reads packed (2 ∷ 0x100 ∷ numbers start groups) []
unfolding sleb128_pop_front sleb128_loop sign_extend addend_mode
packed-Reads = (
  0x80 ∷ 2 ∷ 2 ∷ 11 ∷ 8 ∷ 0x83 ∷ 8 ∷ 5 ∷ 1 ∷ [],
  refl,
  (
    2 ∷ 11 ∷ 8 ∷ 0x83 ∷ 8 ∷ 5 ∷ 1 ∷ [],
    refl,
    (
      11 ∷ 8 ∷ 0x83 ∷ 8 ∷ 5 ∷ 1 ∷ [],
      refl,
      (
        8 ∷ 0x83 ∷ 8 ∷ 5 ∷ 1 ∷ [],
        refl,
        (0x83 ∷ 8 ∷ 5 ∷ 1 ∷ [], refl, (5 ∷ 1 ∷ [], refl, (1 ∷ [], refl, ([], refl, refl)))),
      ),
    ),
  ),
)

abbrev count : PackedReloc → ℕ → Outcome ℕ ℕ
count r n = done (n + 1)

for_all_packed_relocs-ne-out_of_fuel_example : for_all_packed_relocs count 11 packed 0 ≢ out_of_fuel
for_all_packed_relocs-ne-out_of_fuel_example =
    for_all_packed_relocs-ne-out_of_fuel count (λ r n. λ e. cc) packed 0 11 (omega arith)

abbrev relocator : Relocator
relocator = record {
  cache_sym_val = 0;
  cache = none;
  memory = no_memory;
  tlsdesc_args = [];
  deferred_tlsdesc_relocs = [];
}

packed_relocate-plain_relocate_impl_example :
    packed_relocate typical env 3 packed relocator
    ≡ as_outcome (plain_relocate_impl typical env (map to_reloc (all_relocs groups)) relocator)
packed_relocate-plain_relocate_impl_example =
    packed_relocate-plain_relocate_impl typical env groups 0x100 3 packed [] relocator (omega arith)
      (omega arith) groups-AreGroups packed-Reads

abbrev so : Dynamic
so = record {
  relr = none;
  android_relocs = some (b'A' ∷ b'P' ∷ b'S' ∷ b'2' ∷ packed);
  rela = none;
  plt_rela = none;
}

abbrev relocated : Relocator
relocated = record relocator {
  memory = λ a. if a == 0x7110 then 0x7006 else if a == 0x7108 then 0x7005 else 0;
}

unmoved : relocate_relr_table env so.relr relocator ≡ done relocator
unfolding relocate_relr_table
unmoved = refl

applied :
    plain_relocate_impl typical env (map to_reloc (all_relocs groups)) relocator
    ≡ returns tt relocated
unfolding plain_relocate_impl process_relocation process_relocation_quick plain_symbol
    relocate_found typical_relocation rel_target apply_memtag_if_mte_globals
applied = refl

relocate-packed_applied_example : relocate true env 3 so relocator ≡ refused relocated
relocate-packed_applied_example =
    relocate-packed_applied env 3 so groups 0x100 packed [] relocator relocator relocated unmoved
      refl (omega arith) (omega arith) groups-AreGroups packed-Reads applied
