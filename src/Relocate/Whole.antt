-- ===== src/Relocate/Whole.antt =====
-- The relocation of a whole library: of linker_relocate.cpp (library/src/main/cpp/linker/)
-- `packed_relocate` and `soinfo::relocate`, on 64-bit machines.
use fake_linker.Prelude.{
  ℕ, ◌/◌, ◌%◌, ◌^◌, ◌<◌, ◌≡◌, refl, sym, ap, ◌∙◌, Bool, true, not, ◌&&◌, Option, none, some, List,
  [], ◌∷◌, map, ◌==◌, if◌then◌else◌, length, Bytes, bytes,
}
use fake_linker.Bits.Align.{word}
use fake_linker.Relocate.{
  RelocMode, jump_table, typical, Reloc, Env, Relocator, Run, aborts, fails, returns, and_then,
  process_relocation, plain_relocate_impl,
}
use fake_linker.Relocate.Packed.{relocate_relr}
use fake_linker.Relocate.Groups.{
  PackedReloc, Outcome, fatal, no_meaning, out_of_fuel, refused, done, ◌>>=◌, reloc_of,
  for_all_packed_relocs,
}
use fake_linker.Relocate.Groups.Described.{Group, Reads, numbers, AreGroups, all_relocs, visit}
use mathlib.Core.Path.{fun_ext}
use fake_linker.Relocate.Groups.Unpack.{for_all_packed_relocs-visit}

-- ELF64_R_SYM and ELF64_R_TYPE
abbrev pub to_reloc : PackedReloc → Reloc
to_reloc p = record {
  r_offset = p.r_offset;
  r_type = p.r_info % 2 ^ 32;
  r_sym = p.r_info / 2 ^ 32;
  r_addend = p.r_addend;
}

abbrev pub as_outcome : Run (Unit {0}) → Outcome Relocator Relocator
as_outcome aborts = fatal
as_outcome (fails r) = refused r
as_outcome (returns u r) = done r

abbrev pub relocate_one : RelocMode → Env → PackedReloc → Relocator → Outcome Relocator Relocator
relocate_one mode env p r = as_outcome (process_relocation mode env (to_reloc p) r)

-- `packed_relocate`, where a 64-bit library takes the quick loop.
unfoldable pub packed_relocate :
    RelocMode → Env → ℕ → Bytes → Relocator → Outcome Relocator Relocator
packed_relocate mode env fuel bytes r = for_all_packed_relocs (relocate_one mode env) fuel bytes r

-- The tables of a soinfo, each of which may be missing.
pub record Dynamic : Type 0 where
  pub relr : Option (List ℕ)
  pub android_relocs : Option Bytes
  pub rela : Option (List Reloc)
  pub plt_rela : Option (List Reloc)

unfoldable pub relocate_relr_table : Env → Option (List ℕ) → Relocator → Outcome Relocator Relocator
relocate_relr_table env none r = done r
relocate_relr_table env (some entries) r =
    elim (relocate_relr env.get_tagged_address env.si.should_tag env.si.load_bias entries
      r.memory) [ none ↦ out_of_fuel | some memory ↦ done (record r { memory = memory }) ]

-- What stands behind "APS2".
unfoldable pub after_magic : Bytes → Option Bytes
after_magic (a ∷ b ∷ c ∷ d ∷ packed) =
    if (a == b'A') && (b == b'P') && (c == b'S') && (d == b'2') then some packed else none
after_magic bytes = none

-- The code returns false where `packed_relocate` answers true, and goes on where it does not.
abbrev pub inverted : Outcome Relocator Relocator → Outcome Relocator Relocator
inverted fatal = fatal
inverted no_meaning = no_meaning
inverted out_of_fuel = out_of_fuel
inverted (refused r) = done r
inverted (done r) = refused r

unfoldable pub relocate_android : Env → ℕ → Option Bytes → Relocator → Outcome Relocator Relocator
unfolding after_magic packed_relocate
relocate_android env fuel none r = done r
relocate_android env fuel (some bytes) r = elim (after_magic bytes) [
  | none ↦ refused r
  | some packed ↦ inverted (packed_relocate typical env fuel packed r)
]

unfoldable pub relocate_table :
    RelocMode → Env → Option (List Reloc) → Relocator → Outcome Relocator Relocator
relocate_table mode env none r = done r
relocate_table mode env (some rels) r = as_outcome (plain_relocate_impl mode env rels r)

-- `soinfo::relocate`; `has_versions` is the answer of `version_tracker.init`.
unfoldable pub relocate : Bool → Env → ℕ → Dynamic → Relocator → Outcome Relocator Relocator
relocate has_versions env fuel so r = if not has_versions then refused r else do
  r1 ← relocate_relr_table env so.relr r
  r2 ← relocate_android env fuel so.android_relocs r1
  r3 ← relocate_table typical env so.rela r2
  relocate_table jump_table env so.plt_rela r3

as_outcome->>= :
    (m : Run (Unit {0})) (f : Unit {0} → Relocator → Run (Unit {0}))
    → as_outcome (and_then m f) ≡ (as_outcome m >>= λ r. as_outcome (f tt r))
as_outcome->>= aborts f = refl
as_outcome->>= (fails r) f = refl
as_outcome->>= (returns u r) f = refl

visit-plain_relocate_impl :
    (mode : RelocMode) (env : Env) (rs : List PackedReloc) (r : Relocator)
    → visit (relocate_one mode env) rs r
      ≡ as_outcome (plain_relocate_impl mode env (map to_reloc rs) r)
unfolding plain_relocate_impl
visit-plain_relocate_impl mode env [] r = refl
visit-plain_relocate_impl mode env (p ∷ rs) r =
    ap (λ f. relocate_one mode env p r >>= f) (fun_ext (visit-plain_relocate_impl mode env rs))
    ∙ sym (
        as_outcome->>= (process_relocation mode env (to_reloc p) r)
          (λ _ r'. plain_relocate_impl mode env (map to_reloc rs) r'))

-- A packed table does what a plain table of the same relocations does: the same words in memory,
-- and an error or the end of the process at the same one. Its bytes encode groups of relocations
-- that are not empty and in which what a group gives holds for each relocation. The fuel is above
-- the number of groups.
pub packed_relocate-plain_relocate_impl :
    (mode : RelocMode) (env : Env) (gs : List Group) (first fuel : ℕ) (bytes rest : Bytes)
    (r : Relocator)
    → length gs < fuel
    → length (all_relocs gs) < word
    → AreGroups (reloc_of first 0 0) gs
    → Reads bytes (length (all_relocs gs) ∷ first ∷ numbers (reloc_of first 0 0) gs) rest
    → packed_relocate mode env fuel bytes r
      ≡ as_outcome (plain_relocate_impl mode env (map to_reloc (all_relocs gs)) r)
unfolding packed_relocate
packed_relocate-plain_relocate_impl mode env gs first fuel bytes rest r hf hw good reads =
    for_all_packed_relocs-visit (relocate_one mode env) gs first fuel bytes rest r hf hw good reads
    ∙ visit-plain_relocate_impl mode env (all_relocs gs) r

-- `soinfo::relocate` answers false where all relocations of a packed table were applied, the
-- plain tables untouched: behind the relative relocations, if each relocation that the packed
-- bytes encode can be applied, the answer is false, with the memory that they leave.
pub relocate-packed_applied :
    (env : Env) (fuel : ℕ) (so : Dynamic) (gs : List Group) (first : ℕ) (packed rest : Bytes)
    (r r1 r2 : Relocator)
    → relocate_relr_table env so.relr r ≡ done r1
    → so.android_relocs ≡ some (b'A' ∷ b'P' ∷ b'S' ∷ b'2' ∷ packed)
    → length gs < fuel
    → length (all_relocs gs) < word
    → AreGroups (reloc_of first 0 0) gs
    → Reads packed (length (all_relocs gs) ∷ first ∷ numbers (reloc_of first 0 0) gs) rest
    → plain_relocate_impl typical env (map to_reloc (all_relocs gs)) r1 ≡ returns tt r2
    → relocate true env fuel so r ≡ refused r2
unfolding relocate relocate_android after_magic
relocate-packed_applied env fuel so gs first packed rest r r1 r2 moved table hf hw good reads all =
    let applied =
      packed_relocate-plain_relocate_impl typical env gs first fuel packed rest r1 hf hw good reads
      ∙ ap as_outcome all in
    rw (moved, table, applied)
