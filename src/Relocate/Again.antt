-- ===== src/Relocate/Again.antt =====
-- The manual relocation of a library's imports: of linker_soinfo.cpp
-- (library/src/main/cpp/linker/) `process_relocation`, `plain_relocate_impl` and the two tables of
-- `again_process_relocation`, on arm64.
use fake_linker.Prelude.{
  ℕ, ◌+◌, ◌%◌, ◌≡◌, refl, ap, ◌∙◌, inl, inr, Bool, true, false, not, ◌||◌, Option, none, some, List,
  [], ◌∷◌, arith, ◌==◌, if◌then◌else◌, Bool-cases, Option-cases, is_some, All, Bytes,
}
use fake_linker.Bits.Align.{word}
use fake_linker.Symbol.{Tables}
use fake_linker.Relocate.{RelocMode, jump_table, typical, general, Reloc, is_tls_reloc, st_bind}
use fake_linker.Relocate.Special.{SymbolRelocations, find}

-- The members of the soinfo that are read. `get_string` is `none` where the process ends.
pub record Importer : Type 0 where
  pub load_bias : ℕ
  pub tables : Tables
  pub get_string : ℕ → Option Bytes

abbrev pub Memory : Type 0
Memory = ℕ → ℕ

-- The types that a mode writes: JUMP_SLOT, and ABS64 and GLOB_DAT.
abbrev pub is_written : RelocMode → ℕ → Bool
is_written jump_table r_type = r_type == 1026
is_written typical r_type = (r_type == 257) || (r_type == 1025)
is_written general r_type = false

-- A relocation that is passed over whatever its name.
unfoldable pub is_skipped : Importer → Reloc → Bool
is_skipped so reloc =
    (reloc.r_type == 0)
    || is_tls_reloc reloc.r_type
    || (reloc.r_sym == 0)
    || (st_bind (so.tables.symtab reloc.r_sym).st_info == 0)

abbrev pub target : Importer → Reloc → ℕ
target so reloc = (reloc.r_offset + so.load_bias) % word

abbrev pub poke : ℕ → ℕ → Memory → Memory
poke a v memory b = if b == a then v else memory b

-- The relocation of a name: the answer, and the memory.
unfoldable pub relocate_name :
    RelocMode → Importer → SymbolRelocations → Reloc → Bytes → Memory → Bool × Memory
relocate_name mode so rels reloc sym_name memory = elim (find sym_name rels) [
  | none ↦ (true, memory)
  | some sym_addr ↦
      if is_written mode reloc.r_type
      then (true, poke (target so reloc) ((sym_addr + reloc.r_addend) % word) memory)
      else (false, memory)
]

-- `none` is the end of the process.
unfoldable pub process_relocation :
    RelocMode → Importer → SymbolRelocations → Reloc → Memory → Option (Bool × Memory)
process_relocation mode so rels reloc memory =
    if reloc.r_sym == 0
    then some (false, memory)
    else elim (so.get_string (so.tables.symtab reloc.r_sym).st_name) [
      | none ↦ none
      | some sym_name ↦ some (
          if is_skipped so reloc
          then (false, memory)
          else relocate_name mode so rels reloc sym_name memory)
    ]

-- The answers of the rounds are not used.
unfoldable pub plain_relocate_impl :
    RelocMode → Importer → SymbolRelocations → List Reloc → Memory → Option Memory
plain_relocate_impl mode so rels [] memory = some memory
plain_relocate_impl mode so rels (reloc ∷ relocs) memory =
    elim (process_relocation mode so rels reloc memory) [
      | none ↦ none
      | some (ok, after) ↦ plain_relocate_impl mode so rels relocs after
    ]

-- The two tables between the change of the pages' protection and its recovery.
unfoldable pub again_relocate :
    Importer → SymbolRelocations → List Reloc → List Reloc → Memory → Option Memory
again_relocate so rels rela plt_rela memory =
    elim (plain_relocate_impl typical so rels rela memory) [
      | none ↦ none
      | some after ↦ plain_relocate_impl jump_table so rels plt_rela after
    ]

abbrev pub value_of : Reloc → Option ℕ → Option ℕ
value_of reloc none = none
value_of reloc (some sym_addr) = some ((sym_addr + reloc.r_addend) % word)

abbrev pub named : SymbolRelocations → Option Bytes → Option ℕ
named rels none = none
named rels (some name) = find name rels

-- The value that a relocation imports, if the mode writes its type and its symbol is chosen.
abbrev pub import_of : RelocMode → Importer → SymbolRelocations → Reloc → Option ℕ
import_of mode so rels reloc =
    if is_skipped so reloc || not (is_written mode reloc.r_type)
    then none
    else value_of reloc (named rels (so.get_string (so.tables.symtab reloc.r_sym).st_name))

-- The import of the last relocation at `a`.
abbrev pub last_import : RelocMode → Importer → SymbolRelocations → ℕ → List Reloc → Option ℕ
last_import mode so rels a [] = none
last_import mode so rels a (reloc ∷ relocs) =
    let later = last_import mode so rels a relocs in
    if is_some later
    then later
    else if a == target so reloc
    then import_of mode so rels reloc
    else none

abbrev pub or_else : Option ℕ → ℕ → ℕ
or_else none v = v
or_else (some w) v = w

abbrev pub is_named : Importer → Reloc → Bool
is_named so reloc =
    (reloc.r_sym == 0) || is_some (so.get_string (so.tables.symtab reloc.r_sym).st_name)

process_relocation-import :
    (mode : RelocMode) (so : Importer) (rels : SymbolRelocations) (reloc : Reloc) (memory : Memory)
    → is_named so reloc ≡ true
    → (ok : Bool) × (after : Memory) × (process_relocation mode so rels reloc memory
        ≡ some (ok, after))
      × ((a : ℕ)
          → after a
            ≡ or_else
                (if a == target so reloc then import_of mode so rels reloc else none)
                (memory a))
unfolding process_relocation relocate_name is_skipped
process_relocation-import mode so rels reloc memory known =
    elim (Option-cases (so.get_string (so.tables.symtab reloc.r_sym).st_name)) [
      | inl missing ↦
          (false, memory, ground (arith, known, missing), λ a. ground (arith, known, missing))
      | inr (name, at) ↦ elim (Bool-cases (is_skipped so reloc)) [
        | inl skipped ↦ (false, memory, ground (arith, at, skipped), λ a. ground (arith, skipped))
        | inr taken ↦ elim (Option-cases (find name rels)) [
          | inl unchosen ↦ (
            true,
            memory,
            ground (arith, at, taken, unchosen),
            λ a. ground (arith, at, taken, unchosen),
          )
          | inr (v, chosen) ↦ elim (Bool-cases (is_written mode reloc.r_type)) [
            | inl written ↦ (
              true,
              poke (target so reloc) ((v + reloc.r_addend) % word) memory,
              ground (arith, at, taken, chosen, written),
              λ a. ground (arith, at, taken, chosen, written),
            )
            | inr other ↦ (
              false,
              memory,
              ground (arith, at, taken, chosen, other),
              λ a. ground (arith, other),
            )
          ]
        ]
      ]
    ]

later_first :
    (later here : Option ℕ) (v : ℕ)
    → or_else later (or_else here v) ≡ or_else (if is_some later then later else here) v
later_first none here v = refl
later_first (some w) here v = refl

plain_relocate_impl-import :
    (mode : RelocMode) (so : Importer) (rels : SymbolRelocations) (relocs : List Reloc)
    (memory : Memory)
    → All (λ reloc. is_named so reloc ≡ true) relocs
    → (after : Memory) × (plain_relocate_impl mode so rels relocs memory ≡ some after)
      × ((a : ℕ) → after a ≡ or_else (last_import mode so rels a relocs) (memory a))
unfolding plain_relocate_impl
plain_relocate_impl-import mode so rels [] memory known = (memory, refl, λ a. refl)
plain_relocate_impl-import mode so rels (reloc ∷ relocs) memory known =
    let (ok, first, done, words) = process_relocation-import mode so rels reloc memory known.0 in
    let (after, rest, words') = plain_relocate_impl-import mode so rels relocs first known.1 in
    (
      after,
      ground (arith, done, rest),
      λ a.
          words' a
          ∙ ap (or_else (last_import mode so rels a relocs)) (words a)
          ∙ later_first (last_import mode so rels a relocs)
              (if a == target so reloc then import_of mode so rels reloc else none) (memory a),
    )

-- The manual relocation ends, and then every word is the value imported by the last relocation of
-- the second table at its address, or else of the first table, and unchanged where there is none: a
-- relocation imports if its symbol is chosen and not local, and its type is one that its table
-- writes. Every name lies in the string table.
pub again_relocate-import :
    (so : Importer) (rels : SymbolRelocations) (rela plt_rela : List Reloc) (memory : Memory)
    → All (λ reloc. is_named so reloc ≡ true) rela
    → All (λ reloc. is_named so reloc ≡ true) plt_rela
    → (after : Memory) × (again_relocate so rels rela plt_rela memory ≡ some after)
      × ((a : ℕ)
          → after a
            ≡ or_else
                (last_import jump_table so rels a plt_rela)
                (or_else (last_import typical so rels a rela) (memory a)))
unfolding again_relocate
again_relocate-import so rels rela plt_rela memory known known' =
    let (first, done, words) = plain_relocate_impl-import typical so rels rela memory known in
    let (after, rest, words') =
      plain_relocate_impl-import jump_table so rels plt_rela first known' in
    (
      after,
      ground (arith, done, rest),
      λ a. words' a ∙ ap (or_else (last_import jump_table so rels a plt_rela)) (words a),
    )
