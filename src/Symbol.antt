-- ===== src/Symbol.antt =====
-- Symbol lookup: the hashes of linker_util.cpp, and of linker_soinfo.cpp the version checks, the
-- two hash table lookups and `soinfo_do_lookup` (library/src/main/cpp/linker/). A table in memory
-- is a function of its index.
pub mod Hash
pub mod LookupList
pub mod Lookup
pub mod Chain
pub mod Version
pub mod Needed
pub mod Export
pub mod Reader
use fake_linker.Prelude.{
  ℕ, zero, suc, ◌+◌, ◌-◌, ◌*◌, ◌/◌, ◌%◌, ◌^◌, ◌≤◌, ◌<◌, bit_and, bit_or, bit_xor, ◌≡◌, refl, sym,
  ap, ◌∙◌, ◌≢◌, ◌↔◌, ◌⊎◌, inl, inr, Bool, true, false, not, ◌&&◌, ◌||◌, Option, none, some, List,
  [], ◌∷◌, ◌++◌, map, arith, ltb, leb, ◌==◌, if◌then◌else◌, ltb→lt, leb→le, ==→eq, ==_self, tests,
  Bool-cases, Option-cases, all_below, all_below_at, if-cases, length, is_empty, is_some,
  length-append, All, select, any, Bytes, bytes, text_eq,
}

abbrev pub word32 : ℕ
word32 = 2 ^ 32

-- `h += (h << 5) + *name_bytes++`
gnu_hash_from : ℕ → Bytes → ℕ
gnu_hash_from h [] = h
gnu_hash_from h (c ∷ name) = gnu_hash_from ((h + (h * 32 % word32 + c) % word32) % word32) name

unfoldable pub calculate_gnu_hash : Bytes → ℕ
unfolding gnu_hash_from
calculate_gnu_hash name = gnu_hash_from 5381 name

elf_hash_from : ℕ → Bytes → ℕ
elf_hash_from h [] = h
elf_hash_from h (c ∷ name) =
    let h1 = (h * 16 % word32 + c) % word32 in
    let g = bit_and h1 0xf0000000 in elf_hash_from (bit_xor (bit_xor h1 g) (g / 2 ^ 24)) name

unfoldable pub calculate_elf_hash : Bytes → ℕ
unfolding elf_hash_from
calculate_elf_hash name = elf_hash_from 0 name

pub record ElfSym : Type 0 where
  pub st_name : ℕ
  pub st_info : ℕ
  pub st_other : ℕ
  pub st_shndx : ℕ

-- `version_info`, and what `for_each_verdef` reads of one verdef and its first verdaux.
pub record VersionInfo : Type 0 where
  pub elf_hash : ℕ
  pub name : Bytes

pub record Verdef : Type 0 where
  pub vd_version : ℕ
  pub vd_flags : ℕ
  pub vd_ndx : ℕ
  pub vd_cnt : ℕ
  pub vd_hash : ℕ
  pub vd_next : ℕ
  pub vda_name : ℕ

-- The members of `soinfo` that a lookup reads: the texts at the indexes of the string table, the
-- size of it where `get_string` checks it, `symtab`, the GNU hash table, the SysV hash table, the
-- version tables. `verdef_at` reads the verdef at an offset.
pub record Tables : Type 0 where
  pub strtab : ℕ → Bytes
  pub strtab_limit : Option ℕ
  pub symtab : ℕ → ElfSym
  pub gnu_nbucket : ℕ
  pub gnu_maskwords : ℕ
  pub gnu_shift2 : ℕ
  pub gnu_bloom_filter : ℕ → ℕ
  pub gnu_bucket : ℕ → ℕ
  pub gnu_chain : ℕ → ℕ
  pub nbucket : ℕ
  pub bucket : ℕ → ℕ
  pub chain : ℕ → ℕ
  pub is_gnu_hash : Bool
  pub versym : Option (ℕ → ℕ)
  pub has_verdef : Bool
  pub verdef_cnt : ℕ
  pub verdef_at : ℕ → Verdef

abbrev pub versym_hidden_bit : ℕ
versym_hidden_bit = 0x8000

abbrev pub versym_not_needed : ℕ
versym_not_needed = 0

abbrev pub versym_global : ℕ
versym_global = 1

-- `soinfo::get_string`; `none` is the end of the process. `strtab_limit` is `none` before API 22 and
-- for a soinfo of version 0, where nothing is checked.
unfoldable pub get_string : Tables → ℕ → Option Bytes
get_string t index = elim t.strtab_limit [
  | none ↦ some (t.strtab index)
  | some size ↦ if leb size index then none else some (t.strtab index)
]

-- `strcmp` with the string at an index.
abbrev pub same_text : Option Bytes → Bytes → Option Bool
same_text none name = none
same_text (some text) name = some (text_eq text name)

unfoldable pub has_text : Tables → ℕ → Bytes → Option Bool
unfolding get_string
has_text t index name = same_text (get_string t index) name

unfoldable pub check_symbol_version : Option (ℕ → ℕ) → ℕ → ℕ → Bool
check_symbol_version none sym_idx verneed = true
check_symbol_version (some ver_table) sym_idx verneed =
    if verneed == versym_not_needed
    then bit_and (ver_table sym_idx) versym_hidden_bit == 0
    else verneed == bit_and (ver_table sym_idx) (word32 - 1 - versym_hidden_bit)

-- `ELF_ST_BIND` is the upper half of the byte; 1 is STB_GLOBAL, 2 STB_WEAK and 0 SHN_UNDEF.
unfoldable pub is_symbol_global_and_defined : ElfSym → Bool
is_symbol_global_and_defined s =
    if s.st_info / 16 == 1 || s.st_info / 16 == 2 then not (s.st_shndx == 0) else false

-- The loop of `for_each_verdef` with the action of `find_verdef_version_index`; a verdef of
-- another version than 1, or without a name, ends the process, as CHECK_OUTPUT fails.
unfoldable pub verdef_loop : Tables → VersionInfo → ℕ → ℕ → Option ℕ
unfolding has_text
verdef_loop t vi zero offset = some versym_global
verdef_loop t vi (suc left) offset =
    let d = t.verdef_at offset in
    let rest = verdef_loop t vi left (offset + d.vd_next) in
    let named = if d.vd_hash == vi.elf_hash then has_text t d.vda_name vi.name else some false in
    if not (d.vd_version == 1)
    then none
    else if not (bit_and d.vd_flags 1 == 0)
    then rest
    else if d.vd_cnt == 0
    then none
    else elim named [ none ↦ none | some same ↦ if same then some d.vd_ndx else rest ]

-- `none` is the end of the process.
unfoldable pub find_verdef_version_index : Tables → Option VersionInfo → Option ℕ
unfolding verdef_loop
find_verdef_version_index t none = some versym_not_needed
find_verdef_version_index t (some vi) =
    if t.has_verdef then verdef_loop t vi t.verdef_cnt 0 else some versym_global

-- `(1 & (bloom_word >> h1) & (bloom_word >> h2)) != 0` on 64-bit words
unfoldable pub may_hold : Tables → ℕ → Bool
may_hold t hash =
    let bloom_word = t.gnu_bloom_filter (bit_and (hash / 64) t.gnu_maskwords) in
    not (
      bit_and (bit_and 1 (bloom_word / 2 ^ (hash % 64)))
        (bloom_word / 2 ^ (hash / 2 ^ t.gnu_shift2 % 64))
      == 0)

-- The tests of a round compare the name only behind the others.
unfoldable pub gnu_matches : Tables → ℕ → ℕ → Bytes → ℕ → Option Bool
unfolding check_symbol_version has_text
gnu_matches t hash verneed name n =
    if (bit_xor (t.gnu_chain n) hash / 2 == 0) && check_symbol_version t.versym n verneed
    then has_text t (t.symtab n).st_name name
    else some false

unfoldable pub elf_matches : Tables → ℕ → Bytes → ℕ → Option Bool
unfolding check_symbol_version is_symbol_global_and_defined has_text
elf_matches t verneed name n =
    if check_symbol_version t.versym n verneed
    then elim (has_text t (t.symtab n).st_name name) [
      | none ↦ none
      | some same ↦ some (same && is_symbol_global_and_defined (t.symtab n))
    ]
    else some false

-- The answer of a lookup: the inner `none` is a null pointer; the outer one says that there is no
-- answer, as the process has ended or the fuel ran out.
abbrev pub Answer : Type 0
Answer = Option (Option ℕ)

-- A round of a loop, by what its test says of the symbol `n`.
abbrev pub round : Option Bool → ℕ → Answer → Answer
round none n rest = none
round (some true) n rest = some (some n)
round (some false) n rest = rest

-- The loop along a chain of the GNU table, up to an odd entry, on fuel.
unfoldable pub chain_loop : (ℕ → Option Bool) → (ℕ → ℕ) → ℕ → ℕ → Answer
chain_loop matches chain zero n = none
chain_loop matches chain (suc fuel) n =
    let rest = chain_loop matches chain fuel (suc n) in
    round (matches n) n (if bit_and (chain n) 1 == 0 then rest else some none)

-- The loop along a chain of the SysV table, up to entry 0.
unfoldable pub link_loop : (ℕ → Option Bool) → (ℕ → ℕ) → ℕ → ℕ → Answer
link_loop matches chain zero n = none
link_loop matches chain (suc fuel) n =
    let rest = link_loop matches chain fuel (chain n) in
    if n == 0 then some none else round (matches n) n rest

-- What follows the search for the version.
abbrev pub with_version : Option ℕ → (ℕ → Answer) → Answer
with_version none search = none
with_version (some verneed) search = search verneed

unfoldable pub elf_lookup : Tables → ℕ → Bytes → Option VersionInfo → Answer
unfolding calculate_elf_hash find_verdef_version_index elf_matches link_loop
elf_lookup t fuel name vi = with_version (find_verdef_version_index t vi) λ verneed.
    link_loop (elf_matches t verneed name) t.chain fuel
      (t.bucket (calculate_elf_hash name % t.nbucket))

-- The body of `gnu_lookup` from Android M on.
unfoldable pub gnu_search : Tables → ℕ → Bytes → Option VersionInfo → Answer
unfolding calculate_gnu_hash find_verdef_version_index gnu_matches chain_loop may_hold
gnu_search t fuel name vi =
    let hash = calculate_gnu_hash name in
    let n = t.gnu_bucket (hash % t.gnu_nbucket) in
    if not (may_hold t hash)
    then some none
    else if n == 0
    then some none
    else with_version (find_verdef_version_index t vi)
        λ verneed. chain_loop (gnu_matches t hash verneed name) t.gnu_chain fuel n

unfoldable pub gnu_lookup : ℕ → Tables → ℕ → Bytes → Option VersionInfo → Answer
unfolding gnu_search elf_lookup
gnu_lookup api t fuel name vi =
    if leb 23 api then gnu_search t fuel name vi else elf_lookup t fuel name vi

unfoldable pub find_symbol_by_name : ℕ → Tables → ℕ → Bytes → Option VersionInfo → Answer
unfolding gnu_lookup elf_lookup
find_symbol_by_name api t fuel name vi =
    if t.is_gnu_hash then gnu_lookup api t fuel name vi else elf_lookup t fuel name vi
