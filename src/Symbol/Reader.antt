-- ===== src/Symbol/Reader.antt =====
-- The ELF reader's own lookups `GnuHashLookupSymbol` and `ElfHashLookupSymbol`
-- (linker/elf_reader.cpp), which know no versions; the first is compared with `gnu_lookup` of
-- linker_soinfo.cpp.
use fake_linker.Prelude.{
  ℕ, sym, ap, ◌∙◌, ◌⊎◌, inl, inr, true, false, leb, bit_and, Bool-cases, if◌then◌else◌, zero, suc,
  ◌/◌, ◌%◌, bit_xor, ◌≡◌, refl, Bool, not, ◌&&◌, Option, none, some, [], ◌∷◌, arith, ◌==◌, is_empty,
  Bytes, text_eq,
}
use fake_linker.Symbol.{
  Tables, calculate_gnu_hash, calculate_elf_hash, may_hold, chain_loop, link_loop, gnu_matches,
  gnu_search, check_symbol_version, find_verdef_version_index, Answer, round, has_text, same_text,
  get_string,
}

-- `ElfReader::get_string` with a string table of a size: the text behind it is empty.
unfoldable pub reader_string : ℕ → Tables → ℕ → Bytes
reader_string strtab_size t index = if leb strtab_size index then [] else t.strtab index

-- A symbol of the chain has the hash and the name.
unfoldable pub reader_matches : ℕ → Tables → ℕ → Bytes → ℕ → Bool
unfolding reader_string
reader_matches strtab_size t hash name n =
    (bit_xor (t.gnu_chain n) hash / 2 == 0)
    && text_eq name (reader_string strtab_size t (t.symtab n).st_name)

-- A null name is `none`.
unfoldable pub gnu_hash_lookup_symbol : ℕ → Tables → ℕ → Option Bytes → Answer
unfolding reader_matches chain_loop may_hold calculate_gnu_hash
gnu_hash_lookup_symbol strtab_size t fuel none = some none
gnu_hash_lookup_symbol strtab_size t fuel (some name) =
    let hash = calculate_gnu_hash name in
    let n = t.gnu_bucket (hash % t.gnu_nbucket) in
    if is_empty name
    then some none
    else if not (may_hold t hash)
    then some none
    else if n == 0
    then some none
    else chain_loop (λ k. some (reader_matches strtab_size t hash name k)) t.gnu_chain fuel n

unfoldable pub elf_hash_lookup_symbol : ℕ → Tables → ℕ → Option Bytes → Answer
unfolding link_loop calculate_elf_hash reader_string
elf_hash_lookup_symbol strtab_size t fuel none = some none
elf_hash_lookup_symbol strtab_size t fuel (some name) =
    if is_empty name
    then some none
    else link_loop (λ n. some (text_eq name (reader_string strtab_size t (t.symtab n).st_name)))
        t.chain fuel (t.bucket (calculate_elf_hash name % t.nbucket))

text_eq_comm : (a b : Bytes) → text_eq a b ≡ text_eq b a
text_eq_comm [] [] = refl
text_eq_comm [] (y ∷ ys) = refl
text_eq_comm (x ∷ xs) [] = refl
text_eq_comm (x ∷ xs) (y ∷ ys) = ground (arith, text_eq_comm xs ys)

round-same :
    (f g : Option Bool) (n : ℕ) (o p : Answer) (r : Option ℕ)
    → (f ≡ none) ⊎ (f ≡ g)
    → ((s : Option ℕ) → o ≡ some s → p ≡ some s)
    → round f n o ≡ some r
    → round g n p ≡ some r
round-same none g n o p r (inl a) later e = cc
round-same (some b) g n o p r (inl a) later e = cc
round-same none g n o p r (inr a) later e = cc
round-same (some true) g n o p r (inr a) later e = ap (λ x. round x n p) (sym a) ∙ e
round-same (some false) g n o p r (inr a) later e = ap (λ x. round x n p) (sym a) ∙ later r e

chain_loop-same :
    (f g : ℕ → Option Bool) (chain : ℕ → ℕ) (fuel n : ℕ) (r : Option ℕ)
    → ((k : ℕ) → (f k ≡ none) ⊎ (f k ≡ g k))
    → chain_loop f chain fuel n ≡ some r
    → chain_loop g chain fuel n ≡ some r
unfolding chain_loop
chain_loop-same f g chain zero n r same e = e
chain_loop-same f g chain (suc fuel) n r same e =
    round-same (f n) (g n) n _ _ r (same n)
      (elim (Bool-cases (bit_and (chain n) 1 == 0)) [
        | inl even ↦ rw even (λ s. chain_loop-same f g chain fuel (suc n) s same)
        | inr odd ↦ rw odd (λ s h. h)
      ])
      e

get_string-checked :
    (size index : ℕ) (t : Tables)
    → t.strtab_limit ≡ some size
    → get_string t index ≡ (if leb size index then none else some (t.strtab index))
unfolding get_string
get_string-checked size index t limit =
    ap
      (λ (o : Option ℕ). elim o as (λ _. Option Bytes) [
        | none ↦ some (t.strtab index)
        | some size ↦ if leb size index then none else some (t.strtab index)
      ])
      limit

text-same :
    (size index : ℕ) (t : Tables) (name : Bytes)
    → t.strtab_limit ≡ some size
    → (has_text t index name ≡ none)
      ⊎ (has_text t index name ≡ some (text_eq name (reader_string size t index)))
unfolding reader_string has_text
text-same size index t name limit =
    let text : has_text t index name
        ≡ same_text (if leb size index then none else some (t.strtab index)) name =
      ap (λ o. same_text o name) (get_string-checked size index t limit) in
    elim (Bool-cases (leb size index)) [
      | inl over ↦
          inl (text ∙ ap (λ b. same_text (if b then none else some (t.strtab index)) name) over)
      | inr inside ↦ inr (
          text
          ∙ ap (λ b. same_text (if b then none else some (t.strtab index)) name) inside
          ∙ ap some (text_eq_comm (t.strtab index) name)
          ∙ ap (λ b. some (text_eq name (if b then [] else t.strtab index))) (sym inside))
    ]

reader_matches-gnu_matches :
    (size : ℕ) (t : Tables) (hash : ℕ) (name : Bytes) (n : ℕ)
    → t.strtab_limit ≡ some size
    → (gnu_matches (record t { versym = none }) hash 0 name n ≡ none)
      ⊎ (gnu_matches (record t { versym = none }) hash 0 name n
          ≡ some (reader_matches size t hash name n))
unfolding reader_matches gnu_matches check_symbol_version
reader_matches-gnu_matches size t hash name n limit =
    elim (Bool-cases (bit_xor (t.gnu_chain n) hash / 2 == 0)) [
      | inl equal ↦
          rw equal (text-same size (t.symtab n).st_name (record t { versym = none }) name limit)
      | inr other ↦ rw other (inr refl)
    ]

-- Where `gnu_lookup` of a soinfo, from Android M on, answers for a name that is not empty, with no
-- version asked for, no version table and a string table whose size it checks, the ELF reader's
-- `GnuHashLookupSymbol` on the same tables gives the same answer. (The soinfo's lookup ends the
-- process at a string behind the table, which the reader takes for the empty text.)
pub gnu_hash_lookup_symbol-gnu_search :
    (size : ℕ) (t : Tables) (fuel c : ℕ) (name : Bytes) (r : Option ℕ)
    → t.strtab_limit ≡ some size
    → gnu_search (record t { versym = none }) fuel (c ∷ name) none ≡ some r
    → gnu_hash_lookup_symbol size t fuel (some (c ∷ name)) ≡ some r
unfolding gnu_hash_lookup_symbol gnu_search find_verdef_version_index may_hold
gnu_hash_lookup_symbol-gnu_search size t fuel c name r limit e =
    let hash = calculate_gnu_hash (c ∷ name) in
    let n = t.gnu_bucket (hash % t.gnu_nbucket) in
    let chained =
      chain_loop-same (gnu_matches (record t { versym = none }) hash 0 (c ∷ name))
        (λ k. some (reader_matches size t hash (c ∷ name) k)) t.gnu_chain fuel n r
        (λ k. reader_matches-gnu_matches size t hash (c ∷ name) k limit) in
    ground (arith, chained, e)
