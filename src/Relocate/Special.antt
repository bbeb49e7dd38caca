-- ===== src/Relocate/Special.antt =====
-- The second relocation of a loaded library: `relocate_special` of linker_relocate.cpp on 64-bit
-- machines adds to the words of the relocations that name chosen symbols. The calls that change
-- the protection of the RELRO segment are parameters.
use fake_linker.Prelude.{
  ℕ, ◌+◌, ◌%◌, ◌<◌, ◌≡◌, refl, sym, ap, ◌∙◌, inl, inr, Bool, true, false, not, ◌||◌, Option, none,
  some, List, [], ◌∷◌, arith, ltb, leb, ◌==◌, if◌then◌else◌, Bool-cases, Option-cases, is_some, All,
  any, Bytes, text_eq,
}
use mathlib.Core.Path.{subst}
use native.Mathlib.Nat.{mod-add-mod, mod-eq_of_lt, mod-lt}
use fake_linker.Bits.Align.{word}
use fake_linker.Symbol.{Tables}
use fake_linker.Relocate.{Reloc}

-- `symbol_relocations`, from a name to what is added.
abbrev pub SymbolRelocations : Type 0
SymbolRelocations = List (Bytes × ℕ)

abbrev pub find : Bytes → SymbolRelocations → Option ℕ
find name [] = none
find name ((n, value) ∷ relocs) = if text_eq n name then some value else find name relocs

-- The words in memory, and the flag of the lambda `unprotect_relro`, with the calls it has made.
pub record Special : Type 0 where
  pub memory : ℕ → ℕ
  pub lazy_unprotect_relro : Bool
  pub unprotects : ℕ

-- The library: the outcome of `phdr_table_unprotect_gnu_relro` for each call, and of
-- `phdr_table_protect_gnu_relro`. `target` is `apply_memtag_if_mte_globals`.
pub record Loaded : Type 0 where
  pub load_bias : ℕ
  pub target : ℕ → ℕ
  pub tables : Tables
  pub strtab_size : ℕ
  pub unprotect : ℕ → Bool
  pub protect : Bool

unfoldable pub unprotect_relro : Loaded → Special → Bool × Special
unprotect_relro lib s = if s.lazy_unprotect_relro then (true, s) else (
  lib.unprotect s.unprotects,
  record s { lazy_unprotect_relro = lib.unprotect s.unprotects; unprotects = s.unprotects + 1 },
)

abbrev pub target_of : Loaded → Reloc → ℕ
target_of lib reloc = lib.target ((reloc.r_offset + lib.load_bias) % word)

-- The name of a relocation's symbol; the process ends where it lies behind the string table.
abbrev pub name_at : Loaded → Reloc → Option Bytes
name_at lib reloc =
    let st_name = (lib.tables.symtab reloc.r_sym).st_name in
    if leb lib.strtab_size st_name then none else some (lib.tables.strtab st_name)

-- The word of a relocation that names a chosen symbol.
unfoldable pub add_value : Loaded → Reloc → ℕ → Special → Bool × Special
unfolding unprotect_relro
add_value lib reloc value s =
    let (ok, s') = unprotect_relro lib s in
    if not ok then (false, s') else (
      true,
      record s' {
        memory =
            λ a. if a == target_of lib reloc then (s'.memory a + value) % word else s'.memory a;
      },
    )

unfoldable pub process_relocation_special :
    Loaded → SymbolRelocations → Reloc → Special → Option (Bool × Special)
unfolding add_value
process_relocation_special lib relocs reloc s =
    if reloc.r_sym == 0 then some (true, s) else elim (name_at lib reloc) [
      | none ↦ none
      | some name ↦
          some (elim (find name relocs) [
            | none ↦ (true, s)
            | some value ↦ add_value lib reloc value s
          ])
    ]

unfoldable pub plain_relocate_special :
    Loaded → SymbolRelocations → List Reloc → Special → Option (Bool × Special)
plain_relocate_special lib relocs [] s = some (true, s)
plain_relocate_special lib relocs (reloc ∷ rels) s =
    elim (process_relocation_special lib relocs reloc s) [
      | none ↦ none
      | some (ok, s') ↦
          let rest = plain_relocate_special lib relocs rels s' in
          if not ok then some (false, s') else rest
    ]

abbrev pub finish : Loaded → Special → Bool × Special
finish lib s = (if s.lazy_unprotect_relro then lib.protect else true, s)

-- Both tables; an absent table is an empty one.
unfoldable pub relocate_special :
    Loaded → SymbolRelocations → List Reloc → List Reloc → (ℕ → ℕ) → Option (Bool × Special)
relocate_special lib relocs rela plt_rela memory =
    elim (plain_relocate_special lib relocs rela
      (record { memory = memory; lazy_unprotect_relro = false; unprotects = 0 })) [
        | none ↦ none
        | some (ok, s) ↦
            if not ok
            then some (false, s)
            else elim (plain_relocate_special lib relocs plt_rela s) [
              | none ↦ none
              | some (ok', s') ↦ if not ok' then some (false, s') else some (finish lib s')
            ]
      ]

-- The value that is chosen for a relocation, if one is.
abbrev pub chosen : Loaded → SymbolRelocations → Reloc → Option ℕ
chosen lib relocs reloc =
    if reloc.r_sym == 0
    then none
    else find (lib.tables.strtab (lib.tables.symtab reloc.r_sym).st_name) relocs

abbrev pub share_of : Loaded → Reloc → Option ℕ → ℕ → ℕ
share_of lib reloc none a = 0
share_of lib reloc (some value) a = if a == target_of lib reloc then value else 0

-- What a relocation adds to the word at `a`.
abbrev pub share : Loaded → SymbolRelocations → Reloc → ℕ → ℕ
share lib relocs reloc = share_of lib reloc (chosen lib relocs reloc)

abbrev pub total : Loaded → SymbolRelocations → List Reloc → ℕ → ℕ
total lib relocs [] a = 0
total lib relocs (reloc ∷ rels) a = share lib relocs reloc a + total lib relocs rels a

abbrev pub is_in_table : Loaded → Reloc → Bool
is_in_table lib reloc =
    (reloc.r_sym == 0) || ltb (lib.tables.symtab reloc.r_sym).st_name lib.strtab_size

abbrev pub once : Bool → ℕ
once b = if b then 1 else 0

abbrev IsReady : Special → Type 0
IsReady s = ((a : ℕ) → s.memory a < word) × (s.unprotects ≡ once s.lazy_unprotect_relro)

-- What a run over relocations does to the state.
abbrev IsAfter : Special → (ℕ → ℕ) → Bool → Special → Type 0
IsAfter s added touched s' =
    ((a : ℕ) → s'.memory a ≡ (s.memory a + added a) % word)
    × (s'.lazy_unprotect_relro ≡ s.lazy_unprotect_relro || touched)
    × (s'.unprotects ≡ once s'.lazy_unprotect_relro)

IsReady-after :
    (s : Special) (added : ℕ → ℕ) (touched : Bool) (s' : Special)
    → IsAfter s added touched s'
    → IsReady s'
IsReady-after s added touched s' after = (
  λ a. ground (arith, after.0 a, mod-lt (s.memory a + added a) {m = word} (omega arith)),
  after.2,
)

IsAfter-none : (s : Special) → IsReady s → IsAfter s (λ a. 0) false s
IsAfter-none s ready = (
  λ a. sym (ap (λ (t : ℕ). t % word) (omega arith) ∙ mod-eq_of_lt (ready.0 a)),
  ground arith,
  ready.1,
)

module _ (lib : Loaded) (unlocks : (n : ℕ) → lib.unprotect n ≡ true) where
  add_value_lem :
      (reloc : Reloc) (value : ℕ) (s : Special)
      → IsReady s
      → (s' : Special) × (add_value lib reloc value s ≡ (true, s'))
        × IsAfter s (λ a. if a == target_of lib reloc then value else 0) true s'
  unfolding add_value unprotect_relro
  add_value_lem reloc value s ready =
      let s' : Special = record {
        memory = λ a. if a == target_of lib reloc then (s.memory a + value) % word else s.memory a;
        lazy_unprotect_relro = true;
        unprotects = 1;
      } in
      let same = λ (a : ℕ). mod-eq_of_lt (ready.0 a) in
      let after : (a : ℕ)
          → (if a == target_of lib reloc then (s.memory a + value) % word else s.memory a)
            ≡ (s.memory a + (if a == target_of lib reloc then value else 0)) % word =
        λ a. ground (arith, same a) in
      elim (Bool-cases s.lazy_unprotect_relro) [
        | inl done ↦ (s', ground (arith, done, ready.1), (after, ground (arith, done), refl))
        | inr first ↦ (
          s',
          ground (arith, first, ready.1, unlocks s.unprotects),
          (after, ground (arith, first), refl),
        )
      ]

  process_relocation_special_lem :
      (relocs : SymbolRelocations) (reloc : Reloc) (s : Special)
      → is_in_table lib reloc ≡ true
      → IsReady s
      → (s' : Special) × (process_relocation_special lib relocs reloc s ≡ some (true, s'))
        × IsAfter s (share lib relocs reloc) (is_some (chosen lib relocs reloc)) s'
  unfolding process_relocation_special
  process_relocation_special_lem relocs reloc s named ready = elim (Bool-cases (reloc.r_sym == 0)) [
    | inl no_symbol ↦
        let nothing : chosen lib relocs reloc ≡ none = ground (arith, no_symbol) in
        (
          s,
          ground (arith, no_symbol),
          subst (λ o. IsAfter s (share_of lib reloc o) (is_some o) s) (sym nothing)
              (IsAfter-none s ready),
        )
    | inr symbol ↦
        let name = lib.tables.strtab (lib.tables.symtab reloc.r_sym).st_name in
        let at : name_at lib reloc ≡ some name = ground (arith, symbol, named) in
        let is : chosen lib relocs reloc ≡ find name relocs = ground (arith, symbol) in
        elim (Option-cases (find name relocs)) [
          | inl missing ↦ (
            s,
            rw (symbol, at, missing),
            subst (λ o. IsAfter s (share_of lib reloc o) (is_some o) s) (sym (is ∙ missing))
                (IsAfter-none s ready),
          )
          | inr (value, there) ↦
              let (s', done, after) = add_value_lem reloc value s ready in
              (
                s',
                rw (symbol, at, there, done),
                subst (λ o. IsAfter s (share_of lib reloc o) (is_some o) s') (sym (is ∙ there))
                    after,
              )
        ]
  ]

  IsAfter-join :
      (s s1 s2 : Special) (f g : ℕ → ℕ) (a b : Bool)
      → IsAfter s f a s1
      → IsAfter s1 g b s2
      → IsAfter s (λ x. f x + g x) (a || b) s2
  IsAfter-join s s1 s2 f g a b first second = (
    λ x.
        second.0 x
        ∙ ap (λ (m : ℕ). (m + g x) % word) (first.0 x)
        ∙ mod-add-mod (s.memory x + f x) word (g x)
        ∙ ap (λ (m : ℕ). m % word) (omega arith),
    ground (arith, first.1, second.1),
    second.2,
  )

  plain_relocate_special_lem :
      (relocs : SymbolRelocations) (rels : List Reloc) (s : Special)
      → All (λ reloc. is_in_table lib reloc ≡ true) rels
      → IsReady s
      → (s' : Special) × (plain_relocate_special lib relocs rels s ≡ some (true, s'))
        × IsAfter s
            (total lib relocs rels)
            (any (λ reloc. is_some (chosen lib relocs reloc)) rels)
            s'
  unfolding plain_relocate_special
  plain_relocate_special_lem relocs [] s named ready = (s, refl, IsAfter-none s ready)
  plain_relocate_special_lem relocs (reloc ∷ rels) s named ready =
      let (s1, done, after) = process_relocation_special_lem relocs reloc s named.0 ready in
      let (s2, rest, after') =
        plain_relocate_special_lem relocs rels s1 named.1 (IsReady-after s _ _ s1 after) in
      (s2, ground (arith, done, rest), IsAfter-join s s1 s2 _ _ _ _ after after')

  -- `relocate_special` answers true where the RELRO segment can be unprotected and protected again,
  -- and every relocation's name lies in the string table. Each word has then grown, modulo 2^64, by
  -- the sum of the values chosen for the symbols of the relocations at its address, in both tables.
  -- The segment was unprotected once if some relocation names a chosen symbol, and never otherwise.
  pub relocate_special-total :
      (relocs : SymbolRelocations) (rela plt_rela : List Reloc) (memory : ℕ → ℕ)
      → All (λ reloc. is_in_table lib reloc ≡ true) rela
      → All (λ reloc. is_in_table lib reloc ≡ true) plt_rela
      → ((a : ℕ) → memory a < word)
      → lib.protect ≡ true
      → (s' : Special) × (relocate_special lib relocs rela plt_rela memory ≡ some (true, s'))
        × ((a : ℕ)
            → s'.memory a
              ≡ (memory a + (total lib relocs rela a + total lib relocs plt_rela a)) % word)
        × (s'.unprotects
            ≡ once (
                any (λ reloc. is_some (chosen lib relocs reloc)) rela
                || any (λ reloc. is_some (chosen lib relocs reloc)) plt_rela))
  unfolding relocate_special
  relocate_special-total relocs rela plt_rela memory named named' low locks =
      let s : Special = record { memory = memory; lazy_unprotect_relro = false; unprotects = 0 } in
      let (s1, done, after) = plain_relocate_special_lem relocs rela s named (low, refl) in
      let (s2, done', after') =
        plain_relocate_special_lem relocs plt_rela s1 named' (IsReady-after s _ _ s1 after) in
      let both = IsAfter-join s s1 s2 _ _ _ _ after after' in
      (s2, ground (arith, done, done', locks), both.0, both.2 ∙ ap once both.1)
