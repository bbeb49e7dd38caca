-- ===== src/Relink/Exports/Found.antt =====
-- What the table of exported symbols holds.
use fake_linker.Prelude.{
  ℕ, zero, suc, ◌+◌, ◌-◌, ◌≡◌, refl, sym, ap, ◌∙◌, inl, inr, Bool, true, false, ◌&&◌, Option, none,
  some, List, [], ◌∷◌, ◌++◌, arith, ltb, if◌then◌else◌, text_eq→eq, Bool-cases, Option-cases,
  is_some, any, Bytes, text_eq, ◌≤◌, ◌<◌,
}
use fake_linker.Symbol.Export.{find_global}
use fake_linker.Relocate.Special.{SymbolRelocations, find}
use fake_linker.Relink.Exports.{
  Exporter, address_of, emplace, export_loop, bounds_of, export_symbols, erase, erase_all,
  get_global_soinfo_export_symbols, first_export,
}

abbrev or_option : Option ℕ → Option ℕ → Option ℕ
or_option none o = o
or_option (some a) o = some a

or_option_assoc : (a b c : Option ℕ) → or_option (or_option a b) c ≡ or_option a (or_option b c)
or_option_assoc none b c = refl
or_option_assoc (some a) b c = refl

abbrev named : Bytes → ℕ → Bytes → Option ℕ
named n address name = if text_eq n name then some address else none

find-append :
    (name : Bytes) (xs ys : SymbolRelocations)
    → find name (xs ++ ys) ≡ or_option (find name xs) (find name ys)
find-append name [] ys = refl
find-append name ((n, v) ∷ xs) ys = elim (Bool-cases (text_eq n name)) [
  | inl e ↦ rw e refl
  | inr e ↦ rw e (find-append name xs ys)
]

or_option-none : (o : Option ℕ) → or_option o none ≡ o
or_option-none none = refl
or_option-none (some a) = refl

find-emplace :
    (n name : Bytes) (address : ℕ) (rels : SymbolRelocations)
    → find name (emplace n address rels) ≡ or_option (find name rels) (named n address name)
unfolding emplace
find-emplace n name address rels = elim (Option-cases (find n rels)) [
  | inl fresh ↦ rw fresh (find-append name rels ((n, address) ∷ []))
  | inr (v, there) ↦ rw there (elim (Bool-cases (text_eq n name)) [
    | inl same ↦
        let known : find name rels ≡ some v = rw (text_eq→eq n name same) at there in
        rw (same, known) refl
    | inr other ↦ rw other (sym (or_option-none (find name rels)))
  ])
]

named-first :
    (n name : Bytes) (address : ℕ) (global : Bool) (rest : Option ℕ)
    → global ≡ true
    → or_option (named n address name) rest
      ≡ (if global && text_eq n name then some address else rest)
named-first n name address true rest e = elim (Bool-cases (text_eq n name)) [
  | inl same ↦ rw same refl
  | inr other ↦ rw other refl
]
named-first n name address false rest e = cc

skipped :
    (o : Option Bytes) (name : Bytes) (address : ℕ) (global : Bool) (rest : Option ℕ)
    → global ≡ false
    → elim o as (λ _. Option ℕ) [
      | none ↦ rest
      | some n ↦ if global && text_eq n name then some address else rest
    ]
      ≡ rest
skipped none name address global rest e = refl
skipped (some n) name address false rest e = refl
skipped (some n) name address true rest e = cc

-- What the loop collects.
export_loop-find :
    (so : Exporter) (only_func : Bool) (left i : ℕ) (result : SymbolRelocations)
    → ((j : ℕ)
        → i ≤ j
        → j < i + left
        → find_global only_func (so.tables.symtab j) ≡ true
        → is_some (so.get_string (so.tables.symtab j).st_name) ≡ true)
    → (rels : SymbolRelocations) × (export_loop so only_func left i result ≡ some rels)
      × ((name : Bytes)
          → find name rels ≡ or_option (find name result) (first_export so only_func name left i))
unfolding export_loop
export_loop-find so only_func zero i result known =
    (result, refl, λ name. sym (or_option-none (find name result)))
export_loop-find so only_func (suc left) i result known =
    let sym_name = so.get_string (so.tables.symtab i).st_name in
    elim (Bool-cases (find_global only_func (so.tables.symtab i))) [
      | inl global ↦ elim (Option-cases sym_name) [
        | inl missing ↦ absurd (ground (arith, known i (omega arith) (omega arith) global, missing))
        | inr (n, there) ↦
            let (rels, e, finds) =
              export_loop-find so only_func left (suc i) (emplace n (address_of so i) result)
                (λ j low high. known j (omega arith) (omega arith)) in
            (
              rels,
              ground (arith, e, global, there),
              λ name.
                  let later = first_export so only_func name left (suc i) in
                  let first = named-first n name (address_of so i) _ later global in
                  rw (there, first_export)
                    (finds name
                      ∙ ap (λ o. or_option o later) (find-emplace n name (address_of so i) result)
                      ∙ or_option_assoc (find name result) (named n (address_of so i) name) later
                      ∙ ap (or_option (find name result)) first),
            )
      ]
      | inr local ↦
          let (rels, e, finds) =
            export_loop-find so only_func left (suc i) result
              (λ j low high. known j (omega arith) (omega arith)) in
          (
            rels,
            ground (arith, e, local),
            λ name.
                finds name
                ∙ ap (or_option (find name result)) (
                    sym (
                      skipped sym_name name (address_of so i) _
                        (first_export so only_func name left (suc i)) local)),
          )
    ]

text_eq_apart :
    (k n name : Bytes) → text_eq k n ≡ false → text_eq k name ≡ true → text_eq n name ≡ false
text_eq_apart k n name kept here = elim (Bool-cases (text_eq n name)) [
  | inl same ↦
      let e : text_eq k name ≡ text_eq k n = ap (text_eq k) (sym (text_eq→eq n name same)) in
      cc (e, kept, here)
  | inr other ↦ other
]

find-erase :
    (n name : Bytes) (rels : SymbolRelocations)
    → find name (erase n rels) ≡ (if text_eq n name then none else find name rels)
unfolding erase
find-erase n name [] = elim (Bool-cases (text_eq n name)) [
  | inl same ↦ rw same refl
  | inr other ↦ rw other refl
]
find-erase n name ((k, v) ∷ rels) = elim (Bool-cases (text_eq k n)) [
  | inl gone ↦
      let same : text_eq k name ≡ text_eq n name =
        ap (λ (t : Bytes). text_eq t name) (text_eq→eq k n gone) in
      ground (arith, gone, same, find-erase n name rels)
  | inr kept ↦ elim (Bool-cases (text_eq k name)) [
    | inl here ↦
        let apart : text_eq n name ≡ false = text_eq_apart k n name kept here in
        ground (arith, kept, here, apart)
    | inr past ↦ ground (arith, kept, past, find-erase n name rels)
  ]
]

abbrev pub is_left_out : List Bytes → Bytes → Bool
is_left_out filters name = any (λ n. text_eq n name) filters

find-erase_all :
    (filters : List Bytes) (name : Bytes) (rels : SymbolRelocations)
    → find name (erase_all filters rels)
      ≡ (if is_left_out filters name then none else find name rels)
unfolding erase_all
find-erase_all [] name rels = refl
find-erase_all (n ∷ filters) name rels =
    ground (arith, find-erase_all filters name (erase n rels), find-erase n name rels)

export_loop-zero :
    (so : Exporter) (only_func : Bool) (i : ℕ) → some [] ≡ export_loop so only_func 0 i []
unfolding export_loop
export_loop-zero so only_func i = refl

export_symbols-loop :
    (api fuel : ℕ) (so : Exporter) (only_func : Bool) (start end : ℕ)
    → bounds_of api fuel so ≡ some (start, end)
    → export_symbols api fuel so only_func ≡ export_loop so only_func (end + 1 - start) start []
unfolding export_symbols
export_symbols-loop api fuel so only_func start end bounds = elim (Bool-cases (ltb end start)) [
  | inl below ↦
      let no_symbol : end + 1 - start ≡ 0 = ground (arith, below) in
      rw (bounds, export_symbols) (rw (below, no_symbol) (export_loop-zero so only_func start))
  | inr above ↦ rw (bounds, export_symbols) (rw above refl)
]

-- `get_global_soinfo_export_symbols` ends with a table in which every name has the address of the
-- first symbol that `find_global` admits with that name, of those from `start` to `end` inclusive,
-- and no address if there is none or the name is left out. `start` and `end` are the bounds that the
-- code takes, which may leave out symbols of the library or include one behind its table. Every
-- symbol that is admitted between them has its name in the string table.
pub get_global_soinfo_export_symbols-find :
    (api fuel : ℕ) (so : Exporter) (only_func : Bool) (filters : List Bytes) (start end : ℕ)
    → bounds_of api fuel so ≡ some (start, end)
    → ((j : ℕ)
        → start ≤ j
        → j ≤ end
        → find_global only_func (so.tables.symtab j) ≡ true
        → is_some (so.get_string (so.tables.symtab j).st_name) ≡ true)
    → (rels : SymbolRelocations) × (get_global_soinfo_export_symbols api fuel so only_func filters
        ≡ some rels)
      × ((name : Bytes)
          → find name rels ≡ (
              if is_left_out filters name
              then none
              else first_export so only_func name (end + 1 - start) start))
unfolding get_global_soinfo_export_symbols
get_global_soinfo_export_symbols-find api fuel so only_func filters start end bounds known =
    let (rels, e, finds) =
      export_loop-find so only_func (end + 1 - start) start []
        (λ j low high. known j low (omega arith)) in
    (
      erase_all filters rels,
      rw
          (
            export_symbols-loop api fuel so only_func start end bounds ∙ e,
            get_global_soinfo_export_symbols,
          )
          refl,
      λ name.
          find-erase_all filters name rels
          ∙ ap (λ (o : Option ℕ). if is_left_out filters name then none else o) (finds name),
    )
