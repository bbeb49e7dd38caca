-- ===== src/Symbol/Chain/Found.antt =====
-- What `soinfo_do_lookup` finds.
use fake_linker.Prelude.{
  ℕ, zero, suc, ◌+◌, ◌/◌, ◌%◌, ◌≡◌, refl, sym, ap, ◌∙◌, inl, inr, true, false, not, Option, none,
  some, List, [], ◌∷◌, ◌++◌, arith, ◌==◌, if-cases, length, Bytes, text_eq, text_eq→eq,
  Option-cases, ==→eq, bit_and,
}
use mathlib.Core.Path.{subst}
use fake_linker.Symbol.{
  VersionInfo, Answer, check_symbol_version, is_symbol_global_and_defined,
  find_verdef_version_index, calculate_gnu_hash, may_hold,
}
use fake_linker.Symbol.Chain.{
  LookupLib, lib_matches, lib_chain, search_lib, lookup_from, soinfo_do_lookup,
}
use fake_linker.Symbol.Chain.Order.{AreWithout, is_slow}

-- The symbol `i` of the library has the hash, the name and the version, and is global and defined.
abbrev pub IsHit : LookupLib → ℕ → Option ℕ → Bytes → ℕ → Type 0
IsHit lib hash version name i =
    (lib.tables.gnu_chain i / 2 ≡ hash / 2)
    × (lib.bytes_at (lib.tables.symtab i).st_name (length name + 1) ≡ name ++ 0 ∷ [])
    × (is_symbol_global_and_defined (lib.tables.symtab i) ≡ true)
    × (verneed : ℕ) × (version ≡ some verneed)
    × (check_symbol_version lib.tables.versym i verneed ≡ true)

lib_matches-IsHit :
    (lib : LookupLib) (hash verneed : ℕ) (name : Bytes) (i : ℕ)
    → (lib.tables.gnu_chain i / 2 == hash / 2) ≡ true
    → lib_matches lib verneed name i ≡ true
    → IsHit lib hash (some verneed) name i
unfolding lib_matches
lib_matches-IsHit lib hash verneed name i same good =
    let s = lib.tables.symtab i in
    let text = lib.bytes_at s.st_name (length name + 1) in
    let equal : text_eq text (name ++ 0 ∷ []) ≡ true = ground (arith, good) in
    (
      ==→eq (lib.tables.gnu_chain i / 2) (hash / 2) same,
      text_eq→eq text (name ++ 0 ∷ []) equal,
      ground (arith, good),
      verneed,
      refl,
      ground (arith, good),
    )

-- What an answer of a search in one library says.
abbrev pub Says : LookupLib → ℕ → Option ℕ → Bytes → Answer → Type 0
Says lib hash version name none = Unit
Says lib hash version name (some none) = Unit
Says lib hash version name (some (some i)) = IsHit lib hash version name i

lib_chain-Says :
    (lib : LookupLib) (hash : ℕ) (version : Option ℕ) (name : Bytes) (fuel n : ℕ)
    → Says lib hash version name (lib_chain lib hash version name fuel n)
unfolding lib_chain
lib_chain-Says lib hash version name zero n = tt
lib_chain-Says lib hash none name (suc fuel) n =
    let next =
      if-cases (Says lib hash none name) (bit_and (lib.tables.gnu_chain n) 1 == 0)
        {x = lib_chain lib hash none name fuel (suc n)} {y = some none}
        (λ _. lib_chain-Says lib hash none name fuel (suc n)) (λ _. tt) in
    if-cases (Says lib hash none name) (lib.tables.gnu_chain n / 2 == hash / 2) (λ _. tt)
      (λ _. next)
lib_chain-Says lib hash (some v) name (suc fuel) n =
    let next =
      if-cases (Says lib hash (some v) name) (bit_and (lib.tables.gnu_chain n) 1 == 0)
        {x = lib_chain lib hash (some v) name fuel (suc n)} {y = some none}
        (λ _. lib_chain-Says lib hash (some v) name fuel (suc n)) (λ _. tt) in
    if-cases (Says lib hash (some v) name) (lib.tables.gnu_chain n / 2 == hash / 2)
      (λ same.
        if-cases (Says lib hash (some v) name) (lib_matches lib v name n)
          (λ good. lib_matches-IsHit lib hash v name n same good) (λ _. next))
      (λ _. next)

search_lib-Says :
    (api : ℕ) (lib : LookupLib) (fuel : ℕ) (name : Bytes) (vi : Option VersionInfo)
    → Says lib
        (calculate_gnu_hash name)
        (find_verdef_version_index lib.tables vi)
        name
        (search_lib api false lib fuel name vi)
unfolding search_lib
search_lib-Says api lib fuel name vi =
    let hash = calculate_gnu_hash name in
    let version = find_verdef_version_index lib.tables vi in
    if-cases (Says lib hash version name) (not (may_hold lib.tables hash)) (λ _. tt)
      (λ _.
        if-cases (Says lib hash version name)
          (lib.tables.gnu_bucket (hash % lib.tables.gnu_nbucket) == 0) (λ _. tt)
          (λ _. lib_chain-Says lib hash version name fuel _))

-- The symbol `n` of the library at a place is a hit, and the libraries before it are without.
abbrev pub IsFound : ℕ → ℕ → Bytes → Option VersionInfo → List LookupLib → ℕ → ℕ → Type 0
IsFound api fuel name vi libs place n =
    (before : List LookupLib) × (lib : LookupLib) × (after : List LookupLib) × (libs
      ≡ before ++ lib ∷ after)
    × (place ≡ length before)
    × AreWithout api false fuel name vi before
    × IsHit lib (calculate_gnu_hash name) (find_verdef_version_index lib.tables vi) name n

lookup_from-IsFound :
    (api fuel : ℕ) (name : Bytes) (vi : Option VersionInfo) (from place n : ℕ)
    (libs : List LookupLib)
    → lookup_from api false fuel name vi from libs ≡ some (some (place, n))
    → (p : ℕ) × (place ≡ from + p) × IsFound api fuel name vi libs p n
unfolding lookup_from
lookup_from-IsFound api fuel name vi from place n [] e = absurd (ground arith)
lookup_from-IsFound api fuel name vi from place n (lib ∷ libs) e =
    let says = search_lib-Says api lib fuel name vi in
    elim (Option-cases (search_lib api false lib fuel name vi)) [
      | inl stopped ↦ absurd (ground (arith, stopped, e))
      | inr (o, answered) ↦ elim (Option-cases o) [
        | inl missed ↦
            let without : search_lib api false lib fuel name vi ≡ some none =
              answered ∙ ap some missed in
            let (p, at, (before, l, after, split, len, absent, hit)) =
              lookup_from-IsFound api fuel name vi (suc from) place n libs
                (ground (arith, without, e)) in
            (
              suc p,
              omega (arith, at),
              (lib ∷ before, l, after, ap (◌∷◌ lib) split, ap suc len, (without, absent), hit),
            )
        | inr (i, here) ↦
            let found : search_lib api false lib fuel name vi ≡ some (some i) =
              answered ∙ ap some here in
            let first : place ≡ from + 0 = ground (arith, found, e) in
            let second : i ≡ n = ground (arith, found, e) in
            let hit =
              IsHit lib (calculate_gnu_hash name) (find_verdef_version_index lib.tables vi) name in
            (0, first, ([], lib, libs, refl, refl, tt, subst hit second (rw found at says)))
      ]
    ]

-- Where no library of the list needs the search through its soinfo, an answer of `soinfo_do_lookup`
-- is a place in the list and an index such that the symbol there has the hash and the name, its NUL
-- included, and the version asked for, and is global and defined; and the searches of all libraries
-- before it end without the symbol.
pub soinfo_do_lookup-IsFound :
    (api fuel : ℕ) (name : Bytes) (vi : Option VersionInfo) (place n : ℕ) (libs : List LookupLib)
    → is_slow libs ≡ false
    → soinfo_do_lookup api fuel name vi libs ≡ some (some (place, n))
    → IsFound api fuel name vi libs place n
unfolding soinfo_do_lookup
soinfo_do_lookup-IsFound api fuel name vi place n libs quick e =
    let run : lookup_from api false fuel name vi 0 libs ≡ some (some (place, n)) =
      ap (λ b. lookup_from api b fuel name vi 0 libs) (sym quick) ∙ e in
    let (p, at, found) = lookup_from-IsFound api fuel name vi 0 place n libs run in
    let same : p ≡ place = omega (arith, at) in
    subst (λ q. IsFound api fuel name vi libs q n) same found
