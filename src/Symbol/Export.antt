-- ===== src/Symbol/Export.antt =====
-- The exported symbols of a library (linker_soinfo.cpp): `get_export_symbol_gnu_table_size`,
-- `find_export_symbol_by_prefix`, and the test `find_global` of it and of
-- `get_global_soinfo_export_symbols`.
use mathlib.Core.Path.{subst}
use fake_linker.Prelude.{
  ℕ, zero, suc, ◌+◌, ◌-◌, ◌/◌, ◌%◌, ◌≤◌, ◌<◌, bit_and, ◌≡◌, refl, Bool, true, false, not, ◌&&◌,
  ◌||◌, Option, none, some, [], ◌∷◌, arith, leb, ◌==◌, if◌then◌else◌, if-cases, length, Bytes,
}
use fake_linker.Maps.Line.{strstr, starts_with}
use fake_linker.Symbol.{ElfSym, Tables, Answer, get_string}

-- `while ((gnu_chain()[max] & 1) == 0) max++`, on fuel.
unfoldable pub chain_end : (ℕ → ℕ) → ℕ → ℕ → Option ℕ
chain_end chain zero max = none
chain_end chain (suc fuel) max =
    let rest = chain_end chain fuel (suc max) in
    if bit_and (chain max) 1 == 0 then rest else some max

-- The first and the last index of the GNU table.
unfoldable pub get_export_symbol_gnu_table_size : ℕ → Tables → ℕ → Option (ℕ × ℕ)
unfolding chain_end
get_export_symbol_gnu_table_size api t fuel =
    let end = chain_end t.gnu_chain fuel (t.gnu_bucket (t.gnu_nbucket - 1)) in
    if t.is_gnu_hash && leb 23 api
    then elim end [ none ↦ none | some max ↦ some (t.gnu_bucket 0, max) ]
    else some (1, 0)

-- `find_global` with its flag `only_func`; 2 is STV_HIDDEN, 1 STV_INTERNAL and 2 STT_FUNC.
unfoldable pub find_global : Bool → ElfSym → Bool
find_global only_func s =
    if s.st_shndx == 0 || not (s.st_info / 16 == 1)
    then false
    else if s.st_other % 4 == 2 || s.st_other % 4 == 1
    then false
    else if only_func
    then s.st_info % 16 == 2
    else true

-- `strstr(symbol_name, name) == symbol_name`
unfoldable pub has_prefix : Bytes → Bytes → Bool
unfolding strstr
has_prefix symbol_name name = elim (strstr symbol_name name) [
  | none ↦ false
  | some p ↦ length p == length symbol_name
]

-- The loop from an index on, over a number of symbols.
-- A name that lies behind the string table ends the process, which is `none`.
abbrev pub prefix_round : Option Bytes → Bytes → ℕ → Answer → Answer
prefix_round none name i rest = none
prefix_round (some symbol_name) name i rest =
    if has_prefix symbol_name name then some (some i) else rest

unfoldable pub prefix_loop : Tables → Bytes → ℕ → ℕ → Answer
unfolding find_global get_string
prefix_loop t name zero i = some none
prefix_loop t name (suc left) i =
    let rest = prefix_loop t name left (suc i) in
    if not (find_global false (t.symtab i))
    then rest
    else prefix_round (get_string t (t.symtab i).st_name) name i rest

-- The index of the symbol; `nchain` is the size of the SysV table. The outer `none` says that there
-- is no answer: the process has ended or the fuel ran out.
unfoldable pub find_export_symbol_by_prefix : ℕ → Tables → ℕ → ℕ → Bytes → Answer
unfolding get_export_symbol_gnu_table_size prefix_loop
find_export_symbol_by_prefix api t nchain fuel name =
    let bounds =
      if t.is_gnu_hash then get_export_symbol_gnu_table_size api t fuel else some (0, nchain) in
    elim bounds [ none ↦ none | some (start, end) ↦ prefix_loop t name (end + 1 - start) start ]

-- What an answer of the loop says.
abbrev pub IsExported : Tables → Bytes → ℕ → ℕ → Answer → Type 0
IsExported t name from below none = Unit
IsExported t name from below (some none) = Unit
IsExported t name from below (some (some i)) =
    (from ≤ i)
    × (i < below)
    × (find_global false (t.symtab i) ≡ true)
    × (text : Bytes) × (get_string t (t.symtab i).st_name ≡ some text)
    × (has_prefix text name ≡ true)

IsExported-next :
    (t : Tables) (name : Bytes) (from below : ℕ) (o : Answer)
    → IsExported t name (suc from) below o
    → IsExported t name from below o
IsExported-next t name from below none e = tt
IsExported-next t name from below (some none) e = tt
IsExported-next t name from below (some (some i)) e = (omega (arith, e.0), e.1, e.2, e.3, e.4, e.5)

prefix_round-IsExported :
    (t : Tables) (name : Bytes) (i below : ℕ) (text : Option Bytes) (rest : Answer)
    → get_string t (t.symtab i).st_name ≡ text
    → i < below
    → find_global false (t.symtab i) ≡ true
    → IsExported t name i below rest
    → IsExported t name i below (prefix_round text name i rest)
prefix_round-IsExported t name i below none rest e lt good later = tt
prefix_round-IsExported t name i below (some text) rest e lt good later =
    if-cases (IsExported t name i below) (has_prefix text name)
      (λ here. (omega arith, lt, good, text, e, here)) (λ _. later)

prefix_loop-IsExported :
    (t : Tables) (name : Bytes) (left i : ℕ)
    → IsExported t name i (i + left) (prefix_loop t name left i)
unfolding prefix_loop
prefix_loop-IsExported t name zero i = tt
prefix_loop-IsExported t name (suc left) i =
    let same : suc i + left ≡ i + suc left = omega arith in
    let rest = IsExported-next t name i (i + suc left) (prefix_loop t name left (suc i)) (
      subst (λ (b : ℕ). IsExported t name (suc i) b (prefix_loop t name left (suc i))) same
        (prefix_loop-IsExported t name left (suc i))) in
    if-cases (IsExported t name i (i + suc left)) (not (find_global false (t.symtab i))) (λ _. rest)
      (λ good.
        prefix_round-IsExported t name i (i + suc left) (get_string t (t.symtab i).st_name)
          (prefix_loop t name left (suc i)) refl (omega arith) (ground arith) rest)

-- A rest of a text that `strstr` answers is no longer than the text.
IsRest : ℕ → Option Bytes → Type 0
IsRest n none = Unit
IsRest n (some p) = length p ≤ n

IsRest-suc : (n : ℕ) (o : Option Bytes) → IsRest n o → IsRest (suc n) o
unfolding IsRest
IsRest-suc n none r = tt
IsRest-suc n (some p) r = omega (arith, r)

strstr-IsRest : (text needle : Bytes) → IsRest (length text) (strstr text needle)
unfolding strstr IsRest
strstr-IsRest [] needle = if-cases (IsRest 0) (starts_with [] needle) (λ _. omega arith) (λ _. tt)
strstr-IsRest (c ∷ text) needle =
    if-cases (IsRest (suc (length text))) (starts_with (c ∷ text) needle) (λ _. omega arith)
      (λ _. IsRest-suc (length text) (strstr text needle) (strstr-IsRest text needle))

shorter :
    (n : ℕ) (o : Option Bytes)
    → IsRest n o
    → elim o as (λ _. Bool) [ none ↦ false | some p ↦ length p == suc n ] ≡ false
unfolding IsRest
shorter n none r = refl
shorter n (some p) r = ground (arith, r)

has_prefix-starts_with :
    (text needle : Bytes) → has_prefix text needle ≡ true → starts_with text needle ≡ true
unfolding has_prefix strstr
has_prefix-starts_with [] needle e = ground arith
has_prefix-starts_with (c ∷ text) needle e =
    ground (arith, shorter (length text) (strstr text needle) (strstr-IsRest text needle))

-- What is known of a symbol that is found.
abbrev pub HasPrefix : Tables → Bytes → ℕ → Type 0
HasPrefix t name i =
    (find_global false (t.symtab i) ≡ true)
    × (text : Bytes) × (get_string t (t.symtab i).st_name ≡ some text)
    × (starts_with text name ≡ true)

found_at :
    (t : Tables) (name : Bytes) (from below i : ℕ) (o : Answer)
    → IsExported t name from below o
    → o ≡ some (some i)
    → HasPrefix t name i
found_at t name from below i none e same = absurd (ground arith)
found_at t name from below i (some none) e same = absurd (ground arith)
found_at t name from below i (some (some j)) e same =
    let eq : j ≡ i = ground arith in
    subst (HasPrefix t name) eq (e.2, e.3, e.4, has_prefix-starts_with e.3 name e.5)

in_bounds :
    (t : Tables) (name : Bytes) (i : ℕ) (bounds : Option (ℕ × ℕ))
    → elim bounds as (λ _. Answer) [
      | none ↦ none
      | some (start, end) ↦ prefix_loop t name (end + 1 - start) start
    ]
      ≡ some (some i)
    → HasPrefix t name i
in_bounds t name i none e = absurd (ground arith)
in_bounds t name i (some (start, end)) e =
    found_at t name start _ i _ (prefix_loop-IsExported t name (end + 1 - start) start) e

-- A symbol that `find_export_symbol_by_prefix` answers is global, defined and visible, and its
-- name begins with the prefix.
pub find_export_symbol_by_prefix-starts_with :
    (api nchain fuel i : ℕ) (t : Tables) (name : Bytes)
    → find_export_symbol_by_prefix api t nchain fuel name ≡ some (some i)
    → HasPrefix t name i
unfolding find_export_symbol_by_prefix
find_export_symbol_by_prefix-starts_with api nchain fuel i t name e =
    in_bounds t name i
      (if t.is_gnu_hash then get_export_symbol_gnu_table_size api t fuel else some (0, nchain)) e
