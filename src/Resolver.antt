-- ===== src/Resolver.antt =====
-- `SymbolResolver` (library/src/main/cpp/linker/art/symbol_resolver.cpp): the libraries by their
-- address ranges, and the library of an address. The map from starts to libraries is the list of
-- its entries by rising start.
use fake_linker.Prelude.{
  ℕ, ◌≤◌, ◌<◌, ◌≡◌, refl, Bool, true, false, ◌&&◌, Option, none, some, List, [], ◌∷◌, arith, ltb,
  leb, ◌==◌, if◌then◌else◌, All, Bytes,
}

pub record LibraryItem : Type 0 where
  pub start : ℕ
  pub end : ℕ
  pub name : Bytes

-- `try_emplace`: false if the start is taken.
unfoldable pub add_address_range : LibraryItem → List LibraryItem → List LibraryItem × Bool
add_address_range item [] = (item ∷ [], true)
add_address_range item (i ∷ is) =
    let (rest, added) = add_address_range item is in
    if ltb item.start i.start
    then (item ∷ i ∷ is, true)
    else if item.start == i.start
    then (i ∷ is, false)
    else (i ∷ rest, added)

-- The last entry that starts at or below the address: that before `upper_bound`.
unfoldable pub before_upper_bound : ℕ → List LibraryItem → Option LibraryItem
before_upper_bound address [] = none
before_upper_bound address (i ∷ is) =
    let rest = before_upper_bound address is in
    if ltb address i.start then none else elim rest [ none ↦ some i | some later ↦ some later ]

abbrev pub if_inside : ℕ → Option LibraryItem → Option LibraryItem
if_inside address none = none
if_inside address (some i) = if leb i.start address && ltb address i.end then some i else none

unfoldable pub find_library : ℕ → List LibraryItem → Option LibraryItem
unfolding before_upper_bound
find_library address items = if_inside address (before_upper_bound address items)

-- The libraries stand by rising start, and no two overlap.
abbrev pub IsOrdered : List LibraryItem → Type 0
IsOrdered [] = Unit
IsOrdered (i ∷ is) =
    (i.start ≤ i.end)
    × All (λ (later : LibraryItem). (i.start < later.start) × (i.end ≤ later.start)) is
    × IsOrdered is

abbrev pub holds : ℕ → LibraryItem → Bool
holds address i = leb i.start address && ltb address i.end

-- The first library that holds the address, in any list.
abbrev pub first_holding : ℕ → List LibraryItem → Option LibraryItem
first_holding address [] = none
first_holding address (i ∷ is) =
    let rest = first_holding address is in if holds address i then some i else rest

none_before :
    (address b : ℕ) (is : List LibraryItem)
    → address < b
    → All (λ (later : LibraryItem). b ≤ later.start) is
    → (before_upper_bound address is ≡ none) × (first_holding address is ≡ none)
unfolding before_upper_bound
none_before address b [] h all = (refl, refl)
none_before address b (i ∷ is) h all = ground (arith, all.0, none_before address b is h all.1)

not_here :
    (address : ℕ) (i : LibraryItem) (o : Option LibraryItem)
    → holds address i ≡ false
    → if_inside address (elim o [ none ↦ some i | some later ↦ some later ]) ≡ if_inside address o
not_here address i none n = ground (arith, n)
not_here address i (some later) n = refl

starts_from :
    (b : ℕ) (i : LibraryItem) (is : List LibraryItem)
    → b ≤ i.end
    → All (λ (later : LibraryItem). (i.start < later.start) × (i.end ≤ later.start)) is
    → All (λ (later : LibraryItem). b ≤ later.start) is
starts_from b i [] h all = tt
starts_from b i (l ∷ is) h all = (omega (arith, all.0.1), starts_from b i is h all.1)

-- On libraries that do not overlap, `FindLibrary` answers with the one that holds the address, and
-- with null if none does.
pub find_library-first_holding :
    (address : ℕ) (items : List LibraryItem)
    → IsOrdered items
    → find_library address items ≡ first_holding address items
unfolding find_library before_upper_bound
find_library-first_holding address [] ordered = refl
find_library-first_holding address (i ∷ is) ordered = ground (
  arith,
  ordered.0,
  none_before address i.start is,
  starts_from i.start i is,
  ordered.1,
  none_before address i.end is,
  starts_from i.end i is (omega arith),
  not_here address i (before_upper_bound address is),
  find_library-first_holding address is ordered.2,
)
