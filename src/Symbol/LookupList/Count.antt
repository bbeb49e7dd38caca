-- ===== src/Symbol/LookupList/Count.antt =====
-- The libraries of a lookup list, and the count of those that need the slow search.
use fake_linker.Prelude.{
  ℕ, ◌+◌, ◌-◌, ◌%◌, ◌≤◌, ◌<◌, ◌≡◌, refl, sym, ap, ◌∙◌, Bool, true, false, Option, none, some, List,
  [], ◌∷◌, ◌++◌, map, arith, length, is_some, length-append,
}
use mathlib.Core.List.{append-nil, append_assoc}
use fake_linker.Bits.Align.{word}
use fake_linker.Symbol.Chain.{LookupLib}
use fake_linker.Symbol.LookupList.{
  Searched, get_lookup_lib, LookupList, as_number, needs_sysv, push_group, from_groups, lib_of,
  set_dt_symbolic_lib, searched,
}

-- A series of calls of `set_dt_symbolic_lib`, the first one first.
abbrev pub set_all : List (Option Searched) → LookupList → LookupList
set_all [] l = l
set_all (lib ∷ calls) l = set_all calls (set_dt_symbolic_lib lib l)

-- The number of libraries that need the slow search.
abbrev pub sysv_count : List LookupLib → ℕ
sysv_count [] = 0
sysv_count (lib ∷ libs) = as_number lib.needs_sysv_lookup + sysv_count libs

-- The elements agree with the groups, and the count with the elements.
pub record IsValid (tracing : Bool) (libs : List LookupLib) (l : LookupList) : Type 0 where
  pub others : l.libs ≡ libs
  pub starts : l.begins_at_symbolic ≡ is_some l.symbolic
  pub counted :
      l.slow_path_count ≡ as_number tracing + as_number (needs_sysv l.symbolic) + sysv_count libs

as_number-le : (b : Bool) → as_number b ≤ 1
as_number-le true = omega arith
as_number-le false = omega arith

sysv_count-le : (libs : List LookupLib) → sysv_count libs ≤ length libs
sysv_count-le [] = omega arith
sysv_count-le (lib ∷ libs) = omega (arith, as_number-le lib.needs_sysv_lookup, sysv_count-le libs)

recounted :
    (t a b c n count : ℕ)
    → count ≡ t + a + c
    → t ≤ 1
    → a ≤ 1
    → b ≤ 1
    → c ≤ n
    → n + 2 < word
    → ((count + word - a) % word + b) % word ≡ t + b + c
recounted t a b c n count e ht ha hb hc hn = omega arith

is_some-lib_of : (lib : Option Searched) → is_some lib ≡ is_some (lib_of lib)
is_some-lib_of none = refl
is_some-lib_of (some si) = refl

set_dt_symbolic_lib-IsValid :
    (tracing : Bool) (libs : List LookupLib) (lib : Option Searched) (l : LookupList)
    → length libs + 2 < word
    → IsValid tracing libs l
    → IsValid tracing libs (set_dt_symbolic_lib lib l)
unfolding set_dt_symbolic_lib
set_dt_symbolic_lib-IsValid tracing libs lib l small v = record {
  others = v.others;
  starts = is_some-lib_of lib;
  counted =
      recounted (as_number tracing) (as_number (needs_sysv l.symbolic))
        (as_number (needs_sysv (lib_of lib))) (sysv_count libs) (length libs) l.slow_path_count
        v.counted (as_number-le tracing) (as_number-le _) (as_number-le _) (sysv_count-le libs)
        small;
}

set_all-IsValid :
    (tracing : Bool) (libs : List LookupLib) (calls : List (Option Searched)) (l : LookupList)
    → length libs + 2 < word
    → IsValid tracing libs l
    → IsValid tracing libs (set_all calls l)
set_all-IsValid tracing libs [] l small v = v
set_all-IsValid tracing libs (lib ∷ calls) l small v =
    set_all-IsValid tracing libs calls (set_dt_symbolic_lib lib l) small
      (set_dt_symbolic_lib-IsValid tracing libs lib l small v)

sysv_count-append : (xs ys : List LookupLib) → sysv_count (xs ++ ys) ≡ sysv_count xs + sysv_count ys
sysv_count-append [] ys = omega arith
sysv_count-append (x ∷ xs) ys = omega (arith, sysv_count-append xs ys)

length-map : {A B : Type 0} (f : A → B) (xs : List A) → length (map f xs) ≡ length xs
length-map f [] = refl
length-map f (x ∷ xs) = omega (arith, length-map f xs)

push_group-counts :
    (group : List Searched) (libs : List LookupLib) (count : ℕ)
    → count + length group < word
    → ((push_group group libs count).0 ≡ libs ++ map get_lookup_lib group)
      × ((push_group group libs count).1 ≡ count + sysv_count (map get_lookup_lib group))
unfolding push_group
push_group-counts [] libs count small = (sym (append-nil libs), omega arith)
push_group-counts (si ∷ group) libs count small =
    let lib = get_lookup_lib si in
    let one = as_number-le lib.needs_sysv_lookup in
    let next : (count + as_number lib.needs_sysv_lookup) % word
        ≡ count + as_number lib.needs_sysv_lookup =
      omega (arith, one, small) in
    let ih =
      push_group-counts group (libs ++ lib ∷ []) (count + as_number lib.needs_sysv_lookup)
        (omega (arith, one, small)) in
    (
      rw (next, push_group) (ih.0 ∙ append_assoc libs (lib ∷ []) (map get_lookup_lib group)),
      rw (next, push_group) (omega (arith, ih.1)),
    )

from_groups-IsValid :
    (tracing : Bool) (global_group local_group : List Searched)
    → length global_group + length local_group + 2 < word
    → IsValid tracing
        (map get_lookup_lib global_group ++ map get_lookup_lib local_group)
        (from_groups tracing global_group local_group)
unfolding from_groups
from_groups-IsValid tracing global_group local_group small =
    let g = map get_lookup_lib global_group in
    let m = map get_lookup_lib local_group in
    let one = as_number-le tracing in
    let first = push_group-counts global_group [] (as_number tracing) (omega (arith, one, small)) in
    let size = sysv_count-le g in
    let size' = length-map get_lookup_lib global_group in
    let fits : (push_group global_group [] (as_number tracing)).1 + length local_group < word =
      omega (arith, first.1, size, size', one, small) in
    let second =
      push_group-counts local_group (push_group global_group [] (as_number tracing)).0
        (push_group global_group [] (as_number tracing)).1 fits in
    record {
      others = second.0 ∙ ap (λ libs. libs ++ m) first.0;
      starts = refl;
      counted = omega (arith, second.1, first.1, sysv_count-append g m);
    }

-- The library of the last call, if it is not null.
abbrev pub last_lib : Option LookupLib → List (Option Searched) → Option LookupLib
last_lib lib [] = lib
last_lib lib (next ∷ calls) = last_lib (lib_of next) calls

set_all-symbolic :
    (calls : List (Option Searched)) (l : LookupList)
    → (set_all calls l).symbolic ≡ last_lib l.symbolic calls
unfolding set_dt_symbolic_lib
set_all-symbolic [] l = refl
set_all-symbolic (lib ∷ calls) l = set_all-symbolic calls (set_dt_symbolic_lib lib l)

abbrev pub as_list : Option LookupLib → List LookupLib
as_list none = []
as_list (some lib) = lib ∷ []

searched_valid :
    (tracing : Bool) (libs : List LookupLib) (l : LookupList) (symbolic : Option LookupLib)
    → l.symbolic ≡ symbolic
    → IsValid tracing libs l
    → (searched l ≡ as_list symbolic ++ libs)
      × (l.slow_path_count ≡ as_number tracing + sysv_count (searched l))
unfolding searched
searched_valid tracing libs l none e v =
    let all : searched l ≡ libs = ground (arith, e, v.others, v.starts) in
    (all, ground (arith, e, v.counted, ap sysv_count all))
searched_valid tracing libs l (some lib) e v =
    let all : searched l ≡ lib ∷ libs = ground (arith, e, v.others, v.starts) in
    (all, ground (arith, e, v.counted, ap sysv_count all))

-- However often `set_dt_symbolic_lib` is called on a list made of a global and a local group, the
-- libraries searched are the one of the last call, if that was not null, then those of the global
-- and of the local group, in order; and `slow_path_count_` is the number of those libraries that
-- have no GNU table, and one more if lookups are traced. There are fewer than 2^64 libraries.
pub set_all-searched :
    (tracing : Bool) (global_group local_group : List Searched) (calls : List (Option Searched))
    → length global_group + length local_group + 2 < word
    → let l = set_all calls (from_groups tracing global_group local_group) in
      (searched l
        ≡ as_list (last_lib none calls)
          ++ (map get_lookup_lib global_group ++ map get_lookup_lib local_group))
      × (l.slow_path_count ≡ as_number tracing + sysv_count (searched l))
unfolding from_groups
set_all-searched tracing global_group local_group calls small =
    let first = from_groups tracing global_group local_group in
    let libs = map get_lookup_lib global_group ++ map get_lookup_lib local_group in
    let fits : length libs + 2 < word = omega (
      arith,
      small,
      length-append {0} (map get_lookup_lib global_group) (map get_lookup_lib local_group),
      length-map get_lookup_lib global_group,
      length-map get_lookup_lib local_group,
    ) in
    searched_valid tracing libs (set_all calls first) (last_lib none calls)
      (set_all-symbolic calls first)
      (set_all-IsValid tracing libs calls first fits
        (from_groups-IsValid tracing global_group local_group small))
