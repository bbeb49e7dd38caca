-- ===== src/Globals/Walk.antt =====
-- The walk over the dependencies ends, and what its local group holds.
use fake_linker.Prelude.{
  ℕ, zero, suc, ◌+◌, ◌*◌, ◌≤◌, ◌<◌, ◌≡◌, ◌≢◌, inl, inr, Bool, true, false, not, ◌||◌, Option, none,
  List, [], ◌∷◌, arith, ◌==◌, ==→eq, Bool-cases, if-cases, length, length-append, All, select,
  All-snoc,
}
use mathlib.Core.Path.{subst}
use native.Mathlib.Nat.{mul-le-mul_right, suc-mul}
use fake_linker.Namespace.{push_back}
use fake_linker.Namespace.Members.{any-snoc}
use fake_linker.Namespace.{Soinfo}
use fake_linker.Globals.{contains, push_all, walk_dependencies_tree, get_soinfo_local_group}

-- How many elements of a list are not visited yet.
abbrev pub unvisited : List ℕ → List ℕ → ℕ
unvisited universe visited = length (select (λ e. not (contains e visited)) universe)

length-push_back : (si : ℕ) (list : List ℕ) → length (push_back 0 si list) ≤ suc (length list)
unfolding push_back
length-push_back si list = ground (arith, length-append list (si ∷ []))

length-push_all : (cs list : List ℕ) → length (push_all cs list) ≤ length list + length cs
unfolding push_all
length-push_all [] list = omega arith
length-push_all (c ∷ cs) list =
    omega (arith, length-push_all cs (push_back 0 c list), length-push_back c list)

contains-push_back :
    (e si : ℕ) (visited : List ℕ)
    → contains e (push_back 0 si visited) ≡ contains e visited || si == e
unfolding push_back
contains-push_back e si visited = ground (arith, any-snoc si e visited)

unvisited-le :
    (universe visited : List ℕ) (si : ℕ)
    → unvisited universe (push_back 0 si visited) ≤ unvisited universe visited
unvisited-le [] visited si = omega arith
unvisited-le (e ∷ universe) visited si =
    ground (arith, contains-push_back e si visited, unvisited-le universe visited si)

unvisited-less :
    (universe visited : List ℕ) (si : ℕ)
    → contains si universe ≡ true
    → contains si visited ≡ false
    → unvisited universe (push_back 0 si visited) < unvisited universe visited
unvisited-less [] visited si u n = absurd (ground arith)
unvisited-less (e ∷ universe) visited si u n = ground (
  arith,
  contains-push_back e si visited,
  unvisited-le universe visited si,
  unvisited-less universe visited si,
)

pub All-push_all :
    (P : ℕ → Type 0) (cs list : List ℕ) → All P cs → All P list → All P (push_all cs list)
unfolding push_all push_back
All-push_all P [] list new old = old
All-push_all P (c ∷ cs) list new old =
    All-push_all P cs (push_back 0 c list) new.1
      (if-cases (All P) (contains c list) (λ _. old) (λ _. All-snoc P list c old new.0))

at_contained :
    (P : ℕ → Type 0) (si : ℕ) (list : List ℕ) → All P list → contains si list ≡ true → P si
at_contained P si [] all e = absurd (ground arith)
at_contained P si (x ∷ list) all e = elim (Bool-cases (x == si)) [
  | inl same ↦ subst P (==→eq x si same) all.0
  | inr other ↦ at_contained P si list all.1 (ground arith)
]

less-mul : (a b d : ℕ) → a < b → a * suc d + suc d ≤ b * suc d
less-mul a b d h = omega (arith, mul-le-mul_right (suc d) h, suc-mul a (suc d))

-- The children of every soinfo of the universe are in it, and at most `degree` many.
abbrev pub IsClosed : (ℕ → List ℕ) → ℕ → List ℕ → Type 0
IsClosed children degree universe =
    All
      (λ (si : ℕ).
        All (λ (c : ℕ). contains c universe ≡ true) (children si) × (length (children si) ≤ degree))
      universe

module _ (children : ℕ → List ℕ) (is_accessible : ℕ → Bool) (degree : ℕ) where
  walk_dependencies_tree-ne-none :
      (universe : List ℕ) (fuel : ℕ) (visit_list visited group : List ℕ)
      → IsClosed children degree universe
      → All (λ (si : ℕ). contains si universe ≡ true) visit_list
      → unvisited universe visited * suc degree + length visit_list < fuel
      → walk_dependencies_tree children is_accessible fuel visit_list visited group ≢ none
  unfolding walk_dependencies_tree
  walk_dependencies_tree-ne-none universe zero visit_list visited group closed within enough =
      absurd (omega arith)
  walk_dependencies_tree-ne-none universe (suc fuel) [] visited group closed within enough = cc
  walk_dependencies_tree-ne-none universe (suc fuel) (si ∷ visit_list) visited group closed within
        enough =
      let (inside, few) = at_contained _ si universe closed within.0 in
      let visited' = push_back 0 si visited in
      let next = push_all (children si) visit_list in
      let more : length next ≤ length visit_list + degree =
        omega (arith, length-push_all (children si) visit_list) in
      let Ends : Option (List ℕ) → Type 0 = λ o. o ≢ none in
      if-cases Ends (contains si visited)
        (λ _.
          walk_dependencies_tree-ne-none universe fuel visit_list visited group closed within.1
            (omega arith))
        (λ new.
          let less = unvisited-less universe visited si within.0 new in
          let room =
            less-mul (unvisited universe visited') (unvisited universe visited) degree less in
          if-cases Ends (is_accessible si)
            (λ _.
              walk_dependencies_tree-ne-none universe fuel next visited' (push_back 0 si group)
                closed (All-push_all _ (children si) visit_list inside within.1)
                (omega (arith, room, more)))
            (λ _.
              walk_dependencies_tree-ne-none universe fuel visit_list visited' group closed within.1
                (omega (arith, room))))

length-select : (test : ℕ → Bool) (list : List ℕ) → length (select test list) ≤ length list
length-select test [] = omega arith
length-select test (e ∷ list) = ground (arith, length-select test list)

-- The walk of `GetSoinfoLocalGroup` ends, also where the dependencies have cycles: on a universe
-- that holds the root and the children of its soinfos, at most `degree` for each, fuel above the
-- product of its size and `degree + 1`, plus one, does not run out.
pub get_soinfo_local_group-ne-none :
    (api degree fuel root : ℕ) (children : ℕ → List ℕ) (heap : ℕ → Soinfo) (universe : List ℕ)
    → IsClosed children degree universe
    → contains root universe ≡ true
    → length universe * suc degree + 1 < fuel
    → get_soinfo_local_group api children heap fuel root ≢ none
unfolding get_soinfo_local_group
get_soinfo_local_group-ne-none api degree fuel root children heap universe closed inside enough =
    let most : unvisited universe [] ≤ length universe =
      length-select (λ e. not (contains e [])) universe in
    let room : unvisited universe [] * suc degree ≤ length universe * suc degree =
      mul-le-mul_right (suc degree) most in
    walk_dependencies_tree-ne-none children _ degree universe fuel (root ∷ []) [] [] closed
      (inside, tt) (omega (arith, room))
