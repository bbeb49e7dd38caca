-- ===== src/Globals/Group.antt =====
-- What the local group of a soinfo holds.
use mathlib.Core.Path.{subst}
use fake_linker.Prelude.{
  ℕ, zero, suc, ◌≡◌, Bool, true, Option, some, List, [], ◌∷◌, arith, leb, if◌then◌else◌, if-cases,
  All, All-snoc,
}
use fake_linker.Namespace.{Soinfo, api_n, is_accessible_soinfo, push_back}
use fake_linker.Globals.{contains, push_all, walk_dependencies_tree, get_soinfo_local_group}
use fake_linker.Globals.Walk.{All-push_all}

-- A soinfo is the root, or a child of an accessible soinfo that the root reaches.
pub data Reaches (children : ℕ → List ℕ) (is_accessible : ℕ → Bool) (root : ℕ) : ℕ → Type 0 where
  self : Reaches children is_accessible root root
  child :
      (si c : ℕ)
      → Reaches children is_accessible root si
      → is_accessible si ≡ true
      → contains c (children si) ≡ true
      → Reaches children is_accessible root c

also :
    (x : ℕ) (list cs : List ℕ)
    → All (λ (c : ℕ). contains c list ≡ true) cs
    → All (λ (c : ℕ). contains c (x ∷ list) ≡ true) cs
also x list [] all = tt
also x list (c ∷ cs) all = (ground (arith, all.0), also x list cs all.1)

contains_self : (list : List ℕ) → All (λ (c : ℕ). contains c list ≡ true) list
contains_self [] = tt
contains_self (c ∷ list) = (ground arith, also c list list (contains_self list))

module _ (children : ℕ → List ℕ) (is_accessible : ℕ → Bool) (root : ℕ) where
  abbrev Reached : ℕ → Type 0
  Reached c = Reaches children is_accessible root c

  abbrev pub InGroup : ℕ → Type 0
  InGroup si = Reaches children is_accessible root si × (is_accessible si ≡ true)

  children-Reached :
      (si : ℕ) (cs : List ℕ)
      → Reached si
      → is_accessible si ≡ true
      → All (λ (c : ℕ). contains c (children si) ≡ true) cs
      → All Reached cs
  children-Reached si [] r a all = tt
  children-Reached si (c ∷ cs) r a all = (child si c r a all.0, children-Reached si cs r a all.1)

  finished :
      (group result : List ℕ) → All InGroup group → some group ≡ some result → All InGroup result
  finished group result g e = let same : group ≡ result = ground arith in subst (All InGroup) same g

  walk_dependencies_tree-InGroup :
      (fuel : ℕ) (visit_list visited group result : List ℕ)
      → All Reached visit_list
      → All InGroup group
      → walk_dependencies_tree children is_accessible fuel visit_list visited group ≡ some result
      → All InGroup result
  unfolding walk_dependencies_tree push_back
  walk_dependencies_tree-InGroup zero visit_list visited group result r g =
      λ e. absurd (ground arith)
  walk_dependencies_tree-InGroup (suc fuel) [] visited group result r g =
      λ e. finished group result g e
  walk_dependencies_tree-InGroup (suc fuel) (si ∷ visit_list) visited group result r g =
      let Right : Option (List ℕ) → Type 0 = λ o. o ≡ some result → All InGroup result in
      if-cases Right (contains si visited)
        (λ _. walk_dependencies_tree-InGroup fuel visit_list visited group result r.1 g)
        (λ _.
          if-cases Right (is_accessible si)
            (λ good.
              walk_dependencies_tree-InGroup fuel (push_all (children si) visit_list)
                (push_back 0 si visited) (push_back 0 si group) result
                (All-push_all Reached (children si) visit_list
                  (children-Reached si (children si) r.0 good (contains_self (children si))) r.1)
                (if-cases (All InGroup) (contains si group) (λ _. g)
                  (λ _. All-snoc InGroup group si g (r.0, good))))
            (λ _.
              walk_dependencies_tree-InGroup fuel visit_list (push_back 0 si visited) group result
                r.1 g))

-- Every soinfo in the local group is accessible from the root's primary namespace, on Android N
-- and later, and is the root or a child of an accessible soinfo that the root reaches.
pub get_soinfo_local_group-InGroup :
    (api fuel root : ℕ) (children : ℕ → List ℕ) (heap : ℕ → Soinfo) (group : List ℕ)
    → get_soinfo_local_group api children heap fuel root ≡ some group
    → All
        (InGroup children
          (λ child.
            if leb api_n api
            then is_accessible_soinfo heap api (heap root).primary_namespace (heap child)
            else true)
          root)
        group
unfolding get_soinfo_local_group
get_soinfo_local_group-InGroup api fuel root children heap group e =
    walk_dependencies_tree-InGroup children _ root fuel (root ∷ []) [] [] group (self, tt) tt e
