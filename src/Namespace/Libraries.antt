-- ===== src/Namespace/Libraries.antt =====
-- Which loaded libraries a namespace gives access to, and its groups of libraries.
use mathlib.Core.List.{append_assoc, append-nil}
use fake_linker.Prelude.{
  ℕ, bit_and, ◌≡◌, refl, sym, inl, inr, Bool, false, not, ◌&&◌, ◌||◌, List, [], ◌∷◌, ◌++◌, arith,
  ◌==◌, Bool-cases, All, select, any,
}
use fake_linker.Namespace.{
  Soinfo, Namespace, has_min_version, is_accessible_ftor, visit, is_accessible_soinfo, group_by,
  push_back, get_global_group, df_1_global,
}
use fake_linker.Namespace.Members.{any-snoc, AreDistinct}

visit-any : (test : ℕ → Bool) (es : List ℕ) → not (visit (λ e. not (test e)) es) ≡ any test es
visit-any test [] = refl
visit-any test (e ∷ es) = ground (arith, visit-any test es)

-- A namespace gives access to a library exactly if the library's format is new enough and it
-- belongs to the namespace, primarily or secondarily, or a parent of the library has a new format
-- and belongs to it primarily.
pub is_accessible_soinfo-any :
    (heap : ℕ → Soinfo) (api self : ℕ) (s : Soinfo)
    → is_accessible_soinfo heap api self s
      ≡ has_min_version api s 3
          && (s.primary_namespace == self || any (λ n. n == self) s.secondary_namespaces)
        || any (λ p. has_min_version api (heap p) 3 && (heap p).primary_namespace == self) s.parents
unfolding is_accessible_soinfo is_accessible_ftor
is_accessible_soinfo-any heap api self s = ground (
  arith,
  visit-any (λ p. has_min_version api (heap p) 3 && (heap p).primary_namespace == self) s.parents,
)

-- None of the elements stands in the group.
abbrev AreNew : List ℕ → List ℕ → Type 0
AreNew group sis = All (λ (e : ℕ). any (λ o. o == e) group ≡ false) sis

none_new : (sis : List ℕ) → AreNew [] sis
none_new [] = tt
none_new (si ∷ sis) = (refl, none_new sis)

AreNew-snoc :
    (si : ℕ) (sis group : List ℕ)
    → AreNew group sis
    → any (λ o. o == si) sis ≡ false
    → AreNew (group ++ si ∷ []) sis
AreNew-snoc si [] group new n = tt
AreNew-snoc si (e ∷ sis) group new n =
    let apart : any (λ o. o == e) (group ++ si ∷ []) ≡ false =
      ground (arith, any-snoc si e group, new.0) in
    (apart, AreNew-snoc si sis group new.1 (ground arith))

push_back-new :
    (si : ℕ) (group : List ℕ)
    → any (λ o. o == si) group ≡ false
    → push_back 0 si group ≡ group ++ si ∷ []
unfolding push_back
push_back-new si group n = ground arith

group_by-select :
    (test : Soinfo → Bool) (heap : ℕ → Soinfo) (sis group : List ℕ)
    → AreDistinct sis
    → AreNew group sis
    → group_by test heap sis group ≡ group ++ select (λ e. test (heap e)) sis
unfolding group_by
group_by-select test heap [] group d new = sym (append-nil group)
group_by-select test heap (si ∷ sis) group d new = elim (Bool-cases (test (heap si))) [
  | inl good ↦ ground (
    arith,
    push_back-new si group new.0,
    group_by-select test heap sis (group ++ si ∷ []) d.1 (AreNew-snoc si sis group new.1 d.0),
    append_assoc group (si ∷ []) (select (λ e. test (heap e)) sis),
  )
  | inr bad ↦ ground (arith, group_by-select test heap sis group d.1 new.1)
]

-- On a list of soinfos without duplicates, the global group is that of the soinfos with
-- `DF_1_GLOBAL`, in the order of the list.
pub get_global_group-select :
    (heap : ℕ → Soinfo) (ns : Namespace)
    → AreDistinct ns.soinfo_list
    → get_global_group heap ns
      ≡ select (λ e. not (bit_and (heap e).dt_flags_1 df_1_global == 0)) ns.soinfo_list
unfolding get_global_group
get_global_group-select heap ns d =
    group_by-select (λ (s : Soinfo). not (bit_and s.dt_flags_1 df_1_global == 0)) heap
      ns.soinfo_list [] d (none_new ns.soinfo_list)
