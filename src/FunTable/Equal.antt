-- ===== src/FunTable/Equal.antt =====
-- Slots and structures that compare equal are equal.
use fake_linker.Prelude.{
  ◌≡◌, refl, sym, ap, ◌∙◌, true, false, some, List, [], ◌∷◌, arith, ==→eq, and_both,
}
use fake_linker.FunTable.Name.{Name, same_name}
use fake_linker.FunTable.Name.Same.{nth, some-injective, same_name→eq}
use fake_linker.FunTable.Statement.{
  Layout, Entry, plain, versioned, Suffix, suffix_l, suffix_p, suffix_t, same_suffix, same_entry,
  layout_index, same_layout, soinfo_l, soinfo_l1, soinfo_m, soinfo_n, soinfo_n1, soinfo_o, soinfo_p,
  soinfo_q, soinfo_s, soinfo_t, soinfo_u, soinfo_v,
}

ne : false ≡ true → ⊥
ne e = ground arith

same_suffix→eq : (a b : Suffix) → same_suffix a b ≡ true → a ≡ b
unfolding same_suffix
same_suffix→eq suffix_l suffix_l e = refl
same_suffix→eq suffix_p suffix_p e = refl
same_suffix→eq suffix_t suffix_t e = refl
same_suffix→eq a b e = absurd (ne e)

versioned-eq : {a b : Name} {s t : Suffix} → a ≡ b → s ≡ t → versioned a s ≡ versioned b t
versioned-eq p q = cc

pub same_entry→eq : (x y : Entry) → same_entry x y ≡ true → x ≡ y
unfolding same_entry
same_entry→eq (plain a) (plain b) e = ap plain (same_name→eq a b e)
same_entry→eq (versioned a s) (versioned b t) e =
    let h = and_both (same_name a b) (same_suffix s t) e in
    versioned-eq (same_name→eq a b h.0) (same_suffix→eq s t h.1)
same_entry→eq (plain a) (versioned b t) e = absurd (ne e)
same_entry→eq (versioned a s) (plain b) e = absurd (ne e)

unfoldable layouts : List Layout
layouts =
    soinfo_l ∷ soinfo_l1 ∷ soinfo_m ∷ soinfo_n ∷ soinfo_n1 ∷ soinfo_o ∷ soinfo_p ∷ soinfo_q
    ∷ soinfo_s ∷ soinfo_t ∷ soinfo_u ∷ soinfo_v ∷ []

nth-layout_index : (a : Layout) → nth layouts (layout_index a) ≡ some a
unfolding nth layouts layout_index
nth-layout_index soinfo_l = refl
nth-layout_index soinfo_l1 = refl
nth-layout_index soinfo_m = refl
nth-layout_index soinfo_n = refl
nth-layout_index soinfo_n1 = refl
nth-layout_index soinfo_o = refl
nth-layout_index soinfo_p = refl
nth-layout_index soinfo_q = refl
nth-layout_index soinfo_s = refl
nth-layout_index soinfo_t = refl
nth-layout_index soinfo_u = refl
nth-layout_index soinfo_v = refl

pub same_layout→eq : (a b : Layout) → same_layout a b ≡ true → a ≡ b
unfolding same_layout
same_layout→eq a b e = some-injective a b (
    sym (nth-layout_index a)
    ∙ ap (nth layouts) (==→eq (layout_index a) (layout_index b) e)
    ∙ nth-layout_index b)
