-- ===== src/Globals/Global.antt =====
-- The global group.
use fake_linker.Prelude.{
  ℕ, ◌≤◌, bit_and, bit_or, ◌≡◌, refl, ◌≢◌, ◌⊎◌, inl, inr, true, false, List, [], ◌∷◌, arith, leb,
  ◌==◌, All, any,
}
use fake_linker.Bits.Laws.{bit_and-bit_or_self, bit_and_cut}
use fake_linker.Namespace.{Soinfo, Namespace, api_m, df_1_global, has_min_version, find_soinfo}
use fake_linker.Namespace.Members.{remove_soinfo-add_soinfo}
use fake_linker.Globals.{
  Linker, set_dt_flags_1, add_to_spaces, remove_from_spaces, add_preload, add_soinfo_to_global,
  is_global_soinfo, contains, remove_global_soinfo, not_df_1_global, push_back, remove_if,
}

add_to_spaces-dt_flags_1 :
    (api si : ℕ) (spaces : List (ℕ × Namespace)) (s : Soinfo)
    → (add_to_spaces api si spaces s).1.dt_flags_1 ≡ s.dt_flags_1
unfolding add_to_spaces
add_to_spaces-dt_flags_1 api si [] s = refl
add_to_spaces-dt_flags_1 api si ((np, ns) ∷ spaces) s = ground (
  arith,
  add_to_spaces-dt_flags_1 api si spaces s,
  add_to_spaces-dt_flags_1 api si spaces
      (record s { secondary_namespaces = push_back api np s.secondary_namespaces }),
)

contains-add_preload :
    (si : ℕ) (preloads : List ℕ)
    → any (λ p. p == 0) preloads ≡ true
    → contains si (add_preload si preloads) ≡ true
unfolding add_preload
contains-add_preload si [] e = absurd (ground arith)
contains-add_preload si (p ∷ ps) e = ground (arith, contains-add_preload si ps)

set_dt_flags_1-new :
    (api flag : ℕ) (s : Soinfo)
    → leb api_m api ≡ true
    → (set_dt_flags_1 api flag s).dt_flags_1 ≡ flag
unfolding set_dt_flags_1 has_min_version
set_dt_flags_1-new api flag s e = ground arith

-- After `AddSoinfoToGlobal` a soinfo is global: on every version from Android M on, and on an
-- older one if there is a free place among the preloads.
pub is_global_soinfo-add :
    (api si : ℕ) (w : Linker)
    → si ≢ 0
    → (api_m ≤ api) ⊎ (any (λ p. p == 0) w.preloads ≡ true)
    → is_global_soinfo api si (add_soinfo_to_global api si w) ≡ true
unfolding is_global_soinfo add_soinfo_to_global
is_global_soinfo-add api si w n free =
    let flag = bit_or w.target.dt_flags_1 df_1_global in
    ground (
      arith,
      bit_and-bit_or_self w.target.dt_flags_1 df_1_global,
      set_dt_flags_1-new api flag w.target,
      add_to_spaces-dt_flags_1 api si w.spaces (set_dt_flags_1 api flag w.target),
      contains-add_preload si w.preloads,
    )

-- A namespace is the primary one of the soinfo, or does not hold it.
abbrev pub IsPrimaryOrWithout : ℕ → Soinfo → ℕ × Namespace → Type 0
IsPrimaryOrWithout si s e = (s.primary_namespace ≡ e.0) ⊎ (find_soinfo si e.1 ≡ false)

-- Removing a soinfo from the namespaces, other than its primary one, to which it was added gives
-- back the namespaces, if none of them but the primary one held it before.
pub remove_from_spaces-add_to_spaces :
    (api si : ℕ) (spaces : List (ℕ × Namespace)) (s s' : Soinfo)
    → All (IsPrimaryOrWithout si s) spaces
    → s'.primary_namespace ≡ s.primary_namespace
    → (remove_from_spaces si (add_to_spaces api si spaces s).0 s').0 ≡ spaces
unfolding remove_from_spaces add_to_spaces
remove_from_spaces-add_to_spaces api si [] s s' absent same = refl
remove_from_spaces-add_to_spaces api si ((np, ns) ∷ spaces) s s' absent same =
    let kept = remove_from_spaces-add_to_spaces api si spaces s s' absent.1 same in
    let changed =
      remove_from_spaces-add_to_spaces api si spaces
        (record s { secondary_namespaces = push_back api np s.secondary_namespaces })
        (record s' { secondary_namespaces = remove_if (λ e. np == e) s'.secondary_namespaces })
        absent.1 same in
    elim absent.0 [
      | inl primary ↦ ground (arith, primary, same, kept)
      | inr without ↦
          ground (arith, same, remove_soinfo-add_soinfo api si ns without, kept, changed)
    ]

remove_from_spaces-dt_flags_1 :
    (si : ℕ) (spaces : List (ℕ × Namespace)) (s : Soinfo)
    → (remove_from_spaces si spaces s).1.dt_flags_1 ≡ s.dt_flags_1
unfolding remove_from_spaces
remove_from_spaces-dt_flags_1 si [] s = refl
remove_from_spaces-dt_flags_1 si ((np, ns) ∷ spaces) s = ground (
  arith,
  remove_from_spaces-dt_flags_1 si spaces s,
  remove_from_spaces-dt_flags_1 si spaces
      (record s { secondary_namespaces = remove_if (λ e. np == e) s.secondary_namespaces }),
)

-- After `RemoveGlobalSoinfo` a soinfo is not global, on Android M and later.
pub is_global_soinfo-remove :
    (api si : ℕ) (w : Linker)
    → api_m ≤ api
    → is_global_soinfo api si (remove_global_soinfo api si w).0 ≡ false
unfolding is_global_soinfo remove_global_soinfo
is_global_soinfo-remove api si w m =
    let flag = bit_and w.target.dt_flags_1 not_df_1_global in
    ground (
      arith,
      bit_and_cut w.target.dt_flags_1 not_df_1_global df_1_global refl,
      set_dt_flags_1-new api flag w.target,
      remove_from_spaces-dt_flags_1 si w.spaces (set_dt_flags_1 api flag w.target),
    )
