-- ===== src/Namespace/Members.antt =====
-- The list of soinfos of a namespace.
use mathlib.Core.Path.{subst}
use fake_linker.Prelude.{
  ℕ, ◌≡◌, refl, sym, ap, ◌∙◌, inl, inr, true, false, ◌||◌, List, [], ◌∷◌, ◌++◌, arith, ◌==◌,
  Bool-cases, any,
}
use fake_linker.Namespace.{Namespace, push_back, remove_if, find_soinfo, add_soinfo, remove_soinfo}

-- No element stands twice.
abbrev pub AreDistinct : List ℕ → Type 0
AreDistinct [] = Unit
AreDistinct (e ∷ es) = (any (λ o. o == e) es ≡ false) × AreDistinct es

pub any-snoc :
    (si : ℕ) (e : ℕ) (es : List ℕ)
    → any (λ o. o == e) (es ++ si ∷ []) ≡ any (λ o. o == e) es || si == e
any-snoc si e [] = ground arith
any-snoc si e (x ∷ es) = ground (arith, any-snoc si e es)

AreDistinct-snoc :
    (si : ℕ) (es : List ℕ)
    → AreDistinct es
    → any (λ o. o == si) es ≡ false
    → AreDistinct (es ++ si ∷ [])
AreDistinct-snoc si [] d n = (refl, tt)
AreDistinct-snoc si (e ∷ es) d n =
    let apart : any (λ o. o == e) (es ++ si ∷ []) ≡ false = ground (arith, any-snoc si e es, d.0) in
    (apart, AreDistinct-snoc si es d.1 (ground arith))

add_soinfo-absent :
    (api si : ℕ) (ns : Namespace)
    → find_soinfo si ns ≡ false
    → add_soinfo api si ns ≡ record ns { soinfo_list = ns.soinfo_list ++ si ∷ [] }
unfolding add_soinfo find_soinfo push_back
add_soinfo-absent api si ns n = ground arith

add_soinfo-present :
    (api si : ℕ) (ns : Namespace) → find_soinfo si ns ≡ true → add_soinfo api si ns ≡ ns
unfolding add_soinfo
add_soinfo-present api si ns y = ground arith

abbrev pub Holds : ℕ → Namespace → Type 0
Holds si ns = AreDistinct ns.soinfo_list × (find_soinfo si ns ≡ true)

-- `add_soinfo` puts a soinfo into the list, on every version of Android, and keeps a list without
-- duplicates free of them.
pub add_soinfo-AreDistinct :
    (api si : ℕ) (ns : Namespace)
    → AreDistinct ns.soinfo_list
    → AreDistinct (add_soinfo api si ns).soinfo_list
      × (find_soinfo si (add_soinfo api si ns) ≡ true)
unfolding find_soinfo
add_soinfo-AreDistinct api si ns d = elim (Bool-cases (find_soinfo si ns)) [
  | inl present ↦ subst (Holds si) (sym (add_soinfo-present api si ns present)) (d, present)
  | inr absent ↦
      subst (Holds si) (sym (add_soinfo-absent api si ns absent))
        (AreDistinct-snoc si ns.soinfo_list d absent, ground (arith, any-snoc si si ns.soinfo_list))
]

remove_if-absent :
    (si : ℕ) (es : List ℕ)
    → any (λ o. o == si) es ≡ false
    → remove_if (λ c. si == c) (es ++ si ∷ []) ≡ es
unfolding remove_if
remove_if-absent si [] n = ground arith
remove_if-absent si (e ∷ es) n = ground (arith, remove_if-absent si es)

-- `remove_soinfo` takes back what `add_soinfo` did, on a namespace without the soinfo.
pub remove_soinfo-add_soinfo :
    (api si : ℕ) (ns : Namespace)
    → find_soinfo si ns ≡ false
    → remove_soinfo si (add_soinfo api si ns) ≡ ns
unfolding remove_soinfo find_soinfo
remove_soinfo-add_soinfo api si ns n =
    ap (remove_soinfo si) (add_soinfo-absent api si ns n)
    ∙ ap (λ l. record ns { soinfo_list = l }) (remove_if-absent si ns.soinfo_list n)
