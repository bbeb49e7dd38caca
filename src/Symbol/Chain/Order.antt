-- ===== src/Symbol/Chain/Order.antt =====
-- The order in which `soinfo_do_lookup` prefers libraries.
use fake_linker.Prelude.{
  ℕ, suc, ◌+◌, ◌≡◌, Bool, Option, none, some, List, [], ◌∷◌, ◌++◌, arith, length, All, any, Bytes,
}
use fake_linker.Symbol.{VersionInfo}
use fake_linker.Symbol.Chain.{LookupLib, search_lib, lookup_from, soinfo_do_lookup}

-- The libraries do not hold the symbol.
abbrev pub AreWithout : ℕ → Bool → ℕ → Bytes → Option VersionInfo → List LookupLib → Type 0
AreWithout api is_general fuel name vi libs =
    All (λ (lib : LookupLib). search_lib api is_general lib fuel name vi ≡ some none) libs

abbrev pub is_slow : List LookupLib → Bool
is_slow libs = any (λ (l : LookupLib). l.needs_sysv_lookup) libs

lookup_from-first :
    (api : ℕ) (is_general : Bool) (fuel : ℕ) (name : Bytes) (vi : Option VersionInfo) (place n : ℕ)
    (before after : List LookupLib) (lib : LookupLib)
    → AreWithout api is_general fuel name vi before
    → search_lib api is_general lib fuel name vi ≡ some (some n)
    → lookup_from api is_general fuel name vi place (before ++ lib ∷ after)
      ≡ some (some (place + length before, n))
unfolding lookup_from
lookup_from-first api is_general fuel name vi place n [] after lib without e = ground (arith, e)
lookup_from-first api is_general fuel name vi place n (l ∷ before) after lib without e = ground (
  arith,
  without.0,
  lookup_from-first api is_general fuel name vi (suc place) n before after lib without.1 e,
)

-- `soinfo_do_lookup` answers with the first library of the list that holds the symbol: if a
-- library's search finds it, and the searches of all libraries before it end without it, the
-- answer is that library and its symbol, whatever stands behind it.
pub soinfo_do_lookup-first :
    (api fuel : ℕ) (name : Bytes) (vi : Option VersionInfo) (n : ℕ) (before after : List LookupLib)
    (lib : LookupLib)
    → AreWithout api (is_slow (before ++ lib ∷ after)) fuel name vi before
    → search_lib api (is_slow (before ++ lib ∷ after)) lib fuel name vi ≡ some (some n)
    → soinfo_do_lookup api fuel name vi (before ++ lib ∷ after) ≡ some (some (length before, n))
unfolding soinfo_do_lookup
soinfo_do_lookup-first api fuel name vi n before after lib without e = ground (
  arith,
  lookup_from-first api (is_slow (before ++ lib ∷ after)) fuel name vi 0 n before after lib without
      e,
)
