-- ===== src/Symbol/Version.antt =====
-- `VersionTracker` and `lookup_version_info` of linker_soinfo.cpp: the versions that a library's
-- symbols name, in a vector by version index.
use fake_linker.Prelude.{
  ℕ, zero, suc, ◌+◌, bit_and, ◌≡◌, refl, sym, Bool, true, false, not, ◌&&◌, Option, none, some,
  List, [], ◌∷◌, arith, ltb, leb, ◌==◌, if◌then◌else◌, Bytes,
}
use fake_linker.Symbol.{Tables, get_string}

-- An entry of the vector; `none` is an entry as `resize` makes it, with a null name.
pub record Version : Type 0 where
  pub elf_hash : ℕ
  pub name : Bytes
  pub target_si : ℕ

abbrev pub Versions : Type 0
Versions = List (Option Version)

-- Resizes the vector if the index lies behind its end, and writes the entry.
unfoldable pub add_version_info : ℕ → Version → Versions → Versions
add_version_info zero v [] = some v ∷ []
add_version_info zero v (e ∷ versions) = some v ∷ versions
add_version_info (suc index) v [] = none ∷ add_version_info index v []
add_version_info (suc index) v (e ∷ versions) = e ∷ add_version_info index v versions

abbrev pub entry_at : ℕ → Versions → Option Version
entry_at index [] = none
entry_at zero (e ∷ versions) = e
entry_at (suc index) (e ∷ versions) = entry_at index versions

unfoldable pub get_version_info : ℕ → Versions → Option Version
get_version_info source_symver versions =
    if ltb source_symver 2 then none else entry_at source_symver versions

-- The loop of `for_each_verdef` with the action of `init_verdef`, for the soinfo at an address;
-- the second component is false where a verdef ends it, and `none` is the end of the process.
unfoldable pub init_verdef_loop : Tables → ℕ → ℕ → ℕ → Versions → Option (Versions × Bool)
unfolding add_version_info get_string
init_verdef_loop t si zero offset versions = some (versions, true)
init_verdef_loop t si (suc left) offset versions =
    let d = t.verdef_at offset in
    let skipped = init_verdef_loop t si left (offset + d.vd_next) versions in
    if not (d.vd_version == 1)
    then some (versions, false)
    else if not (bit_and d.vd_flags 1 == 0)
    then skipped
    else if d.vd_cnt == 0
    then some (versions, false)
    else elim (get_string t d.vda_name) [
      | none ↦ none
      | some name ↦ init_verdef_loop t si left (offset + d.vd_next) (
          add_version_info d.vd_ndx (record { elf_hash = d.vd_hash; name = name; target_si = si })
            versions)
    ]

unfoldable pub init_verdef : Tables → ℕ → Versions → Option (Versions × Bool)
unfolding init_verdef_loop
init_verdef t si versions =
    if t.has_verdef then init_verdef_loop t si t.verdef_cnt 0 versions else some (versions, true)

-- `lookup_version_info`: the outer `none` is the answer false, the inner one a null version. The
-- versions 0 and 1 are VER_NDX_LOCAL and VER_NDX_GLOBAL.
unfoldable pub lookup_version_info : Tables → Versions → ℕ → Option (Option Version)
unfolding get_version_info
lookup_version_info t versions sym =
    let sym_ver = elim t.versym as (λ _. ℕ) [ none ↦ 0 | some table ↦ table sym ] in
    if not (sym_ver == 0) && not (sym_ver == 1)
    then elim (get_version_info sym_ver versions) [ none ↦ none | some v ↦ some (some v) ]
    else some none

entry_at-add :
    (i j : ℕ) (v : Version) (versions : Versions)
    → entry_at j (add_version_info i v versions) ≡ (if i == j then some v else entry_at j versions)
unfolding add_version_info
entry_at-add zero zero v [] = refl
entry_at-add zero (suc j) v [] = ground arith
entry_at-add zero zero v (e ∷ versions) = refl
entry_at-add zero (suc j) v (e ∷ versions) = ground arith
entry_at-add (suc i) zero v [] = ground arith
entry_at-add (suc i) (suc j) v [] = ground (arith, entry_at-add i j v [])
entry_at-add (suc i) zero v (e ∷ versions) = ground arith
entry_at-add (suc i) (suc j) v (e ∷ versions) = ground (arith, entry_at-add i j v versions)

-- A version that was added is found under its index, from index 2 on, and the versions under all
-- other indices stay as they were.
pub get_version_info-add :
    (i j : ℕ) (v : Version) (versions : Versions)
    → get_version_info j (add_version_info i v versions)
      ≡ (if (i == j) && leb 2 j then some v else get_version_info j versions)
unfolding get_version_info
get_version_info-add i j v versions = ground (arith, entry_at-add i j v versions)
