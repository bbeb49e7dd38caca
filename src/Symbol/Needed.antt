-- ===== src/Symbol/Needed.antt =====
-- The versions that a library needs of its dependencies: `VersionTracker::init` of
-- linker_soinfo.cpp (library/src/main/cpp/linker/), and the flags and children of a soinfo there.
use fake_linker.Prelude.{
  ℕ, zero, suc, ◌+◌, bit_and, bit_or, Bool, true, false, not, Option, none, some, List, [], ◌∷◌,
  ◌==◌, if◌then◌else◌, Bytes, text_eq,
}
use fake_linker.Symbol.{Tables}
use fake_linker.Symbol.Version.{Versions, add_version_info, init_verdef}

-- A verneed and a vernaux, with their strings.
pub record Verneed : Type 0 where
  pub vn_version : ℕ
  pub vn_cnt : ℕ
  pub vn_file : Bytes
  pub vn_aux : ℕ
  pub vn_next : ℕ

pub record Vernaux : Type 0 where
  pub vna_hash : ℕ
  pub vna_name : Bytes
  pub vna_other : ℕ
  pub vna_next : ℕ

-- The table at an offset, and the children of the library with their sonames.
pub record Needs : Type 0 where
  pub has_verneed : Bool
  pub verneed_cnt : ℕ
  pub verneed_at : ℕ → Verneed
  pub vernaux_at : ℕ → Vernaux
  pub children : List (ℕ × Bytes)

-- The first child with a soname.
unfoldable pub find_child : Bytes → List (ℕ × Bytes) → Option ℕ
find_child target_soname [] = none
find_child target_soname ((si, soname) ∷ children) =
    let rest = find_child target_soname children in
    if text_eq soname target_soname then some si else rest

-- The loop over the vernauxes of one verneed.
unfoldable pub vernaux_loop : Needs → ℕ → ℕ → ℕ → Versions → Versions
vernaux_loop n target_si zero offset versions = versions
vernaux_loop n target_si (suc left) offset versions =
    let a = n.vernaux_at offset in
    vernaux_loop n target_si left (offset + a.vna_next) (
      add_version_info a.vna_other
        (record { elf_hash = a.vna_hash; name = a.vna_name; target_si = target_si }) versions)

-- The loop over the verneeds; the second component is false where one ends it.
unfoldable pub init_verneed_loop : Needs → ℕ → ℕ → Versions → Versions × Bool
unfolding find_child vernaux_loop
init_verneed_loop n zero offset versions = (versions, true)
init_verneed_loop n (suc left) offset versions =
    let v = n.verneed_at offset in
    if not (v.vn_version == 1) then (versions, false) else elim (find_child v.vn_file n.children) [
      | none ↦ (versions, false)
      | some target_si ↦
          init_verneed_loop n left (offset + v.vn_next)
            (vernaux_loop n target_si v.vn_cnt (offset + v.vn_aux) versions)
    ]

unfoldable pub init_verneed : Needs → Versions → Versions × Bool
unfolding init_verneed_loop
init_verneed n versions =
    if n.has_verneed then init_verneed_loop n n.verneed_cnt 0 versions else (versions, true)

-- `VersionTracker::init` for the soinfo at an address, which may have no version tables.
unfoldable pub init : Bool → Needs → Tables → ℕ → Versions → Option (Versions × Bool)
unfolding init_verneed
init has_min_version n t si versions =
    let (needed, ok) = init_verneed n versions in
    if not has_min_version
    then some (versions, true)
    else if not ok
    then some (needed, false)
    else init_verdef t si needed

abbrev pub flag_linked : ℕ
flag_linked = 1

abbrev pub flag_image_linked : ℕ
flag_image_linked = 0x100

unfoldable pub is_linked : ℕ → Bool
is_linked flags = not (bit_and flags flag_linked == 0)

unfoldable pub set_linked : ℕ → ℕ
set_linked flags = bit_or (bit_or flags flag_linked) flag_image_linked

-- The logical negation of the two flags is 0.
unfoldable pub set_unlinked : ℕ → ℕ
set_unlinked flags = bit_and flags 0
