-- ===== src/Namespace/Files.antt =====
-- Which files an isolated namespace gives access to.
use fake_linker.Prelude.{
  ℕ, ◌≡◌, refl, ap, ◌∙◌, ◌↔◌, ◌⊎◌, inl, inr, Bool, true, false, not, ◌||◌, List, [], ◌∷◌, ◌++◌,
  arith, leb, Bool-cases, is_empty, any, Bytes, text_eq,
}
use fake_linker.Maps.Line.{starts_with}
use fake_linker.Namespace.{
  Namespace, api_q, behind_prefix, is_slash, is_entry, is_below, file_is_in_dir, file_is_under_dir,
  is_accessible_file,
}

-- One of the elements of a list.
abbrev pub Among : Bytes → List Bytes → Type 0
Among x [] = ⊥
Among x (y ∷ ys) = (x ≡ y) ⊎ Among x ys

any-Among :
    (test : Bytes → Bool) (xs : List Bytes)
    → any test xs ≡ true
    → (x : Bytes) × Among x xs × (test x ≡ true)
any-Among test [] e = absurd (ground arith)
any-Among test (x ∷ xs) e = elim (Bool-cases (test x)) [
  | inl good ↦ (x, inl refl, good)
  | inr bad ↦ let (y, there, good) = any-Among test xs (ground arith) in (y, inr there, good)
]

Among-any :
    (test : Bytes → Bool) (x : Bytes) (xs : List Bytes)
    → Among x xs
    → test x ≡ true
    → any test xs ≡ true
Among-any test x [] m e = absurd m
Among-any test x (y ∷ ys) (inl p) e = ground (arith, ap test p)
Among-any test x (y ∷ ys) (inr m) e = ground (arith, Among-any test x ys m e)

starts_with-append :
    (text needle : Bytes)
    → starts_with text needle ≡ true
    → text ≡ needle ++ behind_prefix needle text
unfolding starts_with
starts_with-append text [] e = refl
starts_with-append [] (n ∷ needle) e = absurd (ground arith)
starts_with-append (c ∷ text) (n ∷ needle) e = ground (arith, starts_with-append text needle)

append-starts_with :
    (needle rest : Bytes)
    → (starts_with (needle ++ rest) needle ≡ true) × (behind_prefix needle (needle ++ rest) ≡ rest)
unfolding starts_with
append-starts_with [] rest = (refl, refl)
append-starts_with (n ∷ needle) rest =
    (ground (arith, append-starts_with needle rest), (append-starts_with needle rest).1)

-- A path below a directory.
abbrev pub IsBelow : Bytes → Bytes → Type 0
IsBelow file dir = (rest : Bytes) × (file ≡ dir ++ b'/' ∷ rest)

slash_first : (text : Bytes) → is_below text ≡ true → (rest : Bytes) × (text ≡ b'/' ∷ rest)
slash_first [] e = absurd (ground arith)
slash_first (c ∷ rest) e = (rest, ground arith)

file_is_under_dir-IsBelow :
    (file dir : Bytes) → file_is_under_dir file dir ≡ true → IsBelow file dir
unfolding file_is_under_dir
file_is_under_dir-IsBelow file dir e =
    let (rest, split) = slash_first (behind_prefix dir file) (ground arith) in
    (rest, starts_with-append file dir (ground arith) ∙ ap (λ (r : Bytes). dir ++ r) split)

is_entry-is_below : (text : Bytes) → is_entry text ≡ true → is_below text ≡ true
is_entry-is_below [] e = e
is_entry-is_below (c ∷ rest) e = ground arith

file_is_in_dir-under :
    (file dir : Bytes) → file_is_in_dir file dir ≡ true → file_is_under_dir file dir ≡ true
unfolding file_is_under_dir file_is_in_dir
file_is_in_dir-under file dir e = ground (arith, is_entry-is_below (behind_prefix dir file))

name_first :
    (text : Bytes)
    → is_entry text ≡ true
    → (name : Bytes) × (text ≡ b'/' ∷ name) × (any is_slash name ≡ false)
name_first [] e = absurd (ground arith)
name_first (c ∷ rest) e = (rest, ground arith, ground arith)

file_is_in_dir-to :
    (file dir : Bytes)
    → file_is_in_dir file dir ≡ true
    → (name : Bytes) × (file ≡ dir ++ b'/' ∷ name) × (any is_slash name ≡ false)
unfolding file_is_in_dir
file_is_in_dir-to file dir e =
    let (name, split, plain) = name_first (behind_prefix dir file) (ground arith) in
    (name, starts_with-append file dir (ground arith) ∙ ap (λ (r : Bytes). dir ++ r) split, plain)

file_is_in_dir-from :
    (file dir : Bytes)
    → ((name : Bytes) × (file ≡ dir ++ b'/' ∷ name) × (any is_slash name ≡ false))
    → file_is_in_dir file dir ≡ true
unfolding file_is_in_dir
file_is_in_dir-from file dir (name, split, plain) =
    ground (arith, append-starts_with dir (b'/' ∷ name))

-- `file_is_in_dir` answers true exactly for the paths that consist of the directory, a slash and
-- a name without a slash.
pub file_is_in_dir_iff :
    (file dir : Bytes)
    → (file_is_in_dir file dir ≡ true)
      ↔ ((name : Bytes) × (file ≡ dir ++ b'/' ∷ name) × (any is_slash name ≡ false))
file_is_in_dir_iff file dir = (file_is_in_dir-to file dir, file_is_in_dir-from file dir)

any-append :
    (test : Bytes → Bool) (xs ys : List Bytes) → any test (xs ++ ys) ≡ any test xs || any test ys
any-append test [] ys = refl
any-append test (x ∷ xs) ys = ground (arith, any-append test xs ys)

any_entry-under :
    (file : Bytes) (dirs : List Bytes)
    → any (file_is_in_dir file) dirs ≡ true
    → any (file_is_under_dir file) dirs ≡ true
any_entry-under file [] e = e
any_entry-under file (dir ∷ dirs) e =
    ground (arith, file_is_in_dir-under file dir, any_entry-under file dirs)

-- In an isolated namespace, `is_accessible` grants only files below a directory of one of its
-- three lists; from Android Q on, if there are whitelisted libraries, only files with the
-- basename of one of them.
pub is_accessible_file-IsBelow :
    (basename : Bytes → Bytes) (api : ℕ) (file : Bytes) (ns : Namespace)
    → ns.is_isolated ≡ true
    → is_accessible_file basename api file ns ≡ true
    → ((dir : Bytes) × Among dir
          (ns.ld_library_paths ++ ns.default_library_paths ++ ns.permitted_paths)
        × IsBelow file dir)
      × (not (leb api_q api)
            || is_empty ns.whitelisted_libs
            || any (λ lib. text_eq lib (basename file)) ns.whitelisted_libs
          ≡ true)
unfolding is_accessible_file
is_accessible_file-IsBelow basename api file ns isolated e =
    let allowed : not (leb api_q api)
          || is_empty ns.whitelisted_libs
          || any (λ lib. text_eq lib (basename file)) ns.whitelisted_libs
        ≡ true =
      ground arith in
    let all = ns.ld_library_paths ++ ns.default_library_paths ++ ns.permitted_paths in
    let found : any (file_is_under_dir file) all ≡ true = ground (
      arith,
      any-append (file_is_under_dir file) (ns.ld_library_paths ++ ns.default_library_paths)
          ns.permitted_paths,
      any-append (file_is_under_dir file) ns.ld_library_paths ns.default_library_paths,
      any_entry-under file ns.ld_library_paths,
      any_entry-under file ns.default_library_paths,
    ) in
    let (dir, among, under) = any-Among (file_is_under_dir file) all found in
    ((dir, among, file_is_under_dir-IsBelow file dir under), allowed)
