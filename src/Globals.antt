-- ===== src/Globals.antt =====
-- The proxy of the system linker (library/src/main/cpp/linker/linker_globals.cpp): searches in the
-- list of all soinfos, the walk over the dependencies of one, and the global group to which
-- `AddSoinfoToGlobal` adds a soinfo, with `set_dt_flags_1` of linker_soinfo.cpp.
pub mod Find
pub mod Walk
pub mod Group
pub mod Global
use fake_linker.Prelude.{
  ℕ, zero, suc, ◌+◌, ◌-◌, ◌*◌, ◌/◌, ◌%◌, ◌^◌, ◌≤◌, ◌<◌, bit_and, bit_or, bit_xor, ◌≡◌, refl, sym,
  ap, ◌∙◌, ◌≢◌, ◌↔◌, ◌⊎◌, inl, inr, Bool, true, false, not, ◌&&◌, ◌||◌, Option, none, some, List,
  [], ◌∷◌, ◌++◌, map, arith, ltb, leb, ◌==◌, if◌then◌else◌, ltb→lt, leb→le, ==→eq, ==_self, tests,
  Bool-cases, Option-cases, all_below, all_below_at, if-cases, length, is_empty, is_some,
  length-append, All, select, any, Bytes, bytes, text_eq,
}
use fake_linker.Namespace.{
  Soinfo, Namespace, api_m, api_n, df_1_global, rtld_global, has_min_version, push_back, remove_if,
  add_soinfo, remove_soinfo, is_accessible_soinfo,
}

abbrev pub df_1_nodelete : ℕ
df_1_nodelete = 8

abbrev pub rtld_nodelete : ℕ
rtld_nodelete = 0x1000

-- What a search reads of a soinfo; a null name is `none`.
pub record Loaded : Type 0 where
  pub soname : Option Bytes
  pub base : ℕ
  pub size : ℕ

abbrev pub drop : ℕ → Bytes → Bytes
drop zero text = text
drop (suc n) [] = []
drop (suc n) (c ∷ text) = drop n text

-- `text[0] == '/'`
abbrev pub begins_with_slash : Bytes → Bool
begins_with_slash [] = false
begins_with_slash (c ∷ text) = c == b'/'

-- `delta` is the length of the soname above that of the name.
unfoldable pub name_matches : Bytes → Bytes → Bool
name_matches so_name name =
    let delta = length so_name - length name in
    if length so_name == length name
    then text_eq so_name name
    else ltb (length name) (length so_name)
      && text_eq (drop delta so_name) name
      && begins_with_slash (drop (delta - 1) so_name)

abbrev pub soname_matches : Bytes → Option Bytes → Bool
soname_matches name none = false
soname_matches name (some so_name) = name_matches so_name name

-- The list of soinfos, by their addresses; `none` is a null pointer.
unfoldable pub find_soinfo_by_name : (ℕ → Loaded) → Bytes → List ℕ → Option ℕ
unfolding name_matches
find_soinfo_by_name heap name [] = none
find_soinfo_by_name heap name (si ∷ sis) =
    let rest = find_soinfo_by_name heap name sis in
    if soname_matches name (heap si).soname then some si else rest

unfoldable pub find_containing_library : (ℕ → Loaded) → ℕ → List ℕ → Option ℕ
find_containing_library heap address [] = none
find_containing_library heap address (si ∷ sis) =
    let rest = find_containing_library heap address sis in
    if leb (heap si).base address && ltb (address - (heap si).base) (heap si).size
    then some si
    else rest

-- `for_each` with `push_back` on a list of the older kind, which skips what it holds.
unfoldable pub push_all : List ℕ → List ℕ → List ℕ
unfolding push_back
push_all [] list = list
push_all (c ∷ cs) list = push_all cs (push_back 0 c list)

abbrev pub contains : ℕ → List ℕ → Bool
contains si list = any (λ e. e == si) list

-- `walk_dependencies_tree` with the action of `GetSoinfoLocalGroup`, on fuel: the soinfos to
-- visit, those visited, and the local group.
unfoldable pub walk_dependencies_tree :
    (ℕ → List ℕ) → (ℕ → Bool) → ℕ → List ℕ → List ℕ → List ℕ → Option (List ℕ)
unfolding push_all push_back
walk_dependencies_tree children is_accessible zero visit_list visited group = none
walk_dependencies_tree children is_accessible (suc fuel) [] visited group = some group
walk_dependencies_tree children is_accessible (suc fuel) (si ∷ visit_list) visited group =
    let again = walk_dependencies_tree children is_accessible fuel visit_list visited group in
    let into =
      walk_dependencies_tree children is_accessible fuel (push_all (children si) visit_list)
        (push_back 0 si visited) (push_back 0 si group) in
    let past =
      walk_dependencies_tree children is_accessible fuel visit_list (push_back 0 si visited)
        group in
    if contains si visited then again else if is_accessible si then into else past

unfoldable pub get_soinfo_local_group : ℕ → (ℕ → List ℕ) → (ℕ → Soinfo) → ℕ → ℕ → Option (List ℕ)
unfolding walk_dependencies_tree
get_soinfo_local_group api children heap fuel root =
    let ns = (heap root).primary_namespace in
    walk_dependencies_tree children
      (λ child. if leb api_n api then is_accessible_soinfo heap api ns (heap child) else true) fuel
      (root ∷ []) [] []

-- The tests are on the flags before the call.
unfoldable pub set_dt_flags_1 : ℕ → ℕ → Soinfo → Soinfo
unfolding has_min_version
set_dt_flags_1 api flag s =
    let global =
      if leb api_n api && not (bit_and s.dt_flags_1 df_1_global == 0)
      then bit_or s.rtld_flags rtld_global
      else s.rtld_flags in
    let kept =
      if not (bit_and s.dt_flags_1 df_1_nodelete == 0)
      then bit_or global rtld_nodelete
      else global in
    if has_min_version api s 1 then record s { rtld_flags = kept; dt_flags_1 = flag } else s

-- A soinfo at an address, the namespaces with their addresses, and `g_ld_preloads`, in which 0 is
-- a null pointer.
pub record Linker : Type 0 where
  pub target : Soinfo
  pub spaces : List (ℕ × Namespace)
  pub preloads : List ℕ

-- The loop over all namespaces with the address of the soinfo.
unfoldable pub add_to_spaces : ℕ → ℕ → List (ℕ × Namespace) → Soinfo → List (ℕ × Namespace) × Soinfo
unfolding add_soinfo push_back
add_to_spaces api si [] s = ([], s)
add_to_spaces api si ((np, ns) ∷ spaces) s =
    let (kept, s') = add_to_spaces api si spaces s in
    let (added, s'') =
      add_to_spaces api si spaces
        (record s { secondary_namespaces = push_back api np s.secondary_namespaces }) in
    if not (s.primary_namespace == np)
    then ((np, add_soinfo api si ns) ∷ added, s'')
    else ((np, ns) ∷ kept, s')

unfoldable pub remove_from_spaces :
    ℕ → List (ℕ × Namespace) → Soinfo → List (ℕ × Namespace) × Soinfo
unfolding remove_soinfo remove_if
remove_from_spaces si [] s = ([], s)
remove_from_spaces si ((np, ns) ∷ spaces) s =
    let (kept, s') = remove_from_spaces si spaces s in
    let (removed, s'') =
      remove_from_spaces si spaces
        (record s { secondary_namespaces = remove_if (λ e. np == e) s.secondary_namespaces }) in
    if not (s.primary_namespace == np)
    then ((np, remove_soinfo si ns) ∷ removed, s'')
    else ((np, ns) ∷ kept, s')

-- The first null pointer among the preloads becomes the soinfo.
unfoldable pub add_preload : ℕ → List ℕ → List ℕ
add_preload si [] = []
add_preload si (p ∷ ps) = let rest = add_preload si ps in if p == 0 then si ∷ ps else p ∷ rest

unfoldable pub add_soinfo_to_global : ℕ → ℕ → Linker → Linker
unfolding set_dt_flags_1 add_to_spaces add_preload
add_soinfo_to_global api si w =
    let s = set_dt_flags_1 api (bit_or w.target.dt_flags_1 df_1_global) w.target in
    let (spaces, s') = add_to_spaces api si w.spaces s in
    if si == 0
    then w
    else if leb api_n api
    then record w { target = s'; spaces = spaces }
    else if leb api_m api
    then record w { target = s }
    else record w { preloads = add_preload si w.preloads }

unfoldable pub is_global_soinfo : ℕ → ℕ → Linker → Bool
is_global_soinfo api si w =
    if si == 0
    then false
    else if leb api_m api
    then bit_and w.target.dt_flags_1 df_1_global == df_1_global
    else contains si w.preloads

-- The loop of `RemoveGlobalSoinfo` over the preloads behind the place of the soinfo: `v` is what
-- stands at `index`, and each further soinfo is copied one place down.
unfoldable pub shift_preloads : ℕ → ℕ → List ℕ → List ℕ
shift_preloads si v [] = v ∷ []
shift_preloads si v (p ∷ ps) =
    let again = shift_preloads si 0 ps in
    let moved = shift_preloads si p ps in
    if p == 0 then v ∷ p ∷ ps else if p == si then v ∷ again else p ∷ moved

unfoldable pub remove_preload : ℕ → List ℕ → List ℕ
unfolding shift_preloads
remove_preload si [] = []
remove_preload si (p ∷ ps) =
    let rest = remove_preload si ps in
    let moved = shift_preloads si 0 ps in
    if p == 0 then p ∷ ps else if p == si then moved else p ∷ rest

-- `~DF_1_GLOBAL` on 32 bits
abbrev pub not_df_1_global : ℕ
not_df_1_global = 2 ^ 32 - 1 - df_1_global

unfoldable pub remove_global_soinfo : ℕ → ℕ → Linker → Linker × Bool
unfolding set_dt_flags_1 remove_from_spaces remove_preload
remove_global_soinfo api si w =
    let s = set_dt_flags_1 api (bit_and w.target.dt_flags_1 not_df_1_global) w.target in
    let (spaces, s') = remove_from_spaces si w.spaces s in
    if si == 0
    then (w, false)
    else if leb api_n api
    then (record w { target = s'; spaces = spaces }, true)
    else if leb api_m api
    then (record w { target = s }, true)
    else (record w { preloads = remove_preload si w.preloads }, true)
