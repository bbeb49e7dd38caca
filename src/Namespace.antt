-- ===== src/Namespace.antt =====
-- Linker namespaces: the lists and paths of `android_namespace_t`, and which libraries a namespace
-- gives access to (library/src/main/cpp/linker/linker_namespaces.cpp, and of linker_soinfo.cpp
-- `has_min_version`). A soinfo and a namespace are named by their addresses.
pub mod Members
pub mod Files
pub mod Libraries
use fake_linker.Prelude.{
  ℕ, zero, suc, ◌+◌, ◌-◌, ◌*◌, ◌/◌, ◌%◌, ◌^◌, ◌≤◌, ◌<◌, bit_and, bit_or, bit_xor, ◌≡◌, refl, sym,
  ap, ◌∙◌, ◌≢◌, ◌↔◌, ◌⊎◌, inl, inr, Bool, true, false, not, ◌&&◌, ◌||◌, Option, none, some, List,
  [], ◌∷◌, ◌++◌, map, arith, ltb, leb, ◌==◌, if◌then◌else◌, ltb→lt, leb→le, ==→eq, ==_self, tests,
  Bool-cases, Option-cases, all_below, all_below_at, if-cases, length, is_empty, is_some,
  length-append, All, select, any, Bytes, bytes, text_eq,
}
use fake_linker.Maps.Line.{starts_with}

abbrev pub api_m : ℕ
api_m = 23

abbrev pub api_n : ℕ
api_n = 24

abbrev pub api_q : ℕ
api_q = 29

abbrev pub api_t : ℕ
api_t = 33

abbrev pub flag_new_soinfo : ℕ
flag_new_soinfo = 0x40000000

abbrev pub df_1_global : ℕ
df_1_global = 2

abbrev pub rtld_global : ℕ
rtld_global = 0x100

-- The members of `soinfo` that the namespaces read.
pub record Soinfo : Type 0 where
  pub flags : ℕ
  pub version : ℕ
  pub dt_flags_1 : ℕ
  pub rtld_flags : ℕ
  pub primary_namespace : ℕ
  pub secondary_namespaces : List ℕ
  pub parents : List ℕ

pub record Namespace : Type 0 where
  pub is_isolated : Bool
  pub ld_library_paths : List Bytes
  pub default_library_paths : List Bytes
  pub permitted_paths : List Bytes
  pub whitelisted_libs : List Bytes
  pub soinfo_list : List ℕ

-- `soinfo::has_min_version` of a 64-bit build.
unfoldable pub has_min_version : ℕ → Soinfo → ℕ → Bool
has_min_version api s min_version =
    if leb api_m api
    then true
    else not (bit_and s.flags flag_new_soinfo == 0) && leb min_version s.version

-- `push_back` of the list that `soinfo_list_t_wrapper` stands for: from Android T on it does not
-- look for the element first.
unfoldable pub push_back : ℕ → ℕ → List ℕ → List ℕ
push_back api si list =
    if leb api_t api
    then list ++ si ∷ []
    else if any (λ e. e == si) list
    then list
    else list ++ si ∷ []

unfoldable pub remove_if : (ℕ → Bool) → List ℕ → List ℕ
remove_if predicate [] = []
remove_if predicate (e ∷ es) =
    let rest = remove_if predicate es in if predicate e then rest else e ∷ rest

unfoldable pub find_soinfo : ℕ → Namespace → Bool
find_soinfo si ns = any (λ e. e == si) ns.soinfo_list

unfoldable pub add_soinfo : ℕ → ℕ → Namespace → Namespace
unfolding find_soinfo push_back
add_soinfo api si ns =
    if find_soinfo si ns then ns else record ns { soinfo_list = push_back api si ns.soinfo_list }

unfoldable pub add_soinfos : ℕ → List ℕ → Namespace → Namespace
unfolding find_soinfo add_soinfo
add_soinfos api [] ns = ns
add_soinfos api (si ∷ sis) ns =
    add_soinfos api sis (if find_soinfo si ns then ns else add_soinfo api si ns)

unfoldable pub remove_soinfo : ℕ → Namespace → Namespace
unfolding remove_if
remove_soinfo si ns = record ns {
  soinfo_list = remove_if (λ candidate. si == candidate) ns.soinfo_list;
}

-- `libs.erase(std::remove(…))`
unfoldable pub remove_whitelisted_lib : Bytes → Namespace → Namespace
remove_whitelisted_lib lib ns = record ns {
  whitelisted_libs = select (λ l. not (text_eq l lib)) ns.whitelisted_libs;
}

-- What follows the first bytes of a text.
abbrev pub behind_prefix : Bytes → Bytes → Bytes
behind_prefix [] text = text
behind_prefix (n ∷ needle) [] = []
behind_prefix (n ∷ needle) (c ∷ text) = behind_prefix needle text

abbrev pub is_slash : ℕ → Bool
is_slash c = c == b'/'

-- `haystack[needle_len] == '/'` and no further `/`
abbrev pub is_entry : Bytes → Bool
is_entry [] = false
is_entry (c ∷ rest) = is_slash c && not (any is_slash rest)

abbrev pub is_below : Bytes → Bool
is_below [] = false
is_below (c ∷ rest) = is_slash c

unfoldable pub file_is_in_dir : Bytes → Bytes → Bool
unfolding starts_with
file_is_in_dir file dir = starts_with file dir && is_entry (behind_prefix dir file)

unfoldable pub file_is_under_dir : Bytes → Bytes → Bool
unfolding starts_with
file_is_under_dir file dir = starts_with file dir && is_below (behind_prefix dir file)

-- `is_accessible(const std::string &)`; `basename` is that of libc.
unfoldable pub is_accessible_file : (Bytes → Bytes) → ℕ → Bytes → Namespace → Bool
unfolding file_is_in_dir file_is_under_dir
is_accessible_file basename api file ns =
    if not ns.is_isolated
    then true
    else if leb api_q api
        && not (is_empty ns.whitelisted_libs)
        && not (any (λ lib. text_eq lib (basename file)) ns.whitelisted_libs)
    then false
    else if any (file_is_in_dir file) ns.ld_library_paths
    then true
    else if any (file_is_in_dir file) ns.default_library_paths
    then true
    else any (file_is_under_dir file) ns.permitted_paths

-- The lambda `is_accessible_ftor` of the namespace at address `self`.
unfoldable pub is_accessible_ftor : ℕ → ℕ → Soinfo → Bool → Bool
unfolding has_min_version
is_accessible_ftor api self si allow_secondary =
    if not (has_min_version api si 3)
    then false
    else if si.primary_namespace == self
    then true
    else if allow_secondary
    then any (λ n. n == self) si.secondary_namespaces
    else false

-- `visit`: true unless an action answers false.
abbrev pub visit : (ℕ → Bool) → List ℕ → Bool
visit action [] = true
visit action (e ∷ es) = let rest = visit action es in if not (action e) then false else rest

-- `is_accessible(soinfo *)`, where `heap` holds the soinfos by address.
unfoldable pub is_accessible_soinfo : (ℕ → Soinfo) → ℕ → ℕ → Soinfo → Bool
unfolding is_accessible_ftor
is_accessible_soinfo heap api self s =
    if is_accessible_ftor api self s true
    then true
    else not (visit (λ p. not (is_accessible_ftor api self (heap p) false)) s.parents)

-- A loop of `for_each` with `push_back` on a list of the older kind.
unfoldable pub group_by : (Soinfo → Bool) → (ℕ → Soinfo) → List ℕ → List ℕ → List ℕ
unfolding push_back
group_by test heap [] group = group
group_by test heap (si ∷ sis) group =
    group_by test heap sis (if test (heap si) then push_back 0 si group else group)

unfoldable pub get_global_group : (ℕ → Soinfo) → Namespace → List ℕ
unfolding group_by
get_global_group heap ns =
    group_by (λ (s : Soinfo). not (bit_and s.dt_flags_1 df_1_global == 0)) heap ns.soinfo_list []

unfoldable pub get_shared_group : (ℕ → Soinfo) → Bool → Namespace → List ℕ
unfolding group_by get_global_group
get_shared_group heap is_default ns =
    if is_default
    then get_global_group heap ns
    else group_by (λ (s : Soinfo). not (bit_and s.rtld_flags rtld_global == 0)) heap ns.soinfo_list
        []
