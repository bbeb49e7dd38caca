-- ===== src/FunTable/Init.antt =====
-- What linker_soinfo.cpp (library/src/main/cpp/linker/) writes into the function table at the
-- start: `soinfo::Init`, which picks the version, and `InitCommon`.
use fake_linker.Prelude.{ℕ, List, leb, if◌then◌else◌}
use fake_linker.FunTable.Name.{soname}
use fake_linker.FunTable.Statement.{
  Layout, plain, writes_soname, SoinfoFunTable, Statement, initial_table, with_setter, execute_all,
  soinfo_l, soinfo_l1, soinfo_m, soinfo_n, soinfo_n1, soinfo_o, soinfo_p, soinfo_q, soinfo_s,
  soinfo_t, soinfo_u, soinfo_v,
}
use fake_linker.FunTable.Newest.{init_api_v, init_api_u, init_api_t}
use fake_linker.FunTable.Recent.{init_api_s, init_api_q, init_api_p}
use fake_linker.FunTable.Middle.{init_api_o, init_api_n1, init_api_n}
use fake_linker.FunTable.Oldest.{init_api_m, init_api_l1, init_api_l}

-- `soinfo::Init`, by the Android version.
unfoldable pub init_api : ℕ → List Statement
init_api android_api =
    if leb 35 android_api
    then init_api_v
    else if leb 34 android_api
    then init_api_u
    else if leb 33 android_api
    then init_api_t
    else if leb 31 android_api
    then init_api_s
    else if leb 29 android_api
    then init_api_q
    else if leb 28 android_api
    then init_api_p
    else if leb 26 android_api
    then init_api_o
    else if leb 25 android_api
    then init_api_n1
    else if leb 24 android_api
    then init_api_n
    else if leb 23 android_api
    then init_api_m
    else if leb 22 android_api
    then init_api_l1
    else init_api_l

-- `InitCommon`, as far as the slots differ: it also fills the two slots that are the functions
-- `get_soname` and `soinfo_minimum_size` on every version.
unfoldable pub init_common : SoinfoFunTable → SoinfoFunTable
init_common table = with_setter (plain soname) writes_soname table

unfoldable pub soinfo_init : ℕ → SoinfoFunTable
soinfo_init android_api = init_common (execute_all (init_api android_api) initial_table)

-- The structure whose name `InitCommon` writes on a version.
unfoldable pub soname_layout : ℕ → Layout
soname_layout android_api =
    if leb 35 android_api
    then soinfo_v
    else if leb 34 android_api
    then soinfo_u
    else if leb 33 android_api
    then soinfo_t
    else if leb 31 android_api
    then soinfo_s
    else if leb 29 android_api
    then soinfo_q
    else if leb 28 android_api
    then soinfo_p
    else if leb 26 android_api
    then soinfo_o
    else if leb 25 android_api
    then soinfo_n1
    else if leb 24 android_api
    then soinfo_n
    else if leb 23 android_api
    then soinfo_m
    else if leb 22 android_api
    then soinfo_l1
    else soinfo_l

-- The structure whose size `InitCommon` answers on a version.
unfoldable pub minimum_layout : ℕ → Layout
minimum_layout android_api =
    if leb 35 android_api
    then soinfo_v
    else if leb 34 android_api
    then soinfo_u
    else if leb 33 android_api
    then soinfo_t
    else if leb 31 android_api
    then soinfo_s
    else if leb 29 android_api
    then soinfo_q
    else if leb 28 android_api
    then soinfo_p
    else if leb 26 android_api
    then soinfo_o
    else if leb 25 android_api
    then soinfo_n1
    else if leb 24 android_api
    then soinfo_n
    else if leb 23 android_api
    then soinfo_m
    else if leb 22 android_api
    then soinfo_l
    else soinfo_l

unfoldable pub soinfo_minimum_size : (Layout → ℕ) → ℕ → ℕ
soinfo_minimum_size sizeof android_api = sizeof (minimum_layout android_api)
