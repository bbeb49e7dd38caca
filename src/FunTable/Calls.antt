-- ===== src/FunTable/Calls.antt =====
-- The accessors of a soinfo: of linker_soinfo.h (library/src/main/cpp/linker/) the range of
-- Android versions each is declared for, and of linker_soinfo.cpp their calls through the table.
use fake_linker.Prelude.{
  ℕ, zero, suc, Bool, true, Option, none, some, List, [], ◌∷◌, ◌++◌, leb, ◌==◌, if◌then◌else◌,
  Bytes,
}
use fake_linker.FunTable.Name.{
  Name, same_name, name, phdr, phnum, base, size, dynamic, next, flags, strtab, symtab, nbucket,
  nchain, bucket, chain, plt_rela, plt_rela_count, rela, rela_count, preinit_array,
  preinit_array_count, init_array, init_array_count, fini_array, fini_array_count, init_func,
  fini_func, ref_count, link_map_head, constructors_called, load_bias, has_dt_symbolic, version,
  st_dev, st_ino, file_offset, rtld_flags, dt_flags_1, strtab_size, gnu_nbucket, gnu_bucket,
  gnu_chain, gnu_maskwords, gnu_shift2, gnu_bloom_filter, local_group_root, android_relocs,
  android_relocs_size, soname, realpath, versym, verdef_ptr, verdef_cnt, verneed_ptr, verneed_cnt,
  target_sdk_version, dt_runpath, primary_namespace, handle, relr, relr_count, tls, tlsdesc_args,
  gap_start, gap_size,
}
use fake_linker.FunTable.Statement.{
  Layout, Entry, plain, versioned, suffix_l, suffix_p, Getter, default_get, nullptr, reads,
  reads_soname, default_set, writes, writes_soname, SoinfoFunTable, same_layout, Setter,
}
use fake_linker.FunTable.Init.{soname_layout}

pub data Range : Type 0 where
  always : Range
  since : ℕ → Range
  until : ℕ → Range

unfoldable pub in_range : Range → ℕ → Bool
in_range always api = true
in_range (since first) api = leb first api
in_range (until last) api = leb api last

-- ANDROID_GE_* and ANDROID_LE_* of the declarations.
unfoldable pub declared : Entry → Range
declared (plain preinit_array) = until 27
declared (versioned preinit_array suffix_p) = since 28
declared (plain init_array) = until 27
declared (versioned init_array suffix_p) = since 28
declared (plain fini_array) = until 27
declared (plain init_func) = until 27
declared (versioned init_func suffix_p) = since 28
declared (plain fini_func) = until 27
declared (plain file_offset) = since 22
declared (plain rtld_flags) = since 23
declared (versioned rtld_flags suffix_l) = until 22
declared (plain dt_flags_1) = since 23
declared (plain strtab_size) = since 22
declared (plain gnu_nbucket) = since 23
declared (plain gnu_bucket) = since 23
declared (plain gnu_chain) = since 23
declared (plain gnu_maskwords) = since 23
declared (plain gnu_shift2) = since 23
declared (plain gnu_bloom_filter) = since 23
declared (plain local_group_root) = since 23
declared (plain android_relocs) = since 23
declared (plain android_relocs_size) = since 23
declared (plain soname) = since 23
declared (plain realpath) = since 23
declared (plain versym) = since 23
declared (plain verdef_ptr) = since 23
declared (plain verdef_cnt) = since 23
declared (plain verneed_ptr) = since 23
declared (plain verneed_cnt) = since 23
declared (plain target_sdk_version) = since 23
declared (plain dt_runpath) = since 24
declared (plain primary_namespace) = since 24
declared (plain handle) = since 24
declared (plain relr) = since 28
declared (plain relr_count) = since 28
declared (plain tls) = since 29
declared (plain tlsdesc_args) = since 29
declared (plain gap_start) = since 33
declared (plain gap_size) = since 33
declared e = always

unfoldable pub accessors : List Entry
accessors =
    plain phdr
    ∷ plain phnum
    ∷ plain base
    ∷ plain size
    ∷ plain dynamic
    ∷ plain next
    ∷ plain flags
    ∷ plain strtab
    ∷ plain symtab
    ∷ plain nbucket
    ∷ plain nchain
    ∷ plain bucket
    ∷ plain chain
    ∷ plain plt_rela
    ∷ plain plt_rela_count
    ∷ plain rela
    ∷ plain rela_count
    ∷ plain preinit_array
    ∷ versioned preinit_array suffix_p
    ∷ plain preinit_array_count
    ∷ plain init_array
    ∷ versioned init_array suffix_p
    ∷ plain init_array_count
    ∷ plain fini_array
    ∷ plain fini_array_count
    ∷ plain init_func
    ∷ versioned init_func suffix_p
    ∷ plain fini_func
    ∷ plain ref_count
    ∷ plain link_map_head
    ∷ plain constructors_called
    ∷ plain load_bias
    ∷ plain has_dt_symbolic
    ∷ plain version
    ∷ plain st_dev
    ∷ plain st_ino
    ∷ plain file_offset
    ∷ plain rtld_flags
    ∷ versioned rtld_flags suffix_l
    ∷ plain dt_flags_1
    ∷ plain strtab_size
    ∷ plain gnu_nbucket
    ∷ plain gnu_bucket
    ∷ plain gnu_chain
    ∷ plain gnu_maskwords
    ∷ plain gnu_shift2
    ∷ plain gnu_bloom_filter
    ∷ plain local_group_root
    ∷ plain android_relocs
    ∷ plain android_relocs_size
    ∷ plain soname
    ∷ plain realpath
    ∷ plain versym
    ∷ plain verdef_ptr
    ∷ plain verdef_cnt
    ∷ plain verneed_ptr
    ∷ plain verneed_cnt
    ∷ plain target_sdk_version
    ∷ plain dt_runpath
    ∷ plain primary_namespace
    ∷ plain handle
    ∷ plain relr
    ∷ plain relr_count
    ∷ plain tls
    ∷ plain tlsdesc_args
    ∷ plain gap_start
    ∷ plain gap_size
    ∷ []

-- A member holds a word (a number or an address), or a text: a C string, or the bytes of the
-- array `name_`.
pub data Value : Type 0 where
  word : ℕ → Value
  text : Bytes → Value

-- A soinfo: the structure it has, and its members.
pub record Soinfo : Type 0 where
  pub layout : Layout
  pub members : Name → Value

unfoldable pub store : Name → Value → Soinfo → Soinfo
store n v si = record si {
  members = λ m. let old = si.members m in if same_name m n then v else old;
}

-- Through another structure the member would be read at another place: no answer.
unfoldable pub read : Layout → Name → Soinfo → Option Value
read layout n si = if same_layout layout si.layout then some (si.members n) else none

unfoldable pub write : Layout → Name → Value → Soinfo → Option Soinfo
write layout n v si = if same_layout layout si.layout then some (store n v si) else none

-- A slot that holds `default_get`, or a null pointer, stops the process.
unfoldable pub get_member : Getter → Soinfo → Option Value
get_member default_get si = none
get_member nullptr si = none
get_member (reads layout n) si = read layout n si
get_member reads_soname si = none

unfoldable pub c_string : Bytes → Bytes
c_string [] = []
c_string (c ∷ cs) = let rest = c_string cs in if c == 0 then [] else c ∷ rest

unfoldable pub name_text : Option Value → Option Value
name_text (some (text array)) = some (text (c_string array))
name_text answer = none

unfoldable pub get_soname : ℕ → SoinfoFunTable → Soinfo → Option Value
get_soname android_api table si =
    if leb 23 android_api
    then get_member (table.getter (plain soname)) si
    else name_text (get_member (table.getter (plain name)) si)

unfoldable pub apply_getter : ℕ → SoinfoFunTable → Getter → Soinfo → Option Value
apply_getter android_api table default_get si = none
apply_getter android_api table nullptr si = none
apply_getter android_api table (reads layout n) si = read layout n si
apply_getter android_api table reads_soname si = get_soname android_api table si

-- `soinfo::Name()`
unfoldable pub call_get : ℕ → SoinfoFunTable → Entry → Soinfo → Option Value
call_get android_api table e si = apply_getter android_api table (table.getter e) si

abbrev pub soinfo_name_len : ℕ
soinfo_name_len = 128

-- `memcpy` of the first bytes of `name`, with its NUL, over the array `name_`.
unfoldable pub copy_front : ℕ → Bytes → Bytes → Bytes
copy_front zero source array = array
copy_front (suc n) [] array = array
copy_front (suc n) (c ∷ cs) [] = c ∷ copy_front n cs []
copy_front (suc n) (c ∷ cs) (d ∷ ds) = c ∷ copy_front n cs ds

unfoldable pub copied : Bytes → Value → Value
copied source (text array) = text (copy_front soinfo_name_len (source ++ 0 ∷ []) array)
copied source (word w) = word w

unfoldable pub set_soname : ℕ → Value → Soinfo → Option Soinfo
set_soname android_api (word w) si = none
set_soname android_api (text source) si =
    if leb 23 android_api
    then write (soname_layout android_api) soname (text source) si
    else write (soname_layout android_api) name (copied source (si.members name)) si

-- Where `soinfo_undefine_log` is set, a default slot only logs.
unfoldable pub apply_setter : Bool → ℕ → Setter → Value → Soinfo → Option Soinfo
apply_setter undefine_log android_api default_set v si = if undefine_log then some si else none
apply_setter undefine_log android_api (writes layout n) v si = write layout n v si
apply_setter undefine_log android_api writes_soname v si = set_soname android_api v si

-- `soinfo::set_##Name(value)`
unfoldable pub call_set : Bool → ℕ → SoinfoFunTable → Entry → Value → Soinfo → Option Soinfo
call_set undefine_log android_api table e v si =
    apply_setter undefine_log android_api (table.setter e) v si
