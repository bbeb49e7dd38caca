-- ===== src/FunTable/Name.antt =====
-- The members of `soinfo` that the function table of linker_soinfo.cpp
-- (library/src/main/cpp/linker/) names, without their last underscore, as built for arm64.
pub mod Same
use fake_linker.Prelude.{
  ℕ, zero, suc, ◌+◌, ◌-◌, ◌*◌, ◌/◌, ◌%◌, ◌^◌, ◌≤◌, ◌<◌, bit_and, bit_or, bit_xor, ◌≡◌, refl, sym,
  ap, ◌∙◌, ◌≢◌, ◌↔◌, ◌⊎◌, inl, inr, Bool, true, false, not, ◌&&◌, ◌||◌, Option, none, some, List,
  [], ◌∷◌, ◌++◌, map, arith, ltb, leb, ◌==◌, if◌then◌else◌, ltb→lt, leb→le, ==→eq, ==_self, tests,
  Bool-cases, Option-cases, all_below, all_below_at, if-cases, length, is_empty, is_some,
  length-append, All, select, any, Bytes, bytes, text_eq,
}

pub data Name : Type 0 where
  name : Name
  phdr : Name
  phnum : Name
  base : Name
  size : Name
  dynamic : Name
  next : Name
  flags : Name
  strtab : Name
  symtab : Name
  nbucket : Name
  nchain : Name
  bucket : Name
  chain : Name
  plt_rela : Name
  plt_rela_count : Name
  rela : Name
  rela_count : Name
  preinit_array : Name
  preinit_array_count : Name
  init_array : Name
  init_array_count : Name
  fini_array : Name
  fini_array_count : Name
  init_func : Name
  fini_func : Name
  ref_count : Name
  link_map_head : Name
  constructors_called : Name
  load_bias : Name
  has_dt_symbolic : Name
  version : Name
  st_dev : Name
  st_ino : Name
  children : Name
  parents : Name
  file_offset : Name
  rtld_flags : Name
  dt_flags_1 : Name
  strtab_size : Name
  gnu_nbucket : Name
  gnu_bucket : Name
  gnu_chain : Name
  gnu_maskwords : Name
  gnu_shift2 : Name
  gnu_bloom_filter : Name
  local_group_root : Name
  android_relocs : Name
  android_relocs_size : Name
  soname : Name
  realpath : Name
  versym : Name
  verdef_ptr : Name
  verdef_cnt : Name
  verneed_ptr : Name
  verneed_cnt : Name
  target_sdk_version : Name
  dt_runpath : Name
  primary_namespace : Name
  secondary_namespaces : Name
  handle : Name
  relr : Name
  relr_count : Name
  tls : Name
  tlsdesc_args : Name
  gap_start : Name
  gap_size : Name
  memtag_dynamic_entries : Name

-- Every name once, in the order of the table.
unfoldable pub names : List Name
names =
    name ∷ phdr ∷ phnum ∷ base ∷ size ∷ dynamic ∷ next ∷ flags ∷ strtab ∷ symtab ∷ nbucket ∷ nchain
    ∷ bucket ∷ chain ∷ plt_rela ∷ plt_rela_count ∷ rela ∷ rela_count ∷ preinit_array
    ∷ preinit_array_count ∷ init_array ∷ init_array_count ∷ fini_array ∷ fini_array_count
    ∷ init_func ∷ fini_func ∷ ref_count ∷ link_map_head ∷ constructors_called ∷ load_bias
    ∷ has_dt_symbolic ∷ version ∷ st_dev ∷ st_ino ∷ children ∷ parents ∷ file_offset ∷ rtld_flags
    ∷ dt_flags_1 ∷ strtab_size ∷ gnu_nbucket ∷ gnu_bucket ∷ gnu_chain ∷ gnu_maskwords ∷ gnu_shift2
    ∷ gnu_bloom_filter ∷ local_group_root ∷ android_relocs ∷ android_relocs_size ∷ soname ∷ realpath
    ∷ versym ∷ verdef_ptr ∷ verdef_cnt ∷ verneed_ptr ∷ verneed_cnt ∷ target_sdk_version ∷ dt_runpath
    ∷ primary_namespace ∷ secondary_namespaces ∷ handle ∷ relr ∷ relr_count ∷ tls ∷ tlsdesc_args
    ∷ gap_start ∷ gap_size ∷ memtag_dynamic_entries ∷ []

unfoldable pub index : Name → ℕ
index name = 0
index phdr = 1
index phnum = 2
index base = 3
index size = 4
index dynamic = 5
index next = 6
index flags = 7
index strtab = 8
index symtab = 9
index nbucket = 10
index nchain = 11
index bucket = 12
index chain = 13
index plt_rela = 14
index plt_rela_count = 15
index rela = 16
index rela_count = 17
index preinit_array = 18
index preinit_array_count = 19
index init_array = 20
index init_array_count = 21
index fini_array = 22
index fini_array_count = 23
index init_func = 24
index fini_func = 25
index ref_count = 26
index link_map_head = 27
index constructors_called = 28
index load_bias = 29
index has_dt_symbolic = 30
index version = 31
index st_dev = 32
index st_ino = 33
index children = 34
index parents = 35
index file_offset = 36
index rtld_flags = 37
index dt_flags_1 = 38
index strtab_size = 39
index gnu_nbucket = 40
index gnu_bucket = 41
index gnu_chain = 42
index gnu_maskwords = 43
index gnu_shift2 = 44
index gnu_bloom_filter = 45
index local_group_root = 46
index android_relocs = 47
index android_relocs_size = 48
index soname = 49
index realpath = 50
index versym = 51
index verdef_ptr = 52
index verdef_cnt = 53
index verneed_ptr = 54
index verneed_cnt = 55
index target_sdk_version = 56
index dt_runpath = 57
index primary_namespace = 58
index secondary_namespaces = 59
index handle = 60
index relr = 61
index relr_count = 62
index tls = 63
index tlsdesc_args = 64
index gap_start = 65
index gap_size = 66
index memtag_dynamic_entries = 67

unfoldable pub same_name : Name → Name → Bool
same_name a b = index a == index b
