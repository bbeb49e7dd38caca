-- ===== src/FunTable/Newest.antt =====
-- What linker_soinfo.cpp (library/src/main/cpp/linker/) writes into the function table on
-- Android 13 to 15: `InitApiV`, `InitApiU`, `InitApiT`, as built for arm64.
use fake_linker.Prelude.{List, [], ◌∷◌}
use fake_linker.FunTable.Name.{
  phdr, phnum, base, size, dynamic, next, flags, strtab, symtab, nbucket, nchain, bucket, chain,
  plt_rela, plt_rela_count, rela, rela_count, preinit_array, preinit_array_count, init_array,
  init_array_count, fini_array, fini_array_count, init_func, fini_func, ref_count, link_map_head,
  constructors_called, load_bias, has_dt_symbolic, version, st_dev, st_ino, children, parents,
  file_offset, rtld_flags, dt_flags_1, strtab_size, gnu_nbucket, gnu_bucket, gnu_chain,
  gnu_maskwords, gnu_shift2, gnu_bloom_filter, local_group_root, android_relocs,
  android_relocs_size, soname, realpath, versym, verdef_ptr, verdef_cnt, verneed_ptr, verneed_cnt,
  target_sdk_version, dt_runpath, primary_namespace, secondary_namespaces, handle, relr, relr_count,
  tls, tlsdesc_args, gap_start, gap_size,
}
use fake_linker.FunTable.Statement.{
  Statement, wrap, ver_wrap, cast_wrap, string_to_charp_wrap, ref_wrap, const_ref_wrap,
  ref_ver_wrap, suffix_p, suffix_t, soinfo_t, soinfo_u, soinfo_v,
}

-- `InitApiV`
unfoldable pub init_api_v : List Statement
init_api_v =
    wrap soinfo_v phdr
    ∷ wrap soinfo_v phnum
    ∷ wrap soinfo_v base
    ∷ wrap soinfo_v size
    ∷ wrap soinfo_v dynamic
    ∷ cast_wrap soinfo_v next
    ∷ wrap soinfo_v flags
    ∷ wrap soinfo_v strtab
    ∷ wrap soinfo_v symtab
    ∷ wrap soinfo_v nbucket
    ∷ wrap soinfo_v nchain
    ∷ wrap soinfo_v bucket
    ∷ wrap soinfo_v chain
    ∷ wrap soinfo_v plt_rela
    ∷ wrap soinfo_v plt_rela_count
    ∷ wrap soinfo_v rela
    ∷ wrap soinfo_v rela_count
    ∷ ver_wrap soinfo_v preinit_array suffix_p
    ∷ wrap soinfo_v preinit_array_count
    ∷ ver_wrap soinfo_v init_array suffix_p
    ∷ wrap soinfo_v init_array_count
    ∷ wrap soinfo_v fini_array
    ∷ wrap soinfo_v fini_array_count
    ∷ ver_wrap soinfo_v init_func suffix_p
    ∷ wrap soinfo_v fini_func
    ∷ wrap soinfo_v ref_count
    ∷ const_ref_wrap soinfo_v link_map_head
    ∷ wrap soinfo_v constructors_called
    ∷ wrap soinfo_v load_bias
    ∷ wrap soinfo_v has_dt_symbolic
    ∷ wrap soinfo_v version
    ∷ wrap soinfo_v st_dev
    ∷ wrap soinfo_v st_ino
    ∷ ref_ver_wrap soinfo_v children suffix_t
    ∷ ref_ver_wrap soinfo_v parents suffix_t
    ∷ wrap soinfo_v file_offset
    ∷ wrap soinfo_v rtld_flags
    ∷ wrap soinfo_v dt_flags_1
    ∷ wrap soinfo_v strtab_size
    ∷ wrap soinfo_v gnu_nbucket
    ∷ wrap soinfo_v gnu_bucket
    ∷ wrap soinfo_v gnu_chain
    ∷ wrap soinfo_v gnu_maskwords
    ∷ wrap soinfo_v gnu_shift2
    ∷ wrap soinfo_v gnu_bloom_filter
    ∷ cast_wrap soinfo_v local_group_root
    ∷ wrap soinfo_v android_relocs
    ∷ wrap soinfo_v android_relocs_size
    ∷ string_to_charp_wrap soinfo_v soname
    ∷ string_to_charp_wrap soinfo_v realpath
    ∷ wrap soinfo_v versym
    ∷ wrap soinfo_v verdef_ptr
    ∷ wrap soinfo_v verdef_cnt
    ∷ wrap soinfo_v verneed_ptr
    ∷ wrap soinfo_v verneed_cnt
    ∷ wrap soinfo_v target_sdk_version
    ∷ const_ref_wrap soinfo_v dt_runpath
    ∷ wrap soinfo_v primary_namespace
    ∷ ref_ver_wrap soinfo_v secondary_namespaces suffix_t
    ∷ wrap soinfo_v handle
    ∷ wrap soinfo_v relr
    ∷ wrap soinfo_v relr_count
    ∷ ref_wrap soinfo_v tls
    ∷ ref_wrap soinfo_v tlsdesc_args
    ∷ wrap soinfo_v gap_start
    ∷ wrap soinfo_v gap_size
    ∷ []

-- `InitApiU`
unfoldable pub init_api_u : List Statement
init_api_u =
    wrap soinfo_u phdr
    ∷ wrap soinfo_u phnum
    ∷ wrap soinfo_u base
    ∷ wrap soinfo_u size
    ∷ wrap soinfo_u dynamic
    ∷ cast_wrap soinfo_u next
    ∷ wrap soinfo_u flags
    ∷ wrap soinfo_u strtab
    ∷ wrap soinfo_u symtab
    ∷ wrap soinfo_u nbucket
    ∷ wrap soinfo_u nchain
    ∷ wrap soinfo_u bucket
    ∷ wrap soinfo_u chain
    ∷ wrap soinfo_u plt_rela
    ∷ wrap soinfo_u plt_rela_count
    ∷ wrap soinfo_u rela
    ∷ wrap soinfo_u rela_count
    ∷ ver_wrap soinfo_u preinit_array suffix_p
    ∷ wrap soinfo_u preinit_array_count
    ∷ ver_wrap soinfo_u init_array suffix_p
    ∷ wrap soinfo_u init_array_count
    ∷ wrap soinfo_u fini_array
    ∷ wrap soinfo_u fini_array_count
    ∷ ver_wrap soinfo_u init_func suffix_p
    ∷ wrap soinfo_u fini_func
    ∷ wrap soinfo_u ref_count
    ∷ const_ref_wrap soinfo_u link_map_head
    ∷ wrap soinfo_u constructors_called
    ∷ wrap soinfo_u load_bias
    ∷ wrap soinfo_u has_dt_symbolic
    ∷ wrap soinfo_u version
    ∷ wrap soinfo_u st_dev
    ∷ wrap soinfo_u st_ino
    ∷ ref_ver_wrap soinfo_u children suffix_t
    ∷ ref_ver_wrap soinfo_u parents suffix_t
    ∷ wrap soinfo_u file_offset
    ∷ wrap soinfo_u rtld_flags
    ∷ wrap soinfo_u dt_flags_1
    ∷ wrap soinfo_u strtab_size
    ∷ wrap soinfo_u gnu_nbucket
    ∷ wrap soinfo_u gnu_bucket
    ∷ wrap soinfo_u gnu_chain
    ∷ wrap soinfo_u gnu_maskwords
    ∷ wrap soinfo_u gnu_shift2
    ∷ wrap soinfo_u gnu_bloom_filter
    ∷ cast_wrap soinfo_u local_group_root
    ∷ wrap soinfo_u android_relocs
    ∷ wrap soinfo_u android_relocs_size
    ∷ string_to_charp_wrap soinfo_u soname
    ∷ string_to_charp_wrap soinfo_u realpath
    ∷ wrap soinfo_u versym
    ∷ wrap soinfo_u verdef_ptr
    ∷ wrap soinfo_u verdef_cnt
    ∷ wrap soinfo_u verneed_ptr
    ∷ wrap soinfo_u verneed_cnt
    ∷ wrap soinfo_u target_sdk_version
    ∷ const_ref_wrap soinfo_u dt_runpath
    ∷ wrap soinfo_u primary_namespace
    ∷ ref_ver_wrap soinfo_u secondary_namespaces suffix_t
    ∷ wrap soinfo_u handle
    ∷ wrap soinfo_u relr
    ∷ wrap soinfo_u relr_count
    ∷ ref_wrap soinfo_u tls
    ∷ ref_wrap soinfo_u tlsdesc_args
    ∷ wrap soinfo_u gap_start
    ∷ wrap soinfo_u gap_size
    ∷ []

-- `InitApiT`
unfoldable pub init_api_t : List Statement
init_api_t =
    wrap soinfo_t phdr
    ∷ wrap soinfo_t phnum
    ∷ wrap soinfo_t base
    ∷ wrap soinfo_t size
    ∷ wrap soinfo_t dynamic
    ∷ cast_wrap soinfo_t next
    ∷ wrap soinfo_t flags
    ∷ wrap soinfo_t strtab
    ∷ wrap soinfo_t symtab
    ∷ wrap soinfo_t nbucket
    ∷ wrap soinfo_t nchain
    ∷ wrap soinfo_t bucket
    ∷ wrap soinfo_t chain
    ∷ wrap soinfo_t plt_rela
    ∷ wrap soinfo_t plt_rela_count
    ∷ wrap soinfo_t rela
    ∷ wrap soinfo_t rela_count
    ∷ ver_wrap soinfo_t preinit_array suffix_p
    ∷ wrap soinfo_t preinit_array_count
    ∷ ver_wrap soinfo_t init_array suffix_p
    ∷ wrap soinfo_t init_array_count
    ∷ wrap soinfo_t fini_array
    ∷ wrap soinfo_t fini_array_count
    ∷ ver_wrap soinfo_t init_func suffix_p
    ∷ wrap soinfo_t fini_func
    ∷ wrap soinfo_t ref_count
    ∷ const_ref_wrap soinfo_t link_map_head
    ∷ wrap soinfo_t constructors_called
    ∷ wrap soinfo_t load_bias
    ∷ wrap soinfo_t has_dt_symbolic
    ∷ wrap soinfo_t version
    ∷ wrap soinfo_t st_dev
    ∷ wrap soinfo_t st_ino
    ∷ ref_ver_wrap soinfo_t children suffix_t
    ∷ ref_ver_wrap soinfo_t parents suffix_t
    ∷ wrap soinfo_t file_offset
    ∷ wrap soinfo_t rtld_flags
    ∷ wrap soinfo_t dt_flags_1
    ∷ wrap soinfo_t strtab_size
    ∷ wrap soinfo_t gnu_nbucket
    ∷ wrap soinfo_t gnu_bucket
    ∷ wrap soinfo_t gnu_chain
    ∷ wrap soinfo_t gnu_maskwords
    ∷ wrap soinfo_t gnu_shift2
    ∷ wrap soinfo_t gnu_bloom_filter
    ∷ cast_wrap soinfo_t local_group_root
    ∷ wrap soinfo_t android_relocs
    ∷ wrap soinfo_t android_relocs_size
    ∷ string_to_charp_wrap soinfo_t soname
    ∷ string_to_charp_wrap soinfo_t realpath
    ∷ wrap soinfo_t versym
    ∷ wrap soinfo_t verdef_ptr
    ∷ wrap soinfo_t verdef_cnt
    ∷ wrap soinfo_t verneed_ptr
    ∷ wrap soinfo_t verneed_cnt
    ∷ wrap soinfo_t target_sdk_version
    ∷ const_ref_wrap soinfo_t dt_runpath
    ∷ wrap soinfo_t primary_namespace
    ∷ ref_ver_wrap soinfo_t secondary_namespaces suffix_t
    ∷ wrap soinfo_t handle
    ∷ wrap soinfo_t relr
    ∷ wrap soinfo_t relr_count
    ∷ ref_wrap soinfo_t tls
    ∷ ref_wrap soinfo_t tlsdesc_args
    ∷ wrap soinfo_t gap_start
    ∷ wrap soinfo_t gap_size
    ∷ []
