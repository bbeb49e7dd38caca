-- ===== src/FunTable/Oldest.antt =====
-- What linker_soinfo.cpp (library/src/main/cpp/linker/) writes into the function table on
-- Android 5 and 6: `InitApiM`, `InitApiL1`, `InitApiL`, as built for arm64.
use fake_linker.Prelude.{List, [], ◌∷◌}
use fake_linker.FunTable.Name.{
  name, phdr, phnum, base, size, dynamic, next, flags, strtab, symtab, nbucket, nchain, bucket,
  chain, plt_rela, plt_rela_count, rela, rela_count, preinit_array, preinit_array_count, init_array,
  init_array_count, fini_array, fini_array_count, init_func, fini_func, ref_count, link_map_head,
  constructors_called, load_bias, has_dt_symbolic, version, st_dev, st_ino, children, parents,
  file_offset, rtld_flags, dt_flags_1, strtab_size, gnu_nbucket, gnu_bucket, gnu_chain,
  gnu_maskwords, gnu_shift2, gnu_bloom_filter, local_group_root, android_relocs,
  android_relocs_size, soname, realpath, versym, verdef_ptr, verdef_cnt, verneed_ptr, verneed_cnt,
  target_sdk_version,
}
use fake_linker.FunTable.Statement.{
  Statement, null, get_wrap, wrap, ver_wrap, cast_wrap, string_to_charp_wrap, ref_wrap,
  const_ref_wrap, realpath_from_soname, suffix_l, soinfo_l, soinfo_l1, soinfo_m,
}

-- `InitApiM`
unfoldable pub init_api_m : List Statement
init_api_m =
    wrap soinfo_m phdr
    ∷ wrap soinfo_m phnum
    ∷ wrap soinfo_m base
    ∷ wrap soinfo_m size
    ∷ wrap soinfo_m dynamic
    ∷ cast_wrap soinfo_m next
    ∷ wrap soinfo_m flags
    ∷ wrap soinfo_m strtab
    ∷ wrap soinfo_m symtab
    ∷ wrap soinfo_m nbucket
    ∷ wrap soinfo_m nchain
    ∷ wrap soinfo_m bucket
    ∷ wrap soinfo_m chain
    ∷ wrap soinfo_m plt_rela
    ∷ wrap soinfo_m plt_rela_count
    ∷ wrap soinfo_m rela
    ∷ wrap soinfo_m rela_count
    ∷ wrap soinfo_m preinit_array
    ∷ wrap soinfo_m preinit_array_count
    ∷ wrap soinfo_m init_array
    ∷ wrap soinfo_m init_array_count
    ∷ wrap soinfo_m fini_array
    ∷ wrap soinfo_m fini_array_count
    ∷ wrap soinfo_m init_func
    ∷ wrap soinfo_m fini_func
    ∷ wrap soinfo_m ref_count
    ∷ const_ref_wrap soinfo_m link_map_head
    ∷ wrap soinfo_m constructors_called
    ∷ wrap soinfo_m load_bias
    ∷ wrap soinfo_m has_dt_symbolic
    ∷ wrap soinfo_m version
    ∷ wrap soinfo_m st_dev
    ∷ wrap soinfo_m st_ino
    ∷ ref_wrap soinfo_m children
    ∷ ref_wrap soinfo_m parents
    ∷ wrap soinfo_m file_offset
    ∷ wrap soinfo_m rtld_flags
    ∷ wrap soinfo_m dt_flags_1
    ∷ wrap soinfo_m strtab_size
    ∷ wrap soinfo_m gnu_nbucket
    ∷ wrap soinfo_m gnu_bucket
    ∷ wrap soinfo_m gnu_chain
    ∷ wrap soinfo_m gnu_maskwords
    ∷ wrap soinfo_m gnu_shift2
    ∷ wrap soinfo_m gnu_bloom_filter
    ∷ cast_wrap soinfo_m local_group_root
    ∷ wrap soinfo_m android_relocs
    ∷ wrap soinfo_m android_relocs_size
    ∷ wrap soinfo_m soname
    ∷ string_to_charp_wrap soinfo_m realpath
    ∷ wrap soinfo_m versym
    ∷ wrap soinfo_m verdef_ptr
    ∷ wrap soinfo_m verdef_cnt
    ∷ wrap soinfo_m verneed_ptr
    ∷ wrap soinfo_m verneed_cnt
    ∷ cast_wrap soinfo_m target_sdk_version
    ∷ []

-- `InitApiL1`
unfoldable pub init_api_l1 : List Statement
init_api_l1 =
    get_wrap soinfo_l1 name
    ∷ wrap soinfo_l1 phdr
    ∷ wrap soinfo_l1 phnum
    ∷ wrap soinfo_l1 base
    ∷ wrap soinfo_l1 size
    ∷ wrap soinfo_l1 dynamic
    ∷ cast_wrap soinfo_l1 next
    ∷ wrap soinfo_l1 flags
    ∷ wrap soinfo_l1 strtab
    ∷ wrap soinfo_l1 symtab
    ∷ wrap soinfo_l1 nbucket
    ∷ wrap soinfo_l1 nchain
    ∷ wrap soinfo_l1 bucket
    ∷ wrap soinfo_l1 chain
    ∷ wrap soinfo_l1 plt_rela
    ∷ wrap soinfo_l1 plt_rela_count
    ∷ wrap soinfo_l1 rela
    ∷ wrap soinfo_l1 rela_count
    ∷ wrap soinfo_l1 preinit_array
    ∷ wrap soinfo_l1 preinit_array_count
    ∷ wrap soinfo_l1 init_array
    ∷ wrap soinfo_l1 init_array_count
    ∷ wrap soinfo_l1 fini_array
    ∷ wrap soinfo_l1 fini_array_count
    ∷ wrap soinfo_l1 init_func
    ∷ wrap soinfo_l1 fini_func
    ∷ wrap soinfo_l1 ref_count
    ∷ const_ref_wrap soinfo_l1 link_map_head
    ∷ wrap soinfo_l1 constructors_called
    ∷ wrap soinfo_l1 load_bias
    ∷ wrap soinfo_l1 has_dt_symbolic
    ∷ wrap soinfo_l1 version
    ∷ wrap soinfo_l1 st_dev
    ∷ wrap soinfo_l1 st_ino
    ∷ ref_wrap soinfo_l1 children
    ∷ ref_wrap soinfo_l1 parents
    ∷ wrap soinfo_l1 file_offset
    ∷ ver_wrap soinfo_l1 rtld_flags suffix_l
    ∷ null dt_flags_1
    ∷ wrap soinfo_l1 strtab_size
    ∷ null gnu_nbucket
    ∷ null gnu_bucket
    ∷ null gnu_chain
    ∷ null gnu_maskwords
    ∷ null gnu_shift2
    ∷ null gnu_bloom_filter
    ∷ null local_group_root
    ∷ null android_relocs
    ∷ null android_relocs_size
    ∷ null soname
    ∷ realpath_from_soname
    ∷ null versym
    ∷ null verdef_ptr
    ∷ null verdef_cnt
    ∷ null verneed_ptr
    ∷ null verneed_cnt
    ∷ null target_sdk_version
    ∷ []

-- `InitApiL`
unfoldable pub init_api_l : List Statement
init_api_l =
    get_wrap soinfo_l name
    ∷ wrap soinfo_l phdr
    ∷ wrap soinfo_l phnum
    ∷ wrap soinfo_l base
    ∷ wrap soinfo_l size
    ∷ wrap soinfo_l dynamic
    ∷ cast_wrap soinfo_l next
    ∷ wrap soinfo_l flags
    ∷ wrap soinfo_l strtab
    ∷ wrap soinfo_l symtab
    ∷ wrap soinfo_l nbucket
    ∷ wrap soinfo_l nchain
    ∷ wrap soinfo_l bucket
    ∷ wrap soinfo_l chain
    ∷ wrap soinfo_l plt_rela
    ∷ wrap soinfo_l plt_rela_count
    ∷ wrap soinfo_l rela
    ∷ wrap soinfo_l rela_count
    ∷ wrap soinfo_l preinit_array
    ∷ wrap soinfo_l preinit_array_count
    ∷ wrap soinfo_l init_array
    ∷ wrap soinfo_l init_array_count
    ∷ wrap soinfo_l fini_array
    ∷ wrap soinfo_l fini_array_count
    ∷ wrap soinfo_l init_func
    ∷ wrap soinfo_l fini_func
    ∷ wrap soinfo_l ref_count
    ∷ const_ref_wrap soinfo_l link_map_head
    ∷ wrap soinfo_l constructors_called
    ∷ wrap soinfo_l load_bias
    ∷ wrap soinfo_l has_dt_symbolic
    ∷ wrap soinfo_l version
    ∷ wrap soinfo_l st_dev
    ∷ wrap soinfo_l st_ino
    ∷ ref_wrap soinfo_l children
    ∷ ref_wrap soinfo_l parents
    ∷ null file_offset
    ∷ null rtld_flags
    ∷ null dt_flags_1
    ∷ null strtab_size
    ∷ null gnu_nbucket
    ∷ null gnu_bucket
    ∷ null gnu_chain
    ∷ null gnu_maskwords
    ∷ null gnu_shift2
    ∷ null gnu_bloom_filter
    ∷ null local_group_root
    ∷ null android_relocs
    ∷ null android_relocs_size
    ∷ null soname
    ∷ realpath_from_soname
    ∷ null versym
    ∷ null verdef_ptr
    ∷ null verdef_cnt
    ∷ null verneed_ptr
    ∷ null verneed_cnt
    ∷ null target_sdk_version
    ∷ []
