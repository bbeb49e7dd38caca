-- ===== src/FunTable/Middle.antt =====
-- What linker_soinfo.cpp (library/src/main/cpp/linker/) writes into the function table on
-- Android 7 and 8: `InitApiO`, `InitApiN1`, `InitApiN`, as built for arm64.
use fake_linker.Prelude.{List, [], ◌∷◌}
use fake_linker.FunTable.Name.{
  phdr, phnum, base, size, dynamic, next, flags, strtab, symtab, nbucket, nchain, bucket, chain,
  plt_rela, plt_rela_count, rela, rela_count, preinit_array, preinit_array_count, init_array,
  init_array_count, fini_array, fini_array_count, init_func, fini_func, ref_count, link_map_head,
  constructors_called, load_bias, has_dt_symbolic, version, st_dev, st_ino, children, parents,
  file_offset, rtld_flags, dt_flags_1, strtab_size, gnu_nbucket, gnu_bucket, gnu_chain,
  gnu_maskwords, gnu_shift2, gnu_bloom_filter, local_group_root, android_relocs,
  android_relocs_size, soname, realpath, versym, verdef_ptr, verdef_cnt, verneed_ptr, verneed_cnt,
  target_sdk_version, dt_runpath, primary_namespace, secondary_namespaces, handle,
}
use fake_linker.FunTable.Statement.{
  Statement, wrap, cast_wrap, string_to_charp_wrap, ref_wrap, const_ref_wrap, soinfo_n, soinfo_n1,
  soinfo_o,
}

-- `InitApiO`
unfoldable pub init_api_o : List Statement
init_api_o =
    wrap soinfo_o phdr
    ∷ wrap soinfo_o phnum
    ∷ wrap soinfo_o base
    ∷ wrap soinfo_o size
    ∷ wrap soinfo_o dynamic
    ∷ cast_wrap soinfo_o next
    ∷ wrap soinfo_o flags
    ∷ wrap soinfo_o strtab
    ∷ wrap soinfo_o symtab
    ∷ wrap soinfo_o nbucket
    ∷ wrap soinfo_o nchain
    ∷ wrap soinfo_o bucket
    ∷ wrap soinfo_o chain
    ∷ wrap soinfo_o plt_rela
    ∷ wrap soinfo_o plt_rela_count
    ∷ wrap soinfo_o rela
    ∷ wrap soinfo_o rela_count
    ∷ wrap soinfo_o preinit_array
    ∷ wrap soinfo_o preinit_array_count
    ∷ wrap soinfo_o init_array
    ∷ wrap soinfo_o init_array_count
    ∷ wrap soinfo_o fini_array
    ∷ wrap soinfo_o fini_array_count
    ∷ wrap soinfo_o init_func
    ∷ wrap soinfo_o fini_func
    ∷ wrap soinfo_o ref_count
    ∷ const_ref_wrap soinfo_o link_map_head
    ∷ wrap soinfo_o constructors_called
    ∷ wrap soinfo_o load_bias
    ∷ wrap soinfo_o has_dt_symbolic
    ∷ wrap soinfo_o version
    ∷ wrap soinfo_o st_dev
    ∷ wrap soinfo_o st_ino
    ∷ ref_wrap soinfo_o children
    ∷ ref_wrap soinfo_o parents
    ∷ wrap soinfo_o file_offset
    ∷ wrap soinfo_o rtld_flags
    ∷ wrap soinfo_o dt_flags_1
    ∷ wrap soinfo_o strtab_size
    ∷ wrap soinfo_o gnu_nbucket
    ∷ wrap soinfo_o gnu_bucket
    ∷ wrap soinfo_o gnu_chain
    ∷ wrap soinfo_o gnu_maskwords
    ∷ wrap soinfo_o gnu_shift2
    ∷ wrap soinfo_o gnu_bloom_filter
    ∷ cast_wrap soinfo_o local_group_root
    ∷ wrap soinfo_o android_relocs
    ∷ wrap soinfo_o android_relocs_size
    ∷ wrap soinfo_o soname
    ∷ string_to_charp_wrap soinfo_o realpath
    ∷ wrap soinfo_o versym
    ∷ wrap soinfo_o verdef_ptr
    ∷ wrap soinfo_o verdef_cnt
    ∷ wrap soinfo_o verneed_ptr
    ∷ wrap soinfo_o verneed_cnt
    ∷ cast_wrap soinfo_o target_sdk_version
    ∷ const_ref_wrap soinfo_o dt_runpath
    ∷ wrap soinfo_o primary_namespace
    ∷ ref_wrap soinfo_o secondary_namespaces
    ∷ wrap soinfo_o handle
    ∷ []

-- `InitApiN1`
unfoldable pub init_api_n1 : List Statement
init_api_n1 =
    wrap soinfo_n1 phdr
    ∷ wrap soinfo_n1 phnum
    ∷ wrap soinfo_n1 base
    ∷ wrap soinfo_n1 size
    ∷ wrap soinfo_n1 dynamic
    ∷ cast_wrap soinfo_n1 next
    ∷ wrap soinfo_n1 flags
    ∷ wrap soinfo_n1 strtab
    ∷ wrap soinfo_n1 symtab
    ∷ wrap soinfo_n1 nbucket
    ∷ wrap soinfo_n1 nchain
    ∷ wrap soinfo_n1 bucket
    ∷ wrap soinfo_n1 chain
    ∷ wrap soinfo_n1 plt_rela
    ∷ wrap soinfo_n1 plt_rela_count
    ∷ wrap soinfo_n1 rela
    ∷ wrap soinfo_n1 rela_count
    ∷ wrap soinfo_n1 preinit_array
    ∷ wrap soinfo_n1 preinit_array_count
    ∷ wrap soinfo_n1 init_array
    ∷ wrap soinfo_n1 init_array_count
    ∷ wrap soinfo_n1 fini_array
    ∷ wrap soinfo_n1 fini_array_count
    ∷ wrap soinfo_n1 init_func
    ∷ wrap soinfo_n1 fini_func
    ∷ wrap soinfo_n1 ref_count
    ∷ const_ref_wrap soinfo_n1 link_map_head
    ∷ wrap soinfo_n1 constructors_called
    ∷ wrap soinfo_n1 load_bias
    ∷ wrap soinfo_n1 has_dt_symbolic
    ∷ wrap soinfo_n1 version
    ∷ wrap soinfo_n1 st_dev
    ∷ wrap soinfo_n1 st_ino
    ∷ ref_wrap soinfo_n1 children
    ∷ ref_wrap soinfo_n1 parents
    ∷ wrap soinfo_n1 file_offset
    ∷ wrap soinfo_n1 rtld_flags
    ∷ wrap soinfo_n1 dt_flags_1
    ∷ wrap soinfo_n1 strtab_size
    ∷ wrap soinfo_n1 gnu_nbucket
    ∷ wrap soinfo_n1 gnu_bucket
    ∷ wrap soinfo_n1 gnu_chain
    ∷ wrap soinfo_n1 gnu_maskwords
    ∷ wrap soinfo_n1 gnu_shift2
    ∷ wrap soinfo_n1 gnu_bloom_filter
    ∷ cast_wrap soinfo_n1 local_group_root
    ∷ wrap soinfo_n1 android_relocs
    ∷ wrap soinfo_n1 android_relocs_size
    ∷ wrap soinfo_n1 soname
    ∷ string_to_charp_wrap soinfo_n1 realpath
    ∷ wrap soinfo_n1 versym
    ∷ wrap soinfo_n1 verdef_ptr
    ∷ wrap soinfo_n1 verdef_cnt
    ∷ wrap soinfo_n1 verneed_ptr
    ∷ wrap soinfo_n1 verneed_cnt
    ∷ cast_wrap soinfo_n1 target_sdk_version
    ∷ const_ref_wrap soinfo_n1 dt_runpath
    ∷ wrap soinfo_n1 primary_namespace
    ∷ ref_wrap soinfo_n1 secondary_namespaces
    ∷ wrap soinfo_n1 handle
    ∷ []

-- `InitApiN`
unfoldable pub init_api_n : List Statement
init_api_n =
    wrap soinfo_n phdr
    ∷ wrap soinfo_n phnum
    ∷ wrap soinfo_n base
    ∷ wrap soinfo_n size
    ∷ wrap soinfo_n dynamic
    ∷ cast_wrap soinfo_n next
    ∷ wrap soinfo_n flags
    ∷ wrap soinfo_n strtab
    ∷ wrap soinfo_n symtab
    ∷ wrap soinfo_n nbucket
    ∷ wrap soinfo_n nchain
    ∷ wrap soinfo_n bucket
    ∷ wrap soinfo_n chain
    ∷ wrap soinfo_n plt_rela
    ∷ wrap soinfo_n plt_rela_count
    ∷ wrap soinfo_n rela
    ∷ wrap soinfo_n rela_count
    ∷ wrap soinfo_n preinit_array
    ∷ wrap soinfo_n preinit_array_count
    ∷ wrap soinfo_n init_array
    ∷ wrap soinfo_n init_array_count
    ∷ wrap soinfo_n fini_array
    ∷ wrap soinfo_n fini_array_count
    ∷ wrap soinfo_n init_func
    ∷ wrap soinfo_n fini_func
    ∷ wrap soinfo_n ref_count
    ∷ const_ref_wrap soinfo_n link_map_head
    ∷ wrap soinfo_n constructors_called
    ∷ wrap soinfo_n load_bias
    ∷ wrap soinfo_n has_dt_symbolic
    ∷ wrap soinfo_n version
    ∷ wrap soinfo_n st_dev
    ∷ wrap soinfo_n st_ino
    ∷ ref_wrap soinfo_n children
    ∷ ref_wrap soinfo_n parents
    ∷ wrap soinfo_n file_offset
    ∷ wrap soinfo_n rtld_flags
    ∷ wrap soinfo_n dt_flags_1
    ∷ wrap soinfo_n strtab_size
    ∷ wrap soinfo_n gnu_nbucket
    ∷ wrap soinfo_n gnu_bucket
    ∷ wrap soinfo_n gnu_chain
    ∷ wrap soinfo_n gnu_maskwords
    ∷ wrap soinfo_n gnu_shift2
    ∷ wrap soinfo_n gnu_bloom_filter
    ∷ cast_wrap soinfo_n local_group_root
    ∷ wrap soinfo_n android_relocs
    ∷ wrap soinfo_n android_relocs_size
    ∷ wrap soinfo_n soname
    ∷ string_to_charp_wrap soinfo_n realpath
    ∷ wrap soinfo_n versym
    ∷ wrap soinfo_n verdef_ptr
    ∷ wrap soinfo_n verdef_cnt
    ∷ wrap soinfo_n verneed_ptr
    ∷ wrap soinfo_n verneed_cnt
    ∷ cast_wrap soinfo_n target_sdk_version
    ∷ const_ref_wrap soinfo_n dt_runpath
    ∷ wrap soinfo_n primary_namespace
    ∷ ref_wrap soinfo_n secondary_namespaces
    ∷ wrap soinfo_n handle
    ∷ []
