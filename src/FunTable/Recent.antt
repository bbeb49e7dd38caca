-- ===== src/FunTable/Recent.antt =====
-- What linker_soinfo.cpp (library/src/main/cpp/linker/) writes into the function table on
-- Android 9 to 12: `InitApiS`, `InitApiQ`, `InitApiP`, as built for arm64.
use fake_linker.Prelude.{List, [], ◌∷◌}
use fake_linker.FunTable.Name.{
  phdr, phnum, base, size, dynamic, next, flags, strtab, symtab, nbucket, nchain, bucket, chain,
  plt_rela, plt_rela_count, rela, rela_count, preinit_array, preinit_array_count, init_array,
  init_array_count, fini_array, fini_array_count, init_func, fini_func, ref_count, link_map_head,
  constructors_called, load_bias, has_dt_symbolic, version, st_dev, st_ino, children, parents,
  file_offset, rtld_flags, dt_flags_1, strtab_size, gnu_nbucket, gnu_bucket, gnu_chain,
  gnu_maskwords, gnu_shift2, gnu_bloom_filter, local_group_root, android_relocs,
  android_relocs_size, soname, realpath, versym, verdef_ptr, verdef_cnt, verneed_ptr, verneed_cnt,
  target_sdk_version, dt_runpath, primary_namespace, secondary_namespaces, handle, relr, relr_count,
  tls, tlsdesc_args, gap_start, gap_size,
}
use fake_linker.FunTable.Statement.{
  Statement, wrap, ver_wrap, cast_wrap, string_to_charp_wrap, ref_wrap, const_ref_wrap, suffix_p,
  soinfo_p, soinfo_q, soinfo_s,
}

-- `InitApiS`
unfoldable pub init_api_s : List Statement
init_api_s =
    wrap soinfo_s phdr
    ∷ wrap soinfo_s phnum
    ∷ wrap soinfo_s base
    ∷ wrap soinfo_s size
    ∷ wrap soinfo_s dynamic
    ∷ cast_wrap soinfo_s next
    ∷ wrap soinfo_s flags
    ∷ wrap soinfo_s strtab
    ∷ wrap soinfo_s symtab
    ∷ wrap soinfo_s nbucket
    ∷ wrap soinfo_s nchain
    ∷ wrap soinfo_s bucket
    ∷ wrap soinfo_s chain
    ∷ wrap soinfo_s plt_rela
    ∷ wrap soinfo_s plt_rela_count
    ∷ wrap soinfo_s rela
    ∷ wrap soinfo_s rela_count
    ∷ ver_wrap soinfo_s preinit_array suffix_p
    ∷ wrap soinfo_s preinit_array_count
    ∷ ver_wrap soinfo_s init_array suffix_p
    ∷ wrap soinfo_s init_array_count
    ∷ wrap soinfo_s fini_array
    ∷ wrap soinfo_s fini_array_count
    ∷ ver_wrap soinfo_s init_func suffix_p
    ∷ wrap soinfo_s fini_func
    ∷ wrap soinfo_s ref_count
    ∷ const_ref_wrap soinfo_s link_map_head
    ∷ wrap soinfo_s constructors_called
    ∷ wrap soinfo_s load_bias
    ∷ wrap soinfo_s has_dt_symbolic
    ∷ wrap soinfo_s version
    ∷ wrap soinfo_s st_dev
    ∷ wrap soinfo_s st_ino
    ∷ ref_wrap soinfo_s children
    ∷ ref_wrap soinfo_s parents
    ∷ wrap soinfo_s file_offset
    ∷ wrap soinfo_s rtld_flags
    ∷ wrap soinfo_s dt_flags_1
    ∷ wrap soinfo_s strtab_size
    ∷ wrap soinfo_s gnu_nbucket
    ∷ wrap soinfo_s gnu_bucket
    ∷ wrap soinfo_s gnu_chain
    ∷ wrap soinfo_s gnu_maskwords
    ∷ wrap soinfo_s gnu_shift2
    ∷ wrap soinfo_s gnu_bloom_filter
    ∷ cast_wrap soinfo_s local_group_root
    ∷ wrap soinfo_s android_relocs
    ∷ wrap soinfo_s android_relocs_size
    ∷ string_to_charp_wrap soinfo_s soname
    ∷ string_to_charp_wrap soinfo_s realpath
    ∷ wrap soinfo_s versym
    ∷ wrap soinfo_s verdef_ptr
    ∷ wrap soinfo_s verdef_cnt
    ∷ wrap soinfo_s verneed_ptr
    ∷ wrap soinfo_s verneed_cnt
    ∷ wrap soinfo_s target_sdk_version
    ∷ const_ref_wrap soinfo_s dt_runpath
    ∷ wrap soinfo_s primary_namespace
    ∷ ref_wrap soinfo_s secondary_namespaces
    ∷ wrap soinfo_s handle
    ∷ wrap soinfo_s relr
    ∷ wrap soinfo_s relr_count
    ∷ ref_wrap soinfo_s tls
    ∷ ref_wrap soinfo_s tlsdesc_args
    ∷ wrap soinfo_s gap_start
    ∷ wrap soinfo_s gap_size
    ∷ []

-- `InitApiQ`
unfoldable pub init_api_q : List Statement
init_api_q =
    wrap soinfo_q phdr
    ∷ wrap soinfo_q phnum
    ∷ wrap soinfo_q base
    ∷ wrap soinfo_q size
    ∷ wrap soinfo_q dynamic
    ∷ cast_wrap soinfo_q next
    ∷ wrap soinfo_q flags
    ∷ wrap soinfo_q strtab
    ∷ wrap soinfo_q symtab
    ∷ wrap soinfo_q nbucket
    ∷ wrap soinfo_q nchain
    ∷ wrap soinfo_q bucket
    ∷ wrap soinfo_q chain
    ∷ wrap soinfo_q plt_rela
    ∷ wrap soinfo_q plt_rela_count
    ∷ wrap soinfo_q rela
    ∷ wrap soinfo_q rela_count
    ∷ ver_wrap soinfo_q preinit_array suffix_p
    ∷ wrap soinfo_q preinit_array_count
    ∷ ver_wrap soinfo_q init_array suffix_p
    ∷ wrap soinfo_q init_array_count
    ∷ wrap soinfo_q fini_array
    ∷ wrap soinfo_q fini_array_count
    ∷ ver_wrap soinfo_q init_func suffix_p
    ∷ wrap soinfo_q fini_func
    ∷ wrap soinfo_q ref_count
    ∷ const_ref_wrap soinfo_q link_map_head
    ∷ wrap soinfo_q constructors_called
    ∷ wrap soinfo_q load_bias
    ∷ wrap soinfo_q has_dt_symbolic
    ∷ wrap soinfo_q version
    ∷ wrap soinfo_q st_dev
    ∷ wrap soinfo_q st_ino
    ∷ ref_wrap soinfo_q children
    ∷ ref_wrap soinfo_q parents
    ∷ wrap soinfo_q file_offset
    ∷ wrap soinfo_q rtld_flags
    ∷ wrap soinfo_q dt_flags_1
    ∷ wrap soinfo_q strtab_size
    ∷ wrap soinfo_q gnu_nbucket
    ∷ wrap soinfo_q gnu_bucket
    ∷ wrap soinfo_q gnu_chain
    ∷ wrap soinfo_q gnu_maskwords
    ∷ wrap soinfo_q gnu_shift2
    ∷ wrap soinfo_q gnu_bloom_filter
    ∷ cast_wrap soinfo_q local_group_root
    ∷ wrap soinfo_q android_relocs
    ∷ wrap soinfo_q android_relocs_size
    ∷ wrap soinfo_q soname
    ∷ string_to_charp_wrap soinfo_q realpath
    ∷ wrap soinfo_q versym
    ∷ wrap soinfo_q verdef_ptr
    ∷ wrap soinfo_q verdef_cnt
    ∷ wrap soinfo_q verneed_ptr
    ∷ wrap soinfo_q verneed_cnt
    ∷ wrap soinfo_q target_sdk_version
    ∷ const_ref_wrap soinfo_q dt_runpath
    ∷ wrap soinfo_q primary_namespace
    ∷ ref_wrap soinfo_q secondary_namespaces
    ∷ wrap soinfo_q handle
    ∷ wrap soinfo_q relr
    ∷ wrap soinfo_q relr_count
    ∷ ref_wrap soinfo_q tls
    ∷ ref_wrap soinfo_q tlsdesc_args
    ∷ []

-- `InitApiP`
unfoldable pub init_api_p : List Statement
init_api_p =
    wrap soinfo_p phdr
    ∷ wrap soinfo_p phnum
    ∷ wrap soinfo_p base
    ∷ wrap soinfo_p size
    ∷ wrap soinfo_p dynamic
    ∷ cast_wrap soinfo_p next
    ∷ wrap soinfo_p flags
    ∷ wrap soinfo_p strtab
    ∷ wrap soinfo_p symtab
    ∷ wrap soinfo_p nbucket
    ∷ wrap soinfo_p nchain
    ∷ wrap soinfo_p bucket
    ∷ wrap soinfo_p chain
    ∷ wrap soinfo_p plt_rela
    ∷ wrap soinfo_p plt_rela_count
    ∷ wrap soinfo_p rela
    ∷ wrap soinfo_p rela_count
    ∷ ver_wrap soinfo_p preinit_array suffix_p
    ∷ wrap soinfo_p preinit_array_count
    ∷ ver_wrap soinfo_p init_array suffix_p
    ∷ wrap soinfo_p init_array_count
    ∷ wrap soinfo_p fini_array
    ∷ wrap soinfo_p fini_array_count
    ∷ ver_wrap soinfo_p init_func suffix_p
    ∷ wrap soinfo_p fini_func
    ∷ wrap soinfo_p ref_count
    ∷ const_ref_wrap soinfo_p link_map_head
    ∷ wrap soinfo_p constructors_called
    ∷ wrap soinfo_p load_bias
    ∷ wrap soinfo_p has_dt_symbolic
    ∷ wrap soinfo_p version
    ∷ wrap soinfo_p st_dev
    ∷ wrap soinfo_p st_ino
    ∷ ref_wrap soinfo_p children
    ∷ ref_wrap soinfo_p parents
    ∷ wrap soinfo_p file_offset
    ∷ wrap soinfo_p rtld_flags
    ∷ wrap soinfo_p dt_flags_1
    ∷ wrap soinfo_p strtab_size
    ∷ wrap soinfo_p gnu_nbucket
    ∷ wrap soinfo_p gnu_bucket
    ∷ wrap soinfo_p gnu_chain
    ∷ wrap soinfo_p gnu_maskwords
    ∷ wrap soinfo_p gnu_shift2
    ∷ wrap soinfo_p gnu_bloom_filter
    ∷ cast_wrap soinfo_p local_group_root
    ∷ wrap soinfo_p android_relocs
    ∷ wrap soinfo_p android_relocs_size
    ∷ wrap soinfo_p soname
    ∷ string_to_charp_wrap soinfo_p realpath
    ∷ wrap soinfo_p versym
    ∷ wrap soinfo_p verdef_ptr
    ∷ wrap soinfo_p verdef_cnt
    ∷ wrap soinfo_p verneed_ptr
    ∷ wrap soinfo_p verneed_cnt
    ∷ cast_wrap soinfo_p target_sdk_version
    ∷ const_ref_wrap soinfo_p dt_runpath
    ∷ wrap soinfo_p primary_namespace
    ∷ ref_wrap soinfo_p secondary_namespaces
    ∷ wrap soinfo_p handle
    ∷ wrap soinfo_p relr
    ∷ wrap soinfo_p relr_count
    ∷ []
